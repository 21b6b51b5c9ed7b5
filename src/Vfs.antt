-- ===== src/Vfs.antt =====
-- The file system switch of src/impl/vfs.c and src/include/vfs.h. A node's function pointers are
-- names of a type `Fn`, and `Calls` says what a call through such a pointer does to the state `S`.
use nembus_os.Base.{ℕ, Option, none, some, List, ◌==◌, if◌then◌else◌, bit_and}
use nembus_os.Base.Outcome.{Outcome, ok}

abbrev pub fs_file : ℕ
fs_file = 0x01

abbrev pub fs_directory : ℕ
fs_directory = 0x02

-- `fs_node_t`; `ptr` is an address, 0 for null, and the name is given by its bytes.
pub record FsNode (Fn : Type 0) : Type 0 where
  pub name : List ℕ
  pub mask : ℕ
  pub uid : ℕ
  pub gid : ℕ
  pub flags : ℕ
  pub inode : ℕ
  pub length : ℕ
  pub impl : ℕ
  pub read : Option Fn
  pub write : Option Fn
  pub open_node : Option Fn
  pub close : Option Fn
  pub readdir : Option Fn
  pub finddir : Option Fn
  pub ptr : ℕ

-- `struct dirent`
pub record Dirent : Type 0 where
  pub name : List ℕ
  pub ino : ℕ

-- A call through a function pointer; the node is passed by its address.
pub record Calls (Fn S : Type 0) : Type 0 where
  pub transfer : Fn → (node offset size buffer : ℕ) → S → Outcome (S × ℕ)
  pub notify : Fn → (node : ℕ) → S → Outcome S
  pub list : Fn → (node index : ℕ) → S → Outcome (S × Option Dirent)
  pub find : Fn → (node : ℕ) → (name : List ℕ) → S → Outcome (Option ℕ)

module _ {Fn S : Type 0} (calls : Calls Fn S) where
  unfoldable pub read_fs :
      (address : ℕ) → FsNode Fn → (offset size buffer : ℕ) → S → Outcome (S × ℕ)
  read_fs address node offset size buffer s = elim node.read [
    | none ↦ ok (s, 0)
    | some fn ↦ calls.transfer fn address offset size buffer s
  ]

  unfoldable write_fs : (address : ℕ) → FsNode Fn → (offset size buffer : ℕ) → S → Outcome (S × ℕ)
  write_fs address node offset size buffer s = elim node.write [
    | none ↦ ok (s, 0)
    | some fn ↦ calls.transfer fn address offset size buffer s
  ]

  unfoldable open_fs : (address : ℕ) → FsNode Fn → (read write : ℕ) → S → Outcome S
  open_fs address node read write s = elim node.open_node [
    | none ↦ ok s
    | some fn ↦ calls.notify fn address s
  ]

  unfoldable close_fs : (address : ℕ) → FsNode Fn → S → Outcome S
  close_fs address node s = elim node.close [ none ↦ ok s | some fn ↦ calls.notify fn address s ]

  unfoldable readdir_fs : (address : ℕ) → FsNode Fn → (index : ℕ) → S → Outcome (S × Option Dirent)
  readdir_fs address node index s = elim node.readdir [
    | none ↦ ok (s, none)
    | some fn ↦
        if bit_and node.flags 0x7 == fs_directory
        then calls.list fn address index s
        else ok (s, none)
  ]

  unfoldable finddir_fs : (address : ℕ) → FsNode Fn → (name : List ℕ) → S → Outcome (Option ℕ)
  finddir_fs address node name s = elim node.finddir [
    | none ↦ ok none
    | some fn ↦
        if bit_and node.flags 0x7 == fs_directory then calls.find fn address name s else ok none
  ]
