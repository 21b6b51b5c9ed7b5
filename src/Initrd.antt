-- ===== src/Initrd.antt =====
-- The initial RAM disk of src/impl/initrd.c and src/include/initrd.h. Names are lists of bytes
-- without the terminator; nodes are known by address: the root, `/dev`, and the files, which lie
-- behind one another from `root_nodes` on. The headers are held apart from the memory: the places
-- that `initialise_initrd` moves in them do not change it.
pub mod Read
pub mod Find
pub mod Mounted
mod Tests
use nembus_os.Base.{
  ℕ, zero, suc, ◌+◌, ◌-◌, ◌*◌, ◌/◌, ◌%◌, Bool, true, false, not, ◌&&◌, Option, none, some, List, [],
  ◌∷◌, map, ltb, leb, ◌==◌, if◌then◌else◌, length, get_elem?,
}
use nembus_os.Base.Words.{add32, sub32}
use nembus_os.Base.Outcome.{Outcome, ok, fault, ◌>>=◌, or_fault}
use nembus_os.Memory.{Memory, memcpy}
use nembus_os.Vfs.{FsNode, Dirent, Calls, fs_file, fs_directory}

-- `initrd_file_header_t`
pub record FileHeader : Type 0 where
  pub magic : ℕ
  pub name : List ℕ
  pub offset : ℕ
  pub length : ℕ

-- The functions that a node's pointers name.
pub data InitrdFn : Type 0 where
  initrd_read initrd_readdir initrd_finddir : InitrdFn

abbrev pub Node : Type 0
Node = FsNode InitrdFn

pub record Initrd : Type 0 where
  pub file_headers : List FileHeader
  pub initrd_root : ℕ
  pub initrd_dev : ℕ
  pub root_nodes : ℕ
  pub nodes : List Node
  pub mem : Memory

-- `sizeof(fs_node_t)`: 128 bytes of name and fourteen words.
abbrev pub sizeof_node : ℕ
sizeof_node = 184

abbrev pub dev_name : List ℕ
dev_name = b'd' ∷ b'e' ∷ b'v' ∷ []

-- `!strcmp(a, b)`
abbrev pub same_name : List ℕ → List ℕ → Bool
same_name [] [] = true
same_name [] (b ∷ bs) = false
same_name (a ∷ as') [] = false
same_name (a ∷ as') (b ∷ bs) = (a == b) && same_name as' bs

-- `offset + size` wraps.
pub read : (inode offset size buffer : ℕ) → Initrd → Outcome (Initrd × ℕ)
read inode offset size buffer d = do
  header ← or_fault (get_elem? d.file_headers inode)
  let len = (if ltb header.length (add32 offset size) then sub32 header.length offset else size)
  if ltb header.length offset
      then ok (d, 0)
      else ok (record d { mem = memcpy d.mem buffer (add32 header.offset offset) len }, len)

-- `index - 1` wraps at 0, and is compared as an unsigned number.
pub readdir : (node index : ℕ) → Initrd → Outcome (Option Dirent)
readdir node index d =
    if (node == d.initrd_root) && (index == 0)
    then ok (some (record { name = dev_name; ino = 0 }))
    else if leb (length d.nodes) (sub32 index 1)
    then ok none
    else (do
      entry ← or_fault (get_elem? d.nodes (sub32 index 1))
      ok (some (record { name = entry.name; ino = entry.inode })))

-- The loop of `initrd_finddir`, over the nodes from the `i`th on.
pub find_node : (name : List ℕ) → List Node → (i : ℕ) → Option ℕ
find_node name [] i = none
find_node name (node ∷ nodes) i =
    let rest = find_node name nodes (i + 1) in if same_name name node.name then some i else rest

pub finddir : (node : ℕ) → (name : List ℕ) → Initrd → Option ℕ
unfolding find_node
finddir node name d =
    let found = find_node name d.nodes 0 in
    if (node == d.initrd_root) && same_name name dev_name
    then some d.initrd_dev
    else elim found [ none ↦ none | some i ↦ some (add32 d.root_nodes (i * sizeof_node)) ]

-- The node of a directory, as `initialise_initrd` fills it.
abbrev directory_node : (name : List ℕ) → Node
directory_node name = record {
  name = name;
  mask = 0;
  uid = 0;
  gid = 0;
  flags = fs_directory;
  inode = 0;
  length = 0;
  impl = 0;
  read = none;
  write = none;
  open_node = none;
  close = none;
  readdir = some initrd_readdir;
  finddir = some initrd_finddir;
  ptr = 0;
}

-- The node of file `i`; `ptr` keeps what the fresh memory held, `garbage`.
abbrev pub file_node : (garbage i : ℕ) → FileHeader → Node
file_node garbage i header = record {
  name = header.name;
  mask = 0;
  uid = 0;
  gid = 0;
  flags = fs_file;
  inode = i;
  length = header.length;
  impl = 0;
  read = some initrd_read;
  write = none;
  open_node = none;
  close = none;
  readdir = none;
  finddir = none;
  ptr = garbage;
}

-- The loop of `initialise_initrd`, over the headers from the `i`th on.
pub fill_nodes : (garbage : ℕ → ℕ) → List FileHeader → (i : ℕ) → List Node
fill_nodes garbage [] i = []
fill_nodes garbage (header ∷ headers) i =
    file_node (garbage i) i header ∷ fill_nodes garbage headers (i + 1)

abbrev pub relocate : (location : ℕ) → FileHeader → FileHeader
relocate location header = record header { offset = add32 header.offset location }

-- `root`, `dev` and `nodes` are the addresses that `kmalloc` returns.
pub initialise_initrd :
    (location root dev nodes : ℕ) → (garbage : ℕ → ℕ) → List FileHeader → Memory → Initrd
unfolding fill_nodes
initialise_initrd location root dev nodes garbage headers mem = record {
  file_headers = map (relocate location) headers;
  initrd_root = root;
  initrd_dev = dev;
  root_nodes = nodes;
  nodes = fill_nodes garbage headers 0;
  mem = mem;
}

-- The file's node at an address in the array of nodes. Only these nodes have `initrd_read`.
abbrev pub file_at : (address : ℕ) → Initrd → Option Node
file_at address d = get_elem? d.nodes (sub32 address d.root_nodes / sizeof_node)

-- The switch's calls on a node of the disk.
abbrev pub initrd_calls : Calls InitrdFn Initrd
initrd_calls = record {
  transfer = λ fn address offset size buffer d. elim fn [
    | initrd_read ↦ or_fault (file_at address d) >>= (λ node. read node.inode offset size buffer d)
    | _ ↦ fault
  ];
  notify = λ fn address d. fault;
  list = λ fn address index d. elim fn [
    | initrd_readdir ↦ readdir address index d >>= λ e. ok (d, e)
    | _ ↦ fault
  ];
  find = λ fn address name d. elim fn [ initrd_finddir ↦ ok (finddir address name d) | _ ↦ fault ];
}
