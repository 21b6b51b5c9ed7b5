-- ===== src/Initrd/Find.antt =====
-- `initrd_readdir` and `initrd_finddir` against the list of files.
use nembus_os.Base.{
  ℕ, zero, suc, ◌+◌, ◌*◌, ◌^◌, ◌<◌, ◌≡◌, refl, ◌∙◌, ap, arith, true, false, none, some, List, [],
  ◌∷◌, get_elem?, length, eq→==,
}
use nembus_os.Base.Words.{add32, sub32}
use nembus_os.Base.Outcome.{ok}
use nembus_os.Memory.{Memory}
use nembus_os.Initrd.{
  FileHeader, Initrd, Node, dev_name, same_name, readdir, find_node, finddir, sizeof_node,
  file_node, fill_nodes, initialise_initrd,
}

same_name_iff : (a b : List ℕ) → same_name a b ≡ true → a ≡ b
same_name_iff [] [] e = refl
same_name_iff [] (y ∷ b) e = cc
same_name_iff (x ∷ a) [] e = cc
same_name_iff (x ∷ a) (y ∷ b) e = ground (arith, same_name_iff a b)

same_name_refl : (a : List ℕ) → same_name a a ≡ true
same_name_refl [] = refl
same_name_refl (x ∷ a) = rw (eq→== x x refl) (same_name_refl a)

-- The names of the first `i` nodes differ from `name`.
abbrev IsNew : (name : List ℕ) → List Node → ℕ → Type 0
IsNew name nodes zero = Unit {0}
IsNew name [] (suc i) = Unit {0}
IsNew name (node ∷ nodes) (suc i) = (same_name name node.name ≡ false) × IsNew name nodes i

find_node-first :
    (nodes : List Node) (i k : ℕ) (node : Node)
    → get_elem? nodes i ≡ some node
    → IsNew node.name nodes i
    → find_node node.name nodes k ≡ some (k + i)
unfolding find_node
find_node-first [] i k node at new = cc
find_node-first (n ∷ nodes) zero k node at new =
    let here : n ≡ node = cc in
    rw (ap (λ (x : Node). same_name node.name x.name) here, same_name_refl node.name)
      (ap some (omega arith))
find_node-first (n ∷ nodes) (suc i) k node at new =
    rw new.0 (find_node-first nodes i (k + 1) node at new.1 ∙ ap some (omega arith))

-- A file whose name no earlier file has, and which is not called `dev`, is found by its name, in
-- every directory.
pub finddir-first :
    (d : Initrd) (dir i : ℕ) (node : Node)
    → get_elem? d.nodes i ≡ some node
    → IsNew node.name d.nodes i
    → same_name node.name dev_name ≡ false
    → finddir dir node.name d ≡ some (add32 d.root_nodes (i * sizeof_node))
unfolding finddir
finddir-first d dir i node at new other = ground (arith, find_node-first d.nodes i 0 node at new)

-- Entry `i + 1` of any directory is file `i`, by name and inode, for each file of the disk.
readdir-file :
    (d : Initrd) (dir i : ℕ) (node : Node)
    → get_elem? d.nodes i ≡ some node
    → i < length d.nodes
    → length d.nodes < 2 ^ 32
    → readdir dir (i + 1) d ≡ ok (some (record { name = node.name; ino = node.inode }))
unfolding readdir
readdir-file d dir i node at inside small =
    let back : sub32 (i + 1) 1 ≡ i = omega arith in rw (back, at) (ground arith)

-- The listing ends behind the last file, and entry 0 of the root is `dev`.
readdir-ends :
    (d : Initrd) (dir index : ℕ)
    → length d.nodes < index
    → index < 2 ^ 32
    → readdir dir index d ≡ ok none
unfolding readdir
readdir-ends d dir index beyond small = ground arith

fill_nodes-file :
    (garbage : ℕ → ℕ) (headers : List FileHeader) (i k : ℕ) (h : FileHeader)
    → get_elem? headers i ≡ some h
    → get_elem? (fill_nodes garbage headers k) i ≡ some (file_node (garbage (k + i)) (k + i) h)
unfolding fill_nodes
fill_nodes-file garbage [] i k h at = cc
fill_nodes-file garbage (x ∷ headers) zero k h at =
    let here : x ≡ h = cc in let index : k + 0 ≡ k = omega arith in rw (index, here)
fill_nodes-file garbage (x ∷ headers) (suc i) k h at =
    let index : k + 1 + i ≡ k + suc i = omega arith in
    fill_nodes-file garbage headers i (k + 1) h at
    ∙ ap (λ n. some (file_node (garbage n) n h)) index

-- After `initialise_initrd` file `i` has a node with the header's name and length, and the inode
-- `i`, by which `initrd_read` finds the header again.
pub initialise_initrd-file :
    (location root dev nodes : ℕ) (garbage : ℕ → ℕ) (headers : List FileHeader) (mem : Memory)
    (i : ℕ) (h : FileHeader)
    → get_elem? headers i ≡ some h
    → get_elem? (initialise_initrd location root dev nodes garbage headers mem).nodes i
      ≡ some (file_node (garbage i) i h)
unfolding initialise_initrd
initialise_initrd-file location root dev nodes garbage headers mem i h at =
    let index : 0 + i ≡ i = omega arith in
    fill_nodes-file garbage headers i 0 h at ∙ ap (λ n. some (file_node (garbage n) n h)) index
