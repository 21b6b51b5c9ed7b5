-- ===== src/Initrd/Tests.antt =====
-- The RAM disk with two files, `a` of 5 bytes and `b` of 3.
use nembus_os.Base.{
  ℕ, zero, suc, ◌<◌, ◌∙◌, ap, inl, get_or, get_elem?, map, ltb, ◌&&◌, Bool, true, ◌-◌, ◌≡◌, refl,
  arith, inr, some, List, [], ◌∷◌, min,
}
use nembus_os.Base.Outcome.{ok}
use nembus_os.Memory.{Memory, load32}
use nembus_os.Initrd.{FileHeader, Initrd, Node, initrd_calls, read, initialise_initrd, file_node}
use nembus_os.Initrd.Read.{HasRead, read-HasRead}
use nembus_os.Vfs.{read_fs}
use nembus_os.Ramdisk.{image, headers_bytes, header_bytes, name_bytes, generate}
use nembus_os.Ramdisk.Image.{host_file}
use nembus_os.Ramdisk.Whole.{image_bytes}
use nembus_os.Ramdisk.Headers.{Holds, read_headers}
use nembus_os.Initrd.Mounted.{mounted-read}

abbrev header_a : FileHeader
header_a = record { magic = 0xBF; name = b'a' ∷ []; offset = 100; length = 5 }

abbrev header_b : FileHeader
header_b = record { magic = 0xBF; name = b'b' ∷ []; offset = 105; length = 3 }

abbrev two_headers : List FileHeader
two_headers = header_a ∷ header_b ∷ []

abbrev sevens : Memory
sevens p = 7

abbrev two_files : Initrd
two_files = record {
  file_headers = two_headers;
  initrd_root = 0x5000;
  initrd_dev = 0x6000;
  root_nodes = 0x7000;
  nodes = file_node 0 0 header_a ∷ file_node 0 1 header_b ∷ [];
  mem = sevens;
}

read-HasRead_example :
    (d' : Initrd) × (read 0 2 10 500 two_files ≡ ok (d', min 10 (5 - 2)))
    × HasRead header_a 2 (min 10 (5 - 2)) 500 two_files d'
read-HasRead_example =
    read-HasRead two_files header_a 0 refl 2 10 500 (λ p. omega arith) (omega arith) (omega arith)
      (omega arith) (omega arith) (omega arith) (inr (omega arith))

abbrev host_files : List (List ℕ × List ℕ)
host_files = (b'a' ∷ [], 3 ∷ 4 ∷ []) ∷ (b'b' ∷ [], 5 ∷ 6 ∷ 7 ∷ []) ∷ []

abbrev no_junk : ℕ → ℕ
no_junk place = 0

all_bytes : List ℕ → Bool
all_bytes [] = true
all_bytes (b ∷ bs) = ltb b 256 && all_bytes bs

image_is_bytes : all_bytes (image_bytes no_junk host_files) ≡ true
unfolding all_bytes headers_bytes header_bytes name_bytes
image_is_bytes = refl

all_bytes-get_or : (bs : List ℕ) (i : ℕ) → all_bytes bs ≡ true → get_or bs i 0 < 256
unfolding all_bytes
all_bytes-get_or [] i all = omega arith
all_bytes-get_or (b ∷ bs) zero all = ground arith
all_bytes-get_or (b ∷ bs) (suc i) all = all_bytes-get_or bs i (ground arith)

get_or-get_elem? : (bs : List ℕ) (i b : ℕ) → get_elem? bs i ≡ some b → get_or bs i 0 ≡ b
get_or-get_elem? [] i b e = cc
get_or-get_elem? (x ∷ bs) zero b e = cc
get_or-get_elem? (x ∷ bs) (suc i) b e = get_or-get_elem? bs i b e

-- The image of the two files, from 1000 on.
abbrev loaded : Memory
loaded p = get_or (image_bytes no_junk host_files) (p - 1000) 0

abbrev disk : Initrd
disk =
    initialise_initrd 1000 0x5000 0x6000 0x7000 no_junk
      (read_headers loaded 1004 (load32 loaded 1000)) loaded

mounted-read_example :
    (generate no_junk (map host_file host_files) ≡ image (image_bytes no_junk host_files))
    × ((node : Node) × (d' : Initrd) × (get_elem? disk.nodes 1 ≡ some node)
        × (node.name ≡ b'b' ∷ [])
        × (node.length ≡ 3)
        × (read_fs initrd_calls 0x70B8 node 0 3 100 disk ≡ ok (d', 3))
        × Holds d'.mem 100 (5 ∷ 6 ∷ 7 ∷ []))
mounted-read_example =
    mounted-read no_junk host_files loaded 1000 (omega arith, (omega arith, tt))
      ((omega arith, tt), ((omega arith, tt), tt)) (omega arith) (omega arith)
      (λ k b e.
        ap (λ (i : ℕ). get_or (image_bytes no_junk host_files) i 0) (omega arith)
        ∙ get_or-get_elem? (image_bytes no_junk host_files) k b e)
      0x5000 0x6000 0x7000 no_junk 1 100 (b'b' ∷ [], 5 ∷ 6 ∷ 7 ∷ []) refl (omega arith)
      (λ p. all_bytes-get_or (image_bytes no_junk host_files) (p - 1000) image_is_bytes)
      (inl (omega arith)) (omega arith)
