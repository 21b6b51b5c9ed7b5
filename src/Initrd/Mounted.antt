-- ===== src/Initrd/Mounted.antt =====
-- The disk that src/ramdisk.c makes, mounted by `initialise_initrd` and read by `initrd_read`.
use nembus_os.Base.{
  ◌*◌, ◌/◌, get_elem?-map, get_elem?-inside, ℕ, suc, ◌+◌, ◌-◌, ◌^◌, ◌<◌, ◌≤◌, ◌≡◌, ◌⊎◌, inl, inr,
  refl, ap, ◌∙◌, sym, subst, arith, some, List, [], ◌∷◌, ◌++◌, map, min, length, get_elem?, All,
  length-append,
}
use nembus_os.Base.Words.{add32, sub32}
use nembus_os.Base.Outcome.{ok}
use nembus_os.Memory.{Memory, load32}
use nembus_os.Memory.Laws.{IsBytes}
use nembus_os.Initrd.{
  sizeof_node, initrd_read, FileHeader, Initrd, Node, relocate, read, file_node, initrd_calls,
  initialise_initrd,
}
use nembus_os.Vfs.{read_fs}
use nembus_os.Initrd.Find.{initialise_initrd-file}
use nembus_os.Initrd.Read.{read-HasRead}
use nembus_os.Ramdisk.{image, first_offset, max_headers, word_bytes, headers_bytes, join, generate}
use nembus_os.Ramdisk.Image.{
  IsShort, host_file, headers_at, all_contents, headers_at-IsNamed, headers_at-IsPlaced, IsPlaced,
  length-headers_bytes,
}
use nembus_os.Ramdisk.Whole.{image_bytes, generate-image_bytes}
use nembus_os.Ramdisk.Headers.{
  Holds, Holds-left, Holds-right, IsChars, IsKept, read_headers, load32-word_bytes,
  read_headers-headers_bytes,
}

length-headers_at :
    (off : ℕ) (files : List (List ℕ × List ℕ)) → length (headers_at off files) ≡ length files
length-headers_at off [] = refl
length-headers_at off (file ∷ files) = ap suc (length-headers_at (off + length file.1) files)

-- A file's name, without zero bytes.
abbrev HasChars : List ℕ × List ℕ → Type 0
HasChars file = IsChars file.0

headers_at-IsKept :
    (off : ℕ) (files : List (List ℕ × List ℕ))
    → All IsShort files
    → All HasChars files
    → off + length (join (all_contents files)) < 2 ^ 32
    → All IsKept (headers_at off files)
headers_at-IsKept off [] short chars fits = tt
headers_at-IsKept off (file ∷ files) short chars fits =
    let total : length (join (all_contents (file ∷ files)))
        ≡ length file.1 + length (join (all_contents files)) =
      length-append file.1 (join (all_contents files)) in
    (
      (short.0, chars.0, omega (arith, total), omega (arith, total)),
      headers_at-IsKept (off + length file.1) files short.1 chars.1 (omega (arith, total)),
    )

-- The files, the memory that holds their image, and its place.
module _ (junk : ℕ → ℕ) (files : List (List ℕ × List ℕ)) (mem : Memory) (location : ℕ)
    (short : All IsShort files) (chars : All HasChars files) (few : length files < 64)
    (fits : location + first_offset + length (join (all_contents files)) < 2 ^ 32)
    (loaded : Holds mem location (image_bytes junk files)) where
  abbrev headers : List FileHeader
  headers = headers_at first_offset files

  behind_count :
      Holds mem
        (location + 4)
        (headers_bytes junk 0 headers max_headers ++ join (all_contents files))
  behind_count =
      Holds-right mem location (word_bytes (length files))
        (headers_bytes junk 0 headers max_headers ++ join (all_contents files)) loaded

  -- The kernel finds the number of files and the headers that the generator has made.
  read_headers-image : read_headers mem (location + 4) (load32 mem location) ≡ headers
  read_headers-image =
      let count : load32 mem location ≡ length files =
        load32-word_bytes mem location (length files)
          (Holds-left mem location (word_bytes (length files))
            (headers_bytes junk 0 headers max_headers ++ join (all_contents files)) loaded)
          (omega arith) (omega arith) in
      let number : load32 mem location ≡ length headers =
        count ∙ sym (length-headers_at first_offset files) in
      rw number (
        read_headers-headers_bytes junk 0 mem (location + 4) headers max_headers
          (Holds-left mem (location + 4) (headers_bytes junk 0 headers max_headers)
            (join (all_contents files)) behind_count)
          (headers_at-IsKept first_offset files short chars (omega arith))
          (omega (arith, length-headers_at first_offset files)) (omega arith))

  contents_place : Holds mem (location + first_offset) (join (all_contents files))
  contents_place =
      let size : location + 4 + length (headers_bytes junk 0 headers max_headers)
          ≡ location + first_offset =
        omega (
          arith,
          length-headers_bytes junk 0 headers max_headers
              (headers_at-IsNamed first_offset files short),
        ) in
      subst (λ (a : ℕ). Holds mem a (join (all_contents files))) size
        (Holds-right mem (location + 4) (headers_bytes junk 0 headers max_headers)
          (join (all_contents files)) behind_count)

  -- The disk after `initialise_initrd` on the image at `location`.
  abbrev mounted : (root dev nodes : ℕ) → (garbage : ℕ → ℕ) → Initrd
  mounted root dev nodes garbage =
      initialise_initrd location root dev nodes garbage
        (read_headers mem (location + 4) (load32 mem location)) mem

  mounted-header :
      (root dev nodes : ℕ) (garbage : ℕ → ℕ) (i : ℕ) (h : FileHeader)
      → get_elem? headers i ≡ some h
      → h.offset + location < 2 ^ 32
      → get_elem? (mounted root dev nodes garbage).file_headers i
        ≡ some (record h { offset = h.offset + location })
  unfolding initialise_initrd
  mounted-header root dev nodes garbage i h at low =
      let place : add32 h.offset location ≡ h.offset + location = omega arith in
      ap (λ hs. get_elem? (map (relocate location) hs) i) read_headers-image
      ∙ get_elem?-map (relocate location) headers i h at
      ∙ ap (λ (o : ℕ). some (record h { offset = o })) place

  mounted-mem : (root dev nodes : ℕ) (garbage : ℕ → ℕ) → (mounted root dev nodes garbage).mem ≡ mem
  unfolding initialise_initrd
  mounted-mem root dev nodes garbage = refl

  read-contents :
      (d : Initrd) (h : FileHeader) (i buffer place : ℕ) (file : List ℕ × List ℕ)
      → IsPlaced first_offset (join (all_contents files)) file h
      → d.mem ≡ mem
      → get_elem? d.file_headers i ≡ some (record h { offset = h.offset + location })
      → IsBytes mem
      → (buffer + length file.1 ≤ location)
        ⊎ (location + first_offset + length (join (all_contents files)) ≤ buffer)
      → buffer + length file.1 < 2 ^ 32
      → (d' : Initrd) × (read i 0 (length file.1) buffer d ≡ ok (d', length file.1))
        × Holds d'.mem buffer file.1
  read-contents d h i buffer place file p same at b apart room =
      let (d', runs, r) =
        read-HasRead d (record h { offset = h.offset + location }) i at 0 (length file.1) buffer
          (subst IsBytes (sym same) b) (omega arith) (omega (arith, p.inside, p.length))
          (omega arith) (omega (arith, p.inside, p.length, p.offset)) room (clear apart) in
      let count : min (length file.1) (h.length - 0) ≡ length file.1 = omega (arith, p.length) in
      (
        d',
        runs ∙ ap (λ (n : ℕ). ok (d', n)) count,
        λ k c e.
            let inside = get_elem?-inside file.1 k c e in
            r.bytes (buffer + k) (omega arith) (omega (arith, inside, count))
            ∙ ap (λ (m : Memory). m (h.offset + location + 0 + (buffer + k - buffer))) same
            ∙ ap mem (omega (arith, p.offset))
            ∙ contents_place (p.place + k) c (p.bytes k c e),
      )
    where
      clear :
          (buffer + length file.1 ≤ location)
            ⊎ (location + first_offset + length (join (all_contents files)) ≤ buffer)
          → (buffer ≤ h.offset + location + 0) ⊎ (h.offset + location + h.length ≤ buffer)
      clear (inl before) = inl (omega arith)
      clear (inr behind) = inr (omega (arith, p.offset, p.inside, p.length))

  mounted-node :
      (root dev nodes : ℕ) (garbage : ℕ → ℕ) (i : ℕ) (h : FileHeader)
      → get_elem? headers i ≡ some h
      → get_elem? (mounted root dev nodes garbage).nodes i ≡ some (file_node (garbage i) i h)
  mounted-node root dev nodes garbage i h at =
      initialise_initrd-file location root dev nodes garbage
        (read_headers mem (location + 4) (load32 mem location)) mem i h
        (ap (λ hs. get_elem? hs i) read_headers-image ∙ at)

  mounted-root_nodes :
      (root dev nodes : ℕ) (garbage : ℕ → ℕ) → (mounted root dev nodes garbage).root_nodes ≡ nodes
  unfolding initialise_initrd
  mounted-root_nodes root dev nodes garbage = refl

  -- Through the switch, the node of file `i`, which has this inode, reads file `i`.
  read_fs-node :
      (nodes i : ℕ) (node : Node) (fn : node.read ≡ some initrd_read) (offset size buffer : ℕ)
      (d : Initrd)
      → d.root_nodes ≡ nodes
      → nodes < 2 ^ 32
      → i < 64
      → get_elem? d.nodes i ≡ some node
      → node.inode ≡ i
      → read_fs initrd_calls (add32 nodes (i * sizeof_node)) node offset size buffer d
        ≡ read i offset size buffer d
  unfolding read_fs
  read_fs-node nodes i node fn offset size buffer d base low few at number =
      let index : sub32 (add32 nodes (i * sizeof_node)) nodes / sizeof_node ≡ i = omega arith in
      rw (fn, base, index, at, number) refl

  -- The generator ends with an image, and where the memory at `location` holds it, the kernel, once
  -- it has mounted the disk there, has a node for every file, with its name and its length, and
  -- `read_fs` on this node, by its address in the array of nodes, reads the file whole: reading as
  -- many bytes as the file had on the host puts just these bytes into a buffer that does not overlap
  -- the image, and returns their number. There are fewer than 64 files, all there, with names of
  -- fewer than 64 characters, none of them zero; image and buffer end below 2 ^ 32, where the
  -- array of nodes lies too.
  pub mounted-read :
      (root dev nodes : ℕ) (garbage : ℕ → ℕ) (i buffer : ℕ) (file : List ℕ × List ℕ)
      → get_elem? files i ≡ some file
      → nodes < 2 ^ 32
      → IsBytes mem
      → (buffer + length file.1 ≤ location)
        ⊎ (location + first_offset + length (join (all_contents files)) ≤ buffer)
      → buffer + length file.1 < 2 ^ 32
      → (generate junk (map host_file files) ≡ image (image_bytes junk files))
        × ((node : Node) × (d' : Initrd) × (get_elem? (mounted root dev nodes garbage).nodes i
              ≡ some node)
            × (node.name ≡ file.0)
            × (node.length ≡ length file.1)
            × (read_fs initrd_calls
                  (add32 nodes (i * sizeof_node))
                  node
                  0
                  (length file.1)
                  buffer
                  (mounted root dev nodes garbage)
                ≡ ok (d', length file.1))
            × Holds d'.mem buffer file.1)
  mounted-read root dev nodes garbage i buffer file at low b apart room =
      let (h, there, p) = headers_at-IsPlaced first_offset files i file at in
      let d = mounted root dev nodes garbage in
      let (d', runs, held) =
        read-contents d h i buffer p.place file p (mounted-mem root dev nodes garbage)
          (mounted-header root dev nodes garbage i h there (omega (arith, p.offset, p.inside))) b
          apart room in
      (
        generate-image_bytes junk files short few (omega arith),
        (
          file_node (garbage i) i h,
          d',
          mounted-node root dev nodes garbage i h there,
          p.name,
          p.length,
          read_fs-node nodes i (file_node (garbage i) i h) refl 0 (length file.1) buffer d
                (mounted-root_nodes root dev nodes garbage) low
                (omega (arith, get_elem?-inside files i file at))
                (mounted-node root dev nodes garbage i h there) refl
              ∙ runs,
          held,
        ),
      )
