-- ===== src/Ramdisk.antt =====
-- The generator of the RAM disk's image, src/ramdisk.c, which runs on the host. A file is its name
-- on the disk and what `fopen` and `fread` give of it, `none` where there is no such file; it has
-- less than 2 ^ 32 bytes, and the image's own file opens. The array `headers` is not initialised:
-- `junk` is what its bytes hold, by their place.
pub mod Image
pub mod Whole
pub mod Headers
pub mod Wraps
mod Tests
use nembus_os.Base.{
  ℕ, zero, suc, ◌+◌, ◌-◌, ◌*◌, ◌/◌, ◌%◌, ◌^◌, Option, none, some, List, [], ◌∷◌, ◌++◌, ltb,
  if◌then◌else◌, length, take,
}
use nembus_os.Base.Words.{add32, sub32}
use nembus_os.Initrd.{FileHeader}

pub record HostFile : Type 0 where
  pub name : List ℕ
  pub contents : Option (List ℕ)

-- `struct initrd_header` with its three bytes of padding, and the array of them.
abbrev pub sizeof_header : ℕ
sizeof_header = 76

abbrev pub max_headers : ℕ
max_headers = 64

-- How the program ends: with an image, with the message for a file that is not there, or by a
-- write outside a header's name.
pub data Generated : Type 0 where
  image : List ℕ → Generated
  file_not_found : (name : List ℕ) → Generated
  overrun : Generated

-- What the first loop leaves: the headers and the contents, or the end of the program.
pub data Made : Type 0 where
  made : List FileHeader → List (List ℕ) → Made
  stopped : Generated → Made

-- `argc` is declared as a `char`: it is what the lowest byte of the number of arguments says. A
-- negative quotient is rounded towards 0.
unfoldable pub num_headers : (argc : ℕ) → ℕ
num_headers argc =
    let byte = argc % 256 in if ltb byte 128 then (byte - 1) / 2 else sub32 0 ((257 - byte) / 2)

-- The rounds of the loops: none where the number, as an int, is negative.
abbrev pub num_rounds : (nheaders : ℕ) → ℕ
num_rounds nheaders = if ltb nheaders (2 ^ 31) then nheaders else 0

-- The place of the first file: behind the headers and their number.
abbrev pub first_offset : ℕ
first_offset = sizeof_header * max_headers + 4

-- The first loop: the headers, each with the place of its file, and the contents.
abbrev pub header_of : (name : List ℕ) (off size : ℕ) → FileHeader
header_of name off size = record { magic = 0xBF; name = name; offset = off; length = size }

abbrev pub put_header : FileHeader → List ℕ → Made → Made
put_header h contents (made headers all) = made (h ∷ headers) (contents ∷ all)
put_header h contents (stopped g) = stopped g

unfoldable pub make_headers : (off : ℕ) → List HostFile → Made
make_headers off [] = made [] []
make_headers off (f ∷ fs) = elim f.contents [
  | none ↦ if ltb (length f.name) 64 then stopped (file_not_found f.name) else stopped overrun
  | some contents ↦
      let rest = make_headers (add32 off (length contents)) fs in
      if ltb (length f.name) 64
      then put_header (header_of f.name off (length contents)) contents rest
      else stopped overrun
]

-- A word of four bytes, lowest first.
abbrev pub word_bytes : ℕ → List ℕ
word_bytes w = w % 256 ∷ w / 256 % 256 ∷ w / 65536 % 256 ∷ w / 16777216 % 256 ∷ []

-- `n` bytes of the array as they were, from the place `at` on.
abbrev pub left_over : (junk : ℕ → ℕ) (at n : ℕ) → List ℕ
left_over junk at zero = []
left_over junk at (suc n) = junk at % 256 ∷ left_over junk (suc at) n

-- One header in the file: the name has a zero byte behind it, and 64 bytes in all.
unfoldable pub name_bytes : (junk : ℕ → ℕ) (at : ℕ) → (name : List ℕ) → List ℕ
name_bytes junk at name = name ++ 0 ∷ left_over junk (at + 1 + length name) (63 - length name)

unfoldable pub header_bytes : (junk : ℕ → ℕ) (at : ℕ) → FileHeader → List ℕ
header_bytes junk at h =
    (h.magic ∷ name_bytes junk (at + 1) h.name)
    ++ (left_over junk (at + 65) 3 ++ (word_bytes h.offset ++ word_bytes h.length))

unfoldable pub headers_bytes : (junk : ℕ → ℕ) (at : ℕ) → List FileHeader → (rounds : ℕ) → List ℕ
headers_bytes junk at headers zero = []
headers_bytes junk at [] (suc n) =
    left_over junk at sizeof_header ++ headers_bytes junk (at + sizeof_header) [] n
headers_bytes junk at (h ∷ hs) (suc n) =
    header_bytes junk at h ++ headers_bytes junk (at + sizeof_header) hs n

-- The contents behind one another: the last loop.
abbrev pub join : List (List ℕ) → List ℕ
join [] = []
join (c ∷ cs) = c ++ join cs

-- What is written to the image's file.
unfoldable pub write_image : (junk : ℕ → ℕ) (nheaders : ℕ) → Made → Generated
write_image junk nheaders (stopped g) = g
write_image junk nheaders (made headers all) =
    image (word_bytes nheaders ++ (headers_bytes junk 0 headers max_headers ++ join all))

-- `main`, whose arguments are two for each file.
pub generate : (junk : ℕ → ℕ) → List HostFile → Generated
unfolding num_headers make_headers write_image
generate junk files =
    let nheaders = num_headers (2 * length files + 1) in
    write_image junk nheaders (make_headers first_offset (take (num_rounds nheaders) files))
