-- ===== src/Ramdisk/Image.antt =====
-- Where the image of src/ramdisk.c has the bytes of each file.
use nembus_os.Base.{
  get_elem?-append_left, get_elem?-append_right, ℕ, zero, suc, ◌+◌, ◌-◌, ◌*◌, ◌^◌, ◌<◌, ◌≤◌, ◌≡◌,
  refl, ap, ◌∙◌, subst, arith, some, List, [], ◌∷◌, ◌++◌, map, length, get_elem?, length-append,
  All, lt→ltb,
}
use nembus_os.Base.Words.{add32}
use nembus_os.Initrd.{FileHeader}
use nembus_os.Ramdisk.{
  HostFile, made, sizeof_header, header_of, make_headers, word_bytes, left_over, name_bytes,
  header_bytes, headers_bytes, join,
}

length-left_over : (junk : ℕ → ℕ) (at n : ℕ) → length (left_over junk at n) ≡ n
length-left_over junk at zero = refl
length-left_over junk at (suc n) = ap suc (length-left_over junk (suc at) n)

pub length-name_bytes :
    (junk : ℕ → ℕ) (at : ℕ) (name : List ℕ)
    → length name < 64
    → length (name_bytes junk at name) ≡ 64
unfolding name_bytes
length-name_bytes junk at name short =
    length-append name (0 ∷ left_over junk (at + 1 + length name) (63 - length name))
    ∙ rw (length-left_over junk (at + 1 + length name) (63 - length name)) (omega arith)

pub length-header_bytes :
    (junk : ℕ → ℕ) (at : ℕ) (h : FileHeader)
    → length h.name < 64
    → length (header_bytes junk at h) ≡ sizeof_header
unfolding header_bytes
length-header_bytes junk at h short =
    ap suc (
      length-append (name_bytes junk (at + 1) h.name)
        (left_over junk (at + 65) 3 ++ (word_bytes h.offset ++ word_bytes h.length)))
    ∙ rw (length-name_bytes junk (at + 1) h.name short) refl

abbrev pub IsNamed : FileHeader → Type 0
IsNamed h = length h.name < 64

pub length-headers_bytes :
    (junk : ℕ → ℕ) (at : ℕ) (hs : List FileHeader) (n : ℕ)
    → All IsNamed hs
    → length (headers_bytes junk at hs n) ≡ sizeof_header * n
unfolding headers_bytes
length-headers_bytes junk at hs zero named = refl
length-headers_bytes junk at [] (suc n) named =
    length-append (left_over junk at sizeof_header) (headers_bytes junk (at + sizeof_header) [] n)
    ∙ rw
        (
          length-left_over junk at sizeof_header,
          length-headers_bytes junk (at + sizeof_header) [] n named,
        )
        (omega arith)
length-headers_bytes junk at (h ∷ hs) (suc n) named =
    length-append (header_bytes junk at h) (headers_bytes junk (at + sizeof_header) hs n)
    ∙ rw
        (
          length-header_bytes junk at h named.0,
          length-headers_bytes junk (at + sizeof_header) hs n named.1,
        )
        (omega arith)

-- A file that is there, with its name and its contents.
abbrev pub host_file : List ℕ × List ℕ → HostFile
host_file file = record { name = file.0; contents = some file.1 }

-- The headers of files that lie behind one another from `off` on.
abbrev pub headers_at : (off : ℕ) → List (List ℕ × List ℕ) → List FileHeader
headers_at off [] = []
headers_at off (file ∷ files) =
    header_of file.0 off (length file.1) ∷ headers_at (off + length file.1) files

abbrev pub all_contents : List (List ℕ × List ℕ) → List (List ℕ)
all_contents [] = []
all_contents (file ∷ files) = file.1 ∷ all_contents files

abbrev pub IsShort : List ℕ × List ℕ → Type 0
IsShort file = length file.0 < 64

pub headers_at-IsNamed :
    (off : ℕ) (files : List (List ℕ × List ℕ))
    → All IsShort files
    → All IsNamed (headers_at off files)
headers_at-IsNamed off [] short = tt
headers_at-IsNamed off (file ∷ files) short =
    (short.0, headers_at-IsNamed (off + length file.1) files short.1)

pub make_headers-made :
    (off : ℕ) (files : List (List ℕ × List ℕ))
    → All IsShort files
    → off + length (join (all_contents files)) < 2 ^ 32
    → make_headers off (map host_file files) ≡ made (headers_at off files) (all_contents files)
unfolding make_headers
make_headers-made off [] short fits = refl
make_headers-made off (file ∷ files) short fits =
    let total : length (join (all_contents (file ∷ files)))
        ≡ length file.1 + length (join (all_contents files)) =
      length-append file.1 (join (all_contents files)) in
    let next : add32 off (length file.1) ≡ off + length file.1 = omega (arith, total) in
    let rest = make_headers-made (off + length file.1) files short.1 (omega (arith, total)) in
    rw (lt→ltb (length file.0) 64 short.0, next, rest) refl

-- Where a file lies among the contents, by its header.
pub record IsPlaced (off : ℕ) (all : List ℕ) (file : List ℕ × List ℕ) (h : FileHeader)
    : Type 0 where
  pub place : ℕ
  pub inside : place + length file.1 ≤ length all
  pub offset : h.offset ≡ off + place
  pub length : h.length ≡ length file.1
  pub name : h.name ≡ file.0
  pub bytes : (j b : ℕ) → get_elem? file.1 j ≡ some b → get_elem? all (place + j) ≡ some b

pub headers_at-IsPlaced :
    (off : ℕ) (files : List (List ℕ × List ℕ)) (i : ℕ) (file : List ℕ × List ℕ)
    → get_elem? files i ≡ some file
    → (h : FileHeader) × (get_elem? (headers_at off files) i ≡ some h)
      × IsPlaced off (join (all_contents files)) file h
headers_at-IsPlaced off [] i file at = cc
headers_at-IsPlaced off (f ∷ files) zero file at =
    let here : f ≡ file = cc in
    subst
      (λ (x : List ℕ × List ℕ).
        (h : FileHeader) × (some (header_of f.0 off (length f.1)) ≡ some h)
        × IsPlaced off (f.1 ++ join (all_contents files)) x h)
      here
      (
        header_of f.0 off (length f.1),
        refl,
        record {
          place = 0;
          inside = omega (arith, length-append f.1 (join (all_contents files)));
          offset = omega arith;
          length = refl;
          name = refl;
          bytes = λ j b e.
              let index : 0 + j ≡ j = omega arith in
              rw index (get_elem?-append_left f.1 (join (all_contents files)) j b e);
        },
      )
headers_at-IsPlaced off (f ∷ files) (suc i) file at =
    let (h, there, p) = headers_at-IsPlaced (off + length f.1) files i file at in
    (
      h,
      there,
      record {
        place = length f.1 + p.place;
        inside = omega (arith, p.inside, length-append f.1 (join (all_contents files)));
        offset = omega (arith, p.offset);
        length = p.length;
        name = p.name;
        bytes = λ j b e.
            let index : length f.1 + p.place + j ≡ length f.1 + (p.place + j) = omega arith in
            rw index (
              get_elem?-append_right f.1 (join (all_contents files)) (p.place + j) ∙ p.bytes j b e);
      },
    )
