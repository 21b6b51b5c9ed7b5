-- ===== src/Ramdisk/Headers.antt =====
-- The headers of an image in memory, as src/impl/initrd.c takes them: the array of structures behind
-- the number of files.
use nembus_os.Base.{
  get_elem?-append_left, get_elem?-append_right, ℕ, zero, suc, ◌+◌, ◌-◌, ◌*◌, ◌/◌, ◌%◌, ◌^◌, ◌<◌,
  ◌≤◌, ◌≡◌, refl, ap, ◌∙◌, subst, arith, some, List, [], ◌∷◌, ◌++◌, ◌==◌, if◌then◌else◌, length,
  get_elem?, All, ne→==,
}
use nembus_os.Base.Words.{add32}
use nembus_os.Memory.{Memory, load32}
use nembus_os.Initrd.{FileHeader}
use nembus_os.Ramdisk.{
  sizeof_header, word_bytes, left_over, name_bytes, header_bytes, headers_bytes,
}
use nembus_os.Ramdisk.Image.{IsNamed, length-name_bytes, length-header_bytes}

-- The name in a header, up to its zero byte.
unfoldable pub name_at : (mem : Memory) (a : ℕ) (rounds : ℕ) → List ℕ
name_at mem a zero = []
name_at mem a (suc n) = let rest = name_at mem (a + 1) n in if mem a == 0 then [] else mem a ∷ rest

unfoldable pub header_at : (mem : Memory) (a : ℕ) → FileHeader
header_at mem a = record {
  magic = mem a;
  name = name_at mem (a + 1) 64;
  offset = load32 mem (a + 68);
  length = load32 mem (a + 72);
}

unfoldable pub read_headers : (mem : Memory) (a nfiles : ℕ) → List FileHeader
read_headers mem a zero = []
read_headers mem a (suc n) = header_at mem a ∷ read_headers mem (a + sizeof_header) n

-- The memory from `a` on has these bytes.
abbrev pub Holds : (mem : Memory) (a : ℕ) → List ℕ → Type 0
Holds mem a bytes = (k b : ℕ) → get_elem? bytes k ≡ some b → mem (a + k) ≡ b

abbrev pub IsChars : List ℕ → Type 0
IsChars name = All (λ (c : ℕ). 0 < c) name

pub Holds-left : (mem : Memory) (a : ℕ) (xs ys : List ℕ) → Holds mem a (xs ++ ys) → Holds mem a xs
Holds-left mem a xs ys holds = λ k b e. holds k b (get_elem?-append_left xs ys k b e)

pub Holds-right :
    (mem : Memory) (a : ℕ) (xs ys : List ℕ) → Holds mem a (xs ++ ys) → Holds mem (a + length xs) ys
Holds-right mem a xs ys holds =
    λ k b e. ap mem (omega arith) ∙ holds (length xs + k) b (get_elem?-append_right xs ys k ∙ e)

-- A word that was written lowest byte first is read back.
pub load32-word_bytes :
    (mem : Memory) (a w : ℕ)
    → Holds mem a (word_bytes w)
    → a + 4 ≤ 2 ^ 32
    → w < 2 ^ 32
    → load32 mem a ≡ w
unfolding load32
load32-word_bytes mem a w holds room small =
    let zeroth : mem a ≡ w % 256 = ap mem (omega arith) ∙ holds 0 (w % 256) refl in
    let first : mem (add32 a 1) ≡ w / 256 % 256 =
      ap mem (omega arith) ∙ holds 1 (w / 256 % 256) refl in
    let second : mem (add32 a 2) ≡ w / 65536 % 256 =
      ap mem (omega arith) ∙ holds 2 (w / 65536 % 256) refl in
    let third : mem (add32 a 3) ≡ w / 16777216 % 256 =
      ap mem (omega arith) ∙ holds 3 (w / 16777216 % 256) refl in
    rw (zeroth, first, second, third) (omega arith)

-- A name is read back up to its zero byte.
name_at-name :
    (mem : Memory) (a n : ℕ) (name rest : List ℕ)
    → Holds mem a (name ++ 0 ∷ rest)
    → IsChars name
    → length name < n
    → name_at mem a n ≡ name
unfolding name_at
name_at-name mem a zero name rest holds chars room = absurd (omega arith)
name_at-name mem a (suc n) [] rest holds chars room =
    let end : mem a ≡ 0 = ap mem (omega arith) ∙ holds 0 0 refl in rw end refl
name_at-name mem a (suc n) (c ∷ name) rest holds chars room =
    let first : mem a ≡ c = ap mem (omega arith) ∙ holds 0 c refl in
    let tail =
      name_at-name mem (a + 1) n name rest (λ k b e. ap mem (omega arith) ∙ holds (suc k) b e)
        chars.1 (omega arith) in
    rw (first, tail, ne→== c 0 (omega (arith, chars.0))) refl

-- A header of the image is read back.
pub header_at-header_bytes :
    (junk : ℕ → ℕ) (at : ℕ) (mem : Memory) (a : ℕ) (h : FileHeader)
    → Holds mem a (header_bytes junk at h)
    → IsNamed h
    → IsChars h.name
    → h.offset < 2 ^ 32
    → h.length < 2 ^ 32
    → a + sizeof_header ≤ 2 ^ 32
    → header_at mem a ≡ h
unfolding header_at header_bytes name_bytes
header_at-header_bytes junk at mem a h holds named chars low short room =
    let name = name_bytes junk (at + 1) h.name in
    let padding = left_over junk (at + 65) 3 in
    let words = word_bytes h.offset ++ word_bytes h.length in
    let behind : Holds mem (a + length (h.magic ∷ name)) (padding ++ words) =
      Holds-right mem a (h.magic ∷ name) (padding ++ words) holds in
    let both : Holds mem (a + length (h.magic ∷ name) + 3) words =
      Holds-right mem (a + length (h.magic ∷ name)) padding words behind in
    let place : a + length (h.magic ∷ name) + 3 ≡ a + 68 =
      omega (arith, length-name_bytes junk (at + 1) h.name named) in
    let magic : mem a ≡ h.magic = ap mem (omega arith) ∙ holds 0 h.magic refl in
    let chars : name_at mem (a + 1) 64 ≡ h.name =
      name_at-name mem (a + 1) 64 h.name
        (left_over junk (at + 1 + 1 + length h.name) (63 - length h.name))
        (λ k b e.
          ap mem (omega arith)
          ∙ holds (suc k) b (get_elem?-append_left name (padding ++ words) k b e))
        chars named in
    let offset : load32 mem (a + 68) ≡ h.offset =
      load32-word_bytes mem (a + 68) h.offset
        (λ k b e.
          ap mem (omega (arith, place))
          ∙ both k b (get_elem?-append_left (word_bytes h.offset) (word_bytes h.length) k b e))
        (omega arith) low in
    let length : load32 mem (a + 72) ≡ h.length =
      load32-word_bytes mem (a + 72) h.length
        (λ k b e.
          ap mem (omega (arith, place))
          ∙ both (4 + k) b
              (get_elem?-append_right (word_bytes h.offset) (word_bytes h.length) k ∙ e))
        (omega arith) short in
    rw (magic, chars, offset, length) refl

-- What a header needs to be read back: a name that fits, without zero bytes, and words.
abbrev pub IsKept : FileHeader → Type 0
IsKept h = IsNamed h × IsChars h.name × (h.offset < 2 ^ 32) × (h.length < 2 ^ 32)

-- The headers of an image are read back.
pub read_headers-headers_bytes :
    (junk : ℕ → ℕ) (at : ℕ) (mem : Memory) (a : ℕ) (hs : List FileHeader) (n : ℕ)
    → Holds mem a (headers_bytes junk at hs n)
    → All IsKept hs
    → length hs ≤ n
    → a + sizeof_header * n ≤ 2 ^ 32
    → read_headers mem a (length hs) ≡ hs
unfolding read_headers headers_bytes
read_headers-headers_bytes junk at mem a [] n holds kept few room = refl
read_headers-headers_bytes junk at mem a (h ∷ hs) zero holds kept few room = absurd (omega arith)
read_headers-headers_bytes junk at mem a (h ∷ hs) (suc n) holds kept few room =
    let (named, chars, low, short) = kept.0 in
    let rest = headers_bytes junk (at + sizeof_header) hs n in
    let size : length (header_bytes junk at h) ≡ sizeof_header =
      length-header_bytes junk at h named in
    let first : header_at mem a ≡ h =
      header_at-header_bytes junk at mem a h (Holds-left mem a (header_bytes junk at h) rest holds)
        named chars low short (omega arith) in
    let behind : Holds mem (a + sizeof_header) rest =
      subst (λ (k : ℕ). Holds mem (a + k) rest) size
        (Holds-right mem a (header_bytes junk at h) rest holds) in
    let others : read_headers mem (a + sizeof_header) (length hs) ≡ hs =
      read_headers-headers_bytes junk (at + sizeof_header) mem (a + sizeof_header) hs n behind
        kept.1 (omega arith) (omega arith) in
    rw (first, others) refl
