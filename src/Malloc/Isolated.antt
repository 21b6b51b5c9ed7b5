-- ===== src/Malloc/Isolated.antt =====
-- Blocks in use keep their place: `malloc` gives memory outside all of them, and `m_free` of another
-- pointer leaves them alone.
use mathlib.Core.List.{Memᴰ}
use nembus_os.Base.{
  ℕ, ◌+◌, ◌^◌, ◌<◌, ◌≤◌, ◌≡◌, ◌⊎◌, inl, inr, refl, ap, true, false, some, List, [], ◌∷◌, arith, ltb,
  Bool-cases,
}
use nembus_os.Base.Words.{add32}
use nembus_os.Malloc.{sizeof_memory, MemoryBlock, pointer_of, is_available, use_block, take_block}
use nembus_os.Malloc.Tiling.{Tiles, Tiles-le, available-fits}

-- A block in use among the blocks.
pub record IsUsed (bs : List MemoryBlock) (c : MemoryBlock) : Type 0 where
  pub among : Memᴰ c bs
  pub used : c.is_free ≡ false

pub used-cons :
    (b : MemoryBlock) (bs : List MemoryBlock) (c : MemoryBlock) → IsUsed bs c → IsUsed (b ∷ bs) c
used-cons b bs c u = record { among = Memᴰ.tail u.among; used = u.used }

-- The first block, or one of the rest.
pub used-cases :
    (b : MemoryBlock) (bs : List MemoryBlock) (c : MemoryBlock)
    → IsUsed (b ∷ bs) c
    → (c ≡ b) ⊎ IsUsed bs c
used-cases b bs c u = split u.among
  where
    split : Memᴰ c (b ∷ bs) → (c ≡ b) ⊎ IsUsed bs c
    split (Memᴰ.head e) = inl e
    split (Memᴰ.tail m) = inr record { among = m; used = u.used }

pub used-rest :
    (b : MemoryBlock) (bs : List MemoryBlock) (c : MemoryBlock)
    → b.is_free ≡ true
    → IsUsed (b ∷ bs) c
    → IsUsed bs c
used-rest b bs c free u = elim (used-cases b bs c u) [
  | inl e ↦ absurd (ground (arith, ap (λ (k : MemoryBlock). k.is_free) e, u.used, free))
  | inr later ↦ later
]

-- A block lies within the memory that the blocks fill.
pub used-within :
    (end at : ℕ) (bs : List MemoryBlock) (c : MemoryBlock)
    → Tiles at end bs
    → IsUsed bs c
    → (at ≤ c.address) × (c.address + sizeof_memory + c.size ≤ end)
used-within end at [] c tiles u = elim u.among [ ]
used-within end at (b ∷ bs) c tiles u = elim (used-cases b bs c u) [
  | inl e ↦
      let start : c.address ≡ b.address = ap (λ (k : MemoryBlock). k.address) e in
      let extent : c.size ≡ b.size = ap (λ (k : MemoryBlock). k.size) e in
      let bound = Tiles-le (at + sizeof_memory + b.size) end bs tiles.1 in
      (omega (arith, tiles.0), omega (arith, tiles.0))
  | inr later ↦
      let (lo, hi) = used-within end (at + sizeof_memory + b.size) bs c tiles.1 later in
      (omega arith, hi)
]

-- `ptr` and the bytes behind it, with the header before it, lie outside the block `c`.
abbrev pub Outside : (ptr size : ℕ) → MemoryBlock → Type 0
Outside ptr size c =
    (ptr + size ≤ c.address) ⊎ (c.address + sizeof_memory + c.size + sizeof_memory ≤ ptr)

-- What the caller gets: a block in use of its own.
pub record HasGiven (size ptr : ℕ) (bs bs' : List MemoryBlock) : Type 0 where
  pub own : MemoryBlock
  pub own_used : IsUsed bs' own
  pub own_pointer : pointer_of own ≡ ptr
  pub own_size : size ≤ own.size
  pub kept : (c : MemoryBlock) → IsUsed bs c → IsUsed bs' c × Outside ptr size c

module _ (end size : ℕ) (low : end < 2 ^ 31) (small : size < 2 ^ 31) where
  use_block-HasGiven :
      (at : ℕ) (b : MemoryBlock) (bs : List MemoryBlock)
      → size ≤ b.size
      → b.is_free ≡ true
      → Tiles at end (b ∷ bs)
      → HasGiven size (pointer_of b) (b ∷ bs) (use_block size b bs)
  use_block-HasGiven at b bs fits free tiles =
      let bound = Tiles-le (at + sizeof_memory + b.size) end bs tiles.1 in
      let outside : (c : MemoryBlock) → IsUsed bs c → Outside (pointer_of b) size c = λ c u. inl (
        omega (arith, (used-within end (at + sizeof_memory + b.size) bs c tiles.1 u).0, tiles.0)) in
      elim (Bool-cases (ltb (add32 size sizeof_memory) b.size)) [
        | inl split ↦ rw split record {
          own = record b { is_free = false; size = size };
          own_used = record { among = Memᴰ.head refl; used = refl };
          own_pointer = refl;
          own_size = omega arith;
          kept = λ c u.
              let later = used-rest b bs c free u in
              (used-cons _ _ c (used-cons _ bs c later), outside c later);
        }
        | inr whole ↦ rw whole record {
          own = record b { is_free = false };
          own_used = record { among = Memᴰ.head refl; used = refl };
          own_pointer = refl;
          own_size = fits;
          kept = λ c u.
              let later = used-rest b bs c free u in (used-cons _ bs c later, outside c later);
        }
      ]

  pub take_block-HasGiven :
      (at ptr : ℕ) (bs : List MemoryBlock)
      → Tiles at end bs
      → (take_block size bs).1 ≡ some ptr
      → (at + sizeof_memory ≤ ptr) × HasGiven size ptr bs (take_block size bs).0
  unfolding take_block
  take_block-HasGiven at ptr [] tiles found = cc
  take_block-HasGiven at ptr (b ∷ bs) tiles found =
      let bound = Tiles-le (at + sizeof_memory + b.size) end bs tiles.1 in
      elim (Bool-cases (is_available size b)) [
        | inl here ↦
            let same : some (pointer_of b) ≡ some ptr = rw here at found in
            let at_block : ptr ≡ pointer_of b = cc in
            let (free, fits) = available-fits size b small (omega arith) here in
            (
              omega (arith, tiles.0),
              rw (here, at_block) (use_block-HasGiven at b bs fits free tiles),
            )
        | inr passed ↦
            let later : (take_block size bs).1 ≡ some ptr = rw passed at found in
            let (behind, given) =
              take_block-HasGiven (at + sizeof_memory + b.size) ptr bs tiles.1 later in
            (
              omega arith,
              rw passed record {
                own = given.own;
                own_used = used-cons b _ given.own given.own_used;
                own_pointer = given.own_pointer;
                own_size = given.own_size;
                kept = λ c u. elim (used-cases b bs c u) [
                  | inl e ↦ (
                    record { among = Memᴰ.head e; used = u.used },
                    inr (
                        omega (
                          arith,
                          behind,
                          tiles.0,
                          ap (λ (k : MemoryBlock). k.address) e,
                          ap (λ (k : MemoryBlock). k.size) e,
                        )),
                  )
                  | inr rest ↦
                      let (kept, outside) = given.kept c rest in (used-cons b _ c kept, outside)
                ];
              },
            )
      ]
