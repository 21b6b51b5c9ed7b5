-- ===== src/Malloc/Tiling.antt =====
-- The invariant of the list of blocks: the blocks and their headers lie one behind the other and
-- fill the array, and no two free blocks are neighbours. `malloc` and `m_free` keep it.
use nembus_os.Base.{
  ℕ, ◌+◌, ◌≤◌, ◌<◌, ◌≡◌, ◌^◌, Bool, true, false, ◌&&◌, List, [], ◌∷◌, refl, arith, ltb, Bool-cases,
  inl, inr, ltb→lt,
}
use nembus_os.Base.Words.{add32, sub32}
use nembus_os.Malloc.{heap_size, sizeof_memory, MemoryBlock, is_available, use_block, take_block}

-- The blocks fill the memory from `at` to `end`.
abbrev pub Tiles : (at end : ℕ) → List MemoryBlock → Type 0
Tiles at end [] = at ≡ end
Tiles at end (b ∷ bs) = (b.address ≡ at) × Tiles (at + sizeof_memory + b.size) end bs

abbrev pub IsApart : (before : Bool) → List MemoryBlock → Type 0
IsApart before [] = Unit {0}
IsApart before (b ∷ bs) = ((before && b.is_free) ≡ false) × IsApart b.is_free bs

-- `heap` lies below 2 ^ 31, as all of the kernel does.
pub record IsHeap (heap : ℕ) (bs : List MemoryBlock) : Type 0 where
  pub tiles : Tiles heap (heap + heap_size) bs
  pub apart : IsApart false bs

pub Tiles-le : (at end : ℕ) (bs : List MemoryBlock) → Tiles at end bs → at ≤ end
Tiles-le at end [] tiles = omega arith
Tiles-le at end (b ∷ bs) tiles =
    omega (arith, Tiles-le (at + sizeof_memory + b.size) end bs tiles.1)

-- A block in front may become one that is not free.
pub IsApart-used : (before : Bool) (bs : List MemoryBlock) → IsApart before bs → IsApart false bs
IsApart-used before [] apart = tt
IsApart-used before (b ∷ bs) apart = (refl, apart.1)

-- What the search finds is free and large enough.
pub available-fits :
    (size : ℕ) (b : MemoryBlock)
    → size < 2 ^ 31
    → b.size < 2 ^ 31
    → is_available size b ≡ true
    → (b.is_free ≡ true) × (size ≤ b.size)
available-fits size b small block found = ground arith

module _ (end size : ℕ) (low : end < 2 ^ 31) (small : size < 2 ^ 31) where
  -- A taken block and what is left of it cover what the block covered.
  pub use_block-Tiles :
      (at : ℕ) (b : MemoryBlock) (bs : List MemoryBlock)
      → size ≤ b.size
      → Tiles at end (b ∷ bs)
      → Tiles at end (use_block size b bs)
  use_block-Tiles at b bs fits tiles =
      let bound = Tiles-le (at + sizeof_memory + b.size) end bs tiles.1 in
      elim (Bool-cases (ltb (add32 size sizeof_memory) b.size)) [
        | inl split ↦
            let room = ltb→lt (add32 size sizeof_memory) b.size split in
            let same : at
                  + sizeof_memory
                  + size
                  + sizeof_memory
                  + sub32 (sub32 b.size size) sizeof_memory
                ≡ at + sizeof_memory + b.size =
              omega arith in
            rw split (tiles.0, (omega (arith, tiles.0), rw same tiles.1))
        | inr whole ↦ rw whole (tiles.0, tiles.1)
      ]

  pub take_block-Tiles :
      (at : ℕ) (bs : List MemoryBlock) → Tiles at end bs → Tiles at end (take_block size bs).0
  unfolding take_block
  take_block-Tiles at [] tiles = tiles
  take_block-Tiles at (b ∷ bs) tiles =
      let bound = Tiles-le (at + sizeof_memory + b.size) end bs tiles.1 in
      elim (Bool-cases (is_available size b)) [
        | inl found ↦
            let (free, fits) = available-fits size b small (omega arith) found in
            rw found (use_block-Tiles at b bs fits tiles)
        | inr passed ↦
            rw passed (tiles.0, take_block-Tiles (at + sizeof_memory + b.size) bs tiles.1)
      ]
