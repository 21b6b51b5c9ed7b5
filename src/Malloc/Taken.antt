-- ===== src/Malloc/Taken.antt =====
-- Which block `malloc` takes: the first free one that is large enough.
use nembus_os.Base.{
  ℕ, ◌-◌, lt→ltb, le→ltb, ◌+◌, ◌^◌, ◌<◌, ◌≤◌, ◌≡◌, inl, inr, refl, ap, true, false, Option, none,
  some, List, [], ◌∷◌, ◌++◌, arith, Bool-cases,
}
use nembus_os.Base.Words.{add32, sub32}
use nembus_os.Malloc.{
  heap_size, sizeof_memory, MemoryBlock, init_head, is_available, use_block, take_block, malloc,
}
use nembus_os.Malloc.Tiling.{Tiles, Tiles-le, IsHeap, available-fits}

-- Every free block of the list is smaller than `size`.
abbrev pub NoRoom : (size : ℕ) → List MemoryBlock → Type 0
NoRoom size [] = Unit {0}
NoRoom size (b ∷ bs) = (b.is_free ≡ true → b.size < size) × NoRoom size bs

pub record IsTaken (size : ℕ) (bs bs' : List MemoryBlock) (ptr : ℕ) : Type 0 where
  pub before : List MemoryBlock
  pub block : MemoryBlock
  pub behind : List MemoryBlock
  pub split : bs ≡ before ++ (block ∷ behind)
  pub first : NoRoom size before
  pub free : block.is_free ≡ true
  pub fits : size ≤ block.size
  pub pointer : ptr ≡ block.address + sizeof_memory
  pub whole :
      block.size ≤ size + sizeof_memory
      → bs'
        ≡ before
          ++ (record { address = block.address; is_free = false; size = block.size } ∷ behind)
  pub cut :
      size + sizeof_memory < block.size
      → bs'
        ≡ before
          ++ (record { address = block.address; is_free = false; size = size }
              ∷ record {
                address = block.address + sizeof_memory + size;
                is_free = true;
                size = block.size - size - sizeof_memory;
              }
              ∷ behind)

-- How a search ends.
abbrev pub Search : (size : ℕ) (bs bs' : List MemoryBlock) → Option ℕ → Type 0
Search size bs bs' none = (bs' ≡ bs) × NoRoom size bs
Search size bs bs' (some ptr) = IsTaken size bs bs' ptr

passed-small :
    (size : ℕ) (b : MemoryBlock)
    → size < 2 ^ 31
    → b.size < 2 ^ 31
    → is_available size b ≡ false
    → b.is_free ≡ true
    → b.size < size
passed-small size b small block passed free = ground arith

Search-cons :
    (size : ℕ) (b : MemoryBlock) (bs bs' : List MemoryBlock) (found : Option ℕ)
    → (b.is_free ≡ true → b.size < size)
    → Search size bs bs' found
    → Search size (b ∷ bs) (b ∷ bs') found
Search-cons size b bs bs' none small found = (ap (λ l. b ∷ l) found.0, (small, found.1))
Search-cons size b bs bs' (some ptr) small found = record {
  before = b ∷ found.before;
  block = found.block;
  behind = found.behind;
  split = ap (λ l. b ∷ l) found.split;
  first = (small, found.first);
  free = found.free;
  fits = found.fits;
  pointer = found.pointer;
  whole = λ small. ap (λ l. b ∷ l) (found.whole small);
  cut = λ large. ap (λ l. b ∷ l) (found.cut large);
}

use_block-whole :
    (size : ℕ) (b : MemoryBlock) (bs : List MemoryBlock)
    → size < 2 ^ 31
    → b.size ≤ size + sizeof_memory
    → use_block size b bs ≡ record { address = b.address; is_free = false; size = b.size } ∷ bs
use_block-whole size b bs small full =
    let sum : add32 size sizeof_memory ≡ size + sizeof_memory = omega arith in
    rw (sum, le→ltb (size + sizeof_memory) b.size full) refl

use_block-cut :
    (size : ℕ) (b : MemoryBlock) (bs : List MemoryBlock)
    → b.address + sizeof_memory + b.size < 2 ^ 32
    → size + sizeof_memory < b.size
    → use_block size b bs
      ≡ record { address = b.address; is_free = false; size = size }
        ∷ record {
          address = b.address + sizeof_memory + size;
          is_free = true;
          size = b.size - size - sizeof_memory;
        }
        ∷ bs
use_block-cut size b bs low room =
    let sum : add32 size sizeof_memory ≡ size + sizeof_memory = omega arith in
    let place : add32 (add32 b.address size) sizeof_memory ≡ b.address + sizeof_memory + size =
      omega arith in
    let rest : sub32 (sub32 b.size size) sizeof_memory ≡ b.size - size - sizeof_memory =
      omega arith in
    rw (sum, lt→ltb (size + sizeof_memory) b.size room, place, rest) refl

pub take_block-Search :
    (end size at : ℕ) (bs : List MemoryBlock)
    → end < 2 ^ 31
    → size < 2 ^ 31
    → Tiles at end bs
    → Search size bs (take_block size bs).0 (take_block size bs).1
unfolding take_block
take_block-Search end size at [] low small tiles = (refl, tt)
take_block-Search end size at (b ∷ bs) low small tiles =
    let bound = Tiles-le (at + sizeof_memory + b.size) end bs tiles.1 in
    elim (Bool-cases (is_available size b)) [
      | inl found ↦
          let (free, fits) = available-fits size b small (omega arith) found in
          rw found record {
            before = [];
            block = b;
            behind = bs;
            split = refl;
            first = tt;
            free = free;
            fits = fits;
            pointer = omega (arith, tiles.0, bound);
            whole = use_block-whole size b bs (omega arith);
            cut = use_block-cut size b bs (omega (arith, tiles.0, bound));
          }
      | inr passed ↦ rw passed (
          Search-cons size b bs (take_block size bs).0 (take_block size bs).1
            (passed-small size b small (omega arith) passed)
            (take_block-Search end size (at + sizeof_memory + b.size) bs low small tiles.1))
    ]

-- On a well-formed heap, `malloc` of a size below 2 ^ 31 takes the first free block that is large
-- enough and gives the address behind its header. The block is then in use: whole, or, when there is
-- room for another header and more, with `size` bytes, and the rest of it is a free block behind it.
-- All other blocks are as they were. It gives NULL, and changes nothing, exactly when every free
-- block is too small.
pub malloc-first :
    (heap size : ℕ) (head : List MemoryBlock)
    → heap + heap_size < 2 ^ 31
    → size < 2 ^ 31
    → IsHeap heap (init_head heap head)
    → Search size (init_head heap head) (malloc heap size head).0 (malloc heap size head).1
unfolding malloc
malloc-first heap size head low small inv =
    take_block-Search (heap + heap_size) size heap (init_head heap head) low small inv.tiles
