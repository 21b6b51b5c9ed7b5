-- ===== src/Malloc.antt =====
-- The allocator for programs of src/impl/memory.c: `malloc` and `m_free` on the static array
-- `heap`. The chain of `struct memory` from `head` is the list of its blocks, each with the address
-- of its header, and an empty list is `head == NULL`. Sizes are 32-bit patterns, since the source
-- compares them as `int` in one place and as `size_t` in another.
pub mod Tiling
pub mod Apart
pub mod Isolated
pub mod Kept
pub mod Clients
pub mod Taken
mod Tests
pub mod RoundTrip
pub mod Freed
use nembus_os.Base.{
  ℕ, ◌+◌, ◌-◌, Bool, true, false, ◌&&◌, Option, none, some, List, [], ◌∷◌, ltb, ◌==◌, if◌then◌else◌,
}
use nembus_os.Base.Words.{add32, sub32, sle32}

abbrev pub heap_size : ℕ
heap_size = 25000

-- `sizeof(memory)`: `bool` is an `enum` of 4 bytes here.
abbrev pub sizeof_memory : ℕ
sizeof_memory = 12

-- `struct memory`; `next` is the block behind it in the list.
pub record MemoryBlock : Type 0 where
  pub address : ℕ
  pub is_free : Bool
  pub size : ℕ

-- What a caller gets of a block.
abbrev pub pointer_of : MemoryBlock → ℕ
pointer_of b = add32 b.address sizeof_memory

-- The first block, over the whole array.
abbrev pub first_block : (heap : ℕ) → MemoryBlock
first_block heap = record { address = heap; is_free = true; size = sub32 heap_size sizeof_memory }

abbrev pub init_head : (heap : ℕ) → List MemoryBlock → List MemoryBlock
init_head heap [] = first_block heap ∷ []
init_head heap (b ∷ bs) = b ∷ bs

-- The condition of the search loop.
abbrev pub is_available : (size : ℕ) → MemoryBlock → Bool
is_available size b = b.is_free && sle32 size b.size

-- The block that is taken, and the free block behind it if there is room for one.
abbrev pub use_block : (size : ℕ) → MemoryBlock → List MemoryBlock → List MemoryBlock
use_block size b bs =
    if ltb (add32 size sizeof_memory) b.size
    then record b { is_free = false; size = size }
      ∷ record {
        address = add32 (add32 b.address size) sizeof_memory;
        is_free = true;
        size = sub32 (sub32 b.size size) sizeof_memory;
      }
      ∷ bs
    else record b { is_free = false } ∷ bs

-- The search and the block that it finds; `none` is NULL.
unfoldable pub take_block : (size : ℕ) → List MemoryBlock → List MemoryBlock × Option ℕ
take_block size [] = ([], none)
take_block size (b ∷ bs) =
    let (rest, found) = take_block size bs in
    if is_available size b then (use_block size b bs, some (pointer_of b)) else (b ∷ rest, found)

unfoldable pub malloc : (heap size : ℕ) → List MemoryBlock → List MemoryBlock × Option ℕ
malloc heap size head = take_block size (init_head heap head)

-- The block takes in the block behind it, if that is free.
abbrev pub join_next : MemoryBlock → List MemoryBlock → List MemoryBlock
join_next b [] = b ∷ []
join_next b (n ∷ ns) =
    if n.is_free
    then record b { size = add32 b.size (add32 n.size sizeof_memory) } ∷ ns
    else b ∷ n ∷ ns

-- A block becomes free, and is joined to the block before it if that is free.
abbrev pub free_block : (previous b : MemoryBlock) → List MemoryBlock → List MemoryBlock
free_block previous b bs =
    if previous.is_free
    then join_next (record previous { size = add32 previous.size (add32 b.size sizeof_memory) }) bs
    else previous ∷ join_next (record b { is_free = true }) bs

-- The search loop of `m_free`, with a block before the current one.
unfoldable pub free_behind : (ptr : ℕ) → MemoryBlock → List MemoryBlock → List MemoryBlock
free_behind ptr previous [] = previous ∷ []
free_behind ptr previous (b ∷ bs) =
    let rest = free_behind ptr b bs in
    if pointer_of b == ptr then free_block previous b bs else previous ∷ rest

unfoldable pub m_free : (ptr : ℕ) → List MemoryBlock → List MemoryBlock
m_free ptr [] = []
m_free ptr (b ∷ bs) =
    let rest = free_behind ptr b bs in
    if ptr == 0
    then b ∷ bs
    else if pointer_of b == ptr
    then join_next (record b { is_free = true }) bs
    else rest
