-- ===== src/Malloc/Freed.antt =====
-- `m_free` keeps the blocks one behind the other.
use nembus_os.Base.{
  ℕ, ◌+◌, ◌^◌, ◌<◌, ◌≡◌, refl, true, false, List, [], ◌∷◌, arith, ◌==◌, Bool-cases, inl, inr,
}
use nembus_os.Base.Words.{add32}
use nembus_os.Malloc.{
  heap_size, sizeof_memory, MemoryBlock, pointer_of, init_head, take_block, join_next, free_block,
  free_behind, m_free,
}
use nembus_os.Malloc.Tiling.{Tiles, Tiles-le, IsHeap, take_block-Tiles}
use nembus_os.Malloc.Apart.{take_block-IsApart, m_free-IsApart}

module _ (end : ℕ) (low : end < 2 ^ 31) where
  join_next-Tiles :
      (at : ℕ) (b : MemoryBlock) (bs : List MemoryBlock)
      → Tiles at end (b ∷ bs)
      → Tiles at end (join_next b bs)
  join_next-Tiles at b [] tiles = tiles
  join_next-Tiles at b (n ∷ ns) tiles =
      let bound =
        Tiles-le (at + sizeof_memory + b.size + sizeof_memory + n.size) end ns tiles.1.1 in
      let same : at + sizeof_memory + b.size + sizeof_memory + n.size
          ≡ at + sizeof_memory + add32 b.size (add32 n.size sizeof_memory) =
        omega arith in
      elim (Bool-cases n.is_free) [
        | inl joined ↦ rw joined (tiles.0, (rw same at tiles.1.1))
        | inr kept ↦ rw kept tiles
      ]

  free_block-Tiles :
      (at : ℕ) (previous b : MemoryBlock) (bs : List MemoryBlock)
      → Tiles at end (previous ∷ b ∷ bs)
      → Tiles at end (free_block previous b bs)
  free_block-Tiles at previous b bs tiles =
      let bound =
        Tiles-le (at + sizeof_memory + previous.size + sizeof_memory + b.size) end bs tiles.1.1 in
      let same : at + sizeof_memory + previous.size + sizeof_memory + b.size
          ≡ at + sizeof_memory + add32 previous.size (add32 b.size sizeof_memory) =
        omega arith in
      elim (Bool-cases previous.is_free) [
        | inl joined ↦
            let merged =
              join_next-Tiles at
                (record previous { size = add32 previous.size (add32 b.size sizeof_memory) }) bs
                (tiles.0, (rw same at tiles.1.1)) in
            rw joined (rw joined at merged)
        | inr kept ↦ rw kept (
          tiles.0,
          join_next-Tiles (at + sizeof_memory + previous.size) (record b { is_free = true }) bs
              tiles.1,
        )
      ]

  free_behind-Tiles :
      (ptr at : ℕ) (previous : MemoryBlock) (bs : List MemoryBlock)
      → Tiles at end (previous ∷ bs)
      → Tiles at end (free_behind ptr previous bs)
  unfolding free_behind
  free_behind-Tiles ptr at previous [] tiles = tiles
  free_behind-Tiles ptr at previous (b ∷ bs) tiles = elim (Bool-cases (pointer_of b == ptr)) [
    | inl found ↦ rw found (free_block-Tiles at previous b bs tiles)
    | inr passed ↦
        rw passed (tiles.0, free_behind-Tiles ptr (at + sizeof_memory + previous.size) b bs tiles.1)
  ]

  m_free-Tiles :
      (ptr at : ℕ) (bs : List MemoryBlock) → Tiles at end bs → Tiles at end (m_free ptr bs)
  unfolding m_free
  m_free-Tiles ptr at [] tiles = tiles
  m_free-Tiles ptr at (b ∷ bs) tiles = elim (Bool-cases (ptr == 0)) [
    | inl null ↦ rw null tiles
    | inr given ↦ elim (Bool-cases (pointer_of b == ptr)) [
      | inl found ↦ rw (given, found) (join_next-Tiles at (record b { is_free = true }) bs tiles)
      | inr passed ↦ rw (given, passed) (free_behind-Tiles ptr at b bs tiles)
    ]
  ]

-- A well-formed heap has a first block.
pub init_head-same : (heap : ℕ) (bs : List MemoryBlock) → IsHeap heap bs → init_head heap bs ≡ bs
init_head-same heap [] inv = absurd (omega (arith, inv.tiles))
init_head-same heap (b ∷ bs) inv = refl

pub first-IsHeap : (heap : ℕ) → IsHeap heap (init_head heap [])
first-IsHeap heap = record { tiles = (refl, omega arith); apart = (refl, tt) }

pub take_block-IsHeap :
    (heap size : ℕ) (bs : List MemoryBlock)
    → heap + heap_size < 2 ^ 31
    → size < 2 ^ 31
    → IsHeap heap bs
    → IsHeap heap (take_block size bs).0
take_block-IsHeap heap size bs low small inv = record {
  tiles = take_block-Tiles (heap + heap_size) size low small heap bs inv.tiles;
  apart = take_block-IsApart size false bs inv.apart;
}

pub m_free-IsHeap :
    (heap ptr : ℕ) (bs : List MemoryBlock)
    → heap + heap_size < 2 ^ 31
    → IsHeap heap bs
    → IsHeap heap (m_free ptr bs)
m_free-IsHeap heap ptr bs low inv = record {
  tiles = m_free-Tiles (heap + heap_size) low ptr heap bs inv.tiles;
  apart = m_free-IsApart ptr bs inv.apart;
}
