-- ===== src/Malloc/RoundTrip.antt =====
-- `m_free` of what `malloc` has just given undoes it.
use nembus_os.Base.{
  ℕ, ◌+◌, ◌^◌, ◌<◌, ◌≤◌, ◌≡◌, ◌≢◌, inl, inr, refl, ap, ◌∙◌, sym, Bool, true, false, some, List, [],
  ◌∷◌, arith, ltb, if◌then◌else◌, Bool-cases, ltb→lt, ne→==, eq→==,
}
use nembus_os.Base.Words.{add32, sub32}
use nembus_os.Malloc.{
  heap_size, sizeof_memory, MemoryBlock, pointer_of, init_head, is_available, use_block, take_block,
  malloc, join_next, free_behind, m_free,
}
use nembus_os.Malloc.Isolated.{take_block-HasGiven}
use nembus_os.Malloc.Tiling.{Tiles, Tiles-le, IsApart, IsHeap, available-fits}

-- A block behind which the next is in use is joined to nothing.
join_next-alone :
    (b : MemoryBlock) (bs : List MemoryBlock) → IsApart true bs → join_next b bs ≡ b ∷ bs
join_next-alone b [] apart = refl
join_next-alone b (n ∷ ns) apart = rw apart.0 refl

-- The block that a search finds, after it has been given back.
abbrev given_back : (size : ℕ) → MemoryBlock → List MemoryBlock → List MemoryBlock
given_back size b bs =
    if ltb (add32 size sizeof_memory) b.size
    then record b {
      is_free = true;
      size = add32 size (add32 (sub32 (sub32 b.size size) sizeof_memory) sizeof_memory);
    }
      ∷ bs
    else join_next (record b { is_free = true }) bs

given_back-same :
    (end size at : ℕ) (b : MemoryBlock) (bs : List MemoryBlock)
    → end < 2 ^ 31
    → size ≤ b.size
    → b.is_free ≡ true
    → Tiles at end (b ∷ bs)
    → IsApart b.is_free bs
    → given_back size b bs ≡ b ∷ bs
given_back-same end size at b bs low fits free tiles apart =
    let bound = Tiles-le (at + sizeof_memory + b.size) end bs tiles.1 in
    elim (Bool-cases (ltb (add32 size sizeof_memory) b.size)) [
      | inl split ↦
          let room = ltb→lt (add32 size sizeof_memory) b.size split in
          let whole : add32 size (add32 (sub32 (sub32 b.size size) sizeof_memory) sizeof_memory)
              ≡ b.size =
            omega arith in
          rw (split, whole) (ap (λ (f : Bool). record b { is_free = f } ∷ bs) (sym free))
      | inr kept ↦ rw kept (
          join_next-alone (record b { is_free = true }) bs (rw free at apart)
          ∙ ap (λ (f : Bool). record b { is_free = f } ∷ bs) (sym free))
    ]

m_free-use_block :
    (size : ℕ) (b : MemoryBlock) (bs : List MemoryBlock)
    → pointer_of b ≢ 0
    → m_free (pointer_of b) (use_block size b bs) ≡ given_back size b bs
unfolding m_free
m_free-use_block size b bs real = elim (Bool-cases (ltb (add32 size sizeof_memory) b.size)) [
  | inl split ↦
      rw (split, ne→== (pointer_of b) 0 real, eq→== (pointer_of b) (pointer_of b) refl) refl
  | inr kept ↦ rw (kept, ne→== (pointer_of b) 0 real, eq→== (pointer_of b) (pointer_of b) refl) refl
]

free_behind-use_block :
    (size : ℕ) (previous b : MemoryBlock) (bs : List MemoryBlock)
    → previous.is_free ≡ false
    → free_behind (pointer_of b) previous (use_block size b bs) ≡ previous ∷ given_back size b bs
unfolding free_behind
free_behind-use_block size previous b bs used =
    elim (Bool-cases (ltb (add32 size sizeof_memory) b.size)) [
      | inl split ↦ rw (split, eq→== (pointer_of b) (pointer_of b) refl, used) refl
      | inr kept ↦ rw (kept, eq→== (pointer_of b) (pointer_of b) refl, used) refl
    ]

free_behind-step :
    (previous b : MemoryBlock) (bs : List MemoryBlock) (ptr : ℕ)
    → pointer_of b ≢ ptr
    → free_behind ptr previous (b ∷ bs) ≡ previous ∷ free_behind ptr b bs
unfolding free_behind
free_behind-step previous b bs ptr other = rw (ne→== (pointer_of b) ptr other) refl

m_free-step :
    (b : MemoryBlock) (bs : List MemoryBlock) (ptr : ℕ)
    → ptr ≢ 0
    → pointer_of b ≢ ptr
    → m_free ptr (b ∷ bs) ≡ free_behind ptr b bs
unfolding m_free
m_free-step b bs ptr real other = rw (ne→== ptr 0 real, ne→== (pointer_of b) ptr other) refl

module _ (end size : ℕ) (low : end < 2 ^ 31) (small : size < 2 ^ 31) where
  free_behind-take_block :
      (at ptr : ℕ) (previous : MemoryBlock) (bs : List MemoryBlock)
      → Tiles at end bs
      → IsApart previous.is_free bs
      → (take_block size bs).1 ≡ some ptr
      → free_behind ptr previous (take_block size bs).0 ≡ previous ∷ bs
  unfolding take_block
  free_behind-take_block at ptr previous [] tiles apart found = cc
  free_behind-take_block at ptr previous (b ∷ bs) tiles apart found =
      let bound = Tiles-le (at + sizeof_memory + b.size) end bs tiles.1 in
      elim (Bool-cases (is_available size b)) [
        | inl here ↦
            let same : some (pointer_of b) ≡ some ptr = rw here at found in
            let at_block : ptr ≡ pointer_of b = cc in
            let (free, fits) = available-fits size b small (omega arith) here in
            rw (here, at_block)
              (free_behind-use_block size previous b bs (ground (arith, apart.0, free))
                ∙ ap (λ l. previous ∷ l)
                    (given_back-same end size at b bs low fits free tiles apart.1))
        | inr passed ↦
            let later : (take_block size bs).1 ≡ some ptr = rw passed at found in
            let beyond =
              (take_block-HasGiven end size low small (at + sizeof_memory + b.size) ptr bs tiles.1
                later).0 in
            rw passed (
              free_behind-step previous b (take_block size bs).0 ptr (omega (arith, tiles.0))
              ∙ ap (λ l. previous ∷ l)
                  (free_behind-take_block (at + sizeof_memory + b.size) ptr b bs tiles.1 apart.1
                    later))
      ]

  m_free-take_block :
      (at ptr : ℕ) (bs : List MemoryBlock)
      → Tiles at end bs
      → IsApart false bs
      → (take_block size bs).1 ≡ some ptr
      → m_free ptr (take_block size bs).0 ≡ bs
  unfolding take_block
  m_free-take_block at ptr [] tiles apart found = cc
  m_free-take_block at ptr (b ∷ bs) tiles apart found =
      let bound = Tiles-le (at + sizeof_memory + b.size) end bs tiles.1 in
      elim (Bool-cases (is_available size b)) [
        | inl here ↦
            let same : some (pointer_of b) ≡ some ptr = rw here at found in
            let at_block : ptr ≡ pointer_of b = cc in
            let (free, fits) = available-fits size b small (omega arith) here in
            rw (here, at_block)
              (m_free-use_block size b bs (omega (arith, tiles.0))
                ∙ given_back-same end size at b bs low fits free tiles apart.1)
        | inr passed ↦
            let later : (take_block size bs).1 ≡ some ptr = rw passed at found in
            let beyond =
              (take_block-HasGiven end size low small (at + sizeof_memory + b.size) ptr bs tiles.1
                later).0 in
            rw passed (
              m_free-step b (take_block size bs).0 ptr (omega arith) (omega (arith, tiles.0))
              ∙ free_behind-take_block (at + sizeof_memory + b.size) ptr b bs tiles.1 apart.1 later)
      ]

-- What `malloc` gives on a well-formed heap, `m_free` takes back: the two calls together leave the
-- heap as it was, so no memory is lost or left in pieces.
pub m_free-malloc :
    (heap size ptr : ℕ) (head : List MemoryBlock)
    → heap + heap_size < 2 ^ 31
    → size < 2 ^ 31
    → IsHeap heap (init_head heap head)
    → (malloc heap size head).1 ≡ some ptr
    → m_free ptr (malloc heap size head).0 ≡ init_head heap head
unfolding malloc
m_free-malloc heap size ptr head low small inv found =
    m_free-take_block (heap + heap_size) size low small heap ptr (init_head heap head) inv.tiles
      inv.apart found
