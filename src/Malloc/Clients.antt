-- ===== src/Malloc/Clients.antt =====
-- Programs that call `malloc` and `m_free` in any order: each holds the regions that it was given
-- and has not freed, and the regions never overlap.
use nembus_os.Base.{
  ℕ, ◌+◌, ◌^◌, ◌<◌, ◌≤◌, ◌≡◌, ◌⊎◌, inl, inr, sym, subst, none, some, List, [], ◌∷◌, arith, All,
  All-map,
}
use nembus_os.Malloc.{
  heap_size, sizeof_memory, MemoryBlock, pointer_of, first_block, init_head, take_block, malloc,
  m_free,
}
use nembus_os.Malloc.Tiling.{Tiles, IsHeap}
use nembus_os.Malloc.Freed.{first-IsHeap, init_head-same, take_block-IsHeap, m_free-IsHeap}
use nembus_os.Malloc.Isolated.{IsUsed, HasGiven, used-within, take_block-HasGiven}
use nembus_os.Malloc.Taken.{Search, take_block-Search}
use nembus_os.Malloc.Kept.{m_free-used}

-- Memory that a caller holds.
pub record Region : Type 0 where
  pub start : ℕ
  pub extent : ℕ

-- One region is taken out of those that are held.
pub data Dropped (r : Region) : List Region → List Region → Type 0 where
  first : (rs : List Region) → Dropped r (r ∷ rs) rs
  later : {rs rs' : List Region} (q : Region) → Dropped r rs rs' → Dropped r (q ∷ rs) (q ∷ rs')

-- A sequence of calls, from `head == NULL` on, with a heap at the address `heap`.
pub data Reach (heap : ℕ) : List MemoryBlock → List Region → Type 0 where
  boot : Reach heap [] []
  given :
      {head : List MemoryBlock} {held : List Region} (size ptr : ℕ)
      → Reach heap head held
      → size < 2 ^ 31
      → (malloc heap size head).1 ≡ some ptr
      → Reach heap (malloc heap size head).0 (record { start = ptr; extent = size } ∷ held)
  refused :
      {head : List MemoryBlock} {held : List Region} (size : ℕ)
      → Reach heap head held
      → size < 2 ^ 31
      → (malloc heap size head).1 ≡ none
      → Reach heap (malloc heap size head).0 held
  freed :
      {head : List MemoryBlock} {held held' : List Region} (r : Region)
      → Reach heap head held
      → Dropped r held held'
      → Reach heap (m_free r.start head) held'

-- The region lies in a block in use.
pub record IsBacked (bs : List MemoryBlock) (r : Region) : Type 0 where
  pub block : MemoryBlock
  pub used : IsUsed bs block
  pub pointer : pointer_of block ≡ r.start
  pub fits : r.extent ≤ block.size

-- Two regions do not overlap, and there is room for a header between them.
abbrev pub Separate : Region → Region → Type 0
Separate p q =
    (p.start + p.extent + sizeof_memory ≤ q.start) ⊎ (q.start + q.extent + sizeof_memory ≤ p.start)

abbrev pub AllSeparate : List Region → Type 0
AllSeparate [] = Unit {0}
AllSeparate (r ∷ rs) = All (Separate r) rs × AllSeparate rs

-- The blocks are well formed, and serve the regions that are held.
pub record IsServed (heap : ℕ) (held : List Region) (bs : List MemoryBlock) : Type 0 where
  pub blocks : IsHeap heap bs
  pub backed : All (IsBacked bs) held
  pub separate : AllSeparate held

Dropped-All :
    (P : Region → Type 0) {r : Region} {held held' : List Region}
    → Dropped r held held'
    → All P held
    → All P held'
Dropped-All P (first rs) all = all.1
Dropped-All P (later q d) all = (all.0, Dropped-All P d all.1)

Separate-sym : (p q : Region) → Separate p q → Separate q p
Separate-sym p q (inl e) = inr e
Separate-sym p q (inr e) = inl e

Dropped-at :
    (P : Region → Type 0) {r : Region} {held held' : List Region}
    → Dropped r held held'
    → All P held
    → P r
Dropped-at P (first rs) all = all.0
Dropped-at P (later q d) all = Dropped-at P d all.1

Dropped-AllSeparate :
    {r : Region} {held held' : List Region}
    → Dropped r held held'
    → AllSeparate held
    → AllSeparate held' × All (Separate r) held'
Dropped-AllSeparate (first rs) apart = (apart.1, apart.0)
Dropped-AllSeparate {r = r} (later q d) apart =
    let (rest, from_r) = Dropped-AllSeparate d apart.1 in
    (
      (Dropped-All (Separate q) d apart.0, rest),
      (Separate-sym q r (Dropped-at (Separate q) d apart.0), from_r),
    )

module _ (heap : ℕ) (low : heap + heap_size < 2 ^ 31) where
  given-IsBacked :
      (size ptr : ℕ) (bs bs' : List MemoryBlock) (r : Region)
      → Tiles heap (heap + heap_size) bs
      → HasGiven size ptr bs bs'
      → IsBacked bs r
      → IsBacked bs' r × Separate (record { start = ptr; extent = size }) r
  given-IsBacked size ptr bs bs' r tiles new backed =
      let (used, outside) = new.kept backed.block backed.used in
      let (lo, hi) = used-within (heap + heap_size) heap bs backed.block tiles backed.used in
      let start : r.start ≡ backed.block.address + sizeof_memory =
        omega (arith, backed.pointer, lo, hi, low) in
      (
        record { block = backed.block; used = used; pointer = backed.pointer; fits = backed.fits },
        elim outside [
          | inl before ↦ inl (omega (arith, before, start))
          | inr after ↦ inr (omega (arith, after, start, backed.fits))
        ],
      )

  given-IsServed :
      (size ptr : ℕ) (bs : List MemoryBlock) (held : List Region)
      → IsServed heap held bs
      → size < 2 ^ 31
      → (take_block size bs).1 ≡ some ptr
      → IsServed heap (record { start = ptr; extent = size } ∷ held) (take_block size bs).0
  given-IsServed size ptr bs held inv small found =
      let (behind, new) =
        take_block-HasGiven (heap + heap_size) size low small heap ptr bs inv.blocks.tiles found in
      let own : IsBacked (take_block size bs).0 (record { start = ptr; extent = size }) = record {
        block = new.own;
        used = new.own_used;
        pointer = new.own_pointer;
        fits = new.own_size;
      } in
      let both = given-IsBacked size ptr bs (take_block size bs).0 in
      let kept =
        All-map (IsBacked bs) (IsBacked (take_block size bs).0) held
          (λ r b. (both r inv.blocks.tiles new b).0) inv.backed in
      let apart =
        All-map (IsBacked bs) (Separate (record { start = ptr; extent = size })) held
          (λ r b. (both r inv.blocks.tiles new b).1) inv.backed in
      record {
        blocks = take_block-IsHeap heap size bs low small inv.blocks;
        backed = (own, kept);
        separate = (apart, inv.separate);
      }

  freed-IsServed :
      (r : Region) (bs : List MemoryBlock) (held held' : List Region)
      → IsServed heap held bs
      → Dropped r held held'
      → IsServed heap held' (m_free r.start bs)
  freed-IsServed r bs held held' inv drop =
      let (rest, from_r) = Dropped-AllSeparate drop inv.separate in
      record {
        blocks = m_free-IsHeap heap r.start bs low inv.blocks;
        backed = all held' from_r (Dropped-All (IsBacked bs) drop inv.backed);
        separate = rest;
      }
    where
      kept : (q : Region) → Separate r q → IsBacked bs q → IsBacked (m_free r.start bs) q
      kept q apart b = record {
        block = b.block;
        used = m_free-used r.start bs b.block (omega (arith, apart, b.pointer)) b.used;
        pointer = b.pointer;
        fits = b.fits;
      }

      all :
          (qs : List Region)
          → All (Separate r) qs
          → All (IsBacked bs) qs
          → All (IsBacked (m_free r.start bs)) qs
      all [] apart backed = tt
      all (q ∷ qs) apart backed = (kept q apart.0 backed.0, all qs apart.1 backed.1)

  -- The same for the pointer `head`, which is null before the first call.
  abbrev Serves : List MemoryBlock → List Region → Type 0
  Serves head held = IsServed heap held (init_head heap head)

  from_blocks :
      (bs : List MemoryBlock) (held : List Region) → IsServed heap held bs → Serves bs held
  from_blocks bs held inv = subst (IsServed heap held) (sym (init_head-same heap bs inv.blocks)) inv

  -- Through any sequence of calls from the start of the kernel on, with an array below 2 ^ 31,
  -- sizes below 2 ^ 31, and no pointer freed but one that is held, the heap stays well formed, and
  -- every region that is held lies in a block in use of its own, with a header's room to the next:
  -- no two regions ever overlap.
  pub Reach-IsServed :
      {head : List MemoryBlock} {held : List Region}
      → Reach heap head held
      → IsServed heap held (init_head heap head)
  unfolding malloc m_free
  Reach-IsServed boot = record { blocks = first-IsHeap heap; backed = tt; separate = tt }
  Reach-IsServed (given {head = head} {held = held} size ptr run small found) =
      from_blocks (take_block size (init_head heap head)).0 _
        (given-IsServed size ptr (init_head heap head) held (Reach-IsServed run) small found)
  Reach-IsServed (refused {head = head} {held = held} size run small found) =
      let inv = Reach-IsServed run in
      let (same, none_fits) =
        subst (Search size (init_head heap head) (take_block size (init_head heap head)).0) found (
          take_block-Search (heap + heap_size) size heap (init_head heap head) low small
            inv.blocks.tiles) in
      from_blocks (take_block size (init_head heap head)).0 held
        (subst (IsServed heap held) (sym same) inv)
  Reach-IsServed (freed {head = []} {held = held} {held' = held'} r run drop) =
      let inv = Reach-IsServed run in
      record {
        blocks = first-IsHeap heap;
        backed = Dropped-All (IsBacked (first_block heap ∷ [])) drop inv.backed;
        separate = (Dropped-AllSeparate drop inv.separate).0;
      }
  Reach-IsServed (freed {head = b ∷ bs} {held = held} {held' = held'} r run drop) =
      from_blocks (m_free r.start (b ∷ bs)) held'
        (freed-IsServed r (b ∷ bs) held held' (Reach-IsServed run) drop)
