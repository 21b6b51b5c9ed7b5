-- ===== src/Kheap/Alloc/Invariant.antt =====
-- `alloc` keeps the heap well formed: its holes stay apart, and sorted in the index.
use nembus_os.Base.{
  ℕ, suc, ◌+◌, ◌-◌, ◌<◌, ◌≤◌, ◌≡◌, ◌⊎◌, inl, inr, ap, some, List, length, get_elem?, arith,
}
use nembus_os.Base.Words.{add32}
use nembus_os.Base.Outcome.{ok}
use nembus_os.OrderedArray.{Holds}
use nembus_os.OrderedArray.Spec.{insert_sorted, remove_at, length-insert_sorted, length-remove_at}
use nembus_os.Kheap.{Heap, PageOps, State, sizeof_header, get_size, header_t_less_than}
use nembus_os.Kheap.Blocks.{IsTagged, SameOutside, IsTagged-IsHeaded}
use nembus_os.Kheap.Holes.{
  IsHole, Apart, Clear, Shape, All-at, All-insert, remove_at-Shape, kept-Shape, kept-Clear,
  added-Shape,
}
use nembus_os.Kheap.Alloc.{alloc, block_size}
use nembus_os.Kheap.Alloc.Split.{HasSplit}
use nembus_os.Kheap.Alloc.Best.{IsReady, index-lt, alloc-best}

-- A heap whose holes are in the index, sorted by size, and apart from one another.
pub record IsWell {P : Type 0} (s : State P) (xs : List ℕ) : Type 0 where
  pub ready : IsReady s xs
  pub apart : Apart s.mem xs

abbrev pub shape_of : {P : Type 0} {s : State P} {xs : List ℕ} → IsWell s xs → Shape s xs
shape_of well = record { sorted = well.ready.sorted; holes = well.ready.holes; apart = well.apart }

-- The index holds holes of a good shape.
pub with_index :
    {P : Type 0} (s : State P) (xs : List ℕ)
    → Shape s xs
    → Holds header_t_less_than s.heap.index xs
    → length xs < s.heap.index.max_size
    → s.heap.index.max_size < 0x100000000
    → s.heap.end_address < 0x100000000
    → IsWell s xs
with_index s xs shape held room words end = record {
  ready = record {
    held = held;
    sorted = shape.sorted;
    holes = shape.holes;
    room = omega (arith, held.count);
    words = omega arith;
    end = omega arith;
  };
  apart = shape.apart;
}

-- After the hole `h` at `k` has been split the state is well formed again, and the block is clear
-- of its holes.
split-IsWell :
    {P : Type 0} (s s' : State P) (xs : List ℕ) (k h taken : ℕ)
    → IsWell s xs
    → get_elem? xs k ≡ some h
    → HasSplit header_t_less_than h taken (get_size s.mem h) (remove_at k xs) s s'
    → taken ≤ get_size s.mem h
    → (ys : List ℕ) × IsWell s' ys × Clear s' h taken ys
split-IsWell s s' xs k h taken well at split part =
    let (shape, apart) = remove_at-Shape s k h xs at (shape_of well) in
    let end = ap (λ (heap : Heap). heap.end_address) split.bounds in
    let clear =
      kept-Clear s s' (remove_at k xs) h (get_size s.mem h) shape apart split.same
        (omega (arith, end)) h taken (omega arith) (omega arith) in
    let fewer = length-remove_at k xs (index-lt xs k h at) in
    elim split.rest [
      | inl (all_taken, held) ↦ (
        remove_at k xs,
        with_index s' (remove_at k xs)
            (kept-Shape s s' (remove_at k xs) h (get_size s.mem h) shape apart split.same
              (omega (arith, end)))
            held (omega (arith, fewer, well.ready.held.count, well.ready.room, split.capacity))
            (omega (arith, split.capacity, well.ready.words)) (omega (arith, end, well.ready.end)),
        clear,
      )
      | inr (hole, held) ↦ (
        insert_sorted (header_t_less_than s'.mem) (h + taken) (remove_at k xs),
        with_index s' (insert_sorted (header_t_less_than s'.mem) (h + taken) (remove_at k xs))
            (added-Shape s s' (remove_at k xs) h (get_size s.mem h) shape apart split.same
              (omega (arith, end)) (h + taken) (get_size s.mem h - taken) (IsTagged-IsHeaded hole)
              (omega arith) (omega arith)
              (omega (arith, (All-at (IsHole s) xs k h well.ready.holes at).1)))
            held
            (omega (
              arith,
              fewer,
              well.ready.held.count,
              well.ready.room,
              split.capacity,
              length-insert_sorted (header_t_less_than s'.mem) (h + taken) (remove_at k xs),
            ))
            (omega (arith, split.capacity, well.ready.words)) (omega (arith, end, well.ready.end)),
        All-insert (λ y. (h + taken ≤ y) ⊎ (y + get_size s'.mem y ≤ h)) (header_t_less_than s'.mem)
            (h + taken) (remove_at k xs) (inl (omega arith)) clear,
      )
    ]

pub block_size-bounds :
    (orig new_size : ℕ)
    → orig < 0x100000000
    → new_size ≤ orig
    → (new_size ≤ block_size orig new_size) × (block_size orig new_size ≤ orig)
block_size-bounds orig new_size small fits = ground arith

-- In a well-formed heap with a hole that is large enough, `alloc` without alignment returns the
-- address behind the header of a block in use, of at least the size asked for, its tags included.
-- The block lies at the front of what was a hole, one of the smallest that are large enough;
-- nothing outside that hole is written; and the heap is well formed again, with holes that do not
-- overlap the block.
pub alloc-IsWell :
    {P : Type 0} (ops : PageOps P) (s : State P) (xs : List ℕ) (fuel size j g : ℕ)
    → IsWell s xs
    → get_elem? xs j ≡ some g
    → size + 20 ≤ get_size s.mem g
    → (s' : State P) × (k h n : ℕ) × (ys : List ℕ) × (alloc ops (suc fuel) size 0 s
        ≡ ok (s', add32 h sizeof_header))
      × (get_elem? xs k ≡ some h)
      × (get_size s.mem h ≤ get_size s.mem g)
      × IsTagged s'.mem h 0 n
      × (size + 20 ≤ n)
      × (n ≤ get_size s.mem h)
      × SameOutside h (get_size s.mem h) s.mem s'.mem
      × IsWell s' ys
      × Clear s' h n ys
alloc-IsWell ops s xs fuel size j g well at fits =
    let (k, h, at_k, enough, least, (s', done, split)) =
      alloc-best ops s xs well.ready fuel size j g at fits in
    let hole = All-at (IsHole s) xs k h well.ready.holes at_k in
    let taken = block_size (get_size s.mem h) (size + 20) in
    let (room, part) =
      block_size-bounds (get_size s.mem h) (size + 20) (omega (arith, hole.1, well.ready.end))
        enough in
    let (ys, well', clear) = split-IsWell s s' xs k h taken well at_k split part in
    (s', k, h, taken, ys, done, at_k, least, split.block, room, part, split.same, well', clear)
