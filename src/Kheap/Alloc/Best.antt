-- ===== src/Kheap/Alloc/Best.antt =====
-- `alloc` in a heap whose index is sorted and whose holes are well formed.
use nembus_os.Base.{
  All, ℕ, zero, suc, ◌+◌, ◌^◌, ◌<◌, ◌≤◌, ◌≡◌, refl, ◌∙◌, ap, Option, none, some, List, [], ◌∷◌,
  length, get_elem?, arith, lt→ltb,
}
use nembus_os.Base.Words.{add32}
use nembus_os.Base.Outcome.{ok}
use nembus_os.OrderedArray.{OrderedArray, LessThan, Holds, lookup_ordered_array}
use nembus_os.OrderedArray.Cells.{get_elem?-append_left}
use nembus_os.OrderedArray.Spec.{IsSorted, remove_at}
use nembus_os.Kheap.{PageOps, State, sizeof_header, sizeof_footer, get_size, header_t_less_than}
use nembus_os.Kheap.Holes.{IsHole, All-at}
use nembus_os.Kheap.Search.{find_smallest_hole}
use nembus_os.Kheap.Search.BestFit.{BestFit, find_smallest_hole-BestFit}
use nembus_os.Kheap.Alloc.{block_size, take_hole, alloc}
use nembus_os.Kheap.Alloc.Split.{HasSplit, take_hole-HasSplit}

-- What `alloc` relies on: the index holds `xs`, sorted by size, with room to spare, and each item
-- is a hole inside the heap.
pub record IsReady {P : Type 0} (s : State P) (xs : List ℕ) : Type 0 where
  pub held : Holds header_t_less_than s.heap.index xs
  pub sorted : IsSorted (header_t_less_than s.mem) xs
  pub holes : All (IsHole s) xs
  pub room : s.heap.index.size < s.heap.index.max_size
  pub words : s.heap.index.max_size < 2 ^ 32
  pub end : s.heap.end_address < 2 ^ 32

pub index-lt : (xs : List ℕ) (i x : ℕ) → get_elem? xs i ≡ some x → i < length xs
index-lt [] i x e = cc
index-lt (y ∷ xs) zero x e = omega arith
index-lt (y ∷ xs) (suc i) x e = omega (arith, index-lt xs i x e)

pub lookup-at :
    (lt : LessThan) (a : OrderedArray) (xs : List ℕ) (i x : ℕ)
    → Holds lt a xs
    → get_elem? xs i ≡ some x
    → lookup_ordered_array i a ≡ ok x
unfolding lookup_ordered_array
lookup-at lt a xs i x h e = rw (
  lt→ltb i a.size (omega (arith, h.count, index-lt xs i x e)),
  ap (λ (l : List ℕ). get_elem? l i) h.cells ∙ get_elem?-append_left xs h.spare i x e,
)

-- What a call that finds a hole at `k` does.
abbrev Takes : {P : Type 0} → PageOps P → State P → List ℕ → (fuel size k h : ℕ) → Type 0
Takes {P} ops s xs fuel size k h =
    (s' : State P) × (alloc ops fuel size 0 s ≡ ok (s', add32 h sizeof_header))
    × HasSplit header_t_less_than h (block_size (get_size s.mem h) (size + 20)) (get_size s.mem h)
        (remove_at k xs) s s'

-- What `alloc` does once its search has found a hole.
pub alloc-found :
    {P : Type 0} (ops : PageOps P) (s : State P) (fuel size k : ℕ)
    → size + 20 < 2 ^ 32
    → find_smallest_hole s.mem s.heap.index (size + 20) 0 ≡ ok (some k)
    → alloc ops (suc fuel) size 0 s ≡ take_hole k size (size + 20) 0 s
unfolding alloc
alloc-found ops s fuel size k small found =
    let new_size : add32 (add32 size sizeof_header) sizeof_footer ≡ size + 20 = omega arith in
    rw (new_size, found, ap (λ (n : ℕ). take_hole k size n 0 s) new_size)

module _ {P : Type 0} (ops : PageOps P) (s : State P) (xs : List ℕ) (ready : IsReady s xs) where
  open ready use {held, sorted, holes, room, words, end}

  alloc-taken :
      (fuel size k h : ℕ)
      → find_smallest_hole s.mem s.heap.index (size + 20) 0 ≡ ok (some k)
      → get_elem? xs k ≡ some h
      → size + 20 ≤ get_size s.mem h
      → Takes ops s xs (suc fuel) size k h
  alloc-taken fuel size k h found at fits =
      let hole = All-at (IsHole s) xs k h holes at in
      let (s', done, split) =
        take_hole-HasSplit header_t_less_than s xs k h (get_size s.mem h) size held
          (omega (arith, held.count, index-lt xs k h at))
          (lookup-at header_t_less_than s.heap.index xs k h held at) refl fits hole.1 end room
          words in
      (s', alloc-found ops s fuel size k (omega (arith, hole.0.fits)) found ∙ done, split)

  -- If some hole is large enough, `alloc` takes one of the smallest that are: it returns the
  -- address behind that hole's header, and splits that hole.
  pub alloc-best :
      (fuel size j g : ℕ)
      → get_elem? xs j ≡ some g
      → size + 20 ≤ get_size s.mem g
      → (k h : ℕ) × (get_elem? xs k ≡ some h)
        × (size + 20 ≤ get_size s.mem h)
        × (get_size s.mem h ≤ get_size s.mem g)
        × Takes ops s xs (suc fuel) size k h
  alloc-best fuel size j g at fits =
      let (r, found, best) =
        find_smallest_hole-BestFit s.mem s.heap.index xs (size + 20) held sorted in
      choose r found best
    where
      choose :
          (r : Option ℕ)
          → find_smallest_hole s.mem s.heap.index (size + 20) 0 ≡ ok r
          → BestFit s.mem (size + 20) xs r
          → (k h : ℕ) × (get_elem? xs k ≡ some h)
            × (size + 20 ≤ get_size s.mem h)
            × (get_size s.mem h ≤ get_size s.mem g)
            × Takes ops s xs (suc fuel) size k h
      choose none found best =
          absurd (omega (arith, All-at (λ h. get_size s.mem h < size + 20) xs j g best at))
      choose (some k) found (h, at_k, fits_k, least) = (
        k,
        h,
        at_k,
        fits_k,
        All-at (λ g. size + 20 ≤ get_size s.mem g → get_size s.mem h ≤ get_size s.mem g) xs j g
            least at fits,
        alloc-taken fuel size k h found at_k fits_k,
      )
