-- ===== src/Kheap/Alloc/Growth.antt =====
-- The steps of `alloc` that grow the heap, and what the search finds afterwards.
use nembus_os.Base.{
  All, ℕ, zero, suc, ◌+◌, ◌-◌, ◌<◌, ◌≤◌, ◌≡◌, ◌⊎◌, inl, inr, refl, ◌∙◌, ap, sym, Bool, true,
  Bool-cases, none, some, List, [], ◌∷◌, get_elem?, arith,
}
use nembus_os.Base.Words.{add32, sub32}
use nembus_os.Base.Outcome.{ok}
use nembus_os.OrderedArray.{Holds}
use nembus_os.OrderedArray.Spec.{All-remove_at, remove_at}
use nembus_os.Kheap.{PageOps, State, sizeof_header, sizeof_footer, get_size, header_t_less_than}
use nembus_os.Kheap.Blocks.{grown}
use nembus_os.Kheap.Holes.{IsHole, Clear, All-at, All-zip, remove_at-Shape}
use nembus_os.Kheap.Search.{find_smallest_hole, search_last}
use nembus_os.Kheap.Search.BestFit.{first_fit}
use nembus_os.Kheap.Alloc.{with_mem, extend_last, grow, alloc}
use nembus_os.Kheap.Alloc.Best.{lookup-at}
use nembus_os.Kheap.Alloc.Invariant.{IsWell, shape_of}

module _ {P : Type 0} (s : State P) (xs : List ℕ) (k h : ℕ)
    (held : Holds header_t_less_than s.heap.index xs) (at : get_elem? xs k ≡ some h)
    (found : search_last s.heap.index 0 s.heap.index.size none 0 ≡ ok (some k)) where
  -- The highest hole takes the room that `expand` has made.
  pub extend_last-grown :
      (old_end old_length new_length sz : ℕ)
      → sub32 s.heap.end_address s.heap.start_address ≡ new_length
      → add32 (get_size s.mem h) (sub32 new_length old_length) ≡ sz
      → h + sz < 0x100000000
      → 8 ≤ sz
      → extend_last old_end old_length s ≡ ok (with_mem s (grown s.mem h sz))
  unfolding extend_last
  extend_last-grown old_end old_length new_length sz new size fits room =
      let foot : sub32 (add32 h sz) sizeof_footer ≡ h + sz - 8 = omega arith in
      rw (found, lookup-at header_t_less_than s.heap.index xs k h held at, new, size, foot)

-- Nothing lies behind the highest hole that belongs to another one.
pub highest-Clear :
    {P : Type 0} (s : State P) (xs : List ℕ) (k h len : ℕ)
    → IsWell s xs
    → get_elem? xs k ≡ some h
    → All (λ y. y ≤ h) xs
    → Clear s h len (remove_at k xs)
highest-Clear s xs k h len well at high =
    let (shape, apart) = remove_at-Shape s k h xs at (shape_of well) in
    let hole = All-at (IsHole s) xs k h well.ready.holes at in
    let room = hole.0.room in
    All-zip (λ y. y ≤ h) (λ y. (h + get_size s.mem h ≤ y) ⊎ (y + get_size s.mem y ≤ h))
      (λ y. (h + len ≤ y) ⊎ (y + get_size s.mem y ≤ h)) (remove_at k xs)
      (λ y low away. inr (omega arith)) (All-remove_at (λ y. y ≤ h) k xs high) apart

pub first_fit-some :
    (p : ℕ → Bool) (xs : List ℕ) (k h : ℕ)
    → get_elem? xs k ≡ some h
    → p h ≡ true
    → (j g : ℕ) × (first_fit p xs ≡ some j) × (get_elem? xs j ≡ some g) × (p g ≡ true)
first_fit-some p [] k h at fits = cc
first_fit-some p (x ∷ xs) zero h at fits =
    let here : h ≡ x = cc in
    let first : p x ≡ true = ap p (sym here) ∙ fits in (0, x, rw first, refl, first)
first_fit-some p (x ∷ xs) (suc k) h at fits = elim (Bool-cases (p x)) [
  | inl here ↦ (0, x, rw here, refl, here)
  | inr not_here ↦
      let (j, g, first, at_j, fits_g) = first_fit-some p xs k h at fits in
      (suc j, g, rw (not_here, first), at_j, fits_g)
]

-- What `alloc` does once it has found no hole and has grown the heap.
pub alloc-grown :
    {P : Type 0} (ops : PageOps P) (s s' : State P) (fuel size : ℕ)
    → size + 20 < 0x100000000
    → find_smallest_hole s.mem s.heap.index (size + 20) 0 ≡ ok none
    → grow ops (size + 20) s ≡ ok s'
    → alloc ops (suc fuel) size 0 s ≡ alloc ops fuel size 0 s'
unfolding alloc
alloc-grown ops s s' fuel size few found grew =
    let new_size : add32 (add32 size sizeof_header) sizeof_footer ≡ size + 20 = omega arith in
    rw (new_size, found, new_size, grew)
