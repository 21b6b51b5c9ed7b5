-- ===== src/Kheap/Search/BestFit.antt =====
-- What `find_smallest_hole` finds in an index that is sorted by size.
use mathlib.Core.List.{append_assoc}
use nembus_os.Base.{
  All, ℕ, suc, ◌+◌, ◌≤◌, ◌<◌, ◌≡◌, refl, ◌∙◌, ap, Bool, false, Option, none, some, List, [], ◌∷◌,
  ◌++◌, arith, length, length-append, get_elem?, leb, leb→le, leb→lt, ltb→le, lt→ltb, if◌then◌else◌,
  Bool-cases, inl, inr,
}
use nembus_os.Base.Outcome.{ok}
use nembus_os.Memory.{Memory}
use nembus_os.OrderedArray.{OrderedArray, LessThan, Holds, lookup_ordered_array}
use nembus_os.OrderedArray.Cells.{get_elem?-at, append-cons, length-snoc}
use nembus_os.OrderedArray.Spec.{IsSorted}
use nembus_os.Kheap.{get_size, header_t_less_than}
use nembus_os.Kheap.Search.{hole_fits, search_hole, find_smallest_hole}

-- The position of the first item that passes a test.
abbrev bump : Option ℕ → Option ℕ
bump none = none
bump (some k) = some (suc k)

abbrev pub first_fit : (ℕ → Bool) → List ℕ → Option ℕ
first_fit p [] = none
first_fit p (x ∷ xs) = if p x then some 0 else bump (first_fit p xs)

abbrev offset : ℕ → Option ℕ → Option ℕ
offset i none = none
offset i (some k) = some (i + k)

offset-bump : (i : ℕ) (r : Option ℕ) → offset (i + 1) r ≡ offset i (bump r)
offset-bump i none = refl
offset-bump i (some k) = ap some (omega arith)

offset-zero : (r : Option ℕ) → offset 0 r ≡ r
offset-zero none = refl
offset-zero (some k) = ap some (omega arith)

-- A look-up in range succeeds.
pub lookup-Holds :
    (lt : LessThan) (a : OrderedArray) (xs pre mid : List ℕ) (x i : ℕ)
    → Holds lt a xs
    → xs ≡ pre ++ x ∷ mid
    → i ≡ length pre
    → lookup_ordered_array i a ≡ ok x
unfolding lookup_ordered_array
lookup-Holds lt a xs pre mid x i h e n = rw (
  lt→ltb i a.size (omega (arith, h.count, ap length e, length-append pre (x ∷ mid))),
  get_elem?-at a.array pre (mid ++ h.spare) x i
      (h.cells ∙ ap (λ l. l ++ h.spare) e ∙ append_assoc pre (x ∷ mid) h.spare) n,
)

module _ (m : Memory) (lt : LessThan) (index : OrderedArray) (xs : List ℕ)
    (h : Holds lt index xs) where
  search_hole-first_fit :
      (size page_align : ℕ) (pre mid : List ℕ) (i : ℕ)
      → xs ≡ pre ++ mid
      → i ≡ length pre
      → search_hole m index size page_align i (length mid)
        ≡ ok (offset i (first_fit (hole_fits m size page_align) mid))
  unfolding search_hole
  search_hole-first_fit size page_align pre [] i e n = refl
  search_hole-first_fit size page_align pre (x ∷ mid) i e n =
      rw (lookup-Holds lt index xs pre mid x i h e n)
        (elim (Bool-cases (hole_fits m size page_align x)) [
          | inl fits ↦ rw fits (ap (λ (k : ℕ). ok (some k)) (omega arith))
          | inr small ↦ rw small (
              search_hole-first_fit size page_align (pre ++ x ∷ []) mid (i + 1)
                (e ∙ append-cons pre mid x) (omega (arith, length-snoc pre x))
              ∙ ap ok (offset-bump i (first_fit (hole_fits m size page_align) mid)))
        ])

  -- The search finds the first hole of the index that fits.
  pub find_smallest_hole-first_fit :
      (size page_align : ℕ)
      → find_smallest_hole m index size page_align ≡ ok (first_fit (hole_fits m size page_align) xs)
  unfolding find_smallest_hole
  find_smallest_hole-first_fit size page_align =
      ap (search_hole m index size page_align 0) h.count
      ∙ search_hole-first_fit size page_align [] xs 0 refl refl
      ∙ ap ok (offset-zero (first_fit (hole_fits m size page_align) xs))

-- The answer of a best fit: no hole is large enough, or one of the smallest that are.
abbrev pub BestFit : Memory → ℕ → List ℕ → Option ℕ → Type 0
BestFit m size xs none = All (λ h. get_size m h < size) xs
BestFit m size xs (some i) =
    (h : ℕ) × (get_elem? xs i ≡ some h)
    × (size ≤ get_size m h)
    × All (λ g. size ≤ get_size m g → get_size m h ≤ get_size m g) xs

All-above :
    (m : Memory) (size x : ℕ) (xs : List ℕ)
    → All (λ y. header_t_less_than m y x ≡ false) xs
    → All (λ g. size ≤ get_size m g → get_size m x ≤ get_size m g) xs
All-above m size x [] all = tt
All-above m size x (y ∷ xs) all =
    (λ _. ltb→le (get_size m y) (get_size m x) all.0, All-above m size x xs all.1)

first_fit-BestFit :
    (m : Memory) (size : ℕ) (xs : List ℕ)
    → IsSorted (header_t_less_than m) xs
    → BestFit m size xs (first_fit (hole_fits m size 0) xs)
unfolding hole_fits
first_fit-BestFit m size [] s = tt
first_fit-BestFit m size (x ∷ xs) s = elim (Bool-cases (leb size (get_size m x))) [
  | inl fits ↦
      rw fits
        (x, refl, leb→le size (get_size m x) fits, (λ _. omega arith, All-above m size x xs s.0))
  | inr small ↦ rw small (
      next (first_fit (hole_fits m size 0) xs) (first_fit-BestFit m size xs s.1)
        (leb→lt size (get_size m x) small))
]
  where
    next :
        (r : Option ℕ)
        → BestFit m size xs r
        → (get_size m x < size)
        → BestFit m size (x ∷ xs) (bump r)
    next none all less = (less, all)
    next (some k) (h, at, fits, least) less = (h, at, fits, (λ le. absurd (omega arith), least))

-- In an index sorted by size, `find_smallest_hole` without alignment makes a best
-- fit: it succeeds, with one of the smallest holes that are large enough, or with none if there is
-- none.
pub find_smallest_hole-BestFit :
    (m : Memory) (index : OrderedArray) (xs : List ℕ) (size : ℕ)
    → Holds header_t_less_than index xs
    → IsSorted (header_t_less_than m) xs
    → (r : Option ℕ) × (find_smallest_hole m index size 0 ≡ ok r) × BestFit m size xs r
find_smallest_hole-BestFit m index xs size h s = (
  first_fit (hole_fits m size 0) xs,
  find_smallest_hole-first_fit m header_t_less_than index xs h size 0,
  first_fit-BestFit m size xs s,
)
