-- ===== src/OrderedArray/Spec.antt =====
-- What the sorted array promises, on plain lists: a stable insertion, a removal by position, and
-- the order between the elements.
use mathlib.Core.List.{Perm}
use mathlib.Core.List.Perm
use nembus_os.Base.{
  All, ℕ, zero, suc, ◌+◌, ◌<◌, ◌≡◌, Bool, true, false, List, [], ◌∷◌, arith, length, if◌then◌else◌,
  Bool-cases, inl, inr,
}

-- The position at which an item is put: behind the elements that are less.
abbrev pub slot : (ℕ → ℕ → Bool) → ℕ → List ℕ → ℕ
slot lt item [] = 0
slot lt item (x ∷ xs) = if lt x item then suc (slot lt item xs) else 0

abbrev pub insert_sorted : (ℕ → ℕ → Bool) → ℕ → List ℕ → List ℕ
insert_sorted lt item [] = item ∷ []
insert_sorted lt item (x ∷ xs) = if lt x item then x ∷ insert_sorted lt item xs else item ∷ x ∷ xs

abbrev pub remove_at : ℕ → List ℕ → List ℕ
remove_at i [] = []
remove_at zero (x ∷ xs) = xs
remove_at (suc i) (x ∷ xs) = x ∷ remove_at i xs

-- No element is less than one before it.
abbrev pub IsSorted : (ℕ → ℕ → Bool) → List ℕ → Type 0
IsSorted lt [] = Unit {0}
IsSorted lt (x ∷ xs) = All (λ y. lt y x ≡ false) xs × IsSorted lt xs

pub record IsStrictWeak (lt : ℕ → ℕ → Bool) : Type 0 where
  pub asymm : (a b : ℕ) → lt a b ≡ true → lt b a ≡ false
  pub neg_trans : (a b c : ℕ) → lt b a ≡ false → lt c b ≡ false → lt c a ≡ false

pub insert_sorted-perm :
    (lt : ℕ → ℕ → Bool) (item : ℕ) (xs : List ℕ) → Perm (insert_sorted lt item xs) (item ∷ xs)
insert_sorted-perm lt item [] = Perm.refl (item ∷ [])
insert_sorted-perm lt item (x ∷ xs) = elim (Bool-cases (lt x item)) [
  | inl less ↦
      rw less (Perm.trans (Perm.cons x (insert_sorted-perm lt item xs)) (Perm.swap item x xs))
  | inr more ↦ rw more (Perm.refl (item ∷ x ∷ xs))
]

module _ (lt : ℕ → ℕ → Bool) (order : IsStrictWeak lt) where
  open order use {asymm, neg_trans}

  All-weaken :
      (a b : ℕ) (xs : List ℕ)
      → lt b a ≡ false
      → All (λ y. lt y b ≡ false) xs
      → All (λ y. lt y a ≡ false) xs
  All-weaken a b [] h all = tt
  All-weaken a b (x ∷ xs) h all = (neg_trans a b x h all.0, All-weaken a b xs h all.1)

  All-insert_sorted :
      (a item : ℕ) (xs : List ℕ)
      → lt item a ≡ false
      → All (λ y. lt y a ≡ false) xs
      → All (λ y. lt y a ≡ false) (insert_sorted lt item xs)
  All-insert_sorted a item [] h all = (h, tt)
  All-insert_sorted a item (x ∷ xs) h all = elim (Bool-cases (lt x item)) [
    | inl less ↦ rw less (all.0, All-insert_sorted a item xs h all.1)
    | inr more ↦ rw more (h, all)
  ]

  -- An insertion into a sorted list is sorted.
  pub insert_sorted-IsSorted :
      (item : ℕ) (xs : List ℕ) → IsSorted lt xs → IsSorted lt (insert_sorted lt item xs)
  insert_sorted-IsSorted item [] s = (tt, tt)
  insert_sorted-IsSorted item (x ∷ xs) s = elim (Bool-cases (lt x item)) [
    | inl less ↦
        rw less
          (All-insert_sorted x item xs (asymm x item less) s.0, insert_sorted-IsSorted item xs s.1)
    | inr more ↦ rw more ((more, All-weaken item x xs more s.0), s)
  ]

pub All-remove_at : (P : ℕ → Type 0) (i : ℕ) (xs : List ℕ) → All P xs → All P (remove_at i xs)
All-remove_at P zero [] all = tt
All-remove_at P (suc i) [] all = tt
All-remove_at P zero (x ∷ xs) all = all.1
All-remove_at P (suc i) (x ∷ xs) all = (all.0, All-remove_at P i xs all.1)

pub remove_at-IsSorted :
    (lt : ℕ → ℕ → Bool) (i : ℕ) (xs : List ℕ) → IsSorted lt xs → IsSorted lt (remove_at i xs)
remove_at-IsSorted lt zero [] s = tt
remove_at-IsSorted lt (suc i) [] s = tt
remove_at-IsSorted lt zero (x ∷ xs) s = s.1
remove_at-IsSorted lt (suc i) (x ∷ xs) s =
    (All-remove_at (λ y. lt y x ≡ false) i xs s.0, remove_at-IsSorted lt i xs s.1)

pub length-insert_sorted :
    (lt : ℕ → ℕ → Bool) (item : ℕ) (xs : List ℕ) → length (insert_sorted lt item xs) ≡ length xs + 1
length-insert_sorted lt item [] = omega arith
length-insert_sorted lt item (x ∷ xs) = ground (arith, length-insert_sorted lt item xs)

pub length-remove_at :
    (i : ℕ) (xs : List ℕ) → i < length xs → length (remove_at i xs) + 1 ≡ length xs
length-remove_at i [] h = absurd (omega arith)
length-remove_at zero (x ∷ xs) h = omega arith
length-remove_at (suc i) (x ∷ xs) h = omega (arith, length-remove_at i xs)
