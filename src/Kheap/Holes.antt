-- ===== src/Kheap/Holes.antt =====
-- The holes of the heap as a list of addresses: sorted by size, apart from one another, and what a
-- write elsewhere leaves of this.
use nembus_os.Base.{
  All, ℕ, zero, suc, ◌+◌, ◌≤◌, ◌≡◌, ◌⊎◌, inl, inr, sym, subst, Bool, false, Bool-cases, some, List,
  [], ◌∷◌, get_elem?, arith,
}
use nembus_os.Memory.{Memory}
use nembus_os.OrderedArray.Spec.{
  All-remove_at, IsSorted, IsStrictWeak, insert_sorted, insert_sorted-IsSorted, remove_at,
  remove_at-IsSorted,
}
use nembus_os.Kheap.{State, get_size, header_t_less_than}
use nembus_os.Kheap.Blocks.{IsHeaded, SameOutside, IsHeaded-frame, get_size-IsHeaded}

-- A hole of the heap: it has a header, and lies inside the heap.
abbrev pub IsHole : {P : Type 0} → State P → ℕ → Type 0
IsHole s h = IsHeaded s.mem h 1 (get_size s.mem h) × (h + get_size s.mem h ≤ s.heap.end_address)

-- The bytes of `x` from `a` on and those of `y` do not overlap.
abbrev AreApart : Memory → (a b : ℕ) → Type 0
AreApart m a b = (a + get_size m a ≤ b) ⊎ (b + get_size m b ≤ a)

abbrev pub Apart : Memory → List ℕ → Type 0
Apart m [] = Unit {0}
Apart m (x ∷ xs) = All (AreApart m x) xs × Apart m xs

pub All-zip :
    (A B C : ℕ → Type 0) (xs : List ℕ)
    → ((x : ℕ) → A x → B x → C x)
    → All A xs
    → All B xs
    → All C xs
All-zip A B C [] f a b = tt
All-zip A B C (x ∷ xs) f a b = (f x a.0 b.0, All-zip A B C xs f a.1 b.1)

pub All-insert :
    (A : ℕ → Type 0) (lt : ℕ → ℕ → Bool) (item : ℕ) (xs : List ℕ)
    → A item
    → All A xs
    → All A (insert_sorted lt item xs)
All-insert A lt item [] a all = (a, tt)
All-insert A lt item (x ∷ xs) a all = elim (Bool-cases (lt x item)) [
  | inl less ↦ rw less (all.0, All-insert A lt item xs a all.1)
  | inr more ↦ rw more (a, all)
]

pub All-at : (Q : ℕ → Type 0) (xs : List ℕ) (i x : ℕ) → All Q xs → get_elem? xs i ≡ some x → Q x
All-at Q [] i x all e = cc
All-at Q (y ∷ xs) zero x all e = subst Q (cc) all.0
All-at Q (y ∷ xs) (suc i) x all e = All-at Q xs i x all.1 e

swap_apart : (m : Memory) (a b : ℕ) → AreApart m a b → AreApart m b a
swap_apart m a b (inl before) = inr before
swap_apart m a b (inr behind) = inl behind

module _ (m : Memory) where
  Apart-at :
      (xs : List ℕ) (k x : ℕ)
      → get_elem? xs k ≡ some x
      → Apart m xs
      → All (AreApart m x) (remove_at k xs)
  Apart-at [] k x at apart = cc
  Apart-at (y ∷ xs) zero x at apart =
      let here : y ≡ x = cc in subst (λ z. All (AreApart m z) xs) here apart.0
  Apart-at (y ∷ xs) (suc k) x at apart =
      (swap_apart m y x (All-at (AreApart m y) xs k x apart.0 at), Apart-at xs k x at apart.1)

  Apart-remove_at : (k : ℕ) (xs : List ℕ) → Apart m xs → Apart m (remove_at k xs)
  Apart-remove_at zero [] apart = tt
  Apart-remove_at (suc k) [] apart = tt
  Apart-remove_at zero (x ∷ xs) apart = apart.1
  Apart-remove_at (suc k) (x ∷ xs) apart =
      (All-remove_at (AreApart m x) k xs apart.0, Apart-remove_at k xs apart.1)

  Apart-insert_sorted :
      (lt : ℕ → ℕ → Bool) (item : ℕ) (xs : List ℕ)
      → All (AreApart m item) xs
      → Apart m xs
      → Apart m (insert_sorted lt item xs)
  Apart-insert_sorted lt item [] new apart = (tt, tt)
  Apart-insert_sorted lt item (x ∷ xs) new apart = elim (Bool-cases (lt x item)) [
    | inl less ↦ rw less (
      All-insert (AreApart m x) lt item xs (swap_apart m item x new.0) apart.0,
      Apart-insert_sorted lt item xs new.1 apart.1,
    )
    | inr more ↦ rw more (new, apart)
  ]

  header_t_less_than-IsStrictWeak : IsStrictWeak (header_t_less_than m)
  header_t_less_than-IsStrictWeak = record {
    asymm = λ a b h. ground arith;
    neg_trans = λ a b c h k. ground arith;
  }

-- Holes keep their order and their distance in a memory that agrees on their sizes.
module _ (m n : Memory) where
  abbrev SameSize : ℕ → Type 0
  SameSize x = get_size n x ≡ get_size m x

  Apart-same : (xs : List ℕ) → All SameSize xs → Apart m xs → Apart n xs
  Apart-same [] same apart = tt
  Apart-same (x ∷ xs) same apart = (
    All-zip SameSize (AreApart m x) (AreApart n x) xs (λ y e a. rw (same.0, e) a) same.1 apart.0,
    Apart-same xs same.1 apart.1,
  )

  IsSorted-same :
      (xs : List ℕ)
      → All SameSize xs
      → IsSorted (header_t_less_than m) xs
      → IsSorted (header_t_less_than n) xs
  IsSorted-same [] same sorted = tt
  IsSorted-same (x ∷ xs) same sorted = (
    All-zip SameSize (λ y. header_t_less_than m y x ≡ false) (λ y. header_t_less_than n y x ≡ false)
        xs (λ y e less. rw (e, same.0) less) same.1 sorted.0,
    IsSorted-same xs same.1 sorted.1,
  )

pub All-restore :
    (A : ℕ → Type 0) (xs : List ℕ) (k x : ℕ)
    → get_elem? xs k ≡ some x
    → A x
    → All A (remove_at k xs)
    → All A xs
All-restore A [] k x at a all = tt
All-restore A (y ∷ xs) zero x at a all = (subst A (cc) a, all)
All-restore A (y ∷ xs) (suc k) x at a all = (all.0, All-restore A xs k x at a all.1)

-- A block of `n` bytes at `h` and the holes `ys` of the state do not overlap.
abbrev pub Clear : {P : Type 0} → State P → (h n : ℕ) → List ℕ → Type 0
Clear s h n ys = All (λ y. (h + n ≤ y) ⊎ (y + get_size s.mem y ≤ h)) ys

-- Holes, sorted by size, and apart from one another.
pub record Shape {P : Type 0} (s : State P) (xs : List ℕ) : Type 0 where
  pub sorted : IsSorted (header_t_less_than s.mem) xs
  pub holes : All (IsHole s) xs
  pub apart : Apart s.mem xs

-- Without the hole at `k` the others keep their shape, and are clear of it.
pub remove_at-Shape :
    {P : Type 0} (s : State P) (k h : ℕ) (xs : List ℕ)
    → get_elem? xs k ≡ some h
    → Shape s xs
    → Shape s (remove_at k xs) × Clear s h (get_size s.mem h) (remove_at k xs)
remove_at-Shape s k h xs at shape = (
  record {
    sorted = remove_at-IsSorted (header_t_less_than s.mem) k xs shape.sorted;
    holes = All-remove_at (IsHole s) k xs shape.holes;
    apart = Apart-remove_at s.mem k xs shape.apart;
  },
  Apart-at s.mem xs k h at shape.apart,
)

-- The state changes only between `a` and `a + len`, clear of the holes `xs`.
module _ {P : Type 0} (s s' : State P) (xs : List ℕ) (a len : ℕ) (shape : Shape s xs)
    (clear : Clear s a len xs) (same : SameOutside a len s.mem s'.mem)
    (end : s.heap.end_address ≤ s'.heap.end_address) where
  kept :
      (y : ℕ)
      → (a + len ≤ y) ⊎ (y + get_size s.mem y ≤ a)
      → IsHole s y
      → IsHeaded s'.mem y 1 (get_size s.mem y)
  kept y away hole = IsHeaded-frame a len hole.0 same (omega arith)

  kept-SameSize : All (SameSize s.mem s'.mem) xs
  kept-SameSize =
      All-zip (λ y. (a + len ≤ y) ⊎ (y + get_size s.mem y ≤ a)) (IsHole s) (SameSize s.mem s'.mem)
        xs (λ y away hole. get_size-IsHeaded s'.mem y 1 (get_size s.mem y) (kept y away hole)) clear
        shape.holes

  kept-IsHole : All (IsHole s') xs
  kept-IsHole =
      All-zip (λ y. (a + len ≤ y) ⊎ (y + get_size s.mem y ≤ a)) (IsHole s) (IsHole s') xs
        (λ y away hole.
          let size = get_size-IsHeaded s'.mem y 1 (get_size s.mem y) (kept y away hole) in
          (rw size (kept y away hole), omega (arith, size, end, hole.1)))
        clear shape.holes

  -- The holes keep their shape.
  pub kept-Shape : Shape s' xs
  kept-Shape = record {
    sorted = IsSorted-same s.mem s'.mem xs kept-SameSize shape.sorted;
    holes = kept-IsHole;
    apart = Apart-same s.mem s'.mem xs kept-SameSize shape.apart;
  }

  -- They are clear of every part of what has changed.
  pub kept-Clear : (p n : ℕ) → a ≤ p → p + n ≤ a + len → Clear s' p n xs
  kept-Clear p n lo hi =
      All-zip (λ y. (a + len ≤ y) ⊎ (y + get_size s.mem y ≤ a)) (SameSize s.mem s'.mem)
        (λ y. (p + n ≤ y) ⊎ (y + get_size s'.mem y ≤ p)) xs
        (λ y away size. elim away [
          | inl before ↦ inl (omega arith)
          | inr behind ↦ inr (omega (arith, size))
        ])
        clear kept-SameSize

  -- A new hole between `a` and `a + len` joins them.
  pub added-Shape :
      (p n : ℕ)
      → IsHeaded s'.mem p 1 n
      → a ≤ p
      → p + n ≤ a + len
      → p + n ≤ s.heap.end_address
      → Shape s' (insert_sorted (header_t_less_than s'.mem) p xs)
  added-Shape p n hole lo hi inside =
      let lt = header_t_less_than s'.mem in
      let size = get_size-IsHeaded s'.mem p 1 n hole in
      record {
        sorted =
            insert_sorted-IsSorted lt (header_t_less_than-IsStrictWeak s'.mem) p xs
              kept-Shape.sorted;
        holes =
            All-insert (IsHole s') lt p xs (rw size hole, omega (arith, size, end, inside))
              kept-IsHole;
        apart =
            Apart-insert_sorted s'.mem lt p xs
              (subst (λ n. Clear s' p n xs) (sym size) (kept-Clear p n lo hi)) kept-Shape.apart;
      }
