-- ===== src/Kheap/Search/Last.antt =====
-- The search of `alloc` for the hole at the highest address.
use mathlib.Core.List.{append-nil}
use nembus_os.Base.{
  All, ℕ, ◌+◌, ◌≤◌, ◌<◌, ◌≡◌, refl, sym, ◌∙◌, ap, subst, Option, none, some, List, [], ◌∷◌, ◌++◌,
  arith, length, get_elem?, ltb, ltb→lt, ltb→le, if◌then◌else◌, Bool-cases, inl, inr,
}
use nembus_os.Base.Outcome.{ok}
use nembus_os.OrderedArray.{OrderedArray, LessThan, Holds}
use nembus_os.OrderedArray.Cells.{get_elem?-at, append-cons, length-snoc}
use nembus_os.Kheap.Search.{search_last}
use nembus_os.Kheap.Search.BestFit.{lookup-Holds}

-- The loop's `idx` and `value` are those of the highest address among `pre`, a part of `xs`.
abbrev pub Highest : (xs pre : List ℕ) → Option ℕ → ℕ → Type 0
Highest xs pre none value = (value ≡ 0) × All (λ y. y ≤ 0) pre
Highest xs pre (some k) value = (get_elem? xs k ≡ some value) × All (λ y. y ≤ value) pre

All-below :
    (a b x : ℕ) (pre : List ℕ)
    → a ≤ b
    → x ≤ b
    → All (λ y. y ≤ a) pre
    → All (λ y. y ≤ b) (pre ++ x ∷ [])
All-below a b x [] le_ab le_xb all = (le_xb, tt)
All-below a b x (y ∷ pre) le_ab le_xb all =
    let first = all.0 in (omega arith, All-below a b x pre le_ab le_xb all.1)

module _ (lt : LessThan) (index : OrderedArray) (xs : List ℕ) (h : Holds lt index xs) where
  Highest-next :
      (pre mid : List ℕ) (x i : ℕ) (idx : Option ℕ) (value : ℕ)
      → xs ≡ pre ++ x ∷ mid
      → i ≡ length pre
      → Highest xs pre idx value
      → Highest xs
          (pre ++ x ∷ [])
          (if ltb value x then some i else idx)
          (if ltb value x then x else value)
  Highest-next pre mid x i idx value e n best = elim (Bool-cases (ltb value x)) [
    | inl higher ↦
        rw higher (get_elem?-at xs pre mid x i e n, below idx best (ltb→lt value x higher))
    | inr lower ↦ rw lower (kept idx best (ltb→le value x lower))
  ]
    where
      below :
          (idx : Option ℕ) → Highest xs pre idx value → value < x → All (λ y. y ≤ x) (pre ++ x ∷ [])
      below none best less = All-below 0 x x pre (omega arith) (omega arith) best.1
      below (some k) best less = All-below value x x pre (omega arith) (omega arith) best.1

      kept :
          (idx : Option ℕ)
          → Highest xs pre idx value
          → x ≤ value
          → Highest xs (pre ++ x ∷ []) idx value
      kept none best le =
          let value_zero = best.0 in
          (value_zero, All-below 0 0 x pre (omega arith) (omega arith) best.1)
      kept (some k) best le = (best.0, All-below value value x pre (omega arith) le best.1)

  search_last-Highest :
      (pre mid : List ℕ) (i : ℕ) (idx : Option ℕ) (value : ℕ)
      → xs ≡ pre ++ mid
      → i ≡ length pre
      → Highest xs pre idx value
      → (r : Option ℕ) × (v : ℕ) × (search_last index i (length mid) idx value ≡ ok r)
        × Highest xs xs r v
  unfolding search_last
  search_last-Highest pre [] i idx value e n best =
      (idx, value, refl, subst (λ l. Highest xs l idx value) (sym (append-nil pre) ∙ sym e) best)
  search_last-Highest pre (x ∷ mid) i idx value e n best =
      let (r, v, done, high) =
        search_last-Highest (pre ++ x ∷ []) mid (i + 1) (if ltb value x then some i else idx)
          (if ltb value x then x else value) (e ∙ append-cons pre mid x)
          (omega (arith, length-snoc pre x)) (Highest-next pre mid x i idx value e n best) in
      (r, v, rw (lookup-Holds lt index xs pre mid x i h e n) done, high)

  -- The whole search.
  pub search_last-found :
      (r : Option ℕ) × (v : ℕ) × (search_last index 0 index.size none 0 ≡ ok r) × Highest xs xs r v
  search_last-found =
      let (r, v, done, high) = search_last-Highest [] xs 0 none 0 refl refl (refl, tt) in
      (r, v, ap (λ (n : ℕ). search_last index 0 n none 0) h.count ∙ done, high)
