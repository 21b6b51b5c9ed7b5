-- ===== src/OrderedArray/Remove.antt =====
-- `remove_ordered_array` closes the gap and keeps the order.
use mathlib.Core.List.{append_assoc}
use nembus_os.Base.{
  ℕ, zero, suc, ◌+◌, ◌-◌, ◌%◌, ◌^◌, ◌<◌, ◌≡◌, refl, sym, ◌∙◌, ap, List, [], ◌∷◌, ◌++◌, arith,
  length, length-append, set,
}
use nembus_os.Base.Outcome.{ok}
use nembus_os.OrderedArray.{OrderedArray, LessThan, shift_down, remove_ordered_array, Holds}
use nembus_os.OrderedArray.Cells.{get_elem?-at, set-at, append-cons, length-snoc}
use nembus_os.OrderedArray.Spec.{remove_at, length-remove_at}

-- The loop moves every cell behind the gap down by one; the last cell read lies behind the array.
shift_down-remove :
    (cells pre mid rest : List ℕ) (x s i : ℕ)
    → cells ≡ pre ++ x ∷ (mid ++ s ∷ rest)
    → i ≡ length pre
    → shift_down cells i (suc (length mid)) ≡ ok (pre ++ (mid ++ s ∷ s ∷ rest))
unfolding shift_down
shift_down-remove cells pre [] rest x s i c e =
    let c' = c ∙ append-cons pre (s ∷ rest) x in
    let e' : i + 1 ≡ length (pre ++ x ∷ []) = omega (arith, length-snoc pre x) in
    rw (
      get_elem?-at cells (pre ++ x ∷ []) rest s (i + 1) c' e',
      set-at cells pre (s ∷ rest) x i s c e,
    )
shift_down-remove cells pre (y ∷ mid) rest x s i c e =
    let c' = c ∙ append-cons pre (y ∷ (mid ++ s ∷ rest)) x in
    let e' : i + 1 ≡ length (pre ++ x ∷ []) = omega (arith, length-snoc pre x) in
    let e'' : i + 1 ≡ length (pre ++ y ∷ []) = omega (arith, length-snoc pre y) in
    rw (get_elem?-at cells (pre ++ x ∷ []) (mid ++ s ∷ rest) y (i + 1) c' e') (
      shift_down-remove (set cells i y) (pre ++ y ∷ []) mid rest y s (i + 1)
        (set-at cells pre (y ∷ (mid ++ s ∷ rest)) x i y c e
          ∙ append-cons pre (y ∷ (mid ++ s ∷ rest)) y)
        e''
      ∙ ap ok (sym (append-cons pre (mid ++ s ∷ s ∷ rest) y)))

-- A position in range splits the list.
at-split :
    (i : ℕ) (xs : List ℕ)
    → i < length xs
    → (pre : List ℕ) × (x : ℕ) × (mid : List ℕ) × (xs ≡ pre ++ x ∷ mid)
      × (i ≡ length pre)
      × (remove_at i xs ≡ pre ++ mid)
at-split i [] h = absurd (omega arith)
at-split zero (x ∷ xs) h = ([], x, xs, refl, refl, refl)
at-split (suc i) (y ∷ xs) h =
    let (pre, x, mid, e, n, r) = at-split i xs (omega arith) in
    (y ∷ pre, x, mid, ap (λ l. y ∷ l) e, ap suc n, ap (λ l. y ∷ l) r)

remove_split :
    (a : OrderedArray) (i x s : ℕ) (pre mid rest : List ℕ)
    → a.array ≡ pre ++ x ∷ (mid ++ s ∷ rest)
    → a.size ≡ length pre + suc (length mid)
    → i ≡ length pre
    → a.size < 2 ^ 32
    → remove_ordered_array i a
      ≡ ok (record a { array = pre ++ (mid ++ s ∷ s ∷ rest); size = a.size - 1 })
unfolding remove_ordered_array
remove_split a i x s pre mid rest c n e small =
    let rounds : a.size - i ≡ suc (length mid) = omega arith in
    let fewer : (a.size + 2 ^ 32 - 1) % 2 ^ 32 ≡ a.size - 1 = omega arith in
    rw (rounds, shift_down-remove a.array pre mid rest x s i c e, fewer)

-- Below capacity, `remove_ordered_array` takes out the item at a position in range.
pub remove_ordered_array-Holds :
    (lt : LessThan) (a : OrderedArray) (i : ℕ) (xs : List ℕ)
    → Holds lt a xs
    → i < a.size
    → a.size < a.max_size
    → a.max_size < 2 ^ 32
    → (a' : OrderedArray) × (remove_ordered_array i a ≡ ok a')
      × Holds lt a' (remove_at i xs)
      × (a'.max_size ≡ a.max_size)
remove_ordered_array-Holds lt a i xs h inside room small = remove_spare h.spare h.cells
  where
    remove_spare :
        (spare : List ℕ)
        → a.array ≡ xs ++ spare
        → (a' : OrderedArray) × (remove_ordered_array i a ≡ ok a')
          × Holds lt a' (remove_at i xs)
          × (a'.max_size ≡ a.max_size)
    remove_spare [] c =
        absurd (omega (arith, ap length c, length-append xs [], h.count, h.capacity))
    remove_spare (s ∷ rest) c =
        let (pre, x, mid, e, at, gone) = at-split i xs (omega (arith, h.count)) in
        let cells : a.array ≡ pre ++ x ∷ (mid ++ s ∷ rest) =
          c ∙ ap (λ l. l ++ s ∷ rest) e ∙ append_assoc pre (x ∷ mid) (s ∷ rest) in
        let regroup : pre ++ (mid ++ s ∷ s ∷ rest) ≡ remove_at i xs ++ s ∷ s ∷ rest =
          sym (append_assoc pre mid (s ∷ s ∷ rest)) ∙ ap (λ l. l ++ s ∷ s ∷ rest) (sym gone) in
        let fewer = length-remove_at i xs (omega (arith, h.count)) in
        (
          record a { array = pre ++ (mid ++ s ∷ s ∷ rest); size = a.size - 1 },
          remove_split a i x s pre mid rest cells
              (omega (arith, h.count, ap length e, length-append pre (x ∷ mid))) at (omega arith),
          record {
            less = h.less;
            spare = s ∷ s ∷ rest;
            cells = regroup;
            count = omega (arith, h.count, fewer);
            capacity = omega (
              arith,
              h.capacity,
              ap length c,
              length-append xs (s ∷ rest),
              ap length regroup,
              length-append (remove_at i xs) (s ∷ s ∷ rest),
              fewer,
            );
          },
          refl,
        )
