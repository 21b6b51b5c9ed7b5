-- ===== src/OrderedArray/Insert.antt =====
-- `insert_ordered_array` puts the item behind the elements that are less, and keeps the rest.
use mathlib.Core.List.{append_assoc}
use nembus_os.Base.{
  ℕ, suc, ◌+◌, ◌-◌, ◌<◌, ◌≡◌, refl, sym, ◌∙◌, ap, Bool, some, List, [], ◌∷◌, ◌++◌, arith, length,
  length-append, set, Bool-cases, eq→==, ne→==, lt→ltb, inl, inr,
}
use nembus_os.Base.Outcome.{ok}
use nembus_os.Memory.{Memory}
use nembus_os.OrderedArray.{
  OrderedArray, LessThan, find_slot, shift_up, place_item, Holds, insert_ordered_array,
}
use nembus_os.OrderedArray.Cells.{get_elem?-at, set-at, append-cons, length-snoc}
use nembus_os.OrderedArray.Spec.{slot, insert_sorted, length-insert_sorted}

pub find_slot-slot :
    (lt : ℕ → ℕ → Bool) (item : ℕ) (cells pre mid rest : List ℕ) (i : ℕ)
    → cells ≡ pre ++ (mid ++ rest)
    → i ≡ length pre
    → find_slot lt cells item i (length mid) ≡ ok (i + slot lt item mid)
unfolding find_slot
find_slot-slot lt item cells pre [] rest i c e = ap ok (omega arith)
find_slot-slot lt item cells pre (x ∷ mid) rest i c e =
    rw (get_elem?-at cells pre (mid ++ rest) x i c e) (elim (Bool-cases (lt x item)) [
      | inl less ↦
          rw
            (
              less,
              find_slot-slot lt item cells (pre ++ x ∷ []) mid rest (i + 1)
                  (c ∙ append-cons pre (mid ++ rest) x) (omega (arith, length-snoc pre x)),
            )
            (ap ok (omega arith))
      | inr more ↦ rw more (ap ok (omega arith))
    ])

shift_up-insert :
    (cells pre mid rest : List ℕ) (h tmp s i : ℕ)
    → cells ≡ pre ++ h ∷ (mid ++ s ∷ rest)
    → i ≡ length pre
    → shift_up cells tmp i (suc (length mid)) ≡ ok (pre ++ h ∷ tmp ∷ (mid ++ rest))
unfolding shift_up
shift_up-insert cells pre [] rest h tmp s i c e =
    let c' = c ∙ append-cons pre (s ∷ rest) h in
    let e' : i + 1 ≡ length (pre ++ h ∷ []) = omega (arith, length-snoc pre h) in
    rw
      (
        get_elem?-at cells (pre ++ h ∷ []) rest s (i + 1) c' e',
        set-at cells (pre ++ h ∷ []) rest s (i + 1) tmp c' e',
      )
      (ap ok (sym (append-cons pre (tmp ∷ rest) h)))
shift_up-insert cells pre (x ∷ mid) rest h tmp s i c e =
    let c' = c ∙ append-cons pre (x ∷ (mid ++ s ∷ rest)) h in
    let e' : i + 1 ≡ length (pre ++ h ∷ []) = omega (arith, length-snoc pre h) in
    rw (get_elem?-at cells (pre ++ h ∷ []) (mid ++ s ∷ rest) x (i + 1) c' e') (
      shift_up-insert (set cells (i + 1) tmp) (pre ++ h ∷ []) mid rest tmp x s (i + 1)
        (set-at cells (pre ++ h ∷ []) (mid ++ s ∷ rest) x (i + 1) tmp c' e') e'
      ∙ ap ok (sym (append-cons pre (tmp ∷ x ∷ (mid ++ rest)) h)))

-- Where `insert_sorted` puts the item.
slot-split :
    (lt : ℕ → ℕ → Bool) (item : ℕ) (xs : List ℕ)
    → (pre : List ℕ) × (mid : List ℕ) × (xs ≡ pre ++ mid)
      × (slot lt item xs ≡ length pre)
      × (insert_sorted lt item xs ≡ pre ++ item ∷ mid)
slot-split lt item [] = ([], [], refl, refl, refl)
slot-split lt item (x ∷ xs) = elim (Bool-cases (lt x item)) [
  | inl less ↦
      let (pre, mid, e, n, s) = slot-split lt item xs in
      (x ∷ pre, mid, ap (λ l. x ∷ l) e, rw less (ap suc n), rw less (ap (λ l. x ∷ l) s))
  | inr more ↦ ([], x ∷ xs, refl, rw more, rw more)
]

place_item-split :
    (a : OrderedArray) (item s : ℕ) (pre mid rest : List ℕ)
    → a.array ≡ pre ++ (mid ++ s ∷ rest)
    → a.size ≡ length pre + length mid
    → place_item a item (length pre)
      ≡ ok (record a { array = pre ++ item ∷ (mid ++ rest); size = a.size + 1 })
unfolding shift_up
place_item-split a item s pre [] rest c n =
    let here : a.size ≡ length pre = omega arith in
    rw (
      eq→== (length pre) a.size (sym here),
      lt→ltb a.size (length a.array) (omega (arith, ap length c, length-append pre (s ∷ rest))),
      set-at a.array pre rest s a.size item c here,
    )
place_item-split a item s pre (x ∷ mid) rest c n =
    let rounds : a.size - length pre ≡ suc (length mid) = omega arith in
    rw (
      ne→== (length pre) a.size (omega arith),
      get_elem?-at a.array pre (mid ++ s ∷ rest) x (length pre) c refl,
      rounds,
      shift_up-insert (set a.array (length pre) item) pre mid rest item x s (length pre)
          (set-at a.array pre (mid ++ s ∷ rest) x (length pre) item c refl) refl,
    )

pub insert-found :
    (m : Memory) (lt : LessThan) (a : OrderedArray) (item i : ℕ)
    → a.less_than ≡ some lt
    → find_slot (lt m) a.array item 0 a.size ≡ ok i
    → insert_ordered_array m item a ≡ place_item a item i
unfolding insert_ordered_array
insert-found m lt a item i less found = ground arith

insert_split :
    (m : Memory) (lt : LessThan) (a : OrderedArray) (item s : ℕ) (pre mid rest xs : List ℕ)
    → a.less_than ≡ some lt
    → a.array ≡ xs ++ s ∷ rest
    → a.size ≡ length xs
    → xs ≡ pre ++ mid
    → slot (lt m) item xs ≡ length pre
    → insert_ordered_array m item a
      ≡ ok (record a { array = pre ++ item ∷ (mid ++ rest); size = a.size + 1 })
insert_split m lt a item s pre mid rest xs less c n e at =
    insert-found m lt a item (length pre) less (
      ap (find_slot (lt m) a.array item 0) n
      ∙ find_slot-slot (lt m) item a.array [] xs (s ∷ rest) 0 c refl
      ∙ ap ok (omega arith))
    ∙ place_item-split a item s pre mid rest
        (c ∙ ap (λ l. l ++ s ∷ rest) e ∙ append_assoc pre mid (s ∷ rest))
        (omega (arith, ap length e, length-append pre mid))

-- With room left, `insert_ordered_array` succeeds and holds the sorted insertion.
pub insert_ordered_array-Holds :
    (m : Memory) (lt : LessThan) (a : OrderedArray) (item : ℕ) (xs : List ℕ)
    → Holds lt a xs
    → a.size < a.max_size
    → (a' : OrderedArray) × (insert_ordered_array m item a ≡ ok a')
      × Holds lt a' (insert_sorted (lt m) item xs)
      × (a'.max_size ≡ a.max_size)
insert_ordered_array-Holds m lt a item xs h room = insert_spare h.spare h.cells
  where
    insert_spare :
        (spare : List ℕ)
        → a.array ≡ xs ++ spare
        → (a' : OrderedArray) × (insert_ordered_array m item a ≡ ok a')
          × Holds lt a' (insert_sorted (lt m) item xs)
          × (a'.max_size ≡ a.max_size)
    insert_spare [] c =
        absurd (omega (arith, ap length c, length-append xs [], h.count, h.capacity))
    insert_spare (s ∷ rest) c =
        let (pre, mid, e, at, split) = slot-split (lt m) item xs in
        let regroup : pre ++ item ∷ (mid ++ rest) ≡ insert_sorted (lt m) item xs ++ rest =
          sym (append_assoc pre (item ∷ mid) rest) ∙ ap (λ l. l ++ rest) (sym split) in
        (
          record a { array = pre ++ item ∷ (mid ++ rest); size = a.size + 1 },
          insert_split m lt a item s pre mid rest xs h.less c h.count e at,
          record {
            less = h.less;
            spare = rest;
            cells = regroup;
            count = omega (arith, h.count, length-insert_sorted (lt m) item xs);
            capacity = omega (
              arith,
              h.capacity,
              ap length c,
              length-append xs (s ∷ rest),
              ap length regroup,
              length-append (insert_sorted (lt m) item xs) rest,
              length-insert_sorted (lt m) item xs,
            );
          },
          refl,
        )
