-- ===== src/OrderedArray/Contract.antt =====
-- What src/impl/ordered_array.c promises its callers: sorted contents, and what a full array does.
use mathlib.Core.List.{Perm}
use nembus_os.Base.{
  ℕ, zero, suc, ◌+◌, ◌-◌, ◌<◌, ◌≤◌, ◌≡◌, refl, sym, ◌∙◌, ap, subst, arith, Bool, false, some, List,
  [], ◌∷◌, length, length-set, length-replicate, replicate, get_elem?, set, get_elem?-in,
  get_elem?-out, le→ltb, lt→ltb, Bool-cases, inl, inr, ◌==◌, ==→ne,
}
use nembus_os.Base.Outcome.{ok, fault}
use nembus_os.Memory.{Memory}
use nembus_os.OrderedArray.{
  LessThan, OrderedArray, Holds, find_slot, shift_up, shift_down, insert_ordered_array,
  lookup_ordered_array, remove_ordered_array, place_item, place_ordered_array,
}
use nembus_os.OrderedArray.Cells.{get_elem?-append_left}
use nembus_os.OrderedArray.Spec.{
  IsSorted, IsStrictWeak, slot, insert_sorted, remove_at, insert_sorted-IsSorted,
  insert_sorted-perm, length-insert_sorted,
}
use nembus_os.OrderedArray.Insert.{insert_ordered_array-Holds, find_slot-slot, insert-found}
use nembus_os.OrderedArray.Remove.{remove_ordered_array-Holds}

slot-insert_sorted :
    (lt : ℕ → ℕ → Bool) (item : ℕ) (xs : List ℕ)
    → get_elem? (insert_sorted lt item xs) (slot lt item xs) ≡ some item
slot-insert_sorted lt item [] = refl
slot-insert_sorted lt item (x ∷ xs) = ground (arith, slot-insert_sorted lt item xs)

remove_at-insert_sorted :
    (lt : ℕ → ℕ → Bool) (item : ℕ) (xs : List ℕ)
    → remove_at (slot lt item xs) (insert_sorted lt item xs) ≡ xs
remove_at-insert_sorted lt item [] = refl
remove_at-insert_sorted lt item (x ∷ xs) = elim (Bool-cases (lt x item)) [
  | inl less ↦ rw less (ap (λ l. x ∷ l) (remove_at-insert_sorted lt item xs))
  | inr more ↦ rw more
]

slot-le : (lt : ℕ → ℕ → Bool) (item : ℕ) (xs : List ℕ) → slot lt item xs ≤ length xs
slot-le lt item [] = omega arith
slot-le lt item (x ∷ xs) = ground (arith, slot-le lt item xs)

-- Insertion into a sorted array with room succeeds: the array is sorted again, and holds what it
-- held and the new item.
pub insert_ordered_array-IsSorted :
    (m : Memory) (lt : LessThan) (a : OrderedArray) (item : ℕ) (xs : List ℕ)
    → IsStrictWeak (lt m)
    → Holds lt a xs
    → IsSorted (lt m) xs
    → a.size < a.max_size
    → (a' : OrderedArray) × (ys : List ℕ) × (insert_ordered_array m item a ≡ ok a')
      × Holds lt a' ys
      × IsSorted (lt m) ys
      × Perm ys (item ∷ xs)
insert_ordered_array-IsSorted m lt a item xs order held sorted room =
    let (a', done, held', cap) = insert_ordered_array-Holds m lt a item xs held room in
    (
      a',
      insert_sorted (lt m) item xs,
      done,
      held',
      insert_sorted-IsSorted (lt m) order item xs sorted,
      insert_sorted-perm (lt m) item xs,
    )

-- With room for another item behind it, an inserted item is found at some position, and its removal
-- from there brings back what the array held.
pub insert_ordered_array-remove :
    (m : Memory) (lt : LessThan) (a : OrderedArray) (item : ℕ) (xs : List ℕ)
    → Holds lt a xs
    → a.size + 1 < a.max_size
    → a.max_size < 0x100000000
    → (i : ℕ) × (a' : OrderedArray) × (a'' : OrderedArray) × (insert_ordered_array m item a ≡ ok a')
      × (lookup_ordered_array i a' ≡ ok item)
      × (remove_ordered_array i a' ≡ ok a'')
      × Holds lt a'' xs
unfolding lookup_ordered_array
insert_ordered_array-remove m lt a item xs held room small =
    let (a', done, held', cap) = insert_ordered_array-Holds m lt a item xs held (omega arith) in
    let i = slot (lt m) item xs in
    let inside : i < a'.size =
      omega (arith, held'.count, length-insert_sorted (lt m) item xs, slot-le (lt m) item xs) in
    let less : a'.size < a'.max_size =
      omega (arith, held'.count, held.count, length-insert_sorted (lt m) item xs, cap) in
    let (a'', gone, held'', cap'') =
      remove_ordered_array-Holds lt a' i (insert_sorted (lt m) item xs) held' inside less
        (omega (arith, cap)) in
    (
      i,
      a',
      a'',
      done,
      rw (
        lt→ltb i a'.size inside,
        ap (λ (l : List ℕ). get_elem? l i) held'.cells
            ∙ get_elem?-append_left (insert_sorted (lt m) item xs) held'.spare i item
                (slot-insert_sorted (lt m) item xs),
      ),
      gone,
      subst (λ l. Holds lt a'' l) (remove_at-insert_sorted (lt m) item xs) held'',
    )

shift_up-full :
    (cells : List ℕ) (tmp i n : ℕ) → i + suc n ≡ length cells → shift_up cells tmp i (suc n) ≡ fault
unfolding shift_up
shift_up-full cells tmp i zero e = rw (get_elem?-out cells (i + 1) (omega arith))
shift_up-full cells tmp i (suc n) e =
    let (v, at) = get_elem?-in cells (i + 1) (omega arith) in
    rw at (
      shift_up-full (set cells (i + 1) tmp) v (i + 1) n
        (omega (arith, length-set cells (i + 1) tmp)))

place_item-full :
    (a : OrderedArray) (item i : ℕ)
    → i ≤ a.size
    → a.size ≡ length a.array
    → place_item a item i ≡ fault
place_item-full a item i inside full = elim (Bool-cases (i == a.size)) [
  | inl end ↦ rw (end, le→ltb a.size (length a.array) (omega arith))
  | inr before ↦ place_before before
]
  where
    place_before : (i == a.size) ≡ false → place_item a item i ≡ fault
    place_before before =
        let below : i < a.size = omega (arith, ==→ne i a.size before) in
        let (v, at) = get_elem?-in a.array i (omega arith) in
        let (n, rounds) : (n : ℕ) × (a.size - i ≡ suc n) = (a.size - i - 1, omega arith) in
        rw (
          before,
          at,
          rounds,
          shift_up-full (set a.array i item) v i n (omega (arith, length-set a.array i item)),
        )

-- A full array does not refuse an insertion: one of the writes lies outside its storage.
pub insert_ordered_array-full :
    (m : Memory) (lt : LessThan) (a : OrderedArray) (item : ℕ) (xs : List ℕ)
    → Holds lt a xs
    → a.size ≡ a.max_size
    → insert_ordered_array m item a ≡ fault
insert_ordered_array-full m lt a item xs held full =
    insert-found m lt a item (slot (lt m) item xs) held.less (
      ap (find_slot (lt m) a.array item 0) held.count
      ∙ find_slot-slot (lt m) item a.array [] xs held.spare 0 held.cells refl
      ∙ ap ok (omega arith))
    ∙ place_item-full a item (slot (lt m) item xs)
        (omega (arith, held.count, slot-le (lt m) item xs)) (omega (arith, held.capacity))

shift_down-full :
    (cells : List ℕ) (i n : ℕ) → i + suc n ≡ length cells → shift_down cells i (suc n) ≡ fault
unfolding shift_down
shift_down-full cells i zero e = rw (get_elem?-out cells (i + 1) (omega arith))
shift_down-full cells i (suc n) e =
    let (v, at) = get_elem?-in cells (i + 1) (omega arith) in
    rw at (shift_down-full (set cells i v) (i + 1) n (omega (arith, length-set cells i v)))

-- A removal from a full array, at a position in range, reads the cell behind its storage.
pub remove_ordered_array-full :
    (lt : LessThan) (a : OrderedArray) (i : ℕ) (xs : List ℕ)
    → Holds lt a xs
    → i < a.size
    → a.size ≡ a.max_size
    → remove_ordered_array i a ≡ fault
unfolding remove_ordered_array
remove_ordered_array-full lt a i xs held inside full =
    let (n, rounds) : (n : ℕ) × (a.size - i ≡ suc n) = (a.size - i - 1, omega arith) in
    rw (rounds, shift_down-full a.array i n (omega (arith, held.capacity)))

-- A fresh array holds nothing.
pub place_ordered_array-Holds :
    (max_size : ℕ) (lt : LessThan) → Holds lt (place_ordered_array max_size (some lt)) []
unfolding place_ordered_array
place_ordered_array-Holds max_size lt = record {
  less = refl;
  spare = replicate max_size 0;
  cells = refl;
  count = refl;
  capacity = sym (length-replicate max_size 0);
}

pub place_ordered_array-size :
    (max_size : ℕ) (lt : LessThan)
    → let a = place_ordered_array max_size (some lt) in (a.size ≡ 0) × (a.max_size ≡ max_size)
unfolding place_ordered_array
place_ordered_array-size max_size lt = (refl, refl)
