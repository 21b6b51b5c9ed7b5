-- ===== src/OrderedArray/Tests.antt =====
-- The sorted array on small arrays, in the order of `standard_lessthan_predicate`.
use mathlib.Core.List.{Perm}
use nembus_os.Base.{ℕ, ◌≡◌, refl, ltb, some, List, [], ◌∷◌, arith}
use nembus_os.Base.Outcome.{ok}
use nembus_os.Memory.{Memory}
use nembus_os.OrderedArray.{
  LessThan, OrderedArray, Holds, insert_ordered_array, lookup_ordered_array, remove_ordered_array,
}
use nembus_os.OrderedArray.Spec.{IsSorted, IsStrictWeak}
use nembus_os.OrderedArray.Contract.{insert_ordered_array-IsSorted, insert_ordered_array-remove}

abbrev no_memory : Memory
no_memory p = 0

abbrev by_value : LessThan
by_value m a b = ltb a b

abbrev of_cells : List ℕ → (size max_size : ℕ) → OrderedArray
of_cells cells size max_size = record {
  array = cells;
  size = size;
  max_size = max_size;
  less_than = some by_value;
}

abbrev roomy : OrderedArray
roomy = of_cells (3 ∷ 8 ∷ 0 ∷ 0 ∷ []) 2 4

abbrev full : OrderedArray
full = of_cells (3 ∷ 8 ∷ []) 2 2

abbrev two_items : List ℕ
two_items = 3 ∷ 8 ∷ []

by_value-IsStrictWeak : IsStrictWeak (by_value no_memory)
by_value-IsStrictWeak = record {
  asymm = λ a b h. ground arith;
  neg_trans = λ a b c h k. ground arith;
}

roomy-Holds : Holds by_value roomy two_items
roomy-Holds = record {
  less = refl;
  spare = 0 ∷ 0 ∷ [];
  cells = refl;
  count = refl;
  capacity = refl;
}

full-Holds : Holds by_value full two_items
full-Holds = record { less = refl; spare = []; cells = refl; count = refl; capacity = refl }

insert_between : insert_ordered_array no_memory 5 roomy ≡ ok (of_cells (3 ∷ 5 ∷ 8 ∷ 0 ∷ []) 3 4)
unfolding insert_ordered_array
insert_between = refl

remove_first : remove_ordered_array 0 roomy ≡ ok (of_cells (8 ∷ 0 ∷ 0 ∷ 0 ∷ []) 1 4)
unfolding remove_ordered_array
remove_first = refl

insert_ordered_array-IsSorted_example :
    (a' : OrderedArray) × (ys : List ℕ) × (insert_ordered_array no_memory 5 roomy ≡ ok a')
    × Holds by_value a' ys
    × IsSorted (by_value no_memory) ys
    × Perm ys (5 ∷ two_items)
insert_ordered_array-IsSorted_example =
    insert_ordered_array-IsSorted no_memory by_value roomy 5 two_items by_value-IsStrictWeak
      roomy-Holds ((refl, tt), (tt, tt)) (omega arith)

insert_ordered_array-remove_example :
    (i : ℕ) × (a' : OrderedArray) × (a'' : OrderedArray) × (insert_ordered_array no_memory 5 roomy
      ≡ ok a')
    × (lookup_ordered_array i a' ≡ ok 5)
    × (remove_ordered_array i a' ≡ ok a'')
    × Holds by_value a'' two_items
insert_ordered_array-remove_example =
    insert_ordered_array-remove no_memory by_value roomy 5 two_items roomy-Holds (omega arith)
      (omega arith)
