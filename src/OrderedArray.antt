-- ===== src/OrderedArray.antt =====
-- The sorted array of src/impl/ordered_array.c. `array` is the storage that the array owns,
-- `max_size` cells of one word each; an access outside it is a fault. The comparison reads the
-- memory of the moment, since the heap's compares what its items point to.
pub mod Cells
pub mod Spec
pub mod Insert
pub mod Remove
pub mod Contract
mod Tests
use nembus_os.Base.{
  ℕ, zero, suc, ◌+◌, ◌-◌, ◌≡◌, ◌++◌, Bool, Option, none, some, List, ltb, ◌==◌, if◌then◌else◌,
  length, get_elem?, set, replicate,
}
use nembus_os.Base.Words.{sub32}
use nembus_os.Base.Outcome.{Outcome, ok, panic, fault, ◌>>=◌, ◌>>◌, assert, or_fault}
use nembus_os.Memory.{Memory}

abbrev pub LessThan : Type 0
LessThan = Memory → ℕ → ℕ → Bool

pub record OrderedArray : Type 0 where
  pub array : List ℕ
  pub size : ℕ
  pub max_size : ℕ
  pub less_than : Option LessThan

standard_lessthan_predicate : LessThan
standard_lessthan_predicate m a b = ltb a b

-- `place_ordered_array`: the storage is cleared.
pub place_ordered_array : ℕ → Option LessThan → OrderedArray
place_ordered_array max_size less_than = record {
  array = replicate max_size 0;
  size = 0;
  max_size = max_size;
  less_than = less_than;
}

-- `array->array[i] = v`
abbrev write_cell : List ℕ → ℕ → ℕ → Outcome (List ℕ)
write_cell cells i v = if ltb i (length cells) then ok (set cells i v) else fault

-- The first loop of the insertion, with `size - iterator` rounds left.
pub find_slot : (ℕ → ℕ → Bool) → List ℕ → (item iterator rounds : ℕ) → Outcome ℕ
find_slot lt cells item iterator zero = ok iterator
find_slot lt cells item iterator (suc n) = do
  cell ← or_fault (get_elem? cells iterator)
  let rest = find_slot lt cells item (iterator + 1) n
  if lt cell item then rest else ok iterator

-- The second loop, with `size - iterator` rounds left.
pub shift_up : List ℕ → (tmp iterator rounds : ℕ) → Outcome (List ℕ)
shift_up cells tmp iterator zero = ok cells
shift_up cells tmp iterator (suc n) = do
  tmp2 ← or_fault (get_elem? cells (iterator + 1))
  shift_up (set cells (iterator + 1) tmp) tmp2 (iterator + 1) n

-- The part of the insertion behind the search.
abbrev pub place_item : OrderedArray → (item iterator : ℕ) → Outcome OrderedArray
place_item a item iterator =
    if iterator == a.size
    then (do
      cells ← write_cell a.array a.size item
      ok (record a { array = cells; size = a.size + 1 }))
    else (do
      tmp ← or_fault (get_elem? a.array iterator)
      cells ← shift_up (set a.array iterator item) tmp iterator (a.size - iterator)
      ok (record a { array = cells; size = a.size + 1 }))

pub insert_ordered_array : Memory → ℕ → OrderedArray → Outcome OrderedArray
unfolding find_slot shift_up
insert_ordered_array m item a = elim a.less_than [
  | none ↦ panic
  | some lt ↦ do iterator ← find_slot (lt m) a.array item 0 a.size; place_item a item iterator
]

unfoldable pub lookup_ordered_array : ℕ → OrderedArray → Outcome ℕ
lookup_ordered_array i a = assert (ltb i a.size) >> or_fault (get_elem? a.array i)

-- The loop of the removal, with `size - i` rounds left.
pub shift_down : List ℕ → (i rounds : ℕ) → Outcome (List ℕ)
shift_down cells i zero = ok cells
shift_down cells i (suc n) = do
  next ← or_fault (get_elem? cells (i + 1))
  shift_down (set cells i next) (i + 1) n

-- `size--` wraps at 0.
pub remove_ordered_array : ℕ → OrderedArray → Outcome OrderedArray
unfolding shift_down
remove_ordered_array i a = do
  cells ← shift_down a.array i (a.size - i)
  ok (record a { array = cells; size = sub32 a.size 1 })

-- The array holds `xs`, in the first cells of its storage.
pub record Holds (lt : LessThan) (a : OrderedArray) (xs : List ℕ) : Type 0 where
  pub less : a.less_than ≡ some lt
  pub spare : List ℕ
  pub cells : a.array ≡ xs ++ spare
  pub count : a.size ≡ length xs
  pub capacity : a.max_size ≡ length a.array
