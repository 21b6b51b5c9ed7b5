-- ===== src/Kheap/Search.antt =====
-- `find_smallest_hole` of src/impl/kheap.c, and the other two searches of the index.
pub mod BestFit
pub mod Last
use nembus_os.Base.{
  ℕ, zero, suc, ◌+◌, ◌-◌, ◌%◌, ◌==◌, ltb, leb, if◌then◌else◌, Bool, not, Option, none, some,
  bit_and,
}
use nembus_os.Base.Words.{add32, sub32, sle32}
use nembus_os.Base.Outcome.{Outcome, ok, ◌>>=◌}
use nembus_os.Memory.{Memory}
use nembus_os.OrderedArray.{OrderedArray, lookup_ordered_array}
use nembus_os.Kheap.{page_size, sizeof_header, get_size}

-- Whether the hole at `header` can hold `size` bytes. With `page_align` the comparison is signed,
-- on what is left of the hole behind the page boundary.
unfoldable pub hole_fits : Memory → (size page_align header : ℕ) → Bool
hole_fits m size page_align header =
    if ltb 0 page_align
    then (let offset =
          (if bit_and (add32 header sizeof_header) 0xFFFFF000 == 0
            then 0
            else page_size - add32 header sizeof_header % page_size) in
        sle32 size (sub32 (get_size m header) offset))
    else leb size (get_size m header)

-- The loop, with `heap->index.size - iterator` rounds left; `none` is the result -1.
pub search_hole : Memory → OrderedArray → (size page_align iterator rounds : ℕ) → Outcome (Option ℕ)
search_hole m index size page_align iterator zero = ok none
search_hole m index size page_align iterator (suc n) = do
  header ← lookup_ordered_array iterator index
  let rest = search_hole m index size page_align (iterator + 1) n
  if hole_fits m size page_align header then ok (some iterator) else rest

pub find_smallest_hole : Memory → OrderedArray → (size page_align : ℕ) → Outcome (Option ℕ)
unfolding search_hole
find_smallest_hole m index size page_align = search_hole m index size page_align 0 index.size

-- The search of `alloc` for the hole at the highest address: `idx` is `none` while it is -1.
unfoldable pub search_last :
    OrderedArray → (iterator rounds : ℕ) → (idx : Option ℕ) → (value : ℕ) → Outcome (Option ℕ)
search_last index iterator zero idx value = ok idx
search_last index iterator (suc n) idx value = do
  tmp ← lookup_ordered_array iterator index
  search_last index (iterator + 1) n (if ltb value tmp then some iterator else idx)
      (if ltb value tmp then tmp else value)

-- The two searches of `free` for a header: the position, or the size if it is not in the index.
unfoldable pub search_item : OrderedArray → (item iterator rounds : ℕ) → Outcome ℕ
search_item index item iterator zero = ok iterator
search_item index item iterator (suc n) = do
  found ← lookup_ordered_array iterator index
  let rest = search_item index item (iterator + 1) n
  if found == item then ok iterator else rest
