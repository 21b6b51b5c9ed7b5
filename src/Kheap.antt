-- ===== src/Kheap.antt =====
-- The kernel heap of src/impl/kheap.c and src/include/kheap.h: its constants, the headers and
-- footers in memory, and the state that its operations pass on.
pub mod Blocks
pub mod Holes
pub mod Rounding
pub mod Resize
pub mod Paged
pub mod Search
pub mod Alloc
pub mod Free
pub mod Kmalloc
mod Tests
use nembus_os.Base.{ℕ, ◌<◌, ◌==◌, ltb, if◌then◌else◌, Bool, bit_and}
use nembus_os.Base.Words.{add32, sub32}
use nembus_os.Base.Outcome.{Outcome}
use nembus_os.Memory.{Memory, store8, load32, store32}
use nembus_os.OrderedArray.{OrderedArray, LessThan}

abbrev pub kheap_start : ℕ
kheap_start = 0xC0000000

abbrev kheap_initial_size : ℕ
kheap_initial_size = 0x100000

abbrev pub heap_index_size : ℕ
heap_index_size = 0x20000

abbrev pub heap_magic : ℕ
heap_magic = 0x123890AB

abbrev pub heap_min_size : ℕ
heap_min_size = 0x70000

abbrev pub page_size : ℕ
page_size = 0x1000

-- `sizeof(header_t)`: `magic` at offset 0, `is_hole` at 4, `size` at 8.
abbrev pub sizeof_header : ℕ
sizeof_header = 12

-- `sizeof(footer_t)`: `magic` at offset 0, `header` at 4.
abbrev pub sizeof_footer : ℕ
sizeof_footer = 8

abbrev pub get_size : Memory → ℕ → ℕ
get_size m header = load32 m (add32 header 8)

abbrev pub get_is_hole : Memory → ℕ → ℕ
get_is_hole m header = m (add32 header 4)

abbrev pub get_header : Memory → ℕ → ℕ
get_header m footer = load32 m (add32 footer 4)

abbrev pub set_size : Memory → (header size : ℕ) → Memory
set_size m header size = store32 m (add32 header 8) size

abbrev pub set_is_hole : Memory → (header is_hole : ℕ) → Memory
set_is_hole m header is_hole = store8 m (add32 header 4) is_hole

-- The three assignments that fill a header.
pub write_header : Memory → (header is_hole size : ℕ) → Memory
write_header m header is_hole size =
    set_size (set_is_hole (store32 m header heap_magic) header is_hole) header size

-- The two assignments that fill a footer.
pub write_footer : Memory → (footer header : ℕ) → Memory
write_footer m footer header = store32 (store32 m footer heap_magic) (add32 footer 4) header

pub record Heap : Type 0 where
  pub index : OrderedArray
  pub start_address : ℕ
  pub end_address : ℕ
  pub max_address : ℕ
  pub supervisor : ℕ
  pub readonly : ℕ

pub record State (P : Type 0) : Type 0 where
  pub mem : Memory
  pub heap : Heap
  pub pages : P

-- The paging operations that the heap calls, over a state of their own. With `make` 1, `get_page`
-- calls `kmalloc_ap` for a table that is missing, and that allocates from the heap: `map_page` acts
-- on the heap's state too.
pub record PageOps (P : Type 0) : Type 0 where
  -- `alloc_frame(get_page(address, 1, kernel_directory), is_kernel, is_writeable)`
  pub map_page : (address is_kernel is_writeable : ℕ) → State P → Outcome (State P)
  -- `free_frame(get_page(address, 0, kernel_directory))`
  pub unmap_page : (address : ℕ) → P → Outcome P
  -- `get_page(address, 0, kernel_directory)->frame`
  pub frame_of : (address : ℕ) → P → Outcome ℕ

-- `header_t_less_than`
abbrev pub header_t_less_than : LessThan
header_t_less_than m a b = ltb (get_size m a) (get_size m b)

-- The rounding that `expand`, `create_heap` and `kmalloc_int` share: below a page it does nothing,
-- and it takes an address that is aligned already to the next page.
pub round_page : ℕ → ℕ
round_page a = if bit_and a 0xFFFFF000 == 0 then a else add32 (bit_and a 0xFFFFF000) page_size
