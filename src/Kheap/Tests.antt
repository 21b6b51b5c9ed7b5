-- ===== src/Kheap/Tests.antt =====
-- The heap with two holes: 200 bytes at 4096 and 100 bytes at 8192.
use nembus_os.Base.{
  zero, suc, ◌/◌, ◌%◌, ◌^◌, ◌≢◌, ◌++◌, ◌==◌, ltb, if◌then◌else◌, replicate, All, ℕ, ◌+◌, ◌-◌, ◌<◌,
  ◌≤◌, ◌≡◌, inl, inr, refl, arith, Option, some, List, [], ◌∷◌, get_elem?,
}
use nembus_os.Base.Words.{add32}
use nembus_os.Base.Outcome.{Outcome, ok}
use nembus_os.Memory.{Memory, load32, store8, store32}
use nembus_os.Memory.Laws.{IsBytes, store8-IsBytes, store32-IsBytes}
use nembus_os.Base.BitAt.{bit_at}
use nembus_os.Paging.Frames.{Page}
use nembus_os.Paging.Frames.Bitmap.{is_used}
use nembus_os.Paging.Tables.{Directory, PageMemory, empty_page}
use nembus_os.Paging.Tables.Lookup.{IsApart}
use nembus_os.Kheap.Paged.{paging_ops, frame_of, HasRoom}
use nembus_os.Kheap.Paged.Backing.{paging_ops-Backs}
use nembus_os.OrderedArray.{OrderedArray, Holds}
use nembus_os.OrderedArray.Spec.{IsSorted, insert_sorted}
use nembus_os.Kheap.{
  Heap, PageOps, State, kheap_start, heap_min_size, round_page, sizeof_header, get_size,
  write_header, write_footer, header_t_less_than,
}
use nembus_os.Kheap.Blocks.{
  IsTagged, SameOutside, write-IsTagged, write-SameOutside, IsTagged-frame, IsTagged-IsHeaded,
}
use nembus_os.Kheap.Search.{find_smallest_hole}
use nembus_os.Kheap.Search.BestFit.{BestFit, find_smallest_hole-BestFit}
use nembus_os.Kheap.Alloc.{grow, alloc}
use nembus_os.Kheap.Alloc.Best.{IsReady}
use nembus_os.Kheap.Holes.{Clear}
use nembus_os.Kheap.Alloc.Invariant.{IsWell, alloc-IsWell}
use nembus_os.Kheap.Alloc.Grow.{after_growth, alloc-grows, grow-highest}
use nembus_os.Kheap.Rounding.{round_page-value}
use nembus_os.Kheap.Resize.{expand, contract}
use nembus_os.Kheap.Resize.Ends.{
  Backs, HasMapped, HasUnmapped, expanded, settled, expand-end, contract-end, contract_cuts,
}
use nembus_os.Kheap.Free.{free}
use nembus_os.Kheap.Free.Invariant.{free-IsWell}
use nembus_os.Kheap.Kmalloc.{heap_state, create_heap}
use nembus_os.Kheap.Kmalloc.Placement.{early_kernel}
use nembus_os.Kheap.Kmalloc.Create.{create_heap-IsWell}
use nembus_os.Kheap.Free.Isolated.{IsFreed, free-IsFreed}

-- Paging in which the first `limit` pages, below the four megabytes of the only table, have the
-- frames of their numbers; `words` is the bitmap.
abbrev Pages : Type 0
Pages = Directory × PageMemory

abbrev kmalloc_ap : State Pages → Outcome (State Pages × ℕ × ℕ)
kmalloc_ap s = ok (s, 0x9000, 0x9000)

abbrev paging : PageOps Pages
paging = paging_ops kmalloc_ap

abbrev one_table : Directory
one_table = record {
  tables = λ i. if i == 0 then 0x8000 else 0;
  tables_physical = λ i. 0;
  physical_addr = 0;
}

abbrev page_below : (limit k : ℕ) → Page
page_below limit k = record empty_page { frame = if ltb k limit then k else 0 }

abbrev pages_below : (limit : ℕ) → List ℕ → Pages
pages_below limit words = (
  one_table,
  record {
    store = λ t k. page_below limit k;
    frame_set = record { frames = words ++ replicate 120 0; nframes = 4096 };
    copies = [];
  },
)

abbrev few_pages : Pages
few_pages = pages_below 16 (0xFFFF ∷ 0 ∷ 0 ∷ 0 ∷ 0 ∷ 0 ∷ 0 ∷ 0 ∷ [])

abbrev many_pages : Pages
many_pages =
    pages_below 145 (0xFFFFFFFF ∷ 0xFFFFFFFF ∷ 0xFFFFFFFF ∷ 0xFFFFFFFF ∷ 0x1FFFF ∷ 0 ∷ 0 ∷ 0 ∷ [])

abbrev Low : ℕ → Type 0
Low a = a < 0x400000

has_table : (a : ℕ) → Low a → one_table.tables (a / 0x1000 / 1024) ≢ 0
has_table a low e =
    let first : a / 0x1000 / 1024 ≡ 0 = omega arith in absurd (ground (arith, first, e))

one_table-IsApart : IsApart one_table
one_table-IsApart i j small small' real same = ground arith

small_frame : (limit k : ℕ) → limit < 2 ^ 20 → (page_below limit k).frame < 2 ^ 20
small_frame limit k low = ground arith

free_behind : (k : ℕ) → k < 2 → is_used few_pages.1.frame_set (16 + k) ≡ 0
unfolding bit_at
free_behind zero low = refl
free_behind (suc zero) low = refl
free_behind (suc (suc k)) low = absurd (omega arith)

zeroth_used : is_used few_pages.1.frame_set 0 ≡ 1
unfolding bit_at
zeroth_used = refl

few_pages-HasRoom : (n : ℕ) → n ≤ 2 → HasRoom Low n few_pages
few_pages-HasRoom n two = record {
  tables = λ a low. (omega arith, has_table a low);
  apart = one_table-IsApart;
  valid = record { words = omega arith; some_words = omega arith; few = omega arith };
  words = omega arith;
  small = λ t k. small_frame 16 k (omega arith);
  free = inr (zeroth_used, (16, omega arith, λ k low. free_behind k (omega arith)));
}

many_pages-HasRoom : HasRoom Low 0 many_pages
many_pages-HasRoom = record {
  tables = λ a low. (omega arith, has_table a low);
  apart = one_table-IsApart;
  valid = record { words = omega arith; some_words = omega arith; few = omega arith };
  words = omega arith;
  small = λ t k. small_frame 145 k (omega arith);
  free = inl refl;
}

abbrev no_memory : Memory
no_memory p = 0

one_hole : Memory
one_hole = write_footer (write_header no_memory 4096 1 200) 4288 4096

two_holes : Memory
two_holes = write_footer (write_header one_hole 8192 1 100) 8284 8192

abbrev sizes : List ℕ
sizes = 8192 ∷ 4096 ∷ []

abbrev index_of : List ℕ → (size : ℕ) → OrderedArray
index_of cells size = record {
  array = cells;
  size = size;
  max_size = 4;
  less_than = some header_t_less_than;
}

abbrev heap_of : (mem : Memory) → OrderedArray → State (Pages)
heap_of mem index = record {
  mem = mem;
  heap = record {
    index = index;
    start_address = 4096;
    end_address = 0x10000;
    max_address = 0x20000;
    supervisor = 0;
    readonly = 0;
  };
  pages = few_pages;
}

abbrev holes : State (Pages)
holes = heap_of two_holes (index_of (8192 ∷ 4096 ∷ 0 ∷ 0 ∷ []) 2)

small_hole : IsTagged two_holes 8192 1 100
unfolding two_holes
small_hole =
    write-IsTagged one_hole 8192 1 100 8284 (omega arith) (omega arith) (omega arith) (omega arith)
      refl

large_hole : IsTagged two_holes 4096 1 200
unfolding two_holes one_hole
large_hole =
    IsTagged-frame 8192 100
      (write-IsTagged no_memory 4096 1 200 4288 (omega arith) (omega arith) (omega arith)
        (omega arith) refl)
      (write-SameOutside one_hole 8192 1 100 8284 (omega arith) (omega arith) (omega arith)
        (omega arith) refl)
      (inl (omega arith))

small_size : get_size two_holes 8192 ≡ 100
small_size = small_hole.size

large_size : get_size two_holes 4096 ≡ 200
large_size = large_hole.size

holes-Holds : Holds header_t_less_than holes.heap.index sizes
holes-Holds = record {
  less = refl;
  spare = 0 ∷ 0 ∷ [];
  cells = refl;
  count = refl;
  capacity = refl;
}

holes-IsSorted : IsSorted (header_t_less_than two_holes) sizes
holes-IsSorted = ((rw (large_size, small_size), tt), (tt, tt))

holes-IsReady : IsReady holes sizes
holes-IsReady = record {
  held = holes-Holds;
  sorted = holes-IsSorted;
  holes = (
    (rw small_size (IsTagged-IsHeaded small_hole), omega (arith, small_size)),
    ((rw large_size (IsTagged-IsHeaded large_hole), omega (arith, large_size)), tt),
  );
  room = omega arith;
  words = omega arith;
  end = omega arith;
}

find_smallest_hole-BestFit_example :
    (r : Option ℕ) × (find_smallest_hole two_holes holes.heap.index 150 0 ≡ ok r)
    × BestFit two_holes 150 sizes r
find_smallest_hole-BestFit_example =
    find_smallest_hole-BestFit two_holes holes.heap.index sizes 150 holes-Holds holes-IsSorted

holes-IsWell : IsWell holes sizes
holes-IsWell = record {
  ready = holes-IsReady;
  apart = ((inr (omega (arith, large_size)), tt), (tt, tt));
}

alloc-IsWell_example :
    (s' : State (Pages)) × (k h n : ℕ) × (ys : List ℕ) × (alloc paging 1 50 0 holes
      ≡ ok (s', add32 h sizeof_header))
    × (get_elem? sizes k ≡ some h)
    × (get_size two_holes h ≤ get_size two_holes 4096)
    × IsTagged s'.mem h 0 n
    × (50 + 20 ≤ n)
    × (n ≤ get_size two_holes h)
    × SameOutside h (get_size two_holes h) two_holes s'.mem
    × IsWell s' ys
    × Clear s' h n ys
alloc-IsWell_example =
    alloc-IsWell paging holes sizes 0 50 1 4096 holes-IsWell refl (omega (arith, large_size))

-- A block in use of 100 bytes at 8192, and the hole at 4096.
used : Memory
used = write_footer (write_header one_hole 8192 0 100) 8284 8192

abbrev one_used : State (Pages)
one_used = heap_of used (index_of (4096 ∷ 0 ∷ 0 ∷ 0 ∷ []) 1)

used_block : IsTagged used 8192 0 100
unfolding used
used_block =
    write-IsTagged one_hole 8192 0 100 8284 (omega arith) (omega arith) (omega arith) (omega arith)
      refl

used-IsBytes : IsBytes used
unfolding used one_hole write_footer write_header
used-IsBytes = store32-IsBytes _ _ _ (
    store32-IsBytes _ _ _ (
      store32-IsBytes _ _ _ (
        store8-IsBytes _ _ _ (
          store32-IsBytes _ _ _ (
            store32-IsBytes _ _ _ (
              store32-IsBytes _ _ _ (
                store32-IsBytes _ _ _
                  (store8-IsBytes _ _ _ (store32-IsBytes _ _ _ (λ p. omega arith))))))))))

used_left : load32 used 8184 ≡ 0
unfolding used one_hole write_footer write_header load32 store32 store8
used_left = refl

used_right : used 8296 ≡ 0
unfolding used one_hole write_footer write_header store32 store8
used_right = refl

free-IsFreed_example :
    (s' : State (Pages)) × (free paging (add32 8192 sizeof_header) one_used ≡ ok s')
    × IsFreed header_t_less_than one_used s' 8192 100 (4096 ∷ [])
free-IsFreed_example =
    free-IsFreed paging header_t_less_than one_used 8192 100 (4096 ∷ []) used_block (omega arith)
      used-IsBytes
      (record { less = refl; spare = 0 ∷ 0 ∷ 0 ∷ []; cells = refl; count = refl; capacity = refl })
      (omega arith) (omega arith) (omega (arith, used_left)) used_right (omega arith) (omega arith)

-- The heap of `holes` without the hole at 8192, where a block in use lies.
used_hole : IsTagged used 4096 1 200
unfolding used one_hole
used_hole =
    IsTagged-frame 8192 100
      (write-IsTagged no_memory 4096 1 200 4288 (omega arith) (omega arith) (omega arith)
        (omega arith) refl)
      (write-SameOutside one_hole 8192 0 100 8284 (omega arith) (omega arith) (omega arith)
        (omega arith) refl)
      (inl (omega arith))

used_size : get_size used 4096 ≡ 200
used_size = used_hole.size

one_used-IsWell : IsWell one_used (4096 ∷ [])
one_used-IsWell = record {
  ready = record {
    held = record {
      less = refl;
      spare = 0 ∷ 0 ∷ 0 ∷ [];
      cells = refl;
      count = refl;
      capacity = refl;
    };
    sorted = (tt, tt);
    holes = ((rw used_size (IsTagged-IsHeaded used_hole), omega (arith, used_size)), tt);
    room = omega arith;
    words = omega arith;
    end = omega arith;
  };
  apart = (tt, tt);
}

free-IsWell_example :
    (s' : State (Pages)) × (free paging (add32 8192 sizeof_header) one_used ≡ ok s')
    × IsWell s' (insert_sorted (header_t_less_than s'.mem) 8192 (4096 ∷ []))
    × SameOutside 8192 100 used s'.mem
free-IsWell_example =
    free-IsWell paging one_used 8192 100 (4096 ∷ []) one_used-IsWell used_block
      (inr (omega (arith, used_size)), tt) (omega arith) used-IsBytes (omega arith) (omega arith)
      (omega (arith, used_left)) used_right (omega arith)

abbrev page_align : ℕ
page_align = 1

create_heap-IsWell_example :
    (q : ℕ) × (m' : Memory) × (heap : Heap) × (create_heap paging 0 kheap_start 0xC0100000
        0xCFFFF000 0 0
        (early_kernel 0x2000 no_memory few_pages)
      ≡ ok (early_kernel q m' few_pages, heap))
    × IsWell (heap_state (early_kernel q m' few_pages) heap) ((kheap_start + 0x81000) ∷ [])
    × (get_size m' (kheap_start + 0x81000) ≡ 0xC0100000 - (kheap_start + 0x81000))
    × (heap.start_address ≡ kheap_start + 0x81000)
    × (heap.end_address ≡ 0xC0100000)
create_heap-IsWell_example =
    create_heap-IsWell paging 0 kheap_start 0xC0100000 0xCFFFF000 0 0 0x2000 no_memory few_pages
      (omega arith) (omega arith) (omega arith) (omega arith) (omega arith)

abbrev wide : State Pages
wide = record holes { heap = record (holes.heap) { end_address = 0x91000 }; pages = many_pages }

backs : Backs paging Low (HasRoom Low) frame_of
backs = paging_ops-Backs kmalloc_ap Low

-- 300 bytes do not fit either hole.
alloc-grows_example :
    (s' : State (Pages)) × (e n : ℕ) × (alloc paging 2 300 0 holes ≡ ok (s', add32 e sizeof_header))
    × IsTagged s'.mem e 0 n
    × (300 + 20 ≤ n)
    × (e + n ≤ s'.heap.end_address)
    × (s'.heap.end_address ≡ 4096 + round_page (0xF000 + 320))
    × HasMapped frame_of 4096 0xF000 (round_page (0xF000 + 320)) few_pages s'.pages
alloc-grows_example =
    alloc-grows paging Low (HasRoom Low) frame_of backs holes sizes 300 1 4096 holes-IsWell refl
      (omega arith) (omega arith) (omega arith)
      (omega (arith, round_page-value (0xF000 + 320) (omega arith))) (omega arith)
      (omega (arith, round_page-value (0xF000 + 320) (omega arith))) (omega arith)
      (λ q from to. omega (arith, round_page-value (0xF000 + 320) (omega arith))) 1
      (omega (arith, round_page-value (0xF000 + 320) (omega arith)))
      (omega (arith, round_page-value (0xF000 + 320) (omega arith)))
      (few_pages-HasRoom 1 (omega arith))
      (omega (arith, small_size), (omega (arith, large_size), tt)) 0

grow-highest_example :
    (k h : ℕ) × (pages : Pages) × (get_elem? sizes k ≡ some h)
    × All (λ y. y ≤ h) sizes
    × (grow paging (300 + 20) holes
        ≡ ok (
            after_growth holes
              (round_page (0xF000 + 320))
              h
              (get_size two_holes h + (round_page (0xF000 + 320) - 0xF000))
              pages))
    × HasMapped frame_of 4096 0xF000 (round_page (0xF000 + 320)) few_pages pages
grow-highest_example =
    grow-highest paging Low (HasRoom Low) frame_of backs holes sizes 300 1 4096 holes-IsWell refl
      (omega arith) (omega arith) (omega arith)
      (omega (arith, round_page-value (0xF000 + 320) (omega arith))) (omega arith)
      (omega (arith, round_page-value (0xF000 + 320) (omega arith))) (omega arith)
      (λ q from to. omega (arith, round_page-value (0xF000 + 320) (omega arith))) 1
      (omega (arith, round_page-value (0xF000 + 320) (omega arith)))
      (omega (arith, round_page-value (0xF000 + 320) (omega arith)))
      (few_pages-HasRoom 1 (omega arith))

contract_cuts_example :
    (s' : State (Pages)) × (contract paging 0x71000 wide ≡ ok (s', heap_min_size))
    × (s'.heap.end_address ≡ 4096 + heap_min_size)
    × (s'.heap.end_address < 4096 + 0x71000)
    × ((q : ℕ)
        → heap_min_size < q
        → q < 0x71000
        → (0x90000 - q) % 0x1000 ≡ 0
        → frame_of s'.pages (4096 + q) ≡ 0)
contract_cuts_example =
    contract_cuts paging Low (HasRoom Low) frame_of backs wide 0x71000 (omega arith) (omega arith)
      (omega arith) (omega arith) refl (λ q from to. omega arith) many_pages-HasRoom

contract-end_example :
    (pages : Pages) × (contract paging 0x72000 wide
      ≡ ok (expanded wide (settled 0x72000) pages, settled 0x72000))
    × HasUnmapped frame_of 4096 (settled 0x72000) (0x90000 - 0x1000) many_pages pages
contract-end_example =
    contract-end paging Low (HasRoom Low) frame_of backs wide 0x72000 (omega arith) (omega arith)
      (omega arith) (omega arith) (omega arith) (λ q from to. omega arith) many_pages-HasRoom

expand-end_example :
    (pages : Pages) × (expand paging 0x10123 holes ≡ ok (expanded holes (round_page 0x10123) pages))
    × HasMapped frame_of 4096 0xF000 (round_page 0x10123) few_pages pages
expand-end_example =
    expand-end paging Low (HasRoom Low) frame_of backs holes 0x10123 2 (omega arith) (omega arith)
      (omega arith) (omega (arith, round_page-value 0x10123 (omega arith)))
      (omega (arith, round_page-value 0x10123 (omega arith))) (omega arith)
      (λ q from to. omega (arith, round_page-value 0x10123 (omega arith)))
      (omega (arith, round_page-value 0x10123 (omega arith)))
      (omega (arith, round_page-value 0x10123 (omega arith))) (few_pages-HasRoom 2 (omega arith))
