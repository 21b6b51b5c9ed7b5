-- ===== src/Kheap/Kmalloc/Create.antt =====
-- The heap that `create_heap` makes.
use nembus_os.Base.{ℕ, ◌+◌, ◌-◌, ◌%◌, ◌<◌, ◌≤◌, ◌≡◌, refl, ◌∙◌, false, some, [], ◌∷◌, arith, eq→==}
use nembus_os.Base.Words.{add32, sub32}
use nembus_os.Base.Outcome.{ok}
use nembus_os.Memory.{Memory}
use nembus_os.OrderedArray.{OrderedArray, place_ordered_array, insert_ordered_array}
use nembus_os.OrderedArray.Insert.{insert_ordered_array-Holds}
use nembus_os.OrderedArray.Contract.{place_ordered_array-Holds, place_ordered_array-size}
use nembus_os.Kheap.{
  Heap, PageOps, page_size, heap_index_size, get_size, header_t_less_than, round_page, write_header,
}
use nembus_os.Kheap.Blocks.{IsHeaded, write_header-IsHeaded, get_size-IsHeaded}
use nembus_os.Kheap.Alloc.Invariant.{IsWell, with_index}
use nembus_os.Kheap.Kmalloc.{Allocated, heap_state, create_heap, kmalloc_int}
use nembus_os.Kheap.Rounding.{round_page-value}
use nembus_os.Kheap.Kmalloc.Placement.{early_kernel, allocated, kmalloc_int-place}

first-round :
    (start : ℕ)
    → start % page_size ≡ 0
    → start + 0x82000 < 0xFFFFF000
    → round_page (add32 start 0x80000) ≡ start + 0x81000
first-round start aligned small =
    let plain : add32 start 0x80000 ≡ start + 0x80000 = omega arith in
    rw plain (round_page-value (start + 0x80000) (omega arith) ∙ ground arith)

-- The heap between `first` and `end_addr`.
abbrev heap_between : OrderedArray → (first end_addr max supervisor readonly : ℕ) → Heap
heap_between index first end_addr max supervisor readonly = record {
  index = index;
  start_address = first;
  end_address = end_addr;
  max_address = max;
  supervisor = supervisor;
  readonly = readonly;
}

module _ {P : Type 0} (ops : PageOps P) (fuel start end_addr max supervisor readonly p : ℕ)
    (m : Memory) (pages : P) (room : p + 32 + page_size < 0x100000000)
    (aligned : start % page_size ≡ 0) (end_aligned : end_addr % page_size ≡ 0)
    (small : end_addr < 0xFFFFF000) (large : start + 0x82000 ≤ end_addr) where
  header_mem : Memory
  header_mem = write_header m (start + 0x81000) 1 (end_addr - (start + 0x81000))

  create_heap-made :
      (q : ℕ) (at : Allocated) (index : OrderedArray)
      → kmalloc_int ops fuel 32 0 false (early_kernel p m pages) ≡ ok (early_kernel q m pages, at)
      → insert_ordered_array header_mem
          (start + 0x81000)
          (place_ordered_array heap_index_size (some header_t_less_than))
        ≡ ok index
      → create_heap ops fuel start end_addr max supervisor readonly (early_kernel p m pages)
        ≡ ok (
          early_kernel q header_mem pages,
          heap_between index (start + 0x81000) end_addr max supervisor readonly,
        )
  unfolding create_heap header_mem
  create_heap-made q at index placed inserted =
      let size : sub32 end_addr (start + 0x81000) ≡ end_addr - (start + 0x81000) = omega arith in
      rw (
        placed,
        eq→== (start % page_size) 0 aligned,
        eq→== (end_addr % page_size) 0 end_aligned,
        first-round start aligned (omega arith),
        size,
        inserted,
      )

  header_mem-IsHeaded : IsHeaded header_mem (start + 0x81000) 1 (end_addr - (start + 0x81000))
  unfolding header_mem
  header_mem-IsHeaded =
      write_header-IsHeaded m (start + 0x81000) 1 (end_addr - (start + 0x81000)) (omega arith)
        (omega arith) (omega arith) (omega arith)

  -- Before there is a heap, with page-aligned bounds and room for the index and two pages,
  -- `create_heap` makes a well-formed
  -- heap: behind the index, one hole that reaches to the end. The rounding leaves out a page.
  pub create_heap-IsWell :
      (q : ℕ) × (m' : Memory) × (heap : Heap) × (create_heap ops fuel start end_addr max supervisor
          readonly
          (early_kernel p m pages)
        ≡ ok (early_kernel q m' pages, heap))
      × IsWell (heap_state (early_kernel q m' pages) heap) ((start + 0x81000) ∷ [])
      × (get_size m' (start + 0x81000) ≡ end_addr - (start + 0x81000))
      × (heap.start_address ≡ start + 0x81000)
      × (heap.end_address ≡ end_addr)
  create_heap-IsWell =
      let (at, placed, behind, page) = kmalloc_int-place ops fuel 32 0 false p m pages room in
      let fresh = place_ordered_array heap_index_size (some header_t_less_than) in
      let (none_yet, cap) = place_ordered_array-size heap_index_size header_t_less_than in
      let (index, inserted, held, cap') =
        insert_ordered_array-Holds header_mem header_t_less_than fresh (start + 0x81000) []
          (place_ordered_array-Holds heap_index_size header_t_less_than)
          (omega (arith, none_yet, cap)) in
      let size =
        get_size-IsHeaded header_mem (start + 0x81000) 1 (end_addr - (start + 0x81000))
          header_mem-IsHeaded in
      (
        at + 32,
        header_mem,
        heap_between index (start + 0x81000) end_addr max supervisor readonly,
        create_heap-made (at + 32) (allocated false at) index placed inserted,
        with_index
            (heap_state (early_kernel (at + 32) header_mem pages)
              (heap_between index (start + 0x81000) end_addr max supervisor readonly))
            ((start + 0x81000) ∷ [])
            (record {
              sorted = (tt, tt);
              holes = ((rw size header_mem-IsHeaded, omega (arith, size)), tt);
              apart = (tt, tt);
            })
            held (omega (arith, cap, cap')) (omega (arith, cap, cap')) (omega arith),
        size,
        refl,
        refl,
      )
