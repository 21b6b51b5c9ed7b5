-- ===== src/Kheap/Kmalloc.antt =====
-- `kmalloc_int` and its four callers, `kfree` and `create_heap` of src/impl/kheap.c.
pub mod Create
pub mod Placement
use nembus_os.Base.{
  ℕ, ◌*◌, ◌%◌, ◌==◌, ltb, if◌then◌else◌, Bool, true, false, not, ◌&&◌, Option, none, some, bit_and,
}
use nembus_os.Base.Words.{add32, sub32}
use nembus_os.Base.Outcome.{Outcome, ok, fault, ◌>>=◌, ◌>>◌, assert}
use nembus_os.Memory.{Memory}
use nembus_os.OrderedArray.{place_ordered_array, insert_ordered_array}
use nembus_os.Kheap.{
  Heap, PageOps, State, page_size, heap_index_size, header_t_less_than, round_page, write_header,
}
use nembus_os.Kheap.Alloc.{alloc}
use nembus_os.Kheap.Free.{free}

-- The globals of the allocator. `kheap` is null until `create_heap` has run.
pub record Kernel (P : Type 0) : Type 0 where
  pub placement_address : ℕ
  pub kheap : Option Heap
  pub mem : Memory
  pub pages : P

-- What a call of `kmalloc` returns: the address, and what it stores through `phys`.
pub record Allocated : Type 0 where
  pub address : ℕ
  pub phys : Option ℕ

module _ {P : Type 0} where
  abbrev pub heap_state : Kernel P → Heap → State P
  heap_state k heap = record { mem = k.mem; heap = heap; pages = k.pages }

  abbrev with_heap : Kernel P → State P → Kernel P
  with_heap k s = record k { kheap = some s.heap; mem = s.mem; pages = s.pages }

  -- Before the heap exists, memory is handed out in order and never given back.
  pub place : (sz align : ℕ) → (want_phys : Bool) → Kernel P → Kernel P × Allocated
  place sz align want_phys k =
      let at =
        (if (align == 1) && not (bit_and k.placement_address 0xFFFFF000 == 0)
          then add32 (bit_and k.placement_address 0xFFFFF000) page_size
          else k.placement_address) in
      (
        record k { placement_address = add32 at sz },
        record { address = at; phys = if want_phys then some at else none },
      )

  module _ (ops : PageOps P) (fuel : ℕ) where
    pub kmalloc_int :
        (sz align : ℕ) → (want_phys : Bool) → Kernel P → Outcome (Kernel P × Allocated)
    kmalloc_int sz align want_phys k = elim k.kheap [
      | none ↦ ok (place sz align want_phys k)
      | some heap ↦ (do
        (s, addr) ← alloc ops fuel sz (align % 256) (heap_state k heap)
        if want_phys
            then (do
              frame ← ops.frame_of addr s.pages
              ok (
                with_heap k s,
                record {
                  address = addr;
                  phys = some (add32 (frame * page_size) (bit_and addr 0xFFF));
                },
              ))
            else ok (with_heap k s, record { address = addr; phys = none }))
    ]

    abbrev kmalloc_a : (sz : ℕ) → Kernel P → Outcome (Kernel P × Allocated)
    kmalloc_a sz = kmalloc_int sz 1 false

    abbrev kmalloc_p : (sz : ℕ) → Kernel P → Outcome (Kernel P × Allocated)
    kmalloc_p sz = kmalloc_int sz 0 true

    abbrev pub kmalloc_ap : (sz : ℕ) → Kernel P → Outcome (Kernel P × Allocated)
    kmalloc_ap sz = kmalloc_int sz 1 true

    abbrev kmalloc : (sz : ℕ) → Kernel P → Outcome (Kernel P × Allocated)
    kmalloc sz = kmalloc_int sz 0 false

    -- A call before the heap exists reaches through a null pointer, unless `p` is null.
    unfoldable kfree : (p : ℕ) → Kernel P → Outcome (Kernel P)
    kfree p k = elim k.kheap [
      | none ↦ if p == 0 then ok k else fault
      | some heap ↦ free ops p (heap_state k heap) >>= λ s. ok (with_heap k s)
    ]

    -- `sizeof(heap_t)` is 32: 16 bytes of index, three words, and two flags padded to a word.
    pub create_heap :
        (start end_addr max supervisor readonly : ℕ) → Kernel P → Outcome (Kernel P × Heap)
    create_heap start end_addr max supervisor readonly k = do
      (k', at) ← kmalloc 32 k
      assert (start % page_size == 0)
      assert (end_addr % page_size == 0)
      let first = round_page (add32 start (4 * heap_index_size))
      let hole = write_header k'.mem first 1 (sub32 end_addr first)
      index ←
          insert_ordered_array hole first
            (place_ordered_array heap_index_size (some header_t_less_than))
      ok (
        record k' { mem = hole },
        record {
          index = index;
          start_address = first;
          end_address = end_addr;
          max_address = max;
          supervisor = supervisor;
          readonly = readonly;
        },
      )
