-- ===== src/Kheap/Resize.antt =====
-- `expand` and `contract` of src/impl/kheap.c.
pub mod Ends
use nembus_os.Base.{ℕ, zero, suc, ◌+◌, ◌/◌, ◌==◌, ltb, leb, if◌then◌else◌, bit_and}
use nembus_os.Base.Words.{add32, sub32}
use nembus_os.Base.Outcome.{Outcome, ok, out_of_fuel, ◌>>=◌, ◌>>◌, assert}
use nembus_os.Kheap.{Heap, PageOps, State, page_size, heap_min_size, round_page}

module _ {P : Type 0} (ops : PageOps P) where
  open ops use {map_page, unmap_page}

  -- The loop of `expand`: `(heap->supervisor)?1:0` and `(heap->readonly)?0:1` are the flags. A page
  -- whose table is missing changes the heap as well.
  pub map_range : (fuel i new_size : ℕ) → State P → Outcome (State P)
  map_range zero i new_size s = out_of_fuel
  map_range (suc fuel) i new_size s =
      let rest = (do
        s' ←
            map_page (add32 s.heap.start_address i) (if s.heap.supervisor == 0 then 0 else 1)
              (if s.heap.readonly == 0 then 1 else 0) s
        map_range fuel (add32 i page_size) new_size s') in
      if ltb i new_size then rest else ok s

  pub expand : ℕ → State P → Outcome (State P)
  unfolding map_range
  expand new_size s = do
    assert (ltb (sub32 s.heap.end_address s.heap.start_address) new_size)
    let size = round_page new_size
    assert (leb (add32 s.heap.start_address size) s.heap.max_address)
    let old_size = sub32 s.heap.end_address s.heap.start_address
    s' ← map_range (size / page_size + 2) old_size size s
    ok (record s' { heap = record (s'.heap) { end_address = add32 s'.heap.start_address size } })

  pub unmap_range : (fuel : ℕ) → Heap → (new_size i : ℕ) → P → Outcome P
  unmap_range zero heap new_size i pages = out_of_fuel
  unmap_range (suc fuel) heap new_size i pages =
      let rest = (do
        pages' ← unmap_page (add32 heap.start_address i) pages
        unmap_range fuel heap new_size (sub32 i page_size) pages') in
      if ltb new_size i then rest else ok pages

  -- The size that `contract` settles on: the mask is 0x1000, not 0xFFFFF000.
  pub contracted_size : ℕ → ℕ
  contracted_size new_size =
      let masked =
        (if bit_and new_size 0x1000 == 0
          then new_size
          else add32 (bit_and new_size 0x1000) 0x1000) in
      if ltb masked heap_min_size then heap_min_size else masked

  pub contract : ℕ → State P → Outcome (State P × ℕ)
  unfolding unmap_range
  contract new_size s = do
    assert (ltb new_size (sub32 s.heap.end_address s.heap.start_address))
    let size = contracted_size new_size
    let old_size = sub32 s.heap.end_address s.heap.start_address
    pages ← unmap_range (old_size / page_size + 2) s.heap size (sub32 old_size page_size) s.pages
    ok (
      record s {
        heap = record (s.heap) { end_address = add32 s.heap.start_address size };
        pages = pages;
      },
      size,
    )
