-- ===== src/Kheap/Alloc.antt =====
-- `alloc` of src/impl/kheap.c.
pub mod Split
pub mod Best
pub mod Invariant
pub mod Growth
pub mod Grow
use nembus_os.Base.{
  ℕ, zero, suc, ◌==◌, ltb, if◌then◌else◌, Bool, not, ◌&&◌, Option, none, some, bit_and,
}
use nembus_os.Base.Words.{add32, sub32}
use nembus_os.Base.Outcome.{Outcome, ok, out_of_fuel, ◌>>=◌, ◌>>◌}
use nembus_os.Memory.{Memory}
use nembus_os.OrderedArray.{insert_ordered_array, lookup_ordered_array, remove_ordered_array}
use nembus_os.Kheap.{
  Heap, PageOps, State, page_size, sizeof_header, sizeof_footer, get_size, set_size, set_is_hole,
  write_header, write_footer,
}
use nembus_os.Kheap.Resize.{expand}
use nembus_os.Kheap.Search.{find_smallest_hole, search_last}

-- What the block takes of a hole: the rest of a hole too small to be split goes to the block.
abbrev pub block_size : (orig_hole_size new_size : ℕ) → ℕ
block_size orig_hole_size new_size =
    if ltb (sub32 orig_hole_size new_size) 20 then orig_hole_size else new_size

abbrev pub user_size : (orig_hole_size new_size size : ℕ) → ℕ
user_size orig_hole_size new_size size =
    if ltb (sub32 orig_hole_size new_size) 20
    then add32 size (sub32 orig_hole_size new_size)
    else size

-- Where the header of an aligned block goes: right in front of the next page boundary.
abbrev aligned_location : (pos : ℕ) → ℕ
aligned_location pos = sub32 (sub32 (add32 pos page_size) (bit_and pos 0xFFF)) sizeof_header

module _ {P : Type 0} where
  abbrev pub with_mem : State P → Memory → State P
  with_mem s m = record s { mem = m }

  abbrev pub insert_index : (item : ℕ) → State P → Outcome (State P)
  insert_index item s = do
    index ← insert_ordered_array s.mem item s.heap.index
    ok (record s { heap = record (s.heap) { index = index } })

  abbrev pub remove_index : (i : ℕ) → State P → Outcome (State P)
  remove_index i s = do
    index ← remove_ordered_array i s.heap.index
    ok (record s { heap = record (s.heap) { index = index } })

  -- The hole in front of the page boundary, where the caller wants an aligned block.
  unfoldable align_hole : (pos : ℕ) → State P → State P
  align_hole pos s =
      let gap = sub32 (sub32 page_size (bit_and pos 0xFFF)) sizeof_header in
      with_mem s (
        write_footer (write_header s.mem pos 1 gap) (sub32 (aligned_location pos) sizeof_footer)
          pos)

  -- The hole behind the block; its footer is skipped where it would lie behind the heap.
  pub write_rest : (pos size new_size orig_hole_size : ℕ) → State P → Outcome (State P)
  write_rest pos size new_size orig_hole_size s =
      if sub32 orig_hole_size new_size == 0
      then ok s
      else (let hole = add32 (add32 (add32 pos sizeof_header) size) sizeof_footer in
          let rest = sub32 orig_hole_size new_size in
          let headed = write_header s.mem hole 1 rest in
          let footer = sub32 (add32 hole rest) sizeof_footer in
          let footed =
            (if ltb footer s.heap.end_address then write_footer headed footer hole else headed) in
          insert_index hole (with_mem s footed))

  -- The block itself, and what follows it; the result is the pointer behind the header.
  pub write_block : (pos size new_size orig_hole_size : ℕ) → State P → Outcome (State P × ℕ)
  write_block pos size new_size orig_hole_size s = do
    let headed = write_header s.mem pos 0 new_size
    let footed = write_footer headed (add32 (add32 pos sizeof_header) size) pos
    s' ← write_rest pos size new_size orig_hole_size (with_mem s footed)
    ok (s', add32 pos sizeof_header)

  -- The part of `alloc` behind the search that has found the hole at `iterator`.
  pub take_hole : (iterator size new_size page_align : ℕ) → State P → Outcome (State P × ℕ)
  take_hole iterator size new_size page_align s = do
    pos ← lookup_ordered_array iterator s.heap.index
    let orig = get_size s.mem pos
    let taken = block_size orig new_size
    let inner = user_size orig new_size size
    if not (page_align == 0) && not (bit_and pos 0xFFFFF000 == 0)
        then write_block (aligned_location pos) inner taken
            (sub32 orig (get_size (align_hole pos s).mem pos)) (align_hole pos s)
        else remove_index iterator s >>= write_block pos inner taken orig

  -- After `expand`: the new room becomes a hole of its own if there is no hole, and is added to
  -- the hole at the highest address otherwise.
  pub extend_last : (old_end old_length : ℕ) → State P → Outcome (State P)
  unfolding search_last
  extend_last old_end old_length s = do
    let new_length = sub32 s.heap.end_address s.heap.start_address
    idx ← search_last s.heap.index 0 s.heap.index.size none 0
    elim idx [
      | none ↦
          (let room = sub32 new_length old_length in
            let headed = write_header s.mem old_end 1 room in
            let footed = write_footer headed (sub32 (add32 old_end room) sizeof_footer) old_end in
            insert_index old_end (with_mem s footed))
      | some i ↦ (do
        header ← lookup_ordered_array i s.heap.index
        let size = add32 (get_size s.mem header) (sub32 new_length old_length)
        let sized = set_size s.mem header size
        ok (with_mem s (write_footer sized (sub32 (add32 header size) sizeof_footer) header)))
    ]

  module _ (ops : PageOps P) where
    pub grow : (new_size : ℕ) → State P → Outcome (State P)
    grow new_size s = do
      let old_length = sub32 s.heap.end_address s.heap.start_address
      s' ← expand ops (add32 old_length new_size) s
      extend_last s.heap.end_address old_length s'

    -- Each call of `alloc` that finds no hole grows the heap and calls itself: one unit of fuel.
    pub alloc : (fuel size page_align : ℕ) → State P → Outcome (State P × ℕ)
    alloc zero size page_align s = out_of_fuel
    alloc (suc fuel) size page_align s = do
      let new_size = add32 (add32 size sizeof_header) sizeof_footer
      found ← find_smallest_hole s.mem s.heap.index new_size page_align
      elim found [
        | none ↦ (do s' ← grow new_size s; alloc fuel size page_align s')
        | some iterator ↦ take_hole iterator size new_size page_align s
      ]
