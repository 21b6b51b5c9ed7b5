-- ===== src/Kheap/Free.antt =====
-- `free` of src/impl/kheap.c.
pub mod Clear
pub mod Isolated
pub mod Invariant
use nembus_os.Base.{
  ℕ, zero, suc, ◌+◌, ◌-◌, ◌==◌, ltb, if◌then◌else◌, Bool, true, false, not, ◌&&◌, Option, none,
  some,
}
use nembus_os.Base.Words.{add32, sub32}
use nembus_os.Base.Outcome.{Outcome, ok, ◌>>=◌, ◌>>◌, assert}
use nembus_os.Memory.{Memory, load32, store32}
use nembus_os.OrderedArray.{remove_ordered_array}
use nembus_os.Kheap.{
  Heap, PageOps, State, sizeof_header, sizeof_footer, heap_magic, get_size, get_is_hole, get_header,
  set_size, set_is_hole, write_footer,
}
use nembus_os.Kheap.Resize.{contract}
use nembus_os.Kheap.Search.{search_item}
use nembus_os.Kheap.Alloc.{with_mem, insert_index, remove_index}

-- The clearing loop, with `rounds` bytes left in front of the footer: each round clears the word
-- at the pointer, and the pointer moves on by one byte.
pub clear_words : Memory → (p rounds : ℕ) → Memory
clear_words m p zero = m
clear_words m p (suc n) = clear_words (store32 m p 0) (add32 p 1) n

-- Where `free` has got to: the header and footer of the hole, and whether it is to be added to
-- the index.
pub record Merge : Type 0 where
  pub header : ℕ
  pub footer : ℕ
  pub do_add : Bool

module _ {P : Type 0} where
  -- The block is joined to the hole on its left.
  pub merge_left : (header footer : ℕ) → State P → State P × Merge
  merge_left header footer s =
      let test_footer = sub32 header sizeof_footer in
      let left = get_header s.mem test_footer in
      if (load32 s.mem test_footer == heap_magic) && (get_is_hole s.mem left == 1)
      then (let cache_size = get_size s.mem header in
          let linked = store32 s.mem (add32 footer 4) left in
          (
            with_mem s (set_size linked left (add32 (get_size linked left) cache_size)),
            record { header = left; footer = footer; do_add = false },
          ))
      else (s, record { header = header; footer = footer; do_add = true })

  -- The hole is joined to the hole on its right, which leaves the index.
  pub merge_right : Merge → State P → Outcome (State P × Merge)
  unfolding search_item
  merge_right g s =
      let test_header = add32 g.footer sizeof_footer in
      if (load32 s.mem test_header == heap_magic) && not (get_is_hole s.mem test_header == 0)
      then (do
        let sized =
            set_size s.mem g.header (add32 (get_size s.mem g.header) (get_size s.mem test_header))
        let footer = sub32 (add32 test_header (get_size sized test_header)) sizeof_footer
        i ← search_item s.heap.index test_header 0 s.heap.index.size
        assert (ltb i s.heap.index.size)
        s' ← remove_index i (with_mem s sized)
        ok (s', record g { footer = footer }))
      else ok (s, g)

  -- `test_header` leaves the index if it is there.
  unfoldable drop_item : (test_header : ℕ) → State P → Outcome (State P)
  unfolding search_item
  drop_item test_header s = do
    i ← search_item s.heap.index test_header 0 s.heap.index.size
    if ltb i s.heap.index.size then remove_index i s else ok s

  module _ (ops : PageOps P) where
    -- A hole at the end of the heap is given back, as far as `contract` goes.
    pub shrink : (test_header : ℕ) → Merge → State P → Outcome (State P)
    shrink test_header g s =
        if add32 g.footer sizeof_footer == s.heap.end_address
        then (do
          let old_length = sub32 s.heap.end_address s.heap.start_address
          (s', new_length) ← contract ops (sub32 g.header s.heap.start_address) s
          let left = sub32 (get_size s'.mem g.header) (sub32 old_length new_length)
          if not (left == 0)
              then (let sized = set_size s'.mem g.header left in
                  let footer = sub32 (add32 g.header left) sizeof_footer in
                  ok (with_mem s' (write_footer sized footer g.header)))
              else drop_item test_header s')
        else ok s

    pub free : (p : ℕ) → State P → Outcome (State P)
    unfolding clear_words
    free p s = if p == 0 then ok s else (do
      let header = sub32 p sizeof_header
      let footer = sub32 (add32 header (get_size s.mem header)) sizeof_footer
      assert (load32 s.mem header == heap_magic)
      assert (load32 s.mem footer == heap_magic)
      let cleared = clear_words s.mem p (footer - p)
      let (s1, g1) = merge_left header footer (with_mem s (set_is_hole cleared header 1))
      (s2, g2) ← merge_right g1 s1
      s3 ← shrink (add32 footer sizeof_footer) g2 s2
      if g2.do_add then insert_index g2.header s3 else ok s3)
