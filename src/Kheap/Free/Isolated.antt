-- ===== src/Kheap/Free/Isolated.antt =====
-- `free` of a block that has no hole beside it and does not end the heap.
use nembus_os.Base.{
  ℕ, ◌+◌, ◌-◌, ◌^◌, ◌<◌, ◌≤◌, ◌≡◌, ◌≢◌, ◌⊎◌, refl, ◌∙◌, ap, sym, true, List, arith, ne→==,
}
use nembus_os.Base.Words.{add32, sub32}
use nembus_os.Base.Outcome.{ok}
use nembus_os.Memory.{Memory, load32}
use nembus_os.Memory.Laws.{
  IsBytes, load8-store8_self, load8-store8_ne, load32-store8_ne, load32_congr,
}
use nembus_os.OrderedArray.{LessThan, Holds}
use nembus_os.OrderedArray.Spec.{insert_sorted}
use nembus_os.OrderedArray.Insert.{insert_ordered_array-Holds}
use nembus_os.Kheap.{
  PageOps, State, heap_magic, get_size, get_is_hole, set_is_hole, sizeof_header, sizeof_footer,
}
use nembus_os.Kheap.Blocks.{IsTagged, IsHeaded}
use nembus_os.Kheap.Alloc.{with_mem, insert_index}
use nembus_os.Kheap.Free.{Merge, clear_words, merge_left, merge_right, shrink, free}
use nembus_os.Kheap.Free.Clear.{clear_words_outside, clear_words-footer}

module _ {P : Type 0} (s : State P) where
  merge_left-apart :
      (header footer : ℕ)
      → load32 s.mem (sub32 header sizeof_footer) ≢ heap_magic
      → merge_left header footer s ≡ (s, record { header = header; footer = footer; do_add = true })
  unfolding merge_left
  merge_left-apart header footer apart =
      rw (ne→== (load32 s.mem (sub32 header sizeof_footer)) heap_magic apart)

  merge_right-apart :
      (g : Merge)
      → get_is_hole s.mem (add32 g.footer sizeof_footer) ≡ 0
      → merge_right g s ≡ ok (s, g)
  unfolding merge_right
  merge_right-apart g apart = ground arith

  shrink-inner :
      (ops : PageOps P) (test_header : ℕ) (g : Merge)
      → add32 g.footer sizeof_footer ≢ s.heap.end_address
      → shrink ops test_header g s ≡ ok s
  unfolding shrink
  shrink-inner ops test_header g inner =
      rw (ne→== (add32 g.footer sizeof_footer) s.heap.end_address inner)

module _ {P : Type 0} (ops : PageOps P) (s : State P) (h sz : ℕ) (t : IsTagged s.mem h 0 sz) where
  freed_mem : Memory
  freed_mem = set_is_hole (clear_words s.mem (h + 12) (sz - 20)) h 1

  freed_mem-SameOutside : (p : ℕ) → (p < h) ⊎ (h + sz ≤ p) → freed_mem p ≡ s.mem p
  unfolding freed_mem
  freed_mem-SameOutside p out =
      load8-store8_ne _ (add32 h 4) 1 p (omega (arith, t.room, t.fits))
      ∙ clear_words_outside s.mem (h + 12) (sz - 20) p (omega (arith, t.room, t.fits))
          (omega (arith, t.room))

  free-apart :
      load32 freed_mem (sub32 h sizeof_footer) ≢ heap_magic
      → get_is_hole freed_mem (add32 (h + sz - 8) sizeof_footer) ≡ 0
      → h + sz < s.heap.end_address
      → s.heap.end_address < 2 ^ 32
      → free ops (add32 h sizeof_header) s ≡ insert_index h (with_mem s freed_mem)
  unfolding free freed_mem
  free-apart left right inner small =
      let pointer : add32 h sizeof_header ≡ h + 12 = omega (arith, t.room, t.fits) in
      let header : sub32 (h + 12) sizeof_header ≡ h = omega (arith, t.room, t.fits) in
      let field : add32 h 8 ≡ h + 8 = omega (arith, t.room, t.fits) in
      let foot : sub32 (add32 h sz) sizeof_footer ≡ h + sz - 8 = omega (arith, t.room, t.fits) in
      let rounds : h + sz - 8 - (h + 12) ≡ sz - 20 = omega (arith, t.room) in
      rw (
        pointer,
        ne→== (h + 12) 0 (omega arith),
        header,
        field,
        t.size,
        foot,
        t.magic,
        t.foot,
        rounds,
        merge_left-apart (with_mem s freed_mem) h (h + sz - 8) left,
        merge_right-apart (with_mem s freed_mem)
            (record { header = h; footer = h + sz - 8; do_add = true }) right,
        shrink-inner (with_mem s freed_mem) ops (add32 (h + sz - 8) sizeof_footer)
            (record { header = h; footer = h + sz - 8; do_add = true }) (omega (arith, t.room)),
      )

  freed_mem-footer : IsBytes s.mem → 20 < sz → load32 freed_mem (h + sz - 8) ≡ 0x12000000
  unfolding freed_mem
  freed_mem-footer b big =
      load32-store8_ne _ (add32 h 4) 1 (h + sz - 8) (omega (arith, t.fits)) (omega (arith, t.fits))
      ∙ clear_words-footer s.mem h 0 sz t b big

  freed_mem-word :
      (p : ℕ) → p + 4 ≤ 2 ^ 32 → (p + 4 ≤ h) ⊎ (h + sz ≤ p) → load32 freed_mem p ≡ load32 s.mem p
  freed_mem-word p fits out =
      load32_congr freed_mem s.mem p fits λ q lo hi. freed_mem-SameOutside q (omega arith)

  freed_mem-hole : freed_mem (h + 4) ≡ 1
  unfolding freed_mem
  freed_mem-hole =
      let field : add32 h 4 ≡ h + 4 = omega (arith, t.room, t.fits) in
      rw field (load8-store8_self _ (h + 4) 1)

  freed_mem-magic : load32 freed_mem h ≡ heap_magic
  unfolding freed_mem
  freed_mem-magic =
      load32-store8_ne _ (add32 h 4) 1 h (omega (arith, t.room, t.fits))
        (omega (arith, t.room, t.fits))
      ∙ load32_congr _ s.mem h (omega (arith, t.room, t.fits)) (λ q lo hi.
        clear_words_outside s.mem (h + 12) (sz - 20) q (omega (arith, t.room, t.fits))
          (omega arith))
      ∙ t.magic

  freed_mem-size : get_size freed_mem h ≡ sz
  unfolding freed_mem
  freed_mem-size =
      let field : add32 h 8 ≡ h + 8 = omega (arith, t.room, t.fits) in
      rw field (
        load32-store8_ne _ (add32 h 4) 1 (h + 8) (omega (arith, t.room, t.fits))
          (omega (arith, t.room, t.fits))
        ∙ load32_congr _ s.mem (h + 8) (omega (arith, t.room, t.fits)) (λ q lo hi.
          clear_words_outside s.mem (h + 12) (sz - 20) q (omega (arith, t.room, t.fits))
            (omega arith))
        ∙ t.size)

  freed_mem-IsHeaded : IsHeaded freed_mem h 1 sz
  freed_mem-IsHeaded = record {
    room = t.room;
    fits = t.fits;
    magic = freed_mem-magic;
    hole = freed_mem-hole;
    size = field freed_mem-size;
  }
    where
      field : get_size freed_mem h ≡ sz → load32 freed_mem (h + 8) ≡ sz
      field e =
          let at : add32 h 8 ≡ h + 8 = omega (arith, t.room, t.fits) in
          ap (load32 freed_mem) (sym at) ∙ e

-- What the freed block has become.
pub record IsFreed {P : Type 0} (lt : LessThan) (s s' : State P) (h sz : ℕ) (xs : List ℕ)
    : Type 0 where
  pub hole : s'.mem (h + 4) ≡ 1
  pub size : get_size s'.mem h ≡ sz
  pub held : Holds lt s'.heap.index (insert_sorted (lt s'.mem) h xs)
  pub same : (p : ℕ) → (p < h) ⊎ (h + sz ≤ p) → s'.mem p ≡ s.mem p
  pub footer : load32 s'.mem (h + sz - 8) ≡ 0x12000000
  pub headed : IsHeaded s'.mem h 1 sz
  pub end : s'.heap.end_address ≡ s.heap.end_address
  pub capacity : s'.heap.index.max_size ≡ s.heap.index.max_size

-- For a tagged block of more than 20 bytes in a memory of bytes, where the word in front is no
-- magic number, the byte behind where a header has its flag is 0, the block does not end the heap,
-- and the index has room: `free` turns the block into a hole and puts it into the index. The hole keeps its size, but
-- its footer has lost the magic number.
pub free-IsFreed :
    {P : Type 0} (ops : PageOps P) (lt : LessThan) (s : State P) (h sz : ℕ) (xs : List ℕ)
    → IsTagged s.mem h 0 sz
    → 20 < sz
    → IsBytes s.mem
    → Holds lt s.heap.index xs
    → s.heap.index.size < s.heap.index.max_size
    → 8 ≤ h
    → load32 s.mem (h - 8) ≢ heap_magic
    → s.mem (h + sz + 4) ≡ 0
    → h + sz + 12 ≤ s.heap.end_address
    → s.heap.end_address < 2 ^ 32
    → (s' : State P) × (free ops (add32 h sizeof_header) s ≡ ok s') × IsFreed lt s s' h sz xs
free-IsFreed ops lt s h sz xs t big b held room low left right inner small =
    let m = freed_mem ops s h sz t in
    let before : sub32 h sizeof_footer ≡ h - 8 = omega (arith, t.fits) in
    let behind : add32 (add32 (h + sz - 8) sizeof_footer) 4 ≡ h + sz + 4 = omega arith in
    let (index, done, held', cap) = insert_ordered_array-Holds m lt s.heap.index h xs held room in
    (
      record s { mem = m; heap = record (s.heap) { index = index } },
      free-apart ops s h sz t
            (rw (before, freed_mem-word ops s h sz t (h - 8) (omega arith) (omega arith)) left)
            (rw (behind, freed_mem-SameOutside ops s h sz t (h + sz + 4) (omega arith)) right)
            (omega arith) small
          ∙ rw done,
      record {
        hole = freed_mem-hole ops s h sz t;
        size = freed_mem-size ops s h sz t;
        held = held';
        same = freed_mem-SameOutside ops s h sz t;
        footer = freed_mem-footer ops s h sz t b big;
        headed = freed_mem-IsHeaded ops s h sz t;
        end = refl;
        capacity = cap;
      },
    )
