-- ===== src/Kheap/Alloc/Split.antt =====
-- What `alloc` does to the hole that it takes: a block in front, and the rest as a hole.
use nembus_os.Base.{
  ℕ, ◌+◌, ◌-◌, ◌^◌, ◌<◌, ◌≤◌, ◌≡◌, ◌⊎◌, inl, inr, refl, ◌∙◌, List, arith, ltb, ne→==, lt→ltb,
  Bool-cases, ltb→le,
}
use nembus_os.Base.Words.{add32, sub32}
use nembus_os.Base.Outcome.{ok}
use nembus_os.Memory.{Memory}
use nembus_os.OrderedArray.{
  OrderedArray, LessThan, Holds, lookup_ordered_array, remove_ordered_array,
}
use nembus_os.OrderedArray.Spec.{insert_sorted, remove_at, length-remove_at}
use nembus_os.OrderedArray.Insert.{insert_ordered_array-Holds}
use nembus_os.OrderedArray.Remove.{remove_ordered_array-Holds}
use nembus_os.Kheap.{State, sizeof_header, sizeof_footer, get_size, write_header, write_footer}
use nembus_os.Kheap.Blocks.{
  IsTagged, SameOutside, IsTagged-frame, write-IsTagged, write-SameOutside,
}
use nembus_os.Kheap.Alloc.{
  block_size, user_size, with_mem, insert_index, write_rest, write_block, take_hole,
}

-- The state after the hole of `orig` bytes at `pos` has given up `taken` bytes, with the holes
-- `xs` left in the index.
pub record HasSplit {P : Type 0} (lt : LessThan) (pos taken orig : ℕ) (xs : List ℕ) (s s' : State P)
    : Type 0 where
  pub block : IsTagged s'.mem pos 0 taken
  pub rest :
      ((orig ≡ taken) × Holds lt s'.heap.index xs)
      ⊎ (IsTagged s'.mem (pos + taken) 1 (orig - taken)
          × Holds lt s'.heap.index (insert_sorted (lt s'.mem) (pos + taken) xs))
  pub same : SameOutside pos orig s.mem s'.mem
  pub bounds : s'.heap ≡ record (s.heap) { index = s'.heap.index }
  pub pages : s'.pages ≡ s.pages
  pub capacity : s'.heap.index.max_size ≡ s.heap.index.max_size

module _ {P : Type 0} where
  insert_index-Holds :
      (lt : LessThan) (item : ℕ) (xs : List ℕ) (s : State P)
      → Holds lt s.heap.index xs
      → s.heap.index.size < s.heap.index.max_size
      → (index : OrderedArray) × (insert_index item s
          ≡ ok (record s { heap = record (s.heap) { index = index } }))
        × Holds lt index (insert_sorted (lt s.mem) item xs)
        × (index.max_size ≡ s.heap.index.max_size)
  insert_index-Holds lt item xs s h room =
      let (index, e, h', cap) = insert_ordered_array-Holds s.mem lt s.heap.index item xs h room in
      (index, rw e, h', cap)

  write_rest-none :
      (pos inner taken : ℕ) (s : State P)
      → taken < 2 ^ 32
      → write_rest pos inner taken taken s ≡ ok s
  unfolding write_rest
  write_rest-none pos inner taken s small =
      let none_left : sub32 taken taken ≡ 0 = omega arith in rw none_left

  write_rest-some :
      (pos inner taken orig : ℕ) (s : State P)
      → inner + 20 ≡ taken
      → taken + 20 ≤ orig
      → pos + orig ≤ s.heap.end_address
      → s.heap.end_address < 2 ^ 32
      → write_rest pos inner taken orig s
        ≡ insert_index (pos + taken) (
            with_mem s (
              write_footer
                (write_header s.mem (pos + taken) 1 (orig - taken))
                (pos + orig - 8)
                (pos + taken)))
  unfolding write_rest
  write_rest-some pos inner taken orig s e room fits small =
      let left : sub32 orig taken ≡ orig - taken = omega arith in
      let hole : add32 (add32 (add32 pos sizeof_header) inner) sizeof_footer ≡ pos + taken =
        omega arith in
      let foot : sub32 (add32 (pos + taken) (orig - taken)) sizeof_footer ≡ pos + orig - 8 =
        omega arith in
      rw (
        left,
        hole,
        foot,
        ne→== (orig - taken) 0 (omega arith),
        lt→ltb (pos + orig - 8) s.heap.end_address (omega arith),
      )

-- The block is written, and what is left of the hole.
module _ {P : Type 0} (lt : LessThan) (pos inner taken orig : ℕ) (xs : List ℕ) (s : State P)
    (e : inner + 20 ≡ taken) (split : (orig ≡ taken) ⊎ (taken + 20 ≤ orig))
    (fits : pos + orig ≤ s.heap.end_address) (small : s.heap.end_address < 2 ^ 32)
    (held : Holds lt s.heap.index xs) (room : s.heap.index.size < s.heap.index.max_size) where
  block_mem : Memory
  block_mem =
      write_footer (write_header s.mem pos 0 taken) (add32 (add32 pos sizeof_header) inner) pos

  block_mem-IsTagged : IsTagged block_mem pos 0 taken
  unfolding block_mem
  block_mem-IsTagged =
      write-IsTagged s.mem pos 0 taken (add32 (add32 pos sizeof_header) inner) (omega arith)
        (omega arith) (omega arith) (omega arith) (omega arith)

  block_mem-SameOutside : SameOutside pos taken s.mem block_mem
  unfolding block_mem
  block_mem-SameOutside =
      write-SameOutside s.mem pos 0 taken (add32 (add32 pos sizeof_header) inner) (omega arith)
        (omega arith) (omega arith) (omega arith) (omega arith)

  write_block-whole :
      orig ≡ taken
      → (s' : State P) × (write_block pos inner taken orig s ≡ ok (s', add32 pos sizeof_header))
        × HasSplit lt pos taken orig xs s s'
  unfolding write_block block_mem
  write_block-whole whole = (
    with_mem s block_mem,
    rw (whole, write_rest-none pos inner taken (with_mem s block_mem) (omega arith)),
    record {
      block = block_mem-IsTagged;
      rest = inl (whole, held);
      same = λ p out. block_mem-SameOutside p (omega arith);
      bounds = refl;
      pages = refl;
      capacity = refl;
    },
  )

  rest_mem : Memory
  rest_mem =
      write_footer (write_header block_mem (pos + taken) 1 (orig - taken)) (pos + orig - 8)
        (pos + taken)

  rest_mem-SameOutside :
      taken + 20 ≤ orig → SameOutside (pos + taken) (orig - taken) block_mem rest_mem
  unfolding rest_mem
  rest_mem-SameOutside more =
      write-SameOutside block_mem (pos + taken) 1 (orig - taken) (pos + orig - 8) (omega arith)
        (omega arith) (omega arith) (omega arith) (omega arith)

  rest_mem-IsTagged : taken + 20 ≤ orig → IsTagged rest_mem (pos + taken) 1 (orig - taken)
  unfolding rest_mem
  rest_mem-IsTagged more =
      write-IsTagged block_mem (pos + taken) 1 (orig - taken) (pos + orig - 8) (omega arith)
        (omega arith) (omega arith) (omega arith) (omega arith)

  write_block-rest :
      (s' : State P)
      → write_rest pos inner taken orig (with_mem s block_mem) ≡ ok s'
      → write_block pos inner taken orig s ≡ ok (s', add32 pos sizeof_header)
  unfolding write_block block_mem
  write_block-rest s' r = rw r

  rest_mem-written :
      taken + 20 ≤ orig
      → write_rest pos inner taken orig (with_mem s block_mem)
        ≡ insert_index (pos + taken) (with_mem s rest_mem)
  unfolding rest_mem
  rest_mem-written more =
      write_rest-some pos inner taken orig (with_mem s block_mem) e more fits small

  write_block-split :
      taken + 20 ≤ orig
      → (s' : State P) × (write_block pos inner taken orig s ≡ ok (s', add32 pos sizeof_header))
        × HasSplit lt pos taken orig xs s s'
  write_block-split more =
      let (index, done, held', cap) =
        insert_index-Holds lt (pos + taken) xs (with_mem s rest_mem) held room in
      (
        record s { mem = rest_mem; heap = record (s.heap) { index = index } },
        write_block-rest _ (rest_mem-written more ∙ done),
        record {
          block =
              IsTagged-frame (pos + taken) (orig - taken) block_mem-IsTagged
                (rest_mem-SameOutside more) (omega arith);
          rest = inr (rest_mem-IsTagged more, held');
          same = λ p out.
              rest_mem-SameOutside more p (omega arith) ∙ block_mem-SameOutside p (omega arith);
          bounds = refl;
          pages = refl;
          capacity = cap;
        },
      )

  write_block-HasSplit :
      (s' : State P) × (write_block pos inner taken orig s ≡ ok (s', add32 pos sizeof_header))
      × HasSplit lt pos taken orig xs s s'
  write_block-HasSplit = elim split [
    | inl whole ↦ write_block-whole whole
    | inr more ↦ write_block-split more
  ]

-- `alloc` without alignment, once its search has found a hole that is large enough.
module _ {P : Type 0} (lt : LessThan) (s : State P) (xs : List ℕ) (iterator pos orig size : ℕ)
    (held : Holds lt s.heap.index xs) (inside : iterator < s.heap.index.size)
    (at : lookup_ordered_array iterator s.heap.index ≡ ok pos) (big : get_size s.mem pos ≡ orig)
    (enough : size + 20 ≤ orig) (fits : pos + orig ≤ s.heap.end_address)
    (small : s.heap.end_address < 2 ^ 32) (room : s.heap.index.size < s.heap.index.max_size)
    (words : s.heap.index.max_size < 2 ^ 32) where
  abbrev pub taken : ℕ
  taken = block_size orig (size + 20)

  taken-split : (orig ≡ taken) ⊎ (taken + 20 ≤ orig)
  taken-split = elim (Bool-cases (ltb (sub32 orig (size + 20)) 20)) [
    | inl tight ↦ inl (rw tight)
    | inr wide ↦ inr (rw wide (omega (arith, ltb→le (sub32 orig (size + 20)) 20 wide)))
  ]

  inner-taken : user_size orig (size + 20) size + 20 ≡ taken
  inner-taken = elim (Bool-cases (ltb (sub32 orig (size + 20)) 20)) [
    | inl tight ↦ rw tight (omega arith)
    | inr wide ↦ rw wide
  ]

  take_hole-found :
      (index : OrderedArray)
      → remove_ordered_array iterator s.heap.index ≡ ok index
      → take_hole iterator size (size + 20) 0 s
        ≡ write_block pos
            (user_size orig (size + 20) size)
            taken
            orig
            (record s { heap = record (s.heap) { index = index } })
  unfolding take_hole
  take_hole-found index gone = rw (at, gone, big)

  -- The block is written into the hole, what is left of it becomes a hole again or goes to the
  -- block, and nothing outside the hole changes.
  pub take_hole-HasSplit :
      (s' : State P) × (take_hole iterator size (size + 20) 0 s ≡ ok (s', add32 pos sizeof_header))
      × HasSplit lt pos taken orig (remove_at iterator xs) s s'
  take_hole-HasSplit =
      let (index, gone, held', cap) =
        remove_ordered_array-Holds lt s.heap.index iterator xs held inside room words in
      let fewer = length-remove_at iterator xs (omega (arith, held.count)) in
      let (s', done, split) =
        write_block-HasSplit lt pos (user_size orig (size + 20) size) taken orig
          (remove_at iterator xs) (record s { heap = record (s.heap) { index = index } })
          inner-taken taken-split fits small held'
          (omega (arith, held.count, held'.count, fewer, cap)) in
      (
        s',
        take_hole-found index gone ∙ done,
        record {
          block = split.block;
          rest = split.rest;
          same = split.same;
          bounds = split.bounds;
          pages = split.pages;
          capacity = split.capacity ∙ cap;
        },
      )
