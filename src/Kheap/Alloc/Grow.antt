-- ===== src/Kheap/Alloc/Grow.antt =====
-- `alloc` where no hole is large enough: the heap grows, and the hole at the highest address with
-- it.
use nembus_os.Base.{
  All, ℕ, suc, ◌+◌, ◌-◌, ◌*◌, ◌/◌, subst, sym, ◌<◌, ◌≤◌, ◌≡◌, refl, ◌∙◌, ap, Option, none, some,
  List, get_elem?, arith, leb→le, le→leb,
}
use nembus_os.Base.Words.{add32, sub32}
use nembus_os.Base.Outcome.{ok}
use nembus_os.OrderedArray.Spec.{remove_at}
use nembus_os.Kheap.{
  Heap, PageOps, State, page_size, sizeof_header, get_size, header_t_less_than, round_page,
}
use nembus_os.Kheap.Blocks.{
  IsTagged, IsHeaded, get_size-IsHeaded, grown, grown-IsHeaded, grown-SameOutside,
}
use nembus_os.Kheap.Holes.{IsHole, All-at, All-restore, remove_at-Shape, kept-Shape}
use nembus_os.Kheap.Resize.{expand}
use nembus_os.Kheap.Resize.Ends.{Backs, HasMapped, expanded, expand-end}
use nembus_os.Kheap.Rounding.{round_page-le}
use nembus_os.Kheap.Search.{find_smallest_hole, hole_fits, search_last}
use nembus_os.Kheap.Search.BestFit.{
  find_smallest_hole-first_fit, BestFit, find_smallest_hole-BestFit,
}
use nembus_os.Kheap.Search.Last.{Highest, search_last-found}
use nembus_os.Kheap.Alloc.{with_mem, grow, alloc, block_size}
use nembus_os.Kheap.Alloc.Split.{take_hole-HasSplit}
use nembus_os.Kheap.Alloc.Best.{alloc-found, lookup-at, index-lt}
use nembus_os.Kheap.Alloc.Invariant.{IsWell, shape_of, block_size-bounds}
use nembus_os.Kheap.Alloc.Growth.{extend_last-grown, highest-Clear, first_fit-some, alloc-grown}

-- What growing the heap leaves of `s`: the highest hole `h` has `sz` bytes.
abbrev pub after_growth : {P : Type 0} → State P → (size h sz : ℕ) → P → State P
after_growth s size h sz pages = with_mem (expanded s size pages) (grown s.mem h sz)

module _ {P : Type 0} (ops : PageOps P) (Region : ℕ → Type 0) (Room : ℕ → P → Type 0)
    (mapped : P → ℕ → ℕ) (backs : Backs ops Region Room mapped) (s : State P) (xs : List ℕ)
    (size j g : ℕ) (well : IsWell s xs) (at : get_elem? xs j ≡ some g) (not_null : 0 < g)
    (order : s.heap.start_address ≤ s.heap.end_address) (few : size + 20 < 0x100000000)
    (fits : round_page (s.heap.end_address - s.heap.start_address + (size + 20)) < 0xFFFFF000)
    (sum : s.heap.end_address - s.heap.start_address + (size + 20) < 0xFFFFF000)
    (under : s.heap.start_address
        + round_page (s.heap.end_address - s.heap.start_address + (size + 20))
      ≤ s.heap.max_address)
    (max : s.heap.max_address < 0x100000000)
    (region : (q : ℕ)
      → s.heap.end_address - s.heap.start_address ≤ q
      → q < round_page (s.heap.end_address - s.heap.start_address + (size + 20))
      → Region (s.heap.start_address + q))
    (n : ℕ)
    (count : round_page (s.heap.end_address - s.heap.start_address + (size + 20))
      ≤ s.heap.end_address - s.heap.start_address + page_size * n)
    (least : n
      ≤ round_page (s.heap.end_address - s.heap.start_address + (size + 20)) / page_size + 1)
    (room : Room n s.pages) where
  open well use {ready}

  abbrev pub old_size : ℕ
  old_size = s.heap.end_address - s.heap.start_address

  -- The new size of the heap.
  abbrev target : ℕ
  target = round_page (old_size + (size + 20))

  long_enough : old_size + (size + 20) ≤ target
  long_enough = round_page-le (old_size + (size + 20)) sum

  highest :
      (k h : ℕ) × (search_last s.heap.index 0 s.heap.index.size none 0 ≡ ok (some k))
      × (get_elem? xs k ≡ some h)
      × All (λ y. y ≤ h) xs
  highest =
      let (r, v, found, high) = search_last-found header_t_less_than s.heap.index xs ready.held in
      choose r v found high
    where
      choose :
          (r : Option ℕ) (v : ℕ)
          → search_last s.heap.index 0 s.heap.index.size none 0 ≡ ok r
          → Highest xs xs r v
          → (k h : ℕ) × (search_last s.heap.index 0 s.heap.index.size none 0 ≡ ok (some k))
            × (get_elem? xs k ≡ some h)
            × All (λ y. y ≤ h) xs
      choose none v found high = absurd (omega (arith, All-at (λ y. y ≤ 0) xs j g high.1 at))
      choose (some k) v found high = (k, v, found, high.0, high.1)

  -- In a well-formed heap with a hole, which may grow, where page tables are there for the new pages,
  -- and frames, the growth of `alloc` succeeds: every new page gets a frame, all other pages are as
  -- they were, and the hole at the highest address takes all the new room, wherever it ends.
  pub grow-highest :
      (k h : ℕ) × (pages : P) × (get_elem? xs k ≡ some h)
      × All (λ y. y ≤ h) xs
      × (grow ops (size + 20) s
          ≡ ok (after_growth s target h (get_size s.mem h + (target - old_size)) pages))
      × HasMapped mapped s.heap.start_address old_size target s.pages pages
  unfolding grow
  grow-highest =
      let (k, h, found, at_k, high) = highest in
      let hole = All-at (IsHole s) xs k h ready.holes at_k in
      let (pages, wide, has) =
        expand-end ops Region Room mapped backs s (old_size + (size + 20)) n order ready.end
          (omega arith) fits under max region count least room in
      (k, h, pages, at_k, high, grow-step k h pages found at_k hole wide, has)
    where
      grow-step :
          (k h : ℕ) (pages : P)
          → search_last s.heap.index 0 s.heap.index.size none 0 ≡ ok (some k)
          → get_elem? xs k ≡ some h
          → IsHole s h
          → expand ops (old_size + (size + 20)) s ≡ ok (expanded s target pages)
          → grow ops (size + 20) s
            ≡ ok (after_growth s target h (get_size s.mem h + (target - old_size)) pages)
      grow-step k h pages found at_k hole wide =
          let length : sub32 s.heap.end_address s.heap.start_address ≡ old_size =
            omega (arith, ready.end) in
          let wanted : add32 old_size (size + 20) ≡ old_size + (size + 20) = omega arith in
          rw (length, wanted, wide)
            (extend_last-grown (expanded s target pages) xs k h ready.held at_k found
              s.heap.end_address old_size target (get_size s.mem h + (target - old_size))
              (omega (arith, long_enough)) (omega (arith, long_enough, hole.1))
              (omega (arith, long_enough, hole.1)) (omega arith))

  -- The state that `alloc` finds when it calls itself.
  module _ (k h : ℕ) (pages : P) (at_k : get_elem? xs k ≡ some h) (high : All (λ y. y ≤ h) xs) where
    abbrev sz : ℕ
    sz = get_size s.mem h + (target - old_size)

    abbrev after : State P
    after = after_growth s target h sz pages

    hole_at : IsHole s h
    hole_at = All-at (IsHole s) xs k h ready.holes at_k

    end_fits : h + sz ≤ s.heap.start_address + target
    end_fits = let inside = hole_at.1 in omega (arith, long_enough)

    after-IsHeaded : IsHeaded after.mem h 1 sz
    after-IsHeaded =
        grown-IsHeaded s.mem h 1 (get_size s.mem h) sz hole_at.0 (omega arith)
          (omega (arith, end_fits)) (omega (arith, end_fits))

    after-size : get_size after.mem h ≡ sz
    after-size = get_size-IsHeaded after.mem h 1 sz after-IsHeaded

    after-IsHole : All (IsHole after) xs
    after-IsHole =
        let (shape, apart) = remove_at-Shape s k h xs at_k (shape_of well) in
        let kept =
          kept-Shape s after (remove_at k xs) h sz shape (highest-Clear s xs k h sz well at_k high)
            (grown-SameOutside s.mem h 1 (get_size s.mem h) sz hole_at.0 (omega arith)
              (omega (arith, end_fits)) (omega (arith, end_fits)))
            (omega (arith, long_enough)) in
        All-restore (IsHole after) xs k h at_k
          (rw after-size after-IsHeaded, omega (arith, after-size, end_fits)) kept.holes

    after-found :
        (i e : ℕ) × (find_smallest_hole after.mem after.heap.index (size + 20) 0 ≡ ok (some i))
        × (get_elem? xs i ≡ some e)
        × (size + 20 ≤ get_size after.mem e)
    unfolding hole_fits
    after-found =
        let (i, e, first, at_i, fits_e) =
          first_fit-some (hole_fits after.mem (size + 20) 0) xs k h at_k
            (le→leb (size + 20) (get_size after.mem h) (omega (arith, after-size, long_enough))) in
        (
          i,
          e,
          find_smallest_hole-first_fit after.mem header_t_less_than after.heap.index xs ready.held
                (size + 20) 0
              ∙ ap ok first,
          at_i,
          leb→le (size + 20) (get_size after.mem e) fits_e,
        )

    after-taken :
        (fuel : ℕ)
        → (s' : State P) × (e n : ℕ) × (alloc ops (suc fuel) size 0 after
            ≡ ok (s', add32 e sizeof_header))
          × IsTagged s'.mem e 0 n
          × (size + 20 ≤ n)
          × (e + n ≤ s.heap.start_address + target)
          × (s'.heap.end_address ≡ s.heap.start_address + target)
          × (s'.pages ≡ pages)
    after-taken fuel =
        let (i, e, found, at_i, fits_e) = after-found in
        let hole = All-at (IsHole after) xs i e after-IsHole at_i in
        let (s', done, split) =
          take_hole-HasSplit header_t_less_than after xs i e (get_size after.mem e) size ready.held
            (omega (arith, ready.held.count, index-lt xs i e at_i))
            (lookup-at header_t_less_than after.heap.index xs i e ready.held at_i) refl fits_e
            hole.1 (omega arith) ready.room ready.words in
        let (room, part) =
          block_size-bounds (get_size after.mem e) (size + 20) (omega (arith, hole.1)) fits_e in
        (
          s',
          e,
          block_size (get_size after.mem e) (size + 20),
          alloc-found ops after fuel size i few found ∙ done,
          split.block,
          room,
          omega (arith, hole.1, part),
          ap (λ (heap : Heap). heap.end_address) split.bounds,
          split.pages,
        )

  find-none :
      All (λ y. get_size s.mem y < size + 20) xs
      → find_smallest_hole s.mem s.heap.index (size + 20) 0 ≡ ok none
  find-none none_fits =
      let (r, found, best) =
        find_smallest_hole-BestFit s.mem s.heap.index xs (size + 20) ready.held ready.sorted in
      choose r found best
    where
      choose :
          (r : Option ℕ)
          → find_smallest_hole s.mem s.heap.index (size + 20) 0 ≡ ok r
          → BestFit s.mem (size + 20) xs r
          → find_smallest_hole s.mem s.heap.index (size + 20) 0 ≡ ok none
      choose none found best = found
      choose (some i) found (e, at_i, fits_i, least) =
          absurd (omega (arith, All-at (λ y. get_size s.mem y < size + 20) xs i e none_fits at_i))

  -- In a well-formed heap with a hole, where no hole is large enough, the heap may grow, and page
  -- tables are there for the new pages, and frames, so that paging does not need the heap, `alloc`
  -- without alignment needs to call itself only once: the heap gets the size of the old heap and the
  -- block together, rounded up; every new page has a frame, and all other pages are as they were;
  -- and the result is a block in use of at least the size asked for, its tags included, inside the
  -- heap.
  pub alloc-grows :
      All (λ y. get_size s.mem y < size + 20) xs
      → (fuel : ℕ)
      → (s' : State P) × (e n : ℕ) × (alloc ops (suc (suc fuel)) size 0 s
          ≡ ok (s', add32 e sizeof_header))
        × IsTagged s'.mem e 0 n
        × (size + 20 ≤ n)
        × (e + n ≤ s'.heap.end_address)
        × (s'.heap.end_address ≡ s.heap.start_address + target)
        × HasMapped mapped s.heap.start_address old_size target s.pages s'.pages
  alloc-grows none_fits fuel =
      let (k, h, pages, at_k, high, grew, has) = grow-highest in
      let (s', e, n, done, block, large, inside, end, same) =
        after-taken k h pages at_k high fuel in
      (
        s',
        e,
        n,
        alloc-grown ops s (after k h pages at_k high) (suc fuel) size few (find-none none_fits) grew
            ∙ done,
        block,
        large,
        omega (arith, inside, end),
        end,
        subst (HasMapped mapped s.heap.start_address old_size target s.pages) (sym same) has,
      )
