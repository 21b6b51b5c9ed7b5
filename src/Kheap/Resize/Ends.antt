-- ===== src/Kheap/Resize/Ends.antt =====
-- Where `expand` and `contract` put the end of the heap, and that their loops end.
use nembus_os.Base.{
  ℕ, zero, suc, ◌+◌, ◌-◌, ◌*◌, ◌/◌, ◌%◌, ◌^◌, ◌<◌, ◌≤◌, ◌≡◌, ◌≢◌, refl, sym, ltb→le, ◌∙◌, ap,
  Bool-cases, ltb, ltb→lt, lt→ltb, le→ltb, le→leb, if◌then◌else◌, ◌==◌, arith, inl, inr, bit_and,
}
use nembus_os.Base.BitAt.{bit_at, bit_and-pow}
use nembus_os.Base.Words.{add32, sub32}
use nembus_os.Base.Outcome.{ok}
use nembus_os.Kheap.{Heap, PageOps, State, page_size, heap_min_size, round_page}
use nembus_os.Kheap.Resize.{map_range, expand, unmap_range, contracted_size, contract}

-- What the heap needs of paging. In the region, which is where page tables are, `map_page` gives a
-- page a frame while there is room for more, with no call of the heap, and `unmap_page` takes a
-- page's frame away; both leave all other pages as they were. `mapped` is the frame of an address, 0 for none, and `Room n` says
-- that frames are there for `n` more pages.
pub record Backs {P : Type 0} (ops : PageOps P) (Region : ℕ → Type 0) (Room : ℕ → P → Type 0)
    (mapped : P → ℕ → ℕ) : Type 0 where
  pub maps :
      (address is_kernel is_writeable n : ℕ) (s : State P)
      → Region address
      → Room (suc n) s.pages
      → (p' : P) × (ops.map_page address is_kernel is_writeable s ≡ ok (record s { pages = p' }))
        × Room n p'
        × (mapped p' address ≢ 0)
        × ((b : ℕ)
            → b < 2 ^ 32
            → b / page_size ≢ address / page_size
            → mapped p' b ≡ mapped s.pages b)
  pub unmaps :
      (address : ℕ) (p : P)
      → Region address
      → Room 0 p
      → (p' : P) × (ops.unmap_page address p ≡ ok p')
        × Room 0 p'
        × (mapped p' address ≡ 0)
        × ((b : ℕ) → b < 2 ^ 32 → b / page_size ≢ address / page_size → mapped p' b ≡ mapped p b)

-- The pages from `old` up to `new` bytes behind `start` have frames, and all others are as before.
pub record HasMapped {P : Type 0} (mapped : P → ℕ → ℕ) (start old new : ℕ) (p p' : P) : Type 0 where
  pub there : (j : ℕ) → old + page_size * j < new → mapped p' (start + (old + page_size * j)) ≢ 0
  pub same :
      (b : ℕ)
      → b < 2 ^ 32
      → ((j : ℕ)
          → old + page_size * j < new
          → b / page_size ≢ (start + (old + page_size * j)) / page_size)
      → mapped p' b ≡ mapped p b

-- The pages from `top` down to above `new` bytes behind `start` have no frames, and all others are
-- as before.
pub record HasUnmapped {P : Type 0} (mapped : P → ℕ → ℕ) (start new top : ℕ) (p p' : P)
    : Type 0 where
  pub gone : (j : ℕ) → new + page_size * j < top → mapped p' (start + (top - page_size * j)) ≡ 0
  pub same :
      (b : ℕ)
      → b < 2 ^ 32
      → ((j : ℕ)
          → new + page_size * j < top
          → b / page_size ≢ (start + (top - page_size * j)) / page_size)
      → mapped p' b ≡ mapped p b

-- What `expand` and `contract` leave: the end has moved, and the pages have changed.
abbrev pub expanded : {P : Type 0} → State P → (size : ℕ) → P → State P
expanded s size pages = record s {
  heap = record (s.heap) { end_address = s.heap.start_address + size };
  pages = pages;
}

module _ {P : Type 0} (ops : PageOps P) (Region : ℕ → Type 0) (Room : ℕ → P → Type 0)
    (mapped : P → ℕ → ℕ) (backs : Backs ops Region Room mapped) where
  open backs use {maps, unmaps}

  HasMapped-none : (start old new : ℕ) (p : P) → new ≤ old → HasMapped mapped start old new p p
  HasMapped-none start old new p full = record {
    there = λ j low. absurd (omega arith);
    same = λ b low away. refl;
  }

  -- One page more in front.
  HasMapped-step :
      (start old new : ℕ) (p p1 p2 : P)
      → old < new
      → start + new < 2 ^ 32
      → mapped p1 (start + old) ≢ 0
      → ((b : ℕ)
          → b < 2 ^ 32
          → b / page_size ≢ (start + old) / page_size
          → mapped p1 b ≡ mapped p b)
      → HasMapped mapped start (old + page_size) new p1 p2
      → HasMapped mapped start old new p p2
  HasMapped-step start old new p p1 p2 below small here others rest = record {
    there = there;
    same = λ b low away.
        let first : start + (old + page_size * 0) ≡ start + old = omega arith in
        let apart : b / page_size ≢ (start + old) / page_size =
          λ e. away 0 (omega arith) (e ∙ ap (λ (a : ℕ). a / page_size) (sym first)) in
        rest.same b low (λ j inside e.
          let next : start + (old + page_size + page_size * j) ≡ start + (old + page_size * suc j) =
            omega arith in
          away (suc j) (omega arith) (e ∙ ap (λ (a : ℕ). a / page_size) next))
        ∙ others b low apart;
  }
    where
      there : (j : ℕ) → old + page_size * j < new → mapped p2 (start + (old + page_size * j)) ≢ 0
      there zero low e =
          let first : start + (old + page_size * 0) ≡ start + old = omega arith in
          let kept = rest.same (start + old) (omega arith) (λ j inside. omega arith) in
          here (sym kept ∙ ap (mapped p2) (sym first) ∙ e)
      there (suc j) low e =
          let next : start + (old + page_size + page_size * j) ≡ start + (old + page_size * suc j) =
            omega arith in
          rest.there j (omega arith) (ap (mapped p2) next ∙ e)

  map_range-step :
      (fuel i new_size : ℕ) (s s1 : State P)
      → i < new_size
      → s.heap.start_address + new_size < 2 ^ 32
      → i + page_size < 2 ^ 32
      → ops.map_page
          (s.heap.start_address + i)
          (if s.heap.supervisor == 0 then 0 else 1)
          (if s.heap.readonly == 0 then 1 else 0)
          s
        ≡ ok s1
      → map_range ops (suc fuel) i new_size s ≡ map_range ops fuel (i + page_size) new_size s1
  unfolding map_range
  map_range-step fuel i new_size s s1 below under small one =
      let next : add32 i page_size ≡ i + page_size = omega arith in
      let place : add32 s.heap.start_address i ≡ s.heap.start_address + i = omega arith in
      rw (next, lt→ltb i new_size below, place, one) refl

  map_range-ends :
      (n k i new_size : ℕ) (s : State P)
      → new_size ≤ i + page_size * n
      → n ≤ k
      → new_size < 0xFFFFF000
      → s.heap.start_address + new_size < 2 ^ 32
      → ((q : ℕ) → i ≤ q → q < new_size → Region (s.heap.start_address + q))
      → Room n s.pages
      → (p' : P) × (map_range ops (suc k) i new_size s ≡ ok (record s { pages = p' }))
        × HasMapped mapped s.heap.start_address i new_size s.pages p'
  unfolding map_range
  map_range-ends zero k i new_size s enough fuel small under region room = (
    s.pages,
    rw (le→ltb i new_size (omega arith)) refl,
    HasMapped-none s.heap.start_address i new_size s.pages (omega arith),
  )
  map_range-ends (suc n) zero i new_size s enough fuel small under region room =
      absurd (omega arith)
  map_range-ends (suc n) (suc k) i new_size s enough fuel small under region room =
      elim (Bool-cases (ltb i new_size)) [
        | inl below ↦
            let low = ltb→lt i new_size below in
            let (p1, one, left, here, others) =
              maps (s.heap.start_address + i) (if s.heap.supervisor == 0 then 0 else 1)
                (if s.heap.readonly == 0 then 1 else 0) n s (region i (omega arith) low) room in
            let s1 = record s { pages = p1 } in
            let (p2, rest, has) =
              map_range-ends n k (i + page_size) new_size s1 (omega arith) (omega arith) small under
                (λ q from to. region q (omega arith) to) left in
            (
              p2,
              map_range-step (suc k) i new_size s s1 low under (omega arith) one ∙ rest,
              HasMapped-step s.heap.start_address i new_size s.pages p1 p2 low under here others
                  has,
            )
        | inr above ↦ (
          s.pages,
          rw above refl,
          HasMapped-none s.heap.start_address i new_size s.pages (ltb→le i new_size above),
        )
      ]

  HasUnmapped-none : (start new top : ℕ) (p : P) → top ≤ new → HasUnmapped mapped start new top p p
  HasUnmapped-none start new top p full = record {
    gone = λ j low. absurd (omega arith);
    same = λ b low away. refl;
  }

  HasUnmapped-step :
      (start new top : ℕ) (p p1 p2 : P)
      → new < top
      → page_size ≤ new
      → start + top < 2 ^ 32
      → mapped p1 (start + top) ≡ 0
      → ((b : ℕ)
          → b < 2 ^ 32
          → b / page_size ≢ (start + top) / page_size
          → mapped p1 b ≡ mapped p b)
      → HasUnmapped mapped start new (top - page_size) p1 p2
      → HasUnmapped mapped start new top p p2
  HasUnmapped-step start new top p p1 p2 above large small here others rest = record {
    gone = gone;
    same = λ b low away.
        let first : start + (top - page_size * 0) ≡ start + top = omega arith in
        let apart : b / page_size ≢ (start + top) / page_size =
          λ e. away 0 (omega arith) (e ∙ ap (λ (a : ℕ). a / page_size) (sym first)) in
        rest.same b low (λ j inside e.
          let next : start + (top - page_size - page_size * j) ≡ start + (top - page_size * suc j) =
            omega arith in
          away (suc j) (omega arith) (e ∙ ap (λ (a : ℕ). a / page_size) next))
        ∙ others b low apart;
  }
    where
      gone : (j : ℕ) → new + page_size * j < top → mapped p2 (start + (top - page_size * j)) ≡ 0
      gone zero low =
          let first : start + (top - page_size * 0) ≡ start + top = omega arith in
          ap (mapped p2) first ∙ rest.same (start + top) small (λ j inside. omega arith) ∙ here
      gone (suc j) low =
          let next : start + (top - page_size * suc j) ≡ start + (top - page_size - page_size * j) =
            omega arith in
          ap (mapped p2) next ∙ rest.gone j (omega arith)

  unmap_range-step :
      (fuel : ℕ) (heap : Heap) (new_size i : ℕ) (p p1 : P)
      → new_size < i
      → page_size ≤ new_size
      → heap.start_address + i < 2 ^ 32
      → ops.unmap_page (heap.start_address + i) p ≡ ok p1
      → unmap_range ops (suc fuel) heap new_size i p
        ≡ unmap_range ops fuel heap new_size (i - page_size) p1
  unfolding unmap_range
  unmap_range-step fuel heap new_size i p p1 above large small one =
      let next : sub32 i page_size ≡ i - page_size = omega arith in
      let place : add32 heap.start_address i ≡ heap.start_address + i = omega arith in
      rw (next, lt→ltb new_size i above, place, one) refl

  unmap_range-ends :
      (k : ℕ) (heap : Heap) (new_size i : ℕ) (p : P)
      → i ≤ new_size + page_size * k
      → page_size ≤ new_size
      → heap.start_address + i < 2 ^ 32
      → ((q : ℕ) → new_size < q → q ≤ i → Region (heap.start_address + q))
      → Room 0 p
      → (p' : P) × (unmap_range ops (suc k) heap new_size i p ≡ ok p')
        × HasUnmapped mapped heap.start_address new_size i p p'
  unfolding unmap_range
  unmap_range-ends zero heap new_size i p enough large small region room = (
    p,
    rw (le→ltb new_size i (omega arith)) refl,
    HasUnmapped-none heap.start_address new_size i p (omega arith),
  )
  unmap_range-ends (suc k) heap new_size i p enough large small region room =
      elim (Bool-cases (ltb new_size i)) [
        | inl above ↦
            let high = ltb→lt new_size i above in
            let (p1, one, left, here, others) =
              unmaps (heap.start_address + i) p (region i high (omega arith)) room in
            let (p2, rest, has) =
              unmap_range-ends k heap new_size (i - page_size) p1 (omega (arith, high)) large
                (omega arith) (λ q from to. region q from (omega arith)) left in
            (
              p2,
              unmap_range-step (suc k) heap new_size i p p1 high large small one ∙ rest,
              HasUnmapped-step heap.start_address new_size i p p1 p2 high large small here others
                  has,
            )
        | inr below ↦ (
          p,
          rw below refl,
          HasUnmapped-none heap.start_address new_size i p (ltb→le new_size i below),
        )
      ]

  expand-step :
      (s : State P) (new_size k : ℕ) (pages : P)
      → s.heap.start_address ≤ s.heap.end_address
      → s.heap.end_address < 0x100000000
      → s.heap.end_address - s.heap.start_address < new_size
      → s.heap.start_address + round_page new_size ≤ s.heap.max_address
      → s.heap.max_address < 0x100000000
      → round_page new_size / page_size + 2 ≡ suc k
      → map_range ops (suc k) (s.heap.end_address - s.heap.start_address) (round_page new_size) s
        ≡ ok (record s { pages = pages })
      → expand ops new_size s ≡ ok (expanded s (round_page new_size) pages)
  unfolding expand
  expand-step s new_size k pages order small grows under max fuel done =
      let length : sub32 s.heap.end_address s.heap.start_address
          ≡ s.heap.end_address - s.heap.start_address =
        omega arith in
      let end : add32 s.heap.start_address (round_page new_size)
          ≡ s.heap.start_address + round_page new_size =
        omega arith in
      rw
        (
          length,
          lt→ltb (s.heap.end_address - s.heap.start_address) new_size grows,
          end,
          le→leb (s.heap.start_address + round_page new_size) s.heap.max_address under,
          fuel,
          done,
        )
        (ap (λ (e : ℕ). ok (record s { heap = record (s.heap) { end_address = e }; pages = pages }))
          end)

  -- Where page tables are there for the new pages, and frames, `expand` to a larger size succeeds
  -- if the rounded size fits the heap's maximum: every new page gets a frame, all other pages are as
  -- they were, the heap then has that size, and memory and index are as they were.
  pub expand-end :
      (s : State P) (new_size n : ℕ)
      → s.heap.start_address ≤ s.heap.end_address
      → s.heap.end_address < 0x100000000
      → s.heap.end_address - s.heap.start_address < new_size
      → round_page new_size < 0xFFFFF000
      → s.heap.start_address + round_page new_size ≤ s.heap.max_address
      → s.heap.max_address < 0x100000000
      → ((q : ℕ)
          → s.heap.end_address - s.heap.start_address ≤ q
          → q < round_page new_size
          → Region (s.heap.start_address + q))
      → round_page new_size ≤ s.heap.end_address - s.heap.start_address + page_size * n
      → n ≤ round_page new_size / page_size + 1
      → Room n s.pages
      → (pages : P) × (expand ops new_size s ≡ ok (expanded s (round_page new_size) pages))
        × HasMapped mapped s.heap.start_address
            (s.heap.end_address - s.heap.start_address)
            (round_page new_size)
            s.pages
            pages
  expand-end s new_size n order small grows fits under max region count few room =
      let k = round_page new_size / page_size + 1 in
      let (pages, done, has) =
        map_range-ends n k (s.heap.end_address - s.heap.start_address) (round_page new_size) s count
          few fits (omega arith) region room in
      (pages, expand-step s new_size k pages order small grows under max (omega arith) done, has)

-- The size that `contract` settles on: an odd number of whole pages counts for nothing, and a size
-- below the minimum is raised to it.
abbrev pub settled : ℕ → ℕ
settled n =
    if n / page_size % 2 == 1
    then heap_min_size
    else if ltb n heap_min_size
    then heap_min_size
    else n

page_bit : (n : ℕ) → bit_and n 0x1000 ≡ n / page_size % 2 * page_size
unfolding bit_at
page_bit n = omega (arith, bit_and-pow n 12)

settled-large : (n : ℕ) → page_size ≤ settled n
settled-large n = ground arith

module _ {P : Type 0} (ops : PageOps P) (Region : ℕ → Type 0) (Room : ℕ → P → Type 0)
    (mapped : P → ℕ → ℕ) (backs : Backs ops Region Room mapped) where
  contracted_size-settled : (n : ℕ) → contracted_size ops n ≡ settled n
  unfolding contracted_size
  contracted_size-settled n = ground (arith, page_bit n)

  contract-step :
      (s : State P) (new_size k : ℕ) (pages : P)
      → s.heap.start_address ≤ s.heap.end_address
      → s.heap.end_address < 0x100000000
      → page_size ≤ s.heap.end_address - s.heap.start_address
      → new_size < s.heap.end_address - s.heap.start_address
      → s.heap.start_address + settled new_size < 0x100000000
      → (s.heap.end_address - s.heap.start_address) / page_size + 2 ≡ suc k
      → unmap_range ops
          (suc k)
          s.heap
          (settled new_size)
          (s.heap.end_address - s.heap.start_address - page_size)
          s.pages
        ≡ ok pages
      → contract ops new_size s ≡ ok (expanded s (settled new_size) pages, settled new_size)
  unfolding contract
  contract-step s new_size k pages order small page shrinks room fuel done =
      let length : sub32 s.heap.end_address s.heap.start_address
          ≡ s.heap.end_address - s.heap.start_address =
        omega arith in
      let end : add32 s.heap.start_address (settled new_size)
          ≡ s.heap.start_address + settled new_size =
        omega arith in
      let last : sub32 (s.heap.end_address - s.heap.start_address) page_size
          ≡ s.heap.end_address - s.heap.start_address - page_size =
        omega arith in
      rw (
        length,
        lt→ltb new_size (s.heap.end_address - s.heap.start_address) shrinks,
        contracted_size-settled new_size,
        end,
        last,
        fuel,
        done,
      )

  -- Where the pages to go have page tables, `contract` to a smaller size, of a heap of a page at
  -- least, succeeds and moves the end of the heap to the settled size. From the last page of the old
  -- heap down, the pages lose their frames, as long as they begin above the new end; all other pages,
  -- also the one that begins at the new end, are as they were, and so are memory and index.
  pub contract-end :
      (s : State P) (new_size : ℕ)
      → s.heap.start_address ≤ s.heap.end_address
      → s.heap.end_address < 0x100000000
      → page_size ≤ s.heap.end_address - s.heap.start_address
      → new_size < s.heap.end_address - s.heap.start_address
      → s.heap.start_address + heap_min_size < 0x100000000
      → ((q : ℕ)
          → settled new_size < q
          → q < s.heap.end_address - s.heap.start_address
          → Region (s.heap.start_address + q))
      → Room 0 s.pages
      → (pages : P) × (contract ops new_size s
          ≡ ok (expanded s (settled new_size) pages, settled new_size))
        × HasUnmapped mapped s.heap.start_address
            (settled new_size)
            (s.heap.end_address - s.heap.start_address - page_size)
            s.pages
            pages
  contract-end s new_size order small page shrinks least region room =
      let k = (s.heap.end_address - s.heap.start_address) / page_size + 1 in
      let (pages, done, has) =
        unmap_range-ends ops Region Room mapped backs k s.heap (settled new_size)
          (s.heap.end_address - s.heap.start_address - page_size) s.pages (omega arith)
          (settled-large new_size) (omega arith) (λ q from to. region q from (omega arith)) room in
      (
        pages,
        contract-step s new_size k pages order small page shrinks (ground arith) (omega arith) done,
        has,
      )

  -- So, with page tables for the pages to go, a smaller size of an odd number of whole pages, beyond
  -- the minimum, is cut down to the minimum: the heap then ends in front of the place that the caller
  -- gave, and the pages of the old heap that begin between the minimum and this place, which the
  -- caller wanted to keep, have lost their frames.
  pub contract_cuts :
      (s : State P) (new_size : ℕ)
      → s.heap.start_address ≤ s.heap.end_address
      → s.heap.end_address < 0x100000000
      → new_size < s.heap.end_address - s.heap.start_address
      → heap_min_size < new_size
      → new_size / page_size % 2 ≡ 1
      → ((q : ℕ)
          → heap_min_size < q
          → q < s.heap.end_address - s.heap.start_address
          → Region (s.heap.start_address + q))
      → Room 0 s.pages
      → (s' : State P) × (contract ops new_size s ≡ ok (s', heap_min_size))
        × (s'.heap.end_address ≡ s.heap.start_address + heap_min_size)
        × (s'.heap.end_address < s.heap.start_address + new_size)
        × ((q : ℕ)
            → heap_min_size < q
            → q < new_size
            → (s.heap.end_address - s.heap.start_address - q) % page_size ≡ 0
            → mapped s'.pages (s.heap.start_address + q) ≡ 0)
  contract_cuts s new_size order small shrinks large odd region room =
      let least : settled new_size ≡ heap_min_size = rw odd refl in
      let (pages, done, has) =
        contract-end s new_size order small (omega arith) shrinks (omega arith)
          (λ q from to. region q (omega (arith, least)) to) room in
      (
        expanded s heap_min_size pages,
        done ∙ ap (λ (n : ℕ). ok (expanded s n pages, n)) least,
        refl,
        omega arith,
        λ q low high whole.
            let j = (s.heap.end_address - s.heap.start_address - q) / page_size - 1 in
            let place : s.heap.end_address - s.heap.start_address - page_size - page_size * j ≡ q =
              omega arith in
            ap (λ (p : ℕ). mapped pages (s.heap.start_address + p)) (sym place)
            ∙ has.gone j (omega (arith, least)),
      )
