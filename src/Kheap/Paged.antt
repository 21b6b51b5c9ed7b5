-- ===== src/Kheap/Paged.antt =====
-- The paging of src/impl/paging.c behind the heap of src/impl/kheap.c: the calls of `get_page`,
-- `alloc_frame` and `free_frame` that `expand` and `contract` make. Only for a page table that is
-- missing does `get_page` call `kmalloc_ap`, which is a step of the heap.
pub mod Backing
use nembus_os.Base.{
  ℕ, zero, suc, ◌+◌, ◌*◌, ◌/◌, ◌%◌, ◌^◌, ◌<◌, ◌≤◌, ◌≡◌, ◌≢◌, ◌⊎◌, inl, inr, refl, sym, ap, ◌∙◌,
  arith, Option, none, some, ◌==◌, if◌then◌else◌, Bool-cases, ==→eq, ==→ne, eq→==, ne→==, length,
}
use nembus_os.Base.Outcome.{Outcome, ok, fault, ◌>>=◌}
use nembus_os.Paging.Frames.{Page, FrameSet, alloc_frame, free_frame}
use nembus_os.Paging.Frames.Bitmap.{is_used, Updates}
use nembus_os.Paging.Frames.Search.{IsFirstFree}
use nembus_os.Paging.Frames.Release.{
  IsFrameSet, alloc_frame-kept, alloc_frame-Updates, free_frame-Updates,
}
use nembus_os.Paging.Tables.{Directory, PageMemory, Entry, put_page, store_table, get_page}
use nembus_os.Paging.Tables.Lookup.{IsApart}
use nembus_os.Paging.Boot.{give_frame}
use nembus_os.Kheap.{PageOps, State, page_size}
use nembus_os.Kheap.Resize.Ends.{Backs}

-- `free_frame` on the entry that `get_page` has found.
unfoldable pub take_frame : Option Entry × Directory × PageMemory → Outcome (Directory × PageMemory)
take_frame (none, dir, m) = fault
take_frame (some e, dir, m) = free_frame (m.store e.table e.slot) m.frame_set >>= (λ result. ok (
  dir,
  store_table (record m { frame_set = result.1 }) e.table
      (put_page (m.store e.table) e.slot result.0),
))

unfoldable pub frame_at : Option Entry × Directory × PageMemory → Outcome ℕ
frame_at (none, dir, m) = fault
frame_at (some e, dir, m) = ok (m.store e.table e.slot).frame

-- Where the new table of `get_page` goes: `kmalloc_ap` yields the state of the heap behind it, an
-- address and a physical address. A table that is there already needs no new one.
unfoldable pub table_for :
    (kmalloc_ap : State (Directory × PageMemory) → Outcome (State (Directory × PageMemory) × ℕ × ℕ))
    → (address : ℕ) → State (Directory × PageMemory)
    → Outcome (State (Directory × PageMemory) × ℕ × ℕ)
table_for kmalloc_ap address s =
    if s.pages.0.tables (address / 0x1000 / 1024) == 0 then kmalloc_ap s else ok (s, 0, 0)

-- `get_page(address, 1, kernel_directory)`, and `alloc_frame` on the entry.
unfoldable pub map_heap_page :
    (kmalloc_ap : State (Directory × PageMemory) → Outcome (State (Directory × PageMemory) × ℕ × ℕ))
    → (address is_kernel is_writeable : ℕ) → State (Directory × PageMemory)
    → Outcome (State (Directory × PageMemory))
unfolding table_for
map_heap_page kmalloc_ap address is_kernel is_writeable s =
    table_for kmalloc_ap address s >>= (λ (s', fresh, phys).
      give_frame is_kernel is_writeable (get_page address 1 fresh phys s'.pages.0 s'.pages.1)
      >>= (λ d. ok (record s' { pages = d })))

abbrev pub paging_ops :
    (kmalloc_ap : State (Directory × PageMemory) → Outcome (State (Directory × PageMemory) × ℕ × ℕ))
    → PageOps (Directory × PageMemory)
paging_ops kmalloc_ap = record {
  map_page = map_heap_page kmalloc_ap;
  unmap_page = λ address d. take_frame (get_page address 0 0 0 d.0 d.1);
  frame_of = λ address d. frame_at (get_page address 0 0 0 d.0 d.1);
}

-- The frame of an address, 0 for none.
abbrev pub frame_of : Directory × PageMemory → (a : ℕ) → ℕ
frame_of (dir, m) a =
    let table = dir.tables (a / 0x1000 / 1024) in
    if table == 0 then 0 else (m.store table (a / 0x1000 % 1024)).frame

-- From `f` on, `n` frames in a row are free, and frame 0 is in use.
abbrev pub HasFree : ℕ → FrameSet → Type 0
HasFree n fs =
    (n ≡ 0)
    ⊎ ((is_used fs 0 ≡ 1)
        × ((f : ℕ) × (f + n ≤ fs.nframes / 32 * 32) × ((k : ℕ) → k < n → is_used fs (f + k) ≡ 0)))

-- The region has its page tables, no two of them in one place, and there are frames for `n` pages
-- more. The bitmap has a word for each of the frames whose bit `free_frame` clears.
pub record HasRoom (Region : ℕ → Type 0) (n : ℕ) (d : Directory × PageMemory) : Type 0 where
  pub tables : (a : ℕ) → Region a → (a < 2 ^ 32) × (d.0.tables (a / 0x1000 / 1024) ≢ 0)
  pub apart : IsApart d.0
  pub valid : IsFrameSet d.1.frame_set
  pub words : 8 ≤ length d.1.frame_set.frames
  pub small : (t k : ℕ) → (d.1.store t k).frame < 2 ^ 20
  pub free : HasFree n d.1.frame_set

pub HasFree-less : (n : ℕ) (fs : FrameSet) → HasFree (suc n) fs → HasFree n fs
HasFree-less n fs (inl none_more) = absurd (omega arith)
HasFree-less n fs (inr (zeroth, (f, inside, free))) =
    inr (zeroth, (f, omega arith, λ k low. free k (omega arith)))

-- The first free frame is not frame 0, and when it is taken there is room for one page less.
pub first-taken :
    (n r : ℕ) (fs fs' : FrameSet)
    → HasFree (suc n) fs
    → IsFirstFree fs (fs.nframes / 32 * 32) r
    → Updates fs fs' r 1
    → (r ≢ 0) × (r < fs.nframes / 32 * 32) × HasFree n fs'
first-taken n r fs fs' (inl none_more) first up = absurd (omega arith)
first-taken n r fs fs' (inr (zeroth, (f, inside, free))) (inl (nowhere, all)) up =
    let full = all (f + 0) (omega arith) in
    let open_frame = free 0 (omega arith) in absurd (omega (arith, full, open_frame))
first-taken n r fs fs' (inr (zeroth, (f, inside, free))) (inr (low, unused, before)) up = (
  real,
  low,
  inr (
    up.used 0 ∙ rw (ne→== 0 r (λ e. real (sym e))) zeroth,
    (
      suc f,
      omega (arith, ap (λ (k : ℕ). k / 32 * 32) up.count),
      λ k less.
          let next : f + suc k ≡ suc f + k = omega arith in
          let was : is_used fs (suc f + k) ≡ 0 =
            ap (is_used fs) (sym next) ∙ free (suc k) (omega arith) in
          up.used (suc f + k) ∙ rw (ne→== (suc f + k) r (behind k)) was,
    ),
  ),
)
  where
    real : r ≢ 0
    real e = let same = ap (is_used fs) e in absurd (omega (arith, same, unused, zeroth))

    -- The first free frame is not behind the first of the row.
    behind : (k : ℕ) → suc f + k ≢ r
    behind k e =
        let busy = before f (omega (arith, e)) in
        let open_frame = free 0 (omega arith) in
        let same = ap (is_used fs) here in absurd (omega (arith, busy, open_frame, same))
      where
        here : f + 0 ≡ f
        here = omega arith
