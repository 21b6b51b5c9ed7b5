-- ===== src/Kheap/Paged/Backing.antt =====
-- Paging as the heap needs it, over a region that has its page tables.
use nembus_os.Base.{
  ℕ, suc, ◌/◌, ◌%◌, ◌^◌, ◌<◌, ◌≡◌, ◌≢◌, inl, inr, refl, sym, ap, ◌∙◌, arith, some, ◌==◌,
  if◌then◌else◌, Bool-cases, ==→eq, ==→ne, eq→==, ne→==, length,
}
use nembus_os.Base.Outcome.{Outcome, ok}
use nembus_os.Paging.Frames.{Page, FrameSet, alloc_frame, free_frame}
use nembus_os.Paging.Frames.Release.{
  mapped, alloc_frame-kept, alloc_frame-Updates, free_frame-Updates,
}
use nembus_os.Paging.Tables.{Directory, PageMemory, put_page, store_table, get_page}
use nembus_os.Paging.Tables.Lookup.{IsApart}
use nembus_os.Paging.Boot.{give_frame}
use nembus_os.Kheap.{State}
use nembus_os.Kheap.Resize.Ends.{Backs}
use nembus_os.Kheap.Paged.{
  take_frame, table_for, map_heap_page, paging_ops, frame_of, HasFree, HasRoom, HasFree-less,
  first-taken,
}

-- Where the table of an address is there, its entry.
get_page-there :
    (a make fresh phys : ℕ) (dir : Directory) (m : PageMemory)
    → dir.tables (a / 0x1000 / 1024) ≢ 0
    → get_page a make fresh phys dir m
      ≡ (some (record { table = dir.tables (a / 0x1000 / 1024); slot = a / 0x1000 % 1024 }), dir, m)
unfolding get_page
get_page-there a make fresh phys dir m real =
    rw (ne→== (dir.tables (a / 0x1000 / 1024)) 0 real) refl

-- A new page in the entry of an address, and another frame set.
abbrev put_entry : Directory → PageMemory → (a : ℕ) → Page → FrameSet → PageMemory
put_entry dir m a page fs =
    store_table (record m { frame_set = fs }) (dir.tables (a / 0x1000 / 1024))
      (put_page (m.store (dir.tables (a / 0x1000 / 1024))) (a / 0x1000 % 1024) page)

frame_of-put_self :
    (dir : Directory) (m : PageMemory) (a : ℕ) (page : Page) (fs : FrameSet)
    → dir.tables (a / 0x1000 / 1024) ≢ 0
    → frame_of (dir, put_entry dir m a page fs) a ≡ page.frame
frame_of-put_self dir m a page fs real =
    let table = dir.tables (a / 0x1000 / 1024) in
    rw
      (
        ne→== table 0 real,
        eq→== table table refl,
        eq→== (a / 0x1000 % 1024) (a / 0x1000 % 1024) refl,
      )
      refl

frame_of-put_ne :
    (dir : Directory) (m : PageMemory) (a b : ℕ) (page : Page) (fs : FrameSet)
    → IsApart dir
    → a < 2 ^ 32
    → b < 2 ^ 32
    → dir.tables (a / 0x1000 / 1024) ≢ 0
    → b / 0x1000 ≢ a / 0x1000
    → frame_of (dir, put_entry dir m a page fs) b ≡ frame_of (dir, m) b
frame_of-put_ne dir m a b page fs apart small low real other =
    elim (Bool-cases (dir.tables (b / 0x1000 / 1024) == dir.tables (a / 0x1000 / 1024))) [
      | inl shared ↦
          let same : a / 0x1000 / 1024 ≡ b / 0x1000 / 1024 =
            apart (a / 0x1000 / 1024) (b / 0x1000 / 1024) (omega arith) (omega arith) real
              (sym (==→eq _ _ shared)) in
          let slot : b / 0x1000 % 1024 ≢ a / 0x1000 % 1024 = omega (arith, same, other) in
          rw (shared, ne→== (b / 0x1000 % 1024) (a / 0x1000 % 1024) slot)
            (ap
              (λ (t : ℕ).
                if dir.tables (b / 0x1000 / 1024) == 0
                then 0
                else (m.store t (b / 0x1000 % 1024)).frame)
              (sym (==→eq _ _ shared)))
      | inr own ↦ rw own refl
    ]

-- What stays when a page is put.
put_entry-HasRoom :
    (Region : ℕ → Type 0) (n n' : ℕ) (dir : Directory) (m : PageMemory) (a : ℕ) (page : Page)
    (fs : FrameSet)
    → HasRoom Region n (dir, m)
    → page.frame < 2 ^ 20
    → fs.nframes ≡ m.frame_set.nframes
    → length fs.frames ≡ length m.frame_set.frames
    → HasFree n' fs
    → HasRoom Region n' (dir, put_entry dir m a page fs)
put_entry-HasRoom Region n n' dir m a page fs room few count words free = record {
  tables = room.tables;
  apart = room.apart;
  valid = record {
    words = omega (arith, room.valid.words, count, words);
    some_words = omega (arith, room.valid.some_words, words);
    few = omega (arith, room.valid.few, count);
  };
  words = omega (arith, room.words, words);
  small = small;
  free = free;
}
  where
    small : (t k : ℕ) → ((put_entry dir m a page fs).store t k).frame < 2 ^ 20
    small t k = elim (Bool-cases (t == dir.tables (a / 0x1000 / 1024))) [
      | inl here ↦ elim (Bool-cases (k == a / 0x1000 % 1024)) [
        | inl slot ↦ rw (here, slot) few
        | inr away ↦ rw (here, away) (room.small (dir.tables (a / 0x1000 / 1024)) k)
      ]
      | inr away ↦ rw away (room.small t k)
    ]

HasRoom-less :
    (Region : ℕ → Type 0) (n : ℕ) (d : Directory × PageMemory)
    → HasRoom Region (suc n) d
    → HasRoom Region n d
HasRoom-less Region n d room = record {
  tables = room.tables;
  apart = room.apart;
  valid = room.valid;
  words = room.words;
  small = room.small;
  free = HasFree-less n d.1.frame_set room.free;
}

module _
    (kmalloc_ap : State (Directory × PageMemory) → Outcome (State (Directory × PageMemory) × ℕ × ℕ))
    (Region : ℕ → Type 0) where
  abbrev old_page : (address : ℕ) → Directory × PageMemory → Page
  old_page a (dir, m) = m.store (dir.tables (a / 0x1000 / 1024)) (a / 0x1000 % 1024)

  map_heap_page-done :
      (a k w : ℕ) (s : State (Directory × PageMemory)) (page : Page) (fs : FrameSet)
      → s.pages.0.tables (a / 0x1000 / 1024) ≢ 0
      → alloc_frame (old_page a s.pages) k w s.pages.1.frame_set ≡ ok (page, fs)
      → map_heap_page kmalloc_ap a k w s
        ≡ ok (record s { pages = (s.pages.0, put_entry s.pages.0 s.pages.1 a page fs) })
  unfolding map_heap_page table_for give_frame
  map_heap_page-done a k w s page fs real done =
      rw
        (
          ne→== (s.pages.0.tables (a / 0x1000 / 1024)) 0 real,
          get_page-there a 1 0 0 s.pages.0 s.pages.1 real,
          done,
        )
        refl

  unmap_heap_page-done :
      (a : ℕ) (dir : Directory) (m : PageMemory) (page : Page) (fs : FrameSet)
      → dir.tables (a / 0x1000 / 1024) ≢ 0
      → free_frame (old_page a (dir, m)) m.frame_set ≡ ok (page, fs)
      → take_frame (get_page a 0 0 0 dir m) ≡ ok (dir, put_entry dir m a page fs)
  unfolding take_frame
  unmap_heap_page-done a dir m page fs real done =
      ap take_frame (get_page-there a 0 0 0 dir m real) ∙ rw done refl

  -- What `alloc_frame` and `free_frame` do to the page of an address in the region.
  given :
      (a k w n : ℕ) (dir : Directory) (m : PageMemory)
      → HasRoom Region (suc n) (dir, m)
      → (page : Page) × (fs : FrameSet) × (alloc_frame (old_page a (dir, m)) k w m.frame_set
          ≡ ok (page, fs))
        × (page.frame ≢ 0)
        × (page.frame < 2 ^ 20)
        × (fs.nframes ≡ m.frame_set.nframes)
        × (length fs.frames ≡ length m.frame_set.frames)
        × HasFree n fs
  given a k w n dir m room =
      let page = old_page a (dir, m) in
      elim (Bool-cases (page.frame == 0)) [
        | inl empty ↦
            let (r, fs, done, first, up) =
              alloc_frame-Updates page k w m.frame_set room.valid (==→eq page.frame 0 empty) in
            let (real, low, free) = first-taken n r m.frame_set fs room.free first up in
            (
              mapped page k w r,
              fs,
              done,
              real,
              omega (arith, low, room.valid.few),
              up.count,
              up.words,
              free,
            )
        | inr has ↦
            let real = ==→ne page.frame 0 has in
            (
              page,
              m.frame_set,
              alloc_frame-kept page k w m.frame_set real,
              real,
              room.small _ _,
              refl,
              refl,
              HasFree-less n m.frame_set room.free,
            )
      ]

  freed :
      (a : ℕ) (dir : Directory) (m : PageMemory)
      → HasRoom Region 0 (dir, m)
      → (page : Page) × (fs : FrameSet) × (free_frame (old_page a (dir, m)) m.frame_set
          ≡ ok (page, fs))
        × (page.frame ≡ 0)
        × (fs.nframes ≡ m.frame_set.nframes)
        × (length fs.frames ≡ length m.frame_set.frames)
  unfolding free_frame
  freed a dir m room =
      let page = old_page a (dir, m) in
      elim (Bool-cases (page.frame == 0)) [
        | inl empty ↦ (page, m.frame_set, rw empty refl, ==→eq page.frame 0 empty, refl, refl)
        | inr has ↦
            let low : page.frame < 2 ^ 20 = room.small _ _ in
            let (fs, done, up) =
              free_frame-Updates page m.frame_set (==→ne page.frame 0 has)
                (omega (arith, room.words, low)) in
            (record page { frame = 0 }, fs, done, refl, up.count, up.words)
      ]

  -- Over a region with page tables, `get_page`, `alloc_frame` and `free_frame` are what the heap
  -- needs, as long as there are frames.
  pub paging_ops-Backs : Backs (paging_ops kmalloc_ap) Region (HasRoom Region) frame_of
  paging_ops-Backs = record {
    maps = λ a k w n s inside room.
        let d = s.pages in
        let (low, real) = room.tables a inside in
        let (page, fs, done, has, few, count, words, free) = given a k w n d.0 d.1 room in
        (
          (d.0, put_entry d.0 d.1 a page fs),
          map_heap_page-done a k w s page fs real done,
          put_entry-HasRoom Region (suc n) n d.0 d.1 a page fs room few count words free,
          (λ e. has (sym (frame_of-put_self d.0 d.1 a page fs real) ∙ e)),
          (λ b small other. frame_of-put_ne d.0 d.1 a b page fs room.apart low small real other),
        );
    unmaps = λ a d inside room.
        let (low, real) = room.tables a inside in
        let (page, fs, done, gone, count, words) = freed a d.0 d.1 room in
        (
          (d.0, put_entry d.0 d.1 a page fs),
          unmap_heap_page-done a d.0 d.1 page fs real done,
          put_entry-HasRoom Region 0 0 d.0 d.1 a page fs room (omega (arith, gone)) count words
              (inl refl),
          frame_of-put_self d.0 d.1 a page fs real ∙ gone,
          (λ b small other. frame_of-put_ne d.0 d.1 a b page fs room.apart low small real other),
        );
  }
