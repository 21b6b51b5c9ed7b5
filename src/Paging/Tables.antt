-- ===== src/Paging/Tables.antt =====
-- Page tables and directories: `get_page`, `clone_table` and `clone_directory` of
-- src/impl/paging.c. A table lies at the address that `kmalloc_ap` returned for it; `store` holds
-- the tables by address, and a directory holds addresses, so two directories may share a table.
pub mod Lookup
pub mod Pages
pub mod Clone
use nembus_os.Base.{
  ℕ, zero, suc, ◌+◌, ◌*◌, ◌/◌, ◌%◌, Bool, not, Option, none, some, List, ◌∷◌, ◌==◌, if◌then◌else◌,
  bit_or,
}
use nembus_os.Base.Words.{w32, add32, sub32}
use nembus_os.Base.Outcome.{Outcome, ok, fault, ◌>>=◌, or_fault}
use nembus_os.Paging.Frames.{Page, FrameSet, alloc_frame}

abbrev pub empty_page : Page
empty_page = record {
  present = 0;
  rw = 0;
  user = 0;
  accessed = 0;
  dirty = 0;
  unused = 0;
  frame = 0;
}

-- `page_table_t`: 1024 pages.
abbrev pub Table : Type 0
Table = ℕ → Page

abbrev pub put_page : Table → (i : ℕ) → Page → Table
put_page t i page j = if j == i then page else t j

-- `page_directory_t`: 0 is the null pointer.
pub record Directory : Type 0 where
  pub tables : ℕ → ℕ
  pub tables_physical : ℕ → ℕ
  pub physical_addr : ℕ

abbrev pub put : (ℕ → ℕ) → (i v : ℕ) → ℕ → ℕ
put f i v j = if j == i then v else f j

-- The tables in memory, the frames in use, and the copies of frames that have been ordered.
pub record PageMemory : Type 0 where
  pub store : ℕ → Table
  pub frame_set : FrameSet
  pub copies : List (ℕ × ℕ)

abbrev pub store_table : PageMemory → (at : ℕ) → Table → PageMemory
store_table m at t = record m { store = λ a. if a == at then t else m.store a }

-- Where a page's entry lies: its table's address, and its place in the table.
pub record Entry : Type 0 where
  pub table : ℕ
  pub slot : ℕ

-- `kmalloc_ap`, with the address and the physical address that it returns, is the caller's: the
-- pair is that of the table which `make` would place.
unfoldable pub get_page :
    (address make : ℕ)
    → (fresh phys : ℕ) → Directory
    → PageMemory
    → Option Entry × Directory × PageMemory
get_page address make fresh phys dir m =
    let page = address / 0x1000 in
    let table_idx = page / 1024 in
    if not (dir.tables table_idx == 0)
    then (some (record { table = dir.tables table_idx; slot = page % 1024 }), dir, m)
    else if not (make == 0)
    then (
      some (record { table = fresh; slot = page % 1024 }),
      record dir {
        tables = put dir.tables table_idx fresh;
        tables_physical = put dir.tables_physical table_idx (bit_or phys 0x7);
      },
      store_table m fresh (λ _. empty_page),
    )
    else (none, dir, m)

-- The flags that `clone_table` copies: a flag that is clear in the source is left as it is.
abbrev pub copy_flags : (src dst : Page) → Page
copy_flags src dst = record dst {
  present = if src.present == 0 then dst.present else 1;
  rw = if src.rw == 0 then dst.rw else 1;
  user = if src.user == 0 then dst.user else 1;
  accessed = if src.accessed == 0 then dst.accessed else 1;
  dirty = if src.dirty == 0 then dst.dirty else 1;
}

-- The state of the loop of `clone_table`; `copies` are the calls of `copy_page_physical`, latest
-- first.
pub record Cloning : Type 0 where
  pub table : Table
  pub frame_set : FrameSet
  pub copies : List (ℕ × ℕ)

abbrev pub clone_page : Table → (i : ℕ) → Cloning → Outcome Cloning
clone_page src i c = if (src i).frame == 0 then ok c else (do
  (page, frame_set) ← alloc_frame (c.table i) 0 0 c.frame_set
  let copied = copy_flags (src i) page
  ok (record {
    table = put_page c.table i copied;
    frame_set = frame_set;
    copies = ((src i).frame * 0x1000 % w32, copied.frame * 0x1000 % w32) ∷ c.copies;
  }))

-- The loop, with `1024 - i` rounds left.
pub clone_pages : Table → (i rounds : ℕ) → Cloning → Outcome Cloning
clone_pages src i zero c = ok c
clone_pages src i (suc n) c = clone_page src i c >>= clone_pages src (i + 1) n

-- `clone_table`, into a table that `kmalloc_ap` placed at `fresh`.
pub clone_table : (src fresh : ℕ) → PageMemory → Outcome PageMemory
unfolding clone_pages
clone_table src fresh m = do
  c ←
      clone_pages (m.store src) 0 1024
        (record { table = λ _. empty_page; frame_set = m.frame_set; copies = m.copies })
  ok (record (store_table m fresh c.table) { frame_set = c.frame_set; copies = c.copies })

-- One round of `clone_directory`: `kernel_directory`'s tables are shared, others are cloned. The
-- pair is what `kmalloc_ap` returns for the table.
abbrev pub clone_entry :
    (kernel src : Directory)
    → (i : ℕ) → ℕ × ℕ
    → Directory × PageMemory
    → Outcome (Directory × PageMemory)
clone_entry kernel src i (fresh, phys) (dir, m) =
    if src.tables i == 0
    then ok (dir, m)
    else if kernel.tables i == src.tables i
    then ok (
      record dir {
        tables = put dir.tables i (src.tables i);
        tables_physical = put dir.tables_physical i (src.tables_physical i);
      },
      m,
    )
    else (do
      m' ← clone_table (src.tables i) fresh m
      ok (
        record dir {
          tables = put dir.tables i fresh;
          tables_physical = put dir.tables_physical i (bit_or phys 0x07);
        },
        m',
      ))

-- The loop, with `1024 - i` rounds left; `kmalloc_ap i` is what the call for table `i` returns.
pub clone_entries :
    (kernel src : Directory)
    → (ℕ → ℕ × ℕ)
    → (i rounds : ℕ) → Directory × PageMemory
    → Outcome (Directory × PageMemory)
clone_entries kernel src kmalloc_ap i zero d = ok d
clone_entries kernel src kmalloc_ap i (suc n) d =
    clone_entry kernel src i (kmalloc_ap i) d >>= clone_entries kernel src kmalloc_ap (i + 1) n

-- `tablesPhysical` lies 4096 bytes into a directory; `dir_phys` is the directory's own address.
pub clone_directory :
    (kernel src : Directory)
    → (dir_phys : ℕ) → (ℕ → ℕ × ℕ)
    → PageMemory
    → Outcome (Directory × PageMemory)
unfolding clone_entries
clone_directory kernel src dir_phys kmalloc_ap m =
    clone_entries kernel src kmalloc_ap 0 1024
      (record { tables = λ _. 0; tables_physical = λ _. 0; physical_addr = add32 dir_phys 4096 }, m)
