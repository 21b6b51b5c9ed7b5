-- ===== src/Paging/Tables/Clone.antt =====
-- `clone_directory`: which tables the copy has, and what is in them.
use nembus_os.Base.{ℕ, ◌+◌, ◌<◌, ◌≤◌, ◌≡◌, ◌≢◌, ◌==◌, if◌then◌else◌, bit_or}
use nembus_os.Paging.Frames.Release.{IsFrameSet}
use nembus_os.Paging.Tables.{Directory, PageMemory}
use nembus_os.Paging.Tables.Pages.{IsIn, IsClone}

module _ (kernel src : Directory) (kmalloc_ap : ℕ → ℕ × ℕ) where
  -- The source has a table at place `j` which is not the kernel's.
  abbrev pub IsOwn : (j : ℕ) → Type 0
  IsOwn j = (src.tables j ≢ 0) × (kernel.tables j ≢ src.tables j)

  -- What the clone has at place `j`, with `shared` for the source's own entry and `new` for that of
  -- a new table: nothing where the source has no table.
  abbrev chosen : (shared new : ℕ → ℕ) → (j : ℕ) → ℕ
  chosen shared new j =
      if src.tables j == 0 then 0 else if kernel.tables j == src.tables j then shared j else new j

  abbrev tables_of : ℕ → ℕ
  tables_of = chosen src.tables (λ j. (kmalloc_ap j).0)

  abbrev physical_of : ℕ → ℕ
  physical_of = chosen src.tables_physical (λ j. bit_or (kmalloc_ap j).1 0x7)

  -- The new tables of the places from `i` on, `n` of them, are clones of the source's; all other
  -- tables are as they were.
  pub record HasTables (i n : ℕ) (m m' : PageMemory) : Type 0 where
    pub pages :
        (j k : ℕ)
        → i ≤ j
        → j < i + n
        → IsOwn j
        → k < 1024
        → IsClone (m.store (src.tables j) k) (m'.store (kmalloc_ap j).0 k) m'.copies
    pub others :
        (a : ℕ)
        → ((j : ℕ) → i ≤ j → j < i + n → IsOwn j → a ≢ (kmalloc_ap j).0)
        → m'.store a ≡ m.store a
    pub more : (x : ℕ × ℕ) → IsIn x m.copies → IsIn x m'.copies
    pub valid : IsFrameSet m'.frame_set

  -- The places of new tables are those of no others, and of none of the source's tables.
  pub record IsFresh : Type 0 where
    pub apart : (i j : ℕ) → i ≢ j → (kmalloc_ap i).0 ≢ (kmalloc_ap j).0
    pub away : (i j : ℕ) → IsOwn i → src.tables i ≢ (kmalloc_ap j).0

-- The entry of the clone at place `j`.
pub record HasEntry (kernel src dir : Directory) (kmalloc_ap : ℕ → ℕ × ℕ) (j : ℕ) : Type 0 where
  pub none : src.tables j ≡ 0 → (dir.tables j ≡ 0) × (dir.tables_physical j ≡ 0)
  pub shared :
      src.tables j ≢ 0
      → kernel.tables j ≡ src.tables j
      → (dir.tables j ≡ src.tables j) × (dir.tables_physical j ≡ src.tables_physical j)
  pub own :
      src.tables j ≢ 0
      → kernel.tables j ≢ src.tables j
      → (dir.tables j ≡ (kmalloc_ap j).0) × (dir.tables_physical j ≡ bit_or (kmalloc_ap j).1 0x7)
