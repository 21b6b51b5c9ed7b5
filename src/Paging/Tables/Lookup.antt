-- ===== src/Paging/Tables/Lookup.antt =====
-- `get_page` as a map from addresses to page entries.
use nembus_os.Base.{ℕ, ◌/◌, ◌%◌, ◌^◌, ◌<◌, ◌≡◌, ◌≢◌, arith, none, some, ◌==◌, if◌then◌else◌}
use nembus_os.Paging.Tables.{Directory, PageMemory, Entry, get_page}

-- A page that `get_page` has made, or found, with `make` and a table address that is not null is
-- found again at the same entry, and the second call changes nothing.
pub get_page_again :
    (address make make' fresh phys fresh' phys' : ℕ) (dir : Directory) (m : PageMemory)
    → make ≢ 0
    → fresh ≢ 0
    → let (e, dir', m') = get_page address make fresh phys dir m in
      get_page address make' fresh' phys' dir' m' ≡ (e, dir', m')
unfolding get_page
get_page_again address make make' fresh phys fresh' phys' dir m making placed = ground arith

-- Without `make`, `get_page` changes nothing, and finds an entry exactly where there is a table.
get_page_plain :
    (address fresh phys : ℕ) (dir : Directory) (m : PageMemory)
    → get_page address 0 fresh phys dir m ≡ (
      if dir.tables (address / 0x1000 / 1024) == 0
          then none
          else some (record {
            table = dir.tables (address / 0x1000 / 1024);
            slot = address / 0x1000 % 1024;
          }),
      dir,
      m,
    )
unfolding get_page
get_page_plain address fresh phys dir m = ground arith

-- No two tables of the directory lie at one address.
abbrev pub IsApart : Directory → Type 0
IsApart dir =
    (i j : ℕ) → i < 1024 → j < 1024 → dir.tables i ≢ 0 → dir.tables i ≡ dir.tables j → i ≡ j

abbrev pub entry : (table slot : ℕ) → Entry
entry table slot = record { table = table; slot = slot }

-- In a directory whose tables lie apart, two 32-bit addresses have one entry only if they lie on
-- one page.
pub get_page_injective :
    (a b fresh phys : ℕ) (dir : Directory) (m : PageMemory) (e : Entry)
    → IsApart dir
    → a < 2 ^ 32
    → b < 2 ^ 32
    → (get_page a 0 fresh phys dir m).0 ≡ some e
    → (get_page b 0 fresh phys dir m).0 ≡ some e
    → a / 0x1000 ≡ b / 0x1000
unfolding get_page
get_page_injective a b fresh phys dir m e apart ha hb ea eb =
    ground (arith, apart (a / 0x1000 / 1024) (b / 0x1000 / 1024) (omega arith) (omega arith))

-- `get_page` keeps the tables apart, if the address for a new table is that of no other.
get_page-IsApart :
    (address make fresh phys : ℕ) (dir : Directory) (m : PageMemory)
    → IsApart dir
    → ((i : ℕ) → i < 1024 → dir.tables i ≢ fresh)
    → IsApart (get_page address make fresh phys dir m).1
unfolding get_page
get_page-IsApart address make fresh phys dir m apart new i j hi hj has same =
    ground (arith, apart i j hi hj, new i hi, new j hj)
