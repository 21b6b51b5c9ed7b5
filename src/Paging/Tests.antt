-- ===== src/Paging/Tests.antt =====
-- The frame bitmap and the page tables on small instances.
use nembus_os.Base.{
  bit_or, ◌≢◌, replicate, ℕ, ◌+◌, ◌*◌, ◌/◌, ◌%◌, ◌<◌, ◌≡◌, refl, arith, some, [], ◌∷◌, ◌==◌,
  if◌then◌else◌,
}
use nembus_os.Base.Outcome.{ok}
use nembus_os.Paging.Frames.{Page, FrameSet, alloc_frame, free_frame}
use nembus_os.Paging.Frames.Bitmap.{is_used, Updates}
use nembus_os.Paging.Frames.Search.{IsFirstFree}
use nembus_os.Paging.Frames.Release.{IsFrameSet, mapped, alloc_frame-Updates, free_frame_keeps}
use nembus_os.Paging.Boot.{map_kernel}
use nembus_os.Paging.Boot.Kernel.{map_kernel-identity}
use nembus_os.Paging.Fault.{text, hex, fault_message}
use nembus_os.Paging.Tables.{Entry, Directory, PageMemory, empty_page, get_page}
use nembus_os.Paging.Tables.Lookup.{IsApart, entry}

-- Frames 0 to 31, 32 and 34 are in use, of 64.
abbrev two_words : FrameSet
two_words = record { frames = 0xFFFFFFFF ∷ 5 ∷ []; nframes = 64 }

two_words-IsFrameSet : IsFrameSet two_words
two_words-IsFrameSet = record { words = omega arith; some_words = omega arith; few = omega arith }

abbrev page_at : (frame : ℕ) → Page
page_at frame = record empty_page { frame = frame }

alloc_frame-Updates_example :
    (r : ℕ) × (fs' : FrameSet) × (alloc_frame (page_at 0) 1 0 two_words
      ≡ ok (mapped (page_at 0) 1 0 r, fs'))
    × IsFirstFree two_words (64 / 32 * 32) r
    × Updates two_words fs' r 1
alloc_frame-Updates_example =
    alloc_frame-Updates (page_at 0) 1 0 two_words two_words-IsFrameSet refl

free_frame_keeps_example :
    (fs' : FrameSet) × (free_frame (page_at 34) two_words ≡ ok (page_at 0, fs'))
    × (is_used fs' 34 ≡ is_used two_words 34)
free_frame_keeps_example =
    free_frame_keeps (page_at 34) two_words (omega arith) (omega arith) (omega arith)

-- A directory with tables at places 0 and 2.
abbrev two_tables : Directory
two_tables = record {
  tables = λ i. if i == 0 then 0x8000 else if i == 2 then 0x9000 else 0;
  tables_physical = λ i. 0;
  physical_addr = 0;
}

abbrev kernel_only : Directory
kernel_only = record {
  tables = λ i. if i == 0 then 0x8000 else 0;
  tables_physical = λ i. 0;
  physical_addr = 0;
}

abbrev page_memory : PageMemory
page_memory = record { store = λ a j. page_at (j % 2); frame_set = two_words; copies = [] }

two_tables-IsApart : IsApart two_tables
two_tables-IsApart i j hi hj has same = ground arith

get_page_found : (get_page 0x801000 0 0 0 two_tables page_memory).0 ≡ some (entry 0x9000 1)
unfolding get_page
get_page_found = refl

get_page_found_too : (get_page 0x801FFF 0 0 0 two_tables page_memory).0 ≡ some (entry 0x9000 1)
unfolding get_page
get_page_found_too = refl

-- Tables one page apart, from 2 megabytes on.
abbrev tables_at : ℕ → ℕ × ℕ
tables_at i = (0x200000 + i * 0x1000, 0x200000 + i * 0x1000)

abbrev no_memory : PageMemory
no_memory = record {
  store = λ _ _. empty_page;
  frame_set = record { frames = []; nframes = 0 };
  copies = [];
}

map_kernel-identity_example :
    (dir : Directory) × (m' : PageMemory) × (map_kernel tables_at 0x1F0000
        (replicate 96 7)
        no_memory
      ≡ ok (dir, m'))
    × ((a : ℕ)
        → a < 0x400000
        → (e : Entry) × ((get_page a 0 0 0 dir m').0 ≡ some e)
          × ((m'.store e.table e.slot).frame ≡ a / 0x1000)
          × ((m'.store e.table e.slot).present ≡ 1))
    × (dir.physical_addr ≡ 0x1F1000)
    × (dir.tables_physical 0 ≡ bit_or (tables_at 0).1 0x7)
    × ((i : ℕ) → dir.tables i ≢ 0 → dir.tables_physical i ≡ bit_or (tables_at i).1 0x7)
map_kernel-identity_example =
    map_kernel-identity tables_at 0x1F0000 (replicate 96 7) no_memory refl (omega arith)
      (omega arith) (omega arith)

-- A write to a page that is not there.
missing_page :
    fault_message 2 0x500000 0x100100
    ≡ text "Page fault! ( "
      ∷ text "present "
      ∷ text "read-only "
      ∷ text ") at "
      ∷ hex 0x500000
      ∷ text " - EIP: "
      ∷ hex 0x100100
      ∷ text "\n"
      ∷ []
unfolding fault_message
missing_page = refl
