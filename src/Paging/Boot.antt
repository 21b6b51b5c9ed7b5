-- ===== src/Paging/Boot.antt =====
-- `initialise_paging` of src/impl/paging.c: the frame bitmap, the loops that map the kernel, and
-- what follows them. `kmalloc_ap i` is what the call for the table `i` returns, and `stale` are the
-- words of the bitmap that the code does not clear.
pub mod Identity
pub mod Loop
pub mod Kernel
pub mod Physical
use nembus_os.Base.{
  ℕ, zero, suc, ◌+◌, ◌-◌, ◌*◌, ◌/◌, ◌%◌, ◌^◌, Option, none, some, List, [], ◌∷◌, ◌++◌, ◌==◌,
  if◌then◌else◌, replicate, bit_or,
}
use nembus_os.Base.Words.{w32, add32}
use nembus_os.Base.Outcome.{Outcome, ok, fault, ◌>>=◌}
use nembus_os.Interrupts.{Machine, irq_install_handler}
use nembus_os.Paging.Frames.{Page, FrameSet, index_from_bit, alloc_frame}
use nembus_os.Paging.Tables.{
  Table, Directory, PageMemory, Entry, put_page, store_table, get_page, clone_directory,
}

abbrev pub kheap_start : ℕ
kheap_start = 0xC0000000

abbrev pub kheap_initial_size : ℕ
kheap_initial_size = 0x100000

abbrev pub mem_end_page : ℕ
mem_end_page = 0x1000000

-- The bitmap after `memset`, which clears `INDEX_FROM_BIT(nframes)` bytes: a quarter of its words.
abbrev pub init_frames : (stale : List ℕ) → FrameSet
init_frames stale = record {
  frames = replicate (index_from_bit (mem_end_page / 0x1000) / 4) 0 ++ stale;
  nframes = mem_end_page / 0x1000;
}

-- `kernel_directory`, cleared; `tablesPhysical` lies 4096 bytes into it.
abbrev pub init_directory : (at : ℕ) → Directory
init_directory at = record {
  tables = λ _. 0;
  tables_physical = λ _. 0;
  physical_addr = add32 at 4096;
}

-- `alloc_frame(page, 0, 0)` on the entry that `get_page` has found.
unfoldable pub give_frame :
    (is_kernel is_writeable : ℕ)
    → Option Entry × Directory × PageMemory
    → Outcome (Directory × PageMemory)
give_frame is_kernel is_writeable (none, dir, m) = fault
give_frame is_kernel is_writeable (some e, dir, m) =
    alloc_frame (m.store e.table e.slot) is_kernel is_writeable m.frame_set >>= (λ result. ok (
      dir,
      store_table (record m { frame_set = result.1 }) e.table
          (put_page (m.store e.table) e.slot result.0),
    ))

module _ (kmalloc_ap : ℕ → ℕ × ℕ) where
  -- `get_page(i, 1, kernel_directory)`
  abbrev pub make_page :
      (address : ℕ) → Directory × PageMemory → Option Entry × Directory × PageMemory
  make_page address (dir, m) =
      let (fresh, phys) = kmalloc_ap (address / 0x1000 / 1024) in
      get_page address 1 fresh phys dir m

  -- `alloc_frame( get_page(i, 1, kernel_directory), 0, 0)`
  unfoldable pub map_page :
      (address : ℕ) → Directory × PageMemory → Outcome (Directory × PageMemory)
  map_page address d = give_frame 0 0 (make_page address d)

  -- A loop over pages, from `address` on, with as many rounds as there are pages left.
  pub make_pages : (address rounds : ℕ) → Directory × PageMemory → Directory × PageMemory
  make_pages address zero d = d
  make_pages address (suc n) d =
      let (found, dir, m) = make_page address d in make_pages (address + 0x1000) n (dir, m)

  pub map_pages : (address rounds : ℕ) → Directory × PageMemory → Outcome (Directory × PageMemory)
  map_pages address zero d = ok d
  map_pages address (suc n) d = map_page address d >>= map_pages (address + 0x1000) n

  -- The three loops: tables for the heap, the first four megabytes, frames for the heap.
  unfoldable pub map_kernel :
      (at : ℕ) (stale : List ℕ) → PageMemory → Outcome (Directory × PageMemory)
  map_kernel at stale m = do
    low ← map_pages 0 (0x400000 / 0x1000) (
        make_pages kheap_start (kheap_initial_size / 0x1000)
          (init_directory at, record m { frame_set = init_frames stale }))
    map_pages kheap_start (kheap_initial_size / 0x1000) low

-- The control registers, and `current_directory`.
pub record Control : Type 0 where
  pub cr0 : ℕ
  pub cr3 : ℕ
  pub current_directory : Directory

unfoldable pub switch_page_directory : Directory → Control → Control
switch_page_directory dir c = record {
  cr0 = bit_or c.cr0 0x80000000;
  cr3 = dir.physical_addr;
  current_directory = dir;
}

-- The whole of it; `create_heap` is the heap's, over the memory that is mapped by then, and
-- `page_fault` is the address of the handler.
unfoldable pub initialise_paging :
    {K : Type 0} (kmalloc_ap clone_ap : ℕ → ℕ × ℕ) (at clone_at page_fault : ℕ) (stale : List ℕ)
    (create_heap : Directory × PageMemory → Outcome (Directory × PageMemory))
    → PageMemory
    → Machine K
    → Control
    → Outcome (Directory × PageMemory × Machine K × Control)
initialise_paging kmalloc_ap clone_ap at clone_at page_fault stale create_heap m machine control =
    do
      mapped ← map_kernel kmalloc_ap at stale m
      machine' ← irq_install_handler 14 page_fault machine
      let first = switch_page_directory mapped.0 control
      (kernel, m') ← create_heap mapped
      (current, m'') ← clone_directory kernel kernel clone_at clone_ap m'
      ok (kernel, m'', machine', switch_page_directory current first)
