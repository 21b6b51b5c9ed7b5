-- ===== src/Paging/Boot/Kernel.antt =====
-- `initialise_paging` maps the first four megabytes to themselves.
use nembus_os.Base.{
  ℕ, zero, suc, ◌+◌, ◌*◌, ◌/◌, ◌%◌, ◌<◌, ◌≤◌, ◌≡◌, ◌≢◌, ◌⊎◌, inl, inr, refl, sym, ap, ◌∙◌, arith,
  Option, some, List, ◌++◌, length, ne→==, replicate, get_or, length-append, bit_or,
}
use nembus_os.Base.BitAt.{bit_at-zero}
use nembus_os.Base.Outcome.{ok}
use nembus_os.Paging.Frames.{Page}
use nembus_os.Paging.Tables.{
  Table, Directory, PageMemory, Entry, empty_page, put, store_table, get_page,
}
use nembus_os.Paging.Boot.{
  kheap_start, init_frames, init_directory, make_page, make_pages, map_pages, map_kernel,
}
use nembus_os.Base.Words.{w32}
use nembus_os.Paging.Boot.Physical.{map_kernel-HasPhysical}
use nembus_os.Paging.Boot.Identity.{IsTakenTo, IsIdentity}
use nembus_os.Paging.Boot.Loop.{make_page-heap, map_pages-IsMapped, map_pages-IsKept}

get_or-cleared : (n i : ℕ) (stale : List ℕ) → i < n → get_or (replicate n 0 ++ stale) i 0 ≡ 0
get_or-cleared zero i stale small = absurd (omega arith)
get_or-cleared (suc n) zero stale small = refl
get_or-cleared (suc n) (suc i) stale small = get_or-cleared n i stale (omega arith)

-- The words that are cleared are those of the first 1024 frames.
init_frames-IsTakenTo : (stale : List ℕ) → length stale ≡ 96 → IsTakenTo 0 (init_frames stale)
init_frames-IsTakenTo stale size =
    let words = length-append (replicate 32 0) stale in
    record {
      used = λ f low. absurd (omega arith);
      free =
          λ f low high. rw (get_or-cleared 32 (f / 32) stale (omega arith)) (bit_at-zero (f % 32));
      valid = record {
        words = omega (arith, words, size);
        some_words = omega (arith, words, size);
        few = omega arith;
      };
      count = refl;
    }

module _ (kmalloc_ap : ℕ → ℕ × ℕ) where
  make_pages-same :
      (other n k address : ℕ) (dir : Directory) (m : PageMemory)
      → other ≢ 0
      → address ≡ kheap_start + k * 0x1000
      → k + n ≤ 256
      → dir.tables 768 ≡ other
      → make_pages kmalloc_ap address n (dir, m) ≡ (dir, m)
  unfolding make_pages
  make_pages-same other zero k address dir m placed at small heap = refl
  make_pages-same other (suc n) k address dir m placed at small heap =
      make_pages-step n address (dir, m) _ _ _
        (make_page-heap kmalloc_ap other k address dir m placed at (omega arith) heap)
      ∙ make_pages-same other n (suc k) (address + 0x1000) dir m placed (omega (arith, at))
          (omega arith) heap
    where
      make_pages-step :
          (n address : ℕ) (d : Directory × PageMemory) (e : Option Entry) (dir : Directory)
          (m : PageMemory)
          → make_page kmalloc_ap address d ≡ (e, dir, m)
          → make_pages kmalloc_ap address (suc n) d
            ≡ make_pages kmalloc_ap (address + 0x1000) n (dir, m)
      make_pages-step n address d e dir m made =
          ap
            (λ (r : Option Entry × Directory × PageMemory).
              make_pages kmalloc_ap (address + 0x1000) n (r.1, r.2))
            made

  -- The first loop makes the heap's table, and no other.
  make_pages-heap :
      (at : ℕ) (m : PageMemory)
      → (kmalloc_ap 768).0 ≢ 0
      → make_pages kmalloc_ap kheap_start 256 (init_directory at, m) ≡ (
        record (init_directory at) {
          tables = put (λ _. 0) 768 (kmalloc_ap 768).0;
          tables_physical = put (λ _. 0) 768 (bit_or (kmalloc_ap 768).1 0x7);
        },
        store_table m (kmalloc_ap 768).0 (λ _. empty_page),
      )
  unfolding make_pages get_page
  make_pages-heap at m placed =
      make_pages-same (kmalloc_ap 768).0 255 1 (kheap_start + 0x1000) _ _ placed refl (omega arith)
        refl

  at_end :
      (n : ℕ) (dir : Directory) (t : Table)
      → 0 < n
      → ((dir.tables 0 ≡ 0) × (n ≡ 0)) ⊎ ((dir.tables 0 ≡ (kmalloc_ap 0).0) × IsIdentity n t)
      → (dir.tables 0 ≡ (kmalloc_ap 0).0) × IsIdentity n t
  at_end n dir t rounds (inl (nothing, never)) = absurd (omega (arith, never))
  at_end n dir t rounds (inr found) = found

  -- What a walk finds for an address below four megabytes.
  identity-page :
      (dir : Directory) (m : PageMemory)
      → (kmalloc_ap 0).0 ≢ 0
      → dir.tables 0 ≡ (kmalloc_ap 0).0
      → IsIdentity 1024 (m.store (kmalloc_ap 0).0)
      → (a : ℕ) → a < 0x400000
      → (e : Entry) × ((get_page a 0 0 0 dir m).0 ≡ some e)
        × ((m.store e.table e.slot).frame ≡ a / 0x1000)
        × ((m.store e.table e.slot).present ≡ 1)
  unfolding get_page
  identity-page dir m real there pages a low =
      let index : a / 0x1000 / 1024 ≡ 0 = omega arith in
      let slot : a / 0x1000 % 1024 ≡ a / 0x1000 = omega arith in
      let page = pages.below (a / 0x1000) (omega arith) in
      (
        record { table = (kmalloc_ap 0).0; slot = a / 0x1000 },
        rw (index, slot, there, ne→== (kmalloc_ap 0).0 0 real) refl,
        ap (λ (p : Page). p.frame) page,
        ap (λ (p : Page). p.present) page,
      )

  map_kernel-step :
      (at : ℕ) (stale : List ℕ) (m : PageMemory) (d0 d1 d2 : Directory × PageMemory)
      → make_pages kmalloc_ap kheap_start 256
          (init_directory at, record m { frame_set = init_frames stale })
        ≡ d0
      → map_pages kmalloc_ap 0 1024 d0 ≡ ok d1
      → map_pages kmalloc_ap kheap_start 256 d1 ≡ ok d2
      → map_kernel kmalloc_ap at stale m ≡ ok d2
  unfolding map_kernel
  map_kernel-step at stale m d0 d1 d2 made low heap = rw (made, low) heap

  -- After the loops of `initialise_paging`, with two addresses for the tables that are not null and
  -- not the same, and whatever is left in the part of the bitmap that is not cleared: every address
  -- of the first four megabytes has a page that is present, with the frame of its own number; and
  -- what the processor reads is there too, the directory's own place in `physicalAddr`, and for the
  -- first table, as for each table that there is, its physical address with the flags present,
  -- writable and user. So the code that is running goes on at the same addresses when paging is
  -- switched on.
  pub map_kernel-identity :
      (at : ℕ) (stale : List ℕ) (m : PageMemory)
      → length stale ≡ 96
      → (kmalloc_ap 0).0 ≢ 0
      → (kmalloc_ap 768).0 ≢ 0
      → (kmalloc_ap 768).0 ≢ (kmalloc_ap 0).0
      → (dir : Directory) × (m' : PageMemory) × (map_kernel kmalloc_ap at stale m ≡ ok (dir, m'))
        × ((a : ℕ)
            → a < 0x400000
            → (e : Entry) × ((get_page a 0 0 0 dir m').0 ≡ some e)
              × ((m'.store e.table e.slot).frame ≡ a / 0x1000)
              × ((m'.store e.table e.slot).present ≡ 1))
        × (dir.physical_addr ≡ (at + 4096) % w32)
        × (dir.tables_physical 0 ≡ bit_or (kmalloc_ap 0).1 0x7)
        × ((i : ℕ) → dir.tables i ≢ 0 → dir.tables_physical i ≡ bit_or (kmalloc_ap i).1 0x7)
  map_kernel-identity at stale m size low_real heap_real apart =
      let table = (kmalloc_ap 0).0 in
      let other = (kmalloc_ap 768).0 in
      let m0 = record m { frame_set = init_frames stale } in
      let made = make_pages-heap at m0 heap_real in
      let (dir1, m1, done1, state1, others) =
        map_pages-IsMapped kmalloc_ap table refl low_real 1024 0 1024 0
          (record (init_directory at) {
            tables = put (λ _. 0) 768 other;
            tables_physical = put (λ _. 0) 768 (bit_or (kmalloc_ap 768).1 0x7);
          })
          (store_table m0 other (λ _. empty_page)) refl refl (omega arith)
          (record { first = inl (refl, refl); frames = init_frames-IsTakenTo stale size }) in
      let (there, pages) = at_end 1024 dir1 _ (omega arith) state1.first in
      let (m2, done2, kept) =
        map_pages-IsKept kmalloc_ap table refl low_real other 256 0 kheap_start dir1 m1 heap_real
          apart refl (omega arith)
          (record {
            first = there;
            heap = others 768 (omega arith);
            pages = pages;
            valid = state1.frames.valid;
          }) in
      let done = map_kernel-step at stale m _ (dir1, m1) (dir1, m2) made done1 done2 in
      let physical = map_kernel-HasPhysical kmalloc_ap at stale m (dir1, m2) done in
      (
        dir1,
        m2,
        done,
        (λ a low. identity-page dir1 m2 low_real kept.first kept.pages a low),
        physical.own,
        physical.entries 0 (λ e. low_real (sym there ∙ e)),
        physical.entries,
      )
