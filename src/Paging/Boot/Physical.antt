-- ===== src/Paging/Boot/Physical.antt =====
-- The physical entries of the directory, which the processor reads, through the loops of
-- `initialise_paging`.
use nembus_os.Base.{
  ℕ, zero, suc, ◌+◌, ◌/◌, ◌≡◌, ◌≢◌, refl, sym, ap, subst, Option, none, some, bit_or, ◌==◌,
  Bool-cases, inl, inr, ==→eq, List,
}
use nembus_os.Base.Outcome.{Outcome, ok, panic, fault, out_of_fuel, ◌>>=◌}
use nembus_os.Paging.Frames.{alloc_frame}
use nembus_os.Paging.Tables.{Directory, PageMemory, Entry, store_table, put_page, get_page}
use nembus_os.Paging.Boot.{
  init_frames, init_directory, give_frame, make_page, map_page, make_pages, map_pages, map_kernel,
  kheap_start,
}

bind-ok {ℓ κ} :
    {A : Type ℓ} {B : Type κ} (o : Outcome A) (f : A → Outcome B) (b : B)
    → (o >>= f) ≡ ok b
    → (a : A) × (o ≡ ok a) × (f a ≡ ok b)
bind-ok (ok a) f b e = (a, refl, e)
bind-ok panic f b e = cc
bind-ok fault f b e = cc
bind-ok out_of_fuel f b e = cc

abbrev dir_of : (other : Directory) → Outcome (Directory × PageMemory) → Directory
dir_of other (ok d) = d.0
dir_of other panic = other
dir_of other fault = other
dir_of other out_of_fuel = other

kept_dir :
    {R : Type 0} (o : Outcome R) (dir : Directory) (f : R → PageMemory) (d : Directory × PageMemory)
    → (o >>= (λ r. ok (dir, f r))) ≡ ok d
    → d.0 ≡ dir
kept_dir (ok r) dir f d e = ap (dir_of dir) (sym e)
kept_dir panic dir f d e = cc
kept_dir fault dir f d e = cc
kept_dir out_of_fuel dir f d e = cc

module _ (kmalloc_ap : ℕ → ℕ × ℕ) where
  -- Every table of the directory has the physical address that came with it, and the three flags.
  pub record HasPhysical (at : ℕ) (dir : Directory) : Type 0 where
    pub entries : (i : ℕ) → dir.tables i ≢ 0 → dir.tables_physical i ≡ bit_or (kmalloc_ap i).1 0x7
    pub own : dir.physical_addr ≡ at

  make_page-HasPhysical :
      (at address : ℕ) (d : Directory × PageMemory)
      → HasPhysical at d.0
      → HasPhysical at (make_page kmalloc_ap address d).1
  unfolding get_page
  make_page-HasPhysical at address (dir, m) has =
      let page = address / 0x1000 / 1024 in
      elim (Bool-cases (dir.tables page == 0)) [
        | inl none_yet ↦ rw none_yet record {
          entries = λ i real. elim (Bool-cases (i == page)) [
            | inl here ↦
                rw here (ap (λ (k : ℕ). bit_or (kmalloc_ap k).1 0x7) (sym (==→eq i page here)))
            | inr away ↦ rw away (has.entries i (λ e. real (rw away e)))
          ];
          own = has.own;
        }
        | inr there ↦ rw there has
      ]

  give_frame-same :
      (r : Option Entry × Directory × PageMemory) (d : Directory × PageMemory)
      → give_frame 0 0 r ≡ ok d
      → d.0 ≡ r.1
  unfolding give_frame
  give_frame-same (none, dir, m) d e = cc
  give_frame-same (some x, dir, m) d e =
      kept_dir (alloc_frame (m.store x.table x.slot) 0 0 m.frame_set) dir
        (λ result.
          store_table (record m { frame_set = result.1 }) x.table
            (put_page (m.store x.table) x.slot result.0))
        d e

  map_page-HasPhysical :
      (at address : ℕ) (d d' : Directory × PageMemory)
      → map_page kmalloc_ap address d ≡ ok d'
      → HasPhysical at d.0
      → HasPhysical at d'.0
  unfolding map_page
  map_page-HasPhysical at address d d' done has =
      subst (HasPhysical at) (sym (give_frame-same (make_page kmalloc_ap address d) d' done))
        (make_page-HasPhysical at address d has)

  map_pages-HasPhysical :
      (at address n : ℕ) (d d' : Directory × PageMemory)
      → map_pages kmalloc_ap address n d ≡ ok d'
      → HasPhysical at d.0
      → HasPhysical at d'.0
  unfolding map_pages
  map_pages-HasPhysical at address zero d d' done has =
      let same : d ≡ d' = cc in subst (λ (x : Directory × PageMemory). HasPhysical at x.0) same has
  map_pages-HasPhysical at address (suc n) d d' done has =
      let (d1, one, rest) =
        bind-ok (map_page kmalloc_ap address d) (map_pages kmalloc_ap (address + 0x1000) n) d'
          done in
      map_pages-HasPhysical at (address + 0x1000) n d1 d' rest
        (map_page-HasPhysical at address d d1 one has)

  make_pages-HasPhysical :
      (at address n : ℕ) (d : Directory × PageMemory)
      → HasPhysical at d.0
      → HasPhysical at (make_pages kmalloc_ap address n d).0
  unfolding make_pages
  make_pages-HasPhysical at address zero d has = has
  make_pages-HasPhysical at address (suc n) d has =
      let made = make_page kmalloc_ap address d in
      make_pages-HasPhysical at (address + 0x1000) n (made.1, made.2)
        (make_page-HasPhysical at address d has)

  pub map_kernel-HasPhysical :
      (at : ℕ) (stale : List ℕ) (m : PageMemory) (d : Directory × PageMemory)
      → map_kernel kmalloc_ap at stale m ≡ ok d
      → HasPhysical (init_directory at).physical_addr d.0
  unfolding map_kernel
  map_kernel-HasPhysical at stale m d done =
      let place = (init_directory at).physical_addr in
      let begin : Directory × PageMemory =
        (init_directory at, record m { frame_set = init_frames stale }) in
      let tables = make_pages kmalloc_ap kheap_start 256 begin in
      let (low, first, last) =
        bind-ok (map_pages kmalloc_ap 0 1024 tables) (map_pages kmalloc_ap kheap_start 256) d
          done in
      map_pages-HasPhysical place kheap_start 256 low d last (
        map_pages-HasPhysical place 0 1024 tables low first (
          make_pages-HasPhysical place kheap_start 256 begin
            (record { entries = λ i real. absurd (real refl); own = refl })))
