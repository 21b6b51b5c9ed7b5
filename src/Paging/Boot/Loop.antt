-- ===== src/Paging/Boot/Loop.antt =====
-- The loops of `initialise_paging`: the first four megabytes end up mapped to themselves.
use nembus_os.Base.{
  ℕ, zero, suc, ◌+◌, ◌*◌, ◌/◌, ◌%◌, ◌<◌, ◌≤◌, ◌≡◌, ◌≢◌, inl, inr, refl, sym, ap, subst, ◌∙◌, arith,
  some, ◌==◌, Bool-cases, ne→==, ==→eq, ==→ne,
}
use nembus_os.Base.Outcome.{ok}
use nembus_os.Paging.Frames.{Page, FrameSet, alloc_frame}
use nembus_os.Paging.Frames.Release.{IsFrameSet, mapped, alloc_frame-Updates, alloc_frame-kept}
use nembus_os.Paging.Tables.{Table, Directory, PageMemory, put_page, store_table, get_page}
use nembus_os.Paging.Boot.{kheap_start, make_page, map_page, map_pages}
use nembus_os.Paging.Boot.Identity.{IsIdentity, IsMapped, map_page-step, map_page-IsMapped}

-- A page of a well-formed frame set always gets a frame, and the set stays well formed.
alloc_frame-total :
    (page : Page) (fs : FrameSet)
    → IsFrameSet fs
    → (page' : Page) × (fs' : FrameSet) × (alloc_frame page 0 0 fs ≡ ok (page', fs'))
      × IsFrameSet fs'
alloc_frame-total page fs valid = elim (Bool-cases (page.frame == 0)) [
  | inl nothing ↦
      let (r, fs', done, first, updates) =
        alloc_frame-Updates page 0 0 fs valid (==→eq page.frame 0 nothing) in
      (
        mapped page 0 0 r,
        fs',
        done,
        record {
          words = omega (arith, updates.count, updates.words, valid.words);
          some_words = omega (arith, updates.words, valid.some_words);
          few = omega (arith, updates.count, valid.few);
        },
      )
  | inr has ↦ (page, fs, alloc_frame-kept page 0 0 fs (==→ne page.frame 0 has), valid)
]

map_pages-step :
    (kmalloc_ap : ℕ → ℕ × ℕ) (n address : ℕ) (d d1 d2 : Directory × PageMemory)
    → map_page kmalloc_ap address d ≡ ok d1
    → map_pages kmalloc_ap (address + 0x1000) n d1 ≡ ok d2
    → map_pages kmalloc_ap address (suc n) d ≡ ok d2
unfolding map_pages
map_pages-step kmalloc_ap n address d d1 d2 first rest = rw first rest

store_table-other :
    (m : PageMemory) (at a : ℕ) (t : Table) → a ≢ at → (store_table m at t).store a ≡ m.store a
store_table-other m at a t away = rw (ne→== a at away) refl

-- The table of the heap's pages is there already.
pub make_page-heap :
    (kmalloc_ap : ℕ → ℕ × ℕ) (other k address : ℕ) (dir : Directory) (m : PageMemory)
    → other ≢ 0
    → address ≡ kheap_start + k * 0x1000
    → k < 256
    → dir.tables 768 ≡ other
    → make_page kmalloc_ap address (dir, m) ≡ (some (record { table = other; slot = k }), dir, m)
unfolding get_page
make_page-heap kmalloc_ap other k address dir m placed at small heap =
    let index : address / 0x1000 / 1024 ≡ 768 = omega (arith, at) in
    let slot : address / 0x1000 % 1024 ≡ k = omega (arith, at) in
    rw (index, slot, heap, ne→== other 0 placed) refl

module _ (kmalloc_ap : ℕ → ℕ × ℕ) (table : ℕ) (fresh : (kmalloc_ap 0).0 ≡ table)
    (real : table ≢ 0) where
  pub map_pages-IsMapped :
      (n i stop address : ℕ) (dir : Directory) (m : PageMemory)
      → address ≡ i * 0x1000
      → i + n ≡ stop
      → stop ≤ 1024
      → IsMapped table i dir m
      → (dir' : Directory) × (m' : PageMemory) × (map_pages kmalloc_ap address n (dir, m)
          ≡ ok (dir', m'))
        × IsMapped table stop dir' m'
        × ((j : ℕ) → j ≢ 0 → dir'.tables j ≡ dir.tables j)
  unfolding map_pages
  map_pages-IsMapped zero i stop address dir m at end small state =
      let last : i ≡ stop = omega (arith, end) in
      (dir, m, refl, subst (λ (k : ℕ). IsMapped table k dir m) last state, λ j away. refl)
  map_pages-IsMapped (suc n) i stop address dir m at end small state =
      let (dir1, m1, done, others, there, pages, frames) =
        map_page-IsMapped kmalloc_ap table fresh real i dir m (omega (arith, end)) state in
      let (dir2, m2, rest, mapped, later) =
        map_pages-IsMapped n (suc i) stop (address + 0x1000) dir1 m1 (omega (arith, at))
          (omega (arith, end)) small (record { first = inr (there, pages); frames = frames }) in
      (
        dir2,
        m2,
        map_pages-step kmalloc_ap n address (dir, m) (dir1, m1) (dir2, m2)
            (ap (λ (a : ℕ). map_page kmalloc_ap a (dir, m)) at ∙ done) rest,
        mapped,
        λ j away. later j away ∙ others j away,
      )

  -- The heap's pages lie in another table.
  pub record IsKept (other : ℕ) (dir : Directory) (m : PageMemory) : Type 0 where
    pub first : dir.tables 0 ≡ table
    pub heap : dir.tables 768 ≡ other
    pub pages : IsIdentity 1024 (m.store table)
    pub valid : IsFrameSet m.frame_set

  map_page-IsKept :
      (other k address : ℕ) (dir : Directory) (m : PageMemory)
      → other ≢ 0
      → other ≢ table
      → address ≡ kheap_start + k * 0x1000
      → k < 256
      → IsKept other dir m
      → (m' : PageMemory) × (map_page kmalloc_ap address (dir, m) ≡ ok (dir, m'))
        × IsKept other dir m'
  map_page-IsKept other k address dir m placed apart at small state =
      let (page, fs', done, valid) = alloc_frame-total (m.store other k) m.frame_set state.valid in
      (
        store_table (record m { frame_set = fs' }) other (put_page (m.store other) k page),
        map_page-step kmalloc_ap table fresh real address (dir, m)
            (record { table = other; slot = k }) dir m page fs'
            (make_page-heap kmalloc_ap other k address dir m placed at small state.heap) done,
        record {
          first = state.first;
          heap = state.heap;
          pages =
              subst (IsIdentity 1024)
                (sym (
                  store_table-other (record m { frame_set = fs' }) other table _
                    (λ e. apart (sym e))))
                state.pages;
          valid = valid;
        },
      )

  pub map_pages-IsKept :
      (other n k address : ℕ) (dir : Directory) (m : PageMemory)
      → other ≢ 0
      → other ≢ table
      → address ≡ kheap_start + k * 0x1000
      → k + n ≤ 256
      → IsKept other dir m
      → (m' : PageMemory) × (map_pages kmalloc_ap address n (dir, m) ≡ ok (dir, m'))
        × IsKept other dir m'
  unfolding map_pages
  map_pages-IsKept other zero k address dir m placed apart at small state = (m, refl, state)
  map_pages-IsKept other (suc n) k address dir m placed apart at small state =
      let (m1, done, kept) =
        map_page-IsKept other k address dir m placed apart at (omega arith) state in
      let (m2, rest, end) =
        map_pages-IsKept other n (suc k) (address + 0x1000) dir m1 placed apart (omega (arith, at))
          (omega arith) kept in
      (m2, map_pages-step kmalloc_ap n address (dir, m) (dir, m1) (dir, m2) done rest, end)
