-- ===== src/Paging/Boot/Identity.antt =====
-- One round of the loop over the first four megabytes: page `i` gets frame `i`.
use nembus_os.Base.{
  ℕ, suc, ◌*◌, ◌/◌, ◌%◌, ◌<◌, ◌≤◌, ◌≡◌, ◌≢◌, ◌⊎◌, inl, inr, refl, sym, ap, subst, ◌∙◌, arith, some,
  ◌==◌, bit_or, Bool-cases, ltb, ltb→lt, ltb→le, eq→==, ne→==, ==→eq, ==→ne,
}
use nembus_os.Base.Outcome.{ok}
use nembus_os.Paging.Frames.{Page, FrameSet, alloc_frame}
use nembus_os.Paging.Frames.Bitmap.{is_used}
use nembus_os.Paging.Frames.Search.{IsFirstFree}
use nembus_os.Paging.Frames.Release.{IsFrameSet, mapped, alloc_frame-Updates}
use nembus_os.Paging.Tables.{
  Table, Directory, PageMemory, Entry, empty_page, put, put_page, store_table, get_page,
}
use nembus_os.Paging.Boot.{make_page, give_frame, map_page}

-- The frames below `i` are in use, and those from `i` to 1023 are free.
pub record IsTakenTo (i : ℕ) (fs : FrameSet) : Type 0 where
  pub used : (f : ℕ) → f < i → is_used fs f ≡ 1
  pub free : (f : ℕ) → i ≤ f → f < 1024 → is_used fs f ≡ 0
  pub valid : IsFrameSet fs
  pub count : fs.nframes ≡ 4096

-- The pages below `i` have the frames of their own numbers, and the others of the table none.
pub record IsIdentity (i : ℕ) (t : Table) : Type 0 where
  pub below : (j : ℕ) → j < i → t j ≡ mapped empty_page 0 0 j
  pub above : (j : ℕ) → i ≤ j → t j ≡ empty_page

-- The state before round `i`; the first table is made in round 0.
pub record IsMapped (table i : ℕ) (dir : Directory) (m : PageMemory) : Type 0 where
  pub first :
      ((dir.tables 0 ≡ 0) × (i ≡ 0)) ⊎ ((dir.tables 0 ≡ table) × IsIdentity i (m.store table))
  pub frames : IsTakenTo i m.frame_set

-- The state when the table is there.
record HasTable (table i : ℕ) (dir : Directory) (m : PageMemory) : Type 0 where
  present : dir.tables 0 ≡ table
  pages : IsIdentity i (m.store table)
  frames : IsTakenTo i m.frame_set

-- The first free frame is `i`.
first-free :
    (i r : ℕ) (fs : FrameSet)
    → i < 1024
    → IsTakenTo i fs
    → IsFirstFree fs (fs.nframes / 32 * 32) r
    → r ≡ i
first-free i r fs small taken (inl (nowhere, all)) =
    let full = all i (omega (arith, taken.count)) in
    absurd (omega (arith, full, taken.free i (omega arith) small))
first-free i r fs small taken (inr (inside, free, before)) = elim (Bool-cases (r == i)) [
  | inl same ↦ ==→eq r i same
  | inr other ↦ apart (==→ne r i other)
]
  where
    apart : r ≢ i → r ≡ i
    apart ne = elim (Bool-cases (ltb r i)) [
      | inl below ↦ let busy = taken.used r (ltb→lt r i below) in absurd (omega (arith, busy, free))
      | inr above ↦
          let busy = before i (omega (arith, ne, ltb→le r i above)) in
          absurd (omega (arith, busy, taken.free i (omega arith) small))
    ]

store_table_self : (m : PageMemory) (at : ℕ) (t : Table) → (store_table m at t).store at ≡ t
store_table_self m at t = rw (eq→== at at refl) refl

module _ (kmalloc_ap : ℕ → ℕ × ℕ) (table : ℕ) (fresh : (kmalloc_ap 0).0 ≡ table)
    (real : table ≢ 0) where
  make_page-HasTable :
      (i : ℕ) (dir : Directory) (m : PageMemory)
      → i < 1024
      → IsMapped table i dir m
      → (dir' : Directory) × (m' : PageMemory) × (make_page kmalloc_ap (i * 0x1000) (dir, m)
          ≡ (some (record { table = table; slot = i }), dir', m'))
        × HasTable table i dir' m'
        × ((j : ℕ) → j ≢ 0 → dir'.tables j ≡ dir.tables j)
  unfolding get_page
  make_page-HasTable i dir m small state = elim state.first [
    | inl (none_yet, start) ↦
        let first_table : i * 0x1000 / 0x1000 / 1024 ≡ 0 = omega (arith, start) in
        let slot : i * 0x1000 / 0x1000 % 1024 ≡ i = omega (arith, start) in
        (
          record dir {
            tables = put dir.tables 0 table;
            tables_physical = put dir.tables_physical 0 (bit_or (kmalloc_ap 0).1 0x7);
          },
          store_table m table (λ _. empty_page),
          rw (first_table, slot, none_yet, fresh) refl,
          record {
            present = refl;
            pages = record {
              below = λ j low. absurd (omega (arith, start));
              above = λ j high. rw (eq→== table table refl) refl;
            };
            frames = state.frames;
          },
          λ j away. rw (ne→== j 0 away) refl,
        )
    | inr (there, pages) ↦
        let first_table : i * 0x1000 / 0x1000 / 1024 ≡ 0 = omega arith in
        let slot : i * 0x1000 / 0x1000 % 1024 ≡ i = omega arith in
        (
          dir,
          m,
          rw (first_table, slot, there, ne→== table 0 real) refl,
          record { present = there; pages = pages; frames = state.frames },
          λ j away. refl,
        )
  ]

  -- What `alloc_frame` does to the entry of page `i`.
  alloc-next :
      (i : ℕ) (fs : FrameSet) (page : Page)
      → i < 1024
      → IsTakenTo i fs
      → page ≡ empty_page
      → (fs' : FrameSet) × (alloc_frame page 0 0 fs ≡ ok (mapped empty_page 0 0 i, fs'))
        × IsTakenTo (suc i) fs'
  alloc-next i fs page small taken blank =
      let (r, fs', done, first, updates) =
        alloc_frame-Updates page 0 0 fs taken.valid (ap (λ (p : Page). p.frame) blank) in
      let number = first-free i r fs small taken first in
      (
        fs',
        done
            ∙ ap (λ (n : ℕ). ok (mapped page 0 0 n, fs')) number
            ∙ ap (λ (p : Page). ok (mapped p 0 0 i, fs')) blank,
        record {
          used = λ f low. updates.used f ∙ ground (arith, number, taken.used f);
          free = λ f high below. updates.used f ∙ ground (arith, number, taken.free f);
          valid = record {
            words = omega (arith, updates.count, updates.words, taken.valid.words);
            some_words = omega (arith, updates.words, taken.valid.some_words);
            few = omega (arith, updates.count, taken.valid.few);
          };
          count = updates.count ∙ taken.count;
        },
      )

  IsIdentity-put :
      (i : ℕ) (t : Table)
      → IsIdentity i t
      → IsIdentity (suc i) (put_page t i (mapped empty_page 0 0 i))
  IsIdentity-put i t pages = record {
    below = λ j low. elim (Bool-cases (j == i)) [
      | inl here ↦ rw here (ap (mapped empty_page 0 0) (sym (==→eq j i here)))
      | inr away ↦ rw away (pages.below j (omega (arith, ==→ne j i away)))
    ];
    above = λ j high.
        let away : j ≢ i = omega arith in rw (ne→== j i away) (pages.above j (omega arith));
  }

  pub map_page-step :
      (address : ℕ) (d : Directory × PageMemory) (e : Entry) (dir' : Directory) (m' : PageMemory)
      (page : Page) (fs' : FrameSet)
      → make_page kmalloc_ap address d ≡ (some e, dir', m')
      → alloc_frame (m'.store e.table e.slot) 0 0 m'.frame_set ≡ ok (page, fs')
      → map_page kmalloc_ap address d
        ≡ ok (
          dir',
          store_table
              (record m' { frame_set = fs' })
              e.table
              (put_page (m'.store e.table) e.slot page),
        )
  unfolding map_page give_frame
  map_page-step address d e dir' m' page fs' made done = ap (give_frame 0 0) made ∙ rw done refl

  pub map_page-IsMapped :
      (i : ℕ) (dir : Directory) (m : PageMemory)
      → i < 1024
      → IsMapped table i dir m
      → (dir' : Directory) × (m' : PageMemory) × (map_page kmalloc_ap (i * 0x1000) (dir, m)
          ≡ ok (dir', m'))
        × ((j : ℕ) → j ≢ 0 → dir'.tables j ≡ dir.tables j)
        × (dir'.tables 0 ≡ table)
        × IsIdentity (suc i) (m'.store table)
        × IsTakenTo (suc i) m'.frame_set
  map_page-IsMapped i dir m small state =
      let (dir', m', made, has, others) = make_page-HasTable i dir m small state in
      let (fs', done, taken) =
        alloc-next i m'.frame_set (m'.store table i) small has.frames
          (has.pages.above i (omega arith)) in
      (
        dir',
        store_table (record m' { frame_set = fs' }) table
            (put_page (m'.store table) i (mapped empty_page 0 0 i)),
        map_page-step (i * 0x1000) (dir, m) (record { table = table; slot = i }) dir' m' _ fs' made
            done,
        others,
        has.present,
        subst (IsIdentity (suc i))
            (sym (
              store_table_self (record m' { frame_set = fs' }) table
                (put_page (m'.store table) i (mapped empty_page 0 0 i))))
            (IsIdentity-put i (m'.store table) has.pages),
        taken,
      )
