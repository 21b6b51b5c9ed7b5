-- ===== src/Paging/Tables/Pages.antt =====
-- `clone_table`, page by page.
use nembus_os.Base.{
  ℕ, zero, suc, ◌+◌, ◌*◌, ◌%◌, ◌<◌, ◌≤◌, ◌≡◌, ◌≢◌, inl, inr, refl, sym, ◌∙◌, ap, subst, arith,
  Bool-cases, some, ◌==◌, ==→eq, ==→ne, ne→==, eq→==, if◌then◌else◌, List, ◌∷◌, get_elem?,
}
use nembus_os.Base.Words.{w32}
use nembus_os.Base.Outcome.{ok, ◌>>=◌}
use nembus_os.Paging.Frames.{Page}
use nembus_os.Paging.Frames.Release.{IsFrameSet, mapped, alloc_frame-Updates}
use nembus_os.Paging.Tables.{
  Table, PageMemory, Cloning, empty_page, put_page, store_table, copy_flags, clone_page,
  clone_pages, clone_table,
}

abbrev pub IsIn : ℕ × ℕ → List (ℕ × ℕ) → Type 0
IsIn x xs = (n : ℕ) × (get_elem? xs n ≡ some x)

-- A page of the clone. Where the source has a frame, the clone has one with the flags that the
-- source has, and the two that `alloc_frame` sets, and the copy of the frame has been ordered.
pub record IsClone (src page : Page) (copies : List (ℕ × ℕ)) : Type 0 where
  pub none : src.frame ≡ 0 → page ≡ empty_page
  pub present : src.frame ≢ 0 → page.present ≡ 1
  pub user : src.frame ≢ 0 → page.user ≡ 1
  pub rw_flag : src.frame ≢ 0 → page.rw ≡ (if src.rw == 0 then 0 else 1)
  pub accessed : src.frame ≢ 0 → page.accessed ≡ (if src.accessed == 0 then 0 else 1)
  pub dirty : src.frame ≢ 0 → page.dirty ≡ (if src.dirty == 0 then 0 else 1)
  pub copied : src.frame ≢ 0 → IsIn (src.frame * 0x1000 % w32, page.frame * 0x1000 % w32) copies

pub IsClone-more :
    (src page : Page) (copies more : List (ℕ × ℕ))
    → ((x : ℕ × ℕ) → IsIn x copies → IsIn x more)
    → IsClone src page copies
    → IsClone src page more
IsClone-more src page copies more grows c = record {
  none = c.none;
  present = c.present;
  user = c.user;
  rw_flag = c.rw_flag;
  accessed = c.accessed;
  dirty = c.dirty;
  copied = λ real. grows _ (c.copied real);
}

-- The pages below `i` are cloned, and the others are empty.
record IsClonedTo (src : Table) (i : ℕ) (c : Cloning) : Type 0 where
  below : (j : ℕ) → j < i → IsClone (src j) (c.table j) c.copies
  above : (j : ℕ) → i ≤ j → c.table j ≡ empty_page
  valid : IsFrameSet c.frame_set

IsClone-flags :
    (src page : Page) (r : ℕ) (copies : List (ℕ × ℕ))
    → page ≡ empty_page
    → src.frame ≢ 0
    → let new = copy_flags src (mapped page 0 0 r) in
      IsClone src new ((src.frame * 0x1000 % w32, new.frame * 0x1000 % w32) ∷ copies)
IsClone-flags src page r copies blank real =
    let accessed : page.accessed ≡ 0 = ap (λ (p : Page). p.accessed) blank in
    let dirty : page.dirty ≡ 0 = ap (λ (p : Page). p.dirty) blank in
    record {
      none = λ e. absurd (real e);
      present = λ _. ground arith;
      user = λ _. ground arith;
      rw_flag = λ _. ground arith;
      accessed = λ _. rw accessed refl;
      dirty = λ _. rw dirty refl;
      copied = λ _. (0, refl);
    }

clone_page-IsClonedTo :
    (src : Table) (i : ℕ) (c : Cloning)
    → IsClonedTo src i c
    → (c' : Cloning) × (clone_page src i c ≡ ok c')
      × IsClonedTo src (suc i) c'
      × ((x : ℕ × ℕ) → IsIn x c.copies → IsIn x c'.copies)
clone_page-IsClonedTo src i c state = elim (Bool-cases ((src i).frame == 0)) [
  | inl empty ↦ (
    c,
    rw empty refl,
    record {
      below = λ j low. elim (Bool-cases (j == i)) [
        | inl here ↦
            subst (λ (n : ℕ). IsClone (src n) (c.table n) c.copies) (sym (==→eq j i here))
              (vacant (==→eq (src i).frame 0 empty))
        | inr away ↦ state.below j (omega (arith, ==→ne j i away))
      ];
      above = λ j high. state.above j (omega arith);
      valid = state.valid;
    },
    λ x found. found,
  )
  | inr full ↦
      let real = ==→ne (src i).frame 0 full in
      let blank = state.above i (omega arith) in
      let (r, fs, done, first, up) =
        alloc_frame-Updates (c.table i) 0 0 c.frame_set state.valid
          (ap (λ (p : Page). p.frame) blank) in
      let new = copy_flags (src i) (mapped (c.table i) 0 0 r) in
      let copies = ((src i).frame * 0x1000 % w32, new.frame * 0x1000 % w32) ∷ c.copies in
      (
        record { table = put_page c.table i new; frame_set = fs; copies = copies },
        rw (full, done) refl,
        record {
          below = λ j low. elim (Bool-cases (j == i)) [
            | inl here ↦ rw here (
                subst (λ (n : ℕ). IsClone (src n) new copies) (sym (==→eq j i here))
                  (IsClone-flags (src i) (c.table i) r c.copies blank real))
            | inr away ↦ rw away (
                IsClone-more (src j) (c.table j) c.copies copies (λ x found. (suc found.0, found.1))
                  (state.below j (omega (arith, ==→ne j i away))))
          ];
          above = λ j high. rw (ne→== j i (omega arith)) (state.above j (omega arith));
          valid = record {
            words = omega (arith, state.valid.words, up.count, up.words);
            some_words = omega (arith, state.valid.some_words, up.words);
            few = omega (arith, state.valid.few, up.count);
          };
        },
        λ x found. (suc found.0, found.1),
      )
]
  where
    vacant : (src i).frame ≡ 0 → IsClone (src i) (c.table i) c.copies
    vacant empty = record {
      none = λ _. state.above i (omega arith);
      present = λ real. absurd (real empty);
      user = λ real. absurd (real empty);
      rw_flag = λ real. absurd (real empty);
      accessed = λ real. absurd (real empty);
      dirty = λ real. absurd (real empty);
      copied = λ real. absurd (real empty);
    }

clone_pages-IsClonedTo :
    (src : Table) (i n : ℕ) (c : Cloning)
    → IsClonedTo src i c
    → (c' : Cloning) × (clone_pages src i n c ≡ ok c')
      × IsClonedTo src (i + n) c'
      × ((x : ℕ × ℕ) → IsIn x c.copies → IsIn x c'.copies)
unfolding clone_pages
clone_pages-IsClonedTo src i zero c state =
    let end : i ≡ i + 0 = omega arith in
    (c, refl, subst (λ (k : ℕ). IsClonedTo src k c) end state, λ x found. found)
clone_pages-IsClonedTo src i (suc n) c state =
    let next : suc i ≡ i + 1 = omega arith in
    let end : i + 1 + n ≡ i + suc n = omega arith in
    let (c1, one, state1, more1) = clone_page-IsClonedTo src i c state in
    let (c2, rest, state2, more2) =
      clone_pages-IsClonedTo src (i + 1) n c1
        (subst (λ (k : ℕ). IsClonedTo src k c1) next state1) in
    (
      c2,
      ap (λ o. o >>= clone_pages src (i + 1) n) one ∙ rest,
      subst (λ (k : ℕ). IsClonedTo src k c2) end state2,
      λ x found. more2 x (more1 x found),
    )

-- `clone_table` fills its table with a clone of each page of the source, and leaves all other tables
-- as they are.
pub record HasCloned (src fresh : ℕ) (m m' : PageMemory) : Type 0 where
  pub pages : (k : ℕ) → k < 1024 → IsClone (m.store src k) (m'.store fresh k) m'.copies
  pub others : (a : ℕ) → a ≢ fresh → m'.store a ≡ m.store a
  pub more : (x : ℕ × ℕ) → IsIn x m.copies → IsIn x m'.copies
  pub valid : IsFrameSet m'.frame_set

pub clone_table-HasCloned :
    (src fresh : ℕ) (m : PageMemory)
    → IsFrameSet m.frame_set
    → (m' : PageMemory) × (clone_table src fresh m ≡ ok m') × HasCloned src fresh m m'
unfolding clone_table
clone_table-HasCloned src fresh m valid =
    let (c, done, state, more) =
      clone_pages-IsClonedTo (m.store src) 0 1024
        (record { table = λ _. empty_page; frame_set = m.frame_set; copies = m.copies })
        (record { below = λ j low. absurd (omega arith); above = λ j high. refl; valid = valid }) in
    (
      record (store_table m fresh c.table) { frame_set = c.frame_set; copies = c.copies },
      rw done refl,
      record {
        pages = λ k low. rw (eq→== fresh fresh refl) (state.below k (omega arith));
        others = λ a away. rw (ne→== a fresh away) refl;
        more = more;
        valid = state.valid;
      },
    )
