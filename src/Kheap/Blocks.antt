-- ===== src/Kheap/Blocks.antt =====
-- A block or hole in memory: its header, and the footer at its end that points back.
use nembus_os.Base.{ℕ, ◌+◌, ◌-◌, ◌^◌, ◌<◌, ◌≤◌, ◌≡◌, ◌⊎◌, ◌∙◌, ap, arith}
use nembus_os.Base.Words.{add32}
use nembus_os.Memory.{Memory, store8, load32, store32}
use nembus_os.Memory.Laws.{
  load8-store8_self, load8-store8_ne, load8-store32_ne, load32-store32_self, load32-store32_ne,
  load32-store8_ne, load32_congr,
}
use nembus_os.Kheap.{heap_magic, get_size, set_size, write_header, write_footer}

pub record IsTagged (m : Memory) (h flag sz : ℕ) : Type 0 where
  pub room : 20 ≤ sz
  pub fits : h + sz ≤ 2 ^ 32
  pub magic : load32 m h ≡ heap_magic
  pub hole : m (h + 4) ≡ flag
  pub size : load32 m (h + 8) ≡ sz
  pub foot : load32 m (h + sz - 8) ≡ heap_magic
  pub back : load32 m (h + sz - 4) ≡ h

-- The part of it that `alloc` reads: `create_heap` writes no footer, and `free` clears it.
pub record IsHeaded (m : Memory) (h flag sz : ℕ) : Type 0 where
  pub room : 20 ≤ sz
  pub fits : h + sz ≤ 2 ^ 32
  pub magic : load32 m h ≡ heap_magic
  pub hole : m (h + 4) ≡ flag
  pub size : load32 m (h + 8) ≡ sz

pub IsTagged-IsHeaded : {m : Memory} {h flag sz : ℕ} → IsTagged m h flag sz → IsHeaded m h flag sz
IsTagged-IsHeaded t = record {
  room = t.room;
  fits = t.fits;
  magic = t.magic;
  hole = t.hole;
  size = t.size;
}

-- `n` agrees with `m` outside the bytes from `h` to `h + sz`.
abbrev pub SameOutside : (h sz : ℕ) → Memory → Memory → Type 0
SameOutside h sz m n = (p : ℕ) → (p < h) ⊎ (h + sz ≤ p) → n p ≡ m p

module _ (m : Memory) (h flag sz f : ℕ) (room : 20 ≤ sz) (fits : h + sz ≤ 2 ^ 32)
    (small : flag < 256) (small_sz : sz < 2 ^ 32) (end : f + 8 ≡ h + sz) where
  tagged : Memory
  tagged =
      store32
        (store32 (store32 (store8 (store32 m h heap_magic) (h + 4) flag) (h + 8) sz) f heap_magic)
        (f + 4) h

  tagged-eq : write_footer (write_header m h flag sz) f h ≡ tagged
  unfolding write_footer write_header tagged
  tagged-eq =
      let e4 : add32 h 4 ≡ h + 4 = omega arith in
      let e8 : add32 h 8 ≡ h + 8 = omega arith in
      let f4 : add32 f 4 ≡ f + 4 = omega arith in rw (e4, e8, f4)

  tagged-IsTagged : IsTagged tagged h flag sz
  unfolding tagged
  tagged-IsTagged = record {
    room = room;
    fits = fits;
    magic = grind (arith, load32-store32_self, load32-store32_ne, load32-store8_ne);
    hole = grind (arith, load8-store8_self, load8-store32_ne);
    size = grind (arith, load32-store32_self, load32-store32_ne);
    foot =
        ap (load32 tagged) foot_at
        ∙ load32-store32_ne _ (f + 4) h f (omega arith) (omega arith) (omega arith)
        ∙ load32-store32_self _ f heap_magic (omega arith) (omega arith);
    back = ap (load32 tagged) back_at ∙ load32-store32_self _ (f + 4) h (omega arith) (omega arith);
  }
    where
      foot_at : h + sz - 8 ≡ f
      foot_at = omega arith

      back_at : h + sz - 4 ≡ f + 4
      back_at = omega arith

  -- The code's two groups of assignments make a tagged block.
  pub write-IsTagged : IsTagged (write_footer (write_header m h flag sz) f h) h flag sz
  write-IsTagged = rw tagged-eq tagged-IsTagged

  tagged-SameOutside : SameOutside h sz m tagged
  unfolding tagged
  tagged-SameOutside p out =
      load8-store32_ne _ (f + 4) h p (omega arith) (omega arith)
      ∙ load8-store32_ne _ f heap_magic p (omega arith) (omega arith)
      ∙ load8-store32_ne _ (h + 8) sz p (omega arith) (omega arith)
      ∙ load8-store8_ne _ (h + 4) flag p (omega arith)
      ∙ load8-store32_ne m h heap_magic p (omega arith) (omega arith)

  -- They write nowhere else.
  pub write-SameOutside : SameOutside h sz m (write_footer (write_header m h flag sz) f h)
  write-SameOutside = rw tagged-eq tagged-SameOutside

-- A block survives what is written outside it.
pub IsTagged-frame :
    {m n : Memory} {h flag sz : ℕ} (a len : ℕ)
    → IsTagged m h flag sz
    → SameOutside a len m n
    → (h + sz ≤ a) ⊎ (a + len ≤ h)
    → IsTagged n h flag sz
IsTagged-frame {m} {n} {h} {flag} {sz} a len t same apart = record {
  room = t.room;
  fits = t.fits;
  magic = word h (omega (arith, t.room)) (omega (arith, t.room)) ∙ t.magic;
  hole = same (h + 4) (omega (arith, t.room)) ∙ t.hole;
  size = word (h + 8) (omega (arith, t.room)) (omega (arith, t.room)) ∙ t.size;
  foot = word (h + sz - 8) (omega (arith, t.room)) (omega (arith, t.room)) ∙ t.foot;
  back = word (h + sz - 4) (omega (arith, t.room)) (omega (arith, t.room)) ∙ t.back;
}
  where
    word : (p : ℕ) → h ≤ p → p + 4 ≤ h + sz → load32 n p ≡ load32 m p
    word p lo hi = load32_congr n m p (omega (arith, t.fits)) λ q q_lo q_hi. same q (omega arith)

pub IsHeaded-frame :
    {m n : Memory} {h flag sz : ℕ} (a len : ℕ)
    → IsHeaded m h flag sz
    → SameOutside a len m n
    → (h + sz ≤ a) ⊎ (a + len ≤ h)
    → IsHeaded n h flag sz
IsHeaded-frame {m} {n} {h} {flag} {sz} a len t same apart = record {
  room = t.room;
  fits = t.fits;
  magic = word h (omega (arith, t.room)) (omega (arith, t.room)) ∙ t.magic;
  hole = same (h + 4) (omega (arith, t.room)) ∙ t.hole;
  size = word (h + 8) (omega (arith, t.room)) (omega (arith, t.room)) ∙ t.size;
}
  where
    word : (p : ℕ) → h ≤ p → p + 4 ≤ h + sz → load32 n p ≡ load32 m p
    word p lo hi = load32_congr n m p (omega (arith, t.fits)) λ q q_lo q_hi. same q (omega arith)

-- The size, as the code reads it.
pub get_size-IsHeaded : (m : Memory) (h flag sz : ℕ) → IsHeaded m h flag sz → get_size m h ≡ sz
get_size-IsHeaded m h flag sz t =
    let field : add32 h 8 ≡ h + 8 = omega (arith, t.room, t.fits) in rw field t.size

-- The assignments that fill a header make one.
pub write_header-IsHeaded :
    (m : Memory) (h flag sz : ℕ)
    → 20 ≤ sz
    → h + sz ≤ 2 ^ 32
    → flag < 256
    → sz < 2 ^ 32
    → IsHeaded (write_header m h flag sz) h flag sz
unfolding write_header
write_header-IsHeaded m h flag sz room fits small small_sz =
    let e4 : add32 h 4 ≡ h + 4 = omega arith in
    let e8 : add32 h 8 ≡ h + 8 = omega arith in
    rw (e4, e8)
      (record {
        room = room;
        fits = fits;
        magic = grind (arith, load32-store32_self, load32-store32_ne, load32-store8_ne);
        hole = grind (arith, load8-store8_self, load8-store32_ne);
        size = grind (arith, load32-store32_self, load32-store32_ne);
      })

-- A hole that grows: its size is set, and a footer written at the new end.
abbrev pub grown : Memory → (h sz : ℕ) → Memory
grown m h sz = write_footer (set_size m h sz) (h + sz - 8) h

module _ (m : Memory) (h flag old sz : ℕ) (t : IsHeaded m h flag old) (more : old ≤ sz)
    (fits : h + sz ≤ 2 ^ 32) (small : sz < 2 ^ 32) where
  stored : Memory
  stored = store32 (store32 (store32 m (h + 8) sz) (h + sz - 8) heap_magic) (h + sz - 4) h

  grown-stored : grown m h sz ≡ stored
  unfolding stored write_footer
  grown-stored =
      let e8 : add32 h 8 ≡ h + 8 = omega (arith, t.room) in
      let f4 : add32 (h + sz - 8) 4 ≡ h + sz - 4 = omega (arith, t.room) in rw (e8, f4)

  stored-IsHeaded : IsHeaded stored h flag sz
  unfolding stored
  stored-IsHeaded =
      let room = t.room in
      let magic = t.magic in
      let hole = t.hole in
      record {
        room = omega arith;
        fits = fits;
        magic = grind (arith, load32-store32_self, load32-store32_ne);
        hole = grind (arith, load8-store32_ne);
        size = grind (arith, load32-store32_self, load32-store32_ne);
      }

  pub grown-IsHeaded : IsHeaded (grown m h sz) h flag sz
  grown-IsHeaded = rw grown-stored stored-IsHeaded

  stored-SameOutside : SameOutside h sz m stored
  unfolding stored
  stored-SameOutside p out =
      let room = t.room in
      load8-store32_ne _ (h + sz - 4) h p (omega arith) (omega arith)
      ∙ load8-store32_ne _ (h + sz - 8) heap_magic p (omega arith) (omega arith)
      ∙ load8-store32_ne m (h + 8) sz p (omega arith) (omega arith)

  pub grown-SameOutside : SameOutside h sz m (grown m h sz)
  grown-SameOutside = rw grown-stored stored-SameOutside
