-- ===== src/Vga/Lines.antt =====
-- Whole lines: `clear_line`, `cls`, `scroll_up` and `newline`.
use nembus_os.Base.{
  ℕ, zero, suc, ◌+◌, ◌-◌, ◌*◌, ◌%◌, ◌^◌, ◌<◌, ◌≤◌, ◌≡◌, ◌⊎◌, inl, inr, refl, ◌∙◌, ap, arith,
  Bool-cases, ◌==◌, ltb, ltb→lt, ltb→le, if◌then◌else◌,
}
use nembus_os.Base.Words.{add32}
use nembus_os.Memory.{Memory, store8, memcpy}
use nembus_os.Memory.Laws.{load8-store8_self, load8-store8_ne, IsBytes}
use nembus_os.Memory.Blocks.{memcpy_inside, memcpy_outside}
use nembus_os.Vga.{
  Screen, vidmem, vga_default_color, vga_set_cursor_pos, blank_cells, clear_line, cls, scroll_up,
  newline,
}

-- The byte `q` of a row of blank cells.
abbrev pub blank_byte : ℕ → ℕ
blank_byte q = if q % 2 == 0 then b' ' else vga_default_color

blank_cells_outside :
    (p n q : ℕ) (m : Memory)
    → p + 2 * n < 2 ^ 32
    → (q < p) ⊎ (p + 2 * n ≤ q)
    → blank_cells p n m q ≡ m q
unfolding blank_cells
blank_cells_outside p zero q m fits out = refl
blank_cells_outside p (suc n) q m fits out =
    blank_cells_outside (add32 p 2) n q _ (omega arith) (omega arith)
    ∙ load8-store8_ne _ (add32 p 1) vga_default_color q (omega arith)
    ∙ load8-store8_ne m p b' ' q (omega arith)

blank_cells_inside :
    (p n q : ℕ) (m : Memory)
    → p + 2 * n < 2 ^ 32
    → q < 2 * n
    → blank_cells p n m (p + q) ≡ blank_byte q
unfolding blank_cells
blank_cells_inside p zero q m fits inside = absurd (omega arith)
blank_cells_inside p (suc n) zero m fits inside =
    let at : p + 0 ≡ p = omega arith in
    rw at (
      blank_cells_outside (add32 p 2) n p _ (omega arith) (omega arith)
      ∙ load8-store8_ne _ (add32 p 1) vga_default_color p (omega arith)
      ∙ load8-store8_self m p b' ')
blank_cells_inside p (suc n) (suc zero) m fits inside =
    let at : p + 1 ≡ add32 p 1 = omega arith in
    ap (blank_cells (add32 p 2) n (store8 (store8 m p b' ') (add32 p 1) vga_default_color)) at
    ∙ blank_cells_outside (add32 p 2) n (add32 p 1) _ (omega arith) (omega arith)
    ∙ load8-store8_self _ (add32 p 1) vga_default_color
blank_cells_inside p (suc n) (suc (suc q)) m fits inside =
    let at : p + suc (suc q) ≡ add32 p 2 + q = omega arith in
    let parity : suc (suc q) % 2 ≡ q % 2 = omega arith in
    rw (at, parity) (blank_cells_inside (add32 p 2) n q _ (omega arith) (omega arith))

-- Byte `q` of the screen.
abbrev pub byte_at : Screen → ℕ → ℕ
byte_at s q = s.mem (vidmem + q)

module _ (s : Screen) where
  cls_first : (q : ℕ) → q < 2 → byte_at (cls s) q ≡ blank_byte q
  unfolding cls
  cls_first zero hq =
      load8-store8_ne _ (add32 vidmem 1) vga_default_color vidmem (omega arith)
      ∙ load8-store8_self _ vidmem b' '
  cls_first (suc zero) hq = load8-store8_self _ (add32 vidmem 1) vga_default_color
  cls_first (suc (suc q)) hq = absurd (omega arith)

  cls_rest :
      (p : ℕ) → (p < vidmem) ⊎ (vidmem + 2 ≤ p) → (cls s).mem p ≡ blank_cells vidmem 2000 s.mem p
  unfolding cls
  cls_rest p out =
      load8-store8_ne _ (add32 vidmem 1) vga_default_color p (omega arith)
      ∙ load8-store8_ne _ vidmem b' ' p (omega arith)

  -- `cls` makes every cell of the screen blank, and writes nowhere else.
  pub cls-blank :
      ((q : ℕ) → q < 4000 → byte_at (cls s) q ≡ blank_byte q)
      × ((p : ℕ) → (p < vidmem) ⊎ (vidmem + 4000 ≤ p) → (cls s).mem p ≡ s.mem p)
  cls-blank = (
    λ q hq. elim (Bool-cases (ltb q 2)) [
      | inl first ↦ cls_first q (ltb→lt q 2 first)
      | inr later ↦
          cls_rest (vidmem + q) (omega (arith, ltb→le q 2 later))
          ∙ blank_cells_inside vidmem 2000 q s.mem (omega arith) hq
    ],
    λ p out.
        cls_rest p (omega arith)
        ∙ blank_cells_outside vidmem 2000 p s.mem (omega arith) (omega arith),
  )

  scroll_up-mem :
      (p : ℕ)
      → (scroll_up s).mem p
        ≡ blank_cells (vidmem + 3840) 80 (memcpy s.mem vidmem (vidmem + 160) 3840) p
  unfolding scroll_up clear_line
  scroll_up-mem p = refl

  -- In a memory of bytes `scroll_up` moves every line up by one, makes the last line blank, and writes nowhere else.
  pub scroll_up-lines :
      IsBytes s.mem
      → ((q : ℕ) → q < 3840 → byte_at (scroll_up s) q ≡ byte_at s (q + 160))
        × ((q : ℕ) → q < 160 → byte_at (scroll_up s) (3840 + q) ≡ blank_byte q)
        × ((p : ℕ) → (p < vidmem) ⊎ (vidmem + 4000 ≤ p) → (scroll_up s).mem p ≡ s.mem p)
  scroll_up-lines b = (
    λ q hq.
        let from : vidmem + 160 + (vidmem + q - vidmem) ≡ vidmem + (q + 160) = omega arith in
        scroll_up-mem (vidmem + q)
        ∙ blank_cells_outside (vidmem + 3840) 80 (vidmem + q) _ (omega arith) (omega arith)
        ∙ memcpy_inside s.mem vidmem (vidmem + 160) 3840 (vidmem + q) b (omega arith) (omega arith)
            (omega arith) (omega arith) (omega arith)
        ∙ ap s.mem from,
    λ q hq.
        let at : vidmem + (3840 + q) ≡ vidmem + 3840 + q = omega arith in
        scroll_up-mem (vidmem + (3840 + q))
        ∙ ap (blank_cells (vidmem + 3840) 80 (memcpy s.mem vidmem (vidmem + 160) 3840)) at
        ∙ blank_cells_inside (vidmem + 3840) 80 q _ (omega arith) hq,
    λ p out.
        scroll_up-mem p
        ∙ blank_cells_outside (vidmem + 3840) 80 p _ (omega arith) (omega arith)
        ∙ memcpy_outside s.mem vidmem (vidmem + 160) 3840 p (omega arith) (omega arith),
  )

  -- Above the last line `newline` only moves the cursor to the start of the next one.
  newline-above : s.cursor_y < 24 → newline s ≡ vga_set_cursor_pos 0 (s.cursor_y + 1) s
  unfolding newline
  newline-above above =
      let next : add32 s.cursor_y 1 ≡ s.cursor_y + 1 = omega arith in rw next (ground arith)

  -- On the last line it scrolls, and the cursor stays on that line.
  newline-last : s.cursor_y ≡ 24 → newline s ≡ vga_set_cursor_pos 0 24 (scroll_up s)
  unfolding newline
  newline-last last = ground arith
