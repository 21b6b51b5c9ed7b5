-- ===== src/Vga/Chars.antt =====
-- One character at a time: `putchar` and `delsym`.
use nembus_os.Base.{ℕ, ◌+◌, ◌*◌, ◌%◌, ◌<◌, ◌≤◌, ◌≡◌, ◌≢◌, ◌⊎◌, refl, ◌∙◌, ap, arith, ne→==}
use nembus_os.Base.Words.{w32, add32, sub32}
use nembus_os.Memory.{Memory, store8}
use nembus_os.Memory.Laws.{load8-store8_self, load8-store8_ne}
use nembus_os.Vga.{Screen, vidmem, vga_default_color, vga_set_cursor_pos, putchar, delete, delsym}
use nembus_os.Vga.Lines.{byte_at}

-- The cursor stands in front of a cell of the screen.
pub record IsOnScreen (s : Screen) : Type 0 where
  pub column : s.cursor_x < 160
  pub even : s.cursor_x % 2 ≡ 0
  pub line : s.cursor_y < 25

-- The byte at which that cell begins.
abbrev pub place : Screen → ℕ
place s = s.cursor_y * 160 + s.cursor_x

-- What `putchar` leaves of a character that is no newline.
pub record HasPut (ch : ℕ) (s s' : Screen) : Type 0 where
  pub char : byte_at s' (place s) ≡ ch % 256
  pub colour : byte_at s' (place s + 1) ≡ vga_default_color
  pub same : (p : ℕ) → (p < vidmem + place s) ⊎ (vidmem + place s + 2 ≤ p) → s'.mem p ≡ s.mem p
  pub column : s'.cursor_x ≡ s.cursor_x + 2
  pub line : s'.cursor_y ≡ s.cursor_y

putchar-plain :
    (ch : ℕ) (s : Screen)
    → ch ≢ 10
    → IsOnScreen s
    → putchar ch s
      ≡ vga_set_cursor_pos (s.cursor_x + 2) s.cursor_y (record s {
        mem = store8 (store8 s.mem (vidmem + place s) ch) (vidmem + place s + 1) vga_default_color;
      })
unfolding putchar
putchar-plain ch s plain on =
    let byte : (s.cursor_y * 80 * 2 + s.cursor_x) % w32 ≡ place s =
      omega (arith, on.column, on.line) in
    let first : add32 vidmem (place s) ≡ vidmem + place s = omega (arith, on.column, on.line) in
    let second : add32 vidmem (add32 (place s) 1) ≡ vidmem + place s + 1 =
      omega (arith, on.column, on.line) in
    let column : add32 s.cursor_x 2 ≡ s.cursor_x + 2 = omega (arith, on.column) in
    rw (ne→== ch 10 plain, byte, second, first, column)

-- With the cursor on the screen, and for a character that is no newline, `putchar` writes the character and the default colour into the cell at the cursor, nothing else,
-- and moves the cursor behind the cell.
pub putchar-HasPut : (ch : ℕ) (s : Screen) → ch ≢ 10 → IsOnScreen s → HasPut ch s (putchar ch s)
unfolding vga_set_cursor_pos
putchar-HasPut ch s plain on =
    let colour_at : vidmem + (place s + 1) ≡ vidmem + place s + 1 = omega arith in
    rw (putchar-plain ch s plain on) (record {
      char =
          load8-store8_ne _ (vidmem + place s + 1) vga_default_color (vidmem + place s)
            (omega arith)
          ∙ load8-store8_self s.mem (vidmem + place s) ch;
      colour = rw colour_at (load8-store8_self _ (vidmem + place s + 1) vga_default_color);
      same = λ p out.
          load8-store8_ne _ (vidmem + place s + 1) vga_default_color p (omega arith)
          ∙ load8-store8_ne s.mem (vidmem + place s) ch p (omega arith);
      column = refl;
      line = refl;
    })

delsym-plain :
    (s : Screen) (x : ℕ)
    → s.cursor_x ≡ x + 2
    → x < 160
    → s.cursor_y < 25
    → let s' = delsym s in
      (s'.cursor_x ≡ x)
      × (s'.cursor_y ≡ s.cursor_y)
      × (s'.mem ≡ store8 s.mem (vidmem + (s.cursor_y * 160 + x + 1)) 0)
unfolding delsym delete vga_set_cursor_pos
delsym-plain s x e small line =
    let before : sub32 s.cursor_x 1 ≡ x + 1 = omega arith in
    let byte : (s.cursor_y * 80 * 2 + (x + 1)) % w32 ≡ s.cursor_y * 160 + x + 1 = omega arith in
    let at : add32 vidmem (s.cursor_y * 160 + x + 1) ≡ vidmem + (s.cursor_y * 160 + x + 1) =
      omega arith in
    (omega arith, refl, rw (before, byte, at))

-- After a character other than a newline has been put on the screen, `delsym` brings the cursor back to it, but leaves the character
-- in the cell: it clears the colour, which makes it black on black.
pub delsym-putchar :
    (ch : ℕ) (s : Screen)
    → ch ≢ 10
    → IsOnScreen s
    → let s' = delsym (putchar ch s) in
      (s'.cursor_x ≡ s.cursor_x)
      × (s'.cursor_y ≡ s.cursor_y)
      × (byte_at s' (place s) ≡ ch % 256)
      × (byte_at s' (place s + 1) ≡ 0)
delsym-putchar ch s plain on =
    let put = putchar-HasPut ch s plain on in
    let (x, y, m) =
      delsym-plain (putchar ch s) s.cursor_x put.column on.column
        (omega (arith, put.line, on.line)) in
    let cleared : vidmem + ((putchar ch s).cursor_y * 160 + s.cursor_x + 1)
        ≡ vidmem + (place s + 1) =
      omega (arith, put.line) in
    (
      x,
      y ∙ put.line,
      ap (λ (f : Memory). f (vidmem + place s)) m
          ∙ load8-store8_ne _ _ 0 (vidmem + place s) (omega (arith, put.line))
          ∙ put.char,
      ap (λ (f : Memory). f (vidmem + (place s + 1))) m
          ∙ rw cleared (load8-store8_self _ (vidmem + (place s + 1)) 0),
    )
