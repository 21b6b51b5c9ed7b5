-- ===== src/Keyboard/Typing.antt =====
-- Typing a line: what `input` leaves in the buffer and on the screen.
use nembus_os.Base.{
  ℕ, zero, suc, ◌+◌, ◌*◌, ◌%◌, ◌^◌, ◌<◌, ◌≤◌, ◌≡◌, ◌≢◌, ◌⊎◌, refl, ap, ◌∙◌, arith, Bool, not, ◌||◌,
  some, List, [], ◌∷◌, ◌==◌, if◌then◌else◌, get_or, get_elem?, length,
}
use nembus_os.Memory.{store8}
use nembus_os.Memory.Laws.{load8-store8_self, load8-store8_ne}
use nembus_os.Vga.{Screen, vidmem, putchar}
use nembus_os.Vga.Lines.{byte_at}
use nembus_os.Vga.Chars.{place, HasPut, putchar-HasPut}
use nembus_os.Keyboard.{put_byte}
use nembus_os.Keyboard.Codes.{keyboard_map, caps_keyboard_map}

-- The characters that key codes spell, with `capslock` and `shift` as they are.
unfoldable pub spells : (caps shift : Bool) → List ℕ → List ℕ
spells caps shift [] = []
spells caps shift (c ∷ cs) =
    if (c == 0x36) || (c == 0x2A)
    then spells caps (not shift) cs
    else if c == 0x3A
    then spells (not caps) shift cs
    else get_or (if caps || shift then caps_keyboard_map else keyboard_map) c 0
      ∷ spells caps shift cs

-- The bytes of keys, each with a status that says that the byte is there.
abbrev pub strokes : List ℕ → List ℕ → List ℕ
strokes [] rest = rest
strokes (c ∷ cs) rest = 1 ∷ c ∷ strokes cs rest

-- A key other than Enter and the backspace key.
abbrev pub IsTyping : ℕ → Type 0
IsTyping c = (0 < c) × (c < 128) × (c ≢ 0x1C) × (c ≢ 0x0E)

-- `q` lies outside the `n` bytes from `p` on.
abbrev pub Beyond : (p n q : ℕ) → Type 0
Beyond p n q = (q < p) ⊎ (p + n ≤ q)

-- The characters stand in the buffer from `p` on and on the screen from the cursor on, and nothing
-- else has changed.
pub record HasTyped (p : ℕ) (chars : List ℕ) (s s' : Screen) : Type 0 where
  pub stored : (j c : ℕ) → get_elem? chars j ≡ some c → s'.mem (p + j) ≡ c
  pub shown : (j c : ℕ) → get_elem? chars j ≡ some c → byte_at s' (place s + 2 * j) ≡ c
  pub same :
      (q : ℕ)
      → Beyond p (length chars) q
      → Beyond (vidmem + place s) (2 * length chars) q
      → s'.mem q ≡ s.mem q
  pub column : s'.cursor_x ≡ s.cursor_x + 2 * length chars
  pub line : s'.cursor_y ≡ s.cursor_y

-- The line has room for `n` characters, and the buffer lies outside the screen's memory.
pub record HasRoom (p n : ℕ) (s : Screen) : Type 0 where
  pub even : s.cursor_x % 2 ≡ 0
  pub columns : s.cursor_x + 2 * n ≤ 160
  pub line : s.cursor_y < 25
  pub buffer : (p + n ≤ vidmem) ⊎ ((vidmem + 4000 ≤ p) × (p + n < 2 ^ 32))

pub put-HasTyped :
    (p c n : ℕ) (s : Screen)
    → c < 128
    → c ≢ 10
    → HasRoom p (suc n) s
    → HasTyped p (c ∷ []) s (put_byte p c (putchar c s))
put-HasTyped p c n s small plain room = record {
  stored = λ j d found.
      let (first, same) = only j d found in
      let at : p + j ≡ p = omega (arith, first) in
      ap (store8 (putchar c s).mem p c) at
      ∙ load8-store8_self (putchar c s).mem p c
      ∙ omega (arith, same);
  shown = λ j d found.
      let (first, same) = only j d found in
      let at : vidmem + (place s + 2 * j) ≡ vidmem + place s = omega (arith, first) in
      ap (store8 (putchar c s).mem p c) at
      ∙ load8-store8_ne (putchar c s).mem p c (vidmem + place s)
          (omega (arith, room.buffer, room.columns, room.line))
      ∙ put.char
      ∙ omega (arith, same);
  same = λ q buffer cells.
      load8-store8_ne (putchar c s).mem p c q (omega (arith, buffer))
      ∙ put.same q (omega (arith, cells));
  column = omega (arith, put.column);
  line = put.line;
}
  where
    put : HasPut c s (putchar c s)
    put =
        putchar-HasPut c s plain
          record { column = omega (arith, room.columns); even = room.even; line = room.line }

    only : (j d : ℕ) → get_elem? (c ∷ []) j ≡ some d → (j ≡ 0) × (c ≡ d)
    only zero d found = (refl, cc)
    only (suc j) d found = cc

-- One character, and then the rest of them.
pub HasTyped-cons :
    (p c : ℕ) (chars : List ℕ) (s t u : Screen)
    → HasRoom p (suc (length chars)) s
    → HasTyped p (c ∷ []) s t
    → HasTyped (p + 1) chars t u
    → HasTyped p (c ∷ chars) s u
HasTyped-cons p c chars s t u room first rest = record {
  stored = stored;
  shown = shown;
  same = λ q buffer cells.
      rest.same q (omega (arith, buffer)) (omega (arith, cells, first.column, first.line))
      ∙ first.same q (omega (arith, buffer)) (omega (arith, cells));
  column = omega (arith, rest.column, first.column);
  line = rest.line ∙ first.line;
}
  where
    stored : (j d : ℕ) → get_elem? (c ∷ chars) j ≡ some d → u.mem (p + j) ≡ d
    stored zero d found =
        rest.same (p + 0) (omega arith)
          (omega (arith, room.buffer, room.columns, room.line, first.column, first.line))
        ∙ first.stored 0 d found
    stored (suc j) d found =
        let at : p + suc j ≡ p + 1 + j = omega arith in ap u.mem at ∙ rest.stored j d found

    shown : (j d : ℕ) → get_elem? (c ∷ chars) j ≡ some d → byte_at u (place s + 2 * j) ≡ d
    shown zero d found =
        rest.same (vidmem + (place s + 2 * 0)) (omega (arith, room.buffer, room.columns, room.line))
          (omega (arith, first.column, first.line))
        ∙ first.shown 0 d found
    shown (suc j) d found =
        let at : place s + 2 * suc j ≡ place t + 2 * j = omega (arith, first.column, first.line) in
        ap (byte_at u) at ∙ rest.shown j d found

pub HasRoom-rest :
    (p c n : ℕ) (s t : Screen) → HasRoom p (suc n) s → HasTyped p (c ∷ []) s t → HasRoom (p + 1) n t
HasRoom-rest p c n s t room first = record {
  even = omega (arith, first.column, room.even);
  columns = omega (arith, first.column, room.columns);
  line = omega (arith, first.line, room.line);
  buffer = omega (arith, room.buffer);
}
