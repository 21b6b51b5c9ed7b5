-- ===== src/Vga.antt =====
-- The text screen of src/impl/vga.c and src/include/vga.h. Video memory is part of the machine's
-- memory; the cursor's coordinates are 32-bit words, since `int64_t` is `long` there and the kernel
-- is built with -m32; a write to a port is a pair in a list, latest first.
pub mod Lines
pub mod Chars
pub mod Hex
mod Tests
use nembus_os.Base.{
  ℕ, zero, suc, ◌+◌, ◌-◌, ◌*◌, ◌/◌, ◌%◌, ◌^◌, Bool, true, false, not, ◌&&◌, List, [], ◌∷◌, ltb, leb,
  ◌==◌, if◌then◌else◌, bit_or,
}
use nembus_os.Base.Words.{w32, add32, sub32, sle32}
use nembus_os.Memory.{Memory, store8, memcpy, memset}

abbrev vga_lines : ℕ
vga_lines = 25

abbrev vga_columns_in_line : ℕ
vga_columns_in_line = 80

abbrev vga_bytes_for_each_element : ℕ
vga_bytes_for_each_element = 2

abbrev vga_screensize : ℕ
vga_screensize = vga_bytes_for_each_element * vga_columns_in_line * vga_lines

abbrev pub vga_default_color : ℕ
vga_default_color = 0x07

abbrev pub vidmem : ℕ
vidmem = 0xb8000

pub record Screen : Type 0 where
  pub mem : Memory
  pub cursor_x : ℕ
  pub cursor_y : ℕ
  pub ports : List (ℕ × ℕ)

-- `vidmem[i] = v`
abbrev poke : (i v : ℕ) → Memory → Memory
poke i v m = store8 m (add32 vidmem i) v

-- `outportb`
abbrev outportb : (port val : ℕ) → List (ℕ × ℕ) → List (ℕ × ℕ)
outportb port val ports = (port, val % 256) ∷ ports

-- `x / 2` on a signed word rounds towards 0.
abbrev half_signed : ℕ → ℕ
half_signed x = if ltb x (2 ^ 31) then x / 2 else sub32 0 ((w32 - x) / 2)

-- The cursor's place in characters, as 16 bits.
abbrev cursor_location : (x y : ℕ) → ℕ
cursor_location x y = (y * vga_columns_in_line + half_signed x) % w32 % 2 ^ 16

pub vga_set_cursor_pos : (x y : ℕ) → Screen → Screen
vga_set_cursor_pos x y s =
    let location = cursor_location x y in
    record s {
      cursor_x = x;
      cursor_y = y;
      ports =
          outportb 0x3D5 location
            (outportb 0x3D4 15 (outportb 0x3D5 (location / 2 ^ 8) (outportb 0x3D4 14 s.ports)));
    }

-- A blank cell, and the loop of `clear_line` and `cls` over the cells from `p` on.
pub blank_cells : (p rounds : ℕ) → Memory → Memory
blank_cells p zero m = m
blank_cells p (suc n) m =
    blank_cells (add32 p 2) n (store8 (store8 m p b' ') (add32 p 1) vga_default_color)

pub clear_line : (p : ℕ) → Memory → Memory
clear_line p m = blank_cells p vga_columns_in_line m

-- The loop takes a cell of two bytes each round, until `i` is `VGA_SCREENSIZE`.
pub cls : Screen → Screen
cls s =
    let cleared = blank_cells vidmem (vga_lines * vga_columns_in_line) s.mem in
    record s { mem = poke 1 vga_default_color (poke 0 b' ' cleared) }

abbrev line_bytes : ℕ
line_bytes = vga_columns_in_line * vga_bytes_for_each_element

pub scroll_up : Screen → Screen
scroll_up s =
    let moved = memcpy s.mem vidmem (vidmem + line_bytes) (vga_screensize - line_bytes) in
    record s { mem = clear_line (vidmem + vga_screensize - line_bytes) moved }

pub newline : Screen → Screen
newline s =
    if sle32 (vga_lines - 1) s.cursor_y
    then vga_set_cursor_pos 0 s.cursor_y (scroll_up s)
    else vga_set_cursor_pos 0 (add32 s.cursor_y 1) s

-- The byte of the screen at which the cursor stands.
abbrev cursor_byte : Screen → ℕ
cursor_byte s = (s.cursor_y * vga_columns_in_line * vga_bytes_for_each_element + s.cursor_x) % w32

pub putchar : (ch : ℕ) → Screen → Screen
putchar ch s =
    let i = cursor_byte s in
    if ch == 10
    then newline s
    else vga_set_cursor_pos (add32 s.cursor_x vga_bytes_for_each_element) s.cursor_y
        (record s { mem = poke (add32 i 1) vga_default_color (poke i ch s.mem) })

-- `printf`: the list is the memory from `message` on, and a zero byte ends it.
unfoldable pub printf : List ℕ → Screen → Screen
printf [] s = s
printf (c ∷ message) s = let rest = printf message (putchar c s) in if c == 0 then s else rest

-- A hexadecimal digit, as both branches of `printfhex` compute it.
abbrev pub hex_digit : ℕ → ℕ
hex_digit tmp = if leb 0xA tmp then tmp - 0xA + b'a' else tmp + b'0'

-- The loop of `printfhex`, with `rounds` digits in front of the last; leading zeros are skipped.
pub print_digits : (n rounds : ℕ) → (no_zeroes : Bool) → Screen → Screen
print_digits n zero no_zeroes s = s
print_digits n (suc k) no_zeroes s =
    let tmp = n / 2 ^ (4 * suc k) % 16 in
    let skip = (tmp == 0) && no_zeroes in
    print_digits n k skip (if skip then s else putchar (hex_digit tmp) s)

pub printfhex : (n : ℕ) → Screen → Screen
unfolding printf print_digits
printfhex n s =
    putchar (hex_digit (n % 16)) (print_digits n 7 true (printf (b'0' ∷ b'x' ∷ 0 ∷ []) s))

-- `scroll`, which moves bytes, not cells: both loops run from the lowest address up.
unfoldable scroll : Screen → Screen
scroll s =
    if sle32 25 s.cursor_y
    then (let moved = memcpy s.mem vidmem (vidmem + 80) (24 * 80) in
        let blanked = memset moved (vidmem + 24 * 80) (bit_or 0x20 (15 * 2 ^ 8)) 80 in
        vga_set_cursor_pos s.cursor_x 24 (record s { mem = blanked }))
    else s

-- `delete`: `cursor_x--` yields the old column for the write.
pub delete : Screen → Screen
delete s =
    let i = cursor_byte s in
    let x = sub32 s.cursor_x 1 in
    vga_set_cursor_pos (sub32 (add32 x vga_bytes_for_each_element) 2) s.cursor_y
      (record s { mem = poke i 0 s.mem; cursor_x = x })

pub delsym : Screen → Screen
delsym s = delete (vga_set_cursor_pos (sub32 s.cursor_x 1) s.cursor_y s)

-- The low byte of `vga_entry(c, VGA_DEFAULT_COLOR)` is `c`.
unfoldable putcharat : (c x y : ℕ) → Screen → Screen
putcharat c x y s =
    let index = (y * vga_columns_in_line + x) % w32 in
    vga_set_cursor_pos (add32 x 1) y
      (record s { mem = poke index (bit_or (c % 256) (vga_default_color * 2 ^ 8)) s.mem })

unfoldable vga_disable_cursor : Screen → Screen
vga_disable_cursor s = record s { ports = outportb 0x3D5 32 (outportb 0x3D4 10 s.ports) }
