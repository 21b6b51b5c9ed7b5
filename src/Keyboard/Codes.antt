-- ===== src/Keyboard/Codes.antt =====
-- The key codes of src/include/kbdef.h that are used, and the tables of src/impl/keyboard.c from a
-- key code to a character. The tables have 128 entries, of which those behind the last that is
-- written out are 0.
use nembus_os.Base.{ℕ, List, [], ◌∷◌, ◌==◌, if◌then◌else◌}

abbrev pub key_a : ℕ
key_a = 0x1E

abbrev pub key_b : ℕ
key_b = 0x30

abbrev pub key_c : ℕ
key_c = 0x2E

abbrev pub key_d : ℕ
key_d = 0x20

abbrev pub key_e : ℕ
key_e = 0x12

abbrev pub key_f : ℕ
key_f = 0x21

abbrev pub key_g : ℕ
key_g = 0x22

abbrev pub key_h : ℕ
key_h = 0x23

abbrev pub key_i : ℕ
key_i = 0x17

abbrev pub key_j : ℕ
key_j = 0x24

abbrev pub key_k : ℕ
key_k = 0x25

abbrev pub key_l : ℕ
key_l = 0x26

abbrev pub key_m : ℕ
key_m = 0x32

abbrev pub key_n : ℕ
key_n = 0x31

abbrev pub key_o : ℕ
key_o = 0x18

abbrev pub key_p : ℕ
key_p = 0x19

abbrev pub key_q : ℕ
key_q = 0x10

abbrev pub key_r : ℕ
key_r = 0x13

abbrev pub key_s : ℕ
key_s = 0x1F

abbrev pub key_t : ℕ
key_t = 0x14

abbrev pub key_u : ℕ
key_u = 0x16

abbrev pub key_v : ℕ
key_v = 0x2F

abbrev pub key_w : ℕ
key_w = 0x11

abbrev pub key_x : ℕ
key_x = 0x2D

abbrev pub key_y : ℕ
key_y = 0x15

abbrev pub key_z : ℕ
key_z = 0x2C

abbrev pub key_1 : ℕ
key_1 = 0x02

abbrev pub key_2 : ℕ
key_2 = 0x03

abbrev pub key_3 : ℕ
key_3 = 0x04

abbrev pub key_4 : ℕ
key_4 = 0x05

abbrev pub key_5 : ℕ
key_5 = 0x06

abbrev pub key_6 : ℕ
key_6 = 0x07

abbrev pub key_7 : ℕ
key_7 = 0x08

abbrev pub key_8 : ℕ
key_8 = 0x09

abbrev pub key_9 : ℕ
key_9 = 0x0A

abbrev pub key_0 : ℕ
key_0 = 0x0B

abbrev pub key_minus : ℕ
key_minus = 0x0C

abbrev pub key_equal : ℕ
key_equal = 0x0D

abbrev pub key_square_open_bracket : ℕ
key_square_open_bracket = 0x1A

abbrev pub key_square_close_bracket : ℕ
key_square_close_bracket = 0x1B

abbrev pub key_semicolon : ℕ
key_semicolon = 0x27

abbrev pub key_backslash : ℕ
key_backslash = 0x2B

abbrev pub key_comma : ℕ
key_comma = 0x33

abbrev pub key_dot : ℕ
key_dot = 0x34

abbrev pub key_foreslhash : ℕ
key_foreslhash = 0x35

abbrev pub key_space : ℕ
key_space = 0x39

abbrev pub key_enter : ℕ
key_enter = 0x1C

abbrev pub key_backspace : ℕ
key_backspace = 0x0E

abbrev pub keyboard_map : List ℕ
keyboard_map =
    0 ∷ 27 ∷ b'1' ∷ b'2' ∷ b'3' ∷ b'4' ∷ b'5' ∷ b'6' ∷ b'7' ∷ b'8' ∷ b'9' ∷ b'0' ∷ b'-' ∷ b'=' ∷ 0
    ∷ 9 ∷ b'q' ∷ b'w' ∷ b'e' ∷ b'r' ∷ b't' ∷ b'y' ∷ b'u' ∷ b'i' ∷ b'o' ∷ b'p' ∷ b'[' ∷ b']' ∷ 10 ∷ 0
    ∷ b'a' ∷ b's' ∷ b'd' ∷ b'f' ∷ b'g' ∷ b'h' ∷ b'j' ∷ b'k' ∷ b'l' ∷ b';' ∷ 39 ∷ b'`' ∷ 0 ∷ 92
    ∷ b'z' ∷ b'x' ∷ b'c' ∷ b'v' ∷ b'b' ∷ b'n' ∷ b'm' ∷ b',' ∷ b'.' ∷ b'/' ∷ 0 ∷ b'*' ∷ 0 ∷ b' ' ∷ 0
    ∷ 0 ∷ 0 ∷ 0 ∷ 0 ∷ 0 ∷ 0 ∷ 0 ∷ 0 ∷ 0 ∷ 0 ∷ 0 ∷ 0 ∷ 0 ∷ 0 ∷ 0 ∷ b'-' ∷ 0 ∷ 0 ∷ 0 ∷ b'+' ∷ 0 ∷ 0
    ∷ 0 ∷ 0 ∷ 0 ∷ 0 ∷ 0 ∷ 0 ∷ 0 ∷ 0 ∷ 0 ∷ []

abbrev pub caps_keyboard_map : List ℕ
caps_keyboard_map =
    0 ∷ 27 ∷ b'!' ∷ b'@' ∷ b'#' ∷ b'$' ∷ b'%' ∷ b'^' ∷ b'&' ∷ b'*' ∷ b'(' ∷ b')' ∷ b'_' ∷ b'+' ∷ 0
    ∷ 9 ∷ b'Q' ∷ b'W' ∷ b'E' ∷ b'R' ∷ b'T' ∷ b'Y' ∷ b'U' ∷ b'I' ∷ b'O' ∷ b'P' ∷ b'{' ∷ b'}' ∷ 10 ∷ 0
    ∷ b'A' ∷ b'S' ∷ b'D' ∷ b'F' ∷ b'G' ∷ b'H' ∷ b'J' ∷ b'K' ∷ b'L' ∷ b':' ∷ 34 ∷ b'~' ∷ 0 ∷ b'|'
    ∷ b'Z' ∷ b'X' ∷ b'C' ∷ b'V' ∷ b'B' ∷ b'N' ∷ b'M' ∷ b'<' ∷ b'>' ∷ b'?' ∷ 0 ∷ b'*' ∷ 0 ∷ b' ' ∷ 0
    ∷ 0 ∷ 0 ∷ 0 ∷ 0 ∷ 0 ∷ 0 ∷ 0 ∷ 0 ∷ 0 ∷ 0 ∷ 0 ∷ 0 ∷ 0 ∷ 0 ∷ 0 ∷ b'-' ∷ 0 ∷ 0 ∷ 0 ∷ b'+' ∷ 0 ∷ 0
    ∷ 0 ∷ 0 ∷ 0 ∷ 0 ∷ 0 ∷ 0 ∷ 0 ∷ 0 ∷ 0 ∷ []

-- The cases of `get_ascii_char`, a key and its character.
abbrev pub ascii_cases : List (ℕ × ℕ)
ascii_cases =
    (key_a, b'A')
    ∷ (key_b, b'B')
    ∷ (key_c, b'C')
    ∷ (key_d, b'D')
    ∷ (key_e, b'E')
    ∷ (key_f, b'F')
    ∷ (key_g, b'G')
    ∷ (key_h, b'H')
    ∷ (key_i, b'I')
    ∷ (key_j, b'J')
    ∷ (key_k, b'K')
    ∷ (key_l, b'L')
    ∷ (key_m, b'M')
    ∷ (key_n, b'N')
    ∷ (key_o, b'O')
    ∷ (key_p, b'P')
    ∷ (key_q, b'Q')
    ∷ (key_r, b'R')
    ∷ (key_s, b'S')
    ∷ (key_t, b'T')
    ∷ (key_u, b'U')
    ∷ (key_v, b'V')
    ∷ (key_w, b'W')
    ∷ (key_x, b'X')
    ∷ (key_y, b'Y')
    ∷ (key_z, b'Z')
    ∷ (key_1, b'1')
    ∷ (key_2, b'2')
    ∷ (key_3, b'3')
    ∷ (key_4, b'4')
    ∷ (key_5, b'5')
    ∷ (key_6, b'6')
    ∷ (key_7, b'7')
    ∷ (key_8, b'8')
    ∷ (key_9, b'9')
    ∷ (key_0, b'0')
    ∷ (key_minus, b'-')
    ∷ (key_equal, b'=')
    ∷ (key_square_open_bracket, b'[')
    ∷ (key_square_close_bracket, b']')
    ∷ (key_semicolon, b';')
    ∷ (key_backslash, 92)
    ∷ (key_comma, b',')
    ∷ (key_dot, b'.')
    ∷ (key_foreslhash, b'/')
    ∷ (key_space, b' ')
    ∷ (key_enter, 10)
    ∷ (key_backspace, 8)
    ∷ []

-- A `switch` over such cases, with 0 by default.
abbrev pub switch_cases : List (ℕ × ℕ) → (key_code : ℕ) → ℕ
switch_cases [] key_code = 0
switch_cases ((key, char) ∷ rest) key_code =
    let other = switch_cases rest key_code in if key_code == key then char else other

unfoldable pub get_ascii_char : (key_code : ℕ) → ℕ
get_ascii_char key_code = switch_cases ascii_cases key_code
