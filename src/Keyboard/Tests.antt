-- ===== src/Keyboard/Tests.antt =====
-- Keys typed into a buffer at 0x8000, with the cursor at the start of the third line.
use nembus_os.Base.{
  ℕ, All, ◌+◌, ◌-◌, ◌≡◌, ◌≢◌, ◌≤◌, refl, arith, inl, false, List, [], ◌∷◌, length, get_or,
}
use nembus_os.Base.Outcome.{ok}
use nembus_os.Vga.{putchar}
use nembus_os.Keyboard.{Keyboard, input, get_input_keycode}
use nembus_os.Keyboard.Codes.{key_a, key_backspace, keyboard_map, caps_keyboard_map, get_ascii_char}
use nembus_os.Keyboard.Ascii.{to_upper, get_ascii_char-tables}
use nembus_os.Keyboard.Typing.{IsTyping, spells, strokes, HasTyped}
use nembus_os.Keyboard.Line.{input-HasRead}

abbrev keyboard : Keyboard
keyboard = record {
  capslock = false;
  shift = false;
  screen = record { mem = λ p. 0; cursor_x = 0; cursor_y = 2; ports = [] };
}

-- `h`, shift, `i`, shift, `!` without shift.
abbrev keys : List ℕ
keys = 0x23 ∷ 0x2A ∷ 0x17 ∷ 0x2A ∷ 0x02 ∷ []

spells-keys : spells false false keys ≡ b'h' ∷ b'I' ∷ b'1' ∷ []
unfolding spells
spells-keys = refl

-- The codes of released keys, from 128 on, are passed over.
skips_released : get_input_keycode (0xA3 ∷ 0xAA ∷ 0x17 ∷ []) ≡ ok (0x17, [])
unfolding get_input_keycode
skips_released = refl

keys-IsTyping : All IsTyping keys
keys-IsTyping = (
  (omega arith, omega arith, omega arith, omega arith),
  (
    (omega arith, omega arith, omega arith, omega arith),
    (
      (omega arith, omega arith, omega arith, omega arith),
      (
        (omega arith, omega arith, omega arith, omega arith),
        ((omega arith, omega arith, omega arith, omega arith), tt),
      ),
    ),
  ),
)

input-HasRead_example :
    (last : Keyboard) × (input 6 (strokes keys (1 ∷ 0x1C ∷ [])) 0x8000 keyboard
      ≡ ok (
        0x8000 + length (spells false false keys),
        record last { screen = putchar 10 last.screen },
        [],
      ))
    × HasTyped 0x8000 (spells false false keys) keyboard.screen last.screen
unfolding spells
input-HasRead_example =
    input-HasRead 6 0x8000 keys [] keyboard keys-IsTyping (omega arith)
      record { even = refl; columns = omega arith; line = omega arith; buffer = inl (omega arith) }

get_ascii_char-tables_example :
    let plain = get_or keyboard_map key_a 0 in
    let upper = get_or caps_keyboard_map key_a 0 in
    (get_ascii_char key_a ≢ 0 → key_a ≢ key_backspace → get_ascii_char key_a ≡ to_upper plain)
    × (b'a' ≤ plain → plain ≤ b'z' → upper ≡ plain - 32)
    × ((plain ≡ 0 → upper ≡ 0) × (upper ≡ 0 → plain ≡ 0))
get_ascii_char-tables_example = get_ascii_char-tables key_a (omega arith)
