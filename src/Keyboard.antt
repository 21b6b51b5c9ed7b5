-- ===== src/Keyboard.antt =====
-- The keyboard: src/impl/keyboard.c, with the key codes of src/include/kbdef.h. What the two ports
-- of the keyboard give, one read after the other, is a list of bytes. The buffer lies in the
-- machine's memory, in which the screen is too.
pub mod Codes
pub mod Ascii
pub mod Typing
pub mod Line
mod Tests
use nembus_os.Base.{
  ℕ, zero, suc, ◌+◌, ◌%◌, Bool, true, false, not, ◌&&◌, ◌||◌, List, [], ◌∷◌, ltb, ◌==◌,
  if◌then◌else◌, get_or,
}
use nembus_os.Base.Words.{add32, sub32}
use nembus_os.Base.Outcome.{Outcome, ok, out_of_fuel, ◌>>=◌}
use nembus_os.Memory.{store8}
use nembus_os.Vga.{Screen, putchar, delsym}
use nembus_os.Keyboard.Codes.{keyboard_map, caps_keyboard_map}

-- `capslock` and `shift`, and the screen.
pub record Keyboard : Type 0 where
  pub capslock : Bool
  pub shift : Bool
  pub screen : Screen

-- `char` is signed: a byte from 128 on, the code of a released key, is negative, and is skipped.
unfoldable pub get_input_keycode : List ℕ → Outcome (ℕ × List ℕ)
get_input_keycode [] = out_of_fuel
get_input_keycode (ch ∷ bytes) =
    let rest = get_input_keycode bytes in if ltb ch 128 then ok (ch, bytes) else rest

-- `outb(0x20, 0x20)`
abbrev pub end_interrupt : Keyboard → Keyboard
end_interrupt k = record k { screen = record (k.screen) { ports = (0x20, 0x20) ∷ k.screen.ports } }

-- `*p = c`
abbrev pub put_byte : (p c : ℕ) → Screen → Screen
put_byte p c s = record s { mem = store8 s.mem p c }

abbrev pub char_of : Keyboard → (keycode : ℕ) → ℕ
char_of k keycode =
    get_or (if k.capslock || k.shift then caps_keyboard_map else keyboard_map) keycode 0

-- What `input` does with a key, for `dataPtr` at `p`: the new `dataPtr`, and the rest.
unfoldable pub press : (keycode p : ℕ) → Keyboard → ℕ × Keyboard
press keycode p k =
    if (keycode == 0x36) || (keycode == 0x2A)
    then (p, record k { shift = not k.shift })
    else if keycode == 0x3A
    then (p, record k { capslock = not k.capslock })
    else if keycode == 0x1C
    then (p, record k { screen = putchar 10 k.screen })
    else if keycode == 0x0E
    then (sub32 p 1, record k { screen = put_byte (sub32 p 1) 0 (delsym k.screen) })
    else (
      add32 p 1,
      record k { screen = put_byte p (char_of k keycode) (putchar (char_of k keycode) k.screen) },
    )

-- The loop of `input`. The key code is never negative here, so it ends with code 0 or with Enter.
unfoldable pub input_from :
    (rounds : ℕ) → List ℕ → (p : ℕ) → Keyboard → Outcome (ℕ × Keyboard × List ℕ)
input_from zero bytes p k = out_of_fuel
input_from (suc rounds) [] p k = out_of_fuel
input_from (suc rounds) (status ∷ bytes) p k = get_input_keycode bytes >>= (λ read.
    let ready = status % 2 == 1 in
    let (p', k') = (if ready then press read.0 p (end_interrupt k) else (p, end_interrupt k)) in
    let rest = input_from rounds read.1 p' k' in
    if (ready && (read.0 == 0x1C)) || (read.0 == 0) then ok (p', k', read.1) else rest)

unfoldable pub input :
    (rounds : ℕ) → List ℕ → (buffer : ℕ) → Keyboard → Outcome (ℕ × Keyboard × List ℕ)
input rounds bytes buffer k = input_from rounds bytes buffer k
