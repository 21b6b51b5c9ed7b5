-- ===== src/Keyboard/Line.antt =====
-- `input` reads a line: the loop, key by key.
use nembus_os.Base.{
  ℕ, zero, suc, ◌+◌, ◌-◌, ◌^◌, ◌<◌, ◌≡◌, ◌≢◌, inl, inr, refl, ◌∙◌, arith, true, false, not, ◌||◌,
  List, [], ◌∷◌, ◌==◌, length, All, Bool-cases, ne→==, lt→ltb,
}
use nembus_os.Base.Words.{add32, sub32}
use nembus_os.Base.Outcome.{ok}
use nembus_os.Memory.Laws.{load8-store8_self}
use nembus_os.Vga.{Screen, putchar, delsym}
use nembus_os.Keyboard.{
  Keyboard, get_input_keycode, end_interrupt, put_byte, char_of, press, input_from, input,
}
use nembus_os.Keyboard.Ascii.{table-plain}
use nembus_os.Keyboard.Typing.{
  spells, strokes, IsTyping, HasTyped, HasRoom, put-HasTyped, HasTyped-cons, HasRoom-rest,
}

-- One round of the loop, for a key that does not end it.
input_from-step :
    (rounds c p : ℕ) (bytes : List ℕ) (k : Keyboard)
    → 0 < c
    → c < 128
    → c ≢ 0x1C
    → input_from (suc rounds) (1 ∷ c ∷ bytes) p k
      ≡ input_from rounds bytes (press c p (end_interrupt k)).0 (press c p (end_interrupt k)).1
unfolding input_from get_input_keycode
input_from-step rounds c p bytes k real small other =
    rw (lt→ltb c 128 small, ne→== c 0x1C other, ne→== c 0 (omega arith)) refl

input_from-enter :
    (rounds p : ℕ) (bytes : List ℕ) (k : Keyboard)
    → input_from (suc rounds) (1 ∷ 0x1C ∷ bytes) p k
      ≡ ok (p, record (end_interrupt k) { screen = putchar 10 (end_interrupt k).screen }, bytes)
unfolding input_from get_input_keycode press
input_from-enter rounds p bytes k = refl

press-shift :
    (c p : ℕ) (k : Keyboard)
    → ((c == 0x36) || (c == 0x2A)) ≡ true
    → press c p k ≡ (p, record k { shift = not k.shift })
unfolding press
press-shift c p k shift = rw shift refl

press-caps :
    (c p : ℕ) (k : Keyboard)
    → ((c == 0x36) || (c == 0x2A)) ≡ false
    → (c == 0x3A) ≡ true
    → press c p k ≡ (p, record k { capslock = not k.capslock })
unfolding press
press-caps c p k no_shift caps = rw (no_shift, caps) refl

press-char :
    (c p : ℕ) (k : Keyboard)
    → ((c == 0x36) || (c == 0x2A)) ≡ false
    → (c == 0x3A) ≡ false
    → IsTyping c
    → press c p k
      ≡ (add32 p 1, record k { screen = put_byte p (char_of k c) (putchar (char_of k c) k.screen) })
unfolding press
press-char c p k no_shift no_caps key =
    rw (no_shift, no_caps, ne→== c 0x1C key.2, ne→== c 0x0E key.3) refl

-- The whole line, up to Enter: `dataPtr` behind the characters, the bytes that follow still to be
-- read, and the keyboard before the newline that Enter puts on the screen.
record HasRead (rounds p : ℕ) (bytes rest : List ℕ) (chars : List ℕ) (k : Keyboard) : Type 0 where
  last : Keyboard
  done :
      input_from rounds bytes p k
      ≡ ok (p + length chars, record last { screen = putchar 10 last.screen }, rest)
  typed : HasTyped p chars k.screen last.screen

-- The end of the interrupt changes no byte and no cursor.
after_port :
    (p : ℕ) (chars : List ℕ) (k : Keyboard) (s : Screen)
    → HasTyped p chars (end_interrupt k).screen s
    → HasTyped p chars k.screen s
after_port p chars k s typed = record {
  stored = typed.stored;
  shown = typed.shown;
  same = typed.same;
  column = typed.column;
  line = typed.line;
}

room_after : (p n : ℕ) (k : Keyboard) → HasRoom p n k.screen → HasRoom p n (end_interrupt k).screen
room_after p n k room = record {
  even = room.even;
  columns = room.columns;
  line = room.line;
  buffer = room.buffer;
}

no_typing : (p : ℕ) (k : Keyboard) → HasTyped p [] k.screen (end_interrupt k).screen
no_typing p k = record {
  stored = λ j c found. cc;
  shown = λ j c found. cc;
  same = λ q buffer cells. refl;
  column = omega arith;
  line = refl;
}

input_from-HasRead :
    (rounds p : ℕ) (cs rest : List ℕ) (k : Keyboard)
    → All IsTyping cs
    → length cs < rounds
    → HasRoom p (length (spells k.capslock k.shift cs)) k.screen
    → HasRead rounds p (strokes cs (1 ∷ 0x1C ∷ rest)) rest (spells k.capslock k.shift cs) k
unfolding spells
input_from-HasRead zero p cs rest k keys enough room = absurd (omega arith)
input_from-HasRead (suc rounds) p [] rest k keys enough room =
    let nothing : p + 0 ≡ p = omega arith in
    record {
      last = end_interrupt k;
      done = rw nothing (input_from-enter rounds p rest k);
      typed = no_typing p k;
    }
input_from-HasRead (suc rounds) p (c ∷ cs) rest k keys enough room =
    let step =
      input_from-step rounds c p (strokes cs (1 ∷ 0x1C ∷ rest)) k keys.0.0 keys.0.1 keys.0.2 in
    elim (Bool-cases ((c == 0x36) || (c == 0x2A))) [
      | inl shift ↦
          let next =
            input_from-HasRead rounds p cs rest (record (end_interrupt k) { shift = not k.shift })
              keys.1 (omega arith) (room_after p _ k (rw shift at room)) in
          rw shift record {
            last = next.last;
            done = step ∙ rw (press-shift c p (end_interrupt k) shift) next.done;
            typed = after_port p _ k next.last.screen next.typed;
          }
      | inr no_shift ↦ elim (Bool-cases (c == 0x3A)) [
        | inl caps ↦
            let next =
              input_from-HasRead rounds p cs rest
                (record (end_interrupt k) { capslock = not k.capslock }) keys.1 (omega arith)
                (room_after p _ k (rw (no_shift, caps) at room)) in
            rw (no_shift, caps)
              record {
                last = next.last;
                done = step ∙ rw (press-caps c p (end_interrupt k) no_shift caps) next.done;
                typed = after_port p _ k next.last.screen next.typed;
              }
        | inr no_caps ↦
            let char = char_of k c in
            let chars = spells k.capslock k.shift cs in
            let here = rw (no_shift, no_caps) at room in
            let begun = room_after p (suc (length chars)) k here in
            let plain = table-plain c (k.capslock || k.shift) keys.0.1 in
            let one =
              put-HasTyped p char (length chars) (end_interrupt k).screen plain.0 (plain.1 keys.0.2)
                begun in
            let next =
              input_from-HasRead rounds (p + 1) cs rest
                (record (end_interrupt k) {
                  screen = put_byte p char (putchar char (end_interrupt k).screen);
                })
                keys.1 (omega arith) (HasRoom-rest p char (length chars) _ _ begun one) in
            let at : add32 p 1 ≡ p + 1 = omega (arith, here.buffer) in
            let end : p + suc (length chars) ≡ p + 1 + length chars = omega arith in
            rw (no_shift, no_caps)
              record {
                last = next.last;
                done =
                    step
                    ∙ rw (press-char c p (end_interrupt k) no_shift no_caps keys.0, at, end)
                        next.done;
                typed =
                    after_port p _ k next.last.screen
                      (HasTyped-cons p char chars _ _ _ begun one next.typed);
              }
      ]
    ]

-- With more rounds than keys, a line of keys other than Enter and the backspace key, all read with a
-- status that is ready, and then Enter: `input` ends, and leaves exactly the characters that the keys
-- spell, under the shift and the caps lock as they are switched on the way, in the buffer and on the
-- screen; then it puts a newline. No zero byte is put behind the characters. The characters have to
-- fit the screen's line, and the buffer has to lie outside the screen's memory.
pub input-HasRead :
    (rounds buffer : ℕ) (cs rest : List ℕ) (k : Keyboard)
    → All IsTyping cs
    → length cs < rounds
    → HasRoom buffer (length (spells k.capslock k.shift cs)) k.screen
    → (last : Keyboard) × (input rounds (strokes cs (1 ∷ 0x1C ∷ rest)) buffer k
        ≡ ok (
          buffer + length (spells k.capslock k.shift cs),
          record last { screen = putchar 10 last.screen },
          rest,
        ))
      × HasTyped buffer (spells k.capslock k.shift cs) k.screen last.screen
unfolding input
input-HasRead rounds buffer cs rest k keys enough room =
    let read = input_from-HasRead rounds buffer cs rest k keys enough room in
    (read.last, read.done, read.typed)

press-backspace :
    (p : ℕ) (k : Keyboard)
    → press 0x0E p k ≡ (sub32 p 1, record k { screen = put_byte (sub32 p 1) 0 (delsym k.screen) })
unfolding press
press-backspace p k = refl

-- The backspace key moves `dataPtr` back by one and clears the byte there, also when no character has
-- been typed: then it clears the byte before the buffer, and what is typed next goes there.
pub input-backspace :
    (rounds buffer : ℕ) (bytes : List ℕ) (k : Keyboard)
    → 0 < buffer
    → buffer < 2 ^ 32
    → (k' : Keyboard) × (input (suc rounds) (1 ∷ 0x0E ∷ bytes) buffer k
        ≡ input rounds bytes (buffer - 1) k')
      × (k'.screen.mem (buffer - 1) ≡ 0)
      × (k'.screen.cursor_x ≡ (delsym (end_interrupt k).screen).cursor_x)
unfolding input
input-backspace rounds buffer bytes k real small =
    let before : sub32 buffer 1 ≡ buffer - 1 = omega arith in
    (
      record (end_interrupt k) {
        screen = put_byte (buffer - 1) 0 (delsym (end_interrupt k).screen);
      },
      input_from-step rounds 0x0E buffer bytes k (omega arith) (omega arith) (omega arith)
          ∙ rw (press-backspace buffer (end_interrupt k), before) refl,
      load8-store8_self (delsym (end_interrupt k).screen).mem (buffer - 1) 0,
      refl,
    )
