-- ===== src/Keyboard/Ascii.antt =====
-- The tables from key codes to characters against each other.
use nembus_os.Base.{
  ℕ, zero, suc, ◌-◌, ◌<◌, ◌≤◌, ◌≡◌, ◌≢◌, refl, ◌∙◌, ap, arith, Bool, true, false, not, ◌&&◌, ◌||◌,
  ltb, leb, ◌==◌, if◌then◌else◌, get_or, Bool-cases, inl, inr, ltb→lt, ltb→le,
}
use nembus_os.Keyboard.Codes.{
  key_backspace, key_enter, keyboard_map, caps_keyboard_map, ascii_cases, switch_cases,
  get_ascii_char,
}

-- A test that holds of every number below `n`.
abbrev pub all_below : (ℕ → Bool) → (n : ℕ) → Bool
all_below test zero = true
all_below test (suc n) = test n && all_below test n

and-left : (x y : Bool) → (x && y) ≡ true → x ≡ true
and-left true y h = refl
and-left false y h = h

and-right : (x y : Bool) → (x && y) ≡ true → y ≡ true
and-right true y h = h
and-right false y h = absurd (ground (arith, h))

pub all_below→ : (test : ℕ → Bool) (n i : ℕ) → all_below test n ≡ true → i < n → test i ≡ true
all_below→ test zero i all small = absurd (omega arith)
all_below→ test (suc n) i all small = elim (Bool-cases (ltb i n)) [
  | inl below ↦ all_below→ test n i (and-right (test n) (all_below test n) all) (ltb→lt i n below)
  | inr last ↦
      let at : i ≡ n = omega (arith, ltb→le i n last) in
      ap test at ∙ and-left (test n) (all_below test n) all
]

-- A capital letter for a small one.
abbrev pub to_upper : ℕ → ℕ
to_upper c = if leb b'a' c && leb c b'z' then c - 32 else c

is_lower : ℕ → Bool
is_lower c = leb b'a' c && leb c b'z'

same : Bool → Bool → Bool
same true y = y
same false y = not y

-- The character of a key without and with the shift, and the key's case in `get_ascii_char`.
abbrev agrees : (code : ℕ) → Bool
unfolding is_lower same
agrees code =
    let plain = get_or keyboard_map code 0 in
    let upper = get_or caps_keyboard_map code 0 in
    let c = switch_cases ascii_cases code in
    ((c == 0) || (code == key_backspace) || (c == to_upper plain))
    && (not (is_lower plain) || (upper == to_upper plain))
    && same (plain == 0) (upper == 0)

agrees-all : all_below agrees 128 ≡ true
unfolding is_lower same
agrees-all = refl

-- What `input` relies on: a character is a byte, and only Enter gives a newline.
abbrev is_plain : (code : ℕ) → Bool
is_plain code =
    (ltb (get_or keyboard_map code 0) 128 && ltb (get_or caps_keyboard_map code 0) 128)
    && ((code == key_enter)
        || (not (get_or keyboard_map code 0 == 10) && not (get_or caps_keyboard_map code 0 == 10)))

is_plain-all : all_below is_plain 128 ≡ true
is_plain-all = refl

pub table-plain :
    (code : ℕ) (caps : Bool)
    → code < 128
    → let c = get_or (if caps then caps_keyboard_map else keyboard_map) code 0 in
      (c < 128) × (code ≢ key_enter → c ≢ 10)
table-plain code true small =
    let fact = all_below→ is_plain 128 code is_plain-all small in
    (ground (arith, fact), λ other. ground (arith, fact))
table-plain code false small =
    let fact = all_below→ is_plain 128 code is_plain-all small in
    (ground (arith, fact), λ other. ground (arith, fact))

tables_facts :
    (c plain upper code : ℕ)
    → (((c == 0) || (code == key_backspace) || (c == to_upper plain))
        && (not (is_lower plain) || (upper == to_upper plain))
        && same (plain == 0) (upper == 0))
      ≡ true
    → (c ≢ 0 → code ≢ key_backspace → c ≡ to_upper plain)
      × (b'a' ≤ plain → plain ≤ b'z' → upper ≡ plain - 32)
      × ((plain ≡ 0 → upper ≡ 0) × (upper ≡ 0 → plain ≡ 0))
unfolding is_lower same
tables_facts c plain upper code fact = (
  λ real other. ground (arith, fact),
  λ low high. ground (arith, fact),
  ((λ none. ground (arith, fact)), (λ none. ground (arith, fact))),
)

-- The three tables agree. For a key that has a case in `get_ascii_char`, other than the backspace
-- key, the case is the plain character, as a capital if it is a letter; the shifted character of
-- a letter key is the capital; and a key has a shifted character exactly when it has a plain one.
pub get_ascii_char-tables :
    (code : ℕ)
    → code < 128
    → let plain = get_or keyboard_map code 0 in
      let upper = get_or caps_keyboard_map code 0 in
      (get_ascii_char code ≢ 0 → code ≢ key_backspace → get_ascii_char code ≡ to_upper plain)
      × (b'a' ≤ plain → plain ≤ b'z' → upper ≡ plain - 32)
      × ((plain ≡ 0 → upper ≡ 0) × (upper ≡ 0 → plain ≡ 0))
unfolding get_ascii_char agrees
get_ascii_char-tables code small =
    let fact = all_below→ agrees 128 code agrees-all small in
    tables_facts (switch_cases ascii_cases code) (get_or keyboard_map code 0)
      (get_or caps_keyboard_map code 0) code fact
