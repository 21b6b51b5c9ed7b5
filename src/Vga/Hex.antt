-- ===== src/Vga/Hex.antt =====
-- What `printfhex` prints.
use nembus_os.Base.{
  All, ◌≢◌, ltb, ℕ, zero, suc, ◌+◌, ◌-◌, ◌*◌, ◌/◌, ◌%◌, ◌^◌, ◌<◌, ◌≡◌, Bool, true, ◌&&◌, ◌==◌, List,
  [], ◌∷◌, ◌++◌, if◌then◌else◌,
}
use nembus_os.Vga.{Screen, putchar}

-- The characters of a list, one after the other.
abbrev pub put_all : List ℕ → Screen → Screen
put_all [] s = s
put_all (c ∷ cs) s = put_all cs (putchar c s)

-- The digits in front of the last, as the loop chooses them.
abbrev lead_digits : (n rounds : ℕ) → (no_zeroes : Bool) → List ℕ
lead_digits n zero no_zeroes = []
lead_digits n (suc k) no_zeroes =
    let tmp = n / 2 ^ (4 * suc k) % 16 in
    let skip = (tmp == 0) && no_zeroes in (if skip then [] else tmp ∷ []) ++ lead_digits n k skip

-- The digits of `n`, without leading zeros, as numbers.
abbrev hex_digits : ℕ → List ℕ
hex_digits n = lead_digits n 7 true ++ (n % 16) ∷ []

-- The number that digits stand for.
abbrev pub hex_value : (acc : ℕ) → List ℕ → ℕ
hex_value acc [] = acc
hex_value acc (d ∷ ds) = hex_value (16 * acc + d) ds

-- The character of a digit below 16.
abbrev pub digit_char : ℕ → ℕ
digit_char d = if ltb d 10 then 48 + d else 97 + (d - 10)

-- A digit below 16, which is not a zero in front of others.
abbrev pub IsHex : List ℕ → Type 0
IsHex ds = All (λ (d : ℕ). d < 16) ds × ((d e : ℕ) (es : List ℕ) → ds ≡ d ∷ e ∷ es → d ≢ 0)
