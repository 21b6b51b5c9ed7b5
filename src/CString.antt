-- ===== src/CString.antt =====
-- The string functions of src/impl/string.c, over bytes in memory. A loop that looks for a byte
-- runs on fuel; a string of `n` bytes needs `n + 1`.
pub mod Strings
pub mod Copy
pub mod Compare
mod Tests
use nembus_os.Base.{
  ℕ, zero, suc, ◌+◌, ◌-◌, ◌*◌, ◌/◌, ◌%◌, ◌^◌, Bool, true, false, not, ◌&&◌, ◌||◌, ltb, leb, ◌==◌,
  if◌then◌else◌,
}
use nembus_os.Base.Words.{w32, add32, sub32, slt32}
use nembus_os.Base.Outcome.{Outcome, ok, out_of_fuel, ◌>>=◌}
use nembus_os.Memory.{Memory, store8}

pub strlen_from : (fuel : ℕ) → Memory → (str len : ℕ) → Outcome ℕ
strlen_from zero m str len = out_of_fuel
strlen_from (suc fuel) m str len =
    let rest = strlen_from fuel m (add32 str 1) (add32 len 1) in if m str == 0 then ok len else rest

pub strlen : (fuel : ℕ) → Memory → (str : ℕ) → Outcome ℕ
unfolding strlen_from
strlen fuel m str = strlen_from fuel m str 0

-- The loop that `strcpy` and `strcat` share, and the zero byte behind it.
pub copy_string : (fuel : ℕ) → (destination source : ℕ) → Memory → Outcome Memory
copy_string zero destination source m = out_of_fuel
copy_string (suc fuel) destination source m =
    let rest =
      copy_string fuel (add32 destination 1) (add32 source 1) (store8 m destination (m source)) in
    if m source == 0 then ok (store8 m destination 0) else rest

-- `strcpy` returns its destination; a null destination is left alone.
pub strcpy : (fuel : ℕ) → (destination source : ℕ) → Memory → Outcome Memory
unfolding copy_string
strcpy fuel destination source m =
    let copied = copy_string fuel destination source m in if destination == 0 then ok m else copied

unfoldable strcat : (fuel : ℕ) → (destination source : ℕ) → Memory → Outcome Memory
unfolding copy_string strlen
strcat fuel destination source m = do
  len ← strlen fuel m destination
  copy_string fuel (add32 destination len) source m

-- The result is the difference of the first bytes that differ, as an `int`.
pub strcmp : (fuel : ℕ) → Memory → (x y : ℕ) → Outcome ℕ
strcmp zero m x y = out_of_fuel
strcmp (suc fuel) m x y =
    let rest = strcmp fuel m (add32 x 1) (add32 y 1) in
    if (m x == 0) || not (m x == m y) then ok (sub32 (m x) (m y)) else rest

-- The loop of `digit_count`: `num > 0` is a signed test.
count_digits : (fuel num count : ℕ) → Outcome ℕ
count_digits zero num count = out_of_fuel
count_digits (suc fuel) num count =
    let rest = count_digits fuel (num / 10) (count + 1) in if slt32 0 num then rest else ok count

digit_count : (num : ℕ) → Outcome ℕ
unfolding count_digits
digit_count num = let counted = count_digits 11 num 0 in if num == 0 then ok 1 else counted

-- `int` division and remainder, which round towards 0.
abbrev div_signed : (num d : ℕ) → ℕ
div_signed num d = if ltb num (2 ^ 31) then num / d else sub32 0 ((w32 - num) / d)

abbrev mod_signed : (num d : ℕ) → ℕ
mod_signed num d = if ltb num (2 ^ 31) then num % d else sub32 0 ((w32 - num) % d)

-- The loop of `itoa`, from the last digit to the first.
write_digits : (fuel num number index : ℕ) → Memory → Outcome Memory
write_digits zero num number index m = out_of_fuel
write_digits (suc fuel) num number index m =
    let rest =
      write_digits fuel (div_signed num 10) number (sub32 index 1)
        (store8 m (add32 number index) (add32 (mod_signed num 10) b'0')) in
    if num == 0 then ok m else rest

unfoldable itoa : (num number : ℕ) → Memory → Outcome Memory
unfolding write_digits digit_count
itoa num number m = do
  dgcount ← digit_count num
  let index = sub32 dgcount 1
  let digits = write_digits 11 num number index m
  if (num == 0) && (dgcount == 1)
      then ok (store8 (store8 m number b'0') (add32 number 1) 0)
      else (do m' ← digits; ok (store8 m' (add32 number dgcount) 0))

abbrev is_digit : ℕ → Bool
is_digit c = leb b'0' c && leb c b'9'

-- `num` wraps; the conversion of a signed overflow is left undefined by C.
atoi_from : (fuel : ℕ) → Memory → (s num : ℕ) → Outcome ℕ
atoi_from zero m s num = out_of_fuel
atoi_from (suc fuel) m s num =
    let rest = atoi_from fuel m (add32 s 1) ((num * 10 + (m s - b'0')) % w32) in
    if not (m s == 0) && is_digit (m s) then rest else ok num

unfoldable atoi : (fuel : ℕ) → Memory → (s : ℕ) → Outcome ℕ
unfolding atoi_from
atoi fuel m s = atoi_from fuel m s 0

is_delim : (fuel : ℕ) → Memory → (c delim : ℕ) → Outcome Bool
is_delim zero m c delim = out_of_fuel
is_delim (suc fuel) m c delim =
    let rest = is_delim fuel m c (add32 delim 1) in
    if m delim == 0 then ok false else if c == m delim then ok true else rest

-- `strchr` returns a null pointer, 0, where the byte is not found.
strchr : (fuel : ℕ) → Memory → (s c : ℕ) → Outcome ℕ
strchr zero m s c = out_of_fuel
strchr (suc fuel) m s c =
    let rest = strchr fuel m (add32 s 1) c in
    if not (m s == c) && not (m s == 0) then rest else ok (if m s == c then s else 0)

-- `strtok`: first the delimiters in front of a token are skipped; `none` is the end of the text.
skip_delims : (fuel : ℕ) → Memory → (s delim : ℕ) → Outcome ℕ
skip_delims zero m s delim = out_of_fuel
skip_delims (suc fuel) m s delim = do
  skip ← is_delim fuel m (m s) delim
  let rest = skip_delims fuel m (add32 s 1) delim
  if skip then rest else ok s

-- Then the token's end is found; the pair is the memory and the new value of the static `p`.
end_token : (fuel : ℕ) → (s delim : ℕ) → Memory → Outcome (Memory × ℕ)
end_token zero s delim m = out_of_fuel
end_token (suc fuel) s delim m = do
  stop ← is_delim fuel m (m s) delim
  let rest = end_token fuel (add32 s 1) delim m
  if m s == 0 then ok (m, s) else if stop then ok (store8 m s 0, add32 s 1) else rest

pub record Token : Type 0 where
  pub mem : Memory
  pub p : ℕ
  pub token : ℕ

-- The static `p` is passed in and out; 0 is a null pointer.
unfoldable strtok : (fuel s delim p : ℕ) → Memory → Outcome Token
unfolding skip_delims end_token is_delim
strtok fuel s delim p m =
    let from = (if s == 0 then p else s) in
    if from == 0 then ok (record { mem = m; p = p; token = 0 }) else (do
      start ← skip_delims fuel m from delim
      let rest = end_token fuel start delim m
      if m start == 0
          then ok (record { mem = m; p = p; token = 0 })
          else (do (m', p') ← rest; ok (record { mem = m'; p = p'; token = start })))
