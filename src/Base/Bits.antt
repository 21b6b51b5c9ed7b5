-- ===== src/Base/Bits.antt =====
-- Laws of `bit_and` and `bit_or` at variables, from the recursion on digits that both stand for.
use Prim.Native.Nat.{
  ℕ, zero, suc, ◌+◌, ◌-◌, ◌*◌, ◌/◌, ◌%◌, ◌^◌, ◌≤◌, ◌<◌, min, max, bit_and, bit_or, digits,
  bit_and-bitwise, bit_or-bitwise,
}
use mathlib.Core.Path.{◌≡◌, refl, ap, sym, ◌∙◌}
use native.Mathlib.Omega.{arith}
use native.Mathlib.Nat.{pow-suc, two-pow-succ, div-add-mod, div-div-eq-div-mul}

-- An operation digit by digit: `last` is for the digits behind the first number's.
module _ (last : ℕ → ℕ) (op : ℕ → ℕ → ℕ) where
  abbrev by_digits : (w v rounds : ℕ) → ℕ
  by_digits w v rounds = digits last op rounds w v

  rounds_agree : (w v n m : ℕ) → w ≤ n → w ≤ m → by_digits w v n ≡ by_digits w v m
  rounds_agree zero v zero zero n_enough m_enough = refl
  rounds_agree zero v (suc n) zero n_enough m_enough = refl
  rounds_agree zero v zero (suc m) n_enough m_enough = refl
  rounds_agree zero v (suc n) (suc m) n_enough m_enough = refl
  rounds_agree (suc w) v (suc n) zero n_enough m_enough = absurd (omega arith)
  rounds_agree (suc w) v zero m n_enough m_enough = absurd (omega arith)
  rounds_agree (suc w) v (suc n) (suc m) n_enough m_enough =
      let half = rounds_agree (suc w / 2) (v / 2) n m (omega arith) (omega arith) in
      ap (λ (t : ℕ). t * 2 + op (suc w % 2) (v % 2)) half

  -- With as many rounds as the number itself, the lowest digit splits off.
  digits_split :
      (w v : ℕ)
      → by_digits (suc w) v (suc w)
        ≡ by_digits (suc w / 2) (v / 2) (suc w / 2) * 2 + op (suc w % 2) (v % 2)
  digits_split w v =
      ap (λ (t : ℕ). t * 2 + op (suc w % 2) (v % 2))
        (rounds_agree (suc w / 2) (v / 2) w (suc w / 2) (omega arith) (omega arith))

pub zero-bit_and : (v : ℕ) → bit_and 0 v ≡ 0
zero-bit_and v = bit_and-bitwise 0 v

pub zero-bit_or : (v : ℕ) → bit_or 0 v ≡ v
zero-bit_or v = bit_or-bitwise 0 v

-- The lowest digit of a conjunction or a disjunction, and the rest.
pub bit_and_step : (w v : ℕ) → bit_and w v ≡ bit_and (w / 2) (v / 2) * 2 + min (w % 2) (v % 2)
bit_and_step zero v = omega (arith, zero-bit_and (v / 2), zero-bit_and v)
bit_and_step (suc w) v =
    bit_and-bitwise (suc w) v
    ∙ digits_split (λ _. zero) min w v
    ∙ ap (λ (t : ℕ). t * 2 + min (suc w % 2) (v % 2)) (sym (bit_and-bitwise (suc w / 2) (v / 2)))

pub bit_or_step : (w v : ℕ) → bit_or w v ≡ bit_or (w / 2) (v / 2) * 2 + max (w % 2) (v % 2)
bit_or_step zero v = omega (arith, zero-bit_or (v / 2), zero-bit_or v)
bit_or_step (suc w) v =
    bit_or-bitwise (suc w) v
    ∙ digits_split (λ t. t) max w v
    ∙ ap (λ (t : ℕ). t * 2 + max (suc w % 2) (v % 2)) (sym (bit_or-bitwise (suc w / 2) (v / 2)))

below-bit_and-zero : (bound w : ℕ) → w ≤ bound → bit_and w 0 ≡ 0
below-bit_and-zero bound zero small = zero-bit_and 0
below-bit_and-zero zero (suc w) small = absurd (omega arith)
below-bit_and-zero (suc bound) (suc w) small =
    let half = below-bit_and-zero bound (suc w / 2) (omega arith) in
    omega (arith, half, bit_and_step (suc w) 0)

pub pos_pow : (k : ℕ) → 0 < 2 ^ k
pos_pow zero = omega arith
pos_pow (suc k) = omega (arith, pow-suc 2 k, pos_pow k)

-- Halving, then a remainder: the remainder by the doubled modulus.
mod-double : (a p : ℕ) → a % (2 * p) ≡ (a / 2 % p) * 2 + a % 2
mod-double a p = omega (
  arith,
  div-add-mod a (2 * p),
  div-add-mod (a / 2) p,
  div-div-eq-div-mul a 2 p,
  ap (λ (t : ℕ). 2 * p * t) (div-div-eq-div-mul a 2 p),
)

-- A mask of `k` ones is a remainder.
pub bit_and-ones : (k a : ℕ) → bit_and a (2 ^ k - 1) ≡ a % 2 ^ k
bit_and-ones zero a = omega (arith, below-bit_and-zero a a (omega arith))
bit_and-ones (suc k) a = omega (
  arith,
  two-pow-succ k,
  pos_pow k,
  bit_and_step a (2 ^ suc k - 1),
  ap (bit_and (a / 2)) half,
  bit_and-ones k (a / 2),
  mod-double a (2 ^ k),
  ap (λ (t : ℕ). a % t) double,
)
  where
    half : (2 ^ suc k - 1) / 2 ≡ 2 ^ k - 1
    half = omega (arith, two-pow-succ k, pos_pow k)

    double : 2 ^ suc k ≡ 2 * 2 ^ k
    double = omega (arith, two-pow-succ k)

bit_and-double : (a b : ℕ) → bit_and a (b * 2) ≡ bit_and (a / 2) b * 2
bit_and-double a b = omega (arith, bit_and_step a (b * 2), ap (bit_and (a / 2)) half)
  where
    half : b * 2 / 2 ≡ b
    half = omega arith

-- A mask whose `k` low bits are clear.
pub bit_and-mul_pow : (k a b : ℕ) → bit_and a (b * 2 ^ k) ≡ bit_and (a / 2 ^ k) b * 2 ^ k
bit_and-mul_pow zero a b =
    omega (arith, ap (λ (t : ℕ). bit_and a t) one, ap (λ (t : ℕ). bit_and t b) same)
  where
    one : b * 2 ^ 0 ≡ b
    one = omega arith

    same : a / 2 ^ 0 ≡ a
    same = omega arith
bit_and-mul_pow (suc k) a b = omega (
  arith,
  ap (bit_and a) regroup,
  bit_and-double a (b * 2 ^ k),
  bit_and-mul_pow k (a / 2) b,
  ap (λ (t : ℕ). bit_and t b * 2 ^ k) halves,
  ap (λ (t : ℕ). bit_and (a / 2 ^ suc k) b * t) (two-pow-succ k),
)
  where
    regroup : b * 2 ^ suc k ≡ b * 2 ^ k * 2
    regroup = omega (arith, ap (λ (t : ℕ). b * t) (two-pow-succ k))

    double : 2 ^ suc k ≡ 2 * 2 ^ k
    double = omega (arith, two-pow-succ k)

    halves : a / 2 / 2 ^ k ≡ a / 2 ^ suc k
    halves = div-div-eq-div-mul a 2 (2 ^ k) ∙ ap (λ (t : ℕ). a / t) (sym double)

-- `a & 0xFFFFF000` rounds a 32-bit address down to a page.
pub bit_and-page : (a : ℕ) → a < 2 ^ 32 → bit_and a 0xFFFFF000 ≡ a / 4096 * 4096
bit_and-page a h = omega (arith, bit_and-mul_pow 12 a (2 ^ 20 - 1), bit_and-ones 20 (a / 4096))
