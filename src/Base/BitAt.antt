-- ===== src/Base/BitAt.antt =====
-- The bits of a word, one at a time.
use Prim.Native.Nat.{ℕ, zero, suc, ◌-◌, ◌*◌, ◌/◌, ◌%◌, ◌^◌, ◌≤◌, ◌<◌, min, max, bit_and, bit_or}
use mathlib.Core.Path.{◌≡◌, refl, ap, ◌∙◌}
use native.Mathlib.Omega.{arith}
use native.Mathlib.Nat.{two-pow-succ}
use nembus_os.Base.Tests.{◌==◌, if◌then◌else◌}
use nembus_os.Base.Bits.{bit_and_step, bit_or_step, bit_and-ones, pos_pow}

-- Bit `j` of `w`.
unfoldable pub bit_at : (w j : ℕ) → ℕ
bit_at w zero = w % 2
bit_at w (suc j) = bit_at (w / 2) j

pub bit_at-le : (w j : ℕ) → bit_at w j ≤ 1
unfolding bit_at
bit_at-le w zero = omega arith
bit_at-le w (suc j) = bit_at-le (w / 2) j

pub bit_at-bit_or : (a b j : ℕ) → bit_at (bit_or a b) j ≡ max (bit_at a j) (bit_at b j)
unfolding bit_at
bit_at-bit_or a b zero = omega (arith, bit_or_step a b)
bit_at-bit_or a b (suc j) =
    let half : bit_or a b / 2 ≡ bit_or (a / 2) (b / 2) = omega (arith, bit_or_step a b) in
    rw half (bit_at-bit_or (a / 2) (b / 2) j)

pub bit_at-bit_and : (a b j : ℕ) → bit_at (bit_and a b) j ≡ min (bit_at a j) (bit_at b j)
unfolding bit_at
bit_at-bit_and a b zero = omega (arith, bit_and_step a b)
bit_at-bit_and a b (suc j) =
    let half : bit_and a b / 2 ≡ bit_and (a / 2) (b / 2) = omega (arith, bit_and_step a b) in
    rw half (bit_at-bit_and (a / 2) (b / 2) j)

half-pow : (k : ℕ) → 2 ^ suc k / 2 ≡ 2 ^ k
half-pow k = omega (arith, two-pow-succ k)

pub bit_at-zero : (j : ℕ) → bit_at 0 j ≡ 0
unfolding bit_at
bit_at-zero zero = refl
bit_at-zero (suc j) = bit_at-zero j

-- `1 << k` has the one bit `k`.
pub bit_at-pow : (k j : ℕ) → bit_at (2 ^ k) j ≡ (if j == k then 1 else 0)
unfolding bit_at
bit_at-pow zero zero = refl
bit_at-pow zero (suc j) = bit_at-zero j ∙ ground arith
bit_at-pow (suc k) zero = ground (arith, two-pow-succ k)
bit_at-pow (suc k) (suc j) = rw (half-pow k) (bit_at-pow k j ∙ ground arith)

pub bit_at-ones : (n j : ℕ) → j < n → bit_at (2 ^ n - 1) j ≡ 1
unfolding bit_at
bit_at-ones zero j h = elim h [ ]
bit_at-ones (suc n) zero h = omega (arith, two-pow-succ n, pos_pow n)
bit_at-ones (suc n) (suc j) h =
    let half : (2 ^ suc n - 1) / 2 ≡ 2 ^ n - 1 = omega (arith, two-pow-succ n, pos_pow n) in
    rw half (bit_at-ones n j (omega arith))

pow-lt : (k n : ℕ) → k < n → 2 ^ k < 2 ^ n
pow-lt k zero h = elim h [ ]
pow-lt zero (suc n) h = omega (arith, two-pow-succ n, pos_pow n)
pow-lt (suc k) (suc n) h = omega (arith, two-pow-succ n, two-pow-succ k, pow-lt k n)

-- `~(1 << k)` in a word of `n` bits has every bit but `k`.
pub bit_at-not_pow :
    (n k j : ℕ) → k < n → j < n → bit_at (2 ^ n - 1 - 2 ^ k) j ≡ (if j == k then 0 else 1)
unfolding bit_at
bit_at-not_pow zero k j hk hj = elim hk [ ]
bit_at-not_pow (suc n) zero zero hk hj = omega (arith, two-pow-succ n, pos_pow n)
bit_at-not_pow (suc n) zero (suc j) hk hj =
    let half : (2 ^ suc n - 1 - 2 ^ 0) / 2 ≡ 2 ^ n - 1 = omega (arith, two-pow-succ n, pos_pow n) in
    rw half (bit_at-ones n j (omega arith) ∙ ground arith)
bit_at-not_pow (suc n) (suc k) zero hk hj =
    ground (arith, two-pow-succ n, two-pow-succ k, pow-lt k n (omega arith))
bit_at-not_pow (suc n) (suc k) (suc j) hk hj =
    let half : (2 ^ suc n - 1 - 2 ^ suc k) / 2 ≡ 2 ^ n - 1 - 2 ^ k =
      omega (arith, two-pow-succ n, two-pow-succ k, pow-lt k n (omega arith)) in
    rw half (bit_at-not_pow n k j (omega arith) (omega arith) ∙ ground arith)

-- `w & (1 << j)` is the bit, at its place.
pub bit_and-pow : (w j : ℕ) → bit_and w (2 ^ j) ≡ bit_at w j * 2 ^ j
unfolding bit_at
bit_and-pow w zero = omega (arith, bit_and-ones 1 w)
bit_and-pow w (suc j) = omega (
  arith,
  bit_and_step w (2 ^ suc j),
  ap (bit_and (w / 2)) (half-pow j),
  bit_and-pow (w / 2) j,
  two-pow-succ j,
  ap (λ (t : ℕ). bit_at (w / 2) j * t) (two-pow-succ j),
)
