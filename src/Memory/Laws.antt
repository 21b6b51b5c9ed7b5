-- ===== src/Memory/Laws.antt =====
-- Loads after stores.
use nembus_os.Base.{refl, sym, ap, ◌∙◌, ℕ, ◌+◌, ◌*◌, ◌%◌, ◌^◌, ◌<◌, ◌≤◌, ◌≡◌, ◌≢◌, ◌⊎◌, arith}
use nembus_os.Base.Words.{add32}
use nembus_os.Memory.{Memory, store8, load32, store32}

-- Every cell holds a byte.
abbrev pub IsBytes : Memory → Type 0
IsBytes m = (a : ℕ) → m a < 256

pub load8-store8_self : (m : Memory) (a v : ℕ) → store8 m a v a ≡ v % 256
unfolding store8
load8-store8_self m a v = ground arith

pub load8-store8_ne : (m : Memory) (a v p : ℕ) → p ≢ a → store8 m a v p ≡ m p
unfolding store8
load8-store8_ne m a v p ne = ground arith

pub store8-IsBytes : (m : Memory) (a v : ℕ) → IsBytes m → IsBytes (store8 m a v)
unfolding store8
store8-IsBytes m a v b p = ground (arith, b p)

pub store32-IsBytes : (m : Memory) (a v : ℕ) → IsBytes m → IsBytes (store32 m a v)
unfolding store32
store32-IsBytes m a v b p = ground (arith, b p)

-- A stored word is read back.
pub load32-store32_self :
    (m : Memory) (a v : ℕ) → a < 2 ^ 32 → v < 2 ^ 32 → load32 (store32 m a v) a ≡ v
unfolding load32 store32
load32-store32_self m a v ha hv = ground arith

-- A byte outside the four that a store writes is unchanged.
pub load8-store32_ne :
    (m : Memory) (a v p : ℕ) → a + 4 ≤ 2 ^ 32 → (p < a) ⊎ (a + 4 ≤ p) → store32 m a v p ≡ m p
unfolding store32
load8-store32_ne m a v p ha apart = ground arith

-- A word that does not overlap the stored one is unchanged.
pub load32-store32_ne :
    (m : Memory) (a v p : ℕ)
    → a + 4 ≤ 2 ^ 32
    → p + 4 ≤ 2 ^ 32
    → (p + 4 ≤ a) ⊎ (a + 4 ≤ p)
    → load32 (store32 m a v) p ≡ load32 m p
unfolding load32
load32-store32_ne m a v p ha hp apart = omega (
  arith,
  load8-store32_ne m a v p ha (omega arith),
  load8-store32_ne m a v (add32 p 1) ha (omega arith),
  load8-store32_ne m a v (add32 p 2) ha (omega arith),
  load8-store32_ne m a v (add32 p 3) ha (omega arith),
)

-- A byte store outside a word leaves the word.
pub load32-store8_ne :
    (m : Memory) (a v p : ℕ)
    → p + 4 ≤ 2 ^ 32
    → (a < p) ⊎ (p + 4 ≤ a)
    → load32 (store8 m a v) p ≡ load32 m p
unfolding load32
load32-store8_ne m a v p hp apart = omega (
  arith,
  load8-store8_ne m a v p (omega arith),
  load8-store8_ne m a v (add32 p 1) (omega arith),
  load8-store8_ne m a v (add32 p 2) (omega arith),
  load8-store8_ne m a v (add32 p 3) (omega arith),
)

-- Words that agree byte by byte are equal.
pub load32_congr :
    (m n : Memory) (p : ℕ)
    → p + 4 ≤ 2 ^ 32
    → ((q : ℕ) → p ≤ q → q < p + 4 → m q ≡ n q)
    → load32 m p ≡ load32 n p
unfolding load32
load32_congr m n p hp same = omega (
  arith,
  same p (omega arith) (omega arith),
  same (add32 p 1) (omega arith) (omega arith),
  same (add32 p 2) (omega arith) (omega arith),
  same (add32 p 3) (omega arith) (omega arith),
)

-- A word from its four bytes.
pub load32_bytes :
    (m : Memory) (p b0 b1 b2 b3 : ℕ)
    → p + 4 ≤ 2 ^ 32
    → m p ≡ b0
    → m (p + 1) ≡ b1
    → m (p + 2) ≡ b2
    → m (p + 3) ≡ b3
    → load32 m p ≡ b0 + 256 * b1 + 65536 * b2 + 16777216 * b3
unfolding load32
load32_bytes m p b0 b1 b2 b3 fits e0 e1 e2 e3 =
    let a1 : add32 p 1 ≡ p + 1 = omega arith in
    let a2 : add32 p 2 ≡ p + 2 = omega arith in
    let a3 : add32 p 3 ≡ p + 3 = omega arith in rw (a1, a2, a3, e0, e1, e2, e3)

-- Words at two places whose bytes agree are equal.
pub load32_moved :
    (m n : Memory) (p q : ℕ)
    → p + 4 ≤ 2 ^ 32
    → q + 4 ≤ 2 ^ 32
    → ((k : ℕ) → k < 4 → m (p + k) ≡ n (q + k))
    → load32 m p ≡ load32 n q
unfolding load32
load32_moved m n p q hp hq same =
    let p0 : p + 0 ≡ p = omega arith in
    let q0 : q + 0 ≡ q = omega arith in
    let p1 : add32 p 1 ≡ p + 1 = omega arith in
    let p2 : add32 p 2 ≡ p + 2 = omega arith in
    let p3 : add32 p 3 ≡ p + 3 = omega arith in
    let q1 : add32 q 1 ≡ q + 1 = omega arith in
    let q2 : add32 q 2 ≡ q + 2 = omega arith in
    let q3 : add32 q 3 ≡ q + 3 = omega arith in
    let first : m p ≡ n q = ap m (sym p0) ∙ same 0 (omega arith) ∙ ap n q0 in
    rw
      (
        p1,
        p2,
        p3,
        q1,
        q2,
        q3,
        first,
        same 1 (omega arith),
        same 2 (omega arith),
        same 3 (omega arith),
      )
      refl
