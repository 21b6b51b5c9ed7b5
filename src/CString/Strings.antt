-- ===== src/CString/Strings.antt =====
-- A zero-terminated string in memory, and `strlen`.
use nembus_os.Base.{
  ℕ, zero, suc, ◌+◌, ◌^◌, ◌<◌, ◌≤◌, ◌≡◌, ◌≢◌, ◌∙◌, ap, arith, ne→==, List, [], ◌∷◌, length,
}
use nembus_os.Base.Words.{add32}
use nembus_os.Base.Outcome.{ok}
use nembus_os.Memory.{Memory}
use nembus_os.CString.{strlen_from, strlen}

-- The bytes `xs`, none of them zero, lie from `p` on, and a zero byte behind them.
abbrev pub IsString : Memory → (p : ℕ) → List ℕ → Type 0
IsString m p [] = m p ≡ 0
IsString m p (x ∷ xs) = (m p ≡ x) × (x ≢ 0) × IsString m (p + 1) xs

-- A string survives what is written outside it.
pub IsString-frame :
    (m n : Memory) (p : ℕ) (xs : List ℕ)
    → IsString m p xs
    → ((q : ℕ) → p ≤ q → q ≤ p + length xs → n q ≡ m q)
    → IsString n p xs
IsString-frame m n p [] s same = same p (omega arith) (omega arith) ∙ s
IsString-frame m n p (x ∷ xs) s same = (
  same p (omega arith) (omega arith) ∙ s.0,
  s.1,
  IsString-frame m n (p + 1) xs s.2 (λ q lo hi. same q (omega arith) (omega arith)),
)

strlen_from-length :
    (fuel : ℕ) (m : Memory) (p len : ℕ) (xs : List ℕ)
    → IsString m p xs
    → length xs < fuel
    → p + length xs < 2 ^ 32
    → len + length xs < 2 ^ 32
    → strlen_from fuel m p len ≡ ok (len + length xs)
unfolding strlen_from
strlen_from-length zero m p len xs s enough fits small = absurd (omega arith)
strlen_from-length (suc fuel) m p len [] s enough fits small = rw s (ap ok (omega arith))
strlen_from-length (suc fuel) m p len (x ∷ xs) s enough fits small =
    let next : add32 p 1 ≡ p + 1 = omega arith in
    let longer : add32 len 1 ≡ len + 1 = omega arith in
    rw (s.0, ne→== x 0 s.1, next, longer)
      (strlen_from-length fuel m (p + 1) (len + 1) xs s.2 (omega arith) (omega arith) (omega arith)
        ∙ ap ok (omega arith))

-- `strlen` returns the number of bytes in front of the terminator, given more fuel than there are
-- such bytes, for a string that ends below the top of memory.
pub strlen-length :
    (fuel : ℕ) (m : Memory) (p : ℕ) (xs : List ℕ)
    → IsString m p xs
    → length xs < fuel
    → p + length xs < 2 ^ 32
    → strlen fuel m p ≡ ok (length xs)
unfolding strlen
strlen-length fuel m p xs s enough fits =
    strlen_from-length fuel m p 0 xs s enough fits (omega arith) ∙ ap ok (omega arith)
