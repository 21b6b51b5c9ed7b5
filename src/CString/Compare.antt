-- ===== src/CString/Compare.antt =====
-- `strcmp` against equality of strings.
use nembus_os.Base.{
  ℕ, zero, suc, ◌+◌, ◌^◌, ◌<◌, ◌≡◌, ◌≢◌, ◌↔◌, inl, inr, refl, ◌∙◌, arith, ◌==◌, ne→==, ==→eq, ==→ne,
  Bool-cases, true, List, [], ◌∷◌, length,
}
use nembus_os.Base.Words.{add32, sub32}
use nembus_os.Base.Outcome.{ok}
use nembus_os.Memory.{Memory}
use nembus_os.Memory.Laws.{IsBytes}
use nembus_os.CString.{strcmp}
use nembus_os.CString.Strings.{IsString}

strcmp-step :
    (fuel : ℕ) (m : Memory) (x y a c : ℕ)
    → m x ≡ a
    → m y ≡ c
    → a ≢ 0
    → (a == c) ≡ true
    → x + 1 < 2 ^ 32
    → y + 1 < 2 ^ 32
    → strcmp (suc fuel) m x y ≡ strcmp fuel m (x + 1) (y + 1)
unfolding strcmp
strcmp-step fuel m x y a c ex ey real same fx fy =
    let next_x : add32 x 1 ≡ x + 1 = omega arith in
    let next_y : add32 y 1 ≡ y + 1 = omega arith in
    rw (ex, ey, ne→== a 0 real, same, next_x, next_y)

-- Given more fuel than the first string has bytes, `strcmp` ends on two strings, and its result is
-- 0 exactly if they are equal.
pub strcmp-eq :
    (fuel : ℕ) (m : Memory) (x y : ℕ) (xs ys : List ℕ)
    → IsBytes m
    → IsString m x xs
    → IsString m y ys
    → length xs < fuel
    → x + length xs < 2 ^ 32
    → y + length ys < 2 ^ 32
    → (r : ℕ) × (strcmp fuel m x y ≡ ok r) × ((r ≡ 0) ↔ (xs ≡ ys))
unfolding strcmp
strcmp-eq zero m x y xs ys b sx sy enough fx fy = absurd (omega arith)
strcmp-eq (suc fuel) m x y [] [] b sx sy enough fx fy = (0, rw (sx, sy), ((λ _. refl), (λ _. refl)))
strcmp-eq (suc fuel) m x y [] (c ∷ ys) b sx sy enough fx fy =
    (sub32 0 c, rw (sx, sy.0), ((λ e. absurd (sy.1 (omega (arith, b y, sy.0)))), (λ e. cc)))
strcmp-eq (suc fuel) m x y (a ∷ xs) [] b sx sy enough fx fy = (
  sub32 a 0,
  rw (sx.0, sy, ne→== a 0 sx.1),
  ((λ e. absurd (sx.1 (omega (arith, b x, sx.0)))), (λ e. cc)),
)
strcmp-eq (suc fuel) m x y (a ∷ xs) (c ∷ ys) b sx sy enough fx fy = elim (Bool-cases (a == c)) [
  | inl same ↦
      let (r, done, iff) =
        strcmp-eq fuel m (x + 1) (y + 1) xs ys b sx.2 sy.2 (omega arith) (omega arith)
          (omega arith) in
      (
        r,
        strcmp-step fuel m x y a c sx.0 sy.0 sx.1 same (omega arith) (omega arith) ∙ done,
        ((λ e. cc (iff.0 e, ==→eq a c same)), (λ e. iff.1 (cc))),
      )
  | inr other ↦ (
    sub32 a c,
    rw (sx.0, sy.0, ne→== a 0 sx.1, other),
    (
      (λ e. absurd (==→ne a c other (omega (arith, b x, b y, sx.0, sy.0)))),
      (λ e. absurd (==→ne a c other (cc))),
    ),
  )
]
