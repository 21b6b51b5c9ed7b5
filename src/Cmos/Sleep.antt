-- ===== src/Cmos/Sleep.antt =====
-- How long `sleep` runs.
use nembus_os.Base.{
  ℕ, zero, suc, ◌+◌, ◌-◌, ◌^◌, ◌<◌, ◌≤◌, ◌≡◌, refl, ap, ◌∙◌, arith, ◌==◌, ne→==, Bool-cases, inl,
  inr, ==→eq, ==→ne,
}
use nembus_os.Base.Words.{sub32}
use nembus_os.Base.Outcome.{ok}
use nembus_os.Cmos.{sleep_from, sleep}

sleep_from-last : (fuel done : ℕ) → sleep_from (suc fuel) 1 done ≡ ok (suc done)
unfolding sleep_from
sleep_from-last fuel done = refl

sleep_from-next :
    (fuel count done : ℕ)
    → 1 < count
    → count < 2 ^ 32
    → sleep_from (suc fuel) count done ≡ sleep_from fuel (count - 1) (suc done)
unfolding sleep_from
sleep_from-next fuel count done more small =
    let next : sub32 count 1 ≡ count - 1 = omega arith in
    rw (next, ne→== (count - 1) 0 (omega arith)) refl

-- The rounds of a count that is not 0.
sleep_from-rounds :
    (fuel count done : ℕ)
    → 0 < count
    → count < 2 ^ 32
    → count ≤ fuel
    → sleep_from fuel count done ≡ ok (done + count)
sleep_from-rounds zero count done real small enough = absurd (omega arith)
sleep_from-rounds (suc fuel) count done real small enough = elim (Bool-cases (count == 1)) [
  | inl last ↦
      let one : count ≡ 1 = ==→eq count 1 last in
      let end : suc done ≡ done + count = omega (arith, one) in
      ap (λ (c : ℕ). sleep_from (suc fuel) c done) one ∙ sleep_from-last fuel done ∙ ap ok end
  | inr more ↦
      let above : 1 < count = omega (arith, ==→ne count 1 more) in
      let end : suc done + (count - 1) ≡ done + count = omega arith in
      sleep_from-next fuel count done above small
      ∙ sleep_from-rounds fuel (count - 1) (suc done) (omega arith) (omega arith) (omega arith)
      ∙ ap ok end
]

sleep_from-wrap : (fuel : ℕ) → sleep_from (suc fuel) 0 0 ≡ sleep_from fuel (2 ^ 32 - 1) 1
unfolding sleep_from
sleep_from-wrap fuel = refl

-- `sleep` ends after as many rounds as its count says; a count of 0 wraps around, and then it ends
-- after 2 ^ 32 rounds.
pub sleep-rounds :
    (fuel count : ℕ)
    → count < 2 ^ 32
    → (0 < count → count ≤ fuel → sleep fuel count ≡ ok count)
      × (count ≡ 0 → 2 ^ 32 ≤ fuel → sleep fuel count ≡ ok (2 ^ 32))
unfolding sleep
sleep-rounds fuel count small = (
  λ real enough. sleep_from-rounds fuel count 0 real small enough ∙ ap ok (none_before count),
  λ nothing enough. ap (λ (c : ℕ). sleep_from fuel c 0) nothing ∙ wrapped fuel enough,
)
  where
    none_before : (c : ℕ) → 0 + c ≡ c
    none_before c = omega arith

    wrapped : (fuel : ℕ) → 2 ^ 32 ≤ fuel → sleep_from fuel 0 0 ≡ ok (2 ^ 32)
    wrapped zero enough = absurd (omega arith)
    wrapped (suc fuel) enough =
        sleep_from-wrap fuel
        ∙ sleep_from-rounds fuel (2 ^ 32 - 1) 1 (omega arith) (omega arith) (omega arith)
