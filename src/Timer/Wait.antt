-- ===== src/Timer/Wait.antt =====
-- `timer_wait` ends when the clock has moved on far enough.
use nembus_os.Base.{
  ℕ, zero, suc, ◌+◌, ◌-◌, ◌*◌, ◌/◌, ◌^◌, ◌≤◌, ◌<◌, ◌≡◌, inl, inr, refl, ap, ◌∙◌, arith, ltb, ltb→lt,
  ltb→le, Bool-cases,
}
use native.Mathlib.Nat.{add-mul-div_left}
use nembus_os.Base.Words.{add32}
use nembus_os.Base.Outcome.{ok}
use nembus_os.Timer.{wait_from, timer_wait}

-- The first read, from `now` on, that is not below `eticks`.
record HasWaited (clock : ℕ → ℕ) (eticks now n : ℕ) : Type 0 where
  from : now ≤ n
  enough : eticks ≤ clock n
  first : (m : ℕ) → now ≤ m → m < n → clock m < eticks

wait_from-HasWaited :
    (clock : ℕ → ℕ) (eticks rounds now stop : ℕ)
    → now ≤ stop
    → stop < now + rounds
    → eticks ≤ clock stop
    → (n : ℕ) × (wait_from clock eticks rounds now ≡ ok n)
      × (n ≤ stop)
      × HasWaited clock eticks now n
unfolding wait_from
wait_from-HasWaited clock eticks zero now stop lo hi done = absurd (omega arith)
wait_from-HasWaited clock eticks (suc rounds) now stop lo hi done =
    elim (Bool-cases (ltb (clock now) eticks)) [
      | inl early ↦
          let low = ltb→lt (clock now) eticks early in
          let (n, waited, most, from_next) =
            wait_from-HasWaited clock eticks rounds (suc now) stop (later low) (omega arith) done in
          (
            n,
            rw early waited,
            most,
            record {
              from = omega (arith, from_next.from);
              enough = from_next.enough;
              first = λ m at below. first low from_next m at below;
            },
          )
      | inr late ↦ (
        now,
        rw late refl,
        lo,
        record {
          from = omega arith;
          enough = ltb→le (clock now) eticks late;
          first = λ m at below. absurd (omega arith);
        },
      )
    ]
  where
    later : clock now < eticks → now < stop
    later low = elim (Bool-cases (ltb now stop)) [
      | inl before ↦ ltb→lt now stop before
      | inr after ↦
          let at : now ≡ stop = omega (arith, ltb→le now stop after) in
          let same = ap clock at in absurd (omega (arith, same))
    ]

    first :
        {n : ℕ}
        → clock now < eticks
        → HasWaited clock eticks (suc now) n
        → (m : ℕ) → now ≤ m
        → m < n
        → clock m < eticks
    first low next m at below = elim (Bool-cases (ltb now m)) [
      | inl above ↦ next.first m (omega (arith, ltb→lt now m above)) below
      | inr here ↦ let same : m ≡ now = omega (arith, ltb→le now m here) in rw same low
    ]

timer_wait-from :
    (clock : ℕ → ℕ) (ticks rounds : ℕ)
    → clock 0 + ticks < 2 ^ 32
    → timer_wait clock rounds ticks ≡ wait_from clock (clock 0 + ticks) rounds 1
unfolding timer_wait
timer_wait-from clock ticks rounds small =
    let end : add32 (clock 0) ticks ≡ clock 0 + ticks = omega arith in
    ap (λ (eticks : ℕ). wait_from clock eticks rounds 1) end

-- When the time to wait for is below 2 ^ 32, and the clock has moved on by at least one tick in every
-- `gap` reads behind the first, as far as the read that is needed, `timer_wait` ends, within `gap`
-- reads for each tick and one more, with the first read that is `ticks` after the start.
pub timer_wait-ends :
    (clock : ℕ → ℕ) (gap ticks rounds : ℕ)
    → 0 < gap
    → clock 0 + ticks < 2 ^ 32
    → ((n : ℕ) → n ≤ gap * ticks + 1 → clock 0 + (n - 1) / gap ≤ clock n)
    → gap * ticks < rounds
    → (n : ℕ) × (timer_wait clock rounds ticks ≡ ok n)
      × (n ≤ gap * ticks + 1)
      × (clock 0 + ticks ≤ clock n)
      × ((m : ℕ) → 1 ≤ m → m < n → clock m < clock 0 + ticks)
timer_wait-ends clock gap ticks rounds real small moves enough =
    let (n, waited, most, has) =
      wait_from-HasWaited clock (clock 0 + ticks) rounds 1 (gap * ticks + 1) (omega arith)
        (omega arith) (omega (arith, moves (gap * ticks + 1) (omega arith), whole)) in
    (n, timer_wait-from clock ticks rounds small ∙ waited, most, has.enough, has.first)
  where
    last : gap * ticks + 1 - 1 ≡ 0 + gap * ticks
    last = omega arith

    whole : (gap * ticks + 1 - 1) / gap ≡ 0 / gap + ticks
    whole = ap (λ (k : ℕ). k / gap) last ∙ add-mul-div_left 0 ticks real
