-- ===== src/Timer/Turns.antt =====
-- The timer gives each task of the ready queue its turn.
use native.Mathlib.Nat.{add-mod_right, mod-eq_of_lt, mod-add-mod}
use nembus_os.Base.{
  ℕ, zero, suc, ◌+◌, ◌-◌, ◌%◌, ◌^◌, ◌≤◌, ◌<◌, ◌≡◌, ◌≢◌, inl, inr, refl, sym, ap, ◌∙◌, arith, some,
  List, length, get_elem?, get_elem?-out, Bool-cases, ltb, ltb→lt, ltb→le,
}
use nembus_os.Base.Words.{add32}
use nembus_os.Base.Outcome.{Outcome, ok, ◌>>=◌}
use nembus_os.Task.{Registers, resumed}
use nembus_os.Task.Queue.{Chain}
use nembus_os.Task.RoundRobin.{registers_of, HasSwitched, switch_task-next}
use nembus_os.Timer.{Clock, timer_handler}

-- Timer interrupts one after the other, each with the registers that it finds.
pub ticks : (regs : ℕ → Registers) (n : ℕ) → Clock → Outcome Clock
ticks regs zero c = ok c
ticks regs (suc n) c = ticks regs n c >>= (λ c'. timer_handler (regs n) c' >>= (λ r. ok r.0))

-- The task at position `i` of the queue is running.
pub record IsRunning (xs : List ℕ) (i : ℕ) (c : Clock) : Type 0 where
  pub chain : Chain c.tasks.store c.tasks.ready_queue xs
  pub at : get_elem? xs i ≡ some c.tasks.current_task

position-in : (xs : List ℕ) (i a : ℕ) → get_elem? xs i ≡ some a → i < length xs
position-in xs i a at = elim (Bool-cases (ltb i (length xs))) [
  | inl inside ↦ ltb→lt i (length xs) inside
  | inr outside ↦ let gone = get_elem?-out xs i (ltb→le i (length xs) outside) in cc
]

pub timer_handler-next :
    (regs : Registers) (c : Clock) (xs : List ℕ) (i : ℕ)
    → IsRunning xs i c
    → regs.eip ≢ resumed
    → (c' : Clock) × (timer_handler regs c
        ≡ ok (c', some (registers_of (c'.tasks.store c'.tasks.current_task))))
      × IsRunning xs (suc i % length xs) c'
      × HasSwitched regs c.tasks c'.tasks
      × (c'.timer_ticks ≡ add32 c.timer_ticks 1)
unfolding timer_handler
timer_handler-next regs c xs i run fresh =
    let (s, done, at, chain, switched) =
      switch_task-next regs c.tasks xs i run.chain run.at fresh in
    (
      record { timer_ticks = add32 c.timer_ticks 1; tasks = s },
      rw done refl,
      record { chain = chain; at = at },
      switched,
      refl,
    )

-- From a running task at position `i`, and with tasks that are all interrupted in their own code,
-- `n` timer interrupts move on by `n` places in the queue, round its end.
ticks-turn :
    (regs : ℕ → Registers) (c : Clock) (xs : List ℕ) (i n : ℕ)
    → IsRunning xs i c
    → ((k : ℕ) → (regs k).eip ≢ resumed)
    → (c' : Clock) × (ticks regs n c ≡ ok c')
      × IsRunning xs ((i + n) % length xs) c'
      × (c'.timer_ticks % 2 ^ 32 ≡ (c.timer_ticks + n) % 2 ^ 32)
unfolding ticks
ticks-turn regs c xs i zero run fresh =
    let inside = position-in xs i c.tasks.current_task run.at in
    let same : (i + 0) % length xs ≡ i =
      ap (λ (k : ℕ). k % length xs) none_more ∙ mod-eq_of_lt inside in
    (c, refl, record { chain = run.chain; at = rw same run.at }, omega arith)
  where
    none_more : i + 0 ≡ i
    none_more = omega arith
ticks-turn regs c xs i (suc n) run fresh =
    let (c1, done, running, count) = ticks-turn regs c xs i n run fresh in
    let (c2, step, next, switched, more) =
      timer_handler-next (regs n) c1 xs ((i + n) % length xs) running (fresh n) in
    let place : suc ((i + n) % length xs) % length xs ≡ (i + suc n) % length xs =
      ap (λ (k : ℕ). k % length xs) one_last
      ∙ mod-add-mod (i + n) (length xs) 1
      ∙ ap (λ (k : ℕ). k % length xs) one_more in
    (c2, rw (done, step) refl, rw place at next, omega (arith, more, count))
  where
    one_last : suc ((i + n) % length xs) ≡ (i + n) % length xs + 1
    one_last = omega arith

    one_more : i + n + 1 ≡ i + suc n
    one_more = omega arith

-- Every task of the ready queue gets its turn: from a running task of the queue, and with no
-- interrupt that finds a task just resumed, each position of the queue is running after at most as
-- many timer interrupts as the queue has tasks. All of them return, the queue stays as it is, and
-- the clock counts them, modulo 2 ^ 32.
pub ticks-reach :
    (regs : ℕ → Registers) (c : Clock) (xs : List ℕ) (i j : ℕ)
    → IsRunning xs i c
    → ((k : ℕ) → (regs k).eip ≢ resumed)
    → j < length xs
    → (n : ℕ) × (c' : Clock) × (n ≤ length xs)
      × (ticks regs n c ≡ ok c')
      × (get_elem? xs j ≡ some c'.tasks.current_task)
      × Chain c'.tasks.store c'.tasks.ready_queue xs
      × (c'.timer_ticks % 2 ^ 32 ≡ (c.timer_ticks + n) % 2 ^ 32)
ticks-reach regs c xs i j run fresh inside =
    let start = position-in xs i c.tasks.current_task run.at in
    elim (Bool-cases (ltb j i)) [
      | inl before ↦
          let n = length xs - i + j in
          let (c', done, running, count) = ticks-turn regs c xs i n run fresh in
          let place : (i + n) % length xs ≡ j =
            ap (λ (k : ℕ). k % length xs) (round start)
            ∙ add-mod_right j (length xs)
            ∙ mod-eq_of_lt inside in
          (
            n,
            c',
            omega (arith, ltb→lt j i before),
            done,
            ap (get_elem? xs) (sym place) ∙ running.at,
            running.chain,
            count,
          )
      | inr behind ↦
          let n = j - i in
          let (c', done, running, count) = ticks-turn regs c xs i n run fresh in
          let ahead = ltb→le j i behind in
          let place : (i + n) % length xs ≡ j =
            ap (λ (k : ℕ). k % length xs) (forward ahead) ∙ mod-eq_of_lt inside in
          (
            n,
            c',
            omega arith,
            done,
            ap (get_elem? xs) (sym place) ∙ running.at,
            running.chain,
            count,
          )
    ]
  where
    round : i < length xs → i + (length xs - i + j) ≡ j + length xs
    round start = omega arith

    forward : i ≤ j → i + (j - i) ≡ j
    forward ahead = omega arith
