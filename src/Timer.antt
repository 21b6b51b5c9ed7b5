-- ===== src/Timer.antt =====
-- The timer: src/impl/timer.c. Its handler counts the ticks and switches to the next task, with the
-- registers that the processor has at that moment. `timer_wait` reads a clock that the handler
-- moves on; the n-th value that it reads is a parameter.
pub mod Turns
pub mod Wait
pub mod Request
mod Tests
use nembus_os.Base.{ℕ, zero, suc, ◌+◌, Option, none, some, List, ltb, ◌==◌, if◌then◌else◌}
use nembus_os.Base.Words.{add32}
use nembus_os.Base.Outcome.{Outcome, ok, out_of_fuel, ◌>>=◌}
use nembus_os.Task.{Tasks, Registers, switch_task}
use nembus_os.Interrupts.{Regs, Machine, Course, returns, jumps, irq_install_handler}

-- `timer_ticks`, and the tasks that its handler switches.
pub record Clock : Type 0 where
  pub timer_ticks : ℕ
  pub tasks : Tasks

unfoldable pub timer_handler : Registers → Clock → Outcome (Clock × Option Registers)
timer_handler regs c =
    switch_task regs c.tasks
    >>= (λ result. ok (record { timer_ticks = add32 c.timer_ticks 1; tasks = result.0 }, result.1))

-- The loop of `timer_wait`, from the read `now` on: it ends with the number of its last read.
unfoldable pub wait_from : (clock : ℕ → ℕ) (eticks rounds now : ℕ) → Outcome ℕ
wait_from clock eticks zero now = out_of_fuel
wait_from clock eticks (suc rounds) now =
    let rest = wait_from clock eticks rounds (suc now) in
    if ltb (clock now) eticks then rest else ok now

unfoldable pub timer_wait : (clock : ℕ → ℕ) (rounds ticks : ℕ) → Outcome ℕ
timer_wait clock rounds ticks = wait_from clock (add32 (clock 0) ticks) rounds 1

-- `address` is that of `timer_handler`.
unfoldable pub timer_install : (address : ℕ) → Machine Clock → Outcome (Machine Clock)
timer_install address m = irq_install_handler 0 address m

-- What a call of the handler's address does; other functions are a parameter.
module _ (address : ℕ) (regs : Registers)
    (other : (handler : ℕ) → Regs → Machine Clock → Outcome (Course Clock)) where
  abbrev pub resume : Regs → Machine Clock → Clock × Option Registers → Course Clock
  resume r m (c, none) = returns r (record m { kernel = c })
  resume r m (c, some to) = jumps to (record m { kernel = c })

  unfoldable pub call_timer : (handler : ℕ) → Regs → Machine Clock → Outcome (Course Clock)
  call_timer handler r m =
      if handler == address
      then timer_handler regs m.kernel >>= (λ result. ok (resume r m result))
      else other handler r m
