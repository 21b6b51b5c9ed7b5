-- ===== src/Timer/Request.antt =====
-- The timer's interrupt request, through `irq_handler` to `switch_task`.
use nembus_os.Base.{
  ℕ, suc, ◌%◌, ◌≡◌, ◌≢◌, ◌⊎◌, refl, arith, Option, none, some, List, ◌∷◌, length,
  get_elem?-set_self, eq→==,
}
use nembus_os.Base.Words.{add32}
use nembus_os.Base.Outcome.{Outcome, ok}
use nembus_os.Task.{Registers, resumed}
use nembus_os.Task.RoundRobin.{registers_of, HasSwitched, switch_task-stays}
use nembus_os.Interrupts.{Regs, Machine, Course, returns, jumps, irq_handler}
use nembus_os.Interrupts.Irqs.{put_routine, irq_install_handler-in, irq_handler-called, HasServed}
use nembus_os.Timer.{Clock, timer_handler, timer_install, resume, call_timer}
use nembus_os.Timer.Turns.{IsRunning, timer_handler-next}

timer_handler-stays :
    (regs : Registers) (c : Clock)
    → (c.tasks.current_task ≡ 0) ⊎ (regs.eip ≡ resumed)
    → timer_handler regs c ≡ ok (record c { timer_ticks = add32 c.timer_ticks 1 }, none)
unfolding timer_handler
timer_handler-stays regs c why = rw (switch_task-stays regs c.tasks why) refl

module _ (address : ℕ) (regs : Registers)
    (other : (handler : ℕ) → Regs → Machine Clock → Outcome (Course Clock)) (r : Regs)
    (m : Machine Clock) (whole : length m.irq_routines ≡ 16) (real : address ≢ 0)
    (request : r.int_no ≡ 32) where
  called :
      (c : Clock) (to : Option Registers)
      → timer_handler regs m.kernel ≡ ok (c, to)
      → call_timer address regs other address r (put_routine 0 address m)
        ≡ ok (resume address regs other r (put_routine 0 address m) (c, to))
  unfolding call_timer put_routine
  called c to done = rw (eq→== address address refl, done) refl

  served : HasServed (call_timer address regs other) 0 address r (put_routine 0 address m)
  unfolding put_routine
  served =
      irq_handler-called (call_timer address regs other) 0 address r (put_routine 0 address m)
        (omega arith) (omega (arith, request)) real
        (get_elem?-set_self m.irq_routines 0 address (omega (arith, whole)))

  -- After `timer_install`, with a table of 16 routines: when request 0 interrupts the task at
  -- position `i` of the ready queue, the clock is moved on, the registers of this task are saved, and
  -- control goes to the registers that the task behind it in the queue has saved, without telling
  -- the interrupt controllers, which the resumed task has to do. When there is no task yet, or the
  -- task has only just been resumed, the clock is moved on, the master controller is told, and
  -- control comes back.
  pub timer_install-request :
      (m' : Machine Clock) × (timer_install address m ≡ ok m')
      × (m'.ports ≡ m.ports)
      × ((xs : List ℕ) (i : ℕ)
          → IsRunning xs i m.kernel
          → regs.eip ≢ resumed
          → (c : Clock) × (irq_handler (call_timer address regs other) r m'
              ≡ ok (
                  jumps
                    (registers_of (c.tasks.store c.tasks.current_task))
                    (record m' { kernel = c })))
            × IsRunning xs (suc i % length xs) c
            × HasSwitched regs m.kernel.tasks c.tasks
            × (c.timer_ticks ≡ add32 m.kernel.timer_ticks 1))
      × ((m.kernel.tasks.current_task ≡ 0) ⊎ (regs.eip ≡ resumed)
          → irq_handler (call_timer address regs other) r m'
            ≡ ok (
                returns r (record m' {
                  ports = (0x20, 0x20) ∷ m.ports;
                  kernel = record (m.kernel) { timer_ticks = add32 m.kernel.timer_ticks 1 };
                })))
  unfolding timer_install put_routine
  timer_install-request = (
    put_routine 0 address m,
    irq_install_handler-in 0 address m (omega (arith, whole)),
    refl,
    λ xs i run fresh.
        let (c, done, next, switched, count) = timer_handler-next regs m.kernel xs i run fresh in
        let to = registers_of (c.tasks.store c.tasks.current_task) in
        (c, served.left to _ (called c (some to) done), next, switched, count),
    λ why. served.returned r _ (called _ none (timer_handler-stays regs m.kernel why)) refl,
  )
