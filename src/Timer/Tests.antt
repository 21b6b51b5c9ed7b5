-- ===== src/Timer/Tests.antt =====
-- A queue of two tasks under the timer.
use nembus_os.Base.{
  ℕ, suc, ◌+◌, ◌/◌, ◌%◌, ◌^◌, ◌≤◌, ◌<◌, ◌≡◌, ◌≢◌, ◌⊎◌, refl, arith, some, List, [], ◌∷◌, length,
  ◌==◌, if◌then◌else◌,
}
use nembus_os.Base.Words.{add32}
use nembus_os.Base.Outcome.{Outcome, ok, fault}
use nembus_os.Gdt.{Tables, zero_tss}
use nembus_os.Task.{Task, Registers, resumed}
use nembus_os.Task.RoundRobin.{registers_of, HasSwitched}
use nembus_os.Task.Queue.{Chain}
use nembus_os.Interrupts.{Regs, Machine, Course, returns, jumps, no_routines, irq_handler}
use nembus_os.Timer.{Clock, wait_from, timer_wait, timer_install, call_timer}
use nembus_os.Timer.Turns.{ticks, IsRunning, ticks-reach}
use nembus_os.Timer.Wait.{timer_wait-ends}
use nembus_os.Timer.Request.{timer_install-request}

abbrev no_tables : Tables
no_tables = record {
  gdt = [];
  gp = record { limit = 0; base = 0 };
  tss_entry = zero_tss;
  idt = [];
  idtp = record { limit = 0; base = 0 };
  gdt_address = 0x1000;
  tss_address = 0x2000;
  idt_address = 0x3000;
}

abbrev task_of : (id next : ℕ) → Task
task_of id next = record {
  id = id;
  esp = 0xE000;
  ebp = 0xE100;
  eip = 0x100000;
  page_directory = 0x9000;
  kernel_stack = 0xA000;
  next = next;
}

abbrev second_running : Clock
second_running = record {
  timer_ticks = 7;
  tasks = record {
    store = λ p. if p == 0x5000 then task_of 1 0x6000 else task_of 2 0;
    current_task = 0x6000;
    ready_queue = 0x5000;
    next_pid = 3;
    current_directory = 0x9000;
    tables = no_tables;
  };
}

abbrev addresses : List ℕ
addresses = 0x5000 ∷ 0x6000 ∷ []

abbrev in_task : ℕ → Registers
in_task k = record { esp = 0xF000; ebp = 0xF100; eip = 0x100100 }

second_running-IsRunning : IsRunning addresses 1 second_running
second_running-IsRunning = record {
  chain = (refl, (omega arith), ((omega arith), tt), (refl, (omega arith), tt, refl));
  at = refl;
}

ticks-reach_example :
    (n : ℕ) × (c' : Clock) × (n ≤ 2)
    × (ticks in_task n second_running ≡ ok c')
    × (some 0x5000 ≡ some c'.tasks.current_task)
    × Chain c'.tasks.store c'.tasks.ready_queue addresses
    × (c'.timer_ticks % 2 ^ 32 ≡ (7 + n) % 2 ^ 32)
ticks-reach_example =
    ticks-reach in_task second_running addresses 1 0 second_running-IsRunning (λ k. omega arith)
      (omega arith)

-- A clock that moves on at every third read.
abbrev slow_clock : ℕ → ℕ
slow_clock n = (100 + n / 3) % 2 ^ 32

waits_for : timer_wait slow_clock 20 5 ≡ ok 15
unfolding timer_wait wait_from
waits_for = refl

timer_wait-ends_example :
    (n : ℕ) × (timer_wait slow_clock 20 5 ≡ ok n)
    × (n ≤ 16)
    × (105 ≤ slow_clock n)
    × ((m : ℕ) → 1 ≤ m → m < n → slow_clock m < 105)
timer_wait-ends_example =
    timer_wait-ends slow_clock 3 5 20 (omega arith) (omega arith) (λ n near. omega arith)
      (omega arith)

abbrev request : Regs
request = record {
  gs = 0x10;
  fs = 0x10;
  es = 0x10;
  ds = 0x10;
  edi = 0;
  esi = 0;
  ebp = 0xF100;
  esp = 0xF000;
  ebx = 0;
  edx = 0;
  ecx = 0;
  eax = 0;
  int_no = 32;
  err_code = 0;
  eip = 0x100100;
  cs = 0x08;
  eflags = 0x202;
  useresp = 0;
  ss = 0x10;
}

abbrev machine : Machine Clock
machine = record { irq_routines = no_routines; ports = []; kernel = second_running }

abbrev no_other : (handler : ℕ) → Regs → Machine Clock → Outcome (Course Clock)
no_other handler r m = fault

abbrev handler_address : ℕ
handler_address = 0x104000

timer_install-request_example :
    (m' : Machine Clock) × (timer_install handler_address machine ≡ ok m')
    × (m'.ports ≡ [])
    × ((xs : List ℕ) (i : ℕ)
        → IsRunning xs i second_running
        → (in_task 0).eip ≢ resumed
        → (c : Clock) × (irq_handler (call_timer handler_address (in_task 0) no_other) request m'
            ≡ ok (
                jumps
                  (registers_of (c.tasks.store c.tasks.current_task))
                  (record m' { kernel = c })))
          × IsRunning xs (suc i % length xs) c
          × HasSwitched (in_task 0) second_running.tasks c.tasks
          × (c.timer_ticks ≡ add32 7 1))
    × ((second_running.tasks.current_task ≡ 0) ⊎ ((in_task 0).eip ≡ resumed)
        → irq_handler (call_timer handler_address (in_task 0) no_other) request m'
          ≡ ok (
              returns request (record m' {
                ports = (0x20, 0x20) ∷ [];
                kernel = record second_running { timer_ticks = add32 7 1 };
              })))
timer_install-request_example =
    timer_install-request handler_address (in_task 0) no_other request machine refl (omega arith)
      refl
