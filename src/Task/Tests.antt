-- ===== src/Task/Tests.antt =====
-- A queue of two tasks, at 0x5000 and 0x6000.
use nembus_os.Base.{
  ◌<◌, ◌≤◌, ◌-◌, ◌*◌, ℕ, ◌%◌, ◌≡◌, refl, arith, some, List, [], ◌∷◌, ◌++◌, get_elem?, ◌==◌,
  if◌then◌else◌,
}
use nembus_os.Base.Outcome.{ok}
use nembus_os.Gdt.{Tables, zero_tss}
use nembus_os.Memory.{load32}
use nembus_os.Task.{Task, Tasks, Registers, switch_task, create_proc, fork, fork_result}
use nembus_os.Task.Fork.{fork-twice}
use nembus_os.Task.Stack.{relocate, move_stack}
use nembus_os.Task.Stack.Moved.{move_stack-words}
use nembus_os.Task.Queue.{Chain, IsStarted, create_proc-Chain}
use nembus_os.Task.RoundRobin.{HasSwitched, registers_of, switch_task-next}

abbrev no_tables : Tables
no_tables = record {
  gdt = [];
  gp = record { limit = 0; base = 0 };
  tss_entry = zero_tss;
  idt = [];
  idtp = record { limit = 0; base = 0 };
  gdt_address = 0x1000;
  tss_address = 0x2000;
  idt_address = 0x3000;
}

abbrev task_of : (id next : ℕ) → Task
task_of id next = record {
  id = id;
  esp = 0xE000;
  ebp = 0xE100;
  eip = 0x100000;
  page_directory = 0x9000;
  kernel_stack = 0xA000;
  next = next;
}

abbrev two_tasks : Tasks
two_tasks = record {
  store = λ p. if p == 0x5000 then task_of 1 0x6000 else task_of 2 0;
  current_task = 0x6000;
  ready_queue = 0x5000;
  next_pid = 3;
  current_directory = 0x9000;
  tables = no_tables;
}

abbrev two_addresses : List ℕ
two_addresses = 0x5000 ∷ 0x6000 ∷ []

abbrev interrupted : Registers
interrupted = record { esp = 0xF000; ebp = 0xF100; eip = 0x100100 }

two_tasks-Chain : Chain two_tasks.store 0x5000 two_addresses
two_tasks-Chain = (refl, (omega arith), ((omega arith), tt), (refl, (omega arith), tt, refl))

switch_task-next_example :
    (s' : Tasks) × (switch_task interrupted two_tasks
      ≡ ok (s', some (registers_of (s'.store s'.current_task))))
    × (get_elem? two_addresses (2 % 2) ≡ some s'.current_task)
    × Chain s'.store s'.ready_queue two_addresses
    × HasSwitched interrupted two_tasks s'
switch_task-next_example =
    switch_task-next interrupted two_tasks two_addresses 1 two_tasks-Chain refl (omega arith)

create_proc-Chain_example :
    (s' : Tasks) × (create_proc 2 0x200000 0xB000 0x7000 0xC000 0xF000 0xF100 two_tasks
      ≡ ok (s', 3))
    × Chain s'.store s'.ready_queue (two_addresses ++ 0x7000 ∷ [])
    × IsStarted two_tasks s' 0x200000 0xB000 0x7000 0xC000 0xF000 0xF100
create_proc-Chain_example =
    create_proc-Chain 2 0x200000 0xB000 0x7000 0xC000 0xF000 0xF100 0x5000 (0x6000 ∷ []) two_tasks
      two_tasks-Chain ((omega arith), ((omega arith), tt)) (omega arith) (omega arith) (omega arith)

fork-twice_example :
    (s' : Tasks) × (fork 2 0x100200 0xB000 0x7000 0xC000 0xF000 0xF100 two_tasks ≡ ok (s', 3))
    × Chain s'.store s'.ready_queue (two_addresses ++ 0x7000 ∷ [])
    × (registers_of (s'.store 0x7000) ≡ record { esp = 0xF000; ebp = 0xF100; eip = 0x100200 })
    × ((s'.store 0x7000).id ≡ 3)
    × ((s'.store 0x7000).page_directory ≡ 0xB000)
    × (fork_result 0x6000 3 s' ≡ 3)
    × ((t : Tasks) → t.current_task ≡ 0x7000 → fork_result 0x6000 3 t ≡ 0)
fork-twice_example =
    fork-twice 2 0x100200 0xB000 0x7000 0xC000 0xF000 0xF100 0x5000 (0x6000 ∷ []) two_tasks
      two_tasks-Chain ((omega arith), ((omega arith), tt)) (omega arith) (omega arith) (omega arith)

-- Every byte is 1, so a word is 0x01010101, which lies in the old stack of two words.
move_stack-words_example :
    let (m', esp, ebp) = move_stack 0xE0000000 0x2000 0x01010100 0x01010104 0x01010108 (λ _. 1) in
    (esp ≡ 0xE0000000 - 4 * 2)
    × ((k : ℕ)
        → 1 ≤ k
        → k ≤ 2
        → load32 m' (0xE0000000 - 4 * k)
          ≡ relocate 0x01010100 0x01010108
              (0xE0000000 - 0x01010108)
              (load32 (λ _. 1) (0x01010108 - 4 * k)))
    × ((p : ℕ) → p < 0x01010108 → m' p ≡ 1)
move_stack-words_example =
    move_stack-words 0xE0000000 0x2000 0x01010100 0x01010104 0x01010108 2 (λ _. 1)
      (λ a. omega arith) refl (omega arith) (omega arith) (omega arith)
