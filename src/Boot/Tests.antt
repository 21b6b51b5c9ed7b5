-- ===== src/Boot/Tests.antt =====
-- A start with tasks at 0x5000, 0x6000 and 0x7000, and a disk that the boot loader has put at 0x9000.
use nembus_os.Base.{ℕ, ◌≡◌, refl, arith, [], ◌==◌, if◌then◌else◌}
use nembus_os.Base.Outcome.{ok, panic}
use nembus_os.Memory.{Memory, load32}
use nembus_os.Gdt.{zero_tss}
use nembus_os.Task.{Task, Tasks}
use nembus_os.Boot.{Given, find_initrd, start_tasks}
use nembus_os.Boot.Queue.{HasBooted, start_tasks-HasBooted}

abbrev zeros : Memory
zeros a = 0

abbrev multiboot : Memory
multiboot a =
    if a == 20
    then 1
    else if a == 25
    then 1
    else if a == 257
    then 0x90
    else if a == 261
    then 0xA0
    else 0

finds_module : find_initrd multiboot 0 ≡ ok (0x9000, 0xA000)
unfolding find_initrd load32
finds_module = refl

no_module : find_initrd zeros 0 ≡ panic
unfolding find_initrd load32
no_module = refl

abbrev unused : Task
unused = record {
  id = 0;
  esp = 0;
  ebp = 0;
  eip = 0;
  page_directory = 0;
  kernel_stack = 0;
  next = 0;
}

abbrev before : Tasks
before = record {
  store = λ p. unused;
  current_task = 0;
  ready_queue = 0;
  next_pid = 1;
  current_directory = 0x9000;
  tables = record {
    gdt = [];
    gp = record { limit = 0; base = 0 };
    tss_entry = zero_tss;
    idt = [];
    idtp = record { limit = 0; base = 0 };
    gdt_address = 0x1000;
    tss_address = 0x2000;
    idt_address = 0x3000;
  };
}

abbrev given : (task stack : ℕ) → Given
given task stack = record {
  directory = 0xB000;
  task = task;
  stack = stack;
  esp = 0xE000;
  ebp = 0xE100;
}

start_tasks-HasBooted_example :
    (s' : Tasks) × (start_tasks 2 0x100000 0x5000 0xC000
        (given 0x6000 0xD000)
        (given 0x7000 0xE000)
        before
      ≡ ok s')
    × HasBooted before s' 0x100000 0x5000 (given 0x6000 0xD000) (given 0x7000 0xE000)
start_tasks-HasBooted_example =
    start_tasks-HasBooted 2 0x100000 0x5000 0xC000 (given 0x6000 0xD000) (given 0x7000 0xE000)
      before (omega arith) (omega arith) (omega arith) (omega arith) (omega arith) (omega arith)
      (omega arith)
