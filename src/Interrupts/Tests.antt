-- ===== src/Interrupts/Tests.antt =====
-- A machine whose kernel state counts the calls of the one handler that there is.
use nembus_os.Base.{ℕ, ◌+◌, ◌≡◌, ◌≢◌, refl, arith, List, [], ◌∷◌, ◌++◌, get_elem?, replicate}
use nembus_os.Base.Outcome.{Outcome, ok, ◌>>=◌}
use nembus_os.Gdt.{IdtEntry, Tables, zero_tss, idt_entry}
use nembus_os.Interrupts.{
  printfhex, Regs, Machine, Course, returns, Function, no_routines, irq_install_handler,
  irq_uninstall_handler, isrs_install, irq_install, acknowledge, irq_handler, fault_handler,
}
use nembus_os.Interrupts.Gates.{controller_setup, entry_after, vector, install-gates}
use nembus_os.Interrupts.Irqs.{controllers, HasServed, irq_handler-installed}
use nembus_os.Interrupts.Calls.{
  syscall0, syscall1, syscall2, syscall3, syscall4, syscall_printf, syscall_printfhex, syscalls-run,
}
use nembus_os.Interrupts.Faults.{HasHandled, fault_handler-HasHandled, fault_handler-shared}

abbrev empty_tables : Tables
empty_tables = record {
  gdt = [];
  gp = record { limit = 0; base = 0 };
  tss_entry = zero_tss;
  idt = replicate 256 (idt_entry 0 0 0);
  idtp = record { limit = 0; base = 0 };
  gdt_address = 0x1000;
  tss_address = 0x2000;
  idt_address = 0x3000;
}

abbrev machine : Machine ℕ
machine = record { irq_routines = no_routines; ports = []; kernel = 0 }

abbrev isr : ℕ → ℕ
isr n = 0x100000 + n

abbrev irq : ℕ → ℕ
irq n = 0x101000 + n

install-gates_example :
    (idt : List IdtEntry) × ((isrs_install isr empty_tables
        >>= (λ t'. irq_install irq 0x102000 t' machine))
      ≡ ok (record empty_tables { idt = idt }, record machine { ports = controller_setup }))
    × ((i : ℕ)
        → get_elem? idt i ≡ entry_after (vector isr irq 0x102000 i) (get_elem? empty_tables.idt i))
install-gates_example = install-gates isr irq 0x102000 empty_tables machine refl

abbrev regs_of : (int_no eax : ℕ) → Regs
regs_of int_no eax = record {
  gs = 0x10;
  fs = 0x10;
  es = 0x10;
  ds = 0x10;
  edi = 0;
  esi = 0;
  ebp = 0xF100;
  esp = 0xF000;
  ebx = 0;
  edx = 0;
  ecx = 0;
  eax = eax;
  int_no = int_no;
  err_code = 0;
  eip = 0x100100;
  cs = 0x08;
  eflags = 0x202;
  useresp = 0;
  ss = 0x10;
}

abbrev count_call : (handler : ℕ) → Regs → Machine ℕ → Outcome (Course ℕ)
count_call handler r m = ok (returns r (record m { kernel = m.kernel + 1 }))

abbrev no_functions : Function → (ebx ecx edx esi edi : ℕ) → Machine ℕ → Outcome (Machine ℕ × ℕ)
no_functions f ebx ecx edx esi edi m = ok (m, 0)

irq_handler-installed_example :
    (m' : Machine ℕ) × (m'' : Machine ℕ) × (irq_install_handler 9 0x5000 machine ≡ ok m')
    × HasServed count_call 9 0x5000 (regs_of 41 0) m'
    × (irq_uninstall_handler 9 m' ≡ ok m'')
    × (irq_handler count_call (regs_of 41 0) m''
        ≡ ok (returns (regs_of 41 0) (record m'' { ports = controllers 9 ++ m''.ports })))
    × ((k : ℕ)
        → k ≢ 9
        → (get_elem? m'.irq_routines k ≡ get_elem? no_routines k)
          × (get_elem? m''.irq_routines k ≡ get_elem? no_routines k))
irq_handler-installed_example =
    irq_handler-installed count_call 9 0x5000 (regs_of 41 0) machine refl (omega arith)
      (omega arith) refl

-- The slave controller is told before the master.
told_in_order : (irq_install_handler 9 0x5000 machine >>= irq_handler count_call (regs_of 41 0)) ≡ (
    irq_install_handler 9 0x5000 machine >>= (λ m.
      ok (
        returns
          (regs_of 41 0)
          (record m { ports = (0x20, 0x20) ∷ (0xA0, 0x20) ∷ []; kernel = 1 }))))
unfolding irq_install_handler irq_handler
told_in_order = refl

fault_handler-HasHandled_example : HasHandled count_call no_functions (regs_of 17 0) machine
fault_handler-HasHandled_example =
    fault_handler-HasHandled count_call no_functions (regs_of 17 0) machine refl

fault_handler-shared_example :
    (m' : Machine ℕ) × (irq_install_handler 0 0x5000 machine ≡ ok m')
    × (fault_handler count_call no_functions (regs_of 0 0) m' ≡ count_call 0x5000 (regs_of 0 0) m')
    × ((r' : Regs)
        → r'.int_no ≡ 32 + 0
        → irq_handler count_call r' m'
          ≡ (count_call 0x5000 r' m' >>= (λ course. ok (acknowledge course))))
fault_handler-shared_example =
    fault_handler-shared count_call no_functions 0 0x5000 (regs_of 0 0) machine refl (omega arith)
      (omega arith) refl

-- A function that adds its parameters up.
abbrev sum_of : Function → (ebx ecx edx esi edi : ℕ) → Machine ℕ → Outcome (Machine ℕ × ℕ)
sum_of f ebx ecx edx esi edi m = ok (m, ebx + ecx + edx + esi + edi)

syscalls-run_example :
    let r = regs_of 0 0 in
    (syscall0 count_call sum_of 1 r machine ≡ ok (machine, 0))
    × (syscall1 count_call sum_of 1 5 r machine ≡ ok (machine, 5))
    × (syscall2 count_call sum_of 1 5 6 r machine ≡ ok (machine, 11))
    × (syscall3 count_call sum_of 1 5 6 7 r machine ≡ ok (machine, 18))
    × (syscall4 count_call sum_of 1 5 6 7 8 r machine ≡ ok (machine, 26))
    × (syscall_printf count_call sum_of 5 r machine ≡ ok (machine, 5))
    × (syscall_printfhex count_call sum_of 5 r machine ≡ ok (machine, 5))
syscalls-run_example = syscalls-run count_call sum_of 1 5 6 7 8 printfhex (regs_of 0 0) machine refl
