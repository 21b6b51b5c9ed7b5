-- ===== src/Interrupts.antt =====
-- Interrupts, exceptions and system calls: src/impl/isr.c and src/include/isr.h. A handler is the
-- address of its function, 0 is the null pointer, and what a handler does is a parameter. The
-- addresses of the stubs, which src/impl/interrupt.asm defines, are parameters too. A write to a
-- port is a pair of port and value, the latest first.
pub mod Gates
pub mod Irqs
pub mod Faults
pub mod Calls
mod Tests
use Prim.Native.String.{String}
use nembus_os.Base.{
  ℕ, ◌+◌, ◌-◌, ◌*◌, ◌%◌, ◌^◌, ◌&&◌, Bool, Option, none, some, List, [], ◌∷◌, ltb, leb, ◌==◌,
  if◌then◌else◌, length, set, get_elem?, replicate,
}
use nembus_os.Base.Words.{w32, sub32}
use nembus_os.Base.Outcome.{Outcome, ok, fault, ◌>>=◌, or_fault}
use nembus_os.Gdt.{Tables, idt_set_gate}
use nembus_os.Task.{Registers}

-- `struct regs`
pub record Regs : Type 0 where
  pub gs : ℕ
  pub fs : ℕ
  pub es : ℕ
  pub ds : ℕ
  pub edi : ℕ
  pub esi : ℕ
  pub ebp : ℕ
  pub esp : ℕ
  pub ebx : ℕ
  pub edx : ℕ
  pub ecx : ℕ
  pub eax : ℕ
  pub int_no : ℕ
  pub err_code : ℕ
  pub eip : ℕ
  pub cs : ℕ
  pub eflags : ℕ
  pub useresp : ℕ
  pub ss : ℕ

-- The globals of isr.c, the ports, and the state `K` of the rest of the kernel.
pub record Machine (K : Type 0) : Type 0 where
  pub irq_routines : List ℕ
  pub ports : List (ℕ × ℕ)
  pub kernel : K

-- How a handler ends: it returns, it goes on in another task with the registers that
-- `perform_task_switch` is given, and does not return, or it prints a message and halts the system.
pub data Course (K : Type 0) : Type 0 where
  returns : Regs → Machine K → Course K
  jumps : Registers → Machine K → Course K
  halts : (message : String) → Machine K → Course K

-- `irq_routines` at the start
abbrev pub no_routines : List ℕ
no_routines = replicate 16 0

-- `int irq` indexes the table as it is: a negative number is far outside.
unfoldable pub irq_install_handler :
    {K : Type 0} → (irq handler : ℕ) → Machine K → Outcome (Machine K)
irq_install_handler irq handler m =
    if ltb irq (length m.irq_routines)
    then ok (record m { irq_routines = set m.irq_routines irq handler })
    else fault

unfoldable pub irq_uninstall_handler : {K : Type 0} → (irq : ℕ) → Machine K → Outcome (Machine K)
irq_uninstall_handler irq m =
    if ltb irq (length m.irq_routines)
    then ok (record m { irq_routines = set m.irq_routines irq 0 })
    else fault

-- `outportb`
abbrev pub write_port : {K : Type 0} → (port val : ℕ) → Machine K → Machine K
write_port port val m = record m { ports = (port, val % 256) ∷ m.ports }

unfoldable pub irq_remap : {K : Type 0} → Machine K → Machine K
irq_remap m = write_port 0xA1 0x0 (
    write_port 0x21 0x0 (
      write_port 0xA1 0x01 (
        write_port 0x21 0x01 (
          write_port 0xA1 0x02 (
            write_port 0x21 0x04 (
              write_port 0xA1 0x28
                (write_port 0x21 0x20 (write_port 0xA0 0x11 (write_port 0x20 0x11 m)))))))))

-- Calls of `idt_set_gate` one after the other, each for a number and its stub.
pub set_gates : List (ℕ × ℕ) → Tables → Outcome Tables
set_gates [] t = ok t
set_gates ((num, stub) ∷ rest) t = do t' ← idt_set_gate num stub 0x08 0x8E t; set_gates rest t'

abbrev pub isr_gates : (isr : ℕ → ℕ) → List (ℕ × ℕ)
isr_gates isr =
    (0, isr 0)
    ∷ (1, isr 1)
    ∷ (2, isr 2)
    ∷ (3, isr 3)
    ∷ (4, isr 4)
    ∷ (5, isr 5)
    ∷ (6, isr 6)
    ∷ (7, isr 7)
    ∷ (8, isr 8)
    ∷ (9, isr 9)
    ∷ (10, isr 10)
    ∷ (11, isr 11)
    ∷ (12, isr 12)
    ∷ (13, isr 13)
    ∷ (14, isr 14)
    ∷ (15, isr 15)
    ∷ (16, isr 16)
    ∷ (17, isr 17)
    ∷ (18, isr 18)
    ∷ (19, isr 19)
    ∷ (20, isr 20)
    ∷ (21, isr 21)
    ∷ (22, isr 22)
    ∷ (23, isr 23)
    ∷ (24, isr 24)
    ∷ (25, isr 25)
    ∷ (26, isr 26)
    ∷ (27, isr 27)
    ∷ (28, isr 28)
    ∷ (29, isr 29)
    ∷ (30, isr 30)
    ∷ (31, isr 31)
    ∷ []

unfoldable pub isrs_install : (isr : ℕ → ℕ) → Tables → Outcome Tables
isrs_install isr t = set_gates (isr_gates isr) t

abbrev pub irq_gates : (irq : ℕ → ℕ) (isr128 : ℕ) → List (ℕ × ℕ)
irq_gates irq isr128 =
    (32, irq 0)
    ∷ (33, irq 1)
    ∷ (34, irq 2)
    ∷ (35, irq 3)
    ∷ (36, irq 4)
    ∷ (37, irq 5)
    ∷ (38, irq 6)
    ∷ (39, irq 7)
    ∷ (40, irq 8)
    ∷ (41, irq 9)
    ∷ (42, irq 10)
    ∷ (43, irq 11)
    ∷ (44, irq 12)
    ∷ (45, irq 13)
    ∷ (46, irq 14)
    ∷ (47, irq 15)
    ∷ (128, isr128)
    ∷ []

unfoldable pub irq_install :
    {K : Type 0} → (irq : ℕ → ℕ) (isr128 : ℕ) → Tables → Machine K → Outcome (Tables × Machine K)
irq_install irq isr128 t m = do t' ← set_gates (irq_gates irq isr128) t; ok (t', irq_remap m)

abbrev pub exception_messages : List String
exception_messages =
    "Division By Zero" ∷ "Debug" ∷ "Non Maskable Interrupt" ∷ "Breakpoint"
    ∷ "Into Detected Overflow" ∷ "Out of Bounds" ∷ "Invalid Opcode" ∷ "No Coprocessor"
    ∷ "Double Fault" ∷ "Coprocessor Segment Overrun" ∷ "Bad TSS" ∷ "Segment Not Present"
    ∷ "Stack Fault" ∷ "General Protection Fault" ∷ "Page Fault" ∷ "Unknown Interrupt"
    ∷ "Coprocessor Fault" ∷ "Alignment Check" ∷ "Machine Check" ∷ "Reserved" ∷ "Reserved"
    ∷ "Reserved" ∷ "Reserved" ∷ "Reserved" ∷ "Reserved" ∷ "Reserved" ∷ "Reserved" ∷ "Reserved"
    ∷ "Reserved" ∷ "Reserved" ∷ "Reserved" ∷ "Reserved" ∷ []

-- The two functions of `syscalls`.
pub data Function : Type 0 where
  printf printfhex : Function

abbrev pub syscalls : List Function
syscalls = printf ∷ printfhex ∷ []

abbrev pub num_syscalls : ℕ
num_syscalls = 2

-- The end of an interrupt, for the slave controller and for the master.
abbrev pub end_of_interrupt : {K : Type 0} → (int_no : ℕ) → Machine K → Machine K
end_of_interrupt int_no m =
    write_port 0x20 0x20 (if leb 40 int_no then write_port 0xA0 0x20 m else m)

-- What `irq_handler` does once the handler has ended; the handler may have changed the number.
abbrev pub acknowledge : {K : Type 0} → Course K → Course K
acknowledge (returns r m) = returns r (end_of_interrupt r.int_no m)
acknowledge (jumps to m) = jumps to m
acknowledge (halts message m) = halts message m

module _ {K : Type 0} (call : (handler : ℕ) → Regs → Machine K → Outcome (Course K)) where
  unfoldable pub irq_handler : Regs → Machine K → Outcome (Course K)
  irq_handler r m = do
    handler ← or_fault (get_elem? m.irq_routines (sub32 r.int_no 32))
    course ← (if handler == 0 then ok (returns r m) else call handler r m)
    ok (acknowledge course)

  -- A system call: the function, its five arguments, and what it leaves in `eax`.
  module _ (run : Function → (ebx ecx edx esi edi : ℕ) → Machine K → Outcome (Machine K × ℕ)) where
    abbrev pub system_call : Regs → Machine K → Outcome (Course K)
    system_call r m =
        if leb num_syscalls r.eax
        then ok (returns r m)
        else or_fault (get_elem? syscalls r.eax) >>= (λ function.
          run function r.ebx r.ecx r.edx r.esi r.edi m
          >>= (λ result. ok (returns (record r { eax = result.1 }) result.0)))

    -- `outb` takes the value first, and the port second.
    abbrev pub outb : (value port : ℕ) → Machine K → Machine K
    outb value port m = write_port port value m

    -- An interrupt that reaches `fault_handler`.
    abbrev pub fault_acknowledge : (int_no : ℕ) → Machine K → Machine K
    fault_acknowledge int_no m =
        if leb 32 int_no && leb int_no 47
        then outb 0x20 0x20 (if leb 40 int_no then outb 0xA0 0x20 m else m)
        else m

    -- An exception: its handler, or its message and `PANIC`.
    abbrev pub exception : Regs → Machine K → Outcome (Course K)
    exception r m =
        if ltb r.int_no 32
        then or_fault (get_elem? m.irq_routines r.int_no) >>= (λ handler.
          if handler == 0
          then or_fault (get_elem? exception_messages r.int_no)
            >>= (λ message. ok (halts message m))
          else call handler r m)
        else ok (returns r m)

    unfoldable pub fault_handler : Regs → Machine K → Outcome (Course K)
    fault_handler r m =
        if r.int_no == 0x80 then system_call r m else exception r (fault_acknowledge r.int_no m)
