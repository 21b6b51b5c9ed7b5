-- ===== src/Boot.antt =====
-- The start of the kernel, src/kernel/kernel.c, with the part of src/include/multiboot.h that it
-- reads. `_kmain` is its steps in their order, each on the state that it changes: the boot loader's
-- information, the screen, the tables, and the tasks. initialise_paging and initialise_initrd are in
-- Paging/Boot and Initrd.
pub mod Queue
mod Tests
use nembus_os.Base.{ℕ, zero, suc, ◌+◌, List, [], ◌∷◌, Option, ltb}
use nembus_os.Base.Words.{add32}
use nembus_os.Base.Outcome.{Outcome, ok, assert, ◌>>=◌, ◌>>◌}
use nembus_os.Memory.{Memory, load32}
use nembus_os.Vga.{Screen, cls, vga_set_cursor_pos, printf, printfhex, newline}
use nembus_os.Gdt.{Tables, gdt_install, idt_install}
use nembus_os.Interrupts.{Machine, isrs_install, irq_install}
use nembus_os.Task.{
  Tasks, Registers, switch_task, create_proc, getpid, initialise_tasking, switch_to_user_mode,
}

-- The fields of `MULTIBOOT_INFO` that `_kmain` reads, by their place in the structure.
abbrev pub modules_count : Memory → (mb : ℕ) → ℕ
modules_count mem mb = load32 mem (add32 mb 20)

abbrev pub modules_addr : Memory → (mb : ℕ) → ℕ
modules_addr mem mb = load32 mem (add32 mb 24)

-- The start and the end of the first module, which is the disk's image; the end becomes
-- `placement_address`.
unfoldable pub find_initrd : Memory → (mb : ℕ) → Outcome (ℕ × ℕ)
find_initrd mem mb =
    let initrd_location = load32 mem (modules_addr mem mb) in
    let initrd_end = load32 mem (add32 (modules_addr mem mb) 4) in
    assert (ltb 0 (modules_count mem mb)) >> ok (initrd_location, initrd_end)

-- The messages, each with its zero byte.
abbrev pub booting : List ℕ
booting =
    b'B' ∷ b'o' ∷ b'o' ∷ b't' ∷ b'i' ∷ b'n' ∷ b'g' ∷ b' ' ∷ b'N' ∷ b'e' ∷ b'm' ∷ b'b' ∷ b'u' ∷ b's'
    ∷ b'O' ∷ b'S' ∷ b'!' ∷ 10 ∷ 10 ∷ b'I' ∷ b'n' ∷ b'i' ∷ b't' ∷ b'i' ∷ b'a' ∷ b'l' ∷ b' ' ∷ b's'
    ∷ b't' ∷ b'a' ∷ b'c' ∷ b'k' ∷ b':' ∷ b' ' ∷ 0 ∷ []

abbrev pub hello : List ℕ
hello =
    10 ∷ b'H' ∷ b'e' ∷ b'l' ∷ b'l' ∷ b'o' ∷ b' ' ∷ b'f' ∷ b'r' ∷ b'o' ∷ b'm' ∷ b' ' ∷ b'p' ∷ b'r'
    ∷ b'o' ∷ b'c' ∷ b' ' ∷ 0 ∷ []

unfoldable pub greet : (initial_stack : ℕ) → Screen → Screen
greet initial_stack s =
    newline (newline (printfhex initial_stack (printf booting (vga_set_cursor_pos 0 0 (cls s)))))

-- The descriptor tables and the gates; the stubs are parameters.
unfoldable pub install_tables :
    {K : Type 0}
    → (isr irq : ℕ → ℕ) (isr128 : ℕ) → Tables
    → Machine K
    → Outcome (Tables × Machine K)
install_tables isr irq isr128 t m = do
  t1 ← gdt_install t
  t2 ← isrs_install isr (idt_install t1)
  irq_install irq isr128 t2 m

-- What the allocator and the processor give to one `create_proc`.
pub record Given : Type 0 where
  pub directory : ℕ
  pub task : ℕ
  pub stack : ℕ
  pub esp : ℕ
  pub ebp : ℕ

abbrev pub create : (fuel routine : ℕ) → Given → Tasks → Outcome (Tasks × ℕ)
create fuel routine g s = create_proc fuel routine g.directory g.task g.stack g.esp g.ebp s

-- The tasks that `_kmain` makes: its own, and two of `proc`, whose address is `proc_address`.
unfoldable pub start_tasks :
    (fuel proc_address fresh stack : ℕ) → (one two : Given) → Tasks → Outcome Tasks
start_tasks fuel proc_address fresh stack one two s = do
  (s1, id1) ← create fuel proc_address one (initialise_tasking fresh stack s)
  (s2, id2) ← create fuel proc_address two s1
  ok (switch_to_user_mode s2)

-- One round of `proc`'s loop; `regs` is what the processor has when it comes to `switch_task`.
unfoldable pub proc_round : Registers → Screen × Tasks → Outcome (Screen × Tasks × Option Registers)
proc_round regs (screen, tasks) = do
  (tasks', to) ← switch_task regs tasks
  ok (newline (printfhex (getpid tasks) (printf hello screen)), tasks', to)
