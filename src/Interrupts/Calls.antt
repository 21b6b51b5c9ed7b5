-- ===== src/Interrupts/Calls.antt =====
-- The system calls from the caller's side: the wrappers that src/include/syscall.h makes, through
-- `int $0x80` to `fault_handler` and back. DEFN_SYSCALL5 names types that it does not take, so no
-- function can be made of it, and it is left out.
use nembus_os.Base.{ℕ, zero, suc, ◌<◌, ◌≡◌, refl, arith, some, get_elem?, leb, false}
use nembus_os.Base.Outcome.{Outcome, ok, panic, fault, out_of_fuel, ◌>>=◌}
use nembus_os.Interrupts.{
  Regs, Machine, Course, returns, jumps, halts, Function, printf, printfhex, syscalls,
  fault_handler,
}

syscalls-below : (num : ℕ) (f : Function) → get_elem? syscalls num ≡ some f → num < 2
syscalls-below zero f found = omega arith
syscalls-below (suc zero) f found = omega arith
syscalls-below (suc (suc num)) f found = cc

module _ {K : Type 0} (call : (handler : ℕ) → Regs → Machine K → Outcome (Course K))
    (run : Function → (ebx ecx edx esi edi : ℕ) → Machine K → Outcome (Machine K × ℕ)) where
  -- Where the interrupt returns, `a` is what the registers then have in `eax`. A call that goes
  -- on elsewhere or halts gives none.
  abbrev pub value_of : Course K → Outcome (Machine K × ℕ)
  value_of (returns r m) = ok (m, r.eax)
  value_of (jumps to m) = fault
  value_of (halts message m) = panic

  abbrev pub interrupt : Regs → Machine K → Outcome (Machine K × ℕ)
  interrupt r m = fault_handler call run (record r { int_no = 0x80 }) m >>= value_of

  -- `r` is what the registers hold besides.
  unfoldable pub syscall0 : (num : ℕ) → Regs → Machine K → Outcome (Machine K × ℕ)
  syscall0 num r m = interrupt (record r { eax = num }) m

  unfoldable pub syscall1 : (num p1 : ℕ) → Regs → Machine K → Outcome (Machine K × ℕ)
  syscall1 num p1 r m = interrupt (record r { eax = num; ebx = p1 }) m

  unfoldable pub syscall2 : (num p1 p2 : ℕ) → Regs → Machine K → Outcome (Machine K × ℕ)
  syscall2 num p1 p2 r m = interrupt (record r { eax = num; ebx = p1; ecx = p2 }) m

  unfoldable pub syscall3 : (num p1 p2 p3 : ℕ) → Regs → Machine K → Outcome (Machine K × ℕ)
  syscall3 num p1 p2 p3 r m = interrupt (record r { eax = num; ebx = p1; ecx = p2; edx = p3 }) m

  unfoldable pub syscall4 : (num p1 p2 p3 p4 : ℕ) → Regs → Machine K → Outcome (Machine K × ℕ)
  syscall4 num p1 p2 p3 p4 r m =
      interrupt (record r { eax = num; ebx = p1; ecx = p2; edx = p3; esi = p4 }) m

  unfoldable pub syscall_printf : (p1 : ℕ) → Regs → Machine K → Outcome (Machine K × ℕ)
  syscall_printf p1 r m = syscall1 0 p1 r m

  unfoldable pub syscall_printfhex : (p1 : ℕ) → Regs → Machine K → Outcome (Machine K × ℕ)
  syscall_printfhex p1 r m = syscall1 1 p1 r m

  run-value :
      (f : Function) (a b c d e : ℕ) (r : Regs) (m : Machine K)
      → (run f a b c d e m >>= (λ result. ok (returns (record r { eax = result.1 }) result.0)))
          >>= value_of
        ≡ run f a b c d e m
  run-value f a b c d e r m = step (run f a b c d e m)
    where
      step :
          (o : Outcome (Machine K × ℕ))
          → (o >>= (λ result. ok (returns (record r { eax = result.1 }) result.0))) >>= value_of ≡ o
      step (ok (m', v)) = refl
      step panic = refl
      step fault = refl
      step out_of_fuel = refl

  -- A call of a function of the table, with any registers.
  interrupt-run :
      (f : Function) (r : Regs) (m : Machine K)
      → get_elem? syscalls r.eax ≡ some f
      → interrupt r m ≡ run f r.ebx r.ecx r.edx r.esi r.edi m
  unfolding fault_handler
  interrupt-run f r m found =
      let small = syscalls-below r.eax f found in
      let below : leb 2 r.eax ≡ false = ground arith in
      rw (below, found) (run-value f r.ebx r.ecx r.edx r.esi r.edi (record r { int_no = 0x80 }) m)

  -- Each wrapper of up to four parameters, called with the number of a function of the table, runs this function with its own
  -- parameters in their order, what the registers hold in place of those that it does not have, and
  -- gives back the function's value; the two wrappers that are declared run the functions of
  -- their names.
  pub syscalls-run :
      (num p1 p2 p3 p4 : ℕ) (f : Function) (r : Regs) (m : Machine K)
      → get_elem? syscalls num ≡ some f
      → (syscall0 num r m ≡ run f r.ebx r.ecx r.edx r.esi r.edi m)
        × (syscall1 num p1 r m ≡ run f p1 r.ecx r.edx r.esi r.edi m)
        × (syscall2 num p1 p2 r m ≡ run f p1 p2 r.edx r.esi r.edi m)
        × (syscall3 num p1 p2 p3 r m ≡ run f p1 p2 p3 r.esi r.edi m)
        × (syscall4 num p1 p2 p3 p4 r m ≡ run f p1 p2 p3 p4 r.edi m)
        × (syscall_printf p1 r m ≡ run printf p1 r.ecx r.edx r.esi r.edi m)
        × (syscall_printfhex p1 r m ≡ run printfhex p1 r.ecx r.edx r.esi r.edi m)
  unfolding syscall0 syscall1 syscall2 syscall3 syscall4 syscall_printf syscall_printfhex
  syscalls-run num p1 p2 p3 p4 f r m found = (
    interrupt-run f (record r { eax = num }) m found,
    interrupt-run f (record r { eax = num; ebx = p1 }) m found,
    interrupt-run f (record r { eax = num; ebx = p1; ecx = p2 }) m found,
    interrupt-run f (record r { eax = num; ebx = p1; ecx = p2; edx = p3 }) m found,
    interrupt-run f (record r { eax = num; ebx = p1; ecx = p2; edx = p3; esi = p4 }) m found,
    interrupt-run printf (record r { eax = 0; ebx = p1 }) m refl,
    interrupt-run printfhex (record r { eax = 1; ebx = p1 }) m refl,
  )
