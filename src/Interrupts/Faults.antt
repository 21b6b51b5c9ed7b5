-- ===== src/Interrupts/Faults.antt =====
-- `fault_handler` on every interrupt number that reaches it.
use Prim.Native.String.{String}
use nembus_os.Base.{
  ℕ, false, get_elem?-in, get_elem?-set_self, ◌+◌, ◌≤◌, ◌<◌, ◌≡◌, ◌≢◌, refl, ◌∙◌, arith, some, leb,
  ◌==◌, if◌then◌else◌, length, get_elem?, get_elem?-out, lt→ltb, le→ltb, le→leb, ne→==,
}
use nembus_os.Base.Outcome.{Outcome, ok, fault, ◌>>=◌, or_fault}
use nembus_os.Interrupts.{
  Regs, Machine, Course, returns, halts, Function, printf, printfhex, exception_messages,
  irq_install_handler, acknowledge, fault_handler, irq_handler,
}
use nembus_os.Interrupts.Irqs.{put_routine, irq_install_handler-in, irq_handler-routine}

leb→below : (n bound : ℕ) → n < bound → leb bound n ≡ false
leb→below n bound small = ground arith

leb→above : (n bound : ℕ) → bound < n → leb n bound ≡ false
leb→above n bound high = ground arith

module _ {K : Type 0} (call : (handler : ℕ) → Regs → Machine K → Outcome (Course K))
    (run : Function → (ebx ecx edx esi edi : ℕ) → Machine K → Outcome (Machine K × ℕ)) where
  -- An exception looks its handler up at its own number, past the end from 16 on.
  exception-routine :
      (n : ℕ) (r : Regs) (m : Machine K)
      → n < 32
      → r.int_no ≡ n
      → fault_handler call run r m ≡ (
          or_fault (get_elem? m.irq_routines n) >>= (λ handler.
            if handler == 0
            then or_fault (get_elem? exception_messages n) >>= (λ message. ok (halts message m))
            else call handler r m))
  unfolding fault_handler
  exception-routine n r m small number =
      let no_call : n ≢ 0x80 = omega arith in
      let no_request = leb→below n 32 small in
      rw (number, ne→== n 0x80 no_call, lt→ltb n 32 small, no_request) refl

  -- Every kind of interrupt number, with a table of 16 routines.
  pub record HasHandled (r : Regs) (m : Machine K) : Type 0 where
    pub call_printf :
        (m' : Machine K) (ret : ℕ)
        → r.int_no ≡ 0x80
        → r.eax ≡ 0
        → run printf r.ebx r.ecx r.edx r.esi r.edi m ≡ ok (m', ret)
        → fault_handler call run r m ≡ ok (returns (record r { eax = ret }) m')
    pub call_printfhex :
        (m' : Machine K) (ret : ℕ)
        → r.int_no ≡ 0x80
        → r.eax ≡ 1
        → run printfhex r.ebx r.ecx r.edx r.esi r.edi m ≡ ok (m', ret)
        → fault_handler call run r m ≡ ok (returns (record r { eax = ret }) m')
    pub no_call : r.int_no ≡ 0x80 → 2 ≤ r.eax → fault_handler call run r m ≡ ok (returns r m)
    pub handled :
        (handler : ℕ)
        → r.int_no < 16
        → get_elem? m.irq_routines r.int_no ≡ some handler
        → handler ≢ 0
        → fault_handler call run r m ≡ call handler r m
    pub halted :
        r.int_no < 16
        → get_elem? m.irq_routines r.int_no ≡ some 0
        → (message : String) × (get_elem? exception_messages r.int_no ≡ some message)
          × (fault_handler call run r m ≡ ok (halts message m))
    pub outside : 16 ≤ r.int_no → r.int_no < 32 → fault_handler call run r m ≡ fault
    pub ignored : 48 ≤ r.int_no → r.int_no ≢ 0x80 → fault_handler call run r m ≡ ok (returns r m)

  -- With a table of 16 routines, `fault_handler` makes the system calls 0 and 1 and ignores all
  -- others; for an exception below 16 it calls the handler in the table, or prints the exception's
  -- message and halts if there is none; for the exceptions 16 to 31 it reads behind the table; and
  -- it ignores every other number from 48 on.
  pub fault_handler-HasHandled :
      (r : Regs) (m : Machine K) → length m.irq_routines ≡ 16 → HasHandled r m
  unfolding fault_handler
  fault_handler-HasHandled r m whole = record {
    call_printf = λ m' ret number none_is done. rw (number, none_is, done) refl;
    call_printfhex = λ m' ret number one_is done. rw (number, one_is, done) refl;
    no_call = λ number high. rw (number, le→leb 2 r.eax high) refl;
    handled = λ handler small found real.
        exception-routine r.int_no r m (omega arith) refl ∙ rw (found, ne→== handler 0 real) refl;
    halted = λ small found.
        let (message, named) = get_elem?-in exception_messages r.int_no (omega arith) in
        (
          message,
          named,
          exception-routine r.int_no r m (omega arith) refl ∙ rw (found, named) refl,
        );
    outside = λ low high.
        exception-routine r.int_no r m high refl
        ∙ rw (get_elem?-out m.irq_routines r.int_no (omega (arith, whole))) refl;
    ignored = λ high other.
        rw
          (
            ne→== r.int_no 0x80 other,
            le→ltb r.int_no 32 (omega arith),
            leb→above r.int_no 47 (omega arith),
            le→leb 32 r.int_no (omega arith),
          )
          refl;
  }

  -- The interrupt requests and the exceptions share one table: a handler that is installed for the
  -- request `n` below 16 is also what exception `n` calls, in place of its message and the halt.
  pub fault_handler-shared :
      (n handler : ℕ) (r : Regs) (m : Machine K)
      → length m.irq_routines ≡ 16
      → n < 16
      → handler ≢ 0
      → r.int_no ≡ n
      → (m' : Machine K) × (irq_install_handler n handler m ≡ ok m')
        × (fault_handler call run r m' ≡ call handler r m')
        × ((r' : Regs)
            → r'.int_no ≡ 32 + n
            → irq_handler call r' m' ≡ (call handler r' m' >>= (λ course. ok (acknowledge course))))
  unfolding put_routine
  fault_handler-shared n handler r m whole small real number =
      let inside : n < length m.irq_routines = omega (arith, whole) in
      let m' = put_routine n handler m in
      let found = get_elem?-set_self m.irq_routines n handler inside in
      (
        m',
        irq_install_handler-in n handler m inside,
        exception-routine n r m' (omega arith) number ∙ rw (found, ne→== handler 0 real) refl,
        λ r' request.
            irq_handler-routine call n handler r' m' small request found
            ∙ rw (ne→== handler 0 real) refl,
      )
