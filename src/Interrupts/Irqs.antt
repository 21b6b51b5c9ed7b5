-- ===== src/Interrupts/Irqs.antt =====
-- `irq_handler`: which function it calls, and what it tells the interrupt controllers.
use Prim.Native.String.{String}
use nembus_os.Base.{
  ℕ, ◌+◌, ◌<◌, ◌≡◌, ◌≢◌, refl, sym, ap, ◌∙◌, arith, some, List, [], ◌∷◌, ◌++◌, leb, ◌==◌,
  if◌then◌else◌, length, set, get_elem?, get_elem?-set_self, get_elem?-set_ne, length-set, lt→ltb,
  ne→==,
}
use nembus_os.Base.Words.{sub32}
use nembus_os.Base.Outcome.{Outcome, ok, ◌>>=◌}
use nembus_os.Task.{Registers}
use nembus_os.Interrupts.{
  Regs, Machine, Course, returns, jumps, halts, irq_install_handler, irq_uninstall_handler,
  end_of_interrupt, acknowledge, irq_handler,
}

-- The ports written at the end of interrupt request `n`: the slave controller, which has the
-- requests from 8 on, before the master.
abbrev pub controllers : (n : ℕ) → List (ℕ × ℕ)
controllers n = if leb 8 n then (0x20, 0x20) ∷ (0xA0, 0x20) ∷ [] else (0x20, 0x20) ∷ []

module _ {K : Type 0} where
  -- The routines after a handler has been put into the table.
  unfoldable pub put_routine : (n handler : ℕ) → Machine K → Machine K
  put_routine n handler m = record m { irq_routines = set m.irq_routines n handler }

  pub irq_install_handler-in :
      (n handler : ℕ) (m : Machine K)
      → n < length m.irq_routines
      → irq_install_handler n handler m ≡ ok (put_routine n handler m)
  unfolding irq_install_handler put_routine
  irq_install_handler-in n handler m inside = rw (lt→ltb n (length m.irq_routines) inside) refl

acknowledge-controllers :
    {K : Type 0} (n : ℕ) (r : Regs) (m : Machine K)
    → n < 16
    → r.int_no ≡ 32 + n
    → end_of_interrupt r.int_no m ≡ record m { ports = controllers n ++ m.ports }
acknowledge-controllers n r m small number = ground (arith, number)

module _ {K : Type 0} (call : (handler : ℕ) → Regs → Machine K → Outcome (Course K)) where
  -- The function that the table has for the request.
  pub irq_handler-routine :
      (n handler : ℕ) (r : Regs) (m : Machine K)
      → n < 16
      → r.int_no ≡ 32 + n
      → get_elem? m.irq_routines n ≡ some handler
      → irq_handler call r m ≡ (
          (if handler == 0 then ok (returns r m) else call handler r m)
          >>= (λ course. ok (acknowledge course)))
  unfolding irq_handler
  irq_handler-routine n handler r m small number found =
      let at : sub32 r.int_no 32 ≡ n = omega (arith, number) in rw (at, found) refl

  -- What an interrupt request does, with the handler's function `handler` in the table.
  pub record HasServed (n handler : ℕ) (r : Regs) (m : Machine K) : Type 0 where
    pub returned :
        (r' : Regs) (m' : Machine K)
        → call handler r m ≡ ok (returns r' m')
        → r'.int_no ≡ r.int_no
        → irq_handler call r m ≡ ok (returns r' (record m' { ports = controllers n ++ m'.ports }))
    pub left :
        (to : Registers) (m' : Machine K)
        → call handler r m ≡ ok (jumps to m')
        → irq_handler call r m ≡ ok (jumps to m')
    pub halted :
        (message : String) (m' : Machine K)
        → call handler r m ≡ ok (halts message m')
        → irq_handler call r m ≡ ok (halts message m')

  pub irq_handler-called :
      (n handler : ℕ) (r : Regs) (m : Machine K)
      → n < 16
      → r.int_no ≡ 32 + n
      → handler ≢ 0
      → get_elem? m.irq_routines n ≡ some handler
      → HasServed n handler r m
  irq_handler-called n handler r m small number real found =
      let step = irq_handler-routine n handler r m small number found in
      record {
        returned = λ r' m' done same.
            step
            ∙ rw (ne→== handler 0 real, done, acknowledge-controllers n r' m' small (same ∙ number))
                refl;
        left = λ to m' done. step ∙ rw (ne→== handler 0 real, done) refl;
        halted = λ message m' done. step ∙ rw (ne→== handler 0 real, done) refl;
      }

  -- With a table of 16 routines and a request `n` below 16, after `irq_install_handler` the request
  -- calls that handler. If it returns, and has left the interrupt number as it was, the slave
  -- controller is told of the end of requests from 8 on, then the master of all; if it goes on in
  -- another task, no controller is told. After `irq_uninstall_handler` no function is called, and
  -- the controllers are told. Neither call changes the routine of another request.
  pub irq_handler-installed :
      (n handler : ℕ) (r : Regs) (m : Machine K)
      → length m.irq_routines ≡ 16
      → n < 16
      → handler ≢ 0
      → r.int_no ≡ 32 + n
      → (m' : Machine K) × (m'' : Machine K) × (irq_install_handler n handler m ≡ ok m')
        × HasServed n handler r m'
        × (irq_uninstall_handler n m' ≡ ok m'')
        × (irq_handler call r m''
            ≡ ok (returns r (record m'' { ports = controllers n ++ m''.ports })))
        × ((k : ℕ)
            → k ≢ n
            → (get_elem? m'.irq_routines k ≡ get_elem? m.irq_routines k)
              × (get_elem? m''.irq_routines k ≡ get_elem? m.irq_routines k))
  unfolding put_routine irq_uninstall_handler
  irq_handler-installed n handler r m whole small real number =
      let inside : n < length m.irq_routines = omega (arith, whole) in
      let size = length-set m.irq_routines n handler in
      let still : n < length (set m.irq_routines n handler) = omega (arith, whole, size) in
      let m' = put_routine n handler m in
      let m'' = put_routine n 0 m' in
      let found : get_elem? m''.irq_routines n ≡ some 0 =
        get_elem?-set_self (set m.irq_routines n handler) n 0 still in
      (
        m',
        m'',
        irq_install_handler-in n handler m inside,
        irq_handler-called n handler r m' small number real
            (get_elem?-set_self m.irq_routines n handler inside),
        rw (lt→ltb n (length (set m.irq_routines n handler)) still) refl,
        irq_handler-routine n 0 r m'' small number found
            ∙ ap (λ (k : Machine K). ok (returns r k))
                (acknowledge-controllers n r m'' small number),
        λ k away.
            let first = get_elem?-set_ne m.irq_routines handler (λ e. away (sym e)) in
            (first, get_elem?-set_ne (set m.irq_routines n handler) 0 (λ e. away (sym e)) ∙ first),
      )
