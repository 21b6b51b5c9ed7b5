-- ===== src/Boot/Queue.antt =====
-- The ready queue that src/kernel/kernel.c leaves.
use nembus_os.Base.{ℕ, ◌<◌, ◌≡◌, ◌≢◌, refl, sym, ◌∙◌, ap, arith, [], ◌∷◌}
use nembus_os.Base.Words.{add32}
use nembus_os.Base.Outcome.{ok}
use nembus_os.Gdt.{set_kernel_stack}
use nembus_os.Task.{Task, Tasks, kernel_stack_size, initialise_tasking, switch_to_user_mode}
use nembus_os.Task.Queue.{Chain, create_proc-Chain}
use nembus_os.Task.Fork.{initialise_tasking-Chain}
use nembus_os.Boot.{Given, start_tasks}

-- A task of `proc`, before its first turn.
pub record IsReady (t : Task) (id proc_address : ℕ) (g : Given) : Type 0 where
  pub number : t.id ≡ id
  pub entry : t.eip ≡ proc_address
  pub stack_pointer : t.esp ≡ g.esp
  pub base_pointer : t.ebp ≡ g.ebp
  pub directory : t.page_directory ≡ g.directory

-- What the kernel leaves when it goes to user mode: its own task runs, the two of `proc` are ready,
-- and the stack for interrupts is the one that the last `create_proc` has made.
pub record HasBooted (s s' : Tasks) (proc_address fresh : ℕ) (one two : Given) : Type 0 where
  pub chain : Chain s'.store s'.ready_queue (fresh ∷ one.task ∷ two.task ∷ [])
  pub running : s'.current_task ≡ fresh
  pub number : (s'.store fresh).id ≡ s.next_pid
  pub first : IsReady (s'.store one.task) (add32 s.next_pid 1) proc_address one
  pub second : IsReady (s'.store two.task) (add32 (add32 s.next_pid 1) 1) proc_address two
  pub kernel_stack : s'.tables.tss_entry.esp0 ≡ add32 two.stack kernel_stack_size

module _ (fuel proc_address fresh stack : ℕ) (one two : Given) (s : Tasks) (real : fresh ≢ 0)
    (real_one : one.task ≢ 0) (real_two : two.task ≢ 0) (apart : fresh ≢ one.task)
    (apart_two : fresh ≢ two.task) (apart_procs : one.task ≢ two.task) (enough : 1 < fuel) where
  -- `_kmain`'s tasks, where the allocator gives three addresses that differ and are not null: the
  -- queue has them in the order in which they were made, with process numbers one behind the other.
  -- The fuel is a unit for each task that is there before the last.
  pub start_tasks-HasBooted :
      (s' : Tasks) × (start_tasks fuel proc_address fresh stack one two s ≡ ok s')
      × HasBooted s s' proc_address fresh one two
  unfolding start_tasks switch_to_user_mode set_kernel_stack
  start_tasks-HasBooted =
      let s0 = initialise_tasking fresh stack s in
      let (queue, at, number, directory, kernel_stack, count) =
        initialise_tasking-Chain fresh stack s real in
      let current : s0.current_task ≡ fresh = cc in
      let (s1, runs, chain, new) =
        create_proc-Chain fuel proc_address one.directory one.task one.stack one.esp one.ebp fresh
          [] s0 queue (apart, tt) real_one (λ e. apart (sym current ∙ e)) (omega arith) in
      let current1 : s1.current_task ≡ fresh = new.running ∙ current in
      let (s2, runs2, chain2, new2) =
        create_proc-Chain fuel proc_address two.directory two.task two.stack two.esp two.ebp fresh
          (one.task ∷ []) s1 chain (apart_two, (apart_procs, tt)) real_two
          (λ e. apart_two (sym current1 ∙ e)) (omega arith) in
      let current2 : s2.current_task ≡ fresh = new2.running ∙ current1 in
      let kept = new2.others one.task apart_procs in
      let number0 : (s0.store fresh).id ≡ s.next_pid =
        ap (λ (p : ℕ). (s0.store p).id) (sym current) ∙ number in
      (
        switch_to_user_mode s2,
        rw (runs, runs2) refl,
        record {
          chain = chain2;
          running = current2;
          number = (new2.others fresh apart_two).id ∙ (new.others fresh apart).id ∙ number0;
          first = record {
            number = kept.id ∙ new.number ∙ count;
            entry = kept.eip ∙ new.entry;
            stack_pointer = kept.esp ∙ new.stack_pointer;
            base_pointer = kept.ebp ∙ new.base_pointer;
            directory = kept.page_directory ∙ new.tables;
          };
          second = record {
            number = new2.number ∙ new.number_next ∙ ap (λ (n : ℕ). add32 n 1) count;
            entry = new2.entry;
            stack_pointer = new2.stack_pointer;
            base_pointer = new2.base_pointer;
            directory = new2.tables;
          };
          kernel_stack =
              ap (λ (p : ℕ). add32 (s2.store p).kernel_stack kernel_stack_size) new2.running
              ∙ ap (λ (a : ℕ). add32 a kernel_stack_size) new2.stack_moved;
        },
      )
