-- ===== src/Task/RoundRobin.antt =====
-- `switch_task` takes the tasks of the ready queue in turn.
use native.Mathlib.Nat.{mod_self, mod-eq_of_lt}
use nembus_os.Base.{
  Bool-cases, none, All, ℕ, zero, suc, ◌%◌, ◌<◌, ◌≡◌, ◌≢◌, ◌⊎◌, refl, sym, ◌∙◌, ap, arith, some,
  List, [], ◌∷◌, length, get_elem?, ◌==◌, ne→==, eq→==, if◌then◌else◌, inl, inr,
}
use nembus_os.Base.Words.{add32}
use nembus_os.Base.Outcome.{ok}
use nembus_os.Gdt.{set_kernel_stack}
use nembus_os.Task.{Task, Tasks, Registers, put_task, save, resumed, kernel_stack_size, switch_task}
use nembus_os.Task.Queue.{Chain, Chain-links}

-- The address behind position `i`, and the null pointer behind the last.
abbrev behind : List ℕ → (i : ℕ) → ℕ
behind [] i = 0
behind (x ∷ []) zero = 0
behind (x ∷ y ∷ ys) zero = y
behind (x ∷ xs) (suc i) = behind xs i

Chain-behind :
    (store : ℕ → Task) (p : ℕ) (xs : List ℕ) (i a : ℕ)
    → Chain store p xs
    → get_elem? xs i ≡ some a
    → (store a).next ≡ behind xs i
Chain-behind store p [] i a chain at = cc
Chain-behind store p (x ∷ []) zero a chain at =
    let here : a ≡ x = cc in ap (λ (q : ℕ). (store q).next) here ∙ chain.3
Chain-behind store p (x ∷ y ∷ ys) zero a chain at =
    let here : a ≡ x = cc in ap (λ (q : ℕ). (store q).next) here ∙ chain.3.0
Chain-behind store p (x ∷ xs) (suc i) a chain at =
    Chain-behind store (store x).next xs i a chain.3 at

Chain-real :
    (store : ℕ → Task) (p : ℕ) (xs : List ℕ) (i a : ℕ)
    → Chain store p xs
    → get_elem? xs i ≡ some a
    → a ≢ 0
Chain-real store p [] i a chain at e = cc
Chain-real store p (x ∷ xs) zero a chain at e = chain.1 (cc)
Chain-real store p (x ∷ xs) (suc i) a chain at e =
    Chain-real store (store x).next xs i a chain.3 at e

-- The queue as a ring: behind the last task comes the first.
behind-ring :
    (store : ℕ → Task) (p : ℕ) (xs : List ℕ) (i a : ℕ)
    → Chain store p xs
    → get_elem? xs i ≡ some a
    → ((behind xs i ≡ 0) × (suc i ≡ length xs))
      ⊎ ((behind xs i ≢ 0) × (suc i < length xs) × (get_elem? xs (suc i) ≡ some (behind xs i)))
behind-ring store p [] i a chain at = cc
behind-ring store p (x ∷ []) zero a chain at = inl (refl, omega arith)
behind-ring store p (x ∷ y ∷ ys) zero a chain at = inr (chain.3.1, omega arith, refl)
behind-ring store p (x ∷ xs) (suc i) a chain at =
    elim (behind-ring store (store x).next xs i a chain.3 at) [
      | inl (end, count) ↦ inl (end, omega arith)
      | inr (more, count, found) ↦ inr (more, omega arith, found)
    ]

Chain-first :
    (store : ℕ → Task) (p : ℕ) (xs : List ℕ) (i a : ℕ)
    → Chain store p xs
    → get_elem? xs i ≡ some a
    → (get_elem? xs 0 ≡ some p) × (p ≢ 0)
Chain-first store p [] i a chain at = cc
Chain-first store p (x ∷ xs) i a chain at = (ap some (sym chain.0), λ e. chain.1 (sym chain.0 ∙ e))

abbrev pub registers_of : Task → Registers
registers_of task = record { esp = task.esp; ebp = task.ebp; eip = task.eip }

-- What a switch leaves of the task that it interrupts, and where it goes on.
pub record HasSwitched (regs : Registers) (s s' : Tasks) : Type 0 where
  pub saved :
      s'.store s.current_task
      ≡ record (s.store s.current_task) { esp = regs.esp; ebp = regs.ebp; eip = regs.eip }
  pub same : (q : ℕ) → q ≢ s.current_task → s'.store q ≡ s.store q
  pub directory : s'.current_directory ≡ (s'.store s'.current_task).page_directory
  pub stack :
      s'.tables.tss_entry.esp0 ≡ add32 (s'.store s'.current_task).kernel_stack kernel_stack_size
  pub pid : s'.next_pid ≡ s.next_pid

module _ (regs : Registers) (s : Tasks) (xs : List ℕ) (i : ℕ)
    (chain : Chain s.store s.ready_queue xs) (at : get_elem? xs i ≡ some s.current_task)
    (running : regs.eip ≢ resumed) where
  abbrev saved_store : ℕ → Task
  saved_store = put_task s.store s.current_task (save regs (s.store s.current_task))

  saved-next : (q : ℕ) → (saved_store q).next ≡ (s.store q).next
  saved-next q = ground arith

  saved-Chain : Chain saved_store s.ready_queue xs
  saved-Chain = Chain-links s.store saved_store s.ready_queue xs (all xs) chain
    where
      all : (ys : List ℕ) → All (λ y. (saved_store y).next ≡ (s.store y).next) ys
      all [] = tt
      all (y ∷ ys) = (saved-next y, all ys)

  abbrev switched : (current : ℕ) → Tasks
  switched current = record s {
    store = saved_store;
    current_task = current;
    current_directory = (saved_store current).page_directory;
    tables = set_kernel_stack (add32 (saved_store current).kernel_stack kernel_stack_size) s.tables;
  }

  switched-HasSwitched : (current : ℕ) → HasSwitched regs s (switched current)
  unfolding set_kernel_stack
  switched-HasSwitched current = record {
    saved = ground arith;
    same = λ q ne. ground arith;
    directory = refl;
    stack = refl;
    pid = refl;
  }

  switch_task-step :
      (current : ℕ)
      → (if (saved_store s.current_task).next == 0
          then s.ready_queue
          else (saved_store s.current_task).next)
        ≡ current
      → current ≢ 0
      → switch_task regs s ≡ ok (switched current, some (registers_of (saved_store current)))
  unfolding switch_task
  switch_task-step current next real = rw (
    ne→== s.current_task 0 (Chain-real s.store s.ready_queue xs i s.current_task chain at),
    ne→== regs.eip resumed running,
    next,
    ne→== current 0 real,
  )

  -- When the running task of a ready queue is interrupted, and has not just been resumed,
  -- `switch_task` goes on with the next task of the queue, behind the last with the first: it
  -- resumes the registers that this task has saved, saves those of the interrupted task, takes the
  -- new task's directory and kernel stack, and leaves the queue and all other tasks as they were.
  pub switch_task-next :
      (s' : Tasks) × (switch_task regs s ≡ ok (s', some (registers_of (s'.store s'.current_task))))
      × (get_elem? xs (suc i % length xs) ≡ some s'.current_task)
      × Chain s'.store s'.ready_queue xs
      × HasSwitched regs s s'
  switch_task-next =
      let next = Chain-behind saved_store s.ready_queue xs i s.current_task saved-Chain at in
      elim (behind-ring s.store s.ready_queue xs i s.current_task chain at) [
        | inl (end, count) ↦
            let (first, real) = Chain-first s.store s.ready_queue xs i s.current_task chain at in
            let ring : suc i % length xs ≡ 0 =
              ap (λ (n : ℕ). n % length xs) count ∙ mod_self (length xs) in
            (
              switched s.ready_queue,
              switch_task-step s.ready_queue
                  (rw (eq→== (saved_store s.current_task).next 0 (next ∙ end))) real,
              ap (get_elem? xs) ring ∙ first,
              saved-Chain,
              switched-HasSwitched s.ready_queue,
            )
        | inr (more, count, found) ↦
            let ring : suc i % length xs ≡ suc i = mod-eq_of_lt count in
            (
              switched (behind xs i),
              switch_task-step (behind xs i)
                  (rw (ne→== (saved_store s.current_task).next 0 (λ e. more (sym next ∙ e))) next)
                  more,
              ap (get_elem? xs) ring ∙ found,
              saved-Chain,
              switched-HasSwitched (behind xs i),
            )
      ]

-- Before tasking starts, and when a task has just been resumed, nothing is switched.
pub switch_task-stays :
    (regs : Registers) (s : Tasks)
    → (s.current_task ≡ 0) ⊎ (regs.eip ≡ resumed)
    → switch_task regs s ≡ ok (s, none)
unfolding switch_task
switch_task-stays regs s (inl none_yet) = rw (eq→== s.current_task 0 none_yet) refl
switch_task-stays regs s (inr again) = elim (Bool-cases (s.current_task == 0)) [
  | inl none_yet ↦ rw none_yet refl
  | inr running ↦ rw (running, eq→== regs.eip resumed again) refl
]
