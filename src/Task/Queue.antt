-- ===== src/Task/Queue.antt =====
-- The ready queue as a list of addresses, and what `create_proc` adds to it.
use nembus_os.Base.{
  All-map, All, ℕ, zero, suc, ◌<◌, ◌≡◌, ◌≢◌, refl, sym, ◌∙◌, ap, arith, List, [], ◌∷◌, ◌++◌, length,
  ne→==, eq→==,
}
use nembus_os.Base.Words.{add32}
use nembus_os.Base.Outcome.{ok}
use nembus_os.Task.{Task, Tasks, put_task, last_task, start_task, create_proc}

-- From `p` on, the tasks at `xs` are linked in this order, each once, and a null pointer ends them.
abbrev pub Chain : (ℕ → Task) → (p : ℕ) → List ℕ → Type 0
Chain store p [] = p ≡ 0
Chain store p (x ∷ xs) = (p ≡ x) × (x ≢ 0) × All (λ y. y ≢ x) xs × Chain store (store x).next xs

abbrev last_of : ℕ → List ℕ → ℕ
last_of x [] = x
last_of x (y ∷ ys) = last_of y ys

pub put_task_self : (store : ℕ → Task) (a : ℕ) (t : Task) → put_task store a t a ≡ t
put_task_self store a t = rw (eq→== a a refl)

put_task_ne : (store : ℕ → Task) (a p : ℕ) (t : Task) → p ≢ a → put_task store a t p ≡ store p
put_task_ne store a p t ne = rw (ne→== p a ne)

All-last : (A : ℕ → Type 0) (x : ℕ) (xs : List ℕ) → A x → All A xs → A (last_of x xs)
All-last A x [] a all = a
All-last A x (y ∷ ys) a all = All-last A y ys all.0 all.1

-- A chain depends on the links of its tasks only.
pub Chain-links :
    (store other : ℕ → Task) (p : ℕ) (xs : List ℕ)
    → All (λ x. (other x).next ≡ (store x).next) xs
    → Chain store p xs
    → Chain other p xs
Chain-links store other p [] same chain = chain
Chain-links store other p (x ∷ xs) same (at, real, new, rest) =
    (at, real, new, rw same.0 (Chain-links store other (store x).next xs same.1 rest))

last_task-last_of :
    (fuel : ℕ) (store : ℕ → Task) (p x : ℕ) (xs : List ℕ)
    → Chain store p (x ∷ xs)
    → length xs < fuel
    → last_task fuel store p ≡ ok (last_of x xs)
unfolding last_task
last_task-last_of zero store p x xs chain enough = absurd (omega arith)
last_task-last_of (suc fuel) store p x [] chain enough =
    let here = chain.0 in
    let end : (store p).next ≡ 0 = ap (λ (q : ℕ). (store q).next) here ∙ chain.3 in
    rw (eq→== (store p).next 0 end) (ap ok here)
last_task-last_of (suc fuel) store p x (y ∷ ys) chain enough =
    let here = chain.0 in
    let link : (store p).next ≡ y = ap (λ (q : ℕ). (store q).next) here ∙ chain.3.0 in
    let more : (store p).next ≢ 0 = λ e. chain.3.1 (sym link ∙ e) in
    rw (ne→== (store p).next 0 more) (
      last_task-last_of fuel store (store p).next y ys (link, chain.3.1, chain.3.2, chain.3.3)
        (omega arith))

link-append :
    (store : ℕ → Task) (p x fresh : ℕ) (xs : List ℕ) (t : Task)
    → Chain store p (x ∷ xs)
    → All (λ y. y ≢ fresh) (x ∷ xs)
    → fresh ≢ 0
    → (store fresh).next ≡ 0
    → t.next ≡ fresh
    → Chain (put_task store (last_of x xs) t) p ((x ∷ xs) ++ fresh ∷ [])
link-append store p x fresh [] t (at, real, new, end) away not_null last link =
    let put_fresh = put_task_ne store x fresh t (λ e. away.0 (sym e)) in
    (
      at,
      real,
      ((λ e. away.0 (sym e)), tt),
      (
        ap (λ (k : Task). k.next) (put_task_self store x t) ∙ link,
        not_null,
        tt,
        ap (λ (k : Task). k.next) put_fresh ∙ last,
      ),
    )
link-append store p x fresh (y ∷ ys) t (at, real, new, rest) away not_null last link =
    let other : x ≢ last_of y ys = λ e. All-last (λ z. z ≢ x) y ys new.0 new.1 (sym e) in
    let kept = ap (λ (k : Task). k.next) (put_task_ne store (last_of y ys) x t other) in
    (
      at,
      real,
      All-snoc (λ z. z ≢ x) (y ∷ ys) fresh new (λ e. away.0 (sym e)),
      rw kept (link-append store (store x).next y fresh ys t rest away.1 not_null last link),
    )
  where
    All-snoc : (A : ℕ → Type 0) (xs : List ℕ) (z : ℕ) → All A xs → A z → All A (xs ++ z ∷ [])
    All-snoc A [] z all a = (a, tt)
    All-snoc A (x ∷ xs) z all a = (all.0, All-snoc A xs z all.1 a)

-- A task that may have another kernel stack and another successor.
pub record IsSameTask (t t' : Task) : Type 0 where
  pub id : t'.id ≡ t.id
  pub esp : t'.esp ≡ t.esp
  pub ebp : t'.ebp ≡ t.ebp
  pub eip : t'.eip ≡ t.eip
  pub page_directory : t'.page_directory ≡ t.page_directory

-- A new task, and what `create_proc` leaves of the current one.
pub record IsStarted (s s' : Tasks) (routine directory fresh stack esp ebp : ℕ) : Type 0 where
  pub number : (s'.store fresh).id ≡ s.next_pid
  pub entry : (s'.store fresh).eip ≡ routine
  pub stack_pointer : (s'.store fresh).esp ≡ esp
  pub base_pointer : (s'.store fresh).ebp ≡ ebp
  pub tables : (s'.store fresh).page_directory ≡ directory
  pub stack_left : (s'.store fresh).kernel_stack ≡ (s.store fresh).kernel_stack
  pub stack_moved : (s'.store s.current_task).kernel_stack ≡ stack
  pub number_next : s'.next_pid ≡ add32 s.next_pid 1
  pub running : s'.current_task ≡ s.current_task
  pub first : s'.ready_queue ≡ s.ready_queue
  pub others : (y : ℕ) → y ≢ fresh → IsSameTask (s.store y) (s'.store y)

module _ (fuel routine directory fresh stack esp ebp x : ℕ) (xs : List ℕ) (s : Tasks)
    (chain : Chain s.store s.ready_queue (x ∷ xs)) (away : All (λ y. y ≢ fresh) (x ∷ xs))
    (not_null : fresh ≢ 0) (other : s.current_task ≢ fresh) (enough : length xs < fuel) where
  abbrev new_task : Task
  new_task = record (s.store fresh) {
    id = s.next_pid;
    esp = 0;
    ebp = 0;
    eip = routine;
    page_directory = directory;
    next = 0;
  }

  abbrev stacked : ℕ → Task
  stacked =
      put_task (put_task s.store fresh new_task) s.current_task
        (record (put_task s.store fresh new_task s.current_task) { kernel_stack = stack })

  abbrev last : ℕ
  last = last_of x xs

  abbrev linked : ℕ → Task
  linked = put_task stacked last (record (stacked last) { next = fresh })

  abbrev started : ℕ → Task
  started = put_task linked fresh (record (linked fresh) { esp = esp; ebp = ebp })

  stacked-fresh : stacked fresh ≡ new_task
  stacked-fresh =
      put_task_ne (put_task s.store fresh new_task) s.current_task fresh _ (λ e. other (sym e))
      ∙ put_task_self s.store fresh new_task

  stacked-next : (y : ℕ) → y ≢ fresh → (stacked y).next ≡ (s.store y).next
  stacked-next y ne = ground arith

  stacked-Chain : Chain stacked s.ready_queue (x ∷ xs)
  stacked-Chain =
      Chain-links s.store stacked s.ready_queue (x ∷ xs)
        (All-map (λ y. y ≢ fresh) (λ y. (stacked y).next ≡ (s.store y).next) (x ∷ xs) stacked-next
          away)
        chain

  last-away : last ≢ fresh
  last-away = All-last (λ y. y ≢ fresh) x xs away.0 away.1

  linked-fresh : linked fresh ≡ new_task
  linked-fresh =
      put_task_ne stacked last fresh (record (stacked last) { next = fresh })
        (λ e. last-away (sym e))
      ∙ stacked-fresh

  started-fresh : started fresh ≡ record new_task { esp = esp; ebp = ebp }
  started-fresh =
      put_task_self linked fresh (record (linked fresh) { esp = esp; ebp = ebp })
      ∙ ap (λ (t : Task). record t { esp = esp; ebp = ebp }) linked-fresh

  started-next : (y : ℕ) → (started y).next ≡ (linked y).next
  started-next y = ground arith

  started-current : (started s.current_task).kernel_stack ≡ stack
  started-current = ground arith

  started-IsSameTask : (y : ℕ) → y ≢ fresh → IsSameTask (s.store y) (started y)
  started-IsSameTask y ne = record {
    id = ground arith;
    esp = ground arith;
    ebp = ground arith;
    eip = ground arith;
    page_directory = ground arith;
  }

  -- With fuel for the tasks of the queue, and a new task that lies at an address of its own,
  -- `create_proc` puts the new task at the end of the queue, gives it the next process number, and
  -- sets it up to start at the routine, while the current task goes on. The stack goes to the current task: the new task's own is
  -- what the memory held before. The other tasks keep their numbers, registers and directories.
  pub create_proc-Chain :
      (s' : Tasks) × (create_proc fuel routine directory fresh stack esp ebp s
        ≡ ok (s', s.next_pid))
      × Chain s'.store s'.ready_queue ((x ∷ xs) ++ fresh ∷ [])
      × IsStarted s s' routine directory fresh stack esp ebp
  unfolding start_task
  create_proc-Chain = (
    record s { store = started; next_pid = add32 s.next_pid 1 },
    rw (last_task-last_of fuel stacked s.ready_queue x xs stacked-Chain enough),
    Chain-links linked started s.ready_queue ((x ∷ xs) ++ fresh ∷ [])
        (All-all ((x ∷ xs) ++ fresh ∷ []))
        (link-append stacked s.ready_queue x fresh xs (record (stacked last) { next = fresh })
          stacked-Chain away not_null (ap (λ (t : Task). t.next) stacked-fresh) refl),
    record {
      number = ap (λ (t : Task). t.id) started-fresh;
      entry = ap (λ (t : Task). t.eip) started-fresh;
      stack_pointer = ap (λ (t : Task). t.esp) started-fresh;
      base_pointer = ap (λ (t : Task). t.ebp) started-fresh;
      tables = ap (λ (t : Task). t.page_directory) started-fresh;
      stack_left = ap (λ (t : Task). t.kernel_stack) started-fresh;
      stack_moved = started-current;
      number_next = refl;
      running = refl;
      first = refl;
      others = started-IsSameTask;
    },
  )
    where
      All-all : (ys : List ℕ) → All (λ y. (started y).next ≡ (linked y).next) ys
      All-all [] = tt
      All-all (y ∷ ys) = (started-next y, All-all ys)
