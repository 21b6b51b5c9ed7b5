-- ===== src/Task/Fork.antt =====
-- Tasks from the first on: `initialise_tasking`, and `fork`, which returns twice.
use nembus_os.Base.{
  All, ℕ, ◌<◌, ◌≡◌, ◌≢◌, refl, sym, ◌∙◌, ap, arith, some, List, [], ◌∷◌, ◌++◌, length, ne→==, eq→==,
  get_elem?,
}
use nembus_os.Base.Words.{add32}
use nembus_os.Base.Outcome.{ok}
use nembus_os.Task.{Task, Tasks, put_task, start_task, initialise_tasking, fork, fork_result}
use nembus_os.Task.Queue.{put_task_self, Chain, Chain-links, create_proc-Chain}
use nembus_os.Task.RoundRobin.{registers_of}

-- The first task, at an address that is not null: the queue holds it alone, it is running, and it
-- has the first process number, the current directory and the new stack.
pub initialise_tasking-Chain :
    (fresh stack : ℕ) (s : Tasks)
    → fresh ≢ 0
    → let s' = initialise_tasking fresh stack s in
      Chain s'.store s'.ready_queue (fresh ∷ [])
      × (get_elem? (fresh ∷ []) 0 ≡ some s'.current_task)
      × ((s'.store s'.current_task).id ≡ s.next_pid)
      × ((s'.store s'.current_task).page_directory ≡ s.current_directory)
      × ((s'.store s'.current_task).kernel_stack ≡ stack)
      × (s'.next_pid ≡ add32 s.next_pid 1)
unfolding initialise_tasking
initialise_tasking-Chain fresh stack s real =
    let new = eq→== fresh fresh refl in
    ((refl, real, tt, rw new refl), refl, rw new refl, rw new refl, rw new refl, refl)

put-links :
    (store : ℕ → Task) (fresh eip p : ℕ) (xs : List ℕ)
    → Chain store p xs
    → Chain (put_task store fresh (record (store fresh) { eip = eip })) p xs
put-links store fresh eip p xs chain =
    Chain-links store (put_task store fresh (record (store fresh) { eip = eip })) p xs (all xs)
      chain
  where
    same :
        (y : ℕ)
        → (put_task store fresh (record (store fresh) { eip = eip }) y).next ≡ (store y).next
    same y = ground arith

    all :
        (ys : List ℕ)
        → All
            (λ y.
              (put_task store fresh (record (store fresh) { eip = eip }) y).next ≡ (store y).next)
            ys
    all [] = tt
    all (y ∷ ys) = (same y, all ys)

module _ (fuel eip directory fresh stack esp ebp x : ℕ) (xs : List ℕ) (s : Tasks)
    (chain : Chain s.store s.ready_queue (x ∷ xs)) (away : All (λ y. y ≢ fresh) (x ∷ xs))
    (not_null : fresh ≢ 0) (other : s.current_task ≢ fresh) (enough : length xs < fuel) where
  fork-step :
      (s1 : Tasks)
      → start_task fuel 0 directory fresh stack esp ebp s ≡ ok (s1, s.next_pid)
      → fork fuel eip directory fresh stack esp ebp s
        ≡ ok (
          record s1 { store = put_task s1.store fresh (record (s1.store fresh) { eip = eip }) },
          s.next_pid,
        )
  unfolding fork
  fork-step s1 done = rw done refl

  -- `fork`, with fuel for the tasks of the queue and a new task at an address of its own, puts the
  -- new task at the end of the queue and leaves the running task running. Where `read_eip` returns in
  -- the parent, `fork` returns the new task's number; the new task goes on behind the same
  -- `read_eip`, with the parent's stack pointers, and there `fork` returns 0.
  pub fork-twice :
      (s' : Tasks) × (fork fuel eip directory fresh stack esp ebp s ≡ ok (s', s.next_pid))
      × Chain s'.store s'.ready_queue ((x ∷ xs) ++ fresh ∷ [])
      × (registers_of (s'.store fresh) ≡ record { esp = esp; ebp = ebp; eip = eip })
      × ((s'.store fresh).id ≡ s.next_pid)
      × ((s'.store fresh).page_directory ≡ directory)
      × (fork_result s.current_task s.next_pid s' ≡ s.next_pid)
      × ((t : Tasks) → t.current_task ≡ fresh → fork_result s.current_task s.next_pid t ≡ 0)
  unfolding fork_result
  fork-twice =
      let (s1, done, queue, new) =
        create_proc-Chain fuel 0 directory fresh stack esp ebp x xs s chain away not_null other
          enough in
      let self = put_task_self s1.store fresh (record (s1.store fresh) { eip = eip }) in
      (
        record s1 { store = put_task s1.store fresh (record (s1.store fresh) { eip = eip }) },
        fork-step s1 done,
        put-links s1.store fresh eip s1.ready_queue ((x ∷ xs) ++ fresh ∷ []) queue,
        ap registers_of self
            ∙ ap (λ (a : ℕ). record { esp = a; ebp = (s1.store fresh).ebp; eip = eip })
                new.stack_pointer
            ∙ ap (λ (a : ℕ). record { esp = esp; ebp = a; eip = eip }) new.base_pointer,
        ap (λ (t : Task). t.id) self ∙ new.number,
        ap (λ (t : Task). t.page_directory) self ∙ new.tables,
        rw (eq→== s1.current_task s.current_task new.running) refl,
        λ t here. rw (here, ne→== fresh s.current_task (λ e. other (sym e))) refl,
      )
