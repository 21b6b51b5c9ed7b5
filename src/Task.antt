-- ===== src/Task.antt =====
-- The tasks of src/impl/task.c and src/include/task.h: the ready queue, `switch_task` and
-- `create_proc`. Tasks lie in a store by address, 0 is the null pointer, and what the
-- processor and the allocator give to an operation are its arguments.
pub mod Queue
pub mod RoundRobin
pub mod Fork
pub mod Stack
mod Tests
use nembus_os.Base.{ℕ, zero, suc, ◌+◌, ◌%◌, Option, none, some, ◌==◌, if◌then◌else◌}
use nembus_os.Base.Words.{add32}
use nembus_os.Base.Outcome.{Outcome, ok, fault, out_of_fuel, ◌>>=◌}
use nembus_os.Gdt.{Tables, set_kernel_stack}

abbrev pub kernel_stack_size : ℕ
kernel_stack_size = 2048

-- `task_t`; `page_directory` is an address.
pub record Task : Type 0 where
  pub id : ℕ
  pub esp : ℕ
  pub ebp : ℕ
  pub eip : ℕ
  pub page_directory : ℕ
  pub kernel_stack : ℕ
  pub next : ℕ

pub record Tasks : Type 0 where
  pub store : ℕ → Task
  pub current_task : ℕ
  pub ready_queue : ℕ
  pub next_pid : ℕ
  pub current_directory : ℕ
  pub tables : Tables

pub record Registers : Type 0 where
  pub esp : ℕ
  pub ebp : ℕ
  pub eip : ℕ

abbrev pub put_task : (ℕ → Task) → (at : ℕ) → Task → ℕ → Task
put_task store at task p = if p == at then task else store p

-- `eip = read_eip()` is this number when the task has just been resumed.
abbrev pub resumed : ℕ
resumed = 0x31415926

abbrev pub save : Registers → Task → Task
save regs task = record task { eip = regs.eip; esp = regs.esp; ebp = regs.ebp }

-- The second component is what `perform_task_switch` is called with, `none` if it is not.
pub switch_task : Registers → Tasks → Outcome (Tasks × Option Registers)
switch_task regs s =
    let store = put_task s.store s.current_task (save regs (s.store s.current_task)) in
    let next = (store s.current_task).next in
    let current = (if next == 0 then s.ready_queue else next) in
    let task = store current in
    if s.current_task == 0
    then ok (s, none)
    else if regs.eip == resumed
    then ok (s, none)
    else if current == 0
    then fault
    else ok (
      record s {
        store = store;
        current_task = current;
        current_directory = task.page_directory;
        tables = set_kernel_stack (add32 task.kernel_stack kernel_stack_size) s.tables;
      },
      some (record { esp = task.esp; ebp = task.ebp; eip = task.eip }),
    )

-- The loop that looks for the end of the queue.
pub last_task : (fuel : ℕ) → (ℕ → Task) → (tmp_task : ℕ) → Outcome ℕ
last_task zero store tmp_task = out_of_fuel
last_task (suc fuel) store tmp_task =
    let rest = last_task fuel store (store tmp_task).next in
    if (store tmp_task).next == 0 then ok tmp_task else rest

-- The body of `create_proc`. `fresh` is the address of the new task, `stack` that of the
-- stack, which goes to the current task; the new task's own stack is left as the memory was.
pub start_task : (fuel eip directory fresh stack esp ebp : ℕ) → Tasks → Outcome (Tasks × ℕ)
unfolding last_task
start_task fuel eip directory fresh stack esp ebp s = do
  let task = record (s.store fresh) {
    id = s.next_pid;
    esp = 0;
    ebp = 0;
    eip = eip;
    page_directory = directory;
    next = 0;
  }
  let created = put_task s.store fresh task
  let stacked =
      put_task created s.current_task (record (created s.current_task) { kernel_stack = stack })
  tmp_task ← last_task fuel stacked s.ready_queue
  let linked = put_task stacked tmp_task (record (stacked tmp_task) { next = fresh })
  let started = put_task linked fresh (record (linked fresh) { esp = esp; ebp = ebp })
  ok (record s { store = started; next_pid = add32 s.next_pid 1 }, s.next_pid)

-- The routine is where the new task starts.
abbrev pub create_proc :
    (fuel routine directory fresh stack esp ebp : ℕ) → Tasks → Outcome (Tasks × ℕ)
create_proc fuel routine directory fresh stack esp ebp s =
    start_task fuel routine directory fresh stack esp ebp s

abbrev pub getpid : Tasks → ℕ
getpid s = (s.store s.current_task).id

-- `initialise_tasking` behind `move_stack`: the task that runs already becomes the first of the
-- queue.
unfoldable pub initialise_tasking : (fresh stack : ℕ) → Tasks → Tasks
initialise_tasking fresh stack s = record s {
  store = put_task s.store fresh (record {
    id = s.next_pid;
    esp = 0;
    ebp = 0;
    eip = 0;
    page_directory = s.current_directory;
    kernel_stack = stack;
    next = 0;
  });
  current_task = fresh;
  ready_queue = fresh;
  next_pid = add32 s.next_pid 1;
}

-- `fork`, in the parent: `eip` is what `read_eip` gives when it returns there.
unfoldable pub fork : (fuel eip directory fresh stack esp ebp : ℕ) → Tasks → Outcome (Tasks × ℕ)
fork fuel eip directory fresh stack esp ebp s = do
  (s', id) ← start_task fuel 0 directory fresh stack esp ebp s
  ok (record s' { store = put_task s'.store fresh (record (s'.store fresh) { eip = eip }) }, id)

-- What `fork` returns each time that `read_eip` returns, `id` being the new task's number.
unfoldable pub fork_result : (parent id : ℕ) → Tasks → ℕ
fork_result parent id s = if s.current_task == parent then id else 0

-- `switch_to_user_mode`, before the processor leaves the kernel.
unfoldable pub switch_to_user_mode : Tasks → Tasks
switch_to_user_mode s = record s {
  tables =
      set_kernel_stack (add32 (s.store s.current_task).kernel_stack kernel_stack_size) s.tables;
}
