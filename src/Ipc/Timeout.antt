-- ===== src/Ipc/Timeout.antt =====
-- The tick handler of kernel/task.c, `wake_up_delayed_tasks_isr`: it wakes the sleepers that are due
-- and ends the waits whose time is over. The part for waits on several descriptors (VAIOS_IPC_FD) is
-- left out, and so is the return value that a system call delivers through a saved register.
pub mod Laws
use vaios.Base.{
  ℕ, zero, suc, Bool, true, false, not, ltb, leb, ◌==◌, ◌&&◌, ◌||◌, if◌then◌else◌, Option, none,
  some, update,
}
use vaios.Sched.Tcb.{Tcb, TaskStatus, Pointer, Kernel, modify, modify_at}
use vaios.Sched.TaskList.{Store}
use vaios.Sched.Priority.{add_to_ready_list}
use vaios.Ipc.WaitQueue.{Sema, is_null, is_at, set_wait_next}
use vaios.Ipc.Semaphore.{Ipc, remove_from_blocked_list}

-- `current_task && task->priority > current_task->priority`
abbrev outranks : Pointer → ℕ → Store → Bool
outranks none task t = false
outranks (some current) task t = ltb (t current).priority (t task).priority

-- The first sleeper leaves the delayed list and is READY.
unfoldable wake_first : ℕ → Kernel → Kernel
wake_first task k =
    let rest = (k.tcbs task).next in
    let cut = modify_at rest (λ c. record c { prev = none }) (record k { delayed_list = rest }) in
    let woken =
      modify task
        (λ c. record c {
          next = none;
          prev = none;
          delay_ticks = 0;
          status = TaskStatus.task_ready;
        })
        cut in
    add_to_ready_list (some task) woken

-- The walk over the sleepers that are due, with whether one of them outranks the current task.
unfoldable wake_due : ℕ → Kernel → Bool × Kernel
wake_due zero k = (false, k)
wake_due (suc n) k = elim k.delayed_list [
  | none ↦ (false, k)
  | some task ↦
      let k' = wake_first task k in
      let (woken, rest) = wake_due n k' in
      if leb (k.tcbs task).delay_ticks k.ticks
      then (outranks k'.current_task task k'.tcbs || woken, rest)
      else (false, k)
]

-- The waiter before `task` in the queue from `p` on.
pub waiter_before : ℕ → ℕ → Pointer → Store → Pointer
waiter_before zero task p t = none
waiter_before (suc n) task none t = none
waiter_before (suc n) task (some b) t =
    let on = waiter_before n task (t b).wait_next t in
    if is_at task (t b).wait_next then some b else on

abbrev pub unlink_timed_out : ℕ → Pointer → Sema → Store → Sema × Store
unlink_timed_out task none sem t = (sem, t)
unlink_timed_out task (some b) sem t = (
  record sem { tail = if is_at task sem.tail then some b else sem.tail },
  set_wait_next b (t task).wait_next t,
)

-- The task leaves the wait queue.
pub leave_queue : ℕ → ℕ → Sema → Store → Sema × Store
leave_queue fuel task sem t =
    let rest = (t task).wait_next in
    if is_at task sem.wait_q
    then (record sem { wait_q = rest; tail = if is_null rest then none else sem.tail }, t)
    else unlink_timed_out task (waiter_before fuel task sem.wait_q t) sem t

-- The wait of `task` on semaphore `s` ends without success; `wait_sem` stays for the resumed take.
pub time_out : ℕ → ℕ → ℕ → Ipc → Ipc
time_out fuel s task i =
    let (sem, t) = leave_queue fuel task (i.semas s) i.kernel.tcbs in
    let off = remove_from_blocked_list task (record i.kernel { tcbs = t }) in
    let woken =
      modify task (λ c. record c { delay_ticks = 0; status = TaskStatus.task_ready }) off in
    let ready = add_to_ready_list (some task) woken in
    record {
      kernel = modify task (λ c. record c { wait_mutex = none }) ready;
      semas = update i.semas s sem;
    }

-- Whether a blocked task waits on a semaphore up to a time that has passed.
abbrev expired : ℕ → Tcb → Pointer
expired now c = if not (c.delay_ticks == 0) && ltb c.delay_ticks now then c.wait_sem else none

-- The walk over the blocked tasks from `p` on.
unfoldable eject : ℕ → ℕ → Pointer → Ipc → Bool × Ipc
eject fuel zero p i = (false, i)
eject fuel (suc n) none i = (false, i)
eject fuel (suc n) (some task) i =
    let next = (i.kernel.tcbs task).next in
    elim (expired i.kernel.ticks (i.kernel.tcbs task)) [
      | none ↦ eject fuel n next i
      | some s ↦
          let i' = time_out fuel s task i in
          let (woken, rest) = eject fuel n next i' in
          (outranks i'.kernel.current_task task i'.kernel.tcbs || woken, rest)
    ]

-- `wake_up_delayed_tasks_isr`, with `fuel` for its walks
unfoldable wake_up_delayed_tasks_isr : ℕ → Ipc → Bool × Ipc
wake_up_delayed_tasks_isr fuel i =
    let (sleeper, k) = wake_due fuel i.kernel in
    let (waiter, i') = eject fuel fuel k.blocked_list (record i { kernel = k }) in
    (sleeper || waiter, i')
