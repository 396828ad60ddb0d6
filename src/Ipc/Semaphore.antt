-- ===== src/Ipc/Semaphore.antt =====
-- Semaphores of kernel/ipc.c over the scheduler. Multi-descriptor observers of a semaphore
-- (VAIOS_IPC_FD) are left out, and so is the return value that a system call delivers through a
-- saved register: `parked` is the call up to the switch, `take_resume` what follows it.
pub mod Kept
pub mod Laws
use vaios.Base.{
  ℕ, Bool, true, false, ltb, leb, ◌==◌, ◌&&◌, if◌then◌else◌, Option, none, some, update,
}
use vaios.Machine.{add32, sub32}
use vaios.Sched.Tcb.{Tcb, TaskStatus, Pointer, Kernel, modify}
use vaios.Sched.TaskList.{Store, enqueue_task, remove_task}
use vaios.Sched.Priority.{add_to_ready_list}
use vaios.Ipc.WaitQueue.{Sema, wait_q_enqueue, wait_q_dequeue}

pub record Ipc : Type 0 where
  pub kernel : Kernel
  pub semas : ℕ → Sema

pub data Outcome : Type 0 where
  va_pass va_fail parked : Outcome

-- V_WAIT_FOREVER
abbrev pub wait_forever : ℕ
wait_forever = 4294967295

-- `sema_init`
abbrev pub sema_init : ℕ → ℕ → Sema
sema_init initial_count limit = record {
  wait_q = none;
  tail = none;
  count = initial_count;
  limit = limit;
}

-- `v_semaphore_create_counting_static`
abbrev pub semaphore_create_counting : Pointer → ℕ → ℕ → Ipc → Pointer × Ipc
semaphore_create_counting none max_count initial_count i = (none, i)
semaphore_create_counting (some buffer) max_count initial_count i =
    if ltb max_count initial_count then (none, i) else (
      some buffer,
      record i { semas = update i.semas buffer (sema_init initial_count max_count) },
    )

-- `v_wake_deadline`
abbrev pub v_wake_deadline : ℕ → ℕ → ℕ
v_wake_deadline ticks ticks_to_wait = let d = add32 ticks ticks_to_wait in if d == 0 then 1 else d

-- `add_to_blocked_list`, with `fuel` for the walk to the end of the list
pub add_to_blocked_list : ℕ → ℕ → Kernel → Kernel
add_to_blocked_list fuel task k =
    let (list, t) = enqueue_task fuel (some task) k.blocked_list k.tcbs in
    modify task (λ c. record c { status = TaskStatus.task_blocked })
      (record k { blocked_list = list; tcbs = t })

-- `remove_from_blocked_list`
pub remove_from_blocked_list : ℕ → Kernel → Kernel
remove_from_blocked_list task k =
    let (list, t) = remove_task (some task) k.blocked_list k.tcbs in
    modify task (λ c. record c { next = none; prev = none })
      (record k { blocked_list = list; tcbs = t })

-- The current task waits on the semaphore, with `fuel` for both walks.
pub park : ℕ → ℕ → ℕ → ℕ → Ipc → Ipc
park fuel s ticks_to_wait current i =
    let k = i.kernel in
    let deadline =
      if ticks_to_wait == wait_forever then 0 else v_wake_deadline k.ticks ticks_to_wait in
    let marked =
      modify current
        (λ c. record c {
          status = TaskStatus.task_blocked;
          delay_ticks = deadline;
          wait_sem = some s;
        })
        k in
    let (sem, t) = wait_q_enqueue fuel (i.semas s) current marked.tcbs in
    record {
      kernel = add_to_blocked_list fuel current (record marked { tcbs = t });
      semas = update i.semas s sem;
    }

-- `semaphore_take_common` up to the switch, for the current task
pub semaphore_take : ℕ → ℕ → ℕ → ℕ → Ipc → Outcome × Ipc
semaphore_take fuel s ticks_to_wait current i =
    let sem = i.semas s in
    if ltb 0 sem.count
    then (
      Outcome.va_pass,
      record i { semas = update i.semas s (record sem { count = sub32 sem.count 1 }) },
    )
    else if ticks_to_wait == 0
    then (Outcome.va_fail, i)
    else (Outcome.parked, park fuel s ticks_to_wait current i)

abbrev pub resumed : Pointer → ℕ → Ipc → Outcome × Ipc
resumed none current i = (Outcome.va_pass, i)
resumed (some s) current i = (
  Outcome.va_fail,
  record i { kernel = modify current (λ c. record c { wait_sem = none }) i.kernel },
)

-- `semaphore_take_common` behind the switch
unfoldable take_resume : ℕ → Ipc → Outcome × Ipc
take_resume current i = resumed (i.kernel.tcbs current).wait_sem current i

-- A waiting task gets what is given and is READY.
pub hand_over : ℕ → Kernel → Kernel
hand_over task k =
    let granted = modify task (λ c. record c { wait_sem = none }) k in
    let unblocked = remove_from_blocked_list task granted in
    add_to_ready_list (some task)
      (modify task (λ c. record c { status = TaskStatus.task_ready }) unblocked)

-- The branch of `semaphore_give_common` on the first waiter, with whether it is more urgent than the
-- current task.
abbrev pub give_to : ℕ → Pointer → Sema → Store → Ipc → Outcome × Bool × Ipc
give_to s (some task) sem t i =
    let k = hand_over task (record i.kernel { tcbs = t }) in
    let woken : Bool = elim k.current_task [
      | none ↦ false
      | some current ↦ ltb (k.tcbs current).priority (k.tcbs task).priority
    ] in
    (Outcome.va_pass, woken, record { kernel = k; semas = update i.semas s sem })
give_to s none sem t i = if leb sem.limit sem.count then (Outcome.va_fail, false, i) else (
  Outcome.va_pass,
  false,
  record i { semas = update i.semas s (record sem { count = add32 sem.count 1 }) },
)

-- `semaphore_give_common`
pub semaphore_give : ℕ → Ipc → Outcome × Bool × Ipc
semaphore_give s i =
    let (task, sem, t) = wait_q_dequeue (i.semas s) i.kernel.tcbs in give_to s task sem t i
