-- ===== src/Ipc/WaitQueue.antt =====
-- The wait queues of kernel/ipc.c: a list of tasks through `wait_next`, the most urgent one first,
-- with a pointer to the last.
pub mod Chained
pub mod Laws
pub mod Remove
use vaios.Base.{ℕ, zero, suc, Bool, Option, none, some, update, ltb, leb, ◌==◌, if◌then◌else◌}
use vaios.Sched.Tcb.{Tcb, Pointer}
use vaios.Sched.TaskList.{Store, set}

-- `sema_t`, whose `observers` belong to the multi-descriptor wait
pub record Sema : Type 0 where
  pub wait_q : Pointer
  pub tail : Pointer
  pub count : ℕ
  pub limit : ℕ

abbrev pub is_null : Pointer → Bool
is_null none = Bool.true
is_null (some p) = Bool.false

-- `while (p->wait_next && p->wait_next->priority >= task->priority) p = p->wait_next;` for `n`
-- rounds at most, with `prio` for the priority of the task
pub walk_urgent : ℕ → Store → ℕ → ℕ → ℕ
walk_urgent zero t prio p = p
walk_urgent (suc n) t prio p = elim (t p).wait_next [
  | none ↦ p
  | some after ↦
      let on = walk_urgent n t prio after in if leb prio (t after).priority then on else p
]

abbrev pub set_wait_next : ℕ → Pointer → Store → Store
set_wait_next task p t = set task (λ c. record c { wait_next = p }) t

-- The task becomes the head of the queue.
abbrev pub wait_first : Sema → ℕ → Store → Sema × Store
wait_first sem task t = (
  record sem { wait_q = some task; tail = if is_null sem.wait_q then some task else sem.tail },
  set_wait_next task sem.wait_q t,
)

-- The task goes behind `p`.
abbrev pub wait_behind : Sema → ℕ → ℕ → Store → Sema × Store
wait_behind sem p task t =
    let next = (t p).wait_next in
    (
      record sem { tail = if is_null next then some task else sem.tail },
      set_wait_next p (some task) (set_wait_next task next t),
    )

-- The branch of `wait_q_enqueue` on the head of the queue.
pub wait_among : ℕ → Sema → Pointer → ℕ → Store → Sema × Store
wait_among fuel sem none task t = wait_first sem task t
wait_among fuel sem (some head) task t =
    if ltb (t head).priority (t task).priority
    then wait_first sem task t
    else wait_behind sem (walk_urgent fuel t (t task).priority head) task t

-- `wait_q_enqueue`, with `fuel` for the walk
pub wait_q_enqueue : ℕ → Sema → ℕ → Store → Sema × Store
wait_q_enqueue fuel sem task t = wait_among fuel sem sem.wait_q task (set_wait_next task none t)

-- `wait_q_dequeue`: the task with the queue without it
abbrev pub dequeue_at : Pointer → Sema → Store → Pointer × Sema × Store
dequeue_at none sem t = (none, sem, t)
dequeue_at (some task) sem t =
    let rest = (t task).wait_next in
    (
      some task,
      record sem { wait_q = rest; tail = if is_null rest then none else sem.tail },
      set_wait_next task none t,
    )

pub wait_q_dequeue : Sema → Store → Pointer × Sema × Store
wait_q_dequeue sem t = dequeue_at sem.wait_q sem t

abbrev pub is_at : ℕ → Pointer → Bool
is_at task none = Bool.false
is_at task (some p) = p == task

-- `wait_q_remove` once the task is found behind `before`, NULL for the head of the queue.
abbrev pub unlink_waiter : ℕ → Pointer → Sema → Store → Sema × Store
unlink_waiter task none sem t = (
  record sem { wait_q = (t task).wait_next; tail = if is_at task sem.tail then none else sem.tail },
  set_wait_next task none t,
)
unlink_waiter task (some b) sem t = (
  record sem { tail = if is_at task sem.tail then some b else sem.tail },
  set_wait_next task none (set_wait_next b (t task).wait_next t),
)

-- The walk for the task, from `p` behind `before`
pub seek_waiter : ℕ → ℕ → Pointer → Pointer → Sema → Store → Sema × Store
seek_waiter zero task before p sem t = (sem, t)
seek_waiter (suc n) task before none sem t = (sem, t)
seek_waiter (suc n) task before (some c) sem t =
    let on = seek_waiter n task (some c) (t c).wait_next sem t in
    if c == task then unlink_waiter task before sem t else on

-- `wait_q_remove`, with `fuel` for the walk
pub wait_q_remove : ℕ → Sema → ℕ → Store → Sema × Store
wait_q_remove fuel sem task t = seek_waiter fuel task none sem.wait_q sem t
