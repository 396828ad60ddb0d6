-- ===== src/Sched/Delayed.antt =====
-- The delayed list of kernel/task.c and the insertion of `add_to_delayed_list`, which compares
-- wake-up ticks as plain numbers.
pub mod Order
pub mod Laws
use vaios.Base.{ℕ, zero, suc, Option, none, some, update, ltb, leb, ◌==◌, if◌then◌else◌}
use vaios.Sched.Tcb.{Tcb, TaskStatus, Pointer}
use vaios.Sched.TaskList.{Store, set, set_at}

-- `while (cur->next && cur->next->delay_ticks <= task->delay_ticks) cur = cur->next;` for `n`
-- rounds at most, with `due` for the tick of the task
unfoldable pub walk_due : ℕ → Store → ℕ → ℕ → ℕ
walk_due zero t due cur = cur
walk_due (suc n) t due cur = elim (t cur).next [
  | none ↦ cur
  | some after ↦
      let on = walk_due n t due after in if leb (t after).delay_ticks due then on else cur
]

-- The insertion before the first task, or into an empty list.
unfoldable pub put_first : ℕ → Pointer → Store → Pointer × Store
put_first task list t = (
  some task,
  set_at list (λ c. record c { prev = some task }) (set task (λ c. record c { next = list }) t),
)

-- The insertion behind task `cur`.
unfoldable pub put_behind : ℕ → ℕ → ℕ → Store → Pointer × Store
put_behind task cur head t =
    let t1 = set task (λ c. record c { next = (t cur).next; prev = some cur }) t in
    let t2 = set_at (t1 cur).next (λ c. record c { prev = some task }) t1 in
    (some head, set cur (λ c. record c { next = some task }) t2)

unfoldable pub place_delayed : ℕ → ℕ → Pointer → Store → Pointer × Store
place_delayed fuel task none t = put_first task none t
place_delayed fuel task (some head) t =
    let due = (t task).delay_ticks in
    if ltb due (t head).delay_ticks
    then put_first task (some head) t
    else put_behind task (walk_due fuel t due head) head t

-- `add_to_delayed_list`, with `fuel` for the walk
unfoldable pub add_to_delayed_list : ℕ → Pointer → Pointer → Store → Pointer × Store
add_to_delayed_list fuel none list t = (list, t)
add_to_delayed_list fuel (some task) list t =
    place_delayed fuel task list
      (set task (λ c. record c { next = none; prev = none; status = TaskStatus.task_delayed }) t)
