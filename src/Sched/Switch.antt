-- ===== src/Sched/Switch.antt =====
-- `get_next_task` of kernel/task.c, which PendSV runs to choose the task to switch to.
pub mod Frame
pub mod Choice
pub mod Rotate
use vaios.Base.{ℕ, ◌<◌, Bool, true, false, not, ◌||◌, ltb, if◌then◌else◌, Option, none, some}
use vaios.Machine.{add32, sub32}
use vaios.Sched.Tcb.{Pointer, Tcb, TaskStatus, Kernel, max_priority, modify, modify_at}
use vaios.Sched.Bitmap.{highest_ready_prio}
use vaios.Sched.Ready.{rl_append, rl_pop_head}

abbrev pub is_running : TaskStatus → Bool
is_running TaskStatus.task_running = true
is_running TaskStatus.task_ready = false
is_running TaskStatus.task_blocked = false
is_running TaskStatus.task_delayed = false
is_running TaskStatus.task_terminated = false

-- The time since the last switch is the current task's.
unfoldable pub account : ℕ → Kernel → Kernel
account c k =
    let spent = sub32 k.ticks k.last_context_switch_tick in
    record (modify c (λ t. record t { ticks_run = add32 t.ticks_run spent }) k) {
      last_context_switch_tick = k.ticks;
    }

-- A current task that still runs goes back to the end of its ready list.
unfoldable pub requeue : ℕ → Kernel → Kernel
requeue c k = if is_running (k.tcbs c).status then rl_append c k else k

-- The checks on the popped TCB; `none` is `v_panic`, which does not return.
unfoldable pub checked : (ℕ → Bool) → Pointer × Kernel → Option Kernel
checked is_ram (none, k) = none
checked is_ram (some t, k) =
    if not (is_ram t) || ltb max_priority (k.tcbs t).priority
    then none
    else some (record k { current_task = some t })

-- The branch on what `highest_ready_prio` found, for current task `c`.
unfoldable pub choose : (ℕ → Bool) → ℕ → Option ℕ → Kernel → Option Kernel
choose is_ram c (some p) k = checked is_ram (rl_pop_head p k)
choose is_ram c none k =
    some (if is_running (k.tcbs c).status then k else record k { current_task = k.idle_task })

-- The chosen task runs.
unfoldable pub dispatch : Kernel → Kernel
dispatch k =
    record (modify_at k.current_task (λ t. record t { status = TaskStatus.task_running }) k) {
      context_switch_count = add32 k.context_switch_count 1;
    }

abbrev pub finish : Option Kernel → Option Kernel
finish none = none
finish (some chosen) = some (dispatch chosen)

-- What follows once the current task `c` is accounted for and queued.
unfoldable pub switched : (ℕ → Bool) → ℕ → Kernel → Option Kernel
switched is_ram c k = finish (choose is_ram c (highest_ready_prio k.ready_bitmap) k)

-- `get_next_task`; `none` is a panic, or the fault of a current task that is NULL
unfoldable pub get_next_task : (ℕ → Bool) → Kernel → Option Kernel
get_next_task is_ram k = elim k.current_task [
  | none ↦ none
  | some c ↦ switched is_ram c (requeue c (account c k))
]
