-- ===== src/Sched/Lookup.antt =====
-- `get_task_by_id` of kernel/task.c.
use vaios.Base.{ℕ, zero, suc, ◌+◌, ◌≡◌, refl, ◌==◌, if◌then◌else◌, none, some, update}
use vaios.Sched.Tcb.{Pointer, Kernel, max_priority}
use vaios.Sched.TaskList.{Store}

-- The walk over a list from `p` on for a task with this id, for `n` rounds at most.
abbrev on_list : ℕ → Store → ℕ → Pointer → Pointer
on_list zero t id p = none
on_list (suc n) t id none = none
on_list (suc n) t id (some curr) =
    let on = on_list n t id (t curr).next in if (t curr).task_id == id then some curr else on

abbrev or_on : Pointer → Pointer → Pointer
or_on none later = later
or_on (some task) later = some task

-- The ready lists from level `i` on, `n` of them.
abbrev on_levels : ℕ → ℕ → ℕ → ℕ → Kernel → Pointer
on_levels fuel zero i id k = none
on_levels fuel (suc n) i id k =
    or_on (on_list fuel k.tcbs id (k.ready_lists i)) (on_levels fuel n (i + 1) id k)

-- `get_task_by_id` when a task runs
get_task_by_id : ℕ → ℕ → ℕ → Kernel → Pointer
get_task_by_id fuel id current k =
    if (k.tcbs current).task_id == id
    then some current
    else or_on (on_levels fuel max_priority 0 id k)
        (or_on (on_list fuel k.tcbs id k.blocked_list) (on_list fuel k.tcbs id k.delayed_list))

-- Whatever stands on the ready list of the highest priority, the search does not see it.
get_task_by_id-blind :
    (fuel id current : ℕ) (k : Kernel) (list : Pointer)
    → get_task_by_id fuel id current
        (record k { ready_lists = update k.ready_lists max_priority list })
      ≡ get_task_by_id fuel id current k
unfolding get_task_by_id
get_task_by_id-blind fuel id current k list = refl
