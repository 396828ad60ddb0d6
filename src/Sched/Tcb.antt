-- ===== src/Sched/Tcb.antt =====
-- The task control block of include/task.h and the global state of kernel/task.c. A TCB pointer is
-- its address, a NULL pointer is `none`, and the TCBs themselves stand in the family `tcbs`.
use vaios.Base.{ℕ, ◌≡◌, refl, update_cases, Option, none, some, update}

pub data TaskStatus : Type 0 where
  task_ready task_running task_blocked task_delayed task_terminated : TaskStatus

abbrev pub Pointer : Type 0
Pointer = Option ℕ

pub record Tcb : Type 0 where
  pub task_id : ℕ
  pub parent_id : ℕ
  pub delay_ticks : ℕ
  pub ticks_run : ℕ
  pub priority : ℕ
  pub base_priority : ℕ
  pub status : TaskStatus
  pub mem_block : ℕ
  pub stack_size : ℕ
  pub wait_sem : Pointer
  pub wait_mutex : Pointer
  pub held_mutexes : Pointer
  pub next : Pointer
  pub prev : Pointer
  pub wait_next : Pointer

-- MAX_PRIORITY, at its Kconfig default.
abbrev pub max_priority : ℕ
max_priority = 7

pub record Kernel : Type 0 where
  pub tcbs : ℕ → Tcb
  pub ready_lists : ℕ → Pointer
  pub ready_tails : ℕ → Pointer
  pub blocked_list : Pointer
  pub delayed_list : Pointer
  pub current_task : Pointer
  pub idle_task : Pointer
  pub ready_bitmap : ℕ
  pub context_switch_count : ℕ
  pub last_context_switch_tick : ℕ
  pub task_count : ℕ
  pub terminated_count : ℕ
  pub ticks : ℕ

-- `*task` changed by `change`.
abbrev pub modify : ℕ → (Tcb → Tcb) → Kernel → Kernel
modify task change k = record k { tcbs = update k.tcbs task (change (k.tcbs task)) }

-- The same through a pointer; a write through NULL does nothing here, and no invariant state makes
-- one.
abbrev pub modify_at : Pointer → (Tcb → Tcb) → Kernel → Kernel
modify_at none change k = k
modify_at (some task) change k = modify task change k

-- A field that a write leaves alone is kept for every task.
pub modify_kept :
    {A : Type 0} (field : Tcb → A) (task : ℕ) (change : Tcb → Tcb) (k : Kernel)
    → ((t : Tcb) → field (change t) ≡ field t)
    → (y : ℕ) → field ((modify task change k).tcbs y) ≡ field (k.tcbs y)
modify_kept field task change k free y =
    update_cases k.tcbs task (change (k.tcbs task)) (λ j c. field c ≡ field (k.tcbs j))
      (free (k.tcbs task)) (λ j ne. refl) y

pub modify_at_kept :
    {A : Type 0} (field : Tcb → A) (task : Pointer) (change : Tcb → Tcb) (k : Kernel)
    → ((t : Tcb) → field (change t) ≡ field t)
    → (y : ℕ) → field ((modify_at task change k).tcbs y) ≡ field (k.tcbs y)
modify_at_kept field none change k free y = refl
modify_at_kept field (some task) change k free y = modify_kept field task change k free y
