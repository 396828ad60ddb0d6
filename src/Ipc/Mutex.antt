-- ===== src/Ipc/Mutex.antt =====
-- Mutexes with priority inheritance of kernel/ipc.c. The semaphore at a mutex's address is its
-- `base`.
pub mod Laws
use vaios.Base.{
  ℕ, zero, suc, Bool, true, false, not, ltb, ◌==◌, ◌||◌, if◌then◌else◌, Option, none, some, update,
}
use vaios.Machine.{add32, sub32}
use vaios.Sched.Tcb.{Tcb, TaskStatus, Pointer, Kernel, modify}
use vaios.Sched.TaskList.{Store}
use vaios.Sched.Priority.{task_change_priority}
use vaios.Ipc.WaitQueue.{Sema, wait_q_dequeue}
use vaios.Ipc.Semaphore.{Ipc, Outcome, sema_init, semaphore_take, hand_over}

-- `rmutex_t` without its `base`
pub record Rmutex : Type 0 where
  pub owner : Pointer
  pub recursion_count : ℕ
  pub next_held : Pointer

pub record Locks : Type 0 where
  pub ipc : Ipc
  pub mutexes : ℕ → Rmutex

abbrev pub same : Pointer → Pointer → Bool
same none none = true
same none (some b) = false
same (some a) none = false
same (some a) (some b) = a == b

-- `v_mutex_create_static`
abbrev pub mutex_create : Pointer → Locks → Pointer × Locks
mutex_create none l = (none, l)
mutex_create (some rm) l = (
  some rm,
  record {
    ipc = record l.ipc { semas = update l.ipc.semas rm (sema_init 1 1) };
    mutexes = update l.mutexes rm (record { owner = none; recursion_count = 0; next_held = none });
  },
)

abbrev pub set_mutex : ℕ → (Rmutex → Rmutex) → Locks → Locks
set_mutex rm change l = record l { mutexes = update l.mutexes rm (change (l.mutexes rm)) }

abbrev pub set_kernel : Kernel → Locks → Locks
set_kernel k l = record l { ipc = record l.ipc { kernel = k } }

abbrev pub is_blocked : TaskStatus → Bool
is_blocked TaskStatus.task_ready = false
is_blocked TaskStatus.task_running = false
is_blocked TaskStatus.task_blocked = true
is_blocked TaskStatus.task_delayed = false
is_blocked TaskStatus.task_terminated = false

-- The walk over the chain of owners from `m` on, with `n` hops left of MAX_PI_DEPTH; `none` is the
-- panic on a longer chain.
unfoldable inherit : ℕ → (ℕ → Rmutex) → Pointer → ℕ → Kernel → Option Kernel
inherit n mutexes none current k = some k
inherit zero mutexes (some m) current k = elim (mutexes m).owner [
  | none ↦ some k
  | some o ↦ if ltb (k.tcbs o).priority (k.tcbs current).priority then none else some k
]
inherit (suc n) mutexes (some m) current k = elim (mutexes m).owner [
  | none ↦ some k
  | some o ↦
      let boosted = task_change_priority (some o) (k.tcbs current).priority k in
      let next = if is_blocked (boosted.tcbs o).status then (boosted.tcbs o).wait_mutex else none in
      let rest = inherit n mutexes next current boosted in
      if ltb (k.tcbs o).priority (k.tcbs current).priority then rest else some k
]

-- The owner's list of held mutexes starts with `rm`.
pub own : ℕ → ℕ → Locks → Locks
own rm task l =
    let held = (l.ipc.kernel.tcbs task).held_mutexes in
    let owned =
      set_mutex rm (λ m. record m { owner = some task; recursion_count = 1; next_held = held }) l in
    set_kernel (modify task (λ c. record c { held_mutexes = some rm }) owned.ipc.kernel) owned

-- What `mutex_lock_common` does after the take.
abbrev pub locked : ℕ → ℕ → Outcome → Locks → Outcome × Locks
locked rm current Outcome.parked l = (Outcome.parked, l)
locked rm current Outcome.va_fail l = (
  Outcome.va_fail,
  set_kernel (modify current (λ c. record c { wait_mutex = none }) l.ipc.kernel) l,
)
locked rm current Outcome.va_pass l =
    let free = set_kernel (modify current (λ c. record c { wait_mutex = none }) l.ipc.kernel) l in
    (
      Outcome.va_pass,
      if same (free.mutexes rm).owner (some current) then free else own rm current free,
    )

abbrev pub take_base : ℕ → ℕ → ℕ → ℕ → Kernel → Locks → Outcome × Locks
take_base fuel rm ticks_to_wait current k l =
    let waiting = modify current (λ c. record c { wait_mutex = some rm }) k in
    let (outcome, i) =
      semaphore_take fuel rm ticks_to_wait current (record l.ipc { kernel = waiting }) in
    locked rm current outcome (record l { ipc = i })

-- `mutex_lock_common`, up to the switch where it waits; `depth` is MAX_PI_DEPTH, and `none` a panic
unfoldable mutex_lock : ℕ → ℕ → ℕ → ℕ → Pointer → Locks → Option (Outcome × Locks)
mutex_lock fuel depth rm ticks_to_wait none l = some (Outcome.va_pass, l)
mutex_lock fuel depth rm ticks_to_wait (some current) l =
    elim (inherit depth l.mutexes (some rm) current l.ipc.kernel) [
      | none ↦ none
      | some k ↦ some (take_base fuel rm ticks_to_wait current k l)
    ]

-- `mutex_top_waiter_prio`
abbrev pub mutex_top_waiter_prio : Pointer → Store → ℕ
mutex_top_waiter_prio none t = 0
mutex_top_waiter_prio (some task) t = (t task).priority

-- The walk over the held mutexes for `rm`: the link to it is moved on. `from` is the mutex whose link
-- is looked at, NULL for the owner's.
pub unlink_held : ℕ → ℕ → ℕ → Pointer → Pointer → Locks → Locks
unlink_held zero rm current from at_link l = l
unlink_held (suc n) rm current from none l = l
unlink_held (suc n) rm current from (some m) l =
    let on = unlink_held n rm current (some m) (l.mutexes m).next_held l in
    let rest = (l.mutexes rm).next_held in
    let cut : Locks = elim from [
      | none ↦ set_kernel (modify current (λ c. record c { held_mutexes = rest }) l.ipc.kernel) l
      | some b ↦ set_mutex b (λ c. record c { next_held = rest }) l
    ] in
    if m == rm then cut else on

-- The highest priority among `newp` and the first waiters of the mutexes from `m` on.
abbrev pub raised : ℕ → (ℕ → Rmutex) → (ℕ → Sema) → Store → Pointer → ℕ → ℕ
raised zero mutexes semas t m newp = newp
raised (suc n) mutexes semas t none newp = newp
raised (suc n) mutexes semas t (some m) newp =
    let w = mutex_top_waiter_prio (semas m).wait_q t in
    raised n mutexes semas t (mutexes m).next_held (if ltb newp w then w else newp)

-- The mutex goes to its first waiter, or becomes free.
abbrev pub pass_to : ℕ → Pointer → Sema → Store → Locks → Locks
pass_to rm (some w) sem t l =
    let freed = modify w (λ c. record c { wait_mutex = none }) (record l.ipc.kernel { tcbs = t }) in
    own rm w
      (record l { ipc = record { kernel = hand_over w freed; semas = update l.ipc.semas rm sem } })
pass_to rm none sem t l =
    let free = set_mutex rm (λ m. record m { owner = none; recursion_count = 0 }) l in
    record free {
      ipc = record l.ipc {
        semas = update l.ipc.semas rm (record sem { count = add32 sem.count 1 });
      };
    }

-- `mutex_unlock_common` for the owner, with `fuel` for the walks over the held mutexes
pub release_mutex : ℕ → ℕ → ℕ → Locks → Locks
release_mutex fuel rm current l =
    let unlinked = unlink_held fuel rm current none (l.ipc.kernel.tcbs current).held_mutexes l in
    let cut = set_mutex rm (λ m. record m { next_held = none }) unlinked in
    let k = cut.ipc.kernel in
    let c = k.tcbs current in
    let newp = raised fuel cut.mutexes cut.ipc.semas k.tcbs c.held_mutexes c.base_priority in
    let lowered = if newp == c.priority then k else task_change_priority (some current) newp k in
    let (w, sem, t) = wait_q_dequeue (cut.ipc.semas rm) lowered.tcbs in
    pass_to rm w sem t (set_kernel lowered cut)

-- `mutex_unlock_common`
pub mutex_unlock : ℕ → ℕ → Pointer → Locks → Outcome × Locks
mutex_unlock fuel rm none l = (Outcome.va_pass, l)
mutex_unlock fuel rm (some current) l =
    if same (l.mutexes rm).owner (some current)
    then (Outcome.va_pass, release_mutex fuel rm current l)
    else (Outcome.va_fail, l)

-- `v_mutex_lock_recursive`
pub mutex_lock_recursive : ℕ → ℕ → ℕ → ℕ → Pointer → Locks → Option (Outcome × Locks)
mutex_lock_recursive fuel depth rm ticks_to_wait none l = some (Outcome.va_pass, l)
mutex_lock_recursive fuel depth rm ticks_to_wait (some current) l =
    if same (l.mutexes rm).owner (some current)
    then some (
      Outcome.va_pass,
      set_mutex rm (λ m. record m { recursion_count = add32 m.recursion_count 1 }) l,
    )
    else mutex_lock fuel depth rm ticks_to_wait (some current) l

-- `v_mutex_unlock_recursive`
pub mutex_unlock_recursive : ℕ → ℕ → Pointer → Locks → Outcome × Locks
mutex_unlock_recursive fuel rm none l = (Outcome.va_pass, l)
mutex_unlock_recursive fuel rm (some current) l =
    let count = sub32 (l.mutexes rm).recursion_count 1 in
    let less = set_mutex rm (λ m. record m { recursion_count = count }) l in
    if not (same (l.mutexes rm).owner (some current))
    then (Outcome.va_fail, l)
    else if count == 0
    then mutex_unlock fuel rm (some current) less
    else (Outcome.va_pass, less)
