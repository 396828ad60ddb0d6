-- ===== src/Sched/Sleep.antt =====
-- `task_delay` and `task_delay_until` of kernel/task.c, which put the current task to sleep. The
-- interrupt that they pend is left out; `none` is the panic on a current task that is NULL.
pub mod Laws
use vaios.Base.{
  ℕ, ◌+◌, ◌-◌, ◌%◌, ◌^◌, ◌<◌, ◌≡◌, Bool, true, false, ◌||◌, leb, ◌==◌, if◌then◌else◌, Option, none,
  some, arith, dec_lt, lt→leb, le→leb, ne→eqb,
}
use vaios.Machine.{word_mod, add32, sub32}
use vaios.Sched.Tcb.{Kernel, TaskStatus, Pointer}
use vaios.Sched.TaskList.{set}
use vaios.Sched.Delayed.{add_to_delayed_list}

-- `current_task == idle_task`, for a current task that is not NULL
abbrev pub is_idle : ℕ → Pointer → Bool
is_idle c none = false
is_idle c (some i) = c == i

-- The current task is marked and put into the delayed list.
unfoldable pub sleep_until : ℕ → ℕ → ℕ → Kernel → Kernel
sleep_until fuel c wake k =
    let t = set c (λ d. record d { delay_ticks = wake; status = TaskStatus.task_delayed }) k.tcbs in
    let (list, t') = add_to_delayed_list fuel (some c) k.delayed_list t in
    record k { delayed_list = list; tcbs = t' }

-- `task_delay`
unfoldable pub task_delay : ℕ → ℕ → Kernel → Option Kernel
task_delay fuel ticks k = elim k.current_task [
  | none ↦ none
  | some c ↦ some (
      if is_idle c k.idle_task || ticks == 0 then k else sleep_until fuel c (add32 k.ticks ticks) k)
]

-- `(int32_t)(wake - v_get_ticks()) <= 0`
unfoldable pub overdue : ℕ → ℕ → Bool
overdue wake now = let delta = sub32 wake now in delta == 0 || leb (2 ^ 31) delta

-- What `task_delay_until` does once `last_wake` is known not to be NULL: its result, the new
-- `*last_wake` and the state.
unfoldable pub delay_to : ℕ → ℕ → ℕ → Kernel → Bool × ℕ × Kernel
delay_to fuel c wake k =
    if overdue wake k.ticks then (false, wake, k) else (true, wake, sleep_until fuel c wake k)

-- `task_delay_until`
unfoldable pub task_delay_until : ℕ → Option ℕ → ℕ → Kernel → Option (Bool × Option ℕ × Kernel)
task_delay_until fuel last_wake period k = elim k.current_task [
  | none ↦ none
  | some c ↦ elim last_wake [
    | none ↦ some (false, none, k)
    | some last ↦
        if is_idle c k.idle_task || period == 0
        then some (false, some last, k)
        else let (slept, wake, k') = delay_to fuel c (add32 last period) k in
          some (slept, some wake, k')
  ]
]

-- For a deadline less than half the range of a tick counter away from now, the test of
-- `task_delay_until` agrees with the order of the two times, whichever counters have wrapped round.
pub overdue_lem :
    (wake now : ℕ)
    → wake < now + 2 ^ 31
    → now < wake + 2 ^ 31
    → overdue (wake % word_mod) (now % word_mod) ≡ leb wake now
unfolding overdue
overdue_lem wake now near late = elim (dec_lt now wake) [
  | yes ahead ↦
      let d : sub32 (wake % word_mod) (now % word_mod) ≡ wake - now = omega arith in
      rw (d, lt→leb now wake ahead) (ground arith)
  | no past ↦ elim (dec_lt wake now) [
    | yes before ↦
        let d : sub32 (wake % word_mod) (now % word_mod) ≡ word_mod - (now - wake) = omega arith in
        rw (d, le→leb wake now (omega arith)) (ground arith)
    | no same ↦
        let e : wake ≡ now = omega arith in
        let d : sub32 (now % word_mod) (now % word_mod) ≡ 0 = omega arith in
        rw (e, d, le→leb now now (omega arith)) (ground arith)
  ]
]

-- For a current task that is not the idle task and a period that is not 0, `task_delay_until` moves
-- the deadline on by the period; it sleeps until then if that time is not reached, and returns at
-- once if it is, whichever counters have wrapped round, for a deadline less than half the range of
-- a tick counter away from now.
task_delay_until_lem :
    (fuel c last now period : ℕ) (k : Kernel)
    → k.current_task ≡ some c
    → is_idle c k.idle_task ≡ false
    → 0 < period
    → k.ticks ≡ now % word_mod
    → last + period < now + 2 ^ 31
    → now < last + period + 2 ^ 31
    → let wake = (last + period) % word_mod in
      task_delay_until fuel (some (last % word_mod)) period k ≡ (
        if leb (last + period) now
        then some (false, some wake, k)
        else some (true, some wake, sleep_until fuel c wake k))
unfolding task_delay_until delay_to
task_delay_until_lem fuel c last now period k here awake some_period time near late =
    let moved : add32 (last % word_mod) period ≡ (last + period) % word_mod = omega arith in
    rw
      (
        here,
        awake,
        ne→eqb period 0 (omega arith),
        moved,
        time,
        overdue_lem (last + period) now near late,
      )
      (elim (dec_lt now (last + period)) [
        | yes ahead ↦ rw (lt→leb now (last + period) ahead)
        | no past ↦ rw (le→leb (last + period) now (omega arith))
      ])
