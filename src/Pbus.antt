-- ===== src/Pbus.antt =====
-- The bus arbiter of kernel/periph_bus.c: the queue of jobs by priority, `v_pbus_submit`,
-- `v_pbus_done_isr` and `v_pbus_abort_isr`. Each critical section is one step.
pub mod Queue
pub mod Enqueue
pub mod Arbiter
pub mod Dispatch
pub mod Served
pub mod Calls
pub mod Resubmit
pub mod Examples
use vaios.Base.{
  ℕ, zero, suc, ◌+◌, leb, ◌==◌, if◌then◌else◌, update, Bool, true, false, ◌||◌, ◌&&◌, Option, none,
  some,
}
use vaios.Machine.{ℤ, pos, negsuc}

abbrev Pointer : Type 0
Pointer = Option ℕ

-- The values of `state`.
pub data JobState : Type 0 where
  job_idle : JobState
  job_queued : JobState
  job_active : JobState

-- `v_pbus_job_t`: `start` and `done` are addresses of functions, `grant` one of a semaphore.
pub record Job : Type 0 where
  pub start : Pointer
  pub done : Pointer
  pub prio : ℕ
  pub next : Pointer
  pub grant : Pointer
  pub state : JobState

-- `v_pbus_t`, with the jobs, the permits of the binary semaphores of the waiting lockers, and the
-- number of calls of `start` so far, which can answer otherwise each time.
pub record Pbus : Type 0 where
  pub queue : Pointer
  pub active : Pointer
  pub locked : Bool
  pub jobs : ℕ → Job
  pub permits : ℕ → ℕ
  pub calls : ℕ

abbrev is_some : Pointer → Bool
is_some none = false
is_some (some x) = true

abbrev is_idle : JobState → Bool
is_idle JobState.job_idle = true
is_idle JobState.job_queued = false
is_idle JobState.job_active = false

abbrev pub modify : ℕ → (Job → Job) → Pbus → Pbus
modify job f b = record b { jobs = update b.jobs job (f (b.jobs job)) }

-- What the pointer to a pointer holds: `none` is `&bus->queue`, and a job the address of its `next`.
abbrev pub at : Pointer → Pbus → Pointer
at none b = b.queue
at (some job) b = (b.jobs job).next

abbrev pub write_at : Pointer → Pointer → Pbus → Pbus
write_at none to b = record b { queue = to }
write_at (some job) to b = modify job (λ j. record j { next = to }) b

-- The walk of `enqueue`, from `pp`, which holds the second pointer.
unfoldable pub seek_prio : ℕ → ℕ → Pbus → Pointer → Pointer → Pointer
seek_prio zero prio b pp q = pp
seek_prio (suc fuel) prio b pp none = pp
seek_prio (suc fuel) prio b pp (some job) =
    let rest = seek_prio fuel prio b (some job) (b.jobs job).next in
    if leb prio (b.jobs job).prio then rest else pp

-- `job->next = *pp; *pp = job; job->state = JOB_QUEUED;`
unfoldable pub link_at : Pointer → ℕ → Pbus → Pbus
link_at pp job b =
    modify job (λ j. record j { state = JobState.job_queued })
      (write_at pp (some job) (modify job (λ j. record j { next = at pp b }) b))

-- `enqueue`
unfoldable pub enqueue : ℕ → ℕ → Pbus → Pbus
enqueue fuel job b = link_at (seek_prio fuel (b.jobs job).prio b none b.queue) job b

-- The guards of `v_pbus_submit`.
unfoldable pub can_submit : Job → Bool
can_submit job = is_some job.start && is_idle job.state

-- What the bus depends on from outside: `hook` runs the `done` at an address for a job and its
-- result, and `answer` is what a call of `start` returns, the calls counted.
module _ (hook : ℕ → ℕ → ℤ → Pbus → Pbus) (answer : ℕ → ℕ → ℤ) where
  unfoldable pub notify : Pointer → ℕ → ℤ → Pbus → Pbus
  notify none job rc b = b
  notify (some done) job rc b = hook done job rc b

  unfoldable pub finish : Pointer → ℤ → Pbus → Bool × Pbus
  unfolding notify
  finish none rc b = (false, b)
  finish (some job) rc b =
      let idle = modify job (λ j. record j { state = JobState.job_idle }) b in
      (true, notify (idle.jobs job).done job rc idle)

  -- `release`: whether a job was active, and the bus.
  unfoldable pub release : ℤ → Pbus → Bool × Pbus
  unfolding finish
  release rc b = finish b.active rc (record b { active = none })

  -- The job that `dispatch` hands the bus to.
  unfoldable pub waiting : Pbus → Pointer
  waiting b = if is_some b.active || b.locked then none else b.queue

  -- `start` is called for the job on the bus; `next` is the next round of the loop.
  unfoldable pub started : (Pbus → Pbus) → ℤ → Pbus → Pbus
  unfolding release
  started next (pos n) b = b
  started next (negsuc n) b = next (release (negsuc n) b).1

  unfoldable pub begin : (Pbus → Pbus) → Pointer → ℕ → Pbus → Pbus
  unfolding started
  begin next (some sem) job b = record b { locked = true; permits = update b.permits sem 1 }
  begin next none job b =
      let called = record b { active = some job; calls = suc b.calls } in
      started next (answer b.calls job) called

  -- A round of `dispatch`.
  unfoldable pub round : (Pbus → Pbus) → Pointer → Pbus → Pbus
  unfolding begin
  round next none b = b
  round next (some job) b =
      let first = record b { queue = (b.jobs job).next } in
      begin next (b.jobs job).grant job
        (modify job (λ j. record j { state = JobState.job_active }) first)

  -- `dispatch`
  unfoldable pub dispatch : ℕ → Pbus → Pbus
  unfolding round waiting
  dispatch zero b = b
  dispatch (suc fuel) b = round (dispatch fuel) (waiting b) b

  -- `v_pbus_submit`, for a bus and a job that are not NULL.
  unfoldable pub v_pbus_submit : ℕ → ℕ → Pbus → Bool × Pbus
  unfolding dispatch
  v_pbus_submit fuel job b =
      let queued = enqueue fuel job (modify job (λ j. record j { grant = none }) b) in
      if can_submit (b.jobs job) then (true, dispatch fuel queued) else (false, b)

  -- `v_pbus_done_isr`
  unfoldable pub v_pbus_done_isr : ℕ → ℤ → Pbus → Pbus
  unfolding dispatch release
  v_pbus_done_isr fuel rc b = dispatch fuel (release rc b).1

  -- `v_pbus_abort_isr`, for a bus that is not NULL
  unfoldable pub v_pbus_abort_isr : ℕ → ℤ → Pbus → Bool × Pbus
  unfolding dispatch release
  v_pbus_abort_isr fuel rc b =
      if (release rc b).0 then (true, dispatch fuel (release rc b).1) else (false, (release rc b).1)
