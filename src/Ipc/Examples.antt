-- ===== src/Ipc/Examples.antt =====
-- The theorems on semaphores and mutexes at small examples.
use vaios.Base.{update, ℕ, ◌≡◌, refl, [], ◌∷◌, none, some, arith}
use vaios.Chain.{Distinct}
use vaios.Sched.Tcb.{Tcb, TaskStatus, Kernel}
use vaios.Ipc.WaitQueue.{Sema}
use vaios.Ipc.WaitQueue.Laws.{Queued}
use vaios.Ipc.Semaphore.{Ipc, Outcome, semaphore_take, semaphore_give}
use vaios.Ipc.Semaphore.Laws.{
  Given, Parked, Within, semaphore_give-Given, semaphore_take-Parked, semaphore-Within,
}
use vaios.Ipc.Timeout.{time_out}
use vaios.Ipc.Timeout.Laws.{TimedOut, time_out-TimedOut}
use vaios.Ipc.Mutex.{Locks, mutex_unlock}
use vaios.Ipc.Mutex.Laws.{Handed, mutex_unlock-Handed}

-- Task `a` has priority `a`; task 1 waits on what stands at 50, task 2 runs.
abbrev task : ℕ → Tcb
task a = record {
  task_id = a;
  parent_id = 0;
  delay_ticks = 0;
  ticks_run = 0;
  priority = a;
  base_priority = a;
  status = TaskStatus.task_running;
  mem_block = 0;
  stack_size = 0;
  wait_sem = none;
  wait_mutex = none;
  held_mutexes = none;
  next = none;
  prev = none;
  wait_next = none;
}

abbrev kernel : Kernel
kernel = record {
  tcbs = task;
  ready_lists = λ p. none;
  ready_tails = λ p. none;
  blocked_list = some 1;
  delayed_list = none;
  current_task = some 2;
  idle_task = some 0;
  ready_bitmap = 0;
  context_switch_count = 0;
  last_context_switch_tick = 0;
  task_count = 3;
  terminated_count = 0;
  ticks = 4294967290;
}

abbrev waited : Sema
waited = record { wait_q = some 1; tail = some 1; count = 0; limit = 1 }

abbrev ipc : Ipc
ipc = record { kernel = kernel; semas = λ s. waited }

ipc-Queued : Queued (ipc.semas 50) ipc.kernel.tcbs (1 ∷ [])
ipc-Queued = record { waits = (refl, refl); tail = refl }

semaphore_give-Given_example : Given 50 1 0 [] (semaphore_give 50 ipc)
semaphore_give-Given_example = semaphore_give-Given 50 ipc 1 [] ipc-Queued (tt, tt)

semaphore_take-Parked_example : Parked 50 2 6 (1 ∷ []) ipc (semaphore_take 1 50 6 2 ipc)
semaphore_take-Parked_example =
    semaphore_take-Parked 1 50 6 2 ipc (1 ∷ []) ipc-Queued (tt, tt) ((λ e. omega (arith, e)), tt)
      (omega arith) ((λ y i. absurd i), tt) refl (omega arith)

semaphore-Within_example : Within (semaphore_take 1 50 6 2 ipc).1 × Within (semaphore_give 50 ipc).2
semaphore-Within_example = semaphore-Within 1 50 6 2 ipc (λ s. (omega arith, omega arith))

-- Task 2 owns the mutex at 50.
abbrev locks : Locks
locks = record {
  ipc = ipc;
  mutexes = λ m. record { owner = some 2; recursion_count = 1; next_held = none };
}

mutex_unlock-Handed_example :
    let out = mutex_unlock 1 50 (some 2) locks in (out.0 ≡ Outcome.va_pass) × Handed 50 1 0 [] out.1
mutex_unlock-Handed_example = mutex_unlock-Handed 1 50 2 1 [] locks refl ipc-Queued (tt, tt)

-- Tasks 3, 1 and 0 wait on the semaphore at 50.
abbrev three : ℕ → Tcb
three =
    update
      (update (update task 3 (record (task 3) { wait_next = some 1 })) 1
        (record (task 1) { wait_next = some 0; wait_sem = some 50 }))
      0 (record (task 0) { wait_next = none })

abbrev crowd : Sema
crowd = record { wait_q = some 3; tail = some 0; count = 0; limit = 1 }

crowd-Queued : Queued crowd three (3 ∷ 1 ∷ 0 ∷ [])
crowd-Queued = record { waits = (refl, (refl, (refl, refl))); tail = refl }

crowd-Distinct : Distinct (3 ∷ 1 ∷ 0 ∷ [])
crowd-Distinct = (
  ((λ e. omega (arith, e)), ((λ e. omega (arith, e)), tt)),
  (((λ e. omega (arith, e)), tt), (tt, tt)),
)

abbrev crowded : Ipc
crowded = record { kernel = record kernel { tcbs = three }; semas = λ s. crowd }

time_out-TimedOut_example : TimedOut 50 1 (3 ∷ 0 ∷ []) (time_out 3 50 1 crowded)
time_out-TimedOut_example =
    time_out-TimedOut 3 50 crowded (3 ∷ []) 1 (0 ∷ []) crowd-Queued crowd-Distinct (omega arith)
      refl
