-- ===== src/Sched/Examples.antt =====
-- The scheduler of kernel/task.c on concrete ready lists.
use vaios.Base.{
  inl, inr, ◌+◌, ◌&&◌, leb, ℕ, ◌≡◌, ◌≤◌, refl, Bool, true, ◌⊎◌, List, [], ◌∷◌, ◌++◌, none, some,
  update, update_cases, if◌then◌else◌, ◌==◌, arith,
}
use vaios.Sched.Tcb.{Kernel, Tcb, TaskStatus, max_priority}
use vaios.Chain.{In, NotIn}
use vaios.Sched.Bitmap.{test_bit, highest_ready_prio, highest_ready_prio-Highest}
use vaios.Sched.Ready.{rl_append, rl_remove}
use vaios.Sched.Ready.View.{Holds}
use vaios.Sched.Ready.Append.{rl_append-Holds}
use vaios.Sched.Ready.Remove.{rl_remove-Holds}
use vaios.Sched.Switch.{get_next_task}
use vaios.Sched.Switch.Frame.{Holds-counters}
use vaios.Sched.Switch.Choice.{Dispatched}
use vaios.Sched.Switch.Rotate.{Idled, get_next_task-rotates, get_next_task-leaves}
use vaios.Sched.Priority.{task_change_priority, task_change_priority-Holds}
use vaios.Sched.UserMemory.{v_access_ok, v_access_ok_lem}
use vaios.Sched.TaskList.{Store}
use vaios.Sched.Delayed.{add_to_delayed_list}
use vaios.Sched.Delayed.Order.{NoLater}
use vaios.Sched.Delayed.Laws.{Inserted, add_to_delayed_list-Inserted}
use vaios.Sched.TaskList.Laws.{Listed}

-- Task 5 runs and task 9 is the idle task; the others are blocked. All have priority 3.
abbrev task_at : ℕ → Tcb
task_at y = record {
  task_id = y;
  parent_id = 0;
  delay_ticks = 0;
  ticks_run = 0;
  priority = 3;
  base_priority = 3;
  status = if y == 5 then TaskStatus.task_running else TaskStatus.task_blocked;
  mem_block = 4096;
  stack_size = 1024;
  wait_sem = none;
  wait_mutex = none;
  held_mutexes = none;
  next = none;
  prev = none;
  wait_next = none;
}

abbrev start : Kernel
start = record {
  tcbs = task_at;
  ready_lists = λ p. none;
  ready_tails = λ p. none;
  blocked_list = none;
  delayed_list = none;
  current_task = some 5;
  idle_task = some 9;
  ready_bitmap = 0;
  context_switch_count = 0;
  last_context_switch_tick = 0;
  task_count = 9;
  terminated_count = 0;
  ticks = 4;
}

no_bits : (p : ℕ) → p ≤ max_priority → test_bit 0 p ≡ Bool.false
unfolding highest_ready_prio
no_bits p le = highest_ready_prio-Highest 0 (omega arith) p (omega arith)

start-Holds : Holds start (λ p. [])
start-Holds = record {
  heads = λ p. refl;
  tails = λ p. refl;
  links = λ p. tt;
  distinct = λ p. tt;
  own = λ p x m. absurd m;
  ready = λ p x m. absurd m;
  levels = λ p x m. absurd m;
  bits = no_bits;
  small = omega arith;
}

-- Tasks 1 and 2 are made ready.
abbrev one : Kernel
one = rl_append 1 start

abbrev two : Kernel
two = rl_append 2 one

abbrev queue_one : ℕ → List ℕ
queue_one = update (λ p. []) 3 (1 ∷ [])

abbrev queue_two : ℕ → List ℕ
queue_two = update queue_one 3 (1 ∷ 2 ∷ [])

one-Holds : Holds one queue_one
one-Holds = rl_append-Holds 1 start-Holds (omega arith) (λ p. tt)

apart : (x : ℕ) (n : NotIn x (1 ∷ [])) (p : ℕ) → NotIn x (queue_one p)
apart x n = update_cases (λ p. []) 3 (1 ∷ []) (λ i xs. NotIn x xs) n (λ i ne. tt)

two-Holds : Holds two queue_two
unfolding rl_append
two-Holds = rl_append-Holds 2 one-Holds (omega arith) (apart 2 ((λ e. omega (arith, e)), tt))

apart_two : (x : ℕ) (n : NotIn x (1 ∷ 2 ∷ [])) (p : ℕ) → NotIn x (queue_two p)
apart_two x n =
    update_cases queue_one 3 (1 ∷ 2 ∷ []) (λ i xs. NotIn x xs) n (λ i ne. apart x (n.0, tt) i)

rl_remove-Holds_example : Holds (rl_remove 2 two) (update queue_two 3 ((1 ∷ []) ++ []))
unfolding rl_append
rl_remove-Holds_example = rl_remove-Holds 2 two-Holds (omega arith) (1 ∷ []) [] refl

get_next_task-rotates_example :
    Dispatched (update queue_two 3 (queue_two 3 ++ (5 ∷ []))) (get_next_task (λ y. true) two)
unfolding rl_append
get_next_task-rotates_example =
    get_next_task-rotates (λ y. true) 5 two-Holds (λ p y m. refl) refl refl (omega arith)
      (apart_two 5 ((λ e. omega (arith, e)), ((λ e. omega (arith, e)), tt))) refl

-- The same lists, with the blocked task 7 as the current one.
abbrev parked : Kernel
parked = record two { current_task = some 7 }

parked-Holds : Holds parked queue_two
parked-Holds = Holds-counters parked two-Holds refl refl refl refl

get_next_task-leaves_example :
    Dispatched queue_two (get_next_task (λ y. true) parked)
    ⊎ Idled 9 queue_two (get_next_task (λ y. true) parked)
unfolding rl_append
get_next_task-leaves_example =
    get_next_task-leaves (λ y. true) 7 parked-Holds (λ p y m. refl) refl 9 refl (λ e. ground arith)

task_change_priority-Holds_example :
    Holds
      (task_change_priority (some 1) 6 two)
      (update (update queue_two 3 (2 ∷ [])) 6 (update queue_two 3 (2 ∷ []) 6 ++ (1 ∷ [])))
unfolding rl_append
task_change_priority-Holds_example =
    task_change_priority-Holds 1 two-Holds [] (2 ∷ []) refl 6 (omega arith)

v_access_ok_lem_example :
    v_access_ok (λ a w. none) 32 start 4200 100 true
    ≡ (leb (4096 + 32) 4200 && leb (4200 + 100) (4096 + 1024))
v_access_ok_lem_example =
    v_access_ok_lem (λ a w. none) 32 start 5 refl (omega arith) (omega arith) (omega arith) 4200 100
      true (omega arith) refl

-- Tasks 1 and 2 on the list, due at ticks 5 and 9, and task 3 to be put on it, due at tick 7.
abbrev pair : Store
pair =
    let one = update task_at 1 (record (task_at 1) { next = some 2; delay_ticks = 5 }) in
    let two = update one 2 (record (task_at 2) { prev = some 1; delay_ticks = 9 }) in
    update two 3 (record (task_at 3) { delay_ticks = 7 })

pair-Listed : Listed (1 ∷ 2 ∷ []) (some 1, pair)
pair-Listed = record {
  head = refl;
  links = (refl, refl, (refl, refl, tt));
  distinct = (((λ e. omega (arith, e)), tt), (tt, tt));
}

pair-due : (y : ℕ) → In y (2 ∷ []) → NoLater (λ x. (pair x).delay_ticks) 1 y
pair-due y (inl e) = rw e (omega arith)
pair-due y (inr i) = absurd i

add_to_delayed_list-Inserted_example :
    Inserted 3 (1 ∷ 2 ∷ []) pair (add_to_delayed_list 4 (some 3) (some 1) pair)
add_to_delayed_list-Inserted_example =
    add_to_delayed_list-Inserted 4 3 (1 ∷ 2 ∷ []) (some 1) pair pair-Listed
      ((λ e. omega (arith, e)), ((λ e. omega (arith, e)), tt)) (omega arith)
      (pair-due, ((λ y i. absurd i), tt))
