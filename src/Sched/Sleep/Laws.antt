-- ===== src/Sched/Sleep/Laws.antt =====
-- `task_delay` of kernel/task.c puts the current task in its place on the delayed list.
use vaios.Base.{ℕ, ◌≡◌, ◌≤◌, ◌<◌, subst, false, none, some, arith, ne→eqb, List, length, update}
use vaios.Machine.{add32}
use vaios.Sched.Tcb.{Kernel, TaskStatus}
use vaios.Sched.Links.{SameLinks, Linked-frame}
use vaios.Chain.{In, In-ne, NotIn}
use vaios.Sched.TaskList.{Store, set}
use vaios.Sched.TaskList.Laws.{Listed}
use vaios.Sched.Delayed.{add_to_delayed_list}
use vaios.Sched.Delayed.Order.{insert, insert-ext}
use vaios.Sched.Delayed.Laws.{add_to_delayed_list-Listed}
use vaios.Sched.Sleep.{is_idle, sleep_until, task_delay}

module _ (fuel c : ℕ) (xs : List ℕ) (k : Kernel) (h : Listed xs (k.delayed_list, k.tcbs))
    (out : NotIn c xs) (enough : length xs ≤ fuel) where
  -- The wake-up ticks once the task sleeps until `wake`.
  abbrev due : ℕ → ℕ → ℕ
  due wake = update (λ y. (k.tcbs y).delay_ticks) c wake

  sleep_until-Listed :
      (wake : ℕ)
      → Listed
          (insert (due wake) c xs)
          ((sleep_until fuel c wake k).delayed_list, (sleep_until fuel c wake k).tcbs)
  unfolding sleep_until
  sleep_until-Listed wake =
      subst (λ ys. Listed ys (add_to_delayed_list fuel (some c) k.delayed_list marked)) same_due
        (add_to_delayed_list-Listed fuel c xs k.delayed_list marked
          (record {
            head = h.head;
            links = Linked-frame k.tcbs marked none xs kept h.links;
            distinct = h.distinct;
          })
          out enough)
    where
      marked : Store
      marked = set c (λ d. record d { delay_ticks = wake; status = TaskStatus.task_delayed }) k.tcbs

      kept : (y : ℕ) → In y xs → SameLinks (marked y) (k.tcbs y)
      kept y m = let ne = ne→eqb c y (In-ne c y xs out m) in (rw ne, rw ne)

      same_due : insert (λ y. (marked y).delay_ticks) c xs ≡ insert (due wake) c xs
      same_due = insert-ext (λ y. (marked y).delay_ticks) (due wake) c xs (λ y. ground arith)

  -- A current task that is not the idle task and delays itself by `ticks`, not 0, stands on the
  -- delayed list behind those that are due no later than in `ticks` from now, when it was not on
  -- it before, with fuel for every task on the list.
  pub task_delay-Listed :
      (ticks : ℕ)
      → k.current_task ≡ some c
      → is_idle c k.idle_task ≡ false
      → 0 < ticks
      → (k' : Kernel) × (task_delay fuel ticks k ≡ some k')
        × Listed (insert (due (add32 k.ticks ticks)) c xs) (k'.delayed_list, k'.tcbs)
  unfolding task_delay
  task_delay-Listed ticks here awake any = (
    sleep_until fuel c (add32 k.ticks ticks) k,
    rw (here, awake, ne→eqb ticks 0 (omega arith)),
    sleep_until-Listed (add32 k.ticks ticks),
  )
