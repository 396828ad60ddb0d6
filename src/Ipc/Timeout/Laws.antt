-- ===== src/Ipc/Timeout/Laws.antt =====
-- The end of a wait whose time is over, in the tick handler of kernel/task.c.
use vaios.Base.{
  ℕ, zero, suc, ◌≡◌, ◌<◌, refl, sym, ◌∙◌, inl, inr, List, [], ◌∷◌, ◌++◌, length, none, some, arith,
  eqb_refl, ne→eqb, Bool-cases, update_cases,
}
use vaios.Chain.{In, NotIn, Distinct, Distinct-gone, last_or, last_or-some}
use vaios.Sched.Tcb.{Tcb, TaskStatus, Pointer, Kernel, modify, modify_kept}
use vaios.Sched.TaskList.{Store}
use vaios.Sched.Ready.{rl_append}
use vaios.Sched.Ready.Append.{rl_append_kept, rl_append_ready}
use vaios.Ipc.WaitQueue.{Sema, is_at, set_wait_next}
use vaios.Ipc.WaitQueue.Chained.{Waits, Waits-frame}
use vaios.Ipc.WaitQueue.Laws.{Queued}
use vaios.Ipc.WaitQueue.Remove.{cut, cut-Waits, tail-unlinked, NotIn-before}
use vaios.Ipc.Semaphore.{Ipc, remove_from_blocked_list}
use vaios.Ipc.Semaphore.Kept.{remove_from_blocked_list_kept}
use vaios.Ipc.Semaphore.Laws.{Queued-frame}
use vaios.Ipc.Timeout.{waiter_before, unlink_timed_out, leave_queue, time_out}

before-finds :
    (n x y : ℕ) (ys zs : List ℕ) (t : Store)
    → Waits t (t y).wait_next (ys ++ (x ∷ zs))
    → NotIn x ys
    → length ys < n
    → waiter_before n x (some y) t ≡ last_or (some y) ys
unfolding waiter_before
before-finds zero x y ys zs t h out lt = absurd (omega arith)
before-finds (suc n) x y [] zs t h out lt = rw (h.0, eqb_refl x)
before-finds (suc n) x y (z ∷ ys) zs t h out lt =
    rw (h.0, ne→eqb z x (λ e. out.0 (sym e))) (before-finds n x z ys zs t h.1 out.1 (omega arith))

leave-Queued :
    (fuel : ℕ) (sem : Sema) (t : Store) (ys : List ℕ) (x : ℕ) (zs : List ℕ)
    → Queued sem t (ys ++ (x ∷ zs))
    → Distinct (ys ++ (x ∷ zs))
    → length ys < fuel
    → let out = leave_queue fuel x sem t in Queued out.0 out.1 (ys ++ zs)
unfolding leave_queue
leave-Queued fuel sem t [] x [] d dis lt =
    rw (d.waits.0, eqb_refl x) (record { waits = d.waits.1; tail = rw (d.waits.1) })
leave-Queued fuel sem t [] x (z ∷ zs) d dis lt =
    rw (d.waits.0, eqb_refl x) (record { waits = d.waits.1; tail = rw (d.waits.1.0) d.tail })
leave-Queued fuel sem t (y ∷ ys) x zs d dis lt =
    let (b, e) = last_or-some y ys in
    let out = NotIn-before (y ∷ ys) x zs dis in
    let found = before-finds fuel x y ys zs t d.waits.1 out.1 (omega arith) ∙ e in
    let u = set_wait_next b (t x).wait_next t in
    let kept : (v : ℕ) → In v (y ∷ (ys ++ zs)) → (u v).wait_next ≡ (cut t x b v).wait_next =
      λ v i. rw (ne→eqb x v (λ q. Distinct-gone (y ∷ ys) x zs v dis i (sym q))) in
    rw (d.waits.0, ne→eqb y x (λ q. out.0 (sym q)), found)
      (record {
        waits =
            Waits-frame (cut t x b) u (some y) (y ∷ (ys ++ zs)) kept
              (refl, cut-Waits t x b y ys zs d.waits.1 dis e);
        tail = tail-unlinked x b y ys zs sem.tail dis e d.tail;
      })

unlinked_kept :
    (sem : Sema) (t : Store) (x y : ℕ) (before : Pointer)
    → ((unlink_timed_out x before sem t).1 y).wait_sem ≡ (t y).wait_sem
unlinked_kept sem t x y none = refl
unlinked_kept sem t x y (some b) =
    update_cases t b (record (t b) { wait_next = (t x).wait_next })
      (λ j c. c.wait_sem ≡ (t j).wait_sem) refl (λ j ne. refl) y

leave_kept :
    (fuel : ℕ) (sem : Sema) (t : Store) (x y : ℕ)
    → ((leave_queue fuel x sem t).1 y).wait_sem ≡ (t y).wait_sem
unfolding leave_queue
leave_kept fuel sem t x y = elim (Bool-cases (is_at x sem.wait_q)) [
  | inl e ↦ rw e
  | inr e ↦ rw e (unlinked_kept sem t x y (waiter_before fuel x sem.wait_q t))
]

-- Between leaving the queue and the end, only these fields are written.
ended : ℕ → Kernel → Kernel
ended x k =
    let off = remove_from_blocked_list x k in
    let woken = modify x (λ c. record c { delay_ticks = 0; status = TaskStatus.task_ready }) off in
    modify x (λ c. record c { wait_mutex = none }) (rl_append x woken)

ended_kept :
    {A : Type 0} (field : Tcb → A)
    → ((c : Tcb) (n p : Pointer) → field (record c { next = n; prev = p }) ≡ field c)
    → ((c : Tcb) (s : TaskStatus) → field (record c { status = s }) ≡ field c)
    → ((c : Tcb) → field (record c { delay_ticks = 0; status = TaskStatus.task_ready }) ≡ field c)
    → ((c : Tcb) → field (record c { wait_mutex = none }) ≡ field c)
    → (x : ℕ) (k : Kernel) (y : ℕ) → field ((ended x k).tcbs y) ≡ field (k.tcbs y)
unfolding ended
ended_kept field free status_free delay_free mutex_free x k y =
    let off = remove_from_blocked_list x k in
    let woken = modify x (λ c. record c { delay_ticks = 0; status = TaskStatus.task_ready }) off in
    modify_kept field x (λ c. record c { wait_mutex = none }) (rl_append x woken) mutex_free y
    ∙ rl_append_kept field free status_free x woken y
    ∙ modify_kept field x (λ c. record c { delay_ticks = 0; status = TaskStatus.task_ready }) off
        delay_free y
    ∙ remove_from_blocked_list_kept field free x k y

ended_ready : (x : ℕ) (k : Kernel) → ((ended x k).tcbs x).status ≡ TaskStatus.task_ready
unfolding ended
ended_ready x k =
    let woken =
      modify x (λ c. record c { delay_ticks = 0; status = TaskStatus.task_ready })
        (remove_from_blocked_list x k) in
    modify_kept (λ c. c.status) x (λ c. record c { wait_mutex = none }) (rl_append x woken)
      (λ c. refl) x
    ∙ rl_append_ready x woken

-- What the end of the wait of `x` on `s` does to the others that wait.
pub record TimedOut (s x : ℕ) (q : List ℕ) (i : Ipc) : Type 0 where
  pub others : Queued (i.semas s) i.kernel.tcbs q
  pub runnable : (i.kernel.tcbs x).status ≡ TaskStatus.task_ready
  pub told : (i.kernel.tcbs x).wait_sem ≡ some s

-- When the wait of a task on a semaphore ends, with a round of the walk for every task before it
-- and one more, and no task twice in the queue, the task leaves the wait queue, from whatever
-- place, and is READY; the others wait on in their order, and its wait_sem stays set, by which the
-- resumed take fails.
pub time_out-TimedOut :
    (fuel s : ℕ) (i : Ipc) (ys : List ℕ) (x : ℕ) (zs : List ℕ)
    → Queued (i.semas s) i.kernel.tcbs (ys ++ (x ∷ zs))
    → Distinct (ys ++ (x ∷ zs))
    → length ys < fuel
    → (i.kernel.tcbs x).wait_sem ≡ some s
    → TimedOut s x (ys ++ zs) (time_out fuel s x i)
unfolding time_out ended
time_out-TimedOut fuel s i ys x zs d dis lt waiting =
    let out = leave_queue fuel x (i.semas s) i.kernel.tcbs in
    let k : Kernel = record i.kernel { tcbs = out.1 } in
    record {
      others = rw (eqb_refl s) (
          Queued-frame out.0 out.1 (ended x k).tcbs (ys ++ zs)
            (ended_kept (λ c. c.wait_next) (λ c n p. refl) (λ c a. refl) (λ c. refl) (λ c. refl) x
              k)
            (leave-Queued fuel (i.semas s) i.kernel.tcbs ys x zs d dis lt));
      runnable = ended_ready x k;
      told =
          ended_kept (λ c. c.wait_sem) (λ c n p. refl) (λ c a. refl) (λ c. refl) (λ c. refl) x k x
          ∙ leave_kept fuel (i.semas s) i.kernel.tcbs x x
          ∙ waiting;
    }
