-- ===== src/Ipc/Semaphore/Laws.antt =====
-- Taking and giving a semaphore of kernel/ipc.c on the sequence of the waiting tasks.
use vaios.Base.{
  ℕ, ◌≡◌, ◌≤◌, ◌<◌, refl, sym, subst, fun_ext, ◌∙◌, inl, inr, Bool, List, ◌∷◌, length, none, some,
  update, arith, ltb, leb, ltb→lt, leb→gt, ◌==◌, if◌then◌else◌, eqb_refl, ne→eqb, Bool-cases,
  update_cases,
}
use vaios.Machine.{word_mod, add32, sub32}
use vaios.Chain.{NotIn, Distinct}
use vaios.Sched.Tcb.{Tcb, TaskStatus, Pointer, Kernel, modify, modify_kept}
use vaios.Sched.TaskList.{Store}
use vaios.Sched.Ready.Append.{rl_append_ready}
use vaios.Ipc.WaitQueue.{Sema, wait_q_enqueue, wait_q_dequeue}
use vaios.Chain.Between.{Sorted, Between}
use vaios.Ipc.WaitQueue.Chained.{AsUrgent, queue_in-Between, Waits-frame, queue_in, prios}
use vaios.Ipc.WaitQueue.Laws.{
  Queued, wait_q_enqueue-Queued, wait_q_dequeue-Queued, SameCounts, wait_q_dequeue-SameCounts,
  wait_q_enqueue-SameCounts, wait_q_enqueue_kept,
}
use vaios.Ipc.Semaphore.{
  Ipc, Outcome, wait_forever, v_wake_deadline, add_to_blocked_list, remove_from_blocked_list, park,
  semaphore_take, hand_over, give_to, semaphore_give,
}
use vaios.Ipc.Semaphore.Kept.{hand_over_kept, add_to_blocked_list_kept}

pub Queued-frame :
    (sem : Sema) (t t' : Store) (q : List ℕ)
    → ((y : ℕ) → (t' y).wait_next ≡ (t y).wait_next)
    → Queued sem t q
    → Queued sem t' q
Queued-frame sem t t' q same d = record {
  waits = Waits-frame t t' sem.wait_q q (λ y i. same y) d.waits;
  tail = d.tail;
}

pub hand_over-Queued :
    (sem : Sema) (task : ℕ) (k : Kernel) (q : List ℕ)
    → Queued sem k.tcbs q
    → Queued sem (hand_over task k).tcbs q
hand_over-Queued sem task k q = Queued-frame sem k.tcbs (hand_over task k).tcbs q (λ y.
    hand_over_kept (λ c. c.wait_next) (λ c n p. refl) (λ c s. refl) task k y
    ∙ modify_kept (λ c. c.wait_next) task (λ c. record c { wait_sem = none }) k (λ c. refl) y)

hand_over_granted : (task : ℕ) (k : Kernel) → ((hand_over task k).tcbs task).wait_sem ≡ none
hand_over_granted task k =
    hand_over_kept (λ c. c.wait_sem) (λ c n p. refl) (λ c s. refl) task k task ∙ rw (eqb_refl task)

pub hand_over_ready :
    (task : ℕ) (k : Kernel) → ((hand_over task k).tcbs task).status ≡ TaskStatus.task_ready
unfolding hand_over
hand_over_ready task k = rl_append_ready task (
    modify task (λ c. record c { status = TaskStatus.task_ready })
      (remove_from_blocked_list task (modify task (λ c. record c { wait_sem = none }) k)))

-- What giving does when `x` is the first to wait, before the tasks `q`.
pub record Given (s x count : ℕ) (q : List ℕ) (out : Outcome × Bool × Ipc) : Type 0 where
  pub passed : out.0 ≡ Outcome.va_pass
  pub others : Queued (out.2.semas s) out.2.kernel.tcbs q
  pub runnable : (out.2.kernel.tcbs x).status ≡ TaskStatus.task_ready
  pub granted : (out.2.kernel.tcbs x).wait_sem ≡ none
  pub kept : (out.2.semas s).count ≡ count

give_to-Given :
    (s x : ℕ) (q : List ℕ) (sem : Sema) (t : Store) (i : Ipc) (count : ℕ)
    → Queued sem t q
    → sem.count ≡ count
    → Given s x count q (give_to s (some x) sem t i)
give_to-Given s x q sem t i count d same =
    let k : Kernel = record i.kernel { tcbs = t } in
    record {
      passed = refl;
      others = rw (eqb_refl s) (hand_over-Queued sem x k q d);
      runnable = hand_over_ready x k;
      granted = hand_over_granted x k;
      kept = rw (eqb_refl s) same;
    }

-- When tasks wait on a semaphore, none twice, the first of them gets what is given: it is READY and
-- no longer waits, the others wait on in their order, and the count stays.
pub semaphore_give-Given :
    (s : ℕ) (i : Ipc) (x : ℕ) (q : List ℕ)
    → Queued (i.semas s) i.kernel.tcbs (x ∷ q)
    → Distinct (x ∷ q)
    → Given s x (i.semas s).count q (semaphore_give s i)
unfolding semaphore_give
semaphore_give-Given s i x q d dis =
    let (e, rest) = wait_q_dequeue-Queued (i.semas s) i.kernel.tcbs (x ∷ q) d dis in
    let out = wait_q_dequeue (i.semas s) i.kernel.tcbs in
    subst (λ p. Given s x (i.semas s).count q (give_to s p out.1 out.2 i)) (sym e)
      (give_to-Given s x q out.1 out.2 i (i.semas s).count rest
        (wait_q_dequeue-SameCounts (i.semas s) i.kernel.tcbs).0)

abbrev pub Within : Ipc → Type 0
Within i = (s : ℕ) → ((i.semas s).count ≤ (i.semas s).limit) × ((i.semas s).limit < word_mod)

update-Within :
    (i : Ipc) (s : ℕ) (sem : Sema) (k : Kernel)
    → Within i
    → sem.count ≤ sem.limit
    → sem.limit ≡ (i.semas s).limit
    → Within (record { kernel = k; semas = update i.semas s sem })
update-Within i s sem k w le same y =
    update_cases i.semas s sem (λ j c. (c.count ≤ c.limit) × (c.limit < word_mod))
      (le, subst (λ n. n < word_mod) (sym same) (w s).1) (λ j ne. w j) y

abbrev pub deadline : ℕ → Ipc → ℕ
deadline ticks_to_wait i =
    if ticks_to_wait == wait_forever then 0 else v_wake_deadline i.kernel.ticks ticks_to_wait

-- However a semaphore is taken, no count exceeds its limit.
pub semaphore_take-Within :
    (fuel s ticks_to_wait current : ℕ) (i : Ipc)
    → Within i
    → Within (semaphore_take fuel s ticks_to_wait current i).1
unfolding semaphore_take park
semaphore_take-Within fuel s ticks_to_wait current i w =
    elim (Bool-cases (ltb 0 (i.semas s).count)) [
      | inl e ↦
          let (le, small) = w s in
          rw e (
            update-Within i s (record (i.semas s) { count = sub32 (i.semas s).count 1 }) i.kernel w
              (omega (arith, ltb→lt 0 (i.semas s).count e, le, small)) refl)
      | inr e ↦ elim (Bool-cases (ticks_to_wait == 0)) [
        | inl z ↦ rw (e, z) w
        | inr z ↦
            let marked =
              modify current
                (λ c. record c {
                  status = TaskStatus.task_blocked;
                  delay_ticks = deadline ticks_to_wait i;
                  wait_sem = some s;
                })
                i.kernel in
            let same = wait_q_enqueue-SameCounts fuel (i.semas s) current marked.tcbs in
            rw (e, z)
              (update-Within i s (wait_q_enqueue fuel (i.semas s) current marked.tcbs).0 i.kernel w
                (omega (arith, same.0, same.1, (w s).0)) same.1)
      ]
    ]

give_to-Within :
    (s : ℕ) (p : Pointer) (sem : Sema) (t : Store) (i : Ipc)
    → Within i
    → SameCounts sem (i.semas s)
    → Within (give_to s p sem t i).2
give_to-Within s (some x) sem t i w same =
    update-Within i s sem i.kernel w (omega (arith, same.0, same.1, (w s).0)) same.1
give_to-Within s none sem t i w same = elim (Bool-cases (leb sem.limit sem.count)) [
  | inl e ↦ rw e w
  | inr e ↦ rw e (
      update-Within i s (record sem { count = add32 sem.count 1 }) i.kernel w
        (omega (arith, leb→gt sem.limit sem.count e, same.1, (w s).1)) same.1)
]

-- When no count exceeds its limit, which fits a word, none does after a semaphore is taken in
-- whatever way, or given.
pub semaphore-Within :
    (fuel s ticks_to_wait current : ℕ) (i : Ipc)
    → Within i
    → Within (semaphore_take fuel s ticks_to_wait current i).1 × Within (semaphore_give s i).2
unfolding semaphore_give
semaphore-Within fuel s ticks_to_wait current i w =
    let out = wait_q_dequeue (i.semas s) i.kernel.tcbs in
    (
      semaphore_take-Within fuel s ticks_to_wait current i w,
      give_to-Within s out.0 out.1 out.2 i w (wait_q_dequeue-SameCounts (i.semas s) i.kernel.tcbs),
    )

-- What parking does to a queue `q` of waiting tasks, sorted by priority: it becomes `q'`.
pub record Parked (s current ticks_to_wait : ℕ) (q : List ℕ) (i : Ipc) (out : Outcome × Ipc)
    : Type 0 where
  pub outcome : out.0 ≡ Outcome.parked
  pub q' : List ℕ
  pub queued : Queued (out.1.semas s) out.1.kernel.tcbs q'
  pub between : Between (AsUrgent (prios i.kernel.tcbs)) current q q'
  pub waiting : (out.1.kernel.tcbs current).wait_sem ≡ some s
  pub due : (out.1.kernel.tcbs current).delay_ticks ≡ deadline ticks_to_wait i
  pub kept : (out.1.semas s).count ≡ (i.semas s).count

park-Parked :
    (fuel s ticks_to_wait current : ℕ) (i : Ipc) (q : List ℕ)
    → Queued (i.semas s) i.kernel.tcbs q
    → Distinct q
    → NotIn current q
    → length q ≤ fuel
    → Sorted (AsUrgent (prios i.kernel.tcbs)) q
    → Parked s current ticks_to_wait q i (Outcome.parked, park fuel s ticks_to_wait current i)
unfolding park
park-Parked fuel s ticks_to_wait current i q d dis n le sorted =
    let k = i.kernel in
    let change : Tcb → Tcb = λ c. record c {
      status = TaskStatus.task_blocked;
      delay_ticks = deadline ticks_to_wait i;
      wait_sem = some s;
    } in
    let marked = modify current change k in
    let out = wait_q_enqueue fuel (i.semas s) current marked.tcbs in
    let mid : Kernel = record marked { tcbs = out.1 } in
    let start =
      Queued-frame (i.semas s) k.tcbs marked.tcbs q
        (modify_kept (λ c. c.wait_next) current change k (λ c. refl)) d in
    let queued = wait_q_enqueue-Queued fuel (i.semas s) marked.tcbs current q start dis n le in
    let same : prios marked.tcbs ≡ prios k.tcbs =
      fun_ext (modify_kept (λ c. c.priority) current change k (λ c. refl)) in
    record {
      outcome = refl;
      q' = queue_in (prios k.tcbs) current q;
      between = queue_in-Between (prios k.tcbs) current q sorted;
      queued = rw (eqb_refl s) (
          Queued-frame out.0 out.1 (add_to_blocked_list fuel current mid).tcbs
            (queue_in (prios k.tcbs) current q)
            (add_to_blocked_list_kept (λ c. c.wait_next) (λ c a b. refl) (λ c a. refl) fuel current
              mid)
            (subst (λ f. Queued out.0 out.1 (queue_in f current q)) same queued));
      waiting =
          add_to_blocked_list_kept (λ c. c.wait_sem) (λ c a b. refl) (λ c a. refl) fuel current mid
            current
          ∙ wait_q_enqueue_kept (λ c. c.wait_sem) (λ c a. refl) fuel (i.semas s) current marked.tcbs
              current
          ∙ rw (eqb_refl current);
      due =
          add_to_blocked_list_kept (λ c. c.delay_ticks) (λ c a b. refl) (λ c a. refl) fuel current
            mid current
          ∙ wait_q_enqueue_kept (λ c. c.delay_ticks) (λ c a. refl) fuel (i.semas s) current
              marked.tcbs current
          ∙ rw (eqb_refl current);
      kept = rw (eqb_refl s) (wait_q_enqueue-SameCounts fuel (i.semas s) current marked.tcbs).0;
    }

-- With a round of the walk for every waiting task, on a wait queue that is sorted by priority, a
-- task that does not wait yet, finds the count at 0 and may wait goes behind the waiting tasks that
-- are at least as urgent and before the others, which keep their order, and the queue stays sorted;
-- the deadline of the task is the one of its timeout, and the count stays.
pub semaphore_take-Parked :
    (fuel s ticks_to_wait current : ℕ) (i : Ipc) (q : List ℕ)
    → Queued (i.semas s) i.kernel.tcbs q
    → Distinct q
    → NotIn current q
    → length q ≤ fuel
    → Sorted (AsUrgent (prios i.kernel.tcbs)) q
    → (i.semas s).count ≡ 0
    → 0 < ticks_to_wait
    → Parked s current ticks_to_wait q i (semaphore_take fuel s ticks_to_wait current i)
unfolding semaphore_take
semaphore_take-Parked fuel s ticks_to_wait current i q d dis n le sorted empty pos =
    rw (empty, ne→eqb ticks_to_wait 0 (omega arith))
      (park-Parked fuel s ticks_to_wait current i q d dis n le sorted)
