-- ===== src/Ipc/Mutex/Laws.antt =====
-- Nested locking, and the hand-over at an unlock, of kernel/ipc.c.
use vaios.Base.{
  ℕ, zero, suc, ◌≡◌, ◌<◌, ◌+◌, refl, sym, ap, subst, fun_ext, ◌∙◌, inl, inr, true, List, ◌∷◌, none,
  some, update, arith, ltb, ◌==◌, if◌then◌else◌, eqb_refl, eqb→eq, ne→eqb, Bool-cases,
}
use vaios.Machine.{word_mod, add32, sub32}
use vaios.Chain.{Distinct}
use vaios.Sched.Tcb.{Tcb, TaskStatus, Pointer, Kernel, max_priority, modify, modify_kept}
use vaios.Sched.TaskList.{Store}
use vaios.Sched.Priority.{task_change_priority, is_ready}
use vaios.Sched.Ready.{rl_remove}
use vaios.Sched.Ready.Append.{rl_append_kept}
use vaios.Sched.Ready.Remove.{rl_remove_kept}
use vaios.Ipc.WaitQueue.{Sema, wait_q_dequeue}
use vaios.Ipc.WaitQueue.Laws.{Queued, wait_q_dequeue-Queued, wait_q_dequeue-SameCounts}
use vaios.Ipc.Semaphore.{Outcome, hand_over}
use vaios.Ipc.Semaphore.Laws.{Queued-frame, hand_over-Queued, hand_over_ready}
use vaios.Ipc.Mutex.{
  Rmutex, Locks, same, set_mutex, set_kernel, own, unlink_held, raised, pass_to, release_mutex,
  mutex_unlock, mutex_lock_recursive, mutex_unlock_recursive,
}

same_refl : (p : ℕ) → same (some p) (some p) ≡ true
same_refl p = eqb_refl p

update-back : (f : ℕ → Rmutex) (a : ℕ) (c d : Rmutex) → d ≡ f a → update (update f a c) a d ≡ f
update-back f a c d e =
    fun_ext
      λ y. elim (Bool-cases (a == y)) [ inl s ↦ rw s (e ∙ ap f (eqb→eq a y s)) | inr s ↦ rw s ]

-- A mutex that its owner locks once more and unlocks again is as it was, and still owned, when its
-- count is above 0 and does not wrap round.
mutex_unlock_recursive-lock :
    (fuel depth rm ticks_to_wait current : ℕ) (l : Locks)
    → (l.mutexes rm).owner ≡ some current
    → 0 < (l.mutexes rm).recursion_count
    → (l.mutexes rm).recursion_count + 1 < word_mod
    → (l' : Locks) × (mutex_lock_recursive fuel depth rm ticks_to_wait (some current) l
        ≡ some (Outcome.va_pass, l'))
      × (mutex_unlock_recursive fuel rm (some current) l' ≡ (Outcome.va_pass, l))
unfolding mutex_lock_recursive mutex_unlock_recursive
mutex_unlock_recursive-lock fuel depth rm ticks_to_wait current l mine held word =
    let n = (l.mutexes rm).recursion_count in
    let more = set_mutex rm (λ m. record m { recursion_count = add32 m.recursion_count 1 }) l in
    let back : sub32 (add32 n 1) 1 ≡ n = omega (arith, held, word) in
    (
      more,
      rw (mine, same_refl current),
      rw (eqb_refl rm, mine, same_refl current, back, ne→eqb n 0 (omega (arith, held)))
          (ap {B = Outcome × Locks} (λ f. (Outcome.va_pass, record { ipc = l.ipc; mutexes = f }))
            (update-back l.mutexes rm
              (record {
                owner = some current;
                recursion_count = add32 n 1;
                next_held = (l.mutexes rm).next_held;
              })
              (record {
                owner = some current;
                recursion_count = n;
                next_held = (l.mutexes rm).next_held;
              })
              (ap {B = Rmutex}
                (λ o. record {
                  owner = o;
                  recursion_count = n;
                  next_held = (l.mutexes rm).next_held;
                })
                (sym mine)))),
    )

-- A field that the walk over the held mutexes does not write.
module _ {A : Type 0} (field : Tcb → A)
    (held_free : (c : Tcb) (p : Pointer) → field (record c { held_mutexes = p }) ≡ field c) where
  unlink_held_kept :
      (n rm current : ℕ) (from m : Pointer) (l : Locks) (y : ℕ)
      → field ((unlink_held n rm current from m l).ipc.kernel.tcbs y) ≡ field (l.ipc.kernel.tcbs y)
  unfolding unlink_held
  unlink_held_kept zero rm current from m l y = refl
  unlink_held_kept (suc n) rm current from none l y = refl
  unlink_held_kept (suc n) rm current none (some m) l y = elim (Bool-cases (m == rm)) [
    | inl e ↦
        let rest = (l.mutexes rm).next_held in
        rw e (
          modify_kept field current (λ c. record c { held_mutexes = rest }) l.ipc.kernel
            (λ c. held_free c rest) y)
    | inr e ↦ rw e (unlink_held_kept n rm current (some m) (l.mutexes m).next_held l y)
  ]
  unlink_held_kept (suc n) rm current (some b) (some m) l y = elim (Bool-cases (m == rm)) [
    | inl e ↦ rw e
    | inr e ↦ rw e (unlink_held_kept n rm current (some m) (l.mutexes m).next_held l y)
  ]

  own_kept :
      (rm task : ℕ) (l : Locks) (y : ℕ)
      → field ((own rm task l).ipc.kernel.tcbs y) ≡ field (l.ipc.kernel.tcbs y)
  unfolding own
  own_kept rm task l y =
      modify_kept field task (λ c. record c { held_mutexes = some rm }) l.ipc.kernel
        (λ c. held_free c (some rm)) y

unlink_held_semas :
    (n rm current : ℕ) (from m : Pointer) (l : Locks)
    → (unlink_held n rm current from m l).ipc.semas ≡ l.ipc.semas
unfolding unlink_held
unlink_held_semas zero rm current from m l = refl
unlink_held_semas (suc n) rm current from none l = refl
unlink_held_semas (suc n) rm current none (some m) l = elim (Bool-cases (m == rm)) [
  | inl e ↦ rw e
  | inr e ↦ rw e (unlink_held_semas n rm current (some m) (l.mutexes m).next_held l)
]
unlink_held_semas (suc n) rm current (some b) (some m) l = elim (Bool-cases (m == rm)) [
  | inl e ↦ rw e
  | inr e ↦ rw e (unlink_held_semas n rm current (some m) (l.mutexes m).next_held l)
]

change_priority-wait_next :
    (task p : ℕ) (k : Kernel) (y : ℕ)
    → ((task_change_priority (some task) p k).tcbs y).wait_next ≡ (k.tcbs y).wait_next
unfolding task_change_priority
change_priority-wait_next task p k y = elim (Bool-cases (ltb max_priority p)) [
  | inl e ↦ rw e
  | inr e ↦ elim (Bool-cases (is_ready (k.tcbs task).status)) [
    | inl r ↦
        let off = rl_remove task k in
        let changed = modify task (λ t. record t { priority = p }) off in
        rw (e, r)
          (rl_append_kept (λ c. c.wait_next) (λ c a b. refl) (λ c s. refl) task changed y
            ∙ modify_kept (λ c. c.wait_next) task (λ t. record t { priority = p }) off (λ c. refl) y
            ∙ rl_remove_kept (λ c. c.wait_next) (λ c a b. refl) task k y)
    | inr r ↦
        rw (e, r)
          (modify_kept (λ c. c.wait_next) task (λ t. record t { priority = p }) k (λ c. refl) y)
  ]
]

-- What an unlock does when `x` is the first to wait, before the tasks `q`.
pub record Handed (rm x count : ℕ) (q : List ℕ) (l : Locks) : Type 0 where
  pub owner : (l.mutexes rm).owner ≡ some x
  pub once : (l.mutexes rm).recursion_count ≡ 1
  pub others : Queued (l.ipc.semas rm) l.ipc.kernel.tcbs q
  pub runnable : (l.ipc.kernel.tcbs x).status ≡ TaskStatus.task_ready
  pub holds : (l.ipc.kernel.tcbs x).held_mutexes ≡ some rm
  pub kept : (l.ipc.semas rm).count ≡ count

owned-Handed :
    (rm x count : ℕ) (q : List ℕ) (l : Locks)
    → Queued (l.ipc.semas rm) l.ipc.kernel.tcbs q
    → (l.ipc.kernel.tcbs x).status ≡ TaskStatus.task_ready
    → (l.ipc.semas rm).count ≡ count
    → Handed rm x count q (own rm x l)
unfolding own
owned-Handed rm x count q l d ready counted = record {
  owner = rw (eqb_refl rm);
  once = rw (eqb_refl rm);
  others =
      Queued-frame (l.ipc.semas rm) l.ipc.kernel.tcbs (own rm x l).ipc.kernel.tcbs q
        (own_kept (λ c. c.wait_next) (λ c p. refl) rm x l) d;
  runnable = own_kept (λ c. c.status) (λ c p. refl) rm x l x ∙ ready;
  holds = rw (eqb_refl x);
  kept = counted;
}

pass_to-Handed :
    (rm x count : ℕ) (q : List ℕ) (sem : Sema) (t : Store) (l : Locks)
    → Queued sem t q
    → sem.count ≡ count
    → Handed rm x count q (pass_to rm (some x) sem t l)
pass_to-Handed rm x count q sem t l d counted =
    let base : Kernel = record l.ipc.kernel { tcbs = t } in
    let freed = modify x (λ c. record c { wait_mutex = none }) base in
    let woken : Locks = record l {
      ipc = record { kernel = hand_over x freed; semas = update l.ipc.semas rm sem };
    } in
    let start =
      Queued-frame sem t freed.tcbs q
        (modify_kept (λ c. c.wait_next) x (λ c. record c { wait_mutex = none }) base (λ c. refl))
        d in
    owned-Handed rm x count q woken (rw (eqb_refl rm) (hand_over-Queued sem x freed q start))
      (hand_over_ready x freed) (rw (eqb_refl rm) counted)

-- With the mutex handed over, its waiters wait on.
lowered-Queued :
    (sem : Sema) (current newp : ℕ) (k : Kernel) (q : List ℕ)
    → Queued sem k.tcbs q
    → Queued sem
        (if newp == (k.tcbs current).priority
          then k
          else task_change_priority (some current) newp k).tcbs
        q
lowered-Queued sem current newp k q d = elim (Bool-cases (newp == (k.tcbs current).priority)) [
  | inl e ↦ rw e d
  | inr e ↦ rw e (
      Queued-frame sem k.tcbs (task_change_priority (some current) newp k).tcbs q
        (change_priority-wait_next current newp k) d)
]

release_mutex-Handed :
    (fuel rm current x : ℕ) (q : List ℕ) (l : Locks)
    → Queued (l.ipc.semas rm) l.ipc.kernel.tcbs (x ∷ q)
    → Distinct (x ∷ q)
    → Handed rm x (l.ipc.semas rm).count q (release_mutex fuel rm current l)
unfolding release_mutex
release_mutex-Handed fuel rm current x q l d dis =
    let unlinked = unlink_held fuel rm current none (l.ipc.kernel.tcbs current).held_mutexes l in
    let cut = set_mutex rm (λ m. record m { next_held = none }) unlinked in
    let k = cut.ipc.kernel in
    let c = k.tcbs current in
    let newp = raised fuel cut.mutexes cut.ipc.semas k.tcbs c.held_mutexes c.base_priority in
    let lowered = if newp == c.priority then k else task_change_priority (some current) newp k in
    let sem = cut.ipc.semas rm in
    let start : Queued sem k.tcbs (x ∷ q) =
      Queued-frame sem l.ipc.kernel.tcbs k.tcbs (x ∷ q)
        (unlink_held_kept (λ c. c.wait_next) (λ c p. refl) fuel rm current none
          (l.ipc.kernel.tcbs current).held_mutexes l)
        (subst (λ f. Queued (f rm) l.ipc.kernel.tcbs (x ∷ q))
          (sym (unlink_held_semas fuel rm current none (l.ipc.kernel.tcbs current).held_mutexes l))
          d) in
    let (e, rest) =
      wait_q_dequeue-Queued sem lowered.tcbs (x ∷ q)
        (lowered-Queued sem current newp k (x ∷ q) start) dis in
    let out = wait_q_dequeue sem lowered.tcbs in
    let counted =
      (wait_q_dequeue-SameCounts sem lowered.tcbs).0
      ∙ ap (λ f. (f rm).count)
          (unlink_held_semas fuel rm current none (l.ipc.kernel.tcbs current).held_mutexes l) in
    subst
      (λ p.
        Handed rm x (l.ipc.semas rm).count q (pass_to rm p out.1 out.2 (set_kernel lowered cut)))
      (sym e)
      (pass_to-Handed rm x (l.ipc.semas rm).count q out.1 out.2 (set_kernel lowered cut) rest
        counted)

-- At an unlock by the owner of a mutex on which tasks wait, none twice, the first of them owns the
-- mutex, once, and is READY; the others wait on in their order, and the count stays.
pub mutex_unlock-Handed :
    (fuel rm current x : ℕ) (q : List ℕ) (l : Locks)
    → (l.mutexes rm).owner ≡ some current
    → Queued (l.ipc.semas rm) l.ipc.kernel.tcbs (x ∷ q)
    → Distinct (x ∷ q)
    → let out = mutex_unlock fuel rm (some current) l in
      (out.0 ≡ Outcome.va_pass) × Handed rm x (l.ipc.semas rm).count q out.1
unfolding mutex_unlock
mutex_unlock-Handed fuel rm current x q l mine d dis =
    rw (mine, same_refl current) (refl, release_mutex-Handed fuel rm current x q l d dis)
