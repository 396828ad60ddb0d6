-- ===== src/Ipc/WaitQueue/Laws.antt =====
-- `wait_q_enqueue` and `wait_q_dequeue` of kernel/ipc.c on the sequence of the waiting tasks.
use vaios.Base.{
  ℕ, zero, suc, ◌≡◌, ◌≤◌, refl, sym, ap, subst, fun_ext, ◌∙◌, inl, inr, List, [], ◌∷◌, length, drop,
  none, some, arith, ltb, leb, if◌then◌else◌, eqb_refl, ne→eqb, Bool-cases, leb→gt, leb→le, lt→ltb,
  ge→ltb, update_cases,
}
use vaios.Chain.{NotIn, Distinct, In-ne, first, last_or, last}
use vaios.Sched.Tcb.{Tcb, Pointer}
use vaios.Sched.TaskList.{Store}
use vaios.Ipc.WaitQueue.{
  Sema, is_null, walk_urgent, set_wait_next, wait_first, wait_behind, wait_among, wait_q_enqueue,
  dequeue_at, wait_q_dequeue,
}
use vaios.Ipc.WaitQueue.Chained.{
  Waits, Waits-frame, queue_in, prios, walk-Behind, walk-end, walk-on, walk-stop, next-Waits,
}

-- The tasks `q` wait, in this order.
pub record Queued (sem : Sema) (t : Store) (q : List ℕ) : Type 0 where
  pub waits : Waits t sem.wait_q q
  pub tail : sem.tail ≡ last q

abbrev tail_behind : Pointer → ℕ → Pointer → Pointer
tail_behind next x old = if is_null next then some x else old

walk-tail :
    (fuel : ℕ) (t : Store) (x y : ℕ) (ys : List ℕ)
    → Waits t (t y).wait_next ys
    → length ys ≤ fuel
    → let p = walk_urgent fuel t (t x).priority y in
      tail_behind (t p).wait_next x (last_or (some y) ys)
      ≡ last_or (some y) (queue_in (prios t) x ys)
walk-tail fuel t x y [] h le = rw (walk-end fuel t (t x).priority y h, h)
walk-tail zero t x y (z ∷ zs) h le = absurd (omega arith)
walk-tail (suc fuel) t x y (z ∷ zs) h le = elim (Bool-cases (leb (t x).priority (t z).priority)) [
  | inl e ↦
      rw
        (
          walk-on fuel t (t x).priority y z h.0 e,
          ge→ltb (t z).priority (t x).priority (leb→le (t x).priority (t z).priority e),
        )
        (walk-tail fuel t x z zs (next-Waits t y z zs h) (omega arith))
  | inr e ↦ rw (
    walk-stop fuel t (t x).priority y z h.0 e,
    lt→ltb (t z).priority (t x).priority (leb→gt (t x).priority (t z).priority e),
    h.0,
  )
]

-- The task starts with no successor.
abbrev cleared : ℕ → Store → Store
cleared x t = set_wait_next x none t

cleared-prios : (x : ℕ) (t : Store) → prios (cleared x t) ≡ prios t
cleared-prios x t = fun_ext λ y.
    update_cases t x (record (t x) { wait_next = none }) (λ j c. c.priority ≡ (t j).priority) refl
      (λ j ne. refl) y

cleared-Waits :
    (x : ℕ) (t : Store) (p : Pointer) (q : List ℕ)
    → NotIn x q
    → Waits t p q
    → Waits (cleared x t) p q
cleared-Waits x t p q n h =
    Waits-frame t (cleared x t) p q (λ y i. rw (ne→eqb x y (In-ne x y q n i))) h

first-Queued :
    (sem : Sema) (t : Store) (x : ℕ) (q : List ℕ)
    → Queued sem t q
    → NotIn x q
    → let out = wait_first sem x t in Queued out.0 out.1 (x ∷ q)
first-Queued sem t x [] d n = record {
  waits = (refl, rw (eqb_refl x) d.waits);
  tail = rw (d.waits);
}
first-Queued sem t x (y ∷ q) d n = record {
  waits = (
    refl,
    rw (eqb_refl x) (
        Waits-frame t (set_wait_next x sem.wait_q t) sem.wait_q (y ∷ q)
          (λ v i. rw (ne→eqb x v (In-ne x v (y ∷ q) n i))) d.waits),
  );
  tail = rw (d.waits.0) d.tail;
}

behind-Queued :
    (fuel : ℕ) (sem : Sema) (t : Store) (x y : ℕ) (q : List ℕ)
    → Queued sem t (y ∷ q)
    → Distinct (y ∷ q)
    → NotIn x (y ∷ q)
    → length (y ∷ q) ≤ fuel
    → let out = wait_behind sem (walk_urgent fuel t (t x).priority y) x t in
      Queued out.0 out.1 (y ∷ queue_in (prios t) x q)
behind-Queued fuel sem t x y q d dis n le =
    let p = walk_urgent fuel t (t x).priority y in
    record {
      waits = (d.waits.0, walk-Behind t x fuel y q d.waits.1 dis n (omega (arith, le)));
      tail =
          ap (tail_behind (t p).wait_next x) d.tail
          ∙ walk-tail fuel t x y q d.waits.1 (omega (arith, le));
    }

among-Queued :
    (fuel : ℕ) (sem : Sema) (t : Store) (x : ℕ) (q : List ℕ)
    → Queued sem t q
    → Distinct q
    → NotIn x q
    → length q ≤ fuel
    → let out = wait_among fuel sem sem.wait_q x t in Queued out.0 out.1 (queue_in (prios t) x q)
unfolding wait_among
among-Queued fuel sem t x [] d dis n le =
    subst (λ p. let out = wait_among fuel sem p x t in Queued out.0 out.1 (x ∷ [])) (sym d.waits)
      (first-Queued sem t x [] d n)
among-Queued fuel sem t x (y ∷ q) d dis n le =
    subst
      (λ p.
        let out = wait_among fuel sem p x t in Queued out.0 out.1 (queue_in (prios t) x (y ∷ q)))
      (sym d.waits.0)
      (elim (Bool-cases (ltb (t y).priority (t x).priority)) [
        | inl e ↦ rw e (first-Queued sem t x (y ∷ q) d n)
        | inr e ↦ rw e (behind-Queued fuel sem t x y q d dis n le)
      ])

-- A task that begins to wait goes behind those that are at least as urgent and before the others,
-- with a round of the walk for every waiting task.
pub wait_q_enqueue-Queued :
    (fuel : ℕ) (sem : Sema) (t : Store) (x : ℕ) (q : List ℕ)
    → Queued sem t q
    → Distinct q
    → NotIn x q
    → length q ≤ fuel
    → let out = wait_q_enqueue fuel sem x t in Queued out.0 out.1 (queue_in (prios t) x q)
unfolding wait_q_enqueue
wait_q_enqueue-Queued fuel sem t x q d dis n le =
    let start : Queued sem (cleared x t) q = record {
      waits = cleared-Waits x t sem.wait_q q n d.waits;
      tail = d.tail;
    } in
    let out = wait_among fuel sem sem.wait_q x (cleared x t) in
    subst (λ f. Queued out.0 out.1 (queue_in f x q)) (cleared-prios x t)
      (among-Queued fuel sem (cleared x t) x q start dis n le)

-- The queue behind its first task.
rest-Queued :
    (sem : Sema) (t : Store) (x : ℕ) (q : List ℕ)
    → Queued sem t (x ∷ q)
    → Distinct (x ∷ q)
    → let rest = (t x).wait_next in
      Queued
        (record sem { wait_q = rest; tail = if is_null rest then none else sem.tail })
        (set_wait_next x none t)
        q
rest-Queued sem t x [] d dis = record { waits = d.waits.1; tail = rw (d.waits.1) }
rest-Queued sem t x (z ∷ q) d dis = record {
  waits = cleared-Waits x t (t x).wait_next (z ∷ q) dis.0 d.waits.1;
  tail = rw (d.waits.1.0) d.tail;
}

-- The first of the waiting tasks is taken off, and the others keep their order; an empty queue stays
-- empty.
pub wait_q_dequeue-Queued :
    (sem : Sema) (t : Store) (q : List ℕ)
    → Queued sem t q
    → Distinct q
    → let out = wait_q_dequeue sem t in (out.0 ≡ first q) × Queued out.1 out.2 (drop 1 q)
unfolding wait_q_dequeue
wait_q_dequeue-Queued sem t [] d dis =
    subst (λ p. let out = dequeue_at p sem t in (out.0 ≡ none) × Queued out.1 out.2 [])
      (sym d.waits) (refl, d)
wait_q_dequeue-Queued sem t (x ∷ q) d dis =
    subst (λ p. let out = dequeue_at p sem t in (out.0 ≡ some x) × Queued out.1 out.2 q)
      (sym d.waits.0) (refl, rest-Queued sem t x q d dis)

-- Neither call touches the count or the limit.
abbrev pub SameCounts : Sema → Sema → Type 0
SameCounts a b = (a.count ≡ b.count) × (a.limit ≡ b.limit)

dequeued-SameCounts : (p : Pointer) (sem : Sema) (t : Store) → SameCounts (dequeue_at p sem t).1 sem
dequeued-SameCounts none sem t = (refl, refl)
dequeued-SameCounts (some x) sem t = (refl, refl)

pub wait_q_dequeue-SameCounts : (sem : Sema) (t : Store) → SameCounts (wait_q_dequeue sem t).1 sem
unfolding wait_q_dequeue
wait_q_dequeue-SameCounts sem t = dequeued-SameCounts sem.wait_q sem t

among-SameCounts :
    (fuel : ℕ) (sem : Sema) (p : Pointer) (x : ℕ) (t : Store)
    → SameCounts (wait_among fuel sem p x t).0 sem
unfolding wait_among
among-SameCounts fuel sem none x t = (refl, refl)
among-SameCounts fuel sem (some y) x t = elim (Bool-cases (ltb (t y).priority (t x).priority)) [
  | inl e ↦ rw e (refl, refl)
  | inr e ↦ rw e (refl, refl)
]

pub wait_q_enqueue-SameCounts :
    (fuel : ℕ) (sem : Sema) (x : ℕ) (t : Store) → SameCounts (wait_q_enqueue fuel sem x t).0 sem
unfolding wait_q_enqueue
wait_q_enqueue-SameCounts fuel sem x t = among-SameCounts fuel sem sem.wait_q x (cleared x t)

-- A field other than `wait_next` is kept for every task.
module _ {A : Type 0} (field : Tcb → A)
    (free : (c : Tcb) (p : Pointer) → field (record c { wait_next = p }) ≡ field c) where
  linked_kept :
      (x : ℕ) (p : Pointer) (t : Store) (y : ℕ) → field (set_wait_next x p t y) ≡ field (t y)
  linked_kept x p t y =
      update_cases t x (record (t x) { wait_next = p }) (λ j c. field c ≡ field (t j))
        (free (t x) p) (λ j ne. refl) y

  among_kept :
      (fuel : ℕ) (sem : Sema) (p : Pointer) (x : ℕ) (t : Store) (y : ℕ)
      → field ((wait_among fuel sem p x t).1 y) ≡ field (t y)
  unfolding wait_among
  among_kept fuel sem none x t y = linked_kept x sem.wait_q t y
  among_kept fuel sem (some z) x t y =
      let p = walk_urgent fuel t (t x).priority z in
      elim (Bool-cases (ltb (t z).priority (t x).priority)) [
        | inl e ↦ rw e (linked_kept x sem.wait_q t y)
        | inr e ↦ rw e (
            linked_kept p (some x) (set_wait_next x (t p).wait_next t) y
            ∙ linked_kept x (t p).wait_next t y)
      ]

  pub wait_q_enqueue_kept :
      (fuel : ℕ) (sem : Sema) (x : ℕ) (t : Store) (y : ℕ)
      → field ((wait_q_enqueue fuel sem x t).1 y) ≡ field (t y)
  unfolding wait_q_enqueue
  wait_q_enqueue_kept fuel sem x t y =
      among_kept fuel sem sem.wait_q x (cleared x t) y ∙ linked_kept x none t y
