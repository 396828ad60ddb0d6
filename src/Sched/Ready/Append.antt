-- ===== src/Sched/Ready/Append.antt =====
-- `rl_append` puts a task at the end of the queue of its priority.
use vaios.Base.{
  ℕ, ◌≡◌, ◌≢◌, ◌<◌, ◌≤◌, refl, sym, ap, ◌∙◌, inl, inr, List, [], ◌∷◌, ◌++◌, none, some, arith,
  update, update_cases, ◌==◌, Bool-cases, eqb→eq, eqb_refl, ne→eqb, ◌||◌,
}
use vaios.Sched.Tcb.{
  Pointer, modify_kept, modify_at_kept, modify, Kernel, Tcb, TaskStatus, max_priority,
}
use vaios.Sched.Links.{Linked, Linked-frame, Linked-snoc}
use vaios.Chain.{
  first, last, last_or-some, last-In, last-snoc, Distinct-snoc, In-snoc, Distinct, In, NotIn, In-ne,
}
use vaios.Sched.Bitmap.{test_bit, test_bit-rb_set, rb_set-lt}
use vaios.Sched.Ready.{rl_append, link_last}
use vaios.Sched.Ready.View.{Holds, nonempty, nonempty-snoc}

-- The state before the status is written.
joined : ℕ → Kernel → Kernel
joined task k =
    let p = (k.tcbs task).priority in
    let linked = modify task (λ t. record t { next = none; prev = k.ready_tails p }) k in
    link_last (linked.ready_lists p) p task linked

-- A field of the TCB that no link is kept in is kept, up to the new state of the task.
module _ {A : Type 0} (field : Tcb → A)
    (free : (t : Tcb) (n p : Pointer) → field (record t { next = n; prev = p }) ≡ field t) where
  link_last_kept :
      (l : Pointer) (p task : ℕ) (k : Kernel) (y : ℕ)
      → field ((link_last l p task k).tcbs y) ≡ field (k.tcbs y)
  unfolding link_last
  link_last_kept none p task k y = refl
  link_last_kept (some l) p task k y =
      modify_at_kept field (k.ready_tails p) (λ t. record t { next = some task }) k
        (λ t. free t (some task) t.prev) y

  joined_kept : (task : ℕ) (k : Kernel) (y : ℕ) → field ((joined task k).tcbs y) ≡ field (k.tcbs y)
  unfolding joined
  joined_kept task k y =
      let p = (k.tcbs task).priority in
      let linked = modify task (λ t. record t { next = none; prev = k.ready_tails p }) k in
      link_last_kept (linked.ready_lists p) p task linked y
      ∙ modify_kept field task (λ t. record t { next = none; prev = k.ready_tails p }) k
          (λ t. free t none (k.ready_tails p)) y

-- A field that is neither a link nor the status is kept for every task.
pub rl_append_kept :
    {A : Type 0} (field : Tcb → A)
    → ((t : Tcb) (n p : Pointer) → field (record t { next = n; prev = p }) ≡ field t)
    → ((t : Tcb) (s : TaskStatus) → field (record t { status = s }) ≡ field t)
    → (task : ℕ) (k : Kernel) (y : ℕ) → field ((rl_append task k).tcbs y) ≡ field (k.tcbs y)
unfolding rl_append joined
rl_append_kept field free status_free task k y =
    modify_kept field task (λ t. record t { status = TaskStatus.task_ready }) (joined task k)
      (λ t. status_free t TaskStatus.task_ready) y
    ∙ joined_kept field free task k y

pub rl_append_ready :
    (task : ℕ) (k : Kernel) → ((rl_append task k).tcbs task).status ≡ TaskStatus.task_ready
unfolding rl_append
rl_append_ready task k = rw (eqb_refl task)

rl_append_priority :
    (task : ℕ) (k : Kernel) (y : ℕ) → ((rl_append task k).tcbs y).priority ≡ (k.tcbs y).priority
rl_append_priority = rl_append_kept (λ t. t.priority) (λ t n r. refl) (λ t s. refl)

rl_append_status :
    (task : ℕ) (k : Kernel) (y : ℕ)
    → y ≢ task
    → ((rl_append task k).tcbs y).status ≡ (k.tcbs y).status
unfolding rl_append joined
rl_append_status task k y ne =
    rw (ne→eqb task y (λ e. ne (sym e))) (joined_kept (λ t. t.status) (λ t n r. refl) task k y)

module _ {k : Kernel} {q : ℕ → List ℕ} (x : ℕ) (h : Holds k q)
    (level : (k.tcbs x).priority ≤ max_priority) (fresh : (p : ℕ) → NotIn x (q p)) where
  abbrev p : ℕ
  p = (k.tcbs x).priority

  -- Links after the append, for each task.
  record Moved (t : ℕ → Tcb) : Type 0 where
    prev_kept : (y : ℕ) → y ≢ x → (t y).prev ≡ (k.tcbs y).prev
    next_kept : (y : ℕ) → y ≢ x → last (q p) ≢ some y → (t y).next ≡ (k.tcbs y).next
    next_new : (y : ℕ) → y ≢ x → last (q p) ≡ some y → (t y).next ≡ some x
    prev_last : (t x).prev ≡ last (q p)
    next_none : (t x).next ≡ none
    status_ready : (t x).status ≡ TaskStatus.task_ready

  -- The result, field by field.
  record Result (k' : Kernel) : Type 0 where
    moved : Moved k'.tcbs
    heads_kept : (i : ℕ) → i ≢ p → k'.ready_lists i ≡ k.ready_lists i
    head_new : k'.ready_lists p ≡ first (q p ++ (x ∷ []))
    tails_kept : (i : ℕ) → i ≢ p → k'.ready_tails i ≡ k.ready_tails i
    tail_new : k'.ready_tails p ≡ some x
    bits_set :
        (i : ℕ)
        → i ≤ max_priority
        → test_bit k'.ready_bitmap i ≡ (p == i || test_bit k.ready_bitmap i)
    small' : k'.ready_bitmap < 256

  -- The bit of a list that is not empty is set already.
  already :
      {y : ℕ} {ys : List ℕ}
      → q p ≡ y ∷ ys
      → (i : ℕ) → i ≤ max_priority
      → test_bit k.ready_bitmap i ≡ (p == i || test_bit k.ready_bitmap i)
  already e i le = elim (Bool-cases (p == i)) [
    | inl same ↦ rw (same, ← eqb→eq p i same, h.bits p level, e)
    | inr other ↦ rw other
  ]

  after_append : (xs : List ℕ) → q p ≡ xs → Result (rl_append x k)
  unfolding rl_append
  after_append [] e =
      let lp : k.ready_lists p ≡ none = h.heads p ∙ ap first e in
      let lq : last (q p) ≡ none = ap last e in
      let tp : k.ready_tails p ≡ none = h.tails p ∙ lq in
      rw (lp, tp)
        (record {
          moved = record {
            prev_kept = λ z ne. ground (arith, lq);
            next_kept = λ z ne nl. ground (arith, lq);
            next_new = λ z ne il. ground (arith, lq);
            prev_last = ground (arith, lq);
            next_none = ground (arith, lq);
            status_ready = ground (arith, lq);
          };
          heads_kept = λ i ne. ground arith;
          head_new = rw e (ground arith);
          tails_kept = λ i ne. ground arith;
          tail_new = ground arith;
          bits_set = λ i le. test_bit-rb_set k.ready_bitmap p h.small (omega arith) i (omega arith);
          small' = rb_set-lt k.ready_bitmap p h.small (omega arith);
        })
  after_append (y ∷ ys) e =
      let (l, le) = last_or-some y ys in
      let lp : k.ready_lists p ≡ some y = h.heads p ∙ ap first e in
      let lq : last (q p) ≡ some l = ap last e ∙ le in
      let tp : k.ready_tails p ≡ some l = h.tails p ∙ lq in
      let apart : x ≢ l = In-ne x l (q p) (fresh p) (last-In (q p) l lq) in
      rw (lp, tp)
        (record {
          moved = record {
            prev_kept = λ z ne. ground (arith, lq, apart);
            next_kept = λ z ne nl. ground (arith, lq, apart);
            next_new = λ z ne il. ground (arith, lq, apart);
            prev_last = ground (arith, lq, apart);
            next_none = ground (arith, lq, apart);
            status_ready = ground (arith, lq, apart);
          };
          heads_kept = λ i ne. refl;
          head_new = rw (e) lp;
          tails_kept = λ i ne. ground arith;
          tail_new = ground arith;
          bits_set = λ i le. already e i le;
          small' = h.small;
        })

  not_x : (i y : ℕ) → In y (q i) → y ≢ x
  not_x i y m e = In-ne x y (q i) (fresh i) m (sym e)

  -- A task of another list is not the last one of this list.
  not_last : (i : ℕ) → i ≢ p → (y : ℕ) → In y (q i) → last (q p) ≢ some y
  not_last i ne y m e = ne (sym (h.own i y m) ∙ h.own p y (last-In (q p) y e))

  abbrev appended : List ℕ
  appended = q p ++ (x ∷ [])

  own_appended : (y : ℕ) → In y appended → (k.tcbs y).priority ≡ p
  own_appended y m = elim (In-snoc y (q p) x m) [
    | inl j ↦ h.own p y j
    | inr e ↦ ap (λ z. (k.tcbs z).priority) e
  ]

  -- `rl_append` puts a task of a valid priority that is on no ready list at the end of the queue of
  -- its priority, and the ready lists stay in agreement with their queues.
  pub rl_append-Holds :
      Holds (rl_append x k) (update q (k.tcbs x).priority (q (k.tcbs x).priority ++ (x ∷ [])))
  rl_append-Holds = record {
    heads =
        update_cases q p _ (λ i xs. k'.ready_lists i ≡ first xs) head_new
          (λ i ne. heads_kept i ne ∙ h.heads i);
    tails =
        update_cases q p _ (λ i xs. k'.ready_tails i ≡ last xs) (tail_new ∙ sym (last-snoc (q p) x))
          (λ i ne. tails_kept i ne ∙ h.tails i);
    links =
        update_cases q p _ (λ i xs. Linked k'.tcbs none xs)
          (Linked-snoc k.tcbs k'.tcbs none (q p) x (h.links p) (h.distinct p) (fresh p) prev_kept
            next_kept next_new prev_last next_none)
          (λ i ne.
            Linked-frame k.tcbs k'.tcbs none (q i)
              (λ y m. (next_kept y (not_x i y m) (not_last i ne y m), prev_kept y (not_x i y m)))
              (h.links i));
    distinct =
        update_cases q p _ (λ i xs. Distinct xs) (Distinct-snoc (q p) x (h.distinct p) (fresh p))
          (λ i ne. h.distinct i);
    own =
        update_cases q p _ (λ i xs. (y : ℕ) → In y xs → (k'.tcbs y).priority ≡ i)
          (λ y m. priority_kept y ∙ own_appended y m) (λ i ne y m. priority_kept y ∙ h.own i y m);
    ready =
        update_cases q p _ (λ i xs. (y : ℕ) → In y xs → (k'.tcbs y).status ≡ TaskStatus.task_ready)
          (λ y m. ready_appended y m) (λ i ne y m. status_kept y (not_x i y m) ∙ h.ready i y m);
    levels =
        update_cases q p _ (λ i xs. (y : ℕ) → In y xs → i ≤ max_priority) (λ y m. level)
          (λ i ne. h.levels i);
    bits =
        update_cases q p _ (λ i xs. i ≤ max_priority → test_bit k'.ready_bitmap i ≡ nonempty xs)
          (λ le. bits_set p le ∙ rw (eqb_refl p, nonempty-snoc (q p) x))
          (λ i ne le. bits_set i le ∙ rw (ne→eqb p i (λ e. ne (sym e))) (h.bits i le));
    small = small';
  }
    where
      k' : Kernel
      k' = rl_append x k

      priority_kept : (y : ℕ) → (k'.tcbs y).priority ≡ (k.tcbs y).priority
      priority_kept = rl_append_priority x k

      status_kept : (y : ℕ) → y ≢ x → (k'.tcbs y).status ≡ (k.tcbs y).status
      status_kept = rl_append_status x k

      open (after_append (q p) refl) use {
        moved, heads_kept, head_new, tails_kept, tail_new, bits_set, small',
      }
      open moved use {prev_kept, next_kept, next_new, prev_last, next_none, status_ready}

      ready_appended : (y : ℕ) → In y appended → (k'.tcbs y).status ≡ TaskStatus.task_ready
      ready_appended y m = elim (In-snoc y (q p) x m) [
        | inl j ↦ status_kept y (not_x p y j) ∙ h.ready p y j
        | inr e ↦ ap (λ z. (k'.tcbs z).status) e ∙ status_ready
      ]
