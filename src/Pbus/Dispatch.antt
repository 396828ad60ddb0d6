-- ===== src/Pbus/Dispatch.antt =====
-- `dispatch` of kernel/periph_bus.c hands an idle bus to the first job of the queue.
use vaios.Base.{
  length, arith, ◌≤◌, ℕ, ◌≡◌, ◌≢◌, ◌⊎◌, inl, inr, refl, sym, ap, ◌∙◌, List, [], ◌∷◌, Option, none,
  some, ne→eqb, eqb_refl, eqb→eq, eqb→ne, ◌==◌, Bool, Bool-cases, true, false,
}
use vaios.Chain.{In, In-ne}
use vaios.Pbus.{Job, Pbus, JobState, modify}
use vaios.Pbus.Queue.{Follows-frame, Arbitrated}
use vaios.Pbus.Arbiter.{Sorted-frame}

abbrev Pointer : Type 0
Pointer = Option ℕ

abbrev pub marked : JobState → Job → Job
marked s j = record j { state = s }

module _ (b : Pbus) (job : ℕ) (s : JobState) where
  marked-next : (x : ℕ) → ((modify job (marked s) b).jobs x).next ≡ (b.jobs x).next
  marked-next x = elim (Bool-cases (job == x)) [
    | inl e ↦ rw (e, eqb→eq job x e) refl
    | inr ne ↦ rw ne refl
  ]

  marked-prio : (x : ℕ) → ((modify job (marked s) b).jobs x).prio ≡ (b.jobs x).prio
  marked-prio x = elim (Bool-cases (job == x)) [
    | inl e ↦ rw (e, eqb→eq job x e) refl
    | inr ne ↦ rw ne refl
  ]

  marked-here : ((modify job (marked s) b).jobs job).state ≡ s
  marked-here = rw (eqb_refl job) refl

  marked-else : (x : ℕ) → job ≢ x → ((modify job (marked s) b).jobs x).state ≡ (b.jobs x).state
  marked-else x ne = rw (ne→eqb job x ne) refl

active_not_queued : JobState.job_active ≢ JobState.job_queued
active_not_queued e = cc

idle_not_queued : JobState.job_idle ≢ JobState.job_queued
idle_not_queued e = cc

-- The first job leaves the queue for the bus, or its waiter gets the bus.
pub taken-Arbitrated :
    (b : Pbus) (x : ℕ) (xs : List ℕ) (act : Pointer) (lock : Bool) (permits : ℕ → ℕ) (calls : ℕ)
    → Arbitrated b (x ∷ xs)
    → (act ≡ none) ⊎ (lock ≡ false)
    → ((y : ℕ) → act ≡ some y → y ≡ x)
    → Arbitrated
        (record {
          queue = (b.jobs x).next;
          active = act;
          locked = lock;
          jobs = (modify x (marked JobState.job_active) b).jobs;
          permits = permits;
          calls = calls;
        })
        xs
taken-Arbitrated b x xs act lock permits calls h lone only = record {
  chain = Follows-frame b.jobs jobs (b.jobs x).next xs (λ y i. marked-next b x s y) h.chain.1;
  distinct = h.distinct.1;
  sorted = Sorted-frame b.jobs jobs xs (marked-prio b x s) h.sorted.1;
  queued = λ y i. marked-else b x s y (In-ne x y xs h.distinct.0 i) ∙ h.queued y (inr i);
  listed = listed;
  lone = lone;
  on_bus = λ y e. rw (only y e) (marked-here b x s);
}
  where
    s : JobState
    s = JobState.job_active

    jobs : ℕ → Job
    jobs = (modify x (marked s) b).jobs

    listed : (y : ℕ) → (jobs y).state ≡ JobState.job_queued → In y xs
    listed y q = elim (Bool-cases (x == y)) [
      | inl e ↦ absurd (
          active_not_queued (sym (marked-here b x s) ∙ ap (λ t. (jobs t).state) (eqb→eq x y e) ∙ q))
      | inr ne ↦ elim (h.listed y (sym (marked-else b x s y (eqb→ne x y ne)) ∙ q)) [
        | inl e ↦ absurd (eqb→ne x y ne (sym e))
        | inr i ↦ i
      ]
    ]

-- The job on the bus is done with.
pub released-Arbitrated :
    (b : Pbus) (x : ℕ) (xs : List ℕ)
    → Arbitrated b xs
    → b.active ≡ some x
    → Arbitrated (modify x (marked JobState.job_idle) (record b { active = none })) xs
released-Arbitrated b x xs h e = record {
  chain = Follows-frame b.jobs jobs b.queue xs (λ y i. marked-next b x s y) h.chain;
  distinct = h.distinct;
  sorted = Sorted-frame b.jobs jobs xs (marked-prio b x s) h.sorted;
  queued = λ y i. marked-else b x s y (other y i) ∙ h.queued y i;
  listed = listed;
  lone = inl refl;
  on_bus = λ y q. absurd (nothing y q);
}
  where
    s : JobState
    s = JobState.job_idle

    jobs : ℕ → Job
    jobs = (modify x (marked s) b).jobs

    nothing : (y : ℕ) → ◌≢◌ {A = Pointer} none (some y)
    nothing y q = cc

    other : (y : ℕ) → In y xs → x ≢ y
    other y i q =
        active_not_queued (sym (h.on_bus x e) ∙ ap (λ t. (b.jobs t).state) q ∙ h.queued y i)

    listed : (y : ℕ) → (jobs y).state ≡ JobState.job_queued → In y xs
    listed y q = elim (Bool-cases (x == y)) [
      | inl e ↦
          absurd (
            idle_not_queued (sym (marked-here b x s) ∙ ap (λ t. (jobs t).state) (eqb→eq x y e) ∙ q))
      | inr ne ↦ h.listed y (sym (marked-else b x s y (eqb→ne x y ne)) ∙ q)
    ]

-- What becomes of the bus: it is in use, or no job waits.
pub record Served (b : Pbus) : Type 0 where
  pub left : List ℕ
  pub arbitrated : Arbitrated b left
  pub used : (b.active ≢ none) ⊎ (b.locked ≡ true) ⊎ (left ≡ [])

-- What a hook may make of a queue of the jobs `xs`: one that is no longer, or a bus in use.
pub record Kept (xs : List ℕ) (b : Pbus) : Type 0 where
  pub left : List ℕ
  pub arbitrated : Arbitrated b left
  pub ready : (length left ≤ length xs) ⊎ (b.active ≢ none) ⊎ (b.locked ≡ true)

pub Served-Kept : (xs : List ℕ) (b : Pbus) → Served b → Kept xs b
Served-Kept xs b s = record {
  left = s.left;
  arbitrated = s.arbitrated;
  ready = elim s.used [
    | inl busy ↦ inr (inl busy)
    | inr (inl held) ↦ inr (inr held)
    | inr (inr none_left) ↦ inl (omega (arith, ap length none_left))
  ];
}
