-- ===== src/Pbus/Arbiter.antt =====
-- `enqueue` of kernel/periph_bus.c keeps the queue in order and in agreement with the states.
use vaios.Base.{
  ℕ, ◌≤◌, ◌≡◌, ◌≢◌, ◌⊎◌, inl, inr, refl, sym, ap, ◌∙◌, List, [], ◌∷◌, length, Option, none, some,
  ne→eqb, eqb_refl, eqb→eq, eqb→ne, ◌==◌, leb, Bool-cases, arith, leb→le, leb→gt,
}
use vaios.Chain.{NotIn, In, In-ne, Distinct}
use vaios.Pbus.{Job, Pbus, JobState, at, write_at, modify, seek_prio, link_at, enqueue}
use vaios.Pbus.Queue.{Follows-frame, Sorted, Arbitrated, write_at-field}
use vaios.Pbus.Enqueue.{placed, linked, seek_prio-placed}

abbrev Pointer : Type 0
Pointer = Option ℕ

module _ (jobs : ℕ → Job) (job : ℕ) where
  In-placed : (p : ℕ) (xs : List ℕ) (y : ℕ) → In y (placed jobs p job xs) → (y ≡ job) ⊎ In y xs
  unfolding placed
  In-placed p [] y (inl e) = inl e
  In-placed p [] y (inr i) = absurd i
  In-placed p (x ∷ xs) y i = elim (Bool-cases (leb p (jobs x).prio)) [
    | inl on ↦ elim (rw on at i) [
      | inl e ↦ inr (inl e)
      | inr j ↦ elim (In-placed p xs y j) [ inl e ↦ inl e | inr k ↦ inr (inr k) ]
    ]
    | inr stop ↦ rw stop at i
  ]

  placed-In : (p : ℕ) (xs : List ℕ) (y : ℕ) → (y ≡ job) ⊎ In y xs → In y (placed jobs p job xs)
  unfolding placed
  placed-In p [] y i = i
  placed-In p (x ∷ xs) y i = elim (Bool-cases (leb p (jobs x).prio)) [
    | inl on ↦ rw on (elim i [
      | inl e ↦ inr (placed-In p xs y (inl e))
      | inr (inl e) ↦ inl e
      | inr (inr j) ↦ inr (placed-In p xs y (inr j))
    ])
    | inr stop ↦ rw stop i
  ]

  NotIn-placed :
      (p : ℕ) (xs : List ℕ) (y : ℕ) → y ≢ job → NotIn y xs → NotIn y (placed jobs p job xs)
  unfolding placed
  NotIn-placed p [] y ne n = (ne, tt)
  NotIn-placed p (x ∷ xs) y ne n = elim (Bool-cases (leb p (jobs x).prio)) [
    | inl on ↦ rw on (n.0, NotIn-placed p xs y ne n.1)
    | inr stop ↦ rw stop (ne, n)
  ]

  placed-Distinct :
      (p : ℕ) (xs : List ℕ) → Distinct xs → NotIn job xs → Distinct (placed jobs p job xs)
  unfolding placed
  placed-Distinct p [] d n = (tt, tt)
  placed-Distinct p (x ∷ xs) d n = elim (Bool-cases (leb p (jobs x).prio)) [
    | inl on ↦ rw on (NotIn-placed p xs x (λ e. n.0 (sym e)) d.0, placed-Distinct p xs d.1 n.1)
    | inr stop ↦ rw stop (n, d)
  ]

  placed-Sorted :
      (p : ℕ) (xs : List ℕ)
      → p ≡ (jobs job).prio
      → Sorted jobs xs
      → Sorted jobs (placed jobs p job xs)
  unfolding placed
  placed-Sorted p [] e s = ((λ y i. absurd i), tt)
  placed-Sorted p (x ∷ xs) e s = elim (Bool-cases (leb p (jobs x).prio)) [
    | inl on ↦ rw on (
      (λ y i. elim (In-placed p xs y i) [
        | inl q ↦ rw q (omega (arith, e, leb→le p (jobs x).prio on))
        | inr j ↦ s.0 y j
      ]),
      placed-Sorted p xs e s.1,
    )
    | inr stop ↦ rw stop (
      (λ y i. elim i [
        | inl q ↦ rw q (omega (arith, e, leb→gt p (jobs x).prio stop))
        | inr j ↦ omega (arith, e, leb→gt p (jobs x).prio stop, s.0 y j)
      ]),
      s,
    )
  ]

-- Priorities and the other jobs' states stay as they are.
pub Sorted-frame :
    (f g : ℕ → Job) (xs : List ℕ) → ((x : ℕ) → (g x).prio ≡ (f x).prio) → Sorted f xs → Sorted g xs
Sorted-frame f g [] same s = tt
Sorted-frame f g (x ∷ xs) same s =
    ((λ y i. rw (same x, same y) (s.0 y i)), Sorted-frame f g xs same s.1)

write_at-rest :
    (pp to : Pointer) (b : Pbus)
    → ((write_at pp to b).active ≡ b.active) × ((write_at pp to b).locked ≡ b.locked)
write_at-rest none to b = (refl, refl)
write_at-rest (some p) to b = (refl, refl)

module _ (pp : Pointer) (job : ℕ) (b : Pbus) where
  link_at-prio : (x : ℕ) → ((link_at pp job b).jobs x).prio ≡ (b.jobs x).prio
  unfolding link_at
  link_at-prio x = stated ∙ written
    where
      written : ((linked pp job b).jobs x).prio ≡ (b.jobs x).prio
      written =
          write_at-field (λ j. j.prio) pp (some job) (write_at (some job) (at pp b) b) x (λ j. refl)
          ∙ write_at-field (λ j. j.prio) (some job) (at pp b) b x (λ j. refl)

      stated :
          ((modify job (λ j. record j { state = JobState.job_queued }) (linked pp job b)).jobs
            x).prio
          ≡ ((linked pp job b).jobs x).prio
      stated = elim (Bool-cases (job == x)) [
        | inl e ↦ rw (e, eqb→eq job x e) refl
        | inr ne ↦ rw ne refl
      ]

  link_at-next : (x : ℕ) → ((link_at pp job b).jobs x).next ≡ ((linked pp job b).jobs x).next
  unfolding link_at
  link_at-next x = elim (Bool-cases (job == x)) [
    | inl e ↦ rw (e, eqb→eq job x e) refl
    | inr ne ↦ rw ne refl
  ]

  link_at-here : ((link_at pp job b).jobs job).state ≡ JobState.job_queued
  unfolding link_at
  link_at-here = rw (eqb_refl job) refl

  link_at-state : (x : ℕ) → job ≢ x → ((link_at pp job b).jobs x).state ≡ (b.jobs x).state
  unfolding link_at
  link_at-state x ne = rw (ne→eqb job x ne) (
      write_at-field (λ j. j.state) pp (some job) (write_at (some job) (at pp b) b) x (λ j. refl)
      ∙ write_at-field (λ j. j.state) (some job) (at pp b) b x (λ j. refl))

  link_at-bus :
      ((link_at pp job b).active ≡ b.active)
      × ((link_at pp job b).locked ≡ b.locked)
      × ((link_at pp job b).queue ≡ at none (linked pp job b))
  unfolding link_at
  link_at-bus =
      let written = write_at-rest pp (some job) (write_at (some job) (at pp b) b) in
      (written.0, written.1, refl)

idle-NotIn :
    (b : Pbus) (job : ℕ) (xs : List ℕ)
    → ((x : ℕ) → In x xs → (b.jobs x).state ≡ JobState.job_queued)
    → (b.jobs job).state ≡ JobState.job_idle
    → NotIn job xs
idle-NotIn b job [] q idle = tt
idle-NotIn b job (x ∷ xs) q idle = (
  (λ e. idle_not_queued (sym idle ∙ ap (λ t. (b.jobs t).state) e ∙ q x (inl refl))),
  idle-NotIn b job xs (λ y i. q y (inr i)) idle,
)
  where
    idle_not_queued : JobState.job_idle ≢ JobState.job_queued
    idle_not_queued e = cc

-- enqueue puts an idle job behind the queued ones of at least its priority and before the others.
-- The queue stays sorted and in agreement with the states of the jobs, with a round of the walk for
-- every queued job.
pub enqueue-Arbitrated :
    (fuel job : ℕ) (b : Pbus) (xs : List ℕ)
    → length xs ≤ fuel
    → Arbitrated b xs
    → (b.jobs job).state ≡ JobState.job_idle
    → Arbitrated (enqueue fuel job b) (placed b.jobs (b.jobs job).prio job xs)
unfolding enqueue
enqueue-Arbitrated fuel job b xs le h idle = record {
  chain = rw (rest.2) (
      Follows-frame l.jobs b'.jobs (at none l) qs (λ x i. link_at-next pp job b x)
        (seek_prio-placed fuel prio job b none b.queue xs le refl h.chain h.distinct tt new
          (λ e. cc)));
  distinct = placed-Distinct b.jobs job prio xs h.distinct new;
  sorted =
      Sorted-frame b.jobs b'.jobs qs (link_at-prio pp job b)
        (placed-Sorted b.jobs job prio xs refl h.sorted);
  queued = λ x i. stands x (In-placed b.jobs job prio xs x i);
  listed = λ x q. placed-In b.jobs job prio xs x (listed x q);
  lone = rw (rest.0, rest.1) h.lone;
  on_bus = λ x e. active x (sym rest.0 ∙ e);
}
  where
    prio : ℕ
    prio = (b.jobs job).prio

    pp : Pointer
    pp = seek_prio fuel prio b none b.queue

    l : Pbus
    l = linked pp job b

    b' : Pbus
    b' = link_at pp job b

    qs : List ℕ
    qs = placed b.jobs prio job xs

    rest : (b'.active ≡ b.active) × (b'.locked ≡ b.locked) × (b'.queue ≡ at none l)
    rest = link_at-bus pp job b

    new : NotIn job xs
    new = idle-NotIn b job xs h.queued idle

    stands : (x : ℕ) → (x ≡ job) ⊎ In x xs → (b'.jobs x).state ≡ JobState.job_queued
    stands x (inl e) = rw e (link_at-here pp job b)
    stands x (inr i) = link_at-state pp job b x (In-ne job x xs new i) ∙ h.queued x i

    listed : (x : ℕ) → (b'.jobs x).state ≡ JobState.job_queued → (x ≡ job) ⊎ In x xs
    listed x q = elim (Bool-cases (job == x)) [
      | inl e ↦ inl (sym (eqb→eq job x e))
      | inr ne ↦ inr (h.listed x (sym (link_at-state pp job b x (eqb→ne job x ne)) ∙ q))
    ]

    idle_not_active : JobState.job_idle ≢ JobState.job_active
    idle_not_active e = cc

    active : (x : ℕ) → b.active ≡ some x → (b'.jobs x).state ≡ JobState.job_active
    active x e = elim (Bool-cases (job == x)) [
      | inl same ↦ absurd (
          idle_not_active
            (sym idle ∙ ap (λ t. (b.jobs t).state) (eqb→eq job x same) ∙ h.on_bus x e))
      | inr ne ↦ link_at-state pp job b x (eqb→ne job x ne) ∙ h.on_bus x e
    ]
