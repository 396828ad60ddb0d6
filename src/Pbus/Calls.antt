-- ===== src/Pbus/Calls.antt =====
-- `v_pbus_submit`, `v_pbus_done_isr` and `v_pbus_abort_isr` of kernel/periph_bus.c.
use vaios.Base.{
  ◌<◌, ℕ, suc, ◌<◌, ◌≡◌, ◌⊎◌, inl, inr, refl, sym, ap, ◌∙◌, List, [], ◌∷◌, length, none, some,
  Bool-cases, true, false, arith, ◌==◌, eqb→eq, leb,
}
use vaios.Machine.{ℤ}
use vaios.Pbus.{
  Job, Pbus, JobState, modify, can_submit, enqueue, release, v_pbus_submit, v_pbus_abort_isr,
}
use vaios.Pbus.Queue.{Arbitrated, Follows-frame}
use vaios.Pbus.Enqueue.{placed}
use vaios.Pbus.Arbiter.{Sorted-frame, enqueue-Arbitrated}
use vaios.Pbus.Dispatch.{Served, Kept}
use vaios.Pbus.Served.{dispatch-Served, dispatch-after_Served, release-Kept}

length-placed :
    (jobs : ℕ → Job) (p job : ℕ) (xs : List ℕ) → length (placed jobs p job xs) ≡ suc (length xs)
unfolding placed
length-placed jobs p job [] = refl
length-placed jobs p job (x ∷ xs) = elim (Bool-cases (leb p (jobs x).prio)) [
  | inl on ↦ rw on (ap suc (length-placed jobs p job xs))
  | inr stop ↦ rw stop refl
]

can_submit-idle :
    (j : Job) (start : ℕ) → j.start ≡ some start → j.state ≡ JobState.job_idle → can_submit j ≡ true
unfolding can_submit
can_submit-idle j start starts idle = rw (starts, idle) refl

-- The semaphore of a job is no concern of the queue.
module _ (b : Pbus) (job : ℕ) where
  plain : Pbus
  plain = modify job (λ j. record j { grant = none }) b

  plain-field {ℓ} :
      {A : Type ℓ} (field : Job → A)
      → ((j : Job) → field (record j { grant = none }) ≡ field j)
      → (x : ℕ) → field (plain.jobs x) ≡ field (b.jobs x)
  unfolding plain
  plain-field field same x = elim (Bool-cases (job == x)) [
    | inl e ↦ rw (e, eqb→eq job x e) (same (b.jobs x))
    | inr ne ↦ rw ne refl
  ]

  plain-Arbitrated : (xs : List ℕ) → Arbitrated b xs → Arbitrated plain xs
  unfolding plain
  plain-Arbitrated xs h = record {
    chain =
        Follows-frame b.jobs plain.jobs b.queue xs (λ x i. plain-field (λ j. j.next) (λ j. refl) x)
          h.chain;
    distinct = h.distinct;
    sorted = Sorted-frame b.jobs plain.jobs xs (plain-field (λ j. j.prio) (λ j. refl)) h.sorted;
    queued = λ x i. plain-field (λ j. j.state) (λ j. refl) x ∙ h.queued x i;
    listed = λ x q. h.listed x (sym (plain-field (λ j. j.state) (λ j. refl) x) ∙ q);
    lone = h.lone;
    on_bus = λ x e. plain-field (λ j. j.state) (λ j. refl) x ∙ h.on_bus x e;
  }

module _ (hook : ℕ → ℕ → ℤ → Pbus → Pbus) (answer : ℕ → ℕ → ℤ) (limit : ℕ)
    (kept : (done job : ℕ) (rc : ℤ) (b : Pbus) (xs : List ℕ)
      → length xs < limit
      → Arbitrated b xs
      → Kept xs (hook done job rc b)) where
  pub v_pbus_submit-Served :
      (fuel job start : ℕ) (b : Pbus) (xs : List ℕ)
      → suc (length xs) < fuel
      → length xs < limit
      → Arbitrated b xs
      → (b.jobs job).start ≡ some start
      → (b.jobs job).state ≡ JobState.job_idle
      → ((v_pbus_submit hook answer fuel job b).0 ≡ true)
        × Served (v_pbus_submit hook answer fuel job b).1
  unfolding v_pbus_submit plain
  v_pbus_submit-Served fuel job start b xs lt few h starts idle =
      let b' = plain b job in
      let queued =
        enqueue-Arbitrated fuel job b' xs (omega arith) (plain-Arbitrated b job xs h)
          (plain-field b job (λ j. j.state) (λ j. refl) job ∙ idle) in
      rw (can_submit-idle (b.jobs job) start starts idle) (
        refl,
        dispatch-Served hook answer limit kept fuel (enqueue fuel job b')
            (placed b'.jobs (b'.jobs job).prio job xs)
            (omega (arith, length-placed b'.jobs (b'.jobs job).prio job xs))
            (omega (arith, length-placed b'.jobs (b'.jobs job).prio job xs)) queued,
      )

  -- An abort that has a job to end.
  v_pbus_abort_isr-Served :
      (fuel : ℕ) (rc : ℤ) (b : Pbus) (xs : List ℕ)
      → length xs < fuel
      → length xs < limit
      → Arbitrated b xs
      → ((v_pbus_abort_isr hook answer fuel rc b).0 ≡ false)
        ⊎ Served (v_pbus_abort_isr hook answer fuel rc b).1
  unfolding v_pbus_abort_isr
  v_pbus_abort_isr-Served fuel rc b xs lt few h = elim (Bool-cases (release hook answer rc b).0) [
    | inr idle ↦ rw idle (inl refl)
    | inl active ↦ rw active (
        inr (
          dispatch-after_Served hook answer limit kept fuel (release hook answer rc b).1 xs lt
            (omega arith) (release-Kept hook answer limit kept rc b xs few h)))
  ]
