-- ===== src/Pbus/Resubmit.antt =====
-- A `done` that submits its job again, as include/periph_bus.h allows.
use vaios.Base.{
  ℕ, zero, suc, ◌≡◌, ◌<◌, inl, inr, refl, sym, subst, List, length, Option, none, some, true, false,
  arith, Bool-cases, ◌&&◌,
}
use vaios.Machine.{ℤ}
use vaios.Pbus.{Job, Pbus, JobState, is_some, is_idle, can_submit, v_pbus_submit}
use vaios.Pbus.Queue.{Arbitrated}
use vaios.Pbus.Dispatch.{Kept, Served-Kept}
use vaios.Pbus.Calls.{v_pbus_submit-Served}

-- The hook submits its job, with `fuel` for `dispatch`; a `done` that this runs does the same, down
-- to `depth` calls in one another.
unfoldable pub resubmit : (ℕ → ℕ → ℤ) → ℕ → ℕ → ℕ → ℕ → ℤ → Pbus → Pbus
resubmit answer fuel zero done job rc b = b
resubmit answer fuel (suc depth) done job rc b =
    (v_pbus_submit (resubmit answer fuel depth) answer fuel job b).1

guarded :
    (p : Option ℕ) (s : JobState)
    → (is_some p && is_idle s) ≡ true
    → (start : ℕ) × (p ≡ some start) × (s ≡ JobState.job_idle)
guarded (some start) JobState.job_idle ok = (start, refl, refl)
guarded (some start) JobState.job_queued ok = absurd cc
guarded (some start) JobState.job_active ok = absurd cc
guarded none s ok = absurd cc

can_submit-job :
    (j : Job)
    → can_submit j ≡ true
    → (start : ℕ) × (j.start ≡ some start) × (j.state ≡ JobState.job_idle)
unfolding can_submit
can_submit-job j ok = guarded j.start j.state ok

unchanged :
    (hook : ℕ → ℕ → ℤ → Pbus → Pbus) (answer : ℕ → ℕ → ℤ) (fuel job : ℕ) (b : Pbus)
    → can_submit (b.jobs job) ≡ false
    → (v_pbus_submit hook answer fuel job b).1 ≡ b
unfolding v_pbus_submit
unchanged hook answer fuel job b no_submit = rw no_submit

-- It leaves a queue no longer, or the bus in use.
pub resubmit-Kept :
    (answer : ℕ → ℕ → ℤ) (limit depth done job : ℕ) (rc : ℤ) (b : Pbus) (xs : List ℕ)
    → length xs < limit
    → Arbitrated b xs
    → Kept xs (resubmit answer (suc limit) depth done job rc b)
unfolding resubmit
resubmit-Kept answer limit zero done job rc b xs lt h = record {
  left = xs;
  arbitrated = h;
  ready = inl (omega arith);
}
resubmit-Kept answer limit (suc depth) done job rc b xs lt h =
    let hook = resubmit answer (suc limit) depth in
    elim (Bool-cases (can_submit (b.jobs job))) [
      | inr shut ↦
          subst (Kept xs) (sym (unchanged hook answer (suc limit) job b shut))
            (record { left = xs; arbitrated = h; ready = inl (omega arith) })
      | inl open_ ↦
          let (start, starts, idle) = can_submit-job (b.jobs job) open_ in
          Served-Kept xs (v_pbus_submit hook answer (suc limit) job b).1
            (v_pbus_submit-Served hook answer limit (resubmit-Kept answer limit depth) (suc limit)
              job start b xs (omega arith) lt h starts idle).1
    ]
