-- ===== src/Pbus/Examples.antt =====
-- The arbiter of kernel/periph_bus.c with job 0, of priority 5, on the bus, and jobs 1 and 2 waiting,
-- of priorities 7 and 4; the others, of priority 7, are idle.
use vaios.Base.{
  ℕ, zero, suc, ◌≡◌, ◌≢◌, inl, inr, refl, ◌≤◌, ◌==◌, if◌then◌else◌, Option, none, some, false,
  arith, [], ◌∷◌,
}
use vaios.Machine.{ℤ, pos, negsuc}
use vaios.Chain.{In}
use vaios.Pbus.{Job, JobState, Pbus, enqueue}
use vaios.Pbus.Queue.{Arbitrated}
use vaios.Pbus.Enqueue.{placed}
use vaios.Pbus.Arbiter.{enqueue-Arbitrated}
use vaios.Pbus.Resubmit.{resubmit}

abbrev job_of : ℕ → Option ℕ → JobState → Job
job_of prio next state = record {
  start = some 100;
  done = some 200;
  prio = prio;
  next = next;
  grant = none;
  state = state;
}

abbrev jobs : ℕ → Job
jobs zero = job_of 5 none JobState.job_active
jobs (suc zero) = job_of 7 (some 2) JobState.job_queued
jobs (suc (suc zero)) = job_of 4 none JobState.job_queued
jobs (suc (suc (suc n))) = job_of 7 none JobState.job_idle

abbrev bus : Pbus
bus = record {
  queue = some 1;
  active = some 0;
  locked = false;
  jobs = jobs;
  permits = λ s. 0;
  calls = 1;
}

listed : (x : ℕ) → (jobs x).state ≡ JobState.job_queued → In x (1 ∷ 2 ∷ [])
listed zero q = absurd cc
listed (suc zero) q = inl refl
listed (suc (suc zero)) q = inr (inl refl)
listed (suc (suc (suc n))) q = absurd cc

queued : (x : ℕ) → In x (1 ∷ 2 ∷ []) → (jobs x).state ≡ JobState.job_queued
queued x (inl e) = rw e refl
queued x (inr (inl e)) = rw e refl
queued x (inr (inr i)) = absurd i

below : (y : ℕ) → In y (2 ∷ []) → (jobs y).prio ≤ 7
below y (inl e) = rw e (omega arith)
below y (inr i) = absurd i

on_bus : (x : ℕ) → ◌≡◌ {A = Option ℕ} (some 0) (some x) → (jobs x).state ≡ JobState.job_active
on_bus zero e = refl
on_bus (suc x) e = absurd (apart (cc))
  where
    apart : 0 ≢ suc x
    apart q = omega arith

bus-Arbitrated : Arbitrated bus (1 ∷ 2 ∷ [])
bus-Arbitrated = record {
  chain = (refl, (refl, refl));
  distinct = (((λ e. omega (arith, e)), tt), (tt, tt));
  sorted = (below, ((λ y i. absurd i), tt));
  queued = queued;
  listed = listed;
  lone = inr refl;
  on_bus = on_bus;
}

abbrev answer : ℕ → ℕ → ℤ
answer n job = if n == 1 then negsuc 0 else pos 0

-- The hooks submit their jobs again, up to three calls in one another.
abbrev hook : ℕ → ℕ → ℤ → Pbus → Pbus
hook = resubmit answer 5 3

enqueue-Arbitrated_example : Arbitrated (enqueue 2 3 bus) (placed bus.jobs 7 3 (1 ∷ 2 ∷ []))
enqueue-Arbitrated_example =
    enqueue-Arbitrated 2 3 bus (1 ∷ 2 ∷ []) (omega arith) bus-Arbitrated refl
