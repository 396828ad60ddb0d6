-- ===== src/Pbus/Served.antt =====
-- `dispatch`, `v_pbus_submit` and `v_pbus_done_isr` of kernel/periph_bus.c leave no job waiting for
-- an idle bus.
use vaios.Base.{
  ◌≤◌, ◌≢◌, ℕ, zero, suc, ◌<◌, ◌≡◌, ◌⊎◌, inl, inr, refl, sym, subst, ◌∙◌, List, [], ◌∷◌, length,
  update, Option, none, some, Bool-cases, true, false, arith,
}
use vaios.Machine.{ℤ, pos, negsuc}
use vaios.Chain.{none-ne-some}
use vaios.Pbus.{
  Pbus, JobState, modify, notify, finish, release, waiting, started, begin, round, dispatch,
}
use vaios.Pbus.Queue.{Arbitrated}
use vaios.Pbus.Dispatch.{marked, taken-Arbitrated, released-Arbitrated, Served, Kept}

abbrev Pointer : Type 0
Pointer = Option ℕ

Pointer-cases : (p : Pointer) → (p ≡ none) ⊎ ((x : ℕ) × (p ≡ some x))
Pointer-cases none = inl refl
Pointer-cases (some x) = inr (x, refl)

-- Hooks that keep a queue below `limit` jobs, and answers of `start`.
module _ (hook : ℕ → ℕ → ℤ → Pbus → Pbus) (answer : ℕ → ℕ → ℤ) (limit : ℕ)
    (kept : (done job : ℕ) (rc : ℤ) (b : Pbus) (xs : List ℕ)
      → length xs < limit
      → Arbitrated b xs
      → Kept xs (hook done job rc b)) where
  notify-Kept :
      (done : Pointer) (job : ℕ) (rc : ℤ) (b : Pbus) (xs : List ℕ)
      → length xs < limit
      → Arbitrated b xs
      → Kept xs (notify hook answer done job rc b)
  unfolding notify
  notify-Kept none job rc b xs lt h = record {
    left = xs;
    arbitrated = h;
    ready = inl (omega arith);
  }
  notify-Kept (some done) job rc b xs lt h = kept done job rc b xs lt h

  finish-Kept :
      (p : Pointer) (rc : ℤ) (b : Pbus) (xs : List ℕ)
      → length xs < limit
      → Arbitrated b xs
      → b.active ≡ p
      → Kept xs (finish hook answer p rc (record b { active = none })).1
  unfolding finish
  finish-Kept none rc b xs lt h e = record {
    left = xs;
    ready = inl (omega arith);
    arbitrated = record {
      chain = h.chain;
      distinct = h.distinct;
      sorted = h.sorted;
      queued = h.queued;
      listed = h.listed;
      lone = inl refl;
      on_bus = λ x q. h.on_bus x (e ∙ q);
    };
  }
  finish-Kept (some x) rc b xs lt h e =
      let idle = modify x (marked JobState.job_idle) (record b { active = none }) in
      notify-Kept (idle.jobs x).done x rc idle xs lt (released-Arbitrated b x xs h e)

  pub release-Kept :
      (rc : ℤ) (b : Pbus) (xs : List ℕ)
      → length xs < limit
      → Arbitrated b xs
      → Kept xs (release hook answer rc b).1
  unfolding release
  release-Kept rc b xs lt h = finish-Kept b.active rc b xs lt h refl

  waiting-active : (b : Pbus) (x : ℕ) → b.active ≡ some x → waiting hook answer b ≡ none
  unfolding waiting
  waiting-active b x e = rw e refl

  waiting-locked : (b : Pbus) → b.locked ≡ true → waiting hook answer b ≡ none
  unfolding waiting
  waiting-locked b e = elim (Pointer-cases b.active) [
    | inl empty ↦ rw (empty, e) refl
    | inr other ↦ rw (other.1) refl
  ]

  waiting-free : (b : Pbus) → b.active ≡ none → b.locked ≡ false → waiting hook answer b ≡ b.queue
  unfolding waiting
  waiting-free b e f = rw (e, f) refl

  -- A round that hands the bus over, when the rounds after it serve shorter queues.
  module _ (next : Pbus → Pbus) (x : ℕ) (xs : List ℕ) (few : length xs < limit)
      (later : (b : Pbus) → Kept xs b → Served (next b)) where
    started-Served :
        (rc : ℤ) (b : Pbus)
        → Arbitrated b xs
        → b.active ≡ some x
        → Served (started hook answer next rc b)
    unfolding started
    started-Served (pos n) b h e = record {
      left = xs;
      arbitrated = h;
      used = inl (λ q. none-ne-some (sym q ∙ e));
    }
    started-Served (negsuc n) b h e =
        later (release hook answer (negsuc n) b).1 (release-Kept (negsuc n) b xs few h)

    same : (y : ℕ) → some x ≡ some y → y ≡ x
    same y q = cc

    round-Served :
        (b : Pbus)
        → Arbitrated b (x ∷ xs)
        → b.active ≡ none
        → b.locked ≡ false
        → Served (round hook answer next (some x) b)
    unfolding round begin
    round-Served b h e f = elim (Pointer-cases (b.jobs x).grant) [
      | inr waiter ↦
          subst (λ g. Served (begin hook answer next g x taken)) (sym waiter.1)
            (record {
              left = xs;
              arbitrated =
                  taken-Arbitrated b x xs b.active true (update b.permits waiter.0 1) b.calls h
                    (inl e) (λ y q. absurd (none-ne-some (sym e ∙ q)));
              used = inr (inl refl);
            })
      | inl plain ↦
          subst (λ g. Served (begin hook answer next g x taken)) (sym plain)
            (let b' : Pbus = record {
              queue = (b.jobs x).next;
              active = some x;
              locked = b.locked;
              jobs = (modify x (marked JobState.job_active) b).jobs;
              permits = b.permits;
              calls = suc b.calls;
            } in
              started-Served (answer b.calls x) b'
                (taken-Arbitrated b x xs (some x) b.locked b.permits (suc b.calls) h (inr f) same)
                refl)
    ]
      where
        taken : Pbus
        taken = modify x (marked JobState.job_active) (record b { queue = (b.jobs x).next })

  queue-Served :
      (next : Pbus → Pbus) (fuel : ℕ) (b : Pbus) (xs : List ℕ)
      → length xs < suc fuel
      → length xs ≤ limit
      → Arbitrated b xs
      → b.active ≡ none
      → b.locked ≡ false
      → ((b' : Pbus) (ys : List ℕ)
          → length ys < fuel
          → length ys ≤ limit
          → Kept ys b'
          → Served (next b'))
      → Served (round hook answer next b.queue b)
  unfolding round
  queue-Served next fuel b [] lt le h e f later =
      subst (λ q. Served (round hook answer next q b)) (sym h.chain)
        (record { left = []; arbitrated = h; used = inr (inr refl) })
  queue-Served next fuel b (x ∷ xs) lt le h e f later =
      subst (λ q. Served (round hook answer next q b)) (sym h.chain.0)
        (round-Served next x xs (omega arith) (λ b' k. later b' xs (omega arith) (omega arith) k) b
          h e f)

  -- A bus in use stays as it is.
  dispatch-active : (fuel : ℕ) (b : Pbus) → b.active ≢ none → dispatch hook answer fuel b ≡ b
  unfolding dispatch round
  dispatch-active zero b busy = refl
  dispatch-active (suc fuel) b busy = elim (Pointer-cases b.active) [
    | inl free ↦ absurd (busy free)
    | inr other ↦ rw (waiting-active b other.0 other.1)
  ]

  dispatch-locked : (fuel : ℕ) (b : Pbus) → b.locked ≡ true → dispatch hook answer fuel b ≡ b
  unfolding dispatch round
  dispatch-locked zero b held = refl
  dispatch-locked (suc fuel) b held = rw (waiting-locked b held)

  -- A round of `dispatch` after what a hook did.
  after-Served :
      (fuel : ℕ) (b : Pbus) (xs : List ℕ)
      → length xs < fuel
      → length xs ≤ limit
      → Kept xs b
      → ((ys : List ℕ)
          → length ys < fuel
          → length ys ≤ limit
          → Arbitrated b ys
          → Served (dispatch hook answer fuel b))
      → Served (dispatch hook answer fuel b)
  after-Served fuel b xs lt le k short = elim k.ready [
    | inl fewer ↦ short k.left (omega arith) (omega arith) k.arbitrated
    | inr (inl busy) ↦
        subst Served (sym (dispatch-active fuel b busy))
          (record { left = k.left; arbitrated = k.arbitrated; used = inl busy })
    | inr (inr held) ↦
        subst Served (sym (dispatch-locked fuel b held))
          (record { left = k.left; arbitrated = k.arbitrated; used = inr (inl held) })
  ]

  pub dispatch-Served :
      (fuel : ℕ) (b : Pbus) (xs : List ℕ)
      → length xs < fuel
      → length xs ≤ limit
      → Arbitrated b xs
      → Served (dispatch hook answer fuel b)
  unfolding dispatch round
  dispatch-Served zero b xs lt le h = absurd (omega arith)
  dispatch-Served (suc fuel) b xs lt le h = elim (Pointer-cases b.active) [
    | inr other ↦
        rw (waiting-active b other.0 other.1)
          (record { left = xs; arbitrated = h; used = inl (λ q. none-ne-some (sym q ∙ other.1)) })
    | inl free ↦ elim (Bool-cases b.locked) [
      | inl held ↦
          rw (waiting-locked b held) (record { left = xs; arbitrated = h; used = inr (inl held) })
      | inr open_ ↦ rw (waiting-free b free open_) (
          queue-Served (dispatch hook answer fuel) fuel b xs lt le h free open_
            (λ b' ys p q k. after-Served fuel b' ys p q k (λ zs. dispatch-Served fuel b' zs)))
    ]
  ]

  pub dispatch-after_Served :
      (fuel : ℕ) (b : Pbus) (xs : List ℕ)
      → length xs < fuel
      → length xs ≤ limit
      → Kept xs b
      → Served (dispatch hook answer fuel b)
  dispatch-after_Served fuel b xs lt le k =
      after-Served fuel b xs lt le k (λ ys. dispatch-Served fuel b ys)
