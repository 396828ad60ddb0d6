-- ===== src/Mpmc/Calls.antt =====
-- `mpmc_push_timeout`, `mpmc_pop_timeout`, `mpmc_push_bulk` and `mpmc_reset` of kernel/structure.c,
-- each as the only call at its time.
use native.Mathlib.Nat.{mod-eq_of_lt}
use vaios.Base.{
  ℕ, zero, suc, ◌+◌, ◌-◌, ◌*◌, ◌≤◌, ◌<◌, ◌≡◌, refl, sym, ap, subst, ◌∙◌, ◌⊎◌, inl, inr, List, [],
  ◌∷◌, ◌++◌, none, some, true, false, ltb, tabulate, arith, dec_lt, lt→ltb, ne→eqb, eqb_refl, ◌==◌,
  if◌then◌else◌, Bool-cases,
}
use vaios.Machine.{Memory}
use vaios.Spsc.Copy.{Apart}
use vaios.Spsc.Queue.{element}
use vaios.Mpmc.{
  MpmcPolicy, mpmc_drop, mpmc_overwrite, Mpmc, Answer, passed, refused, waits, take_permit, wake,
  store_item, remove_item, overwrite_oldest, mpmc_push_timeout, mpmc_pop_timeout, push_taking,
  push_full, pop_taking, drain, give_times, mpmc_reset,
}
use vaios.Mpmc.Ring.{IsValid, permits-IsValid, contents, slot_bytes, nth}
use vaios.Mpmc.Locked.{Replaced, store_item-Pushed, overwrite_oldest-Replaced, remove_item-Removed}

-- No call is under way: one permit for each item, and one for each free slot.
pub record Settled (q : Mpmc) : Type 0 where
  pub valid : IsValid q
  pub items : q.not_empty ≡ q.count
  pub slots : q.not_full + q.count ≡ q.capacity

-- What a push comes to.
abbrev pub Push : Mpmc → Memory → ℕ → ℕ → Answer × Mpmc × Memory → Type 0
Push q m item timeout out =
    ((q.count < q.capacity)
      × (out.0 ≡ passed)
      × Settled out.1
      × (contents out.1 out.2 ≡ contents q m ++ (element m item q.elem_size ∷ [])))
    ⊎ ((q.count ≡ q.capacity)
        × (q.policy ≡ mpmc_overwrite)
        × (out.0 ≡ passed)
        × Settled out.1
        × (oldest : List ℕ) × (rest : List (List ℕ)) × (contents q m ≡ oldest ∷ rest)
        × (contents out.1 out.2 ≡ rest ++ (element m item q.elem_size ∷ [])))
    ⊎ ((q.count ≡ q.capacity)
        × (q.policy ≡ mpmc_drop)
        × (out ≡ (if timeout == 0 then refused else waits, q, m)))

module _ {q : Mpmc} (s : Settled q) (item timeout : ℕ) (m : Memory) where
  Replaced-Settled :
      Replaced q m item (overwrite_oldest item q m) → Settled (overwrite_oldest item q m).0
  unfolding overwrite_oldest
  Replaced-Settled r = record { valid = r.valid; items = s.items; slots = s.slots }

  full-Push :
      (p : MpmcPolicy)
      → q.policy ≡ p
      → q.count ≡ q.capacity
      → Push q m item timeout (push_full p item timeout q m)
  full-Push mpmc_drop e full = elim (Bool-cases (timeout == 0)) [
    | inl z ↦ rw z (inr (inr (full, e, refl)))
    | inr z ↦ rw z (inr (inr (full, e, refl)))
  ]
  full-Push mpmc_overwrite e full =
      let some_slot : (q.capacity == 0) ≡ false =
        ne→eqb q.capacity 0 (omega (arith, s.valid.some_capacity)) in
      let all : (q.count == q.capacity) ≡ true =
        ap (λ c. q.count == c) (sym full) ∙ eqb_refl q.count in
      let r = overwrite_oldest-Replaced s.valid full item m in
      rw (some_slot, all)
        (inr (
          inl
            (full, e, refl, Replaced-Settled r, slot_bytes q m q.tail, r.rest, r.queue, r.queue')))

  taken-Push :
      (n : ℕ) → q.not_full ≡ suc n → Push q m item timeout (push_taking (some n) item timeout q m)
  unfolding store_item contents
  taken-Push n e =
      let taken : IsValid (record q { not_full = n }) =
        permits-IsValid q.not_empty n q.fd_wake_rd q.fd_wake_wr s.valid in
      let room : q.count < q.capacity = omega (arith, e, s.slots) in
      let p = store_item-Pushed taken item m room in
      let told : ltb q.not_empty q.capacity ≡ true =
        lt→ltb q.not_empty q.capacity (omega (arith, s.items)) in
      inl (
        room,
        refl,
        rw told (record {
          valid = permits-IsValid (suc q.not_empty) n (wake q.fd_wake_rd) q.fd_wake_wr p.valid;
          items = omega (arith, s.items, p.counted);
          slots = omega (arith, e, s.slots, p.counted);
        }),
        p.queue,
      )

  abbrev Goal : ℕ → Type 0
  Goal n = Push q m item timeout (push_taking (take_permit n) item timeout q m)

  push_taking-Push : Push q m item timeout (push_taking (take_permit q.not_full) item timeout q m)
  push_taking-Push = elim (dec_lt 0 q.not_full) [
    | yes more ↦
        let e : q.not_full ≡ suc (q.not_full - 1) = omega arith in
        subst Goal (sym e) (taken-Push (q.not_full - 1) e)
    | no empty ↦
        let e : q.not_full ≡ 0 = omega arith in
        subst Goal (sym e) (full-Push q.policy refl (omega (arith, e, s.slots)))
  ]

-- On a settled queue a push puts its item behind the others if there is room. On a full queue it
-- puts it in the place of the oldest item under the OVERWRITE policy, and under DROP it fails, or
-- waits if a time was given, and changes nothing.
pub mpmc_push_timeout-Push :
    {q : Mpmc} (item timeout : ℕ) (m : Memory)
    → Settled q
    → Push q m item timeout (mpmc_push_timeout item timeout q m)
unfolding mpmc_push_timeout
mpmc_push_timeout-Push item timeout m s = push_taking-Push s item timeout m

-- What a pop comes to.
abbrev pub Pop : Mpmc → Memory → ℕ → ℕ → Answer × Mpmc × Memory → Type 0
Pop q m target timeout out =
    ((out.0 ≡ passed)
      × Settled out.1
      × (contents q m ≡ element out.2 target q.elem_size ∷ contents out.1 out.2))
    ⊎ ((contents q m ≡ []) × (out ≡ (if timeout == 0 then refused else waits, q, m)))

module _ {q : Mpmc} (s : Settled q) (target timeout : ℕ) (m : Memory)
    (apart : Apart q.buffer (q.capacity * q.elem_size) target q.elem_size) where
  taken-Pop :
      (n : ℕ)
      → q.not_empty ≡ suc n
      → Pop q m target timeout (pop_taking (some n) target timeout q m)
  unfolding remove_item contents
  taken-Pop n e =
      let taken : IsValid (record q { not_empty = n }) =
        permits-IsValid n q.not_full q.fd_wake_rd q.fd_wake_wr s.valid in
      let r = remove_item-Removed taken (omega (arith, e, s.items)) m target apart in
      let told : ltb q.not_full q.capacity ≡ true =
        lt→ltb q.not_full q.capacity (omega (arith, e, s.items, s.slots)) in
      inl (
        refl,
        rw told (record {
          valid = permits-IsValid n (suc q.not_full) q.fd_wake_rd (wake q.fd_wake_wr) r.valid;
          items = omega (arith, e, s.items, r.counted);
          slots = omega (arith, s.slots, r.counted);
        }),
        r.queue,
      )

  empty-Pop : q.not_empty ≡ 0 → Pop q m target timeout (pop_taking none target timeout q m)
  unfolding contents
  empty-Pop e =
      let gone : q.count ≡ 0 = omega (arith, e, s.items) in
      let bare : contents q m ≡ [] = ap (λ n. tabulate n (nth q m)) gone in
      elim (Bool-cases (timeout == 0)) [
        | inl z ↦ rw z (inr (bare, refl))
        | inr z ↦ rw z (inr (bare, refl))
      ]

  abbrev PopGoal : ℕ → Type 0
  PopGoal n = Pop q m target timeout (pop_taking (take_permit n) target timeout q m)

  pop_taking-Pop : Pop q m target timeout (pop_taking (take_permit q.not_empty) target timeout q m)
  pop_taking-Pop = elim (dec_lt 0 q.not_empty) [
    | yes more ↦
        let e : q.not_empty ≡ suc (q.not_empty - 1) = omega arith in
        subst PopGoal (sym e) (taken-Pop (q.not_empty - 1) e)
    | no empty ↦ let e : q.not_empty ≡ 0 = omega arith in subst PopGoal (sym e) (empty-Pop e)
  ]

-- On a settled queue a pop, to bytes apart from the storage, takes the oldest item and leaves the
-- others; on an empty queue it fails, or waits if a time was given, and changes nothing.
pub mpmc_pop_timeout-Pop :
    {q : Mpmc} (target timeout : ℕ) (m : Memory)
    → Settled q
    → Apart q.buffer (q.capacity * q.elem_size) target q.elem_size
    → Pop q m target timeout (mpmc_pop_timeout target timeout q m)
unfolding mpmc_pop_timeout
mpmc_pop_timeout-Pop target timeout m s apart = pop_taking-Pop s target timeout m apart

drain-ends : (fuel n : ℕ) → n < fuel → drain fuel n ≡ some 0
unfolding drain
drain-ends zero n h = absurd (omega arith)
drain-ends (suc fuel) zero h = refl
drain-ends (suc fuel) (suc n) h = drain-ends fuel n (omega arith)

give_times-all : (n limit s : ℕ) → s + n ≤ limit → give_times n limit s ≡ s + n
unfolding give_times
give_times-all zero limit s h = omega arith
give_times-all (suc n) limit s h =
    let room : ltb s limit ≡ true = lt→ltb s limit (omega arith) in
    rw room (give_times-all n limit (suc s) (omega arith) ∙ omega arith)

-- mpmc_reset of a queue with valid indices ends, with fuel for more rounds than either semaphore
-- has permits: the queue is empty, and there is one permit for each of its slots.
pub mpmc_reset-ends :
    (fuel : ℕ) (q : Mpmc) (m : Memory)
    → IsValid q
    → q.not_empty < fuel
    → q.not_full < fuel
    → (q' : Mpmc) × (mpmc_reset fuel q ≡ some q')
      × Settled q'
      × (contents q' m ≡ [])
      × (q'.not_full ≡ q.capacity)
unfolding mpmc_reset contents
mpmc_reset-ends fuel q m v items slots =
    let full = give_times-all q.capacity q.capacity 0 (omega arith) in
    (
      record q {
        head = 0;
        tail = 0;
        count = 0;
        not_empty = 0;
        not_full = give_times q.capacity q.capacity 0;
      },
      rw (mpmc_reset, drain-ends fuel q.not_empty items, drain-ends fuel q.not_full slots),
      record {
        valid = record {
          some_capacity = v.some_capacity;
          small_capacity = v.small_capacity;
          inside = v.inside;
          tail_in = v.some_capacity;
          head_at = sym (mod-eq_of_lt v.some_capacity);
          count_le = omega arith;
        };
        items = refl;
        slots = omega (arith, full);
      },
      refl,
      omega (arith, full),
    )
