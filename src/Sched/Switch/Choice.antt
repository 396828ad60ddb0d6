-- ===== src/Sched/Switch/Choice.antt =====
-- The task that `get_next_task` takes from the ready lists.
use vaios.Base.{
  ℕ, ◌≡◌, ◌≢◌, ◌<◌, ◌≤◌, ◌∙◌, refl, sym, ap, subst, Bool, true, false, inl, inr, ◌⊎◌, List, [], ◌∷◌,
  none, some, Option, update, update_cases, ge→ltb, arith, eqb_refl,
}
use vaios.Sched.Tcb.{Kernel, TaskStatus, max_priority}
use vaios.Chain.{Distinct, In, NotIn}
use vaios.Sched.Bitmap.{test_bit, Highest, highest_ready_prio, highest_ready_prio-Highest}
use vaios.Sched.Ready.{rl_pop_head}
use vaios.Sched.Ready.View.{Holds, nonempty}
use vaios.Sched.Ready.Pop.{rl_pop_head-Holds, rl_pop_head-priority}
use vaios.Sched.Switch.{checked, choose, dispatch, finish, switched}
use vaios.Sched.Switch.Frame.{Holds-modify, Holds-counters}

nonempty-cons : (xs : List ℕ) → nonempty xs ≡ true → (x : ℕ) × (zs : List ℕ) × (xs ≡ x ∷ zs)
nonempty-cons [] h = absurd (ground arith)
nonempty-cons (x ∷ xs) h = (x, xs, refl)

nonempty-nil : (xs : List ℕ) → nonempty xs ≡ false → xs ≡ []
nonempty-nil [] h = refl
nonempty-nil (x ∷ xs) h = absurd (ground arith)

pub NotIn-apart : (x : ℕ) (xs : List ℕ) → ((y : ℕ) → In y xs → x ≢ y) → NotIn x xs
NotIn-apart x [] h = tt
NotIn-apart x (y ∷ xs) h = (h y (inl refl), NotIn-apart x xs (λ z m. h z (inr m)))

-- The first task of the highest queue that is not empty runs, and the others stay queued.
pub record Dispatched (q : ℕ → List ℕ) (outcome : Option Kernel) : Type 0 where
  pub result : Kernel
  pub level : ℕ
  pub task : ℕ
  pub rest : List ℕ
  pub returns : outcome ≡ some result
  pub first_there : q level ≡ task ∷ rest
  pub highest : (i : ℕ) → level < i → i ≤ max_priority → q i ≡ []
  pub is_current : result.current_task ≡ some task
  pub runs : (result.tcbs task).status ≡ TaskStatus.task_running
  pub queued : Holds result (update q level rest)

module _ (is_ram : ℕ → Bool) (c : ℕ) {k : Kernel} {q : ℕ → List ℕ} (h : Holds k q)
    (ram : (p y : ℕ) → In y (q p) → is_ram y ≡ true) where
  -- The queues that a level of the bitmap speaks of.
  empty_at : (i : ℕ) → i ≤ max_priority → test_bit k.ready_bitmap i ≡ false → q i ≡ []
  empty_at i le e = nonempty-nil (q i) (sym (h.bits i le) ∙ e)

  module _ (p x : ℕ) (zs : List ℕ) (e : q p ≡ x ∷ zs) (level : p ≤ max_priority) where
    abbrev taken : Kernel
    taken = record (rl_pop_head p k).1 { current_task = some x }

    x_place : In x (q p)
    x_place = subst (In x) (sym e) (inl refl)

    x_level : (taken.tcbs x).priority ≤ max_priority
    x_level = rw (rl_pop_head-priority p x h level zs e x, h.own p x x_place) level

    chosen : choose is_ram c (some p) k ≡ some taken
    unfolding choose checked
    chosen =
        ap (λ t. checked is_ram (t, (rl_pop_head p k).1)) (rl_pop_head-Holds p x h level zs e).0
        ∙ rw (ram p x x_place, ge→ltb max_priority (taken.tcbs x).priority x_level)

    gone : (i : ℕ) → NotIn x (update q p zs i)
    gone =
        update_cases q p zs (λ i xs. NotIn x xs) (subst Distinct e (h.distinct p)).0
          (λ i ne. NotIn-apart x (q i) (λ y m s.
            ne (sym (h.own i y m) ∙ ap (λ w. (k.tcbs w).priority) (sym s) ∙ h.own p x x_place)))

    taken-Holds : Holds taken (update q p zs)
    taken-Holds = Holds-counters taken (rl_pop_head-Holds p x h level zs e).1 refl refl refl refl

    dispatched-Holds : Holds (dispatch taken) (update q p zs)
    unfolding dispatch
    dispatched-Holds =
        Holds-counters (dispatch taken)
          (Holds-modify x (λ t. record t { status = TaskStatus.task_running }) taken-Holds gone)
          refl refl refl refl

    dispatched-current : (dispatch taken).current_task ≡ some x
    unfolding dispatch
    dispatched-current = refl

    dispatched-runs : ((dispatch taken).tcbs x).status ≡ TaskStatus.task_running
    unfolding dispatch
    dispatched-runs = rw (eqb_refl x)

  dispatched :
      (r : Option ℕ)
      → Highest k.ready_bitmap r
      → highest_ready_prio k.ready_bitmap ≡ r
      → Dispatched q (switched is_ram c k)
        ⊎ (((i : ℕ) → i ≤ max_priority → q i ≡ []) × (highest_ready_prio k.ready_bitmap ≡ none))
  unfolding switched
  dispatched none high e = inr ((λ i le. empty_at i le (high i (omega arith))), e)
  dispatched (some p) high e =
      let (x, zs, here) = nonempty-cons (q p) (sym (h.bits p (omega (arith, high.0))) ∙ high.1) in
      let le : p ≤ max_priority = omega (arith, high.0) in
      inl (record {
        result = dispatch (taken p x zs here le);
        level = p;
        task = x;
        rest = zs;
        returns = ap (λ r. finish (choose is_ram c r k)) e ∙ ap finish (chosen p x zs here le);
        first_there = here;
        highest = λ i lo hi. empty_at i hi (high.2 i lo (omega arith));
        is_current = dispatched-current p x zs here le;
        runs = dispatched-runs p x zs here le;
        queued = dispatched-Holds p x zs here le;
      })

  -- Either some queue is not empty, and its first task is dispatched, or no level is found.
  pub switched-Dispatched :
      Dispatched q (switched is_ram c k)
      ⊎ (((i : ℕ) → i ≤ max_priority → q i ≡ []) × (highest_ready_prio k.ready_bitmap ≡ none))
  switched-Dispatched =
      dispatched (highest_ready_prio k.ready_bitmap)
        (highest_ready_prio-Highest k.ready_bitmap h.small) refl
