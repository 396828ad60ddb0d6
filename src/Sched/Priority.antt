-- ===== src/Sched/Priority.antt =====
-- `task_change_priority` of kernel/task.c, with the calls of the ready lists that it is made of.
use vaios.Base.{
  ℕ, ◌≡◌, ◌≢◌, ◌≤◌, refl, sym, ap, subst, ◌∙◌, List, [], ◌∷◌, ◌++◌, none, some, update,
  update_cases, Bool, true, false, ltb, ge→ltb, if◌then◌else◌, eqb_refl, inl, inr,
}
use vaios.Sched.Tcb.{Kernel, TaskStatus, Pointer, max_priority, modify}
use vaios.Chain.{In, NotIn, Distinct, Distinct-apart, Distinct-after}
use vaios.Sched.Bitmap.{highest_ready_prio}
use vaios.Sched.Ready.{rl_append, rl_remove}
use vaios.Sched.Ready.View.{Holds}
use vaios.Sched.Ready.Append.{rl_append-Holds}
use vaios.Sched.Ready.Remove.{rl_remove-Holds}
use vaios.Sched.Switch.Frame.{Holds-modify}
use vaios.Sched.Switch.Choice.{NotIn-apart}

-- `add_to_ready_list`
abbrev pub add_to_ready_list : Pointer → Kernel → Kernel
add_to_ready_list none k = k
add_to_ready_list (some task) k = rl_append task k

-- `remove_from_ready_list`
abbrev pub remove_from_ready_list : Pointer → Kernel → Kernel
remove_from_ready_list none k = k
remove_from_ready_list (some task) k = rl_remove task k

-- `get_highest_priority_task`
unfoldable pub get_highest_priority_task : Kernel → Pointer
get_highest_priority_task k = elim (highest_ready_prio k.ready_bitmap) [
  | none ↦ none
  | some p ↦ k.ready_lists p
]

abbrev pub is_ready : TaskStatus → Bool
is_ready TaskStatus.task_ready = true
is_ready TaskStatus.task_running = false
is_ready TaskStatus.task_blocked = false
is_ready TaskStatus.task_delayed = false
is_ready TaskStatus.task_terminated = false

-- `task_change_priority`
unfoldable pub task_change_priority : Pointer → ℕ → Kernel → Kernel
task_change_priority none new_priority k = k
task_change_priority (some task) new_priority k =
    let change = modify task (λ t. record t { priority = new_priority }) in
    if ltb max_priority new_priority
    then k
    else if is_ready (k.tcbs task).status
    then add_to_ready_list (some task) (change (remove_from_ready_list (some task) k))
    else change k

NotIn-append :
    (x : ℕ) (ys zs : List ℕ) → ((y : ℕ) → In y ys → y ≢ x) → NotIn x zs → NotIn x (ys ++ zs)
NotIn-append x [] zs before after = after
NotIn-append x (y ∷ ys) zs before after =
    ((λ e. before y (inl refl) (sym e)), NotIn-append x ys zs (λ z m. before z (inr m)) after)

module _ {k : Kernel} {q : ℕ → List ℕ} (x : ℕ) (h : Holds k q) (ys zs : List ℕ)
    (place : q (k.tcbs x).priority ≡ ys ++ (x ∷ zs)) where
  abbrev old : ℕ
  old = (k.tcbs x).priority

  abbrev without : ℕ → List ℕ
  without = update q old (ys ++ zs)

  x_place : In x (q old)
  x_place = subst (In x) (sym place) (middle ys)
    where
      middle : (ws : List ℕ) → In x (ws ++ (x ∷ zs))
      middle [] = inl refl
      middle (w ∷ ws) = inr (middle ws)

  whole : Distinct (ys ++ (x ∷ zs))
  whole = subst Distinct place (h.distinct old)

  gone : (i : ℕ) → NotIn x (without i)
  gone =
      update_cases q old (ys ++ zs) (λ i xs. NotIn x xs)
        (NotIn-append x ys zs (λ y m. Distinct-apart ys x zs y whole m)
          (Distinct-after ys x zs whole))
        (λ i ne.
          NotIn-apart x (q i)
            (λ y m s. ne (sym (h.own i y m) ∙ ap (λ w. (k.tcbs w).priority) (sym s))))

  -- A READY task whose priority changes to a valid one leaves its queue, in which the others keep
  -- their order, and goes to the end of the queue of the new priority.
  pub task_change_priority-Holds :
      (new : ℕ)
      → new ≤ max_priority
      → Holds (task_change_priority (some x) new k) (update without new (without new ++ (x ∷ [])))
  unfolding task_change_priority
  task_change_priority-Holds new level =
      let is : (k.tcbs x).status ≡ TaskStatus.task_ready = h.ready old x x_place in
      let changed =
        Holds-modify x (λ t. record t { priority = new })
          (rl_remove-Holds x h (h.levels old x x_place) ys zs place) gone in
      let k' = modify x (λ t. record t { priority = new }) (rl_remove x k) in
      let is_new : (k'.tcbs x).priority ≡ new = rw (eqb_refl x) in
      rw (ge→ltb max_priority new level, is)
        (subst (λ p. Holds (rl_append x k') (update without p (without p ++ (x ∷ [])))) is_new
          (rl_append-Holds x changed (rw is_new level) gone))
