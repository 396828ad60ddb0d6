-- ===== src/Sched/Ready/Splice.antt =====
-- What taking one task off its ready list must do for the lists to stay in agreement with the
-- queues; `rl_pop_head` and `rl_remove` of kernel/task.c both do it.
use vaios.Base.{
  ℕ, ◌≡◌, ◌≢◌, ◌<◌, ◌≤◌, refl, sym, ap, ◌∙◌, subst, inl, inr, List, ◌∷◌, ◌++◌, none, some, update,
  update_cases,
}
use vaios.Sched.Tcb.{Kernel, TaskStatus, max_priority}
use vaios.Sched.Links.{Linked, Linked-frame, Linked-remove}
use vaios.Chain.{
  none-ne-some, first, last, last-In, first-In, Distinct, Distinct-splice, In, In-splice,
  In-append_left, In-append_right,
}
use vaios.Sched.Bitmap.{test_bit}
use vaios.Sched.Ready.View.{Holds, nonempty}

-- Task `x`, with `ys` before it and `zs` behind it in list `p`, is off the list.
pub record Spliced (k k' : Kernel) (p x : ℕ) (ys zs : List ℕ) : Type 0 where
  pub prev_kept : (y : ℕ) → y ≢ x → first zs ≢ some y → (k'.tcbs y).prev ≡ (k.tcbs y).prev
  pub next_kept : (y : ℕ) → y ≢ x → last ys ≢ some y → (k'.tcbs y).next ≡ (k.tcbs y).next
  pub prev_joined : (y : ℕ) → first zs ≡ some y → (k'.tcbs y).prev ≡ (k.tcbs x).prev
  pub next_joined : (y : ℕ) → last ys ≡ some y → (k'.tcbs y).next ≡ (k.tcbs x).next
  pub priority_kept : (y : ℕ) → (k'.tcbs y).priority ≡ (k.tcbs y).priority
  pub status_kept : (y : ℕ) → (k'.tcbs y).status ≡ (k.tcbs y).status
  pub heads_kept : (i : ℕ) → i ≢ p → k'.ready_lists i ≡ k.ready_lists i
  pub head_new : k'.ready_lists p ≡ first (ys ++ zs)
  pub tails_kept : (i : ℕ) → i ≢ p → k'.ready_tails i ≡ k.ready_tails i
  pub tail_new : k'.ready_tails p ≡ last (ys ++ zs)
  pub bits_kept :
      (i : ℕ) → i ≤ max_priority → i ≢ p → test_bit k'.ready_bitmap i ≡ test_bit k.ready_bitmap i
  pub bit_new : test_bit k'.ready_bitmap p ≡ nonempty (ys ++ zs)
  pub small : k'.ready_bitmap < 256

module _ {k k' : Kernel} {q : ℕ → List ℕ} {p x : ℕ} (ys zs : List ℕ) (h : Holds k q)
    (here : q p ≡ ys ++ (x ∷ zs)) (s : Spliced k k' p x ys zs) where
  open s use {
    prev_kept, next_kept, prev_joined, next_joined, priority_kept, status_kept, heads_kept,
    head_new, tails_kept, tail_new, bits_kept, bit_new, small,
  }

  old_place : (y : ℕ) → In y (ys ++ (x ∷ zs)) → In y (q p)
  old_place y m = subst (In y) (sym here) m

  off : (i : ℕ) → i ≢ p → (y : ℕ) → In y (q i) → (z : ℕ) → In z (ys ++ (x ∷ zs)) → y ≢ z
  off i ne y m z n e =
      ne (sym (h.own i y m) ∙ ap (λ w. (k.tcbs w).priority) e ∙ h.own p z (old_place z n))

  x_place : In x (ys ++ (x ∷ zs))
  x_place = In-append_right x ys (x ∷ zs) (inl refl)

  pub Spliced-Holds : Holds k' (update q p (ys ++ zs))
  Spliced-Holds = record {
    heads =
        update_cases q p _ (λ i xs. k'.ready_lists i ≡ first xs) head_new
          (λ i ne. heads_kept i ne ∙ h.heads i);
    tails =
        update_cases q p _ (λ i xs. k'.ready_tails i ≡ last xs) tail_new
          (λ i ne. tails_kept i ne ∙ h.tails i);
    links =
        update_cases q p _ (λ i xs. Linked k'.tcbs none xs)
          (Linked-remove k.tcbs k'.tcbs none ys x zs (subst (Linked k.tcbs none) here (h.links p))
            (subst Distinct here (h.distinct p)) (λ y m e. none-ne-some e) prev_kept next_kept
            prev_joined next_joined)
          (λ i ne.
            Linked-frame k.tcbs k'.tcbs none (q i)
              (λ y m. (
                next_kept y (off i ne y m x x_place)
                    (λ e. off i ne y m y (In-append_left y ys (x ∷ zs) (last-In ys y e)) refl),
                prev_kept y (off i ne y m x x_place) (λ e.
                    off i ne y m y (In-append_right y ys (x ∷ zs) (inr (first-In zs y e))) refl),
              ))
              (h.links i));
    distinct =
        update_cases q p _ (λ i xs. Distinct xs)
          (Distinct-splice ys x zs (subst Distinct here (h.distinct p))) (λ i ne. h.distinct i);
    own =
        update_cases q p _ (λ i xs. (y : ℕ) → In y xs → (k'.tcbs y).priority ≡ i)
          (λ y m. priority_kept y ∙ h.own p y (old_place y (In-splice y ys x zs m)))
          (λ i ne y m. priority_kept y ∙ h.own i y m);
    ready =
        update_cases q p _ (λ i xs. (y : ℕ) → In y xs → (k'.tcbs y).status ≡ TaskStatus.task_ready)
          (λ y m. status_kept y ∙ h.ready p y (old_place y (In-splice y ys x zs m)))
          (λ i ne y m. status_kept y ∙ h.ready i y m);
    levels =
        update_cases q p _ (λ i xs. (y : ℕ) → In y xs → i ≤ max_priority)
          (λ y m. h.levels p y (old_place y (In-splice y ys x zs m))) (λ i ne. h.levels i);
    bits =
        update_cases q p _ (λ i xs. i ≤ max_priority → test_bit k'.ready_bitmap i ≡ nonempty xs)
          (λ le. bit_new) (λ i ne le. bits_kept i le ne ∙ h.bits i le);
    small = small;
  }
