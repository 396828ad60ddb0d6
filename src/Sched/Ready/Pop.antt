-- ===== src/Sched/Ready/Pop.antt =====
-- `rl_pop_head` takes the first task of a queue.
use vaios.Base.{
  ℕ, ◌≡◌, ◌≢◌, ◌≤◌, refl, sym, ap, ◌∙◌, subst, List, [], ◌∷◌, none, some, update, arith, ne→eqb,
  eqb_refl,
}
use vaios.Sched.Tcb.{Kernel, max_priority}
use vaios.Sched.Links.{Linked}
use vaios.Chain.{first, last, Distinct}
use vaios.Sched.Bitmap.{test_bit-rb_clear, rb_clear-lt}
use vaios.Sched.Ready.{rl_pop_head, pop_at}
use vaios.Sched.Ready.View.{Holds, nonempty}
use vaios.Sched.Ready.Splice.{Spliced, Spliced-Holds}

module _ {k : Kernel} {q : ℕ → List ℕ} (p x : ℕ) (h : Holds k q) (level : p ≤ max_priority) where
  head_found : (zs : List ℕ) → q p ≡ x ∷ zs → k.ready_lists p ≡ some x
  head_found zs e = h.heads p ∙ ap first e

  links_found : (zs : List ℕ) → q p ≡ x ∷ zs → Linked k.tcbs none (x ∷ zs)
  links_found zs e = subst (Linked k.tcbs none) e (h.links p)

  popped : (zs : List ℕ) → q p ≡ x ∷ zs → Spliced k (rl_pop_head p k).1 p x [] zs
  unfolding rl_pop_head
  popped [] e =
      let hp = head_found [] e in
      let np : (k.tcbs x).next ≡ none = (links_found [] e).1 in
      rw (hp, np)
        (record {
          prev_kept = λ y ne nf. ground arith;
          next_kept = λ y ne nl. ground arith;
          prev_joined = λ y f. cc;
          next_joined = λ y l. cc;
          priority_kept = λ y. ground arith;
          status_kept = λ y. ground arith;
          heads_kept = λ i ne. ground arith;
          head_new = ground arith;
          tails_kept = λ i ne. ground arith;
          tail_new = ground arith;
          bits_kept = λ i le ne.
              test_bit-rb_clear k.ready_bitmap p h.small (omega arith) i (omega arith)
              ∙ rw (ne→eqb p i (λ e. ne (sym e)));
          bit_new =
              test_bit-rb_clear k.ready_bitmap p h.small (omega arith) p (omega arith)
              ∙ rw (eqb_refl p);
          small = rb_clear-lt k.ready_bitmap p h.small (omega arith);
        })
  popped (z ∷ zs) e =
      let hp = head_found (z ∷ zs) e in
      let l = links_found (z ∷ zs) e in
      let np : (k.tcbs x).next ≡ some z = l.1 in
      let pp : (k.tcbs x).prev ≡ none = l.0 in
      let ne : x ≢ z = (subst Distinct e (h.distinct p)).0.0 in
      rw (hp, np)
        (record {
          prev_kept = λ y ne nf. ground arith;
          next_kept = λ y ne nl. ground arith;
          prev_joined = λ y f. ground arith;
          next_joined = λ y l. cc;
          priority_kept = λ y. ground arith;
          status_kept = λ y. ground arith;
          heads_kept = λ i ne. ground arith;
          head_new = ground arith;
          tails_kept = λ i ne. refl;
          tail_new = h.tails p ∙ ap last e;
          bits_kept = λ i le ne. refl;
          bit_new = h.bits p level ∙ ap nonempty e;
          small = h.small;
        })

  -- From a queue of a valid level with a first task, `rl_pop_head` returns that task, the others
  -- keep their order, and the ready lists stay in agreement with their queues.
  pub rl_pop_head-Holds :
      (zs : List ℕ)
      → q p ≡ x ∷ zs
      → ((rl_pop_head p k).0 ≡ some x) × Holds (rl_pop_head p k).1 (update q p zs)
  unfolding rl_pop_head
  rl_pop_head-Holds zs e =
      (ap (λ t. (pop_at t p k).0) (head_found zs e), Spliced-Holds [] zs h e (popped zs e))

  -- No priority changes.
  pub rl_pop_head-priority :
      (zs : List ℕ)
      → q p ≡ x ∷ zs
      → (y : ℕ) → ((rl_pop_head p k).1.tcbs y).priority ≡ (k.tcbs y).priority
  rl_pop_head-priority zs e = (popped zs e).priority_kept
