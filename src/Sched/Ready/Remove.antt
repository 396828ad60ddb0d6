-- ===== src/Sched/Ready/Remove.antt =====
-- `rl_remove` takes a task out of the middle of its queue.
use mathlib.Core.List.{append-nil}
use vaios.Base.{
  ℕ, ◌≡◌, ◌≢◌, ◌≤◌, refl, sym, ap, ◌∙◌, subst, List, [], ◌∷◌, ◌++◌, none, some, update,
  update_cases, arith, ne→eqb, eqb_refl,
}
use vaios.Sched.Tcb.{Kernel, Tcb, Pointer, max_priority}
use vaios.Sched.Links.{Linked, Linked-at}
use vaios.Chain.{
  first, last, last_or-some, last-In, last_or-append, Distinct, Distinct-apart, Distinct-after,
  NotIn,
}
use vaios.Sched.Bitmap.{test_bit-rb_clear, rb_clear-lt}
use vaios.Sched.Ready.{rl_remove, unlink_before, unlink_after, clear_if_empty}
use vaios.Sched.Ready.View.{Holds, nonempty}
use vaios.Sched.Ready.Splice.{Spliced, Spliced-Holds}

-- A field of the TCB that no write of `rl_remove` is to is kept for every task.
module _ {A : Type 0} (field : Tcb → A)
    (free : (t : Tcb) (n p : Pointer) → field (record t { next = n; prev = p }) ≡ field t) where
  at_one :
      (k : Kernel) (i : ℕ) (n r : Pointer) (y : ℕ)
      → field (update k.tcbs i (record (k.tcbs i) { next = n; prev = r }) y) ≡ field (k.tcbs y)
  at_one k i n r y =
      update_cases k.tcbs i _ (λ j c. field c ≡ field (k.tcbs j)) (free (k.tcbs i) n r)
        (λ j ne. refl) y

  unlink_before_kept :
      (b : Pointer) (p task : ℕ) (k : Kernel) (y : ℕ)
      → field ((unlink_before b p task k).tcbs y) ≡ field (k.tcbs y)
  unfolding unlink_before
  unlink_before_kept none p task k y = refl
  unlink_before_kept (some b) p task k y = at_one k b (k.tcbs task).next (k.tcbs b).prev y

  unlink_after_kept :
      (a : Pointer) (p task : ℕ) (k : Kernel) (y : ℕ)
      → field ((unlink_after a p task k).tcbs y) ≡ field (k.tcbs y)
  unfolding unlink_after
  unlink_after_kept none p task k y = refl
  unlink_after_kept (some a) p task k y = at_one k a (k.tcbs a).next (k.tcbs task).prev y

  clear_kept :
      (l : Pointer) (p : ℕ) (k : Kernel) (y : ℕ)
      → field ((clear_if_empty l p k).tcbs y) ≡ field (k.tcbs y)
  unfolding clear_if_empty
  clear_kept none p k y = refl
  clear_kept (some l) p k y = refl

  pub rl_remove_kept :
      (task : ℕ) (k : Kernel) (y : ℕ) → field ((rl_remove task k).tcbs y) ≡ field (k.tcbs y)
  unfolding rl_remove
  rl_remove_kept task k y =
      let p = (k.tcbs task).priority in
      let k1 = unlink_before (k.tcbs task).prev p task k in
      let k2 = unlink_after (k1.tcbs task).next p task k1 in
      let k3 = clear_if_empty (k2.ready_lists p) p k2 in
      at_one k3 task none none y
      ∙ clear_kept (k2.ready_lists p) p k2 y
      ∙ unlink_after_kept (k1.tcbs task).next p task k1 y
      ∙ unlink_before_kept (k.tcbs task).prev p task k y

module _ {k : Kernel} {q : ℕ → List ℕ} (x : ℕ) (h : Holds k q)
    (level : (k.tcbs x).priority ≤ max_priority) where
  abbrev p : ℕ
  p = (k.tcbs x).priority

  -- Where the task stands, and what its links say.
  links_found :
      (ys zs : List ℕ)
      → q p ≡ ys ++ (x ∷ zs)
      → ((k.tcbs x).prev ≡ last ys) × ((k.tcbs x).next ≡ first zs)
  links_found ys zs e = Linked-at k.tcbs none ys x zs (subst (Linked k.tcbs none) e (h.links p))

  -- The task before it is another one.
  before_x : (ys zs : List ℕ) → q p ≡ ys ++ (x ∷ zs) → (b : ℕ) → last ys ≡ some b → b ≢ x
  before_x ys zs e b l = Distinct-apart ys x zs b (subst Distinct e (h.distinct p)) (last-In ys b l)

  -- And so are those behind it.
  after_x : (ys zs : List ℕ) → q p ≡ ys ++ (x ∷ zs) → NotIn x zs
  after_x ys zs e = Distinct-after ys x zs (subst Distinct e (h.distinct p))

  removed : (ys zs : List ℕ) → q p ≡ ys ++ (x ∷ zs) → Spliced k (rl_remove x k) p x ys zs
  unfolding rl_remove
  removed [] [] e =
      let (pp, np) = links_found [] [] e in
      let self = eqb_refl p in
      rw (pp, np, self)
        (record {
          prev_kept = λ y ne nf. ground arith;
          next_kept = λ y ne nl. ground arith;
          prev_joined = λ y f. ground arith;
          next_joined = λ y l. ground arith;
          priority_kept = λ y. ground arith;
          status_kept = λ y. ground arith;
          heads_kept = λ i ne. ground arith;
          head_new = ground arith;
          tails_kept = λ i ne. ground arith;
          tail_new = ground arith;
          bits_kept = λ i le ne.
              test_bit-rb_clear k.ready_bitmap p h.small (omega arith) i (omega arith)
              ∙ rw (ne→eqb p i (λ e. ne (sym e)));
          bit_new =
              test_bit-rb_clear k.ready_bitmap p h.small (omega arith) p (omega arith)
              ∙ rw (eqb_refl p);
          small = rb_clear-lt k.ready_bitmap p h.small (omega arith);
        })
  removed [] (z ∷ zs) e =
      let (pp, np) = links_found [] (z ∷ zs) e in
      let after : x ≢ z = (after_x [] (z ∷ zs) e).0 in
      let self = eqb_refl p in
      rw (pp, np, self)
        (record {
          prev_kept = λ y ne nf. ground arith;
          next_kept = λ y ne nl. ground arith;
          prev_joined = λ y f. ground arith;
          next_joined = λ y l. ground arith;
          priority_kept = λ y. ground arith;
          status_kept = λ y. ground arith;
          heads_kept = λ i ne. ground arith;
          head_new = ground arith;
          tails_kept = λ i ne. ground arith;
          tail_new = h.tails p ∙ ap last e;
          bits_kept = λ i le ne. refl;
          bit_new = h.bits p level ∙ ap nonempty e;
          small = h.small;
        })
  removed (y ∷ ys) [] e =
      let (b, lb) = last_or-some y ys in
      let (pp', np) = links_found (y ∷ ys) [] e in
      let pp : (k.tcbs x).prev ≡ some b = pp' ∙ lb in
      let hp : k.ready_lists p ≡ some y = h.heads p ∙ ap first e in
      let ln : last ((y ∷ ys) ++ []) ≡ some b = ap last (append-nil (y ∷ ys)) ∙ lb in
      let apart : b ≢ x = before_x (y ∷ ys) [] e b lb in
      rw (pp, ne→eqb b x apart, np, hp)
        (record {
          prev_kept = λ y ne nf. ground arith;
          next_kept = λ y ne nl. ground arith;
          prev_joined = λ y f. ground arith;
          next_joined = λ y l. ground arith;
          priority_kept = λ y. ground arith;
          status_kept = λ y. ground arith;
          heads_kept = λ i ne. ground arith;
          head_new = ground arith;
          tails_kept = λ i ne. ground arith;
          tail_new = rw ln (ground arith);
          bits_kept = λ i le ne. refl;
          bit_new = h.bits p level ∙ ap nonempty e;
          small = h.small;
        })
  removed (y ∷ ys) (z ∷ zs) e =
      let (b, lb) = last_or-some y ys in
      let (pp', np) = links_found (y ∷ ys) (z ∷ zs) e in
      let pp : (k.tcbs x).prev ≡ some b = pp' ∙ lb in
      let hp : k.ready_lists p ≡ some y = h.heads p ∙ ap first e in
      let apart : b ≢ x = before_x (y ∷ ys) (z ∷ zs) e b lb in
      let after : x ≢ z = (after_x (y ∷ ys) (z ∷ zs) e).0 in
      let other = ne→eqb b x apart in
      record {
        prev_kept = λ y ne nf. rw (pp, other, np, hp) (ground arith);
        next_kept = λ y ne nl. rw (pp, other, np, hp) (ground arith);
        prev_joined = λ y f. rw (pp, other, np, hp) (ground arith);
        next_joined = λ y l. rw (pp, other, np, hp) (ground arith);
        priority_kept = λ y. rl_remove_kept (λ c. c.priority) (λ t n r. refl) x k y;
        status_kept = λ y. rl_remove_kept (λ c. c.status) (λ t n r. refl) x k y;
        heads_kept = λ i ne. rw (pp, other, np, hp) (ground arith);
        head_new = rw (pp, other, np, hp) (ground arith);
        tails_kept = λ i ne. rw (pp, other, np, hp) (ground arith);
        tail_new =
            rw (pp, other, np, hp)
              (h.tails p
                ∙ ap last e
                ∙ last_or-append (some y) ys x (z ∷ zs)
                ∙ sym (last_or-append (some y) ys z zs));
        bits_kept = λ i le ne. rw (pp, other, np, hp) refl;
        bit_new = rw (pp, other, np, hp) (h.bits p level ∙ ap nonempty e);
        small = rw (pp, other, np, hp) h.small;
      }

  -- A task of a valid priority that is on its ready list is taken out by `rl_remove`, the others
  -- keep their order, and the ready lists stay in agreement with their queues.
  pub rl_remove-Holds :
      (ys zs : List ℕ)
      → q (k.tcbs x).priority ≡ ys ++ (x ∷ zs)
      → Holds (rl_remove x k) (update q (k.tcbs x).priority (ys ++ zs))
  rl_remove-Holds ys zs e = Spliced-Holds ys zs h e (removed ys zs e)
