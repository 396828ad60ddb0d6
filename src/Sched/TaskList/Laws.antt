-- ===== src/Sched/TaskList/Laws.antt =====
-- What the list calls do to the sequence of tasks that a list stands for.
use vaios.Base.{
  ℕ, zero, suc, ◌≡◌, ◌≢◌, ◌≤◌, refl, sym, ◌∙◌, List, [], ◌∷◌, ◌++◌, length, none, some, arith,
  ne→eqb, eqb_refl, inl,
}
use vaios.Sched.Tcb.{Pointer}
use vaios.Sched.Links.{Linked, Linked-frame, Linked-snoc, Linked-remove, Linked-at}
use vaios.Chain.{
  first, last, last-In, last_or-some, In-ne, NotIn, Distinct, Distinct-snoc, Distinct-splice,
  Distinct-apart, Distinct-after, none-ne-some,
}
use vaios.Sched.TaskList.{Store, set, walk, link_behind, enqueue_task, unlink, remove_task}

-- A list stands for a sequence of tasks.
pub record Listed (xs : List ℕ) (at : Pointer × Store) : Type 0 where
  pub head : at.0 ≡ first xs
  pub links : Linked at.1 none xs
  pub distinct : Distinct xs

-- A walk with a round for each task ends at the last one.
walk-last :
    (n : ℕ) (t : Store) (p : Pointer) (y : ℕ) (ys : List ℕ)
    → Linked t p (y ∷ ys)
    → length ys ≤ n
    → last (y ∷ ys) ≡ some (walk n t y)
unfolding walk
walk-last zero t p y [] h le = refl
walk-last (suc n) t p y [] h le = rw (walk, h.1)
walk-last zero t p y (z ∷ ys) h le = absurd (omega arith)
walk-last (suc n) t p y (z ∷ ys) h le =
    rw (walk, h.1) (walk-last n t (some y) z ys h.2 (omega arith))

module _ (t : Store) (x c : ℕ) (apart : c ≢ x) where
  -- The store once task `x` stands behind task `c`.
  abbrev behind : Store
  behind =
      set x (λ d. record d { prev = some c })
        (set c (λ d. record d { next = some x })
          (set x (λ d. record d { next = none; prev = none }) t))

  prev_kept : (y : ℕ) → y ≢ x → (behind y).prev ≡ (t y).prev
  prev_kept y ne = ground arith

  next_kept : (y : ℕ) → y ≢ x → some c ≢ some y → (behind y).next ≡ (t y).next
  next_kept y ne other = ground arith

  next_new : (y : ℕ) → y ≢ x → some c ≡ some y → (behind y).next ≡ some x
  next_new y ne same = ground arith

  prev_new : (behind x).prev ≡ some c
  prev_new = ground arith

  next_none : (behind x).next ≡ none
  next_none = ground arith

-- With fuel for every task, `enqueue_task` puts a task that is not on the list at its end.
enqueue_task-Listed :
    (fuel x : ℕ) (xs : List ℕ) (list : Pointer) (t : Store)
    → Listed xs (list, t)
    → NotIn x xs
    → length xs ≤ fuel
    → Listed (xs ++ (x ∷ [])) (enqueue_task fuel (some x) list t)
unfolding enqueue_task link_behind
enqueue_task-Listed fuel x [] list t h out le =
    rw (h.head)
      (record { head = refl; links = (ground arith, ground arith, tt); distinct = (tt, tt) })
enqueue_task-Listed fuel x (y ∷ ys) list t h out le =
    let t1 = set x (λ d. record d { next = none; prev = none }) t in
    let l1 : Linked t1 none (y ∷ ys) =
      Linked-frame t t1 none (y ∷ ys)
        (λ z m. let ne = ne→eqb x z (In-ne x z (y ∷ ys) out m) in (rw ne, rw ne)) h.links in
    let c = walk fuel t1 y in
    let lq : last (y ∷ ys) ≡ some c = walk-last fuel t1 none y ys l1 (omega arith) in
    let apart : c ≢ x = λ e. In-ne x c (y ∷ ys) out (last-In (y ∷ ys) c lq) (sym e) in
    rw (h.head) (record {
      head = refl;
      links =
          Linked-snoc t (behind t x c apart) none (y ∷ ys) x h.links h.distinct out
            (prev_kept t x c apart) (λ z ne other. next_kept t x c apart z ne (λ e. other (lq ∙ e)))
            (λ z ne same. next_new t x c apart z ne (sym lq ∙ same)) (prev_new t x c apart ∙ sym lq)
            (next_none t x c apart);
      distinct = Distinct-snoc (y ∷ ys) x h.distinct out;
    })

-- A task that is on a list is taken off it by `remove_task`, and the others keep their order.
remove_task-Listed :
    (x : ℕ) (ys zs : List ℕ) (list : Pointer) (t : Store)
    → Listed (ys ++ (x ∷ zs)) (list, t)
    → Listed (ys ++ zs) (remove_task (some x) list t)
unfolding remove_task unlink
remove_task-Listed x [] [] list t h =
    let np : (t x).next ≡ none = h.links.1 in
    rw (h.head, eqb_refl x, np) (record { head = refl; links = tt; distinct = tt })
remove_task-Listed x [] (z ∷ zs) list t h =
    let np : (t x).next ≡ some z = h.links.1 in
    let pp : (t x).prev ≡ none = h.links.0 in
    let apart : x ≢ z = h.distinct.0.0 in
    let other = ne→eqb z x (λ e. apart (sym e)) in
    record {
      head = rw (h.head, eqb_refl x, np) refl;
      links =
          Linked-remove t (remove_task (some x) list t).1 none [] x (z ∷ zs) h.links h.distinct
            (λ w m e. none-ne-some e)
            (λ w ne nf. rw (h.head, eqb_refl x, np, other, np) (ground arith))
            (λ w ne nl. rw (h.head, eqb_refl x, np, other, np) (ground arith))
            (λ w f. rw (h.head, eqb_refl x, np, other, np) (ground arith))
            (λ w l. rw (h.head, eqb_refl x, np, other, np) (ground arith));
      distinct = h.distinct.1;
    }
remove_task-Listed x (y ∷ ys) [] list t h =
    let (c, lq) = last_or-some y ys in
    let (pp', np) = Linked-at t none (y ∷ ys) x [] h.links in
    let pp : (t x).prev ≡ some c = pp' ∙ lq in
    let not_first = ne→eqb y x (Distinct-apart (y ∷ ys) x [] y h.distinct (inl refl)) in
    let apart : c ≢ x = Distinct-apart (y ∷ ys) x [] c h.distinct (last-In (y ∷ ys) c lq) in
    let other = ne→eqb c x apart in
    record {
      head = rw (h.head, not_first) refl;
      links =
          Linked-remove t (remove_task (some x) list t).1 none (y ∷ ys) x [] h.links h.distinct
            (λ w m e. none-ne-some e)
            (λ w ne nf. rw (h.head, not_first, pp, other, np) (ground arith))
            (λ w ne nl. rw (h.head, not_first, pp, other, np) (ground arith))
            (λ w f. rw (h.head, not_first, pp, other, np) (ground arith))
            (λ w l. rw (h.head, not_first, pp, other, np) (ground arith));
      distinct = Distinct-splice (y ∷ ys) x [] h.distinct;
    }
remove_task-Listed x (y ∷ ys) (z ∷ zs) list t h =
    let (c, lq) = last_or-some y ys in
    let (pp', np) = Linked-at t none (y ∷ ys) x (z ∷ zs) h.links in
    let pp : (t x).prev ≡ some c = pp' ∙ lq in
    let not_first = ne→eqb y x (Distinct-apart (y ∷ ys) x (z ∷ zs) y h.distinct (inl refl)) in
    let apart : c ≢ x = Distinct-apart (y ∷ ys) x (z ∷ zs) c h.distinct (last-In (y ∷ ys) c lq) in
    let other = ne→eqb c x apart in
    let after : x ≢ z = (Distinct-after (y ∷ ys) x (z ∷ zs) h.distinct).0 in
    record {
      head = rw (h.head, not_first) refl;
      links =
          Linked-remove t (remove_task (some x) list t).1 none (y ∷ ys) x (z ∷ zs) h.links
            h.distinct (λ w m e. none-ne-some e)
            (λ w ne nf. rw (h.head, not_first, pp, other, np) (ground arith))
            (λ w ne nl. rw (h.head, not_first, pp, other, np) (ground arith))
            (λ w f. rw (h.head, not_first, pp, other, np) (ground arith))
            (λ w l. rw (h.head, not_first, pp, other, np) (ground arith));
      distinct = Distinct-splice (y ∷ ys) x (z ∷ zs) h.distinct;
    }
