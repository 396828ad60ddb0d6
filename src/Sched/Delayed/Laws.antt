-- ===== src/Sched/Delayed/Laws.antt =====
-- `add_to_delayed_list` is insertion into a sorted sequence.
use vaios.Base.{
  ℕ, zero, suc, ◌≡◌, ◌≢◌, ◌≤◌, refl, sym, ap, subst, ◌∙◌, List, [], ◌∷◌, ◌++◌, length, none, some,
  update_cases, arith, dec_lt, Bool, ne→eqb, eqb_refl, inl, inr, ltb, lt→ltb, ge→ltb, le→leb,
  lt→leb, Bool-cases,
}
use vaios.Sched.Tcb.{Pointer, TaskStatus}
use vaios.Sched.Links.{Linked, SameLinks, Linked-frame}
use vaios.Chain.{
  none-ne-some, first, last, last_or, In, In-ne, NotIn, Distinct, In-append_left, In-append_right,
  last-In,
}
use vaios.Sched.Links.Insert.{Linked-insert}
use vaios.Sched.TaskList.{Store, set}
use vaios.Sched.TaskList.Laws.{Listed}
use vaios.Chain.Between.{Sorted, Between}
use vaios.Sched.Delayed.Order.{
  NoLater, insert-Between, insert, Distinct-insert, insert-ext, insert-nil, first-insert,
  insert-front,
}
use vaios.Sched.Delayed.{walk_due, put_first, put_behind, place_delayed, add_to_delayed_list}

-- Where a walk from `cur` stops: behind the tasks `us`, before the tasks `zs`.
record Stop (t : Store) (due : ℕ → ℕ) (x : ℕ) (p : Pointer) (xs : List ℕ) (stop : ℕ) : Type 0 where
  us : List ℕ
  zs : List ℕ
  split : xs ≡ us ++ zs
  before : last_or p us ≡ some stop
  behind : (t stop).next ≡ first zs
  result : insert due x xs ≡ us ++ (x ∷ zs)

walk_due-Stop :
    (n : ℕ) (t : Store) (x : ℕ) (p : Pointer) (y : ℕ) (ys : List ℕ)
    → Linked t p (y ∷ ys)
    → length ys ≤ n
    → ltb (t x).delay_ticks (t y).delay_ticks ≡ Bool.false
    → Stop t (λ z. (t z).delay_ticks) x p (y ∷ ys) (walk_due n t (t x).delay_ticks y)
unfolding walk_due insert
walk_due-Stop zero t x p y [] h le later = record {
  us = y ∷ [];
  zs = [];
  split = refl;
  before = refl;
  behind = h.1;
  result = rw later;
}
walk_due-Stop (suc n) t x p y [] h le later =
    rw (walk_due, h.1)
      (record {
        us = y ∷ [];
        zs = [];
        split = refl;
        before = refl;
        behind = h.1;
        result = rw later;
      })
walk_due-Stop zero t x p y (z ∷ ys) h le later = absurd (omega arith)
walk_due-Stop (suc n) t x p y (z ∷ ys) h le later =
    elim (dec_lt (t x).delay_ticks (t z).delay_ticks) [
      | yes lt ↦
          rw (walk_due, h.1, lt→leb (t x).delay_ticks (t z).delay_ticks lt)
            (record {
              us = y ∷ [];
              zs = z ∷ ys;
              split = refl;
              before = refl;
              behind = h.1;
              result = rw (later, lt→ltb (t x).delay_ticks (t z).delay_ticks lt);
            })
      | no ge ↦
          let off = ge→ltb (t x).delay_ticks (t z).delay_ticks (omega arith) in
          let s = walk_due-Stop n t x (some y) z ys h.2 (omega arith) off in
          rw (walk_due, h.1, le→leb (t z).delay_ticks (t x).delay_ticks (omega arith))
            (record {
              us = y ∷ s.us;
              zs = s.zs;
              split = ap (λ l. y ∷ l) s.split;
              before = s.before;
              behind = s.behind;
              result = rw later (ap (λ l. y ∷ l) s.result);
            })
    ]

-- The links once `x` stands behind `c` and before `zs`.
module _ (t : Store) (x c : ℕ) (apart : c ≢ x) where
  put_behind-Linked :
      (us zs : List ℕ) (head : ℕ)
      → Linked t none (us ++ zs)
      → Distinct (us ++ zs)
      → NotIn x (us ++ zs)
      → last us ≡ some c
      → (t c).next ≡ first zs
      → Linked (put_behind x c head t).1 none (us ++ (x ∷ zs))
  unfolding put_behind
  put_behind-Linked us [] head l d n lq nq =
      let other = ne→eqb x c (λ e. apart (sym e)) in
      Linked-insert t (put_behind x c head t).1 none us x [] l d n (λ y m e. none-ne-some e)
        (λ y ne nf. rw (other, nq) (ground arith))
        (λ y ne nl. let off : some c ≢ some y = λ e. nl (lq ∙ e) in rw (other, nq) (ground arith))
        (λ y f. absurd (none-ne-some f))
        (λ y s. let same : some c ≡ some y = sym lq ∙ s in rw (other, nq) (ground arith))
        (rw (other, nq, lq) (ground arith)) (rw (other, nq) (ground arith))
  put_behind-Linked us (z ∷ zs) head l d n lq nq =
      let other = ne→eqb x c (λ e. apart (sym e)) in
      let fresh : x ≢ z = In-ne x z (us ++ (z ∷ zs)) n (In-append_right z us (z ∷ zs) (inl refl)) in
      Linked-insert t (put_behind x c head t).1 none us x (z ∷ zs) l d n (λ y m e. none-ne-some e)
        (λ y ne nf. rw (other, nq) (ground arith))
        (λ y ne nl. let off : some c ≢ some y = λ e. nl (lq ∙ e) in rw (other, nq) (ground arith))
        (λ y f. rw (other, nq) (ground arith))
        (λ y s. let same : some c ≡ some y = sym lq ∙ s in rw (other, nq) (ground arith))
        (rw (other, nq, lq) (ground arith)) (rw (other, nq) (ground arith))

put_behind-head : (t : Store) (x c y : ℕ) → (put_behind x c y t).0 ≡ some y
unfolding put_behind
put_behind-head t x c y = refl

-- The insertion of a task that is on no list, in a store where it is marked already.
place_delayed-Listed :
    (fuel x : ℕ) (xs : List ℕ) (list : Pointer) (t : Store)
    → Listed xs (list, t)
    → NotIn x xs
    → length xs ≤ fuel
    → (t x).prev ≡ none
    → Listed (insert (λ y. (t y).delay_ticks) x xs) (place_delayed fuel x list t)
unfolding place_delayed put_first
place_delayed-Listed fuel x [] list t h out le pp =
    rw (h.head, insert-nil (λ y. (t y).delay_ticks) x)
      (record { head = refl; links = (ground arith, ground arith, tt); distinct = (tt, tt) })
place_delayed-Listed fuel x (y ∷ ys) list t h out le pp =
    elim (Bool-cases (ltb (t x).delay_ticks (t y).delay_ticks)) [
      | inl first_due ↦
          rw (h.head, first_due, insert-front (λ y. (t y).delay_ticks) x y ys first_due)
            (record {
              head = refl;
              links =
                  Linked-insert t (put_first x (some y) t).1 none [] x (y ∷ ys) h.links h.distinct
                    out (λ z m e. none-ne-some e) (λ z ne nf. ground arith)
                    (λ z ne nl. ground arith) (λ z f. ground arith) (λ z f. absurd (none-ne-some f))
                    (ground arith) (ground arith);
              distinct = (out, h.distinct);
            })
      | inr later ↦
          let c = walk_due fuel t (t x).delay_ticks y in
          let s = walk_due-Stop fuel t x none y ys h.links (omega arith) later in
          let apart : c ≢ x = λ e.
            In-ne x c (y ∷ ys) out
              (subst (In c) (sym s.split) (In-append_left c s.us s.zs (last-In s.us c s.before)))
              (sym e) in
          rw (h.head, later)
            (record {
              head =
                  put_behind-head t x c y
                  ∙ sym (first-insert (λ z. (t z).delay_ticks) x y ys later);
              links = subst (Linked (put_behind x c y t).1 none) (sym s.result) (
                  put_behind-Linked t x c apart s.us s.zs y (subst (Linked t none) s.split h.links)
                    (subst Distinct s.split h.distinct) (subst (NotIn x) s.split out) s.before
                    s.behind);
              distinct = (Distinct-insert (λ z. (t z).delay_ticks) x (y ∷ ys) h.distinct out);
            })
    ]

-- The list as insertion gives it, with fuel for every task.
pub add_to_delayed_list-Listed :
    (fuel x : ℕ) (xs : List ℕ) (list : Pointer) (t : Store)
    → Listed xs (list, t)
    → NotIn x xs
    → length xs ≤ fuel
    → Listed (insert (λ y. (t y).delay_ticks) x xs) (add_to_delayed_list fuel (some x) list t)
unfolding add_to_delayed_list
add_to_delayed_list-Listed fuel x xs list t h out le =
    subst (λ ys. Listed ys (add_to_delayed_list fuel (some x) list t)) same_due
      (place_delayed-Listed fuel x xs list marked
        (record {
          head = h.head;
          links = Linked-frame t marked none xs kept h.links;
          distinct = h.distinct;
        })
        out le (rw (eqb_refl x)))
  where
    marked : Store
    marked = set x (λ c. record c { next = none; prev = none; status = TaskStatus.task_delayed }) t

    kept : (y : ℕ) → In y xs → SameLinks (marked y) (t y)
    kept y m = let ne = ne→eqb x y (In-ne x y xs out m) in (rw ne, rw ne)

    same_due : insert (λ y. (marked y).delay_ticks) x xs ≡ insert (λ y. (t y).delay_ticks) x xs
    same_due =
        insert-ext (λ y. (marked y).delay_ticks) (λ y. (t y).delay_ticks) x xs
          (update_cases t x
            (record (t x) { next = none; prev = none; status = TaskStatus.task_delayed })
            (λ y c. c.delay_ticks ≡ (t y).delay_ticks) refl (λ y ne. refl))

-- The list after an insertion.
pub record Inserted (x : ℕ) (xs : List ℕ) (t : Store) (out : Pointer × Store) : Type 0 where
  pub ys : List ℕ
  pub listed : Listed ys out
  pub between : Between (NoLater (λ y. (t y).delay_ticks)) x xs ys

-- With a round of the walk for every task, on a list that is sorted by wake-up ticks as plain
-- numbers, add_to_delayed_list puts a task that is not on it behind those whose ticks are at most
-- its own and before those whose ticks are larger, which keep their order, and the list stays
-- sorted by these numbers.
pub add_to_delayed_list-Inserted :
    (fuel x : ℕ) (xs : List ℕ) (list : Pointer) (t : Store)
    → Listed xs (list, t)
    → NotIn x xs
    → length xs ≤ fuel
    → Sorted (NoLater (λ y. (t y).delay_ticks)) xs
    → Inserted x xs t (add_to_delayed_list fuel (some x) list t)
add_to_delayed_list-Inserted fuel x xs list t h out le sorted = record {
  ys = insert (λ y. (t y).delay_ticks) x xs;
  listed = add_to_delayed_list-Listed fuel x xs list t h out le;
  between = insert-Between (λ y. (t y).delay_ticks) x xs sorted;
}
