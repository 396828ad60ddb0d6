-- ===== src/Sched/Delayed/Order.antt =====
-- Insertion into a sequence of tasks by their wake-up ticks, the specification of
-- `add_to_delayed_list` in kernel/task.c.
use vaios.Base.{
  ℕ, ◌≡◌, ◌≢◌, refl, sym, List, [], ◌∷◌, some, Bool, if◌then◌else◌, inl, inr, ltb, Bool-cases, ◌≤◌,
  arith, ltb→lt, ltb→ge,
}
use vaios.Chain.{first, NotIn, Distinct}
use vaios.Chain.Between.{Sorted, Between, Between-only, Between-first, Between-later}

-- Insertion behind all that are due no later.
unfoldable pub insert : (ℕ → ℕ) → ℕ → List ℕ → List ℕ
insert due x [] = x ∷ []
insert due x (y ∷ ys) =
    let rest = insert due x ys in if ltb (due x) (due y) then x ∷ y ∷ ys else y ∷ rest

pub NotIn-insert :
    (due : ℕ → ℕ) (y x : ℕ) (xs : List ℕ) → y ≢ x → NotIn y xs → NotIn y (insert due x xs)
unfolding insert
NotIn-insert due y x [] ne n = (ne, tt)
NotIn-insert due y x (z ∷ xs) ne n = elim (Bool-cases (ltb (due x) (due z))) [
  | inl e ↦ rw e (ne, n)
  | inr e ↦ rw e (n.0, NotIn-insert due y x xs ne n.1)
]

pub Distinct-insert :
    (due : ℕ → ℕ) (x : ℕ) (xs : List ℕ) → Distinct xs → NotIn x xs → Distinct (insert due x xs)
unfolding insert
Distinct-insert due x [] d n = (tt, tt)
Distinct-insert due x (z ∷ xs) d n = elim (Bool-cases (ltb (due x) (due z))) [
  | inl e ↦ rw e (n, d)
  | inr e ↦ rw e (NotIn-insert due z x xs (λ q. n.0 (sym q)) d.0, Distinct-insert due x xs d.1 n.1)
]

pub insert-ext :
    (due due' : ℕ → ℕ) (x : ℕ) (xs : List ℕ)
    → ((y : ℕ) → due y ≡ due' y)
    → insert due x xs ≡ insert due' x xs
unfolding insert
insert-ext due due' x [] e = refl
insert-ext due due' x (y ∷ ys) e = rw (e x, e y, insert-ext due due' x ys e)

pub insert-nil : (due : ℕ → ℕ) (x : ℕ) → insert due x [] ≡ x ∷ []
unfolding insert
insert-nil due x = refl

pub first-insert :
    (due : ℕ → ℕ) (x y : ℕ) (ys : List ℕ)
    → ltb (due x) (due y) ≡ Bool.false
    → first (insert due x (y ∷ ys)) ≡ some y
unfolding insert
first-insert due x y ys e = rw e

pub insert-front :
    (due : ℕ → ℕ) (x y : ℕ) (ys : List ℕ)
    → ltb (due x) (due y) ≡ Bool.true
    → insert due x (y ∷ ys) ≡ x ∷ y ∷ ys
unfolding insert
insert-front due x y ys e = rw e

-- The wake-up tick of `x`, as a number, is at most that of `y`.
abbrev pub NoLater : (ℕ → ℕ) → ℕ → ℕ → Type 0
NoLater due x y = due x ≤ due y

pub insert-Between :
    (due : ℕ → ℕ) (x : ℕ) (xs : List ℕ)
    → Sorted (NoLater due) xs
    → Between (NoLater due) x xs (insert due x xs)
unfolding insert
insert-Between due x [] s = Between-only (NoLater due) (λ a b c p r. omega (arith, p, r)) x
insert-Between due x (y ∷ ys) s = elim (Bool-cases (ltb (due x) (due y))) [
  | inl e ↦ rw e (
      Between-first (NoLater due) (λ a b c p r. omega (arith, p, r)) x y ys s
        (omega (arith, ltb→lt (due x) (due y) e)) (λ p. omega (arith, ltb→lt (due x) (due y) e)))
  | inr e ↦ rw e (
      Between-later (NoLater due) (λ a b c p r. omega (arith, p, r)) x y ys (insert due x ys) s
        (ltb→ge (due x) (due y) e) (insert-Between due x ys s.1))
]
