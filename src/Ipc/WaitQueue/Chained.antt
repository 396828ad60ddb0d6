-- ===== src/Ipc/WaitQueue/Chained.antt =====
-- The wait queues of kernel/ipc.c as sequences of tasks, in the order of their priorities.
use vaios.Base.{
  ℕ, zero, suc, ◌≡◌, ◌≢◌, ◌≤◌, refl, sym, subst, ◌∙◌, inl, inr, true, false, List, [], ◌∷◌, length,
  none, some, arith, ltb, leb, if◌then◌else◌, eqb_refl, ne→eqb, Bool-cases, leb→gt, leb→le, lt→ltb,
  ge→ltb, ltb→lt, ltb→ge,
}
use vaios.Chain.{In, NotIn, Distinct, In-ne}
use vaios.Chain.Between.{Sorted, Between, Between-only, Between-first, Between-later}
use vaios.Sched.Tcb.{Pointer}
use vaios.Sched.TaskList.{Store}
use vaios.Ipc.WaitQueue.{walk_urgent, set_wait_next}

-- The tasks from `p` on through `wait_next`.
abbrev pub Waits : Store → Pointer → List ℕ → Type 0
Waits t p [] = p ≡ none
Waits t p (x ∷ xs) = (p ≡ some x) × Waits t (t x).wait_next xs

-- A task goes behind those that are at least as urgent, before the others.
abbrev pub queue_in : (ℕ → ℕ) → ℕ → List ℕ → List ℕ
queue_in prio x [] = x ∷ []
queue_in prio x (y ∷ ys) =
    let rest = queue_in prio x ys in if ltb (prio y) (prio x) then x ∷ y ∷ ys else y ∷ rest

abbrev pub prios : Store → ℕ → ℕ
prios t y = (t y).priority

-- Task `x` is at least as urgent as task `y`.
abbrev pub AsUrgent : (ℕ → ℕ) → ℕ → ℕ → Type 0
AsUrgent prio x y = prio y ≤ prio x

pub queue_in-Between :
    (prio : ℕ → ℕ) (x : ℕ) (q : List ℕ)
    → Sorted (AsUrgent prio) q
    → Between (AsUrgent prio) x q (queue_in prio x q)
queue_in-Between prio x [] s = Between-only (AsUrgent prio) (λ a b c p r. omega (arith, p, r)) x
queue_in-Between prio x (y ∷ q) s = elim (Bool-cases (ltb (prio y) (prio x))) [
  | inl e ↦ rw e (
      Between-first (AsUrgent prio) (λ a b c p r. omega (arith, p, r)) x y q s
        (omega (arith, ltb→lt (prio y) (prio x) e))
        (λ p. omega (arith, ltb→lt (prio y) (prio x) e)))
  | inr e ↦ rw e (
      Between-later (AsUrgent prio) (λ a b c p r. omega (arith, p, r)) x y q (queue_in prio x q) s
        (ltb→ge (prio y) (prio x) e) (queue_in-Between prio x q s.1))
]

pub Waits-frame :
    (t t' : Store) (p : Pointer) (xs : List ℕ)
    → ((y : ℕ) → In y xs → (t' y).wait_next ≡ (t y).wait_next)
    → Waits t p xs
    → Waits t' p xs
Waits-frame t t' p [] same h = h
Waits-frame t t' p (x ∷ xs) same h = (
  h.0,
  subst (λ q. Waits t' q xs) (sym (same x (inl refl)))
      (Waits-frame t t' (t x).wait_next xs (λ y i. same y (inr i)) h.1),
)

-- What stands behind the place that the walk finds.
abbrev pub spliced : ℕ → ℕ → Store → Store
spliced x p t = set_wait_next p (some x) (set_wait_next x (t p).wait_next t)

pub next-Waits :
    (t : Store) (y z : ℕ) (zs : List ℕ)
    → Waits t (t y).wait_next (z ∷ zs)
    → Waits t (t z).wait_next zs
next-Waits t y z zs h = h.1

walk-none : (t : Store) (prio y : ℕ) → walk_urgent zero t prio y ≡ y
unfolding walk_urgent
walk-none t prio y = refl

pub walk-end :
    (n : ℕ) (t : Store) (prio y : ℕ) → (t y).wait_next ≡ none → walk_urgent n t prio y ≡ y
unfolding walk_urgent
walk-end zero t prio y e = refl
walk-end (suc n) t prio y e = rw (walk_urgent, e)

pub walk-on :
    (n : ℕ) (t : Store) (prio y z : ℕ)
    → (t y).wait_next ≡ some z
    → leb prio (t z).priority ≡ true
    → walk_urgent (suc n) t prio y ≡ walk_urgent n t prio z
unfolding walk_urgent
walk-on n t prio y z e more = rw (walk_urgent, e, more)

pub walk-stop :
    (n : ℕ) (t : Store) (prio y z : ℕ)
    → (t y).wait_next ≡ some z
    → leb prio (t z).priority ≡ false
    → walk_urgent (suc n) t prio y ≡ y
unfolding walk_urgent
walk-stop n t prio y z e less = rw (walk_urgent, e, less)

pub walk-In :
    (fuel : ℕ) (t : Store) (prio y : ℕ) (ys : List ℕ)
    → Waits t (t y).wait_next ys
    → In (walk_urgent fuel t prio y) (y ∷ ys)
walk-In fuel t prio y [] h = inl (walk-end fuel t prio y h)
walk-In zero t prio y (z ∷ zs) h = inl (walk-none t prio y)
walk-In (suc n) t prio y (z ∷ zs) h = elim (Bool-cases (leb prio (t z).priority)) [
  | inl e ↦
      subst (λ v. In v (y ∷ z ∷ zs)) (sym (walk-on n t prio y z h.0 e))
        (inr (walk-In n t prio z zs (next-Waits t y z zs h)))
  | inr e ↦ inl (walk-stop n t prio y z h.0 e)
]

module _ (t : Store) (x : ℕ) where
  spliced-there : (p : ℕ) → (spliced x p t p).wait_next ≡ some x
  spliced-there p = rw (eqb_refl p)

  spliced-new : (p : ℕ) → x ≢ p → (spliced x p t x).wait_next ≡ (t p).wait_next
  spliced-new p ne = rw (ne→eqb p x (λ e. ne (sym e)), eqb_refl x)

  spliced-else : (p y : ℕ) → y ≢ x → y ≢ p → (spliced x p t y).wait_next ≡ (t y).wait_next
  spliced-else p y nx np = rw (ne→eqb p y (λ e. np (sym e)), ne→eqb x y (λ e. nx (sym e)))

  -- The queue behind `y` once the task is linked in behind `p`.
  abbrev pub Behind : ℕ → List ℕ → ℕ → Type 0
  Behind y ys p = Waits (spliced x p t) (spliced x p t y).wait_next (queue_in (prios t) x ys)

  pub walk-Behind :
      (fuel y : ℕ) (ys : List ℕ)
      → Waits t (t y).wait_next ys
      → Distinct (y ∷ ys)
      → NotIn x (y ∷ ys)
      → length ys ≤ fuel
      → Behind y ys (walk_urgent fuel t (t x).priority y)
  walk-Behind fuel y [] h d n le =
      subst (Behind y []) (sym (walk-end fuel t (t x).priority y h))
        (spliced-there y, spliced-new y n.0 ∙ h)
  walk-Behind zero y (z ∷ zs) h d n le = absurd (omega arith)
  walk-Behind (suc fuel) y (z ∷ zs) h d n le =
      elim (Bool-cases (leb (t x).priority (t z).priority)) [
        | inl e ↦
            let p = walk_urgent fuel t (t x).priority z in
            let rest = next-Waits t y z zs h in
            let apart : y ≢ p = In-ne y p (z ∷ zs) d.0 (walk-In fuel t (t x).priority z zs rest) in
            subst (Behind y (z ∷ zs)) (sym (walk-on fuel t (t x).priority y z h.0 e)) (
              rw (ge→ltb (t z).priority (t x).priority (leb→le (t x).priority (t z).priority e)) (
                spliced-else p y (λ q. n.0 (sym q)) apart ∙ h.0,
                walk-Behind fuel z zs rest d.1 n.1 (omega arith),
              ))
        | inr e ↦
            let z_kept = spliced-else y z (λ q. n.1.0 (sym q)) (λ q. d.0.0 (sym q)) in
            subst (Behind y (z ∷ zs)) (sym (walk-stop fuel t (t x).priority y z h.0 e)) (
              rw (lt→ltb (t z).priority (t x).priority (leb→gt (t x).priority (t z).priority e)) (
                spliced-there y,
                (
                  spliced-new y n.0 ∙ h.0,
                  subst (λ q. Waits (spliced x y t) q zs) (sym z_kept)
                      (Waits-frame t (spliced x y t) (t z).wait_next zs
                        (λ v i.
                          spliced-else y v (λ q. In-ne x v zs n.1.1 i (sym q))
                            (λ q. In-ne y v zs d.0.1 i (sym q)))
                        (next-Waits t y z zs h)),
                ),
              ))
      ]
