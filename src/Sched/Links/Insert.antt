-- ===== src/Sched/Links/Insert.antt =====
-- Putting a TCB into a doubly linked list.
use vaios.Base.{ℕ, ◌≡◌, ◌≢◌, some, List, ◌∷◌, ◌++◌}
use vaios.Sched.Tcb.{Tcb, Pointer}
use vaios.Sched.Links.{Linked, nexts, prevs}
use vaios.Chain.{first, last_or, NotIn, Distinct, In}
use vaios.Chain.Insert.{Chained-insert}

-- Putting in: `x` stands between its neighbours, which point at it.
pub Linked-insert :
    (t t' : ℕ → Tcb) (p : Pointer) (ys : List ℕ) (x : ℕ) (zs : List ℕ)
    → Linked t p (ys ++ zs)
    → Distinct (ys ++ zs)
    → NotIn x (ys ++ zs)
    → ((y : ℕ) → In y (ys ++ zs) → p ≢ some y)
    → ((y : ℕ) → y ≢ x → first zs ≢ some y → (t' y).prev ≡ (t y).prev)
    → ((y : ℕ) → y ≢ x → last_or p ys ≢ some y → (t' y).next ≡ (t y).next)
    → ((y : ℕ) → first zs ≡ some y → (t' y).prev ≡ some x)
    → ((y : ℕ) → last_or p ys ≡ some y → (t' y).next ≡ some x)
    → (t' x).prev ≡ last_or p ys
    → (t' x).next ≡ first zs
    → Linked t' p (ys ++ (x ∷ zs))
Linked-insert t t' = Chained-insert (nexts t) (prevs t) (nexts t') (prevs t')
