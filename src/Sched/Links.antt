-- ===== src/Sched/Links.antt =====
-- Doubly linked lists of TCBs through `next` and `prev`, as sequences of addresses.
pub mod Insert
use vaios.Base.{ℕ, ◌≡◌, ◌≢◌, some, none, List, ◌∷◌, [], ◌++◌}
use vaios.Sched.Tcb.{Tcb, Pointer}
use vaios.Chain.{
  Chained, Chained-at, Chained-frame, Chained-snoc, Chained-remove, last_or, first, Distinct, NotIn,
  In,
}

abbrev pub nexts : (ℕ → Tcb) → ℕ → Pointer
nexts t x = (t x).next

abbrev pub prevs : (ℕ → Tcb) → ℕ → Pointer
prevs t x = (t x).prev

-- The TCBs at these addresses are linked in this order; `p` stands before the first.
abbrev pub Linked : (ℕ → Tcb) → Pointer → List ℕ → Type 0
Linked t = Chained (nexts t) (prevs t)

-- Two stores in which a TCB has the same links.
abbrev pub SameLinks : Tcb → Tcb → Type 0
SameLinks a b = (a.next ≡ b.next) × (a.prev ≡ b.prev)

-- The member between `ys` and `zs` points at its neighbours.
pub Linked-at :
    (t : ℕ → Tcb) (p : Pointer) (ys : List ℕ) (x : ℕ) (zs : List ℕ)
    → Linked t p (ys ++ (x ∷ zs))
    → ((t x).prev ≡ last_or p ys) × ((t x).next ≡ first zs)
Linked-at t = Chained-at (nexts t) (prevs t)

-- A change that keeps the links of the members keeps the list.
pub Linked-frame :
    (t t' : ℕ → Tcb) (p : Pointer) (xs : List ℕ)
    → ((x : ℕ) → In x xs → SameLinks (t' x) (t x))
    → Linked t p xs
    → Linked t' p xs
Linked-frame t t' = Chained-frame (nexts t) (prevs t) (nexts t') (prevs t')

-- Appending: the old last TCB points on to the new one, and that one back.
pub Linked-snoc :
    (t t' : ℕ → Tcb) (p : Pointer) (xs : List ℕ) (x : ℕ)
    → Linked t p xs
    → Distinct xs
    → NotIn x xs
    → ((y : ℕ) → y ≢ x → (t' y).prev ≡ (t y).prev)
    → ((y : ℕ) → y ≢ x → last_or p xs ≢ some y → (t' y).next ≡ (t y).next)
    → ((y : ℕ) → y ≢ x → last_or p xs ≡ some y → (t' y).next ≡ some x)
    → (t' x).prev ≡ last_or p xs
    → (t' x).next ≡ none
    → Linked t' p (xs ++ (x ∷ []))
Linked-snoc t t' = Chained-snoc (nexts t) (prevs t) (nexts t') (prevs t')

-- Splicing out: the neighbours of `x` take over its links.
pub Linked-remove :
    (t t' : ℕ → Tcb) (p : Pointer) (ys : List ℕ) (x : ℕ) (zs : List ℕ)
    → Linked t p (ys ++ (x ∷ zs))
    → Distinct (ys ++ (x ∷ zs))
    → ((y : ℕ) → In y (ys ++ (x ∷ zs)) → p ≢ some y)
    → ((y : ℕ) → y ≢ x → first zs ≢ some y → (t' y).prev ≡ (t y).prev)
    → ((y : ℕ) → y ≢ x → last_or p ys ≢ some y → (t' y).next ≡ (t y).next)
    → ((y : ℕ) → first zs ≡ some y → (t' y).prev ≡ (t x).prev)
    → ((y : ℕ) → last_or p ys ≡ some y → (t' y).next ≡ (t x).next)
    → Linked t' p (ys ++ zs)
Linked-remove t t' = Chained-remove (nexts t) (prevs t) (nexts t') (prevs t')
