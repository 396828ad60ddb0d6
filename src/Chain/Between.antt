-- ===== src/Chain/Between.antt =====
-- Where a new member goes in a sequence that an order sorts.
use vaios.Base.{ℕ, ◌≡◌, inl, inr, refl, sym, ap, subst, List, [], ◌∷◌, ◌++◌}
use vaios.Chain.{In, In-append, In-append_left, In-append_right}

-- Each member stands in the order with those behind it.
abbrev pub Sorted : (ℕ → ℕ → Type 0) → List ℕ → Type 0
Sorted R [] = Unit {0}
Sorted R (x ∷ xs) = ((y : ℕ) → In y xs → R x y) × Sorted R xs

-- `ys` is `xs` with `x` behind all that stand in the order with it and before the others, and is
-- sorted.
pub record Between (R : ℕ → ℕ → Type 0) (x : ℕ) (xs ys : List ℕ) : Type 0 where
  pub ahead : List ℕ
  pub behind : List ℕ
  pub split : xs ≡ ahead ++ behind
  pub placed : ys ≡ ahead ++ (x ∷ behind)
  pub ahead_first : (y : ℕ) → In y ahead → R y x
  pub behind_last : (y : ℕ) → In y behind → R y x → ⊥
  pub sorted : Sorted R ys

module _ (R : ℕ → ℕ → Type 0) (trans : (a b c : ℕ) → R a b → R b c → R a c) (x : ℕ) where
  pub Between-only : Between R x [] (x ∷ [])
  Between-only = record {
    ahead = [];
    behind = [];
    split = refl;
    placed = refl;
    ahead_first = λ y i. absurd i;
    behind_last = λ y i. absurd i;
    sorted = ((λ y i. absurd i), tt);
  }

  pub Between-first :
      (y : ℕ) (ys : List ℕ)
      → Sorted R (y ∷ ys)
      → R x y
      → (R y x → ⊥)
      → Between R x (y ∷ ys) (x ∷ y ∷ ys)
  Between-first y ys s later off = record {
    ahead = [];
    behind = y ∷ ys;
    split = refl;
    placed = refl;
    ahead_first = λ z i. absurd i;
    behind_last = refused;
    sorted = (above, s);
  }
    where
      refused : (z : ℕ) → In z (y ∷ ys) → R z x → ⊥
      refused z (inl e) q = off (subst (λ t. R t x) e q)
      refused z (inr i) q = off (trans y z x (s.0 z i) q)

      above : (z : ℕ) → In z (y ∷ ys) → R x z
      above z (inl e) = rw e later
      above z (inr i) = trans x y z later (s.0 z i)

  pub Between-later :
      (y : ℕ) (ys zs : List ℕ)
      → Sorted R (y ∷ ys)
      → R y x
      → Between R x ys zs
      → Between R x (y ∷ ys) (y ∷ zs)
  Between-later y ys zs s early b = record {
    ahead = y ∷ b.ahead;
    behind = b.behind;
    split = ap (λ l. y ∷ l) b.split;
    placed = ap (λ l. y ∷ l) b.placed;
    ahead_first = first;
    behind_last = b.behind_last;
    sorted = (below, b.sorted);
  }
    where
      first : (z : ℕ) → In z (y ∷ b.ahead) → R z x
      first z (inl e) = rw e early
      first z (inr i) = b.ahead_first z i

      kept : (z : ℕ) → In z (b.ahead ++ b.behind) → R y z
      kept z i = s.0 z (subst (In z) (sym b.split) i)

      old : (z : ℕ) → In z (b.ahead ++ (x ∷ b.behind)) → R y z
      old z i = elim (In-append z b.ahead (x ∷ b.behind) i) [
        | inl j ↦ kept z (In-append_left z b.ahead b.behind j)
        | inr (inl e) ↦ rw e early
        | inr (inr j) ↦ kept z (In-append_right z b.ahead b.behind j)
      ]

      below : (z : ℕ) → In z zs → R y z
      below z i = old z (subst (In z) b.placed i)
