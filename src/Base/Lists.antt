-- ===== src/Base/Lists.antt =====
-- Lists measured by native numbers, and families updated at one index.
use Prim.Native.Nat.{ℕ, zero, suc, ◌+◌, ◌<◌}
use native.Mathlib.Nat.{zero-add, suc-add}
use mathlib.Core.Path.{◌≡◌, refl, ap, ap₂, sym, subst}
use mathlib.Core.Logic.{◌≢◌, inl, inr}
use mathlib.Core.List.{List, [], ◌∷◌, ◌++◌}
use native.Mathlib.Omega.{arith}
use vaios.Base.Tests.{◌==◌, if◌then◌else◌, Bool-cases, eqb→eq, eqb→ne}

-- A family with one member replaced: the write of an array element or of a pointed-to object.
abbrev pub update {ℓ} : {A : Type ℓ} → (ℕ → A) → ℕ → A → ℕ → A
update f i a j = if i == j then a else f j

module _ {ℓ} {A : Type ℓ} where
  abbrev pub length : List A → ℕ
  length [] = 0
  length (x ∷ xs) = suc (length xs)

  pub length-append : (xs ys : List A) → length (xs ++ ys) ≡ length xs + length ys
  length-append [] ys = omega arith
  length-append (x ∷ xs) ys = omega (arith, length-append xs ys)

  -- The list of the first `n` members of a family.
  abbrev pub tabulate : ℕ → (ℕ → A) → List A
  tabulate zero g = []
  tabulate (suc n) g = g 0 ∷ tabulate n (λ k. g (suc k))

  pub tabulate-ext :
      (n : ℕ) (g h : ℕ → A) → ((k : ℕ) → k < n → g k ≡ h k) → tabulate n g ≡ tabulate n h
  tabulate-ext zero g h e = refl
  tabulate-ext (suc n) g h e =
      ap₂ ◌∷◌ (e 0 (omega arith))
        (tabulate-ext n (λ k. g (suc k)) (λ k. h (suc k)) (λ k p. e (suc k) (omega arith)))

  pub tabulate-add :
      (a n : ℕ) (g : ℕ → A) → tabulate (a + n) g ≡ tabulate a g ++ tabulate n (λ k. g (a + k))
  tabulate-add zero n g = simp zero-add
  tabulate-add (suc a) n g = simp (suc-add) (ap (λ t. g 0 ∷ t) (tabulate-add a n (λ k. g (suc k))))

  pub length-tabulate : (n : ℕ) (g : ℕ → A) → length (tabulate n g) ≡ n
  length-tabulate zero g = refl
  length-tabulate (suc n) g = ap suc (length-tabulate n (λ k. g (suc k)))

  abbrev pub drop : ℕ → List A → List A
  drop zero xs = xs
  drop (suc n) [] = []
  drop (suc n) (x ∷ xs) = drop n xs

  -- Dropping as many elements as the first part has leaves the second.
  pub drop-tabulate_append : (n : ℕ) (g : ℕ → A) (ys : List A) → drop n (tabulate n g ++ ys) ≡ ys
  drop-tabulate_append zero g ys = refl
  drop-tabulate_append (suc n) g ys = drop-tabulate_append n (λ k. g (suc k)) ys

-- What holds at the replaced member and at every other one holds of the updated family.
pub update_cases {ℓ κ} :
    {A : Type ℓ} (f : ℕ → A) (p : ℕ) (a : A) (C : ℕ → A → Type κ)
    → C p a
    → ((i : ℕ) → i ≢ p → C i (f i))
    → (i : ℕ) → C i (update f p a i)
update_cases f p a C here there i = elim (Bool-cases (p == i)) [
  | inl same ↦ rw same (subst (λ j. C j a) (eqb→eq p i same) here)
  | inr other ↦ rw other (there i (λ e. eqb→ne p i other (sym e)))
]
