-- ===== src/Chain/Insert.antt =====
-- Putting an object into a doubly linked list.
use vaios.Base.{ℕ, ◌≡◌, ◌≢◌, refl, sym, ◌∙◌, Option, some, List, inl, inr, [], ◌∷◌, ◌++◌}
use vaios.Chain.{
  first, last_or, NotIn, Distinct, In, Chained, In-ne, In-append_right, NotIn-append_left, first-In,
  Chained-frame, some-eq, last-ne,
}

abbrev Pointer : Type 0
Pointer = Option ℕ

-- Putting in: `x` stands between its neighbours, which point at it.
pub Chained-insert :
    (nx bk nx' bk' : ℕ → Pointer) (p : Pointer) (ys : List ℕ) (x : ℕ) (zs : List ℕ)
    → Chained nx bk p (ys ++ zs)
    → Distinct (ys ++ zs)
    → NotIn x (ys ++ zs)
    → ((y : ℕ) → In y (ys ++ zs) → p ≢ some y)
    → ((y : ℕ) → y ≢ x → first zs ≢ some y → bk' y ≡ bk y)
    → ((y : ℕ) → y ≢ x → last_or p ys ≢ some y → nx' y ≡ nx y)
    → ((y : ℕ) → first zs ≡ some y → bk' y ≡ some x)
    → ((y : ℕ) → last_or p ys ≡ some y → nx' y ≡ some x)
    → bk' x ≡ last_or p ys
    → nx' x ≡ first zs
    → Chained nx' bk' p (ys ++ (x ∷ zs))
Chained-insert nx bk nx' bk' p [] x [] h d n b kp kn jp jn e f = (e, f, tt)
Chained-insert nx bk nx' bk' p [] x (z ∷ zs) h d n b kp kn jp jn e f = (
  e,
  f,
  (
    jp z refl,
    kn z (λ q. n.0 (sym q)) (b z (inl refl)) ∙ h.1,
    Chained-frame nx bk nx' bk' (some z) zs
        (λ y i. (
          kn y (λ q. In-ne x y zs n.1 i (sym q)) (b y (inr i)),
          kp y (λ q. In-ne x y zs n.1 i (sym q)) (λ q. In-ne z y zs d.0 i (some-eq q)),
        ))
        h.2,
  ),
)
Chained-insert nx bk nx' bk' p (y ∷ []) x zs h d n b kp kn jp jn e f = (
  kp y (λ q. n.0 (sym q)) (λ q. In-ne y y zs d.0 (first-In zs y q) refl) ∙ h.0,
  jn y refl,
  Chained-insert nx bk nx' bk' (some y) [] x zs h.2 d.1 n.1
      (λ v i q. In-ne y v zs d.0 i (some-eq q)) kp kn jp jn e f,
)
Chained-insert nx bk nx' bk' p (y ∷ w ∷ ys) x zs h d n b kp kn jp jn e f = (
  kp y (λ q. n.0 (sym q))
        (λ q. In-ne y y ((w ∷ ys) ++ zs) d.0 (In-append_right y (w ∷ ys) zs (first-In zs y q)) refl)
      ∙ h.0,
  kn y (λ q. n.0 (sym q)) (last-ne y ys w (NotIn-append_left y (w ∷ ys) zs d.0)) ∙ h.1,
  Chained-insert nx bk nx' bk' (some y) (w ∷ ys) x zs h.2 d.1 n.1
      (λ v i q. In-ne y v ((w ∷ ys) ++ zs) d.0 i (some-eq q)) kp kn jp jn e f,
)
