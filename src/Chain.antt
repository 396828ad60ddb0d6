-- ===== src/Chain.antt =====
-- Doubly linked lists through two families of links, as sequences of addresses.
pub mod Insert
pub mod Between
use vaios.Base.{
  ℕ, ◌≡◌, ◌≢◌, refl, sym, ◌∙◌, Option, none, some, List, ap, ◌⊎◌, inl, inr, [], ◌∷◌, ◌++◌,
}

abbrev Pointer : Type 0
Pointer = Option ℕ

-- The first and the last address, NULL for none.
abbrev pub first : List ℕ → Pointer
first [] = none
first (x ∷ xs) = some x

-- The last address, or `p` if there is none.
abbrev pub last_or : Pointer → List ℕ → Pointer
last_or p [] = p
last_or p (x ∷ xs) = last_or (some x) xs

abbrev pub last : List ℕ → Pointer
last xs = last_or none xs

abbrev pub NotIn : ℕ → List ℕ → Type 0
NotIn x [] = Unit {0}
NotIn x (y ∷ ys) = (x ≢ y) × NotIn x ys

abbrev pub Distinct : List ℕ → Type 0
Distinct [] = Unit {0}
Distinct (x ∷ xs) = NotIn x xs × Distinct xs

abbrev pub In : ℕ → List ℕ → Type 0
In y [] = ⊥
In y (x ∷ xs) = (y ≡ x) ⊎ In y xs

-- The objects at these addresses are linked in this order; `p` stands before the first. `nx` and
-- `bk` read the two links.
abbrev pub Chained : (ℕ → Pointer) → (ℕ → Pointer) → Pointer → List ℕ → Type 0
Chained nx bk p [] = Unit {0}
Chained nx bk p (x ∷ xs) = (bk x ≡ p) × (nx x ≡ first xs) × Chained nx bk (some x) xs

pub In-ne : (x y : ℕ) (xs : List ℕ) → NotIn x xs → In y xs → x ≢ y
In-ne x y [] n i q = absurd i
In-ne x y (z ∷ zs) n (inl e) q = n.0 (q ∙ e)
In-ne x y (z ∷ zs) n (inr i) q = In-ne x y zs n.1 i q

pub In-append_right : (y : ℕ) (xs ys : List ℕ) → In y ys → In y (xs ++ ys)
In-append_right y [] ys i = i
In-append_right y (x ∷ xs) ys i = inr (In-append_right y xs ys i)

pub NotIn-append_left : (x : ℕ) (xs ys : List ℕ) → NotIn x (xs ++ ys) → NotIn x xs
NotIn-append_left x [] ys n = tt
NotIn-append_left x (y ∷ xs) ys n = (n.0, NotIn-append_left x xs ys n.1)

some-eq : {x y : ℕ} → some x ≡ some y → x ≡ y
some-eq e = cc

last_or-In : (p : Pointer) (xs : List ℕ) (y : ℕ) → last_or p xs ≡ some y → (p ≡ some y) ⊎ In y xs
last_or-In p [] y e = inl e
last_or-In p (x ∷ xs) y e = elim (last_or-In (some x) xs y e) [
  | inl q ↦ inr (inl (sym (some-eq q)))
  | inr i ↦ inr (inr i)
]

-- A sequence that is not empty has a last address.
pub last_or-some : (x : ℕ) (xs : List ℕ) → (l : ℕ) × (last_or (some x) xs ≡ some l)
last_or-some x [] = (x, refl)
last_or-some x (y ∷ xs) = last_or-some y xs

pub last-In : (xs : List ℕ) (y : ℕ) → last xs ≡ some y → In y xs
last-In xs y e = elim (last_or-In none xs y e) [ inl q ↦ cc | inr i ↦ i ]

pub first-In : (xs : List ℕ) (y : ℕ) → first xs ≡ some y → In y xs
first-In [] y e = cc
first-In (x ∷ xs) y e = inl (sym (some-eq e))

-- A sequence with a member has a first one.
pub first-some : (a : ℕ) (l : List ℕ) → In a l → (b : ℕ) × (first l ≡ some b)
first-some a [] i = absurd i
first-some a (b ∷ l) i = (b, refl)

last_or-snoc : (z : ℕ) (xs : List ℕ) (x : ℕ) → last_or (some z) (xs ++ (x ∷ [])) ≡ some x
last_or-snoc z [] x = refl
last_or-snoc z (y ∷ ys) x = last_or-snoc y ys x

pub last-snoc : (xs : List ℕ) (x : ℕ) → last (xs ++ (x ∷ [])) ≡ some x
last-snoc [] x = refl
last-snoc (y ∷ ys) x = last_or-snoc y ys x

pub In-snoc : (y : ℕ) (xs : List ℕ) (x : ℕ) → In y (xs ++ (x ∷ [])) → In y xs ⊎ (y ≡ x)
In-snoc y [] x (inl e) = inr e
In-snoc y [] x (inr i) = absurd i
In-snoc y (z ∷ zs) x (inl e) = inl (inl e)
In-snoc y (z ∷ zs) x (inr i) = elim (In-snoc y zs x i) [ inl j ↦ inl (inr j) | inr e ↦ inr e ]

NotIn-snoc : (y : ℕ) (xs : List ℕ) (x : ℕ) → NotIn y xs → y ≢ x → NotIn y (xs ++ (x ∷ []))
NotIn-snoc y [] x n ne = (ne, tt)
NotIn-snoc y (z ∷ zs) x n ne = (n.0, NotIn-snoc y zs x n.1 ne)

pub Distinct-snoc : (xs : List ℕ) (x : ℕ) → Distinct xs → NotIn x xs → Distinct (xs ++ (x ∷ []))
Distinct-snoc [] x d n = (tt, tt)
Distinct-snoc (y ∷ ys) x d n =
    (NotIn-snoc y ys x d.0 (λ e. n.0 (sym e)), Distinct-snoc ys x d.1 n.1)

pub In-append_left : (y : ℕ) (xs ys : List ℕ) → In y xs → In y (xs ++ ys)
In-append_left y [] ys i = absurd i
In-append_left y (x ∷ xs) ys (inl e) = inl e
In-append_left y (x ∷ xs) ys (inr i) = inr (In-append_left y xs ys i)

pub In-splice :
    (y : ℕ) (ys : List ℕ) (x : ℕ) (zs : List ℕ) → In y (ys ++ zs) → In y (ys ++ (x ∷ zs))
In-splice y [] x zs i = inr i
In-splice y (w ∷ ys) x zs (inl e) = inl e
In-splice y (w ∷ ys) x zs (inr i) = inr (In-splice y ys x zs i)

NotIn-splice :
    (y : ℕ) (ys : List ℕ) (x : ℕ) (zs : List ℕ) → NotIn y (ys ++ (x ∷ zs)) → NotIn y (ys ++ zs)
NotIn-splice y [] x zs n = n.1
NotIn-splice y (w ∷ ys) x zs n = (n.0, NotIn-splice y ys x zs n.1)

pub Distinct-splice :
    (ys : List ℕ) (x : ℕ) (zs : List ℕ) → Distinct (ys ++ (x ∷ zs)) → Distinct (ys ++ zs)
Distinct-splice [] x zs d = d.1
Distinct-splice (y ∷ ys) x zs d = (NotIn-splice y ys x zs d.0, Distinct-splice ys x zs d.1)

pub Distinct-apart :
    (ys : List ℕ) (x : ℕ) (zs : List ℕ) (b : ℕ) → Distinct (ys ++ (x ∷ zs)) → In b ys → b ≢ x
Distinct-apart [] x zs b d i q = absurd i
Distinct-apart (y ∷ ys) x zs b d (inl e) q =
    In-ne y x (ys ++ (x ∷ zs)) d.0 (In-append_right x ys (x ∷ zs) (inl refl)) (sym e ∙ q)
Distinct-apart (y ∷ ys) x zs b d (inr i) q = Distinct-apart ys x zs b d.1 i q

pub Distinct-after : (ys : List ℕ) (x : ℕ) (zs : List ℕ) → Distinct (ys ++ (x ∷ zs)) → NotIn x zs
Distinct-after [] x zs d = d.0
Distinct-after (y ∷ ys) x zs d = Distinct-after ys x zs d.1

pub last_or-append :
    (p : Pointer) (ys : List ℕ) (z : ℕ) (zs : List ℕ)
    → last_or p (ys ++ (z ∷ zs)) ≡ last_or (some z) zs
last_or-append p [] z zs = refl
last_or-append p (y ∷ ys) z zs = last_or-append (some y) ys z zs

-- The member between `ys` and `zs` points at its neighbours.
pub Chained-at :
    (nx bk : ℕ → Pointer) (p : Pointer) (ys : List ℕ) (x : ℕ) (zs : List ℕ)
    → Chained nx bk p (ys ++ (x ∷ zs))
    → (bk x ≡ last_or p ys) × (nx x ≡ first zs)
Chained-at nx bk p [] x zs h = (h.0, h.1)
Chained-at nx bk p (y ∷ ys) x zs h = Chained-at nx bk (some y) ys x zs h.2

pub none-ne-some : {x : ℕ} → none ≢ some x
none-ne-some e = cc

-- The last of a distinct rest is not the address before it.
last-ne : (x : ℕ) (xs : List ℕ) (z : ℕ) → NotIn x (z ∷ xs) → last_or (some z) xs ≢ some x
last-ne x xs z n e = elim (last_or-In (some z) xs x e) [
  | inl q ↦ n.0 (sym (some-eq q))
  | inr i ↦ In-ne x x xs n.1 i refl
]

-- A change that keeps the links of the members keeps the list.
pub Chained-frame :
    (nx bk nx' bk' : ℕ → Pointer) (p : Pointer) (xs : List ℕ)
    → ((x : ℕ) → In x xs → (nx' x ≡ nx x) × (bk' x ≡ bk x))
    → Chained nx bk p xs
    → Chained nx' bk' p xs
Chained-frame nx bk nx' bk' p [] same h = tt
Chained-frame nx bk nx' bk' p (x ∷ xs) same h =
    let here = same x (inl refl) in
    (
      here.1 ∙ h.0,
      here.0 ∙ h.1,
      Chained-frame nx bk nx' bk' (some x) xs (λ y i. same y (inr i)) h.2,
    )

-- Appending: the old last object points on to the new one, and that one back.
pub Chained-snoc :
    (nx bk nx' bk' : ℕ → Pointer) (p : Pointer) (xs : List ℕ) (x : ℕ)
    → Chained nx bk p xs
    → Distinct xs
    → NotIn x xs
    → ((y : ℕ) → y ≢ x → bk' y ≡ bk y)
    → ((y : ℕ) → y ≢ x → last_or p xs ≢ some y → nx' y ≡ nx y)
    → ((y : ℕ) → y ≢ x → last_or p xs ≡ some y → nx' y ≡ some x)
    → bk' x ≡ last_or p xs
    → nx' x ≡ none
    → Chained nx' bk' p (xs ++ (x ∷ []))
Chained-snoc nx bk nx' bk' p [] x h d n kp kn l e f = (e, f, tt)
Chained-snoc nx bk nx' bk' p (y ∷ []) x h d n kp kn l e f =
    let ne : y ≢ x = λ q. n.0 (sym q) in (kp y ne ∙ h.0, l y ne refl, (e, f, tt))
Chained-snoc nx bk nx' bk' p (y ∷ z ∷ xs) x h d n kp kn l e f =
    let ne : y ≢ x = λ q. n.0 (sym q) in
    (
      kp y ne ∙ h.0,
      kn y ne (last-ne y xs z d.0) ∙ h.1,
      Chained-snoc nx bk nx' bk' (some y) (z ∷ xs) x h.2 d.1 n.1 kp kn l e f,
    )

-- Splicing out: the neighbours of `x` take over its links.
pub Chained-remove :
    (nx bk nx' bk' : ℕ → Pointer) (p : Pointer) (ys : List ℕ) (x : ℕ) (zs : List ℕ)
    → Chained nx bk p (ys ++ (x ∷ zs))
    → Distinct (ys ++ (x ∷ zs))
    → ((y : ℕ) → In y (ys ++ (x ∷ zs)) → p ≢ some y)
    → ((y : ℕ) → y ≢ x → first zs ≢ some y → bk' y ≡ bk y)
    → ((y : ℕ) → y ≢ x → last_or p ys ≢ some y → nx' y ≡ nx y)
    → ((y : ℕ) → first zs ≡ some y → bk' y ≡ bk x)
    → ((y : ℕ) → last_or p ys ≡ some y → nx' y ≡ nx x)
    → Chained nx' bk' p (ys ++ zs)
Chained-remove nx bk nx' bk' p [] x [] h d b kp kn jp jn = tt
Chained-remove nx bk nx' bk' p [] x (z ∷ zs) h d b kp kn jp jn = (
  jp z refl ∙ h.0,
  kn z (λ q. d.0.0 (sym q)) (b z (inr (inl refl))) ∙ h.2.1,
  Chained-frame nx bk nx' bk' (some z) zs
      (λ y i. (
        kn y (λ q. In-ne x y zs d.0.1 i (sym q)) (b y (inr (inr i))),
        kp y (λ q. In-ne x y zs d.0.1 i (sym q)) (λ q. In-ne z y zs d.1.0 i (some-eq q)),
      ))
      h.2.2,
)
Chained-remove nx bk nx' bk' p (y ∷ []) x zs h d b kp kn jp jn = (
  kp y d.0.0 (λ q. In-ne y y zs d.0.1 (first-In zs y q) refl) ∙ h.0,
  jn y refl ∙ h.2.1,
  Chained-remove nx bk nx' bk' (some y) [] x zs h.2 d.1
      (λ v i q. In-ne y v (x ∷ zs) d.0 i (some-eq q)) kp kn jp jn,
)
Chained-remove nx bk nx' bk' p (y ∷ w ∷ ys) x zs h d b kp kn jp jn = (
  kp y (In-ne y x rest d.0 (In-append_right x (w ∷ ys) (x ∷ zs) (inl refl)))
        (λ q. In-ne y y rest d.0 (In-append_right y (w ∷ ys) (x ∷ zs) (inr (first-In zs y q))) refl)
      ∙ h.0,
  kn y (In-ne y x rest d.0 (In-append_right x (w ∷ ys) (x ∷ zs) (inl refl)))
        (last-ne y ys w (NotIn-append_left y (w ∷ ys) (x ∷ zs) d.0))
      ∙ h.1,
  Chained-remove nx bk nx' bk' (some y) (w ∷ ys) x zs h.2 d.1
      (λ v i q. In-ne y v rest d.0 i (some-eq q)) kp kn jp jn,
)
  where
    rest : List ℕ
    rest = (w ∷ ys) ++ (x ∷ zs)

pub In-append : (y : ℕ) (xs ys : List ℕ) → In y (xs ++ ys) → In y xs ⊎ In y ys
In-append y [] ys i = inr i
In-append y (x ∷ xs) ys (inl e) = inl (inl e)
In-append y (x ∷ xs) ys (inr i) = elim (In-append y xs ys i) [ inl j ↦ inl (inr j) | inr j ↦ inr j ]

-- A member stands between those before it and those after it.
pub In-split :
    (y : ℕ) (xs : List ℕ) → In y xs → (ys : List ℕ) × (zs : List ℕ) × (xs ≡ ys ++ (y ∷ zs))
In-split y [] i = absurd i
In-split y (x ∷ xs) (inl e) = ([], xs, ap (λ v. v ∷ xs) (sym e))
In-split y (x ∷ xs) (inr i) = let (ys, zs, e) = In-split y xs i in (x ∷ ys, zs, ap (λ v. x ∷ v) e)

-- What is spliced out of a sequence without repetitions is gone.
pub Distinct-gone :
    (ys : List ℕ) (x : ℕ) (zs : List ℕ) (y : ℕ)
    → Distinct (ys ++ (x ∷ zs))
    → In y (ys ++ zs)
    → y ≢ x
Distinct-gone ys x zs y d i e = elim (In-append y ys zs i) [
  | inl j ↦ Distinct-apart ys x zs y d j e
  | inr j ↦ In-ne x y zs (Distinct-after ys x zs d) j (sym e)
]

pub In-unsplice :
    (y : ℕ) (ys : List ℕ) (x : ℕ) (zs : List ℕ) → In y (ys ++ (x ∷ zs)) → y ≢ x → In y (ys ++ zs)
In-unsplice y [] x zs (inl e) ne = absurd (ne e)
In-unsplice y [] x zs (inr i) ne = i
In-unsplice y (w ∷ ys) x zs (inl e) ne = inl e
In-unsplice y (w ∷ ys) x zs (inr i) ne = inr (In-unsplice y ys x zs i ne)
