-- ===== src/Kmsg/Last.antt =====
-- The last elements of a list, which a ring that overwrites its oldest bytes keeps.
use vaios.Base.{
  ℕ, zero, suc, ◌+◌, ◌-◌, ◌≤◌, ◌≡◌, refl, sym, ap, ◌∙◌, arith, List, [], ◌∷◌, ◌++◌, length,
  length-append, drop,
}

module _ {ℓ} {A : Type ℓ} where
  -- The last `n` elements, or all of fewer.
  abbrev pub last : ℕ → List A → List A
  last n xs = drop (length xs - n) xs

  length-drop : (n : ℕ) (xs : List A) → length (drop n xs) ≡ length xs - n
  length-drop zero xs = omega arith
  length-drop (suc n) [] = omega arith
  length-drop (suc n) (x ∷ xs) = omega (arith, length-drop n xs)

  drop-nil : (n : ℕ) → drop {A = A} n [] ≡ []
  drop-nil zero = refl
  drop-nil (suc n) = refl

  drop-drop : (n k l : ℕ) (xs : List A) → l ≡ k + n → drop n (drop k xs) ≡ drop l xs
  drop-drop n zero l xs e = ap (λ t. drop t xs) {x = n} {y = l} (omega arith)
  drop-drop n (suc k) l [] e = drop-nil n ∙ sym (drop-nil l)
  drop-drop n (suc k) zero (x ∷ xs) e = absurd (omega arith)
  drop-drop n (suc k) (suc l) (x ∷ xs) e = drop-drop n k l xs (omega arith)

  drop-append : (n : ℕ) (xs ys : List A) → n ≤ length xs → drop n (xs ++ ys) ≡ drop n xs ++ ys
  drop-append zero xs ys le = refl
  drop-append (suc n) [] ys le = absurd (omega arith)
  drop-append (suc n) (x ∷ xs) ys le = drop-append n xs ys (omega arith)

  -- What is cut off early would be cut off later.
  pub last-append : (n : ℕ) (xs ys : List A) → last n (last n xs ++ ys) ≡ last n (xs ++ ys)
  last-append n xs ys =
      let a = length xs - n in
      let rest = drop a xs ++ ys in
      let size : length rest ≡ length xs - a + length ys =
        omega (arith, length-append (drop a xs) ys, length-drop a xs) in
      ap (drop (length rest - n)) (sym (drop-append a xs ys (omega arith)))
      ∙ drop-drop (length rest - n) a (length (xs ++ ys) - n) (xs ++ ys)
          (omega (arith, size, length-append xs ys))

  pub last_short : (n : ℕ) (xs : List A) → length xs ≤ n → last n xs ≡ xs
  last_short n xs le = ap (λ t. drop t xs) {x = length xs - n} {y = 0} (omega arith)
