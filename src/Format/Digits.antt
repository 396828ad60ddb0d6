-- ===== src/Format/Digits.antt =====
-- The loop of `utoa_simple` in kernel/utils.c: the digits that it writes, the last one first.
use native.Mathlib.Nat.{div-lt_iff_lt-mul, pow-suc, pow-zero}
use vaios.Base.{
  ℕ, zero, suc, ◌+◌, ◌*◌, ◌/◌, ◌%◌, ◌^◌, ◌≤◌, ◌<◌, ◌≡◌, ◌≢◌, ◌⊎◌, inl, inr, refl, ap, ◌∙◌, arith,
  update, eqb→eq, eqb→ne, Bool-cases, ◌==◌, subst,
}
use vaios.Machine.{Memory}
use vaios.Format.{put_digits, digit_char}
use vaios.Format.Reverse.{update-here, update-elsewhere}

-- A number without its last `k` digits.
unfoldable pub shifted : ℕ → ℕ → ℕ → ℕ
shifted base v zero = v
shifted base v (suc k) = shifted base (v / base) k

pub shifted-suc : (base v k : ℕ) → shifted base v (suc k) ≡ shifted base v k / base
unfolding shifted
shifted-suc base v zero = refl
shifted-suc base v (suc k) = shifted-suc base (v / base) k

-- A digit less is a power less.
div-lt_power : (base v k : ℕ) → 1 < base → v < base ^ suc k → v / base < base ^ k
div-lt_power base v k h lt =
    (div-lt_iff_lt-mul {k = base} {x = v} {y = base ^ k} (omega arith)).1
      (subst (λ t. v < t) (pow-suc base k) lt)

div-lt_half : (base v k : ℕ) → 1 < base → v < 2 ^ suc k → v / base < 2 ^ k
div-lt_half base v k h lt =
    (div-lt_iff_lt-mul {k = base} {x = v} {y = 2 ^ k} (omega arith)).1
      (omega (arith, pow-suc 2 k, scale (2 ^ k)))
  where
    scale : (p : ℕ) → p * 2 ≤ p * base
    scale p = grind arith

-- What the loop makes of a number `v` from index `i` on.
pub record Written (base v buf i : ℕ) (m : Memory) (out : ℕ × Memory) : Type 0 where
  pub count : ℕ
  pub ended : out.0 ≡ i + count
  pub spent : shifted base v count ≡ 0
  pub digits : (k : ℕ) → k < count → out.1 (buf + (i + k)) ≡ digit_char (shifted base v k % base)
  pub kept : (a : ℕ) → (a < buf + i) ⊎ (buf + i + count ≤ a) → out.1 a ≡ m a
  pub some : v ≢ 0 → 1 ≤ count
  pub tight : (d : ℕ) → v < base ^ d → count ≤ d

-- A digit and what the later rounds write.
module _ (base v buf i : ℕ) (m : Memory) (out : ℕ × Memory) (h : 1 < base) (more : v ≢ 0)
    (w : Written base (v / base) buf (suc i) (update m (buf + i) (digit_char (v % base))) out) where
  first_digit : out.1 (buf + i) ≡ digit_char (v % base)
  first_digit =
      w.kept (buf + i) (inl (omega arith))
      ∙ update-here m (buf + i) (buf + i) (digit_char (v % base)) refl

  each_digit :
      (k : ℕ) → k < suc w.count → out.1 (buf + (i + k)) ≡ digit_char (shifted base v k % base)
  unfolding shifted
  each_digit zero p = ap out.1 {x = buf + (i + 0)} {y = buf + i} (omega arith) ∙ first_digit
  each_digit (suc k) p =
      ap out.1 {x = buf + (i + suc k)} {y = buf + (suc i + k)} (omega arith)
      ∙ w.digits k (omega arith)

  no_longer : (d : ℕ) → v < base ^ d → suc w.count ≤ d
  no_longer zero p = absurd (more (omega (arith, pow-zero base)))
  no_longer (suc d) p = omega (arith, w.tight d (div-lt_power base v d h p))

  digit-Written : Written base v buf i m out
  unfolding shifted
  digit-Written = record {
    count = suc w.count;
    ended = omega (arith, w.ended);
    spent = w.spent;
    digits = each_digit;
    kept = λ a p.
        w.kept a (ground arith)
        ∙ update-elsewhere m (buf + i) a (digit_char (v % base)) (λ e. ground arith);
    some = λ n. omega arith;
    tight = no_longer;
  }

-- The fuel is enough for a number of at most as many binary digits.
pub put_digits-Written :
    (fuel v buf base i : ℕ) (m : Memory)
    → 1 < base
    → v < 2 ^ fuel
    → Written base v buf i m (put_digits fuel v buf base i m)
unfolding put_digits shifted
put_digits-Written zero v buf base i m h lt = record {
  count = 0;
  ended = omega arith;
  spent = omega arith;
  digits = λ k p. absurd (omega arith);
  kept = λ a p. refl;
  some = λ n. absurd (n (omega arith));
  tight = λ d p. omega arith;
}
put_digits-Written (suc fuel) v buf base i m h lt = elim (Bool-cases (v == 0)) [
  | inl none ↦
      let none : v ≡ 0 = eqb→eq v 0 none in
      rw none (record {
        count = 0;
        ended = omega arith;
        spent = refl;
        digits = λ k p. absurd (omega arith);
        kept = λ a p. refl;
        some = λ n. absurd (n refl);
        tight = λ d p. omega arith;
      })
  | inr more ↦ rw more (
      digit-Written base v buf i m (put_digits fuel (v / base) buf base (suc i) put) h
        (eqb→ne v 0 more)
        (put_digits-Written fuel (v / base) buf base (suc i) put h (div-lt_half base v fuel h lt)))
]
  where
    put : Memory
    put = update m (buf + i) (digit_char (v % base))
