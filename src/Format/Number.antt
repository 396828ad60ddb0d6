-- ===== src/Format/Number.antt =====
-- `utoa_simple` of kernel/utils.c: the text that it leaves in the buffer.
use native.Mathlib.Nat.{zero-mod, zero-div}
use vaios.Base.{
  ℕ, suc, ◌+◌, ◌%◌, ◌^◌, ◌≤◌, ◌<◌, ◌≡◌, ◌≢◌, ◌⊎◌, inl, inr, refl, ap, ◌∙◌, arith, update, eqb→eq,
  eqb→ne, Bool-cases, ◌==◌,
}
use vaios.Machine.{Memory}
use vaios.Format.{put_digits, max_digits, digit_char, char_0, utoa_simple, reverse}
use vaios.Format.Reverse.{update-here, update-elsewhere, reverse-inside, reverse-outside}
use vaios.Format.Digits.{shifted, Written, put_digits-Written}

-- The digits of `v` from the first one on, the end of the text, and nothing else.
pub record Text (base v buf : ℕ) (m : Memory) (out : ℕ × Memory) : Type 0 where
  pub some : 1 ≤ out.0
  pub spent : shifted base v out.0 ≡ 0
  pub digits :
      (k l : ℕ) → k + suc l ≡ out.0 → out.1 (buf + k) ≡ digit_char (shifted base v l % base)
  pub end : out.1 (buf + out.0) ≡ 0
  pub kept : (a : ℕ) → (a < buf) ⊎ (buf + out.0 < a) → out.1 a ≡ m a
  pub tight : (d : ℕ) → v < base ^ suc d → out.0 ≤ suc d

zero-Text :
    (base buf : ℕ) (m : Memory) → Text base 0 buf m (1, update (update m buf char_0) (buf + 1) 0)
unfolding shifted digit_char
zero-Text base buf m = record {
  some = omega arith;
  spent = none;
  digits = λ k l e. only k l (omega arith) (omega arith);
  end = update-here (update m buf char_0) (buf + 1) (buf + 1) 0 refl;
  kept = λ a out.
      update-elsewhere (update m buf char_0) (buf + 1) a 0 (λ e. ground arith)
      ∙ update-elsewhere m buf a char_0 (λ e. ground arith);
  tight = λ d lt. omega arith;
}
  where
    none : shifted base 0 1 ≡ 0
    none = zero-div base

    only :
        (k l : ℕ)
        → k ≡ 0
        → l ≡ 0
        → update (update m buf char_0) (buf + 1) 0 (buf + k) ≡ digit_char (shifted base 0 l % base)
    only k l ek el =
        rw (ek, el, zero-mod base)
          (update-elsewhere (update m buf char_0) (buf + 1) (buf + 0) 0 (λ e. omega arith)
            ∙ update-here m buf (buf + 0) char_0 (omega arith))

-- The digits turned round.
module _ (base v buf : ℕ) (m : Memory) (more : v ≢ 0) (out : ℕ × Memory)
    (w : Written base v buf 0 m out) where
  ended : Memory
  ended = update out.1 (buf + out.0) 0

  turned-Text : Text base v buf m (out.0, reverse buf out.0 ended)
  unfolding ended
  turned-Text = record {
    some = omega (arith, w.some more, w.ended);
    spent = ap (shifted base v) {x = out.0} {y = w.count} (omega (arith, w.ended)) ∙ w.spent;
    digits = λ k l e.
        reverse-inside buf out.0 k l ended e
        ∙ update-elsewhere out.1 (buf + out.0) (buf + l) 0 (λ q. omega arith)
        ∙ ap out.1 {x = buf + l} {y = buf + (0 + l)} (omega arith)
        ∙ w.digits l (omega (arith, w.ended));
    end =
        reverse-outside buf out.0 (buf + out.0) ended (inr (omega arith))
          (omega (arith, w.some more, w.ended))
        ∙ update-here out.1 (buf + out.0) (buf + out.0) 0 refl;
    kept = λ a far.
        reverse-outside buf out.0 a ended (ground arith) (omega (arith, w.some more, w.ended))
        ∙ update-elsewhere out.1 (buf + out.0) a 0 (λ e. ground arith)
        ∙ w.kept a (ground (arith, w.ended));
    tight = λ d lt. omega (arith, w.tight (suc d) lt, w.ended);
  }

pub utoa_simple-Text :
    (v buf base : ℕ) (m : Memory)
    → 1 < base
    → v < 2 ^ 64
    → Text base v buf m (utoa_simple v buf base m)
unfolding utoa_simple ended
utoa_simple-Text v buf base m h lt = elim (Bool-cases (v == 0)) [
  | inl none ↦ let none : v ≡ 0 = eqb→eq v 0 none in rw none (zero-Text base buf m)
  | inr more ↦ rw more (
      turned-Text base v buf m (eqb→ne v 0 more) (put_digits max_digits v buf base 0 m)
        (put_digits-Written max_digits v buf base 0 m h lt))
]
