-- ===== src/Format/Extent.antt =====
-- The bytes that `utoa_simple` and `itoa_simple` of kernel/utils.c write, in base 10 and above.
use native.Mathlib.Nat.{pow-le-pow_left}
use vaios.Base.{
  lt→ltb, eqb→eq, refl, some, ℕ, suc, ap, ◌+◌, ◌-◌, ◌^◌, ◌≤◌, ◌<◌, ◌≡◌, ◌⊎◌, inl, inr, ◌∙◌, arith,
  update, Bool-cases, ◌==◌,
}
use vaios.Machine.{Memory, ℤ, pos, negsuc}
use vaios.Format.{utoa_simple, itoa_simple, char_minus}
use vaios.Format.Reverse.{update-elsewhere}
use vaios.Format.Number.{Text, utoa_simple-Text}
use vaios.Format.Parse.{Fits}

-- A text of at most 20 characters at `buf`, with its end, and no other byte changed.
pub record Confined (buf : ℕ) (m : Memory) (out : ℕ × Memory) : Type 0 where
  pub short : out.0 ≤ 20
  pub end : out.1 (buf + out.0) ≡ 0
  pub kept : (a : ℕ) → (a < buf) ⊎ (buf + out.0 < a) → out.1 a ≡ m a

utoa_simple-Confined :
    (v buf base : ℕ) (m : Memory)
    → 10 ≤ base
    → v < 2 ^ 64
    → Confined buf m (utoa_simple v buf base m)
utoa_simple-Confined v buf base m h lt = record {
  short = text.tight 19 (omega (arith, pow-le-pow_left {n = 10} {m = base} h 20));
  end = text.end;
  kept = text.kept;
}
  where
    text : Text base v buf m (utoa_simple v buf base m)
    text = utoa_simple-Text v buf base m (omega arith) lt

-- A sign before at most 19 digits.
itoa_simple-signed :
    (n buf base : ℕ) (m : Memory)
    → 10 ≤ base
    → n < 2 ^ 63
    → let out = utoa_simple (suc n) (buf + 1) base m in
      Confined buf m (suc out.0, update out.1 buf char_minus)
itoa_simple-signed n buf base m h lt = record {
  short = omega (arith, text.tight 18 (omega (arith, pow-le-pow_left {n = 10} {m = base} h 19)));
  end =
      update-elsewhere out.1 buf (buf + suc out.0) char_minus (λ e. omega arith)
      ∙ ap out.1 {x = buf + suc out.0} {y = buf + 1 + out.0} (omega arith)
      ∙ text.end;
  kept = λ a far.
      update-elsewhere out.1 buf a char_minus (λ e. ground arith) ∙ text.kept a (ground arith);
}
  where
    out : ℕ × Memory
    out = utoa_simple (suc n) (buf + 1) base m

    text : Text base (suc n) (buf + 1) m out
    text = utoa_simple-Text (suc n) (buf + 1) base m (omega arith) (omega arith)

-- In a base of at least 10, for a number of 64 bits, which in base 10 is not - 2 ^ 63, itoa_simple
-- is defined, writes at most 20 characters and the end of the text, returns their number, and
-- changes no other byte.
pub itoa_simple-Confined :
    (value : ℤ) (buf base : ℕ) (m : Memory)
    → 10 ≤ base
    → Fits base value
    → (out : ℕ × Memory) × (itoa_simple value buf base m ≡ some out) × Confined buf m out
unfolding itoa_simple Fits
itoa_simple-Confined (pos n) buf base m h fits =
    (utoa_simple n buf base m, refl, utoa_simple-Confined n buf base m h (omega arith))
itoa_simple-Confined (negsuc n) buf base m h fits = elim (Bool-cases (base == 10)) [
  | inl ten ↦
      let signed = utoa_simple (suc n) (buf + 1) base m in
      rw (ten, lt→ltb (suc n) (2 ^ 63) (ground (arith, fits, eqb→eq base 10 ten)))
        (
          (suc signed.0, update signed.1 buf char_minus),
          refl,
          itoa_simple-signed n buf base m h fits.0,
        )
  | inr other ↦ rw other (
    utoa_simple (2 ^ 64 - suc n) buf base m,
    refl,
    utoa_simple-Confined (2 ^ 64 - suc n) buf base m h (omega (arith, fits.0)),
  )
]
