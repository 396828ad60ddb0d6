-- ===== src/Heap/Tlsf/Bitmaps.antt =====
-- Setting and clearing a bit of the bitmaps of kernel/memory/tlsf.c.
use Prim.Native.Nat.{bit_and, bit_or}
use native.Mathlib.Nat.{pow-suc, one-le-pow, pow-le-pow_right}
use vaios.Base.{
  suc, true, false, ℕ, ◌%◌, ◌^◌, ◌<◌, ◌≡◌, ap, ◌∙◌, ◌==◌, if◌then◌else◌, arith, max, min, inl, inr,
  Bool-cases, eqb→eq,
}
use vaios.Machine.{word_mod}
use vaios.Machine.Bits.{
  bit, inverted, bit-bit_or, bit-bit_and, bit-power, bit-inverted, bit_and-lt, bit-clear,
}

abbrev pub non_zero : ℕ → ℕ
non_zero x = if x == 0 then 0 else 1

pub power-lt : (w k : ℕ) → k < w → 2 ^ k < 2 ^ w
power-lt w k lt =
    let p = pow-le-pow_right {n = 2} (omega arith) {i = suc k} {j = w} lt in
    omega (arith, p, pow-suc 2 k, one-le-pow k 2 (omega arith))

-- A number with a bit set is not 0.
pub set-non_zero : (x p : ℕ) → bit x p ≡ 1 → non_zero x ≡ 1
set-non_zero x p e = elim (Bool-cases (x == 0)) [
  | inl z ↦ absurd (let q = ap (λ v. bit v p) (eqb→eq x 0 z) in omega (arith, q, e, bit-clear p))
  | inr nz ↦ rw nz
]

bit-here : (k p : ℕ) → (k == p) ≡ true → bit (2 ^ k) p ≡ 1
bit-here k p e = bit-power k p ∙ rw e

bit-there : (k p : ℕ) → (k == p) ≡ false → bit (2 ^ k) p ≡ 0
bit-there k p e = bit-power k p ∙ rw e

-- Setting a bit of a bitmap.
pub bit-set :
    (x k p : ℕ) → k < 16 → bit (bit_or x (2 ^ k % word_mod)) p ≡ (if k == p then 1 else bit x p)
bit-set x k p lt =
    let whole : 2 ^ k % word_mod ≡ 2 ^ k = omega (arith, power-lt 16 k lt) in
    ap (λ v. bit (bit_or x v) p) whole ∙ bit-bit_or x (2 ^ k) p ∙ joined
  where
    joined : max (bit x p) (bit (2 ^ k) p) ≡ (if k == p then 1 else bit x p)
    joined = elim (Bool-cases (k == p)) [
      | inl e ↦ rw e (omega (arith, bit-here k p e))
      | inr e ↦ rw e (omega (arith, bit-there k p e))
    ]

pub bit-unset :
    (x k p : ℕ) → k < 16 → p < 32 → bit (bit_and x (inverted k)) p ≡ (if k == p then 0 else bit x p)
bit-unset x k p lt ltp = bit-bit_and x (inverted k) p ∙ met
  where
    met : min (bit x p) (bit (inverted k) p) ≡ (if k == p then 0 else bit x p)
    met = elim (Bool-cases (k == p)) [
      | inl e ↦ rw (bit-inverted k p lt ltp, e) (omega arith)
      | inr e ↦ rw (bit-inverted k p lt ltp, e) (omega arith)
    ]

pub bit_and-clear : (b : ℕ) → bit_and 0 b ≡ 0
bit_and-clear b = omega (arith, bit_and-lt 0 0 b (omega arith))
