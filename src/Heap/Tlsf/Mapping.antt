-- ===== src/Heap/Tlsf/Mapping.antt =====
-- `mapping_insert` of kernel/memory/tlsf.c: the octave of a size and its slot.
use Prim.Native.Nat.{bit_xor}
use native.Mathlib.Nat.{pow-suc, one-le-pow, pow-le-pow_right, div-lt_iff_lt-mul, le-div_iff_mul-le}
use vaios.Base.{
  ℕ, ◌+◌, ◌-◌, ◌*◌, ◌/◌, ◌^◌, ◌≤◌, ◌<◌, ◌≡◌, refl, sym, ap, ◌∙◌, ◌==◌, arith, suc, Bool, true,
  eqb→eq, lt→ltb, ge→ltb, dec_lt,
}
use vaios.Machine.Bits.{Octave, leading_zeros-Octave, all_below, all_below_sound}
use vaios.Heap.Tlsf.{small_block, tlsf_fls, mapping_insert}

pub fls-Octave : (s : ℕ) → 0 < s → s < 2 ^ 32 → Octave s (tlsf_fls s)
fls-Octave s pos lt = (leading_zeros-Octave 32 s pos lt).1

-- Octaves do not overlap, and larger numbers are in higher ones.
pub Octave-mono : (x y k l : ℕ) → Octave x k → Octave y l → x ≤ y → k ≤ l
Octave-mono x y k l ox oy le = elim (dec_lt l k) [
  | yes more ↦
      let p = pow-le-pow_right {n = 2} (omega arith) {i = suc l} {j = k} (omega arith) in
      absurd (omega (arith, p, ox.low, oy.high))
  | no fine ↦ omega arith
]

xor_row : ℕ → Bool
xor_row d = bit_xor (16 + d) 16 == d

xor_table : all_below 16 xor_row ≡ true
unfolding all_below xor_row
xor_table = refl

-- The first of the second level's bits is taken off.
pub xor_sixteen : (q : ℕ) → 16 ≤ q → q < 32 → bit_xor q 16 ≡ q - 16
unfolding xor_row
xor_sixteen q lo hi =
    let e : 16 + (q - 16) ≡ q = omega arith in
    ap (λ v. bit_xor v 16) (sym e)
    ∙ eqb→eq (bit_xor (16 + (q - 16)) 16) (q - 16)
        (all_below_sound 16 xor_row (q - 16) xor_table (omega arith))

Octave-lt : (s k : ℕ) → Octave s k → s < 2 ^ 20 → k < 20
Octave-lt s k o hi = elim (dec_lt k 20) [
  | yes lt ↦ lt
  | no ge ↦
      absurd (
        omega (arith, o.low, pow-le-pow_right {n = 2} (omega arith) {i = 20} {j = k} (omega arith)))
]

-- An octave has sixteen slots.
sixteen : (k : ℕ) → 4 ≤ k → 2 ^ k ≡ 16 * 2 ^ (k - 4)
sixteen k le =
    let j = k - 4 in
    let e : k ≡ suc (suc (suc (suc j))) = omega arith in
    ap (λ v. 2 ^ v) e
    ∙ omega (
      arith,
      pow-suc 2 j,
      pow-suc 2 (suc j),
      pow-suc 2 (suc (suc j)),
      pow-suc 2 (suc (suc (suc j))),
    )

-- What `mapping_insert` makes of a size below 2 ^ 20.
pub record Large (s : ℕ) : Type 0 where
  pub octave : ℕ
  pub is : octave ≡ tlsf_fls s
  pub in_octave : Octave s octave
  pub least : 7 ≤ octave
  pub most : octave < 20
  pub width : 2 ^ octave ≡ 16 * 2 ^ (octave - 4)
  pub low : 16 ≤ s / 2 ^ (octave - 4)
  pub high : s / 2 ^ (octave - 4) < 32
  pub at : mapping_insert s ≡ (octave - 6, s / 2 ^ (octave - 4) - 16)

pub small-at : (s : ℕ) → s < small_block → mapping_insert s ≡ (0, s / 8)
unfolding mapping_insert
small-at s lt = rw (lt→ltb s 128 lt)

pub mapping_insert-Large : (s : ℕ) → small_block ≤ s → s < 2 ^ 20 → Large s
unfolding mapping_insert
mapping_insert-Large s lo hi =
    let k = tlsf_fls s in
    let o = fls-Octave s (omega arith) (omega arith) in
    let least : 7 ≤ k =
      Octave-mono 128 s 7 k (record { low = omega arith; high = omega arith }) o lo in
    let most : k < 20 = Octave-lt s k o hi in
    let p = 2 ^ (k - 4) in
    let pos : 0 < p = one-le-pow (k - 4) 2 (omega arith) in
    let width : 2 ^ k ≡ 16 * p = sixteen k (omega arith) in
    let low : 16 ≤ s / p =
      (le-div_iff_mul-le {k = p} {x = 16} {y = s} pos).1 (omega (arith, o.low)) in
    let high : s / p < 32 =
      (div-lt_iff_lt-mul {k = p} {x = s} {y = 32} pos).1 (omega (arith, o.high, pow-suc 2 k)) in
    record {
      octave = k;
      is = refl;
      in_octave = o;
      least = least;
      most = most;
      width = width;
      low = low;
      high = high;
      at = rw (ge→ltb s 128 lo, xor_sixteen (s / p) low high);
    }
