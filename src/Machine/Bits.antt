-- ===== src/Machine/Bits.antt =====
-- The bits of 32-bit words: what `|`, `&`, `~` and `<<` do to each, and the scans for the lowest and
-- the highest set bit.
use Prim.Native.Nat.{bit_and, bit_or, digits, bit_and-bitwise, bit_or-bitwise}
use native.Mathlib.Nat.{pow-suc, div-div-eq-div-mul, div-eq_of_lt, div-eq_of_lt-le}
use vaios.Base.{
  ℕ, zero, suc, ◌+◌, ◌-◌, ◌*◌, ◌/◌, ◌%◌, ◌^◌, ◌≤◌, ◌<◌, min, max, ◌≡◌, ◌≢◌, refl, sym, ap, subst,
  ◌∙◌, ◌==◌, if◌then◌else◌, arith, inl, inr, Bool-cases, eqb→eq, eqb→ne, ne→eqb, eqb_refl, Bool,
  true, ◌&&◌, dec_lt, leb,
}
use vaios.Machine.{word_mod}

-- Bit `p`, as 0 or 1.
abbrev pub bit : ℕ → ℕ → ℕ
bit x p = x / 2 ^ p % 2

-- Two digits at a time, whatever they are combined by: the fuel is dropped.
module _ (z : ℕ → ℕ) (g : ℕ → ℕ → ℕ) where
  enough : (n m a b : ℕ) → a ≤ n → a ≤ m → digits z g n a b ≡ digits z g m a b
  enough zero zero a b p q = refl
  enough zero (suc m) zero b p q = refl
  enough zero (suc m) (suc a) b p q = absurd (omega arith)
  enough (suc n) zero zero b p q = refl
  enough (suc n) zero (suc a) b p q = absurd (omega arith)
  enough (suc n) (suc m) zero b p q = refl
  enough (suc n) (suc m) (suc a) b p q =
      ap (λ v. v * 2 + g (suc a % 2) (b % 2))
        (enough n m (suc a / 2) (b / 2) (omega arith) (omega arith))

or_halves : (a b : ℕ) → bit_or a b ≡ bit_or (a / 2) (b / 2) * 2 + max (a % 2) (b % 2)
or_halves zero b = omega (arith, bit_or-bitwise 0 b, bit_or-bitwise 0 (b / 2))
or_halves (suc a) b = omega (
  arith,
  bit_or-bitwise (suc a) b,
  bit_or-bitwise (suc a / 2) (b / 2),
  enough (λ b. b) max a (suc a / 2) (suc a / 2) (b / 2) (omega arith) (omega arith),
)

and_halves : (a b : ℕ) → bit_and a b ≡ bit_and (a / 2) (b / 2) * 2 + min (a % 2) (b % 2)
and_halves zero b = omega (arith, bit_and-bitwise 0 b, bit_and-bitwise 0 (b / 2))
and_halves (suc a) b = omega (
  arith,
  bit_and-bitwise (suc a) b,
  bit_and-bitwise (suc a / 2) (b / 2),
  enough (λ b. zero) min a (suc a / 2) (suc a / 2) (b / 2) (omega arith) (omega arith),
)

-- Bit `p` + 1 of a number is bit `p` of its half.
bit-suc : (x p : ℕ) → bit x (suc p) ≡ bit (x / 2) p
bit-suc x p = ap (λ v. v % 2) (ap (λ v. x / v) twice ∙ sym (div-div-eq-div-mul x 2 (2 ^ p)))
  where
    twice : 2 ^ suc p ≡ 2 * 2 ^ p
    twice = omega (arith, pow-suc 2 p)

bit-zero : (x : ℕ) → bit x 0 ≡ x % 2
bit-zero x = omega arith

pub bit-bit_or : (a b p : ℕ) → bit (bit_or a b) p ≡ max (bit a p) (bit b p)
bit-bit_or a b zero = omega (arith, or_halves a b)
bit-bit_or a b (suc p) =
    let half : bit_or a b / 2 ≡ bit_or (a / 2) (b / 2) = omega (arith, or_halves a b) in
    rw (bit-suc (bit_or a b) p, bit-suc a p, bit-suc b p, half) (bit-bit_or (a / 2) (b / 2) p)

pub bit-bit_and : (a b p : ℕ) → bit (bit_and a b) p ≡ min (bit a p) (bit b p)
bit-bit_and a b zero = omega (arith, and_halves a b)
bit-bit_and a b (suc p) =
    let half : bit_and a b / 2 ≡ bit_and (a / 2) (b / 2) = omega (arith, and_halves a b) in
    rw (bit-suc (bit_and a b) p, bit-suc a p, bit-suc b p, half) (bit-bit_and (a / 2) (b / 2) p)

pub bit_or-lt : (w a b : ℕ) → a < 2 ^ w → b < 2 ^ w → bit_or a b < 2 ^ w
bit_or-lt zero a b ha hb =
    let ea : a ≡ 0 = omega arith in
    let eb : b ≡ 0 = omega arith in rw (ea, eb) (omega (arith, bit_or-bitwise 0 0))
bit_or-lt (suc w) a b ha hb = omega (
  arith,
  pow-suc 2 w,
  or_halves a b,
  bit_or-lt w (a / 2) (b / 2) (omega (arith, pow-suc 2 w)) (omega (arith, pow-suc 2 w)),
)

pub bit_and-lt : (w a b : ℕ) → a < 2 ^ w → bit_and a b < 2 ^ w
bit_and-lt zero a b ha = let e : a ≡ 0 = omega arith in rw e (omega (arith, bit_and-bitwise 0 b))
bit_and-lt (suc w) a b ha =
    omega (
      arith,
      pow-suc 2 w,
      and_halves a b,
      bit_and-lt w (a / 2) (b / 2) (omega (arith, pow-suc 2 w)),
    )

pub bit-clear : (p : ℕ) → bit 0 p ≡ 0
bit-clear zero = refl
bit-clear (suc p) = bit-suc 0 p ∙ bit-clear p

pub bit-power : (k p : ℕ) → bit (2 ^ k) p ≡ (if k == p then 1 else 0)
bit-power zero zero = refl
bit-power zero (suc p) = rw (ne→eqb 0 (suc p) (omega arith)) (bit-suc 1 p ∙ bit-clear p)
bit-power (suc k) zero = rw (ne→eqb (suc k) 0 (omega arith)) (omega (arith, pow-suc 2 k))
bit-power (suc k) (suc p) =
    let half : 2 ^ suc k / 2 ≡ 2 ^ k = omega (arith, pow-suc 2 k) in
    bit-suc (2 ^ suc k) p ∙ ap (λ v. bit v p) half ∙ bit-power k p ∙ same
  where
    same : ◌≡◌ {A = ℕ} (if k == p then 1 else 0) (if suc k == suc p then 1 else 0)
    same = elim (Bool-cases (k == p)) [
      | inl e ↦ let q : suc k ≡ suc p = ap suc (eqb→eq k p e) in rw (e, q, eqb_refl (suc p))
      | inr e ↦ rw (e, ne→eqb (suc k) (suc p) (λ q. eqb→ne k p e (omega (arith, q))))
    ]

-- A bit past the width is clear.
pub bit-high : (w x p : ℕ) → x < 2 ^ w → w ≤ p → bit x p ≡ 0
bit-high zero x p h le = let e : x ≡ 0 = omega arith in rw e (bit-clear p)
bit-high (suc w) x zero h le = absurd (omega arith)
bit-high (suc w) x (suc p) h le =
    bit-suc x p ∙ bit-high w (x / 2) p (omega (arith, pow-suc 2 w)) (omega arith)

-- `~(1 << k)` clears bit `k` alone, and `~0 << k` the bits below `k`.
abbrev pub inverted : ℕ → ℕ
inverted k = word_mod - 1 - 2 ^ k % word_mod

abbrev pub from_bit : ℕ → ℕ
from_bit k = (word_mod - 1) * 2 ^ k % word_mod

unfoldable pub all_below : ℕ → (ℕ → Bool) → Bool
all_below zero f = true
all_below (suc n) f = f n && all_below n f

pub all_below_sound : (n : ℕ) (f : ℕ → Bool) (x : ℕ) → all_below n f ≡ true → x < n → f x ≡ true
unfolding all_below
all_below_sound zero f x h lt = absurd (omega arith)
all_below_sound (suc n) f x h lt = ground (arith, all_below_sound n f x)

inverted_row : ℕ → ℕ → Bool
inverted_row k p = bit (inverted k) p == (if k == p then 0 else 1)

inverted_table : all_below 16 (λ k. all_below 32 (inverted_row k)) ≡ true
unfolding all_below inverted_row
inverted_table = refl

pub bit-inverted : (k p : ℕ) → k < 16 → p < 32 → bit (inverted k) p ≡ (if k == p then 0 else 1)
unfolding inverted_row
bit-inverted k p hk hp = eqb→eq (bit (inverted k) p) (if k == p then 0 else 1) (
    all_below_sound 32 (inverted_row k) p
      (all_below_sound 16 (λ k. all_below 32 (inverted_row k)) k inverted_table hk) hp)

from_row : ℕ → ℕ → Bool
from_row k p = bit (from_bit k) p == (if leb k p then 1 else 0)

from_table : all_below 16 (λ k. all_below 32 (from_row k)) ≡ true
unfolding all_below from_row
from_table = refl

pub bit-from_bit : (k p : ℕ) → k < 16 → p < 32 → bit (from_bit k) p ≡ (if leb k p then 1 else 0)
unfolding from_row
bit-from_bit k p hk hp = eqb→eq (bit (from_bit k) p) (if leb k p then 1 else 0) (
    all_below_sound 32 (from_row k) p
      (all_below_sound 16 (λ k. all_below 32 (from_row k)) k from_table hk) hp)

-- The zeros below the lowest set bit among the low `n` bits: `__builtin_ctz` for `n` = 32.
unfoldable pub trailing_zeros : ℕ → ℕ → ℕ
trailing_zeros zero x = 0
trailing_zeros (suc n) x = let more = trailing_zeros n (x / 2) in if x % 2 == 1 then 0 else suc more

pub record Lowest (x p : ℕ) : Type 0 where
  pub set : bit x p ≡ 1
  pub below : (q : ℕ) → q < p → bit x q ≡ 0

pub trailing_zeros-Lowest : (n x : ℕ) → x ≢ 0 → x < 2 ^ n → Lowest x (trailing_zeros n x)
unfolding trailing_zeros
trailing_zeros-Lowest zero x ne lt = absurd (ne (omega arith))
trailing_zeros-Lowest (suc n) x ne lt = elim (Bool-cases (x % 2 == 1)) [
  | inl odd ↦
      rw odd
        (record { set = omega (arith, eqb→eq (x % 2) 1 odd); below = λ q l. absurd (omega arith) })
  | inr even ↦
      let z : x % 2 ≡ 0 = omega (arith, eqb→ne (x % 2) 1 even) in
      let l =
        trailing_zeros-Lowest n (x / 2) (λ e. ne (omega arith)) (omega (arith, pow-suc 2 n)) in
      rw even (record {
        set = bit-suc x (trailing_zeros n (x / 2)) ∙ l.set;
        below = shifted x (trailing_zeros n (x / 2)) z l.below;
      })
]
  where
    shifted :
        (x p : ℕ)
        → x % 2 ≡ 0
        → ((q : ℕ) → q < p → bit (x / 2) q ≡ 0)
        → (q : ℕ) → q < suc p
        → bit x q ≡ 0
    shifted x p z h zero lt = omega (arith, z)
    shifted x p z h (suc q) lt = bit-suc x q ∙ h q (omega arith)

-- The zeros above the highest set bit among the low `n` bits: `__builtin_clz` for `n` = 32.
unfoldable pub leading_zeros : ℕ → ℕ → ℕ
leading_zeros zero x = 0
leading_zeros (suc n) x = let more = leading_zeros n x in if bit x n == 1 then 0 else suc more

-- `31 - __builtin_clz(x)` is the octave of `x`.
pub record Octave (x k : ℕ) : Type 0 where
  pub low : 2 ^ k ≤ x
  pub high : x < 2 ^ suc k

pub leading_zeros-Octave :
    (n x : ℕ) → 0 < x → x < 2 ^ n → (leading_zeros n x < n) × Octave x (n - 1 - leading_zeros n x)
unfolding leading_zeros
leading_zeros-Octave zero x pos lt = absurd (omega arith)
leading_zeros-Octave (suc n) x pos lt = elim (dec_lt x (2 ^ n)) [
  | yes less ↦
      let clear : bit x n ≡ 0 = ap (λ v. v % 2) (div-eq_of_lt less) in
      let (l, o) = leading_zeros-Octave n x pos less in
      rw clear (omega (arith, l), subst (Octave x) (omega (arith, l)) o)
  | no more ↦
      let q : x / 2 ^ n ≡ 1 = div-eq_of_lt-le (2 ^ n) (omega arith) (omega (arith, pow-suc 2 n)) in
      let one : bit x n ≡ 1 = ap (λ v. v % 2) q in
      rw one (omega arith, subst (Octave x) top (record { low = omega arith; high = lt }))
]
  where
    top : n ≡ suc n - 1 - 0
    top = omega arith
