-- ===== src/Format/Parse.antt =====
-- `utoa_simple` and `itoa_simple` of kernel/utils.c write what a reader of numbers reads back.
use native.Mathlib.Nat.{div-add-mod', mod-lt, pow-le-pow_left}
use mathlib.Core.Option.{bind}
use vaios.Base.{
  lt→ltb, eqb→eq, ◌≢◌, ◌⊎◌, ℕ, zero, suc, ◌+◌, ◌-◌, ◌*◌, ◌%◌, ◌^◌, ◌≤◌, ◌<◌, ◌≡◌, inl, inr, refl,
  sym, ap, ◌∙◌, arith, update, ne→eqb, eqb_refl, Bool-cases, if◌then◌else◌, ◌==◌, some,
}
use vaios.Machine.{Memory, ℤ, pos, negsuc}
use vaios.Format.{digit_char, char_0, char_minus, utoa_simple, itoa_simple}
use vaios.Format.Reader.{digit_in, parse_digits, parse_unsigned, parse_signed, negated}
use vaios.Format.Reverse.{update-elsewhere}
use vaios.Format.Digits.{shifted, shifted-suc}
use vaios.Format.Number.{Text, utoa_simple-Text}

digit_in-digit_char : (base d : ℕ) → d < base → base ≤ 36 → digit_in base (digit_char d) ≡ some d
unfolding digit_char
digit_in-digit_char base d lt le = ground arith

digit_char-some : (d : ℕ) → char_0 ≤ digit_char d
unfolding digit_char
digit_char-some d = ground arith

module _ (base v buf : ℕ) (m : Memory) (out : ℕ × Memory) (h : 1 < base) (le : base ≤ 36)
    (t : Text base v buf m out) where
  -- With the first digits read and `r` left, the number is read.
  parse_digits-rest :
      (r k fuel : ℕ)
      → k + r ≡ out.0
      → r < fuel
      → parse_digits fuel base (shifted base v r) out.1 (buf + k) ≡ some v
  unfolding parse_digits bind shifted
  parse_digits-rest r k zero e lt = absurd (omega arith)
  parse_digits-rest zero k (suc fuel) e lt = rw (ended) refl
    where
      ended : out.1 (buf + k) ≡ 0
      ended = ap out.1 {x = buf + k} {y = buf + out.0} (omega arith) ∙ t.end
  parse_digits-rest (suc r) k (suc fuel) e lt =
      let ne = ne→eqb (digit_char d) 0 (λ q. omega (arith, digit_char-some d)) in
      rw (t.digits k r e, ne, digit_in-digit_char base d (mod-lt n (omega arith)) le, whole)
        (ap (λ a. parse_digits fuel base n out.1 a) {x = suc (buf + k)} {y = buf + suc k}
            (omega arith)
          ∙ parse_digits-rest r (suc k) fuel (omega arith) (omega arith))
    where
      n : ℕ
      n = shifted base v r

      d : ℕ
      d = n % base

      whole : shifted base v (suc r) * base + d ≡ n
      whole = rw (shifted-suc base v r) (div-add-mod' n base)

  first_char : char_0 ≤ out.1 buf
  first_char =
      let l = out.0 - 1 in
      let shown = digit_char-some (shifted base v l % base) in
      omega (arith, t.some, shown, t.digits 0 l (omega (arith, t.some)), same)
    where
      same : out.1 (buf + 0) ≡ out.1 buf
      same = ap out.1 (omega arith)

  parse_digits-Text : v < 2 ^ 64 → parse_digits 65 base 0 out.1 buf ≡ some v
  parse_digits-Text lt =
      ap (λ acc. parse_digits 65 base acc out.1 buf) (sym t.spent)
      ∙ ap (parse_digits 65 base (shifted base v out.0) out.1) {x = buf} {y = buf + 0} (omega arith)
      ∙ parse_digits-rest out.0 0 65 (omega arith) (omega (arith, short))
    where
      short : out.0 ≤ 64
      short = t.tight 63 (omega (arith, lt, pow-le-pow_left {n = 2} {m = base} (omega arith) 64))

  parse_unsigned-Text : v < 2 ^ 64 → parse_unsigned base out.1 buf ≡ some v
  unfolding parse_unsigned
  parse_unsigned-Text lt =
      rw (ne→eqb (out.1 buf) 0 (λ e. omega (arith, first_char))) (parse_digits-Text lt)

  parse_signed-Text : v < 2 ^ 64 → parse_signed base out.1 buf ≡ some (pos v)
  unfolding parse_signed
  parse_signed-Text lt =
      rw (ne→eqb (out.1 buf) char_minus (λ e. omega (arith, first_char)), parse_unsigned-Text lt)
        refl

  -- A byte before the text does not matter to it.
  Text-update : (b c : ℕ) → b < buf → Text base v buf (update m b c) (out.0, update out.1 b c)
  Text-update b c lt = record {
    some = t.some;
    spent = t.spent;
    digits = λ k l e. update-elsewhere out.1 b (buf + k) c (λ q. omega arith) ∙ t.digits k l e;
    end = update-elsewhere out.1 b (buf + out.0) c (λ q. omega arith) ∙ t.end;
    kept = λ a far. ap (λ u. if b == a then c else u) (t.kept a far);
    tight = t.tight;
  }

parse_unsigned-utoa_simple :
    (v buf base : ℕ) (m : Memory)
    → 1 < base
    → base ≤ 36
    → v < 2 ^ 64
    → parse_unsigned base (utoa_simple v buf base m).1 buf ≡ some v
parse_unsigned-utoa_simple v buf base m h le lt =
    parse_unsigned-Text base v buf m (utoa_simple v buf base m) h le
      (utoa_simple-Text v buf base m h lt) lt

-- What `itoa_simple` is given fits `int64_t`, and so does what it negates.
unfoldable pub Fits : ℕ → ℤ → Type 0
Fits base (pos n) = n < 2 ^ 63
Fits base (negsuc n) = (n < 2 ^ 63) × ((base ≢ 10) ⊎ (suc n < 2 ^ 63))

-- The number that is shown for one: itself, or in another base than 10 its 64 bits.
unfoldable pub shown : ℕ → ℤ → ℤ
shown base (pos n) = pos n
shown base (negsuc n) = if base == 10 then negsuc n else pos (2 ^ 64 - suc n)

itoa_simple-minus :
    (n buf base : ℕ) (m : Memory)
    → 1 < base
    → base ≤ 36
    → n < 2 ^ 63
    → parse_signed base (update (utoa_simple (suc n) (buf + 1) base m).1 buf char_minus) buf
      ≡ some (negsuc n)
unfolding parse_signed negated
itoa_simple-minus n buf base m h le lt =
    let out = utoa_simple (suc n) (buf + 1) base m in
    let text = utoa_simple-Text (suc n) (buf + 1) base m h (omega arith) in
    let marked = Text-update base (suc n) (buf + 1) m out h le text buf char_minus (omega arith) in
    let read =
      parse_unsigned-Text base (suc n) (buf + 1) (update m buf char_minus)
        (out.0, update out.1 buf char_minus) h le marked (omega arith) in
    let same : suc buf ≡ buf + 1 = omega arith in rw (eqb_refl buf, same, read) refl

-- In a base from 2 to 36, for a number of 64 bits, which in base 10 is not - 2 ^ 63, itoa_simple is
-- defined, and what it writes reads back as that number; in another base than 10 a negative number
-- reads back as its 64 bits.
pub parse_signed-itoa_simple :
    (value : ℤ) (buf base : ℕ) (m : Memory)
    → 1 < base
    → base ≤ 36
    → Fits base value
    → (out : ℕ × Memory) × (itoa_simple value buf base m ≡ some out)
      × (parse_signed base out.1 buf ≡ some (shown base value))
unfolding itoa_simple Fits shown
parse_signed-itoa_simple (pos n) buf base m h le fits = (
  utoa_simple n buf base m,
  refl,
  parse_signed-Text base n buf m (utoa_simple n buf base m) h le
      (utoa_simple-Text n buf base m h (omega arith)) (omega arith),
)
parse_signed-itoa_simple (negsuc n) buf base m h le fits = elim (Bool-cases (base == 10)) [
  | inl ten ↦
      let signed = utoa_simple (suc n) (buf + 1) base m in
      rw (ten, lt→ltb (suc n) (2 ^ 63) (ground (arith, fits, eqb→eq base 10 ten)))
        (
          (suc signed.0, update signed.1 buf char_minus),
          refl,
          itoa_simple-minus n buf base m h le fits.0,
        )
  | inr other ↦ rw other (
    utoa_simple (2 ^ 64 - suc n) buf base m,
    refl,
    parse_signed-Text base (2 ^ 64 - suc n) buf m (utoa_simple (2 ^ 64 - suc n) buf base m) h le
        (utoa_simple-Text (2 ^ 64 - suc n) buf base m h (omega (arith, fits.0))) (omega arith),
  )
]
