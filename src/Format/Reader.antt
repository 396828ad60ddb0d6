-- ===== src/Format/Reader.antt =====
-- A reader of numbers, independent of kernel/utils.c: what the texts stand for that `utoa_simple` and
-- `itoa_simple` write.
use mathlib.Core.Option.{map, bind}
use vaios.Base.{
  ℕ, zero, suc, ◌+◌, ◌-◌, ◌*◌, if◌then◌else◌, ◌==◌, leb, ltb, Option, some, none, ◌&&◌, ◌||◌,
}
use vaios.Machine.{Memory, ℤ, pos, negsuc}
use vaios.Format.{char_0, char_a, char_minus}

-- The digit that a character stands for, if it is one of the base.
abbrev pub digit_in : ℕ → ℕ → Option ℕ
digit_in base c =
    let d = if leb char_a c then c - char_a + 10 else c - char_0 in
    if (leb char_a c || (leb char_0 c && leb c 57)) && ltb d base then some d else none

-- The rest of a number whose first digits make `acc`, up to the end of the text.
unfoldable pub parse_digits : ℕ → ℕ → ℕ → Memory → ℕ → Option ℕ
parse_digits zero base acc m at = none
parse_digits (suc fuel) base acc m at =
    if m at == 0
    then some acc
    else bind (digit_in base (m at)) (λ d. parse_digits fuel base (acc * base + d) m (suc at))

-- A number of at least one digit, and at most 64.
unfoldable pub parse_unsigned : ℕ → Memory → ℕ → Option ℕ
parse_unsigned base m at = if m at == 0 then none else parse_digits 65 base 0 m at

unfoldable pub negated : ℕ → ℤ
negated zero = pos 0
negated (suc n) = negsuc n

-- A number behind a sign, if there is one.
unfoldable pub parse_signed : ℕ → Memory → ℕ → Option ℤ
parse_signed base m at =
    if m at == char_minus
    then map negated (parse_unsigned base m (suc at))
    else map pos (parse_unsigned base m at)
