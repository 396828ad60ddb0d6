-- ===== src/Format.antt =====
-- The number formatting of kernel/utils.c: `reverse`, `utoa_simple` and `itoa_simple`. A buffer is an
-- address of byte memory, and the text in it ends with the byte 0.
pub mod Digits
pub mod Reverse
pub mod Number
pub mod Reader
pub mod Parse
pub mod Extent
pub mod Examples
use vaios.Base.{
  Option, some, none, ℕ, zero, suc, ◌+◌, ◌-◌, ◌/◌, ◌%◌, ◌^◌, ltb, ◌==◌, ◌&&◌, if◌then◌else◌, update,
  Bool, true, false,
}
use vaios.Machine.{Memory, ℤ, pos, negsuc}

-- The characters '0', 'a' and '-'.
abbrev pub char_0 : ℕ
char_0 = 48

abbrev pub char_a : ℕ
char_a = 97

abbrev pub char_minus : ℕ
char_minus = 45

abbrev pub swap : ℕ → ℕ → Memory → Memory
swap a b m = update (update m a (m b)) b (m a)

-- The loop of `reverse`, which swaps inwards from indices `i` and `j`.
unfoldable pub reverse_between : ℕ → ℕ → ℕ → ℕ → Memory → Memory
reverse_between zero str i j m = m
reverse_between (suc fuel) str i j m =
    let rest = reverse_between fuel str (suc i) (j - 1) (swap (str + i) (str + j) m) in
    if ltb i j then rest else m

-- `reverse`: without a character nothing is swapped, as the index before 0 is below 0 in C.
unfoldable pub reverse : ℕ → ℕ → Memory → Memory
reverse str len m = reverse_between len str 0 (len - 1) m

-- The character of a digit of any base.
unfoldable pub digit_char : ℕ → ℕ
digit_char rem = if ltb 9 rem then rem - 10 + char_a else rem + char_0

-- The loop of `utoa_simple`: the digits from the last one on, at `buf` + `i` and up.
unfoldable pub put_digits : ℕ → ℕ → ℕ → ℕ → ℕ → Memory → ℕ × Memory
put_digits zero value buf base i m = (i, m)
put_digits (suc fuel) value buf base i m =
    let put = update m (buf + i) (digit_char (value % base)) in
    let rest = put_digits fuel (value / base) buf base (suc i) put in
    if value == 0 then (i, m) else rest

-- A `uint64_t` has at most 64 digits.
abbrev pub max_digits : ℕ
max_digits = 64

-- `utoa_simple`: the number of characters and the memory.
unfoldable pub utoa_simple : ℕ → ℕ → ℕ → Memory → ℕ × Memory
utoa_simple value buf base m =
    let digits = put_digits max_digits value buf base 0 m in
    let ended = update digits.1 (buf + digits.0) 0 in
    if value == 0
    then (1, update (update m buf char_0) (buf + 1) 0)
    else (digits.0, reverse buf digits.0 ended)

-- `itoa_simple`: in base 10 a negative number is a minus sign and its absolute value, in another
-- base its two's complement of 64 bits. `none` is undefined behaviour: the C negates in `int64_t`,
-- where - 2 ^ 63 overflows.
unfoldable pub itoa_simple : ℤ → ℕ → ℕ → Memory → Option (ℕ × Memory)
itoa_simple (pos n) buf base m = some (utoa_simple n buf base m)
itoa_simple (negsuc n) buf base m =
    let signed = utoa_simple (suc n) (buf + 1) base m in
    if base == 10
    then (if ltb (suc n) (2 ^ 63)
        then some (suc signed.0, update signed.1 buf char_minus)
        else none)
    else some (utoa_simple (2 ^ 64 - suc n) buf base m)
