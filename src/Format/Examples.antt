-- ===== src/Format/Examples.antt =====
-- `itoa_simple` of kernel/utils.c on - 1207.
use vaios.Base.{ℕ, inr, ◌≡◌, some, arith}
use vaios.Machine.{Memory, negsuc}
use vaios.Format.{itoa_simple}
use vaios.Format.Reader.{parse_signed}
use vaios.Format.Parse.{Fits, shown, parse_signed-itoa_simple}
use vaios.Format.Extent.{Confined, itoa_simple-Confined}

abbrev memory : Memory
memory a = a

parse_signed-itoa_simple_example :
    (out : ℕ × Memory) × (itoa_simple (negsuc 1206) 100 10 memory ≡ some out)
    × (parse_signed 10 out.1 100 ≡ some (negsuc 1206))
unfolding Fits shown
parse_signed-itoa_simple_example =
    parse_signed-itoa_simple (negsuc 1206) 100 10 memory (omega arith) (omega arith)
      (omega arith, inr (omega arith))

itoa_simple-Confined_example :
    (out : ℕ × Memory) × (itoa_simple (negsuc 1206) 100 16 memory ≡ some out)
    × Confined 100 memory out
unfolding Fits
itoa_simple-Confined_example =
    itoa_simple-Confined (negsuc 1206) 100 16 memory (omega arith) (omega arith, inr (omega arith))
