-- ===== src/Sched/Bitmap.antt =====
-- The ready bitmap of kernel/task.c: `rb_set`, `rb_clear` and `highest_ready_prio`.
use Prim.Native.Nat.{bit_and, bit_or}
use vaios.Base.{
  ltb→lt, ℕ, ◌-◌, ◌/◌, ◌%◌, ◌^◌, ◌<◌, ◌≡◌, refl, sym, Bool, true, false, not, ◌&&◌, ◌||◌, ltb, leb,
  ◌==◌, if◌then◌else◌, Option, none, some, arith,
}
use vaios.Machine.{word_mod}
use vaios.Machine.Bits.{leading_zeros, all_below, all_below_sound}

abbrev pub test_bit : ℕ → ℕ → Bool
test_bit bitmap p = bitmap / 2 ^ p % 2 == 1

-- `ready_bitmap |= (1u << prio)`
unfoldable pub rb_set : ℕ → ℕ → ℕ
rb_set prio bitmap = bit_or bitmap (2 ^ prio % word_mod)

-- `ready_bitmap &= ~(1u << prio)`
unfoldable pub rb_clear : ℕ → ℕ → ℕ
rb_clear prio bitmap = bit_and bitmap (word_mod - 1 - 2 ^ prio % word_mod)

-- `highest_ready_prio`, with `none` for -1
unfoldable pub highest_ready_prio : ℕ → Option ℕ
unfolding leading_zeros
highest_ready_prio bitmap = if bitmap == 0 then none else some (31 - leading_zeros 32 bitmap)

abbrev agree : Bool → Bool → Bool
agree true b = b
agree false b = not b

agree-eq : (a b : Bool) → agree a b ≡ true → a ≡ b
agree-eq true b h = sym h
agree-eq false b h = ground arith

-- The checks below run over the 8 levels and the 256 bitmaps that they make.
abbrev set_holds : ℕ → ℕ → ℕ → Bool
set_holds bitmap p q = agree (test_bit (rb_set p bitmap) q) (p == q || test_bit bitmap q)

abbrev clear_holds : ℕ → ℕ → ℕ → Bool
clear_holds bitmap p q = agree (test_bit (rb_clear p bitmap) q) (not (p == q) && test_bit bitmap q)

set_table :
    all_below 256 (λ b. all_below 8 (λ p. ltb (rb_set p b) 256 && all_below 8 (set_holds b p)))
    ≡ true
unfolding all_below rb_set
set_table = refl

clear_table :
    all_below 256 (λ b. all_below 8 (λ p. ltb (rb_clear p b) 256 && all_below 8 (clear_holds b p)))
    ≡ true
unfolding all_below rb_clear
clear_table = refl

-- The highest priority of a bitmap that is not 0 has its bit set, and no higher one has.
abbrev highest_holds : ℕ → Bool
highest_holds b = elim (highest_ready_prio b) [
  | none ↦ all_below 8 (λ q. not (test_bit b q))
  | some p ↦ ltb p 8 && test_bit b p && all_below 8 (λ q. leb q p || not (test_bit b q))
]

highest_table : all_below 256 highest_holds ≡ true
unfolding all_below highest_ready_prio
highest_table = refl

and-eq : (a b : Bool) → (a && b) ≡ true → (a ≡ true) × (b ≡ true)
and-eq a b h = ground arith

module _ (b p : ℕ) (small : b < 256) (level : p < 8) where
  set_row : (ltb (rb_set p b) 256 && all_below 8 (set_holds b p)) ≡ true
  set_row =
      all_below_sound 8 (λ p. ltb (rb_set p b) 256 && all_below 8 (set_holds b p)) p
        (all_below_sound 256
          (λ b. all_below 8 (λ p. ltb (rb_set p b) 256 && all_below 8 (set_holds b p))) b set_table
          small)
        level

  clear_row : (ltb (rb_clear p b) 256 && all_below 8 (clear_holds b p)) ≡ true
  clear_row =
      all_below_sound 8 (λ p. ltb (rb_clear p b) 256 && all_below 8 (clear_holds b p)) p
        (all_below_sound 256
          (λ b. all_below 8 (λ p. ltb (rb_clear p b) 256 && all_below 8 (clear_holds b p))) b
          clear_table small)
        level

  -- Setting a bit sets that bit and no other.
  pub test_bit-rb_set : (q : ℕ) → q < 8 → test_bit (rb_set p b) q ≡ (p == q || test_bit b q)
  test_bit-rb_set q h = agree-eq _ _ (all_below_sound 8 (set_holds b p) q (and-eq _ _ set_row).1 h)

  pub rb_set-lt : rb_set p b < 256
  rb_set-lt = ltb→lt _ _ (and-eq _ _ set_row).0

  -- Clearing a bit clears that bit and no other.
  pub test_bit-rb_clear :
      (q : ℕ) → q < 8 → test_bit (rb_clear p b) q ≡ (not (p == q) && test_bit b q)
  test_bit-rb_clear q h =
      agree-eq _ _ (all_below_sound 8 (clear_holds b p) q (and-eq _ _ clear_row).1 h)

  pub rb_clear-lt : rb_clear p b < 256
  rb_clear-lt = ltb→lt _ _ (and-eq _ _ clear_row).0

-- What the level found says of the bits, and what it says that none is found.
abbrev pub Highest : ℕ → Option ℕ → Type 0
Highest b none = (q : ℕ) → q < 8 → test_bit b q ≡ false
Highest b (some p) =
    (p < 8) × (test_bit b p ≡ true) × ((q : ℕ) → p < q → q < 8 → test_bit b q ≡ false)

table_row : (b : ℕ) (r : Option ℕ) → highest_ready_prio b ≡ r → highest_holds b ≡ true → Highest b r
table_row b none e h = λ q lt. ground (arith, all_below_sound 8 (λ q. not (test_bit b q)) q)
table_row b (some p) e h = (
  ground arith,
  ground arith,
  λ q lo hi. ground (arith, all_below_sound 8 (λ q. leb q p || not (test_bit b q)) q),
)

-- For a bitmap of 8 levels `highest_ready_prio` finds the highest level whose bit is set, and none
-- when no bit is set.
pub highest_ready_prio-Highest : (b : ℕ) → b < 256 → Highest b (highest_ready_prio b)
highest_ready_prio-Highest b h =
    table_row b (highest_ready_prio b) refl (all_below_sound 256 highest_holds b highest_table h)
