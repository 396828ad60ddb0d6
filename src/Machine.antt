-- ===== src/Machine.antt =====
-- 32-bit words and byte-addressed memory, as the C of the target sees them.
pub mod Bits
use vaios.Base.{
  ℕ, ◌+◌, ◌-◌, ◌*◌, ◌%◌, ◌^◌, ◌<◌, ◌≤◌, ◌≡◌, ◌⊎◌, ltb, leb, le→leb, lt→ltb, ◌&&◌, if◌then◌else◌,
  arith,
}

-- `uint32_t`, `size_t` and `uintptr_t` hold 32 bits.
abbrev pub word_mod : ℕ
word_mod = 2 ^ 32

abbrev pub add32 : ℕ → ℕ → ℕ
add32 a b = (a + b) % word_mod

-- `-` on ℕ stops at 0, so the modulus comes first.
abbrev pub sub32 : ℕ → ℕ → ℕ
sub32 a b = (a + word_mod - b) % word_mod

-- Signed integers, over the native numbers: `negsuc n` is - (n + 1).
pub data ℤ : Type 0 where
  pos : ℕ → ℤ
  negsuc : ℕ → ℤ

-- One byte at each address.
abbrev pub Memory : Type 0
Memory = ℕ → ℕ

-- `v_memcpy`: the `n` bytes at `dest` become those at `src`.
unfoldable pub v_memcpy : ℕ → ℕ → ℕ → Memory → Memory
v_memcpy dest src n m a = if leb dest a && ltb a (dest + n) then m (src + (a - dest)) else m a

-- Inside the run the byte comes from the source, at the same distance.
pub v_memcpy_inside :
    (dest src n a s : ℕ) (m : Memory)
    → dest ≤ a
    → a < dest + n
    → s + dest ≡ src + a
    → v_memcpy dest src n m a ≡ m s
unfolding v_memcpy
v_memcpy_inside dest src n a s m lo hi e = rw (le→leb dest a lo, lt→ltb a (dest + n) hi, source)
  where
    source : src + (a - dest) ≡ s
    source = omega arith

pub v_memcpy_outside :
    (dest src n a : ℕ) (m : Memory) → (a < dest) ⊎ (dest + n ≤ a) → v_memcpy dest src n m a ≡ m a
unfolding v_memcpy
v_memcpy_outside dest src n a m h = ground arith

-- Byte `b` of cell `k` lies below the end of `n` cells of `w` bytes.
pub cell-lt : (k n w b : ℕ) → k < n → b < w → k * w + b < n * w
cell-lt k n w b h g = grind arith
