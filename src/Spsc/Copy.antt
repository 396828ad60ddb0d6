-- ===== src/Spsc/Copy.antt =====
-- The two-part copies of `spsc_write`, `spsc_read` and `spsc_peek` in kernel/structure.c: a run of
-- elements that goes round the end of the ring is moved by two `v_memcpy`.
pub mod Bytes
pub mod Outside
use vaios.Base.{
  ℕ, refl, lt→leb, le→leb, ◌+◌, ◌-◌, ◌*◌, ◌%◌, ◌≤◌, ◌<◌, ◌≡◌, ◌⊎◌, inl, inr, leb, if◌then◌else◌,
  arith, ap, dec_lt,
}
use native.Mathlib.Nat.{mod-eq_of_lt, mod-eq-sub-mod}
use vaios.Machine.{Memory, v_memcpy, v_memcpy_inside, v_memcpy_outside, cell-lt}
use vaios.Spsc.Fifo.{SpscFifo}

-- `count` elements from `items` into the ring, from slot `head` on
unfoldable pub copy_in : SpscFifo → ℕ → ℕ → ℕ → Memory → Memory
copy_in f head items count m =
    let to_end = f.capacity - head in
    let first = v_memcpy (f.buffer + head * f.elem_size) items (to_end * f.elem_size) m in
    if leb count to_end
    then v_memcpy (f.buffer + head * f.elem_size) items (count * f.elem_size) m
    else v_memcpy f.buffer (items + to_end * f.elem_size) ((count - to_end) * f.elem_size) first

-- `count` elements of the ring, from slot `tail` on, to `out`
unfoldable pub copy_out : SpscFifo → ℕ → ℕ → ℕ → Memory → Memory
copy_out f tail out count m =
    let to_end = f.capacity - tail in
    let first = v_memcpy out (f.buffer + tail * f.elem_size) (to_end * f.elem_size) m in
    if leb count to_end
    then v_memcpy out (f.buffer + tail * f.elem_size) (count * f.elem_size) m
    else v_memcpy (out + to_end * f.elem_size) f.buffer ((count - to_end) * f.elem_size) first

-- The address of byte `b` of the element `k` slots after slot `start`.
abbrev pub slot : SpscFifo → ℕ → ℕ → ℕ → ℕ
slot f start k b = f.buffer + ((start + k) % f.capacity) * f.elem_size + b

-- Two runs of bytes that do not meet.
abbrev pub Apart : ℕ → ℕ → ℕ → ℕ → Type 0
Apart a n b k = (a + n ≤ b) ⊎ (b + k ≤ a)

-- Going round the ring takes one turn at most.
pub turn :
    (cap start k : ℕ)
    → start < cap
    → k < cap
    → ((start + k) % cap ≡ start + k) ⊎ ((start + k) % cap + cap ≡ start + k)
turn cap start k h g = elim (dec_lt (start + k) cap) [
  | yes p ↦ inl (mod-eq_of_lt p)
  | no p ↦ inr (
      omega (
        arith,
        mod-eq-sub-mod {n = start + k} {m = cap} (omega arith),
        mod-eq_of_lt {n = start + k - cap} {m = cap} (omega arith),
      ))
]

-- A byte of a cell that lies `k` cells into a run of `n`, `w` bytes wide, at `dest`.
v_memcpy-cell :
    (dest src n w k b : ℕ) (m : Memory)
    → k < n
    → b < w
    → (a : ℕ) → a ≡ dest + k * w + b
    → v_memcpy dest src (n * w) m a ≡ m (src + k * w + b)
v_memcpy-cell dest src n w k b m h g a e =
    v_memcpy_inside dest src (n * w) a (src + k * w + b) m (omega arith)
      (omega (arith, cell-lt k n w b h g)) (omega arith)

-- Outside a run of cells.
v_memcpy-apart :
    (dest src n w a : ℕ) (m : Memory)
    → (a < dest) ⊎ (dest + n * w ≤ a)
    → v_memcpy dest src (n * w) m a ≡ m a
v_memcpy-apart dest src n w a m h = v_memcpy_outside dest src (n * w) a m h

scale : {a b : ℕ} (w : ℕ) → a ≡ b → a * w ≡ b * w
scale w e = ap (λ (t : ℕ). t * w) e

pub scale_le : (a b w : ℕ) → a ≤ b → a * w ≤ b * w
scale_le a b w h = grind arith

-- A shorter run at the same place meets no more.
pub Apart-shorter : (a n b k j w : ℕ) → j ≤ k → Apart a n b (k * w) → Apart a n b (j * w)
Apart-shorter a n b k j w h (inl q) = inl q
Apart-shorter a n b k j w h (inr q) = inr (omega (arith, scale_le j k w h))
