-- ===== src/Spsc/Confined.antt =====
-- A corrupted index cannot make `spsc_write` (kernel/structure.c) write outside the ring's storage.
use native.Mathlib.Nat.{mod-lt}
use vaios.Base.{ℕ, ◌+◌, ◌*◌, ◌≤◌, ◌<◌, ◌≡◌, ◌⊎◌, inl, inr, refl, true, arith, Bool-cases, ◌==◌}
use vaios.Machine.{Memory}
use vaios.Spsc.Fifo.{
  SpscPolicy, SpscFifo, descriptor_sane, clamp, spsc_space, spsc_skip, spsc_available-add-space,
}
use vaios.Spsc.Copy.Outside.{copy_in-outside}
use vaios.Spsc.Access.{overflowed, store, admit, spsc_write}

-- What admission leaves alone, and the bound on what it admits.
record Admitted (f : SpscFifo) (out : ℕ × SpscFifo) : Type 0 where
  few : out.0 ≤ f.capacity
  placed : out.1.buffer ≡ f.buffer
  sized : out.1.capacity ≡ f.capacity
  wide : out.1.elem_size ≡ f.elem_size

overflowed-Admitted :
    (p : SpscPolicy) (count : ℕ) (f : SpscFifo)
    → descriptor_sane f ≡ true
    → Admitted f (overflowed p count (spsc_space f) f)
unfolding overflowed spsc_skip
overflowed-Admitted SpscPolicy.drop count f h = record {
  few = omega (arith, spsc_available-add-space f h);
  placed = refl;
  sized = refl;
  wide = refl;
}
overflowed-Admitted SpscPolicy.overwrite count f h = ground arith

admit-Admitted : (count : ℕ) (f : SpscFifo) → descriptor_sane f ≡ true → Admitted f (admit count f)
unfolding admit
admit-Admitted count f h =
    ground (arith, overflowed-Admitted f.policy count f h, spsc_available-add-space f h)

clamp-lt : (c x : ℕ) → 0 < c → clamp c x < c
clamp-lt c x h = ground (arith, mod-lt x h)

store-outside :
    (f : SpscFifo) (items n a : ℕ) (m : Memory)
    → 0 < f.capacity
    → n ≤ f.capacity
    → (a < f.buffer) ⊎ (f.buffer + f.capacity * f.elem_size ≤ a)
    → (store items n f m).2 a ≡ m a
unfolding store
store-outside f items n a m pos le out = elim (Bool-cases (n == 0)) [
  | inl e ↦ rw e
  | inr e ↦ rw e (
      copy_in-outside f (clamp f.capacity f.head) items n a m (clamp-lt f.capacity f.head pos) le
        out)
]

-- Whatever its indices hold, a write to a FIFO with a sane descriptor changes no byte outside the
-- FIFO's own storage.
pub spsc_write-outside :
    (f : SpscFifo) (items count a : ℕ) (m : Memory)
    → descriptor_sane f ≡ true
    → (a < f.buffer) ⊎ (f.buffer + f.capacity * f.elem_size ≤ a)
    → (spsc_write items count f m).2 a ≡ m a
unfolding spsc_write
spsc_write-outside f items count a m h out = elim (Bool-cases (count == 0)) [
  | inl e ↦ rw e
  | inr e ↦
      rw (e, h)
        (store-outside (admit count f).1 items (admit count f).0 a m (rw sized (ground arith))
          (rw sized few) (rw (placed, sized, wide) out))
]
  where
    open (admit-Admitted count f h) use {few, placed, sized, wide}
