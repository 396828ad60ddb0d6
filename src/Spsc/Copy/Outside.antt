-- ===== src/Spsc/Copy/Outside.antt =====
-- What the two-part copies of kernel/structure.c leave alone.
use vaios.Base.{ℕ, ◌+◌, ◌-◌, ◌*◌, ◌≤◌, ◌<◌, ◌≡◌, ◌⊎◌, arith}
use vaios.Machine.{Memory, v_memcpy}
use vaios.Spsc.Fifo.{SpscFifo}
use vaios.Spsc.Copy.{copy_in, copy_out, scale, scale_le}

module _ (f : SpscFifo) (start other count a : ℕ) (m : Memory) (start_in : start < f.capacity)
    (count_in : count ≤ f.capacity) where
  open f use {buffer, capacity, elem_size}

  -- Writing touches no byte outside the ring's storage.
  pub copy_in-outside :
      (a < buffer) ⊎ (buffer + capacity * elem_size ≤ a) → copy_in f start other count m a ≡ m a
  unfolding copy_in v_memcpy
  copy_in-outside h = ground (
    arith,
    scale {a = start + (capacity - start)} {b = capacity} elem_size (omega arith),
    scale_le count (capacity - start) elem_size,
    scale_le (count - (capacity - start)) capacity elem_size (omega arith),
  )

  -- Reading touches no byte outside the `count` elements at `other`.
  pub copy_out-outside :
      (a < other) ⊎ (other + count * elem_size ≤ a) → copy_out f start other count m a ≡ m a
  unfolding copy_out v_memcpy
  copy_out-outside h = ground (arith, cover, scale_le (capacity - start) count elem_size)
    where
      cover :
          capacity - start ≤ count
          → (capacity - start + (count - (capacity - start))) * elem_size ≡ count * elem_size
      cover h = scale elem_size (omega arith)
