-- ===== src/Spsc/Copy/Bytes.antt =====
-- Where the two-part copies of kernel/structure.c put each byte.
use vaios.Base.{
  ℕ, refl, lt→leb, le→leb, ◌+◌, ◌-◌, ◌*◌, ◌%◌, ◌≤◌, ◌<◌, ◌≡◌, ◌⊎◌, inl, inr, arith, ap, dec_lt,
}
use vaios.Machine.{Memory, v_memcpy, cell-lt}
use vaios.Spsc.Fifo.{SpscFifo}
use vaios.Spsc.Copy.{
  copy_in, copy_out, slot, Apart, turn, v_memcpy-cell, v_memcpy-apart, scale, scale_le,
}

module _ (f : SpscFifo) (start other count k b : ℕ) (m : Memory) (start_in : start < f.capacity)
    (count_in : count ≤ f.capacity) (b_in : b < f.elem_size)
    (apart : Apart f.buffer (f.capacity * f.elem_size) other (count * f.elem_size)) where
  open f use {buffer, capacity, elem_size}

  abbrev to_end : ℕ
  to_end = capacity - start

  abbrev rest : ℕ
  rest = count - to_end

  abbrev first_in : Memory
  first_in = v_memcpy (buffer + start * elem_size) other (to_end * elem_size) m

  abbrev first_out : Memory
  first_out = v_memcpy other (buffer + start * elem_size) (to_end * elem_size) m

  -- What the slots before the turn and those after it make up.
  both_parts : start * elem_size + to_end * elem_size ≡ capacity * elem_size
  both_parts = let e : start + to_end ≡ capacity = omega arith in omega (arith, scale elem_size e)

  -- A byte of the other run is no byte of the ring.
  elsewhere :
      k < count
      → (a : ℕ) → a ≡ other + k * elem_size + b
      → (a < buffer) ⊎ (buffer + capacity * elem_size ≤ a)
  elsewhere h a e = elim apart [
    | inl q ↦ inr (omega arith)
    | inr q ↦ inl (omega (arith, cell-lt k count elem_size b h b_in))
  ]

  -- And a byte of the ring is no byte of the part of the other run before the turn.
  in_ring :
      (j : ℕ)
      → j < capacity
      → to_end < count
      → (buffer + j * elem_size + b < other)
        ⊎ (other + to_end * elem_size ≤ buffer + j * elem_size + b)
  in_ring j h p = elim apart [
    | inl q ↦ inl (omega (arith, cell-lt j capacity elem_size b h b_in))
    | inr q ↦ inr (omega (arith, scale_le to_end count elem_size (omega arith)))
  ]

  -- The run ends before the end of the ring: one `v_memcpy`.
  whole_in :
      k < count
      → count ≤ to_end
      → copy_in f start other count m (slot f start k b) ≡ m (other + k * elem_size + b)
  unfolding copy_in
  whole_in h p = elim (turn capacity start k start_in (omega arith)) [
    | inl e ↦ rw (le→leb count to_end p) (
        v_memcpy-cell (buffer + start * elem_size) other count elem_size k b m h b_in _
          (omega (arith, scale elem_size e)))
    | inr e ↦ absurd (omega arith)
  ]

  -- Nor is it one of the part before the turn.
  before :
      {a : ℕ}
      → k < count
      → a ≡ other + k * elem_size + b
      → (a < buffer + start * elem_size) ⊎ (buffer + start * elem_size + to_end * elem_size ≤ a)
  before {a} h e = elim (elsewhere h a e) [
    | inl q ↦ inl (omega arith)
    | inr q ↦ inr (omega (arith, both_parts))
  ]

  -- The run goes round the end, and the element lies before or after the turn.
  split_in :
      k < count
      → to_end < count
      → copy_in f start other count m (slot f start k b) ≡ m (other + k * elem_size + b)
  unfolding copy_in
  split_in h p = elim (turn capacity start k start_in (omega arith)) [
    | inl e ↦
        rw
          (
            lt→leb to_end count p,
            v_memcpy-apart buffer (other + to_end * elem_size) rest elem_size (slot f start k b)
                first_in
                (inr
                  (omega (arith, scale elem_size e, scale_le rest start elem_size (omega arith)))),
          )
          (v_memcpy-cell (buffer + start * elem_size) other to_end elem_size k b m (omega arith)
            b_in _ (omega (arith, scale elem_size e)))
    | inr e ↦
        let same : k - to_end + to_end ≡ k = omega arith in
        let index : (start + k) % capacity ≡ k - to_end = omega arith in
        rw
          (
            lt→leb to_end count p,
            v_memcpy-cell buffer (other + to_end * elem_size) rest elem_size (k - to_end) b first_in
                (omega arith) b_in (slot f start k b) (omega (arith, scale elem_size index)),
            v_memcpy-apart (buffer + start * elem_size) other to_end elem_size
                (other + to_end * elem_size + (k - to_end) * elem_size + b) m
                (before h (omega (arith, scale elem_size same))),
          )
          (ap m (omega (arith, scale elem_size same)))
  ]

  -- Element `k` of the source is found `k` slots after `start`.
  pub copy_in-slot :
      k < count → copy_in f start other count m (slot f start k b) ≡ m (other + k * elem_size + b)
  copy_in-slot h = elim (dec_lt to_end count) [
    | yes p ↦ split_in h p
    | no p ↦ whole_in h (omega arith)
  ]

  -- A slot past the run lies outside each part of it.
  past :
      (n : ℕ)
      → start + n ≤ capacity
      → n ≤ k
      → k < capacity
      → (slot f start k b < buffer + start * elem_size)
        ⊎ (buffer + start * elem_size + n * elem_size ≤ slot f start k b)
  past n h p g = elim (turn capacity start k start_in g) [
    | inl e ↦ inr (omega (arith, scale elem_size e, scale_le n k elem_size p))
    | inr e ↦
        inl (omega (arith, cell-lt ((start + k) % capacity) start elem_size b (omega arith) b_in))
  ]

  past_turn :
      to_end < count
      → count ≤ k
      → k < capacity
      → (slot f start k b < buffer) ⊎ (buffer + rest * elem_size ≤ slot f start k b)
  past_turn p h g = elim (turn capacity start k start_in g) [
    | inl e ↦ inr (omega (arith, scale_le rest ((start + k) % capacity) elem_size (omega arith)))
    | inr e ↦ inr (omega (arith, scale_le rest ((start + k) % capacity) elem_size (omega arith)))
  ]

  -- The slots past the run keep their bytes.
  pub copy_in-other :
      count ≤ k
      → k < capacity
      → copy_in f start other count m (slot f start k b) ≡ m (slot f start k b)
  unfolding copy_in
  copy_in-other h g = elim (dec_lt to_end count) [
    | no p ↦ rw (le→leb count to_end (omega arith)) (
        v_memcpy-apart (buffer + start * elem_size) other count elem_size (slot f start k b) m
          (past count (omega arith) h g))
    | yes p ↦ rw (
      lt→leb to_end count p,
      v_memcpy-apart buffer (other + to_end * elem_size) rest elem_size (slot f start k b) first_in
          (past_turn p h g),
      v_memcpy-apart (buffer + start * elem_size) other to_end elem_size (slot f start k b) m
          (past to_end (omega arith) (omega arith) g),
    )
  ]

  -- Reading: element `k` of `other` is the one that stood `k` slots after `start`.
  pub copy_out-slot :
      k < count → copy_out f start other count m (other + k * elem_size + b) ≡ m (slot f start k b)
  unfolding copy_out
  copy_out-slot h = elim (dec_lt to_end count) [
    | no p ↦ elim (turn capacity start k start_in (omega arith)) [
      | inl e ↦
          rw
            (
              le→leb count to_end (omega arith),
              v_memcpy-cell other (buffer + start * elem_size) count elem_size k b m h b_in
                  (other + k * elem_size + b) refl,
            )
            (ap m (omega (arith, scale elem_size e)))
      | inr e ↦ absurd (omega arith)
    ]
    | yes p ↦ elim (turn capacity start k start_in (omega arith)) [
      | inl e ↦
          rw
            (
              lt→leb to_end count p,
              v_memcpy-apart (other + to_end * elem_size) buffer rest elem_size
                  (other + k * elem_size + b) first_out
                  (inl (omega (arith, cell-lt k to_end elem_size b (omega arith) b_in))),
              v_memcpy-cell other (buffer + start * elem_size) to_end elem_size k b m (omega arith)
                  b_in (other + k * elem_size + b) refl,
            )
            (ap m (omega (arith, scale elem_size e)))
      | inr e ↦
          let same : k - to_end + to_end ≡ k = omega arith in
          let index : (start + k) % capacity ≡ k - to_end = omega arith in
          rw
            (
              lt→leb to_end count p,
              v_memcpy-cell (other + to_end * elem_size) buffer rest elem_size (k - to_end) b
                  first_out (omega arith) b_in (other + k * elem_size + b)
                  (omega (arith, scale elem_size same)),
              v_memcpy-apart other (buffer + start * elem_size) to_end elem_size
                  (buffer + (k - to_end) * elem_size + b) m (in_ring (k - to_end) (omega arith) p),
            )
            (ap m (omega (arith, scale elem_size index)))
    ]
  ]
