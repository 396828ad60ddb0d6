-- ===== src/Spsc/Read.antt =====
-- `spsc_read`, `spsc_peek` and `spsc_skip` of kernel/structure.c against the queue.
use native.Mathlib.Nat.{mod-lt}
use vaios.Base.{
  ℕ, ◌+◌, ◌*◌, ◌%◌, ◌≤◌, ◌<◌, ◌≡◌, ◌⊎◌, refl, ap, sym, ◌∙◌, min, ◌++◌, inl, inr, arith, dec_lt,
  ne→eqb, lt→leb, ltb, if◌then◌else◌, tabulate, tabulate-ext, tabulate-add,
}
use vaios.Machine.{Memory, add32, cell-lt}
use vaios.Spsc.Fifo.{SpscFifo, IsValid, sane, spsc_available, spsc_skip}
use vaios.Spsc.Copy.{Apart, slot, turn, copy_out, Apart-shorter}
use vaios.Spsc.Copy.Bytes.{copy_out-slot}
use vaios.Spsc.Copy.Outside.{copy_out-outside}
use vaios.Spsc.Access.{obtainable, spsc_read, spsc_peek}
use vaios.Spsc.Queue.{
  element, elements, contents, nth_after, available-lt, available_cases, shift_forth,
}

-- The FIFO with `tail` moved on by `n` slots.
abbrev pub advanced : ℕ → SpscFifo → SpscFifo
advanced n f = record f { tail = add32 f.tail n % f.capacity }

pub advanced-IsValid : {f : SpscFifo} (n : ℕ) → IsValid f → IsValid (advanced n f)
advanced-IsValid {f} n v = record {
  placed = v.placed;
  some_capacity = v.some_capacity;
  small_capacity = v.small_capacity;
  some_size = v.some_size;
  small_size = v.small_size;
  head_in = v.head_in;
  tail_in = mod-lt (add32 f.tail n) v.some_capacity;
}

module _ {f : SpscFifo} (v : IsValid f) (n : ℕ) (fits : n ≤ spsc_available f) where
  open f use {capacity, tail}

  wrapped : add32 tail n % capacity ≡ (tail + n) % capacity
  wrapped = ap (λ (t : ℕ). t % capacity) (omega (arith, available-lt v))

  pub available-advanced : spsc_available (advanced n f) + n ≡ spsc_available f
  available-advanced = elim (turn capacity tail n v.tail_in (omega (arith, available-lt v))) [
    | inl e ↦ omega (
      arith,
      wrapped,
      available_cases v,
      available_cases (advanced-IsValid n v),
      available-lt v,
      available-lt (advanced-IsValid n v),
    )
    | inr e ↦ omega (
      arith,
      wrapped,
      available_cases v,
      available_cases (advanced-IsValid n v),
      available-lt v,
      available-lt (advanced-IsValid n v),
    )
  ]

  -- The queue is the first `n` elements, then what the advanced FIFO holds.
  pub contents-advanced :
      (m : Memory) → contents f m ≡ tabulate n (nth_after f m tail) ++ contents (advanced n f) m
  unfolding contents
  contents-advanced m = rw split (
      tabulate-add n (spsc_available (advanced n f)) (nth_after f m tail)
      ∙ ap (λ t. tabulate n (nth_after f m tail) ++ t)
          (tabulate-ext (spsc_available (advanced n f)) _ _ (λ k h. same k)))
    where
      open f use {buffer, elem_size}

      split : spsc_available f ≡ n + spsc_available (advanced n f)
      split = omega (arith, available-advanced)

      same : (k : ℕ) → nth_after f m tail (n + k) ≡ nth_after (advanced n f) m (advanced n f).tail k
      same k =
          ap (λ i. element m (buffer + i * elem_size) elem_size)
            (shift_forth capacity tail n (advanced n f).tail k (sym wrapped))

-- A copy out of the ring leaves the ring as it is, wherever the tail stands.
contents-copy_out :
    (f : SpscFifo) (tail start out n : ℕ) (m : Memory)
    → start < f.capacity
    → n ≤ f.capacity
    → Apart f.buffer (f.capacity * f.elem_size) out (n * f.elem_size)
    → contents (record f { tail = tail }) (copy_out f start out n m)
      ≡ contents (record f { tail = tail }) m
unfolding contents
contents-copy_out f tail start out n m h le apart =
    tabulate-ext (spsc_available (record f { tail = tail })) _ _
      (λ k p. tabulate-ext elem_size _ _ (λ b q. same k b q))
  where
    open f use {buffer, capacity, elem_size}

    outside :
        (k b : ℕ)
        → b < elem_size
        → (slot f tail k b < out) ⊎ (out + n * elem_size ≤ slot f tail k b)
    outside k b q = elim apart [
      | inl e ↦ inl (
          omega (
            arith,
            cell-lt ((tail + k) % capacity) capacity elem_size b (mod-lt (tail + k) (omega arith))
                q,
          ))
      | inr e ↦ inr (omega arith)
    ]

    same :
        (k b : ℕ) → b < elem_size → copy_out f start out n m (slot f tail k b) ≡ m (slot f tail k b)
    same k b q = copy_out-outside f start out n (slot f tail k b) m h le (outside k b q)

-- The copy puts the first `n` elements of the queue at `out`.
elements-copy_out :
    {f : SpscFifo} (out n : ℕ) (m : Memory)
    → IsValid f
    → n ≤ spsc_available f
    → Apart f.buffer (f.capacity * f.elem_size) out (n * f.elem_size)
    → elements (copy_out f f.tail out n m) out f.elem_size n ≡ tabulate n (nth_after f m f.tail)
elements-copy_out {f} out n m v le apart = tabulate-ext n _ _ (λ k p.
    tabulate-ext f.elem_size _ _ (λ b q.
      copy_out-slot f f.tail out n k b m v.tail_in (omega (arith, available-lt v)) q apart p))

-- What a read or a peek of `count` items gets.
obtainable-min : (count : ℕ) (f : SpscFifo) → obtainable count f ≡ min count (spsc_available f)
unfolding obtainable
obtainable-min count f = ground arith

-- What a read of `n` items leaves: they stand at `out`, and the queue has lost exactly them.
pub record Read (f : SpscFifo) (m : Memory) (at n : ℕ) (out : ℕ × SpscFifo × Memory) : Type 0 where
  pub taken : out.0 ≡ n
  pub queue : contents f m ≡ elements out.2 at f.elem_size n ++ contents out.1 out.2
  pub valid : IsValid out.1
  pub count : spsc_available out.1 + n ≡ spsc_available f

fetch :
    {f : SpscFifo} (out n : ℕ) (m : Memory)
    → IsValid f
    → n ≤ spsc_available f
    → Apart f.buffer (f.capacity * f.elem_size) out (n * f.elem_size)
    → Read f m out n (n, advanced n f, copy_out f f.tail out n m)
fetch {f} out n m v le apart = record {
  taken = refl;
  queue =
      rw
        (
          elements-copy_out out n m v le apart,
          contents-copy_out f (advanced n f).tail f.tail out n m v.tail_in
              (omega (arith, available-lt v)) apart,
        )
        (contents-advanced v n le m);
  valid = advanced-IsValid n v;
  count = available-advanced v n le;
}

-- A read from a valid FIFO, to an `out` apart from its storage, gets as many items as are there, at
-- most `count`: the oldest ones go to `out` in order, the FIFO keeps the others, and it stays
-- valid.
pub spsc_read_lem :
    {f : SpscFifo} (out count : ℕ) (m : Memory)
    → IsValid f
    → Apart f.buffer (f.capacity * f.elem_size) out (count * f.elem_size)
    → Read f m out (min count (spsc_available f)) (spsc_read out count f m)
unfolding spsc_read
spsc_read_lem {f} out count m v apart = elim (dec_lt 0 (min count (spsc_available f))) [
  | yes any ↦
      rw
        (
          obtainable-min,
          sane v,
          ne→eqb (min count (spsc_available f)) 0 (omega arith),
          lt→leb f.tail f.capacity v.tail_in,
        )
        (fetch out (min count (spsc_available f)) m v (omega arith)
          (Apart-shorter _ _ _ count _ f.elem_size (omega arith) apart))
  | no nothing ↦
      let z : min count (spsc_available f) ≡ 0 = omega arith in
      rw (obtainable-min, z, sane v)
        (record { taken = refl; queue = refl; valid = v; count = omega arith })
]

-- Under the same conditions a peek gets the items that a read gets, and leaves the queue as it was.
spsc_peek_lem :
    {f : SpscFifo} (out count : ℕ) (m : Memory)
    → IsValid f
    → Apart f.buffer (f.capacity * f.elem_size) out (count * f.elem_size)
    → let (n, m') = spsc_peek out count f m in
      let (n', f', m'') = spsc_read out count f m in
      (n ≡ n')
      × (contents f m' ≡ contents f m)
      × (contents f m ≡ elements m' out f.elem_size n ++ contents f' m')
unfolding spsc_peek spsc_read
spsc_peek_lem {f} out count m v apart = elim (dec_lt 0 (min count (spsc_available f))) [
  | yes any ↦
      rw
        (
          obtainable-min,
          sane v,
          ne→eqb (min count (spsc_available f)) 0 (omega arith),
          lt→leb f.tail f.capacity v.tail_in,
        )
        (let r =
            fetch out (min count (spsc_available f)) m v (omega arith)
              (Apart-shorter _ _ _ count _ f.elem_size (omega arith) apart) in
          (
            refl,
            contents-copy_out f f.tail f.tail out _ m v.tail_in (omega (arith, available-lt v))
                (Apart-shorter _ _ _ count _ f.elem_size (omega arith) apart),
            r.queue,
          ))
  | no nothing ↦
      let z : min count (spsc_available f) ≡ 0 = omega arith in
      rw (obtainable-min, z, sane v) (refl, refl, refl)
]

-- A skip on a valid FIFO passes over as many of the oldest items as are there, at most `count`.
pub spsc_skip_lem :
    {f : SpscFifo} (count : ℕ)
    → IsValid f
    → spsc_skip count f ≡ (min count (spsc_available f), advanced (min count (spsc_available f)) f)
unfolding spsc_skip
spsc_skip_lem {f} count v = rw (sane v, taken)
  where
    taken :
        (if ltb (spsc_available f) count then spsc_available f else count)
        ≡ min count (spsc_available f)
    taken = ground arith
