-- ===== src/Spsc/Queue.antt =====
-- What a valid SPSC FIFO holds, as a list of elements, and what each access does to that list.
use native.Mathlib.Nat.{mod-add-mod, add-mod_right, mod-lt}
use vaios.Base.{
  ℕ, ◌+◌, ◌-◌, ◌*◌, ◌%◌, ◌≤◌, ◌<◌, ◌≡◌, ap, ap₂, ◌∙◌, List, ◌++◌, ◌⊎◌, inl, inr, dec_lt, tabulate,
  tabulate-ext, tabulate-add, arith,
}
use vaios.Machine.{Memory}
use vaios.Spsc.Fifo.{SpscFifo, IsValid, sane, spsc_available, spsc_space, spsc_available-add-space}
use vaios.Spsc.Copy.{Apart, slot, turn, copy_in}
use vaios.Spsc.Copy.Bytes.{copy_in-slot, copy_in-other}

-- The `width` bytes at an address.
abbrev pub element : Memory → ℕ → ℕ → List ℕ
element m a width = tabulate width (λ b. m (a + b))

-- `count` elements that follow one another in memory.
abbrev pub elements : Memory → ℕ → ℕ → ℕ → List (List ℕ)
elements m a width count = tabulate count (λ k. element m (a + k * width) width)

-- The element `k` slots after slot `start`.
abbrev pub nth_after : SpscFifo → Memory → ℕ → ℕ → List ℕ
nth_after f m start k = element m (f.buffer + ((start + k) % f.capacity) * f.elem_size) f.elem_size

-- The queue of a FIFO, oldest element first.
unfoldable pub contents : SpscFifo → Memory → List (List ℕ)
contents f m = tabulate (spsc_available f) (nth_after f m f.tail)

-- The count of a valid FIFO, whichever index is ahead.
pub available_cases :
    {f : SpscFifo}
    → IsValid f
    → ((f.tail ≤ f.head) × (spsc_available f + f.tail ≡ f.head))
      ⊎ ((f.head < f.tail) × (spsc_available f + f.tail ≡ f.capacity + f.head))
unfolding spsc_available
available_cases {f} v = elim (dec_lt f.head f.tail) [
  | yes p ↦ inr (p, ground arith)
  | no p ↦ inl (omega arith, ground arith)
]

pub available-lt : {f : SpscFifo} → IsValid f → spsc_available f < f.capacity
available-lt {f} v = omega (arith, spsc_available-add-space f (sane v))

-- The head stands as many slots after the tail as there are elements.
pub head-eq : {f : SpscFifo} → IsValid f → (f.tail + spsc_available f) % f.capacity ≡ f.head
head-eq {f} v = elim (turn f.capacity f.tail (spsc_available f) v.tail_in (available-lt v)) [
  | inl e ↦ elim (available_cases v) [
    | inl c ↦ omega arith
    | inr c ↦ absurd (omega (arith, mod-lt (f.tail + spsc_available f) v.some_capacity))
  ]
  | inr e ↦ elim (available_cases v) [ inl c ↦ absurd (omega arith) | inr c ↦ omega arith ]
]

-- Slots counted from the tail and slots counted from the head.
pub shift_forth : (c t a h k : ℕ) → (t + a) % c ≡ h → (t + (a + k)) % c ≡ (h + k) % c
shift_forth c t a h k e = rw (← e, mod-add-mod) (ap (λ (x : ℕ). x % c) (omega arith))

shift_back : (c t a h k : ℕ) → a ≤ c → (t + a) % c ≡ h → (h + (c - a + k)) % c ≡ (t + k) % c
shift_back c t a h k le e = rw (← e, mod-add-mod) (rw turned (add-mod_right (t + k) c))
  where
    turned : t + a + (c - a + k) ≡ t + k + c
    turned = omega arith

module _ {f : SpscFifo} (v : IsValid f) (items count : ℕ) (m : Memory) (fits : count ≤ spsc_space f)
    (apart : Apart f.buffer (f.capacity * f.elem_size) items (count * f.elem_size)) where
  open f use {capacity, elem_size, head, tail}

  abbrev copied : Memory
  copied = copy_in f head items count m

  -- The elements that were there stay.
  old_element : (k : ℕ) → k < spsc_available f → nth_after f copied tail k ≡ nth_after f m tail k
  old_element k h = tabulate-ext elem_size _ _ (λ b p. same b p)
    where
      same : (b : ℕ) → b < elem_size → copied (slot f tail k b) ≡ m (slot f tail k b)
      same b p =
          rw
            (← shift_back capacity tail (spsc_available f) head k (omega (arith, available-lt v))
              (head-eq v))
            (copy_in-other f head items count (capacity - spsc_available f + k) b m v.head_in
              (omega (arith, spsc_available-add-space f (sane v))) p apart
              (omega (arith, spsc_available-add-space f (sane v)))
              (omega (arith, spsc_available-add-space f (sane v))))

  -- The new ones follow them.
  new_element :
      (k : ℕ)
      → k < count
      → nth_after f copied tail (spsc_available f + k) ≡ element m (items + k * elem_size) elem_size
  new_element k h = tabulate-ext elem_size _ _ (λ b p. same b p)
    where
      same :
          (b : ℕ)
          → b < elem_size
          → copied (slot f tail (spsc_available f + k) b) ≡ m (items + k * elem_size + b)
      same b p = rw (shift_forth capacity tail (spsc_available f) head k (head-eq v)) (
          copy_in-slot f head items count k b m v.head_in
            (omega (arith, spsc_available-add-space f (sane v))) p apart h)

  -- A FIFO whose count went up by `count` over the new bytes holds the new elements at its end.
  pub contents-copied :
      tabulate (spsc_available f + count) (nth_after f copied tail)
      ≡ contents f m ++ elements m items elem_size count
  unfolding contents
  contents-copied =
      tabulate-add (spsc_available f) count (nth_after f copied tail)
      ∙ ap₂ ◌++◌ (tabulate-ext (spsc_available f) _ _ old_element)
          (tabulate-ext count _ _ new_element)
