-- ===== src/Mpmc/Ring.antt =====
-- The slots and the items of the `mpmc_*` queue of kernel/structure.c, oldest item first.
use native.Mathlib.Nat.{mod-lt, mod-add-mod}
use vaios.Base.{
  ℕ, ◌+◌, ◌*◌, ◌%◌, ◌≤◌, ◌<◌, ◌≡◌, ◌≢◌, ap, ◌⊎◌, inl, inr, List, Option, tabulate, tabulate-ext,
  arith, dec_lt,
}
use vaios.Machine.{Memory, word_mod, add32, v_memcpy, v_memcpy_inside, v_memcpy_outside}
use vaios.Spsc.Copy.{Apart, turn}
use vaios.Spsc.Queue.{element}
use vaios.Mpmc.{MpmcPolicy, Mpmc, cell}

-- The storage does not run past the end of the address space, and the indices agree with the count.
pub record IsValid (q : Mpmc) : Type 0 where
  pub some_capacity : 0 < q.capacity
  pub small_capacity : q.capacity < word_mod
  pub inside : q.buffer + q.capacity * q.elem_size < word_mod
  pub tail_in : q.tail < q.capacity
  pub head_at : q.head ≡ (q.tail + q.count) % q.capacity
  pub count_le : q.count ≤ q.capacity

-- The permits and the wakes play no part.
pub permits-IsValid :
    {q : Mpmc} (items slots : ℕ) (rd wr : Option ℕ)
    → IsValid q
    → IsValid (record q { not_empty = items; not_full = slots; fd_wake_rd = rd; fd_wake_wr = wr })
permits-IsValid items slots rd wr v = record {
  some_capacity = v.some_capacity;
  small_capacity = v.small_capacity;
  inside = v.inside;
  tail_in = v.tail_in;
  head_at = v.head_at;
  count_le = v.count_le;
}

pub policy-IsValid : {q : Mpmc} (p : MpmcPolicy) → IsValid q → IsValid (record q { policy = p })
policy-IsValid p v = record {
  some_capacity = v.some_capacity;
  small_capacity = v.small_capacity;
  inside = v.inside;
  tail_in = v.tail_in;
  head_at = v.head_at;
  count_le = v.count_le;
}

-- The bytes of slot `i`.
abbrev pub slot_bytes : Mpmc → Memory → ℕ → List ℕ
slot_bytes q m i = element m (cell q i) q.elem_size

-- The item `k` places after the oldest one.
abbrev pub nth : Mpmc → Memory → ℕ → List ℕ
nth q m k = slot_bytes q m ((q.tail + k) % q.capacity)

unfoldable pub contents : Mpmc → Memory → List (List ℕ)
contents q m = tabulate q.count (nth q m)

pub head_in : {q : Mpmc} → IsValid q → q.head < q.capacity
head_in {q} v = rw v.head_at (mod-lt (q.tail + q.count) v.some_capacity)

module _ {q : Mpmc} (v : IsValid q) where
  pub scaled : (i : ℕ) → i < q.capacity → i * q.elem_size + q.elem_size ≤ q.capacity * q.elem_size
  scaled i h = grind arith

  -- No address wraps round.
  pub cell-eq : (i : ℕ) → i < q.capacity → cell q i ≡ q.buffer + i * q.elem_size
  cell-eq i h = omega (arith, scaled i h, v.inside)

  pub cell-Apart :
      (i j : ℕ)
      → i < q.capacity
      → j < q.capacity
      → i ≢ j
      → Apart (cell q i) q.elem_size (cell q j) q.elem_size
  cell-Apart i j hi hj ne = elim (dec_lt i j) [
    | yes less ↦ inl (omega (arith, cell-eq i hi, cell-eq j hj, steps i j q.elem_size less))
    | no more ↦ inr (omega (arith, cell-eq i hi, cell-eq j hj, steps j i q.elem_size (omega arith)))
  ]
    where
      steps : (a b w : ℕ) → a < b → a * w + w ≤ b * w
      steps a b w h = grind arith

-- What a copy puts at its target, and what it leaves elsewhere.
pub element-copied :
    (dest src w : ℕ) (m : Memory) → element (v_memcpy dest src w m) dest w ≡ element m src w
element-copied dest src w m = tabulate-ext w _ _ (λ b lt.
    v_memcpy_inside dest src w (dest + b) (src + b) m (omega arith) (omega arith) (omega arith))

pub element-else :
    (dest src w a n : ℕ) (m : Memory)
    → Apart dest w a n
    → element (v_memcpy dest src w m) a n ≡ element m a n
element-else dest src w a n m apart =
    tabulate-ext n _ _ (λ b lt. v_memcpy_outside dest src w (a + b) m (side b lt apart))
  where
    side : (b : ℕ) → b < n → Apart dest w a n → (a + b < dest) ⊎ (dest + w ≤ a + b)
    side b lt (inl le) = inr (omega arith)
    side b lt (inr le) = inl (omega arith)

-- Two places of the ring that are less than a turn apart are different slots.
pub places-differ : (c t j k : ℕ) → t < c → j < k → k < c → (t + j) % c ≢ (t + k) % c
places-differ c t j k ht lt hk e = elim (turn c t j ht (omega arith)) [
  | inl a ↦ elim (turn c t k ht hk) [
    | inl b ↦ omega (arith, a, b, e)
    | inr b ↦ omega (arith, a, b, e)
  ]
  | inr a ↦ elim (turn c t k ht hk) [
    | inl b ↦ omega (arith, a, b, e)
    | inr b ↦ omega (arith, a, b, e)
  ]
]

-- The next slot, counted from the oldest item.
pub next_place :
    (c t k h : ℕ) → c < word_mod → h < c → h ≡ (t + k) % c → add32 h 1 % c ≡ (t + (k + 1)) % c
next_place c t k h small lt e =
    let plain : add32 h 1 ≡ h + 1 = omega arith in
    rw (plain, e, mod-add-mod) (ap (λ x. x % c) (omega arith))
