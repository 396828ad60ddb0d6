-- ===== src/Spsc/Direct/Laws.antt =====
-- Filling or emptying the storage in place does what `spsc_write` and `spsc_read` do.
use native.Mathlib.Nat.{mod-eq_of_lt, mod_self}
use vaios.Base.{
  ℕ, ◌+◌, ◌-◌, ◌*◌, ◌%◌, ◌≤◌, ◌<◌, ◌≡◌, ◌⊎◌, inl, inr, leb, ltb, ◌==◌, ◌&&◌, if◌then◌else◌, arith,
  ne→eqb, lt→leb, le→leb, dec_lt, ge→ltb,
}
use vaios.Machine.{Memory, v_memcpy, add32, sub32, word_mod}
use vaios.Spsc.Fifo.{SpscFifo, IsValid, sane, spsc_available, spsc_space, spsc_available-add-space}
use vaios.Spsc.Copy.{copy_in, copy_out}
use vaios.Spsc.Access.{admit, store, spsc_write, obtainable, spsc_read}
use vaios.Spsc.Queue.{available_cases}
use vaios.Spsc.Direct.{
  writable, readable, spsc_write_ptr, spsc_commit_write, spsc_read_ptr, spsc_commit_read,
}

-- An index that moves at most to the end wraps round in the same way by either computation.
wrapped :
    (c x k : ℕ)
    → 0 < c
    → c ≤ 4096
    → x + k ≤ c
    → (if leb c (add32 x k) then add32 x k - c else add32 x k) ≡ add32 x k % c
wrapped c x k pos small le =
    let plain : add32 x k ≡ x + k = mod-eq_of_lt (omega arith) in
    elim (dec_lt (x + k) c) [
      | yes p ↦ rw (plain, lt→leb (x + k) c p, mod-eq_of_lt p)
      | no p ↦
          let e : x + k ≡ c = omega arith in
          rw (plain, e, le→leb c c (omega arith), mod_self c) (omega arith)
    ]

sub32_plain : (a b : ℕ) → b ≤ a → a < word_mod → sub32 a b ≡ a - b
sub32_plain a b le small = omega arith

free_run : ℕ → ℕ → ℕ → ℕ
free_run c h t = if leb t h then if t == 0 && ltb 0 (c - h) then c - h - 1 else c - h else t - h - 1

free_run-fits :
    (c h t s a : ℕ)
    → h < c
    → a + s + 1 ≡ c
    → ((t ≤ h) × (a + t ≡ h)) ⊎ ((h < t) × (a + t ≡ c + h))
    → t < c
    → (free_run c h t ≤ s) × (h + free_run c h t ≤ c)
unfolding free_run
free_run-fits c h t s a lt e (inl (le, d)) lt' = rw (le→leb t h le) (ground arith, ground arith)
free_run-fits c h t s a lt e (inr (gt, d)) lt' = rw (lt→leb h t gt) (omega arith, omega arith)

module _ {f : SpscFifo} (v : IsValid f) where
  writable-free_run : writable f ≡ free_run f.capacity f.head f.tail
  unfolding writable free_run
  writable-free_run =
      rw
        (sub32_plain f.capacity f.head (omega (arith, v.head_in)) (omega (arith, v.small_capacity)))

  writable-fits : (writable f ≤ spsc_space f) × (f.head + writable f ≤ f.capacity)
  writable-fits = rw writable-free_run (
      free_run-fits f.capacity f.head f.tail (spsc_space f) (spsc_available f) v.head_in
        (spsc_available-add-space f (sane v)) (available_cases v) v.tail_in)

  readable-fits : (readable f ≤ spsc_available f) × (f.tail + readable f ≤ f.capacity)
  unfolding readable
  readable-fits =
      rw
        (sub32_plain f.capacity f.tail (omega (arith, v.tail_in)) (omega (arith, v.small_capacity)))
        (elim (available_cases v) [
          | inl (le, d) ↦ rw (le→leb f.tail f.head le) (omega arith, omega (arith, v.head_in))
          | inr (gt, d) ↦ rw (lt→leb f.head f.tail gt) (omega arith, omega (arith, v.tail_in))
        ])

  -- Copying at most the writable run to its address and committing it is a `spsc_write`.
  pub spsc_commit_write-write :
      (items k : ℕ) (m : Memory)
      → 0 < k
      → k ≤ (spsc_write_ptr f).1
      → spsc_write items k f m
        ≡ (k, spsc_commit_write k f, v_memcpy (spsc_write_ptr f).0 items (k * f.elem_size) m)
  unfolding spsc_write admit store copy_in spsc_write_ptr spsc_commit_write
  spsc_commit_write-write items k m pos le =
      let (fits, inside) = writable-fits in
      rw
        (
          ne→eqb k 0 (omega arith),
          sane v,
          ge→ltb (spsc_space f) k (omega arith),
          lt→leb f.head f.capacity v.head_in,
          le→leb k (f.capacity - f.head) (omega arith),
          ne→eqb (writable f) 0 (omega arith),
          wrapped f.capacity f.head k v.some_capacity v.small_capacity (omega arith),
        )
        (rw (ne→eqb k 0 (omega arith)))

  -- Copying at most the readable run from its address and committing it is a `spsc_read`.
  spsc_commit_read-read :
      (out k : ℕ) (m : Memory)
      → 0 < k
      → k ≤ (spsc_read_ptr f).1
      → spsc_read out k f m
        ≡ (k, spsc_commit_read k f, v_memcpy out (spsc_read_ptr f).0 (k * f.elem_size) m)
  unfolding spsc_read copy_out spsc_read_ptr spsc_commit_read obtainable
  spsc_commit_read-read out k m pos le =
      let (fits, inside) = readable-fits in
      rw (
        sane v,
        ge→ltb (spsc_available f) k (omega arith),
        ne→eqb k 0 (omega arith),
        lt→leb f.tail f.capacity v.tail_in,
        le→leb k (f.capacity - f.tail) (omega arith),
        ne→eqb (readable f) 0 (omega arith),
        wrapped f.capacity f.tail k v.some_capacity v.small_capacity (omega arith),
      )
