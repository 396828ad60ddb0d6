-- ===== src/Spsc/Overwrite.antt =====
-- `spsc_write` of kernel/structure.c under the OVERWRITE policy.
use vaios.Base.{
  ℕ, ◌+◌, ◌-◌, ◌*◌, ◌≤◌, ◌<◌, ◌≡◌, refl, ap, ◌∙◌, min, ◌++◌, arith, drop, drop-tabulate_append,
  dec_lt, leb, if◌then◌else◌,
}
use vaios.Machine.{Memory, add32}
use vaios.Spsc.Fifo.{
  SpscPolicy, SpscFifo, IsValid, sane, spsc_available, spsc_space, spsc_available-add-space,
}
use vaios.Spsc.Copy.{Apart, Apart-shorter}
use vaios.Spsc.Access.{overflowed, spsc_write}
use vaios.Spsc.Queue.{elements, contents}
use vaios.Spsc.Read.{
  advanced, advanced-IsValid, available-advanced, contents-advanced, spsc_skip_lem,
}
use vaios.Spsc.Write.{store_lem, admit_some, write_sane, spsc_write-fits}

-- The number of old items that make way for `count` new ones.
abbrev lost : ℕ → SpscFifo → ℕ
lost count f = min count (f.capacity - 1) - spsc_space f

counted-IsValid : {f : SpscFifo} (d : ℕ) → IsValid f → IsValid (record f { drops = d })
counted-IsValid d v = omega arith

-- The counter of losses plays no part in the queue.
counted_queue :
    (f : SpscFifo) (d : ℕ) (m : Memory)
    → (contents (record f { drops = d }) m ≡ contents f m)
      × (spsc_available (record f { drops = d }) ≡ spsc_available f)
unfolding contents spsc_available
counted_queue f d m = (refl, refl)

-- An overflowing write first skips just the items that are in the way.
overflowed-overwrite :
    {f : SpscFifo} (count : ℕ)
    → IsValid f
    → f.policy ≡ SpscPolicy.overwrite
    → spsc_space f < count
    → (d : ℕ) × (overflowed f.policy count (spsc_space f) f
        ≡ (min count (f.capacity - 1), advanced (lost count f) (record f { drops = d })))
unfolding overflowed
overflowed-overwrite {f} count v e full = (
  add32 f.drops to_overwrite,
  ap (λ p. overflowed p count (spsc_space f) f) e
      ∙ rw (
        spsc_skip_lem to_overwrite (counted-IsValid (add32 f.drops to_overwrite) v),
        moved,
        capped,
      ),
)
  where
    to_overwrite : ℕ
    to_overwrite =
        if leb f.capacity (count - spsc_space f) then f.capacity - 1 else count - spsc_space f

    moved :
        min to_overwrite (spsc_available (record f { drops = add32 f.drops to_overwrite }))
        ≡ lost count f
    moved =
        rw ((counted_queue f (add32 f.drops to_overwrite) (λ a. a)).1)
          (ground (arith, spsc_available-add-space f (sane v)))

    capped : (if leb f.capacity count then f.capacity - 1 else count) ≡ min count (f.capacity - 1)
    capped = ground arith

-- The FIFO that is left when `k` old items have made way.
module _ {f : SpscFifo} (v : IsValid f) (d k : ℕ) (fits : k ≤ spsc_available f) where
  abbrev shortened : SpscFifo
  shortened = advanced k (record f { drops = d })

  shortened-IsValid : IsValid shortened
  shortened-IsValid = advanced-IsValid k (counted-IsValid d v)

  still_fits : k ≤ spsc_available (record f { drops = d })
  still_fits = rw ((counted_queue f d (λ a. a)).1) fits

  space-shortened : spsc_space shortened ≡ spsc_space f + k
  space-shortened = omega (
    arith,
    available-advanced (counted-IsValid d v) k still_fits,
    (counted_queue f d (λ a. a)).1,
    spsc_available-add-space f (sane v),
    spsc_available-add-space shortened (sane shortened-IsValid),
  )

  contents-shortened : (m : Memory) → contents shortened m ≡ drop k (contents f m)
  contents-shortened m = rw (
    ← (counted_queue f d m).0,
    contents-advanced (counted-IsValid d v) k still_fits m,
    drop-tabulate_append,
  )

-- Under the OVERWRITE policy a write to a valid FIFO, of items that lie apart from its storage,
-- stores the items, at most one fewer than the capacity: exactly the oldest ones that are in the
-- way are lost, the new ones stand behind the others, and the FIFO stays valid.
pub spsc_write-overwrite :
    {f : SpscFifo} (items count : ℕ) (m : Memory)
    → IsValid f
    → f.policy ≡ SpscPolicy.overwrite
    → Apart f.buffer (f.capacity * f.elem_size) items (count * f.elem_size)
    → let n = min count (f.capacity - 1) in
      let (taken, f', m') = spsc_write items count f m in
      (taken ≡ n)
      × (contents f' m' ≡ drop (n - spsc_space f) (contents f m) ++ elements m items f.elem_size n)
      × IsValid f'
spsc_write-overwrite {f} items count m v e apart = elim (dec_lt (spsc_space f) count) [
  | no room ↦
      let all : min count (f.capacity - 1) ≡ count =
        omega (arith, spsc_available-add-space f (sane v)) in
      let none_lost : count - spsc_space f ≡ 0 = omega arith in
      let s = spsc_write-fits items count m v (omega arith) apart in
      rw (all, none_lost) (s.taken, s.queue, s.valid)
  | yes full ↦
      let (d, over) = overflowed-overwrite count v e full in
      let fits : lost count f ≤ spsc_available f =
        omega (arith, spsc_available-add-space f (sane v)) in
      let s =
        store_lem items (min count (f.capacity - 1)) m (shortened-IsValid v d (lost count f) fits)
          (omega (arith, space-shortened v d (lost count f) fits))
          (Apart-shorter _ _ _ count _ f.elem_size (omega arith) apart) in
      rw (write_sane items count m v (omega arith), admit_some count f full, over)
        (s.taken, rw (← contents-shortened v d (lost count f) fits m) s.queue, s.valid)
]
