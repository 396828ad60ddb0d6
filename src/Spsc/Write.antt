-- ===== src/Spsc/Write.antt =====
-- `spsc_write` of kernel/structure.c against the queue: both policies, and where it may write.
use native.Mathlib.Nat.{mod-lt}
use mathlib.Core.List.{append-nil}
use vaios.Base.{
  ℕ, ◌+◌, ◌-◌, ◌*◌, ◌%◌, ◌≤◌, ◌<◌, ◌≡◌, refl, ap, sym, ◌∙◌, min, ◌++◌, inl, inr, arith, dec_lt,
  lt→ltb, ge→ltb, ne→eqb, lt→leb, ◌==◌, Bool-cases, eqb→eq,
}
use vaios.Machine.{Memory, add32}
use vaios.Spsc.Fifo.{
  SpscPolicy, SpscFifo, IsValid, sane, spsc_available, spsc_space, spsc_available-add-space,
}
use vaios.Spsc.Copy.{Apart, Apart-shorter, turn}
use vaios.Spsc.Access.{overflowed, store, admit, spsc_write}
use vaios.Spsc.Queue.{elements, contents, contents-copied, available_cases}

-- The FIFO with `head` moved on by `n` slots.
abbrev advanced : ℕ → SpscFifo → SpscFifo
advanced n f = record f { head = add32 f.head n % f.capacity }

advanced-IsValid : {f : SpscFifo} (n : ℕ) → IsValid f → IsValid (advanced n f)
advanced-IsValid {f} n v = record {
  placed = v.placed;
  some_capacity = v.some_capacity;
  small_capacity = v.small_capacity;
  some_size = v.some_size;
  small_size = v.small_size;
  head_in = mod-lt (add32 f.head n) v.some_capacity;
  tail_in = v.tail_in;
}

available-advanced :
    {f : SpscFifo} (n : ℕ)
    → IsValid f
    → n ≤ spsc_space f
    → spsc_available (advanced n f) ≡ spsc_available f + n
available-advanced {f} n v h = elim (turn capacity head n v.head_in room) [
  | inl e ↦ omega (
    arith,
    wrapped,
    available_cases v,
    available_cases (advanced-IsValid n v),
    spsc_available-add-space f (sane v),
  )
  | inr e ↦ omega (
    arith,
    wrapped,
    available_cases v,
    available_cases (advanced-IsValid n v),
    spsc_available-add-space f (sane v),
  )
]
  where
    open f use {capacity, head}

    room : n < capacity
    room = omega (arith, spsc_available-add-space f (sane v))

    wrapped : add32 head n % capacity ≡ (head + n) % capacity
    wrapped = ap (λ (t : ℕ). t % capacity) (omega (arith, room))

-- The high-water mark plays no part in the count.
available-peak : (f : SpscFifo) (p : ℕ) → spsc_available (record f { peak = p }) ≡ spsc_available f
unfolding spsc_available
available-peak f p = refl

peaked-IsValid : {f : SpscFifo} (p : ℕ) → IsValid f → IsValid (record f { peak = p })
peaked-IsValid p v = omega arith

-- What `store` leaves when the items fit.
pub record Stored (f : SpscFifo) (m : Memory) (items n : ℕ) (out : ℕ × SpscFifo × Memory)
    : Type 0 where
  pub taken : out.0 ≡ n
  pub queue : contents out.1 out.2 ≡ contents f m ++ elements m items f.elem_size n
  pub valid : IsValid out.1
  pub count : spsc_available out.1 ≡ spsc_available f + n

-- Storing items that fit puts them behind the queue.
pub store_lem :
    {f : SpscFifo} (items n : ℕ) (m : Memory)
    → IsValid f
    → n ≤ spsc_space f
    → Apart f.buffer (f.capacity * f.elem_size) items (n * f.elem_size)
    → Stored f m items n (store items n f m)
unfolding store contents
store_lem {f} items n m v fits apart = elim (Bool-cases (n == 0)) [
  | inl e ↦
      let z : n ≡ 0 = eqb→eq n 0 e in
      rw z (record {
        taken = refl;
        queue = sym (append-nil (contents f m));
        valid = v;
        count = omega arith;
      })
  | inr e ↦
      rw (e, lt→leb f.head f.capacity v.head_in)
        (record {
          taken = refl;
          queue =
              rw (available-peak (advanced n f) _, available-advanced n v fits)
                (contents-copied v items n m fits apart);
          valid = peaked-IsValid _ (advanced-IsValid n v);
          count = available-peak (advanced n f) _ ∙ available-advanced n v fits;
        })
]

spsc_space-counted : (f : SpscFifo) (d : ℕ) → spsc_space f ≤ spsc_space (record f { drops = d })
unfolding spsc_space
spsc_space-counted f d = omega arith

-- A change of the loss counter plays no part either.
counted-Stored :
    {f : SpscFifo} (d items n : ℕ) (m : Memory) {out : ℕ × SpscFifo × Memory}
    → Stored (record f { drops = d }) m items n out
    → Stored f m items n out
unfolding contents spsc_available
counted-Stored d items n m s = record {
  taken = s.taken;
  queue = s.queue;
  valid = s.valid;
  count = s.count;
}

overflowed-drop :
    (count avail : ℕ) (f : SpscFifo)
    → f.policy ≡ SpscPolicy.drop
    → overflowed f.policy count avail f
      ≡ (avail, record f { drops = add32 f.drops (count - avail) })
unfolding overflowed
overflowed-drop count avail f e = ap (λ p. overflowed p count avail f) e

-- With space for all, every item is admitted.
admit_all : (count : ℕ) (f : SpscFifo) → count ≤ spsc_space f → admit count f ≡ (count, f)
unfolding admit
admit_all count f h = rw (ge→ltb (spsc_space f) count h)

-- Without, the policy decides.
pub admit_some :
    (count : ℕ) (f : SpscFifo)
    → spsc_space f < count
    → admit count f ≡ overflowed f.policy count (spsc_space f) f
unfolding admit
admit_some count f h = rw (lt→ltb (spsc_space f) count h)

-- A write of some items to a valid FIFO admits, then stores.
pub write_sane :
    {f : SpscFifo} (items count : ℕ) (m : Memory)
    → IsValid f
    → 0 < count
    → spsc_write items count f m ≡ store items (admit count f).0 (admit count f).1 m
unfolding spsc_write
write_sane {f} items count m v h = rw (ne→eqb count 0 (omega arith), sane v)

-- Nothing is written when nothing is asked for.
write_none : (items : ℕ) (f : SpscFifo) (m : Memory) → spsc_write items 0 f m ≡ store items 0 f m
unfolding spsc_write store
write_none items f m = refl

-- A write that fits stores every item, whatever the policy.
pub spsc_write-fits :
    {f : SpscFifo} (items count : ℕ) (m : Memory)
    → IsValid f
    → count ≤ spsc_space f
    → Apart f.buffer (f.capacity * f.elem_size) items (count * f.elem_size)
    → Stored f m items count (spsc_write items count f m)
spsc_write-fits {f} items count m v room apart = elim (dec_lt 0 count) [
  | yes some ↦
      rw (write_sane items count m v some, admit_all count f room)
        (store_lem items count m v room apart)
  | no empty ↦
      let z : count ≡ 0 = omega arith in
      rw (z, write_none)
        (store_lem items 0 m v (omega arith)
          (Apart-shorter _ _ _ count 0 f.elem_size (omega arith) apart))
]

-- Under the DROP policy a write to a valid FIFO, of items that lie apart from its storage, stores
-- as many of them as there is space for, behind those that were there, and keeps the FIFO valid.
pub spsc_write-drop :
    {f : SpscFifo} (items count : ℕ) (m : Memory)
    → IsValid f
    → f.policy ≡ SpscPolicy.drop
    → Apart f.buffer (f.capacity * f.elem_size) items (count * f.elem_size)
    → Stored f m items (min count (spsc_space f)) (spsc_write items count f m)
spsc_write-drop {f} items count m v policy apart = elim (dec_lt (spsc_space f) count) [
  | yes full ↦
      let few : min count (spsc_space f) ≡ spsc_space f = omega arith in
      rw
        (
          few,
          write_sane items count m v (omega arith),
          admit_some count f full,
          overflowed-drop count (spsc_space f) f policy,
        )
        (counted-Stored _ items _ m (
          store_lem items (spsc_space f) m (omega arith) (spsc_space-counted f _)
            (Apart-shorter _ _ _ count (spsc_space f) f.elem_size (omega arith) apart)))
  | no room ↦
      let all : min count (spsc_space f) ≡ count = omega arith in
      rw all (spsc_write-fits items count m v (omega arith) apart)
]
