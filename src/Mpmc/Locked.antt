-- ===== src/Mpmc/Locked.antt =====
-- What the locked parts of a push and a pop of kernel/structure.c's `mpmc_*` queue do to its items.
use native.Mathlib.Nat.{mod-eq_of_lt, mod_self, mod-lt, mod-add-mod}
use vaios.Base.{
  ℕ, suc, ◌+◌, ◌-◌, ◌*◌, ◌%◌, ◌<◌, ◌≡◌, ◌≢◌, sym, ap, ap₂, subst, ◌∙◌, inl, inr, List, [], ◌∷◌,
  ◌++◌, tabulate, tabulate-ext, tabulate-add, arith, dec_lt, le→leb, lt→leb, leb, if◌then◌else◌,
}
use vaios.Machine.{Memory, add32, sub32, v_memcpy}
use vaios.Spsc.Copy.{Apart}
use vaios.Spsc.Queue.{element}
use vaios.Mpmc.Ring.{
  IsValid, slot_bytes, nth, contents, head_in, scaled, cell-eq, cell-Apart, element-copied,
  element-else, places-differ, next_place,
}
use vaios.Mpmc.{Mpmc, cell, store_item, overwrite_oldest, remove_item}

-- What a push with a free slot leaves: the new item behind the others.
pub record Pushed (q : Mpmc) (m : Memory) (item : ℕ) (out : Mpmc × Memory) : Type 0 where
  pub valid : IsValid out.0
  pub queue : contents out.0 out.1 ≡ contents q m ++ (element m item q.elem_size ∷ [])
  pub counted : out.0.count ≡ q.count + 1

module _ {q : Mpmc} (v : IsValid q) (item : ℕ) (m : Memory) where
  abbrev written : Memory
  written = v_memcpy (cell q q.head) item q.elem_size m

  -- The slot at the head has the item, the others what they had.
  written-head : slot_bytes q written q.head ≡ element m item q.elem_size
  written-head = element-copied (cell q q.head) item q.elem_size m

  written-else : (i : ℕ) → i < q.capacity → q.head ≢ i → slot_bytes q written i ≡ slot_bytes q m i
  written-else i hi ne =
      element-else (cell q q.head) item q.elem_size (cell q i) q.elem_size m
        (cell-Apart v q.head i (head_in v) hi ne)

  pub store_item-Pushed : q.count < q.capacity → Pushed q m item (store_item item q m)
  unfolding store_item contents
  store_item-Pushed room =
      let place : (q.tail + (q.count + 0)) % q.capacity ≡ q.head =
        ap (λ x. (q.tail + x) % q.capacity) (omega arith) ∙ sym v.head_at in
      let more : add32 q.count 1 ≡ q.count + 1 = omega (arith, v.small_capacity) in
      record {
        valid = record {
          some_capacity = v.some_capacity;
          small_capacity = v.small_capacity;
          inside = v.inside;
          tail_in = v.tail_in;
          head_at =
              rw more (
                next_place q.capacity q.tail q.count q.head v.small_capacity (head_in v) v.head_at);
          count_le = omega (arith, more);
        };
        queue = rw more (
            tabulate-add q.count 1 (nth (store_item item q m).0 written)
            ∙ ap₂ (λ a b. a ++ (b ∷ []))
                (tabulate-ext q.count _ _ (λ k lt.
                  written-else ((q.tail + k) % q.capacity) (mod-lt (q.tail + k) v.some_capacity)
                    (λ e.
                      places-differ q.capacity q.tail k q.count v.tail_in lt room
                        (sym (sym v.head_at ∙ e)))))
                (ap (slot_bytes q written) place ∙ written-head));
        counted = more;
      }

-- The oldest item and the rest.
module _ {q : Mpmc} (v : IsValid q) (some_item : 0 < q.count) where
  -- The queue without its oldest item, on the same slots.
  abbrev pub shorter : Mpmc
  shorter = record q { tail = (q.tail + 1) % q.capacity; count = q.count - 1 }

  shorter-IsValid : IsValid shorter
  shorter-IsValid = record {
    some_capacity = v.some_capacity;
    small_capacity = v.small_capacity;
    inside = v.inside;
    tail_in = mod-lt (q.tail + 1) v.some_capacity;
    head_at =
        v.head_at
        ∙ ap (λ x. x % q.capacity) (omega arith)
        ∙ sym (mod-add-mod (q.tail + 1) q.capacity (q.count - 1));
    count_le = omega (arith, v.count_le);
  }

  nth-shorter : (m : Memory) (k : ℕ) → nth q m (suc k) ≡ nth shorter m k
  nth-shorter m k =
      ap (slot_bytes q m)
        (ap (λ x. x % q.capacity) (omega arith) ∙ sym (mod-add-mod (q.tail + 1) q.capacity k))

  contents-shorter : (m : Memory) → contents q m ≡ slot_bytes q m q.tail ∷ contents shorter m
  unfolding contents
  contents-shorter m =
      let one : q.count ≡ suc (q.count - 1) = omega arith in
      let first : (q.tail + 0) % q.capacity ≡ q.tail =
        ap (λ x. x % q.capacity) (omega arith) ∙ mod-eq_of_lt v.tail_in in
      ap (λ n. tabulate n (nth q m)) one
      ∙ ap₂ ◌∷◌ (ap (slot_bytes q m) first)
          (tabulate-ext (q.count - 1) _ _ (λ k lt. nth-shorter m k))

-- What a pop with an item to take leaves: the oldest item at `out`, the others in the queue.
pub record Removed (q : Mpmc) (m : Memory) (out : ℕ) (left : Mpmc × Memory) : Type 0 where
  pub valid : IsValid left.0
  pub queue : contents q m ≡ element left.1 out q.elem_size ∷ contents left.0 left.1
  pub counted : left.0.count + 1 ≡ q.count

-- A copy to bytes outside the storage leaves the items.
pub contents-else :
    {q : Mpmc} (v : IsValid q) (dest src : ℕ) (m : Memory)
    → Apart q.buffer (q.capacity * q.elem_size) dest q.elem_size
    → contents q (v_memcpy dest src q.elem_size m) ≡ contents q m
unfolding contents
contents-else {q} v dest src m apart = tabulate-ext q.count _ _ (λ k lt.
    let i = (q.tail + k) % q.capacity in
    let hi = mod-lt (q.tail + k) v.some_capacity in
    element-else dest src q.elem_size (cell q i) q.elem_size m (side i hi apart))
  where
    side :
        (i : ℕ)
        → i < q.capacity
        → Apart q.buffer (q.capacity * q.elem_size) dest q.elem_size
        → Apart dest q.elem_size (cell q i) q.elem_size
    side i hi (inl le) = inr (omega (arith, le, cell-eq v i hi, scaled v i hi))
    side i hi (inr le) = inl (omega (arith, le, cell-eq v i hi))

module _ {q : Mpmc} (v : IsValid q) (some_item : 0 < q.count) (m : Memory) where
  next_tail :
      (if leb q.capacity (add32 q.tail 1) then 0 else add32 q.tail 1) ≡ (q.tail + 1) % q.capacity
  next_tail =
      let plain : add32 q.tail 1 ≡ q.tail + 1 = omega (arith, v.tail_in, v.small_capacity) in
      elim (dec_lt (q.tail + 1) q.capacity) [
        | yes less ↦ rw (plain, lt→leb (q.tail + 1) q.capacity less) (sym (mod-eq_of_lt less))
        | no wraps ↦
            let turned : q.tail + 1 ≡ q.capacity = omega (arith, v.tail_in) in
            rw (plain, le→leb q.capacity (q.tail + 1) (omega arith))
              (sym (ap (λ x. x % q.capacity) turned ∙ mod_self q.capacity))
      ]

  fewer : sub32 q.count 1 ≡ q.count - 1
  fewer = omega (arith, v.count_le, v.small_capacity)

  taken-shorter :
      (out : ℕ)
      → remove_item out q m ≡ (shorter v some_item, v_memcpy out (cell q q.tail) q.elem_size m)
  unfolding remove_item
  taken-shorter out =
      ap₂ (λ t c. (record q { tail = t; count = c }, v_memcpy out (cell q q.tail) q.elem_size m))
        next_tail fewer

  pub remove_item-Removed :
      (out : ℕ)
      → Apart q.buffer (q.capacity * q.elem_size) out q.elem_size
      → Removed q m out (remove_item out q m)
  remove_item-Removed out apart = subst (Removed q m out) (sym (taken-shorter out)) (record {
    valid = shorter-IsValid v some_item;
    queue =
        contents-shorter v some_item m
        ∙ ap₂ ◌∷◌ (sym (element-copied out (cell q q.tail) q.elem_size m))
            (sym (contents-else (shorter-IsValid v some_item) out (cell q q.tail) m apart));
    counted = omega arith;
  })

-- What a push leaves that overwrites: the oldest item is gone, the new one is behind the rest.
pub record Replaced (q : Mpmc) (m : Memory) (item : ℕ) (out : Mpmc × Memory) : Type 0 where
  pub valid : IsValid out.0
  pub rest : List (List ℕ)
  pub queue : contents q m ≡ slot_bytes q m q.tail ∷ rest
  pub queue' : contents out.0 out.1 ≡ rest ++ (element m item q.elem_size ∷ [])
  pub counted : out.0.count ≡ q.count

module _ {q : Mpmc} (v : IsValid q) (full : q.count ≡ q.capacity) (item : ℕ) (m : Memory) where
  some_item : 0 < q.count
  some_item = omega (arith, v.some_capacity)

  overwritten-stored : overwrite_oldest item q m ≡ store_item item (shorter v some_item) m
  unfolding overwrite_oldest store_item
  overwritten-stored =
      let plain : add32 q.tail 1 ≡ q.tail + 1 = omega (arith, v.tail_in, v.small_capacity) in
      let same : q.count ≡ add32 (q.count - 1) 1 =
        omega (arith, some_item, v.count_le, v.small_capacity) in
      ap₂
        (λ t c. (
          record q { head = add32 q.head 1 % q.capacity; tail = t % q.capacity; count = c },
          v_memcpy (cell q q.head) item q.elem_size m,
        ))
        plain same

  pub overwrite_oldest-Replaced : Replaced q m item (overwrite_oldest item q m)
  overwrite_oldest-Replaced =
      let s = store_item-Pushed (shorter-IsValid v some_item) item m (omega (arith, some_item)) in
      subst (Replaced q m item) (sym overwritten-stored) (record {
        valid = s.valid;
        rest = contents (shorter v some_item) m;
        queue = contents-shorter v some_item m;
        queue' = s.queue;
        counted = omega (arith, s.counted, some_item);
      })
