-- ===== src/Mpmc/Permits.antt =====
-- The permits of the `mpmc_*` queue of kernel/structure.c against the tasks that hold them.
use vaios.Base.{
  ℕ, suc, ◌+◌, ◌≤◌, ◌≡◌, refl, ap, Option, List, [], ◌∷◌, ◌++◌, arith, lt→ltb, true, ◌*◌,
}
use vaios.Machine.{Memory}
use vaios.Mpmc.{Mpmc, wake, give_permit, store_item, overwrite_oldest, remove_item}
use vaios.Spsc.Copy.{Apart}
use vaios.Mpmc.Ring.{IsValid, permits-IsValid, policy-IsValid}
use vaios.Mpmc.Locked.{store_item-Pushed, overwrite_oldest-Replaced, remove_item-Removed}
use vaios.Mpmc.Tasks.{
  Place, idle, push_take, push_locked, push_retry, push_wait, push_store, push_give, pop_remove,
  pop_give, returned, Event, Move, System, Idle, Run,
}

-- The free slots that a task holds: one it took and has not filled, or emptied and has not given.
abbrev pub slots_held : Place → ℕ
slots_held (push_store item) = 1
slots_held pop_give = 1
slots_held _ = 0

-- The items that it answers for: one it took and has not removed, or stored and has not given.
abbrev pub items_held : Place → ℕ
items_held (pop_remove target) = 1
items_held push_give = 1
items_held _ = 0

abbrev pub tally : (Place → ℕ) → List Place → ℕ
tally f [] = 0
tally f (p ∷ ps) = f p + tally f ps

tally-append : (f : Place → ℕ) (ps qs : List Place) → tally f (ps ++ qs) ≡ tally f ps + tally f qs
tally-append f [] qs = omega arith
tally-append f (p ∷ ps) qs = omega (arith, tally-append f ps qs)

-- Each slot is free, holds an item, or is held by a task; each item has a permit or a task.
pub record Consistent (s : System) : Type 0 where
  pub valid : IsValid s.queue
  pub slots : s.queue.not_full + s.queue.count + tally slots_held s.tasks ≡ s.queue.capacity
  pub items : s.queue.not_empty + tally items_held s.tasks ≡ s.queue.count

-- What a step does to the sums, among tasks that hold `a` slots and `b` items besides.
pub record Balanced (a b : ℕ) (p p' : Place) (q' : Mpmc) : Type 0 where
  pub valid : IsValid q'
  pub slots : q'.not_full + q'.count + (slots_held p' + a) ≡ q'.capacity
  pub items : q'.not_empty + (items_held p' + b) ≡ q'.count

module _ (a b : ℕ) where
  -- A step that changes no permit.
  stays :
      {q : Mpmc} {p p' : Place}
      → Balanced a b p p q
      → slots_held p' ≡ slots_held p
      → items_held p' ≡ items_held p
      → Balanced a b p p' q
  stays w es ei = record {
    valid = w.valid;
    slots = omega (arith, w.slots, es);
    items = omega (arith, w.items, ei);
  }

  taken-Balanced :
      (q : Mpmc) (n : ℕ) (p : Place) (item : ℕ)
      → q.not_full ≡ suc n
      → slots_held p ≡ 0
      → items_held p ≡ 0
      → Balanced a b p p q
      → Balanced a b p (push_store item) (record q { not_full = n })
  taken-Balanced q n p item f es ei w = record {
    valid = permits-IsValid q.not_empty n q.fd_wake_rd q.fd_wake_wr w.valid;
    slots = omega (arith, w.slots, f, es);
    items = omega (arith, w.items, ei);
  }

  overwritten-Balanced :
      (q : Mpmc) (item : ℕ) (m : Memory)
      → q.count ≡ q.capacity
      → Balanced a b (push_locked item) (push_locked item) q
      → Balanced a b (push_locked item) (returned true) (overwrite_oldest item q m).0
  unfolding overwrite_oldest
  overwritten-Balanced q item m full w = record {
    valid = (overwrite_oldest-Replaced w.valid full item m).valid;
    slots = omega (arith, w.slots);
    items = omega (arith, w.items);
  }

  stored-Balanced :
      (q : Mpmc) (item : ℕ) (m : Memory)
      → Balanced a b (push_store item) (push_store item) q
      → Balanced a b (push_store item) push_give (store_item item q m).0
  unfolding store_item
  stored-Balanced q item m w =
      let s = store_item-Pushed w.valid item m (omega (arith, w.slots)) in
      record {
        valid = s.valid;
        slots = omega (arith, w.slots, s.counted);
        items = omega (arith, w.items, s.counted);
      }

  removed-Balanced :
      (q : Mpmc) (target : ℕ) (m : Memory)
      → Apart q.buffer (q.capacity * q.elem_size) target q.elem_size
      → Balanced a b (pop_remove target) (pop_remove target) q
      → Balanced a b (pop_remove target) pop_give (remove_item target q m).0
  unfolding remove_item
  removed-Balanced q target m apart w =
      let r = remove_item-Removed w.valid (omega (arith, w.items)) m target apart in
      record {
        valid = r.valid;
        slots = omega (arith, w.slots, r.counted);
        items = omega (arith, w.items, r.counted);
      }

  Move-Balanced :
      {m : Memory} {q : Mpmc} {p : Place} {q' : Mpmc} {m' : Memory} {p' : Place} {e : Option Event}
      → Move m q p q' m' p' e
      → Balanced a b p p q
      → Balanced a b p p' q'
  Move-Balanced (Move.calls_push q item timeout) w = stays w refl refl
  Move-Balanced (Move.calls_pop q target timeout) w = stays w refl refl
  Move-Balanced (Move.returns q r) w = stays w refl refl
  Move-Balanced (Move.takes_slot q policy item timeout n f) w =
      taken-Balanced q n (push_take policy item timeout) item f refl refl w
  Move-Balanced (Move.finds_full q item timeout f) w = stays w refl refl
  Move-Balanced (Move.will_overwrite q item timeout f) w = stays w refl refl
  Move-Balanced (Move.has_no_slots q item f) w = stays w refl refl
  Move-Balanced {m} (Move.overwrites q item f full) w = overwritten-Balanced q item m full w
  Move-Balanced (Move.is_not_full q item f g) w = stays w refl refl
  Move-Balanced (Move.retakes_slot q item n f) w =
      taken-Balanced q n (push_retry item) item f refl refl w
  Move-Balanced (Move.finds_none q item f) w = stays w refl refl
  Move-Balanced (Move.gets_slot q item n f) w =
      taken-Balanced q n (push_wait item) item f refl refl w
  Move-Balanced (Move.gives_up q item f) w = stays w refl refl
  Move-Balanced {m} (Move.stores q item) w = stored-Balanced q item m w
  Move-Balanced (Move.gives_item q) w = record {
    valid =
        permits-IsValid (give_permit q.capacity q.not_empty) q.not_full q.fd_wake_rd q.fd_wake_wr
          w.valid;
    slots = omega (arith, w.slots);
    items =
        rw (lt→ltb q.not_empty q.capacity (omega (arith, w.items, w.slots)))
          (omega (arith, w.items));
  }
  Move-Balanced (Move.wakes_reader q) w = record {
    valid = permits-IsValid q.not_empty q.not_full (wake q.fd_wake_rd) q.fd_wake_wr w.valid;
    slots = omega (arith, w.slots);
    items = omega (arith, w.items);
  }
  Move-Balanced (Move.takes_item q target timeout n f) w = record {
    valid = permits-IsValid n q.not_full q.fd_wake_rd q.fd_wake_wr w.valid;
    slots = omega (arith, w.slots);
    items = omega (arith, w.items, f);
  }
  Move-Balanced (Move.finds_empty q target timeout f) w = stays w refl refl
  Move-Balanced {m} (Move.removes q target apart) w = removed-Balanced q target m apart w
  Move-Balanced (Move.gives_slot q) w = record {
    valid =
        permits-IsValid q.not_empty (give_permit q.capacity q.not_full) q.fd_wake_rd q.fd_wake_wr
          w.valid;
    slots = rw (lt→ltb q.not_full q.capacity (omega (arith, w.slots))) (omega (arith, w.slots));
    items = omega (arith, w.items);
  }
  Move-Balanced (Move.wakes_writer q) w = record {
    valid = permits-IsValid q.not_empty q.not_full q.fd_wake_rd (wake q.fd_wake_wr) w.valid;
    slots = omega (arith, w.slots);
    items = omega (arith, w.items);
  }

module _ (q : Mpmc) (m : Memory) (ys zs : List Place) where
  abbrev pub others : (Place → ℕ) → ℕ
  others f = tally f ys + tally f zs

  tally-around : (f : Place → ℕ) (p : Place) → tally f (ys ++ (p ∷ zs)) ≡ f p + others f
  tally-around f p = omega (arith, tally-append f ys (p ∷ zs))

  pub to-Balanced :
      (p : Place)
      → Consistent (record { queue = q; memory = m; tasks = ys ++ (p ∷ zs) })
      → Balanced (others slots_held) (others items_held) p p q
  to-Balanced p c = record {
    valid = c.valid;
    slots = omega (arith, c.slots, tally-around slots_held p);
    items = omega (arith, c.items, tally-around items_held p);
  }

  from-Balanced :
      (p p' : Place)
      → Balanced (others slots_held) (others items_held) p p' q
      → Consistent (record { queue = q; memory = m; tasks = ys ++ (p' ∷ zs) })
  from-Balanced p p' w = record {
    valid = w.valid;
    slots = omega (arith, w.slots, tally-around slots_held p');
    items = omega (arith, w.items, tally-around items_held p');
  }

idle-tally : (f : Place → ℕ) (ps : List Place) → f idle ≡ 0 → Idle ps → tally f ps ≡ 0
idle-tally f [] e h = refl
idle-tally f (p ∷ ps) e h = omega (arith, ap f h.0, e, idle-tally f ps e h.1)

-- However the steps of pushes and pops by any tasks follow one another, each slot of the queue is
-- free, holds an item, or is held by exactly one task, and each item has a permit or a task; the
-- indices agree with the count, which stays within the capacity.
pub Run-Consistent : (s : System) (log : List Event) → Run s log → Consistent s
Run-Consistent s log (Run.begins q m places settled empty at_rest) = record {
  valid = settled.valid;
  slots = omega (arith, settled.slots, idle-tally slots_held places refl at_rest);
  items = omega (arith, settled.items, idle-tally items_held places refl at_rest);
}
Run-Consistent s log (Run.moves q q' m m' ys zs p p' e old run move) =
    let c = Run-Consistent (record { queue = q; memory = m; tasks = ys ++ (p ∷ zs) }) old run in
    from-Balanced q' m' ys zs p p' (
      Move-Balanced (others q m ys zs slots_held) (others q m ys zs items_held) move
        (to-Balanced q m ys zs p c))
Run-Consistent s log (Run.writes t m old run same) =
    let c = Run-Consistent t old run in record { valid = c.valid; slots = c.slots; items = c.items }
Run-Consistent s log (Run.sets_policy t policy old run) =
    let c = Run-Consistent t old run in
    record { valid = policy-IsValid policy c.valid; slots = c.slots; items = c.items }

-- In such a run a task that is about to store has a slot to store in, a task that is about to
-- remove has an item to remove, and neither semaphore has more permits than the queue has slots.
pub Run-Safe :
    (q : Mpmc) (m : Memory) (ys zs : List Place) (p : Place) (log : List Event)
    → Run (record { queue = q; memory = m; tasks = ys ++ (p ∷ zs) }) log
    → (slots_held p + q.count ≤ q.capacity)
      × (items_held p ≤ q.count)
      × (q.not_empty ≤ q.capacity)
      × (q.not_full ≤ q.capacity)
Run-Safe q m ys zs p log run =
    let w =
      to-Balanced q m ys zs p
        (Run-Consistent (record { queue = q; memory = m; tasks = ys ++ (p ∷ zs) }) log run) in
    (
      omega (arith, w.slots),
      omega (arith, w.items),
      omega (arith, w.slots, w.items),
      omega (arith, w.slots),
    )
