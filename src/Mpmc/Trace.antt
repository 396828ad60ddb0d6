-- ===== src/Mpmc/Trace.antt =====
-- The `mpmc_*` queue of kernel/structure.c, used by several tasks at once, against a bounded queue.
use native.Mathlib.Nat.{mod-lt}
use vaios.Base.{
  ℕ, ◌+◌, ◌*◌, ◌≤◌, ◌<◌, ◌≡◌, refl, sym, ap, subst, ◌∙◌, ◌%◌, Option, List, [], ◌∷◌, ◌++◌, length,
  arith, tabulate, tabulate-ext, length-tabulate,
}
use vaios.Machine.{Memory}
use vaios.Spsc.Copy.{Apart}
use vaios.Spsc.Queue.{element}
use vaios.Mpmc.{Mpmc, store_item, overwrite_oldest, remove_item, cell}
use vaios.Mpmc.Ring.{IsValid, contents, nth, slot_bytes, cell-eq, scaled}
use vaios.Mpmc.Locked.{store_item-Pushed, overwrite_oldest-Replaced, remove_item-Removed}
use vaios.Mpmc.Tasks.{Place, Event, pushed, popped, replaced, Move, System, logged, Run}
use vaios.Mpmc.Permits.{others, slots_held, items_held, Balanced, to-Balanced, Run-Consistent}

-- A bounded queue of `capacity` items, oldest first, after the events of a log, the latest one
-- first: a push finds room, a pop takes the oldest item, and a full queue may lose its oldest item to
-- a new one.
abbrev pub Fifo : ℕ → List Event → List (List ℕ) → Type 0
Fifo capacity [] items = items ≡ []
Fifo capacity (pushed e ∷ log) items =
    (before : List (List ℕ)) × Fifo capacity log before
    × (length before < capacity)
    × (items ≡ before ++ (e ∷ []))
Fifo capacity (popped e ∷ log) items =
    (before : List (List ℕ)) × Fifo capacity log before × (before ≡ e ∷ items)
Fifo capacity (replaced e ∷ log) items =
    (oldest : List ℕ) × (rest : List (List ℕ)) × Fifo capacity log (oldest ∷ rest)
    × (length (oldest ∷ rest) ≡ capacity)
    × (items ≡ rest ++ (e ∷ []))

length-contents : (q : Mpmc) (m : Memory) → length (contents q m) ≡ q.count
unfolding contents
length-contents q m = length-tabulate q.count (nth q m)

module _ (a b : ℕ) (log : List Event) where
  abbrev Kept : Mpmc → List Event → Mpmc → Memory → Type 0
  Kept q log' q' m' = (q'.capacity ≡ q.capacity) × Fifo q.capacity log' (contents q' m')

  stored-Fifo :
      (q : Mpmc) (item : ℕ) (m : Memory)
      → IsValid q
      → q.count < q.capacity
      → Fifo q.capacity log (contents q m)
      → Kept q
          (pushed (element m item q.elem_size) ∷ log)
          (store_item item q m).0
          (store_item item q m).1
  unfolding store_item
  stored-Fifo q item m v room f =
      let s = store_item-Pushed v item m room in
      (refl, (contents q m, f, omega (arith, length-contents q m, room), s.queue))

  overwritten-Fifo :
      (q : Mpmc) (item : ℕ) (m : Memory)
      → IsValid q
      → q.count ≡ q.capacity
      → Fifo q.capacity log (contents q m)
      → Kept q
          (replaced (element m item q.elem_size) ∷ log)
          (overwrite_oldest item q m).0
          (overwrite_oldest item q m).1
  unfolding overwrite_oldest
  overwritten-Fifo q item m v full f =
      let r = overwrite_oldest-Replaced v full item m in
      (
        refl,
        (
          slot_bytes q m q.tail,
          r.rest,
          subst (Fifo q.capacity log) r.queue f,
          ap length (sym r.queue) ∙ length-contents q m ∙ full,
          r.queue',
        ),
      )

  removed-Fifo :
      (q : Mpmc) (target : ℕ) (m : Memory)
      → IsValid q
      → 0 < q.count
      → Apart q.buffer (q.capacity * q.elem_size) target q.elem_size
      → Fifo q.capacity log (contents q m)
      → Kept q
          (popped (element (remove_item target q m).1 target q.elem_size) ∷ log)
          (remove_item target q m).0
          (remove_item target q m).1
  unfolding remove_item
  removed-Fifo q target m v some_item apart f =
      let r = remove_item-Removed v some_item m target apart in (refl, (contents q m, f, r.queue))

  Move-Fifo :
      {m : Memory} {q : Mpmc} {p : Place} {q' : Mpmc} {m' : Memory} {p' : Place} {e : Option Event}
      → Move m q p q' m' p' e
      → Balanced a b p p q
      → Fifo q.capacity log (contents q m)
      → Kept q (logged e log) q' m'
  unfolding contents
  Move-Fifo {m} (Move.stores q item) w f = stored-Fifo q item m w.valid (omega (arith, w.slots)) f
  Move-Fifo {m} (Move.overwrites q item some_slot full) w f =
      overwritten-Fifo q item m w.valid full f
  Move-Fifo {m} (Move.removes q target apart) w f =
      removed-Fifo q target m w.valid (omega (arith, w.items)) apart f
  Move-Fifo x w f = (refl, f)

-- Writes outside the storage leave the items.
contents-outside :
    (q : Mpmc) (m m' : Memory)
    → IsValid q
    → ((a : ℕ) → q.buffer ≤ a → a < q.buffer + q.capacity * q.elem_size → m' a ≡ m a)
    → contents q m' ≡ contents q m
unfolding contents
contents-outside q m m' v same = tabulate-ext q.count _ _ (λ k lt.
    let i = (q.tail + k) % q.capacity in
    let hi = mod-lt (q.tail + k) v.some_capacity in
    tabulate-ext q.elem_size _ _ (λ b less.
      same (cell q i + b) (omega (arith, cell-eq v i hi, scaled v i hi))
        (omega (arith, cell-eq v i hi, scaled v i hi))))

-- However the steps of pushes and pops by any tasks follow one another, under either policy, the
-- items in the queue are those of a bounded queue of its capacity after the same pushes, pops and
-- replacements, in the order of the locked parts: items leave in the order in which they came, each
-- once.
pub Run-Fifo :
    (s : System) (log : List Event)
    → Run s log
    → Fifo s.queue.capacity log (contents s.queue s.memory)
unfolding contents
Run-Fifo s log (Run.begins q m places settled empty at_rest) = ap (λ n. tabulate n (nth q m)) empty
Run-Fifo s log (Run.moves q q' m m' ys zs p p' e old run move) =
    let t : System = record { queue = q; memory = m; tasks = ys ++ (p ∷ zs) } in
    let w = to-Balanced q m ys zs p (Run-Consistent t old run) in
    let (same, f) =
      Move-Fifo (others q m ys zs slots_held) (others q m ys zs items_held) old move w
        (Run-Fifo t old run) in
    subst (λ c. Fifo c (logged e old) (contents q' m')) (sym same) f
Run-Fifo s log (Run.writes t m old run same) =
    subst (Fifo t.queue.capacity old)
      (sym (contents-outside t.queue t.memory m (Run-Consistent t old run).valid same))
      (Run-Fifo t old run)
Run-Fifo s log (Run.sets_policy t policy old run) = Run-Fifo t old run
