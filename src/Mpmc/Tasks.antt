-- ===== src/Mpmc/Tasks.antt =====
-- Several tasks in `mpmc_push_timeout` and `mpmc_pop_timeout` of kernel/structure.c at once. A task
-- stands at one of the semaphore calls or locked parts; what it does there is one step, since the
-- kernel runs a semaphore call and the mutex a locked part without another one of the same queue. A
-- give that hands over to a waiting task is a give, then the take of that task.
use vaios.Base.{
  ℕ, suc, ◌+◌, ◌*◌, ◌≤◌, ◌<◌, ◌≡◌, ◌≢◌, Bool, true, false, Option, none, some, List, [], ◌∷◌, ◌++◌,
}
use vaios.Machine.{Memory}
use vaios.Spsc.Copy.{Apart}
use vaios.Spsc.Queue.{element}
use vaios.Mpmc.{
  MpmcPolicy, mpmc_drop, mpmc_overwrite, Mpmc, store_item, overwrite_oldest, remove_item, give_item,
  wake_reader, give_slot, wake_writer, mpmc_set_policy,
}
use vaios.Mpmc.Calls.{Settled}

-- Where a task stands, with the address of its item or of its target and its time to wait. A push
-- reads the policy once, at its start.
pub data Place : Type 0 where
  idle : Place
  -- the first take of a push, the locked part of one that overwrites, its two further takes
  push_take : MpmcPolicy → ℕ → ℕ → Place
  push_locked push_retry push_wait : ℕ → Place
  -- the locked part of a push that has its slot, and its two gives
  push_store : ℕ → Place
  push_give push_wake : Place
  -- the take, the locked part and the gives of a pop
  pop_take : ℕ → ℕ → Place
  pop_remove : ℕ → Place
  pop_give pop_wake : Place
  returned : Bool → Place

-- What a step does to the items of the queue.
pub data Event : Type 0 where
  pushed popped replaced : List ℕ → Event

-- One step of a task: the queue, the memory and its place before and after, with the event.
pub data Move (m : Memory) : Mpmc → Place → Mpmc → Memory → Place → Option Event → Type 0 where
  -- any call, with any arguments
  calls_push :
      (q : Mpmc) (item timeout : ℕ) → Move m q idle q m (push_take q.policy item timeout) none
  calls_pop : (q : Mpmc) (target timeout : ℕ) → Move m q idle q m (pop_take target timeout) none
  returns : (q : Mpmc) (b : Bool) → Move m q (returned b) q m idle none
  takes_slot :
      (q : Mpmc) (policy : MpmcPolicy) (item timeout n : ℕ)
      → q.not_full ≡ suc n
      → Move m q
          (push_take policy item timeout)
          (record q { not_full = n })
          m
          (push_store item)
          none
  finds_full :
      (q : Mpmc) (item timeout : ℕ)
      → q.not_full ≡ 0
      → Move m q (push_take mpmc_drop item timeout) q m (returned false) none
  will_overwrite :
      (q : Mpmc) (item timeout : ℕ)
      → q.not_full ≡ 0
      → Move m q (push_take mpmc_overwrite item timeout) q m (push_locked item) none
  has_no_slots :
      (q : Mpmc) (item : ℕ) → q.capacity ≡ 0 → Move m q (push_locked item) q m (returned false) none
  overwrites :
      (q : Mpmc) (item : ℕ)
      → q.capacity ≢ 0
      → q.count ≡ q.capacity
      → Move m q
          (push_locked item)
          (overwrite_oldest item q m).0
          (overwrite_oldest item q m).1
          (returned true)
          (some (replaced (element m item q.elem_size)))
  is_not_full :
      (q : Mpmc) (item : ℕ)
      → q.capacity ≢ 0
      → q.count ≢ q.capacity
      → Move m q (push_locked item) q m (push_retry item) none
  retakes_slot :
      (q : Mpmc) (item n : ℕ)
      → q.not_full ≡ suc n
      → Move m q (push_retry item) (record q { not_full = n }) m (push_store item) none
  finds_none :
      (q : Mpmc) (item : ℕ) → q.not_full ≡ 0 → Move m q (push_retry item) q m (push_wait item) none
  gets_slot :
      (q : Mpmc) (item n : ℕ)
      → q.not_full ≡ suc n
      → Move m q (push_wait item) (record q { not_full = n }) m (push_store item) none
  gives_up :
      (q : Mpmc) (item : ℕ) → q.not_full ≡ 0 → Move m q (push_wait item) q m (returned false) none
  stores :
      (q : Mpmc) (item : ℕ)
      → Move m q
          (push_store item)
          (store_item item q m).0
          (store_item item q m).1
          push_give
          (some (pushed (element m item q.elem_size)))
  gives_item : (q : Mpmc) → Move m q push_give (give_item q) m push_wake none
  wakes_reader : (q : Mpmc) → Move m q push_wake (wake_reader q) m (returned true) none
  takes_item :
      (q : Mpmc) (target timeout n : ℕ)
      → q.not_empty ≡ suc n
      → Move m q (pop_take target timeout) (record q { not_empty = n }) m (pop_remove target) none
  finds_empty :
      (q : Mpmc) (target timeout : ℕ)
      → q.not_empty ≡ 0
      → Move m q (pop_take target timeout) q m (returned false) none
  -- the target lies apart from the storage
  removes :
      (q : Mpmc) (target : ℕ)
      → Apart q.buffer (q.capacity * q.elem_size) target q.elem_size
      → Move m q
          (pop_remove target)
          (remove_item target q m).0
          (remove_item target q m).1
          pop_give
          (some (popped (element (remove_item target q m).1 target q.elem_size)))
  gives_slot : (q : Mpmc) → Move m q pop_give (give_slot q) m pop_wake none
  wakes_writer : (q : Mpmc) → Move m q pop_wake (wake_writer q) m (returned true) none

pub record System : Type 0 where
  pub queue : Mpmc
  pub memory : Memory
  pub tasks : List Place

-- No task is in a call.
abbrev pub Idle : List Place → Type 0
Idle [] = Unit {0}
Idle (p ∷ ps) = (p ≡ idle) × Idle ps

-- The events so far, the latest one first.
abbrev pub logged : Option Event → List Event → List Event
logged none log = log
logged (some e) log = e ∷ log

-- The states that tasks reach from a settled empty queue, each doing one step after another in any
-- order, with any writes outside the storage and any changes of the policy in between.
pub data Run : System → List Event → Type 0 where
  begins :
      (q : Mpmc) (m : Memory) (places : List Place)
      → Settled q
      → q.count ≡ 0
      → Idle places
      → Run (record { queue = q; memory = m; tasks = places }) []
  moves :
      (q q' : Mpmc) (m m' : Memory) (ys zs : List Place) (p p' : Place) (e : Option Event)
      (log : List Event)
      → Run (record { queue = q; memory = m; tasks = ys ++ (p ∷ zs) }) log
      → Move m q p q' m' p' e
      → Run (record { queue = q'; memory = m'; tasks = ys ++ (p' ∷ zs) }) (logged e log)
  writes :
      (s : System) (m : Memory) (log : List Event)
      → Run s log
      → ((a : ℕ)
          → s.queue.buffer ≤ a
          → a < s.queue.buffer + s.queue.capacity * s.queue.elem_size
          → m a ≡ s.memory a)
      → Run (record s { memory = m }) log
  sets_policy :
      (s : System) (policy : MpmcPolicy) (log : List Event)
      → Run s log
      → Run (record s { queue = mpmc_set_policy policy s.queue }) log
