-- ===== src/Mpmc/Examples.antt =====
-- The theorems on the queue at two slots of four bytes.
use vaios.Base.{ℕ, ◌+◌, ◌≤◌, ◌≡◌, refl, none, some, List, [], ◌∷◌, ◌++◌, arith, inl}
use vaios.Machine.{Memory}
use vaios.Spsc.Queue.{element}
use vaios.Mpmc.{
  Mpmc, MpmcPolicy, mpmc_init, mpmc_push_timeout, mpmc_pop_timeout, mpmc_reset, store_item,
}
use vaios.Mpmc.Ring.{contents}
use vaios.Mpmc.Calls.{
  Settled, Push, Pop, mpmc_push_timeout-Push, mpmc_pop_timeout-Pop, mpmc_reset-ends,
}
use vaios.Mpmc.Tasks.{idle, push_take, push_store, push_give, pushed, Move, System, Run}
use vaios.Mpmc.Permits.{slots_held, items_held, Consistent, Run-Consistent, Run-Safe}
use vaios.Mpmc.Trace.{Fifo, Run-Fifo}

abbrev fresh : Mpmc
fresh = mpmc_init 1000 2 4 (record {
  buffer = 0;
  capacity = 0;
  elem_size = 0;
  policy = MpmcPolicy.mpmc_overwrite;
  head = 7;
  tail = 9;
  count = 5;
  not_empty = 1;
  not_full = 1;
  fd_wake_rd = none;
  fd_wake_wr = some 0;
})

abbrev bytes : Memory
bytes a = a

fresh-Settled : Settled fresh
fresh-Settled = record {
  valid = record {
    some_capacity = omega arith;
    small_capacity = omega arith;
    inside = omega arith;
    tail_in = omega arith;
    head_at = refl;
    count_le = omega arith;
  };
  items = refl;
  slots = refl;
}

mpmc_push_timeout-Push_example : Push fresh bytes 5000 0 (mpmc_push_timeout 5000 0 fresh bytes)
mpmc_push_timeout-Push_example = mpmc_push_timeout-Push 5000 0 bytes fresh-Settled

mpmc_pop_timeout-Pop_example : Pop fresh bytes 6000 10 (mpmc_pop_timeout 6000 10 fresh bytes)
mpmc_pop_timeout-Pop_example = mpmc_pop_timeout-Pop 6000 10 bytes fresh-Settled (inl (omega arith))

mpmc_reset-ends_example :
    (q' : Mpmc) × (mpmc_reset 3 fresh ≡ some q')
    × Settled q'
    × (contents q' bytes ≡ [])
    × (q'.not_full ≡ 2)
mpmc_reset-ends_example =
    mpmc_reset-ends 3 fresh bytes fresh-Settled.valid (omega arith) (omega arith)

-- One of two tasks has stored an item and has not given the permit yet.
abbrev taken : Mpmc
taken = record fresh { not_full = 1 }

abbrev storing : System
storing = record {
  queue = (store_item 5000 taken bytes).0;
  memory = (store_item 5000 taken bytes).1;
  tasks = [] ++ (push_give ∷ idle ∷ []);
}

abbrev item : List ℕ
item = element bytes 5000 4

storing-Run : Run storing (pushed item ∷ [])
storing-Run =
    Run.moves taken (store_item 5000 taken bytes).0 bytes (store_item 5000 taken bytes).1 []
      (idle ∷ []) (push_store 5000) push_give (some (pushed item)) []
      (Run.moves fresh taken bytes bytes [] (idle ∷ []) (push_take MpmcPolicy.mpmc_drop 5000 0)
        (push_store 5000) none []
        (Run.moves fresh fresh bytes bytes [] (idle ∷ []) idle
          (push_take MpmcPolicy.mpmc_drop 5000 0) none []
          (Run.begins fresh bytes (idle ∷ idle ∷ []) fresh-Settled refl (refl, (refl, tt)))
          (Move.calls_push fresh 5000 0))
        (Move.takes_slot fresh MpmcPolicy.mpmc_drop 5000 0 1 refl))
      (Move.stores taken 5000)

Run-Consistent_example : Consistent storing
Run-Consistent_example = Run-Consistent storing (pushed item ∷ []) storing-Run

Run-Safe_example :
    (slots_held push_give + storing.queue.count ≤ storing.queue.capacity)
    × (items_held push_give ≤ storing.queue.count)
    × (storing.queue.not_empty ≤ storing.queue.capacity)
    × (storing.queue.not_full ≤ storing.queue.capacity)
Run-Safe_example =
    Run-Safe storing.queue storing.memory [] (idle ∷ []) push_give (pushed item ∷ []) storing-Run

Run-Fifo_example :
    Fifo storing.queue.capacity (pushed item ∷ []) (contents storing.queue storing.memory)
Run-Fifo_example = Run-Fifo storing (pushed item ∷ []) storing-Run
