-- ===== src/Heap/Twice.antt =====
-- Double frees on a heap of kernel/memory/memory.c whose headers are in order.
use vaios.Base.{ℕ, ◌+◌, ◌≡◌, ◌≤◌, some, none, update}
use vaios.Machine.{word_mod}
use vaios.Heap.Blocks.{header, min_payload}
use vaios.Heap.Index.{FreeIndex}
use vaios.Heap.Facade.{Arena, Heap, v_free}
use vaios.Heap.Guard.{v_free_again}
use vaios.Heap.Refine.{Held, Implements, v_free-Implements}

module _ (x : FreeIndex) (r : Arena)
    (inside : r.start + r.heap_size + header + min_payload ≤ word_mod) where
  -- On a heap that implements a map of held blocks, in an arena away from the end of the address
  -- space, to free a held block takes it from the held ones, and to free its pointer a second time
  -- changes nothing.
  pub v_free_twice :
      (h : Heap x.State) (held : Held) (a s : ℕ)
      → Implements x r h held
      → held a ≡ some s
      → let once = v_free x r (some (a + header)) h in
        (v_free x r (some (a + header)) once ≡ once) × Implements x r once (update held a none)
  v_free_twice h held a s i e =
      (v_free_again x r (some (a + header)) h, v_free-Implements x r inside h held a s i e)
