-- ===== src/Heap/Index.antt =====
-- The contract of kernel/memory/heap_internal.h between the heap facade and a free-block index. An
-- index reads the sizes of blocks from their headers.
use vaios.Base.{ℕ, ◌≡◌, ◌≤◌, ◌<◌, ◌%◌, Option, none, some, update}
use vaios.Heap.Blocks.{Pointer}

pub record FreeIndex : Type 1 where
  pub State : Type 0
  -- blocks smaller than the one limit are filed, requests below the other one are looked up
  pub size_limit : ℕ
  pub request_limit : ℕ
  pub vheap_index_reset : State
  pub vheap_index_insert : (ℕ → ℕ) → ℕ → State → State
  pub vheap_index_remove : (ℕ → ℕ) → ℕ → State → State
  -- the block that is found and `vheap_find_probes`
  pub vheap_index_find : (ℕ → ℕ) → ℕ → State → Pointer × ℕ
  -- the index files exactly the blocks of a map from addresses to sizes
  pub Files : State → (ℕ → Option ℕ) → Type 0
  pub reset-Files : Files vheap_index_reset (λ a. none)
  pub insert-Files :
      (sizes : ℕ → ℕ) (st : State) (f : ℕ → Option ℕ) (a : ℕ)
      → Files st f
      → f a ≡ none
      → sizes a < size_limit
      → Files (vheap_index_insert sizes a st) (update f a (some (sizes a)))
  pub remove-Files :
      (sizes : ℕ → ℕ) (st : State) (f : ℕ → Option ℕ) (a : ℕ)
      → Files st f
      → f a ≡ some (sizes a)
      → Files (vheap_index_remove sizes a st) (update f a none)
  pub find-Files :
      (sizes : ℕ → ℕ) (st : State) (f : ℕ → Option ℕ) (n a : ℕ)
      → Files st f
      → ((x s : ℕ) → f x ≡ some s → sizes x ≡ s)
      → n % 8 ≡ 0
      → n < request_limit
      → (vheap_index_find sizes n st).0 ≡ some a
      → (f a ≡ some (sizes a)) × (n ≤ sizes a)
