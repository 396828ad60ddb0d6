-- ===== src/Heap/Seglist/Remove.antt =====
-- `vheap_index_insert` and `vheap_index_remove` of kernel/memory/seglist.c on the lists of the filed
-- blocks.
use vaios.Base.{ℕ, ◌≡◌, refl, Option, none, some, update}
use vaios.Heap.FreeLists.{FreeLists}
use vaios.Heap.FreeLists.Files.{Filed, empty-Filed, put_first-Filed}
use vaios.Heap.FreeLists.Remove.{take_out-Filed}
use vaios.Heap.Seglist.{size_class, index_reset, index_insert, index_remove}

pub reset-Filed : Filed size_class index_reset (λ a. none)
reset-Filed = empty-Filed size_class index_reset (λ c. refl)

module _ (sizes : ℕ → ℕ) (st : FreeLists) (f : ℕ → Option ℕ) (a : ℕ)
    (d : Filed size_class st f) where
  pub insert-Filed :
      f a ≡ none → Filed size_class (index_insert sizes a st) (update f a (some (sizes a)))
  unfolding index_insert
  insert-Filed new = put_first-Filed size_class sizes st f a d new

  -- When the segregated lists file exactly the blocks of a map, each in the doubly linked list of
  -- its class, taking a filed block out leaves them so for the map without it.
  pub remove-Filed :
      f a ≡ some (sizes a) → Filed size_class (index_remove sizes a st) (update f a none)
  unfolding index_remove
  remove-Filed filed = take_out-Filed size_class sizes st f a d filed
