-- ===== src/Heap/Tlsf/Examples.antt =====
-- The theorems on TLSF at three blocks of a small heap.
use vaios.Base.{ℕ, ◌-◌, ◌≤◌, ◌≡◌, refl, Option, none, some, update, arith}
use vaios.Machine.Bits.{leading_zeros, trailing_zeros}
use vaios.Heap.Tlsf.{
  Tlsf, fl_count, mapping_insert, mapping_search, index_reset, index_insert, index_remove,
  index_find,
}
use vaios.Heap.Tlsf.Order.{mapping_search-past}
use vaios.Heap.Tlsf.Files.{Indexed, reset-Indexed, insert-Indexed, remove-Indexed}

-- A block at address a has a - 4000 bytes.
abbrev sizes : ℕ → ℕ
sizes a = a - 4000

abbrev empty : Tlsf
empty = index_reset (λ a. record { next_free = none; prev_free = none })

abbrev one : Tlsf
one = index_insert sizes 4096 empty

abbrev two : Tlsf
two = index_insert sizes 5000 one

abbrev one_filed : ℕ → Option ℕ
one_filed = update (λ a. none) 4096 (some 96)

abbrev two_filed : ℕ → Option ℕ
two_filed = update one_filed 5000 (some 1000)

one-Indexed : Indexed one one_filed
one-Indexed =
    insert-Indexed sizes empty (λ a. none) 4096
      (reset-Indexed (λ a. record { next_free = none; prev_free = none })) refl (omega arith)

two-Indexed : Indexed two two_filed
two-Indexed = insert-Indexed sizes one one_filed 5000 one-Indexed refl (omega arith)

two_found : (index_find 200 two ≡ (some 5000, 2)) × (index_find 96 two ≡ (some 4096, 1))
unfolding index_find mapping_search mapping_insert index_insert leading_zeros trailing_zeros
two_found = (refl, refl)

remove-Indexed_example : Indexed (index_remove sizes 4096 two) (update two_filed 4096 none)
remove-Indexed_example = remove-Indexed sizes two two_filed 4096 two-Indexed refl

mapping_search-past_example : fl_count ≤ (mapping_search 2000000).0
mapping_search-past_example = mapping_search-past 2000000 (omega arith) (omega arith)
