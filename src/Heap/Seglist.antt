-- ===== src/Heap/Seglist.antt =====
-- kernel/memory/seglist.c: free blocks in doubly linked lists, one for each of eight size classes.
pub mod Remove
pub mod Find
pub mod Fit
use vaios.Base.{ℕ, zero, suc, ◌+◌, ◌-◌, leb, if◌then◌else◌, none, some, update}
use vaios.Machine.{add32}
use vaios.Heap.Blocks.{Pointer}
use vaios.Heap.FreeLists.{FreeNode, FreeLists, put_first, take_out}

-- `size_class`
unfoldable pub size_class : ℕ → ℕ
size_class size =
    if leb size 8
    then 0
    else if leb size 16
    then 1
    else if leb size 32
    then 2
    else if leb size 64
    then 3
    else if leb size 128
    then 4
    else if leb size 256
    then 5
    else if leb size 512
    then 6
    else 7

-- `vheap_index_reset`, on a heap that `v_memset` has just cleared
abbrev pub index_reset : FreeLists
index_reset = record {
  free_lists = λ c. none;
  nodes = λ a. record { next_free = none; prev_free = none };
}

-- `vheap_index_insert`
unfoldable pub index_insert : (ℕ → ℕ) → ℕ → FreeLists → FreeLists
index_insert sizes blk st = put_first (size_class (sizes blk)) blk st

-- `vheap_index_remove`
unfoldable pub index_remove : (ℕ → ℕ) → ℕ → FreeLists → FreeLists
index_remove sizes blk st = take_out (size_class (sizes blk)) blk st

-- The walk through the class of the request, with the probes so far. The fuel bounds the blocks of a
-- class.
abbrev pub first_fit : ℕ → (ℕ → ℕ) → (ℕ → FreeNode) → ℕ → Pointer → ℕ → Pointer × ℕ
first_fit zero sizes nodes size b probes = (none, probes)
first_fit (suc fuel) sizes nodes size none probes = (none, probes)
first_fit (suc fuel) sizes nodes size (some b) probes =
    let rest = first_fit fuel sizes nodes size (nodes b).next_free (add32 probes 1) in
    if leb size (sizes b) then (some b, add32 probes 1) else rest

abbrev pub head_or : Pointer → ℕ → Pointer × ℕ → Pointer × ℕ
head_or (some b) probes rest = (some b, probes)
head_or none probes rest = rest

-- The heads of `n` classes from `k` on.
abbrev pub higher : ℕ → (ℕ → Pointer) → ℕ → ℕ → Pointer × ℕ
higher zero lists k probes = (none, probes)
higher (suc n) lists k probes =
    head_or (lists k) (add32 probes 1) (higher n lists (k + 1) (add32 probes 1))

abbrev pub found_or : FreeLists → ℕ → Pointer × ℕ → Pointer × ℕ
found_or st c (some b, probes) = (some b, probes)
found_or st c (none, probes) = higher (7 - c) st.free_lists (c + 1) probes

-- `vheap_index_find`
unfoldable pub index_find : ℕ → (ℕ → ℕ) → ℕ → FreeLists → Pointer × ℕ
index_find fuel sizes size st =
    let c = size_class size in
    found_or st c (first_fit fuel sizes st.nodes size (st.free_lists c) 0)
