-- ===== src/Heap/Examples.antt =====
-- The theorems on the heap at a small arena over segregated lists.
use vaios.Base.{
  ℕ, ◌+◌, ◌≡◌, ◌≤◌, ◌<◌, ◌-◌, ◌*◌, refl, subst, ◌⊎◌, Option, none, some, update, [], ◌∷◌, arith,
  true,
}
use vaios.Machine.{word_mod}
use vaios.Heap.Blocks.{Block, header, min_payload, payload_need, mem_free}
use vaios.Heap.Facade.{
  Arena, Heap, sizes, fixup_next_prev, v_malloc, v_free, v_heap_memory_init,
  v_get_heap_allocation_size,
}
use vaios.Heap.Tiles.{free_tile, header_of, free_at}
use vaios.Heap.FreeMap.{free_at-free}
use vaios.Heap.View.{Describes}
use vaios.Heap.Twice.{v_free_twice}
use vaios.Heap.Calls.{v_free-v_malloc}
use vaios.Heap.Live.{live_at}
use vaios.Heap.Refine.{
  booted, allocated, Held, Implements, Reached, Reached-Implements, Reached-apart, Reached-size,
  v_malloc-Implements, v_free-Implements,
}
use vaios.Heap.FreeLists.{FreeLists}
use vaios.Heap.FreeLists.Files.{Filed}
use vaios.Heap.Seglist.{size_class, index_reset, index_insert, index_remove, index_find}
use vaios.Heap.Seglist.Remove.{reset-Filed, insert-Filed, remove-Filed}
use vaios.Heap.Seglist.Find.{seglist}
use vaios.Heap.Seglist.Fit.{v_malloc-exhausted}

abbrev arena : Arena
arena = record { start = 4096; heap_size = 1024 }

inside : 4096 + 1024 + header + min_payload ≤ word_mod
inside = omega arith

abbrev garbage : Heap FreeLists
garbage = record {
  blocks = λ a. record { magic_number = 7; size = a; status = mem_free; prev = none };
  heap_mem_head = none;
  index = index_reset;
  allocation_count = 3;
  allocation_size = 5;
  vheap_find_probes = 0;
}

abbrev blocks : ℕ → Block
blocks =
    update (λ a. record { magic_number = 0; size = 0; status = mem_free; prev = none }) 4096
      (header_of (free_tile 1008) none)

abbrev fresh : Heap FreeLists
fresh = record {
  blocks = blocks;
  heap_mem_head = some 4096;
  index = index_insert (sizes blocks) 4096 index_reset;
  allocation_count = 0;
  allocation_size = 0;
  vheap_find_probes = 0;
}

small_100 : payload_need 100 < word_mod
unfolding payload_need
small_100 = omega arith

small_40 : payload_need 40 < word_mod
unfolding payload_need
small_40 = omega arith

fresh-Filed : Filed size_class fresh.index (free_at 4096 (free_tile 1008 ∷ []))
fresh-Filed =
    subst (Filed size_class fresh.index) (free_at-free 4096 1008 [])
      (insert-Filed (sizes blocks) index_reset (λ y. none) 4096 reset-Filed refl)

fresh_described : Describes (seglist 65) arena fresh (free_tile 1008 ∷ [])
fresh_described = record {
  ready = refl;
  tiled = (refl, refl);
  filed = fresh-Filed;
  counted = refl;
  summed = refl;
  proper = (refl, refl, omega arith, tt);
  roomy = omega arith;
}

booted_fresh : Reached (seglist 65) arena fresh (λ a. none)
unfolding v_heap_memory_init
booted_fresh = booted (λ a. true) garbage fresh refl

v_malloc-fresh : (v_malloc (seglist 65) arena 100 fresh).0 ≡ some (4096 + header)
unfolding v_malloc index_find index_insert size_class payload_need
v_malloc-fresh = refl

v_free-v_malloc_example :
    let out = v_malloc (seglist 65) arena 100 fresh in
    Describes (seglist 65) arena (v_free (seglist 65) arena out.0 out.1) (free_tile 1008 ∷ [])
v_free-v_malloc_example =
    v_free-v_malloc (seglist 65) arena inside 100 fresh (free_tile 1008 ∷ []) fresh_described
      (omega arith) small_100

v_malloc-exhausted_example : 1008 < payload_need 1009
unfolding v_malloc index_find index_insert size_class payload_need
v_malloc-exhausted_example =
    v_malloc-exhausted arena inside 65 (omega arith) 1009 fresh (free_tile 1008 ∷ []) [] [] 1008
      fresh_described (omega arith) refl refl

-- One block in use, and two.
abbrev first_heap : Heap FreeLists
first_heap = (v_malloc (seglist 65) arena 100 fresh).1

abbrev first_held : Held
first_held = update (λ a. none) 4096 (some (sizes first_heap.blocks 4096))

first-Reached : Reached (seglist 65) arena first_heap first_held
first-Reached =
    allocated fresh (λ a. none) 100 4096 booted_fresh (omega arith) small_100 v_malloc-fresh

v_malloc_first : (v_malloc (seglist 65) arena 40 first_heap).0 ≡ some (4216 + header)
unfolding v_malloc index_find index_insert size_class payload_need fixup_next_prev index_remove
v_malloc_first = refl

abbrev second_heap : Heap FreeLists
second_heap = (v_malloc (seglist 65) arena 40 first_heap).1

abbrev second_held : Held
second_held = update first_held 4216 (some (sizes second_heap.blocks 4216))

second-Reached : Reached (seglist 65) arena second_heap second_held
second-Reached =
    allocated first_heap first_held 40 4216 first-Reached (omega arith) small_40 v_malloc_first

first_size : first_held 4096 ≡ some 104
unfolding v_malloc index_find index_insert size_class payload_need
first_size = refl

second_sizes : (second_held 4096 ≡ some 104) × (second_held 4216 ≡ some 40)
unfolding v_malloc index_find index_insert size_class payload_need fixup_next_prev index_remove
second_sizes = (refl, refl)

Reached-Implements_example : Implements (seglist 65) arena second_heap second_held
Reached-Implements_example =
    Reached-Implements (seglist 65) arena inside refl (omega arith) (omega arith) second_heap
      second_held second-Reached

Reached-apart_example :
    (4096 ≤ 4096)
    × (4096 + header + 104 ≤ 4096 + 1024)
    × (◌≡◌ {A = ℕ} 4096 4216 ⊎ (4096 + header + 104 ≤ 4216) ⊎ (4216 + header + 40 ≤ 4096))
Reached-apart_example =
    Reached-apart (seglist 65) arena inside refl (omega arith) (omega arith) second_heap second_held
      4096 4216 104 40 second-Reached second_sizes.0 second_sizes.1

Reached-size_example :
    (v_get_heap_allocation_size (seglist 65) arena second_heap
      ≡ second_heap.allocation_size + header * second_heap.allocation_count)
    × (v_get_heap_allocation_size (seglist 65) arena second_heap ≤ 1024)
Reached-size_example =
    Reached-size (seglist 65) arena inside refl (omega arith) (omega arith) second_heap second_held
      second-Reached

fresh-Implements : Implements (seglist 65) arena fresh (live_at 4096 (free_tile 1008 ∷ []))
fresh-Implements = record { tiles = free_tile 1008 ∷ []; described = fresh_described; live = refl }

second-Implements : Implements (seglist 65) arena second_heap second_held
second-Implements =
    Reached-Implements (seglist 65) arena inside refl (omega arith) (omega arith) second_heap
      second_held second-Reached

v_malloc-Implements_example :
    let out = v_malloc (seglist 65) arena 100 fresh in
    let held = live_at 4096 (free_tile 1008 ∷ []) in
    ((a : ℕ) × (got : ℕ) × (out.0 ≡ some (a + header))
      × (payload_need 100 ≤ got)
      × (held a ≡ none)
      × Implements (seglist 65) arena out.1 (update held a (some got)))
    ⊎ ((out.0 ≡ none) × Implements (seglist 65) arena out.1 held)
v_malloc-Implements_example =
    v_malloc-Implements (seglist 65) arena inside 100 fresh (live_at 4096 (free_tile 1008 ∷ []))
      fresh-Implements (omega arith) small_100

v_free-Implements_example :
    Implements
      (seglist 65)
      arena
      (v_free (seglist 65) arena (some (4216 + header)) second_heap)
      (update second_held 4216 none)
v_free-Implements_example =
    v_free-Implements (seglist 65) arena inside second_heap second_held 4216 40 second-Implements
      second_sizes.1

v_free_twice_example :
    let once = v_free (seglist 65) arena (some (4216 + header)) second_heap in
    (v_free (seglist 65) arena (some (4216 + header)) once ≡ once)
    × Implements (seglist 65) arena once (update second_held 4216 none)
v_free_twice_example =
    v_free_twice (seglist 65) arena inside second_heap second_held 4216 40 second-Implements
      second_sizes.1

abbrev one_filed : ℕ → Option ℕ
one_filed = update (λ a. none) 4096 (some 96)

one_indexed : Filed size_class (index_insert (λ a. a - 4000) 4096 index_reset) one_filed
one_indexed = insert-Filed (λ a. a - 4000) index_reset (λ a. none) 4096 reset-Filed refl

remove-Filed_example :
    Filed size_class
      (index_remove (λ a. a - 4000) 4096 (index_insert (λ a. a - 4000) 4096 index_reset))
      (update one_filed 4096 none)
remove-Filed_example =
    remove-Filed (λ a. a - 4000) (index_insert (λ a. a - 4000) 4096 index_reset) one_filed 4096
      one_indexed refl
