-- ===== src/Heap/Calls.antt =====
-- The public calls of kernel/memory/memory.c one after the other.
use vaios.Base.{
  ℕ, ◌+◌, ◌-◌, ◌%◌, ◌≡◌, ◌≤◌, ◌<◌, refl, sym, ap, subst, ◌∙◌, ◌⊎◌, inl, inr, Bool, true, false,
  List, [], ◌∷◌, ◌++◌, none, some, update, arith, le→leb, lt→ltb, lt→leb, dec_lt, eqb_refl,
  Bool-cases,
}
use vaios.Machine.{word_mod, sub32}
use vaios.Heap.Blocks.{Block, Pointer, mem_free, header, min_payload, payload_need}
use vaios.Heap.Index.{FreeIndex}
use vaios.Heap.Facade.{
  Arena, Heap, sizes, is_sane, is_free, file, v_free, v_malloc, v_heap_memory_init,
}
use vaios.Heap.Tiles.{
  Tile, free_tile, used_tile, header_of, end_of, end_of-le, Tiled-le, Tiled-split,
}
use vaios.Heap.FreeMap.{free_at-free}
use vaios.Heap.View.{Describes, Proper, Proper-split, last_used}
use vaios.Heap.Malloc.{carved}
use vaios.Heap.Alloc.{Placed, v_malloc-Placed}
use vaios.Heap.Free.{backward, freed, release-Describes}
use vaios.Heap.Guard.{v_free-open}

abbrev cleared : ℕ → Block
cleared a = record { magic_number = 0; size = 0; status = mem_free; prev = none }

module _ (x : FreeIndex) (r : Arena) where
  open x use {State}

  -- A heap of whole alignment units that fits in RAM starts as one free block; one that runs past
  -- the end of RAM is refused.
  pub v_heap_memory_init-Describes :
      (is_ram : ℕ → Bool) (h : Heap State)
      → r.heap_size % 8 ≡ 0
      → header + min_payload ≤ r.heap_size
      → r.heap_size < x.size_limit
      → (v_heap_memory_init x r is_ram h ≡ none)
        ⊎ ((h' : Heap State) × (v_heap_memory_init x r is_ram h ≡ some h')
            × Describes x r h' (free_tile (r.heap_size - header) ∷ []))
  unfolding v_heap_memory_init file
  v_heap_memory_init-Describes is_ram h units room roomy =
      let blocks : ℕ → Block =
        update cleared r.start (header_of (free_tile (r.heap_size - header)) none) in
      let sized : sizes blocks r.start ≡ r.heap_size - header = rw (sizes, eqb_refl r.start) in
      elim (Bool-cases (is_ram (r.start + r.heap_size - 1))) [
        | inl e ↦ inr (
          record {
            blocks = blocks;
            heap_mem_head = some r.start;
            index = x.vheap_index_insert (sizes blocks) r.start x.vheap_index_reset;
            allocation_count = 0;
            allocation_size = 0;
            vheap_find_probes = h.vheap_find_probes;
          },
          rw e,
          record {
            roomy = roomy;
            ready = refl;
            tiled = (rw (eqb_refl r.start), omega arith);
            filed =
                subst (x.Files (x.vheap_index_insert (sizes blocks) r.start x.vheap_index_reset))
                  (ap (λ n. update (λ y. none) r.start (some n)) sized
                    ∙ free_at-free r.start (r.heap_size - header) [])
                  (x.insert-Files (sizes blocks) x.vheap_index_reset (λ y. none) r.start
                    x.reset-Files refl (omega (arith, sized)));
            counted = refl;
            summed = refl;
            proper = (refl, omega (arith, units), omega arith, tt);
          },
        )
        | inr e ↦ inl (rw e)
      ]

  module _ (inside : r.start + r.heap_size ≤ word_mod) where
    -- On a heap that is a sequence of tiles, to free the payload of a used tile makes the tile free
    -- and joins it with the free tiles next to it; headers, index and counters agree with the tiles
    -- afterwards.
    pub v_free-Describes :
        (pre : List Tile) (s : ℕ) (post : List Tile) (h : Heap State)
        → Describes x r h (pre ++ (used_tile s ∷ post))
        → Describes x r (v_free x r (some (end_of r.start pre + header)) h) (freed pre s post)
    v_free-Describes pre s post h d =
        let a = end_of r.start pre in
        let here =
          (Tiled-split h.blocks none r.start pre (used_tile s ∷ post) (r.start + r.heap_size)
            d.tiled).1 in
        let le = Tiled-le h.blocks (some a) (a + header + s) post (r.start + r.heap_size) here.1 in
        let back : sub32 (a + header) header ≡ a = omega (arith, le) in
        let opened =
          v_free-open x r (a + header) a r.start h d.ready back
            (rw (
              le→leb r.start a (end_of-le r.start pre),
              lt→ltb a (r.start + r.heap_size) (omega (arith, le)),
            ))
            (ap is_sane here.0) (ap (λ (k : Block). is_free k.status) here.0) in
        subst (λ h'. Describes x r h' (freed pre s post)) (sym opened)
          (release-Describes x r inside pre s post h d)

backward-last :
    (pre : List Tile) (size : ℕ) (rest : List Tile)
    → last_used true pre ≡ true
    → backward pre size rest ≡ pre ++ (free_tile size ∷ rest)
backward-last [] size rest e = refl
backward-last (t ∷ []) size rest e = rw e
backward-last (t ∷ u ∷ pre) size rest e = ap (λ l. t ∷ l) (backward-last (u ∷ pre) size rest e)

-- No free tile stands behind a free tile.
freed-alone :
    (pre : List Tile) (size : ℕ) (post : List Tile)
    → last_used true pre ≡ true
    → Proper false post
    → freed pre size post ≡ pre ++ (free_tile size ∷ post)
freed-alone pre size [] last p = backward-last pre size [] last
freed-alone pre size (t ∷ post) last p =
    let used : t.used ≡ true = p.0 in
    rw used (backward-last pre size (used_tile t.size ∷ post) last)

-- A free tile that is claimed and given back is the same free tile.
freed-carved :
    (need size : ℕ) (pre post : List Tile)
    → need ≤ size
    → Proper true (pre ++ (free_tile size ∷ post))
    → (s : ℕ) × (rest : List Tile) × (carved need size post ≡ used_tile s ∷ rest)
      × (freed pre s rest ≡ pre ++ (free_tile size ∷ post))
freed-carved need size pre post fits p =
    let (l, q) = Proper-split true pre (free_tile size ∷ post) p in
    let last : last_used true pre ≡ true = ground arith in
    elim (dec_lt size (need + header + min_payload)) [
      | yes small ↦ (
        size,
        post,
        rw (lt→leb size (need + header + min_payload) small),
        freed-alone pre size post last q.3,
      )
      | no large ↦ (
        need,
        free_tile (size - need - header) ∷ post,
        rw (le→leb (need + header + min_payload) size (omega arith)),
        ap (λ n. backward pre n post) (omega arith) ∙ backward-last pre size post last,
      )
    ]

module _ (x : FreeIndex) (r : Arena)
    (inside : r.start + r.heap_size + header + min_payload ≤ word_mod) where
  Placed-back :
      (need : ℕ) (ts : List Tile) (out : Pointer × Heap x.State)
      → Proper true ts
      → Placed x r need ts out
      → Describes x r (v_free x r out.0 out.1) ts
  Placed-back need ts out proper w =
      let (s, rest, shape, back) =
        freed-carved need w.size w.pre w.post w.fits (subst (Proper true) w.found proper) in
      let now = subst (λ us. Describes x r out.1 (w.pre ++ us)) shape w.now in
      subst (λ us. Describes x r (v_free x r out.0 out.1) us) (back ∙ sym w.found)
        (subst (λ p. Describes x r (v_free x r p out.1) (freed w.pre s rest)) (sym w.address)
          (v_free-Describes x r (omega (arith, inside)) w.pre s rest out.1 now))

  -- On a heap that is a sequence of tiles, in an arena away from the end of the address space, to
  -- free what a request for some bytes that the index looks up has just returned, NULL included,
  -- brings the same tiles back.
  pub v_free-v_malloc :
      (n : ℕ) (h : Heap x.State) (ts : List Tile)
      → Describes x r h ts
      → 0 < n
      → payload_need n < x.request_limit
      → let out = v_malloc x r n h in Describes x r (v_free x r out.0 out.1) ts
  unfolding v_free
  v_free-v_malloc n h ts d pos small = elim (v_malloc-Placed x r inside n h ts d pos small) [
    | inl w ↦ Placed-back (payload_need n) ts (v_malloc x r n h) d.proper w
    | inr (null, same) ↦
        subst (λ p. Describes x r (v_free x r p (v_malloc x r n h).1) ts) (sym null) same
  ]
