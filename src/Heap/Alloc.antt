-- ===== src/Heap/Alloc.antt =====
-- The promise of `v_malloc` (kernel/memory/memory.c) to its callers.
use vaios.Base.{
  ℕ, ◌+◌, ◌/◌, ◌≡◌, ◌≤◌, ◌<◌, refl, sym, ap, subst, ◌⊎◌, inl, inr, List, ◌∷◌, ◌++◌, none, some,
  arith, ne→eqb,
}
use vaios.Machine.{word_mod, add32}
use vaios.Heap.Blocks.{Pointer, header, min_payload, payload_need}
use vaios.Heap.Index.{FreeIndex}
use vaios.Heap.Facade.{Arena, Heap, sizes, claim, v_malloc}
use vaios.Heap.Tiles.{Tile, free_tile, end_of, free_at-tile, free_at}
use vaios.Heap.View.{Describes}
use vaios.Heap.Malloc.{carved, payload_need-multiple, sizes-right, claim-Describes}

-- A free tile gave `need` bytes, behind its header.
pub record Placed (x : FreeIndex) (r : Arena) (need : ℕ) (ts : List Tile)
    (out : Pointer × Heap x.State) : Type 0 where
  pub pre : List Tile
  pub size : ℕ
  pub post : List Tile
  pub found : ts ≡ pre ++ (free_tile size ∷ post)
  pub fits : need ≤ size
  pub address : out.0 ≡ some (end_of r.start pre + header)
  pub now : Describes x r out.1 (pre ++ carved need size post)

-- For a request that does not wrap round, the payload is as large as was asked for.
pub payload_need-ge : (n : ℕ) → n + 7 < word_mod → n ≤ payload_need n
unfolding payload_need
payload_need-ge n h = ground arith

payload_need-wraps : (n : ℕ) → word_mod ≤ n + 7 → n < word_mod → payload_need n ≡ min_payload
unfolding payload_need
payload_need-wraps n huge word = let wrapped : add32 n 7 / 8 ≡ 0 = omega arith in rw wrapped

payload_need_one : payload_need 1 ≡ min_payload
unfolding payload_need
payload_need_one = refl

module _ (x : FreeIndex) (r : Arena)
    (inside : r.start + r.heap_size + header + min_payload ≤ word_mod) where
  probed : ℕ → Heap x.State → Heap x.State
  probed n h = record h {
    vheap_find_probes = (x.vheap_index_find (sizes h.blocks) (payload_need n) h.index).1;
  }

  probed-Describes :
      (n : ℕ) (h : Heap x.State) (ts : List Tile)
      → Describes x r h ts
      → Describes x r (probed n h) ts
  unfolding probed
  probed-Describes n h ts d = record {
    roomy = d.roomy;
    ready = d.ready;
    tiled = d.tiled;
    filed = d.filed;
    counted = d.counted;
    summed = d.summed;
    proper = d.proper;
  }

  served :
      (n : ℕ) (h : Heap x.State) (ts : List Tile)
      → Describes x r h ts
      → payload_need n < x.request_limit
      → (found : Pointer) → (x.vheap_index_find (sizes h.blocks) (payload_need n) h.index).0 ≡ found
      → let out = claim x r (payload_need n) found (probed n h) in
        Placed x r (payload_need n) ts out ⊎ ((out.0 ≡ none) × Describes x r out.1 ts)
  unfolding claim
  served n h ts d small none e = inr (refl, probed-Describes n h ts d)
  served n h ts d small (some a) e =
      let (there, fits) =
        x.find-Files (sizes h.blocks) h.index (free_at r.start ts) (payload_need n) a d.filed
          (λ y s. sizes-right h.blocks r.start ts (r.start + r.heap_size) y s d.tiled)
          (payload_need-multiple n).0 small e in
      let (pre, post, split, place) = free_at-tile r.start ts a (sizes h.blocks a) there in
      let size = sizes h.blocks a in
      let (multiple, least) = payload_need-multiple n in
      inl (record {
        pre = pre;
        size = size;
        post = post;
        found = split;
        fits = fits;
        address = ap (λ k. some (k + header)) place;
        now =
            subst
              (λ k.
                Describes x r (claim x r (payload_need n) (some k) (probed n h)).1
                  (pre ++ carved (payload_need n) size post))
              (sym place)
              (claim-Describes x r inside (probed n h) (payload_need n) size pre post
                (subst (Describes x r (probed n h)) split (probed-Describes n h ts d)) fits multiple
                least);
      })

  v_malloc-claim :
      (n : ℕ) (h : Heap x.State) (ts : List Tile)
      → Describes x r h ts
      → 0 < n
      → v_malloc x r n h
        ≡ claim x r
            (payload_need n)
            (x.vheap_index_find (sizes h.blocks) (payload_need n) h.index).0
            (probed n h)
  unfolding v_malloc probed
  v_malloc-claim n h ts d pos = rw (d.ready, ne→eqb n 0 (omega arith))

  pub v_malloc-found :
      (n a : ℕ) (h : Heap x.State) (ts : List Tile)
      → Describes x r h ts
      → 0 < n
      → (x.vheap_index_find (sizes h.blocks) (payload_need n) h.index).0 ≡ some a
      → (v_malloc x r n h).0 ≡ some (a + header)
  unfolding claim
  v_malloc-found n a h ts d pos found = rw (v_malloc-claim n h ts d pos, found)

  -- On a heap that is a sequence of tiles, a request for some bytes within the limit of the index either takes a free tile that is
  -- large enough and leaves what it does not need as a free tile, or returns NULL and changes no
  -- tile; headers, index and counters agree with the tiles afterwards.
  pub v_malloc-Placed :
      (n : ℕ) (h : Heap x.State) (ts : List Tile)
      → Describes x r h ts
      → 0 < n
      → payload_need n < x.request_limit
      → Placed x r (payload_need n) ts (v_malloc x r n h)
        ⊎ (((v_malloc x r n h).0 ≡ none) × Describes x r (v_malloc x r n h).1 ts)
  v_malloc-Placed n h ts d pos small =
      rw (v_malloc-claim n h ts d pos) (
        served n h ts d small (x.vheap_index_find (sizes h.blocks) (payload_need n) h.index).0 refl)

  -- On an initialised heap in an arena away from the end of the address space, a request of a word
  -- that is within 7 of its end does what a request for one byte does.
  v_malloc-wraps :
      (n head : ℕ) (h : Heap x.State)
      → h.heap_mem_head ≡ some head
      → word_mod ≤ n + 7
      → n < word_mod
      → v_malloc x r n h ≡ v_malloc x r 1 h
  unfolding v_malloc
  v_malloc-wraps n head h ready huge word =
      rw (ready, ne→eqb n 0 (omega arith), payload_need-wraps n huge word, payload_need_one)
