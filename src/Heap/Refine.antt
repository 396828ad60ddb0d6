-- ===== src/Heap/Refine.antt =====
-- The heap of kernel/memory/memory.c against the map of the blocks its callers hold.
use vaios.Base.{
  ℕ, ◌+◌, ◌-◌, ◌*◌, ◌%◌, ◌≡◌, ◌≤◌, ◌<◌, sym, ap, ap₂, subst, ◌∙◌, ◌⊎◌, inl, inr, Bool, List, [],
  ◌∷◌, ◌++◌, Option, none, some, update, arith, eqb_refl, dec_lt,
}
use vaios.Machine.{word_mod}
use vaios.Heap.Blocks.{Block, Pointer, header, min_payload, payload_need}
use vaios.Heap.Index.{FreeIndex}
use vaios.Heap.Facade.{
  Arena, Heap, sizes, v_free, v_malloc, v_heap_memory_init, v_get_heap_allocation_size,
}
use vaios.Heap.Tiles.{Tile, free_tile, used_tile, end_of, Tiled, Tiled-split, Tiled-end}
use vaios.Heap.View.{Describes, used-le}
use vaios.Heap.Malloc.{carved}
use vaios.Heap.Alloc.{Placed, v_malloc-Placed}
use vaios.Heap.Free.{freed}
use vaios.Heap.Calls.{v_heap_memory_init-Describes, v_free-Describes}
use vaios.Heap.Live.{
  live_at, live_at-absent, live_at-carved, live_at-freed, live_at-tile, live_at-lies, live_at-apart,
}
use vaios.Heap.FreeMap.{free_at-used}

-- The blocks in use, by the address of the header, with the sizes of their payloads.
abbrev pub Held : Type 0
Held = ℕ → Option ℕ

pub record Implements (x : FreeIndex) (r : Arena) (h : Heap x.State) (held : Held) : Type 0 where
  pub tiles : List Tile
  pub described : Describes x r h tiles
  pub live : live_at r.start tiles ≡ held

some-none : (n : ℕ) → some n ≡ none → ⊥
some-none n e = ground arith

some-header : (a b : ℕ) → some (a + header) ≡ some (b + header) → a ≡ b
some-header a b e = ground arith

module _ (x : FreeIndex) (r : Arena) where
  open x use {State}

  abbrev end : ℕ
  end = r.start + r.heap_size

  heap-absent : (h : Heap State) → some h ≡ none → ⊥
  heap-absent h e = ground arith

  heap-same : (h k : Heap State) → some h ≡ some k → h ≡ k
  heap-same h k e = ground arith

  -- The heap's states under callers that free only what they hold.
  pub data Reached : Heap State → Held → Type 0 where
    booted :
        (is_ram : ℕ → Bool) (h h' : Heap State)
        → v_heap_memory_init x r is_ram h ≡ some h'
        → Reached h' (λ a. none)
    allocated :
        (h : Heap State) (held : Held) (n a : ℕ)
        → Reached h held
        → 0 < n
        → payload_need n < x.request_limit
        → (v_malloc x r n h).0 ≡ some (a + header)
        → Reached (v_malloc x r n h).1 (update held a (some (sizes (v_malloc x r n h).1.blocks a)))
    exhausted :
        (h : Heap State) (held : Held) (n : ℕ)
        → Reached h held
        → 0 < n
        → payload_need n < x.request_limit
        → (v_malloc x r n h).0 ≡ none
        → Reached (v_malloc x r n h).1 held
    released :
        (h : Heap State) (held : Held) (a s : ℕ)
        → Reached h held
        → held a ≡ some s
        → Reached (v_free x r (some (a + header)) h) (update held a none)

  size_held :
      (h : Heap State) (ts : List Tile) (a s : ℕ)
      → Describes x r h ts
      → live_at r.start ts a ≡ some s
      → sizes h.blocks a ≡ s
  size_held h ts a s d e =
      let (pre, post, split, place) = live_at-tile r.start ts a s e in
      let t =
        (Tiled-split h.blocks none r.start pre (used_tile s ∷ post) end
          (subst (λ us. Tiled h.blocks none r.start us end) split d.tiled)).1 in
      ap (sizes h.blocks) place ∙ ap (λ (k : Block). k.size) t.0

  booted-Implements :
      (is_ram : ℕ → Bool) (h h' : Heap State)
      → r.heap_size % 8 ≡ 0
      → header + min_payload ≤ r.heap_size
      → r.heap_size < x.size_limit
      → v_heap_memory_init x r is_ram h ≡ some h'
      → Implements x r h' (λ a. none)
  unfolding live_at
  booted-Implements is_ram h h' units room roomy e =
      elim (v_heap_memory_init-Describes x r is_ram h units room roomy) [
        | inl failed ↦ absurd (heap-absent h' (sym e ∙ failed))
        | inr (out, done, d) ↦ record {
          tiles = free_tile (r.heap_size - header) ∷ [];
          described =
              subst (λ k. Describes x r k (free_tile (r.heap_size - header) ∷ []))
                (heap-same out h' (sym done ∙ e)) d;
          live = free_at-used r.start (r.heap_size - header) [];
        }
      ]

  module _ (inside : r.start + r.heap_size + header + min_payload ≤ word_mod) where
    Placed-live :
        (n : ℕ) (ts : List Tile) (out : Pointer × Heap State)
        → Placed x r (payload_need n) ts out
        → (a : ℕ) × (got : ℕ) × (out.0 ≡ some (a + header))
          × (payload_need n ≤ got)
          × (live_at r.start ts a ≡ none)
          × Implements x r out.1 (update (live_at r.start ts) a (some got))
    Placed-live n ts out w =
        let a = end_of r.start w.pre in
        let (got, enough, live) =
          live_at-carved r.start (payload_need n) w.size w.pre w.post w.fits in
        (
          a,
          got,
          w.address,
          enough,
          ap (λ us. live_at r.start us a) w.found ∙ live_at-absent r.start w.pre w.size w.post,
          record {
            tiles = w.pre ++ carved (payload_need n) w.size w.post;
            described = w.now;
            live = live ∙ ap (λ us. update (live_at r.start us) a (some got)) (sym w.found);
          },
        )

    -- On a heap that implements a map of held blocks, in an arena away from the end of the address
    -- space, a request for some bytes that the index looks up hands out a block that nobody holds,
    -- with a payload of at least the rounded request, or returns NULL; all other held blocks stay
    -- what they are.
    pub v_malloc-Implements :
        (n : ℕ) (h : Heap State) (held : Held)
        → Implements x r h held
        → 0 < n
        → payload_need n < x.request_limit
        → let out = v_malloc x r n h in
          ((a : ℕ) × (got : ℕ) × (out.0 ≡ some (a + header))
            × (payload_need n ≤ got)
            × (held a ≡ none)
            × Implements x r out.1 (update held a (some got)))
          ⊎ ((out.0 ≡ none) × Implements x r out.1 held)
    v_malloc-Implements n h held i pos small =
        elim (v_malloc-Placed x r inside n h i.tiles i.described pos small) [
          | inl w ↦
              let (a, got, address, enough, absent, now) =
                Placed-live n i.tiles (v_malloc x r n h) w in
              inl (
                a,
                got,
                address,
                enough,
                ap (λ f. f a) (sym i.live) ∙ absent,
                subst (λ f. Implements x r (v_malloc x r n h).1 (update f a (some got))) i.live now,
              )
          | inr (null, same) ↦
              inr (null, record { tiles = i.tiles; described = same; live = i.live })
        ]

    -- On a heap that implements a map of held blocks, in an arena away from the end of the address
    -- space, to free a held block takes it, and nothing else, from the held blocks.
    pub v_free-Implements :
        (h : Heap State) (held : Held) (a s : ℕ)
        → Implements x r h held
        → held a ≡ some s
        → Implements x r (v_free x r (some (a + header)) h) (update held a none)
    v_free-Implements h held a s i e =
        let (pre, post, split, place) =
          live_at-tile r.start i.tiles a s (ap (λ f. f a) i.live ∙ e) in
        let whole = pre ++ (used_tile s ∷ post) in
        record {
          tiles = freed pre s post;
          described =
              subst (λ m. Describes x r (v_free x r (some (m + header)) h) (freed pre s post))
                (sym place)
                (v_free-Describes x r (omega (arith, inside)) pre s post h
                  (subst (Describes x r h) split i.described));
          live =
              live_at-freed r.start pre s post
              ∙ ap₂ (λ us m. update (live_at r.start us) m none) (sym split) (sym place)
              ∙ ap (λ f. update f a none) i.live;
        }

    allocated-Implements :
        (h : Heap State) (held : Held) (n a : ℕ)
        → 0 < n
        → payload_need n < x.request_limit
        → Implements x r h held
        → (v_malloc x r n h).0 ≡ some (a + header)
        → Implements x r
            (v_malloc x r n h).1
            (update held a (some (sizes (v_malloc x r n h).1.blocks a)))
    allocated-Implements h held n a pos small i e =
        elim (v_malloc-Implements n h held i pos small) [
          | inl (b, got, address, enough, absent, now) ↦
              let out = (v_malloc x r n h).1 in
              let same : b ≡ a = some-header b a (sym address ∙ e) in
              let sized : sizes out.blocks b ≡ got =
                size_held out now.tiles b got now.described
                  (ap (λ f. f b) now.live ∙ rw (eqb_refl b)) in
              subst (λ k. Implements x r out (update held k (some (sizes out.blocks k)))) same
                (subst (λ k. Implements x r out (update held b (some k))) (sym sized) now)
          | inr (null, now) ↦ absurd (some-none (a + header) (sym e ∙ null))
        ]

    exhausted-Implements :
        (h : Heap State) (held : Held) (n : ℕ)
        → 0 < n
        → payload_need n < x.request_limit
        → Implements x r h held
        → (v_malloc x r n h).0 ≡ none
        → Implements x r (v_malloc x r n h).1 held
    exhausted-Implements h held n pos small i e = elim (v_malloc-Implements n h held i pos small) [
      | inl (b, got, address, enough, absent, now) ↦
          absurd (some-none (b + header) (sym address ∙ e))
      | inr (null, now) ↦ now
    ]

    module _ (units : r.heap_size % 8 ≡ 0) (room : header + min_payload ≤ r.heap_size)
        (roomy : r.heap_size < x.size_limit) where
      -- For any free-block index, and an arena of whole alignment units with room for a block, away
      -- from the end of the address space and smaller than the sizes that the index files: however
      -- callers that free only what they hold, and ask for no more than the index looks up, follow
      -- one another from the start of the heap, headers, index and counters agree with a sequence
      -- of tiles whose used ones are the blocks that the callers hold.
      pub Reached-Implements :
          (h : Heap State) (held : Held) → Reached h held → Implements x r h held
      Reached-Implements h held (booted is_ram h0 h' e) =
          booted-Implements is_ram h0 h' units room roomy e
      Reached-Implements h held (allocated h0 held0 n a reached pos small e) =
          allocated-Implements h0 held0 n a pos small (Reached-Implements h0 held0 reached) e
      Reached-Implements h held (exhausted h0 held0 n reached pos small e) =
          exhausted-Implements h0 held0 n pos small (Reached-Implements h0 held0 reached) e
      Reached-Implements h held (released h0 held0 a s reached e) =
          v_free-Implements h0 held0 a s (Reached-Implements h0 held0 reached) e

      -- For such an arena and such callers, every block that they hold lies in the arena, header
      -- included, and no two different ones overlap.
      pub Reached-apart :
          (h : Heap State) (held : Held) (a b s t : ℕ)
          → Reached h held
          → held a ≡ some s
          → held b ≡ some t
          → (r.start ≤ a)
            × (a + header + s ≤ end)
            × ((a ≡ b) ⊎ (a + header + s ≤ b) ⊎ (b + header + t ≤ a))
      Reached-apart h held a b s t reached ha hb =
          let i = Reached-Implements h held reached in
          let at_a = ap (λ f. f a) i.live ∙ ha in
          let at_b = ap (λ f. f b) i.live ∙ hb in
          let (low, last) = live_at-lies r.start i.tiles a s at_a in
          (
            low,
            omega (arith, last, Tiled-end h.blocks none r.start i.tiles end i.described.tiled),
            elim (dec_lt a b) [
              | yes lt ↦ inr (inl (live_at-apart r.start i.tiles a b s t at_a at_b lt).1)
              | no ge ↦ elim (dec_lt b a) [
                | yes gt ↦ inr (inr (live_at-apart r.start i.tiles b a t s at_b at_a gt).1)
                | no le ↦ inl (omega arith)
              ]
            ],
          )

      -- For an arena of whole alignment units with room for a block, away from the end of the
      -- address space and smaller than the sizes that the index files, and callers that free only
      -- what they hold and ask for no more than the index looks up, what is in use, headers
      -- included, never exceeds HEAP_SIZE, and the count of it does not wrap round.
      pub Reached-size :
          (h : Heap State) (held : Held)
          → Reached h held
          → (v_get_heap_allocation_size x r h ≡ h.allocation_size + header * h.allocation_count)
            × (v_get_heap_allocation_size x r h ≤ r.heap_size)
      unfolding v_get_heap_allocation_size
      Reached-size h held reached =
          let i = Reached-Implements h held reached in
          let d = i.described in
          let le = used-le r.start i.tiles in
          let e = Tiled-end h.blocks none r.start i.tiles end d.tiled in
          (omega (arith, d.counted, d.summed, le, e), omega (arith, d.counted, d.summed, le, e))
