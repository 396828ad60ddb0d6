-- ===== src/Heap/Malloc.antt =====
-- `v_malloc` of kernel/memory/memory.c on a heap that is a sequence of tiles.
use vaios.Base.{
  ℕ, ◌+◌, ◌-◌, ◌%◌, ◌≡◌, ◌≤◌, ◌<◌, refl, sym, ap, subst, ◌∙◌, true, false, leb, if◌then◌else◌, List,
  ◌∷◌, ◌++◌, none, some, update, arith, dec_lt, le→leb, lt→leb,
}
use vaios.Machine.{word_mod, add32}
use vaios.Heap.Blocks.{Block, Pointer, mem_aloc, header, min_payload, payload_need}
use vaios.Heap.Index.{FreeIndex}
use vaios.Heap.Facade.{
  Arena, Heap, sizes, set_size, set_status, fixup_next_prev, unfile, file, split_residual,
  mark_used, claim,
}
use vaios.Heap.Tiles.{
  Tile, free_tile, used_tile, header_of, end_of, last_block, Tiled, Tiled-le, Tiled-split, free_at,
  free_at-tile, end_of-le, Tiled-end,
}
use vaios.Heap.Surgery.{rebuild-Tiled, status-Written, split-Written}
use vaios.Heap.FreeMap.{
  free_at-take, free_at-there, free_at-cut, free_at-put_second, free_at-absent_second,
}
use vaios.Heap.View.{
  Describes, Proper-split, Proper-join, Proper-after, used_count, used_bytes, used_count-append,
  used_bytes-append, used-le,
}

-- What a request makes of a free tile of size `s`.
abbrev pub carved : ℕ → ℕ → List Tile → List Tile
carved need s post =
    if leb (need + header + min_payload) s
    then used_tile need ∷ free_tile (s - need - header) ∷ post
    else used_tile s ∷ post

pub payload_need-multiple : (n : ℕ) → (payload_need n % 8 ≡ 0) × (min_payload ≤ payload_need n)
unfolding payload_need
payload_need-multiple n = (ground arith, ground arith)

-- The index files what the map of the free tiles says, so the sizes that it reads are right.
pub sizes-right :
    (b : ℕ → Block) (a : ℕ) (ts : List Tile) (e y s : ℕ)
    → Tiled b none a ts e
    → free_at a ts y ≡ some s
    → sizes b y ≡ s
sizes-right b a ts e y s h f =
    let (pre, post, split, place) = free_at-tile a ts y s f in
    let t =
      (Tiled-split b none a pre (free_tile s ∷ post) e
        (subst (λ us. Tiled b none a us e) split h)).1 in
    ap (sizes b) place ∙ ap (λ (c : Block). c.size) t.0

module _ (x : FreeIndex) (r : Arena)
    (inside : r.start + r.heap_size + header + min_payload ≤ word_mod) where
  open x use {State, Files}

  abbrev end : ℕ
  end = r.start + r.heap_size

  -- Counters of tiles that fill the arena do not wrap round.
  counters-lt :
      (b : ℕ → Block) (ts : List Tile)
      → Tiled b none r.start ts end
      → (used_count ts < word_mod) × (used_bytes ts < word_mod)
  counters-lt b ts h =
      let le = used-le r.start ts in
      let e = Tiled-end b none r.start ts end h in (omega (arith), omega (arith))

  module _ (h : Heap State) (need s : ℕ) (pre post : List Tile)
      (d : Describes x r h (pre ++ (free_tile s ∷ post))) (fits : need ≤ s)
      (multiple : need % 8 ≡ 0) (least : min_payload ≤ need) where
    abbrev a : ℕ
    a = end_of r.start pre

    abbrev before : Pointer
    before = last_block none r.start pre

    abbrev whole : List Tile
    whole = pre ++ (free_tile s ∷ post)

    here : Tiled h.blocks before a (free_tile s ∷ post) end
    here = (Tiled-split h.blocks none r.start pre (free_tile s ∷ post) end d.tiled).1

    size-here : sizes h.blocks a ≡ s
    size-here = ap (λ (c : Block). c.size) here.0

    bounded : a + header + s ≤ end
    bounded = Tiled-le h.blocks (some a) (a + header + s) post end here.1

    unfiled : Files (unfile x r a h).index (free_at r.start (pre ++ (used_tile s ∷ post)))
    unfolding unfile
    unfiled = subst (Files (unfile x r a h).index) (free_at-take r.start pre s post) (
        x.remove-Files (sizes h.blocks) h.index (free_at r.start whole) a d.filed
          (free_at-there r.start pre s post ∙ ap some (sym size-here)))

    -- The whole block is handed out.
    kept-Describes :
        s < need + header + min_payload
        → Describes x r (mark_used x r a (unfile x r a h)) (pre ++ (used_tile s ∷ post))
    unfolding mark_used unfile
    kept-Describes small =
        let whole_used = pre ++ (used_tile s ∷ post) in
        let b' = set_status a mem_aloc h.blocks in
        let t : Tiled b' none r.start whole_used end =
          rebuild-Tiled h.blocks b' r.start pre (free_tile s ∷ post) (used_tile s ∷ post) end
            d.tiled (status-Written h.blocks before a s false true post end here) in
        let (c, z) = counters-lt b' whole_used t in
        let (l, p) = Proper-split true pre (free_tile s ∷ post) d.proper in
        record {
          roomy = d.roomy;
          ready = d.ready;
          tiled = t;
          filed = unfiled;
          counted = omega (
            arith,
            c,
            d.counted,
            used_count-append pre (free_tile s ∷ post),
            used_count-append pre (used_tile s ∷ post),
          );
          summed = omega (
            arith,
            z,
            d.summed,
            size-here,
            used_bytes-append pre (free_tile s ∷ post),
            used_bytes-append pre (used_tile s ∷ post),
          );
          proper =
              Proper-join true pre (used_tile s ∷ post) l
                (ground arith, p.1, p.2, Proper-after true post p.3);
        }

    kept-shut :
        s < need + header + min_payload
        → split_residual x r a need (unfile x r a h) ≡ unfile x r a h
    unfolding split_residual unfile
    kept-shut small = rw (
      size-here,
      lt→leb s (add32 (add32 need header) min_payload)
          (omega (arith, bounded, end_of-le r.start pre)),
    )

    abbrev rest : ℕ
    rest = s - need - header

    abbrev res : ℕ
    res = a + header + need

    abbrev cut_blocks : ℕ → Block
    cut_blocks = set_size a need (
        fixup_next_prev r (some r.start) res
          (update h.blocks res (header_of (free_tile rest) (some a))))

    cut-opened :
        need + header + min_payload ≤ s
        → split_residual x r a need (unfile x r a h)
          ≡ file x r res (record (unfile x r a h) { blocks = cut_blocks })
    unfolding split_residual unfile
    cut-opened large = rw (
      size-here,
      le→leb (add32 (add32 need header) min_payload) s
          (omega (arith, bounded, end_of-le r.start pre)),
      d.ready,
    )

    abbrev split_tiles : List Tile
    split_tiles = pre ++ (used_tile need ∷ free_tile rest ∷ post)

    filed-cut :
        need + header + min_payload ≤ s
        → sizes cut_blocks res ≡ rest
        → Files
            (file x r res (record (unfile x r a h) { blocks = cut_blocks })).index
            (free_at r.start split_tiles)
    unfolding file
    filed-cut large sized =
        let held = free_at r.start (pre ++ (used_tile need ∷ used_tile rest ∷ post)) in
        let whole_held : free_at r.start (pre ++ (used_tile s ∷ post)) ≡ held =
          subst (λ n. free_at r.start (pre ++ (used_tile n ∷ post)) ≡ held) (omega arith)
            (free_at-cut r.start pre need rest post) in
        subst (Files (file x r res (record (unfile x r a h) { blocks = cut_blocks })).index)
          (ap (λ n. update held res (some n)) sized
            ∙ free_at-put_second r.start pre (used_tile need) rest post)
          (x.insert-Files (sizes cut_blocks) (unfile x r a h).index held res
            (subst (Files (unfile x r a h).index) whole_held unfiled)
            (free_at-absent_second r.start pre (used_tile need) rest post)
            (omega (arith, sized, bounded, d.roomy, end_of-le r.start pre)))

    cut-Describes :
        need + header + min_payload ≤ s
        → Describes x r
            (mark_used x r a (file x r res (record (unfile x r a h) { blocks = cut_blocks })))
            split_tiles
    unfolding mark_used file unfile
    cut-Describes large =
        let b' = set_status a mem_aloc cut_blocks in
        let w =
          split-Written r r.start h.blocks before a s need post end here (omega arith)
            (end_of-le r.start pre) refl in
        let w' =
          status-Written cut_blocks before a need false true (free_tile rest ∷ post) end w.tiled in
        let t : Tiled b' none r.start split_tiles end =
          rebuild-Tiled h.blocks b' r.start pre (free_tile s ∷ post)
            (used_tile need ∷ free_tile rest ∷ post) end d.tiled
            (record { tiled = w'.tiled; below = λ y lt. w'.below y lt ∙ w.below y lt }) in
        let (c, z) = counters-lt b' split_tiles t in
        let (l, p) = Proper-split true pre (free_tile s ∷ post) d.proper in
        let sized : sizes cut_blocks a ≡ need = ap (λ (k : Block). k.size) w.tiled.0 in
        record {
          roomy = d.roomy;
          ready = d.ready;
          tiled = t;
          filed = filed-cut large (ap (λ (k : Block). k.size) w.tiled.1.0);
          counted = omega (
            arith,
            c,
            d.counted,
            used_count-append pre (free_tile s ∷ post),
            used_count-append pre (used_tile need ∷ free_tile rest ∷ post),
          );
          summed = omega (
            arith,
            z,
            d.summed,
            sized,
            used_bytes-append pre (free_tile s ∷ post),
            used_bytes-append pre (used_tile need ∷ free_tile rest ∷ post),
          );
          proper =
              Proper-join true pre (used_tile need ∷ free_tile rest ∷ post) l
                (ground arith, multiple, least, (refl, omega (arith, p.1), omega arith, p.3));
        }

    -- A free block that is large enough is handed out, with the residual of the split left free.
    pub claim-Describes : Describes x r (claim x r need (some a) h).1 (pre ++ carved need s post)
    unfolding claim
    claim-Describes = elim (dec_lt s (need + header + min_payload)) [
      | yes small ↦
          rw (lt→leb s (need + header + min_payload) small, kept-shut small) (kept-Describes small)
      | no large ↦
          rw (le→leb (need + header + min_payload) s (omega arith), cut-opened (omega arith))
            (cut-Describes (omega arith))
    ]
