-- ===== src/Heap/Release.antt =====
-- `v_free` of kernel/memory/memory.c on a heap that is a sequence of tiles.
use vaios.Base.{
  ℕ, ◌+◌, ◌%◌, ◌≡◌, ◌≤◌, ◌<◌, refl, sym, ap, subst, ◌∙◌, Bool, true, false, if◌then◌else◌, List, [],
  ◌∷◌, ◌++◌, none, some, update, arith, le→leb, lt→ltb, ge→ltb,
}
use vaios.Machine.{word_mod, add32}
use vaios.Heap.Blocks.{Block, mem_free, header, min_payload}
use vaios.Heap.Index.{FreeIndex}
use vaios.Heap.Facade.{
  Arena, Heap, sizes, set_size, set_status, fixup_next_prev, in_heap, unfile, file, absorb,
  coalesce_forward, mark_free,
}
use vaios.Heap.Tiles.{
  Tile, free_tile, used_tile, end_of, last_block, Tiled, Tiled-le, Tiled-split, Tiled-end, free_at,
  end_of-le,
}
use vaios.Heap.Surgery.{rebuild-Tiled, status-Written, absorb-Written}
use vaios.Heap.FreeMap.{
  free_at-put, free_at-absent, free_at-cut, free_at-take_second, free_at-there_second,
}
use vaios.Heap.View.{
  Describes, Proper, Proper-split, Proper-join, last_used, used_count, used_bytes,
  used_count-append, used_bytes-append, used-le,
}

-- The size of the freed block once it has taken up a free tile behind it, and the tiles after.
abbrev pub forward_size : ℕ → List Tile → ℕ
forward_size s [] = s
forward_size s (t ∷ ts) = if t.used then s else s + header + t.size

abbrev pub forward_rest : List Tile → List Tile
forward_rest [] = []
forward_rest (t ∷ ts) = if t.used then t ∷ ts else ts

module _ (x : FreeIndex) (r : Arena) where
  open x use {State, Files}

  abbrev end : ℕ
  end = r.start + r.heap_size

  -- A free tile behind `pre` that the index does not file yet; with `u` for whether a free tile may
  -- follow.
  pub record Held (u : Bool) (h : Heap State) (pre : List Tile) (size : ℕ) (rest : List Tile)
      : Type 0 where
    pub inside : end ≤ word_mod
    pub roomy : r.heap_size < x.size_limit
    pub ready : h.heap_mem_head ≡ some r.start
    pub tiled : Tiled h.blocks none r.start (pre ++ (free_tile size ∷ rest)) end
    pub filed : Files h.index (free_at r.start (pre ++ (used_tile size ∷ rest)))
    pub counted : h.allocation_count ≡ used_count pre + used_count rest
    pub summed : h.allocation_size ≡ used_bytes pre + used_bytes rest
    pub before : Proper true pre
    pub multiple : size % 8 ≡ 0
    pub least : min_payload ≤ size
    pub behind : Proper u rest

  -- The header of the held tile.
  pub Held-here :
      {u : Bool} {h : Heap State} {pre : List Tile} {size : ℕ} {rest : List Tile}
      → Held u h pre size rest
      → Tiled h.blocks
          (last_block none r.start pre)
          (end_of r.start pre)
          (free_tile size ∷ rest)
          end
  Held-here {u} {h} {pre} {size} {rest} d =
      (Tiled-split h.blocks none r.start pre (free_tile size ∷ rest) end d.tiled).1

  -- Filing it ends the operation.
  pub file-Describes :
      {h : Heap State} {pre : List Tile} {size : ℕ} {rest : List Tile}
      → Held false h pre size rest
      → last_used true pre ≡ true
      → Describes x r (file x r (end_of r.start pre) h) (pre ++ (free_tile size ∷ rest))
  unfolding file
  file-Describes {h} {pre} {size} {rest} d last =
      let a = end_of r.start pre in
      let sized : sizes h.blocks a ≡ size = ap (λ (k : Block). k.size) (Held-here d).0 in
      record {
        roomy = d.roomy;
        ready = d.ready;
        tiled = d.tiled;
        filed =
            subst (Files (x.vheap_index_insert (sizes h.blocks) a h.index))
              (ap (λ n. update (free_at r.start (pre ++ (used_tile size ∷ rest))) a (some n)) sized
                ∙ free_at-put r.start pre size rest)
              (x.insert-Files (sizes h.blocks) h.index
                (free_at r.start (pre ++ (used_tile size ∷ rest))) a d.filed
                (free_at-absent r.start pre size rest)
                (omega (
                  arith,
                  sized,
                  d.roomy,
                  end_of-le r.start pre,
                  Tiled-le h.blocks (some a) (a + header + size) rest end (Held-here d).1,
                )));
        counted = omega (arith, d.counted, used_count-append pre (free_tile size ∷ rest));
        summed = omega (arith, d.summed, used_bytes-append pre (free_tile size ∷ rest));
        proper =
            Proper-join true pre (free_tile size ∷ rest) d.before
              (rw last, d.multiple, d.least, d.behind);
      }

  -- The status and the counters of a block that is given back.
  pub mark_free-Held :
      (h : Heap State) (pre : List Tile) (s : ℕ) (post : List Tile)
      → r.start + r.heap_size ≤ word_mod
      → Describes x r h (pre ++ (used_tile s ∷ post))
      → Held true (mark_free x r (end_of r.start pre) h) pre s post
  unfolding mark_free
  mark_free-Held h pre s post inside d =
      let a = end_of r.start pre in
      let whole = pre ++ (used_tile s ∷ post) in
      let here = (Tiled-split h.blocks none r.start pre (used_tile s ∷ post) end d.tiled).1 in
      let size-here : sizes h.blocks a ≡ s = ap (λ (k : Block). k.size) here.0 in
      let w = status-Written h.blocks (last_block none r.start pre) a s true false post end here in
      let le = used-le r.start whole in
      let e = Tiled-end h.blocks none r.start whole end d.tiled in
      let (l, p) = Proper-split true pre (used_tile s ∷ post) d.proper in
      let c = used_count-append pre (used_tile s ∷ post) in
      let z = used_bytes-append pre (used_tile s ∷ post) in
      record {
        inside = inside;
        roomy = d.roomy;
        ready = d.ready;
        tiled =
            rebuild-Tiled h.blocks (set_status a mem_free h.blocks) r.start pre (used_tile s ∷ post)
              (free_tile s ∷ post) end d.tiled w;
        filed = d.filed;
        counted = omega (arith, d.counted, c);
        summed = omega (arith, d.summed, size-here, z);
        before = l;
        multiple = p.1;
        least = p.2;
        behind = p.3;
      }

  Held-closed :
      {h : Heap State} {pre : List Tile} {s : ℕ} {rest : List Tile}
      → Held true h pre s rest
      → Proper false rest
      → Held false h pre s rest
  Held-closed d p = record {
    inside = d.inside;
    roomy = d.roomy;
    ready = d.ready;
    tiled = d.tiled;
    filed = d.filed;
    counted = d.counted;
    summed = d.summed;
    before = d.before;
    multiple = d.multiple;
    least = d.least;
    behind = p;
  }

  module _ (h : Heap State) (pre : List Tile) (s : ℕ) where
    abbrev a : ℕ
    a = end_of r.start pre

    abbrev after : ℕ
    after = a + header + s

    -- At the end of the arena, and before a block in use, nothing is taken up.
    forward-end : Held true h pre s [] → coalesce_forward x r a h ≡ h
    unfolding coalesce_forward
    forward-end d =
        let here = Held-here d in
        rw (
          here.0,
          d.ready,
          ge→ltb after end (omega (arith, here.1)),
          le→leb r.start after (omega (arith, end_of-le r.start pre)),
        )

    module _ (n : ℕ) (u : Bool) (ts : List Tile)
        (d : Held true h pre s (record { size = n; used = u } ∷ ts)) where
      abbrev t : Tile
      t = record { size = n; used = u }

      here : Tiled h.blocks (last_block none r.start pre) a (free_tile s ∷ t ∷ ts) end
      here = Held-here d

      next_in : in_heap r h.heap_mem_head after ≡ true
      next_in =
          let le = Tiled-le h.blocks (some after) (after + header + n) ts end here.1.1 in
          rw (
            d.ready,
            le→leb r.start after (omega (arith, end_of-le r.start pre)),
            lt→ltb after end (omega (arith, le)),
          )

      forward-used : u ≡ true → coalesce_forward x r a h ≡ h
      unfolding coalesce_forward
      forward-used e = rw (here.0, next_in, here.1.0, e)

      forward-free : u ≡ false → coalesce_forward x r a h ≡ absorb x r a after (unfile x r after h)
      unfolding coalesce_forward
      forward-free e = rw (here.0, next_in, here.1.0, e)

      abbrev grown : ℕ → Block
      grown = fixup_next_prev r (some r.start) a (set_size a (s + header + n) h.blocks)

      absorb-grown :
          absorb x r a after (unfile x r after h) ≡ record (unfile x r after h) { blocks = grown }
      unfolding absorb unfile
      absorb-grown =
          let size-here : sizes h.blocks a ≡ s = ap (λ (k : Block). k.size) here.0 in
          let size-next : sizes h.blocks after ≡ n = ap (λ (k : Block). k.size) here.1.0 in
          let le = Tiled-le h.blocks (some after) (after + header + n) ts end here.1.1 in
          let whole : add32 s (header + n) ≡ s + header + n = omega (arith, le, d.inside) in
          rw (d.ready, size-here, size-next, whole)

    absorbed-Held :
        (n : ℕ) (ts : List Tile)
        → (d : Held true h pre s (free_tile n ∷ ts))
        → Held false
            (record (unfile x r after h) { blocks = grown n false ts d })
            pre
            (s + header + n)
            ts
    unfolding unfile
    absorbed-Held n ts d = record {
      inside = d.inside;
      roomy = d.roomy;
      ready = d.ready;
      tiled =
          rebuild-Tiled h.blocks (grown n false ts d) r.start pre (free_tile s ∷ free_tile n ∷ ts)
            (free_tile (s + header + n) ∷ ts) end d.tiled
            (absorb-Written r r.start h.blocks (last_block none r.start pre) a s n false ts end
              (here n false ts d) (end_of-le r.start pre) refl);
      filed =
          let whole = free_at r.start (pre ++ (used_tile s ∷ free_tile n ∷ ts)) in
          let sized : sizes h.blocks after ≡ n =
            ap (λ (k : Block). k.size) (here n false ts d).1.0 in
          subst (Files (x.vheap_index_remove (sizes h.blocks) after h.index))
            (free_at-take_second r.start pre (used_tile s) n ts
              ∙ sym (free_at-cut r.start pre s n ts))
            (x.remove-Files (sizes h.blocks) h.index whole after d.filed
              (free_at-there_second r.start pre (used_tile s) n ts ∙ ap some (sym sized)));
      counted = omega (arith, d.counted);
      summed = omega (arith, d.summed);
      before = d.before;
      multiple = omega (arith, d.multiple, d.behind.1);
      least = omega (arith, d.least);
      behind = d.behind.3;
    }

    forward_tile :
        (n : ℕ) (u : Bool) (ts : List Tile)
        → Held true h pre s (record { size = n; used = u } ∷ ts)
        → Held false
            (coalesce_forward x r a h)
            pre
            (forward_size s (record { size = n; used = u } ∷ ts))
            (forward_rest (record { size = n; used = u } ∷ ts))
    forward_tile n true ts d =
        rw (forward-used n true ts d refl)
          (Held-closed d (refl, d.behind.1, d.behind.2, d.behind.3))
    forward_tile n false ts d =
        rw (forward-free n false ts d refl, absorb-grown n false ts d) (absorbed-Held n ts d)

  -- A free tile behind the freed one is taken up.
  pub coalesce_forward-Held :
      (h : Heap State) (pre : List Tile) (s : ℕ) (post : List Tile)
      → Held true h pre s post
      → Held false
          (coalesce_forward x r (end_of r.start pre) h)
          pre
          (forward_size s post)
          (forward_rest post)
  coalesce_forward-Held h pre s [] d = rw (forward-end h pre s d) (Held-closed d tt)
  coalesce_forward-Held h pre s (t ∷ ts) d = forward_tile h pre s t.size t.used ts d
