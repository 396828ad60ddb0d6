-- ===== src/Heap/Free.antt =====
-- The promise of `v_free` (kernel/memory/memory.c) to its callers.
use vaios.Base.{
  ℕ, ◌+◌, ◌≡◌, ◌≤◌, refl, sym, ap, subst, ◌∙◌, ◌⊎◌, inl, inr, Bool, true, false, if◌then◌else◌,
  List, [], ◌∷◌, ◌++◌, none, some, arith,
}
use vaios.Machine.{word_mod, add32}
use vaios.Heap.Blocks.{Block, Pointer, header}
use vaios.Heap.Index.{FreeIndex}
use vaios.Heap.Facade.{
  Arena, Heap, sizes, set_size, fixup_next_prev, unfile, file, absorb, coalesce_forward,
  coalesce_with, mark_free, release,
}
use vaios.Heap.Tiles.{
  Tiled-le, Tile, free_tile, used_tile, end_of, end_of-append, last_block, last_block-snoc, Tiled,
  Tiled-split, free_at, end_of-le,
}
use vaios.Heap.Surgery.{rebuild-Tiled, absorb-Written}
use vaios.Heap.FreeMap.{free_at-take, free_at-cut, free_at-there, snoc-append}
use vaios.Heap.View.{Describes, Proper-split, last_used, used_count-append, used_bytes-append}
use vaios.Heap.Release.{
  forward_size, forward_rest, Held, Held-here, file-Describes, mark_free-Held,
  coalesce_forward-Held,
}

-- The tiles once the freed block of `size` behind `pre` has joined a free tile before it.
abbrev pub backward : List Tile → ℕ → List Tile → List Tile
backward [] size rest = free_tile size ∷ rest
backward (t ∷ []) size rest =
    if t.used then t ∷ free_tile size ∷ rest else free_tile (t.size + header + size) ∷ rest
backward (t ∷ u ∷ pre) size rest = t ∷ backward (u ∷ pre) size rest

-- The tiles after a used tile of size `s` between `pre` and `post` is given back.
abbrev pub freed : List Tile → ℕ → List Tile → List Tile
freed pre s post = backward pre (forward_size s post) (forward_rest post)

snoc-view :
    (pre : List Tile)
    → (pre ≡ [])
      ⊎ ((ini : List Tile) × (m : ℕ) × (u : Bool) × (pre
            ≡ ini ++ (record { size = m; used = u } ∷ [])))
snoc-view [] = inl refl
snoc-view (t ∷ pre) = elim (snoc-view pre) [
  | inl e ↦ inr ([], t.size, t.used, ap (λ l. t ∷ l) e)
  | inr (ini, m, u, e) ↦ inr (t ∷ ini, m, u, ap (λ l. t ∷ l) e)
]

backward-used :
    (ini : List Tile) (m size : ℕ) (rest : List Tile)
    → backward (ini ++ (used_tile m ∷ [])) size rest
      ≡ (ini ++ (used_tile m ∷ [])) ++ (free_tile size ∷ rest)
backward-used [] m size rest = refl
backward-used (t ∷ []) m size rest = refl
backward-used (t ∷ u ∷ ini) m size rest = ap (λ l. t ∷ l) (backward-used (u ∷ ini) m size rest)

backward-free :
    (ini : List Tile) (m size : ℕ) (rest : List Tile)
    → backward (ini ++ (free_tile m ∷ [])) size rest ≡ ini ++ (free_tile (m + header + size) ∷ rest)
backward-free [] m size rest = refl
backward-free (t ∷ []) m size rest = refl
backward-free (t ∷ u ∷ ini) m size rest = ap (λ l. t ∷ l) (backward-free (u ∷ ini) m size rest)

last_used-snoc : (v : Bool) (ini : List Tile) (t : Tile) → last_used v (ini ++ (t ∷ [])) ≡ t.used
last_used-snoc v [] t = refl
last_used-snoc v (u ∷ ini) t = last_used-snoc u.used ini t

module _ (x : FreeIndex) (r : Arena) where
  open x use {State, Files}

  abbrev end : ℕ
  end = r.start + r.heap_size

  filed_merged : Pointer → ℕ → Heap State → Heap State
  filed_merged prev blk h = let (merged, h') = coalesce_with x r prev blk h in file x r merged h'

  module _ (h : Heap State) (ini : List Tile) (m : ℕ) (u : Bool) (size : ℕ) (rest : List Tile) where
    abbrev t : Tile
    t = record { size = m; used = u }

    abbrev pre : List Tile
    pre = ini ++ (t ∷ [])

    abbrev before : ℕ
    before = end_of r.start ini

    module _ (d : Held x r false h pre size rest) where
      tiles : Tiled h.blocks none r.start (ini ++ (t ∷ free_tile size ∷ rest)) end
      tiles =
          subst (λ l. Tiled h.blocks none r.start l end) (snoc-append ini t (free_tile size ∷ rest))
            d.tiled

      here : Tiled h.blocks (last_block none r.start ini) before (t ∷ free_tile size ∷ rest) end
      here = (Tiled-split h.blocks none r.start ini (t ∷ free_tile size ∷ rest) end tiles).1

      place : end_of r.start pre ≡ before + header + m
      place = end_of-append r.start ini (t ∷ [])

      abbrev grown : ℕ → Block
      grown = fixup_next_prev r (some r.start) before (set_size before (m + header + size) h.blocks)

      with-used :
          u ≡ true
          → coalesce_with x r (some before) (end_of r.start pre) h ≡ (end_of r.start pre, h)
      unfolding coalesce_with
      with-used e = rw (here.0, e)

      with-free :
          u ≡ false
          → coalesce_with x r (some before) (end_of r.start pre) h
            ≡ (before, record (unfile x r before h) { blocks = grown })
      unfolding coalesce_with absorb unfile
      with-free e =
          let size-here : sizes h.blocks (end_of r.start pre) ≡ size =
            ap (sizes h.blocks) place ∙ ap (λ (k : Block). k.size) here.1.0 in
          let le =
            Tiled-le h.blocks (some (before + header + m)) (before + header + m + header + size)
              rest end here.1.1 in
          let whole : add32 m (header + size) ≡ m + header + size = omega (arith, le, d.inside) in
          rw (here.0, size-here, d.ready, e, whole)

  -- A free tile before the held one takes it up.
  module _ (h : Heap State) (ini : List Tile) (m size : ℕ) (rest : List Tile)
      (d : Held x r false h (ini ++ (free_tile m ∷ [])) size rest) where
    abbrev first : ℕ
    first = end_of r.start ini

    abbrev joined : Heap State
    joined = record (unfile x r first h) { blocks = grown h ini m false size rest d }

    filed_before : Files h.index (free_at r.start (ini ++ (free_tile m ∷ used_tile size ∷ rest)))
    filed_before =
        subst (λ l. Files h.index (free_at r.start l))
          (snoc-append ini (free_tile m) (used_tile size ∷ rest)) d.filed

    joined-Held : Held x r false joined ini (m + header + size) rest
    unfolding unfile
    joined-Held =
        let at_first = here h ini m false size rest d in
        let prev_size : sizes h.blocks first ≡ m = ap (λ (k : Block). k.size) at_first.0 in
        let (l, p) = Proper-split true ini (free_tile m ∷ []) d.before in
        record {
          inside = d.inside;
          roomy = d.roomy;
          ready = d.ready;
          tiled =
              rebuild-Tiled h.blocks (grown h ini m false size rest d) r.start ini
                (free_tile m ∷ free_tile size ∷ rest) (free_tile (m + header + size) ∷ rest) end
                (tiles h ini m false size rest d)
                (absorb-Written r r.start h.blocks (last_block none r.start ini) first m size false
                  rest end at_first (end_of-le r.start ini) refl);
          filed =
              subst (Files (x.vheap_index_remove (sizes h.blocks) first h.index))
                (free_at-take r.start ini m (used_tile size ∷ rest)
                  ∙ sym (free_at-cut r.start ini m size rest))
                (x.remove-Files (sizes h.blocks) h.index
                  (free_at r.start (ini ++ (free_tile m ∷ used_tile size ∷ rest))) first
                  filed_before
                  (free_at-there r.start ini m (used_tile size ∷ rest) ∙ ap some (sym prev_size)));
          counted = omega (arith, d.counted, used_count-append ini (free_tile m ∷ []));
          summed = omega (arith, d.summed, used_bytes-append ini (free_tile m ∷ []));
          before = l;
          multiple = omega (arith, d.multiple, p.1);
          least = omega (arith, d.least);
          behind = d.behind;
        }

    joined_last : last_used true ini ≡ true
    joined_last = let (l, p) = Proper-split true ini (free_tile m ∷ []) d.before in ground arith

    joined-Describes :
        Describes x r
          (filed_merged (some first) (end_of r.start (ini ++ (free_tile m ∷ []))) h)
          (backward (ini ++ (free_tile m ∷ [])) size rest)
    unfolding filed_merged
    joined-Describes =
        rw (backward-free ini m size rest, with-free h ini m false size rest d refl)
          (file-Describes x r joined-Held joined_last)

  used-Describes :
      (h : Heap State) (ini : List Tile) (m size : ℕ) (rest : List Tile)
      → Held x r false h (ini ++ (used_tile m ∷ [])) size rest
      → Describes x r
          (filed_merged (some (end_of r.start ini)) (end_of r.start (ini ++ (used_tile m ∷ []))) h)
          (backward (ini ++ (used_tile m ∷ [])) size rest)
  unfolding filed_merged
  used-Describes h ini m size rest d =
      rw (backward-used ini m size rest, with-used h ini m true size rest d refl)
        (file-Describes x r d (last_used-snoc true ini (used_tile m)))

  abbrev Goal : Heap State → ℕ → List Tile → List Tile → Type 0
  Goal h size rest pre =
      Describes x r (filed_merged (last_block none r.start pre) (end_of r.start pre) h)
        (backward pre size rest)

  release-first :
      (h : Heap State) (size : ℕ) (rest : List Tile)
      → Held x r false h [] size rest
      → Goal h size rest []
  unfolding filed_merged coalesce_with
  release-first h size rest d = file-Describes x r d refl

  release-behind :
      (h : Heap State) (ini : List Tile) (m : ℕ) (u : Bool) (size : ℕ) (rest : List Tile)
      → Held x r false h (ini ++ (record { size = m; used = u } ∷ [])) size rest
      → Goal h size rest (ini ++ (record { size = m; used = u } ∷ []))
  release-behind h ini m true size rest d =
      rw (last_block-snoc none r.start ini (used_tile m)) (used-Describes h ini m size rest d)
  release-behind h ini m false size rest d =
      rw (last_block-snoc none r.start ini (free_tile m)) (joined-Describes h ini m size rest d)

  module _ (inside : r.start + r.heap_size ≤ word_mod) where
    release-after :
        (pre : List Tile) (h : Heap State) (size : ℕ) (rest : List Tile)
        → Held x r false h pre size rest
        → Describes x r
            (filed_merged (last_block none r.start pre) (end_of r.start pre) h)
            (backward pre size rest)
    release-after pre h size rest d = elim (snoc-view pre) [
      | inl e ↦
          subst (Goal h size rest) (sym e)
            (release-first h size rest (subst (λ l. Held x r false h l size rest) e d))
      | inr (ini, m, u, e) ↦
          subst (Goal h size rest) (sym e)
            (release-behind h ini m u size rest (subst (λ l. Held x r false h l size rest) e d))
    ]

    -- Giving back a block in use joins it with the free tiles on both sides.
    pub release-Describes :
        (pre : List Tile) (s : ℕ) (post : List Tile) (h : Heap State)
        → Describes x r h (pre ++ (used_tile s ∷ post))
        → Describes x r (release x r (end_of r.start pre) h) (freed pre s post)
    unfolding release filed_merged
    release-Describes pre s post h d =
        let d' =
          coalesce_forward-Held x r (mark_free x r (end_of r.start pre) h) pre s post
            (mark_free-Held x r h pre s post inside d) in
        let back = ap (λ (k : Block). k.prev) (Held-here x r d').0 in
        subst
          (λ p.
            Describes x r
              (let ahead =
                  coalesce_forward x r (end_of r.start pre)
                    (mark_free x r (end_of r.start pre) h) in
                filed_merged p (end_of r.start pre) ahead)
              (freed pre s post))
          (sym back)
          (release-after pre
            (coalesce_forward x r (end_of r.start pre) (mark_free x r (end_of r.start pre) h))
            (forward_size s post) (forward_rest post) d')
