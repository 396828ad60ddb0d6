-- ===== src/Heap/Seglist/Fit.antt =====
-- `v_malloc` of kernel/memory/memory.c over the lists of kernel/memory/seglist.c: it fails only when
-- nothing fits.
use vaios.Base.{
  ℕ, suc, ◌+◌, ◌*◌, ◌≡◌, ◌≢◌, ◌≤◌, ◌<◌, refl, sym, ap, ◌∙◌, inl, inr, List, [], ◌∷◌, ◌++◌, length,
  none, some, arith, ◌==◌, Bool-cases, eqb→eq, eqb→ne, ne→eqb, dec_lt,
}
use vaios.Chain.{Distinct, In, In-ne}
use vaios.Machine.{word_mod}
use vaios.Heap.Blocks.{header, min_payload, payload_need}
use vaios.Heap.Facade.{Arena, Heap, v_malloc}
use vaios.Heap.Tiles.{Tile, free_tile, end_of, free_at, Tiled-end}
use vaios.Heap.FreeMap.{free_at-there}
use vaios.Heap.View.{Describes}
use vaios.Heap.Malloc.{sizes-right}
use vaios.Heap.Alloc.{v_malloc-found}
use vaios.Heap.FreeLists.{FreeLists}
use vaios.Heap.FreeLists.Files.{NotIn-by}
use vaios.Heap.Seglist.{size_class}
use vaios.Heap.Seglist.Find.{index_find-finds, seglist}

length-le_end : (a : ℕ) (ts : List Tile) → a + header * length ts ≤ end_of a ts
length-le_end a [] = omega arith
length-le_end a (t ∷ ts) = omega (arith, length-le_end (a + header + t.size) ts)

-- A sequence without repetitions, without one of its members.
without :
    (m : ℕ) (l : List ℕ)
    → Distinct l
    → (l' : List ℕ) × Distinct l'
      × (length l ≤ suc (length l'))
      × ((y : ℕ) → In y l' → In y l × (y ≢ m))
without m [] d = ([], tt, omega arith, λ y i. absurd i)
without m (x ∷ l) d = elim (Bool-cases (x == m)) [
  | inl e ↦ (l, d.1, omega arith, λ y i. (inr i, λ q. In-ne x y l d.0 i (eqb→eq x m e ∙ sym q)))
  | inr e ↦
      let (l', d', le, sub) = without m l d.1 in
      (
        x ∷ l',
        (NotIn-by x l' (λ i. In-ne x x l d.0 (sub x i).0 refl), d'),
        omega (arith, le),
        λ y. elim [
          | inl q ↦ (inl q, λ w. eqb→ne x m e (sym q ∙ w))
          | inr i ↦ (inr (sub y i).0, (sub y i).1)
        ],
      )
]

-- There are no more filed addresses than tiles.
length-le_tiles :
    (m : ℕ) (ts : List Tile) (l : List ℕ)
    → Distinct l
    → ((y : ℕ) → In y l → (s : ℕ) × (free_at m ts y ≡ some s))
    → length l ≤ length ts
length-le_tiles m [] [] d there = omega arith
length-le_tiles m [] (x ∷ l) d there = let (s, e) = there x (inl refl) in absurd (ground arith)
length-le_tiles m (t ∷ ts) l d there =
    let (l', d', le, sub) = without m l d in
    let rest = length-le_tiles (m + header + t.size) ts l' d' (λ y i.
      let (s, e) = there y (sub y i).0 in (s, rw (ne→eqb m y (λ q. (sub y i).1 (sym q))) at e)) in
    omega (arith, le, rest)

module _ (r : Arena) (inside : r.start + r.heap_size + header + min_payload ≤ word_mod) (fuel : ℕ)
    (enough : r.heap_size < header * fuel) where
  -- Over segregated lists, with fuel for as many blocks as the arena has room for, in an arena away
  -- from the end of the address space, a request for some bytes returns NULL only if every free
  -- tile is smaller than the rounded request.
  pub v_malloc-exhausted :
      (n : ℕ) (h : Heap FreeLists) (ts pre post : List Tile) (s : ℕ)
      → Describes (seglist fuel) r h ts
      → 0 < n
      → (v_malloc (seglist fuel) r n h).0 ≡ none
      → ts ≡ pre ++ (free_tile s ∷ post)
      → s < payload_need n
  v_malloc-exhausted n h ts pre post s d pos null split = elim (dec_lt s (payload_need n)) [
    | yes less ↦ less
    | no large ↦
        let a = end_of r.start pre in
        let here = ap (λ us. free_at r.start us a) split ∙ free_at-there r.start pre s post in
        let need = payload_need n in
        let k = size_class need in
        let bound =
          length-le_tiles r.start ts (d.filed.lists k) (d.filed.distinct k)
            (λ y i. let (z, e, _) = d.filed.there k y i in (z, e)) in
        let most = length-le_end r.start ts in
        let last = Tiled-end h.blocks none r.start ts (r.start + r.heap_size) d.tiled in
        let (c, found) =
          index_find-finds fuel (λ y. (h.blocks y).size) h.index (free_at r.start ts) d.filed
            (λ y z. sizes-right h.blocks r.start ts (r.start + r.heap_size) y z d.tiled) need a s
            here (omega arith) (omega (arith, bound, most, last, enough)) in
        let served = v_malloc-found (seglist fuel) r inside n c h ts d pos found in
        absurd (ground arith)
  ]
