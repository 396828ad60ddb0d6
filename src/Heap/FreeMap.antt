-- ===== src/Heap/FreeMap.antt =====
-- How the map of the free blocks changes when a tile is taken, given back, cut or joined.
use vaios.Base.{
  ℕ, ◌+◌, ◌≡◌, refl, sym, ap, subst, ◌∙◌, fun_ext, List, [], ◌∷◌, ◌++◌, Option, none, some, update,
  arith, ◌==◌, eqb→eq, eqb_refl, Bool-cases, inl, inr,
}
use vaios.Heap.Blocks.{header}
use vaios.Heap.Tiles.{
  Tile, free_tile, used_tile, end_of, free_at, free_at-below, free_at-behind, over, free_at-append,
  update-over, end_of-append,
}

-- A map that agrees from a place on agrees as a whole.
pub free_at-ap :
    (a : ℕ) (pre ts us : List Tile)
    → free_at (end_of a pre) ts ≡ free_at (end_of a pre) us
    → free_at a (pre ++ ts) ≡ free_at a (pre ++ us)
free_at-ap a pre ts us e =
    free_at-append a pre ts ∙ ap (over (free_at a pre)) e ∙ sym (free_at-append a pre us)

pub free_at-update :
    (a : ℕ) (pre ts us : List Tile) (v : Option ℕ)
    → update (free_at (end_of a pre) ts) (end_of a pre) v ≡ free_at (end_of a pre) us
    → update (free_at a (pre ++ ts)) (end_of a pre) v ≡ free_at a (pre ++ us)
free_at-update a pre ts us v e =
    ap (λ f. update f (end_of a pre) v) (free_at-append a pre ts)
    ∙ update-over (free_at a pre) (free_at (end_of a pre) ts) (end_of a pre) v
        (free_at-behind a pre (end_of a pre) (omega arith))
    ∙ ap (over (free_at a pre)) e
    ∙ sym (free_at-append a pre us)

pub free_at-used :
    (a s : ℕ) (ts : List Tile) → free_at a (used_tile s ∷ ts) ≡ free_at (a + header + s) ts
free_at-used a s ts = fun_ext λ x. elim (Bool-cases (a == x)) [ inl e ↦ rw e | inr e ↦ rw e ]

pub free_at-free :
    (a s : ℕ) (ts : List Tile)
    → update (free_at (a + header + s) ts) a (some s) ≡ free_at a (free_tile s ∷ ts)
free_at-free a s ts = fun_ext λ x. elim (Bool-cases (a == x)) [ inl e ↦ rw e | inr e ↦ rw e ]

update-update :
    (f : ℕ → Option ℕ) (a : ℕ) (v w : Option ℕ) → f a ≡ v → update (update f a w) a v ≡ f
update-update f a v w e =
    fun_ext
      λ x. elim (Bool-cases (a == x)) [ inl s ↦ rw s (sym e ∙ ap f (eqb→eq a x s)) | inr s ↦ rw s ]

module _ (a : ℕ) (pre : List Tile) (s : ℕ) (post : List Tile) where
  abbrev m : ℕ
  m = end_of a pre

  -- A free tile is taken out of the map, and put into it.
  pub free_at-take :
      update (free_at a (pre ++ (free_tile s ∷ post))) m none
      ≡ free_at a (pre ++ (used_tile s ∷ post))
  free_at-take = free_at-update a pre (free_tile s ∷ post) (used_tile s ∷ post) none (
      ap (λ f. update f m none) (sym (free_at-free m s post))
      ∙ update-update (free_at (m + header + s) post) m none (some s)
          (free_at-below (m + header + s) post m (omega arith))
      ∙ sym (free_at-used m s post))

  pub free_at-put :
      update (free_at a (pre ++ (used_tile s ∷ post))) m (some s)
      ≡ free_at a (pre ++ (free_tile s ∷ post))
  free_at-put =
      free_at-update a pre (used_tile s ∷ post) (free_tile s ∷ post) (some s)
        (ap (λ f. update f m (some s)) (free_at-used m s post) ∙ free_at-free m s post)

  pub free_at-there : free_at a (pre ++ (free_tile s ∷ post)) m ≡ some s
  free_at-there = ap (λ f. f m) (sym free_at-put) ∙ rw (eqb_refl m)

  pub free_at-absent : free_at a (pre ++ (used_tile s ∷ post)) m ≡ none
  free_at-absent = ap (λ f. f m) (sym free_at-take) ∙ rw (eqb_refl m)

-- Tiles that are not in the map can be cut and joined.
pub free_at-cut :
    (a : ℕ) (pre : List Tile) (s n : ℕ) (post : List Tile)
    → free_at a (pre ++ (used_tile (s + header + n) ∷ post))
      ≡ free_at a (pre ++ (used_tile s ∷ used_tile n ∷ post))
free_at-cut a pre s n post =
    let m = end_of a pre in
    free_at-ap a pre (used_tile (s + header + n) ∷ post) (used_tile s ∷ used_tile n ∷ post) (
      free_at-used m (s + header + n) post
      ∙ ap (λ k. free_at k post) (omega arith)
      ∙ sym (free_at-used m s (used_tile n ∷ post) ∙ free_at-used (m + header + s) n post))

pub snoc-append :
    (pre : List Tile) (t : Tile) (ts : List Tile) → (pre ++ (t ∷ [])) ++ ts ≡ pre ++ (t ∷ ts)
snoc-append [] t ts = refl
snoc-append (u ∷ pre) t ts = ap (λ l. u ∷ l) (snoc-append pre t ts)

-- The same one tile further on.
module _ (a : ℕ) (pre : List Tile) (u : Tile) (s : ℕ) (post : List Tile) where
  abbrev second : ℕ
  second = end_of a pre + header + u.size

  at-second : end_of a (pre ++ (u ∷ [])) ≡ second
  at-second = end_of-append a pre (u ∷ [])

  pub free_at-put_second :
      update (free_at a (pre ++ (u ∷ used_tile s ∷ post))) second (some s)
      ≡ free_at a (pre ++ (u ∷ free_tile s ∷ post))
  free_at-put_second =
      subst
        (λ n.
          update (free_at a (pre ++ (u ∷ used_tile s ∷ post))) n (some s)
          ≡ free_at a (pre ++ (u ∷ free_tile s ∷ post)))
        at-second
        (subst
          (λ l.
            update (free_at a l) (end_of a (pre ++ (u ∷ []))) (some s)
            ≡ free_at a (pre ++ (u ∷ free_tile s ∷ post)))
          (snoc-append pre u (used_tile s ∷ post))
          (free_at-put a (pre ++ (u ∷ [])) s post
            ∙ ap (free_at a) (snoc-append pre u (free_tile s ∷ post))))

  pub free_at-take_second :
      update (free_at a (pre ++ (u ∷ free_tile s ∷ post))) second none
      ≡ free_at a (pre ++ (u ∷ used_tile s ∷ post))
  free_at-take_second =
      subst
        (λ n.
          update (free_at a (pre ++ (u ∷ free_tile s ∷ post))) n none
          ≡ free_at a (pre ++ (u ∷ used_tile s ∷ post)))
        at-second
        (subst
          (λ l.
            update (free_at a l) (end_of a (pre ++ (u ∷ []))) none
            ≡ free_at a (pre ++ (u ∷ used_tile s ∷ post)))
          (snoc-append pre u (free_tile s ∷ post))
          (free_at-take a (pre ++ (u ∷ [])) s post
            ∙ ap (free_at a) (snoc-append pre u (used_tile s ∷ post))))

  pub free_at-there_second : free_at a (pre ++ (u ∷ free_tile s ∷ post)) second ≡ some s
  free_at-there_second = ap (λ f. f second) (sym free_at-put_second) ∙ rw (eqb_refl second)

  pub free_at-absent_second : free_at a (pre ++ (u ∷ used_tile s ∷ post)) second ≡ none
  free_at-absent_second = ap (λ f. f second) (sym free_at-take_second) ∙ rw (eqb_refl second)
