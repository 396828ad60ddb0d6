-- ===== src/Heap/Live.antt =====
-- The blocks in use of kernel/memory/memory.c as a map from addresses to sizes: what the callers of
-- `v_malloc` and `v_free` see of the heap.
use vaios.Base.{
  ℕ, ◌+◌, ◌-◌, ◌≡◌, ◌≤◌, ◌<◌, refl, sym, ap, ap₂, ◌∙◌, inl, inr, Bool, true, false, not, List, [],
  ◌∷◌, ◌++◌, Option, none, some, update, arith, dec_lt, lt→leb, le→leb, ◌&&◌, ◌==◌, Bool-cases,
  eqb→eq, ne→eqb,
}
use vaios.Heap.Blocks.{header, min_payload}
use vaios.Heap.Tiles.{Tile, free_tile, used_tile, end_of, end_of-le, free_at, free_at-tile}
use vaios.Heap.FreeMap.{free_at-ap, free_at-take, free_at-put, free_at-absent, free_at-cut}
use vaios.Heap.Malloc.{carved}
use vaios.Heap.Release.{forward_size, forward_rest}
use vaios.Heap.Free.{backward, freed}

not-not : (v : Bool) → not (not v) ≡ v
not-not true = refl
not-not false = refl

abbrev flip : Tile → Tile
flip t = record { size = t.size; used = not t.used }

-- The tiles with used and free exchanged.
abbrev pub flipped : List Tile → List Tile
flipped [] = []
flipped (t ∷ ts) = flip t ∷ flipped ts

-- The blocks in use, by the address of the header, with their sizes.
unfoldable pub live_at : ℕ → List Tile → ℕ → Option ℕ
live_at a ts = free_at a (flipped ts)

flipped-append : (ts us : List Tile) → flipped (ts ++ us) ≡ flipped ts ++ flipped us
flipped-append [] us = refl
flipped-append (t ∷ ts) us = ap (λ l. flip t ∷ l) (flipped-append ts us)

end_of-flipped : (a : ℕ) (ts : List Tile) → end_of a (flipped ts) ≡ end_of a ts
end_of-flipped a [] = refl
end_of-flipped a (t ∷ ts) = end_of-flipped (a + header + t.size) ts

live_at-append :
    (a : ℕ) (pre ts : List Tile) → live_at a (pre ++ ts) ≡ free_at a (flipped pre ++ flipped ts)
unfolding live_at
live_at-append a pre ts = ap (free_at a) (flipped-append pre ts)

live_at-take :
    (a : ℕ) (pre : List Tile) (s : ℕ) (post : List Tile)
    → update (live_at a (pre ++ (used_tile s ∷ post))) (end_of a pre) none
      ≡ live_at a (pre ++ (free_tile s ∷ post))
live_at-take a pre s post =
    ap₂ (λ f m. update f m none) (live_at-append a pre (used_tile s ∷ post))
      (sym (end_of-flipped a pre))
    ∙ free_at-take a (flipped pre) s (flipped post)
    ∙ sym (live_at-append a pre (free_tile s ∷ post))

live_at-put :
    (a : ℕ) (pre : List Tile) (s : ℕ) (post : List Tile)
    → update (live_at a (pre ++ (free_tile s ∷ post))) (end_of a pre) (some s)
      ≡ live_at a (pre ++ (used_tile s ∷ post))
live_at-put a pre s post =
    ap₂ (λ f m. update f m (some s)) (live_at-append a pre (free_tile s ∷ post))
      (sym (end_of-flipped a pre))
    ∙ free_at-put a (flipped pre) s (flipped post)
    ∙ sym (live_at-append a pre (used_tile s ∷ post))

pub live_at-absent :
    (a : ℕ) (pre : List Tile) (s : ℕ) (post : List Tile)
    → live_at a (pre ++ (free_tile s ∷ post)) (end_of a pre) ≡ none
live_at-absent a pre s post =
    ap₂ (λ f m. f m) (live_at-append a pre (free_tile s ∷ post)) (sym (end_of-flipped a pre))
    ∙ free_at-absent a (flipped pre) s (flipped post)

live_at-cut :
    (a : ℕ) (pre : List Tile) (s n : ℕ) (post : List Tile)
    → live_at a (pre ++ (free_tile (s + header + n) ∷ post))
      ≡ live_at a (pre ++ (free_tile s ∷ free_tile n ∷ post))
live_at-cut a pre s n post =
    live_at-append a pre (free_tile (s + header + n) ∷ post)
    ∙ free_at-cut a (flipped pre) s n (flipped post)
    ∙ sym (live_at-append a pre (free_tile s ∷ free_tile n ∷ post))

-- What a request carves out of a free tile is one more block in use.
pub live_at-carved :
    (a need s : ℕ) (pre post : List Tile)
    → need ≤ s
    → (got : ℕ) × (need ≤ got)
      × (live_at a (pre ++ carved need s post)
          ≡ update (live_at a (pre ++ (free_tile s ∷ post))) (end_of a pre) (some got))
live_at-carved a need s pre post fits = elim (dec_lt s (need + header + min_payload)) [
  | yes small ↦
      (s, fits, rw (lt→leb s (need + header + min_payload) small) (sym (live_at-put a pre s post)))
  | no large ↦
      let rest = s - need - header in
      let same : live_at a (pre ++ (free_tile s ∷ post))
          ≡ live_at a (pre ++ (free_tile need ∷ free_tile rest ∷ post)) =
        ap (λ n. live_at a (pre ++ (free_tile n ∷ post))) (omega arith)
        ∙ live_at-cut a pre need rest post in
      (
        need,
        omega arith,
        rw (le→leb (need + header + min_payload) s (omega arith)) (
            sym (live_at-put a pre need (free_tile rest ∷ post))
            ∙ ap (λ f. update f (end_of a pre) (some need)) (sym same)),
      )
]

-- The merges of a release do not show in the blocks in use.
forward-live_tile :
    (a : ℕ) (pre : List Tile) (s n : ℕ) (u : Bool) (post : List Tile)
    → let ts = record { size = n; used = u } ∷ post in
      live_at a (pre ++ (free_tile (forward_size s ts) ∷ forward_rest ts))
      ≡ live_at a (pre ++ (free_tile s ∷ ts))
forward-live_tile a pre s n true post = refl
forward-live_tile a pre s n false post = live_at-cut a pre s n post

forward-live :
    (a : ℕ) (pre : List Tile) (s : ℕ) (post : List Tile)
    → live_at a (pre ++ (free_tile (forward_size s post) ∷ forward_rest post))
      ≡ live_at a (pre ++ (free_tile s ∷ post))
forward-live a pre s [] = refl
forward-live a pre s (t ∷ post) = forward-live_tile a pre s t.size t.used post

backward-live_tile :
    (a n : ℕ) (u : Bool) (size : ℕ) (rest : List Tile)
    → let t : Tile = record { size = n; used = u } in
      live_at a (backward (t ∷ []) size rest) ≡ live_at a (t ∷ free_tile size ∷ rest)
backward-live_tile a n true size rest = refl
backward-live_tile a n false size rest = live_at-cut a [] n size rest

backward-live :
    (a : ℕ) (pre : List Tile) (size : ℕ) (rest : List Tile)
    → live_at a (backward pre size rest) ≡ live_at a (pre ++ (free_tile size ∷ rest))
unfolding live_at
backward-live a [] size rest = refl
backward-live a (t ∷ []) size rest = backward-live_tile a t.size t.used size rest
backward-live a (t ∷ u ∷ pre) size rest =
    free_at-ap a (flip t ∷ []) (flipped (backward (u ∷ pre) size rest))
      (flipped ((u ∷ pre) ++ (free_tile size ∷ rest)))
      (backward-live (a + header + t.size) (u ∷ pre) size rest)

pub live_at-freed :
    (a : ℕ) (pre : List Tile) (s : ℕ) (post : List Tile)
    → live_at a (freed pre s post)
      ≡ update (live_at a (pre ++ (used_tile s ∷ post))) (end_of a pre) none
live_at-freed a pre s post =
    backward-live a pre (forward_size s post) (forward_rest post)
    ∙ forward-live a pre s post
    ∙ sym (live_at-take a pre s post)

flipped-flipped : (ts : List Tile) → flipped (flipped ts) ≡ ts
flipped-flipped [] = refl
flipped-flipped (t ∷ ts) =
    ap₂ (λ v l. record { size = t.size; used = v } ∷ l) (not-not t.used) (flipped-flipped ts)

-- A block in use is one of the tiles.
pub live_at-tile :
    (a : ℕ) (ts : List Tile) (y s : ℕ)
    → live_at a ts y ≡ some s
    → (pre : List Tile) × (post : List Tile) × (ts ≡ pre ++ (used_tile s ∷ post))
      × (y ≡ end_of a pre)
unfolding live_at
live_at-tile a ts y s e =
    let (pre, post, split, place) = free_at-tile a (flipped ts) y s e in
    (
      flipped pre,
      flipped post,
      sym (flipped-flipped ts) ∙ ap flipped split ∙ flipped-append pre (free_tile s ∷ post),
      place ∙ sym (end_of-flipped a pre),
    )

free_at-lies :
    (a : ℕ) (ts : List Tile) (y s : ℕ)
    → free_at a ts y ≡ some s
    → (a ≤ y) × (y + header + s ≤ end_of a ts)
free_at-lies a [] y s e = absurd (ground arith)
free_at-lies a (t ∷ ts) y s e = elim (Bool-cases (a == y && not t.used)) [
  | inl c ↦
      let le = end_of-le (a + header + t.size) ts in
      let same = eqb→eq a y (ground arith) in (omega arith, ground arith)
  | inr c ↦
      let (lo, hi) = free_at-lies (a + header + t.size) ts y s (rw c at e) in (omega arith, hi)
]

free_at-apart :
    (m : ℕ) (ts : List Tile) (a b s t : ℕ)
    → free_at m ts a ≡ some s
    → free_at m ts b ≡ some t
    → a < b
    → (m ≤ a) × (a + header + s ≤ b)
free_at-apart m [] a b s t ea eb lt = absurd (ground arith)
free_at-apart m (u ∷ ts) a b s t ea eb lt = elim (Bool-cases (m == a && not u.used)) [
  | inl c ↦
      let same = eqb→eq m a (ground arith) in
      let (lo, hi) =
        free_at-lies (m + header + u.size) ts b t (rw (ne→eqb m b (omega arith)) at eb) in
      (omega arith, ground arith)
  | inr c ↦
      let (lo, hi) = free_at-lies (m + header + u.size) ts a s (rw c at ea) in
      let (below, next) =
        free_at-apart (m + header + u.size) ts a b s t (rw c at ea)
          (rw (ne→eqb m b (omega arith)) at eb) lt in
      (omega arith, next)
]

-- A block in use lies among the tiles.
pub live_at-lies :
    (a : ℕ) (ts : List Tile) (y s : ℕ)
    → live_at a ts y ≡ some s
    → (a ≤ y) × (y + header + s ≤ end_of a ts)
unfolding live_at
live_at-lies a ts y s e =
    let (lo, hi) = free_at-lies a (flipped ts) y s e in (lo, omega (arith, hi, end_of-flipped a ts))

-- Two blocks in use do not overlap.
pub live_at-apart :
    (m : ℕ) (ts : List Tile) (a b s t : ℕ)
    → live_at m ts a ≡ some s
    → live_at m ts b ≡ some t
    → a < b
    → (m ≤ a) × (a + header + s ≤ b)
unfolding live_at
live_at-apart m ts a b s t ea eb lt = free_at-apart m (flipped ts) a b s t ea eb lt
