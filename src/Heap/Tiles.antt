-- ===== src/Heap/Tiles.antt =====
-- The heap of kernel/memory/memory.c as a sequence of tiles: each block's header with its payload,
-- one behind the other from the start of the arena to its end.
use vaios.Base.{
  ℕ, ◌+◌, ◌≡◌, ◌≤◌, ◌<◌, refl, sym, ap, ap₂, subst, fun_ext, ◌∙◌, Bool, true, false, not, ◌&&◌,
  List, [], ◌∷◌, ◌++◌, Option, none, some, update, arith, ◌==◌, if◌then◌else◌, ne→eqb, eqb→eq,
  Bool-cases, inl, inr,
}
use vaios.Heap.Blocks.{Block, BlockStatus, mem_free, mem_aloc, Pointer, sanity_magic, header}

pub record Tile : Type 0 where
  pub size : ℕ
  pub used : Bool

abbrev pub free_tile : ℕ → Tile
free_tile s = record { size = s; used = false }

abbrev pub used_tile : ℕ → Tile
used_tile s = record { size = s; used = true }

abbrev pub status_of : Bool → BlockStatus
status_of true = mem_aloc
status_of false = mem_free

-- The header of a tile, with `p` for the block before it.
abbrev pub header_of : Tile → Pointer → Block
header_of t p = record {
  magic_number = sanity_magic;
  size = t.size;
  status = status_of t.used;
  prev = p;
}

-- The address behind the tiles from `a` on.
abbrev pub end_of : ℕ → List Tile → ℕ
end_of a [] = a
end_of a (t ∷ ts) = end_of (a + header + t.size) ts

-- The last block of the tiles from `a` on, or `p`.
abbrev pub last_block : Pointer → ℕ → List Tile → Pointer
last_block p a [] = p
last_block p a (t ∷ ts) = last_block (some a) (a + header + t.size) ts

-- The headers from `a` on are those of the tiles, which end at `e`.
abbrev pub Tiled : (ℕ → Block) → Pointer → ℕ → List Tile → ℕ → Type 0
Tiled b p a [] e = a ≡ e
Tiled b p a (t ∷ ts) e = (b a ≡ header_of t p) × Tiled b (some a) (a + header + t.size) ts e

pub Tiled-le :
    (b : ℕ → Block) (p : Pointer) (a : ℕ) (ts : List Tile) (e : ℕ) → Tiled b p a ts e → a ≤ e
Tiled-le b p a [] e h = omega (arith, h)
Tiled-le b p a (t ∷ ts) e h = omega (arith, Tiled-le b (some a) (a + header + t.size) ts e h.1)

pub end_of-le : (a : ℕ) (ts : List Tile) → a ≤ end_of a ts
end_of-le a [] = omega arith
end_of-le a (t ∷ ts) = omega (arith, end_of-le (a + header + t.size) ts)

-- Only the headers in between matter.
pub Tiled-frame :
    (b b' : ℕ → Block) (p : Pointer) (a : ℕ) (ts : List Tile) (e : ℕ)
    → ((x : ℕ) → a ≤ x → x < e → b' x ≡ b x)
    → Tiled b p a ts e
    → Tiled b' p a ts e
Tiled-frame b b' p a [] e same h = h
Tiled-frame b b' p a (t ∷ ts) e same h =
    let le = Tiled-le b (some a) (a + header + t.size) ts e h.1 in
    (
      same a (omega arith) (omega arith) ∙ h.0,
      Tiled-frame b b' (some a) (a + header + t.size) ts e (λ x lo hi. same x (omega arith) hi) h.1,
    )

pub Tiled-split :
    (b : ℕ → Block) (p : Pointer) (a : ℕ) (pre ts : List Tile) (e : ℕ)
    → Tiled b p a (pre ++ ts) e
    → Tiled b p a pre (end_of a pre) × Tiled b (last_block p a pre) (end_of a pre) ts e
Tiled-split b p a [] ts e h = (refl, h)
Tiled-split b p a (t ∷ pre) ts e h =
    let (l, r) = Tiled-split b (some a) (a + header + t.size) pre ts e h.1 in ((h.0, l), r)

pub Tiled-join :
    (b : ℕ → Block) (p : Pointer) (a : ℕ) (pre ts : List Tile) (e : ℕ)
    → Tiled b p a pre (end_of a pre)
    → Tiled b (last_block p a pre) (end_of a pre) ts e
    → Tiled b p a (pre ++ ts) e
Tiled-join b p a [] ts e l r = r
Tiled-join b p a (t ∷ pre) ts e l r =
    (l.0, Tiled-join b (some a) (a + header + t.size) pre ts e l.1 r)

-- The free blocks, by address, with their sizes.
abbrev pub free_at : ℕ → List Tile → ℕ → Option ℕ
free_at a [] x = none
free_at a (t ∷ ts) x =
    if a == x && not t.used then some t.size else free_at (a + header + t.size) ts x

pub free_at-below : (a : ℕ) (ts : List Tile) (x : ℕ) → x < a → free_at a ts x ≡ none
free_at-below a [] x lt = refl
free_at-below a (t ∷ ts) x lt =
    rw (ne→eqb a x (omega arith)) (free_at-below (a + header + t.size) ts x (omega arith))

pub free_at-behind : (a : ℕ) (ts : List Tile) (x : ℕ) → end_of a ts ≤ x → free_at a ts x ≡ none
free_at-behind a [] x le = refl
free_at-behind a (t ∷ ts) x le =
    let l = end_of-le (a + header + t.size) ts in
    rw (ne→eqb a x (omega arith)) (free_at-behind (a + header + t.size) ts x le)

-- The first map, and the second where it has nothing.
abbrev pub or_else : Option ℕ → Option ℕ → Option ℕ
or_else none g = g
or_else (some s) g = some s

abbrev pub over : (ℕ → Option ℕ) → (ℕ → Option ℕ) → ℕ → Option ℕ
over f g x = or_else (f x) (g x)

pub free_at-append :
    (a : ℕ) (pre ts : List Tile)
    → free_at a (pre ++ ts) ≡ over (free_at a pre) (free_at (end_of a pre) ts)
free_at-append a [] ts = refl
free_at-append a (t ∷ pre) ts =
    let ih = free_at-append (a + header + t.size) pre ts in
    fun_ext λ x. elim (Bool-cases (a == x && not t.used)) [
      | inl e ↦ rw (over, e)
      | inr e ↦ rw (over, e) (ap (λ f. f x) ih)
    ]

pub update-over :
    (f g : ℕ → Option ℕ) (m : ℕ) (v : Option ℕ)
    → f m ≡ none
    → update (over f g) m v ≡ over f (update g m v)
update-over f g m v e = fun_ext λ x. elim (Bool-cases (m == x)) [
  | inl s ↦ let there : f x ≡ none = subst (λ y. f y ≡ none) (eqb→eq m x s) e in rw (over, s, there)
  | inr s ↦ rw (over, s)
]

-- A free block is one of the tiles.
pub free_at-tile :
    (a : ℕ) (ts : List Tile) (x s : ℕ)
    → free_at a ts x ≡ some s
    → (pre : List Tile) × (post : List Tile) × (ts ≡ pre ++ (free_tile s ∷ post))
      × (x ≡ end_of a pre)
free_at-tile a [] x s h = absurd (ground arith)
free_at-tile a (t ∷ ts) x s h = elim (Bool-cases (a == x && not t.used)) [
  | inl e ↦
      let size : t.size ≡ s = ground arith in
      let free : t.used ≡ false = ground arith in
      (
        [],
        ts,
        ap (λ u. u ∷ ts) (ap₂ {C = Tile} (λ z u. record { size = z; used = u }) size free),
        sym (eqb→eq a x (ground arith)),
      )
  | inr e ↦
      let (pre, post, split, place) = free_at-tile (a + header + t.size) ts x s (rw e at h) in
      (t ∷ pre, post, ap (λ l. t ∷ l) split, place)
]

pub end_of-append : (a : ℕ) (pre ts : List Tile) → end_of a (pre ++ ts) ≡ end_of (end_of a pre) ts
end_of-append a [] ts = refl
end_of-append a (t ∷ pre) ts = end_of-append (a + header + t.size) pre ts

pub Tiled-end :
    (b : ℕ → Block) (p : Pointer) (a : ℕ) (ts : List Tile) (e : ℕ)
    → Tiled b p a ts e
    → end_of a ts ≡ e
Tiled-end b p a [] e h = h
Tiled-end b p a (t ∷ ts) e h = Tiled-end b (some a) (a + header + t.size) ts e h.1

pub last_block-snoc :
    (p : Pointer) (a : ℕ) (pre : List Tile) (t : Tile)
    → last_block p a (pre ++ (t ∷ [])) ≡ some (end_of a pre)
last_block-snoc p a [] t = refl
last_block-snoc p a (u ∷ pre) t = last_block-snoc (some a) (a + header + u.size) pre t
