-- ===== src/Heap/View.antt =====
-- The heap's invariant: headers, index and counters agree with a sequence of tiles.
use vaios.Base.{
  ℕ, ◌+◌, ◌*◌, ◌%◌, ◌≡◌, ◌≤◌, ◌<◌, Bool, true, false, ◌||◌, List, [], ◌∷◌, ◌++◌, none, some, arith,
  if◌then◌else◌,
}
use vaios.Heap.Blocks.{header, min_payload}
use vaios.Heap.Index.{FreeIndex}
use vaios.Heap.Facade.{Arena, Heap}
use vaios.Heap.Tiles.{Tile, Tiled, free_at, end_of}

abbrev pub used_count : List Tile → ℕ
used_count [] = 0
used_count (t ∷ ts) = (if t.used then 1 else 0) + used_count ts

abbrev pub used_bytes : List Tile → ℕ
used_bytes [] = 0
used_bytes (t ∷ ts) = (if t.used then t.size else 0) + used_bytes ts

pub used_count-append : (ts us : List Tile) → used_count (ts ++ us) ≡ used_count ts + used_count us
used_count-append [] us = omega arith
used_count-append (t ∷ ts) us = omega (arith, used_count-append ts us)

pub used_bytes-append : (ts us : List Tile) → used_bytes (ts ++ us) ≡ used_bytes ts + used_bytes us
used_bytes-append [] us = omega arith
used_bytes-append (t ∷ ts) us = omega (arith, used_bytes-append ts us)

-- What is in use, headers included, lies in the arena.
pub used-le : (a : ℕ) (ts : List Tile) → a + used_bytes ts + header * used_count ts ≤ end_of a ts
used-le a [] = omega arith
used-le a (t ∷ ts) = let ih = used-le (a + header + t.size) ts in ground arith

-- No two free tiles stand side by side, and each tile can hold the links and keeps the alignment;
-- `u` tells whether the tile before is in use.
abbrev pub Proper : Bool → List Tile → Type 0
Proper u [] = Unit {0}
Proper u (t ∷ ts) =
    ((u || t.used) ≡ true) × (t.size % 8 ≡ 0) × (min_payload ≤ t.size) × Proper t.used ts

abbrev pub last_used : Bool → List Tile → Bool
last_used u [] = u
last_used u (t ∷ ts) = last_used t.used ts

pub Proper-split :
    (u : Bool) (pre ts : List Tile)
    → Proper u (pre ++ ts)
    → Proper u pre × Proper (last_used u pre) ts
Proper-split u [] ts h = (tt, h)
Proper-split u (t ∷ pre) ts h =
    let (l, r) = Proper-split t.used pre ts h.3 in ((h.0, h.1, h.2, l), r)

pub Proper-join :
    (u : Bool) (pre ts : List Tile)
    → Proper u pre
    → Proper (last_used u pre) ts
    → Proper u (pre ++ ts)
Proper-join u [] ts l r = r
Proper-join u (t ∷ pre) ts l r = (l.0, l.1, l.2, Proper-join t.used pre ts l.3 r)

-- A tile that comes after one in use may come after any if it is in use itself.
pub Proper-after : (u : Bool) (ts : List Tile) → Proper false ts → Proper u ts
Proper-after u [] h = tt
Proper-after u (t ∷ ts) h = (ground arith, h.1, h.2, h.3)

module _ (x : FreeIndex) (r : Arena) where
  pub record Describes (h : Heap x.State) (ts : List Tile) : Type 0 where
    pub ready : h.heap_mem_head ≡ some r.start
    pub tiled : Tiled h.blocks none r.start ts (r.start + r.heap_size)
    pub filed : x.Files h.index (free_at r.start ts)
    pub counted : h.allocation_count ≡ used_count ts
    pub summed : h.allocation_size ≡ used_bytes ts
    pub proper : Proper true ts
    pub roomy : r.heap_size < x.size_limit
