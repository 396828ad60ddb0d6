-- ===== src/Heap/Surgery.antt =====
-- What the header writes of kernel/memory/memory.c do to the tiles from one block on.
use vaios.Base.{
  ℕ, ◌+◌, ◌-◌, ◌≡◌, ◌≤◌, ◌<◌, refl, subst, ◌∙◌, Bool, List, [], ◌∷◌, ◌++◌, none, some, update,
  arith, ne→eqb, eqb_refl, le→leb, lt→ltb, ge→ltb,
}
use vaios.Heap.Blocks.{Block, Pointer, header}
use vaios.Heap.Facade.{Arena, fixup_next_prev, set_size, set_status}
use vaios.Heap.Tiles.{
  Tile, free_tile, header_of, status_of, Tiled, Tiled-le, Tiled-frame, Tiled-split, Tiled-join,
  end_of, last_block,
}

-- The blocks from `a` on are these tiles, and nothing below `a` was written.
pub record Written (old new : ℕ → Block) (p : Pointer) (a : ℕ) (ts : List Tile) (e : ℕ)
    : Type 0 where
  pub tiled : Tiled new p a ts e
  pub below : (x : ℕ) → x < a → new x ≡ old x

-- What is written behind the tiles `pre` leaves them alone.
pub rebuild-Tiled :
    (b b' : ℕ → Block) (a : ℕ) (pre old new : List Tile) (e : ℕ)
    → Tiled b none a (pre ++ old) e
    → Written b b' (last_block none a pre) (end_of a pre) new e
    → Tiled b' none a (pre ++ new) e
rebuild-Tiled b b' a pre old new e h w =
    Tiled-join b' none a pre new e
      (Tiled-frame b b' none a pre (end_of a pre) (λ x lo hi. w.below x hi)
        (Tiled-split b none a pre old e h).0)
      w.tiled

pub status-Written :
    (b : ℕ → Block) (p : Pointer) (a s : ℕ) (u v : Bool) (ts : List Tile) (e : ℕ)
    → Tiled b p a (record { size = s; used = u } ∷ ts) e
    → Written b (set_status a (status_of v) b) p a (record { size = s; used = v } ∷ ts) e
status-Written b p a s u v ts e h = record {
  tiled = (
    rw (eqb_refl a, h.0),
    Tiled-frame b (set_status a (status_of v) b) (some a) (a + header + s) ts e
        (λ x lo hi. rw (ne→eqb a x (omega arith))) h.1,
  );
  below = λ x lt. rw (ne→eqb a x (omega arith));
}

module _ (r : Arena) (st : ℕ) where
  -- Whatever the block behind `a` had for its `prev`, the fix-up makes it point back at `a`.
  pub fixup-Written :
      (b : ℕ → Block) (p q : Pointer) (a : ℕ) (t : Tile) (ts : List Tile) (e : ℕ)
      → b a ≡ header_of t p
      → Tiled b q (a + header + t.size) ts e
      → st ≤ a
      → e ≡ st + r.heap_size
      → Written b (fixup_next_prev r (some st) a b) p a (t ∷ ts) e
  unfolding fixup_next_prev
  fixup-Written b p q a t [] e here next lo end =
      rw
        (
          here,
          ge→ltb (a + header + t.size) (st + r.heap_size) (omega (arith, next)),
          le→leb st (a + header + t.size) (omega arith),
        )
        (record { tiled = (here, next); below = λ x lt. refl })
  fixup-Written b p q a t (u ∷ us) e here next lo end =
      let after = a + header + t.size in
      let room : after + header + u.size ≤ e =
        Tiled-le b (some after) (after + header + u.size) us e next.1 in
      let b' : ℕ → Block = update b after (header_of u (some a)) in
      rw
        (here, le→leb st after (omega arith), lt→ltb after (st + r.heap_size) (omega arith), next.0)
        (record {
          tiled = (
            rw (ne→eqb after a (omega arith)) here,
            (
              rw (eqb_refl after),
              Tiled-frame b b' (some after) (after + header + u.size) us e
                  (λ x lo' hi. rw (ne→eqb after x (omega arith))) next.1,
            ),
          );
          below = λ x lt. rw (ne→eqb after x (omega arith));
        })

  -- The residual of a split becomes a tile of its own.
  pub split-Written :
      (b : ℕ → Block) (p : Pointer) (a s need : ℕ) (ts : List Tile) (e : ℕ)
      → Tiled b p a (free_tile s ∷ ts) e
      → need + header ≤ s
      → st ≤ a
      → e ≡ st + r.heap_size
      → let res = a + header + need in
        let rest = s - need - header in
        let linked =
          fixup_next_prev r (some st) res (update b res (header_of (free_tile rest) (some a))) in
        Written b (set_size a need linked) p a (free_tile need ∷ free_tile rest ∷ ts) e
  split-Written b p a s need ts e h fits lo end =
      let res = a + header + need in
      let rest = s - need - header in
      let b1 : ℕ → Block = update b res (header_of (free_tile rest) (some a)) in
      let linked = fixup_next_prev r (some st) res b1 in
      let next : Tiled b1 (some a) (res + header + rest) ts e =
        subst (λ m. Tiled b1 (some a) m ts e) (omega arith)
          (Tiled-frame b b1 (some a) (a + header + s) ts e
            (λ x lo' hi. rw (ne→eqb res x (omega arith))) h.1) in
      let w =
        fixup-Written b1 (some a) (some a) res (free_tile rest) ts e (rw (eqb_refl res)) next
          (omega arith) end in
      let here : linked a ≡ header_of (free_tile s) p =
        w.below a (omega arith) ∙ rw (ne→eqb res a (omega arith)) h.0 in
      record {
        tiled = (
          rw (eqb_refl a, here),
          Tiled-frame linked (set_size a need linked) (some a) res (free_tile rest ∷ ts) e
              (λ x lo' hi. rw (ne→eqb a x (omega arith))) w.tiled,
        );
        below = λ x lt.
            rw (ne→eqb a x (omega arith))
              (w.below x (omega arith) ∙ rw (ne→eqb res x (omega arith)));
      }

  -- A block takes up the one behind it.
  pub absorb-Written :
      (b : ℕ → Block) (p : Pointer) (a s n : ℕ) (u : Bool) (ts : List Tile) (e : ℕ)
      → Tiled b p a (free_tile s ∷ record { size = n; used = u } ∷ ts) e
      → st ≤ a
      → e ≡ st + r.heap_size
      → Written b
          (fixup_next_prev r (some st) a (set_size a (s + header + n) b))
          p
          a
          (free_tile (s + header + n) ∷ ts)
          e
  absorb-Written b p a s n u ts e h lo end =
      let grown = set_size a (s + header + n) b in
      let next : Tiled grown (some (a + header + s)) (a + header + (s + header + n)) ts e =
        subst (λ m. Tiled grown (some (a + header + s)) m ts e) (omega arith)
          (Tiled-frame b grown (some (a + header + s)) (a + header + s + header + n) ts e
            (λ x lo' hi. rw (ne→eqb a x (omega arith))) h.1.1) in
      let w =
        fixup-Written grown p (some (a + header + s)) a (free_tile (s + header + n)) ts e
          (rw (eqb_refl a, h.0)) next lo end in
      record { tiled = w.tiled; below = λ x lt. w.below x lt ∙ rw (ne→eqb a x (omega arith)) }
