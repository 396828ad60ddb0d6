-- ===== src/Heap/Tlsf/Files.antt =====
-- `vheap_index_insert` and `vheap_index_remove` of kernel/memory/tlsf.c on the lists of the filed
-- blocks and their bitmaps.
use vaios.Base.{
  ℕ, ◌^◌, ◌<◌, ◌≡◌, refl, sym, ap₂, subst, ◌∙◌, fun_ext, Option, none, some, update, arith, inl,
  inr, Bool-cases, ◌==◌, ne→eqb, eqb_refl,
}
use vaios.Heap.Blocks.{Pointer}
use vaios.Heap.FreeLists.{FreeNode, FreeLists, set_next, set_prev, move_head, put_first, take_out}
use vaios.Heap.FreeLists.Links.{nexts, prevs, set_next-same, set_next-prev, set_prev-next}
use vaios.Heap.FreeLists.Files.{Filed, empty-Filed, put_first-Filed, some-none, some-same}
use vaios.Heap.FreeLists.Remove.{take_out-Filed}
use vaios.Heap.Tlsf.{
  Tlsf, slot, mapping_insert, unmark, unlink_free, index_reset, index_insert, index_remove,
}
use vaios.Machine.Bits.{bit-clear}
use vaios.Heap.Tlsf.Order.{mapping_insert-lt}
use vaios.Heap.Tlsf.Marks.{Marked, mark-Marked, unlink-Marked}
use vaios.Chain.{first-some}

abbrev pub class : ℕ → ℕ
class s = slot (mapping_insert s)

-- The lists file exactly the blocks of a map, none of 2 ^ 20 bytes or more, and the bitmaps tell
-- which lists hold a block.
pub record Indexed (st : Tlsf) (f : ℕ → Option ℕ) : Type 0 where
  pub filed : Filed class st.free f
  pub bounded : (x s : ℕ) → f x ≡ some s → s < 2 ^ 20
  pub marked : Marked st

pub reset-Indexed : (nodes : ℕ → FreeNode) → Indexed (index_reset nodes) (λ a. none)
reset-Indexed nodes = record {
  filed = empty-Filed class (index_reset nodes).free (λ c. refl);
  bounded = λ x s e. absurd (some-none (sym e));
  marked = record {
    lists = λ fl sl hf hs. bit-clear sl;
    octaves = λ fl hf. bit-clear fl;
    row-lt = λ fl hf. omega arith;
    top-lt = omega arith;
  };
}

abbrev node : Pointer → Pointer → FreeNode
node a b = record { next_free = a; prev_free = b }

-- A link that is written does not depend on the other one.
set_next-of :
    (p v : Pointer) (t u : ℕ → FreeNode) (y : ℕ)
    → nexts t y ≡ nexts u y
    → nexts (set_next p v t) y ≡ nexts (set_next p v u) y
set_next-of none v t u y e = e
set_next-of (some p) v t u y e = elim (Bool-cases (p == y)) [
  | inl s ↦ rw (nexts, s)
  | inr s ↦ rw (nexts, s) e
]

set_prev-of :
    (p v : Pointer) (t u : ℕ → FreeNode) (y : ℕ)
    → prevs t y ≡ prevs u y
    → prevs (set_prev p v t) y ≡ prevs (set_prev p v u) y
set_prev-of none v t u y e = e
set_prev-of (some p) v t u y e = elim (Bool-cases (p == y)) [
  | inl s ↦ rw (prevs, s)
  | inr s ↦ rw (prevs, s) e
]

-- The two links of a block can be written in either order.
module _ (p v q w : Pointer) (t : ℕ → FreeNode) where
  next_alike :
      (y : ℕ) → nexts (set_next p v (set_prev q w t)) y ≡ nexts (set_prev q w (set_next p v t)) y
  next_alike y =
      set_next-of p v (set_prev q w t) t y (set_prev-next q w t y)
      ∙ sym (set_prev-next q w (set_next p v t) y)

  prev_alike :
      (y : ℕ) → prevs (set_next p v (set_prev q w t)) y ≡ prevs (set_prev q w (set_next p v t)) y
  prev_alike y =
      set_next-prev p v (set_prev q w t) y
      ∙ set_prev-of q w t (set_next p v t) y (sym (set_next-prev p v t y))

  links_commute : set_next p v (set_prev q w t) ≡ set_prev q w (set_next p v t)
  links_commute = fun_ext (λ y. ap₂ (λ a b. node a b) (next_alike y) (prev_alike y))

set_prev-same :
    (p : Pointer) (t : ℕ → FreeNode) (y : ℕ) → prevs (set_prev p (prevs t y) t) y ≡ prevs t y
set_prev-same none t y = refl
set_prev-same (some p) t y = elim (Bool-cases (p == y)) [
  | inl e ↦ rw (prevs, e)
  | inr e ↦ rw (prevs, e)
]

module _ (c blk : ℕ) (st : FreeLists) where
  abbrev n : FreeNode
  n = st.nodes blk

  abbrev ahead : ℕ → FreeNode
  ahead = set_prev n.next_free n.prev_free st.nodes

  abbrev before : ℕ → FreeNode
  before = set_next n.prev_free n.next_free st.nodes

  -- The order of the writes makes no difference.
  pub unlink_free-take_out : unlink_free c blk st ≡ take_out c blk st
  unlink_free-take_out =
      let p : (ahead blk).prev_free ≡ n.prev_free = set_prev-same n.next_free st.nodes blk in
      let q : (ahead blk).next_free ≡ n.next_free =
        set_prev-next n.next_free n.prev_free st.nodes blk in
      let p' : (before blk).prev_free ≡ n.prev_free =
        set_next-prev n.prev_free n.next_free st.nodes blk in
      let q' : (before blk).next_free ≡ n.next_free = set_next-same n.prev_free st.nodes blk in
      let nodes : set_next (ahead blk).prev_free (ahead blk).next_free ahead
          ≡ set_prev (before blk).next_free (before blk).prev_free before =
        ap₂ (λ a b. set_next a b ahead) p q
        ∙ links_commute n.prev_free n.next_free n.next_free n.prev_free st.nodes
        ∙ sym (ap₂ (λ a b. set_prev a b before) q' p') in
      ap₂ lists_of (ap₂ (λ a b. move_head a c b st.free_lists) p q) nodes
    where
      lists_of : (ℕ → Pointer) → (ℕ → FreeNode) → FreeLists
      lists_of l t = record { free_lists = l; nodes = t }

unmark-free : (p q : Pointer) (at : ℕ × ℕ) (st : Tlsf) → (unmark p q at st).free ≡ st.free
unmark-free none none at st = refl
unmark-free none (some y) at st = refl
unmark-free (some x) q at st = refl

module _ (sizes : ℕ → ℕ) (st : Tlsf) (f : ℕ → Option ℕ) (a : ℕ) (d : Indexed st f) where
  abbrev at : ℕ × ℕ
  at = mapping_insert (sizes a)

  -- A block of less than 2 ^ 20 bytes that is not filed goes to the head of its list.
  pub insert-Indexed :
      f a ≡ none
      → sizes a < 2 ^ 20
      → Indexed (index_insert sizes a st) (update f a (some (sizes a)))
  unfolding index_insert
  insert-Indexed new small =
      let (hf, hs) = mapping_insert-lt (sizes a) small in
      record {
        filed = put_first-Filed class sizes st.free f a d.filed new;
        bounded = λ x s e. elim (Bool-cases (a == x)) [
          | inl q ↦ subst (λ v. v < 2 ^ 20) (some-same (rw q at e)) small
          | inr q ↦ d.bounded x s (rw q at e)
        ];
        marked =
            mark-Marked st (put_first (slot at) a st.free) at.0 at.1 hf hs d.marked
              (λ g t ht ne. rw (ne→eqb (slot at) (slot (g, t)) (λ e. ne (sym e)))) a
              (rw (eqb_refl (slot at)));
      }

  abbrev unlinked : Tlsf
  unlinked = record st { free = unlink_free (slot at) a st.free }

  -- When the lists file exactly the blocks of a map and the bitmaps tell which lists hold a block,
  -- taking a filed block out leaves them so for the map without it.
  pub remove-Indexed : f a ≡ some (sizes a) → Indexed (index_remove sizes a st) (update f a none)
  unfolding index_remove
  remove-Indexed filed =
      let (hf, hs) = mapping_insert-lt (sizes a) (d.bounded a (sizes a) filed) in
      let (b, head) = first-some a (d.filed.lists (slot at)) (d.filed.all a (sizes a) filed) in
      record {
        filed =
            subst (λ v. Filed class v (update f a none))
              (sym (
                unmark-free (ahead (slot at) a st.free a).prev_free
                  (ahead (slot at) a st.free a).next_free at unlinked
                ∙ unlink_free-take_out (slot at) a st.free))
              (take_out-Filed class sizes st.free f a d.filed filed);
        bounded = λ x s e. elim (Bool-cases (a == x)) [
          | inl q ↦ absurd (some-none (sym (rw q at e)))
          | inr q ↦ d.bounded x s (rw q at e)
        ];
        marked =
            unlink-Marked (ahead (slot at) a st.free a).prev_free
              (ahead (slot at) a st.free a).next_free st (unlink_free (slot at) a st.free).nodes
              at.0 at.1 b hf hs d.marked (d.filed.heads (slot at) ∙ head);
      }
