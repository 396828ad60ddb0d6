-- ===== src/Heap/FreeLists.antt =====
-- The lists of free blocks that kernel/memory/seglist.c and kernel/memory/tlsf.c keep, one for each
-- class of sizes.
pub mod Links
pub mod Files
pub mod Remove
use vaios.Base.{ℕ, none, some, update}
use vaios.Heap.Blocks.{Pointer}

-- `FreeNode` of kernel/memory/heap_internal.h, in the payload of a free block
pub record FreeNode : Type 0 where
  pub next_free : Pointer
  pub prev_free : Pointer

pub record FreeLists : Type 0 where
  pub free_lists : ℕ → Pointer
  pub nodes : ℕ → FreeNode

-- `VHEAP_FREE_NODE(p)->next_free = v`, if `p` is not NULL
abbrev pub set_next : Pointer → Pointer → (ℕ → FreeNode) → ℕ → FreeNode
set_next none v t = t
set_next (some p) v t = update t p (record (t p) { next_free = v })

abbrev pub set_prev : Pointer → Pointer → (ℕ → FreeNode) → ℕ → FreeNode
set_prev none v t = t
set_prev (some p) v t = update t p (record (t p) { prev_free = v })

-- The block goes to the head of class `c`.
abbrev pub put_first : ℕ → ℕ → FreeLists → FreeLists
put_first c blk st =
    let head = st.free_lists c in
    let node : FreeNode = record { next_free = head; prev_free = none } in
    record {
      free_lists = update st.free_lists c (some blk);
      nodes = set_prev head (some blk) (update st.nodes blk node);
    }

-- The head of a class moves on if the block had none before it.
abbrev pub move_head : Pointer → ℕ → Pointer → (ℕ → Pointer) → ℕ → Pointer
move_head none c v lists = update lists c v
move_head (some p) c v lists = lists

-- The block leaves class `c`: the one before it is written first.
abbrev pub take_out : ℕ → ℕ → FreeLists → FreeLists
take_out c blk st =
    let n = st.nodes blk in
    let before = set_next n.prev_free n.next_free st.nodes in
    record {
      free_lists = move_head n.prev_free c n.next_free st.free_lists;
      nodes = set_prev (before blk).next_free (before blk).prev_free before;
    }
