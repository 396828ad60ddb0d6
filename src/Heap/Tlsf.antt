-- ===== src/Heap/Tlsf.antt =====
-- kernel/memory/tlsf.c: free blocks in doubly linked lists by octave and by sixteenth of an octave,
-- with a bitmap of the octaves and one for each octave that tell which lists hold a block.
pub mod Mapping
pub mod Order
pub mod Bitmaps
pub mod Marks
pub mod Files
pub mod Find
mod Examples
use Prim.Native.Nat.{bit_and, bit_or, bit_xor}
use vaios.Base.{ℕ, ◌+◌, ◌-◌, ◌*◌, ◌/◌, ◌%◌, ◌^◌, ltb, leb, ◌==◌, if◌then◌else◌, none, some, update}
use vaios.Machine.{word_mod, add32}
use vaios.Machine.Bits.{inverted, from_bit, leading_zeros, trailing_zeros}
use vaios.Heap.Blocks.{Pointer}
use vaios.Heap.FreeLists.{FreeNode, FreeLists, set_next, set_prev, move_head, put_first}

-- `blocks`, row after row in `free`, with the two levels of bitmaps
pub record Tlsf : Type 0 where
  pub free : FreeLists
  pub fl_bitmap : ℕ
  pub sl_bitmap : ℕ → ℕ

-- SMALL_BLOCK_SIZE
abbrev pub small_block : ℕ
small_block = 128

-- FL_INDEX_COUNT and SL_INDEX_COUNT
abbrev pub fl_count : ℕ
fl_count = 14

abbrev pub sl_count : ℕ
sl_count = 16

-- The place of `blocks[fl][sl]` in the rows.
abbrev pub slot : ℕ × ℕ → ℕ
slot (fl, sl) = fl * sl_count + sl

-- `tlsf_fls`
abbrev pub tlsf_fls : ℕ → ℕ
tlsf_fls x = 31 - leading_zeros 32 x

-- `tlsf_ffs`
abbrev pub tlsf_ffs : ℕ → ℕ
tlsf_ffs x = trailing_zeros 32 x

-- `mapping_insert`
unfoldable pub mapping_insert : ℕ → ℕ × ℕ
mapping_insert size =
    if ltb size small_block
    then (0, size / (small_block / sl_count))
    else (tlsf_fls size - 6, bit_xor (size / 2 ^ (tlsf_fls size - 4)) sl_count)

-- `mapping_search`
unfoldable pub mapping_search : ℕ → ℕ × ℕ
mapping_search size =
    mapping_insert (if leb small_block size then add32 size (2 ^ (tlsf_fls size - 4) - 1) else size)

-- `vheap_index_reset`, which leaves the payloads alone
abbrev pub index_reset : (ℕ → FreeNode) → Tlsf
index_reset nodes = record {
  free = record { free_lists = λ c. none; nodes = nodes };
  fl_bitmap = 0;
  sl_bitmap = λ fl. 0;
}

-- The bits of a list that holds a block.
abbrev pub mark : ℕ × ℕ → Tlsf → Tlsf
mark (fl, sl) st = record st {
  fl_bitmap = bit_or st.fl_bitmap (2 ^ fl % word_mod);
  sl_bitmap = update st.sl_bitmap fl (bit_or (st.sl_bitmap fl) (2 ^ sl % word_mod));
}

-- `vheap_index_insert`
unfoldable pub index_insert : (ℕ → ℕ) → ℕ → Tlsf → Tlsf
index_insert sizes blk st =
    let at = mapping_insert (sizes blk) in
    mark at (record st { free = put_first (slot at) blk st.free })

-- The octave's bit goes when its last list has gone.
abbrev pub clear_octave : ℕ → Tlsf → Tlsf
clear_octave fl st = record st {
  fl_bitmap = if st.sl_bitmap fl == 0 then bit_and st.fl_bitmap (inverted fl) else st.fl_bitmap;
}

-- The bits of a list that `blk`, with these neighbours, was the only block of.
abbrev pub unmark : Pointer → Pointer → ℕ × ℕ → Tlsf → Tlsf
unmark none none (fl, sl) st =
    clear_octave fl
      (record st { sl_bitmap = update st.sl_bitmap fl (bit_and (st.sl_bitmap fl) (inverted sl)) })
unmark none (some next) at st = st
unmark (some prev) next at st = st

-- The block after is written first, then the one before or the head of the list.
abbrev pub unlink_free : ℕ → ℕ → FreeLists → FreeLists
unlink_free c blk st =
    let n = st.nodes blk in
    let ahead = set_prev n.next_free n.prev_free st.nodes in
    record {
      free_lists = move_head (ahead blk).prev_free c (ahead blk).next_free st.free_lists;
      nodes = set_next (ahead blk).prev_free (ahead blk).next_free ahead;
    }

-- `vheap_index_remove`
unfoldable pub index_remove : (ℕ → ℕ) → ℕ → Tlsf → Tlsf
index_remove sizes blk st =
    let at = mapping_insert (sizes blk) in
    let n = st.free.nodes blk in
    let ahead = set_prev n.next_free n.prev_free st.free.nodes in
    unmark (ahead blk).prev_free (ahead blk).next_free at
      (record st { free = unlink_free (slot at) blk st.free })

-- The head of the lowest list of an octave among those that `sl_map` has.
abbrev pub lowest_list : ℕ → ℕ → Tlsf → Pointer
lowest_list fl sl_map st = st.free.free_lists (slot (fl, tlsf_ffs sl_map))

-- The lowest octave among those that `fl_map` has.
abbrev pub climb : ℕ → Tlsf → Pointer × ℕ
climb fl_map st =
    if fl_map == 0
    then (none, 1)
    else (lowest_list (tlsf_ffs fl_map) (st.sl_bitmap (tlsf_ffs fl_map)) st, 2)

-- `vheap_index_find`, with the probes
unfoldable pub index_find : ℕ → Tlsf → Pointer × ℕ
index_find size st =
    let (fl, sl) = mapping_search size in
    let sl_map = bit_and (st.sl_bitmap fl) (from_bit sl) in
    if sl_map == 0
    then climb (bit_and st.fl_bitmap (from_bit (fl + 1))) st
    else (lowest_list fl sl_map st, 1)
