-- ===== src/Heap/Facade.antt =====
-- The public heap calls of kernel/memory/memory.c over any free-block index. The critical sections
-- make each call one step; log lines and performance hooks are left out, and so is the panic of
-- HEAP_WATERMARK_ENABLE, which is off by default.
use vaios.Base.{
  ℕ, ◌+◌, ◌-◌, ◌*◌, Bool, true, false, not, ◌&&◌, ◌||◌, ltb, leb, ◌==◌, if◌then◌else◌, Option, none,
  some, update,
}
use vaios.Machine.{add32, sub32}
use vaios.Heap.Blocks.{
  Block, BlockStatus, mem_free, mem_aloc, Pointer, sanity_magic, header, min_payload, payload_need,
}
use vaios.Heap.Index.{FreeIndex}

-- `_heap_start` and HEAP_SIZE
pub record Arena : Type 0 where
  pub start : ℕ
  pub heap_size : ℕ

pub record Heap (S : Type 0) : Type 0 where
  pub blocks : ℕ → Block
  pub heap_mem_head : Pointer
  pub index : S
  pub allocation_count : ℕ
  pub allocation_size : ℕ
  pub vheap_find_probes : ℕ

abbrev pub is_free : BlockStatus → Bool
is_free mem_free = true
is_free mem_aloc = false

abbrev pub is_sane : Block → Bool
is_sane b = b.magic_number == sanity_magic

-- `in_heap`
abbrev pub in_heap : Arena → Pointer → ℕ → Bool
in_heap r none p = false
in_heap r (some head) p = leb head p && ltb p (head + r.heap_size)

-- The block behind `blk`.
abbrev pub block_after : (ℕ → Block) → ℕ → ℕ
block_after b blk = blk + header + (b blk).size

abbrev pub set_size : ℕ → ℕ → (ℕ → Block) → ℕ → Block
set_size blk size b = update b blk (record (b blk) { size = size })

abbrev pub set_status : ℕ → BlockStatus → (ℕ → Block) → ℕ → Block
set_status blk status b = update b blk (record (b blk) { status = status })

-- `fixup_next_prev`
unfoldable pub fixup_next_prev : Arena → Pointer → ℕ → (ℕ → Block) → ℕ → Block
fixup_next_prev r head blk b =
    let after = block_after b blk in
    if in_heap r head after && is_sane (b after)
    then update b after (record (b after) { prev = some blk })
    else b

abbrev pub sizes : (ℕ → Block) → ℕ → ℕ
sizes b a = (b a).size

module _ (x : FreeIndex) (r : Arena) where
  open x use {State, vheap_index_reset, vheap_index_insert, vheap_index_remove, vheap_index_find}

  unfoldable pub unfile : ℕ → Heap State → Heap State
  unfile blk h = record h { index = vheap_index_remove (sizes h.blocks) blk h.index }

  unfoldable pub file : ℕ → Heap State → Heap State
  file blk h = record h { index = vheap_index_insert (sizes h.blocks) blk h.index }

  -- `v_heap_memory_init`; `none` is the panic on a heap that does not fit in RAM
  unfoldable pub v_heap_memory_init : (ℕ → Bool) → Heap State → Option (Heap State)
  unfolding file
  v_heap_memory_init is_ram h =
      let head = r.start in
      let whole : Block = record {
        magic_number = sanity_magic;
        size = r.heap_size - header;
        status = mem_free;
        prev = none;
      } in
      let cleared : ℕ → Block =
        λ a. record { magic_number = 0; size = 0; status = mem_free; prev = none } in
      if not (is_ram (head + r.heap_size - 1))
      then none
      else some (
          file head (record h {
            blocks = update cleared head whole;
            heap_mem_head = some head;
            index = vheap_index_reset;
            allocation_count = 0;
            allocation_size = 0;
          }))

  -- The residual behind the first `need` bytes of `blk` becomes a free block, if it can hold a
  -- header and the links.
  unfoldable pub split_residual : ℕ → ℕ → Heap State → Heap State
  unfolding file
  split_residual blk need h =
      let res = blk + header + need in
      let size = (h.blocks blk).size in
      let residual : Block = record {
        magic_number = sanity_magic;
        size = size - need - header;
        status = mem_free;
        prev = some blk;
      } in
      let linked = fixup_next_prev r h.heap_mem_head res (update h.blocks res residual) in
      if leb (add32 (add32 need header) min_payload) size
      then file res (record h { blocks = set_size blk need linked })
      else h

  unfoldable pub mark_used : ℕ → Heap State → Heap State
  mark_used blk h = record h {
    blocks = set_status blk mem_aloc h.blocks;
    allocation_count = add32 h.allocation_count 1;
    allocation_size = add32 h.allocation_size (h.blocks blk).size;
  }

  -- The branch on what the index found.
  unfoldable pub claim : ℕ → Pointer → Heap State → Pointer × Heap State
  unfolding unfile split_residual mark_used
  claim need none h = (none, h)
  claim need (some blk) h =
      (some (blk + header), mark_used blk (split_residual blk need (unfile blk h)))

  -- `v_malloc`
  unfoldable pub v_malloc : ℕ → Heap State → Pointer × Heap State
  unfolding claim
  v_malloc size h = elim h.heap_mem_head [
    | none ↦ (none, h)
    | some head ↦
        let need = payload_need size in
        let (found, probes) = vheap_index_find (sizes h.blocks) need h.index in
        if size == 0 then (none, h) else claim need found (record h { vheap_find_probes = probes })
  ]

  -- `blk` takes up the block behind it, `next`, with its header.
  unfoldable pub absorb : ℕ → ℕ → Heap State → Heap State
  absorb blk next h =
      let size = add32 (h.blocks blk).size (header + (h.blocks next).size) in
      let grown = set_size blk size h.blocks in
      record h { blocks = fixup_next_prev r h.heap_mem_head blk grown }

  unfoldable pub coalesce_forward : ℕ → Heap State → Heap State
  unfolding unfile absorb
  coalesce_forward blk h =
      let next = block_after h.blocks blk in
      if in_heap r h.heap_mem_head next && is_sane (h.blocks next) && is_free (h.blocks next).status
      then absorb blk next (unfile next h)
      else h

  -- The merged block beside the state.
  unfoldable pub coalesce_with : Pointer → ℕ → Heap State → ℕ × Heap State
  unfolding unfile absorb
  coalesce_with none blk h = (blk, h)
  coalesce_with (some prev) blk h =
      if is_sane (h.blocks prev) && is_free (h.blocks prev).status
      then (prev, absorb prev blk (unfile prev h))
      else (blk, h)

  unfoldable pub mark_free : ℕ → Heap State → Heap State
  mark_free blk h = record h {
    blocks = set_status blk mem_free h.blocks;
    allocation_count = sub32 h.allocation_count 1;
    allocation_size = sub32 h.allocation_size (h.blocks blk).size;
  }

  -- What `v_free` does with a block that passes its checks.
  unfoldable pub release : ℕ → Heap State → Heap State
  unfolding mark_free coalesce_forward coalesce_with file
  release blk h =
      let ahead = coalesce_forward blk (mark_free blk h) in
      let (merged, h') = coalesce_with (ahead.blocks blk).prev blk ahead in file merged h'

  -- `v_free`
  unfoldable pub v_free : Pointer → Heap State → Heap State
  unfolding release
  v_free none h = h
  v_free (some ptr) h =
      let blk = sub32 ptr header in
      elim h.heap_mem_head [
        | none ↦ h
        | some head ↦
            if not (in_heap r (some head) blk) || not (is_sane (h.blocks blk))
            then h
            else if is_free (h.blocks blk).status
            then h
            else release blk h
      ]

  -- `v_get_heap_allocation_size`
  unfoldable pub v_get_heap_allocation_size : Heap State → ℕ
  v_get_heap_allocation_size h = add32 h.allocation_size (header * h.allocation_count)
