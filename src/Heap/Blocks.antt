-- ===== src/Heap/Blocks.antt =====
-- The block headers of include/memory.h and the free-list links of kernel/memory/heap_internal.h.
-- A pointer to a header is its address. A header is looked up by its address alone: what a write to
-- a payload does to headers that stood there before is left out, and nothing reads those.
use vaios.Base.{ℕ, Option, ◌*◌, ◌/◌, if◌then◌else◌, ltb}
use vaios.Machine.{add32}

abbrev pub Pointer : Type 0
Pointer = Option ℕ

pub data BlockStatus : Type 0 where
  mem_free mem_aloc : BlockStatus

pub record Block : Type 0 where
  pub magic_number : ℕ
  pub size : ℕ
  pub status : BlockStatus
  pub prev : Pointer

-- SANITY_MAGIC_NUMBER
abbrev pub sanity_magic : ℕ
sanity_magic = 20

-- `sizeof(Heap_Mem_Block)`
abbrev pub header : ℕ
header = 16

-- VHEAP_MIN_PAYLOAD on the 32-bit target
abbrev pub min_payload : ℕ
min_payload = 8

-- `(size + (VHEAP_ALIGN - 1)) & ~(VHEAP_ALIGN - 1)` in 32 bits, at least VHEAP_MIN_PAYLOAD. The mask
-- clears the low three bits.
unfoldable pub payload_need : ℕ → ℕ
payload_need size =
    let need = add32 size 7 / 8 * 8 in if ltb need min_payload then min_payload else need
