-- ===== src/Heap.antt =====
-- kernel/memory: the heap facade and its free-block indexes.
pub mod Blocks
pub mod Index
pub mod FreeLists
pub mod Seglist
pub mod Tlsf
pub mod Facade
pub mod Tiles
pub mod Surgery
pub mod FreeMap
pub mod View
pub mod Malloc
pub mod Alloc
pub mod Release
pub mod Free
pub mod Guard
pub mod Twice
pub mod Calls
pub mod Live
pub mod Refine
pub mod Examples
