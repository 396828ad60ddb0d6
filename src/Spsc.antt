-- ===== src/Spsc.antt =====
-- kernel/structure.c, the single-producer single-consumer FIFO (`spsc_*`), as built with
-- VAIOS_MODULE_PERF. A FIFO is passed by value and the changed one returned; the element storage is
-- in the byte memory, at the address `buffer`, with 0 for NULL. `f` itself is never NULL here.
-- V_PORT_MB has no effect on one thread's view of memory and is left out.
pub mod Fifo
pub mod Copy
pub mod Access
pub mod Queue
pub mod Write
pub mod Read
pub mod Overwrite
pub mod Confined
pub mod Direct
pub mod Examples
