-- ===== src/Sched.antt =====
-- kernel/task.c: task control blocks, the ready lists, the scheduler and the delayed list.
pub mod Tcb
pub mod Links
pub mod Bitmap
pub mod Ready
pub mod Switch
pub mod Priority
pub mod Lookup
pub mod TaskList
pub mod Delayed
pub mod Sleep
pub mod UserMemory
pub mod Examples
