-- ===== src/Ipc.antt =====
-- kernel/ipc.c: wait queues, semaphores and mutexes.
pub mod WaitQueue
pub mod Semaphore
pub mod Mutex
pub mod Timeout
pub mod Examples
