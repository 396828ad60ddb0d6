-- ===== src/Lib.antt =====
-- vaios: a small real-time kernel in C, and what this library proves of it.
--
-- The parts. A task runs until the scheduler (kernel/task.c) switches: PendSV calls
-- `get_next_task`, which puts a task that still runs back on its ready list and takes the first one
-- of the highest priority. The ready lists are doubly linked queues with a bitmap of the levels that
-- are not empty. Interrupt handlers and tasks hand data over through lock-free FIFOs
-- (kernel/structure.c), which clamp corrupted indices. The heap (kernel/memory) cuts its arena into
-- blocks and files the free ones in an index, of which a build has one of two. Semaphores
-- and mutexes (kernel/ipc.c) block tasks in queues of their own and wake them through the
-- scheduler. The message queues, the files, the buses and the shell stand on these.
--
-- The files:
--   * Base, Base/Tests, Base/Lists: library names passed on, Boolean tests with what they decide,
--     lists measured by native numbers, families updated at one index.
--   * Machine: 32-bit arithmetic with its wrap-around written out, byte memory, `v_memcpy` of
--     kernel/utils.c. Machine/Bits: the bits of a word and the scans for the lowest and highest one.
--   * Spsc: `spsc_*` of kernel/structure.c. Fifo has the descriptor and the counts, Copy the two-part
--     copies, Access write, read and peek, Direct the calls without a copy. Queue says what list a
--     FIFO holds; Write, Read, Overwrite, Confined and Direct/Laws prove the calls against it.
--   * Mpmc: `mpmc_*` of kernel/structure.c, the queue between tasks. Ring says what items it holds,
--     Locked what the parts under its mutex do to them, Calls what one call does. Tasks has the steps
--     of any number of tasks in pushes and pops, Permits the invariant of its semaphores, Trace the
--     bounded queue that all interleavings come to.
--   * Sched: kernel/task.c. Tcb has the control block and the global state, Links linked lists as
--     sequences of addresses, Bitmap the ready bitmap, Ready `rl_append`, `rl_pop_head` and
--     `rl_remove`, Ready/View the agreement of the lists with abstract queues, which Ready/Append,
--     Ready/Pop and Ready/Remove prove kept. Switch is `get_next_task`, Switch/Rotate its theorems.
--     Priority is `task_change_priority`, UserMemory the checks of pointers from tasks, TaskList the
--     lists with a head pointer only with their laws, Delayed the insertion into the delayed list,
--     Sleep `task_delay` and `task_delay_until`, Lookup `get_task_by_id`.
--   * Chain: doubly linked lists through two families of links, for the tasks and the free blocks;
--     Chain/Between says where a new member of a sorted sequence stands.
--   * Heap: kernel/memory. Blocks has the headers, Index the contract of heap_internal.h as
--     operations with laws, Facade the calls of memory.c over any index. Tiles, Surgery and
--     FreeMap say what header writes do to the sequence of blocks; View has the invariant, which
--     Malloc, Alloc, Release and Free prove kept. Guard and Twice are about double frees, Calls
--     about the start of the heap and one call after another, Live and Refine about the blocks
--     that callers hold. Seglist is seglist.c; Seglist/Remove and Seglist/Find prove that it fills
--     the contract, Seglist/Fit what the two give together. Tlsf is tlsf.c: Tlsf/Mapping and
--     Tlsf/Order are about its octaves, Tlsf/Bitmaps and Tlsf/Marks about its bitmaps, Tlsf/Files
--     and Tlsf/Find prove that it fills the contract too. FreeLists has the lists of both.
--   * Ipc: kernel/ipc.c. WaitQueue is the queue of the waiting tasks, WaitQueue/Chained and
--     WaitQueue/Laws its sequence of tasks; Semaphore is take and give, Mutex lock and unlock with
--     priority inheritance, each with its Laws; Semaphore/Kept says what waking leaves alone.
--     WaitQueue/Remove takes a task off its queue, and Timeout is `wake_up_delayed_tasks_isr` of
--     kernel/task.c, which ends the waits whose time is over.
--   * Format: the number formatting of kernel/utils.c. Reverse is `reverse`, Digits the loop over the
--     digits, Number the text that it makes; Reader is a reader of numbers, which Parse applies, and
--     Extent is about the bytes that are written.
--   * Kmsg: the log ring of kernel/utils.c. Last has the last elements of a list, Append and Read the
--     calls.
--   * Pbus: the job queue of kernel/periph_bus.c. Queue has the queue as a sequence of jobs and what
--     agrees with it, Enqueue and Arbiter the insertion, Dispatch and Served the hand-over of the bus,
--     Calls the calls.
--   * Spsc/Examples, Mpmc/Examples, Format/Examples, Kmsg/Examples, Pbus/Examples, Sched/Examples,
--     Heap/Examples, Heap/Tlsf/Examples and Ipc/Examples: the theorems applied to concrete data.
--
-- The correspondence. Definitions have the names of the functions they translate; a branch that
-- became a helper is named for what it does. A pointer is an address, NULL is `none` for a task and
-- 0 for a buffer; global variables are fields of `Kernel`, and a store through a pointer updates the
-- family `tcbs`. A critical section, or the masked PendSV handler, makes each call one step.
-- MAX_PRIORITY is 7, its default. VAIOS_MODULE_PERF is on for the FIFOs (`peak`, `drops`).
-- The walks of `enqueue_task` and `add_to_delayed_list` and of a wait queue have fuel, for which a
-- round for every task on the list is enough, as is one for every held mutex in the walks of an
-- unlock. The walk through a size class has fuel, for which one block more than the arena has room
-- for is enough. MAX_PI_DEPTH is a parameter. The other loops run over a count.
-- The drains of `mpmc_reset` have fuel, for which one round more than there are permits is enough.
-- A take or lock that waits is the call up to the switch, and `take_resume` what follows it.
--
-- The heap's headers are a family over addresses, and the links of free blocks another: writes of
-- callers into payloads are left out, and so is what they leave where a later header will stand. The
-- theorems on the heap ask that the arena and one header more end before the address space does.
-- An index of free blocks has a limit for the sizes of blocks and one for requests: 2 ^ 20 and
-- 2 ^ 20 - 2 ^ 15 bytes for TLSF, whose source asserts the first one for HEAP_SIZE.
-- HEAP_WATERMARK_ENABLE is off, its default; log lines are left out. `none` from
-- `v_heap_memory_init` is the panic on an arena that runs past the end of RAM.
--
-- In Mpmc a semaphore is its count of permits, and a semaphore call or a part under the mutex one
-- step: Ipc is about how they do this.
--
-- The walk of `enqueue` in Pbus has fuel, for which a round for every queued job is enough, and so has
-- the loop of `dispatch`, for which one round more is, when the hooks of jobs leave the queue no
-- longer or the bus in use. These hooks are the parameter `hook`, and what `start` answers, call by
-- call, is `answer`; a semaphore is its permit. Resubmit has the hooks that submit their jobs again.
-- The loop over the digits of a number has fuel for 64, which a number of 64 bits does not exceed.
-- A `char` is its code. `none` from `itoa_simple` is the overflow of its negation, which C does not
-- define.
--
-- Not modelled: the lock slots, the cyclic jobs and the file descriptors of kernel/periph_bus.c,
-- the interpretation of format strings, `v_atof` and the double-buffered log in kernel/utils.c,
-- aligned allocation and the heaps of tasks in kernel/memory/memory.c, the queues that tasks reach
-- by descriptors in kernel/structure.c, the parts of kernel/task.c beyond those above, the
-- descriptors, the wait on several of them and the teardown of a task in kernel/ipc.c, and the
-- files above these, which call them. Left out of what is modelled: the stack watermark and the
-- performance hooks of `get_next_task`, fields of the control block that only the port, the MPU or
-- the file layer read, addresses that wrap round at the end of the address space, and the memory
-- barriers. `v_port_ptr_is_ram` of the port layer (portable/) is the parameter `is_ram`, and
-- `v_port_user_region` is `user_region`.
pub mod Base
pub mod Machine
pub mod Chain
pub mod Heap
pub mod Ipc
pub mod Spsc
pub mod Mpmc
pub mod Format
pub mod Kmsg
pub mod Pbus
pub mod Sched
