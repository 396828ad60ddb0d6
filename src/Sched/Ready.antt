-- ===== src/Sched/Ready.antt =====
-- The ready-list primitives of kernel/task.c. The critical sections around their callers make each
-- call one step.
pub mod View
pub mod Append
pub mod Splice
pub mod Pop
pub mod Remove
use vaios.Base.{ℕ, Option, none, some, update}
use vaios.Sched.Tcb.{Pointer, Tcb, TaskStatus, Kernel, modify, modify_at}
use vaios.Sched.Bitmap.{rb_set, rb_clear, highest_ready_prio}

-- The branch of `rl_append` on whether list `p` has a head.
pub link_last : Pointer → ℕ → ℕ → Kernel → Kernel
link_last (some head) p task k = modify_at (k.ready_tails p) (λ t. record t { next = some task }) k
link_last none p task k = record k {
  ready_lists = update k.ready_lists p (some task);
  ready_bitmap = rb_set p k.ready_bitmap;
}

-- `rl_append`
unfoldable pub rl_append : ℕ → Kernel → Kernel
unfolding link_last
rl_append task k =
    let p = (k.tcbs task).priority in
    let linked = modify task (λ t. record t { next = none; prev = k.ready_tails p }) k in
    let k' = link_last (linked.ready_lists p) p task linked in
    modify task (λ t. record t { status = TaskStatus.task_ready })
      (record k' { ready_tails = update k'.ready_tails p (some task) })

-- The branch of `rl_pop_head` on whether the head had a successor.
pub shift_head : Pointer → ℕ → Kernel → Kernel
shift_head (some next) p k = modify next (λ t. record t { prev = none }) k
shift_head none p k = record k {
  ready_tails = update k.ready_tails p none;
  ready_bitmap = rb_clear p k.ready_bitmap;
}

pub pop_at : Pointer → ℕ → Kernel → Pointer × Kernel
unfolding shift_head
pop_at none p k = (none, k)
pop_at (some t) p k =
    let next = (k.tcbs t).next in
    let k' = shift_head next p (record k { ready_lists = update k.ready_lists p next }) in
    (some t, modify t (λ c. record c { next = none; prev = none }) k')

-- `rl_pop_head`; its caller sees to it that list `p` is not empty
unfoldable pub rl_pop_head : ℕ → Kernel → Pointer × Kernel
unfolding pop_at
rl_pop_head p k = pop_at (k.ready_lists p) p k

-- The two branches of `rl_remove` on the neighbours of the task.
pub unlink_before : Pointer → ℕ → ℕ → Kernel → Kernel
unlink_before (some b) p task k = modify b (λ t. record t { next = (k.tcbs task).next }) k
unlink_before none p task k = record k { ready_lists = update k.ready_lists p (k.tcbs task).next }

pub unlink_after : Pointer → ℕ → ℕ → Kernel → Kernel
unlink_after (some a) p task k = modify a (λ t. record t { prev = (k.tcbs task).prev }) k
unlink_after none p task k = record k { ready_tails = update k.ready_tails p (k.tcbs task).prev }

-- `if (!ready_lists[p]) rb_clear(p);`
pub clear_if_empty : Pointer → ℕ → Kernel → Kernel
clear_if_empty (some head) p k = k
clear_if_empty none p k = record k { ready_bitmap = rb_clear p k.ready_bitmap }

-- `rl_remove`; its caller sees to it that the task is on its list
unfoldable pub rl_remove : ℕ → Kernel → Kernel
unfolding unlink_before unlink_after clear_if_empty
rl_remove task k =
    let p = (k.tcbs task).priority in
    let joined = unlink_before (k.tcbs task).prev p task k in
    let spliced = unlink_after (joined.tcbs task).next p task joined in
    let marked = clear_if_empty (spliced.ready_lists p) p spliced in
    modify task (λ c. record c { next = none; prev = none }) marked
