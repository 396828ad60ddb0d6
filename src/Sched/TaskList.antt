-- ===== src/Sched/TaskList.antt =====
-- The lists with a head pointer only, of kernel/task.c: `enqueue_task`, `remove_task`, `peek_task`
-- and `dequeue_task`, which keep the blocked and the delayed list. A list is its head beside the
-- store of the TCBs.
pub mod Laws
use vaios.Base.{ℕ, zero, suc, Option, none, some, update, ◌==◌, if◌then◌else◌}
use vaios.Sched.Tcb.{Tcb, Pointer}

abbrev pub Store : Type 0
Store = ℕ → Tcb

-- `*task` changed by `change`.
abbrev pub set : ℕ → (Tcb → Tcb) → Store → Store
set task change t = update t task (change (t task))

-- The same under a test for NULL.
abbrev pub set_at : Pointer → (Tcb → Tcb) → Store → Store
set_at none change t = t
set_at (some task) change t = set task change t

-- `while (curr->next) curr = curr->next;` for `n` rounds at most
unfoldable pub walk : ℕ → Store → ℕ → ℕ
walk zero t curr = curr
walk (suc n) t curr = elim (t curr).next [ none ↦ curr | some after ↦ walk n t after ]

-- The branch of `enqueue_task` on whether the list is empty.
unfoldable pub link_behind : ℕ → ℕ → Pointer → Store → Pointer × Store
link_behind fuel task none t = (some task, t)
link_behind fuel task (some head) t =
    let curr = walk fuel t head in
    let linked = set curr (λ c. record c { next = some task }) t in
    (some head, set task (λ c. record c { prev = some curr }) linked)

-- `enqueue_task`, with `fuel` for the walk to the end
unfoldable pub enqueue_task : ℕ → Pointer → Pointer → Store → Pointer × Store
enqueue_task fuel none list t = (list, t)
enqueue_task fuel (some task) list t =
    link_behind fuel task list (set task (λ c. record c { next = none; prev = none }) t)

-- The branch of `remove_task` on whether the task is the first one.
unfoldable pub unlink : ℕ → ℕ → Store → Pointer × Store
unlink task head t =
    let new_head = (t task).next in
    let cut = set_at new_head (λ c. record c { prev = none }) t in
    let bridged = set_at (t task).prev (λ c. record c { next = (t task).next }) t in
    if head == task
    then (new_head, set_at (cut task).next (λ c. record c { prev = none }) cut)
    else (
      some head,
      set_at (bridged task).next (λ c. record c { prev = (bridged task).prev }) bridged,
    )

-- `remove_task`
unfoldable pub remove_task : Pointer → Pointer → Store → Pointer × Store
remove_task none list t = (list, t)
remove_task (some task) none t = (none, t)
remove_task (some task) (some head) t =
    let (list, unlinked) = unlink task head t in
    (list, set task (λ c. record c { next = none; prev = none }) unlinked)

-- `peek_task`, of a list that is there
abbrev pub peek_task : Pointer → Pointer
peek_task list = list

-- `dequeue_task`
unfoldable pub dequeue_task : Pointer → Store → Pointer × Pointer × Store
dequeue_task list t =
    let task = peek_task list in let (list', t') = remove_task task list t in (task, list', t')
