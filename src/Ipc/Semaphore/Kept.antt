-- ===== src/Ipc/Semaphore/Kept.antt =====
-- What blocking and waking leave alone in the control blocks.
use vaios.Base.{ℕ, ◌≡◌, refl, ◌∙◌, ◌==◌, Bool-cases, inl, inr, none, some, update_cases}
use vaios.Sched.Tcb.{Tcb, TaskStatus, Pointer, Kernel, modify, modify_kept}
use vaios.Sched.TaskList.{Store, set, set_at, walk, link_behind, enqueue_task, unlink, remove_task}
use vaios.Sched.Ready.Append.{rl_append_kept}
use vaios.Ipc.Semaphore.{add_to_blocked_list, remove_from_blocked_list, hand_over}

-- A field of a control block that is not a link of the lists is kept for every task.
module _ {A : Type 0} (field : Tcb → A)
    (free : (t : Tcb) (n p : Pointer) → field (record t { next = n; prev = p }) ≡ field t) where
  set-kept :
      (task : ℕ) (n p : Tcb → Pointer) (t : Store) (y : ℕ)
      → field (set task (λ c. record c { next = n c; prev = p c }) t y) ≡ field (t y)
  set-kept task n p t y =
      update_cases t task (record (t task) { next = n (t task); prev = p (t task) })
        (λ j c. field c ≡ field (t j)) (free (t task) (n (t task)) (p (t task))) (λ j ne. refl) y

  set_at-kept :
      (task : Pointer) (n p : Tcb → Pointer) (t : Store) (y : ℕ)
      → field (set_at task (λ c. record c { next = n c; prev = p c }) t y) ≡ field (t y)
  set_at-kept none n p t y = refl
  set_at-kept (some task) n p t y = set-kept task n p t y

  behind-kept :
      (fuel task : ℕ) (list : Pointer) (t : Store) (y : ℕ)
      → field ((link_behind fuel task list t).1 y) ≡ field (t y)
  unfolding link_behind
  behind-kept fuel task none t y = refl
  behind-kept fuel task (some head) t y =
      let curr = walk fuel t head in
      let linked = set curr (λ c. record c { next = some task }) t in
      set-kept task (λ c. c.next) (λ c. some curr) linked y
      ∙ set-kept curr (λ c. some task) (λ c. c.prev) t y

  pub enqueue_task-kept :
      (fuel task : ℕ) (list : Pointer) (t : Store) (y : ℕ)
      → field ((enqueue_task fuel (some task) list t).1 y) ≡ field (t y)
  unfolding enqueue_task
  enqueue_task-kept fuel task list t y =
      behind-kept fuel task list (set task (λ c. record c { next = none; prev = none }) t) y
      ∙ set-kept task (λ c. none) (λ c. none) t y

  unlink-kept : (task head : ℕ) (t : Store) (y : ℕ) → field ((unlink task head t).1 y) ≡ field (t y)
  unfolding unlink
  unlink-kept task head t y =
      let cut = set_at (t task).next (λ c. record c { prev = none }) t in
      let bridged = set_at (t task).prev (λ c. record c { next = (t task).next }) t in
      elim (Bool-cases (head == task)) [
        | inl e ↦ rw e (
            set_at-kept (cut task).next (λ c. c.next) (λ c. none) cut y
            ∙ set_at-kept (t task).next (λ c. c.next) (λ c. none) t y)
        | inr e ↦ rw e (
            set_at-kept (bridged task).next (λ c. c.next) (λ c. (bridged task).prev) bridged y
            ∙ set_at-kept (t task).prev (λ c. (t task).next) (λ c. c.prev) t y)
      ]

  pub remove_task-kept :
      (task : ℕ) (list : Pointer) (t : Store) (y : ℕ)
      → field ((remove_task (some task) list t).1 y) ≡ field (t y)
  unfolding remove_task
  remove_task-kept task none t y = refl
  remove_task-kept task (some head) t y =
      set-kept task (λ c. none) (λ c. none) (unlink task head t).1 y ∙ unlink-kept task head t y

pub remove_from_blocked_list_kept :
    {A : Type 0} (field : Tcb → A)
    → ((t : Tcb) (n p : Pointer) → field (record t { next = n; prev = p }) ≡ field t)
    → (task : ℕ) (k : Kernel) (y : ℕ)
    → field ((remove_from_blocked_list task k).tcbs y) ≡ field (k.tcbs y)
unfolding remove_from_blocked_list
remove_from_blocked_list_kept field free task k y =
    let (list, t) = remove_task (some task) k.blocked_list k.tcbs in
    let off : Kernel = record k { blocked_list = list; tcbs = t } in
    modify_kept field task (λ c. record c { next = none; prev = none }) off (λ c. free c none none)
      y
    ∙ remove_task-kept field free task k.blocked_list k.tcbs y

-- The rest of `hand_over` keeps what is no link and not the status.
pub hand_over_kept :
    {A : Type 0} (field : Tcb → A)
    → ((t : Tcb) (n p : Pointer) → field (record t { next = n; prev = p }) ≡ field t)
    → ((t : Tcb) (s : TaskStatus) → field (record t { status = s }) ≡ field t)
    → (task : ℕ) (k : Kernel) (y : ℕ)
    → field ((hand_over task k).tcbs y)
      ≡ field ((modify task (λ c. record c { wait_sem = none }) k).tcbs y)
unfolding hand_over
hand_over_kept field free status_free task k y =
    let granted = modify task (λ c. record c { wait_sem = none }) k in
    let unblocked = remove_from_blocked_list task granted in
    rl_append_kept field free status_free task
      (modify task (λ c. record c { status = TaskStatus.task_ready }) unblocked) y
    ∙ modify_kept field task (λ c. record c { status = TaskStatus.task_ready }) unblocked
        (λ c. status_free c TaskStatus.task_ready) y
    ∙ remove_from_blocked_list_kept field free task granted y

pub add_to_blocked_list_kept :
    {A : Type 0} (field : Tcb → A)
    → ((t : Tcb) (n p : Pointer) → field (record t { next = n; prev = p }) ≡ field t)
    → ((t : Tcb) (s : TaskStatus) → field (record t { status = s }) ≡ field t)
    → (fuel task : ℕ) (k : Kernel) (y : ℕ)
    → field ((add_to_blocked_list fuel task k).tcbs y) ≡ field (k.tcbs y)
unfolding add_to_blocked_list
add_to_blocked_list_kept field free status_free fuel task k y =
    let (list, t) = enqueue_task fuel (some task) k.blocked_list k.tcbs in
    let on : Kernel = record k { blocked_list = list; tcbs = t } in
    modify_kept field task (λ c. record c { status = TaskStatus.task_blocked }) on
      (λ c. status_free c TaskStatus.task_blocked) y
    ∙ enqueue_task-kept field free fuel task k.blocked_list k.tcbs y
