-- ===== src/Sched/Switch/Rotate.antt =====
-- `get_next_task` as a whole: round robin within a priority, and the idle task when none is ready.
use vaios.Base.{
  ℕ, ◌≡◌, ◌≢◌, ◌≤◌, ◌∙◌, refl, sym, ap, subst, Bool, true, false, inl, inr, ◌⊎◌, List, [], ◌∷◌,
  ◌++◌, none, some, Option, update, update_cases, arith, eqb_refl,
}
use vaios.Sched.Tcb.{Kernel, TaskStatus, max_priority}
use vaios.Chain.{In, In-snoc, NotIn}
use vaios.Sched.Bitmap.{highest_ready_prio}
use vaios.Sched.Ready.{rl_append}
use vaios.Sched.Ready.View.{Holds}
use vaios.Sched.Ready.Append.{rl_append-Holds}
use vaios.Sched.Switch.{
  is_running, account, requeue, choose, switched, dispatch, finish, get_next_task,
}
use vaios.Sched.Switch.Frame.{Alike, Holds-frame, Holds-modify, Holds-counters}
use vaios.Sched.Switch.Choice.{Dispatched, switched-Dispatched}

snoc-nonempty : (xs : List ℕ) (x : ℕ) → (xs ++ (x ∷ [])) ≢ []
snoc-nonempty [] x e = ground arith
snoc-nonempty (y ∷ ys) x e = ground arith

not_running : (s : TaskStatus) → s ≢ TaskStatus.task_running → is_running s ≡ false
not_running TaskStatus.task_running n = absurd (n refl)
not_running TaskStatus.task_ready n = refl
not_running TaskStatus.task_blocked n = refl
not_running TaskStatus.task_delayed n = refl
not_running TaskStatus.task_terminated n = refl

-- The accounting changes nothing that a list depends on.
account-Alike : (c : ℕ) (k : Kernel) (y : ℕ) → Alike ((account c k).tcbs y) (k.tcbs y)
unfolding account
account-Alike c k y =
    update_cases k.tcbs c _ (λ i t. Alike t (k.tcbs i))
      (record { same_next = refl; same_prev = refl; same_priority = refl; same_status = refl })
      (λ i ne. record {
        same_next = refl;
        same_prev = refl;
        same_priority = refl;
        same_status = refl;
      })
      y

account-Holds : (c : ℕ) {k : Kernel} {q : ℕ → List ℕ} → Holds k q → Holds (account c k) q
unfolding account
account-Holds c {k} {q} h =
    Holds-counters (account c k) (Holds-frame (account c k).tcbs h (λ p y m. account-Alike c k y))
      refl refl refl refl

account-idle : (c : ℕ) (k : Kernel) → (account c k).idle_task ≡ k.idle_task
unfolding account
account-idle c k = refl

get_next_at :
    (is_ram : ℕ → Bool) (k : Kernel) (c : ℕ)
    → k.current_task ≡ some c
    → get_next_task is_ram k ≡ switched is_ram c (requeue c (account c k))
unfolding get_next_task
get_next_at is_ram k c e = rw e

-- What is left when no level has a task.
pub record Idled (i : ℕ) (q : ℕ → List ℕ) (outcome : Option Kernel) : Type 0 where
  pub result : Kernel
  pub returns : outcome ≡ some result
  pub all_empty : (p : ℕ) → q p ≡ []
  pub is_current : result.current_task ≡ some i
  pub runs : (result.tcbs i).status ≡ TaskStatus.task_running
  pub queued : Holds result q

module _ (c i : ℕ) {k : Kernel} {q : ℕ → List ℕ} (h : Holds k q) (empty : (p : ℕ) → q p ≡ []) where
  abbrev idle_chosen : Kernel
  idle_chosen = record k { current_task = some i }

  idle-Holds : Holds (dispatch idle_chosen) q
  unfolding dispatch
  idle-Holds =
      Holds-counters (dispatch idle_chosen)
        (Holds-modify i (λ t. record t { status = TaskStatus.task_running }) h
          (λ p. subst (NotIn i) (sym (empty p)) tt))
        refl refl refl refl

  idle-Idled :
      (is_ram : ℕ → Bool)
      → k.idle_task ≡ some i
      → is_running (k.tcbs c).status ≡ false
      → highest_ready_prio k.ready_bitmap ≡ none
      → Idled i q (switched is_ram c k)
  unfolding switched choose dispatch
  idle-Idled is_ram idle off n = record {
    result = dispatch idle_chosen;
    returns = ap (λ r. finish (choose is_ram c r k)) n ∙ rw (off, idle);
    all_empty = empty;
    is_current = refl;
    runs = rw (eqb_refl i);
    queued = idle-Holds;
  }

levels_empty :
    (p : ℕ) (xs : List ℕ)
    → ((y : ℕ) → In y xs → p ≤ max_priority)
    → (p ≤ max_priority → xs ≡ [])
    → xs ≡ []
levels_empty p [] le e = refl
levels_empty p (x ∷ xs) le e = e (le x (inl refl))

module _ (is_ram : ℕ → Bool) (c : ℕ) {k : Kernel} {q : ℕ → List ℕ} (h : Holds k q)
    (ram : (p y : ℕ) → In y (q p) → is_ram y ≡ true) (here : k.current_task ≡ some c) where
  abbrev own : ℕ
  own = (k.tcbs c).priority

  -- With all tasks in RAM, a current task of a valid priority that still runs, and is on no ready
  -- list, goes to the end of the queue of its priority; then the first task of the highest queue
  -- that is not empty becomes the current one.
  pub get_next_task-rotates :
      (k.tcbs c).status ≡ TaskStatus.task_running
      → own ≤ max_priority
      → ((p : ℕ) → NotIn c (q p))
      → is_ram c ≡ true
      → Dispatched (update q own (q own ++ (c ∷ []))) (get_next_task is_ram k)
  unfolding requeue
  get_next_task-rotates running level out placed =
      let a = account-Alike c k c in
      let queued : Holds (rl_append c (account c k)) (update q own (q own ++ (c ∷ []))) =
        subst (λ p. Holds (rl_append c (account c k)) (update q p (q p ++ (c ∷ []))))
          a.same_priority (rl_append-Holds c (account-Holds c h) (rw a.same_priority level) out) in
      rw (get_next_at is_ram k c here, a.same_status, running)
        (elim (switched-Dispatched is_ram c queued placed_all) [
          | inl d ↦ d
          | inr (empty, n) ↦ absurd (snoc-nonempty (q own) c (sym here_own ∙ empty own level))
        ])
    where
      here_own : update q own (q own ++ (c ∷ [])) own ≡ q own ++ (c ∷ [])
      here_own = rw (eqb_refl own)

      placed_all : (p y : ℕ) → In y (update q own (q own ++ (c ∷ [])) p) → is_ram y ≡ true
      placed_all =
          update_cases q own (q own ++ (c ∷ [])) (λ i xs. (y : ℕ) → In y xs → is_ram y ≡ true)
            (λ y m. elim (In-snoc y (q own) c m) [
              | inl old ↦ ram own y old
              | inr new ↦ rw new placed
            ])
            (λ i ne y m. ram i y m)

  -- With all queued tasks in RAM, a current task that does not run is left where it is: the first
  -- task of the highest queue that is not empty becomes the current one, or the idle task if all
  -- are empty.
  pub get_next_task-leaves :
      (i : ℕ)
      → k.idle_task ≡ some i
      → (k.tcbs c).status ≢ TaskStatus.task_running
      → Dispatched q (get_next_task is_ram k) ⊎ Idled i q (get_next_task is_ram k)
  unfolding requeue
  get_next_task-leaves i idle stopped =
      let a = account-Alike c k c in
      let off = not_running (k.tcbs c).status stopped in
      rw (get_next_at is_ram k c here, a.same_status, off)
        (elim (switched-Dispatched is_ram c (account-Holds c h) ram) [
          | inl d ↦ inl d
          | inr (empty, n) ↦ inr (
              idle-Idled c i (account-Holds c h) (λ p. levels_empty p (q p) (h.levels p) (empty p))
                is_ram (account-idle c k ∙ idle) (rw a.same_status off) n)
        ])
