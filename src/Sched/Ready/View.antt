-- ===== src/Sched/Ready/View.antt =====
-- The ready lists as one sequence of tasks for each priority.
use vaios.Base.{ℕ, ◌≡◌, ◌<◌, ◌≤◌, Bool, true, false, List, [], ◌∷◌, ◌++◌, refl, none}
use vaios.Sched.Tcb.{Kernel, TaskStatus, max_priority}
use vaios.Sched.Links.{Linked}
use vaios.Chain.{first, last, Distinct, In}
use vaios.Sched.Bitmap.{test_bit}

abbrev pub nonempty : List ℕ → Bool
nonempty [] = false
nonempty (x ∷ xs) = true

-- The state holds the queue `q p` at each priority `p`: heads, tails, links and bitmap agree with
-- it, every member has that priority and is READY, and no task stands twice.
pub record Holds (k : Kernel) (q : ℕ → List ℕ) : Type 0 where
  pub heads : (p : ℕ) → k.ready_lists p ≡ first (q p)
  pub tails : (p : ℕ) → k.ready_tails p ≡ last (q p)
  pub links : (p : ℕ) → Linked k.tcbs none (q p)
  pub distinct : (p : ℕ) → Distinct (q p)
  pub own : (p x : ℕ) → In x (q p) → (k.tcbs x).priority ≡ p
  pub ready : (p x : ℕ) → In x (q p) → (k.tcbs x).status ≡ TaskStatus.task_ready
  pub levels : (p x : ℕ) → In x (q p) → p ≤ max_priority
  pub bits : (p : ℕ) → p ≤ max_priority → test_bit k.ready_bitmap p ≡ nonempty (q p)
  pub small : k.ready_bitmap < 256

pub nonempty-snoc : (xs : List ℕ) (x : ℕ) → nonempty (xs ++ (x ∷ [])) ≡ true
nonempty-snoc [] x = refl
nonempty-snoc (y ∷ ys) x = refl
