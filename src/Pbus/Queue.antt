-- ===== src/Pbus/Queue.antt =====
-- The queue of kernel/periph_bus.c as a sequence of jobs, which `next` links.
use vaios.Base.{
  ℕ, ◌≤◌, ◌≡◌, ◌≢◌, ◌⊎◌, inl, inr, refl, sym, ap, ◌∙◌, List, [], ◌∷◌, Option, none, some, ne→eqb,
  eqb_refl, ◌==◌, Bool-cases, eqb→eq, false,
}
use vaios.Chain.{NotIn, In, In-ne, Distinct}
use vaios.Pbus.{Job, Pbus, JobState, at, write_at}

abbrev Pointer : Type 0
Pointer = Option ℕ

-- The jobs from `q` on are these.
abbrev pub Follows : (ℕ → Job) → Pointer → List ℕ → Type 0
Follows jobs q [] = q ≡ none
Follows jobs q (x ∷ xs) = (q ≡ some x) × Follows jobs (jobs x).next xs

-- Other jobs do not matter.
pub Follows-frame :
    (f g : ℕ → Job) (q : Pointer) (xs : List ℕ)
    → ((x : ℕ) → In x xs → (g x).next ≡ (f x).next)
    → Follows f q xs
    → Follows g q xs
Follows-frame f g q [] same c = c
Follows-frame f g q (x ∷ xs) same c =
    (c.0, rw (same x (inl refl)) (Follows-frame f g (f x).next xs (λ y i. same y (inr i)) c.1))

-- A pointer to a pointer outside a sequence.
abbrev pub Outside : Pointer → List ℕ → Type 0
Outside none xs = Unit {0}
Outside (some p) xs = NotIn p xs

pub at-write_at : (pp to : Pointer) (b : Pbus) → at pp (write_at pp to b) ≡ to
at-write_at none to b = refl
at-write_at (some p) to b = rw (at, eqb_refl p) refl

pub at-write_elsewhere :
    (pp p' to : Pointer) (b : Pbus) → p' ≢ pp → at pp (write_at p' to b) ≡ at pp b
at-write_elsewhere none none to b ne = absurd (ne refl)
at-write_elsewhere none (some p) to b ne = refl
at-write_elsewhere (some p) none to b ne = refl
at-write_elsewhere (some p) (some p') to b ne =
    rw (at, ne→eqb p' p (λ e. ne (ap (λ x. some x) e))) refl

-- A pointer to a pointer is `pp` or the link of one of these jobs.
abbrev pub Among : Pointer → List ℕ → Pointer → Type 0
Among pp xs r = (r ≡ pp) ⊎ ((y : ℕ) × In y xs × (r ≡ some y))

pub Among-later : (pp r : Pointer) (x : ℕ) (xs : List ℕ) → Among (some x) xs r → Among pp (x ∷ xs) r
Among-later pp r x xs (inl e) = inr (x, inl refl, e)
Among-later pp r x xs (inr m) = inr (m.0, inr m.1, m.2)

pub Outside-ne : (pp : Pointer) (xs : List ℕ) (y : ℕ) → Outside pp xs → In y xs → some y ≢ pp
Outside-ne none xs y o i e = cc
Outside-ne (some p) xs y o i e = In-ne p y xs o i (cc)

-- A pointer outside a sequence is not that of one of its links.
pub Among-ne :
    (pp r : Pointer) (x : ℕ) (xs : List ℕ) → Outside pp (x ∷ xs) → Among (some x) xs r → r ≢ pp
Among-ne pp r x xs o (inl e) q = Outside-ne pp (x ∷ xs) x o (inl refl) (sym e ∙ q)
Among-ne pp r x xs o (inr m) q = Outside-ne pp (x ∷ xs) m.0 o (inr m.1) (sym m.2 ∙ q)

-- From the highest priority to the lowest.
abbrev pub Sorted : (ℕ → Job) → List ℕ → Type 0
Sorted jobs [] = Unit {0}
Sorted jobs (x ∷ xs) = ((y : ℕ) → In y xs → (jobs y).prio ≤ (jobs x).prio) × Sorted jobs xs

-- The bus has these jobs in its queue, which are those in state QUEUED, each once; the job on the
-- bus is ACTIVE, and there is none when the bus is locked.
pub record Arbitrated (b : Pbus) (xs : List ℕ) : Type 0 where
  pub chain : Follows b.jobs b.queue xs
  pub distinct : Distinct xs
  pub sorted : Sorted b.jobs xs
  pub queued : (x : ℕ) → In x xs → (b.jobs x).state ≡ JobState.job_queued
  pub listed : (x : ℕ) → (b.jobs x).state ≡ JobState.job_queued → In x xs
  pub lone : (b.active ≡ none) ⊎ (b.locked ≡ false)
  pub on_bus : (x : ℕ) → b.active ≡ some x → (b.jobs x).state ≡ JobState.job_active

-- A field that writing `next` leaves alone.
pub write_at-field {ℓ} :
    {A : Type ℓ} (field : Job → A) (pp to : Pointer) (b : Pbus) (x : ℕ)
    → ((j : Job) → field (record j { next = to }) ≡ field j)
    → field ((write_at pp to b).jobs x) ≡ field (b.jobs x)
write_at-field field none to b x same = refl
write_at-field field (some p) to b x same = elim (Bool-cases (p == x)) [
  | inl e ↦ rw (e, eqb→eq p x e) (same (b.jobs x))
  | inr ne ↦ rw ne refl
]
