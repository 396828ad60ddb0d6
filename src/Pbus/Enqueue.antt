-- ===== src/Pbus/Enqueue.antt =====
-- `enqueue` of kernel/periph_bus.c puts a job behind those of at least its priority.
use vaios.Base.{
  ℕ, zero, suc, ◌≤◌, ◌≡◌, ◌≢◌, inl, inr, refl, sym, ◌∙◌, List, [], ◌∷◌, length, Option, some,
  if◌then◌else◌, leb, Bool-cases, arith,
}
use vaios.Chain.{NotIn, In, In-ne, Distinct}
use vaios.Pbus.{Job, Pbus, at, write_at, seek_prio}
use vaios.Pbus.Queue.{
  Follows, Follows-frame, Outside, Outside-ne, Among, Among-later, Among-ne, at-write_at,
  at-write_elsewhere,
}

abbrev Pointer : Type 0
Pointer = Option ℕ

-- The queue with a job behind those of at least its priority, and so behind its equals.
unfoldable pub placed : (ℕ → Job) → ℕ → ℕ → List ℕ → List ℕ
placed jobs prio job [] = job ∷ []
placed jobs prio job (x ∷ xs) =
    if leb prio (jobs x).prio then x ∷ placed jobs prio job xs else job ∷ x ∷ xs

-- The two links that are written.
abbrev pub linked : Pointer → ℕ → Pbus → Pbus
linked pp job b = write_at pp (some job) (write_at (some job) (at pp b) b)

linked-elsewhere :
    (pp r : Pointer) (job : ℕ) (b : Pbus)
    → r ≢ pp
    → some job ≢ pp
    → at pp (linked r job b) ≡ at pp b
linked-elsewhere pp r job b ne other =
    at-write_elsewhere pp r (some job) (write_at (some job) (at r b) b) ne
    ∙ at-write_elsewhere pp (some job) (at r b) b other

seek_prio-Among :
    (fuel prio : ℕ) (b : Pbus) (pp q : Pointer) (xs : List ℕ)
    → Follows b.jobs q xs
    → Among pp xs (seek_prio fuel prio b pp q)
unfolding seek_prio
seek_prio-Among zero prio b pp q xs c = inl refl
seek_prio-Among (suc fuel) prio b pp q [] c = rw (c) (inl refl)
seek_prio-Among (suc fuel) prio b pp q (x ∷ xs) c =
    rw (c.0) (elim (Bool-cases (leb prio (b.jobs x).prio)) [
      | inl on ↦ rw on (
          Among-later pp (seek_prio fuel prio b (some x) (b.jobs x).next) x xs
            (seek_prio-Among fuel prio b (some x) (b.jobs x).next xs c.1))
      | inr stop ↦ rw stop (inl refl)
    ])

-- Linked where the walk starts.
linked-here :
    (b : Pbus) (pp : Pointer) (job : ℕ) (xs : List ℕ)
    → Follows b.jobs (at pp b) xs
    → Outside pp xs
    → NotIn job xs
    → some job ≢ pp
    → Follows (linked pp job b).jobs (at pp (linked pp job b)) (job ∷ xs)
linked-here b pp job xs c out new other =
    let put = write_at (some job) (at pp b) b in
    (
      at-write_at pp (some job) put,
      rw (next) (Follows-frame b.jobs (linked pp job b).jobs (at pp b) xs kept c),
    )
  where
    next : ((linked pp job b).jobs job).next ≡ at pp b
    next =
        at-write_elsewhere (some job) pp (some job) (write_at (some job) (at pp b) b)
          (λ e. other (sym e))
        ∙ at-write_at (some job) (at pp b) b

    kept : (x : ℕ) → In x xs → ((linked pp job b).jobs x).next ≡ (b.jobs x).next
    kept x i =
        linked-elsewhere (some x) pp job b (λ e. Outside-ne pp xs x out i (sym e))
          (λ e. In-ne job x xs new i (cc))

pub seek_prio-placed :
    (fuel prio job : ℕ) (b : Pbus) (pp q : Pointer) (xs : List ℕ)
    → length xs ≤ fuel
    → at pp b ≡ q
    → Follows b.jobs q xs
    → Distinct xs
    → Outside pp xs
    → NotIn job xs
    → some job ≢ pp
    → let b' = linked (seek_prio fuel prio b pp q) job b in
      Follows b'.jobs (at pp b') (placed b.jobs prio job xs)
unfolding seek_prio placed
seek_prio-placed zero prio job b pp q [] le e c d out new other =
    linked-here b pp job [] (e ∙ c) out new other
seek_prio-placed zero prio job b pp q (x ∷ xs) le e c d out new other = absurd (omega arith)
seek_prio-placed (suc fuel) prio job b pp q [] le e c d out new other =
    rw (c) (linked-here b pp job [] (e ∙ c) out new other)
seek_prio-placed (suc fuel) prio job b pp q (x ∷ xs) le e c d out new other =
    rw (c.0) (elim (Bool-cases (leb prio (b.jobs x).prio)) [
      | inr stop ↦ rw stop (linked-here b pp job (x ∷ xs) (e ∙ c.0, c.1) out new other)
      | inl on ↦
          let r = seek_prio fuel prio b (some x) (b.jobs x).next in
          let among = seek_prio-Among fuel prio b (some x) (b.jobs x).next xs c.1 in
          rw on (
            linked-elsewhere pp r job b (Among-ne pp r x xs out among) other ∙ e ∙ c.0,
            seek_prio-placed fuel prio job b (some x) (b.jobs x).next xs (omega arith) refl c.1 d.1
                d.0 new.1 (λ q. new.0 (cc)),
          )
    ])
