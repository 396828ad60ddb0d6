-- ===== src/Heap/Seglist/Find.antt =====
-- `vheap_index_find` of kernel/memory/seglist.c: what it finds fits, and it finds what fits.
use vaios.Base.{
  ℕ, zero, suc, ◌+◌, ◌-◌, ◌≡◌, ◌≤◌, ◌<◌, refl, sym, ap, subst, ◌∙◌, ◌⊎◌, inl, inr, List, [], ◌∷◌,
  length, Option, none, some, arith, leb, Bool-cases, leb→le, leb→gt, dec_lt,
}
use vaios.Chain.{first, In, Chained, first-In, first-some}
use vaios.Machine.{word_mod, add32}
use vaios.Heap.Blocks.{Pointer}
use vaios.Heap.Index.{FreeIndex}
use vaios.Heap.Seglist.{
  size_class, first_fit, head_or, higher, found_or, index_reset, index_insert, index_remove,
  index_find,
}
use vaios.Heap.FreeLists.{FreeNode, FreeLists}
use vaios.Heap.FreeLists.Links.{nexts, prevs}
use vaios.Heap.FreeLists.Files.{Filed}
use vaios.Heap.Seglist.Remove.{reset-Filed, insert-Filed, remove-Filed}

size_class_mono : (n s : ℕ) → n ≤ s → size_class n ≤ size_class s
unfolding size_class
size_class_mono n s le = ground arith

size_class-top : (s : ℕ) → size_class s ≤ 7
unfolding size_class
size_class-top s = ground arith

-- A block of a higher class is large enough.
size_class-lt : (n s : ℕ) → size_class n < size_class s → n ≤ s
size_class-lt n s lt = elim (dec_lt s n) [
  | yes less ↦ absurd (omega (arith, size_class_mono s n (omega arith)))
  | no more ↦ omega arith
]

module _ (sizes : ℕ → ℕ) (t : ℕ → FreeNode) (n : ℕ) where
  walk-fits :
      (fuel : ℕ) (p b : Pointer) (l : List ℕ) (probes a : ℕ)
      → Chained (nexts t) (prevs t) p l
      → b ≡ first l
      → (first_fit fuel sizes t n b probes).0 ≡ some a
      → In a l × (n ≤ sizes a)
  walk-fits zero p b l probes a h e found = absurd (ground arith)
  walk-fits (suc fuel) p none l probes a h e found = absurd (ground arith)
  walk-fits (suc fuel) p (some b) [] probes a h e found = absurd (ground arith)
  walk-fits (suc fuel) p (some b) (c ∷ l) probes a h e found = elim (Bool-cases (leb n (sizes b))) [
    | inl fits ↦
        let same : b ≡ a = ground arith in
        let here : b ≡ c = ground arith in
        (inl (sym same ∙ here), subst (λ v. n ≤ sizes v) same (leb→le n (sizes b) fits))
    | inr small ↦
        let here : b ≡ c = ground arith in
        let (i, le) =
          walk-fits fuel (some c) (nexts t b) l (add32 probes 1) a h.2 (ap (nexts t) here ∙ h.1)
            (rw small at found) in
        (inr i, le)
  ]

  walk-finds :
      (fuel : ℕ) (p b : Pointer) (l : List ℕ) (probes a : ℕ)
      → Chained (nexts t) (prevs t) p l
      → b ≡ first l
      → length l < fuel
      → In a l
      → n ≤ sizes a
      → (c : ℕ) × ((first_fit fuel sizes t n b probes).0 ≡ some c)
  walk-finds fuel p b [] probes a h e room i fits = absurd i
  walk-finds zero p b (c ∷ l) probes a h e room i fits = absurd (omega arith)
  walk-finds (suc fuel) p none (c ∷ l) probes a h e room i fits = absurd (ground arith)
  walk-finds (suc fuel) p (some b) (c ∷ l) probes a h e room i fits =
      let here : b ≡ c = ground arith in
      elim (Bool-cases (leb n (sizes b))) [
        | inl large ↦ (b, rw large)
        | inr small ↦ elim i [
          | inl same ↦ absurd (
              omega
                (arith, leb→gt n (sizes b) small, subst (λ v. n ≤ sizes v) (same ∙ sym here) fits))
          | inr j ↦ rw small (
              walk-finds fuel (some c) (nexts t b) l (add32 probes 1) a h.2
                (ap (nexts t) here ∙ h.1) (omega arith) j fits)
        ]
      ]

head_or-cases :
    (p : Pointer) (probes a : ℕ) (rest : Pointer × ℕ)
    → (head_or p probes rest).0 ≡ some a
    → (p ≡ some a) ⊎ (rest.0 ≡ some a)
head_or-cases none probes a rest e = inr e
head_or-cases (some b) probes a rest e = inl e

head_or-finds :
    (p : Pointer) (probes : ℕ) (rest : Pointer × ℕ)
    → ((b : ℕ) × (p ≡ some b)) ⊎ ((b : ℕ) × (rest.0 ≡ some b))
    → (b : ℕ) × ((head_or p probes rest).0 ≡ some b)
head_or-finds (some c) probes rest h = (c, refl)
head_or-finds none probes rest (inl (b, e)) = absurd (ground arith)
head_or-finds none probes rest (inr h) = h

found_or-cases :
    (st : FreeLists) (c a : ℕ) (walk : Pointer × ℕ)
    → (found_or st c walk).0 ≡ some a
    → (walk.0 ≡ some a) ⊎ ((higher (7 - c) st.free_lists (c + 1) walk.1).0 ≡ some a)
found_or-cases st c a (none, probes) e = inr e
found_or-cases st c a (some b, probes) e = inl e

found_or-finds :
    (st : FreeLists) (c : ℕ) (walk : Pointer × ℕ)
    → ((b : ℕ) × (walk.0 ≡ some b))
      ⊎ ((b : ℕ) × ((higher (7 - c) st.free_lists (c + 1) walk.1).0 ≡ some b))
    → (b : ℕ) × ((found_or st c walk).0 ≡ some b)
found_or-finds st c (some d, probes) h = (d, refl)
found_or-finds st c (none, probes) (inl (b, e)) = absurd (ground arith)
found_or-finds st c (none, probes) (inr h) = h

module _ (lists : ℕ → Pointer) where
  higher-head :
      (m k probes a : ℕ)
      → (higher m lists k probes).0 ≡ some a
      → (j : ℕ) × (k ≤ j) × (lists j ≡ some a)
  higher-head zero k probes a e = absurd (ground arith)
  higher-head (suc m) k probes a e =
      elim (head_or-cases (lists k) (add32 probes 1) a (higher m lists (k + 1) (add32 probes 1))
        e) [
          | inl here ↦ (k, omega arith, here)
          | inr later ↦
              let (j, le, at_j) = higher-head m (k + 1) (add32 probes 1) a later in
              (j, omega arith, at_j)
        ]

  higher-finds :
      (m k j probes b : ℕ)
      → lists j ≡ some b
      → k ≤ j
      → j < k + m
      → (c : ℕ) × ((higher m lists k probes).0 ≡ some c)
  higher-finds zero k j probes b e lo hi = absurd (omega arith)
  higher-finds (suc m) k j probes b e lo hi =
      let rest = higher m lists (k + 1) (add32 probes 1) in
      elim (dec_lt k j) [
        | yes later ↦
            head_or-finds (lists k) (add32 probes 1) rest
              (inr (higher-finds m (k + 1) j (add32 probes 1) b e (omega arith) (omega arith)))
        | no here ↦
            let same : j ≡ k = omega arith in
            head_or-finds (lists k) (add32 probes 1) rest (inl (b, ap lists (sym same) ∙ e))
      ]

module _ (fuel : ℕ) (sizes : ℕ → ℕ) (st : FreeLists) (f : ℕ → Option ℕ) (d : Filed size_class st f)
    (right : (x s : ℕ) → f x ≡ some s → sizes x ≡ s) where
  -- What is found is filed and large enough.
  pub find-Filed :
      (n a : ℕ) → (index_find fuel sizes n st).0 ≡ some a → (f a ≡ some (sizes a)) × (n ≤ sizes a)
  unfolding index_find
  find-Filed n a e =
      let c = size_class n in
      let walk = first_fit fuel sizes st.nodes n (st.free_lists c) 0 in
      elim (found_or-cases st c a walk e) [
        | inl w ↦
            let (i, le) =
              walk-fits sizes st.nodes n fuel none (st.free_lists c) (d.lists c) 0 a (d.chained c)
                (d.heads c) w in
            let (s, filed, _) = d.there c a i in (filed ∙ ap some (sym (right a s filed)), le)
        | inr w ↦
            let (j, lo, here) = higher-head st.free_lists (7 - c) (c + 1) walk.1 a w in
            let (s, filed, of_class) =
              d.there j a (first-In (d.lists j) a (sym (d.heads j) ∙ here)) in
            let sized = right a s filed in
            (
              filed ∙ ap some (sym sized),
              subst (λ v. n ≤ v) (sym sized) (size_class-lt n s (omega (arith, lo, of_class))),
            )
      ]

  -- With fuel for the longest class, a request that some filed block can hold finds a block.
  pub index_find-finds :
      (n a s : ℕ)
      → f a ≡ some s
      → n ≤ s
      → length (d.lists (size_class n)) < fuel
      → (c : ℕ) × ((index_find fuel sizes n st).0 ≡ some c)
  unfolding index_find
  index_find-finds n a s filed fits room =
      let c = size_class n in
      let walk = first_fit fuel sizes st.nodes n (st.free_lists c) 0 in
      let le = size_class_mono n s fits in
      let member = d.all a s filed in
      elim (dec_lt c (size_class s)) [
        | yes above ↦
            let (b, head) = first-some a (d.lists (size_class s)) member in
            found_or-finds st c walk (
              inr (
                higher-finds st.free_lists (7 - c) (c + 1) (size_class s) walk.1 b
                  (d.heads (size_class s) ∙ head) (omega arith) (omega (arith, size_class-top s))))
        | no within ↦
            let same : size_class s ≡ c = omega arith in
            found_or-finds st c walk (
              inl (
                walk-finds sizes st.nodes n fuel none (st.free_lists c) (d.lists c) 0 a
                  (d.chained c) (d.heads c) room (subst (λ v. In a (d.lists v)) same member)
                  (subst (λ v. n ≤ v) (sym (right a s filed)) fits)))
      ]

-- The segregated lists are an index, whatever the fuel of the walk.
abbrev pub seglist : ℕ → FreeIndex
seglist fuel = record {
  State = FreeLists;
  size_limit = word_mod;
  request_limit = word_mod;
  vheap_index_reset = index_reset;
  vheap_index_insert = index_insert;
  vheap_index_remove = index_remove;
  vheap_index_find = index_find fuel;
  Files = Filed size_class;
  reset-Files = reset-Filed;
  insert-Files = λ sizes st f a d new small. insert-Filed sizes st f a d new;
  remove-Files = λ sizes st f a d filed. remove-Filed sizes st f a d filed;
  find-Files = λ sizes st f n a d right multiple small e. find-Filed fuel sizes st f d right n a e;
}
