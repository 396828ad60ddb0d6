-- ===== src/Heap/FreeLists/Files.antt =====
-- What the lists of free blocks file, and how that changes.
use vaios.Base.{
  ℕ, ◌≡◌, ◌≢◌, refl, sym, ap, subst, ◌∙◌, ◌==◌, inl, inr, List, [], ◌∷◌, Option, none, some, update,
  arith, ne→eqb, eqb_refl, eqb→eq, eqb→ne, Bool-cases,
}
use vaios.Chain.{first, NotIn, Distinct, In, Chained, Chained-frame, first-In}
use vaios.Chain.Insert.{Chained-insert}
use vaios.Heap.FreeLists.{FreeNode, FreeLists, put_first}
use vaios.Heap.FreeLists.Links.{nexts, prevs, set_prev-there, set_prev-else, set_prev-next}

-- Each class is a doubly linked list, without repetitions, of exactly the blocks of that class.
pub record Filed (class : ℕ → ℕ) (st : FreeLists) (f : ℕ → Option ℕ) : Type 0 where
  pub lists : ℕ → List ℕ
  pub heads : (c : ℕ) → st.free_lists c ≡ first (lists c)
  pub chained : (c : ℕ) → Chained (nexts st.nodes) (prevs st.nodes) none (lists c)
  pub distinct : (c : ℕ) → Distinct (lists c)
  pub there : (c a : ℕ) → In a (lists c) → (s : ℕ) × (f a ≡ some s) × (class s ≡ c)
  pub all : (a s : ℕ) → f a ≡ some s → In a (lists (class s))

pub NotIn-by : (x : ℕ) (xs : List ℕ) → ¬ In x xs → NotIn x xs
NotIn-by x [] out = tt
NotIn-by x (y ∷ xs) out = (λ e. out (inl e), NotIn-by x xs (λ i. out (inr i)))

pub some-none : {s : ℕ} → some s ≡ none → ⊥
some-none e = ground arith

pub none-some : {y : ℕ} → none ≢ some y
none-some e = ground arith

pub some-same : {x y : ℕ} → some x ≡ some y → x ≡ y
some-same e = ground arith

-- Empty lists file nothing.
pub empty-Filed :
    (class : ℕ → ℕ) (st : FreeLists)
    → ((c : ℕ) → st.free_lists c ≡ none)
    → Filed class st (λ a. none)
empty-Filed class st empty = record {
  lists = λ c. [];
  heads = empty;
  chained = λ c. tt;
  distinct = λ c. tt;
  there = λ c a i. absurd i;
  all = λ a s e. absurd (some-none (sym e));
}

-- Blocks of different classes are different blocks.
pub other-class :
    (class : ℕ → ℕ) (st : FreeLists) (f : ℕ → Option ℕ) (d : Filed class st f) (k j x y : ℕ)
    → k ≢ j
    → In x (d.lists k)
    → In y (d.lists j)
    → x ≢ y
other-class class st f d k j x y ne ix iy e =
    let (s, es, cs) = d.there k x ix in
    let (t, et, ct) = d.there j y iy in
    ne (sym cs ∙ ap class (some-same (sym es ∙ ap f e ∙ et)) ∙ ct)

module _ (class : ℕ → ℕ) (sizes : ℕ → ℕ) (st : FreeLists) (f : ℕ → Option ℕ) (a : ℕ)
    (d : Filed class st f) where
  abbrev c : ℕ
  c = class (sizes a)

  abbrev l : List ℕ
  l = d.lists c

  module _ (new : f a ≡ none) where
    unfiled : (k : ℕ) → In a (d.lists k) → ⊥
    unfiled k i = let (s, e, _) = d.there k a i in some-none (sym e ∙ new)

    abbrev grown : ℕ → List ℕ
    grown = update d.lists c (a ∷ l)

    abbrev inserted : ℕ → FreeNode
    inserted = update st.nodes a (record { next_free = st.free_lists c; prev_free = none })

    abbrev after : FreeLists
    after = put_first c a st

    new_prev : (y : ℕ) → y ≢ a → first l ≢ some y → prevs after.nodes y ≡ prevs st.nodes y
    new_prev y ne off =
        set_prev-else (st.free_lists c) (some a) inserted y (λ e. off (sym (d.heads c) ∙ e))
        ∙ rw (prevs, ne→eqb a y (λ e. ne (sym e)))

    new_next : (y : ℕ) → y ≢ a → nexts after.nodes y ≡ nexts st.nodes y
    new_next y ne =
        set_prev-next (st.free_lists c) (some a) inserted y
        ∙ rw (nexts, ne→eqb a y (λ e. ne (sym e)))

    head_prev : (y : ℕ) → first l ≡ some y → prevs after.nodes y ≡ some a
    head_prev y e = set_prev-there (st.free_lists c) (some a) inserted y (d.heads c ∙ e)

    own_prev : prevs after.nodes a ≡ none
    own_prev =
        set_prev-else (st.free_lists c) (some a) inserted a
          (λ e. unfiled c (first-In l a (sym (d.heads c) ∙ e)))
        ∙ rw (prevs, eqb_refl a)

    own_next : nexts after.nodes a ≡ first l
    own_next =
        set_prev-next (st.free_lists c) (some a) inserted a ∙ rw (nexts, eqb_refl a) (d.heads c)

    here-Chained : Chained (nexts after.nodes) (prevs after.nodes) none (a ∷ l)
    here-Chained =
        Chained-insert (nexts st.nodes) (prevs st.nodes) (nexts after.nodes) (prevs after.nodes)
          none [] a l (d.chained c) (d.distinct c) (NotIn-by a l (unfiled c)) (λ y i. none-some)
          new_prev (λ y ne off. new_next y ne) head_prev (λ y e. absurd (none-some e)) own_prev
          own_next

    else-Chained :
        (k : ℕ) → c ≢ k → Chained (nexts after.nodes) (prevs after.nodes) none (d.lists k)
    else-Chained k ne =
        Chained-frame (nexts st.nodes) (prevs st.nodes) (nexts after.nodes) (prevs after.nodes) none
          (d.lists k)
          (λ y i.
            let own : y ≢ a = λ e. unfiled k (subst (λ v. In v (d.lists k)) e i) in
            (
              new_next y own,
              new_prev y own (λ e. other-class class st f d c k y y ne (first-In l y e) i refl),
            ))
          (d.chained k)

    kept-In :
        (k y : ℕ)
        → In y (d.lists k)
        → (s : ℕ) × (update f a (some (sizes a)) y ≡ some s) × (class s ≡ k)
    kept-In k y i =
        let (s, e, cs) = d.there k y i in
        (s, rw (ne→eqb a y (λ q. unfiled k (subst (λ v. In v (d.lists k)) (sym q) i))) e, cs)

    grown-In :
        (k y : ℕ)
        → In y (grown k)
        → (s : ℕ) × (update f a (some (sizes a)) y ≡ some s) × (class s ≡ k)
    grown-In k y i = elim (Bool-cases (c == k)) [
      | inl e ↦
          let same = eqb→eq c k e in
          elim (rw e at i) [
            | inl q ↦ (sizes a, rw (q, eqb_refl a), same)
            | inr j ↦ kept-In k y (subst (λ v. In y (d.lists v)) same j)
          ]
      | inr e ↦ kept-In k y (rw e at i)
    ]

    grown-all : (y s : ℕ) → update f a (some (sizes a)) y ≡ some s → In y (grown (class s))
    grown-all y s e = elim (Bool-cases (a == y)) [
      | inl q ↦
          subst (λ v. In y (grown (class v))) (some-same (rw q at e))
            (rw (eqb_refl c) (inl (sym (eqb→eq a y q))))
      | inr q ↦
          let i = d.all y s (rw q at e) in
          elim (Bool-cases (c == class s)) [
            | inl g ↦ rw g (inr (subst (λ v. In y (d.lists v)) (sym (eqb→eq c (class s) g)) i))
            | inr g ↦ rw g i
          ]
    ]

    -- A block that is not filed goes to the head of its class.
    pub put_first-Filed : Filed class after (update f a (some (sizes a)))
    put_first-Filed = record {
      lists = grown;
      heads = λ k. elim (Bool-cases (c == k)) [ inl e ↦ rw e | inr e ↦ rw e (d.heads k) ];
      chained = λ k. elim (Bool-cases (c == k)) [
        | inl e ↦ rw e here-Chained
        | inr e ↦ rw e (else-Chained k (eqb→ne c k e))
      ];
      distinct = λ k. elim (Bool-cases (c == k)) [
        | inl e ↦ rw e (NotIn-by a l (unfiled c), d.distinct c)
        | inr e ↦ rw e (d.distinct k)
      ];
      there = grown-In;
      all = grown-all;
    }
