-- ===== src/Heap/FreeLists/Remove.antt =====
-- Taking a block out of the lists of the filed blocks.
use vaios.Base.{
  ℕ, ◌≡◌, ◌≢◌, refl, sym, ap, subst, ◌∙◌, ◌⊎◌, ◌==◌, inl, inr, List, [], ◌∷◌, ◌++◌, Option, none,
  some, update, ne→eqb, eqb→eq, eqb→ne, Bool-cases,
}
use vaios.Chain.{
  first, last_or, Distinct, In, Chained, Chained-at, Chained-frame, Chained-remove, In-splice,
  first-In, Distinct-splice, In-append_right, In-append_left, last-In, In-split, In-unsplice,
  Distinct-gone, last_or-some,
}
use vaios.Heap.Blocks.{Pointer}
use vaios.Heap.FreeLists.{FreeNode, FreeLists, set_next, take_out, move_head}
use vaios.Heap.FreeLists.Links.{
  nexts, prevs, set_next-there, set_next-else, set_next-prev, set_prev-there, set_prev-else,
  set_prev-next, set_next-same,
}
use vaios.Heap.FreeLists.Files.{Filed, other-class, some-none, none-some}

-- The head of a class after one of its members is spliced out.
move_head-first :
    (ys zs : List ℕ) (a c k : ℕ) (free : ℕ → Pointer) (lists : ℕ → List ℕ) (p : Pointer)
    → p ≡ last_or none ys
    → free c ≡ first (ys ++ (a ∷ zs))
    → free k ≡ first (lists k)
    → move_head p c (first zs) free k ≡ first (update lists c (ys ++ zs) k)
move_head-first [] zs a c k free lists p e head other = elim (Bool-cases (c == k)) [
  | inl q ↦ rw (e, q)
  | inr q ↦ rw (e, q) other
]
move_head-first (y ∷ ys) zs a c k free lists p e head other =
    let (z, last) = last_or-some y ys in
    elim (Bool-cases (c == k)) [
      | inl q ↦ rw (e ∙ last, q) (ap free (sym (eqb→eq c k q)) ∙ head)
      | inr q ↦ rw (e ∙ last, q) other
    ]

module _ (class : ℕ → ℕ) (sizes : ℕ → ℕ) (st : FreeLists) (f : ℕ → Option ℕ) (a : ℕ)
    (d : Filed class st f) where
  abbrev c : ℕ
  c = class (sizes a)

  abbrev l : List ℕ
  l = d.lists c

  module _ (filed : f a ≡ some (sizes a)) (ys zs : List ℕ) (split : l ≡ ys ++ (a ∷ zs)) where
    abbrev left : List ℕ
    left = ys ++ zs

    abbrev shrunk : ℕ → List ℕ
    shrunk = update d.lists c left

    abbrev out : FreeLists
    out = take_out (class (sizes a)) a st

    abbrev node : FreeNode
    node = st.nodes a

    abbrev relinked : ℕ → FreeNode
    relinked = set_next node.prev_free node.next_free st.nodes

    old-Chained : Chained (nexts st.nodes) (prevs st.nodes) none (ys ++ (a ∷ zs))
    old-Chained = subst (Chained (nexts st.nodes) (prevs st.nodes) none) split (d.chained c)

    old_distinct : Distinct (ys ++ (a ∷ zs))
    old_distinct = subst Distinct split (d.distinct c)

    own : (prevs st.nodes a ≡ last_or none ys) × (nexts st.nodes a ≡ first zs)
    own = Chained-at (nexts st.nodes) (prevs st.nodes) none ys a zs old-Chained

    relinked_next : nexts relinked a ≡ first zs
    relinked_next = set_next-same node.prev_free st.nodes a ∙ own.1

    left_prev : (y : ℕ) → first zs ≢ some y → prevs out.nodes y ≡ prevs st.nodes y
    left_prev y off =
        set_prev-else (relinked a).next_free (relinked a).prev_free relinked y
          (λ e. off (sym relinked_next ∙ e))
        ∙ set_next-prev node.prev_free node.next_free st.nodes y

    left_next : (y : ℕ) → last_or none ys ≢ some y → nexts out.nodes y ≡ nexts st.nodes y
    left_next y off =
        set_prev-next (relinked a).next_free (relinked a).prev_free relinked y
        ∙ set_next-else node.prev_free node.next_free st.nodes y (λ e. off (sym own.0 ∙ e))

    joined_prev : (y : ℕ) → first zs ≡ some y → prevs out.nodes y ≡ prevs st.nodes a
    joined_prev y e =
        set_prev-there (relinked a).next_free (relinked a).prev_free relinked y (relinked_next ∙ e)
        ∙ set_next-prev node.prev_free node.next_free st.nodes a

    joined_next : (y : ℕ) → last_or none ys ≡ some y → nexts out.nodes y ≡ nexts st.nodes a
    joined_next y e =
        set_prev-next (relinked a).next_free (relinked a).prev_free relinked y
        ∙ set_next-there node.prev_free node.next_free st.nodes y (own.0 ∙ e)

    left-Chained : Chained (nexts out.nodes) (prevs out.nodes) none left
    left-Chained =
        Chained-remove (nexts st.nodes) (prevs st.nodes) (nexts out.nodes) (prevs out.nodes) none ys
          a zs old-Chained old_distinct (λ y i. none-some) (λ y ne. left_prev y)
          (λ y ne. left_next y) joined_prev joined_next

    -- The neighbours are of the same class.
    neighbour-In : (y : ℕ) → (first zs ≡ some y) ⊎ (last_or none ys ≡ some y) → In y l
    neighbour-In y (inl e) =
        subst (In y) (sym split) (In-append_right y ys (a ∷ zs) (inr (first-In zs y e)))
    neighbour-In y (inr e) =
        subst (In y) (sym split) (In-append_left y ys (a ∷ zs) (last-In ys y e))

    other-Chained : (k : ℕ) → c ≢ k → Chained (nexts out.nodes) (prevs out.nodes) none (d.lists k)
    other-Chained k ne =
        Chained-frame (nexts st.nodes) (prevs st.nodes) (nexts out.nodes) (prevs out.nodes) none
          (d.lists k)
          (λ y i. (
            left_next y (λ e. other-class class st f d c k y y ne (neighbour-In y (inr e)) i refl),
            left_prev y (λ e. other-class class st f d c k y y ne (neighbour-In y (inl e)) i refl),
          ))
          (d.chained k)

    out_heads : (k : ℕ) → out.free_lists k ≡ first (shrunk k)
    out_heads k =
        ap (λ v. move_head node.prev_free c v st.free_lists k) own.1
        ∙ move_head-first ys zs a c k st.free_lists d.lists node.prev_free own.0
            (d.heads c ∙ ap first split) (d.heads k)

    left-In :
        (k y : ℕ)
        → In y (d.lists k)
        → y ≢ a
        → (s : ℕ) × (update f a none y ≡ some s) × (class s ≡ k)
    left-In k y i ne =
        let (s, e, cs) = d.there k y i in (s, rw (ne→eqb a y (λ q. ne (sym q))) e, cs)

    shrunk-In : (k y : ℕ) → In y (shrunk k) → (s : ℕ) × (update f a none y ≡ some s) × (class s ≡ k)
    shrunk-In k y i = elim (Bool-cases (c == k)) [
      | inl e ↦
          let j = rw e at i in
          let there = subst (In y) (sym split) (In-splice y ys a zs j) in
          subst (λ v. (s : ℕ) × (update f a none y ≡ some s) × (class s ≡ v)) (eqb→eq c k e)
            (left-In c y there (Distinct-gone ys a zs y old_distinct j))
      | inr e ↦
          let member = subst (In a) (sym split) (In-append_right a ys (a ∷ zs) (inl refl)) in
          let j = rw e at i in
          left-In k y j (λ q. other-class class st f d c k a y (eqb→ne c k e) member j (sym q))
    ]

    shrunk-all : (y s : ℕ) → update f a none y ≡ some s → In y (shrunk (class s))
    shrunk-all y s e = elim (Bool-cases (a == y)) [
      | inl q ↦ absurd (some-none (sym (rw q at e)))
      | inr q ↦
          let i = d.all y s (rw q at e) in
          elim (Bool-cases (c == class s)) [
            | inl g ↦
                let j = subst (λ v. In y (d.lists v)) (sym (eqb→eq c (class s) g)) i in
                rw g (In-unsplice y ys a zs (subst (In y) split j) (λ w. eqb→ne a y q (sym w)))
            | inr g ↦ rw g i
          ]
    ]

    -- A block that is filed leaves its class.
    removed-Filed : Filed class out (update f a none)
    removed-Filed = record {
      lists = shrunk;
      heads = out_heads;
      chained = λ k. elim (Bool-cases (c == k)) [
        | inl e ↦ rw e left-Chained
        | inr e ↦ rw e (other-Chained k (eqb→ne c k e))
      ];
      distinct = λ k. elim (Bool-cases (c == k)) [
        | inl e ↦ rw e (Distinct-splice ys a zs old_distinct)
        | inr e ↦ rw e (d.distinct k)
      ];
      there = shrunk-In;
      all = shrunk-all;
    }

  -- A filed block leaves the list of its class.
  pub take_out-Filed :
      f a ≡ some (sizes a) → Filed class (take_out (class (sizes a)) a st) (update f a none)
  take_out-Filed filed =
      let (ys, zs, split) = In-split a l (d.all a (sizes a) filed) in
      removed-Filed filed ys zs split
