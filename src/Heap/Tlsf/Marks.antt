-- ===== src/Heap/Tlsf/Marks.antt =====
-- The bitmaps of kernel/memory/tlsf.c agree with the lists.
use Prim.Native.Nat.{bit_and, bit_or}
use vaios.Heap.FreeLists.{FreeNode, FreeLists, move_head}
use vaios.Base.{
  ◌⊎◌, ℕ, ◌+◌, ◌*◌, ◌%◌, ◌^◌, ◌<◌, ◌≡◌, ◌≢◌, refl, sym, ap, ap₂, subst, ◌∙◌, ◌==◌, if◌then◌else◌,
  arith, none, some, inl, inr, Bool-cases, eqb→eq, eqb→ne, ne→eqb, eqb_refl, update,
}
use vaios.Machine.{word_mod}
use vaios.Machine.Bits.{bit, inverted, bit_or-lt, bit_and-lt}
use vaios.Heap.Blocks.{Pointer}
use vaios.Heap.Tlsf.Bitmaps.{non_zero, power-lt, set-non_zero, bit-set, bit-unset, bit_and-clear}
use vaios.Heap.Tlsf.{Tlsf, fl_count, sl_count, slot, mark, unmark}

abbrev pub present : Pointer → ℕ
present none = 0
present (some p) = 1

-- A bit of an octave's bitmap tells whether the list holds a block, and a bit of the first bitmap
-- whether the octave has a list that does.
pub record Marked (st : Tlsf) : Type 0 where
  pub lists :
      (fl sl : ℕ)
      → fl < fl_count
      → sl < sl_count
      → bit (st.sl_bitmap fl) sl ≡ present (st.free.free_lists (slot (fl, sl)))
  pub octaves : (fl : ℕ) → fl < fl_count → bit st.fl_bitmap fl ≡ non_zero (st.sl_bitmap fl)
  pub row-lt : (fl : ℕ) → fl < fl_count → st.sl_bitmap fl < 2 ^ 16
  pub top-lt : st.fl_bitmap < 2 ^ 14

-- The lists of a state beside bitmaps that tell of them.
pub frame-Marked :
    (st : Tlsf) (free : FreeLists)
    → Marked st
    → ((fl sl : ℕ)
        → fl < fl_count
        → sl < sl_count
        → present (free.free_lists (slot (fl, sl))) ≡ present (st.free.free_lists (slot (fl, sl))))
    → Marked (record st { free = free })
frame-Marked st free m same = record {
  lists = λ fl sl hf hs. m.lists fl sl hf hs ∙ sym (same fl sl hf hs);
  octaves = m.octaves;
  row-lt = m.row-lt;
  top-lt = m.top-lt;
}

module _ (st : Tlsf) (free : FreeLists) (f s : ℕ) (hf : f < fl_count) (hs : s < sl_count)
    (m : Marked st)
    (elsewhere : (g t : ℕ)
      → t < sl_count
      → slot (g, t) ≢ slot (f, s)
      → free.free_lists (slot (g, t)) ≡ st.free.free_lists (slot (g, t))) where
  slot-apart : (g t : ℕ) → t < sl_count → (f ≢ g) ⊎ (s ≢ t) → slot (g, t) ≢ slot (f, s)
  slot-apart g t ht (inl ne) e = ne (omega arith)
  slot-apart g t ht (inr ne) e = ne (omega arith)

  -- Bit `s` of row `f` becomes `v`, as the list says, and the octave's bit what the row says.
  changed-Marked :
      (r top v : ℕ)
      → ((t : ℕ) → t < sl_count → bit r t ≡ (if s == t then v else bit (st.sl_bitmap f) t))
      → ((g : ℕ) → g < fl_count → bit top g ≡ (if f == g then non_zero r else bit st.fl_bitmap g))
      → present (free.free_lists (slot (f, s))) ≡ v
      → r < 2 ^ 16
      → top < 2 ^ 14
      → Marked (record { free = free; fl_bitmap = top; sl_bitmap = update st.sl_bitmap f r })
  changed-Marked r top v row_bits top_bits here row-lt top-lt = record {
    lists = λ g t hg ht. elim (Bool-cases (f == g)) [
      | inl e ↦ elim (Bool-cases (s == t)) [
        | inl e' ↦
            let at : ◌≡◌ {A = ℕ} (slot (f, s)) (slot (g, t)) =
              ap₂ (λ x y. x * sl_count + y) (eqb→eq f g e) (eqb→eq s t e') in
            rw e (row_bits t ht ∙ rw e' (sym here ∙ ap (λ c. present (free.free_lists c)) at))
        | inr e' ↦ rw e (
            row_bits t ht
            ∙ rw e' (
                ap (λ x. bit (st.sl_bitmap x) t) (eqb→eq f g e)
                ∙ kept g t hg ht (inr (eqb→ne s t e'))))
      ]
      | inr e ↦ rw e (kept g t hg ht (inl (eqb→ne f g e)))
    ];
    octaves = λ g hg. elim (Bool-cases (f == g)) [
      | inl e ↦ rw e (top_bits g hg ∙ rw e)
      | inr e ↦ rw e (top_bits g hg ∙ rw e (m.octaves g hg))
    ];
    row-lt =
        λ g hg. elim (Bool-cases (f == g)) [ inl e ↦ rw e row-lt | inr e ↦ rw e (m.row-lt g hg) ];
    top-lt = top-lt;
  }
    where
      kept :
          (g t : ℕ)
          → g < fl_count
          → t < sl_count
          → (f ≢ g) ⊎ (s ≢ t)
          → bit (st.sl_bitmap g) t ≡ present (free.free_lists (slot (g, t)))
      kept g t hg ht ne =
          m.lists g t hg ht ∙ ap present (sym (elsewhere g t ht (slot-apart g t ht ne)))

  abbrev row : ℕ
  row = bit_or (st.sl_bitmap f) (2 ^ s % word_mod)

  -- A list that holds a block is marked.
  pub mark-Marked :
      (b : ℕ)
      → free.free_lists (slot (f, s)) ≡ some b
      → Marked (mark (f, s) (record st { free = free }))
  mark-Marked b here =
      changed-Marked row (bit_or st.fl_bitmap (2 ^ f % word_mod)) 1
        (λ t ht. bit-set (st.sl_bitmap f) s t hs)
        (λ g hg.
          bit-set st.fl_bitmap f g (omega arith)
          ∙ ap (λ v. if f == g then v else bit st.fl_bitmap g)
              (sym (set-non_zero row s (bit-set (st.sl_bitmap f) s s hs ∙ rw (eqb_refl s)))))
        (ap present here)
        (bit_or-lt 16 (st.sl_bitmap f) (2 ^ s % word_mod) (m.row-lt f hf)
          (omega (arith, power-lt 16 s hs)))
        (bit_or-lt 14 st.fl_bitmap (2 ^ f % word_mod) m.top-lt (omega (arith, power-lt 14 f hf)))

  abbrev cleared : ℕ
  cleared = bit_and (st.sl_bitmap f) (inverted s)

  abbrev cleared_top : ℕ
  cleared_top = if cleared == 0 then bit_and st.fl_bitmap (inverted f) else st.fl_bitmap

  -- The bit of the octave goes with its last list.
  cleared_top-bits :
      (g : ℕ)
      → g < fl_count
      → bit cleared_top g ≡ (if f == g then non_zero cleared else bit st.fl_bitmap g)
  cleared_top-bits g hg = elim (Bool-cases (cleared == 0)) [
    | inl z ↦ rw z (bit-unset st.fl_bitmap f g (omega arith) (omega arith))
    | inr nz ↦ rw nz (elim (Bool-cases (f == g)) [
      | inl e ↦ rw e (
          ap (bit st.fl_bitmap) (sym (eqb→eq f g e)) ∙ m.octaves f hf ∙ still (eqb→ne cleared 0 nz))
      | inr e ↦ rw e
    ])
  ]
    where
      still : cleared ≢ 0 → non_zero (st.sl_bitmap f) ≡ 1
      still ne = elim (Bool-cases (st.sl_bitmap f == 0)) [
        | inl z ↦ absurd (
            ne (
              ap (λ v. bit_and v (inverted s)) (eqb→eq (st.sl_bitmap f) 0 z)
              ∙ bit_and-clear (inverted s)))
        | inr nz ↦ rw nz
      ]

  cleared_top-lt : cleared_top < 2 ^ 14
  cleared_top-lt = elim (Bool-cases (cleared == 0)) [
    | inl z ↦ rw z (bit_and-lt 14 st.fl_bitmap (inverted f) m.top-lt)
    | inr nz ↦ rw nz m.top-lt
  ]

  -- A list without a block is not.
  pub unmark-Marked :
      free.free_lists (slot (f, s)) ≡ none
      → Marked (unmark none none (f, s) (record st { free = free }))
  unmark-Marked here =
      subst
        (λ v.
          Marked (record { free = free; fl_bitmap = v; sl_bitmap = update st.sl_bitmap f cleared }))
        same
        (changed-Marked cleared cleared_top 0
          (λ t ht. bit-unset (st.sl_bitmap f) s t hs (omega arith)) cleared_top-bits
          (ap present here) (bit_and-lt 16 (st.sl_bitmap f) (inverted s) (m.row-lt f hf))
          cleared_top-lt)
    where
      same : cleared_top ≡ (
          if update st.sl_bitmap f cleared f == 0
          then bit_and st.fl_bitmap (inverted f)
          else st.fl_bitmap)
      same = rw (eqb_refl f)

-- A list that a block leaves keeps its mark unless it was the only one.
pub unlink-Marked :
    (p q : Pointer) (st : Tlsf) (nodes : ℕ → FreeNode) (f s b : ℕ)
    → f < fl_count
    → s < sl_count
    → Marked st
    → st.free.free_lists (slot (f, s)) ≡ some b
    → Marked (
        unmark p q
          (f, s)
          (record st {
            free = record {
              free_lists = move_head p (slot (f, s)) q st.free.free_lists;
              nodes = nodes;
            };
          }))
unlink-Marked (some p) q st nodes f s b hf hs m head =
    frame-Marked st (record { free_lists = st.free.free_lists; nodes = nodes }) m
      (λ fl sl hfl hsl. refl)
unlink-Marked none (some y) st nodes f s b hf hs m head =
    frame-Marked st
      (record { free_lists = update st.free.free_lists (slot (f, s)) (some y); nodes = nodes }) m
      (λ fl sl hfl hsl. elim (Bool-cases (slot (f, s) == slot (fl, sl))) [
        | inl e ↦ rw e (
            ap present (sym head)
            ∙ ap (λ c. present (st.free.free_lists c)) (eqb→eq (slot (f, s)) (slot (fl, sl)) e))
        | inr e ↦ rw e
      ])
unlink-Marked none none st nodes f s b hf hs m head =
    unmark-Marked st
      (record { free_lists = update st.free.free_lists (slot (f, s)) none; nodes = nodes }) f s hf
      hs m (λ g t ht ne. rw (ne→eqb (slot (f, s)) (slot (g, t)) (λ e. ne (sym e))))
      (rw (eqb_refl (slot (f, s))))
