-- ===== src/Heap/Tlsf/Find.antt =====
-- `vheap_index_find` of kernel/memory/tlsf.c: what it finds fits, and when it finds nothing no block
-- is much larger than the request.
use Prim.Native.Nat.{bit_and}
use native.Mathlib.Nat.{pow-le-pow_right}
use vaios.Base.{
  ℕ, ◌+◌, ◌*◌, ◌%◌, ◌^◌, ◌<◌, ◌≤◌, ◌≡◌, ◌≢◌, refl, sym, ap, subst, ◌∙◌, ◌==◌, arith, Option, none,
  some, min, inl, inr, Bool-cases, eqb→eq, eqb→ne, leb, leb→le, le→leb, dec_lt,
}
use vaios.Machine.Bits.{
  bit, from_bit, bit-bit_and, bit-from_bit, bit_and-lt, bit-high, bit-clear, trailing_zeros-Lowest,
}
use vaios.Chain.{first-In, first-some}
use vaios.Heap.Blocks.{Pointer}
use vaios.Heap.Tlsf.{
  Tlsf, fl_count, sl_count, slot, tlsf_ffs, mapping_insert, lowest_list, climb, index_find,
  index_reset, index_insert, index_remove,
}
use vaios.Heap.Tlsf.Order.{mapping_insert-lt, slot_mono, request_limit, Searched, search-Searched}
use vaios.Heap.Tlsf.Marks.{present}
use vaios.Heap.Tlsf.Bitmaps.{non_zero, set-non_zero}
use vaios.Heap.FreeLists.Files.{some-none, some-same}
use vaios.Heap.Index.{FreeIndex}
use vaios.Heap.Tlsf.Files.{Indexed, class, reset-Indexed, insert-Indexed, remove-Indexed}

-- What a masked bitmap tells of the bitmap.
pub record Masked (x k p : ℕ) : Type 0 where
  pub narrow : p < 16
  pub above : k ≤ p
  pub set : bit x p ≡ 1

split-Masked : (x k p : ℕ) → k < 16 → p < 16 → min (bit x p) (bit (from_bit k) p) ≡ 1 → Masked x k p
split-Masked x k p hk hp e = elim (Bool-cases (leb k p)) [
  | inl h ↦ record { narrow = hp; above = leb→le k p h; set = omega (arith, e) }
  | inr h ↦
      let z : bit (from_bit k) p ≡ 0 = rw (bit-from_bit k p hk (omega arith), h) in
      absurd (omega (arith, e, z))
]

-- The lowest bit from `k` on.
lowest-Masked :
    (w x k : ℕ)
    → w ≤ 16
    → k < 16
    → x < 2 ^ w
    → bit_and x (from_bit k) ≢ 0
    → (tlsf_ffs (bit_and x (from_bit k)) < w) × Masked x k (tlsf_ffs (bit_and x (from_bit k)))
lowest-Masked w x k hw hk lt ne =
    let m = bit_and x (from_bit k) in
    let p = tlsf_ffs m in
    let small = bit_and-lt w x (from_bit k) lt in
    let l = trailing_zeros-Lowest 32 m ne (
      omega
        (arith, pow-le-pow_right {n = 2} (omega arith) {i = w} {j = 32} (omega arith), small)) in
    let inside : p < w = elim (dec_lt p w) [
      | yes h ↦ h
      | no h ↦ absurd (omega (arith, l.set, bit-high w m p small (omega arith)))
    ] in
    let split = sym (bit-bit_and x (from_bit k) p) ∙ l.set in
    (inside, split-Masked x k p hk (omega arith) split)

-- A bit from `k` on keeps the masked bitmap from being 0.
masked-ne : (x k p : ℕ) → k < 16 → p < 32 → k ≤ p → bit x p ≡ 1 → bit_and x (from_bit k) ≢ 0
masked-ne x k p hk hp le set e =
    let z = ap (λ v. bit v p) e ∙ bit-clear p in
    let m = bit-bit_and x (from_bit k) p in
    let f : bit (from_bit k) p ≡ 1 = rw (bit-from_bit k p hk hp, le→leb k p le) in
    omega (arith, z, m, f, set)

set-ne : (x p : ℕ) → bit x p ≡ 1 → x ≢ 0
set-ne x p e z = let q = ap (λ v. bit v p) z ∙ bit-clear p in omega (arith, q, e)

non_zero-ne : (x : ℕ) → non_zero x ≡ 1 → x ≢ 0
non_zero-ne x e z = let q = ap non_zero z in omega (arith, q, e)

-- The outcome of a search for `n` bytes among the blocks of a map: a block that fits, or no block
-- of 17/16 of the request.
abbrev pub Found : (ℕ → Option ℕ) → ℕ → Pointer → Type 0
Found f n none = (x s : ℕ) → f x ≡ some s → 16 * s < 17 * n
Found f n (some a) = (s : ℕ) × (f a ≡ some s) × (n ≤ s)

module _ (st : Tlsf) (f : ℕ → Option ℕ) (n : ℕ) (d : Indexed st f) (r : Searched n) where
  abbrev at : ℕ × ℕ
  at = mapping_insert r.up

  abbrev sl_map : ℕ
  sl_map = bit_and (st.sl_bitmap at.0) (from_bit at.1)

  abbrev fl_map : ℕ
  fl_map = bit_and st.fl_bitmap (from_bit (at.0 + 1))

  in_range : (at.0 < fl_count) × (at.1 < sl_count)
  in_range = mapping_insert-lt r.up r.inside

  head-Found :
      (p : Pointer) (fl sl : ℕ)
      → st.free.free_lists (slot (fl, sl)) ≡ p
      → present p ≡ 1
      → slot at ≤ slot (fl, sl)
      → Found f n p
  head-Found none fl sl e there le = absurd (omega (arith, there))
  head-Found (some a) fl sl e there le =
      let c = slot (fl, sl) in
      let (s, filed, of_class) =
        d.filed.there c a (first-In (d.filed.lists c) a (sym (d.filed.heads c) ∙ e)) in
      (s, filed, r.fits s (d.bounded a s filed) (subst (λ v. slot at ≤ v) (sym of_class) le))

  -- The head of a marked list at or above the one searched for.
  list-Found :
      (fl sl : ℕ)
      → fl < fl_count
      → sl < sl_count
      → bit (st.sl_bitmap fl) sl ≡ 1
      → slot at ≤ slot (fl, sl)
      → Found f n (st.free.free_lists (slot (fl, sl)))
  list-Found fl sl hf hs set le =
      head-Found (st.free.free_lists (slot (fl, sl))) fl sl refl
        (sym (d.marked.lists fl sl hf hs) ∙ set) le

  -- A large block marks its list and its octave.
  block-marks :
      (x s : ℕ)
      → f x ≡ some s
      → (bit (st.sl_bitmap (mapping_insert s).0) (mapping_insert s).1 ≡ 1)
        × (bit st.fl_bitmap (mapping_insert s).0 ≡ 1)
  block-marks x s e =
      let (hf, hs) = mapping_insert-lt s (d.bounded x s e) in
      let (b, head) = first-some x (d.filed.lists (class s)) (d.filed.all x s e) in
      let set : bit (st.sl_bitmap (mapping_insert s).0) (mapping_insert s).1 ≡ 1 =
        d.marked.lists (mapping_insert s).0 (mapping_insert s).1 hf hs
        ∙ ap present (d.filed.heads (class s) ∙ head) in
      (
        set,
        d.marked.octaves (mapping_insert s).0 hf
            ∙ set-non_zero (st.sl_bitmap (mapping_insert s).0) (mapping_insert s).1 set,
      )

  -- With both masked bitmaps empty, no block is much larger than the request.
  nothing-Found : sl_map ≡ 0 → fl_map ≡ 0 → Found f n none
  nothing-Found low high x s e = elim (dec_lt (16 * s) (17 * n)) [
    | yes lt ↦ lt
    | no ge ↦
        let (row, top) = block-marks x s e in
        let (hf, hs) = mapping_insert-lt s (d.bounded x s e) in
        let (uf, us) = in_range in
        let le = slot_mono r.up s (omega (arith, r.near)) (d.bounded x s e) in
        elim (dec_lt at.0 (mapping_insert s).0) [
          | yes above ↦ absurd (
              masked-ne st.fl_bitmap (at.0 + 1) (mapping_insert s).0 (omega arith) (omega arith)
                (omega arith) top high)
          | no same ↦
              let e' : (mapping_insert s).0 ≡ at.0 = omega arith in
              absurd (
                masked-ne (st.sl_bitmap at.0) at.1 (mapping_insert s).1 (omega arith) (omega arith)
                  (omega arith) (ap (λ v. bit (st.sl_bitmap v) (mapping_insert s).1) (sym e') ∙ row)
                  low)
        ]
  ]

  here-Found : sl_map ≢ 0 → Found f n (lowest_list at.0 sl_map st)
  here-Found ne =
      let (uf, us) = in_range in
      let (lt, m) =
        lowest-Masked 16 (st.sl_bitmap at.0) at.1 (omega arith) us (d.marked.row-lt at.0 uf) ne in
      list-Found at.0 (tlsf_ffs sl_map) uf lt m.set (omega (arith, m.above))

  up-Found :
      fl_map ≢ 0 → Found f n (lowest_list (tlsf_ffs fl_map) (st.sl_bitmap (tlsf_ffs fl_map)) st)
  up-Found ne =
      let (uf, us) = in_range in
      let up = tlsf_ffs fl_map in
      let (hf, m) =
        lowest-Masked 14 st.fl_bitmap (at.0 + 1) (omega arith) (omega arith) d.marked.top-lt ne in
      let row = st.sl_bitmap up in
      let l =
        trailing_zeros-Lowest 32 row (non_zero-ne row (sym (d.marked.octaves up hf) ∙ m.set))
          (omega (arith, d.marked.row-lt up hf)) in
      let hs : tlsf_ffs row < sl_count = elim (dec_lt (tlsf_ffs row) 16) [
        | yes h ↦ h
        | no h ↦ absurd (
            omega
              (arith, l.set, bit-high 16 row (tlsf_ffs row) (d.marked.row-lt up hf) (omega arith)))
      ] in
      list-Found up (tlsf_ffs row) hf hs l.set (omega (arith, m.above))

  climb-Found : sl_map ≡ 0 → Found f n (climb fl_map st).0
  climb-Found low = elim (Bool-cases (fl_map == 0)) [
    | inl z ↦ rw z (nothing-Found low (eqb→eq fl_map 0 z))
    | inr nz ↦ rw nz (up-Found (eqb→ne fl_map 0 nz))
  ]

pub index_find-Found :
    (st : Tlsf) (f : ℕ → Option ℕ) (n : ℕ)
    → Indexed st f
    → n % 8 ≡ 0
    → n < request_limit
    → Found f n (index_find n st).0
unfolding index_find
index_find-Found st f n d multiple lt =
    let r = search-Searched n multiple lt in
    rw r.at (elim (Bool-cases (sl_map st f n d r == 0)) [
      | inl z ↦ rw z (climb-Found st f n d r (eqb→eq (sl_map st f n d r) 0 z))
      | inr nz ↦ rw nz (here-Found st f n d r (eqb→ne (sl_map st f n d r) 0 nz))
    ])

pub fitting :
    (sizes : ℕ → ℕ) (f : ℕ → Option ℕ) (n : ℕ) (p : Pointer) (a : ℕ)
    → ((x s : ℕ) → f x ≡ some s → sizes x ≡ s)
    → Found f n p
    → p ≡ some a
    → (f a ≡ some (sizes a)) × (n ≤ sizes a)
fitting sizes f n none a right found e = absurd (some-none (sym e))
fitting sizes f n (some b) a right (s, filed, le) e =
    let same : a ≡ b = some-same (sym e) in
    let sized : s ≡ sizes a = sym (right a s (ap f same ∙ filed)) in
    (ap f same ∙ filed ∙ ap some sized, subst (λ v. n ≤ v) sized le)

-- TLSF is an index, for blocks below 2 ^ 20 bytes and requests that rounding keeps below them.
abbrev pub tlsf : FreeIndex
tlsf = record {
  State = Tlsf;
  size_limit = 2 ^ 20;
  request_limit = request_limit;
  vheap_index_reset = index_reset (λ a. record { next_free = none; prev_free = none });
  vheap_index_insert = index_insert;
  vheap_index_remove = index_remove;
  vheap_index_find = λ sizes. index_find;
  Files = Indexed;
  reset-Files = reset-Indexed (λ a. record { next_free = none; prev_free = none });
  insert-Files = λ sizes st f a d new small. insert-Indexed sizes st f a d new small;
  remove-Files = λ sizes st f a d filed. remove-Indexed sizes st f a d filed;
  find-Files = λ sizes st f n a d right multiple small e.
      fitting sizes f n (index_find n st).0 a right (index_find-Found st f n d multiple small) e;
}
