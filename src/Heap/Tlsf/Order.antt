-- ===== src/Heap/Tlsf/Order.antt =====
-- `mapping_insert` and `mapping_search` of kernel/memory/tlsf.c: the arrays are not left, larger
-- blocks are not in lower lists, and a list at or above the one searched for holds what fits.
use native.Mathlib.Nat.{
  one-le-pow, pow-le-pow_right, lt-mul-div-succ, mul-div-le, mul-le-mul, div-mul-le_self,
  le-div_iff_mul-le,
}
use vaios.Base.{
  ℕ, ge→ltb, ◌+◌, ◌-◌, ◌*◌, ◌/◌, ◌%◌, ◌^◌, ◌≤◌, ◌<◌, ◌≡◌, sym, ap, subst, arith, dec_lt, le→leb,
  lt→leb,
}
use vaios.Machine.{add32}
use vaios.Heap.Tlsf.{
  small_block, sl_count, fl_count, slot, tlsf_fls, mapping_insert, mapping_search,
}
use vaios.Heap.Tlsf.Mapping.{Octave-mono, fls-Octave, Large, small-at, mapping_insert-Large}

-- Below 2 ^ 20 bytes, the octave and the slot of a size are in the arrays.
pub mapping_insert-lt :
    (s : ℕ) → s < 2 ^ 20 → ((mapping_insert s).0 < fl_count) × ((mapping_insert s).1 < sl_count)
mapping_insert-lt s hi = elim (dec_lt s small_block) [
  | yes small ↦ rw (small-at s small) (omega arith, omega arith)
  | no large ↦
      let l = mapping_insert-Large s (omega arith) hi in
      rw l.at (omega (arith, l.most), omega (arith, l.high))
]

slot-small : (s : ℕ) → s < small_block → slot (mapping_insert s) ≡ s / 8
slot-small s lt = rw (small-at s lt) (omega arith)

slot-Large :
    (s : ℕ) (l : Large s)
    → slot (mapping_insert s) ≡ (l.octave - 6) * 16 + (s / 2 ^ (l.octave - 4) - 16)
slot-Large s l = ap slot l.at

quotient_mono : (p x y : ℕ) → 0 < p → x ≤ y → x / p ≤ y / p
quotient_mono p x y pos le =
    (le-div_iff_mul-le {k = p} {x = x / p} {y = y} pos).1 (omega (arith, div-mul-le_self x p))

Large-mono :
    (x y : ℕ) → x ≤ y → Large x → Large y → slot (mapping_insert x) ≤ slot (mapping_insert y)
Large-mono x y le l m =
    let up = Octave-mono x y l.octave m.octave l.in_octave m.in_octave le in
    elim (dec_lt l.octave m.octave) [
      | yes less ↦ omega (arith, slot-Large x l, slot-Large y m, l.high, l.least)
      | no same ↦
          let e : m.octave ≡ l.octave = omega arith in
          let q =
            subst (λ v. x / 2 ^ (l.octave - 4) ≤ y / 2 ^ (v - 4)) (sym e)
              (quotient_mono (2 ^ (l.octave - 4)) x y (one-le-pow (l.octave - 4) 2 (omega arith))
                le) in
          omega (arith, slot-Large x l, slot-Large y m, q)
    ]

-- A larger size is not in a lower list.
pub slot_mono : (x y : ℕ) → x ≤ y → y < 2 ^ 20 → slot (mapping_insert x) ≤ slot (mapping_insert y)
slot_mono x y le hi = elim (dec_lt x small_block) [
  | yes small ↦ elim (dec_lt y small_block) [
    | yes small' ↦ omega (arith, slot-small x small, slot-small y small')
    | no large ↦
        let l = mapping_insert-Large y (omega arith) hi in
        omega (arith, slot-small x small, slot-Large y l, l.least)
  ]
  | no large ↦
      Large-mono x y le (mapping_insert-Large x (omega arith) (omega arith))
        (mapping_insert-Large y (omega arith) hi)
]

-- A multiple of `p` that is not below `up` rounded down is not below what `up` was rounded up from.
rounded : (p n up s : ℕ) → 0 < p → up + 1 ≡ n + p → up / p ≤ s / p → n ≤ s
rounded p n up s pos round le =
    let below = lt-mul-div-succ up {b = p} pos in
    let whole = mul-div-le s p in
    let more = mul-le-mul {n₁ = p} {m₁ = up / p} {n₂ = p} {m₂ = s / p} (omega arith) le in
    grind (arith, below, whole, more, round)

module _ (n up s : ℕ) (l : Large n) (u : Large up) (t : Large s)
    (above : slot (mapping_insert up) ≤ slot (mapping_insert s)) where
  slots_le :
      (u.octave - 6) * 16 + (up / 2 ^ (u.octave - 4) - 16)
      ≤ (t.octave - 6) * 16 + (s / 2 ^ (t.octave - 4) - 16)
  slots_le = omega (arith, above, slot-Large up u, slot-Large s t)

  -- A smaller block at or above a request is in the octave of the request.
  same_octave : s ≤ n → n ≤ up → (u.octave ≡ l.octave) × (t.octave ≡ l.octave)
  same_octave le le' =
      let a = Octave-mono s n t.octave l.octave t.in_octave l.in_octave le in
      let b = Octave-mono n up l.octave u.octave l.in_octave u.in_octave le' in
      let c : u.octave ≤ t.octave = omega (arith, slots_le, t.high, u.least, t.least) in
      (omega arith, omega arith)

  quotients :
      (u.octave ≡ l.octave) × (t.octave ≡ l.octave)
      → up / 2 ^ (l.octave - 4) ≤ s / 2 ^ (l.octave - 4)
  quotients (eu, et) =
      let le =
        subst
          (λ v.
            (l.octave - 6) * 16 + (up / 2 ^ (l.octave - 4) - 16)
            ≤ (v - 6) * 16 + (s / 2 ^ (v - 4) - 16))
          et
          (subst
            (λ v.
              (v - 6) * 16 + (up / 2 ^ (v - 4) - 16)
              ≤ (t.octave - 6) * 16 + (s / 2 ^ (t.octave - 4) - 16))
            eu slots_le) in
      let low = subst (λ v. 16 ≤ s / 2 ^ (v - 4)) et t.low in omega (arith, le, low)

  large-fits : up + 1 ≡ n + 2 ^ (l.octave - 4) → n ≤ s
  large-fits round = elim (dec_lt s n) [
    | no fits ↦ omega arith
    | yes less ↦
        let pos : 0 < 2 ^ (l.octave - 4) = one-le-pow (l.octave - 4) 2 (omega arith) in
        rounded (2 ^ (l.octave - 4)) n up s pos round
          (quotients (same_octave (omega arith) (omega arith)))
  ]

small-below :
    (up s : ℕ) → Large up → s < small_block → slot (mapping_insert up) ≤ slot (mapping_insert s) → ⊥
small-below up s u tiny above = omega (arith, slot-small s tiny, slot-Large up u, u.least, above)

-- What `mapping_search` files the request as: less than a slot more.
pub record Searched (n : ℕ) : Type 0 where
  pub up : ℕ
  pub at : mapping_search n ≡ mapping_insert up
  pub least : n ≤ up
  pub inside : up < 2 ^ 20
  pub near : 16 * up ≤ 17 * n
  pub fits : (s : ℕ) → s < 2 ^ 20 → slot (mapping_insert up) ≤ slot (mapping_insert s) → n ≤ s

-- Requests whose rounding stays below 2 ^ 20.
abbrev pub request_limit : ℕ
request_limit = 2 ^ 20 - 2 ^ 15

small-Searched : (n : ℕ) → n % 8 ≡ 0 → n < small_block → Searched n
unfolding mapping_search
small-Searched n multiple small = record {
  up = n;
  at = rw (lt→leb n 128 small);
  least = omega arith;
  inside = omega arith;
  near = omega arith;
  fits = λ s hs above. elim (dec_lt s small_block) [
    | yes tiny ↦ omega (arith, slot-small n small, slot-small s tiny, above)
    | no large ↦ omega arith
  ];
}

module _ (n : ℕ) (lo : small_block ≤ n) (hi : n < request_limit) where
  abbrev width : ℕ
  width = 2 ^ (tlsf_fls n - 4)

  abbrev up : ℕ
  up = n + width - 1

  large-Searched : Searched n
  unfolding mapping_search
  large-Searched =
      let l = mapping_insert-Large n lo (omega arith) in
      let same : 2 ^ (l.octave - 4) ≡ width = ap (λ v. 2 ^ (v - 4)) l.is in
      let pos : 0 < width = one-le-pow (tlsf_fls n - 4) 2 (omega arith) in
      let narrow =
        pow-le-pow_right {n = 2} (omega arith) {i = l.octave - 4} {j = 15}
          (omega (arith, l.most)) in
      let inside : up < 2 ^ 20 = omega (arith, narrow, same) in
      let no_wrap : add32 n (width - 1) ≡ up = omega arith in
      record {
        up = up;
        at = rw (le→leb 128 n lo, no_wrap);
        least = omega arith;
        inside = inside;
        near = omega (arith, l.width, same, l.in_octave.low);
        fits = λ s hs above. elim (dec_lt s small_block) [
          | yes tiny ↦
              absurd (small-below up s (mapping_insert-Large up (omega arith) inside) tiny above)
          | no large ↦
              large-fits n up s l (mapping_insert-Large up (omega arith) inside)
                (mapping_insert-Large s (omega arith) hs) above (omega (arith, same))
        ];
      }

-- A request of whole words below the limit is searched for at the lists that surely fit it.
pub search-Searched : (n : ℕ) → n % 8 ≡ 0 → n < request_limit → Searched n
search-Searched n multiple lt = elim (dec_lt n small_block) [
  | yes small ↦ small-Searched n multiple small
  | no large ↦ large-Searched n (omega arith) lt
]

-- A request of more than 2 ^ 20 - 2 ^ 15 and less than 2 ^ 31 bytes is searched for in an octave
-- behind the last one of the bitmaps and lists.
pub mapping_search-past : (n : ℕ) → request_limit < n → n < 2 ^ 31 → fl_count ≤ (mapping_search n).0
unfolding mapping_search mapping_insert
mapping_search-past n lo hi =
    let o = fls-Octave n (omega arith) (omega arith) in
    let k =
      Octave-mono (2 ^ 19) n 19 (tlsf_fls n) (record { low = omega arith; high = omega arith }) o
        (omega arith) in
    let top =
      Octave-mono n (2 ^ 31 - 1) (tlsf_fls n) 30 o
        (record { low = omega arith; high = omega arith }) (omega arith) in
    let wide = pow-le-pow_right {n = 2} (omega arith) {i = 15} {j = tlsf_fls n - 4} (omega arith) in
    let narrow =
      pow-le-pow_right {n = 2} (omega arith) {i = tlsf_fls n - 4} {j = 26} (omega arith) in
    let up = n + 2 ^ (tlsf_fls n - 4) - 1 in
    let no_wrap : add32 n (2 ^ (tlsf_fls n - 4) - 1) ≡ up = omega arith in
    let l =
      Octave-mono (2 ^ 20) up 20 (tlsf_fls up) (record { low = omega arith; high = omega arith })
        (fls-Octave up (omega arith) (omega arith)) (omega arith) in
    rw (le→leb 128 n (omega arith), no_wrap, ge→ltb up 128 (omega arith)) (omega arith)
