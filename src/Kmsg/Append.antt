-- ===== src/Kmsg/Append.antt =====
-- `v_kmsg_append` of kernel/utils.c: the ring keeps the last bytes.
use mathlib.Core.List.{append_assoc, append-nil}
use vaios.Base.{
  ℕ, zero, suc, ◌+◌, ◌-◌, ◌%◌, ◌≤◌, ◌<◌, ◌≡◌, refl, sym, ap, ap₂, ◌∙◌, arith, List, [], ◌∷◌, ◌++◌,
  length, length-append, length-tabulate, tabulate, tabulate-ext, tabulate-add, drop, update,
  dec_lt, ltb, lt→ltb, ge→ltb, true, false, ne→eqb, eqb_refl,
}
use vaios.Machine.{Memory, word_mod, add32, sub32}
use vaios.Kmsg.{ring_size, Kmsg, IsValid, contents, put_byte, v_kmsg_append}
use vaios.Kmsg.Last.{last, last-append, last_short}

-- The `n` bytes of a ring from a count on.
abbrev pub run : (ℕ → ℕ) → ℕ → ℕ → List ℕ
run ring tail n = tabulate n (λ i. ring ((tail + i) % ring_size))

-- A run starts with its first byte, and goes on from the next count.
pub run-first :
    (ring : ℕ → ℕ) (tail n : ℕ)
    → run ring tail (suc n) ≡ ring (tail % ring_size) ∷ run ring (add32 tail 1) n
run-first ring tail n = ap₂ ◌∷◌ (ap ring (omega arith)) (
    tabulate-ext n (λ i. ring ((tail + suc i) % ring_size))
      (λ i. ring ((add32 tail 1 + i) % ring_size)) (λ i p. ap ring (omega arith)))

-- A byte that is written behind a run with room becomes its last one.
run-update :
    (ring : ℕ → ℕ) (head tail n byte : ℕ)
    → n < ring_size
    → head % ring_size ≡ (tail + n) % ring_size
    → run (update ring (head % ring_size) byte) tail (n + 1) ≡ run ring tail n ++ (byte ∷ [])
run-update ring head tail n byte room e =
    tabulate-add n 1 (λ i. ring' ((tail + i) % ring_size)) ∙ ap₂ ◌++◌ before (ap (λ b. b ∷ []) here)
  where
    ring' : ℕ → ℕ
    ring' = update ring (head % ring_size) byte

    before : run ring' tail n ≡ run ring tail n
    before =
        tabulate-ext n (λ i. ring' ((tail + i) % ring_size)) (λ i. ring ((tail + i) % ring_size))
          (λ i p. rw (ne→eqb (head % ring_size) ((tail + i) % ring_size) (λ q. omega arith)) refl)

    here : ring' ((tail + (n + 0)) % ring_size) ≡ byte
    here =
        let same : (tail + (n + 0)) % ring_size ≡ head % ring_size = omega arith in
        rw (same, eqb_refl (head % ring_size)) refl

pub length-contents : (k : Kmsg) → length (contents k) ≡ sub32 k.head k.tail
unfolding contents
length-contents k = length-tabulate (sub32 k.head k.tail) (λ i. k.ring ((k.tail + i) % ring_size))

module _ (byte : ℕ) (k : Kmsg) (h : IsValid k) where
  -- What the count of bytes and the tail become.
  room_step :
      sub32 k.head k.tail < ring_size
      → ((put_byte byte k).tail ≡ k.tail)
        × (sub32 (put_byte byte k).head (put_byte byte k).tail ≡ sub32 k.head k.tail + 1)
  unfolding put_byte
  room_step room =
      let stays : ltb ring_size (sub32 (add32 k.head 1) k.tail) ≡ false =
        ge→ltb ring_size (sub32 (add32 k.head 1) k.tail) (omega arith) in
      rw stays (refl, omega arith)

  full_step :
      ring_size ≤ sub32 k.head k.tail
      → ((put_byte byte k).tail ≡ add32 k.tail 1)
        × (sub32 (put_byte byte k).head (put_byte byte k).tail ≡ ring_size)
  unfolding put_byte
  full_step full =
      let moves : ltb ring_size (sub32 (add32 k.head 1) k.tail) ≡ true =
        lt→ltb ring_size (sub32 (add32 k.head 1) k.tail) (omega arith) in
      rw moves (omega arith, omega arith)

  head_small : (put_byte byte k).head < word_mod
  unfolding put_byte
  head_small = omega arith

  put_byte-IsValid : IsValid (put_byte byte k)
  put_byte-IsValid = elim (dec_lt (sub32 k.head k.tail) ring_size) [
    | yes room ↦ record {
      head_word = head_small;
      tail_word = omega (arith, room_step room, h.tail_word);
      bounded = omega (arith, room_step room);
    }
    | no full ↦ record {
      head_word = head_small;
      tail_word = omega (arith, full_step (omega arith));
      bounded = omega (arith, full_step (omega arith));
    }
  ]

  length-more : length (contents k ++ (byte ∷ [])) ≡ sub32 k.head k.tail + 1
  length-more = omega (arith, length-append (contents k) (byte ∷ []), length-contents k)

  -- One more byte, behind those that stay.
  put_byte-contents : contents (put_byte byte k) ≡ last ring_size (contents k ++ (byte ∷ []))
  unfolding contents put_byte
  put_byte-contents = elim (dec_lt (sub32 k.head k.tail) ring_size) [
    | yes room ↦
        ap₂ (run ring') (room_step room).0 (room_step room).1
        ∙ run-update k.ring k.head k.tail (sub32 k.head k.tail) byte room
            (omega (arith, h.head_word))
        ∙ sym (last_short ring_size (contents k ++ (byte ∷ [])) (omega (arith, length-more)))
    | no full ↦
        let size : sub32 k.head k.tail ≡ ring_size = omega (arith, h.bounded) in
        ap₂ (run ring') (full_step (omega arith)).0 (full_step (omega arith)).1
        ∙ run-update k.ring k.head (add32 k.tail 1) (ring_size - 1) byte (omega arith) (omega arith)
        ∙ sym (
            ap (λ d. drop d (contents k ++ (byte ∷ []))) {y = 1} (omega (arith, length-more, size))
            ∙ ap (λ n. drop 1 (run k.ring k.tail n ++ (byte ∷ []))) size
            ∙ ap (λ xs. drop 1 (xs ++ (byte ∷ []))) (run-first k.ring k.tail (ring_size - 1)))
  ]
    where
      ring' : ℕ → ℕ
      ring' = update k.ring (k.head % ring_size) byte

-- The bytes at an address.
abbrev pub bytes : Memory → ℕ → ℕ → List ℕ
bytes m buf len = tabulate len (λ i. m (buf + i))

pub bytes-first : (m : Memory) (buf len : ℕ) → bytes m buf (suc len) ≡ m buf ∷ bytes m (suc buf) len
bytes-first m buf len =
    ap₂ ◌∷◌ (ap m (omega arith))
      (tabulate-ext len (λ i. m (buf + suc i)) (λ i. m (suc buf + i)) (λ i p. ap m (omega arith)))

-- After an append to a valid log ring, of any length, the ring is valid and holds the last 1024
-- bytes of what it held and what is appended, however often its counters wrap round.
pub v_kmsg_append_lem :
    (buf len : ℕ) (m : Memory) (k : Kmsg)
    → IsValid k
    → IsValid (v_kmsg_append buf len m k)
      × (contents (v_kmsg_append buf len m k) ≡ last ring_size (contents k ++ bytes m buf len))
unfolding v_kmsg_append
v_kmsg_append_lem buf zero m k h = (
  h,
  sym (
      last_short ring_size (contents k ++ [])
        (omega (arith, length-append (contents k) [], length-contents k, h.bounded))
      ∙ append-nil (contents k)),
)
v_kmsg_append_lem buf (suc len) m k h =
    let (valid, same) =
      v_kmsg_append_lem (suc buf) len m (put_byte (m buf) k) (put_byte-IsValid (m buf) k h) in
    (
      valid,
      same
          ∙ ap (λ xs. last ring_size (xs ++ bytes m (suc buf) len)) (put_byte-contents (m buf) k h)
          ∙ last-append ring_size (contents k ++ (m buf ∷ [])) (bytes m (suc buf) len)
          ∙ ap (last ring_size) (
              append_assoc (contents k) (m buf ∷ []) (bytes m (suc buf) len)
              ∙ ap (λ xs. contents k ++ xs) (sym (bytes-first m buf len))),
    )
