-- ===== src/Kmsg/Read.antt =====
-- `v_kmsg_read` of kernel/utils.c: the oldest bytes are handed out, and leave the ring.
use vaios.Base.{
  ℕ, zero, suc, ◌+◌, ◌%◌, ◌≤◌, ◌<◌, ◌≡◌, ◌⊎◌, inl, inr, refl, sym, ap, ap₂, ◌∙◌, arith, ◌∷◌, ◌++◌,
  length, update, Bool-cases, eqb→eq, eqb→ne, ne→eqb, eqb_refl, ◌==◌, min, ◌≢◌,
}
use vaios.Machine.{Memory, add32, sub32}
use vaios.Kmsg.{ring_size, Kmsg, IsValid, contents, v_kmsg_read}
use vaios.Kmsg.Append.{run, run-first, length-contents, bytes, bytes-first}

-- What a read of up to `len` bytes to `out` makes of a ring.
pub record Read (k : Kmsg) (m : Memory) (out len : ℕ) (r : ℕ × Kmsg × Memory) : Type 0 where
  pub valid : IsValid r.1
  pub got : r.0 ≡ min len (length (contents k))
  pub split : contents k ≡ bytes r.2 out r.0 ++ contents r.1
  pub kept : (a : ℕ) → (a < out) ⊎ (out + r.0 ≤ a) → r.2 a ≡ m a

-- The ring without its oldest byte.
abbrev advanced : Kmsg → Kmsg
advanced k = record k { tail = add32 k.tail 1 }

module _ (k : Kmsg) (h : IsValid k) (more : k.tail ≢ k.head) where
  advanced-length : sub32 k.head k.tail ≡ suc (sub32 k.head (add32 k.tail 1))
  advanced-length = omega (arith, h.head_word, h.tail_word, more)

  advanced-IsValid : IsValid (advanced k)
  advanced-IsValid = record {
    head_word = h.head_word;
    tail_word = omega arith;
    bounded = omega (arith, h.bounded, advanced-length);
  }

  contents-advanced : contents k ≡ k.ring (k.tail % ring_size) ∷ contents (advanced k)
  unfolding contents
  contents-advanced =
      ap (run k.ring k.tail) advanced-length
      ∙ run-first k.ring k.tail (sub32 k.head (add32 k.tail 1))

  taken-Read :
      (m : Memory) (out len : ℕ) (r : ℕ × Kmsg × Memory)
      → Read (advanced k) (update m out (k.ring (k.tail % ring_size))) (suc out) len r
      → Read k m out (suc len) (suc r.0, r.1, r.2)
  taken-Read m out len r later = record {
    valid = later.valid;
    got = omega (arith, later.got, ap length contents-advanced);
    split =
        contents-advanced
        ∙ ap₂ ◌∷◌ (sym first) later.split
        ∙ ap (λ xs. xs ++ contents r.1) (sym (bytes-first r.2 out r.0));
    kept = λ a far. later.kept a (ground arith) ∙ rw (ne→eqb out a (λ e. ground arith)) refl;
  }
    where
      first : r.2 out ≡ k.ring (k.tail % ring_size)
      first = later.kept out (inl (omega arith)) ∙ rw (eqb_refl out) refl

-- Nothing is read.
none-Read :
    (k : Kmsg) (m : Memory) (out len : ℕ)
    → IsValid k
    → min len (length (contents k)) ≡ 0
    → Read k m out len (0, k, m)
none-Read k m out len h e = record { valid = h; got = sym e; split = refl; kept = λ a far. refl }

-- A read from a valid log ring hands out the oldest bytes in order, as many as are asked for and
-- there are, keeps the others and validity, and changes no other byte.
pub v_kmsg_read_lem :
    (out len : ℕ) (k : Kmsg) (m : Memory) → IsValid k → Read k m out len (v_kmsg_read out len k m)
unfolding v_kmsg_read
v_kmsg_read_lem out zero k m h = none-Read k m out 0 h (omega arith)
v_kmsg_read_lem out (suc len) k m h = elim (Bool-cases (k.tail == k.head)) [
  | inl none ↦
      rw none (
        none-Read k m out (suc len) h (omega (arith, eqb→eq k.tail k.head none, length-contents k)))
  | inr more ↦ rw more (
      taken-Read k h (eqb→ne k.tail k.head more) m out len
        (v_kmsg_read (suc out) len (advanced k) (update m out (k.ring (k.tail % ring_size))))
        (v_kmsg_read_lem (suc out) len (advanced k) (update m out (k.ring (k.tail % ring_size)))
          (advanced-IsValid k h (eqb→ne k.tail k.head more))))
]
