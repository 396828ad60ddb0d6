-- ===== src/Format/Reverse.antt =====
-- `reverse` of kernel/utils.c turns a run of bytes round and leaves the others.
use vaios.Base.{
  ℕ, zero, suc, ◌+◌, ◌-◌, ◌≤◌, ◌<◌, ◌≡◌, ◌≢◌, ◌⊎◌, inl, inr, refl, sym, ap, ◌∙◌, arith, update,
  eqb_refl, ne→eqb, dec_lt, lt→ltb, ge→ltb,
}
use vaios.Machine.{Memory}
use vaios.Format.{reverse_between, reverse, swap}

pub update-here : (m : Memory) (a b v : ℕ) → a ≡ b → update m a v b ≡ v
update-here m a b v e = rw (e, eqb_refl b) refl

pub update-elsewhere : (m : Memory) (a b v : ℕ) → a ≢ b → update m a v b ≡ m b
update-elsewhere m a b v e = rw (ne→eqb a b e) refl

swap-else : (m : Memory) (a b c : ℕ) → a ≢ c → b ≢ c → swap a b m c ≡ m c
swap-else m a b c p q =
    update-elsewhere (update m a (m b)) b c (m a) q ∙ update-elsewhere m a c (m b) p

swap-first : (m : Memory) (a b : ℕ) → a ≢ b → swap a b m a ≡ m b
swap-first m a b p =
    update-elsewhere (update m a (m b)) b a (m a) (λ e. p (sym e)) ∙ update-here m a a (m b) refl

-- What the loop leaves alone.
between-outside :
    (fuel str i j a : ℕ) (m : Memory)
    → (a < str + i) ⊎ (str + j < a)
    → reverse_between fuel str i j m a ≡ m a
unfolding reverse_between
between-outside zero str i j a m out = refl
between-outside (suc fuel) str i j a m out = elim (dec_lt i j) [
  | yes lt ↦ rw (lt→ltb i j lt) (
      between-outside fuel str (suc i) (j - 1) a (swap (str + i) (str + j) m) (ground arith)
      ∙ swap-else m (str + i) (str + j) a (λ e. ground arith) (λ e. ground arith))
  | no ge ↦ rw (ge→ltb i j (omega arith)) refl
]

-- With a round for every pair, the byte at index `k` comes from the index as far from the other end.
between-inside :
    (fuel str i j k l : ℕ) (m : Memory)
    → j ≤ i + fuel
    → i ≤ k
    → k ≤ j
    → k + l ≡ i + j
    → reverse_between fuel str i j m (str + k) ≡ m (str + l)
unfolding reverse_between
between-inside zero str i j k l m enough lo hi e = ap m (omega arith)
between-inside (suc fuel) str i j k l m enough lo hi e = elim (dec_lt i j) [
  | no ge ↦ rw (ge→ltb i j (omega arith)) (ap m (omega arith))
  | yes lt ↦ rw (lt→ltb i j lt) (elim (dec_lt i k) [
    | no here ↦
        between-outside fuel str (suc i) (j - 1) (str + k) swapped (inl (omega arith))
        ∙ ap swapped {x = str + k} {y = str + i} (omega arith)
        ∙ swap-first m (str + i) (str + j) (λ q. omega arith)
        ∙ ap m (omega arith)
    | yes past ↦ elim (dec_lt k j) [
      | no there ↦
          between-outside fuel str (suc i) (j - 1) (str + k) swapped (inr (omega arith))
          ∙ update-here (update m (str + i) (m (str + j))) (str + j) (str + k) (m (str + i))
              (omega arith)
          ∙ ap m (omega arith)
      | yes within ↦
          between-inside fuel str (suc i) (j - 1) k l swapped (omega arith) (omega arith)
            (omega arith) (omega arith)
          ∙ swap-else m (str + i) (str + j) (str + l) (λ q. omega arith) (λ q. omega arith)
    ]
  ])
]
  where
    swapped : Memory
    swapped = swap (str + i) (str + j) m

-- Index `k` gets the byte of index `l`, as far from the end as `k` is from the start.
pub reverse-inside :
    (str len k l : ℕ) (m : Memory) → k + suc l ≡ len → reverse str len m (str + k) ≡ m (str + l)
unfolding reverse
reverse-inside str len k l m e =
    between-inside len str 0 (len - 1) k l m (omega arith) (omega arith) (omega arith) (omega arith)

pub reverse-outside :
    (str len a : ℕ) (m : Memory) → (a < str) ⊎ (str + len ≤ a) → 1 ≤ len → reverse str len m a ≡ m a
unfolding reverse
reverse-outside str len a m out some = between-outside len str 0 (len - 1) a m (ground arith)
