-- ===== src/Sched/UserMemory.antt =====
-- The checks of pointers that tasks pass to system calls: `v_access_ok` and `v_strnlen_user` of
-- kernel/task.c. `user_region` is `v_port_user_region` of the port, `none` where it returns 0, and
-- `guard` is VAIOS_MPU_GUARD_SIZE, 0 without a stack guard.
use vaios.Base.{
  ℕ, zero, suc, ◌+◌, ◌-◌, ◌≤◌, ◌<◌, ◌≡◌, ◌≢◌, subst, dec_lt, lt→ltb, ge→ltb, lt→leb, le→leb, min,
  Bool, false, ltb, leb, ◌==◌, ◌&&◌, ◌||◌, if◌then◌else◌, Option, none, some, arith, ne→eqb, eqb→eq,
  eqb→ne, Bool-cases, inl, inr,
}
use vaios.Machine.{word_mod, add32, sub32, Memory}
use vaios.Sched.Tcb.{Kernel, Tcb}

-- The branch for an address that the port says nothing about: the task's own block.
unfoldable pub inside_block : ℕ → Tcb → ℕ → ℕ → Bool
inside_block guard t a len =
    let base = add32 t.mem_block guard in
    let end = add32 t.mem_block t.stack_size in
    if ltb a base || ltb end a then false else leb len (sub32 end a)

-- `v_access_ok`
unfoldable pub v_access_ok : (ℕ → Bool → Option ℕ) → ℕ → Kernel → ℕ → ℕ → Bool → Bool
v_access_ok user_region guard k a len write = elim k.current_task [
  | none ↦ false
  | some c ↦ if (k.tcbs c).mem_block == 0 then false else elim (user_region a write) [
    | some port_end ↦ leb len (sub32 port_end a)
    | none ↦ inside_block guard (k.tcbs c) a len
  ]
]

-- `for (i = 0; i < limit; i++) if (s[i] == 0) return i;` from `i` on, with `n` rounds left
unfoldable pub scan : ℕ → Memory → ℕ → ℕ → Option ℕ
scan zero m a i = none
scan (suc n) m a i = let rest = scan n m a (suc i) in if m (a + i) == 0 then some i else rest

-- The end of the region that a string at `a` may reach; `none` is the early return of -1.
unfoldable pub string_end : (ℕ → Bool → Option ℕ) → ℕ → Tcb → ℕ → Option ℕ
string_end user_region guard t a =
    let base = add32 t.mem_block guard in
    let end = add32 t.mem_block t.stack_size in
    elim (user_region a false) [
      | some port_end ↦ some port_end
      | none ↦ if ltb a base || leb end a then none else some end
    ]

-- `v_strnlen_user`, with `none` for -1
unfoldable pub v_strnlen_user : (ℕ → Bool → Option ℕ) → ℕ → Kernel → Memory → ℕ → ℕ → Option ℕ
v_strnlen_user user_region guard k m a max = elim k.current_task [
  | none ↦ none
  | some c ↦
      if (k.tcbs c).mem_block == 0 then none else elim (string_end user_region guard (k.tcbs c) a) [
        | none ↦ none
        | some end ↦ let avail = sub32 end a in scan (if ltb avail max then avail else max) m a 0
      ]
]

-- What a scan of `n` bytes at `a` finds.
abbrev pub Scanned : Memory → ℕ → ℕ → Option ℕ → Type 0
Scanned m a n none = (i : ℕ) → i < n → m (a + i) ≢ 0
Scanned m a n (some l) = (l < n) × (m (a + l) ≡ 0) × ((i : ℕ) → i < l → m (a + i) ≢ 0)

-- A scan that starts at `i`.
abbrev ScannedFrom : Memory → ℕ → ℕ → ℕ → Option ℕ → Type 0
ScannedFrom m a i n none = (j : ℕ) → i ≤ j → j < i + n → m (a + j) ≢ 0
ScannedFrom m a i n (some l) =
    (i ≤ l) × (l < i + n) × (m (a + l) ≡ 0) × ((j : ℕ) → i ≤ j → j < l → m (a + j) ≢ 0)

later :
    (m : Memory) (a i n : ℕ) (r : Option ℕ)
    → m (a + i) ≢ 0
    → ScannedFrom m a (suc i) n r
    → ScannedFrom m a i (suc n) r
later m a i n none here h = λ j lo hi. elim (Bool-cases (i == j)) [
  | inl e ↦ subst (λ j. m (a + j) ≢ 0) (eqb→eq i j e) here
  | inr e ↦ let d = eqb→ne i j e in h j (omega arith) (omega arith)
]
later m a i n (some l) here h = (
  omega (arith, h.0),
  omega (arith, h.1),
  h.2,
  λ j lo hi. elim (Bool-cases (i == j)) [
    | inl e ↦ subst (λ j. m (a + j) ≢ 0) (eqb→eq i j e) here
    | inr e ↦ let d = eqb→ne i j e in h.3 j (omega arith) hi
  ],
)

scan-ScannedFrom : (n : ℕ) (m : Memory) (a i : ℕ) → ScannedFrom m a i n (scan n m a i)
unfolding scan
scan-ScannedFrom zero m a i = λ j lo hi. absurd (omega arith)
scan-ScannedFrom (suc n) m a i = elim (Bool-cases (m (a + i) == 0)) [
  | inl e ↦ rw e (omega arith, omega arith, eqb→eq (m (a + i)) 0 e, λ j lo hi. absurd (omega arith))
  | inr e ↦
      rw e (
        later m a i n (scan n m a (suc i)) (eqb→ne (m (a + i)) 0 e)
          (scan-ScannedFrom n m a (suc i)))
]

from_start : (m : Memory) (a n : ℕ) (r : Option ℕ) → ScannedFrom m a 0 n r → Scanned m a n r
from_start m a n none h = λ i lt. h i (omega arith) (omega arith)
from_start m a n (some l) h = (omega (arith, h.1), h.2, λ i lt. h.3 i (omega arith) lt)

sub32_plain : (a b : ℕ) → b ≤ a → a < word_mod → sub32 a b ≡ a - b
sub32_plain a b le small = omega arith

shorter : (avail max : ℕ) → (if ltb avail max then avail else max) ≡ min max avail
shorter avail max = ground arith

-- The part of a block that lies above the guard holds the bytes from `a` on.
module _ (user_region : ℕ → Bool → Option ℕ) (guard : ℕ) (k : Kernel) (c : ℕ)
    (here : k.current_task ≡ some c) (placed : 0 < (k.tcbs c).mem_block)
    (guard_in : guard ≤ (k.tcbs c).stack_size)
    (whole : (k.tcbs c).mem_block + (k.tcbs c).stack_size < word_mod) where
  abbrev base : ℕ
  base = (k.tcbs c).mem_block + guard

  abbrev end : ℕ
  end = (k.tcbs c).mem_block + (k.tcbs c).stack_size

  base-plain : add32 (k.tcbs c).mem_block guard ≡ base
  base-plain = omega arith

  end-plain : add32 (k.tcbs c).mem_block (k.tcbs c).stack_size ≡ end
  end-plain = omega arith

  -- For a block that does not reach the end of the address space, and where the port allows nothing
  -- more, `v_access_ok` holds exactly for the runs of bytes that lie
  -- between the guard and the end of the current task's block, without any wrap-around.
  pub v_access_ok_lem :
      (a len : ℕ) (write : Bool)
      → a < word_mod
      → user_region a write ≡ none
      → v_access_ok user_region guard k a len write ≡ (leb base a && leb (a + len) end)
  unfolding v_access_ok inside_block
  v_access_ok_lem a len write small quiet =
      rw (here, ne→eqb (k.tcbs c).mem_block 0 (omega arith), quiet, base-plain, end-plain)
        (elim (dec_lt end a) [
          | yes out ↦ rw (lt→ltb end a out, lt→leb end (a + len) (omega arith)) (ground arith)
          | no in' ↦
              rw (ge→ltb end a (omega arith), sub32_plain end a (omega arith) whole) (ground arith)
        ])

  -- For a block that does not reach the end of the address space, and where the port allows nothing
  -- more, `v_strnlen_user` finds the first NUL among the bytes from
  -- `s` to the end of the current task's block, `max` at most, and finds none for an `s` that is
  -- outside the block or in its guard.
  pub v_strnlen_user-Scanned :
      (m : Memory) (a max : ℕ)
      → user_region a false ≡ none
      → Scanned m a
          (min max (if leb base a then end - a else 0))
          (v_strnlen_user user_region guard k m a max)
  unfolding v_strnlen_user string_end
  v_strnlen_user-Scanned m a max quiet =
      rw (here, ne→eqb (k.tcbs c).mem_block 0 (omega arith), quiet, base-plain, end-plain)
        (elim (dec_lt a base) [
          | yes low ↦ rw (lt→ltb a base low, lt→leb a base low) (λ i lt. absurd (omega arith))
          | no above ↦
              rw (ge→ltb a base (omega arith), le→leb base a (omega arith))
                (elim (dec_lt a end) [
                  | yes before ↦
                      rw
                        (
                          lt→leb a end before,
                          sub32_plain end a (omega arith) whole,
                          shorter (end - a) max,
                        )
                        (from_start m a _ _ (scan-ScannedFrom (min max (end - a)) m a 0))
                  | no after ↦ rw (le→leb end a (omega arith)) (λ i lt. absurd (omega arith))
                ])
        ])
