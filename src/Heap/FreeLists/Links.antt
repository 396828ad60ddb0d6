-- ===== src/Heap/FreeLists/Links.antt =====
-- The pointer writes to the links of free blocks: what each changes.
use vaios.Base.{
  ℕ, ◌≡◌, ◌≢◌, refl, ◌==◌, none, some, ne→eqb, eqb_refl, Bool-cases, eqb→eq, inl, inr, ap,
}
use vaios.Heap.Blocks.{Pointer}
use vaios.Heap.FreeLists.{FreeNode, set_next, set_prev}

abbrev pub nexts : (ℕ → FreeNode) → ℕ → Pointer
nexts t x = (t x).next_free

abbrev pub prevs : (ℕ → FreeNode) → ℕ → Pointer
prevs t x = (t x).prev_free

pub set_next-there :
    (p v : Pointer) (t : ℕ → FreeNode) (y : ℕ) → p ≡ some y → nexts (set_next p v t) y ≡ v
set_next-there p v t y e = rw (nexts, e, eqb_refl y)

some-ne : (p y : ℕ) → some p ≢ some y → p ≢ y
some-ne p y ne e = ne (ap some e)

pub set_next-else :
    (p v : Pointer) (t : ℕ → FreeNode) (y : ℕ) → p ≢ some y → nexts (set_next p v t) y ≡ nexts t y
set_next-else none v t y ne = refl
set_next-else (some p) v t y ne = rw (nexts, ne→eqb p y (some-ne p y ne))

pub set_next-prev :
    (p v : Pointer) (t : ℕ → FreeNode) (y : ℕ) → prevs (set_next p v t) y ≡ prevs t y
set_next-prev none v t y = refl
set_next-prev (some p) v t y = elim (Bool-cases (p == y)) [
  | inl e ↦ rw (prevs, e) (ap (prevs t) (eqb→eq p y e))
  | inr e ↦ rw (prevs, e)
]

pub set_prev-there :
    (p v : Pointer) (t : ℕ → FreeNode) (y : ℕ) → p ≡ some y → prevs (set_prev p v t) y ≡ v
set_prev-there p v t y e = rw (prevs, e, eqb_refl y)

pub set_prev-else :
    (p v : Pointer) (t : ℕ → FreeNode) (y : ℕ) → p ≢ some y → prevs (set_prev p v t) y ≡ prevs t y
set_prev-else none v t y ne = refl
set_prev-else (some p) v t y ne = rw (prevs, ne→eqb p y (some-ne p y ne))

pub set_prev-next :
    (p v : Pointer) (t : ℕ → FreeNode) (y : ℕ) → nexts (set_prev p v t) y ≡ nexts t y
set_prev-next none v t y = refl
set_prev-next (some p) v t y = elim (Bool-cases (p == y)) [
  | inl e ↦ rw (nexts, e) (ap (nexts t) (eqb→eq p y e))
  | inr e ↦ rw (nexts, e)
]

pub set_next-same :
    (p : Pointer) (t : ℕ → FreeNode) (y : ℕ) → nexts (set_next p (nexts t y) t) y ≡ nexts t y
set_next-same none t y = refl
set_next-same (some p) t y = elim (Bool-cases (p == y)) [
  | inl e ↦ rw (nexts, e)
  | inr e ↦ rw (nexts, e)
]
