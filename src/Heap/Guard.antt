-- ===== src/Heap/Guard.antt =====
-- What keeps `v_free` (kernel/memory/memory.c) from giving a block back twice.
use vaios.Base.{
  ℕ, ◌+◌, ◌≡◌, ◌⊎◌, refl, sym, ap, ◌∙◌, true, false, not, ◌&&◌, ◌||◌, ◌==◌, none, some, update,
  eqb_refl, eqb→eq, Bool-cases, inl, inr,
}
use vaios.Machine.{add32, sub32}
use vaios.Heap.Blocks.{Block, BlockStatus, mem_free, Pointer, header}
use vaios.Heap.Index.{FreeIndex}
use vaios.Heap.Facade.{
  Arena, Heap, in_heap, is_sane, is_free, block_after, set_size, fixup_next_prev, unfile, file,
  absorb, coalesce_forward, coalesce_with, mark_free, release, v_free,
}

abbrev statuses : (ℕ → Block) → ℕ → BlockStatus
statuses b a = (b a).status

update-status :
    (b : ℕ → Block) (a y : ℕ) (k : Block)
    → k.status ≡ statuses b a
    → statuses (update b a k) y ≡ statuses b y
update-status b a y k e = elim (Bool-cases (a == y)) [
  | inl s ↦ rw (statuses, s) (e ∙ ap (statuses b) (eqb→eq a y s))
  | inr s ↦ rw (statuses, s)
]

fixup-status :
    (r : Arena) (head : Pointer) (a y : ℕ) (b : ℕ → Block)
    → statuses (fixup_next_prev r head a b) y ≡ statuses b y
unfolding fixup_next_prev
fixup-status r head a y b =
    let next = block_after b a in
    elim (Bool-cases (in_heap r head next && is_sane (b next))) [
      | inl s ↦ rw s (update-status b next y (record (b next) { prev = some a }) refl)
      | inr s ↦ rw s
    ]

module _ (x : FreeIndex) (r : Arena) where
  open x use {State}

  absorb-status :
      (a next y : ℕ) (h : Heap State)
      → statuses (absorb x r a next h).blocks y ≡ statuses h.blocks y
  unfolding absorb
  absorb-status a next y h =
      let size = add32 (h.blocks a).size (header + (h.blocks next).size) in
      fixup-status r h.heap_mem_head a y (set_size a size h.blocks)
      ∙ update-status h.blocks a y (record (h.blocks a) { size = size }) refl

  forward-status :
      (a y : ℕ) (h : Heap State)
      → statuses (coalesce_forward x r a h).blocks y ≡ statuses h.blocks y
  unfolding coalesce_forward unfile
  forward-status a y h =
      let next = block_after h.blocks a in
      elim (Bool-cases (
        in_heap r h.heap_mem_head next
        && is_sane (h.blocks next)
        && is_free (h.blocks next).status)) [
          | inl s ↦ rw s (absorb-status a next y (unfile x r next h))
          | inr s ↦ rw s
        ]

  with-status :
      (p : Pointer) (a y : ℕ) (h : Heap State)
      → statuses (coalesce_with x r p a h).1.blocks y ≡ statuses h.blocks y
  unfolding coalesce_with unfile
  with-status none a y h = refl
  with-status (some p) a y h =
      elim (Bool-cases (is_sane (h.blocks p) && is_free (h.blocks p).status)) [
        | inl s ↦ rw s (absorb-status p a y (unfile x r p h))
        | inr s ↦ rw s
      ]

  release-status : (a : ℕ) (h : Heap State) → statuses (release x r a h).blocks a ≡ mem_free
  unfolding release file mark_free
  release-status a h =
      let started = mark_free x r a h in
      let ahead = coalesce_forward x r a started in
      with-status (ahead.blocks a).prev a a ahead
      ∙ forward-status a a started
      ∙ rw (statuses, eqb_refl a)

  v_free-shut :
      (ptr : ℕ) (h : Heap State) (head : Pointer)
      → h.heap_mem_head ≡ head
      → statuses h.blocks (sub32 ptr header) ≡ mem_free
      → v_free x r (some ptr) h ≡ h
  unfolding v_free
  v_free-shut ptr h none e free = rw e
  v_free-shut ptr h (some head) e free =
      let blk = sub32 ptr header in
      elim (Bool-cases (not (in_heap r (some head) blk) || not (is_sane (h.blocks blk)))) [
        | inl s ↦ rw (e, s)
        | inr s ↦ rw (e, s, free)
      ]

  pub v_free-open :
      (ptr blk head : ℕ) (h : Heap State)
      → h.heap_mem_head ≡ some head
      → sub32 ptr header ≡ blk
      → in_heap r (some head) blk ≡ true
      → is_sane (h.blocks blk) ≡ true
      → is_free (h.blocks blk).status ≡ false
      → v_free x r (some ptr) h ≡ release x r blk h
  unfolding v_free
  v_free-open ptr blk head h ready back lies sane used = rw (ready, back, lies, sane, used)

  v_free-cases :
      (ptr : ℕ) (h : Heap State) (head : Pointer)
      → h.heap_mem_head ≡ head
      → (v_free x r (some ptr) h ≡ h) ⊎ (v_free x r (some ptr) h ≡ release x r (sub32 ptr header) h)
  unfolding v_free
  v_free-cases ptr h none e = inl (rw e)
  v_free-cases ptr h (some head) e =
      let blk = sub32 ptr header in
      elim (Bool-cases (not (in_heap r (some head) blk) || not (is_sane (h.blocks blk)))) [
        | inl s ↦ inl (rw (e, s))
        | inr s ↦ elim (Bool-cases (is_free (h.blocks blk).status)) [
          | inl f ↦ inl (rw (e, s, f))
          | inr f ↦ inr (rw (e, s, f))
        ]
      ]

  -- As the block is marked free, and headers are not written over here, a second call returns.
  pub v_free_again : (p : Pointer) (h : Heap State) → v_free x r p (v_free x r p h) ≡ v_free x r p h
  unfolding v_free
  v_free_again none h = refl
  v_free_again (some ptr) h = elim (v_free-cases ptr h h.heap_mem_head refl) [
    | inl e ↦ ap (v_free x r (some ptr)) e
    | inr e ↦
        let out = release x r (sub32 ptr header) h in
        ap (v_free x r (some ptr)) e
        ∙ v_free-shut ptr out out.heap_mem_head refl (release-status (sub32 ptr header) h)
        ∙ sym e
  ]
