-- ===== src/Ipc/WaitQueue/Remove.antt =====
-- `wait_q_remove` of kernel/ipc.c on the sequence of the waiting tasks.
use vaios.Base.{
  ℕ, zero, suc, ◌≡◌, ◌≢◌, ◌<◌, refl, sym, ap, subst, ◌∙◌, inl, List, [], ◌∷◌, ◌++◌, length, none,
  some, arith, if◌then◌else◌, eqb_refl, ne→eqb,
}
use vaios.Chain.{
  NotIn, Distinct, In-ne, last_or, last, Distinct-after, last-In, In-append_right, In-append_left,
  last_or-some,
}
use vaios.Sched.Tcb.{Pointer}
use vaios.Sched.TaskList.{Store}
use vaios.Ipc.WaitQueue.{Sema, is_at, set_wait_next, unlink_waiter, seek_waiter, wait_q_remove}
use vaios.Ipc.WaitQueue.Chained.{Waits, Waits-frame}
use vaios.Ipc.WaitQueue.Laws.{Queued}

-- The walk finds the task behind those before it.
seek-finds :
    (n x : ℕ) (before p : Pointer) (ys zs : List ℕ) (sem : Sema) (t : Store)
    → Waits t p (ys ++ (x ∷ zs))
    → NotIn x ys
    → length ys < n
    → seek_waiter n x before p sem t ≡ unlink_waiter x (last_or before ys) sem t
unfolding seek_waiter
seek-finds zero x before p ys zs sem t h out lt = absurd (omega arith)
seek-finds (suc n) x before p [] zs sem t h out lt = rw (h.0, eqb_refl x)
seek-finds (suc n) x before p (y ∷ ys) zs sem t h out lt =
    rw (h.0, ne→eqb y x (λ e. out.0 (sym e)))
      (seek-finds n x (some y) (t y).wait_next ys zs sem t h.1 out.1 (omega arith))

module _ (t : Store) (x b : ℕ) where
  abbrev pub cut : Store
  cut = set_wait_next x none (set_wait_next b (t x).wait_next t)

  cut-there : x ≢ b → (cut b).wait_next ≡ (t x).wait_next
  cut-there ne = rw (ne→eqb x b ne, eqb_refl b)

  cut-else : (y : ℕ) → x ≢ y → b ≢ y → (cut y).wait_next ≡ (t y).wait_next
  cut-else y nx nb = rw (ne→eqb x y nx, ne→eqb b y nb)

  -- The tasks behind `y`, of which `b` is the last before the one that is taken out.
  pub cut-Waits :
      (y : ℕ) (ys zs : List ℕ)
      → Waits t (t y).wait_next (ys ++ (x ∷ zs))
      → Distinct (y ∷ (ys ++ (x ∷ zs)))
      → last_or (some y) ys ≡ some b
      → Waits cut (cut y).wait_next (ys ++ zs)
  cut-Waits y [] zs h d e =
      let last_is : y ≡ b = ground arith in
      let ne : x ≢ b = λ q. d.0.0 (last_is ∙ sym q) in
      subst (λ q. Waits cut q zs) (sym (ap (λ v. (cut v).wait_next) last_is ∙ cut-there ne))
        (Waits-frame t cut (t x).wait_next zs
          (λ v i. cut-else v (In-ne x v zs d.1.0 i) (λ q. In-ne y v zs d.0.1 i (last_is ∙ q))) h.1)
  cut-Waits y (z ∷ ys) zs h d e =
      let rest = (z ∷ ys) ++ (x ∷ zs) in
      let apart : y ≢ b =
        In-ne y b rest d.0 (In-append_left b (z ∷ ys) (x ∷ zs) (last-In (z ∷ ys) b e)) in
      let other : y ≢ x = In-ne y x rest d.0 (In-append_right x (z ∷ ys) (x ∷ zs) (inl refl)) in
      (cut-else y (λ q. other (sym q)) (λ q. apart (sym q)) ∙ h.0, cut-Waits z ys zs h.1 d.1 e)

pub NotIn-before : (ys : List ℕ) (x : ℕ) (zs : List ℕ) → Distinct (ys ++ (x ∷ zs)) → NotIn x ys
NotIn-before [] x zs d = tt
NotIn-before (y ∷ ys) x zs d = (
  λ e. In-ne y x (ys ++ (x ∷ zs)) d.0 (In-append_right x ys (x ∷ zs) (inl refl)) (sym e),
  NotIn-before ys x zs d.1,
)

-- The last task is the one before, if the last one is taken out.
tail-cut :
    (x : ℕ) (p : Pointer) (ys zs : List ℕ)
    → NotIn x zs
    → let tail = last_or p (ys ++ (x ∷ zs)) in
      (if is_at x tail then last_or p ys else tail) ≡ last_or p (ys ++ zs)
tail-cut x p (y ∷ ys) zs out = tail-cut x (some y) ys zs out
tail-cut x p [] [] out = rw (eqb_refl x)
tail-cut x p [] (z ∷ zs) out =
    let (l, e) = last_or-some z zs in
    rw (e, ne→eqb l x (λ q. In-ne x l (z ∷ zs) out (last-In (z ∷ zs) l e) (sym q)))

pub tail-unlinked :
    (x b y : ℕ) (ys zs : List ℕ) (tail : Pointer)
    → Distinct (y ∷ (ys ++ (x ∷ zs)))
    → last_or (some y) ys ≡ some b
    → tail ≡ last_or (some y) (ys ++ (x ∷ zs))
    → (if is_at x tail then some b else tail) ≡ last_or (some y) (ys ++ zs)
tail-unlinked x b y ys zs tail dis e at_end =
    let old = last_or (some y) (ys ++ (x ∷ zs)) in
    ap (λ q. if is_at x q then some b else q) at_end
    ∙ subst (λ q. (if is_at x old then q else old) ≡ last_or (some y) (ys ++ zs)) e
        (tail-cut x (some y) ys zs (Distinct-after (y ∷ ys) x zs dis))

unlink-Queued :
    (sem : Sema) (t : Store) (ys : List ℕ) (x : ℕ) (zs : List ℕ)
    → Queued sem t (ys ++ (x ∷ zs))
    → Distinct (ys ++ (x ∷ zs))
    → let out = unlink_waiter x (last ys) sem t in Queued out.0 out.1 (ys ++ zs)
unlink-Queued sem t [] x zs d dis = record {
  waits =
      Waits-frame t (set_wait_next x none t) (t x).wait_next zs
        (λ v i. rw (ne→eqb x v (In-ne x v zs dis.0 i))) d.waits.1;
  tail = rw (d.tail) (tail-cut x none [] zs dis.0);
}
unlink-Queued sem t (y ∷ ys) x zs d dis =
    let (b, e) = last_or-some y ys in
    subst (λ p. let out = unlink_waiter x p sem t in Queued out.0 out.1 (y ∷ (ys ++ zs))) (sym e)
      (record {
        waits = (d.waits.0, cut-Waits t x b y ys zs d.waits.1 dis e);
        tail = tail-unlinked x b y ys zs sem.tail dis e d.tail;
      })

-- A task that is taken off a wait queue without repetitions, at whatever place, is gone from it and
-- the others keep their order, with a round of the walk for every task before it and for itself.
pub wait_q_remove-Queued :
    (fuel : ℕ) (sem : Sema) (t : Store) (ys : List ℕ) (x : ℕ) (zs : List ℕ)
    → Queued sem t (ys ++ (x ∷ zs))
    → Distinct (ys ++ (x ∷ zs))
    → length ys < fuel
    → let out = wait_q_remove fuel sem x t in Queued out.0 out.1 (ys ++ zs)
unfolding wait_q_remove
wait_q_remove-Queued fuel sem t ys x zs d dis lt =
    subst (λ out. Queued out.0 out.1 (ys ++ zs))
      (sym (seek-finds fuel x none sem.wait_q ys zs sem t d.waits (NotIn-before ys x zs dis) lt))
      (unlink-Queued sem t ys x zs d dis)
