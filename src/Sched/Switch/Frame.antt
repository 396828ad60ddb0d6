-- ===== src/Sched/Switch/Frame.antt =====
-- A change that leaves the links, priorities and states of queued tasks alone keeps the ready
-- lists.
use vaios.Base.{ℕ, ◌≡◌, ◌≢◌, ◌∙◌, refl, sym, List, none, update, update_cases}
use vaios.Sched.Tcb.{Kernel, Tcb, modify}
use vaios.Sched.Links.{Linked-frame}
use vaios.Chain.{In, NotIn, In-ne}
use vaios.Sched.Ready.View.{Holds}

-- The part of a TCB that its ready list depends on.
pub record Alike (a b : Tcb) : Type 0 where
  pub same_next : a.next ≡ b.next
  pub same_prev : a.prev ≡ b.prev
  pub same_priority : a.priority ≡ b.priority
  pub same_status : a.status ≡ b.status

pub Holds-frame :
    {k : Kernel} {q : ℕ → List ℕ} (t : ℕ → Tcb)
    → Holds k q
    → ((p y : ℕ) → In y (q p) → Alike (t y) (k.tcbs y))
    → Holds (record k { tcbs = t }) q
Holds-frame {k} {q} t h alike = record {
  heads = h.heads;
  tails = h.tails;
  links = λ p.
      Linked-frame k.tcbs t none (q p) (λ y m. ((alike p y m).same_next, (alike p y m).same_prev))
        (h.links p);
  distinct = h.distinct;
  own = λ p y m. (alike p y m).same_priority ∙ h.own p y m;
  ready = λ p y m. (alike p y m).same_status ∙ h.ready p y m;
  levels = h.levels;
  bits = h.bits;
  small = h.small;
}

-- The same for fields that no list depends on.
pub Holds-counters :
    {k : Kernel} {q : ℕ → List ℕ} (k' : Kernel)
    → Holds k q
    → k'.tcbs ≡ k.tcbs
    → k'.ready_lists ≡ k.ready_lists
    → k'.ready_tails ≡ k.ready_tails
    → k'.ready_bitmap ≡ k.ready_bitmap
    → Holds k' q
Holds-counters k' h t l r b = record {
  heads = λ p. rw l (h.heads p);
  tails = λ p. rw r (h.tails p);
  links = λ p. rw t (h.links p);
  distinct = h.distinct;
  own = λ p y m. rw t (h.own p y m);
  ready = λ p y m. rw t (h.ready p y m);
  levels = h.levels;
  bits = λ p le. rw b (h.bits p le);
  small = rw b h.small;
}

-- A change of a task that is on no ready list.
pub Holds-modify :
    {k : Kernel} {q : ℕ → List ℕ} (x : ℕ) (change : Tcb → Tcb)
    → Holds k q
    → ((p : ℕ) → NotIn x (q p))
    → Holds (modify x change k) q
Holds-modify {k} {q} x change h out = Holds-frame (update k.tcbs x (change (k.tcbs x))) h (λ p y m.
    update_cases k.tcbs x (change (k.tcbs x)) (λ i c. i ≢ x → Alike c (k.tcbs i))
      (λ ne. absurd (ne refl))
      (λ i ne other. record {
        same_next = refl;
        same_prev = refl;
        same_priority = refl;
        same_status = refl;
      })
      y (λ e. In-ne x y (q p) (out p) m (sym e)))
