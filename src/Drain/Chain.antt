-- ===== src/Drain/Chain.antt =====
-- The nodes that a drain has taken from the queue, and what other threads still do to them: an enqueue
-- that was under way when the tail was swapped is completed by its thread.
use aiq.Prelude.{
  ℕ, ◌≡◌, ap, fun_ext, ◌∙◌, inl, inr, true, none, some, Option, List, [], ◌∷◌, arith, Bool-cases,
  ◌==◌, if◌then◌else◌, has, Distinct, All, firsts, has-firsts,
}
use aiq.QueueState.{IsLink}
use aiq.Store.{Store, null, slot, set_slot, do_link}
use aiq.Store.Shape.{Seg, frame}

-- The store as the queue sees it once the nodes `ds` are no part of it.
abbrev pub mask : List ℕ → Store → Store
mask ds s = record s {
  next = λ z. if has z ds then null else s.next z;
  pending = λ z. if has z ds then none else s.pending z;
}

-- The nodes that are left to drain: the first one is linked.
abbrev pub Chain : Store → List ℕ → Type 0
Chain s [] = Unit
Chain s (x ∷ rest) = (s.pending x ≡ none) × Seg s null x rest

-- Stores that agree at each address are the same.
pub agree :
    (s : Store) (f g : ℕ → ℕ) (h k : ℕ → Option ℕ)
    → ((z : ℕ) → f z ≡ g z)
    → ((z : ℕ) → h z ≡ k z)
    → record s { next = f; pending = h } ≡ record s { next = g; pending = k }
agree s f g h k same same' =
    ap (λ f. record s { next = f; pending = h }) (fun_ext same)
    ∙ ap (λ h. record s { next = g; pending = h }) (fun_ext same')

-- A write that is still to be made in a segment is made at a place of it.
pub Seg-place :
    (s : Store) (p r y : ℕ) (l : List ℕ)
    → Seg s null p l
    → has y l ≡ true
    → s.pending y ≡ some r
    → has r (firsts p l) ≡ true
Seg-place s p r y [] a m e = cc
Seg-place s p r y (x ∷ l) a m e = elim (Bool-cases (y == x)) [
  | inl h ↦ ground arith
  | inr h ↦ ground (arith, Seg-place s x r y l a.2 (ground arith) e)
]

-- The write completes the segment.
pub link-Seg :
    (s : Store) (p r y : ℕ) (l : List ℕ)
    → Distinct (p ∷ l)
    → All IsLink (p ∷ l)
    → Seg s null p l
    → has y l ≡ true
    → s.pending y ≡ some r
    → Seg (do_link y r s) null p l
unfolding do_link slot set_slot
link-Seg s p r y [] d k a m e = cc
link-Seg s p r y (x ∷ l) d k a m e = elim (Bool-cases (y == x)) [
  | inl h ↦ (
    ground arith,
    ground (arith, k.1.0.not_low, k.0.not_low),
    frame s null (do_link y r s) x l (λ z m'. ground (arith, d.1.0))
        (λ z m'. ground (arith, d.0, has-firsts z x l)) a.2,
  )
  | inr h ↦
      let at = Seg-place s x r y l a.2 (ground arith) e in
      (
        ground arith,
        ground (arith, d.0, has-firsts r x l),
        link-Seg s x r y l d.1 k.1 a.2 (ground arith) e,
      )
]
