-- ===== src/Drain/Awaiting.antt =====
-- A node of the ring of a drain is removed: the next one is awaited, while the place of the node may be
-- cleared.
use aiq.Prelude.{
  first_or, ℕ, ◌≡◌, refl, sym, ap, subst, ◌∙◌, ◌⊎◌, inl, inr, true, false, none, some, List, [],
  ◌∷◌, ◌++◌, arith, ◌==◌, has, last_or, has-append, last_or-append, Option-cases, if◌then◌else◌,
  All, append-All,
}
use aiq.QueueState.{QueueState, IsLink}
use aiq.QueueState.Bijective.{IsBijective}
use aiq.Store.{Store, Move, null, slot}
use aiq.Store.Shape.{Seg}
use aiq.Cmd.{World, ok, turn, load_slot, pure}
use aiq.Cmd.Outcome.{Outcome, returns, waits}
use aiq.Queue.{wait_loop, wait_for_next, get_next}
use aiq.Drain.Releasing.{IsRing, Linked}
use aiq.Drain.Relinking.{ring_view}
use aiq.Drain.Clearing.{put, interfere-Onward, turn-Onward}

module _ {S : Type 0} {q : QueueState S} {P : S → Type 0} (laws : IsBijective q P)
    (sentinel_node : ℕ) (is_node : IsLink sentinel_node) (gone ps : List ℕ) (x : ℕ)
    (bs : List ℕ) where
  abbrev place : ℕ
  place = last_or sentinel_node ps

  abbrev following : ℕ
  following = first_or sentinel_node bs

  abbrev ring : List ℕ
  ring = ps ++ x ∷ bs

  -- `x` leads to the next node of the ring, or that is still to be linked.
  pub ring_next :
      (s : Store) (xs : List ℕ)
      → IsRing q sentinel_node gone ring xs s
      → ((slot s x ≡ following) × Linked s bs × ((slot s x == null) ≡ false))
        ⊎ ((slot s x ≡ null) × (s.pending following ≡ some x))
  ring_next s xs r = by_list bs refl
    where
      by_list :
          (l : List ℕ)
          → bs ≡ l
          → ((slot s x ≡ first_or sentinel_node l) × Linked s l × ((slot s x == null) ≡ false))
            ⊎ ((slot s x ≡ null) × (s.pending (first_or sentinel_node l) ≡ some x))
      by_list [] same =
          let at : slot s x ≡ sentinel_node =
            subst (λ z. slot s z ≡ sentinel_node)
              (last_or-append sentinel_node ps (x ∷ bs) ∙ ap (last_or x) same) r.closes in
          inl (at, tt, ground (arith, is_node.not_low))
      by_list (y ∷ l) same =
          let back = (ring_view sentinel_node gone ps x bs xs s r).back in
          let leads = (subst (Seg s null x) same back).1 in
          let k =
            (append-All IsLink ps (x ∷ y ∷ l)
              (subst (λ l. All IsLink (ps ++ x ∷ l)) same r.draining.links.1)).1.1.0 in
          elim (Option-cases (s.pending y)) [
            | inl e ↦ inl (ground (arith, k.not_low), e, ground (arith, k.not_low))
            | inr (p, e) ↦ inr (ground arith)
          ]

  -- The place of `x` is cleared, and the next node is known and linked.
  pub record Cleared (v n : ℕ) (w : World) : Type 0 where
    pub store : Store
    pub queued_now : List ℕ
    pub is_ring : IsRing q sentinel_node gone ring queued_now store
    pub idle : store.pending x ≡ none
    pub next : n ≡ following
    pub linked : Linked store bs
    pub same : w.store ≡ put laws sentinel_node is_node gone ps x bs v store

  pub slot-put :
      (v : ℕ) (s : Store) (xs : List ℕ)
      → IsRing q sentinel_node gone ring xs s
      → slot (put laws sentinel_node is_node gone ps x bs v s) x ≡ slot s x
  unfolding slot
  slot-put v s xs r =
      let view = ring_view sentinel_node gone ps x bs xs s r in ground (arith, view.place_out)

  pub x_in : has x ring ≡ true
  x_in = ground (arith, has-append x ps (x ∷ bs))

  wait_loop-Cleared :
      (v : ℕ) (w : World) (schedule : List (List Move)) (s : Store) (xs : List ℕ)
      → IsRing q sentinel_node gone ring xs s
      → s.pending x ≡ none
      → Outcome
          (Cleared v)
          (wait_loop q x w schedule (put laws sentinel_node is_node gone ps x bs v s))
  unfolding wait_loop
  wait_loop-Cleared v w [] s xs r idle = elim (ring_next s xs r) [
    | inl (e, linked, ne) ↦
        rw (slot-put v s xs r, ne)
          (returns (record {
            store = s;
            queued_now = xs;
            is_ring = r;
            idle = idle;
            next = e;
            linked = linked;
            same = refl;
          }))
    | inr (e, half) ↦ rw (slot-put v s xs r, e) (waits following x half refl)
  ]
  wait_loop-Cleared v w (ms ∷ later) s xs r idle =
      let o = interfere-Onward laws sentinel_node is_node gone ps x bs v ms s xs r idle in
      let t = o.ring_now in
      let rec = wait_loop-Cleared v w later t o.queued_now o.is_ring (o.linked x x_in idle) in
      subst
        (λ t'. Outcome (Cleared v) (
          if slot t' x == null
          then wait_loop q x w later t'
          else ok (slot t' x) (record w { store = t'; schedule = later })))
        (sym o.same)
        (elim (ring_next t o.queued_now o.is_ring) [
          | inl (e, linked, ne) ↦
              rw (slot-put v t o.queued_now o.is_ring, ne)
                (returns (record {
                  store = t;
                  queued_now = o.queued_now;
                  is_ring = o.is_ring;
                  idle = o.linked x x_in idle;
                  next = e;
                  linked = linked;
                  same = refl;
                }))
          | inr (e, half) ↦ rw (slot-put v t o.queued_now o.is_ring, e) rec
        ])

  pub get_next-Cleared :
      (v : ℕ) (w : World) (s : Store) (xs : List ℕ)
      → IsRing q sentinel_node gone ring xs s
      → s.pending x ≡ none
      → w.store ≡ put laws sentinel_node is_node gone ps x bs v s
      → Outcome (Cleared v) (get_next q x w)
  unfolding get_next load_slot wait_for_next
  get_next-Cleared v w s xs r idle same =
      let o = turn-Onward laws sentinel_node is_node gone ps x bs v w s xs r idle same in
      let t = o.ring_now in
      let w' = turn q w in
      subst
        (λ t'. Outcome (Cleared v) (
          (if slot t' x == null then wait_for_next q x else pure (slot t' x))
            (record w' { store = t' })))
        (sym o.same)
        (elim (ring_next t o.queued_now o.is_ring) [
          | inl (e, linked, ne) ↦
              rw (slot-put v t o.queued_now o.is_ring, ne)
                (returns (record {
                  store = t;
                  queued_now = o.queued_now;
                  is_ring = o.is_ring;
                  idle = o.linked x x_in idle;
                  next = e;
                  linked = linked;
                  same = refl;
                }))
          | inr (e, half) ↦
              rw (slot-put v t o.queued_now o.is_ring, e)
                (wait_loop-Cleared v
                  (record w' { store = put laws sentinel_node is_node gone ps x bs v t })
                  w'.schedule t o.queued_now o.is_ring (o.linked x x_in idle))
        ])
