-- ===== src/Drain/Clearing.antt =====
-- While a node is removed from the ring of a drain, the place that leads to it may be cleared: the moves of
-- others do not read or write it.
use aiq.Prelude.{
  ℕ, ◌≡◌, refl, sym, ap, subst, fun_ext, ◌∙◌, ◌≢◌, inl, inr, true, false, none, some, Option, List,
  [], ◌∷◌, ◌++◌, arith, Bool-cases, Option-cases, ◌==◌, has, last_or, has-last_or, has-firsts,
  has-firsts_last, has-append, ◌&&◌,
}
use aiq.QueueState.{QueueState, IsLink}
use aiq.QueueState.Bijective.{IsBijective}
use aiq.Store.{
  Store, Move, publish, link, swap_state, set_slot, update, is_fresh, do_publish, do_link, do_move,
  interfere, holds_state, head_marker,
}
use aiq.Cmd.{World, turn}
use aiq.Drain.Chain.{Seg-place}
use aiq.Drain.Draining.{queue_place}
use aiq.Drain.Ring.{interfere-Later}
use aiq.Drain.Releasing.{IsRing}
use aiq.Drain.Relinking.{ring_view}
use aiq.Drain.Visiting.{Later-IsRing}

module _ {S : Type 0} {q : QueueState S} {P : S → Type 0} (laws : IsBijective q P)
    (sentinel_node : ℕ) (is_node : IsLink sentinel_node) (gone ps : List ℕ) (x : ℕ)
    (bs : List ℕ) where
  abbrev place : ℕ
  place = last_or sentinel_node ps

  abbrev ring : List ℕ
  ring = ps ++ x ∷ bs

  -- No write is still to be made at the place that leads to `x`.
  no_write_at :
      (s : Store) (xs : List ℕ)
      → IsRing q sentinel_node gone ring xs s
      → s.pending x ≡ none
      → (z r : ℕ) → s.pending z ≡ some r
      → (place == r) ≡ false
  no_write_at s xs r idle z m e =
      let v = ring_view sentinel_node gone ps x bs xs s r in
      elim (Bool-cases (has z (sentinel_node ∷ ring))) [
        | inr out ↦
            let off = queue_place laws gone [] (sentinel_node ∷ ring) xs s r.draining z m out e in
            ground (arith, has-last_or sentinel_node ps, has-append place ps (x ∷ bs))
        | inl within ↦ elim (Bool-cases (has z ps)) [
          | inl front ↦
              let at = Seg-place s sentinel_node m z ps v.front front e in
              ground (arith, has-firsts_last sentinel_node ps v.distinct_front)
          | inr no_front ↦ elim (Bool-cases (has z bs)) [
            | inl back ↦
                let at = Seg-place s x m z bs v.back back e in
                ground (arith, has-firsts m x bs, v.place_out)
            | inr no_back ↦
                absurd (ground (arith, has-append z ps (x ∷ bs), idle, r.draining.chain.0))
          ]
        ]
      ]

  -- The store with `v` at the place that leads to `x`.
  abbrev pub put : ℕ → Store → Store
  put v s = record s { next = update s.next place v }

  module _ (v : ℕ) (s : Store) (xs : List ℕ) (r : IsRing q sentinel_node gone ring xs s)
      (idle : s.pending x ≡ none) where
    place_in_use : s.prev place ≢ 0
    place_in_use =
        r.draining.in_use place
          (ground (arith, has-last_or sentinel_node ps, has-append place ps (x ∷ bs)))

    is_fresh-put : (y : ℕ) → is_fresh (put v s) y ≡ is_fresh s y
    unfolding is_fresh
    is_fresh-put y = ground (arith, place_in_use)

    do_link-put : (y p : ℕ) → s.pending y ≡ some p → do_link y p (put v s) ≡ put v (do_link y p s)
    unfolding do_link set_slot
    do_link-put y p e =
        let off = no_write_at s xs r idle y p e in
        elim (Bool-cases (p == head_marker)) [
          | inl h ↦ rw h refl
          | inr h ↦
              let same : update (update s.next place v) p y ≡ update (update s.next p y) place v =
                fun_ext λ z. ground arith in
              rw h (ap (λ f. record s { next = f; pending = update s.pending y none }) same)
        ]

    abbrev link_move : ℕ → Option ℕ → Store → Store
    link_move y o t = elim o [ none ↦ t | some p ↦ do_link y p t ]

    do_move-put : (m : Move) → do_move q m (put v s) ≡ put v (do_move q m s)
    unfolding do_move
    do_move-put (publish y) = elim (Bool-cases (is_fresh s y)) [
      | inl e ↦ rw (is_fresh-put y, e) (unfold do_publish in refl)
      | inr e ↦ rw (is_fresh-put y, e) refl
    ]
    do_move-put (link y) = elim (Option-cases (s.pending y)) [
      | inl e ↦ ap (λ o. link_move y o (put v s)) e ∙ sym (ap (λ o. put v (link_move y o s)) e)
      | inr (p, e) ↦
          ap (λ o. link_move y o (put v s)) e
          ∙ do_link-put y p e
          ∙ sym (ap (λ o. put v (link_move y o s)) e)
    ]
    do_move-put (swap_state w) = elim (Bool-cases (holds_state q s.tail && holds_state q w)) [
      | inl e ↦ rw e refl
      | inr e ↦ rw e refl
    ]

  -- A ring after moves of others, and what they make of the store in which the place was written.
  pub record Onward (v : ℕ) (s : Store) (t : Store) : Type 0 where
    pub ring_now : Store
    pub queued_now : List ℕ
    pub is_ring : IsRing q sentinel_node gone ring queued_now ring_now
    pub linked : (z : ℕ) → has z ring ≡ true → s.pending z ≡ none → ring_now.pending z ≡ none
    pub same : t ≡ put v ring_now

  pub interfere-Onward :
      (v : ℕ) (ms : List Move) (s : Store) (xs : List ℕ)
      → IsRing q sentinel_node gone ring xs s
      → s.pending x ≡ none
      → Onward v s (interfere q ms (put v s))
  unfolding interfere
  interfere-Onward v [] s xs r idle = record {
    ring_now = s;
    queued_now = xs;
    is_ring = r;
    linked = λ z m e. e;
    same = refl;
  }
  interfere-Onward v (m ∷ ms) s xs r idle =
      let l = interfere-Later laws gone [] sentinel_node ring (m ∷ []) xs s r.draining in
      let r' = Later-IsRing laws sentinel_node is_node gone ring xs s (do_move q m s) r l in
      let x_in : has x ring ≡ true = ground (arith, has-append x ps (x ∷ bs)) in
      let idle' = l.kept.linked x (ground arith) idle in
      let more = interfere-Onward v ms (do_move q m s) l.queued_now r' idle' in
      record {
        ring_now = more.ring_now;
        queued_now = more.queued_now;
        is_ring = more.is_ring;
        linked = λ z i e. more.linked z i (l.kept.linked z (ground arith) e);
        same = ap (interfere q ms) (do_move-put v s xs r idle m) ∙ more.same;
      }

  -- The place holds `v` while the store would else have the ring.
  pub turn-Onward :
      (v : ℕ) (w : World) (s : Store) (xs : List ℕ)
      → IsRing q sentinel_node gone ring xs s
      → s.pending x ≡ none
      → w.store ≡ put v s
      → Onward v s (turn q w).store
  unfolding turn interfere
  turn-Onward v w s xs r idle same = by_schedule w.schedule
    where
      by_schedule : (l : List (List Move)) → Onward v s (turn q (record w { schedule = l })).store
      by_schedule [] = subst (Onward v s) (sym same) (interfere-Onward v [] s xs r idle)
      by_schedule (ms ∷ later) =
          subst (λ t. Onward v s (interfere q ms t)) (sym same) (interfere-Onward v ms s xs r idle)
