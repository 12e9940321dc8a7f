-- ===== src/Drain/Removal.antt =====
-- The removal of queue.rs, at the ring of a drain that released the lock.
use aiq.Prelude.{
  first_or, ℕ, ◌≡◌, refl, sym, ap, subst, fun_ext, ◌∙◌, inl, inr, true, false, none, some, List, [],
  ◌∷◌, ◌++◌, arith, ◌==◌, last_or, has-last_or, has-append, ==→eq, Bool-cases, append-All, Sublist,
  keep, skip, Sublist-refl,
}
use aiq.QueueState.{QueueState, IsLink, state, ptr}
use aiq.QueueState.Bijective.{IsBijective}
use aiq.Store.{Store, null, slot, set_slot, update, head_marker, tail_slot}
use aiq.Cmd.{World, turn, load_prev, load_slot, store_slot, cas_tail, pure, ◌>>◌}
use aiq.Cmd.Outcome.{Outcome, returns, bind, and_then_assoc}
use aiq.Queue.{unlink, finish, detach, remove_with_prev, remove}
use aiq.Drain.Releasing.{IsRing}
use aiq.Drain.Relinking.{ring_view}
use aiq.Drain.Clearing.{put, turn-Onward}
use aiq.Drain.Bypassing.{Bypassed, unlink-Bypassed}
use aiq.Drain.Visiting.{RingLeft}
use aiq.Drain.Awaiting.{ring_next, Cleared, slot-put, x_in, get_next-Cleared}

Sublist-append : (ps : List ℕ) (x : ℕ) (bs : List ℕ) → Sublist (ps ++ bs) (ps ++ x ∷ bs)
Sublist-append [] x bs = skip (Sublist-refl bs)
Sublist-append (p ∷ ps) x bs = keep (Sublist-append ps x bs)

module _ {S : Type 0} {q : QueueState S} {P : S → Type 0} (laws : IsBijective q P)
    (sentinel_node : ℕ) (is_node : IsLink sentinel_node) (gone ps : List ℕ) (x : ℕ)
    (bs : List ℕ) where
  abbrev place : ℕ
  place = last_or sentinel_node ps

  abbrev following : ℕ
  following = first_or sentinel_node bs

  abbrev ring : List ℕ
  ring = ps ++ x ∷ bs

  -- The tail is not at a node of the ring.
  not_tail :
      (s : Store) (xs : List ℕ)
      → IsRing q sentinel_node gone ring xs s
      → (s.tail == q.ptr_to_tail x) ≡ false
  not_tail s xs r = elim (Bool-cases (s.tail == q.ptr_to_tail x)) [
    | inr ne ↦ ne
    | inl h ↦
        let k = (append-All IsLink ps (x ∷ bs) r.draining.links.1).1.0 in
        let at : tail_slot q s.tail ≡ x =
          ap (tail_slot q) (==→eq s.tail (q.ptr_to_tail x) h)
          ∙ ap (λ o. elim o [ state _ ↦ head_marker | ptr p ↦ p ]) (laws.decode_ptr x k) in
        absurd (
          ground (
            arith,
            at,
            r.draining.queue.last,
            has-last_or head_marker xs,
            k.not_low,
            r.draining.apart x (ground (arith, has-append x ps (x ∷ bs))),
          ))
  ]

  slot-cleared :
      (v : ℕ) (s : Store) (xs : List ℕ)
      → IsRing q sentinel_node gone ring xs s
      → set_slot place null (put laws sentinel_node is_node gone ps x bs v s)
        ≡ put laws sentinel_node is_node gone ps x bs null s
  unfolding set_slot
  slot-cleared v s xs r =
      let high = (ring_view sentinel_node gone ps x bs xs s r).place_high in
      let same : update (update s.next place v) place null ≡ update s.next place null =
        fun_ext λ z. ground arith in
      rw high (ap (λ f. record s { next = f }) same)

  detach-Cleared :
      (new_tail v : ℕ) (w : World) (s : Store) (xs : List ℕ)
      → IsRing q sentinel_node gone ring xs s
      → s.pending x ≡ none
      → w.store ≡ put laws sentinel_node is_node gone ps x bs v s
      → Outcome
          (λ r w'.
            (n : ℕ) × (r ≡ some n) × Cleared laws sentinel_node is_node gone ps x bs null n w')
          (detach q x new_tail place w)
  unfolding detach store_slot cas_tail
  detach-Cleared new_tail v w s xs r idle same =
      let o = turn-Onward laws sentinel_node is_node gone ps x bs v w s xs r idle same in
      let w1 = record (turn q w) { store = set_slot place null (turn q w).store } in
      let at1 =
        ap (set_slot place null) o.same ∙ slot-cleared v o.ring_now o.queued_now o.is_ring in
      let o2 =
        turn-Onward laws sentinel_node is_node gone ps x bs null w1 o.ring_now o.queued_now
          o.is_ring (o.linked x (x_in laws sentinel_node is_node gone ps x bs) idle) at1 in
      let misses : ((turn q w1).store.tail == q.ptr_to_tail x) ≡ false =
        ap (λ t. t.tail == q.ptr_to_tail x) o2.same
        ∙ not_tail o2.ring_now o2.queued_now o2.is_ring in
      rw misses (
        bind
          (get_next-Cleared laws sentinel_node is_node gone ps x bs null (turn q w1) o2.ring_now
            o2.queued_now o2.is_ring
            (o2.linked x (x_in laws sentinel_node is_node gone ps x bs)
              (o.linked x (x_in laws sentinel_node is_node gone ps x bs) idle))
            o2.same)
          λ n w' c. returns (n, refl, c))

  -- The neighbours are linked and the node is marked.
  bypass-Bypassed :
      (v n : ℕ) (w : World)
      → Cleared laws sentinel_node is_node gone ps x bs v n w
      → Outcome
          (λ b w'. (b ≡ false) × Bypassed laws sentinel_node is_node gone ps x bs w')
          ((do unlink q place n; finish q x; pure false) w)
  bypass-Bypassed v n w c =
      subst (Outcome (λ b w'. (b ≡ false) × Bypassed laws sentinel_node is_node gone ps x bs w'))
        (and_then_assoc (unlink q place n w) (λ _. finish q x) _)
        (bind
          (subst
            (λ n.
              Outcome (λ _ w'. Bypassed laws sentinel_node is_node gone ps x bs w')
                ((do unlink q place n; finish q x) w))
            (sym c.next)
            (unlink-Bypassed laws sentinel_node is_node gone ps x bs v w c.store c.queued_now
              c.is_ring c.idle c.linked c.same))
          λ _ w' around. returns (refl, around))

  -- A store is as it is with what it has at the place.
  put-same : (s : Store) → s ≡ put laws sentinel_node is_node gone ps x bs (s.next place) s
  put-same s =
      let same : s.next ≡ update s.next place (s.next place) = fun_ext λ z. ground arith in
      ap (λ f. record s { next = f }) same

  remove_with_prev-Bypassed :
      (new_tail v : ℕ) (w : World) (s : Store) (xs : List ℕ)
      → IsRing q sentinel_node gone ring xs s
      → s.pending x ≡ none
      → w.store ≡ put laws sentinel_node is_node gone ps x bs v s
      → Outcome
          (λ b w'. (b ≡ false) × Bypassed laws sentinel_node is_node gone ps x bs w')
          (remove_with_prev q x new_tail false place w)
  unfolding remove_with_prev load_slot
  remove_with_prev-Bypassed new_tail v w s xs r idle same =
      let o = turn-Onward laws sentinel_node is_node gone ps x bs v w s xs r idle same in
      let t = o.ring_now in
      let w1 = turn q w in
      let idle1 = o.linked x (x_in laws sentinel_node is_node gone ps x bs) idle in
      let reads : slot w1.store x ≡ slot t x =
        ap (λ t. slot t x) o.same
        ∙ slot-put laws sentinel_node is_node gone ps x bs v t o.queued_now o.is_ring in
      elim (ring_next laws sentinel_node is_node gone ps x bs t o.queued_now o.is_ring) [
        | inl (e, linked, ne) ↦
            rw (reads, ne)
              (bypass-Bypassed v (slot t x) w1 (record {
                store = t;
                queued_now = o.queued_now;
                is_ring = o.is_ring;
                idle = idle1;
                next = e;
                linked = linked;
                same = o.same;
              }))
        | inr (e, half) ↦
            rw (reads, e)
              (bind (detach-Cleared new_tail v w1 t o.queued_now o.is_ring idle1 o.same)
                λ r w2 (n, found, c).
                  subst
                    (λ r.
                      Outcome
                        (λ b w'. (b ≡ false) × Bypassed laws sentinel_node is_node gone ps x bs w')
                        ((do
                          elim r [ none ↦ pure tt | some next ↦ unlink q place next ]
                          finish q x
                          pure (elim r [ none ↦ true | some _ ↦ false ]))
                          w2))
                    (sym found) (bypass-Bypassed null n w2 c))
      ]

  -- Removing a node of the ring whose enqueue is complete, under every interleaving with enqueuing
  -- threads, leaves a ring of the other nodes in their order, marks the node, and reports that the queue is
  -- not known to be empty; or it waits for a thread that has begun an enqueue and not completed it.
  pub remove-Bypassed :
      (new_tail : ℕ) (w : World) (xs : List ℕ)
      → IsRing q sentinel_node gone ring xs w.store
      → w.store.pending x ≡ none
      → Outcome
          (λ b w'. (b ≡ false) × Bypassed laws sentinel_node is_node gone ps x bs w')
          (remove q x new_tail false w)
  unfolding remove load_prev
  remove-Bypassed new_tail w xs r idle =
      let v = w.store.next place in
      let o =
        turn-Onward laws sentinel_node is_node gone ps x bs v w w.store xs r idle
          (put-same w.store) in
      let at : (turn q w).store.prev x ≡ place =
        ap (λ t. t.prev x) o.same
        ∙ (ring_view sentinel_node gone ps x bs o.queued_now o.ring_now o.is_ring).prev_place in
      rw at (
        remove_with_prev-Bypassed new_tail v (turn q w) o.ring_now o.queued_now o.is_ring
          (o.linked x (x_in laws sentinel_node is_node gone ps x bs) idle) o.same)

  -- That is one of the things that `execute_unlocked` asks of the holders of the lock.
  pub Bypassed-RingLeft :
      (w : World)
      → Bypassed laws sentinel_node is_node gone ps x bs w
      → RingLeft q sentinel_node gone ring w
  Bypassed-RingLeft w (ys, around) = record {
    gone_now = x ∷ gone;
    ring = ps ++ bs;
    queued_now = ys;
    fewer = record {
      left = Sublist-append ps x bs;
      still_gone = λ z m. ground arith;
      gone_or_left = λ z m. ground (arith, has-append z ps (x ∷ bs), has-append z ps bs);
    };
    is_ring = around;
  }
