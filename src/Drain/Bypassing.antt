-- ===== src/Drain/Bypassing.antt =====
-- The end of a removal from the ring of a drain: the neighbours of the node are linked, and it is marked.
use aiq.Prelude.{
  first_or, ℕ, ◌≡◌, refl, sym, ap, subst, fun_ext, ◌∙◌, ◌≢◌, true, none, List, [], ◌∷◌, ◌++◌, arith,
  has, last_or, has-append,
}
use aiq.QueueState.{QueueState, IsLink}
use aiq.QueueState.Bijective.{IsBijective}
use aiq.Store.{Store, Move, set_slot, set_prev, update}
use aiq.Store.Commute.{interfere-set_prev}
use aiq.Cmd.{World, turn, store_prev, store_slot, ◌>>◌}
use aiq.Cmd.Outcome.{Outcome, returns}
use aiq.Queue.{unlink, finish}
use aiq.Drain.Releasing.{IsRing, Linked}
use aiq.Drain.Relinking.{has-first_or, ring_view, bypassed, bypassed-IsRing}
use aiq.Drain.Clearing.{put, turn-Onward}
use aiq.Drain.Visiting.{turn-IsRing, set_slot-prev}

-- A write to the `prev` of a node in use is as good before the moves of others as after them.
turn-set_prev :
    {S : Type 0} (q : QueueState S) (n v : ℕ) (w : World)
    → v ≢ 0
    → w.store.prev n ≢ 0
    → (turn q (record w { store = set_prev n v w.store })).store ≡ set_prev n v (turn q w).store
unfolding turn
turn-set_prev q n v w ne used = by_schedule w.schedule
  where
    by_schedule :
        (l : List (List Move))
        → (turn q (record w { store = set_prev n v w.store; schedule = l })).store
          ≡ set_prev n v (turn q (record w { schedule = l })).store
    by_schedule [] = refl
    by_schedule (ms ∷ rest) = (interfere-set_prev q n v ne ms w.store used).0

set_prev-used : (n v z : ℕ) (s : Store) → v ≢ 0 → s.prev z ≢ 0 → (set_prev n v s).prev z ≢ 0
unfolding set_prev
set_prev-used n v z s ne used = ground (arith, ne, used)

module _ {S : Type 0} {q : QueueState S} {P : S → Type 0} (laws : IsBijective q P)
    (sentinel_node : ℕ) (is_node : IsLink sentinel_node) (gone ps : List ℕ) (x : ℕ)
    (bs : List ℕ) where
  abbrev place : ℕ
  place = last_or sentinel_node ps

  abbrev following : ℕ
  following = first_or sentinel_node bs

  abbrev ring : List ℕ
  ring = ps ++ x ∷ bs

  -- The ring of the other nodes.
  abbrev pub Bypassed : World → Type 0
  Bypassed w = (ys : List ℕ) × IsRing q sentinel_node (x ∷ gone) (ps ++ bs) ys w.store

  still_Linked :
      (s t : Store)
      → ((z : ℕ) → has z ring ≡ true → s.pending z ≡ none → t.pending z ≡ none)
      → Linked s bs
      → Linked t bs
  still_Linked s t kept linked =
      by_list bs (λ z m. kept z (ground (arith, has-append z ps (x ∷ bs)))) linked
    where
      by_list :
          (l : List ℕ)
          → ((z : ℕ) → has z l ≡ true → s.pending z ≡ none → t.pending z ≡ none)
          → Linked s l
          → Linked t l
      by_list [] kept linked = tt
      by_list (y ∷ l) kept linked = kept y (ground arith) linked

  put-bypassed :
      (v : ℕ) (s : Store) (xs : List ℕ) (r : IsRing q sentinel_node gone ring xs s)
      → set_prev x 1 (
          set_slot place following
            (set_prev following place (put laws sentinel_node is_node gone ps x bs v s)))
        ≡ bypassed sentinel_node gone ps x bs xs s r
  unfolding set_prev set_slot
  put-bypassed v s xs r =
      let high = (ring_view sentinel_node gone ps x bs xs s r).place_high in
      let same : update (update s.next place v) place following ≡ update s.next place following =
        fun_ext λ z. ground arith in
      rw high
        (ap (λ f. record s { prev = update (update s.prev following place) x 1; next = f }) same)

  in_use :
      (s : Store) (xs : List ℕ)
      → IsRing q sentinel_node gone ring xs s
      → (s.prev following ≢ 0) × (s.prev x ≢ 0) × (place ≢ 0)
  in_use s xs r = (
    r.draining.in_use following
        (ground (arith, has-first_or sentinel_node bs, has-append following ps (x ∷ bs))),
    r.draining.in_use x (ground (arith, has-append x ps (x ∷ bs))),
    (ring_view sentinel_node gone ps x bs xs s r).place_link,
  )

  pub unlink-Bypassed :
      (v : ℕ) (w : World) (s : Store) (xs : List ℕ)
      → IsRing q sentinel_node gone ring xs s
      → s.pending x ≡ none
      → Linked s bs
      → w.store ≡ put laws sentinel_node is_node gone ps x bs v s
      → Outcome (λ _ w'. Bypassed w') ((do unlink q place following; finish q x) w)
  unfolding unlink finish store_prev store_slot
  unlink-Bypassed v w s xs r idle linked same =
      let x_in : has x ring ≡ true = ground (arith, has-append x ps (x ∷ bs)) in
      let o1 = turn-Onward laws sentinel_node is_node gone ps x bs v w s xs r idle same in
      let idle1 = o1.linked x x_in idle in
      let w1 = turn q w in
      let o2 =
        turn-Onward laws sentinel_node is_node gone ps x bs v w1 o1.ring_now o1.queued_now
          o1.is_ring idle1 o1.same in
      let idle2 = o2.linked x x_in idle1 in
      let linked2 =
        still_Linked o1.ring_now o2.ring_now o2.linked
          (still_Linked s o1.ring_now o1.linked linked) in
      let (used_next, used_x, place_ne) = in_use o1.ring_now o1.queued_now o1.is_ring in
      let w2 = turn q (record w1 { store = set_prev following place w1.store }) in
      let at2 : w2.store ≡ set_prev following place (turn q w1).store =
        turn-set_prev q following place w1 place_ne
          (λ e. used_next (sym (ap (λ t. t.prev following) o1.same) ∙ e)) in
      let v2 = record w2 { store = set_slot place following w2.store } in
      let (used_next2, used_x2, _) = in_use o2.ring_now o2.queued_now o2.is_ring in
      let u : World = record v2 { store = set_prev x 1 v2.store } in
      let u_store : u.store
          ≡ bypassed sentinel_node gone ps x bs o2.queued_now o2.ring_now o2.is_ring =
        ap (λ t. set_prev x 1 (set_slot place following t))
          (at2 ∙ ap (set_prev following place) o2.same)
        ∙ put-bypassed v o2.ring_now o2.queued_now o2.is_ring in
      let around : IsRing q sentinel_node (x ∷ gone) (ps ++ bs) o2.queued_now u.store =
        subst (IsRing q sentinel_node (x ∷ gone) (ps ++ bs) o2.queued_now) (sym u_store) (
          bypassed-IsRing sentinel_node gone ps x bs o2.queued_now o2.ring_now o2.is_ring idle2
            linked2) in
      let (ys, ended) =
        turn-IsRing laws sentinel_node is_node (x ∷ gone) (ps ++ bs) o2.queued_now u around in
      let last : (turn q u).store ≡ set_prev x 1 (turn q v2).store =
        turn-set_prev q x 1 v2 (λ e. absurd (omega arith))
          (λ e.
            set_prev-used following place x
              (put laws sentinel_node is_node gone ps x bs v o2.ring_now) place_ne used_x2
              (sym (ap (λ t. t.prev x) (at2 ∙ ap (set_prev following place) o2.same))
                ∙ sym (set_slot-prev place following x w2.store)
                ∙ e)) in
      returns (ys, subst (IsRing q sentinel_node (x ∷ gone) (ps ++ bs) ys) last ended)
