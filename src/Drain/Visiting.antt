-- ===== src/Drain/Visiting.antt =====
-- `execute_unlocked` and `for_each`: whatever the holders of the lock remove meanwhile, the drain goes on
-- with the nodes that are left, in their order.
use aiq.Prelude.{
  first_or, ℕ, ◌≡◌, refl, sym, subst, ◌∙◌, true, false, none, List, [], ◌∷◌, arith, ◌==◌, has,
  last_or, ◌||◌, Sublist,
}
use aiq.QueueState.{QueueState, IsLink}
use aiq.QueueState.Bijective.{IsBijective}
use aiq.Store.{Store, null, slot, set_slot, set_prev}
use aiq.Cmd.{World, ok, Cmd, turn, store_prev, store_slot, load_slot, load_prev, ◌>>◌}
use aiq.Cmd.Outcome.{Outcome, returns, bind, mono, and_then_assoc}
use aiq.Drain.{Drain, is_empty}
use aiq.Drain.Unlocked.{close_ring, share, reopen, read_sentinel, execute_unlocked}
use aiq.Drain.Chain.{Chain}
use aiq.Drain.Draining.{IsDraining}
use aiq.Drain.Dropping.{hold-IsDraining}
use aiq.Drain.Taking.{head_of}
use aiq.Drain.Drained.{ends_with}
use aiq.Drain.Ring.{Later, turn-Later}
use aiq.Drain.Releasing.{IsRing, Linked, share-IsRing, write_prev-IsDraining, write_end-IsDraining}

-- Of the nodes `ds`, those that are not left have been dropped or removed, as those of `gone` have.
pub record Fewer (gone ds gone' ds' : List ℕ) : Type 0 where
  pub left : Sublist ds' ds
  pub still_gone : (z : ℕ) → has z gone ≡ true → has z gone' ≡ true
  pub gone_or_left : (z : ℕ) → has z ds ≡ true → has z gone' || has z ds' ≡ true

module _ {S : Type 0} (q : QueueState S) (sentinel_node : ℕ) where
  -- The ring after the drain released the lock.
  pub record RingLeft (gone ds : List ℕ) (w : World) : Type 0 where
    pub gone_now : List ℕ
    pub ring : List ℕ
    pub queued_now : List ℕ
    pub fewer : Fewer gone ds gone_now ring
    pub is_ring : IsRing q sentinel_node gone_now ring queued_now w.store

  -- Those that hold the lock may remove nodes of the ring, and mark them.
  abbrev pub KeepsRing : {R : Type 0} → Cmd R → Type 0
  KeepsRing unlocked =
      (gone ds xs : List ℕ) (w : World)
      → IsRing q sentinel_node gone ds xs w.store
      → Outcome (λ _ w'. RingLeft gone ds w') (unlocked w)

  -- The holders keep the ring so, and what they took out of it and returned is as `Q` says.
  abbrev pub KeepsRingWith : {R : Type 0} → (List ℕ → List ℕ → R → Type 0) → Cmd R → Type 0
  KeepsRingWith Q unlocked =
      (gone ds xs : List ℕ) (w : World)
      → IsRing q sentinel_node gone ds xs w.store
      → Outcome (λ r w'. (l : RingLeft gone ds w') × Q gone l.gone_now r) (unlocked w)

pub set_slot-prev : (p v z : ℕ) (s : Store) → (set_slot p v s).prev z ≡ s.prev z
unfolding set_slot
set_slot-prev p v z s = ground arith

set_prev-prev : (z v : ℕ) (s : Store) → (set_prev z v s).prev z ≡ v
unfolding set_prev
set_prev-prev z v s = ground arith

slot-set_slot : (p v : ℕ) (s : Store) → slot (set_slot p v s) p ≡ v
unfolding slot set_slot
slot-set_slot p v s = ground arith

module _ {S : Type 0} {q : QueueState S} {P : S → Type 0} (laws : IsBijective q P)
    (sentinel_node : ℕ) (is_node : IsLink sentinel_node) where
  -- The ring after moves of others.
  pub Later-IsRing :
      (gone ds xs : List ℕ) (s t : Store)
      → IsRing q sentinel_node gone ds xs s
      → (l : Later q gone [] sentinel_node ds s t) → IsRing q sentinel_node gone ds l.queued_now t
  Later-IsRing gone ds xs s t r l = record {
    draining = l.draining;
    ends = l.kept.same_prev sentinel_node (ground arith) ∙ r.ends;
    closes = l.kept.same_end ∙ r.closes;
    linked = by_list ds r.linked l.kept.linked;
  }
    where
      by_list :
          (ds : List ℕ)
          → Linked s ds
          → ((z : ℕ) → has z (sentinel_node ∷ ds) ≡ true → s.pending z ≡ none → t.pending z ≡ none)
          → Linked t ds
      by_list [] linked kept = tt
      by_list (x ∷ rest) linked kept = kept x (ground arith) linked

  pub turn-IsRing :
      (gone ds xs : List ℕ) (w : World)
      → IsRing q sentinel_node gone ds xs w.store
      → (ys : List ℕ) × IsRing q sentinel_node gone ds ys (turn q w).store
  turn-IsRing gone ds xs w r =
      let l = turn-Later laws gone [] sentinel_node ds xs w r.draining in
      (l.queued_now, Later-IsRing gone ds xs w.store (turn q w).store r l)

  -- The drain closes the ring.
  release-IsRing :
      (gone : List ℕ) (x : ℕ) (rest xs : List ℕ) (w : World)
      → IsDraining q gone (sentinel_node ∷ []) (x ∷ rest) xs w.store
      → Outcome
          (λ _ w'. (ys : List ℕ) × IsRing q sentinel_node gone (x ∷ rest) ys w'.store)
          ((do
            close_ring q sentinel_node (record { head = x; tail = last_or x rest })
            share q sentinel_node (record { head = x; tail = last_or x rest }))
            w)
  unfolding close_ring share is_empty store_prev store_slot
  release-IsRing gone x rest xs w d =
      let some_left : (x == null) ≡ false = ground (arith, d.links.0.not_low) in
      let last = last_or x rest in
      let held = sentinel_node ∷ [] in
      let l0 = turn-Later laws gone held x rest xs w d in
      let apart : has x held ≡ false =
        ground (arith, (l0.draining.unmarked sentinel_node (ground arith)).1) in
      let w1 = record (turn q w) { store = set_prev x sentinel_node (turn q w).store } in
      let d1 =
        write_prev-IsDraining gone held x rest l0.queued_now (turn q w).store sentinel_node
          (λ e. absurd (omega (arith, is_node.not_low))) l0.draining apart in
      let l1 = turn-Later laws gone held x rest l0.queued_now w1 d1 in
      let w2 = record (turn q w1) { store = set_slot last sentinel_node (turn q w1).store } in
      let d2 =
        write_end-IsDraining gone held x rest l1.queued_now (turn q w1).store sentinel_node
          l1.draining in
      let l2 = turn-Later laws gone held x rest l1.queued_now w2 d2 in
      rw some_left (
        returns (
          l2.queued_now,
          share-IsRing sentinel_node is_node gone x rest l2.queued_now (turn q w2).store l2.draining
              (l2.kept.same_prev x (ground arith)
                ∙ set_slot-prev last sentinel_node x (turn q w1).store
                ∙ l1.kept.same_prev x (ground arith)
                ∙ set_prev-prev x sentinel_node (turn q w).store)
              (l2.kept.same_end ∙ slot-set_slot last sentinel_node (turn q w1).store),
        ))

  -- Once the lock is taken again, the sentinel has the first and the last node that are left.
  pub record Reopened (gone ds : List ℕ) (d : Drain) (w : World) : Type 0 where
    pub gone_now : List ℕ
    pub left : List ℕ
    pub queued_now : List ℕ
    pub fewer : Fewer gone ds gone_now left
    pub head : d.head ≡ head_of left
    pub tail : d.tail ≡ last_or d.tail left
    pub draining : IsDraining q gone_now (sentinel_node ∷ []) left queued_now w.store

  -- The sentinel leads to the first node that is left, or to itself.
  ring_head :
      (gone ds xs : List ℕ) (s : Store)
      → IsRing q sentinel_node gone ds xs s
      → slot s sentinel_node ≡ first_or sentinel_node ds
  ring_head gone [] xs s r = r.closes
  ring_head gone (y ∷ l) xs s r =
      ground (arith, r.draining.chain.1.1, r.linked, r.draining.links.1.0.not_low)

  ring-Chain : (gone ds xs : List ℕ) (s : Store) → IsRing q sentinel_node gone ds xs s → Chain s ds
  ring-Chain gone [] xs s r = tt
  ring-Chain gone (y ∷ l) xs s r = (r.linked, r.draining.chain.1.2)

  reopen_head :
      (ds : List ℕ) (w : World)
      → has sentinel_node ds ≡ false
      → reopen q sentinel_node
          (record { head = first_or sentinel_node ds; tail = last_or sentinel_node ds })
          w
        ≡ ok (record { head = head_of ds; tail = last_or sentinel_node ds }) w
  unfolding reopen
  reopen_head [] w out = ground arith
  reopen_head (y ∷ l) w out = ground arith

  read_sentinel-Reopened :
      (gone ds gone' ds' xs : List ℕ) (w : World)
      → Fewer gone ds gone' ds'
      → IsRing q sentinel_node gone' ds' xs w.store
      → Outcome
          (λ d w'. (o : Reopened gone ds d w') × (o.gone_now ≡ gone'))
          (read_sentinel q sentinel_node w)
  unfolding read_sentinel load_slot load_prev
  read_sentinel-Reopened gone ds gone' ds' xs w fewer r =
      let (ys, r1) = turn-IsRing gone' ds' xs w r in
      let w1 = turn q w in
      let (zs, r2) = turn-IsRing gone' ds' ys w1 r1 in
      let w2 = turn q w1 in
      let heads = ring_head gone' ds' ys w1.store r1 in
      let tails = r2.ends in
      rw (heads, tails, reopen_head ds' w2 r2.draining.distinct.0)
        (returns (
          record {
            gone_now = gone';
            left = ds';
            queued_now = zs;
            fewer = fewer;
            head = refl;
            tail = ends_with laws [] sentinel_node (last_or sentinel_node ds') ds' refl;
            draining =
                hold-IsDraining w2.store gone' [] sentinel_node ds' zs r2.draining
                  (ring-Chain gone' ds' zs w2.store r2);
          },
          refl,
        ))

  -- The drain with its lock again, and what its holders did meanwhile.
  pub execute_unlocked-Reopens :
      {R : Type 0} (Q : List ℕ → List ℕ → R → Type 0) (unlocked : Cmd R) (gone : List ℕ) (x : ℕ)
      (rest xs : List ℕ) (w : World)
      → KeepsRingWith q sentinel_node Q unlocked
      → IsDraining q gone (sentinel_node ∷ []) (x ∷ rest) xs w.store
      → Outcome
          (λ r w'. (o : Reopened gone (x ∷ rest) r.1 w') × Q gone o.gone_now r.0)
          (execute_unlocked q sentinel_node unlocked (record { head = x; tail = last_or x rest }) w)
  unfolding execute_unlocked
  execute_unlocked-Reopens Q unlocked gone x rest xs w keeps d =
      let released : Drain = record { head = x; tail = last_or x rest } in
      subst (Outcome (λ r w'. (o : Reopened gone (x ∷ rest) r.1 w') × Q gone o.gone_now r.0))
        (and_then_assoc (close_ring q sentinel_node released w)
          (λ _. share q sentinel_node released) _)
        (bind (release-IsRing gone x rest xs w d) λ _ w1 (ys, ring).
          bind (keeps gone (x ∷ rest) ys w1 ring) λ res w2 (l, did).
            bind
              (read_sentinel-Reopened gone (x ∷ rest) l.gone_now l.ring l.queued_now w2 l.fewer
                l.is_ring)
              λ d' w3 (reopened, same).
                returns (reopened, subst (λ g. Q gone g res) (sym same) did))

  -- Whatever the holders of the lock remove and mark while the drain has released it, the drain then has the
  -- first and the last of the nodes that are left, and holds them in their order.
  pub execute_unlocked-Reopened :
      {R : Type 0} (unlocked : Cmd R) (gone : List ℕ) (x : ℕ) (rest xs : List ℕ) (w : World)
      → KeepsRing q sentinel_node unlocked
      → IsDraining q gone (sentinel_node ∷ []) (x ∷ rest) xs w.store
      → Outcome
          (λ r w'. Reopened gone (x ∷ rest) r.1 w')
          (execute_unlocked q sentinel_node unlocked (record { head = x; tail = last_or x rest }) w)
  execute_unlocked-Reopened unlocked gone x rest xs w keeps d =
      mono
        (execute_unlocked-Reopens (λ _ _ _. Unit {0}) unlocked gone x rest xs w
          (λ gone ds xs w ring. mono (keeps gone ds xs w ring) λ _ _ l. (l, tt)) d)
        λ _ _ o. o.0
