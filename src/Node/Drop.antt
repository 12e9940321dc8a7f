-- ===== src/Node/Drop.antt =====
-- Dropping a node: it is not in the queue afterwards, whether or not somebody takes it out first.
use aiq.Prelude.{
  ℕ, ◌≡◌, subst, true, false, none, List, ◌∷◌, ◌++◌, arith, has, has-split, has-append_left,
  has-last_or, append-All, All, ap, ◌∙◌,
}
use aiq.QueueState.{QueueState, IsLink}
use aiq.QueueState.Bijective.{IsBijective}
use aiq.Store.{Store, null, head_marker, queued, dequeued, raw_state}
use aiq.Store.Shape.{IsShape, not-has_of_low}
use aiq.Store.View.{view}
use aiq.Cmd.{World, Cmd, ◌>>=◌, turn, load_prev}
use aiq.Cmd.Outcome.{Outcome, returns, bind}
use aiq.Queue.Waiting.{turn-Evolved}
use aiq.Queue.Remove.{remove-TakenOut}
use aiq.Node.{load_state, remove_if_queued, dequeue_node, drop_by_state, drop_node}

-- The node is in the queue, its enqueue complete, or it has been taken out and marked.
pub data Settled {S : Type 0} (q : QueueState S) (x : ℕ) (s : Store) : Type 0 where
  inside :
      (xs : List ℕ) → IsShape q s null xs → has x xs ≡ true → s.pending x ≡ none → Settled q x s
  outside :
      (xs : List ℕ)
      → IsShape q s null xs
      → has x xs ≡ false
      → raw_state (s.prev x) ≡ dequeued
      → Settled q x s

-- The node is not in the queue.
abbrev pub Gone : {S : Type 0} → QueueState S → ℕ → World → Type 0
Gone q x w = (xs : List ℕ) × IsShape q w.store null xs × (has x xs ≡ false)

module _ {S : Type 0} {q : QueueState S} {P : S → Type 0} (laws : IsBijective q P) (x : ℕ) where
  -- The `prev` of a node in the queue is a node or the mark of the head.
  raw_of_inside :
      (s : Store) (xs : List ℕ)
      → IsShape q s null xs
      → has x xs ≡ true
      → raw_state (s.prev x) ≡ queued
  unfolding raw_state
  raw_of_inside s xs shape m =
      let (ps, bs, around) = has-split x xs m in
      let seen = view s null ps x bs (subst (IsShape q s null) around shape) in
      let (front, back) = append-All IsLink ps (x ∷ bs) (subst (All IsLink) around shape.links) in
      ground (
        arith,
        seen.prev_place,
        seen.place_not_null,
        has-last_or head_marker ps,
        not-has_of_low 1 ps (omega arith) front,
      )

  -- A turn of the threads that enqueue leaves it settled.
  turn-Settled : (w : World) → Settled q x w.store → Settled q x (turn q w).store
  unfolding raw_state
  turn-Settled w (inside xs shape m written) =
      let e = turn-Evolved laws w null xs shape in
      inside (xs ++ e.added) e.shape (has-append_left x xs e.added m) (e.settled x m written)
  turn-Settled w (outside xs shape out mark) =
      let e = turn-Evolved laws w null xs shape in
      let (away, same) = e.outside x out (ground arith) in
      outside (xs ++ e.added) e.shape away (ap raw_state same ∙ mark)

  remove-Gone :
      (w : World) (xs : List ℕ)
      → IsShape q w.store null xs
      → has x xs ≡ true
      → w.store.pending x ≡ none
      → Outcome (λ _. Gone q x) (remove_if_queued q x queued w)
  unfolding remove_if_queued
  remove-Gone w xs shape m written =
      let (ps, bs, around) = has-split x xs m in
      bind
        (remove-TakenOut laws ps x bs null w laws.decode_null
          (subst (IsShape q w.store null) around shape) written)
        λ last v taken. returns (ps ++ (bs ++ taken.added), taken.shape, taken.out)

  module _ (lock : Cmd (Unit {0}))
      (lock_keeps : (w : World)
        → Settled q x w.store
        → Outcome (λ _ v. Settled q x v.store) (lock w)) where
    remove_if_queued-Gone :
        (w : World)
        → Settled q x w.store
        → Outcome (λ _. Gone q x) ((do raw ← load_state q x; remove_if_queued q x raw) w)
    unfolding load_state load_prev remove_if_queued
    remove_if_queued-Gone w s = by_state (turn-Settled w s)
      where
        by_state :
            Settled q x (turn q w).store
            → Outcome
                (λ _. Gone q x)
                (remove_if_queued q x (raw_state ((turn q w).store.prev x)) (turn q w))
        by_state (inside xs shape m written) =
            rw (raw_of_inside (turn q w).store xs shape m)
              (remove-Gone (turn q w) xs shape m written)
        by_state (outside xs shape out mark) = rw mark (returns (xs, shape, out))

    -- Dropping a node whose enqueue is complete, or that somebody has taken out of the queue, leaves a
    -- queue without it, also if it is taken out while the lock is awaited.
    pub drop_node-Gone :
        (w : World) → Settled q x w.store → Outcome (λ _. Gone q x) (drop_node q lock x w)
    unfolding drop_node load_state load_prev drop_by_state dequeue_node
    drop_node-Gone w s = by_state (turn-Settled w s)
      where
        by_state :
            Settled q x (turn q w).store
            → Outcome
                (λ _. Gone q x)
                (drop_by_state q lock x (raw_state ((turn q w).store.prev x)) (turn q w))
        by_state (inside xs shape m written) = rw (raw_of_inside (turn q w).store xs shape m) (
            bind (lock_keeps (turn q w) (inside xs shape m written))
              λ _ v s'. remove_if_queued-Gone v s')
        by_state (outside xs shape out mark) = rw mark (returns (xs, shape, out))
