-- ===== src/Drain/Visits.antt =====
-- `for_each` visits the nodes of a drain in their order, but for those that others remove while it has
-- released the lock, and leaves none of them unmarked.
use aiq.Prelude.{
  ℕ, zero, suc, ◌<◌, ◌≡◌, refl, sym, ap, subst, inl, inr, Bool, true, false, List, [], ◌∷◌, ◌++◌,
  ◌≢◌, ◌||◌, ◌∙◌, arith, Bool-cases, ◌==◌, has, last_or, length, Sublist, none_left, keep, skip,
  length-Sublist, Sublist-trans,
}
use aiq.QueueState.{QueueState, IsLink}
use aiq.QueueState.Bijective.{IsBijective}
use aiq.Store.{Store, null, dequeued, raw_state}
use aiq.Store.Shape.{IsShape}
use aiq.Cmd.{World, Cmd, pure, ◌>>=◌}
use aiq.Cmd.Outcome.{Outcome, returns, bind, mono}
use aiq.Drain.{Drain, is_empty, next_node, drop_drain}
use aiq.Drain.Unlocked.{Visit, after_node, for_each_loop, for_each_locked, execute_unlocked}
use aiq.Drain.Draining.{IsDraining}
use aiq.Drain.Taking.{head_of}
use aiq.Drain.Drained.{drop_drained-Drains, ends_with}
use aiq.Drain.Releasing.{hold_sentinel}
use aiq.Drain.Visiting.{Fewer, KeepsRingWith, execute_unlocked-Reopens}

-- A sublist leaves out all but some entries, so that it has no more.
Sublist-nil : (xs : List ℕ) → Sublist [] xs
Sublist-nil [] = none_left
Sublist-nil (x ∷ xs) = skip (Sublist-nil xs)

-- What the helper knows of removals in the end: those that it knew of before, and all nodes that the
-- holders of the lock have taken out since.
pub record Noted {H : Type 0} (removed : H → List ℕ) (h : H) (gone gone' : List ℕ) (h' : H)
    : Type 0 where
  pub kept : (z : ℕ) → has z (removed h) ≡ true → has z (removed h') ≡ true
  pub noted : (z : ℕ) → has z gone' ≡ true → has z gone || has z (removed h') ≡ true

module _ {S : Type 0} {q : QueueState S} {P : S → Type 0} (laws : IsBijective q P)
    (sentinel_node : ℕ) (is_node : IsLink sentinel_node) {H : Type 0} (on_next : H → ℕ → Bool × H)
    (on_unlock : H → Cmd H) (removed : H → List ℕ)
    (visits_only : (h : H) (x : ℕ) → removed (on_next h x).1 ≡ removed h)
    (keeps : (h : H) → KeepsRingWith q sentinel_node (Noted removed h) (on_unlock h)) where
  -- The loop is done with the nodes `ds`: it visited some, in their order, and the others were removed by
  -- holders of the lock; each of them is marked.
  record Done (h : H) (gone ds : List ℕ) (r : Visit q sentinel_node on_next on_unlock) (w : World)
      : Type 0 where
    in_order : Sublist r.0 ds
    none_lost : (z : ℕ) → has z ds ≡ true → has z r.0 || has z (removed r.1) ≡ true
    kept : (z : ℕ) → has z (removed h) ≡ true → has z (removed r.1) ≡ true
    no_more : r.2.head ≡ null
    gone_now : List ℕ
    queued_now : List ℕ
    still_gone : (z : ℕ) → has z gone ≡ true → has z gone_now ≡ true
    all_gone : (z : ℕ) → has z ds ≡ true → has z gone_now ≡ true
    draining : IsDraining q gone_now (sentinel_node ∷ []) [] queued_now w.store

  nothing_left :
      (gone xs : List ℕ) (h : H) (d : Drain) (w : World)
      → d.head ≡ null
      → IsDraining q gone (sentinel_node ∷ []) [] xs w.store
      → Done h gone [] ([], h, d) w
  nothing_left gone xs h d w e draining = record {
    in_order = none_left;
    none_lost = λ z m. cc;
    kept = λ z m. m;
    no_more = e;
    gone_now = gone;
    queued_now = xs;
    still_gone = λ z m. m;
    all_gone = λ z m. cc;
    draining = draining;
  }

  -- The nodes that were left are done with, and so are those before.
  Done-Fewer :
      (h h' : H) (gone ds gone' ds' : List ℕ) (r : Visit q sentinel_node on_next on_unlock)
      (w : World)
      → ((z : ℕ) → has z ds ≡ true → has z gone ≡ false)
      → Fewer gone ds gone' ds'
      → Noted removed h gone gone' h'
      → Done h' gone' ds' r w
      → Done h gone ds r w
  Done-Fewer h h' gone ds gone' ds' r w apart f did done = record {
    in_order = Sublist-trans done.in_order f.left;
    none_lost = λ z m. elim (Bool-cases (has z ds')) [
      | inl s ↦ done.none_lost z s
      | inr o ↦
          let taken : has z gone' ≡ true = ground (arith, f.gone_or_left z m) in
          let known : has z (removed h') ≡ true = ground (arith, did.noted z taken, apart z m) in
          ground (arith, done.kept z known)
    ];
    kept = λ z m. done.kept z (did.kept z m);
    no_more = done.no_more;
    gone_now = done.gone_now;
    queued_now = done.queued_now;
    still_gone = λ z m. done.still_gone z (f.still_gone z m);
    all_gone = λ z m. elim (Bool-cases (has z gone')) [
      | inl g ↦ done.still_gone z g
      | inr o ↦ done.all_gone z (ground (arith, f.gone_or_left z m))
    ];
    draining = done.draining;
  }

  -- The node that was visited is done with as well.
  Done-visited :
      (h : H) (gone : List ℕ) (x : ℕ) (rest : List ℕ) (r : Visit q sentinel_node on_next on_unlock)
      (w : World)
      → Done (on_next h x).1 (x ∷ gone) rest r w
      → Done h gone (x ∷ rest) (x ∷ r.0, r.1, r.2) w
  Done-visited h gone x rest r w done = record {
    in_order = keep done.in_order;
    none_lost = λ z m. ground (arith, done.none_lost z);
    kept = λ z m. done.kept z (subst (λ l. has z l ≡ true) (sym (visits_only h x)) m);
    no_more = done.no_more;
    gone_now = done.gone_now;
    queued_now = done.queued_now;
    still_gone = λ z m. done.still_gone z (ground arith);
    all_gone = λ z m. ground (arith, done.still_gone z, done.all_gone z);
    draining = done.draining;
  }

  -- What is needed of the rounds that come after a node.
  abbrev Goes : ℕ → Type 0
  Goes fuel =
      (gone ds xs : List ℕ) (tail : ℕ) (h : H) (w : World)
      → length ds < fuel
      → tail ≡ last_or tail ds
      → IsDraining q gone (sentinel_node ∷ []) ds xs w.store
      → Outcome (λ r w'. Done h gone ds r w')
          (for_each_loop q sentinel_node on_next on_unlock fuel h
            (record { head = head_of ds; tail = tail }) w)

  not_gone :
      (gone ds xs : List ℕ) (s : Store)
      → IsDraining q gone (sentinel_node ∷ []) ds xs s
      → (z : ℕ) → has z ds ≡ true
      → has z gone ≡ false
  not_gone gone ds xs s d z m = elim (Bool-cases (has z gone)) [
    | inl g ↦ cc (sym m ∙ (d.marked z g).1)
    | inr o ↦ o
  ]

  after_node-Done :
      (fuel : ℕ)
      → Goes fuel
      → (unlock : Bool) (gone ds xs : List ℕ) (tail : ℕ) (h : H) (w : World) → length ds < fuel
      → tail ≡ last_or tail ds
      → IsDraining q gone (sentinel_node ∷ []) ds xs w.store
      → Outcome
          (λ r w'. Done h gone ds r w')
          (after_node q sentinel_node on_next on_unlock
            (for_each_loop q sentinel_node on_next on_unlock fuel)
            unlock
            h
            (record { head = head_of ds; tail = tail })
            w)
  unfolding after_node is_empty
  after_node-Done fuel goes false gone ds xs tail h w enough ends draining =
      goes gone ds xs tail h w enough ends draining
  after_node-Done fuel goes true gone [] xs tail h w enough ends draining =
      returns (nothing_left gone xs h _ w refl draining)
  after_node-Done fuel goes true gone (x ∷ rest) xs tail h w enough ends draining =
      let some_left : (x == null) ≡ false = ground (arith, draining.links.0.not_low) in
      rw some_left (
        subst
          (λ tail.
            Outcome (λ r w'. Done h gone (x ∷ rest) r w')
              ((do
                u ←
                    execute_unlocked q sentinel_node (on_unlock h)
                      (record { head = x; tail = tail })
                for_each_loop q sentinel_node on_next on_unlock fuel u.0 u.1)
                w))
          (sym ends)
          (bind
            (execute_unlocked-Reopens laws sentinel_node is_node (Noted removed h) (on_unlock h)
              gone x rest xs w (keeps h) draining)
            λ u w' (o, did).
              let few = length-Sublist o.fewer.left in
              let apart : (z : ℕ) → has z (x ∷ rest) ≡ true → has z gone ≡ false =
                λ z m. not_gone gone (x ∷ rest) xs w.store draining z m in
              let same : record { head = head_of o.left; tail = u.1.tail } ≡ u.1 =
                ap (λ h. record u.1 { head = h }) (sym o.head) in
              subst
                (λ d.
                  Outcome (λ r w'. Done h gone (x ∷ rest) r w')
                    (for_each_loop q sentinel_node on_next on_unlock fuel u.0 d w'))
                same
                (mono
                  (goes o.gone_now o.left o.queued_now u.1.tail u.0 w' (omega arith) o.tail
                    o.draining)
                  λ r w'' done.
                    Done-Fewer h u.0 gone (x ∷ rest) o.gone_now o.left r w'' apart o.fewer did
                      done)))

  for_each_loop-Done : (fuel : ℕ) → Goes fuel
  unfolding for_each_loop next_node is_empty
  for_each_loop-Done zero gone ds xs tail h w enough ends draining = absurd (omega arith)
  for_each_loop-Done (suc fuel) gone [] xs tail h w enough ends draining =
      returns (nothing_left gone xs h _ w refl draining)
  for_each_loop-Done (suc fuel) gone (x ∷ rest) xs tail h w enough ends draining =
      let some_left : (x == null) ≡ false = ground (arith, draining.links.0.not_low) in
      rw (some_left, for_each_loop)
        (bind
          (drop_drained-Drains laws (sentinel_node ∷ []) gone x rest xs
            (record { head = x; tail = tail }) w ends draining)
          λ d' w' (same, (ys, draining')).
            subst
              (λ d'.
                Outcome (λ r w'. Done h gone (x ∷ rest) r w')
                  ((do
                    r ←
                        after_node q sentinel_node on_next on_unlock
                          (for_each_loop q sentinel_node on_next on_unlock fuel) (on_next h x).0
                          (on_next h x).1 d'
                    pure (x ∷ r.0, r.1, r.2))
                    w'))
              (sym same)
              (bind
                (after_node-Done fuel (for_each_loop-Done fuel) (on_next h x).0 (x ∷ gone) rest ys
                  tail (on_next h x).1 w' (omega arith)
                  (ends_with laws (sentinel_node ∷ []) x tail rest ends) draining')
                λ r w'' done. returns (Done-visited h gone x rest r w'' done)))

  -- The end of `for_each`: the nodes that it visited are nodes of the drain, in their order, each other node
  -- of the drain was removed by a holder of the lock, and each is marked and not in the queue.
  pub record Visited (ds visited : List ℕ) (h : H) (w : World) : Type 0 where
    pub in_order : Sublist visited ds
    pub none_lost : (z : ℕ) → has z ds ≡ true → has z visited || has z (removed h) ≡ true
    pub queued_now : List ℕ
    pub shape : IsShape q w.store null queued_now
    pub marked :
        (z : ℕ)
        → has z ds ≡ true
        → (raw_state (w.store.prev z) ≡ dequeued) × (has z queued_now ≡ false)

  -- `for_each` with enough fuel returns, unless it waits for a thread that has begun an enqueue and not
  -- completed it. Where those that hold the lock while it is released only remove nodes of the
  -- ring and mark them, and the helper keeps a list of what they removed, `on_next` was called on nodes
  -- of the drain, in their order, and on each node of the drain that is not in that list at the end; each
  -- node of the drain is marked, and the queue is in shape with none of them in it.
  pub for_each_locked-Visited :
      (ds xs : List ℕ) (fuel tail : ℕ) (h : H) (w : World)
      → length ds < fuel
      → tail ≡ last_or null ds
      → IsDraining q [] [] ds xs w.store
      → w.store.prev sentinel_node ≢ 0
      → has sentinel_node (ds ++ xs) ≡ false
      → Outcome
          (λ r w'. Visited ds r.0 r.1 w')
          (for_each_locked q sentinel_node on_next on_unlock fuel h
            (record { head = head_of ds; tail = tail })
            w)
  unfolding for_each_locked drop_drain is_empty
  for_each_locked-Visited ds xs fuel tail h w enough ends d live out =
      bind
        (for_each_loop-Done fuel [] ds xs tail h w enough
          (ends_with laws (sentinel_node ∷ []) null tail ds ends)
          (hold_sentinel sentinel_node ds xs w.store d live out))
        λ r w' done.
          let empty : (r.2.head == null) ≡ true = ground (arith, done.no_more) in
          rw empty (
            returns (record {
              in_order = done.in_order;
              none_lost = done.none_lost;
              queued_now = done.queued_now;
              shape = done.draining.queue;
              marked = λ z m.
                  let (at, _, off) = done.draining.marked z (done.all_gone z m) in
                  (unfold raw_state in rw at refl, off);
            }))
