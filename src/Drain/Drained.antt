-- ===== src/Drain/Drained.antt =====
-- A drain that is dropped has dropped all of its nodes, in their order.
use aiq.Prelude.{
  ℕ, zero, suc, ◌<◌, ◌≡◌, refl, sym, ap, subst, inl, inr, Bool-cases, true, false, List, [], ◌∷◌,
  ◌++◌, arith, length, ◌==◌, ◌||◌, has, last_or, has-last_or,
}
use aiq.QueueState.{QueueState}
use aiq.QueueState.Bijective.{IsBijective}
use aiq.Store.{Store, null, dequeued, raw_state}
use aiq.Store.Shape.{IsShape, HoldsState}
use aiq.Cmd.{World, Run, turn, store_prev, pure, ◌>>=◌, and_then}
use aiq.Cmd.Outcome.{Outcome, returns, waits, bind, mono}
use aiq.Queue.{finish}
use aiq.Drain.{Drain, is_empty, next_node, new, drop_drained, drain_rest, drop_drain}
use aiq.Drain.Draining.{IsDraining}
use aiq.Drain.Dropping.{hold-IsDraining, mark-IsDraining, turn-IsDraining, get_next-Next}
use aiq.Drain.Taking.{head_of, Taken, new-Taken}

module _ {S : Type 0} {q : QueueState S} {P : S → Type 0} (laws : IsBijective q P)
    (held : List ℕ) where
  abbrev pub Drains : List ℕ → List ℕ → World → Type 0
  Drains gone ds w = (ys : List ℕ) × IsDraining q gone held ds ys w.store

  pub finish-Drains :
      (gone : List ℕ) (x : ℕ) (rest xs : List ℕ) (w : World)
      → has x held ≡ false
      → IsDraining q gone (x ∷ held) rest xs w.store
      → Outcome (λ _ w'. Drains (x ∷ gone) rest w') (finish q x w)
  unfolding finish store_prev
  finish-Drains gone x rest xs w new d =
      let (ys, d') = turn-IsDraining laws gone (x ∷ held) rest xs w d in
      returns (ys, mark-IsDraining (turn q w).store gone held x rest ys new d')

  first_out :
      (gone : List ℕ) (x : ℕ) (rest xs : List ℕ) (s : Store)
      → IsDraining q gone held (x ∷ rest) xs s
      → has x held ≡ false
  first_out gone x rest xs s d = elim (Bool-cases (has x held)) [
    | inl m ↦ absurd (ground (arith, (d.unmarked x m).1))
    | inr o ↦ o
  ]

  -- A node that is dropped is marked, and the next one is known and linked.
  pub drop_drained-Drains :
      (gone : List ℕ) (x : ℕ) (rest xs : List ℕ) (d : Drain) (w : World)
      → d.tail ≡ last_or x rest
      → IsDraining q gone held (x ∷ rest) xs w.store
      → Outcome
          (λ d' w'. (d' ≡ record d { head = head_of rest }) × Drains (x ∷ gone) rest w')
          (drop_drained q d x w)
  unfolding drop_drained
  drop_drained-Drains gone x [] xs d w ends draining =
      let here : (x == d.tail) ≡ true = ground arith in
      rw here (
        bind
          (finish-Drains gone x [] xs w (first_out gone x [] xs w.store draining)
            (hold-IsDraining w.store gone held x [] xs draining tt))
          λ _ w' dr. returns (refl, dr))
  drop_drained-Drains gone x (y ∷ rest) xs d w ends draining =
      let off : (x == d.tail) ≡ false = ground (arith, has-last_or y rest, draining.distinct.0) in
      rw off (
        bind (get_next-Next laws gone held x y rest xs w draining)
          λ n w' (same, linked, (ys, draining')).
            bind
              (finish-Drains gone x (y ∷ rest) ys w'
                (first_out gone x (y ∷ rest) ys w'.store draining')
                (hold-IsDraining w'.store gone held x (y ∷ rest) ys draining'
                  (linked, draining'.chain.1.2)))
              λ _ w'' dr. returns (ap (λ n. record d { head = n }) same, dr))

  -- All of `ds` have been dropped besides `gone`.
  abbrev pub Gone : List ℕ → List ℕ → World → Type 0
  Gone gone ds w = (all : List ℕ) × ((z : ℕ) → has z all ≡ has z ds || has z gone) × Drains all [] w

  pub ends_with : (d tail : ℕ) (ds : List ℕ) → tail ≡ last_or d ds → tail ≡ last_or tail ds
  ends_with d tail [] e = refl
  ends_with d tail (x ∷ ds) e = e

  pub drain_rest-Gone :
      (fuel : ℕ) (gone ds xs : List ℕ) (tail : ℕ) (w : World)
      → length ds < fuel
      → tail ≡ last_or tail ds
      → IsDraining q gone held ds xs w.store
      → Outcome
          (λ l w'. (l ≡ ds) × Gone gone ds w')
          (drain_rest q fuel (record { head = head_of ds; tail = tail }) w)
  unfolding drain_rest next_node is_empty
  drain_rest-Gone zero gone ds xs tail w enough ends draining = absurd (omega arith)
  drain_rest-Gone (suc fuel) gone [] xs tail w enough ends draining =
      returns (refl, (gone, λ z. refl, (xs, draining)))
  drain_rest-Gone (suc fuel) gone (x ∷ rest) xs tail w enough ends draining =
      let some_left : (x == null) ≡ false = ground (arith, draining.links.0.not_low) in
      let d : Drain = record { head = x; tail = tail } in
      rw (some_left, drain_rest)
        (bind (drop_drained-Drains gone x rest xs d w ends draining)
          λ d' w' (same, (ys, draining')).
            subst
              (λ d'.
                Outcome (λ l w'. (l ≡ x ∷ rest) × Gone gone (x ∷ rest) w')
                  ((do dropped ← drain_rest q fuel d'; pure (x ∷ dropped)) w'))
              (sym same)
              (bind
                (drain_rest-Gone fuel (x ∷ gone) rest ys tail w' (omega arith)
                  (ends_with x tail rest ends) draining')
                λ l w'' (e, (all, members, left)).
                  returns (ap (λ l. x ∷ l) e, (all, λ z. ground (arith, members z), left))))

module _ {S : Type 0} {q : QueueState S} {P : S → Type 0} (laws : IsBijective q P) where
  -- The end of a drain: it has dropped the nodes `xs` and those that were added behind them.
  pub record Drained (xs dropped : List ℕ) (w : World) : Type 0 where
    pub added : List ℕ
    pub queued_now : List ℕ
    pub in_order : dropped ≡ xs ++ added
    pub shape : IsShape q w.store null queued_now
    pub marked :
        (z : ℕ)
        → has z dropped ≡ true
        → (raw_state (w.store.prev z) ≡ dequeued) × (has z queued_now ≡ false)

  Gone-Drained :
      (xs : List ℕ) (added l : List ℕ) (w : World)
      → l ≡ xs ++ added
      → Gone laws [] [] (xs ++ added) w
      → Drained xs l w
  Gone-Drained xs added l w e (all, members, (ys, left)) = record {
    added = added;
    queued_now = ys;
    in_order = e;
    shape = left.queue;
    marked = λ z m.
        let (at, out, off) = left.marked z (ground (arith, members z, ap (has z) e)) in
        (unfold raw_state in rw at refl, off);
  }

  drop_drain-Drained :
      (xs : List ℕ) (d : Drain) (w : World)
      → (taken : Taken laws xs d w) → (fuel : ℕ) → length (xs ++ taken.added) < fuel
      → Outcome (Drained xs) (drop_drain q fuel d w)
  unfolding drop_drain is_empty
  drop_drain-Drained xs d w taken fuel enough = by_list (xs ++ taken.added) refl
    where
      by_list : (l : List ℕ) → xs ++ taken.added ≡ l → Outcome (Drained xs) (drop_drain q fuel d w)
      by_list [] same =
          let empty : (d.head == null) ≡ true = ground (arith, taken.head, ap head_of same) in
          let left =
            subst (λ l. IsDraining q [] [] l taken.queued_now w.store) same taken.draining in
          let none_gone : Gone laws [] [] (xs ++ taken.added) w =
            subst (λ l. Gone laws [] [] l w) (sym same) ([], λ z. refl, (taken.queued_now, left)) in
          rw empty (returns (Gone-Drained xs taken.added [] w (sym same) none_gone))
      by_list (x ∷ rest) same =
          let left =
            subst (λ l. IsDraining q [] [] l taken.queued_now w.store) same taken.draining in
          let some_left : (d.head == null) ≡ false =
            ground (arith, taken.head, ap head_of same, left.links.0.not_low) in
          rw some_left (
            mono
              (subst
                (λ h.
                  Outcome (λ l w'. (l ≡ xs ++ taken.added) × Gone laws [] [] (xs ++ taken.added) w')
                    (drain_rest q fuel (record d { head = h }) w))
                (sym taken.head)
                (drain_rest-Gone laws [] fuel [] (xs ++ taken.added) taken.queued_now d.tail w
                  enough (ends_with laws [] null d.tail (xs ++ taken.added) taken.tail)
                  taken.draining))
              λ l w' (e, gone). Gone-Drained xs taken.added l w' e gone)

  -- Dropping a drain with enough fuel drops all that was in the queue when the tail was swapped, in its
  -- order and marked; the queue is in shape then, with none of them in it. Or the drain waits for a thread
  -- that has begun an enqueue and not completed it.
  pub drain-Drained :
      (new_tail : ℕ) (w : World) (xs : List ℕ)
      → HoldsState q new_tail
      → IsShape q w.store null xs
      → (bound : ℕ) × ((fuel : ℕ)
          → bound < fuel
          → Outcome (Drained xs) ((do d ← new q new_tail; drop_drain q fuel d) w))
  drain-Drained new_tail w xs holds shape = by_outcome (new-Taken laws new_tail w xs holds shape)
    where
      by_outcome :
          {r : Run Drain}
          → Outcome (Taken laws xs) r
          → (bound : ℕ) × ((fuel : ℕ)
              → bound < fuel
              → Outcome (Drained xs) (and_then r (λ d. drop_drain q fuel d)))
      by_outcome (returns taken) =
          (length (xs ++ taken.added), λ fuel enough. drop_drain-Drained xs _ _ taken fuel enough)
      by_outcome (waits y p e done) = (0, λ fuel enough. waits y p e done)
