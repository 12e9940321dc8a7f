-- ===== src/Queue/Ends.antt =====
-- `dequeue` and `pop` with the drops of what they return: the first node and the last one.
use mathlib.Core.List.{append_assoc}
use aiq.Prelude.{
  ℕ, ◌≡◌, refl, sym, ap, subst, ◌∙◌, Bool, false, Option, none, some, List, [], ◌∷◌, ◌++◌, arith,
  ◌==◌, last_or, has-last_or, split_last,
}
use aiq.QueueState.{QueueState, to_tail}
use aiq.QueueState.Bijective.{IsBijective}
use aiq.Store.{Store, null, head_marker}
use aiq.Store.Shape.{HoldsState, IsShape, not-has_of_low}
use aiq.Store.Interference.{Evolved, Evolved-refl, Evolved-trans}
use aiq.Cmd.{pure, ◌>>=◌, ◌>>◌, ok, World, turn, load_tail}
use aiq.Cmd.Outcome.{Outcome, returns, bind}
use aiq.Queue.{take_head, dequeue, pop, drop_dequeue, drop_pop}
use aiq.Queue.Contract.{TakenOut, Dequeued, Popped}
use aiq.Queue.Waiting.{turn-Evolved, get_next-Found}
use aiq.Queue.Moments.{nil_of_append}
use aiq.Queue.Remove.{remove_with_prev-TakenOut, remove-wait_TakenOut}

module _ {S : Type 0} {q : QueueState S} {P : S → Type 0} (laws : IsBijective q P) where
  -- The tail that was read holds a state exactly if the list was empty, and else its last node.
  pub tail-ends :
      (s : Store) (hole : ℕ) (xs : List ℕ)
      → IsShape q s hole xs
      → to_tail (q.tail_to_enum s.tail) ≡ elim xs [ [] ↦ none | y ∷ ys ↦ some (last_or y ys) ]
  unfolding to_tail
  tail-ends s hole [] shape = ground (arith, shape.real_tail head_marker)
  tail-ends s hole (y ∷ ys) shape =
      ground
        (arith, has-last_or y ys, not-has_of_low head_marker (y ∷ ys) (omega arith) shape.links)

  -- `dequeue` gives the first node and leaves it in the list, or waits for the thread that enqueues it.
  pub dequeue-Dequeued :
      (w : World) (xs : List ℕ)
      → IsShape q w.store null xs
      → Outcome (Dequeued q w.store xs) (dequeue q w)
  unfolding dequeue take_head load_tail Evolved-trans
  dequeue-Dequeued w xs shape = by_list _ refl
    where
      e : Evolved q w.store null xs (turn q w).store
      e = turn-Evolved laws w null xs shape

      at_tail :
          {o : Option ℕ}
          → to_tail (q.tail_to_enum (turn q w).store.tail) ≡ o
          → Outcome (Dequeued q w.store xs) (take_head q o (turn q w))
          → Outcome (Dequeued q w.store xs) (dequeue q w)
      at_tail same =
          subst (λ o. Outcome (Dequeued q w.store xs) (take_head q o (turn q w))) (sym same)

      by_list : (l : List ℕ) → xs ++ e.added ≡ l → Outcome (Dequeued q w.store xs) (dequeue q w)
      by_list [] same =
          let now = subst (IsShape q (turn q w).store null) same e.shape in
          at_tail (tail-ends (turn q w).store null [] now)
            (returns (nil_of_append xs e.added same, e))
      by_list (y ∷ ys) same =
          let now = subst (IsShape q (turn q w).store null) same e.shape in
          let off : (y == null) ≡ false = ground (arith, now.links.0.not_low) in
          at_tail (tail-ends (turn q w).store null (y ∷ ys) now) (
            bind (get_next-Found laws null [] y off (turn q w) ys now) λ n w' (first, written, e').
              let later = subst (λ l. Evolved q (turn q w).store null l w'.store) (sym same) e' in
              returns (
                ys ++ later.added,
                Evolved-trans w.store null xs e later,
                sym (append_assoc xs e.added later.added)
                    ∙ ap (λ l. l ++ later.added) same
                    ∙ ap (λ m. m ∷ (ys ++ later.added)) (sym first),
                rw first written,
              ))

  -- `pop` gives the last node and leaves it in the list; it never waits.
  pub pop-Popped :
      (w : World) (xs : List ℕ)
      → IsShape q w.store null xs
      → Outcome (Popped q w.store xs) (pop q w)
  unfolding pop load_tail
  pop-Popped w xs shape = by_list _ refl
    where
      e : Evolved q w.store null xs (turn q w).store
      e = turn-Evolved laws w null xs shape

      by_list : (l : List ℕ) → xs ++ e.added ≡ l → Outcome (Popped q w.store xs) (pop q w)
      by_list l same =
          subst (λ o. Outcome (Popped q w.store xs) (ok o (turn q w)))
            (sym (
              tail-ends (turn q w).store null l
                (subst (IsShape q (turn q w).store null) same e.shape)))
            (by_last l same)
        where
          by_last :
              (l : List ℕ)
              → xs ++ e.added ≡ l
              → Outcome
                  (Popped q w.store xs)
                  (ok (elim l [ [] ↦ none | y ∷ ys ↦ some (last_or y ys) ]) (turn q w))
          by_last [] same = returns (nil_of_append xs e.added same, e)
          by_last (y ∷ ys) same =
              let (front, ends) = split_last y ys in returns (front, e, same ∙ ends)

  pub null-HoldsState : HoldsState q null
  null-HoldsState = laws.decode_null

  -- Dropping a `Dequeue` takes its node, the first one, out of the list.
  pub drop_dequeue-TakenOut :
      (n : ℕ) (rest : List ℕ) (w : World)
      → IsShape q w.store null (n ∷ rest)
      → w.store.pending n ≡ none
      → Outcome (λ _ w'. (last : Bool) × TakenOut q [] n rest w.store last w') (drop_dequeue q n w)
  unfolding drop_dequeue Evolved-refl
  drop_dequeue-TakenOut n rest w shape written =
      bind
        (remove_with_prev-TakenOut laws [] n rest null w.store w null-HoldsState
          (Evolved-refl w.store null (n ∷ rest) shape) written)
        λ last w' out. returns (last, out)

  -- Dropping a `Pop` takes its node out of the list, wherever it stands by then.
  pub drop_pop-TakenOut :
      (n : ℕ) (ps bs : List ℕ) (w : World)
      → IsShape q w.store null (ps ++ n ∷ bs)
      → Outcome (λ _ w'. (last : Bool) × TakenOut q ps n bs w.store last w') (drop_pop q n w)
  unfolding drop_pop
  drop_pop-TakenOut n ps bs w shape =
      bind (remove-wait_TakenOut laws ps n bs null w null-HoldsState shape)
        λ last w' out. returns (last, out)

  -- A node that is dequeued and dropped was the first, and the others keep their order, with what was
  -- enqueued meanwhile behind them.
  pub dequeue-first :
      (x : ℕ) (bs : List ℕ) (w : World)
      → IsShape q w.store null (x ∷ bs)
      → Outcome
          (λ r w'. (r ≡ some x) × ((added : List ℕ) × IsShape q w'.store null (bs ++ added)))
          ((do r ← dequeue q; elim r [ none ↦ pure tt | some n ↦ drop_dequeue q n ]; pure r) w)
  dequeue-first x bs w shape = bind (dequeue-Dequeued w (x ∷ bs) shape) dropped
    where
      dropped :
          (r : Option ℕ) (v : World)
          → Dequeued q w.store (x ∷ bs) r v
          → Outcome
              (λ r w'. (r ≡ some x) × ((added : List ℕ) × IsShape q w'.store null (bs ++ added)))
              ((do elim r [ none ↦ pure tt | some n ↦ drop_dequeue q n ]; pure r) v)
      dropped none v (nothing, e) = cc
      dropped (some n) v (rest, e, same, written) =
          let now = subst (IsShape q v.store null) same e.shape in
          bind (drop_dequeue-TakenOut n rest v now written) λ _ w' (last, out).
            let first : n ≡ x = cc in
            let others : rest ≡ bs ++ e.added = cc in
            let list : rest ++ out.added ≡ bs ++ (e.added ++ out.added) =
              ap (λ l. l ++ out.added) others ∙ append_assoc bs e.added out.added in
            returns (
              ap some first,
              (e.added ++ out.added, subst (IsShape q w'.store null) list out.shape),
            )
