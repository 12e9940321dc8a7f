-- ===== src/Drain/Taking.antt =====
-- What a drain takes: `Drain::new` swaps the tail, and all that was in the queue is its own.
use mathlib.Core.List.{append_assoc}
use aiq.Prelude.{
  ℕ, ◌≡◌, refl, sym, ap, subst, ◌∙◌, inl, false, none, some, Option, List, [], ◌∷◌, ◌++◌, arith,
  ◌==◌, last_or,
}
use aiq.QueueState.{StateOrPtr, state, ptr, QueueState, to_tail}
use aiq.QueueState.Bijective.{IsBijective}
use aiq.Store.{Store, null, slot, set_slot, head_marker}
use aiq.Store.Shape.{IsShape, HoldsState, move_hole, not-has_of_low, prev-ne-zero, frame}
use aiq.Store.Interference.{Evolved}
use aiq.Cmd.{World, turn, load_tail, store_slot, ◌>>=◌, ◌>>◌}
use aiq.Cmd.Outcome.{Outcome, returns, bind}
use aiq.Queue.Waiting.{turn-Evolved, get_next-Found}
use aiq.Queue.Moments.{At, At-turn, At-clear}
use aiq.Queue.Ends.{tail-ends}
use aiq.Drain.{Drain, swap_tail, sentinel, take_all, new}
use aiq.Drain.Draining.{IsDraining}

abbrev pub head_of : List ℕ → ℕ
head_of [] = null
head_of (x ∷ xs) = x

module _ {S : Type 0} {q : QueueState S} {P : S → Type 0} (laws : IsBijective q P) where
  -- The drain has all that was in the queue, with what was enqueued until the tail was swapped.
  pub record Taken (xs : List ℕ) (d : Drain) (w : World) : Type 0 where
    pub added : List ℕ
    pub queued_now : List ℕ
    pub head : d.head ≡ head_of (xs ++ added)
    pub tail : d.tail ≡ last_or null (xs ++ added)
    pub draining : IsDraining q [] [] (xs ++ added) queued_now w.store

  -- Nodes that are no longer in the list, since the tail holds a state again.
  swapped-IsDraining :
      (y : ℕ) (ys : List ℕ) (new_tail : ℕ) (t : Store)
      → HoldsState q new_tail
      → t.pending y ≡ none
      → IsShape q t y (y ∷ ys)
      → IsDraining q [] [] (y ∷ ys) [] (record t { tail = new_tail })
  unfolding slot
  swapped-IsDraining y ys new_tail t (st, holds) written shape = record {
    queue = record {
      seg = tt;
      end = ground (arith, shape.seg.1);
      links = tt;
      distinct = tt;
      last = ap (λ e. elim e [ state _ ↦ head_marker | ptr p ↦ p ]) holds;
      real_tail = λ p e. cc;
      hole_within = inl refl;
      hole_written = ground (arith, shape.owned null);
      owned = λ z out. ground (arith, shape.owned z);
    };
    chain = (
      written,
      move_hole (record t { tail = new_tail }) y null y ys
          (λ z m.
            ground (arith, shape.distinct.0, not-has_of_low null ys (omega arith) shape.links.1))
          (frame t y (record t { tail = new_tail }) y ys (λ z m. (refl, refl)) (λ z m. refl)
            shape.seg.2),
    );
    links = shape.links;
    distinct = shape.distinct;
    apart = λ z m. refl;
    in_use = λ z m. prev-ne-zero t y head_marker z (y ∷ ys) (omega arith) shape.links shape.seg m;
    marked = λ z m. cc;
    unmarked = λ z m. cc;
  }

  pointer_of : (o : StateOrPtr S) (p : ℕ) → to_tail o ≡ some p → o ≡ ptr p
  unfolding to_tail
  pointer_of (state st) p e = cc
  pointer_of (ptr r) p e = ground arith

  -- From the first node on: the head is cleared and the tail swapped.
  swap-Taken :
      (xs before : List ℕ) (y : ℕ) (ys : List ℕ) (new_tail : ℕ) (start : Store) (w : World)
      → HoldsState q new_tail
      → xs ++ before ≡ y ∷ ys
      → At laws [] y start ys null w.store
      → Outcome (Taken xs) (
          (do
            store_slot q head_marker null
            old ← swap_tail q new_tail
            sentinel q y (q.tail_to_enum old))
            w)
  unfolding store_slot swap_tail sentinel
  swap-Taken xs before y ys new_tail start w holds same a =
      let w1 = turn q w in
      let a1 = At-clear laws [] y start ys w1.store (At-turn laws [] y start ys w null a) in
      let v = record w1 { store = set_slot head_marker null w1.store } in
      let a2 = At-turn laws [] y start ys v y a1 in
      let t = (turn q v).store in
      let old : q.tail_to_enum t.tail ≡ ptr (last_or y (ys ++ a2.added)) =
        pointer_of (q.tail_to_enum t.tail) _ (tail-ends laws t y (y ∷ (ys ++ a2.added)) a2.shape) in
      let list : xs ++ (before ++ a2.added) ≡ y ∷ (ys ++ a2.added) =
        sym (append_assoc xs before a2.added) ∙ ap (λ l. l ++ a2.added) same in
      subst
        (λ o.
          Outcome (Taken xs)
            (sentinel q y o (record (turn q v) { store = record t { tail = new_tail } })))
        (sym old)
        (returns (record {
          added = before ++ a2.added;
          queued_now = [];
          head = sym (ap head_of list);
          tail = sym (ap (last_or null) list);
          draining =
              subst (λ l. IsDraining q [] [] l [] (record t { tail = new_tail })) (sym list)
                (swapped-IsDraining y (ys ++ a2.added) new_tail t holds a2.written a2.shape);
        }))

  -- `Drain::new` takes all the nodes that are in the queue when it swaps the tail, in their order.
  pub new-Taken :
      (new_tail : ℕ) (w : World) (xs : List ℕ)
      → HoldsState q new_tail
      → IsShape q w.store null xs
      → Outcome (Taken xs) (new q new_tail w)
  unfolding new load_tail take_all
  new-Taken new_tail w xs holds shape = by_list _ refl
    where
      e : Evolved q w.store null xs (turn q w).store
      e = turn-Evolved laws w null xs shape

      at_tail :
          {o : Option ℕ}
          → to_tail (q.tail_to_enum (turn q w).store.tail) ≡ o
          → Outcome (Taken xs) (take_all q new_tail o (turn q w))
          → Outcome (Taken xs) (new q new_tail w)
      at_tail same = subst (λ o. Outcome (Taken xs) (take_all q new_tail o (turn q w))) (sym same)

      by_list : (l : List ℕ) → xs ++ e.added ≡ l → Outcome (Taken xs) (new q new_tail w)
      by_list [] same =
          let now = subst (IsShape q (turn q w).store null) same e.shape in
          at_tail (tail-ends laws (turn q w).store null [] now) (
            returns (record {
              added = e.added;
              queued_now = [];
              head = sym (ap head_of same);
              tail = sym (ap (last_or null) same);
              draining =
                  subst (λ l. IsDraining q [] [] l [] (turn q w).store) (sym same)
                    (record {
                      queue = now;
                      chain = tt;
                      links = tt;
                      distinct = tt;
                      apart = λ z m. cc;
                      in_use = λ z m. cc;
                      marked = λ z m. cc;
                      unmarked = λ z m. cc;
                    });
            }))
      by_list (y ∷ ys) same =
          let now = subst (IsShape q (turn q w).store null) same e.shape in
          let off : (y == null) ≡ false = ground (arith, now.links.0.not_low) in
          at_tail (tail-ends laws (turn q w).store null (y ∷ ys) now) (
            bind (get_next-Found laws null [] y off (turn q w) ys now) λ n w' (first, written, e').
              subst
                (λ n. Outcome (Taken xs) (
                  (do
                    store_slot q head_marker null
                    old ← swap_tail q new_tail
                    sentinel q n (q.tail_to_enum old))
                    w'))
                (sym first)
                (swap-Taken xs e.added y ys new_tail (turn q w).store w' holds same (record {
                  added = e'.added;
                  shape = e'.shape;
                  written = written;
                  settled = e'.settled;
                })))
