-- ===== src/Queue/Remove.antt =====
-- `remove` and `remove_with_prev` keep their promise from every shape, under every interference.
use mathlib.Core.List.{append_assoc}
use aiq.Prelude.{ℕ, ◌≡◌, subst, Bool, false, true, none, List, ◌∷◌, ◌++◌, arith, ◌==◌, has-append}
use aiq.QueueState.{QueueState}
use aiq.QueueState.Bijective.{IsBijective}
use aiq.Store.{Store, null, raw_state}
use aiq.Store.Shape.{HoldsState, IsShape}
use aiq.Store.View.{view}
use aiq.Store.Removal.{place}
use aiq.Store.Interference.{Evolved}
use aiq.Cmd.{World, turn, load_prev}
use aiq.Cmd.Outcome.{Outcome, returns, mono, bind}
use aiq.Queue.{remove_with_prev, remove}
use aiq.Queue.Contract.{TakenOut}
use aiq.Queue.Waiting.{turn-Evolved, get_next-Found, widen}
use aiq.Queue.Moments.{At, Unlinked, Ends}
use aiq.Queue.Removing.{take_out}

module _ {S : Type 0} {q : QueueState S} {P : S → Type 0} (laws : IsBijective q P) (ps : List ℕ)
    (x : ℕ) (bs : List ℕ) where
  -- Where others have moved and `x` is enqueued, its removal can begin.
  evolved-At :
      (s t : Store)
      → Evolved q s null (ps ++ x ∷ bs) t
      → t.pending x ≡ none
      → At laws ps x s bs null t
  evolved-At s t e written = record {
    added = e.added;
    shape = subst (IsShape q t null) (append_assoc ps (x ∷ bs) e.added) e.shape;
    written = written;
    settled = e.settled;
  }

  Unlinked-TakenOut :
      (s : Store) (last : Bool) (w : World)
      → Unlinked laws ps x s bs last w × (w.store.prev x ≡ 1)
      → TakenOut q ps x bs s last w
  unfolding raw_state
  Unlinked-TakenOut s last w (u, mark) = record {
    added = u.added;
    shape = u.shape;
    out = u.out;
    marked = rw mark;
    was_last = λ e. subst (λ b. Ends laws ps x s bs b u.added) e u.ends;
    was_not_last = λ e. subst (λ b. Ends laws ps x s bs b u.added) e u.ends;
    settled = u.settled;
  }

  not_null_node : (t : Store) (l : List ℕ) → IsShape q t null (ps ++ x ∷ l) → (x == null) ≡ false
  not_null_node t l shape =
      let seen = view t null ps x l shape in ground (arith, seen.is_node.not_low)

  prev_is : (s t : Store) → Evolved q s null (ps ++ x ∷ bs) t → t.prev x ≡ place ps
  prev_is s t e =
      let shape = subst (IsShape q t null) (append_assoc ps (x ∷ bs) e.added) e.shape in
      (view t null ps x _ shape).prev_place

  -- With `prev` known and the node enqueued.
  pub remove_with_prev-TakenOut :
      (new_tail : ℕ) (s : Store) (w : World)
      → HoldsState q new_tail
      → Evolved q s null (ps ++ x ∷ bs) w.store
      → w.store.pending x ≡ none
      → Outcome (TakenOut q ps x bs s) (remove_with_prev q x new_tail false (place ps) w)
  remove_with_prev-TakenOut new_tail s w empty e written =
      mono (take_out laws ps x s bs new_tail w empty (evolved-At s w.store e written))
        (Unlinked-TakenOut s)

  -- With `wait_enqueued` the enqueue of the node itself may still be under way.
  pub remove_with_prev-wait_TakenOut :
      (new_tail : ℕ) (s : Store) (w : World)
      → HoldsState q new_tail
      → Evolved q s null (ps ++ x ∷ bs) w.store
      → Outcome (TakenOut q ps x bs s) (remove_with_prev q x new_tail true (place ps) w)
  unfolding remove_with_prev
  remove_with_prev-wait_TakenOut new_tail s w empty e =
      let shape : IsShape q w.store null (ps ++ x ∷ (bs ++ e.added)) =
        subst (IsShape q w.store null) (append_assoc ps (x ∷ bs) e.added) e.shape in
      let off = not_null_node w.store _ shape in
      bind
        (bind {R = λ _ w'. Evolved q s null (ps ++ x ∷ bs) w'.store × (w'.store.pending x ≡ none)}
          (get_next-Found laws null ps x off w (bs ++ e.added) shape)
          λ n w' (same, written, e').
            let asserted : (n == x) ≡ true = ground arith in
            rw asserted (returns (widen laws null ps x off s bs w.store e w'.store e', written)))
        λ _ w' (e', written). remove_with_prev-TakenOut new_tail s w' empty e' written

  -- `remove` of a node whose enqueue is complete takes it out of the list and marks it, the others keep
  -- their order, an enqueue among them that was complete still is, and the result is true only if
  -- nothing was behind it, false only if something was by then. It returns, or waits for a thread that
  -- has begun an enqueue and not completed it.
  pub remove-TakenOut :
      (new_tail : ℕ) (w : World)
      → HoldsState q new_tail
      → IsShape q w.store null (ps ++ x ∷ bs)
      → w.store.pending x ≡ none
      → Outcome (TakenOut q ps x bs w.store) (remove q x new_tail false w)
  unfolding remove load_prev
  remove-TakenOut new_tail w empty shape written =
      let e = turn-Evolved laws w null _ shape in
      rw (prev_is w.store (turn q w).store e) (
        remove_with_prev-TakenOut new_tail w.store (turn q w) empty e
          (e.settled x (ground (arith, has-append x ps (x ∷ bs))) written))

  -- `remove` with `wait_enqueued`, where the enqueue of the node itself may still be under way, takes it out
  -- of the list and marks it, the others keep their order, an enqueue among them that was complete
  -- still is, and the result is true only if nothing was behind it, false only if something was by
  -- then. It returns, or waits for a thread that has begun an enqueue and not completed it.
  pub remove-wait_TakenOut :
      (new_tail : ℕ) (w : World)
      → HoldsState q new_tail
      → IsShape q w.store null (ps ++ x ∷ bs)
      → Outcome (TakenOut q ps x bs w.store) (remove q x new_tail true w)
  unfolding remove load_prev
  remove-wait_TakenOut new_tail w empty shape =
      let e = turn-Evolved laws w null _ shape in
      rw (prev_is w.store (turn q w).store e)
        (remove_with_prev-wait_TakenOut new_tail w.store (turn q w) empty e)
