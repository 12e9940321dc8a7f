-- ===== src/Node/Cycle.antt =====
-- A node that has been taken out can be reset and used again, and the state that is stored with the
-- removal of a node is one that the tail can hold.
use aiq.Prelude.{
  ℕ, ◌≡◌, ◌≢◌, refl, sym, ap, ◌∙◌, subst, false, true, Bool, none, List, [], ◌∷◌, ◌++◌, arith, has,
  has-firsts, has-last_or, ◌==◌,
}
use aiq.QueueState.{QueueState, IsLink, state}
use aiq.QueueState.Bijective.{IsBijective}
use aiq.Store.{Move, Store, update, null, head_marker, slot, set_prev, set_slot}
use aiq.Store.Shape.{IsShape, frame}
use aiq.Store.Moves.{Own}
use aiq.Cmd.{World, turn, ok, load_prev, load_slot, store_slot, store_prev, cas_tail}
use aiq.Queue.{remove, remove_with_prev, detach, finish}
use aiq.Queue.Moments.{last-tail}
use aiq.Store.View.{view}
use aiq.Cmd.Outcome.{Outcome, Returns, gives, mono_at}
use aiq.Queue.Contract.{TakenOut}
use aiq.Queue.Waiting.{turn-Evolved}
use aiq.Queue.Remove.{remove-TakenOut}
use aiq.Node.{reset, dequeue_try_set_queue_state}

module _ {S : Type 0} {q : QueueState S} {P : S → Type 0} (laws : IsBijective q P) (x : ℕ) where
  abbrev cleared : Store → Store
  cleared s = record s { prev = update s.prev x null; next = update s.next x null }

  reset_writes : (s : Store) → IsLink x → set_slot x null (set_prev x null s) ≡ cleared s
  unfolding set_slot set_prev
  reset_writes s link =
      let off : (x == head_marker) ≡ false = ground (arith, link.not_low) in rw off refl

  cleared-IsShape :
      (s : Store) (xs : List ℕ)
      → IsShape q s null xs
      → has x xs ≡ false
      → IsLink x
      → IsShape q (cleared s) null xs
  unfolding slot
  cleared-IsShape s xs shape out link = record {
    seg =
        frame s null (cleared s) head_marker xs (λ z m. ground arith)
          (λ z m. ground (arith, link.not_low, has-firsts z head_marker xs)) shape.seg;
    end = ground (arith, shape.end, link.not_low, has-last_or head_marker xs);
    links = shape.links;
    distinct = shape.distinct;
    last = shape.last;
    real_tail = shape.real_tail;
    hole_within = shape.hole_within;
    hole_written = shape.hole_written;
    owned = shape.owned;
  }

  -- Resetting a node that is out of the queue gives its owner a node that can be enqueued again, and
  -- the queue does not notice.
  pub reset-Own :
      (w : World) (xs : List ℕ)
      → IsShape q w.store null xs
      → has x xs ≡ false
      → w.store.prev x ≢ 0
      → IsLink x
      → Returns
          (λ _ v.
            (added : List ℕ) × IsShape q v.store null (xs ++ added)
            × Own v.store x (xs ++ added)
            × (v.store.prev x ≡ null))
          (reset q x w)
  unfolding reset
  reset-Own w xs shape out live link =
      let e = turn-Evolved laws w null xs shape in
      let (away, same) = e.outside x out live in
      rw (reset_writes (turn q w).store link) (
        gives (
          e.added,
          cleared-IsShape (turn q w).store (xs ++ e.added) e.shape away link,
          record {
            is_node = link;
            out = away;
            next_null = ground arith;
            idle = e.shape.owned x away;
          },
          ground arith,
        ))

  -- Where nothing moves and the node is alone, its removal gives true and leaves the state in the tail.
  remove-alone :
      (new_tail : ℕ) (s : Store) (l : List Bool)
      → IsShape q s null (x ∷ [])
      → (w' : World) × (remove q x new_tail false
            (record { store = s; schedule = []; spurious = l })
          ≡ ok true w')
        × (w'.store.tail ≡ new_tail)
  unfolding remove remove_with_prev detach finish load_prev load_slot store_slot store_prev cas_tail
      turn set_slot set_prev slot
  remove-alone new_tail s l shape =
      let seen = view s null [] x [] shape in
      let last = (last-tail laws [] x s [] null s [] shape).1 refl in
      let off : (x == head_marker) ≡ false = ground (arith, seen.is_node.not_low) in
      let w' : World = record {
        store = record s { tail = new_tail; head = null; prev = update s.prev x 1 };
        schedule = [];
        spurious = l;
      } in
      (w', ground (arith, seen.prev_place, shape.end, last, off), refl)

  -- What the removal leaves of the state: where the node is the only one and no other thread moves, the
  -- result is true and the tail holds the state.
  abbrev pub Stored : S → (ps bs : List ℕ) → List (List Move) → Bool → World → Type 0
  Stored st [] [] [] last w = (last ≡ true) × (q.tail_to_enum w.store.tail ≡ state st)
  Stored st [] [] (ms ∷ rest) last w = Unit
  Stored st [] (y ∷ bs) schedule last w = Unit
  Stored st (y ∷ ps) bs schedule last w = Unit

  remove-Stored :
      (word : ℕ) (st : S) (ps bs : List ℕ) (schedule : List (List Move)) (w w' : World)
      (last : Bool)
      → q.tail_to_enum word ≡ state st
      → IsShape q w.store null (ps ++ x ∷ bs)
      → w.schedule ≡ schedule
      → remove q x word false w ≡ ok last w'
      → Stored st ps bs schedule last w'
  remove-Stored word st [] [] [] w w' last decoded shape quiet run =
      let (r, runs, holds) = remove-alone word w.store w.spurious shape in
      let same : ok true r ≡ ok last w' =
        sym runs
        ∙ ap (λ (l : List (List Move)). remove q x word false (record w { schedule = l }))
            (sym quiet)
        ∙ run in
      let left : r ≡ w' = cc same in
      (
        cc same,
        subst (λ (v : World). q.tail_to_enum v.store.tail ≡ state st) left
            (ap q.tail_to_enum holds ∙ decoded),
      )
  remove-Stored word st [] [] (ms ∷ rest) w w' last decoded shape quiet run = tt
  remove-Stored word st [] (y ∷ bs) schedule w w' last decoded shape quiet run = tt
  remove-Stored word st (y ∷ ps) bs schedule w w' last decoded shape quiet run = tt

  -- `dequeue_try_set_queue_state` with a state that the tail can hold never panics, and removes the node
  -- whatever its result is. Where the node is the only one and no other thread moves, it returns true
  -- and the tail holds the state.
  pub dequeue_try_set_queue_state-TakenOut :
      (st : S) (ps bs : List ℕ) (w : World)
      → P st
      → IsShape q w.store null (ps ++ x ∷ bs)
      → w.store.pending x ≡ none
      → Outcome
          (λ last w'. TakenOut q ps x bs w.store last w' × Stored st ps bs w.schedule last w')
          (dequeue_try_set_queue_state q x st w)
  unfolding dequeue_try_set_queue_state
  dequeue_try_set_queue_state-TakenOut st ps bs w may shape written =
      let (word, encoded, decoded) = laws.decode_state st may in
      rw (encoded, dequeue_try_set_queue_state)
        (mono_at (remove-TakenOut laws ps x bs word w (st, decoded) shape written)
          λ last w' run out.
            (out, remove-Stored word st ps bs w.schedule w w' last decoded shape refl run))
