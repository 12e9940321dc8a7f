-- ===== src/Queue/Announce.antt =====
-- The loop of `enqueue`, by which a thread publishes its node: what one turn of the others leaves of
-- the node, and that the loop ends with the node published or with the tail refused.
use mathlib.Core.List.{append_assoc}
use aiq.Prelude.{
  ℕ, zero, suc, ◌+◌, ◌<◌, ◌≡◌, refl, ap, fun_ext, ◌∙◌, ◌⊎◌, inl, inr, Bool, true, false, not, ◌||◌,
  Option, none, some, List, [], ◌∷◌, ◌++◌, arith, ◌==◌, length, All, has, Bool-cases,
}
use aiq.QueueState.{QueueState}
use aiq.QueueState.Bijective.{IsBijective}
use aiq.Store.{
  Store, Move, update, publish, link, swap_state, null, head_marker, set_prev, slot, do_publish,
  do_move, do_link, set_slot, interfere, tail_slot,
}
use aiq.Store.Shape.{IsShape, frame}
use aiq.Store.Moves.{Own, publish-IsShape}
use aiq.Store.Own.{Spares, StillOwn, interfere-StillOwn}
use aiq.Cmd.{
  World, pure, ◌>>=◌, ◌>>◌, won, lost, turn, next_fails, later_fails, cas_tail_weak, store_prev,
}
use aiq.Cmd.Outcome.{next-later, later_le, Returns, gives, mono_Returns}
use aiq.Queue.{announce, enqueue_loop}

abbrev pub SparesAll : ℕ → List (List Move) → Type 0
SparesAll x = All (All (Spares x))

module _ {S : Type 0} {q : QueueState S} {P : S → Type 0} (laws : IsBijective q P) (x : ℕ) where
  prev-do_move : (m : Move) (s : Store) → Spares x m → (do_move q m s).prev x ≡ s.prev x
  unfolding do_move do_publish do_link set_slot
  prev-do_move (publish y) s ne = ground arith
  prev-do_move (link y) s ne = ground arith
  prev-do_move (swap_state w) s ne = ground arith

  prev-interfere :
      (ms : List Move) (s : Store) → All (Spares x) ms → (interfere q ms s).prev x ≡ s.prev x
  unfolding interfere
  prev-interfere [] s h = refl
  prev-interfere (m ∷ ms) s h = prev-interfere ms (do_move q m s) h.1 ∙ prev-do_move m s h.0

  -- The node's own `prev` is not read by the shape as long as the node is not in the list.
  set_prev-IsShape :
      (v : ℕ) (s : Store) (xs : List ℕ)
      → IsShape q s null xs
      → has x xs ≡ false
      → IsShape q (set_prev x v s) null xs
  unfolding set_prev slot
  set_prev-IsShape v s xs shape out = record {
    seg =
        frame s null (set_prev x v s) head_marker xs (λ z m. ground arith) (λ z m. refl) shape.seg;
    end = shape.end;
    links = shape.links;
    distinct = shape.distinct;
    last = shape.last;
    real_tail = shape.real_tail;
    hole_within = shape.hole_within;
    hole_written = shape.hole_written;
    owned = shape.owned;
  }

  -- What one turn of the others leaves of the node, and that it uses up a batch or changes nothing.
  pub record Turned (w : World) (xs : List ℕ) (v : World) : Type 0 where
    pub still : StillOwn q x xs v.store
    pub spares : SparesAll x v.schedule
    pub prev_same : v.store.prev x ≡ w.store.prev x
    pub spurious_same : v.spurious ≡ w.spurious
    pub progress :
        (length v.schedule < length w.schedule)
        ⊎ ((v.store.tail ≡ w.store.tail) × (length v.schedule ≡ length w.schedule))

  pub turn-Turned :
      (w : World) (xs : List ℕ)
      → SparesAll x w.schedule
      → IsShape q w.store null xs
      → Own w.store x xs
      → Turned w xs (turn q w)
  unfolding turn interfere
  turn-Turned w xs spares shape own = by_schedule w.schedule spares
    where
      by_schedule :
          (l : List (List Move))
          → SparesAll x l
          → Turned (record w { schedule = l }) xs (turn q (record w { schedule = l }))
      by_schedule [] h = record {
        still = interfere-StillOwn laws x [] w.store xs tt shape own;
        spares = tt;
        prev_same = refl;
        spurious_same = refl;
        progress = inr (refl, refl);
      }
      by_schedule (ms ∷ rest) h = record {
        still = interfere-StillOwn laws x ms w.store xs h.0 shape own;
        spares = h.1;
        prev_same = prev-interfere ms w.store h.0;
        spurious_same = refl;
        progress = inl (omega arith);
      }

  -- What the loop comes to: the node is published and its place known, or the tail was refused and the
  -- node is as before.
  abbrev pub Announced : (ℕ → Bool) → List ℕ → Option ℕ → World → Type 0
  Announced check_tail xs none w =
      (added : List ℕ) × IsShape q w.store null (xs ++ added)
      × Own w.store x (xs ++ added)
      × (w.store.prev x ≡ null)
      × ((t : ℕ) × (check_tail t ≡ false))
  Announced check_tail xs (some p) w =
      (added : List ℕ) × IsShape q w.store null (xs ++ added ++ x ∷ [])
      × (w.store.pending x ≡ some p)
      × SparesAll x w.schedule

  set_prev-Own : (v : ℕ) (s : Store) (xs : List ℕ) → Own s x xs → Own (set_prev x v s) x xs
  unfolding set_prev
  set_prev-Own v s xs own = record {
    is_node = own.is_node;
    out = own.out;
    next_null = own.next_null;
    idle = own.idle;
  }

  prev-set_prev : (v : ℕ) (s : Store) → (set_prev x v s).prev x ≡ v
  unfolding set_prev
  prev-set_prev v s = ground arith

  -- The exchange writes what publishing does, the `prev` being written already.
  announce-do_publish :
      (s : Store) (p : ℕ)
      → s.prev x ≡ p
      → tail_slot q s.tail ≡ p
      → announce q x p s ≡ do_publish q x s
  unfolding announce do_publish
  announce-do_publish s p e place = rw place (
      ap (λ f. record s { prev = f; tail = q.ptr_to_tail x; pending = update s.pending x (some p) })
        (fun_ext λ z. ground arith))

  announced-IsShape :
      (s : Store) (p : ℕ) (xs : List ℕ)
      → IsShape q s null xs
      → Own s x xs
      → s.prev x ≡ p
      → tail_slot q s.tail ≡ p
      → IsShape q (announce q x p s) null (xs ++ x ∷ [])
  announced-IsShape s p xs shape own e place =
      rw (announce-do_publish s p e place) (publish-IsShape laws s null xs shape x own)

  pub widen-Announced :
      (check_tail : ℕ → Bool) (xs ys : List ℕ) (r : Option ℕ) (w : World)
      → Announced check_tail (xs ++ ys) r w
      → Announced check_tail xs r w
  widen-Announced check_tail xs ys none w (added, shape, own, prev, refused) =
      let same = append_assoc xs ys added in
      (ys ++ added, rw (← same) shape, rw (← same) own, prev, refused)
  widen-Announced check_tail xs ys (some p) w (added, shape, written, spares) =
      (ys ++ added, rw (← append_assoc xs ys added) shape, written, spares)

  -- One round, once `check_tail` has accepted the tail.
  module _ (check_tail : ℕ → Bool) (fuel : ℕ) (w : World) (xs : List ℕ) (tail : ℕ)
      (lt : length w.schedule + length w.spurious < suc fuel) (same : w.store.tail ≡ tail)
      (spares : SparesAll x w.schedule) (shape : IsShape q w.store null xs)
      (own : Own w.store x xs) where
    first_turn : Turned w xs (turn q w)
    first_turn = turn-Turned w xs spares shape own

    abbrev place : ℕ
    place = tail_slot q tail

    abbrev prepared : World
    prepared = record (turn q w) { store = set_prev x place (turn q w).store }

    second_turn : Turned prepared (xs ++ first_turn.still.added) (turn q prepared)
    second_turn =
        turn-Turned prepared (xs ++ first_turn.still.added) first_turn.spares
          (set_prev-IsShape place _ _ first_turn.still.shape first_turn.still.own.out)
          (set_prev-Own place _ _ first_turn.still.own)

    abbrev after : World
    after = record (turn q prepared) { spurious = later_fails (turn q prepared).spurious }

    abbrev seen : List ℕ
    seen = xs ++ first_turn.still.added ++ second_turn.still.added

    lost_round :
        (next_fails (turn q prepared).spurious || not (after.store.tail == tail)) ≡ true
        → length after.schedule + length after.spurious < fuel
    unfolding set_prev
    lost_round h = ground (
      arith,
      first_turn.progress,
      second_turn.progress,
      first_turn.spurious_same,
      second_turn.spurious_same,
      same,
      lt,
      next-later (turn q prepared).spurious,
      later_le (turn q prepared).spurious,
    )

    placed : after.store.prev x ≡ place
    unfolding set_prev
    placed = ground (arith, second_turn.prev_same)

    found :
        (next_fails (turn q prepared).spurious || not (after.store.tail == tail)) ≡ false
        → after.store.tail ≡ tail
    found h = ground arith

    pending-announce : (s : Store) → (announce q x place s).pending x ≡ some place
    unfolding announce
    pending-announce s = ground arith

    exchange-Announced :
        ((v : World) (ys : List ℕ)
          → length v.schedule + length v.spurious < fuel
          → SparesAll x v.schedule
          → IsShape q v.store null ys
          → Own v.store x ys
          → Returns (Announced check_tail ys) (enqueue_loop q check_tail x fuel v.store.tail v))
        → Returns (Announced check_tail xs) (
            (do
              store_prev q x place
              r ← cas_tail_weak q tail (announce q x place)
              elim r [
                | won ↦ pure (some place)
                | lost found ↦ enqueue_loop q check_tail x fuel found
              ])
              w)
    unfolding store_prev cas_tail_weak
    exchange-Announced again =
        elim (Bool-cases
          (next_fails (turn q prepared).spurious || not (after.store.tail == tail))) [
            | inl h ↦ rw h (
                mono_Returns
                  (again after seen (lost_round h) second_turn.spares second_turn.still.shape
                    second_turn.still.own)
                  λ r v h'. widen-Announced check_tail xs first_turn.still.added r v (
                    widen-Announced check_tail (xs ++ first_turn.still.added)
                      second_turn.still.added r v h'))
            | inr h ↦ rw h (
                gives (
                  first_turn.still.added ++ second_turn.still.added,
                  rw (← append_assoc xs first_turn.still.added second_turn.still.added) (
                      announced-IsShape after.store place seen second_turn.still.shape
                        second_turn.still.own placed (ap (tail_slot q) (found h))),
                  pending-announce after.store,
                  second_turn.spares,
                ))
          ]

  -- The loop ends within its fuel: a round that does not publish uses up a batch or a failure.
  pub loop-Announced :
      (check_tail : ℕ → Bool) (fuel : ℕ) (w : World) (xs : List ℕ) (tail : ℕ)
      → length w.schedule + length w.spurious < fuel
      → w.store.tail ≡ tail
      → SparesAll x w.schedule
      → IsShape q w.store null xs
      → Own w.store x xs
      → Returns (Announced check_tail xs) (enqueue_loop q check_tail x fuel tail w)
  unfolding enqueue_loop store_prev
  loop-Announced check_tail zero w xs tail lt same spares shape own = absurd (omega arith)
  loop-Announced check_tail (suc fuel) w xs tail lt same spares shape own =
      let a = turn-Turned w xs spares shape own in
      elim (Bool-cases (check_tail tail)) [
        | inl accepted ↦ rw accepted (
            exchange-Announced check_tail fuel w xs tail lt same spares shape own
              λ v ys less h s o. loop-Announced check_tail fuel v ys v.store.tail less refl h s o)
        | inr refused ↦ rw refused (
            gives (
              a.still.added,
              set_prev-IsShape null _ _ a.still.shape a.still.own.out,
              set_prev-Own null _ _ a.still.own,
              prev-set_prev null (turn q w).store,
              (tail, refused),
            ))
      ]
