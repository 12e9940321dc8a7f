-- ===== src/Queue/Waiting.antt =====
-- `get_next`: it returns the node that follows at a place, however the enqueues of others proceed,
-- and waits only for the thread that has yet to write the place.
use mathlib.Core.List.{append_assoc}
use aiq.Prelude.{
  ℕ, ◌≡◌, refl, ◌⊎◌, inl, inr, false, none, some, List, [], ◌∷◌, ◌++◌, arith, ◌==◌, Option-cases,
}
use aiq.QueueState.{QueueState}
use aiq.QueueState.Bijective.{IsBijective}
use aiq.Store.{Store, Move, null, slot, interfere}
use aiq.Store.Shape.{IsShape}
use aiq.Store.View.{view}
use aiq.Store.Removal.{place}
use aiq.Store.Interference.{Evolved, Evolved-refl, Evolved-trans, interfere-Evolved}
use aiq.Cmd.{World, turn, load_slot}
use aiq.Cmd.Outcome.{Outcome, returns, waits, mono}
use aiq.Queue.{wait_loop, wait_for_next, get_next}

module _ {S : Type 0} {q : QueueState S} {P : S → Type 0} (laws : IsBijective q P) where
  pub turn-Evolved :
      (w : World) (hole : ℕ) (xs : List ℕ)
      → IsShape q w.store hole xs
      → Evolved q w.store hole xs (turn q w).store
  unfolding turn
  turn-Evolved w hole xs shape = by_schedule w.schedule
    where
      by_schedule :
          (l : List (List Move))
          → Evolved q w.store hole xs (turn q (record w { schedule = l })).store
      by_schedule [] = Evolved-refl w.store hole xs shape
      by_schedule (ms ∷ rest) = interfere-Evolved laws ms w.store hole xs shape

  module _ (hole : ℕ) (ps : List ℕ) (x : ℕ) (off : (x == hole) ≡ false) where
    -- The place of `x` holds `x`, or `x` is still to be linked.
    pub slot_at :
        (s : Store) (bs : List ℕ)
        → IsShape q s hole (ps ++ x ∷ bs)
        → ((slot s (place ps) ≡ x) × (s.pending x ≡ none) × ((slot s (place ps) == null) ≡ false))
          ⊎ ((slot s (place ps) ≡ null) × (s.pending x ≡ some (place ps)))
    slot_at s bs shape =
        let seen = view s hole ps x bs shape in
        elim (Option-cases (s.pending x)) [
          | inl e ↦ inl (ground arith)
          | inr (r, e) ↦ inr (ground arith)
        ]

    pub regroup :
        (s : Store) (bs : List ℕ) (t : Store) (a : Evolved q s hole (ps ++ x ∷ bs) t)
        → IsShape q t hole (ps ++ x ∷ (bs ++ a.added))
    regroup s bs t a = rw append_assoc at a.shape

    pub widen :
        (s : Store) (bs : List ℕ) (t : Store) (a : Evolved q s hole (ps ++ x ∷ bs) t) (u : Store)
        → Evolved q t hole (ps ++ x ∷ (bs ++ a.added)) u
        → Evolved q s hole (ps ++ x ∷ bs) u
    widen s bs t a u b =
        Evolved-trans s hole (ps ++ x ∷ bs) a (rw (append_assoc ps (x ∷ bs) a.added) b)

    abbrev pub Found : Store → List ℕ → ℕ → World → Type 0
    Found s bs n w = (n ≡ x) × (w.store.pending x ≡ none) × Evolved q s hole (ps ++ x ∷ bs) w.store

    wait_loop-Found :
        (w : World) (schedule : List (List Move)) (s : Store) (bs : List ℕ)
        → IsShape q s hole (ps ++ x ∷ bs)
        → Outcome (Found s bs) (wait_loop q (place ps) w schedule s)
    unfolding wait_loop
    wait_loop-Found w [] s bs shape = elim (slot_at s bs shape) [
      | inl (e, done, ne) ↦ rw ne (returns (e, done, Evolved-refl s hole _ shape))
      | inr (e, half) ↦ rw e (waits x (place ps) half refl)
    ]
    wait_loop-Found w (ms ∷ rest) s bs shape =
        let a = interfere-Evolved laws ms s hole _ shape in
        let t = interfere q ms s in
        let shape' = regroup s bs t a in
        let rec = wait_loop-Found w rest t (bs ++ a.added) shape' in
        elim (slot_at t (bs ++ a.added) shape') [
          | inl (e, done, ne) ↦ rw ne (returns (e, done, a))
          | inr (e, half) ↦
              rw e (mono rec λ n w' (e', done, b). (e', done, widen s bs t a w'.store b))
        ]

    -- `get_next` returns the node that follows at its place, or waits for the thread that enqueues it.
    pub get_next-Found :
        (w : World) (bs : List ℕ)
        → IsShape q w.store hole (ps ++ x ∷ bs)
        → Outcome (Found w.store bs) (get_next q (place ps) w)
    unfolding get_next load_slot wait_for_next
    get_next-Found w bs shape =
        let a = turn-Evolved w hole _ shape in
        let t = turn q w in
        let shape' = regroup w.store bs t.store a in
        elim (slot_at t.store (bs ++ a.added) shape') [
          | inl (e, done, ne) ↦ rw ne (returns (e, done, a))
          | inr (e, half) ↦ rw e (
              mono (wait_loop-Found t t.schedule t.store (bs ++ a.added) shape')
                λ n w' (e', done, b). (e', done, widen w.store bs t.store a w'.store b))
        ]
