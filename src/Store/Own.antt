-- ===== src/Store/Own.antt =====
-- A node that one thread is about to enqueue: the moves of others leave it alone, and they leave
-- alone the write that the thread has still to make.
use mathlib.Core.List.{append-nil, append_assoc}
use aiq.Prelude.{
  ℕ, ◌≡◌, refl, ap, ◌∙◌, ◌≢◌, inl, inr, some, List, [], ◌∷◌, ◌++◌, arith, All, has, has-append,
  has-last_or, Bool-cases, Option-cases, ◌&&◌,
}
use aiq.QueueState.{QueueState}
use aiq.QueueState.Bijective.{IsBijective}
use aiq.Store.{
  Store, Move, publish, link, swap_state, null, set_slot, do_publish, do_link, do_move, interfere,
  is_fresh, holds_state, head_marker,
}
use aiq.Store.Shape.{IsShape}
use aiq.Store.Moves.{
  Own, is_fresh-Fresh, Fresh-Own, half_done, publish-IsShape, link-IsShape, swap_state-IsShape,
}

-- The move is not one for the node `x`.
abbrev pub Spares : ℕ → Move → Type 0
Spares x (publish y) = y ≢ x
Spares x (link y) = y ≢ x
Spares x (swap_state w) = Unit

pub record StillOwn {S : Type 0} (q : QueueState S) (x : ℕ) (xs : List ℕ) (t : Store) : Type 0 where
  pub added : List ℕ
  pub shape : IsShape q t null (xs ++ added)
  pub own : Own t x (xs ++ added)

module _ {S : Type 0} {q : QueueState S} {P : S → Type 0} (laws : IsBijective q P) (x : ℕ) where
  pending-do_move : (m : Move) (s : Store) → Spares x m → (do_move q m s).pending x ≡ s.pending x
  unfolding do_move do_publish do_link set_slot
  pending-do_move (publish y) s ne = ground arith
  pending-do_move (link y) s ne = ground arith
  pending-do_move (swap_state w) s ne = ground arith

  pub pending-interfere :
      (ms : List Move) (s : Store) → All (Spares x) ms → (interfere q ms s).pending x ≡ s.pending x
  unfolding interfere
  pending-interfere [] s h = refl
  pending-interfere (m ∷ ms) s h =
      pending-interfere ms (do_move q m s) h.1 ∙ pending-do_move m s h.0

  same-StillOwn : (t : Store) (xs : List ℕ) → IsShape q t null xs → Own t x xs → StillOwn q x xs t
  same-StillOwn t xs shape own = record {
    added = [];
    shape = rw append-nil shape;
    own = rw append-nil own;
  }

  publish-Own :
      (y : ℕ) (s : Store) (xs : List ℕ)
      → y ≢ x
      → Own s x xs
      → Own (do_publish q y s) x (xs ++ y ∷ [])
  unfolding do_publish
  publish-Own y s xs ne own = record {
    is_node = own.is_node;
    out = ground (arith, has-append x xs (y ∷ []), own.out);
    next_null = own.next_null;
    idle = ground (arith, own.idle);
  }

  link-Own :
      (y p : ℕ) (s : Store) (xs : List ℕ)
      → y ≢ x
      → IsShape q s null xs
      → s.pending y ≡ some p
      → Own s x xs
      → Own (do_link y p s) x xs
  unfolding do_link set_slot
  link-Own y p s xs ne shape e own =
      let half = half_done laws s null xs shape y p e in
      record {
        is_node = own.is_node;
        out = own.out;
        next_null = ground (
          arith,
          own.next_null,
          half.place,
          has-last_or head_marker half.before,
          own.out,
          ap (has x) half.around,
          has-append x half.before (y ∷ half.after),
          own.is_node.not_low,
        );
        idle = ground (arith, own.idle);
      }

  do_move-StillOwn :
      (m : Move) (s : Store) (xs : List ℕ)
      → Spares x m
      → IsShape q s null xs
      → Own s x xs
      → StillOwn q x xs (do_move q m s)
  unfolding do_move
  do_move-StillOwn (publish y) s xs ne shape own = elim (Bool-cases (is_fresh s y)) [
    | inl e ↦
        let fresh = Fresh-Own laws s null xs shape y (is_fresh-Fresh s y e) in
        rw e (record {
          added = y ∷ [];
          shape = publish-IsShape laws s null xs shape y fresh;
          own = publish-Own y s xs ne own;
        })
    | inr e ↦ rw e (same-StillOwn s xs shape own)
  ]
  do_move-StillOwn (link y) s xs ne shape own = elim (Option-cases (s.pending y)) [
    | inl e ↦ rw (e, do_move) (same-StillOwn s xs shape own)
    | inr (p, e) ↦
        rw (e, do_move)
          (same-StillOwn (do_link y p s) xs (link-IsShape laws s null xs shape y p e)
            (link-Own y p s xs ne shape e own))
  ]
  do_move-StillOwn (swap_state w) s xs ne shape own =
      elim (Bool-cases (holds_state q s.tail && holds_state q w)) [
        | inl e ↦ rw e (
            same-StillOwn (record s { tail = w }) xs
              (swap_state-IsShape laws s null xs shape w (ground arith) (λ p k. ground arith))
              own_same)
        | inr e ↦ rw e (same-StillOwn s xs shape own)
      ]
    where
      own_same : Own (record s { tail = w }) x xs
      own_same = record {
        is_node = own.is_node;
        out = own.out;
        next_null = own.next_null;
        idle = own.idle;
      }

  pub interfere-StillOwn :
      (ms : List Move) (s : Store) (xs : List ℕ)
      → All (Spares x) ms
      → IsShape q s null xs
      → Own s x xs
      → StillOwn q x xs (interfere q ms s)
  unfolding interfere
  interfere-StillOwn [] s xs h shape own = same-StillOwn s xs shape own
  interfere-StillOwn (m ∷ ms) s xs h shape own =
      let a = do_move-StillOwn m s xs h.0 shape own in
      let b = interfere-StillOwn ms (do_move q m s) (xs ++ a.added) h.1 a.shape a.own in
      record {
        added = a.added ++ b.added;
        shape = rw (← append_assoc xs a.added b.added) b.shape;
        own = rw (← append_assoc xs a.added b.added) b.own;
      }
