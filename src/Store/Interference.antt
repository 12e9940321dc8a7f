-- ===== src/Store/Interference.antt =====
-- What the other threads do keeps the shape, and only adds nodes at the end.
use aiq.Prelude.{
  ℕ, ◌≡◌, refl, sym, ◌∙◌, ◌≢◌, inl, inr, true, false, none, List, [], ◌∷◌, ◌++◌, arith, ◌&&◌, has,
  Bool-cases, Option-cases, has-append, has-append_left,
}
use mathlib.Core.List.{append-nil, append_assoc}
use aiq.QueueState.{QueueState}
use aiq.QueueState.Bijective.{IsBijective}
use aiq.Store.{
  Store, set_slot, is_fresh, do_publish, do_link, do_move, interfere, Move, publish, link,
  swap_state, holds_state,
}
use aiq.Store.Shape.{IsShape}
use aiq.Store.Moves.{is_fresh-Fresh, Fresh-Own, publish-IsShape, link-IsShape, swap_state-IsShape}

-- The list after the moves of others: nodes were added at the end, and the enqueues that were
-- complete still are.
pub record Evolved {S : Type 0} (q : QueueState S) (s : Store) (hole : ℕ) (xs : List ℕ) (t : Store)
    : Type 0 where
  pub added : List ℕ
  pub shape : IsShape q t hole (xs ++ added)
  pub settled : (z : ℕ) → has z xs ≡ true → s.pending z ≡ none → t.pending z ≡ none
  pub outside :
      (z : ℕ)
      → has z xs ≡ false
      → s.prev z ≢ 0
      → (has z (xs ++ added) ≡ false) × (t.prev z ≡ s.prev z)

unfoldable pub Evolved-refl :
    {S : Type 0} {q : QueueState S} (s : Store) (hole : ℕ) (xs : List ℕ)
    → IsShape q s hole xs
    → Evolved q s hole xs s
Evolved-refl s hole xs shape = record {
  added = [];
  shape = rw append-nil shape;
  settled = λ z m w. w;
  outside = λ z o ne. (rw append-nil o, refl);
}

unfoldable pub Evolved-trans :
    {S : Type 0} {q : QueueState S} (s : Store) (hole : ℕ) (xs : List ℕ) {t u : Store}
    (a : Evolved q s hole xs t)
    → Evolved q t hole (xs ++ a.added) u
    → Evolved q s hole xs u
Evolved-trans s hole xs a b = record {
  added = a.added ++ b.added;
  shape = rw (← append_assoc xs a.added b.added) b.shape;
  settled = λ z m w. b.settled z (has-append_left z xs a.added m) (a.settled z m w);
  outside = λ z o ne.
      let (o', same) = a.outside z o ne in
      let (o'', same') = b.outside z o' (λ z0. ne (sym same ∙ z0)) in
      (rw (← append_assoc xs a.added b.added) o'', same' ∙ same);
}

module _ {S : Type 0} {q : QueueState S} {P : S → Type 0} (laws : IsBijective q P) where
  pub do_move-Evolved :
      (m : Move) (s : Store) (hole : ℕ) (xs : List ℕ)
      → IsShape q s hole xs
      → Evolved q s hole xs (do_move q m s)
  unfolding do_move do_publish do_link set_slot
  do_move-Evolved (publish y) s hole xs shape = elim (Bool-cases (is_fresh s y)) [
    | inl e ↦
        let f = is_fresh-Fresh s y e in
        let f0 = Fresh-Own laws s hole xs shape y f in
        rw e (record {
          added = y ∷ [];
          shape = publish-IsShape laws s hole xs shape y f0;
          settled = λ z m w. ground (arith, f0.out);
          outside =
              λ z o ne. (ground (arith, has-append z xs (y ∷ []), f.prev), ground (arith, f.prev));
        })
    | inr e ↦ rw e (Evolved-refl s hole xs shape)
  ]
  do_move-Evolved (link y) s hole xs shape = elim (Option-cases (s.pending y)) [
    | inl e ↦ rw (e, do_move) (Evolved-refl s hole xs shape)
    | inr (p, e) ↦
        rw (e, do_move)
          (record {
            added = [];
            shape = rw append-nil (link-IsShape laws s hole xs shape y p e);
            settled = λ z m w. ground arith;
            outside = λ z o ne. (rw append-nil o, ground arith);
          })
  ]
  do_move-Evolved (swap_state w) s hole xs shape =
      elim (Bool-cases (holds_state q s.tail && holds_state q w)) [
        | inl e ↦ rw e (record {
          added = [];
          shape =
              rw append-nil
                (swap_state-IsShape laws s hole xs shape w (ground arith) (λ p k. ground arith));
          settled = λ z m w. w;
          outside = λ z o ne. (rw append-nil o, refl);
        })
        | inr e ↦ rw e (Evolved-refl s hole xs shape)
      ]

  -- Whatever moves the enqueuing threads make, the queue keeps its shape, nodes are only appended, and
  -- an enqueue that was complete stays complete.
  pub interfere-Evolved :
      (ms : List Move) (s : Store) (hole : ℕ) (xs : List ℕ)
      → IsShape q s hole xs
      → Evolved q s hole xs (interfere q ms s)
  unfolding interfere
  interfere-Evolved [] s hole xs shape = Evolved-refl s hole xs shape
  interfere-Evolved (m ∷ ms) s hole xs shape =
      let a = do_move-Evolved m s hole xs shape in
      Evolved-trans s hole xs a (interfere-Evolved ms (do_move q m s) hole (xs ++ a.added) a.shape)
