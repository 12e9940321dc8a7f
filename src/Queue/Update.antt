-- ===== src/Queue/Update.antt =====
-- `fetch_update_state`: it returns whatever the others do, and what its result tells of the queue.
use mathlib.Core.List.{append-nil, append_assoc}
use aiq.Prelude.{
  ℕ, zero, suc, ◌+◌, ◌<◌, ◌≡◌, refl, sym, ap, subst, ◌∙◌, ◌⊎◌, inl, inr, not, ◌||◌, Option, none,
  some, List, [], ◌∷◌, ◌++◌, arith, ◌==◌, length, Bool-cases, Option-cases,
}
use aiq.QueueState.{QueueState, StateOrPtr, state, ptr}
use aiq.QueueState.Bijective.{IsBijective}
use aiq.Store.{Move, null, interfere}
use aiq.Store.Shape.{IsShape}
use aiq.Store.Moves.{swap_state-IsShape}
use aiq.Cmd.{World, turn, rounds, next_fails, later_fails, cas_tail_weak, load_tail}
use aiq.Cmd.Outcome.{next-later, later_le, Returns, gives, mono_Returns}
use aiq.Queue.Waiting.{turn-Evolved}
use aiq.Queue.States.{Updated, updated, refused, fetch_update_loop, fetch_update_state}

module _ {S : Type 0} {q : QueueState S} {P : S → Type 0} (laws : IsBijective q P)
    (f : S → Option S) (f_keeps : (st new : S) → f st ≡ some new → P new) where
  -- If the state was updated, the tail now holds the new one; without a state there are nodes; and a
  -- state is refused only by `f`.
  abbrev pub Settles : List ℕ → Updated S → World → Type 0
  Settles xs (updated st) w =
      (added : List ℕ) × IsShape q w.store null (xs ++ added)
      × ((new : S) × (f st ≡ some new) × (q.tail_to_enum w.store.tail ≡ state new))
  Settles xs (refused none) w =
      (added : List ℕ) × IsShape q w.store null (xs ++ added)
      × ((p : ℕ) × (q.tail_to_enum w.store.tail ≡ ptr p))
  Settles xs (refused (some st)) w =
      (added : List ℕ) × IsShape q w.store null (xs ++ added)
      × (q.tail_to_enum w.store.tail ≡ state st)
      × (f st ≡ none)

  progress :
      (w : World)
      → ((turn q w).spurious ≡ w.spurious)
        × ((length (turn q w).schedule < length w.schedule)
            ⊎ (((turn q w).store.tail ≡ w.store.tail)
                × (length (turn q w).schedule ≡ length w.schedule)))
  unfolding turn interfere
  progress w = by_schedule w.schedule
    where
      by_schedule :
          (l : List (List Move))
          → ((turn q (record w { schedule = l })).spurious ≡ w.spurious)
            × ((length (turn q (record w { schedule = l })).schedule < length l)
                ⊎ (((turn q (record w { schedule = l })).store.tail ≡ w.store.tail)
                    × (length (turn q (record w { schedule = l })).schedule ≡ length l)))
      by_schedule [] = (refl, inr (refl, refl))
      by_schedule (ms ∷ rest) = (refl, inl (omega arith))

  widen-Settles :
      (xs ys : List ℕ) (r : Updated S) (w : World) → Settles (xs ++ ys) r w → Settles xs r w
  widen-Settles xs ys (updated st) w (added, shape, rest) =
      (ys ++ added, rw (← append_assoc xs ys added) shape, rest)
  widen-Settles xs ys (refused none) w (added, shape, rest) =
      (ys ++ added, rw (← append_assoc xs ys added) shape, rest)
  widen-Settles xs ys (refused (some st)) w (added, shape, same, rest) =
      (ys ++ added, rw (← append_assoc xs ys added) shape, same, rest)

  StateOrPtr-cases : (o : StateOrPtr S) → ((st : S) × (o ≡ state st)) ⊎ ((p : ℕ) × (o ≡ ptr p))
  StateOrPtr-cases (state st) = inl (st, refl)
  StateOrPtr-cases (ptr p) = inr (p, refl)

  loop-Settles :
      (fuel : ℕ) (w : World) (xs : List ℕ) (tail : ℕ)
      → length w.schedule + length w.spurious < fuel
      → w.store.tail ≡ tail
      → IsShape q w.store null xs
      → Returns (Settles xs) (fetch_update_loop q f fuel tail w)
  unfolding fetch_update_loop cas_tail_weak
  loop-Settles zero w xs tail lt same shape = absurd (omega arith)
  loop-Settles (suc fuel) w xs tail lt same shape = elim (StateOrPtr-cases (q.tail_to_enum tail)) [
    | inr (p, e) ↦
        rw (e, fetch_update_loop)
          (gives (
            [],
            subst (IsShape q w.store null) (sym (append-nil xs)) shape,
            (p, ap q.tail_to_enum same ∙ e),
          ))
    | inl (st, e) ↦ elim (Option-cases (f st)) [
      | inl none_new ↦
          rw (e, fetch_update_loop)
            (rw none_new (
              gives (
                [],
                subst (IsShape q w.store null) (sym (append-nil xs)) shape,
                ap q.tail_to_enum same ∙ e,
                none_new,
              )))
      | inr (new, some_new) ↦
          let (word, encoded, decoded) = laws.decode_state new (f_keeps st new some_new) in
          let v = turn q w in
          let e1 = turn-Evolved laws w null xs shape in
          let step = progress w in
          elim (Bool-cases (next_fails v.spurious || not (v.store.tail == tail))) [
            | inl h ↦
                rw (e, fetch_update_loop)
                  (rw some_new (
                    rw encoded (
                      rw h (
                        mono_Returns
                          (loop-Settles fuel (record v { spurious = later_fails v.spurious })
                            (xs ++ e1.added) v.store.tail
                            (ground (arith, step, next-later v.spurious, later_le v.spurious)) refl
                            e1.shape)
                          (widen-Settles xs e1.added)))))
            | inr h ↦
                rw (e, fetch_update_loop)
                  (rw some_new (
                    rw encoded (
                      rw h (
                        gives (
                          e1.added,
                          swap_state-IsShape laws v.store null (xs ++ e1.added) e1.shape word
                              (ground (arith, e, decoded, h)) (λ p k. ground (arith, decoded, k)),
                          (new, some_new, decoded),
                        )))))
          ]
    ]
  ]

  -- `fetch_update_state`, with a function that gives states the tail can hold, always returns, however
  -- often the others change the state or the weak exchange fails. `Ok` tells that the new state was stored in an empty queue, `Err` that there are nodes, or
  -- that `f` refuses the state.
  pub fetch_update_state-Settles :
      (w : World) (xs : List ℕ)
      → IsShape q w.store null xs
      → Returns (Settles xs) (fetch_update_state q f w)
  unfolding fetch_update_state load_tail rounds
  fetch_update_state-Settles w xs shape =
      let e = turn-Evolved laws w null xs shape in
      mono_Returns
        (loop-Settles (rounds w) (turn q w) (xs ++ e.added) (turn q w).store.tail
          (ground (arith, progress w)) refl e.shape)
        (widen-Settles xs e.added)
