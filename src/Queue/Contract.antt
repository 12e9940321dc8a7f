-- ===== src/Queue/Contract.antt =====
-- What the removals of `LockedQueue` promise.
use aiq.Prelude.{ℕ, ◌≡◌, ◌≢◌, Bool, true, false, Option, none, some, List, [], ◌∷◌, ◌++◌, has}
use aiq.QueueState.{QueueState}
use aiq.Store.{Store, dequeued, raw_state, null}
use aiq.Store.Shape.{IsShape}
use aiq.Store.Interference.{Evolved}
use aiq.Cmd.{World}

-- `x` has been taken from between `ps` and `bs`, while others appended `added`. The result tells
-- whether it was the last node at that moment, and every enqueue that was complete still is.
pub record TakenOut {S : Type 0} (q : QueueState S) (ps : List ℕ) (x : ℕ) (bs : List ℕ)
    (start : Store) (last : Bool) (w : World) : Type 0 where
  pub added : List ℕ
  pub shape : IsShape q w.store null (ps ++ (bs ++ added))
  pub out : has x (ps ++ (bs ++ added)) ≡ false
  pub marked : raw_state (w.store.prev x) ≡ dequeued
  pub was_last : last ≡ true → bs ≡ []
  pub was_not_last : last ≡ false → bs ++ added ≢ []
  pub settled :
      (z : ℕ) → has z (ps ++ bs) ≡ true → start.pending z ≡ none → w.store.pending z ≡ none

module _ {S : Type 0} (q : QueueState S) where
  -- What `dequeue` gives: nothing, if the list was empty, or its first node, enqueued and linked.
  abbrev pub Dequeued : Store → List ℕ → Option ℕ → World → Type 0
  Dequeued s xs none w = (xs ≡ []) × Evolved q s null xs w.store
  Dequeued s xs (some n) w =
      (rest : List ℕ) × (e : Evolved q s null xs w.store) × (xs ++ e.added ≡ n ∷ rest)
      × (w.store.pending n ≡ none)

  -- What `pop` gives: nothing, if the list was empty, or the last node at that moment.
  abbrev pub Popped : Store → List ℕ → Option ℕ → World → Type 0
  Popped s xs none w = (xs ≡ []) × Evolved q s null xs w.store
  Popped s xs (some n) w =
      (front : List ℕ) × (e : Evolved q s null xs w.store) × (xs ++ e.added ≡ front ++ n ∷ [])
