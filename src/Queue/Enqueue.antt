-- ===== src/Queue/Enqueue.antt =====
-- `enqueue` as a whole, for the thread that owns the node, while all others enqueue nodes of theirs.
use aiq.Prelude.{
  ℕ, ◌≡◌, refl, subst, ◌∙◌, Bool, true, false, Option, none, some, List, [], ◌∷◌, ◌++◌, arith,
}
use mathlib.Core.List.{append_assoc}
use aiq.QueueState.{QueueState}
use aiq.QueueState.Bijective.{IsBijective}
use aiq.Store.{Store, Move, null, do_link}
use aiq.Store.Shape.{IsShape}
use aiq.Store.Moves.{Own, link-IsShape}
use aiq.Store.Own.{pending-interfere}
use aiq.Cmd.{World, turn, rounds, load_tail}
use aiq.Cmd.Outcome.{Returns, gives, follow}
use aiq.Queue.{link_node, enqueue}
use aiq.Queue.Announce.{SparesAll, turn-Turned, Announced, loop-Announced, widen-Announced}
use aiq.Queue.Waiting.{turn-Evolved}

module _ {S : Type 0} {q : QueueState S} {P : S → Type 0} (laws : IsBijective q P) (x : ℕ) where
  -- What `enqueue` comes to. If it returns true, the node is in the list and linked, behind the nodes
  -- that were there. Otherwise `check_tail` refused a tail, and the node is as before.
  abbrev pub Enqueued : (ℕ → Bool) → List ℕ → Bool → World → Type 0
  Enqueued check_tail xs true w =
      (added : List ℕ) × (more : List ℕ) × IsShape q w.store null (xs ++ added ++ x ∷ more)
      × (w.store.pending x ≡ none)
  Enqueued check_tail xs false w =
      (added : List ℕ) × IsShape q w.store null (xs ++ added)
      × Own w.store x (xs ++ added)
      × (w.store.prev x ≡ null)
      × ((t : ℕ) × (check_tail t ≡ false))

  pending-turn :
      (w : World) → SparesAll x w.schedule → (turn q w).store.pending x ≡ w.store.pending x
  unfolding turn
  pending-turn w spares = by_schedule w.schedule spares
    where
      by_schedule :
          (l : List (List Move))
          → SparesAll x l
          → (turn q (record w { schedule = l })).store.pending x ≡ w.store.pending x
      by_schedule [] h = refl
      by_schedule (ms ∷ rest) h = pending-interfere laws x ms w.store h.0

  pending-do_link : (p : ℕ) (s : Store) → (do_link x p s).pending x ≡ none
  unfolding do_link
  pending-do_link p s = ground arith

  link_node-Enqueued :
      (check_tail : ℕ → Bool) (xs : List ℕ) (r : Option ℕ) (w : World)
      → Announced laws x check_tail xs r w
      → Returns (Enqueued check_tail xs) (link_node q x r w)
  unfolding link_node
  link_node-Enqueued check_tail xs none w h = gives h
  link_node-Enqueued check_tail xs (some p) w (added, shape, written, spares) =
      let e = turn-Evolved laws w null (xs ++ added ++ x ∷ []) shape in
      gives (
        added,
        e.added,
        subst (IsShape q (do_link x p (turn q w).store) null)
            (append_assoc (xs ++ added) (x ∷ []) e.added)
            (link-IsShape laws (turn q w).store null _ e.shape x p
              (pending-turn w spares ∙ written)),
        pending-do_link p (turn q w).store,
      )

  -- `enqueue` always returns, without waiting for another thread. If the result is true, the node is
  -- in the list behind the nodes that were there, and linked. If it is false, `check_tail` refused a
  -- tail, and the node is as it was before.
  pub enqueue-Enqueued :
      (check_tail : ℕ → Bool) (w : World) (xs : List ℕ)
      → SparesAll x w.schedule
      → IsShape q w.store null xs
      → Own w.store x xs
      → Returns (Enqueued check_tail xs) (enqueue q x check_tail w)
  unfolding enqueue load_tail rounds
  enqueue-Enqueued check_tail w xs spares shape own =
      let a = turn-Turned laws x w xs spares shape own in
      follow
        (loop-Announced laws x check_tail (rounds w) (turn q w) (xs ++ a.still.added)
          (turn q w).store.tail (ground (arith, a.progress, a.spurious_same)) refl a.spares
          a.still.shape a.still.own)
        λ r v h.
          link_node-Enqueued check_tail xs r v
            (widen-Announced laws x check_tail xs a.still.added r v h)
