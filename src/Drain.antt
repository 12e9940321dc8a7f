-- ===== src/Drain.antt =====
-- src/queue/drain.rs: `Drain` while it holds the lock, so that its sentinel node is its own and no other
-- thread sees it.
pub mod Chain
pub mod Draining
pub mod Dropping
pub mod Taking
pub mod Drained
pub mod Ring
pub mod Unlocked
pub mod Releasing
pub mod Visiting
pub mod Visits
pub mod Relinking
pub mod Clearing
pub mod Bypassing
pub mod Awaiting
pub mod Removal
use aiq.Prelude.{ℕ, zero, suc, Bool, Option, none, some, List, [], ◌∷◌, ◌==◌, if◌then◌else◌}
use aiq.QueueState.{StateOrPtr, state, ptr, QueueState, to_tail}
use aiq.Store.{null, head_marker}
use aiq.Cmd.{panic, out_of_fuel, Cmd, pure, ◌>>=◌, ◌>>◌, atomic, load_tail, store_slot}
use aiq.Queue.{get_next, finish}

-- `next` and `prev` of the sentinel: the first node that is left, and the last one.
pub record Drain : Type 0 where
  pub head : ℕ
  pub tail : ℕ

unfoldable pub is_empty : Drain → Bool
is_empty d = d.head == null

-- `Drain::head`
unfoldable pub next_node : Drain → Option ℕ
next_node d = if is_empty d then none else some d.head

module _ {S : Type 0} (q : QueueState S) where
  -- `swap` of the tail
  unfoldable pub swap_tail : ℕ → Cmd ℕ
  swap_tail new = atomic q λ s. (s.tail, record s { tail = new })

  -- The sentinel, for the word that the swap found.
  unfoldable pub sentinel : ℕ → StateOrPtr S → Cmd Drain
  sentinel head (ptr p) = pure (record { head = head; tail = p })
  sentinel head (state _) = λ _. panic

  unfoldable pub take_all : (new_tail : ℕ) → Option ℕ → Cmd Drain
  take_all new_tail none = pure (record { head = null; tail = null })
  take_all new_tail (some _) = do
    head ← get_next q head_marker
    store_slot q head_marker null
    old ← swap_tail new_tail
    sentinel head (q.tail_to_enum old)

  unfoldable pub new : (new_tail : ℕ) → Cmd Drain
  new new_tail = do tail ← load_tail q; take_all new_tail (to_tail (q.tail_to_enum tail))

  -- `LockedQueue::drain` and `LockedQueue::drain_try_set_state`
  unfoldable pub drain : Cmd Drain
  drain = new null

  unfoldable pub drain_try_set_state : S → Cmd Drain
  drain_try_set_state st = elim (q.state_to_tail st) [
    | none ↦ λ _. panic
    | some new_tail ↦ new new_tail
  ]

  -- `NodeDrained::drop`
  unfoldable pub drop_drained : Drain → ℕ → Cmd Drain
  drop_drained d node = do
    next ← if node == d.tail then pure null else get_next q node
    finish q node
    pure (record d { head = next })

  -- `Drain::drain`; the result lists the nodes in the order in which they were dropped.
  unfoldable pub drain_rest : (fuel : ℕ) → Drain → Cmd (List ℕ)
  drain_rest zero d = λ _. out_of_fuel
  drain_rest (suc fuel) d =
      let rest = drain_rest fuel in
      elim (next_node d) [
        | none ↦ pure []
        | some node ↦ (do d' ← drop_drained d node; dropped ← rest d'; pure (node ∷ dropped))
      ]

  -- `Drain::drop`
  unfoldable pub drop_drain : (fuel : ℕ) → Drain → Cmd (List ℕ)
  drop_drain fuel d = if is_empty d then pure [] else drain_rest fuel d
