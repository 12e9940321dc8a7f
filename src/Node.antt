-- ===== src/Node.antt =====
-- src/node.rs: the life of a node. Its raw state is read without the lock, so a thread that finds the
-- node queued takes the lock and reads it again; `lock` stands for what the holders of the lock
-- before it do in the meantime. A method that takes `&mut` writes to a node nobody else reads.
pub mod Drop
pub mod Cycle
use aiq.Prelude.{ℕ, Bool, true, false, Option, none, some}
use aiq.QueueState.{QueueState, to_state}
use aiq.Store.{null, RawNodeState, unqueued, queued, dequeued, raw_state, set_prev, set_slot}
use aiq.Cmd.{World, Run, panic, Cmd, pure, ◌>>=◌, ◌>>◌, load_prev, atomic}
use aiq.Queue.{remove, enqueue}

-- Which of `NodeUnqueued`, `NodeQueued` and `NodeDequeued` the node is handed out as.
pub data NodeState : Type 0 where
  node_unqueued node_queued node_dequeued : NodeState

-- `panic` where the source declares the case unreachable.
unfoldable pub state_under_lock : RawNodeState → Cmd NodeState
state_under_lock unqueued = λ _. panic
state_under_lock queued = pure node_queued
state_under_lock dequeued = pure node_dequeued

module _ {S : Type 0} (q : QueueState S) where
  -- `Node::raw_state`
  unfoldable pub load_state : ℕ → Cmd RawNodeState
  load_state node = do prev ← load_prev q node; pure (raw_state prev)

  unfoldable pub remove_if_queued : ℕ → RawNodeState → Cmd (Unit {0})
  remove_if_queued node unqueued = pure tt
  remove_if_queued node queued = do remove q node null false; pure tt
  remove_if_queued node dequeued = pure tt

module _ {S : Type 0} (q : QueueState S) (lock : Cmd (Unit {0})) where
  unfoldable pub state_from_raw : ℕ → RawNodeState → Cmd NodeState
  state_from_raw node unqueued = pure node_unqueued
  state_from_raw node queued = do lock; raw ← load_state q node; state_under_lock raw
  state_from_raw node dequeued = pure node_dequeued

  -- `Node::state`
  unfoldable pub node_state : ℕ → Cmd NodeState
  node_state node = do raw ← load_state q node; state_from_raw node raw

  -- `Node::dequeue`
  unfoldable pub dequeue_node : ℕ → Cmd (Unit {0})
  dequeue_node node = do lock; raw ← load_state q node; remove_if_queued q node raw

  unfoldable pub drop_by_state : ℕ → RawNodeState → Cmd (Unit {0})
  drop_by_state node unqueued = pure tt
  drop_by_state node queued = dequeue_node node
  drop_by_state node dequeued = pure tt

  -- `Node::drop`
  unfoldable pub drop_node : ℕ → Cmd (Unit {0})
  drop_node node = do raw ← load_state q node; drop_by_state node raw

module _ {S : Type 0} (q : QueueState S) where
  -- `NodeUnqueued::enqueue` and `try_enqueue_with_queue_state`
  unfoldable pub enqueue_node : ℕ → Cmd Bool
  enqueue_node node = enqueue q node (λ _. true)

  unfoldable pub try_enqueue_with_queue_state : ℕ → (Option S → Bool) → Cmd Bool
  try_enqueue_with_queue_state node match_state =
      enqueue q node (λ tail. match_state (to_state (q.tail_to_enum tail)))

  -- `NodeQueued::dequeue` and `dequeue_try_set_queue_state`
  unfoldable pub dequeue_queued : ℕ → Cmd Bool
  dequeue_queued node = remove q node null false

  unfoldable pub dequeue_try_set_queue_state : ℕ → S → Cmd Bool
  dequeue_try_set_queue_state node st = elim (q.state_to_tail st) [
    | none ↦ λ _. panic
    | some new_tail ↦ remove q node new_tail false
  ]

  -- `NodeDequeued::reset`, whose two writes nobody can come between
  unfoldable pub reset : ℕ → Cmd (Unit {0})
  reset node = atomic q λ s. (tt, set_slot node null (set_prev node null s))
