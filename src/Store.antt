-- ===== src/Store.antt =====
-- src/node.rs (`NodeLink`) and src/queue.rs (`Queue`): the shared memory of a queue, one atomic
-- access at a time, with sequentially consistent memory. An address is a number, 0 is null, and 1
-- and 2 are the marks `Dequeued` and `Queued` of `RawNodeState`. `prev` and `next` hold the fields
-- of the node at an address.
--
-- The other threads are those that enqueue: one that is between the exchange of the tail and the
-- write of its predecessor's `next` has the address of that place in its local `prev_next`, which
-- `pending` records for its node. A place is the address of the node whose `next` it is, or
-- `HEAD_MARKER` for `Queue::head`.
pub mod Commute
pub mod Interference
pub mod Moves
pub mod Own
pub mod Removal
pub mod Shape
pub mod View
use aiq.Prelude.{
  ℕ, ◌%◌, Bool, true, false, ◌&&◌, Option, none, some, List, [], ◌∷◌, ltb, leb, ◌==◌, if◌then◌else◌,
}
use aiq.QueueState.{StateOrPtr, state, ptr, QueueState, usize_bound}

abbrev pub null : ℕ
null = 0

pub record Store : Type 0 where
  pub tail : ℕ
  pub head : ℕ
  pub prev : ℕ → ℕ
  pub next : ℕ → ℕ
  pub pending : ℕ → Option ℕ

pub data RawNodeState : Type 0 where
  unqueued queued dequeued : RawNodeState

-- `RawNodeState::into_ptr`: the discriminants.
abbrev pub into_ptr : RawNodeState → ℕ
into_ptr unqueued = 0
into_ptr queued = 2
into_ptr dequeued = 1

-- `NodeLink::state`
unfoldable pub raw_state : ℕ → RawNodeState
raw_state prev = if prev == 0 then unqueued else if prev == 1 then dequeued else queued

abbrev pub head_marker : ℕ
head_marker = into_ptr queued

abbrev pub update {ℓ} : {A : Type ℓ} → (ℕ → A) → ℕ → A → ℕ → A
update f p v a = if a == p then v else f a

-- The value at a place: `prev_next` in `remove_with_prev` and `enqueue`.
unfoldable pub slot : Store → ℕ → ℕ
slot s p = if p == head_marker then s.head else s.next p

unfoldable pub set_slot : ℕ → ℕ → Store → Store
set_slot p v s =
    if p == head_marker then record s { head = v } else record s { next = update s.next p v }

unfoldable pub set_prev : ℕ → ℕ → Store → Store
set_prev p v s = record s { prev = update s.prev p v }

unfoldable pub is_link : ℕ → Bool
is_link p = leb 4 p && (p % 4 == 0) && ltb p usize_bound

abbrev pub is_none {ℓ} : {A : Type ℓ} → Option A → Bool
is_none none = true
is_none (some _) = false

-- What another thread does at once.
pub data Move : Type 0 where
  publish : ℕ → Move
  link : ℕ → Move
  swap_state : ℕ → Move

-- A node that `NodeUnqueued` holds, with no enqueue under way.
unfoldable pub is_fresh : Store → ℕ → Bool
is_fresh s x = is_link x && (s.prev x == 0) && (s.next x == 0) && is_none (s.pending x)

-- The write of `prev_next`, the second phase.
unfoldable pub do_link : ℕ → ℕ → Store → Store
do_link x p s = let t = set_slot p x s in record t { pending = update s.pending x none }

module _ {S : Type 0} (q : QueueState S) where
  -- `prev.map_or(HEAD_MARKER, NonNull::as_ptr)`, for the tail that was read
  abbrev pub tail_slot : ℕ → ℕ
  tail_slot w = elim (q.tail_to_enum w) [ state _ ↦ head_marker | ptr p ↦ p ]

  abbrev pub holds_state : ℕ → Bool
  holds_state w = elim (q.tail_to_enum w) [ state _ ↦ true | ptr _ ↦ false ]

  -- The exchange of the tail that succeeds, and before it the write to `prev` of the own node.
  unfoldable pub do_publish : ℕ → Store → Store
  do_publish x s = record s {
    prev = update s.prev x (tail_slot s.tail);
    tail = q.ptr_to_tail x;
    pending = update s.pending x (some (tail_slot s.tail));
  }

  -- A move that is not enabled changes nothing.
  unfoldable pub do_move : Move → Store → Store
  do_move (publish x) s = if is_fresh s x then do_publish x s else s
  do_move (link x) s = elim (s.pending x) [ none ↦ s | some p ↦ do_link x p s ]
  do_move (swap_state w) s =
      if holds_state s.tail && holds_state w then record s { tail = w } else s

  unfoldable pub interfere : List Move → Store → Store
  interfere [] s = s
  interfere (m ∷ ms) s = interfere ms (do_move m s)
