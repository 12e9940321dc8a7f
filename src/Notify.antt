-- ===== src/Notify.antt =====
-- examples/notify.rs: `Notify` over the queue, one operation at a time. The queue is what its tail
-- tells: the waiters in their order, or a state where there are none. `none` is a panic, and a generation
-- is a number modulo 2 ^ 64.
pub mod Invariant
pub mod Delivery
pub mod Futures
pub mod System
use aiq.Prelude.{
  without, ℕ, ◌+◌, ◌%◌, ◌^◌, suc, Bool, true, false, not, Option, none, some, List, [], ◌∷◌, ◌++◌,
  ◌==◌, if◌then◌else◌, firsts, last_or,
}
use aiq.Store.{RawNodeState, unqueued, queued, dequeued, update}

abbrev pub state_unnotified : ℕ
state_unnotified = 0

abbrev pub state_notified : ℕ
state_notified = 1

pub data Notification : Type 0 where
  one last all : Notification

pub record Waiter : Type 0 where
  pub waker : Option ℕ
  pub notification : Option Notification

-- `state` counts where there are no waiters; `woken` has the wakers that were called, in order.
pub record Notify : Type 0 where
  pub state : ℕ
  pub waiters : List ℕ
  pub data_of : ℕ → Waiter
  pub raw_state_of : ℕ → RawNodeState
  pub generation : ℕ
  pub woken : List ℕ

-- `NotifiedInner`
pub record Notified : Type 0 where
  pub node : ℕ
  pub generation : ℕ
  pub completed : Bool

abbrev pub wakers_of : Option ℕ → List ℕ
wakers_of none = []
wakers_of (some k) = k ∷ []

abbrev pub state_of_rest : List ℕ → ℕ → ℕ
state_of_rest [] state = state_unnotified
state_of_rest (x ∷ rest) state = state

-- The waiter `x` leaves the queue with a notification; its waker, if it has one, is called.
abbrev pub hand_to : Notification → ℕ → List ℕ → Notify → Notify
hand_to n x rest q = record q {
  state = state_of_rest rest q.state;
  waiters = rest;
  data_of = update q.data_of x (record { waker = none; notification = some n });
  raw_state_of = update q.raw_state_of x dequeued;
  woken = q.woken ++ wakers_of (q.data_of x).waker;
}

-- `wake_single`, with waiters: `notify_single` calls it with `One` and `Last` only.
unfoldable pub wake_single : Notification → ℕ → List ℕ → Notify → Option Notify
wake_single one x rest q = some (hand_to one x rest q)
wake_single last x rest q = some (hand_to last (last_or x rest) (firsts x rest) q)
wake_single all x rest q = none

unfoldable pub notify_single : Notification → Notify → Option Notify
notify_single n q = elim q.waiters [
  | [] ↦ some (record q { state = state_notified })
  | x ∷ rest ↦ wake_single n x rest q
]

unfoldable pub notify_one : Notify → Option Notify
notify_one = notify_single one

unfoldable pub notify_last : Notify → Option Notify
notify_last = notify_single last

-- The loop over the drained waiters in `notify_waiters`.
unfoldable pub notify_drained : List ℕ → Notify → Notify
notify_drained [] q = q
notify_drained (x ∷ rest) q = notify_drained rest (record q {
  data_of = update q.data_of x (record { waker = none; notification = some all });
  raw_state_of = update q.raw_state_of x dequeued;
  woken = q.woken ++ wakers_of (q.data_of x).waker;
})

unfoldable pub notify_waiters : Notify → Notify
notify_waiters q = notify_drained q.waiters (record q {
  state = elim q.waiters [ [] ↦ q.state | x ∷ rest ↦ state_unnotified ];
  waiters = [];
  generation = (q.generation + 1) % 2 ^ 64;
})

-- `notified`, for a node whose address is new
unfoldable pub notified : ℕ → Notify → Notified
notified node q = record { node = node; generation = q.generation; completed = false }

-- `dequeue_try_set_queue_state(STATE_UNNOTIFIED)` of a queued node
abbrev pub leave : ℕ → Notify → Notify
leave x q = record q {
  state = state_of_rest (without x q.waiters) q.state;
  waiters = without x q.waiters;
  raw_state_of = update q.raw_state_of x dequeued;
}

-- The result of `poll_notified_impl`; `ready true` has the caller cancel.
pub data Poll : Type 0 where
  pending : Poll
  ready : Bool → Poll

abbrev pub store_waker : Option ℕ → Waiter → Waiter
store_waker none w = w
store_waker (some k) w = record w { waker = some k }

-- `get_or_insert_with`
abbrev pub keep_waker : Option ℕ → Waiter → Waiter
keep_waker none w = w
keep_waker (some k) w = record w { waker = elim w.waker [ none ↦ some k | some j ↦ some j ] }

-- The state of the queue, if it has one.
unfoldable pub state_if_empty : Notify → Option ℕ
state_if_empty q = elim q.waiters [ [] ↦ some q.state | x ∷ rest ↦ none ]

abbrev pub is_notified : Option ℕ → Bool
is_notified none = false
is_notified (some state) = state == state_notified

-- The arm of a node that is not queued. `meanwhile` is what other threads do between the enqueue and
-- the second load of the generation.
unfoldable pub poll_unqueued :
    (meanwhile : Notify → Notify) (cx : Option ℕ) → Notified → Notify → Poll × Notify
poll_unqueued meanwhile cx f q =
    let enqueued = meanwhile (record q {
      waiters = q.waiters ++ f.node ∷ [];
      data_of = update q.data_of f.node (keep_waker cx (q.data_of f.node));
      raw_state_of = update q.raw_state_of f.node queued;
    }) in
    if not (q.generation == f.generation)
    then (ready false, q)
    else (if is_notified (state_if_empty q)
        then (ready false, record q { state = state_unnotified })
        else (if enqueued.generation == f.generation
            then (pending, enqueued)
            else (ready true, enqueued)))

unfoldable pub poll_queued : (cx : Option ℕ) → Notified → Notify → Poll × Notify
poll_queued cx f q = if not (q.generation == f.generation) then (ready false, leave f.node q) else (
  pending,
  record q { data_of = update q.data_of f.node (store_waker cx (q.data_of f.node)) },
)

unfoldable pub poll_impl :
    RawNodeState → (meanwhile : Notify → Notify) (cx : Option ℕ) → Notified → Notify → Poll × Notify
poll_impl unqueued meanwhile cx f q = poll_unqueued meanwhile cx f q
poll_impl queued meanwhile cx f q = poll_queued cx f q
poll_impl dequeued meanwhile cx f q = (ready false, q)

unfoldable pub hand_on : Option Notification → Notify → Option Notify
hand_on none q = none
hand_on (some one) q = notify_one q
hand_on (some last) q = notify_last q
hand_on (some all) q = some q

unfoldable pub cancel_from : RawNodeState → Notified → Notify → Option Notify
cancel_from unqueued f q = some q
cancel_from queued f q = some (leave f.node q)
cancel_from dequeued f q = hand_on (q.data_of f.node).notification q

unfoldable pub cancel : Notified → Notify → Option Notify
cancel f q = cancel_from (q.raw_state_of f.node) f q

-- `poll_notified`: whether the future is ready, the future, and the queue.
unfoldable pub after_poll : Notified → Poll × Notify → Option (Bool × Notified × Notify)
after_poll f (pending, q) = some (false, f, q)
after_poll f (ready cancels, q) = elim (if cancels then cancel f q else some q) [
  | none ↦ none
  | some q' ↦ some (true, record f { completed = true }, q')
]

unfoldable pub poll_notified :
    (meanwhile : Notify → Notify) (cx : Option ℕ)
    → Notified
    → Notify
    → Option (Bool × Notified × Notify)
poll_notified meanwhile cx f q = after_poll f (poll_impl (q.raw_state_of f.node) meanwhile cx f q)

-- The drop of a `NotifiedInner`.
unfoldable pub drop_notified : Notified → Notify → Option Notify
drop_notified f q = if f.completed then some q else cancel f q
