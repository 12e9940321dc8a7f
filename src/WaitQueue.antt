-- ===== src/WaitQueue.antt =====
-- src/wait_queue.rs: a queue of tasks that wait for a notification, one operation at a time. The queue
-- is what its tail tells: the waiters in their order, or a state where there are none. A waiter is
-- known by the address of its node; `none` stands for an unchecked unwrap of nothing.
pub mod Notify
pub mod Waiting
pub mod Closing
pub mod Dropping
pub mod Wakers
use aiq.Prelude.{
  firsts, last_or, ℕ, zero, suc, Bool, true, false, not, ◌&&◌, ◌||◌, Option, none, some, List, [],
  ◌∷◌, ◌++◌, length, ◌==◌, if◌then◌else◌,
}
use aiq.Store.{RawNodeState, unqueued, queued, dequeued, update}

abbrev pub empty_state : ℕ
empty_state = 0

abbrev pub closed_state : ℕ
closed_state = 1

pub data Notification : Type 0 where
  one last : Notification

pub record Waiter : Type 0 where
  pub waker : Option ℕ
  pub notification : Option Notification

-- `state` counts where there are no waiters; `woken` has the wakers that were called, in order.
pub record WaitQueue : Type 0 where
  pub state : ℕ
  pub waiters : List ℕ
  pub data_of : ℕ → Waiter
  pub raw_state_of : ℕ → RawNodeState
  pub woken : List ℕ

abbrev pub is_nil : List ℕ → Bool
is_nil [] = true
is_nil (x ∷ xs) = false

unfoldable pub is_closed : WaitQueue → Bool
is_closed q = is_nil q.waiters && not (q.state == empty_state)

abbrev pub wake : List ℕ → WaitQueue → WaitQueue
wake wakers q = record q { woken = q.woken ++ wakers }

-- The queue once the waiter `x` has been taken out of it with a notification, and its waker taken.
abbrev pub notified : Notification → ℕ → List ℕ → WaitQueue → WaitQueue
notified n x rest q = record q {
  state = if is_nil rest then empty_state else q.state;
  waiters = rest;
  data_of = update q.data_of x (record { waker = none; notification = some n });
  raw_state_of = update q.raw_state_of x dequeued;
}

unfoldable pub notify_one : WaitQueue → Option WaitQueue
notify_one q = elim q.waiters [
  | [] ↦ some q
  | x ∷ rest ↦ elim (q.data_of x).waker [
    | none ↦ none
    | some k ↦ some (wake (k ∷ []) (notified one x rest q))
  ]
]

-- All but the last entry.
unfoldable pub notify_last : WaitQueue → Option WaitQueue
notify_last q = elim q.waiters [
  | [] ↦ some q
  | x ∷ rest ↦ elim (q.data_of (last_or x rest)).waker [
    | none ↦ none
    | some k ↦ some (wake (k ∷ []) (notified last (last_or x rest) (firsts x rest) q))
  ]
]

-- `WakerList`: its capacity, and what `is_full` makes of the list and of the queue.
abbrev pub wakers_capacity : ℕ
wakers_capacity = 32

unfoldable pub is_full : List ℕ → Bool
is_full wakers = length wakers == wakers_capacity

unfoldable pub drained : List ℕ → List ℕ
drained wakers = if is_full wakers then [] else wakers

unfoldable pub flush : List ℕ → WaitQueue → WaitQueue
flush wakers q = if is_full wakers then wake wakers q else q

-- The loop of `notify_many`. When the list is full its wakers are called with the lock released, and
-- the loop ends if there are no waiters then.
unfoldable pub notify_loop : (count : ℕ) (wakers : List ℕ) → WaitQueue → Option WaitQueue
notify_loop zero wakers q = some (wake wakers q)
notify_loop (suc count) wakers q = elim q.waiters [
  | [] ↦ some (wake wakers q)
  | x ∷ rest ↦ elim (q.data_of x).waker [
    | none ↦ none
    | some k ↦
        let pushed = wakers ++ k ∷ [] in
        let q' = flush pushed (notified one x rest q) in
        let again = notify_loop count (drained pushed) q' in
        if is_full pushed && is_nil q'.waiters then some (wake (drained pushed) q') else again
  ]
]

unfoldable pub notify_many : ℕ → WaitQueue → Option WaitQueue
notify_many count q = elim q.waiters [ [] ↦ some q | x ∷ rest ↦ notify_loop count [] q ]

-- `drain_queue` takes the waiters in their order, without a notification, and leaves the state.
unfoldable pub drain_loop : List ℕ → WaitQueue → Option WaitQueue
drain_loop [] q = some q
drain_loop (x ∷ rest) q = elim (q.data_of x).waker [
  | none ↦ none
  | some k ↦ drain_loop rest (
      wake (k ∷ []) (record q {
        data_of = update q.data_of x (record (q.data_of x) { waker = none });
        raw_state_of = update q.raw_state_of x dequeued;
      }))
]

unfoldable pub drain_queue : ℕ → WaitQueue → Option WaitQueue
drain_queue state q = drain_loop q.waiters (record q { state = state; waiters = [] })

unfoldable pub notify_all : WaitQueue → Option WaitQueue
notify_all q = elim q.waiters [ [] ↦ some q | x ∷ rest ↦ drain_queue empty_state q ]

unfoldable pub close : WaitQueue → Option WaitQueue
close q = elim q.waiters [
  | [] ↦ some (record q { state = closed_state })
  | x ∷ rest ↦ drain_queue closed_state q
]

-- The end of `poll_wait`: the waker is stored and the node enqueued, unless the queue is closed.
unfoldable pub try_wait : (node cx_waker : ℕ) → WaitQueue → Bool × WaitQueue
try_wait node cx_waker q =
    let w = record (q.data_of node) { waker = some cx_waker } in
    let stored = record q { data_of = update q.data_of node w } in
    if is_nil q.waiters && not (q.state == empty_state) then (true, stored) else (
      false,
      record stored {
        waiters = q.waiters ++ node ∷ [];
        raw_state_of = update q.raw_state_of node queued;
      },
    )

-- `poll_wait` from the state of the node; the result is true for `Poll::Ready`.
unfoldable pub poll_state :
    RawNodeState → (requeue : Bool) (node cx_waker : ℕ) → WaitQueue → Bool × WaitQueue
poll_state unqueued requeue node cx_waker q = try_wait node cx_waker q
poll_state queued requeue node cx_waker q = (
  false,
  record q { data_of = update q.data_of node (record (q.data_of node) { waker = some cx_waker }) },
)
poll_state dequeued requeue node cx_waker q =
    if requeue
    then try_wait node cx_waker (record q { raw_state_of = update q.raw_state_of node unqueued })
    else (true, q)

unfoldable pub poll_wait : (requeue : Bool) (node cx_waker : ℕ) → WaitQueue → Bool × WaitQueue
poll_wait requeue node cx_waker q = poll_state (q.raw_state_of node) requeue node cx_waker q

-- `WaitIf::poll`: `holds` is what the predicate gives if it is still there.
unfoldable pub poll_wait_if :
    (holds : Option Bool) (node cx_waker : ℕ) → WaitQueue → Bool × WaitQueue
poll_wait_if holds node cx_waker q =
    let (ready, q') = poll_wait false node cx_waker q in
    if ready then (true, q') else (elim holds [ none ↦ false | some b ↦ not b ], q')

-- `WaitUntil::poll` with `poll_cold`: the predicate is asked before and after the wait is polled. A
-- closed queue whose predicate gives nothing is a panic.
pub data PollUntil (T : Type 0) : Type 0 where
  until_ready : T → WaitQueue → PollUntil T
  until_pending : WaitQueue → PollUntil T
  until_panic : PollUntil T

unfoldable pub poll_wait_until :
    {T : Type 0} → (asked again : Option T) (node cx_waker : ℕ) → WaitQueue → PollUntil T
poll_wait_until (some res) again node cx_waker q = until_ready res q
poll_wait_until none again node cx_waker q =
    let (is_closed, q') = poll_wait true node cx_waker q in
    elim again [
      | some res ↦ until_ready res q'
      | none ↦ if is_closed then until_panic else until_pending q'
    ]
