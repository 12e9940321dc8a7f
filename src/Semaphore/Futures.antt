-- ===== src/Semaphore/Futures.antt =====
-- `Acquire`, the future that waits for permits, by the state of its node, and the operations that make one.
use aiq.Prelude.{ℕ, Option, none, some, List, [], ◌∷◌, ◌++◌, ◌==◌, if◌then◌else◌}
use aiq.Semaphore.{
  Waiter, Line, is_closed, Woken, PollAcquire, ready, ready_closed, pending, poll_panics,
  poll_unqueued, SemaphorePermit, check_acquire_permits, idle, waiting,
}
use aiq.Semaphore.Cancel.{poll_queued, poll_dequeued, cancel_queued, cancel_dequeued}
use aiq.Semaphore.Owned.{OwnedSemaphorePermit, acquire_many_owned, try_acquire_many_owned}

-- The state of the node, with the waiters before and after it in the queue.
pub data NodePlace : Type 0 where
  unqueued : NodePlace
  queued : (before : List Waiter) → Waiter → (after : List Waiter) → NodePlace
  dequeued : Waiter → NodePlace

unfoldable pub poll_acquire : (permits cx_waker : ℕ) → NodePlace → Line → PollAcquire
poll_acquire permits cx_waker unqueued line = poll_unqueued permits cx_waker line
poll_acquire permits cx_waker (queued before w after) line =
    if is_closed line then ready_closed else poll_queued cx_waker before w after
poll_acquire permits cx_waker (dequeued w) line = poll_dequeued line

unfoldable pub cancel_acquire : (permits : ℕ) → NodePlace → Line → Option Woken
cancel_acquire permits unqueued line = some (record { line = line; woken = [] })
cancel_acquire permits (queued before w after) line = cancel_queued permits before w after
cancel_acquire permits (dequeued w) line = cancel_dequeued permits w line

-- The field `permits` of the future is cleared where it is ready with permits.
unfoldable pub permits_after : ℕ → PollAcquire → ℕ
permits_after permits (ready line) = 0
permits_after permits ready_closed = permits
permits_after permits (pending line) = permits
permits_after permits poll_panics = permits

-- `Acquire::poll`: the result, and the field `permits` afterwards.
unfoldable pub poll : (permits cx_waker : ℕ) → NodePlace → Line → PollAcquire × ℕ
poll permits cx_waker place line =
    let res = poll_acquire permits cx_waker place line in (res, permits_after permits res)

-- The queue of these waiters; it is left in the default state where there is none.
abbrev pub line_of : List Waiter → Line
line_of [] = idle 0
line_of (w ∷ ws) = waiting w ws

-- The destructor of the node, which dequeues it.
unfoldable pub drop_acquire_node : NodePlace → Line → Line
drop_acquire_node unqueued line = line
drop_acquire_node (queued before w after) line = line_of (before ++ after)
drop_acquire_node (dequeued w) line = line

-- The destructor of `Acquire`, for its field `permits`; the node is in no queue after `cancel_acquire`.
unfoldable pub drop_acquire : (permits : ℕ) → NodePlace → Line → Option Woken
drop_acquire permits place line =
    if permits == 0
    then some (record { line = drop_acquire_node place line; woken = [] })
    else cancel_acquire permits place line

-- `fetch_update_state` by `check_acquire_permits`
unfoldable pub take_permits : (permits : ℕ) → Line → Option Line
take_permits permits (idle state) = elim (check_acquire_permits state permits) [
  | none ↦ none
  | some left ↦ some (idle left)
]
take_permits permits (waiting w ws) = none

-- The first poll of the future of `acquire_many`: a permit, `AcquireError`, or an `Acquire` that waits.
pub data Acquiring : Type 0 where
  got : SemaphorePermit → Line → Acquiring
  refused : Acquiring
  waits : Line → Acquiring
  overflow : Acquiring

unfoldable pub first_poll : (sem permits : ℕ) → PollAcquire → Acquiring
first_poll sem permits (ready line) = got (record { sem = sem; permits = permits }) line
first_poll sem permits ready_closed = refused
first_poll sem permits (pending line) = waits line
first_poll sem permits poll_panics = overflow

unfoldable pub acquire_many : (sem permits cx_waker : ℕ) → Line → Acquiring
acquire_many sem permits cx_waker line = elim (take_permits permits line) [
  | none ↦ first_poll sem permits (poll permits cx_waker unqueued line).0
  | some left ↦ got (record { sem = sem; permits = permits }) left
]

unfoldable pub acquire : (sem cx_waker : ℕ) → Line → Acquiring
acquire sem cx_waker line = acquire_many sem 1 cx_waker line

unfoldable pub acquire_owned : (sem : ℕ) → Line → Option (OwnedSemaphorePermit × Line)
acquire_owned sem line = acquire_many_owned sem 1 line

unfoldable pub try_acquire_owned : (sem : ℕ) → Line → Option (OwnedSemaphorePermit × Line)
try_acquire_owned sem line = try_acquire_many_owned sem 1 line

unfoldable pub num_permits : SemaphorePermit → ℕ
num_permits p = p.permits

unfoldable pub num_permits_owned : OwnedSemaphorePermit → ℕ
num_permits_owned p = p.permits
