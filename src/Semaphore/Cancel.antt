-- ===== src/Semaphore/Cancel.antt =====
-- Dropping an acquisition that waits, or that was served and not polled again: `Acquire::cancel`, and
-- the later arms of `poll_acquire`. The waiter `w` stands between `before` and `after`.
use aiq.Prelude.{
  ℕ, ◌+◌, ◌-◌, ◌/◌, ◌%◌, ◌≤◌, ◌<◌, ◌≡◌, refl, false, not, Option, none, some, List, [], ◌∷◌, ◌++◌,
  arith, ltb, ◌==◌, if◌then◌else◌, All,
}
use aiq.Semaphore.{
  Waiter, Line, idle, waiting, Woken, max_permits, store_state, release, add_permits,
  available_permits, is_closed, PollAcquire, ready, ready_closed, pending, poll_panics,
}
use aiq.Semaphore.Release.{Served, wanted, wanted_in, HasWaker, add_permits-Released}

-- The arms of `poll_acquire` for a queued and for a dequeued waiter.
abbrev pub rewoken : (cx_waker : ℕ) (before : List Waiter) → Waiter → List Waiter → Line
rewoken cx_waker [] w after = waiting (record w { waker = some cx_waker }) after
rewoken cx_waker (v ∷ before) w after =
    waiting v (before ++ record w { waker = some cx_waker } ∷ after)

unfoldable pub poll_queued :
    (cx_waker : ℕ) (before : List Waiter) → Waiter → List Waiter → PollAcquire
poll_queued cx_waker before w after = elim w.waker [
  | none ↦ poll_panics
  | some _ ↦ pending (rewoken cx_waker before w after)
]

unfoldable pub poll_dequeued : Line → PollAcquire
poll_dequeued line = if is_closed line then ready_closed else ready line

-- The `Err` arm of `cancel`, the lock held and waiters left.
unfoldable pub give_back : (acquired : ℕ) → Waiter → List Waiter → Option Woken
give_back acquired v rest =
    if acquired == 0
    then some (record { line = waiting v rest; woken = [] })
    else release acquired [] [] v rest

-- The arm for a queued waiter. `dequeue_try_set_queue_state` reports success where the waiter was the
-- last one, and stores the state where it was the only one.
unfoldable pub cancel_queued :
    (permits : ℕ) (before : List Waiter) → Waiter → List Waiter → Option Woken
cancel_queued permits before w after =
    let acquired = permits - w.permits_remaining in
    if ltb permits w.permits_remaining then none else elim after [
      | [] ↦ elim before [
        | [] ↦ elim (store_state acquired) [
          | none ↦ none
          | some line ↦ some (record { line = line; woken = [] })
        ]
        | v ∷ rest ↦ some (record { line = waiting v rest; woken = [] })
      ]
      | v ∷ rest ↦ elim before [
        | [] ↦ give_back acquired v rest
        | u ∷ others ↦ give_back acquired u (others ++ v ∷ rest)
      ]
    ]

-- The arm for a dequeued waiter.
unfoldable pub cancel_dequeued : (permits : ℕ) → Waiter → Line → Option Woken
cancel_dequeued permits w line =
    if ltb permits w.permits_remaining
    then none
    else add_permits (permits - w.permits_remaining) line

-- Where the first of several waiters cancels, the permits it held go to those behind it, in their order,
-- and none is lost.
pub cancel_queued-Served :
    (permits : ℕ) (w v : Waiter) (rest : List Waiter)
    → w.permits_remaining < permits
    → permits ≤ max_permits
    → All HasWaker (v ∷ rest)
    → (r : Woken) × (cancel_queued permits [] w (v ∷ rest) ≡ some r)
      × Served (v ∷ rest) (permits - w.permits_remaining) r.woken r.line
      × (available_permits r.line + wanted v rest
          ≡ permits - w.permits_remaining + wanted_in r.line)
unfolding cancel_queued give_back add_permits
cancel_queued-Served permits w v rest lt le have =
    let (r, runs, fair, sum) =
      add_permits-Released (permits - w.permits_remaining) v rest (omega arith) (omega arith)
        have in
    let enough : ltb permits w.permits_remaining ≡ false = ground arith in
    (r, rw enough runs, fair, sum)

-- Where the only waiter cancels, the semaphore has half of the permits that it held, and is closed if
-- their number is odd.
pub cancel_queued-halves :
    (permits : ℕ) (w : Waiter)
    → w.permits_remaining ≤ permits
    → permits ≤ max_permits
    → (line : Line) × (cancel_queued permits [] w [] ≡ some (record { line = line; woken = [] }))
      × (available_permits line ≡ (permits - w.permits_remaining) / 2)
      × (is_closed line ≡ not ((permits - w.permits_remaining) % 2 == 0))
unfolding cancel_queued store_state available_permits is_closed
cancel_queued-halves permits w le le' =
    (idle (permits - w.permits_remaining), ground arith, refl, refl)
