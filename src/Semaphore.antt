-- ===== src/Semaphore.antt =====
-- examples/semaphore.rs: a semaphore over the queue, one operation at a time. The queue is what its
-- tail tells: a state (bit 0 for closed, the permits above it) or the waiters in their order. `none`
-- is a panic; arithmetic is checked for overflow, as in a debug build.
pub mod Permits
pub mod Release
pub mod Cancel
pub mod Owned
pub mod Futures
pub mod Halving
pub mod System
pub mod Taking
pub mod Closing
pub mod Accounts
pub mod Promises
pub mod Leaving
pub mod Conserve
use aiq.Prelude.{
  ℕ, ◌+◌, ◌-◌, ◌*◌, ◌/◌, ◌%◌, ◌^◌, suc, Bool, true, false, not, ◌||◌, ◌&&◌, Option, none, some,
  List, [], ◌∷◌, ◌++◌, length, ltb, leb, ◌==◌, if◌then◌else◌,
}
use aiq.QueueState.{usize_bound, max_state}

pub record Waiter : Type 0 where
  pub waker : Option ℕ
  pub permits_remaining : ℕ

pub data Line : Type 0 where
  idle : ℕ → Line
  waiting : Waiter → List Waiter → Line

abbrev pub max_permits : ℕ
max_permits = (usize_bound - 1) / 8

unfoldable pub check_add_permits : ℕ → ℕ → Option ℕ
check_add_permits state add =
    let current = state / 2 in
    if ltb max_permits current || ltb (max_permits - current) add
    then none
    else some (state + add * 2)

unfoldable pub check_acquire_permits : ℕ → ℕ → Option ℕ
check_acquire_permits state acquire =
    if not (state % 2 == 0)
    then none
    else (if ltb state (acquire * 2) then none else some (state - acquire * 2))

-- `Semaphore::new`: a state beyond the word's is refused by `state_to_ptr`.
unfoldable pub store_state : ℕ → Option Line
store_state state = if ltb max_state state then none else some (idle state)

unfoldable pub new : ℕ → Option Line
new permits = elim (check_add_permits 0 permits) [ none ↦ none | some state ↦ store_state state ]

unfoldable pub available_permits : Line → ℕ
available_permits (idle state) = state / 2
available_permits (waiting w ws) = 0

unfoldable pub is_closed : Line → Bool
is_closed (idle state) = not (state % 2 == 0)
is_closed (waiting w ws) = false

-- What the semaphore is after an operation, with the wakers that were called, in order.
pub record Woken : Type 0 where
  pub line : Line
  pub woken : List ℕ

abbrev pub wakers_capacity : ℕ
wakers_capacity = 32

unfoldable pub is_full : List ℕ → Bool
is_full wakers = length wakers == wakers_capacity

-- A full list of wakers is emptied, its wakers called with the lock released.
unfoldable pub kept : List ℕ → List ℕ
kept wakers = if is_full wakers then [] else wakers

unfoldable pub called : (woken wakers : List ℕ) → List ℕ
called woken wakers = if is_full wakers then woken ++ wakers else woken

-- `permits << PERMIT_SHIFT`, on 64 bits
unfoldable pub shifted : ℕ → ℕ
shifted permits = permits * 2 % usize_bound

-- The loops of `add_permits_locked`. The waiter that is dequeued is the first; `try_set_queue_state`
-- codes the permits that are left as a state, and stores it where the waiter was the only one. Where the lock is released to call
-- wakers, there are waiters left, and it is taken again.
unfoldable pub release : (permits : ℕ) (wakers woken : List ℕ) → Waiter → List Waiter → Option Woken
release permits wakers woken w [] =
    if ltb permits w.permits_remaining
    then some (record {
      line = waiting (record w { permits_remaining = w.permits_remaining - permits }) [];
      woken = woken ++ wakers;
    })
    else elim w.waker [
      | none ↦ none
      | some k ↦ elim (store_state (shifted (permits - w.permits_remaining))) [
        | none ↦ none
        | some line ↦ some (record { line = line; woken = woken ++ (wakers ++ k ∷ []) })
      ]
    ]
release permits wakers woken w (v ∷ rest) =
    let left = permits - w.permits_remaining in
    if ltb permits w.permits_remaining
    then some (record {
      line = waiting (record w { permits_remaining = w.permits_remaining - permits }) (v ∷ rest);
      woken = woken ++ wakers;
    })
    else elim w.waker [
      | none ↦ none
      | some k ↦
          let pushed = wakers ++ k ∷ [] in
          let again = release left (kept pushed) (called woken pushed) v rest in
          elim (store_state (shifted left)) [
            | none ↦ none
            | some _ ↦
                if left == 0
                then some (record { line = waiting v rest; woken = woken ++ pushed })
                else again
          ]
    ]

unfoldable pub add_permits : ℕ → Line → Option Woken
add_permits permits (idle state) =
    if permits == 0
    then some (record { line = idle state; woken = [] })
    else elim (check_add_permits state permits) [
      | none ↦ none
      | some new_state ↦ elim (store_state new_state) [
        | none ↦ none
        | some line ↦ some (record { line = line; woken = [] })
      ]
    ]
add_permits permits (waiting w ws) =
    if permits == 0
    then some (record { line = waiting w ws; woken = [] })
    else release permits [] [] w ws

-- `state.wrapping_sub(permits << PERMIT_SHIFT)`, the shift dropping the bits beyond the word
unfoldable pub wrapping_forget : ℕ → ℕ → ℕ
wrapping_forget state permits = (state + (usize_bound - permits * 2 % usize_bound)) % usize_bound

abbrev pub min : ℕ → ℕ → ℕ
min a b = if ltb b a then b else a

unfoldable pub forget_permits : ℕ → Line → Option (ℕ × Line)
forget_permits permits (idle state) =
    if permits == 0
    then some (0, idle state)
    else elim (store_state (wrapping_forget state permits)) [
      | none ↦ none
      | some line ↦ some (min permits (state / 2), line)
    ]
forget_permits permits (waiting w ws) = some (0, waiting w ws)

-- The result of `try_acquire_many`: a permit, or `TryAcquireError`.
pub data TryAcquire : Type 0 where
  acquired : (permits : ℕ) → Line → TryAcquire
  closed : TryAcquire
  no_permits : TryAcquire

unfoldable pub try_acquire_many : ℕ → Line → TryAcquire
try_acquire_many permits (idle state) = elim (check_acquire_permits state permits) [
  | none ↦ if not (state % 2 == 0) then closed else no_permits
  | some new_state ↦ acquired permits (idle new_state)
]
try_acquire_many permits (waiting w ws) = no_permits

unfoldable pub try_acquire : Line → TryAcquire
try_acquire = try_acquire_many 1

-- The arm of `poll_acquire` for an unqueued node. `state as u32` keeps the low 32 bits.
pub data PollAcquire : Type 0 where
  ready : Line → PollAcquire
  ready_closed : PollAcquire
  pending : Line → PollAcquire
  poll_panics : PollAcquire

abbrev pub u32_bound : ℕ
u32_bound = 2 ^ 32

unfoldable pub enqueue_waiter : Waiter → Line → Line
enqueue_waiter w (idle state) = waiting w []
enqueue_waiter w (waiting v vs) = waiting v (vs ++ w ∷ [])

abbrev pub unwrap_or_zero : Option ℕ → ℕ
unwrap_or_zero none = 0
unwrap_or_zero (some s) = s

unfoldable pub poll_refused : (permits cx_waker : ℕ) → Option ℕ → Line → PollAcquire
poll_refused permits cx_waker state line =
    let s = unwrap_or_zero state in
    let held = s % u32_bound / 2 in
    if not (s % 2 == 0)
    then ready_closed
    else (if ltb permits held
        then poll_panics
        else pending (
            enqueue_waiter (record { waker = some cx_waker; permits_remaining = permits - held })
              line))

unfoldable pub poll_unqueued : (permits cx_waker : ℕ) → Line → PollAcquire
poll_unqueued permits cx_waker (idle state) = elim (check_acquire_permits state permits) [
  | none ↦ poll_refused permits cx_waker (some state) (idle state)
  | some new_state ↦ ready (idle new_state)
]
poll_unqueued permits cx_waker (waiting w ws) = poll_refused permits cx_waker none (waiting w ws)

-- The wakers that `close` takes from the waiters, in their order.
unfoldable pub wake_all : List Waiter → Option (List ℕ)
wake_all [] = some []
wake_all (w ∷ ws) =
    let rest = wake_all ws in
    elim w.waker [ none ↦ none | some k ↦ elim rest [ none ↦ none | some ks ↦ some (k ∷ ks) ] ]

-- `close`: the state is marked, or the waiters are woken and the queue is left with the closed state.
unfoldable pub close : Line → Option Woken
close (idle state) = elim (store_state (state + 1 - state % 2)) [
  | none ↦ none
  | some line ↦ some (record { line = line; woken = [] })
]
close (waiting w ws) = elim (wake_all (w ∷ ws)) [
  | none ↦ none
  | some ks ↦ some (record { line = idle 1; woken = ks })
]

-- `SemaphorePermit`, with the address of its semaphore
pub record SemaphorePermit : Type 0 where
  pub sem : ℕ
  pub permits : ℕ

unfoldable pub forget : SemaphorePermit → SemaphorePermit
forget p = record p { permits = 0 }

-- The permit that is merged into, and the other one as it is dropped.
unfoldable pub merge :
    SemaphorePermit → SemaphorePermit → Option (SemaphorePermit × SemaphorePermit)
merge p other =
    if not (p.sem == other.sem) || leb u32_bound (p.permits + other.permits)
    then none
    else some (record p { permits = p.permits + other.permits }, record other { permits = 0 })

-- The permit that is left, and the one split off if there are enough.
unfoldable pub split : SemaphorePermit → ℕ → SemaphorePermit × Option SemaphorePermit
split p n =
    if leb u32_bound n || ltb p.permits n
    then (p, none)
    else (record p { permits = p.permits - n }, some (record p { permits = n }))

unfoldable pub drop_permit : SemaphorePermit → Line → Option Woken
drop_permit p line = add_permits p.permits line
