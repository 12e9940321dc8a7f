-- ===== src/Parker.antt =====
-- src/sync/std.rs: `StdParker`, one thread that parks and any number of threads that unpark it. A
-- machine makes one step at a time: an atomic access of the state, a mutex that is taken or given back,
-- or what a condition variable does. `Condvar::wait` gives the mutex back and sleeps in one step, and
-- takes it again before it returns; `notify_one` wakes the thread that sleeps, if it does.
pub mod Invariant
pub mod Liveness
pub mod Places
use aiq.Prelude.{ℕ, suc, ◌+◌, ◌-◌, ◌%◌, ◌≡◌, ◌≢◌, ◌⊎◌}
use aiq.QueueState.{usize_bound}
use aiq.Store.{update}

abbrev pub empty : ℕ
empty = 0

abbrev pub notified : ℕ
notified = 1

abbrev pub parked : ℕ
parked = usize_bound - 1

-- `fetch_sub(1)`, which wraps
unfoldable pub fetch_sub : ℕ → ℕ
fetch_sub state = (state + usize_bound - 1) % usize_bound

-- Where the thread that parks stands: outside of `park`; before it locks; before the exchange; before it
-- waits, the exchange having failed; asleep; awake, before it locks again; before it unlocks.
pub data ParkPc : Type 0 where
  outside locking checking failing sleeping woken leaving : ParkPc

-- Where a thread that unparks stands: outside of `unpark`; before it locks, its swap having found
-- `PARKED`; before it unlocks; before it notifies.
pub data UnparkPc : Type 0 where
  resting waking locked signalling : UnparkPc

pub data Holder : Type 0 where
  nobody : Holder
  parker : Holder
  unparker : ℕ → Holder

-- `unparks` counts the calls of `unpark` that have made their swap, `returns` those of `park` that have
-- consumed a notification.
pub record Machine : Type 0 where
  pub state : ℕ
  pub holder : Holder
  pub park_pc : ParkPc
  pub unpark_pc : ℕ → UnparkPc
  pub unparks : ℕ
  pub returns : ℕ

-- `new`
unfoldable pub new : Machine
new = record {
  state = empty;
  holder = nobody;
  park_pc = outside;
  unpark_pc = λ _. resting;
  unparks = 0;
  returns = 0;
}

unfoldable pub wake_up : ParkPc → ParkPc
wake_up outside = outside
wake_up locking = locking
wake_up checking = checking
wake_up failing = failing
wake_up sleeping = woken
wake_up woken = woken
wake_up leaving = leaving

-- A call of `park` begins.
pub data Park (m : Machine) : Machine → Type 0 where
  park_notified :
      m.park_pc ≡ outside
      → m.state ≡ notified
      → Park m (record m { state = fetch_sub m.state; returns = suc m.returns })
  park_empty :
      m.park_pc ≡ outside
      → m.state ≢ notified
      → Park m (record m { state = fetch_sub m.state; park_pc = locking })

-- A call of `unpark` begins.
pub data Unpark (m : Machine) : Machine → Type 0 where
  swap_other :
      (i : ℕ)
      → m.unpark_pc i ≡ resting
      → m.state ≢ parked
      → Unpark m (record m { state = notified; unparks = suc m.unparks })
  swap_parked :
      (i : ℕ)
      → m.unpark_pc i ≡ resting
      → m.state ≡ parked
      → Unpark m (record m {
        state = notified;
        unpark_pc = update m.unpark_pc i waking;
        unparks = suc m.unparks;
      })

-- A call that has begun goes on.
pub data Move (m : Machine) : Machine → Type 0 where
  lock :
      (m.park_pc ≡ locking) ⊎ (m.park_pc ≡ woken)
      → m.holder ≡ nobody
      → Move m (record m { holder = parker; park_pc = checking })
  exchange_won :
      m.park_pc ≡ checking
      → m.state ≡ notified
      → Move m (record m { state = empty; park_pc = leaving; returns = suc m.returns })
  exchange_lost :
      m.park_pc ≡ checking → m.state ≢ notified → Move m (record m { park_pc = failing })
  wait : m.park_pc ≡ failing → Move m (record m { holder = nobody; park_pc = sleeping })
  unlock : m.park_pc ≡ leaving → Move m (record m { holder = nobody; park_pc = outside })
  lock_unparker :
      (i : ℕ)
      → m.unpark_pc i ≡ waking
      → m.holder ≡ nobody
      → Move m (record m { holder = unparker i; unpark_pc = update m.unpark_pc i locked })
  unlock_unparker :
      (i : ℕ)
      → m.unpark_pc i ≡ locked
      → Move m (record m { holder = nobody; unpark_pc = update m.unpark_pc i signalling })
  notify_one :
      (i : ℕ)
      → m.unpark_pc i ≡ signalling
      → Move m (record m { park_pc = wake_up m.park_pc; unpark_pc = update m.unpark_pc i resting })

-- Any step, also a wake-up without a cause.
pub data Step (m : Machine) : Machine → Type 0 where
  park : {u : Machine} → Park m u → Step m u
  unpark : {u : Machine} → Unpark m u → Step m u
  go_on : {u : Machine} → Move m u → Step m u
  spurious : m.park_pc ≡ sleeping → Step m (record m { park_pc = woken })

pub data Reach : Machine → Type 0 where
  start : Reach new
  later : {m u : Machine} → Reach m → Step m u → Reach u

-- Runs of calls that have begun.
pub data Moves : Machine → Machine → Type 0 where
  done : {m : Machine} → Moves m m
  then : {m u v : Machine} → Move m u → Moves u v → Moves m v
