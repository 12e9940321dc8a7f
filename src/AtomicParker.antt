-- ===== src/AtomicParker.antt =====
-- src/sync/atomic_wait.rs: `AtomicParker`, one thread that parks and any number that unpark it; a step is
-- an atomic access, or a step of the futex, which the `atomic_wait` crate gives.
pub mod Wakes
use aiq.Prelude.{ℕ, suc, ◌+◌, ◌-◌, ◌%◌, ◌^◌, ◌≡◌, ◌≢◌, Bool, true, false, if◌then◌else◌}
use aiq.Store.{update}

abbrev pub empty_word : ℕ
empty_word = 0

abbrev pub notified_word : ℕ
notified_word = 1

abbrev pub parked_word : ℕ
parked_word = 2 ^ 32 - 1

-- `fetch_sub(1)`, which wraps
unfoldable pub word_before : ℕ → ℕ
word_before state = (state + 2 ^ 32 - 1) % 2 ^ 32

-- The crate: whether `wait` sleeps at a word when it is given a value, and whether a thread that sleeps
-- does so after `wake_one`. It sleeps only at the value that it is given, and `wake_one` wakes a thread.
pub record Futex : Type 0 where
  pub sleeps : (word value : ℕ) → Bool
  pub sleeps_on : Bool
  pub sleeps_same : (word value : ℕ) → sleeps word value ≡ true → word ≡ value
  pub wakes : sleeps_on ≡ false

-- Where the thread that parks stands: not in `park`; before `wait`; in it, asleep; before the exchange.
pub data Sleeper : Type 0 where
  elsewhere before_wait asleep before_exchange : Sleeper

-- Where a thread that unparks stands: not in `unpark`; before `wake_one`.
pub data Waker : Type 0 where
  idle before_wake : Waker

pub record AtomicParker : Type 0 where
  pub word : ℕ
  pub sleeper : Sleeper
  pub waker : ℕ → Waker

unfoldable pub init : AtomicParker
init = record { word = 0; sleeper = elsewhere; waker = λ _. idle }

unfoldable pub wake_one : (sleeps_on : Bool) → Sleeper → Sleeper
wake_one sleeps_on elsewhere = elsewhere
wake_one sleeps_on before_wait = before_wait
wake_one sleeps_on asleep = if sleeps_on then asleep else before_exchange
wake_one sleeps_on before_exchange = before_exchange

-- A call that has begun goes on.
pub data Move (futex : Futex) (m : AtomicParker) : AtomicParker → Type 0 where
  sleep :
      m.sleeper ≡ before_wait
      → futex.sleeps m.word parked_word ≡ true
      → Move futex m (record m { sleeper = asleep })
  stay_awake :
      m.sleeper ≡ before_wait
      → futex.sleeps m.word parked_word ≡ false
      → Move futex m (record m { sleeper = before_exchange })
  exchange_won :
      m.sleeper ≡ before_exchange
      → m.word ≡ notified_word
      → Move futex m (record m { word = empty_word; sleeper = elsewhere })
  exchange_lost :
      m.sleeper ≡ before_exchange
      → m.word ≢ notified_word
      → Move futex m (record m { sleeper = before_wait })
  wake :
      (i : ℕ)
      → m.waker i ≡ before_wake
      → Move futex m
          (record m { sleeper = wake_one futex.sleeps_on m.sleeper; waker = update m.waker i idle })

-- Any step: also the first access of `park` and of `unpark`, and a wake-up without a cause.
pub data Step (futex : Futex) (m : AtomicParker) : AtomicParker → Type 0 where
  go_on : {u : AtomicParker} → Move futex m u → Step futex m u
  park_notified :
      m.sleeper ≡ elsewhere
      → m.word ≡ notified_word
      → Step futex m (record m { word = word_before m.word })
  park :
      m.sleeper ≡ elsewhere
      → m.word ≢ notified_word
      → Step futex m (record m { word = word_before m.word; sleeper = before_wait })
  unpark_parked :
      (i : ℕ)
      → m.waker i ≡ idle
      → m.word ≡ parked_word
      → Step futex m (record m { word = notified_word; waker = update m.waker i before_wake })
  unpark_other :
      (i : ℕ)
      → m.waker i ≡ idle
      → m.word ≢ parked_word
      → Step futex m (record m { word = notified_word })
  spurious : m.sleeper ≡ asleep → Step futex m (record m { sleeper = before_exchange })

pub data Reach (futex : Futex) : AtomicParker → Type 0 where
  start : Reach futex init
  later : {m u : AtomicParker} → Reach futex m → Step futex m u → Reach futex u

pub data Moves (futex : Futex) : AtomicParker → AtomicParker → Type 0 where
  done : {m : AtomicParker} → Moves futex m m
  then : {m u v : AtomicParker} → Move futex m u → Moves futex u v → Moves futex m v
