-- ===== src/Semaphore/Permits.antt =====
-- The arithmetic of permits: what is acquired can be given back, and splitting a permit loses none.
use aiq.Prelude.{
  ℕ, ◌-◌, ◌*◌, ◌^◌, ◌≤◌, ◌<◌, ◌≡◌, refl, none, some, Option, [], arith, ◌||◌, inl, inr, Bool-cases,
  if◌then◌else◌, ltb, leb,
}
use aiq.Semaphore.{
  Line, idle, waiting, max_permits, check_add_permits, check_acquire_permits, store_state,
  add_permits, acquired, no_permits, try_acquire_many, SemaphorePermit, u32_bound, merge, split,
  drop_permit, forget_permits, wrapping_forget, ready, pending, poll_unqueued, poll_refused,
  enqueue_waiter, new,
}

-- The state of an open semaphore with so many permits.
abbrev pub open_state : ℕ → ℕ
open_state permits = permits * 2

-- A new semaphore is open and has the permits asked for, if it may have that many.
pub new-available :
    (permits : ℕ) → permits ≤ max_permits → new permits ≡ some (idle (open_state permits))
unfolding new check_add_permits store_state
new-available permits le = ground arith

-- `try_acquire_many` at an open semaphore takes exactly the permits it gives, and refuses exactly if
-- there are too few.
pub try_acquire_many-exact :
    (available permits : ℕ)
    → try_acquire_many permits (idle (open_state available)) ≡ (
        if leb permits available
        then acquired permits (idle (open_state (available - permits)))
        else no_permits)
unfolding try_acquire_many check_acquire_permits
try_acquire_many-exact available permits = ground arith

-- Permits that were taken and are dropped again leave the semaphore as it was.
pub drop-try_acquire_many :
    (sem permits available : ℕ) (line : Line)
    → available ≤ max_permits
    → try_acquire_many permits (idle (open_state available)) ≡ acquired permits line
    → drop_permit (record { sem = sem; permits = permits }) line
      ≡ some (record { line = idle (open_state available); woken = [] })
unfolding try_acquire_many check_acquire_permits drop_permit add_permits check_add_permits
    store_state
drop-try_acquire_many sem permits available line le e = ground arith

-- What `split` gives: a part that `merge` puts back, or nothing if there are not enough permits.
abbrev pub Split : SemaphorePermit → ℕ → SemaphorePermit × Option SemaphorePermit → Type 0
Split p n (rest, none) = (rest ≡ p) × (p.permits < n)
Split p n (rest, some part) =
    (part.permits ≡ n) × (merge rest part ≡ some (p, record part { permits = 0 }))

-- Splitting a permit gives a part of the size asked for, which `merge` puts back, or leaves the permit as
-- it is if it has too few.
pub split-merge : (p : SemaphorePermit) (n : ℕ) → p.permits < u32_bound → Split p n (split p n)
unfolding split merge
split-merge p n lt = elim (Bool-cases (leb u32_bound n || ltb p.permits n)) [
  | inl h ↦ rw h (refl, ground arith)
  | inr h ↦ rw h (refl, ground arith)
]

-- At an open semaphore without waiters, `forget_permits` of at most `max_permits` takes exactly the
-- permits asked for if they are available, and panics if they are not: the subtraction wraps to a word
-- that is no state.
pub forget_permits-exact :
    (available permits : ℕ)
    → available ≤ max_permits
    → permits ≤ max_permits
    → forget_permits permits (idle (open_state available)) ≡ (
        if leb permits available
        then some (permits, idle (open_state (available - permits)))
        else none)
unfolding forget_permits wrapping_forget store_state
forget_permits-exact available permits le le' = ground arith

-- The first poll of an acquisition takes the permits if there are enough. Otherwise it takes all that
-- there are and waits for the rest, provided that the number asked for is below 2 ^ 31.
pub poll_unqueued-exact :
    (available permits cx_waker : ℕ)
    → permits < 2 ^ 31
    → poll_unqueued permits cx_waker (idle (open_state available)) ≡ (
        if leb permits available
        then ready (idle (open_state (available - permits)))
        else pending (
            waiting (record { waker = some cx_waker; permits_remaining = permits - available }) []))
unfolding poll_unqueued poll_refused enqueue_waiter check_acquire_permits
poll_unqueued-exact available permits cx_waker lt = ground arith
