-- ===== src/Semaphore/Owned.antt =====
-- `OwnedSemaphorePermit`, the permit that keeps its semaphore alive, and the operations that give one.
-- `sem` is the address of the semaphore, by which `Arc::ptr_eq` compares.
use aiq.Prelude.{
  ℕ, ◌+◌, ◌-◌, ◌≤◌, ◌<◌, ◌≡◌, not, ◌||◌, Option, none, some, [], arith, ltb, leb, ◌==◌,
  if◌then◌else◌,
}
use aiq.Semaphore.{
  Line, idle, Woken, max_permits, u32_bound, try_acquire_many, acquired, closed, no_permits,
  add_permits, check_acquire_permits, check_add_permits, store_state,
}
use aiq.Semaphore.Permits.{open_state}

pub record OwnedSemaphorePermit : Type 0 where
  pub sem : ℕ
  pub permits : ℕ

unfoldable pub forget_owned : OwnedSemaphorePermit → OwnedSemaphorePermit
forget_owned p = record p { permits = 0 }

unfoldable pub merge_owned :
    OwnedSemaphorePermit
    → OwnedSemaphorePermit
    → Option (OwnedSemaphorePermit × OwnedSemaphorePermit)
merge_owned p other =
    if not (p.sem == other.sem) || leb u32_bound (p.permits + other.permits)
    then none
    else some (record p { permits = p.permits + other.permits }, record other { permits = 0 })

unfoldable pub split_owned :
    OwnedSemaphorePermit → ℕ → OwnedSemaphorePermit × Option OwnedSemaphorePermit
split_owned p n =
    if leb u32_bound n || ltb p.permits n
    then (p, none)
    else (record p { permits = p.permits - n }, some (record p { permits = n }))

unfoldable pub drop_owned : OwnedSemaphorePermit → Line → Option Woken
drop_owned p line = add_permits p.permits line

-- `try_acquire_many_owned`, with `none` for `TryAcquireError`
unfoldable pub try_acquire_many_owned :
    (sem permits : ℕ) → Line → Option (OwnedSemaphorePermit × Line)
try_acquire_many_owned sem permits line = elim (try_acquire_many permits line) [
  | acquired n left ↦ some (record { sem = sem; permits = permits }, left)
  | closed ↦ none
  | no_permits ↦ none
]

-- `acquire_many_owned` where it need not wait: the source acquires one permit.
unfoldable pub acquire_many_owned : (sem permits : ℕ) → Line → Option (OwnedSemaphorePermit × Line)
acquire_many_owned sem permits line = elim (try_acquire_many 1 line) [
  | acquired n left ↦ some (record { sem = sem; permits = permits }, left)
  | closed ↦ none
  | no_permits ↦ none
]

-- An owned permit that `acquire_many_owned` gives without waiting and that is dropped at once makes permits: with n of
-- them asked for, the semaphore has n - 1 more than before.
pub drop_owned-acquire_many_owned :
    (sem permits available : ℕ)
    → 0 < available
    → 0 < permits
    → available + permits ≤ max_permits
    → (left : Line) × (acquire_many_owned sem permits (idle (open_state available))
        ≡ some (record { sem = sem; permits = permits }, left))
      × (drop_owned (record { sem = sem; permits = permits }) left
          ≡ some (record { line = idle (open_state (available + (permits - 1))); woken = [] }))
unfolding acquire_many_owned try_acquire_many check_acquire_permits drop_owned add_permits
    check_add_permits store_state
drop_owned-acquire_many_owned sem permits available pos pos' le =
    (idle (open_state (available - 1)), ground arith, ground arith)
