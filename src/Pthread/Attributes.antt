-- ===== src/Pthread/Attributes.antt =====
-- The attributes of a mutex are destroyed once if they were initialised, whatever libc returns, and a lock
-- is taken on an initialised mutex.
use aiq.Prelude.{
  ℕ, suc, ◌+◌, ◌≡◌, Bool, true, false, List, [], ◌∷◌, ◌==◌, if◌then◌else◌, arith, ◌++◌,
}
use aiq.Pthread.{
  LibcCall, attr_init, attr_settype, attr_destroy, mutex_init, mutex_lock, Libc, Outcome, returned,
  panicked, aborted, and_then, unwrap, drop_guard, end_scope, init, raw, lock,
}

-- The calls that were made, the last one first.
abbrev pub calls_of : Outcome → List LibcCall
calls_of (returned calls) = calls
calls_of (panicked calls) = calls
calls_of (aborted calls) = calls

abbrev is_destroy : LibcCall → ℕ
is_destroy attr_destroy = 1
is_destroy _ = 0

abbrev pub destroys : List LibcCall → ℕ
destroys [] = 0
destroys (c ∷ calls) = is_destroy c + destroys calls

abbrev pub returns : Outcome → Bool
returns (returned calls) = true
returns (panicked calls) = false
returns (aborted calls) = false

-- The calls of a first lock that returns, and of one that finds the mutex.
abbrev pub first_lock_calls : List LibcCall
first_lock_calls = mutex_lock ∷ attr_destroy ∷ mutex_init ∷ attr_settype ∷ attr_init ∷ []

-- Whatever libc returns, `RawMutex::init` destroys the attributes exactly once if they were initialised, and not at
-- all if that failed.
pub init-destroys :
    (libc : Libc) (calls : List LibcCall)
    → destroys (calls_of (init libc calls))
      ≡ (if libc calls attr_init == 0 then suc (destroys calls) else destroys calls)
unfolding init and_then unwrap end_scope drop_guard
init-destroys libc calls = ground arith

-- A lock that returns has made the calls that a mutex needs, in their order;
-- it makes only the last of them if the mutex was there.
pub lock-returned :
    (libc : Libc) (initialised : Bool) (calls : List LibcCall)
    → returns (lock libc initialised calls) ≡ true
    → calls_of (lock libc initialised calls)
      ≡ (if initialised then mutex_lock ∷ calls else first_lock_calls ++ calls)
unfolding lock raw init and_then unwrap end_scope drop_guard
lock-returned libc true calls e = ground arith
lock-returned libc false calls e = ground arith
