-- ===== src/Pthread.antt =====
-- src/sync/pthread.rs: `RawMutex::init` and `PthreadMutex`, the calls of libc and their error codes. What
-- libc returns is a parameter: the code of a call, for the calls made before it, the last one first. The
-- destructor of the mutex where `init` unwinds is not modelled.
pub mod Attributes
use aiq.Prelude.{ℕ, Bool, true, false, List, [], ◌∷◌, ◌==◌, if◌then◌else◌}

-- The calls on the mutex's attributes, and on the mutex.
pub data LibcCall : Type 0 where
  attr_init attr_settype attr_destroy : LibcCall
  mutex_init mutex_lock mutex_unlock : LibcCall

abbrev pub Libc : Type 0
Libc = List LibcCall → LibcCall → ℕ

-- What a call does: it returns, it panics, or the process aborts, since a destructor panicked while the
-- thread was unwinding.
pub data Outcome : Type 0 where
  returned panicked aborted : List LibcCall → Outcome

unfoldable pub and_then : Outcome → (List LibcCall → Outcome) → Outcome
and_then (returned calls) f = f calls
and_then (panicked calls) f = panicked calls
and_then (aborted calls) f = aborted calls

module _ (libc : Libc) where
  -- `unwrap` of a call's code
  unfoldable pub unwrap : LibcCall → List LibcCall → Outcome
  unwrap c calls = if libc calls c == 0 then returned (c ∷ calls) else panicked (c ∷ calls)

  -- `AttrGuard::drop`, where the thread unwinds or not
  unfoldable pub drop_guard : (unwinding : Bool) → List LibcCall → Outcome
  drop_guard unwinding calls =
      if libc calls attr_destroy == 0
      then (if unwinding then panicked (attr_destroy ∷ calls) else returned (attr_destroy ∷ calls))
      else (if unwinding then aborted (attr_destroy ∷ calls) else panicked (attr_destroy ∷ calls))

  -- What happens to the guard at the end of its scope.
  unfoldable pub end_scope : Outcome → Outcome
  end_scope (returned calls) = drop_guard false calls
  end_scope (panicked calls) = drop_guard true calls
  end_scope (aborted calls) = aborted calls

  -- `RawMutex::init`; the guard's scope begins once the attributes are initialised.
  unfoldable pub init : List LibcCall → Outcome
  init calls =
      and_then (unwrap attr_init calls)
        (λ calls. end_scope (and_then (unwrap attr_settype calls) (unwrap mutex_init)))

  -- `PthreadMutex::raw`, for whether the lazy box has its mutex, where no other thread asks for it
  unfoldable pub raw : (initialised : Bool) → List LibcCall → Outcome
  raw initialised calls = if initialised then returned calls else init calls

  unfoldable pub lock : (initialised : Bool) → List LibcCall → Outcome
  lock initialised calls = and_then (raw initialised calls) (unwrap mutex_lock)

  unfoldable pub unlock : (initialised : Bool) → List LibcCall → Outcome
  unlock initialised calls = and_then (raw initialised calls) (unwrap mutex_unlock)
