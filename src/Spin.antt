-- ===== src/Spin.antt =====
-- src/sync/spin.rs: `SpinMutex`, its flag and the threads that lock it, an atomic access at a time.
pub mod Exclusion
use aiq.Prelude.{ℕ, ◌≡◌, Bool, true, false}
use aiq.Store.{update}

-- Where a thread stands: outside, before the swap, before a load of the inner loop, with the lock.
pub data Place : Type 0 where
  away trying testing inside : Place

pub record SpinMutex : Type 0 where
  pub flag : Bool
  pub place_of : ℕ → Place

unfoldable pub init : SpinMutex
init = record { flag = false; place_of = λ _. away }

abbrev pub move_to : ℕ → Place → Bool → SpinMutex → SpinMutex
move_to i p flag m = record { flag = flag; place_of = update m.place_of i p }

-- The next access of a thread in `lock` or `unlock`.
pub data Move (m : SpinMutex) : SpinMutex → Type 0 where
  swap_free : (i : ℕ) → m.place_of i ≡ trying → m.flag ≡ false → Move m (move_to i inside true m)
  swap_taken : (i : ℕ) → m.place_of i ≡ trying → m.flag ≡ true → Move m (move_to i testing true m)
  load_false :
      (i : ℕ) → m.place_of i ≡ testing → m.flag ≡ false → Move m (move_to i testing m.flag m)
  load_true : (i : ℕ) → m.place_of i ≡ testing → m.flag ≡ true → Move m (move_to i trying m.flag m)
  unlock : (i : ℕ) → m.place_of i ≡ inside → Move m (move_to i away false m)

-- Any step: also a call of `lock`.
pub data Step (m : SpinMutex) : SpinMutex → Type 0 where
  go_on : {u : SpinMutex} → Move m u → Step m u
  call : (i : ℕ) → m.place_of i ≡ away → Step m (move_to i trying m.flag m)

pub data Reach : SpinMutex → Type 0 where
  start : Reach init
  later : {m u : SpinMutex} → Reach m → Step m u → Reach u

-- Runs with no further call of `lock`.
pub data Moves (m : SpinMutex) : SpinMutex → Type 0 where
  done : Moves m m
  then : {u v : SpinMutex} → Moves m u → Move u v → Moves m v
