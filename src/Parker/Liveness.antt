-- ===== src/Parker/Liveness.antt =====
-- No notification is lost: a thread that parks and has been notified can return, by steps of calls that
-- have begun, so with no further call of `unpark` and no wake-up without a cause.
use aiq.Prelude.{ℕ, ◌≡◌, ◌≢◌, refl, ap, ◌≤◌, ◌⊎◌, inl, inr, arith}
use aiq.Parker.{
  empty, parked, wake_up, notified, ParkPc, outside, locking, checking, failing, sleeping, woken,
  leaving, waking, locked, signalling, Holder, nobody, parker, unparker, Machine, Move, lock,
  exchange_won, wait, unlock, lock_unparker, unlock_unparker, notify_one, Moves, done, then, Reach,
}
use aiq.Parker.Invariant.{IsParker, Move-IsParker, Reach-IsParker, Holds-at, Waker-at}
use aiq.Parker.Places.{Expects}

abbrev pub Returns : Machine → Type 0
Returns m = (u : Machine) × Moves m u × (u.park_pc ≡ outside)

from_move : {m u : Machine} → Move m u → Returns u → Returns m
from_move mv (v, mvs, at) = (v, then mv mvs, at)

from_leaving : (m : Machine) → m.park_pc ≡ leaving → Returns m
from_leaving m at = from_move (unlock at) (_, done, refl)

from_checking : (m : Machine) → m.state ≡ notified → m.park_pc ≡ checking → Returns m
from_checking m e at = from_move (exchange_won at e) (from_leaving _ refl)

-- Awake and with the mutex free, it locks it.
from_free :
    (m : Machine)
    → m.state ≡ notified
    → (m.park_pc ≡ locking) ⊎ (m.park_pc ≡ woken)
    → m.holder ≡ nobody
    → Returns m
from_free m e at free = from_move (lock at free) (from_checking _ e refl)

-- Awake, it waits for at most one other thread, which holds the mutex and gives it back.
from_awake :
    (m : Machine)
    → IsParker m
    → m.state ≡ notified
    → (m.park_pc ≡ locking) ⊎ (m.park_pc ≡ woken)
    → m.holder ≢ parker
    → Returns m
from_awake m ok e at ne = by_holder m.holder refl
  where
    by_holder : (h : Holder) → m.holder ≡ h → Returns m
    by_holder nobody free = from_free m e at free
    by_holder parker held = absurd (ne held)
    by_holder (unparker j) held =
        from_move (unlock_unparker j (ok.holds_locked j held)) (from_free _ e at refl)

from_signalling :
    (m : Machine) (i : ℕ)
    → IsParker m
    → m.state ≡ notified
    → m.park_pc ≡ sleeping
    → m.unpark_pc i ≡ signalling
    → Returns m
unfolding wake_up
from_signalling m i ok e at sig =
    let mv = notify_one i sig in
    from_move mv (from_awake _ (Move-IsParker mv ok) e (inr (ap wake_up at)) (Holds-at ok at))

from_locked :
    (m : Machine) (i : ℕ)
    → IsParker m
    → m.state ≡ notified
    → m.park_pc ≡ sleeping
    → m.unpark_pc i ≡ locked
    → Returns m
from_locked m i ok e at has =
    let mv = unlock_unparker i has in
    from_move mv (from_signalling _ i (Move-IsParker mv ok) e at (ground arith))

from_waking_free :
    (m : Machine) (i : ℕ)
    → IsParker m
    → m.state ≡ notified
    → m.park_pc ≡ sleeping
    → m.unpark_pc i ≡ waking
    → m.holder ≡ nobody
    → Returns m
from_waking_free m i ok e at wants free =
    let mv = lock_unparker i wants free in
    from_move mv (from_locked _ i (Move-IsParker mv ok) e at (ground arith))

from_waking :
    (m : Machine) (i : ℕ)
    → IsParker m
    → m.state ≡ notified
    → m.park_pc ≡ sleeping
    → m.unpark_pc i ≡ waking
    → Returns m
from_waking m i ok e at wants = by_holder m.holder refl
  where
    by_holder : (h : Holder) → m.holder ≡ h → Returns m
    by_holder nobody free = from_waking_free m i ok e at wants free
    by_holder parker held = absurd (Holds-at ok at held)
    by_holder (unparker j) held =
        let has = ok.holds_locked j held in
        let mv = unlock_unparker j has in
        from_move mv (from_waking_free _ i (Move-IsParker mv ok) e at (ground arith) refl)

from_sleeping : (m : Machine) → IsParker m → m.state ≡ notified → m.park_pc ≡ sleeping → Returns m
from_sleeping m ok e at =
    let (i, where_it_is) = Waker-at ok at e in
    elim where_it_is [
      | inl wants ↦ from_waking m i ok e at wants
      | inr later ↦ elim later [
        | inl has ↦ from_locked m i ok e at has
        | inr sig ↦ from_signalling m i ok e at sig
      ]
    ]

from_failing : (m : Machine) → IsParker m → m.state ≡ notified → m.park_pc ≡ failing → Returns m
from_failing m ok e at =
    let mv = wait at in from_move mv (from_sleeping _ (Move-IsParker mv ok) e refl)

-- From every reachable state with a notification, the thread in `park` can return by steps of calls
-- that have begun, with no further `unpark` and no wake-up without a cause.
pub notified-Returns : (m : Machine) → Reach m → m.state ≡ notified → Returns m
notified-Returns m r e = by_place m.park_pc refl
  where
    ok : IsParker m
    ok = Reach-IsParker r

    by_place : (pc : ParkPc) → m.park_pc ≡ pc → Returns m
    by_place outside at = (m, done, at)
    by_place locking at = from_awake m ok e (inl at) (Holds-at ok at)
    by_place checking at = from_checking m e at
    by_place failing at = from_failing m ok e at
    by_place sleeping at = from_sleeping m ok e at
    by_place woken at = from_awake m ok e (inr at) (Holds-at ok at)
    by_place leaving at = from_leaving m at

-- The state is `EMPTY`, `PARKED` or `NOTIFIED` in every reachable state, and `park` has consumed no more
-- notifications than `unpark` has given.
pub Reach-bounds :
    (m : Machine)
    → Reach m
    → ((m.state ≡ empty) ⊎ ((m.state ≡ parked) ⊎ (m.state ≡ notified))) × (m.returns ≤ m.unparks)
Reach-bounds m r =
    (by_place m.park_pc (Reach-IsParker r).expects, omega (arith, (Reach-IsParker r).counted))
  where
    by_place :
        (pc : ParkPc)
        → Expects pc m.state
        → (m.state ≡ empty) ⊎ ((m.state ≡ parked) ⊎ (m.state ≡ notified))
    by_place outside e = ground arith
    by_place locking e = ground arith
    by_place checking e = ground arith
    by_place failing e = ground arith
    by_place sleeping e = ground arith
    by_place woken e = ground arith
    by_place leaving e = ground arith
