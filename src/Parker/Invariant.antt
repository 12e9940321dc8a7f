-- ===== src/Parker/Invariant.antt =====
-- What holds of a parker in every reachable state.
use aiq.Prelude.{ℕ, ◌+◌, ◌≤◌, ◌≡◌, refl, sym, subst, ◌⊎◌, inl, inr, ◌==◌, arith, if◌then◌else◌}
use aiq.Store.{update}
use aiq.Parker.{
  notified, fetch_sub, ParkPc, locking, checking, woken, waking, locked, nobody, unparker, Machine,
  new, Park, park_notified, park_empty, Unpark, swap_other, swap_parked, Move, lock, exchange_won,
  exchange_lost, wait, unlock, lock_unparker, unlock_unparker, notify_one, Step, park, unpark,
  go_on, spurious, Reach, start, later,
}
use aiq.Parker.Places.{
  Expects, Holds, Waker, Expects-notified, Waker-other, Waker-waking, Holds-other, wake_up-Expects,
  wake_up-Holds, Waker-locked, Waker-signalling, Waker-resting,
}

pub record IsParker (m : Machine) : Type 0 where
  pub expects : Expects m.park_pc m.state
  pub holds : Holds m.park_pc m.holder
  pub locked_holds : (i : ℕ) → m.unpark_pc i ≡ locked → m.holder ≡ unparker i
  pub holds_locked : (i : ℕ) → m.holder ≡ unparker i → m.unpark_pc i ≡ locked
  pub waker : m.state ≡ notified → Waker m.unpark_pc m.park_pc
  pub counted : m.returns + (if m.state == notified then 1 else 0) ≤ m.unparks

new-IsParker : IsParker new
unfolding new
new-IsParker = record {
  expects = inl refl;
  holds = λ e. cc;
  locked_holds = λ i e. cc;
  holds_locked = λ i e. cc;
  waker = λ e. tt;
  counted = omega arith;
}

module _ {m : Machine} (ok : IsParker m) {pc : ParkPc} (at : m.park_pc ≡ pc) where
  pub Expects-at : Expects pc m.state
  Expects-at = subst (λ p. Expects p m.state) at ok.expects

  pub Holds-at : Holds pc m.holder
  Holds-at = subst (λ p. Holds p m.holder) at ok.holds

  pub Waker-at : m.state ≡ notified → Waker m.unpark_pc pc
  Waker-at e = subst (Waker m.unpark_pc) at (ok.waker e)

Park-IsParker : {m u : Machine} → Park m u → IsParker m → IsParker u
unfolding fetch_sub
Park-IsParker {m} (park_notified at e) ok = record {
  expects = subst (λ p. Expects p (fetch_sub m.state)) (sym at) (inl (ground arith));
  holds = ok.holds;
  locked_holds = ok.locked_holds;
  holds_locked = ok.holds_locked;
  waker = λ e'. absurd (ground arith);
  counted = ground (arith, ok.counted);
}
Park-IsParker (park_empty at ne) ok = record {
  expects = inl (ground (arith, Expects-at ok at));
  holds = Holds-at ok at;
  locked_holds = ok.locked_holds;
  holds_locked = ok.holds_locked;
  waker = λ e. tt;
  counted = ground (arith, ok.counted, Expects-at ok at);
}

Unpark-IsParker : {m u : Machine} → Unpark m u → IsParker m → IsParker u
Unpark-IsParker {m} (swap_other i at ne) ok = record {
  expects = Expects-notified m.park_pc;
  holds = ok.holds;
  locked_holds = ok.locked_holds;
  holds_locked = ok.holds_locked;
  waker = λ e. Waker-other m.unpark_pc m.park_pc m.state ne ok.expects ok.waker;
  counted = ground (arith, ok.counted);
}
Unpark-IsParker {m} (swap_parked i at e) ok = record {
  expects = Expects-notified m.park_pc;
  holds = ok.holds;
  locked_holds = λ j e'. ground (arith, ok.locked_holds j);
  holds_locked = λ j e'. ground (arith, ok.holds_locked j);
  waker = λ e'. Waker-waking (update m.unpark_pc i waking) m.park_pc i (ground arith);
  counted = ground (arith, ok.counted);
}

may_lock :
    {m : Machine}
    → IsParker m
    → (m.park_pc ≡ locking) ⊎ (m.park_pc ≡ woken)
    → Expects checking m.state
may_lock ok (inl at) = Expects-at ok at
may_lock ok (inr at) = Expects-at ok at

pub Move-IsParker : {m u : Machine} → Move m u → IsParker m → IsParker u
Move-IsParker (lock at free) ok = record {
  expects = may_lock ok at;
  holds = refl;
  locked_holds = λ i e. cc (ok.locked_holds i e);
  holds_locked = λ i e. cc;
  waker = λ e. tt;
  counted = ok.counted;
}
Move-IsParker (exchange_won at e) ok = record {
  expects = inl refl;
  holds = Holds-at ok at;
  locked_holds = ok.locked_holds;
  holds_locked = ok.holds_locked;
  waker = λ e'. tt;
  counted = ground (arith, ok.counted);
}
Move-IsParker (exchange_lost at ne) ok = record {
  expects = Expects-at ok at;
  holds = Holds-at ok at;
  locked_holds = ok.locked_holds;
  holds_locked = ok.holds_locked;
  waker = λ e. absurd (ne e);
  counted = ok.counted;
}
Move-IsParker (wait at) ok = record {
  expects = Expects-at ok at;
  holds = λ e. cc;
  locked_holds = λ i e. cc (ok.locked_holds i e, Holds-at ok at);
  holds_locked = λ i e. cc;
  waker = λ e. let (i, c) = Waker-at ok at e in (i, inl c);
  counted = ok.counted;
}
Move-IsParker (unlock at) ok = record {
  expects = Expects-at ok at;
  holds = λ e. cc;
  locked_holds = λ i e. cc (ok.locked_holds i e, Holds-at ok at);
  holds_locked = λ i e. cc;
  waker = λ e. tt;
  counted = ok.counted;
}
Move-IsParker {m} (lock_unparker i at free) ok = record {
  expects = ok.expects;
  holds = Holds-other m.park_pc m.holder (unparker i) (λ e. cc) (λ e. cc) ok.holds;
  locked_holds = λ j e. ground (arith, ok.locked_holds j);
  holds_locked = λ j e. ground arith;
  waker = λ e.
      Waker-locked m.unpark_pc m.park_pc i (subst (Holds m.park_pc) free ok.holds) (ok.waker e);
  counted = ok.counted;
}
Move-IsParker {m} (unlock_unparker i at) ok = record {
  expects = ok.expects;
  holds = Holds-other m.park_pc m.holder nobody (λ e. cc (ok.locked_holds i at)) (λ e. cc) ok.holds;
  locked_holds = λ j e. ground (arith, ok.locked_holds j, ok.locked_holds i at);
  holds_locked = λ j e. cc;
  waker = λ e. Waker-signalling m.unpark_pc m.park_pc i at (ok.waker e);
  counted = ok.counted;
}
Move-IsParker {m} (notify_one i at) ok = record {
  expects = wake_up-Expects m.park_pc m.state ok.expects;
  holds = wake_up-Holds m.park_pc m.holder ok.holds;
  locked_holds = λ j e. ground (arith, ok.locked_holds j);
  holds_locked = λ j e. ground (arith, ok.holds_locked j);
  waker = λ e. Waker-resting m.unpark_pc m.park_pc i at (ok.waker e);
  counted = ok.counted;
}

pub Step-IsParker : {m u : Machine} → Step m u → IsParker m → IsParker u
Step-IsParker (park p) ok = Park-IsParker p ok
Step-IsParker (unpark p) ok = Unpark-IsParker p ok
Step-IsParker (go_on p) ok = Move-IsParker p ok
Step-IsParker (spurious at) ok = record {
  expects = Expects-at ok at;
  holds = Holds-at ok at;
  locked_holds = ok.locked_holds;
  holds_locked = ok.holds_locked;
  waker = λ e. tt;
  counted = ok.counted;
}

pub Reach-IsParker : {m : Machine} → Reach m → IsParker m
Reach-IsParker start = new-IsParker
Reach-IsParker (later r s) = Step-IsParker s (Reach-IsParker r)
