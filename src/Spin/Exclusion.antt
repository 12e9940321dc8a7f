-- ===== src/Spin/Exclusion.antt =====
-- The lock excludes, but its inner loop waits for the wrong value.
use aiq.Prelude.{ℕ, ◌≡◌, ◌⊎◌, refl, true, false, arith}
use aiq.Spin.{
  away, testing, inside, SpinMutex, init, Move, swap_free, swap_taken, load_false, load_true,
  unlock, Step, go_on, call, Reach, start, later, Moves, done, then,
}

pub record IsSpinMutex (m : SpinMutex) : Type 0 where
  pub taken : (i : ℕ) → m.place_of i ≡ inside → m.flag ≡ true
  pub one_inside : (i j : ℕ) → m.place_of i ≡ inside → m.place_of j ≡ inside → i ≡ j

init-IsSpinMutex : IsSpinMutex init
unfolding init
init-IsSpinMutex = record { taken = λ i e. cc; one_inside = λ i j e e'. cc }

Move-IsSpinMutex : {m u : SpinMutex} → Move m u → IsSpinMutex m → IsSpinMutex u
Move-IsSpinMutex (swap_free i at free) ok = record {
  taken = λ j e. refl;
  one_inside = λ j k e e'. ground (arith, ok.taken j, ok.taken k);
}
Move-IsSpinMutex (swap_taken i at e) ok = record {
  taken = λ j e'. refl;
  one_inside = λ j k e' e''. ground (arith, ok.one_inside j k);
}
Move-IsSpinMutex (load_false i at e) ok = record {
  taken = λ j e'. ground (arith, ok.taken j);
  one_inside = λ j k e' e''. ground (arith, ok.one_inside j k);
}
Move-IsSpinMutex (load_true i at e) ok = record {
  taken = λ j e'. ground (arith, ok.taken j);
  one_inside = λ j k e' e''. ground (arith, ok.one_inside j k);
}
Move-IsSpinMutex (unlock i at) ok = record {
  taken = λ j e. ground (arith, ok.one_inside i j);
  one_inside = λ j k e e'. ground (arith, ok.one_inside j k);
}

Step-IsSpinMutex : {m u : SpinMutex} → Step m u → IsSpinMutex m → IsSpinMutex u
Step-IsSpinMutex (go_on mv) ok = Move-IsSpinMutex mv ok
Step-IsSpinMutex (call i at) ok = record {
  taken = λ j e. ground (arith, ok.taken j);
  one_inside = λ j k e e'. ground (arith, ok.one_inside j k);
}

Reach-IsSpinMutex : {m : SpinMutex} → Reach m → IsSpinMutex m
Reach-IsSpinMutex start = init-IsSpinMutex
Reach-IsSpinMutex (later r s) = Step-IsSpinMutex s (Reach-IsSpinMutex r)

-- Two threads are never inside together, in any interleaving of any number of threads.
pub mutual_exclusion :
    (m : SpinMutex) (i j : ℕ) → Reach m → m.place_of i ≡ inside → m.place_of j ≡ inside → i ≡ j
mutual_exclusion m i j r e e' = (Reach-IsSpinMutex r).one_inside i j e e'

-- The lock is free, and every thread in `lock` is in the inner loop.
pub record IsStuck (m : SpinMutex) : Type 0 where
  pub free : m.flag ≡ false
  pub spinning : (i : ℕ) → (m.place_of i ≡ away) ⊎ (m.place_of i ≡ testing)

Move-IsStuck :
    {m u : SpinMutex} (i : ℕ)
    → Move m u
    → IsStuck m
    → IsStuck u × (m.place_of i ≡ testing → u.place_of i ≡ testing)
Move-IsStuck i (swap_free j at e) s = absurd (ground (arith, s.spinning j))
Move-IsStuck i (swap_taken j at e) s = absurd (ground (arith, s.spinning j))
Move-IsStuck i (load_false j at e) s =
    (record { free = s.free; spinning = λ k. ground (arith, s.spinning k) }, λ e'. ground arith)
Move-IsStuck i (load_true j at e) s = absurd (ground (arith, s.free))
Move-IsStuck i (unlock j at) s = absurd (ground (arith, s.spinning j))

-- Where the lock is free and all threads that want it are in the inner loop, none of them ever gets it,
-- unless another thread comes and takes it.
pub Moves-IsStuck :
    (m u : SpinMutex) (i : ℕ)
    → IsStuck m
    → Moves m u
    → IsStuck u × (m.place_of i ≡ testing → u.place_of i ≡ testing)
Moves-IsStuck m u i s done = (s, λ e. e)
Moves-IsStuck m u i s (then mvs mv) =
    let (s', stays) = Moves-IsStuck m _ i s mvs in
    let (s'', stays') = Move-IsStuck i mv s' in (s'', λ e. stays' (stays e))
