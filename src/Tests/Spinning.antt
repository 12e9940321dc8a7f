-- ===== src/Tests/Spinning.antt =====
-- Threads 0 and 1 at a spin lock.
use aiq.Prelude.{ℕ, ◌≡◌, refl, true, false, arith}
use aiq.Store.{update}
use aiq.Spin.{
  away, trying, testing, inside, SpinMutex, init, swap_free, swap_taken, load_false, unlock, go_on,
  call, Reach, start, later, done, then,
}
use aiq.Spin.Exclusion.{mutual_exclusion, IsStuck, Moves-IsStuck}

-- Thread 1 found it taken, and thread 0 gave it back
-- before thread 1 loads the flag.
abbrev one_spins : SpinMutex
one_spins = record {
  flag = false;
  place_of =
      update (update (update (update (update (λ _. away) 0 trying) 0 inside) 1 trying) 1 testing) 0
        away;
}

one_spins-Reach : Reach one_spins
unfolding init
one_spins-Reach =
    later
      (later
        (later (later (later start (call 0 refl)) (go_on (swap_free 0 refl refl))) (call 1 refl))
        (go_on (swap_taken 1 refl refl)))
      (go_on (unlock 0 refl))

one_spins-IsStuck : IsStuck one_spins
one_spins-IsStuck = record { free = refl; spinning = λ i. ground arith }

-- It loads the flag again, in vain.
abbrev spun : SpinMutex
spun = record { flag = false; place_of = update one_spins.place_of 1 testing }

Moves-IsStuck_example : IsStuck spun × (one_spins.place_of 1 ≡ testing → spun.place_of 1 ≡ testing)
Moves-IsStuck_example =
    Moves-IsStuck one_spins spun 1 one_spins-IsStuck (then done (load_false 1 refl refl))

abbrev one_inside : SpinMutex
one_inside = record { flag = true; place_of = update (update (λ _. away) 0 trying) 0 inside }

one_inside-Reach : Reach one_inside
unfolding init
one_inside-Reach = later (later start (call 0 refl)) (go_on (swap_free 0 refl refl))

mutual_exclusion_example : ◌≡◌ {A = ℕ} 0 0
mutual_exclusion_example = mutual_exclusion one_inside 0 0 one_inside-Reach refl refl
