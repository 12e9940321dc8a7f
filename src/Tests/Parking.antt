-- ===== src/Tests/Parking.antt =====
-- A thread that parks and falls asleep, and another that unparks it.
use aiq.Prelude.{refl, inl, arith}
use aiq.Store.{update}
use aiq.Parker.{
  parked, notified, fetch_sub, Machine, new, nobody, sleeping, waking, resting, park_empty, lock,
  exchange_lost, wait, swap_parked, park, unpark, go_on, Reach, start, later,
}
use aiq.Parker.Liveness.{Returns, notified-Returns}

abbrev pub asleep : Machine
asleep = record {
  state = parked;
  holder = nobody;
  park_pc = sleeping;
  unpark_pc = λ _. resting;
  unparks = 0;
  returns = 0;
}

asleep-Reach : Reach asleep
unfolding new fetch_sub
asleep-Reach =
    later
      (later
        (later (later start (park (park_empty refl (λ e. absurd (omega (arith, e))))))
          (go_on (lock (inl refl) refl)))
        (go_on (exchange_lost refl (λ e. absurd (omega (arith, e))))))
      (go_on (wait refl))

abbrev unparked : Machine
unparked = record asleep {
  state = notified;
  unpark_pc = update asleep.unpark_pc 0 waking;
  unparks = 1;
}

unparked-Reach : Reach unparked
unparked-Reach = later asleep-Reach (unpark (swap_parked 0 refl refl))

notified-Returns_example : Returns unparked
notified-Returns_example = notified-Returns unparked unparked-Reach refl
