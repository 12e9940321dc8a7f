-- ===== src/Tests/Waking.antt =====
-- A thread that sleeps at a futex, and another that unparks it.
use aiq.Prelude.{refl, arith, ◌==◌, false, ==→eq}
use aiq.Store.{update}
use aiq.AtomicParker.{
  Futex, notified_word, asleep, idle, before_wake, AtomicParker, init, word_before, sleep, go_on,
  park, unpark_parked, Reach, start, later,
}
use aiq.AtomicParker.Wakes.{Wakes, Reach-Wakes}

abbrev exact : Futex
exact = record {
  sleeps = λ word value. word == value;
  sleeps_on = false;
  sleeps_same = λ word value e. ==→eq word value e;
  wakes = refl;
}

abbrev unparked_asleep : AtomicParker
unparked_asleep = record {
  word = notified_word;
  sleeper = asleep;
  waker = update (λ _. idle) 0 before_wake;
}

unparked_asleep-Reach : Reach exact unparked_asleep
unfolding init word_before
unparked_asleep-Reach =
    later
      (later (later start (park refl (λ e. absurd (omega (arith, e))))) (go_on (sleep refl refl)))
      (unpark_parked 0 refl refl)

Reach-Wakes_example : Wakes exact unparked_asleep
Reach-Wakes_example = Reach-Wakes exact unparked_asleep unparked_asleep-Reach refl
