-- ===== src/Tests/Handing.antt =====
-- The waiter has marked its place and is asleep when another thread links 8 to it.
use aiq.Prelude.{refl, inl, arith}
use aiq.Parker.{parked, fetch_sub, new, park_empty, lock, exchange_lost, wait, Machine}
use aiq.Parker
use aiq.Handoff.{
  in_park, spin, give_up, mark, park, go_on, move, link, Handoff, unparking, Reach, start, later,
}
use aiq.Handoff.Wakeup.{Gets, Reach-Gets}
use aiq.Tests.Parking.{asleep}

abbrev linked : Handoff
linked = record { next = 8; machine = asleep; waiter = in_park; linker = unparking }

linked-Reach : Reach 8 linked
unfolding new fetch_sub
linked-Reach =
    later
      (later
        (later
          (later
            (later
              (later
                (later (later (start 1 new Parker.start refl refl) (move (spin 0 refl refl)))
                  (move (give_up refl refl)))
                (move (mark refl refl)))
              (move (park refl (park_empty refl (λ e. absurd (omega (arith, e)))))))
            (move (go_on (lock (inl refl) refl))))
          (move (go_on (exchange_lost refl (λ e. absurd (omega (arith, e)))))))
        (move (go_on (wait refl))))
      (link refl)

Reach-Gets_example : Gets 8 (omega arith) linked
Reach-Gets_example = Reach-Gets 8 (omega arith) linked linked-Reach (λ e. cc)
