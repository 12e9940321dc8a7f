-- ===== src/Tests/Acquiring.antt =====
-- A semaphore made with two permits: one task takes a permit and another asks for three.
use aiq.Prelude.{◌<◌, ◌≡◌, refl, some, [], ◌∷◌, map, arith}
use aiq.Semaphore.{
  Waiter, idle, waiting, Woken, close, ready_closed, closed, try_acquire_many, SemaphorePermit,
  drop_permit, pending, wake_all,
}
use aiq.Semaphore.Permits.{new-available, try_acquire_many-exact, poll_unqueued-exact}
use aiq.Semaphore.Futures.{unqueued, dequeued, poll_acquire}
use aiq.Semaphore.System.{State, try_acquire_step, poll_waits, accounted, waiters}
use aiq.Semaphore.Promises.{Reach, start, step, Reach-accounted, drop_permit-runs, waiting-exceeds}
use aiq.Semaphore.Closing.{close-Refuses}

abbrev new_state : State
new_state = record { line = idle 4; asked = []; left_queue = []; permits = []; total = 2 }

new_state-Reach : Reach new_state
new_state-Reach = start (omega arith) (new-available 2 (omega arith))

abbrev one_permit : SemaphorePermit
one_permit = record { sem = 1; permits = 1 }

abbrev one_taken : State
one_taken = record new_state { line = idle 2; permits = one_permit ∷ [] }

one_taken-Reach : Reach one_taken
one_taken-Reach = step new_state-Reach (try_acquire_step 1 1 (idle 2) (try_acquire_many-exact 2 1))

-- The first poll of an acquisition for three permits, with two available
abbrev for_one_more : Waiter
for_one_more = record { waker = some 7; permits_remaining = 1 }

poll_three : poll_acquire 3 7 unqueued (idle 4) ≡ pending (waiting for_one_more [])
unfolding poll_acquire
poll_three = poll_unqueued-exact 2 3 7 (omega arith)

abbrev three_wanted : State
three_wanted = record new_state { line = waiting for_one_more []; asked = 3 ∷ [] }

three_wanted-Reach : Reach three_wanted
three_wanted-Reach =
    step new_state-Reach (poll_waits 3 7 (waiting for_one_more []) (omega arith) poll_three)

Reach-accounted_example : accounted three_wanted ≡ 2
Reach-accounted_example = Reach-accounted three_wanted three_wanted-Reach

drop_permit-runs_example : (r : Woken) × (drop_permit one_permit (idle 2) ≡ some r)
drop_permit-runs_example = drop_permit-runs one_taken one_permit [] [] one_taken-Reach refl

waiting-exceeds_example : 2 < 3
waiting-exceeds_example =
    waiting-exceeds three_wanted 3 [] for_one_more [] three_wanted-Reach refl refl refl
      (omega arith) refl

close_waiting : close (waiting for_one_more []) ≡ some (record { line = idle 1; woken = 7 ∷ [] })
unfolding close wake_all
close_waiting = refl

close-Refuses_example :
    ((poll_acquire 2 9 unqueued (idle 1) ≡ ready_closed)
      × ((w : Waiter) → poll_acquire 2 9 (dequeued w) (idle 1) ≡ ready_closed)
      × (try_acquire_many 2 (idle 1) ≡ closed))
    × (map (λ w. w.waker) (waiters (waiting for_one_more [])) ≡ map some (7 ∷ []))
close-Refuses_example =
    close-Refuses (waiting for_one_more []) (record { line = idle 1; woken = 7 ∷ [] }) 2 9
      close_waiting
