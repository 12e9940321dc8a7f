-- ===== src/Tests/Notifying.antt =====
-- A `Notify` with the waiters 8 and 12, whose wakers are 1 and 2, and one where nobody waits.
use aiq.Prelude.{◌==◌, ℕ, ◌≡◌, refl, Bool, false, true, none, some, [], ◌∷◌, arith, if◌then◌else◌}
use aiq.Store.{update, unqueued, queued}
use aiq.Notify.{
  notified, one, all, Waiter, Notify, Notified, state_unnotified, notify_one, notify_waiters,
  poll_notified, drop_notified, hand_to,
}
use aiq.Notify.System.{new_notify, notify_by, Reach, start, notifies, creates, Reach-IsNotify}
use aiq.Notify.Delivery.{
  complete, poll_notified-notify_one, notify_waiters-ready, Found, drop_notified-notify_one,
}
use aiq.Notify.Invariant.{IsNotify}

abbrev vacant : Waiter
vacant = record { waker = none; notification = none }

abbrev quiet : Notify
quiet = record {
  state = 0;
  waiters = [];
  data_of = λ _. vacant;
  raw_state_of = λ _. unqueued;
  generation = 3;
  woken = [];
}

abbrev two_wait : Notify
two_wait = record quiet {
  waiters = 8 ∷ 12 ∷ [];
  data_of =
      update (update (λ _. vacant) 8 (record { waker = some 1; notification = none })) 12
        (record { waker = some 2; notification = none });
  raw_state_of = update (update (λ _. unqueued) 8 queued) 12 queued;
}

abbrev future : ℕ → Notified
future node = record { node = node; generation = 3; completed = false }

abbrev everywhere : ℕ → Bool
everywhere _ = true

two_wait-IsNotify : IsNotify everywhere two_wait
two_wait-IsNotify = record {
  distinct = (refl, (refl, tt));
  marked = λ z m. (ground arith, refl);
  in_queue = λ z m. ground arith;
  answered = λ z lives m. absurd (ground arith);
  state_bound = omega arith;
}

abbrev first_notified : Notify
first_notified = hand_to one 8 (12 ∷ []) two_wait

first_notified-IsNotify : IsNotify everywhere first_notified
first_notified-IsNotify = record {
  distinct = (refl, tt);
  marked = λ z m. (ground arith, refl);
  in_queue = λ z m. ground arith;
  answered = λ z lives m. (one, ground arith);
  state_bound = omega arith;
}

poll_notified-notify_one_example :
    (stored : Notify) × (notify_one quiet ≡ some stored)
    × (poll_notified notify_waiters (some 3) (future 16) stored
        ≡ some (true, complete (future 16), record stored { state = state_unnotified }))
poll_notified-notify_one_example =
    poll_notified-notify_one quiet (future 16) notify_waiters (some 3) refl refl refl

notify_waiters-ready_example :
    ((notify_waiters two_wait).waiters ≡ [])
    × ((q' : Notify) × (poll_notified notify_waiters (some 3) (future 12) (notify_waiters two_wait)
          ≡ some (true, complete (future 12), q')))
notify_waiters-ready_example =
    notify_waiters-ready two_wait (future 12) notify_waiters (some 3) (omega arith) refl

drop_notified-notify_one_example :
    (q1 : Notify) × (notify_one two_wait ≡ some q1)
    × ((q2 : Notify) × (drop_notified (future 8) q1 ≡ some q2) × Found (12 ∷ []) q2)
drop_notified-notify_one_example = drop_notified-notify_one two_wait (future 8) (12 ∷ []) refl refl

-- A future is made, and others notify.
made-Reach : Reach (λ z. if z == 16 then true else false) new_notify
unfolding new_notify notified
made-Reach = creates 16 refl refl start

Reach-IsNotify_example :
    IsNotify (λ z. if z == 16 then true else false) (notify_by all (notify_by one new_notify))
Reach-IsNotify_example = Reach-IsNotify (notifies all (notifies one made-Reach))
