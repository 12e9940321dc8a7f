-- ===== src/Tests/Waiters.antt =====
-- A wait queue with the waiters 8 and 12, whose wakers are 1 and 2, and 16 that comes to wait.
use aiq.Prelude.{
  ◌≢◌, ◌+◌, ◌<◌, length, ℕ, Bool, List, ◌++◌, ◌≡◌, refl, false, true, none, some, [], ◌∷◌, arith,
  has, ◌==◌, inl, inr, Bool-cases,
}
use aiq.Store.{update, unqueued, queued}
use aiq.WaitQueue.{
  Waiter, WaitQueue, notify_many, notify_all, close, is_closed, poll_wait, notify_one, is_full,
  drained,
}
use aiq.WaitQueue.Dropping.{drop_wait, drop_wait-IsWaitQueue, drop_wait-notify_one}
use aiq.WaitQueue.Wakers.{WakerList, Holds, push, is_full_list, drain_list, push-Holds}
use aiq.WaitQueue.Notify.{notify_times, notify_many-times}
use aiq.WaitQueue.Closing.{Wakers, close-Closed, notify_all-IsWaitQueue}
use aiq.WaitQueue.Waiting.{IsWaitQueue, notify_many-IsWaitQueue, poll_wait-IsWaitQueue}

abbrev nobody : Waiter
nobody = record { waker = none; notification = none }

abbrev waiting_two : WaitQueue
waiting_two = record {
  state = 0;
  waiters = 8 ∷ 12 ∷ [];
  data_of =
      update (update (λ _. nobody) 8 (record { waker = some 1; notification = none })) 12
        (record { waker = some 2; notification = none });
  raw_state_of = update (update (λ _. unqueued) 8 queued) 12 queued;
  woken = [];
}

waiting_two-IsWaitQueue : IsWaitQueue waiting_two
waiting_two-IsWaitQueue = record {
  distinct = (refl, (refl, tt));
  marked = λ z m. ground arith;
  in_queue = λ z m. ground arith;
  has_waker =
      λ z m. elim (Bool-cases (z == 12)) [ inl h ↦ (2, ground arith) | inr h ↦ (1, ground arith) ];
}

notify_many-times_example : notify_many 5 waiting_two ≡ notify_times 5 waiting_two
notify_many-times_example = notify_many-times 5 waiting_two

notify_many-IsWaitQueue_example :
    (q' : WaitQueue) × (notify_many 5 waiting_two ≡ some q') × IsWaitQueue q'
notify_many-IsWaitQueue_example = notify_many-IsWaitQueue 5 waiting_two waiting_two-IsWaitQueue

poll_wait-IsWaitQueue_example :
    IsWaitQueue (poll_wait false 16 3 waiting_two).1
    × ((poll_wait false 16 3 waiting_two).0 ≡ false
        → has 16 (poll_wait false 16 3 waiting_two).1.waiters ≡ true)
poll_wait-IsWaitQueue_example = poll_wait-IsWaitQueue false 16 3 waiting_two waiting_two-IsWaitQueue

close-Closed_example :
    (q' : WaitQueue) × (close waiting_two ≡ some q')
    × IsWaitQueue q'
    × (is_closed q' ≡ true)
    × ((requeue : Bool) (x cx_waker : ℕ) → (poll_wait requeue x cx_waker q').0 ≡ true)
close-Closed_example = close-Closed waiting_two waiting_two-IsWaitQueue

notify_all-IsWaitQueue_example :
    (q' : WaitQueue) × (notify_all waiting_two ≡ some q')
    × IsWaitQueue q'
    × (is_closed q' ≡ false)
    × ((x : ℕ) → has x (8 ∷ 12 ∷ []) ≡ true → (poll_wait false x 0 q').0 ≡ true)
    × ((ks : List ℕ) × Wakers waiting_two.data_of (8 ∷ 12 ∷ []) ks
        × (q'.woken ≡ waiting_two.woken ++ ks))
notify_all-IsWaitQueue_example =
    notify_all-IsWaitQueue waiting_two waiting_two-IsWaitQueue (λ e. cc)

drop_wait-IsWaitQueue_example :
    IsWaitQueue (drop_wait 12 waiting_two)
    × ((drop_wait 12 waiting_two).raw_state_of 12 ≢ queued)
    × ((drop_wait 12 waiting_two).woken ≡ [])
drop_wait-IsWaitQueue_example = drop_wait-IsWaitQueue 12 waiting_two waiting_two-IsWaitQueue

drop_wait-notify_one_example :
    (q' : WaitQueue) × (notify_one waiting_two ≡ some q')
    × ((drop_wait 8 q').waiters ≡ 12 ∷ [])
    × ((z : ℕ)
        → has z (12 ∷ []) ≡ true
        → ((drop_wait 8 q').raw_state_of z ≡ queued)
          × ((drop_wait 8 q').data_of z ≡ waiting_two.data_of z))
drop_wait-notify_one_example = drop_wait-notify_one 8 (12 ∷ []) waiting_two waiting_two-IsWaitQueue

-- A list of two wakers
abbrev two_wakers : WakerList
two_wakers = record { wakers = λ z. some (z + 40); len = 2 }

push-Holds_example :
    (a' : WakerList) × (push 7 two_wakers ≡ some a')
    × Holds a' (40 ∷ 41 ∷ 7 ∷ [])
    × (is_full_list a' ≡ is_full (40 ∷ 41 ∷ 7 ∷ []))
    × (drain_list a' ≡ some (40 ∷ 41 ∷ 7 ∷ [], record a' { len = 0 }))
    × (length (drained (40 ∷ 41 ∷ 7 ∷ [])) < 32)
push-Holds_example =
    push-Holds 7 two_wakers (40 ∷ 41 ∷ []) (record { len = refl; written = (refl, (refl, tt)) })
      (omega arith)
