-- ===== src/Semaphore/Closing.antt =====
-- Closing a semaphore, and what an acquisition finds then.
use aiq.Prelude.{
  ℕ, ◌+◌, ◌-◌, ◌%◌, ◌≡◌, refl, sym, ap, subst, ◌∙◌, inl, inr, some, List, [], ◌∷◌, map, arith, ◌==◌,
  leb, if◌then◌else◌, false, Option-cases, ◌<◌, ◌^◌,
}
use aiq.Semaphore.{
  Waiter, Line, idle, waiting, Woken, close, wake_all, store_state, try_acquire_many, closed,
  check_acquire_permits, poll_unqueued, poll_refused, is_closed, ready_closed, enqueue_waiter,
}
use aiq.Semaphore.Cancel.{poll_dequeued}
use aiq.Semaphore.Permits.{open_state}
use aiq.Semaphore.Futures.{
  unqueued, dequeued, poll_acquire, poll, got, waits, first_poll, acquire_many, take_permits,
}
use aiq.Semaphore.System.{waiters}

pub close_idle :
    (state : ℕ) (r : Woken)
    → close (idle state) ≡ some r
    → r ≡ record { line = idle (state + 1 - state % 2); woken = [] }
unfolding close store_state
close_idle state r e = ground arith

pub close_waiting :
    (w : Waiter) (ws : List Waiter) (r : Woken) → close (waiting w ws) ≡ some r → r.line ≡ idle 1
unfolding close
close_waiting w ws r e = elim (Option-cases (wake_all (w ∷ ws))) [
  | inl z ↦ ground arith
  | inr (ks, z) ↦ ground arith
]

-- What a closed semaphore answers.
abbrev Refuses : (n cx_waker : ℕ) → Line → Type 0
Refuses n cx_waker line =
    (poll_acquire n cx_waker unqueued line ≡ ready_closed)
    × ((w : Waiter) → poll_acquire n cx_waker (dequeued w) line ≡ ready_closed)
    × (try_acquire_many n line ≡ closed)

odd-Refuses : (n cx_waker state : ℕ) → (state % 2 == 0) ≡ false → Refuses n cx_waker (idle state)
unfolding poll_acquire poll_unqueued poll_refused poll_dequeued is_closed try_acquire_many
    check_acquire_permits
odd-Refuses n cx_waker state odd = (ground arith, λ w. ground arith, ground arith)

wake_all-map :
    (ws : List Waiter) (ks : List ℕ) → wake_all ws ≡ some ks → map (λ w. w.waker) ws ≡ map some ks
unfolding wake_all
wake_all-map [] ks e = let none_woken : [] ≡ ks = cc in ap (map some) none_woken
wake_all-map (w ∷ ws) ks e = elim (Option-cases w.waker) [
  | inl z ↦ absurd (ground arith)
  | inr (k, z) ↦ elim (Option-cases (wake_all ws)) [
    | inl z' ↦ absurd (ground arith)
    | inr (ks', z') ↦
        let same : k ∷ ks' ≡ ks = ground arith in
        ap (λ o. o ∷ map (λ w. w.waker) ws) z
        ∙ ap (λ l. some k ∷ l) (wake_all-map ws ks' z')
        ∙ ap (map some) same
  ]
]

-- Closing a semaphore calls the wakers of those that wait, in their order. Then an acquisition whose node is not
-- queued, be it new or taken out of the queue, is told that the semaphore is closed, and
-- `try_acquire_many` as well.
pub close-Refuses :
    (line : Line) (r : Woken) (n cx_waker : ℕ)
    → close line ≡ some r
    → Refuses n cx_waker r.line × (map (λ w. w.waker) (waiters line) ≡ map some r.woken)
unfolding close
close-Refuses (idle state) r n cx_waker e =
    let same = close_idle state r e in
    (
      subst (λ r. Refuses n cx_waker r.line) (sym same)
          (odd-Refuses n cx_waker (state + 1 - state % 2) (ground arith)),
      ap (λ r. map some r.woken) (sym same),
    )
close-Refuses (waiting w ws) r n cx_waker e = (
  subst (Refuses n cx_waker) (sym (close_waiting w ws r e)) (odd-Refuses n cx_waker 1 refl),
  elim (Option-cases (wake_all (w ∷ ws))) [
    | inl z ↦ absurd (ground arith)
    | inr (ks, z) ↦ wake_all-map (w ∷ ws) ks z ∙ ap (map some) (ground arith)
  ],
)

-- `acquire_many` at an open semaphore gives the permits at once if there are enough. Otherwise it takes all that
-- there are and waits for the rest, provided that the number asked for is below 2 ^ 31.
pub acquire_many-exact :
    (sem available permits cx_waker : ℕ)
    → permits < 2 ^ 31
    → acquire_many sem permits cx_waker (idle (open_state available)) ≡ (
        if leb permits available
        then got (record { sem = sem; permits = permits }) (idle (open_state (available - permits)))
        else waits (
            waiting (record { waker = some cx_waker; permits_remaining = permits - available }) []))
unfolding acquire_many take_permits first_poll poll poll_acquire poll_unqueued poll_refused
    check_acquire_permits enqueue_waiter
acquire_many-exact sem available permits cx_waker lt = ground arith
