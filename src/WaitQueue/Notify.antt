-- ===== src/WaitQueue/Notify.antt =====
-- Notifying many waiters is notifying one again and again: the list of wakers, and the release of the
-- lock when it is full, cannot be seen in the result.
use mathlib.Core.List.{append-nil, append_assoc}
use aiq.Prelude.{
  ℕ, zero, suc, ◌≡◌, refl, sym, ap, ◌∙◌, Option, none, some, List, [], ◌∷◌, ◌++◌, inl, inr,
  Bool-cases, Option-cases, true, subst, ◌&&◌, arith, if◌then◌else◌,
}
use aiq.Store.{RawNodeState}
use aiq.WaitQueue.{
  Waiter, WaitQueue, one, wake, notified, notify_one, is_full, drained, flush, notify_loop,
  notify_many, is_nil,
}

-- `notify_one`, so many times.
abbrev pub notify_times : ℕ → WaitQueue → Option WaitQueue
notify_times zero q = some q
notify_times (suc n) q = elim (notify_one q) [ none ↦ none | some q' ↦ notify_times n q' ]

wake-wake : (ks ls : List ℕ) (q : WaitQueue) → wake ls (wake ks q) ≡ wake (ks ++ ls) q
wake-wake ks ls q = ap (λ l. record q { woken = l }) (append_assoc q.woken ks ls)

wake-nil : (q : WaitQueue) → wake [] q ≡ q
wake-nil q = ap (λ l. record q { woken = l }) (append-nil q.woken)

flush-drained :
    (wakers : List ℕ) (q : WaitQueue) → wake (drained wakers) (flush wakers q) ≡ wake wakers q
unfolding drained flush
flush-drained wakers q = elim (Bool-cases (is_full wakers)) [
  | inl h ↦ rw h (wake-nil (wake wakers q))
  | inr h ↦ rw h refl
]

-- Where nobody waits, notifying changes nothing.
notify_times-nil :
    (n state : ℕ) (data_of : ℕ → Waiter) (raw : ℕ → RawNodeState) (woken : List ℕ)
    → notify_times n (record {
      state = state;
      waiters = [];
      data_of = data_of;
      raw_state_of = raw;
      woken = woken;
    })
      ≡ some (record {
        state = state;
        waiters = [];
        data_of = data_of;
        raw_state_of = raw;
        woken = woken;
      })
unfolding notify_one
notify_times-nil zero state data_of raw woken = refl
notify_times-nil (suc n) state data_of raw woken = notify_times-nil n state data_of raw woken

-- With nobody waiting, the loop may end at once.
ended : (n : ℕ) (q : WaitQueue) → q.waiters ≡ [] → notify_times n q ≡ some q
unfolding notify_one
ended n q e =
    subst (λ l. notify_times n (record q { waiters = l }) ≡ some (record q { waiters = l })) (sym e)
      (notify_times-nil n q.state q.data_of q.raw_state_of q.woken)

waiters-flush : (wakers : List ℕ) (q : WaitQueue) → (flush wakers q).waiters ≡ q.waiters
unfolding flush
waiters-flush wakers q = elim (Bool-cases (is_full wakers)) [
  | inl h ↦ rw h refl
  | inr h ↦ rw h refl
]

is_nil→eq : (l : List ℕ) → is_nil l ≡ true → l ≡ []
is_nil→eq [] h = refl
is_nil→eq (x ∷ l) h = cc

-- One round of the loop, once the waiter has been taken out of the queue `q`.
round-times :
    (n : ℕ) (pushed : List ℕ) (q : WaitQueue) (again : Option WaitQueue)
    → again ≡ notify_times n (wake (drained pushed) (flush pushed q))
    → (if is_full pushed && is_nil (flush pushed q).waiters
        then some (wake (drained pushed) (flush pushed q))
        else again)
      ≡ notify_times n (wake pushed q)
round-times n pushed q again e =
    elim (Bool-cases (is_full pushed && is_nil (flush pushed q).waiters)) [
      | inl h ↦
          let nobody = is_nil→eq (flush pushed q).waiters (ground arith) in
          rw h (
            sym (ended n (wake (drained pushed) (flush pushed q)) nobody)
            ∙ ap (notify_times n) (flush-drained pushed q))
      | inr h ↦ rw h (e ∙ ap (notify_times n) (flush-drained pushed q))
    ]

loop-times :
    (n : ℕ) (wakers : List ℕ) (state : ℕ) (waiters : List ℕ) (data_of : ℕ → Waiter)
    (raw : ℕ → RawNodeState) (woken : List ℕ)
    → notify_loop n wakers (record {
      state = state;
      waiters = waiters;
      data_of = data_of;
      raw_state_of = raw;
      woken = woken;
    })
      ≡ notify_times n (
          wake wakers (record {
            state = state;
            waiters = waiters;
            data_of = data_of;
            raw_state_of = raw;
            woken = woken;
          }))
unfolding notify_loop notify_one
loop-times zero wakers state waiters data_of raw woken = refl
loop-times (suc n) wakers state [] data_of raw woken =
    sym (notify_times-nil n state data_of raw (woken ++ wakers))
loop-times (suc n) wakers state (x ∷ rest) data_of raw woken =
    elim (Option-cases ((data_of x).waker)) [
      | inl e ↦ rw e refl
      | inr (k, e) ↦
          let q : WaitQueue = notified one x rest (record {
            state = state;
            waiters = x ∷ rest;
            data_of = data_of;
            raw_state_of = raw;
            woken = woken;
          }) in
          let pushed = wakers ++ k ∷ [] in
          let v = flush pushed q in
          rw e (
            round-times n pushed q (notify_loop n (drained pushed) v)
              (loop-times n (drained pushed) v.state v.waiters v.data_of v.raw_state_of v.woken)
            ∙ ap (notify_times n) (sym (wake-wake wakers (k ∷ []) q)))
    ]

-- `notify_many` does what `notify_one` does, repeated so many times, whatever the number of waiters.
pub notify_many-times : (count : ℕ) (q : WaitQueue) → notify_many count q ≡ notify_times count q
unfolding notify_many
notify_many-times count q = by_waiters q.waiters
  where
    by_waiters :
        (l : List ℕ)
        → notify_many count (record q { waiters = l })
          ≡ notify_times count (record q { waiters = l })
    by_waiters [] = sym (notify_times-nil count q.state q.data_of q.raw_state_of q.woken)
    by_waiters (x ∷ rest) =
        loop-times count [] q.state (x ∷ rest) q.data_of q.raw_state_of q.woken
        ∙ ap (notify_times count) (wake-nil (record q { waiters = x ∷ rest }))
