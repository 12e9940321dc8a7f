-- ===== src/WaitQueue/Waiting.antt =====
-- The invariant of a wait queue, which keeps every unchecked unwrap from meeting nothing.
use aiq.Prelude.{
  ℕ, zero, suc, ◌≡◌, ◌≢◌, refl, ◌∙◌, Bool, some, List, [], ◌∷◌, inl, inr, Bool-cases, true, false,
  has, Distinct, has-append, append-Distinct, arith, ◌==◌, not, ◌&&◌, ◌||◌,
}
use aiq.Store.{RawNodeState, unqueued, queued, dequeued, update}
use aiq.WaitQueue.{
  WaitQueue, one, wake, notified, notify_one, notify_many, is_nil, try_wait, poll_wait, poll_state,
  empty_state,
}
use aiq.WaitQueue.Notify.{notify_times, notify_many-times}

-- Exactly the nodes in the queue are marked as queued, each once, and each of them has a waker.
pub record IsWaitQueue (q : WaitQueue) : Type 0 where
  pub distinct : Distinct q.waiters
  pub marked : (x : ℕ) → has x q.waiters ≡ true → q.raw_state_of x ≡ queued
  pub in_queue : (x : ℕ) → q.raw_state_of x ≡ queued → has x q.waiters ≡ true
  pub has_waker : (x : ℕ) → has x q.waiters ≡ true → (k : ℕ) × ((q.data_of x).waker ≡ some k)

notified-IsWaitQueue :
    (x : ℕ) (rest : List ℕ) (k : ℕ) (q : WaitQueue)
    → IsWaitQueue (record q { waiters = x ∷ rest })
    → IsWaitQueue (wake (k ∷ []) (notified one x rest q))
notified-IsWaitQueue x rest k q ok = record {
  distinct = ok.distinct.1;
  marked = λ z m. ground (arith, ok.marked z, ok.distinct.0);
  in_queue = λ z m. ground (arith, ok.in_queue z);
  has_waker =
      λ z m. let (k', e) = ok.has_waker z (ground arith) in (k', ground (arith, ok.distinct.0));
}

notify_one-IsWaitQueue :
    (q : WaitQueue) → IsWaitQueue q → (q' : WaitQueue) × (notify_one q ≡ some q') × IsWaitQueue q'
unfolding notify_one
notify_one-IsWaitQueue q = by_waiters q.waiters
  where
    by_waiters :
        (l : List ℕ)
        → IsWaitQueue (record q { waiters = l })
        → (q' : WaitQueue) × (notify_one (record q { waiters = l }) ≡ some q') × IsWaitQueue q'
    by_waiters [] ok = (record q { waiters = [] }, refl, ok)
    by_waiters (x ∷ rest) ok =
        let (k, e) = ok.has_waker x (ground arith) in
        (
          wake (k ∷ []) (notified one x rest (record q { waiters = x ∷ rest })),
          rw e refl,
          notified-IsWaitQueue x rest k q ok,
        )

notify_times-IsWaitQueue :
    (count : ℕ) (q : WaitQueue)
    → IsWaitQueue q
    → (q' : WaitQueue) × (notify_times count q ≡ some q') × IsWaitQueue q'
notify_times-IsWaitQueue zero q ok = (q, refl, ok)
notify_times-IsWaitQueue (suc count) q ok =
    let (v, e, ok') = notify_one-IsWaitQueue q ok in
    let (q', e', ok'') = notify_times-IsWaitQueue count v ok' in (q', rw (e, notify_times) e', ok'')

-- `notify_many` keeps the invariant, and by it every waiter that is notified has a waker to take.
pub notify_many-IsWaitQueue :
    (count : ℕ) (q : WaitQueue)
    → IsWaitQueue q
    → (q' : WaitQueue) × (notify_many count q ≡ some q') × IsWaitQueue q'
notify_many-IsWaitQueue count q ok =
    let (q', e, ok') = notify_times-IsWaitQueue count q ok in
    (q', notify_many-times count q ∙ e, ok')

try_wait-IsWaitQueue :
    (x k : ℕ) (q : WaitQueue)
    → IsWaitQueue q
    → has x q.waiters ≡ false
    → IsWaitQueue (try_wait x k q).1
unfolding try_wait
try_wait-IsWaitQueue x k q ok out =
    elim (Bool-cases (is_nil q.waiters && not (q.state == empty_state))) [
      | inl h ↦ rw h (record {
        distinct = ok.distinct;
        marked = ok.marked;
        in_queue = ok.in_queue;
        has_waker = λ z m. let (k', e) = ok.has_waker z m in (k', ground arith);
      })
      | inr h ↦ rw h (record {
        distinct = append-Distinct q.waiters (x ∷ []) ok.distinct (refl, tt) (λ z m. ground arith);
        marked = λ z m. ground (arith, ok.marked z, has-append z q.waiters (x ∷ []));
        in_queue = λ z m. ground (arith, ok.in_queue z, has-append z q.waiters (x ∷ []));
        has_waker = λ z m. waker_of z (ground (arith, has-append z q.waiters (x ∷ [])));
      })
    ]
  where
    waker_of :
        (z : ℕ)
        → has z q.waiters || (z == x) ≡ true
        → (k' : ℕ) × ((update q.data_of x (record (q.data_of x) { waker = some k }) z).waker
            ≡ some k')
    waker_of z m = elim (Bool-cases (z == x)) [
      | inl h ↦ (k, rw h refl)
      | inr h ↦ let (k', e) = ok.has_waker z (ground arith) in (k', rw h e)
    ]

try_wait-pending :
    (x k : ℕ) (q : WaitQueue) → (try_wait x k q).0 ≡ false → has x (try_wait x k q).1.waiters ≡ true
unfolding try_wait
try_wait-pending x k q h = elim (Bool-cases (is_nil q.waiters && not (q.state == empty_state))) [
  | inl c ↦ absurd (ground arith)
  | inr c ↦ rw c (ground (arith, has-append x q.waiters (x ∷ [])))
]

not_in_queue :
    (x : ℕ) (q : WaitQueue) → IsWaitQueue q → q.raw_state_of x ≢ queued → has x q.waiters ≡ false
not_in_queue x q ok ne = elim (Bool-cases (has x q.waiters)) [
  | inl m ↦ absurd (ne (ok.marked x m))
  | inr out ↦ out
]

stored-IsWaitQueue :
    (x k : ℕ) (q : WaitQueue)
    → IsWaitQueue q
    → IsWaitQueue
        (record q { data_of = update q.data_of x (record (q.data_of x) { waker = some k }) })
stored-IsWaitQueue x k q ok = record {
  distinct = ok.distinct;
  marked = ok.marked;
  in_queue = ok.in_queue;
  has_waker = λ z m. let (k', e) = ok.has_waker z m in waker_of z k' e;
}
  where
    waker_of :
        (z k' : ℕ)
        → (q.data_of z).waker ≡ some k'
        → (j : ℕ) × ((update q.data_of x (record (q.data_of x) { waker = some k }) z).waker
            ≡ some j)
    waker_of z k' e = elim (Bool-cases (z == x)) [ inl h ↦ (k, rw h refl) | inr h ↦ (k', rw h e) ]

reset-IsWaitQueue :
    (x : ℕ) (q : WaitQueue)
    → IsWaitQueue q
    → has x q.waiters ≡ false
    → IsWaitQueue (record q { raw_state_of = update q.raw_state_of x unqueued })
reset-IsWaitQueue x q ok out = record {
  distinct = ok.distinct;
  marked = λ z m. ground (arith, ok.marked z);
  in_queue = λ z m. ground (arith, ok.in_queue z);
  has_waker = ok.has_waker;
}

abbrev Polled : ℕ → Bool × WaitQueue → Type 0
Polled x r = IsWaitQueue r.1 × (r.0 ≡ false → has x r.1.waiters ≡ true)

try_wait-Polled :
    (x k : ℕ) (q : WaitQueue) → IsWaitQueue q → has x q.waiters ≡ false → Polled x (try_wait x k q)
try_wait-Polled x k q ok out = (try_wait-IsWaitQueue x k q ok out, try_wait-pending x k q)

poll_state-Polled :
    (r : RawNodeState) (requeue : Bool) (x k : ℕ) (q : WaitQueue)
    → q.raw_state_of x ≡ r
    → IsWaitQueue q
    → Polled x (poll_state r requeue x k q)
unfolding poll_state
poll_state-Polled unqueued requeue x k q e ok =
    try_wait-Polled x k q ok (not_in_queue x q ok (λ h. cc))
poll_state-Polled queued requeue x k q e ok = (stored-IsWaitQueue x k q ok, λ h. ok.in_queue x e)
poll_state-Polled dequeued true x k q e ok =
    let out = not_in_queue x q ok (λ h. cc) in
    try_wait-Polled x k (record q { raw_state_of = update q.raw_state_of x unqueued })
      (reset-IsWaitQueue x q ok out) out
poll_state-Polled dequeued false x k q e ok = (ok, λ h. cc)

-- Polling keeps the invariant, and a poll that does not end leaves its node in the queue.
pub poll_wait-IsWaitQueue :
    (requeue : Bool) (x k : ℕ) (q : WaitQueue)
    → IsWaitQueue q
    → IsWaitQueue (poll_wait requeue x k q).1
      × ((poll_wait requeue x k q).0 ≡ false → has x (poll_wait requeue x k q).1.waiters ≡ true)
unfolding poll_wait
poll_wait-IsWaitQueue requeue x k q ok = poll_state-Polled (q.raw_state_of x) requeue x k q refl ok
