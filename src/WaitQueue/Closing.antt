-- ===== src/WaitQueue/Closing.antt =====
-- `close` and `notify_all`: all waiters are woken, and after `close` no wait lasts.
use mathlib.Core.List.{append_assoc, append-nil}
use aiq.Prelude.{
  ℕ, ◌≡◌, ◌≢◌, refl, sym, ap, subst, ◌∙◌, Bool, true, false, none, some, List, [], ◌∷◌, ◌++◌, inl,
  inr, Bool-cases, has, Distinct, arith, ◌==◌,
}
use aiq.Store.{RawNodeState, unqueued, queued, dequeued, update}
use aiq.WaitQueue.{
  Waiter, WaitQueue, wake, is_nil, is_closed, drain_loop, drain_queue, notify_all, close, try_wait,
  poll_state, poll_wait, empty_state, closed_state,
}
use aiq.WaitQueue.Waiting.{IsWaitQueue}

abbrev HasWaker : (ℕ → Waiter) → ℕ → Type 0
HasWaker data_of x = (k : ℕ) × ((data_of x).waker ≡ some k)

-- The wakers `ks` are those of the waiters `xs`, in their order.
abbrev pub Wakers : (ℕ → Waiter) → List ℕ → List ℕ → Type 0
Wakers data_of [] ks = ks ≡ []
Wakers data_of (x ∷ xs) ks =
    (k : ℕ) × (rest : List ℕ) × (ks ≡ k ∷ rest)
    × ((data_of x).waker ≡ some k)
    × Wakers data_of xs rest

Wakers-update :
    (data_of : ℕ → Waiter) (x : ℕ) (w : Waiter) (xs ks : List ℕ)
    → has x xs ≡ false
    → Wakers (update data_of x w) xs ks
    → Wakers data_of xs ks
Wakers-update data_of x w [] ks out h = h
Wakers-update data_of x w (y ∷ xs) ks out (k, rest, e, at, more) =
    let off : (y == x) ≡ false = ground arith in
    (k, rest, e, (sym (rw off refl) ∙ at), Wakers-update data_of x w xs rest (ground arith) more)

-- The waiters `xs` of `q` have been drained.
record Drained (xs : List ℕ) (q q' : WaitQueue) : Type 0 where
  pub state : q'.state ≡ q.state
  pub waiters : q'.waiters ≡ q.waiters
  pub out : (z : ℕ) → has z xs ≡ true → q'.raw_state_of z ≡ dequeued
  pub others : (z : ℕ) → has z xs ≡ false → q'.raw_state_of z ≡ q.raw_state_of z
  pub called : (ks : List ℕ) × Wakers q.data_of xs ks × (q'.woken ≡ q.woken ++ ks)

drain_loop-Drained :
    (xs : List ℕ) (q : WaitQueue)
    → Distinct xs
    → ((x : ℕ) → has x xs ≡ true → HasWaker q.data_of x)
    → (q' : WaitQueue) × (drain_loop xs q ≡ some q') × Drained xs q q'
unfolding drain_loop
drain_loop-Drained [] q d wakers = (
  q,
  refl,
  record {
    state = refl;
    waiters = refl;
    out = λ z m. cc;
    others = λ z m. refl;
    called = ([], refl, sym (append-nil q.woken));
  },
)
drain_loop-Drained (x ∷ xs) q d wakers =
    let (k, e) = wakers x (ground arith) in
    let v = wake (k ∷ []) (record q {
      data_of = update q.data_of x (record (q.data_of x) { waker = none });
      raw_state_of = update q.raw_state_of x dequeued;
    }) in
    let (q', e', dr) = drain_loop-Drained xs v d.1 (λ z m. still z m) in
    let (ks, each, woken) = dr.called in
    (
      q',
      rw (e, drain_loop) e',
      record {
        state = dr.state;
        waiters = dr.waiters;
        out = λ z m. elim (Bool-cases (has z xs)) [
          | inl i ↦ dr.out z i
          | inr o ↦ dr.others z o ∙ taken z (ground arith)
        ];
        others = λ z m. dr.others z (ground arith) ∙ other z (ground arith);
        called = (
          k ∷ ks,
          (k, ks, refl, e, Wakers-update q.data_of x _ xs ks d.0 each),
          woken ∙ append_assoc q.woken (k ∷ []) ks,
        );
      },
    )
  where
    still :
        (z : ℕ)
        → has z xs ≡ true
        → HasWaker (update q.data_of x (record (q.data_of x) { waker = none })) z
    still z m =
        let off : (z == x) ≡ false = ground (arith, d.0) in
        let (j, f) = wakers z (ground arith) in (j, rw off f)

    taken : (z : ℕ) → (z == x) ≡ true → update q.raw_state_of x dequeued z ≡ dequeued
    taken z h = rw h refl

    other : (z : ℕ) → (z == x) ≡ false → update q.raw_state_of x dequeued z ≡ q.raw_state_of z
    other z h = rw h refl

Drained-IsWaitQueue :
    (q q' : WaitQueue) (state : ℕ)
    → IsWaitQueue q
    → Drained q.waiters (record q { state = state; waiters = [] }) q'
    → IsWaitQueue q'
Drained-IsWaitQueue q q' state ok dr = record {
  distinct = subst Distinct (sym dr.waiters) tt;
  marked = λ z m. absurd (ground (arith, dr.waiters));
  in_queue = λ z e. elim (Bool-cases (has z q.waiters)) [
    | inl m ↦ absurd (let gone = dr.out z m in cc)
    | inr o ↦ absurd (let at = ok.in_queue z (sym (dr.others z o) ∙ e) in cc)
  ];
  has_waker = λ z m. absurd (ground (arith, dr.waiters));
}

drain_queue-Drained :
    (state : ℕ) (q : WaitQueue)
    → IsWaitQueue q
    → (q' : WaitQueue) × (drain_queue state q ≡ some q')
      × Drained q.waiters (record q { state = state; waiters = [] }) q'
unfolding drain_queue
drain_queue-Drained state q ok =
    drain_loop-Drained q.waiters (record q { state = state; waiters = [] }) ok.distinct ok.has_waker

-- `notify_all` on a queue with waiters does not panic, keeps the invariant and leaves the queue open; it
-- calls the waker of every waiter, in their order, and marks all of them.
pub notify_all-IsWaitQueue :
    (q : WaitQueue)
    → IsWaitQueue q
    → q.waiters ≢ []
    → (q' : WaitQueue) × (notify_all q ≡ some q')
      × IsWaitQueue q'
      × (is_closed q' ≡ false)
      × ((x : ℕ) → has x q.waiters ≡ true → (poll_wait false x 0 q').0 ≡ true)
      × ((ks : List ℕ) × Wakers q.data_of q.waiters ks × (q'.woken ≡ q.woken ++ ks))
unfolding notify_all is_closed poll_wait poll_state
notify_all-IsWaitQueue q ok some_wait =
    let (q', e, dr) = drain_queue-Drained empty_state q ok in
    (
      q',
      by_waiters q.waiters refl q' e,
      Drained-IsWaitQueue q q' empty_state ok dr,
      ground (arith, dr.state),
      λ x m. ap (λ raw. (poll_state raw false x 0 q').0) (dr.out x m),
      dr.called,
    )
  where
    by_waiters :
        (l : List ℕ)
        → q.waiters ≡ l
        → (q' : WaitQueue) → drain_queue empty_state q ≡ some q'
        → notify_all q ≡ some q'
    by_waiters [] none_wait q' e = absurd (some_wait none_wait)
    by_waiters (x ∷ rest) same q' e =
        ap (λ l. elim l [ [] ↦ some q | y ∷ ys ↦ drain_queue empty_state q ]) same ∙ e

not_nil : (x : ℕ) (l : List ℕ) → has x l ≡ true → is_nil l ≡ false
not_nil x [] m = cc
not_nil x (y ∷ l) m = refl

-- A poll at a closed queue is ready.
closed_ready :
    (requeue : Bool) (x cx_waker : ℕ) (q : WaitQueue)
    → IsWaitQueue q
    → is_closed q ≡ true
    → (poll_wait requeue x cx_waker q).0 ≡ true
unfolding is_closed poll_wait poll_state try_wait
closed_ready requeue x cx_waker q ok closed = by_state requeue (q.raw_state_of x) refl
  where
    by_state :
        (requeue : Bool) (raw : RawNodeState)
        → q.raw_state_of x ≡ raw
        → (poll_state raw requeue x cx_waker q).0 ≡ true
    by_state requeue unqueued e = rw closed refl
    by_state requeue queued e =
        absurd (let some_wait = not_nil x q.waiters (ok.in_queue x e) in ground arith)
    by_state true dequeued e = rw closed refl
    by_state false dequeued e = refl

-- `close` does not panic and keeps the invariant; after it the queue is closed, and every poll of every
-- wait is ready.
pub close-Closed :
    (q : WaitQueue)
    → IsWaitQueue q
    → (q' : WaitQueue) × (close q ≡ some q')
      × IsWaitQueue q'
      × (is_closed q' ≡ true)
      × ((requeue : Bool) (x cx_waker : ℕ) → (poll_wait requeue x cx_waker q').0 ≡ true)
unfolding close is_closed
close-Closed q ok = by_waiters q.waiters refl
  where
    by_waiters :
        (l : List ℕ)
        → q.waiters ≡ l
        → (q' : WaitQueue) × (close q ≡ some q')
          × IsWaitQueue q'
          × (is_closed q' ≡ true)
          × ((requeue : Bool) (x cx_waker : ℕ) → (poll_wait requeue x cx_waker q').0 ≡ true)
    by_waiters [] none_wait =
        let q' : WaitQueue = record q { state = closed_state } in
        let ok' : IsWaitQueue q' = record {
          distinct = ok.distinct;
          marked = ok.marked;
          in_queue = ok.in_queue;
          has_waker = ok.has_waker;
        } in
        let shut : is_closed q' ≡ true = ground (arith, none_wait) in
        (
          q',
          ap (λ l. elim l [ [] ↦ some q' | x ∷ rest ↦ drain_queue closed_state q ]) none_wait,
          ok',
          shut,
          λ requeue x cx_waker. closed_ready requeue x cx_waker q' ok' shut,
        )
    by_waiters (x ∷ rest) same =
        let (q', e, dr) = drain_queue-Drained closed_state q ok in
        let ok' = Drained-IsWaitQueue q q' closed_state ok dr in
        let shut : is_closed q' ≡ true = ground (arith, dr.state, dr.waiters) in
        (
          q',
          ap
                (λ l. elim l [
                  | [] ↦ some (record q { state = closed_state })
                  | y ∷ ys ↦ drain_queue closed_state q
                ])
                same
              ∙ e,
          ok',
          shut,
          λ requeue x cx_waker. closed_ready requeue x cx_waker q' ok' shut,
        )
