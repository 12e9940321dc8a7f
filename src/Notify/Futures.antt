-- ===== src/Notify/Futures.antt =====
-- The polls and the drop of a future keep the invariant of `Notify`, and never panic.
use aiq.Prelude.{
  ℕ, ◌≡◌, refl, sym, ap, ◌∙◌, Bool, true, false, none, some, Option, [], ◌∷◌, ◌++◌, inl, inr,
  Bool-cases, has, has-append, append-Distinct, arith, ◌==◌, ==→eq, if◌then◌else◌,
}
use aiq.Store.{RawNodeState, unqueued, queued, dequeued, update}
use aiq.Notify.{
  Notification, one, last, all, Waiter, Notify, Notified, Poll, pending, ready, state_unnotified,
  poll_unqueued, poll_queued, poll_impl, keep_waker, store_waker, state_if_empty, is_notified,
  after_poll, poll_notified, cancel, cancel_from, hand_on, notify_one, notify_last, drop_notified,
  leave,
}
use aiq.Notify.Invariant.{IsNotify, except, notify_single-IsNotify, leave-IsNotify, drop-IsNotify}
use aiq.Notify.Delivery.{complete}

hand_on-IsNotify :
    (alive : ℕ → Bool) (n : Notification) (q : Notify)
    → IsNotify alive q
    → (q' : Notify) × (hand_on (some n) q ≡ some q') × IsNotify alive q'
unfolding hand_on notify_one notify_last
hand_on-IsNotify alive one q ok = notify_single-IsNotify alive one q (λ e. cc) ok
hand_on-IsNotify alive last q ok = notify_single-IsNotify alive last q (λ e. cc) ok
hand_on-IsNotify alive all q ok = (q, refl, ok)

cancel-IsNotify :
    (alive : ℕ → Bool) (f : Notified) (q : Notify)
    → IsNotify alive q
    → alive f.node ≡ true
    → (q' : Notify) × (cancel f q ≡ some q') × IsNotify (except f.node alive) q'
unfolding cancel cancel_from
cancel-IsNotify alive f q ok lives = by_state (q.raw_state_of f.node) refl
  where
    by_state :
        (raw : RawNodeState)
        → q.raw_state_of f.node ≡ raw
        → (q' : Notify) × (cancel_from raw f q ≡ some q') × IsNotify (except f.node alive) q'
    by_state unqueued e = (q, refl, drop-IsNotify alive f.node q ok (λ h. cc))
    by_state queued e = (leave f.node q, refl, leave-IsNotify alive f.node q ok e)
    by_state dequeued e =
        let (n, given) = ok.answered f.node lives e in
        let (q', e', ok') =
          hand_on-IsNotify (except f.node alive) n q (drop-IsNotify alive f.node q ok (λ h. cc)) in
        (q', ap (λ o. hand_on o q) given ∙ e', ok')

-- What holds after the first part of a poll.
abbrev Polled : (ℕ → Bool) → ℕ → Poll × Notify → Type 0
Polled alive x (pending, q) = IsNotify alive q
Polled alive x (ready true, q) = IsNotify alive q
Polled alive x (ready false, q) = IsNotify (except x alive) q

store-IsNotify :
    (alive : ℕ → Bool) (x : ℕ) (w : Waiter) (q : Notify)
    → IsNotify alive q
    → w.notification ≡ (q.data_of x).notification
    → IsNotify alive (record q { data_of = update q.data_of x w })
store-IsNotify alive x w q ok same = record {
  distinct = ok.distinct;
  marked = ok.marked;
  in_queue = ok.in_queue;
  answered = λ z lives m.
      let (n, e) = ok.answered z lives m in
      elim (Bool-cases (z == x)) [
        | inl h ↦ (n, rw h (same ∙ ap (λ y. (q.data_of y).notification) (sym (==→eq z x h)) ∙ e))
        | inr h ↦ (n, rw h e)
      ];
  state_bound = ok.state_bound;
}

enqueue-IsNotify :
    (alive : ℕ → Bool) (x : ℕ) (w : Waiter) (q : Notify)
    → IsNotify alive q
    → alive x ≡ true
    → q.raw_state_of x ≡ unqueued
    → IsNotify alive (record q {
      waiters = q.waiters ++ x ∷ [];
      data_of = update q.data_of x w;
      raw_state_of = update q.raw_state_of x queued;
    })
enqueue-IsNotify alive x w q ok lives e =
    let out : has x q.waiters ≡ false = elim (Bool-cases (has x q.waiters)) [
      | inl m ↦ absurd (let (on, there) = ok.marked x m in cc)
      | inr out ↦ out
    ] in
    record {
      distinct = append-Distinct q.waiters (x ∷ []) ok.distinct (refl, tt) (λ z m. ground arith);
      marked = λ z m. elim (Bool-cases (z == x)) [
        | inl h ↦ (rw h refl, ap alive (==→eq z x h) ∙ lives)
        | inr h ↦
            let (on, there) = ok.marked z (ground (arith, has-append z q.waiters (x ∷ []))) in
            (rw h on, there)
      ];
      in_queue = λ z m. ground (arith, ok.in_queue z, has-append z q.waiters (x ∷ []));
      answered = λ z there m. elim (Bool-cases (z == x)) [
        | inl h ↦ absurd (ground arith)
        | inr h ↦ let (n, given) = ok.answered z there (ground arith) in (n, rw h given)
      ];
      state_bound = ok.state_bound;
    }

kept_waker : (cx : Option ℕ) (w : Waiter) → (keep_waker cx w).notification ≡ w.notification
kept_waker none w = refl
kept_waker (some k) w = refl

stored_waker : (cx : Option ℕ) (w : Waiter) → (store_waker cx w).notification ≡ w.notification
stored_waker none w = refl
stored_waker (some k) w = refl

taken-IsNotify :
    (alive : ℕ → Bool) (q : Notify)
    → IsNotify alive q
    → IsNotify alive (record q { state = state_unnotified })
taken-IsNotify alive q ok = record {
  distinct = ok.distinct;
  marked = ok.marked;
  in_queue = ok.in_queue;
  answered = ok.answered;
  state_bound = omega arith;
}

module _ (alive : ℕ → Bool) (meanwhile : Notify → Notify) (cx : Option ℕ) (f : Notified)
    (keeps : (v : Notify) → IsNotify alive v → IsNotify alive (meanwhile v))
    (lives : alive f.node ≡ true) where
  poll_unqueued-Polled :
      (q : Notify)
      → IsNotify alive q
      → q.raw_state_of f.node ≡ unqueued
      → Polled alive f.node (poll_unqueued meanwhile cx f q)
  unfolding poll_unqueued
  poll_unqueued-Polled q ok e =
      let gone = drop-IsNotify alive f.node q ok (λ h. cc) in
      elim (Bool-cases (q.generation == f.generation)) [
        | inr old ↦ rw old gone
        | inl h ↦ rw h (elim (Bool-cases (is_notified (state_if_empty q))) [
          | inl stored ↦ rw stored (taken-IsNotify (except f.node alive) q gone)
          | inr empty ↦ rw empty (
              settled
                (meanwhile (record q {
                  waiters = q.waiters ++ f.node ∷ [];
                  data_of = update q.data_of f.node (keep_waker cx (q.data_of f.node));
                  raw_state_of = update q.raw_state_of f.node queued;
                }))
                (keeps _ (enqueue-IsNotify alive f.node _ q ok lives e)))
        ])
      ]
    where
      settled :
          (v : Notify)
          → IsNotify alive v
          → Polled alive f.node
              (if v.generation == f.generation then (pending, v) else (ready true, v))
      settled v kept = elim (Bool-cases (v.generation == f.generation)) [
        | inl h ↦ rw h kept
        | inr h ↦ rw h kept
      ]

  poll_queued-Polled :
      (q : Notify)
      → IsNotify alive q
      → q.raw_state_of f.node ≡ queued
      → Polled alive f.node (poll_queued cx f q)
  unfolding poll_queued
  poll_queued-Polled q ok e = elim (Bool-cases (q.generation == f.generation)) [
    | inl h ↦ rw h (store-IsNotify alive f.node _ q ok (stored_waker cx (q.data_of f.node)))
    | inr h ↦ rw h (leave-IsNotify alive f.node q ok e)
  ]

  poll_impl-Polled :
      (raw : RawNodeState) (q : Notify)
      → IsNotify alive q
      → q.raw_state_of f.node ≡ raw
      → Polled alive f.node (poll_impl raw meanwhile cx f q)
  unfolding poll_impl
  poll_impl-Polled unqueued q ok e = poll_unqueued-Polled q ok e
  poll_impl-Polled queued q ok e = poll_queued-Polled q ok e
  poll_impl-Polled dequeued q ok e = drop-IsNotify alive f.node q ok (λ h. cc)

  after_poll-IsNotify :
      (r : Poll × Notify)
      → Polled alive f.node r
      → (done : Bool) × (q' : Notify) × (after_poll f r
          ≡ some (done, (if done then complete f else f), q'))
        × IsNotify (if done then except f.node alive else alive) q'
  unfolding after_poll
  after_poll-IsNotify (pending, q) ok = (false, q, refl, ok)
  after_poll-IsNotify (ready false, q) ok = (true, q, refl, ok)
  after_poll-IsNotify (ready true, q) ok =
      let (q', e, ok') = cancel-IsNotify alive f q ok lives in
      (
        true,
        q',
        ap (λ o. elim o [ none ↦ none | some v ↦ some (true, record f { completed = true }, v) ]) e,
        ok',
      )

  -- A poll never panics and keeps the invariant, whatever others do meanwhile that keeps it; its future
  -- no longer counts once it is ready.
  pub poll_notified-IsNotify :
      (q : Notify)
      → IsNotify alive q
      → (done : Bool) × (q' : Notify) × (poll_notified meanwhile cx f q
          ≡ some (done, (if done then complete f else f), q'))
        × IsNotify (if done then except f.node alive else alive) q'
  unfolding poll_notified
  poll_notified-IsNotify q ok =
      after_poll-IsNotify _ (poll_impl-Polled (q.raw_state_of f.node) q ok refl)

-- Dropping a future that has not completed never panics, since one that was notified has a
-- notification to hand on, and leaves a queue without its node.
pub drop_notified-IsNotify :
    (alive : ℕ → Bool) (f : Notified) (q : Notify)
    → IsNotify alive q
    → alive f.node ≡ true
    → f.completed ≡ false
    → (q' : Notify) × (drop_notified f q ≡ some q') × IsNotify (except f.node alive) q'
unfolding drop_notified
drop_notified-IsNotify alive f q ok lives unfinished =
    let (q', e, ok') = cancel-IsNotify alive f q ok lives in
    (q', ap (λ done. if done then some q else cancel f q) unfinished ∙ e, ok')
