-- ===== src/Notify/System.antt =====
-- A `Notify` with any number of futures: what its operations can lead to, one after another, with the
-- notifications of other threads within a poll.
use aiq.Prelude.{
  ℕ, ◌≡◌, sym, ap, subst, ◌∙◌, Bool, true, false, Option, none, some, List, [], ◌∷◌, ◌==◌, inl, inr,
  Bool-cases, ==→eq, arith, if◌then◌else◌,
}
use aiq.Store.{unqueued}
use aiq.Notify.{
  Notification, one, last, all, Notify, Notified, state_unnotified, notify_single, notify_waiters,
  notified, poll_notified, drop_notified,
}
use aiq.Notify.Delivery.{complete}
use aiq.Notify.Invariant.{IsNotify, except, notify_single-IsNotify, notify_waiters-IsNotify}
use aiq.Notify.Futures.{poll_notified-IsNotify, drop_notified-IsNotify}

-- `Notify::new`
unfoldable pub new_notify : Notify
new_notify = record {
  state = state_unnotified;
  waiters = [];
  data_of = λ _. record { waker = none; notification = none };
  raw_state_of = λ _. unqueued;
  generation = 0;
  woken = [];
}

-- What other threads do while a future is polled: they notify. A call that panics has no effect.
unfoldable pub notify_by : Notification → Notify → Notify
notify_by one q = elim (notify_single one q) [ none ↦ q | some v ↦ v ]
notify_by last q = elim (notify_single last q) [ none ↦ q | some v ↦ v ]
notify_by all q = notify_waiters q

unfoldable pub notify_by_all : List Notification → Notify → Notify
notify_by_all [] q = q
notify_by_all (n ∷ ns) q = notify_by_all ns (notify_by n q)

-- `alive` tells the nodes of the futures that have not completed.
pub data Reach : (ℕ → Bool) → Notify → Type 0 where
  start : Reach (λ _. false) new_notify
  notifies :
      {alive : ℕ → Bool} {q : Notify} (n : Notification)
      → Reach alive q
      → Reach alive (notify_by n q)
  creates :
      {alive : ℕ → Bool} {q : Notify} (node : ℕ)
      → alive node ≡ false
      → q.raw_state_of node ≡ unqueued
      → Reach alive q
      → Reach (λ z. if z == (notified node q).node then true else alive z) q
  polls :
      {alive : ℕ → Bool} {q q' : Notify} (f : Notified) (ns : List Notification) (cx : Option ℕ)
      (done : Bool)
      → alive f.node ≡ true
      → poll_notified (notify_by_all ns) cx f q ≡ some (done, (if done then complete f else f), q')
      → Reach alive q
      → Reach (if done then except f.node alive else alive) q'
  drops :
      {alive : ℕ → Bool} {q q' : Notify} (f : Notified)
      → alive f.node ≡ true
      → f.completed ≡ false
      → drop_notified f q ≡ some q'
      → Reach alive q
      → Reach (except f.node alive) q'

some_injective {ℓ} : {A : Type ℓ} {a b : A} → some a ≡ some b → a ≡ b
some_injective e = cc

notify_by-IsNotify :
    (alive : ℕ → Bool) (n : Notification) (q : Notify)
    → IsNotify alive q
    → IsNotify alive (notify_by n q)
unfolding notify_by
notify_by-IsNotify alive one q ok =
    let (q', e, ok') = notify_single-IsNotify alive one q (λ e. cc) ok in
    subst (λ o. IsNotify alive (elim o [ none ↦ q | some v ↦ v ])) (sym e) ok'
notify_by-IsNotify alive last q ok =
    let (q', e, ok') = notify_single-IsNotify alive last q (λ e. cc) ok in
    subst (λ o. IsNotify alive (elim o [ none ↦ q | some v ↦ v ])) (sym e) ok'
notify_by-IsNotify alive all q ok = notify_waiters-IsNotify alive q ok

notify_by_all-IsNotify :
    (alive : ℕ → Bool) (ns : List Notification) (q : Notify)
    → IsNotify alive q
    → IsNotify alive (notify_by_all ns q)
unfolding notify_by_all
notify_by_all-IsNotify alive [] q ok = ok
notify_by_all-IsNotify alive (n ∷ ns) q ok =
    notify_by_all-IsNotify alive ns (notify_by n q) (notify_by-IsNotify alive n q ok)

-- In every reachable state exactly the nodes in the queue are marked as queued, each is in it once and
-- belongs to a future that has not completed, and a future that was taken out of it has a notification.
pub Reach-IsNotify : {alive : ℕ → Bool} {q : Notify} → Reach alive q → IsNotify alive q
unfolding new_notify notified
Reach-IsNotify start = record {
  distinct = tt;
  marked = λ z m. cc;
  in_queue = λ z e. cc;
  answered = λ z lives m. cc;
  state_bound = omega arith;
}
Reach-IsNotify (notifies {alive} {q} n r) = notify_by-IsNotify alive n q (Reach-IsNotify r)
Reach-IsNotify (creates {alive} {q} node free raw r) =
    let ok = Reach-IsNotify r in
    record {
      distinct = ok.distinct;
      marked = λ z m. let (on, lives) = ok.marked z m in (on, ground arith);
      in_queue = ok.in_queue;
      answered = λ z lives m. elim (Bool-cases (z == node)) [
        | inl h ↦ absurd (let same = ap q.raw_state_of (==→eq z node h) in cc)
        | inr h ↦ ok.answered z (ground arith) m
      ];
      state_bound = ok.state_bound;
    }
Reach-IsNotify (polls {alive} {q} {q'} f ns cx done lives e r) =
    let (done', v, e', ok') =
      poll_notified-IsNotify alive (notify_by_all ns) cx f (notify_by_all-IsNotify alive ns) lives q
        (Reach-IsNotify r) in
    subst (λ t. IsNotify (if t.0 then except f.node alive else alive) t.2)
      (some_injective (sym e' ∙ e)) ok'
Reach-IsNotify (drops {alive} {q} {q'} f lives unfinished e r) =
    let (v, e', ok') = drop_notified-IsNotify alive f q (Reach-IsNotify r) lives unfinished in
    subst (IsNotify (except f.node alive)) (some_injective (sym e' ∙ e)) ok'
