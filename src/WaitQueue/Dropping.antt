-- ===== src/WaitQueue/Dropping.antt =====
-- The making and the end of a `Wait`. Its destructor is that of its node: it takes the node out of the queue, and
-- does no more.
use aiq.Prelude.{
  ℕ, ◌≡◌, ◌≢◌, refl, ap, ◌∙◌, true, Option, some, none, List, [], ◌∷◌, has, without,
  without-LeftOut, arith, ◌==◌, if◌then◌else◌,
}
use aiq.Store.{RawNodeState, unqueued, queued, dequeued, update}
use aiq.WaitQueue.{WaitQueue, empty_state, is_nil, notify_one, notify_many, notified, wake, one}
use aiq.WaitQueue.Waiting.{IsWaitQueue}

-- `WaitQueue::new`
unfoldable pub new : WaitQueue
new = record {
  state = empty_state;
  waiters = [];
  data_of = λ _. record { waker = none; notification = none };
  raw_state_of = λ _. unqueued;
  woken = [];
}

-- `WaitQueue::wait`, for a node that no other `Wait` has: `Node::with_data`
unfoldable pub wait : (node : ℕ) → WaitQueue → WaitQueue
wait node q = record q {
  data_of = update q.data_of node (record { waker = none; notification = none });
  raw_state_of = update q.raw_state_of node unqueued;
}

unfoldable pub notify_many_const : (count : ℕ) → WaitQueue → Option WaitQueue
notify_many_const count q = if count == 1 then notify_one q else notify_many count q

-- The removal of a node that is queued; the state is reset where it was the only one.
abbrev pub remove_waiter : ℕ → WaitQueue → WaitQueue
remove_waiter node q = record q {
  state = if is_nil (without node q.waiters) then empty_state else q.state;
  waiters = without node q.waiters;
  raw_state_of = update q.raw_state_of node dequeued;
}

-- `Node::drop`, for the raw state of the node
unfoldable pub drop_from : RawNodeState → (node : ℕ) → WaitQueue → WaitQueue
drop_from unqueued node q = q
drop_from queued node q = remove_waiter node q
drop_from dequeued node q = q

unfoldable pub drop_wait : (node : ℕ) → WaitQueue → WaitQueue
drop_wait node q = drop_from (q.raw_state_of node) node q

remove_waiter-IsWaitQueue :
    (x : ℕ) (q : WaitQueue)
    → IsWaitQueue q
    → q.raw_state_of x ≡ queued
    → IsWaitQueue (remove_waiter x q)
remove_waiter-IsWaitQueue x q ok on =
    let (dis, out, same) = without-LeftOut x q.waiters ok.distinct (ok.in_queue x on) in
    record {
      distinct = dis;
      marked = λ z m. ground (arith, ok.marked z, same z);
      in_queue = λ z m. ground (arith, ok.in_queue z, same z);
      has_waker = λ z m. ok.has_waker z (ground (arith, same z));
    }

drop_from-IsWaitQueue :
    (raw : RawNodeState) (x : ℕ) (q : WaitQueue)
    → IsWaitQueue q
    → q.raw_state_of x ≡ raw
    → IsWaitQueue (drop_from raw x q)
      × ((drop_from raw x q).raw_state_of x ≢ queued)
      × ((drop_from raw x q).woken ≡ q.woken)
unfolding drop_from
drop_from-IsWaitQueue unqueued x q ok at = (ok, λ e. cc, refl)
drop_from-IsWaitQueue queued x q ok at =
    (remove_waiter-IsWaitQueue x q ok at, λ e. ground arith, refl)
drop_from-IsWaitQueue dequeued x q ok at = (ok, λ e. cc, refl)

-- Dropping a `Wait`, whatever its state, keeps the invariant, leaves a queue without its node, and calls no waker.
pub drop_wait-IsWaitQueue :
    (x : ℕ) (q : WaitQueue)
    → IsWaitQueue q
    → IsWaitQueue (drop_wait x q)
      × ((drop_wait x q).raw_state_of x ≢ queued)
      × ((drop_wait x q).woken ≡ q.woken)
unfolding drop_wait
drop_wait-IsWaitQueue x q ok = drop_from-IsWaitQueue (q.raw_state_of x) x q ok refl

-- Where the first waiter is notified and dropped before it is polled, its notification is lost: the other
-- waiters still wait, as if nobody had been notified.
pub drop_wait-notify_one :
    (x : ℕ) (rest : List ℕ) (q : WaitQueue)
    → IsWaitQueue (record q { waiters = x ∷ rest })
    → (q' : WaitQueue) × (notify_one (record q { waiters = x ∷ rest }) ≡ some q')
      × ((drop_wait x q').waiters ≡ rest)
      × ((z : ℕ)
          → has z rest ≡ true
          → ((drop_wait x q').raw_state_of z ≡ queued) × ((drop_wait x q').data_of z ≡ q.data_of z))
unfolding notify_one drop_wait drop_from
drop_wait-notify_one x rest q ok =
    let (k, e) = ok.has_waker x (ground arith) in
    let q' = wake (k ∷ []) (notified one x rest (record q { waiters = x ∷ rest })) in
    let out : q'.raw_state_of x ≡ dequeued = ground arith in
    let same : drop_wait x q' ≡ q' = ap (λ r. drop_from r x q') out in
    (
      q',
      rw e refl,
      ap (λ v. v.waiters) same,
      λ z m. (
        ap (λ v. v.raw_state_of z) same ∙ ground (arith, ok.marked z, ok.distinct.0),
        ap (λ v. v.data_of z) same ∙ ground (arith, ok.distinct.0),
      ),
    )
