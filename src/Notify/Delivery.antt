-- ===== src/Notify/Delivery.antt =====
-- Notifications reach somebody: a stored one the next future, one of a dropped future the next waiter,
-- and `notify_waiters` every future that exists.
use mathlib.Core.List.{append_assoc, append-nil}
use aiq.Prelude.{
  ℕ, ◌^◌, ◌<◌, ◌≡◌, refl, sym, ap, subst, ◌∙◌, true, false, if◌then◌else◌, Option, some, List, [],
  ◌∷◌, ◌++◌, arith, has, Distinct, ◌==◌, ==-refl,
}
use aiq.Store.{RawNodeState, unqueued, queued, dequeued, update}
use aiq.Notify.{
  state_unnotified, state_notified, one, Waiter, Notify, Notified, wakers_of, notify_one,
  notify_single, wake_single, notify_drained, notify_waiters, poll_notified, poll_impl,
  poll_unqueued, poll_queued, drop_notified, cancel, cancel_from, hand_on, state_if_empty, leave,
  ready, after_poll, hand_to,
}

-- The future once it has completed.
abbrev pub complete : Notified → Notified
complete f = record f { completed = true }

-- A future whose poll ends without a cancellation completes.
finished :
    (meanwhile : Notify → Notify) (cx : Option ℕ) (f : Notified) (q q' : Notify)
    (raw : RawNodeState)
    → q.raw_state_of f.node ≡ raw
    → poll_impl raw meanwhile cx f q ≡ (ready false, q')
    → poll_notified meanwhile cx f q ≡ some (true, complete f, q')
unfolding poll_notified after_poll
finished meanwhile cx f q q' raw at e =
    ap (after_poll f) (ap (λ r. poll_impl r meanwhile cx f q) at ∙ e)

-- A notification that finds nobody is stored. A future of the same generation whose node is unqueued
-- is ready at once when it is polled next, and with that the notification is used up.
pub poll_notified-notify_one :
    (q : Notify) (f : Notified) (meanwhile : Notify → Notify) (cx : Option ℕ)
    → q.waiters ≡ []
    → q.raw_state_of f.node ≡ unqueued
    → q.generation ≡ f.generation
    → (stored : Notify) × (notify_one q ≡ some stored)
      × (poll_notified meanwhile cx f stored
          ≡ some (true, complete f, record stored { state = state_unnotified }))
unfolding notify_one notify_single poll_impl poll_unqueued state_if_empty
poll_notified-notify_one q f meanwhile cx nobody fresh same =
    let stored : Notify = record q { state = state_notified } in
    (
      stored,
      subst
          (λ l.
            notify_single one (record q { waiters = l })
            ≡ some (record q { state = state_notified; waiters = l }))
          (sym nobody) refl,
      finished meanwhile cx f stored (record stored { state = state_unnotified }) unqueued fresh
          (subst
            (λ l.
              poll_unqueued meanwhile cx f (record stored { waiters = l })
              ≡ (ready false, record stored { state = state_unnotified; waiters = l }))
            (sym nobody) (ground arith)),
    )

generation-notify_drained :
    (xs : List ℕ) (q : Notify)
    → ((notify_drained xs q).generation ≡ q.generation)
      × ((notify_drained xs q).waiters ≡ q.waiters)
unfolding notify_drained
generation-notify_drained [] q = (refl, refl)
generation-notify_drained (x ∷ xs) q = generation-notify_drained xs _

-- Whatever became of the node, a future of an older generation is ready.
older-ready :
    (meanwhile : Notify → Notify) (cx : Option ℕ) (f : Notified) (q : Notify) (raw : RawNodeState)
    → (q.generation == f.generation) ≡ false
    → (q' : Notify) × (poll_impl raw meanwhile cx f q ≡ (ready false, q'))
unfolding poll_impl poll_unqueued poll_queued
older-ready meanwhile cx f q unqueued ne = (q, rw ne refl)
older-ready meanwhile cx f q queued ne = (leave f.node q, rw ne refl)
older-ready meanwhile cx f q dequeued ne = (q, refl)

-- After `notify_waiters` nobody waits, and every future that was made in the generation before is ready
-- when it is polled next, whether or not it had been enqueued.
pub notify_waiters-ready :
    (q : Notify) (f : Notified) (meanwhile : Notify → Notify) (cx : Option ℕ)
    → q.generation < 2 ^ 64
    → f.generation ≡ q.generation
    → ((notify_waiters q).waiters ≡ [])
      × ((q' : Notify) × (poll_notified meanwhile cx f (notify_waiters q)
            ≡ some (true, complete f, q')))
unfolding notify_waiters
notify_waiters-ready q f meanwhile cx bound same =
    let v = notify_waiters q in
    let (next, nobody) = generation-notify_drained q.waiters _ in
    let ne : (v.generation == f.generation) ≡ false = ground (arith, next) in
    let (q', e) = older-ready meanwhile cx f v (v.raw_state_of f.node) ne in
    (nobody, (q', finished meanwhile cx f v q' (v.raw_state_of f.node) refl e))

-- The wakers of the waiters, in their order.
abbrev pub wakers_in : (ℕ → Waiter) → List ℕ → List ℕ
wakers_in data_of [] = []
wakers_in data_of (x ∷ xs) = wakers_of (data_of x).waker ++ wakers_in data_of xs

wakers_in-update :
    (data_of : ℕ → Waiter) (x : ℕ) (w : Waiter) (xs : List ℕ)
    → has x xs ≡ false
    → wakers_in (update data_of x w) xs ≡ wakers_in data_of xs
wakers_in-update data_of x w [] out = refl
wakers_in-update data_of x w (y ∷ ys) out =
    let off : (y == x) ≡ false = ground arith in
    rw off
      (ap (λ l. wakers_of (data_of y).waker ++ l) (wakers_in-update data_of x w ys (ground arith)))

woken-notify_drained :
    (xs : List ℕ) (q : Notify)
    → Distinct xs
    → (notify_drained xs q).woken ≡ q.woken ++ wakers_in q.data_of xs
unfolding notify_drained
woken-notify_drained [] q d = sym (append-nil q.woken)
woken-notify_drained (x ∷ xs) q d =
    woken-notify_drained xs _ d.1
    ∙ ap (λ l. q.woken ++ wakers_of (q.data_of x).waker ++ l)
        (wakers_in-update q.data_of x _ xs d.0)
    ∙ append_assoc q.woken (wakers_of (q.data_of x).waker) (wakers_in q.data_of xs)

-- `notify_waiters` calls the waker of every waiter, in their order.
pub woken-notify_waiters :
    (q : Notify)
    → Distinct q.waiters
    → (notify_waiters q).woken ≡ q.woken ++ wakers_in q.data_of q.waiters
unfolding notify_waiters
woken-notify_waiters q d = woken-notify_drained q.waiters _ d

-- What a notification finds: the first waiter, or nobody, and then it is stored.
abbrev pub Found : List ℕ → Notify → Type 0
Found [] q = (q.waiters ≡ []) × (q.state ≡ state_notified)
Found (y ∷ rest) q =
    (q.waiters ≡ rest) × (q.raw_state_of y ≡ dequeued) × ((q.data_of y).notification ≡ some one)

update-same {ℓ} : {A : Type ℓ} → (f : ℕ → A) (x : ℕ) (v : A) → update f x v x ≡ v
update-same f x v = rw (==-refl x) refl

-- A notification reaches the first waiter, or is stored.
notify_one-Found :
    (rest : List ℕ) (q : Notify)
    → q.waiters ≡ rest
    → (q' : Notify) × (notify_one q ≡ some q') × Found rest q'
unfolding notify_one notify_single wake_single
notify_one-Found [] q at = (
  record q { state = state_notified },
  subst
      (λ l.
        notify_single one (record q { waiters = l })
        ≡ some (record q { state = state_notified; waiters = l }))
      (sym at) refl,
  (at, refl),
)
notify_one-Found (y ∷ rest) q at = (
  hand_to one y rest q,
  subst (λ l. notify_single one (record q { waiters = l }) ≡ some (hand_to one y rest q)) (sym at)
      refl,
  (
    refl,
    update-same q.raw_state_of y dequeued,
    ap (λ w. w.notification) (update-same q.data_of y _),
  ),
)

-- Where the first waiter is notified and its future is dropped before it is polled, the notification goes
-- to the next waiter, or is stored if there is none.
pub drop_notified-notify_one :
    (q : Notify) (f : Notified) (rest : List ℕ)
    → q.waiters ≡ f.node ∷ rest
    → f.completed ≡ false
    → (q1 : Notify) × (notify_one q ≡ some q1)
      × ((q2 : Notify) × (drop_notified f q1 ≡ some q2) × Found rest q2)
unfolding drop_notified cancel cancel_from hand_on
drop_notified-notify_one q f rest at alive =
    let (q1, e1, (left, out, given)) = notify_one-Found (f.node ∷ rest) q at in
    let (q2, e2, found) = notify_one-Found rest q1 left in
    (
      q1,
      e1,
      (
        q2,
        ap (λ done. if done then some q1 else cancel f q1) alive
            ∙ ap (λ raw. cancel_from raw f q1) out
            ∙ ap (λ n. hand_on n q1) given
            ∙ e2,
        found,
      ),
    )
