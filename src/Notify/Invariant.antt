-- ===== src/Notify/Invariant.antt =====
-- The invariant of `Notify`, and that every operation keeps it.
use aiq.Prelude.{
  without, without-LeftOut, last_or-LeftOut, LeftOut, ℕ, ◌≤◌, ◌≡◌, ◌≢◌, refl, sym, ap, subst, ◌∙◌,
  Bool, some, List, [], ◌∷◌, inl, inr, Bool-cases, true, false, has, Distinct, arith, ◌==◌, ==→eq,
  if◌then◌else◌, firsts, last_or,
}
use aiq.Store.{queued, dequeued}
use aiq.Notify.{
  state_unnotified, Notification, one, last, all, Notify, state_notified, state_of_rest, hand_to,
  wake_single, notify_single, notify_drained, notify_waiters, leave,
}

-- Of the nodes of the futures that have not completed (`alive`), exactly those in the queue are marked
-- as queued, each is in it once, and those taken out of it have a notification. No other node is in it.
pub record IsNotify (alive : ℕ → Bool) (q : Notify) : Type 0 where
  pub distinct : Distinct q.waiters
  pub marked : (x : ℕ) → has x q.waiters ≡ true → (q.raw_state_of x ≡ queued) × (alive x ≡ true)
  pub in_queue : (x : ℕ) → q.raw_state_of x ≡ queued → has x q.waiters ≡ true
  pub answered :
      (x : ℕ)
      → alive x ≡ true
      → q.raw_state_of x ≡ dequeued
      → (n : Notification) × ((q.data_of x).notification ≡ some n)
  pub state_bound : q.state ≤ 1

state_of_rest_bound : (rest : List ℕ) (state : ℕ) → state ≤ 1 → state_of_rest rest state ≤ 1
state_of_rest_bound [] state h = omega arith
state_of_rest_bound (x ∷ rest) state h = h

hand_to-IsNotify :
    (alive : ℕ → Bool) (n : Notification) (x : ℕ) (rest : List ℕ) (q : Notify)
    → LeftOut x q.waiters rest
    → IsNotify alive q
    → IsNotify alive (hand_to n x rest q)
hand_to-IsNotify alive n x rest q (dis, out, same) ok = record {
  distinct = dis;
  marked = λ z m. let (on, lives) = ok.marked z (ground (arith, same z)) in (ground (arith), lives);
  in_queue = λ z m. ground (arith, ok.in_queue z, same z);
  answered = λ z lives m. elim (Bool-cases (z == x)) [
    | inl h ↦ (n, rw h refl)
    | inr h ↦ let (k, e) = ok.answered z lives (ground arith) in (k, rw h e)
  ];
  state_bound = state_of_rest_bound rest q.state ok.state_bound;
}

-- The waiters of `q`, where a list of them is split.
with_waiters-IsNotify :
    (alive : ℕ → Bool) (q : Notify) (l : List ℕ)
    → q.waiters ≡ l
    → IsNotify alive q
    → IsNotify alive (record q { waiters = l })
with_waiters-IsNotify alive q l e ok = subst (λ l. IsNotify alive (record q { waiters = l })) e ok

wake_single-IsNotify :
    (alive : ℕ → Bool) (n : Notification) (x : ℕ) (rest : List ℕ) (q : Notify)
    → n ≢ all
    → IsNotify alive (record q { waiters = x ∷ rest })
    → (q' : Notify) × (wake_single n x rest q ≡ some q') × IsNotify alive q'
unfolding wake_single
wake_single-IsNotify alive one x rest q h ok = (
  hand_to one x rest q,
  refl,
  hand_to-IsNotify alive one x rest (record q { waiters = x ∷ rest })
      (ok.distinct.1, ok.distinct.0, λ z. refl) ok,
)
wake_single-IsNotify alive last x rest q h ok = (
  hand_to last (last_or x rest) (firsts x rest) q,
  refl,
  hand_to-IsNotify alive last (last_or x rest) (firsts x rest) (record q { waiters = x ∷ rest })
      (last_or-LeftOut x rest ok.distinct) ok,
)
wake_single-IsNotify alive all x rest q h ok = absurd (h refl)

-- `notify_one` and `notify_last` do not panic, and keep the invariant.
pub notify_single-IsNotify :
    (alive : ℕ → Bool) (n : Notification) (q : Notify)
    → n ≢ all
    → IsNotify alive q
    → (q' : Notify) × (notify_single n q ≡ some q') × IsNotify alive q'
unfolding notify_single
notify_single-IsNotify alive n q h ok = by_waiters q.waiters refl
  where
    by_waiters :
        (l : List ℕ)
        → q.waiters ≡ l
        → (q' : Notify) × (notify_single n q ≡ some q') × IsNotify alive q'
    by_waiters [] e = (
      record q { state = state_notified },
      rw e refl,
      record {
        distinct = ok.distinct;
        marked = ok.marked;
        in_queue = ok.in_queue;
        answered = ok.answered;
        state_bound = omega arith;
      },
    )
    by_waiters (x ∷ rest) e =
        let (q', e', ok') =
          wake_single-IsNotify alive n x rest q h (with_waiters-IsNotify alive q (x ∷ rest) e ok) in
        (
          q',
          ap
                (λ l. elim l [
                  | [] ↦ some (record q { state = state_notified })
                  | x ∷ rest ↦ wake_single n x rest q
                ])
                e
              ∙ e',
          ok',
        )

-- While the waiters are drained, those to come are still marked.
drained-IsNotify :
    (alive : ℕ → Bool) (xs : List ℕ) (q : Notify)
    → q.waiters ≡ []
    → IsNotify alive (record q { waiters = xs })
    → IsNotify alive (notify_drained xs q)
unfolding notify_drained
drained-IsNotify alive [] q e ok = subst (λ l. IsNotify alive (record q { waiters = l })) (sym e) ok
drained-IsNotify alive (x ∷ xs) q e ok = drained-IsNotify alive xs _ e (record {
  distinct = ok.distinct.1;
  marked =
      λ z m. let (on, lives) = ok.marked z (ground arith) in (ground (arith, ok.distinct.0), lives);
  in_queue = λ z m. ground (arith, ok.in_queue z);
  answered = λ z lives m. elim (Bool-cases (z == x)) [
    | inl h ↦ (all, rw h refl)
    | inr h ↦ let (k, e) = ok.answered z lives (ground arith) in (k, rw h e)
  ];
  state_bound = ok.state_bound;
})

-- `notify_waiters` keeps the invariant.
pub notify_waiters-IsNotify :
    (alive : ℕ → Bool) (q : Notify) → IsNotify alive q → IsNotify alive (notify_waiters q)
unfolding notify_waiters
notify_waiters-IsNotify alive q ok = drained-IsNotify alive q.waiters _ refl (record {
  distinct = ok.distinct;
  marked = ok.marked;
  in_queue = ok.in_queue;
  answered = ok.answered;
  state_bound = bound q.waiters;
})
  where
    bound : (l : List ℕ) → elim l [ [] ↦ q.state | x ∷ rest ↦ state_unnotified ] ≤ 1
    bound [] = ok.state_bound
    bound (x ∷ rest) = omega arith

-- A node that its own future takes out of the queue is no longer asked for a notification.
abbrev pub except : ℕ → (ℕ → Bool) → ℕ → Bool
except x alive z = if z == x then false else alive z

pub leave-IsNotify :
    (alive : ℕ → Bool) (x : ℕ) (q : Notify)
    → IsNotify alive q
    → q.raw_state_of x ≡ queued
    → IsNotify (except x alive) (leave x q)
leave-IsNotify alive x q ok on =
    let (dis, out, same) = without-LeftOut x q.waiters ok.distinct (ok.in_queue x on) in
    record {
      distinct = dis;
      marked = λ z m.
          let (at, lives) = ok.marked z (ground (arith, same z)) in (ground arith, ground arith);
      in_queue = λ z m. ground (arith, ok.in_queue z, same z);
      answered = λ z lives m. let (k, e) = ok.answered z (ground arith) (ground arith) in (k, e);
      state_bound = state_of_rest_bound (without x q.waiters) q.state ok.state_bound;
    }

-- A node that is not in the queue may be let go.
pub drop-IsNotify :
    (alive : ℕ → Bool) (x : ℕ) (q : Notify)
    → IsNotify alive q
    → q.raw_state_of x ≢ queued
    → IsNotify (except x alive) q
drop-IsNotify alive x q ok off = record {
  distinct = ok.distinct;
  marked = λ z m. let (at, lives) = ok.marked z m in (at, still z at lives);
  in_queue = ok.in_queue;
  answered = λ z lives m. ok.answered z (ground arith) m;
  state_bound = ok.state_bound;
}
  where
    still : (z : ℕ) → q.raw_state_of z ≡ queued → alive z ≡ true → except x alive z ≡ true
    still z at lives = elim (Bool-cases (z == x)) [
      | inl h ↦ absurd (off (ap q.raw_state_of (sym (==→eq z x h)) ∙ at))
      | inr h ↦ rw h lives
    ]
