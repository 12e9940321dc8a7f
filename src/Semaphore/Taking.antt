-- ===== src/Semaphore/Taking.antt =====
-- Taking permits from a semaphore, and waiting for them.
use aiq.Prelude.{
  ℕ, ◌+◌, ◌-◌, ◌/◌, ◌%◌, ◌^◌, ◌≤◌, ◌<◌, ◌≡◌, refl, ◌∙◌, ap, sym, subst, some, List, [], ◌∷◌, ◌++◌,
  arith, ◌==◌, false,
}
use aiq.Semaphore.{
  Waiter, Line, idle, waiting, max_permits, available_permits, is_closed, try_acquire_many,
  acquired, check_acquire_permits, poll_unqueued, poll_refused, enqueue_waiter, ready, pending,
  forget_permits, wrapping_forget, store_state,
}
use aiq.Semaphore.Cancel.{poll_queued, poll_dequeued}
use aiq.Semaphore.Futures.{unqueued, queued, dequeued, poll_acquire, line_of}
use aiq.Semaphore.System.{waiters, given_waiting, Behind, Lined}
use aiq.Semaphore.Conserve.{Behind-given}
use aiq.Semaphore.Leaving.{open_with_waiters, waiters-line_of}

-- The permits `n` are no more at the semaphore.
pub record Taken (n : ℕ) (line left : Line) : Type 0 where
  pub same_waiters : waiters left ≡ waiters line
  pub sum : available_permits line ≡ n + available_permits left
  pub same_closed : is_closed left ≡ is_closed line

acquire_left :
    (n state left : ℕ)
    → check_acquire_permits state n ≡ some left
    → (state / 2 ≡ n + left / 2) × ((left % 2 == 0) ≡ (state % 2 == 0))
unfolding check_acquire_permits
acquire_left n state left e = (ground arith, ground arith)

pub try_acquire_many-Taken :
    (n : ℕ) (line left : Line) → try_acquire_many n line ≡ acquired n left → Taken n line left
unfolding try_acquire_many available_permits is_closed check_acquire_permits
try_acquire_many-Taken n (idle state) (idle left) e = record {
  same_waiters = refl;
  sum = ground arith;
  same_closed = ground arith;
}
try_acquire_many-Taken n (idle state) (waiting w ws) e = ground arith
try_acquire_many-Taken n (waiting w ws) left e = cc

pub poll_ready-Taken :
    (n cx_waker : ℕ) (line left : Line)
    → poll_acquire n cx_waker unqueued line ≡ ready left
    → Taken n line left
unfolding poll_acquire poll_unqueued poll_refused available_permits is_closed check_acquire_permits
poll_ready-Taken n cx_waker (idle state) (idle left) e = record {
  same_waiters = refl;
  sum = ground arith;
  same_closed = ground arith;
}
poll_ready-Taken n cx_waker (idle state) (waiting w ws) e = ground arith
poll_ready-Taken n cx_waker (waiting w ws) left e = ground arith

pub forget_permits-Taken :
    (n k : ℕ) (line left : Line)
    → available_permits line ≤ max_permits
    → n ≤ max_permits
    → forget_permits n line ≡ some (k, left)
    → Taken k line left
unfolding forget_permits wrapping_forget store_state available_permits is_closed
forget_permits-Taken n k (idle state) (idle left) le le' e = record {
  same_waiters = refl;
  sum = ground arith;
  same_closed = ground arith;
}
forget_permits-Taken n k (idle state) (waiting w ws) le le' e = ground arith
forget_permits-Taken n k (waiting w ws) left le le' e =
    let same : left ≡ waiting w ws = cc in
    let none_taken : k ≡ 0 = cc in
    record {
      same_waiters = ap waiters same;
      sum = omega (arith, ap available_permits same);
      same_closed = ap is_closed same;
    }

-- A line with one more waiter, which was given what there was.
pub record Joined (n : ℕ) (asked : List ℕ) (line longer : Line) : Type 0 where
  pub lined : Lined (asked ++ n ∷ []) (waiters longer)
  pub sum :
      available_permits longer + given_waiting (asked ++ n ∷ []) (waiters longer)
      ≡ available_permits line + given_waiting asked (waiters line)
  pub was_open : is_closed line ≡ false

Behind-join :
    (ns : List ℕ) (ws : List Waiter) (n k : ℕ)
    → Behind ns ws
    → Behind (ns ++ n ∷ []) (ws ++ record { waker = some k; permits_remaining = n } ∷ [])
Behind-join [] [] n k b = ((k, refl), refl, tt)
Behind-join [] (w ∷ ws) n k b = absurd b
Behind-join (a ∷ ns) [] n k b = absurd b
Behind-join (a ∷ ns) (w ∷ ws) n k b = (b.0, b.1, Behind-join ns ws n k b.2)

idle_pending :
    (n cx_waker state : ℕ) (longer : Line)
    → n < 2 ^ 31
    → poll_acquire n cx_waker unqueued (idle state) ≡ pending longer
    → (longer ≡ waiting (record { waker = some cx_waker; permits_remaining = n - state / 2 }) [])
      × (state / 2 < n)
      × (state % 2 ≡ 0)
unfolding poll_acquire poll_unqueued poll_refused enqueue_waiter check_acquire_permits
idle_pending n cx_waker state longer lt e = (ground arith, ground arith, ground arith)

waiting_pending :
    (n cx_waker : ℕ) (w : Waiter) (ws : List Waiter) (longer : Line)
    → poll_acquire n cx_waker unqueued (waiting w ws) ≡ pending longer
    → longer ≡ waiting w (ws ++ record { waker = some cx_waker; permits_remaining = n } ∷ [])
unfolding poll_acquire poll_unqueued poll_refused enqueue_waiter
waiting_pending n cx_waker w ws longer e = ground arith

pub poll_waits-Joined :
    (n cx_waker : ℕ) (asked : List ℕ) (line longer : Line)
    → n < 2 ^ 31
    → Lined asked (waiters line)
    → poll_acquire n cx_waker unqueued line ≡ pending longer
    → Joined n asked line longer
unfolding available_permits is_closed
poll_waits-Joined n cx_waker [] (idle state) longer lt l e =
    let (same, few, even) = idle_pending n cx_waker state longer lt e in
    subst (Joined n [] (idle state)) (sym same) (record {
      lined = (((cx_waker, refl), omega arith, ground arith), tt);
      sum = omega arith;
      was_open = ground arith;
    })
poll_waits-Joined n cx_waker (a ∷ ns) (idle state) longer lt l e = absurd l
poll_waits-Joined n cx_waker [] (waiting w ws) longer lt l e = absurd l
poll_waits-Joined n cx_waker (a ∷ ns) (waiting w ws) longer lt l e =
    subst (Joined n (a ∷ ns) (waiting w ws)) (sym (waiting_pending n cx_waker w ws longer e))
      (record {
        lined = (l.0, Behind-join ns ws n cx_waker l.1);
        sum = omega (
          arith,
          Behind-given (ns ++ n ∷ [])
              (ws ++ record { waker = some cx_waker; permits_remaining = n } ∷ [])
              (Behind-join ns ws n cx_waker l.1),
          Behind-given ns ws l.1,
        );
        was_open = refl;
      })

-- A line in which the waker of a waiter was replaced.
pub record Rewoken (asked : List ℕ) (line longer : Line) : Type 0 where
  pub lined : Lined asked (waiters longer)
  pub sum : given_waiting asked (waiters longer) ≡ given_waiting asked (waiters line)
  pub no_permits : available_permits longer ≡ 0
  pub is_open : is_closed longer ≡ false

Behind-rewake :
    (k : ℕ) (ns : List ℕ) (before behind : List Waiter) (w : Waiter)
    → Behind ns (before ++ w ∷ behind)
    → Behind ns (before ++ record w { waker = some k } ∷ behind)
Behind-rewake k [] [] behind w b = absurd b
Behind-rewake k [] (v ∷ before) behind w b = absurd b
Behind-rewake k (a ∷ ns) [] behind w b = ((k, refl), b.1, b.2)
Behind-rewake k (a ∷ ns) (v ∷ before) behind w b =
    (b.0, b.1, Behind-rewake k ns before behind w b.2)

Lined-rewake :
    (k : ℕ) (ns : List ℕ) (before behind : List Waiter) (w : Waiter)
    → Lined ns (before ++ w ∷ behind)
    → Lined ns (before ++ record w { waker = some k } ∷ behind)
Lined-rewake k [] [] behind w l = absurd l
Lined-rewake k [] (v ∷ before) behind w l = absurd l
Lined-rewake k (a ∷ ns) [] behind w l = (((k, refl), l.0.1, l.0.2), l.1)
Lined-rewake k (a ∷ ns) (v ∷ before) behind w l = (l.0, Behind-rewake k ns before behind w l.1)

given_waiting-rewake :
    (k : ℕ) (ns : List ℕ) (before behind : List Waiter) (w : Waiter)
    → given_waiting ns (before ++ record w { waker = some k } ∷ behind)
      ≡ given_waiting ns (before ++ w ∷ behind)
given_waiting-rewake k [] before behind w = refl
given_waiting-rewake k (a ∷ ns) [] behind w = refl
given_waiting-rewake k (a ∷ ns) (v ∷ before) behind w =
    omega (arith, given_waiting-rewake k ns before behind w)

again_pending :
    (n k : ℕ) (before behind : List Waiter) (w : Waiter) (line longer : Line)
    → poll_acquire n k (queued before w behind) line ≡ pending longer
    → longer ≡ line_of (before ++ record w { waker = some k } ∷ behind)
unfolding poll_acquire poll_queued
again_pending n k [] behind w line longer e = ground arith
again_pending n k (v ∷ before) behind w line longer e = ground arith

pub poll_again-Rewoken :
    (n k : ℕ) (asked : List ℕ) (before behind : List Waiter) (w : Waiter) (line longer : Line)
    → Lined asked (waiters line)
    → waiters line ≡ before ++ w ∷ behind
    → poll_acquire n k (queued before w behind) line ≡ pending longer
    → Rewoken asked line longer
poll_again-Rewoken n k asked before behind w line longer l at e =
    let rewoken = before ++ record w { waker = some k } ∷ behind in
    let same = again_pending n k before behind w line longer e in
    let at' : waiters longer ≡ rewoken = ap waiters same ∙ waiters-line_of rewoken in
    let (is_open, empty) =
      open_with_waiters longer before behind (record w { waker = some k }) at' in
    record {
      lined =
          subst (Lined asked) (sym at')
            (Lined-rewake k asked before behind w (subst (Lined asked) at l));
      sum =
          ap (given_waiting asked) at'
          ∙ given_waiting-rewake k asked before behind w
          ∙ ap (given_waiting asked) (sym at);
      no_permits = empty;
      is_open = is_open;
    }

-- A served acquisition is ready unless the semaphore was closed.
pub poll_served-ready :
    (n cx_waker : ℕ) (w : Waiter) (line left : Line)
    → poll_acquire n cx_waker (dequeued w) line ≡ ready left
    → (left ≡ line) × (is_closed line ≡ false)
unfolding poll_acquire poll_dequeued
poll_served-ready n cx_waker w line left e = (ground arith, ground arith)
