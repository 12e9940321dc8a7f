-- ===== src/Semaphore/Promises.antt =====
-- What a semaphore in use by the steps of Semaphore/System.antt promises: no permit is lost or made,
-- giving a permit back does not panic, and a task waits only while others have what it needs.
use aiq.Prelude.{
  ℕ, ◌+◌, ◌-◌, ◌*◌, ◌%◌, ◌≤◌, ◌<◌, ◌≡◌, refl, ◌∙◌, sym, ap, subst, inl, inr, some, List, [], ◌∷◌,
  ◌++◌, arith, All, ◌==◌, true, Bool-cases,
}
use aiq.Semaphore.{
  Waiter, Line, idle, waiting, Woken, max_permits, add_permits, available_permits, is_closed,
  SemaphorePermit, drop_permit, split, merge, close, store_state, new, check_add_permits,
}
use aiq.Semaphore.System.{
  waiters, State, taken_out, Step, add, drop_one, try_acquire_step, poll_ready, poll_waits,
  poll_again, poll_served, cancel_waiting, cancel_left, forget_one, forget_some, split_one,
  merge_two, reorder, cancel_only, close_step, held, given, given_waiting, accounted, Lined,
  Conserved,
}
use aiq.Semaphore.Accounts.{
  Taken-Conserved, forgotten-Conserved, held-Conserved, Joined-Conserved, Rewoken-Conserved,
  served-Conserved, cancel_left-Conserved, cancel_waiting-Conserved, drop_permit-Conserved,
  add-Conserved,
}
use aiq.Semaphore.Halving.{cancel_only-Conserved}
use aiq.Semaphore.Closing.{close_idle, close_waiting}
use aiq.Semaphore.Permits.{new-available}
use aiq.Semaphore.Release.{HasWaker, add_permits-Released}
use aiq.Semaphore.Conserve.{Lined-HasWaker, Behind-given, given-append}
use aiq.Semaphore.Taking.{
  try_acquire_many-Taken, poll_ready-Taken, forget_permits-Taken, poll_waits-Joined,
  poll_again-Rewoken, poll_served-ready,
}
use aiq.Semaphore.Leaving.{held-remove}

given-taken_out : (ns : List ℕ) (ws : List Waiter) → given (taken_out ns ws) ≡ given_waiting ns ws
given-taken_out [] ws = refl
given-taken_out (a ∷ ns) [] = refl
given-taken_out (a ∷ ns) (w ∷ ws) = omega (arith, given-taken_out ns ws)

close-permits :
    (line : Line) (r : Woken)
    → close line ≡ some r
    → (waiters r.line ≡ [])
      × (available_permits r.line ≡ available_permits line)
      × (is_closed r.line ≡ true)
unfolding close store_state available_permits is_closed
close-permits (idle state) r e =
    let same : r ≡ record { line = idle (state + 1 - state % 2); woken = [] } =
      close_idle state r e in
    (
      ap (λ r. waiters r.line) same,
      ap (λ r. available_permits r.line) same ∙ omega arith,
      ap (λ r. is_closed r.line) same ∙ ground arith,
    )
close-permits (waiting w ws) r e =
    let same : r.line ≡ idle 1 = close_waiting w ws r e in
    (ap waiters same, ap available_permits same, ap is_closed same)

close-Conserved :
    (s : State) (r : Woken)
    → Conserved s
    → close s.line ≡ some r
    → Conserved (record s {
      line = r.line;
      asked = [];
      left_queue = taken_out s.asked (waiters s.line) ++ s.left_queue;
    })
close-Conserved s r c e =
    let (empty, same, shut) = close-permits s.line r e in
    record {
      lined = subst (Lined []) (sym empty) tt;
      balance = omega (
        arith,
        c.balance,
        same,
        given-append (taken_out s.asked (waiters s.line)) s.left_queue,
        given-taken_out s.asked (waiters s.line),
      );
      bounded = c.bounded;
      settled = inr shut;
    }

split-held :
    (p rest part : SemaphorePermit) (n : ℕ)
    → split p n ≡ (rest, some part)
    → rest.permits + part.permits ≡ p.permits
unfolding split
split-held p rest part n e = ground arith

merge-held :
    (p other all none_left : SemaphorePermit)
    → merge p other ≡ some (all, none_left)
    → all.permits + none_left.permits ≡ p.permits + other.permits
unfolding merge
merge-held p other all none_left e = ground arith

-- No operation loses or makes a permit.
pub Step-Conserved : (s s' : State) → Step s s' → Conserved s → Conserved s'
Step-Conserved s s' (add n r le e) c =
    add-Conserved (record s { total = n + s.total }) n r c.lined (omega (arith, c.balance)) le
      c.settled e
Step-Conserved s s' (drop_one p ps qs r at e) c = drop_permit-Conserved s p ps qs r c at e
Step-Conserved s s' (try_acquire_step sem n line e) c =
    Taken-Conserved s line (record { sem = sem; permits = n }) c
      (try_acquire_many-Taken n s.line line e)
Step-Conserved s s' (poll_ready sem n k line lt e) c =
    Taken-Conserved s line (record { sem = sem; permits = n }) c
      (poll_ready-Taken n k s.line line e)
Step-Conserved s s' (poll_waits n k line lt e) c =
    Joined-Conserved s line n c (poll_waits-Joined n k s.asked s.line line lt c.lined e)
Step-Conserved s s' (poll_again n k before behind w line at e) c =
    Rewoken-Conserved s line before behind w c at
      (poll_again-Rewoken n k s.asked before behind w s.line line c.lined at e)
Step-Conserved s s' (poll_served sem n k w ds es line at e) c =
    let (same, is_open) = poll_served-ready n k w s.line line e in
    subst
      (λ line. Conserved (record s {
        line = line;
        left_queue = ds ++ es;
        permits = record { sem = sem; permits = n } ∷ s.permits;
      }))
      (sym same) (served-Conserved s n sem w ds es c at is_open)
Step-Conserved s s' (cancel_waiting n ns ms before behind w r at asks same others e) c =
    cancel_waiting-Conserved s n ns ms before behind w r c at asks same others e
Step-Conserved s s' (cancel_left n w ds es r at e) c = cancel_left-Conserved s n w ds es r c at e
Step-Conserved s s' (forget_one p ps qs at) c =
    held-Conserved s (ps ++ qs) (s.total - p.permits) c (omega arith)
      (omega (arith, c.balance, ap held at, held-remove ps qs p))
Step-Conserved s s' (forget_some n k line le e) c =
    forgotten-Conserved s line k c
      (forget_permits-Taken n k s.line line (omega (arith, c.balance, c.bounded)) le e)
Step-Conserved s s' (split_one p rest part ps qs n at e) c =
    held-Conserved s (rest ∷ part ∷ ps ++ qs) s.total c (omega arith)
      (omega (arith, ap held at, held-remove ps qs p, split-held p rest part n e))
Step-Conserved s s' (reorder p ps qs at) c =
    held-Conserved s (p ∷ ps ++ qs) s.total c (omega arith)
      (omega (arith, ap held at, held-remove ps qs p))
Step-Conserved s s' (cancel_only n w r at asks e) c = cancel_only-Conserved s n w r c at asks e
Step-Conserved s s' (merge_two p other all none_left rest at e) c =
    held-Conserved s (all ∷ none_left ∷ rest) s.total c (omega arith)
      (omega (arith, ap held at, merge-held p other all none_left e))
Step-Conserved s s' (close_step r e) c = close-Conserved s r c e

-- What the operations lead to, one after another, from a new semaphore.
pub data Reach : State → Type 0 where
  start :
      {n : ℕ} {line : Line}
      → n ≤ max_permits
      → new n ≡ some line
      → Reach (record { line = line; asked = []; left_queue = []; permits = []; total = n })
  step : {s s' : State} → Reach s → Step s s' → Reach s'

new_balance :
    (n : ℕ)
    → accounted
        (record { line = idle (n * 2); asked = []; left_queue = []; permits = []; total = n })
      ≡ n
unfolding available_permits
new_balance n = omega arith

Reach-Conserved : (s : State) → Reach s → Conserved s
Reach-Conserved s (start {n} {line} le e) =
    let made : idle (n * 2) ≡ line = cc (e, new-available n le) in
    subst
      (λ line.
        Conserved (record { line = line; asked = []; left_queue = []; permits = []; total = n }))
      made (record { lined = tt; balance = new_balance n; bounded = le; settled = inl tt })
Reach-Conserved s (step {s = before} r st) = Step-Conserved before s st (Reach-Conserved before r)

-- In every state that steps lead to from a new semaphore, the permits that are available, in the hands
-- of tasks, and given to acquisitions that are not ready yet are those that it was made with or that
-- were added, less those that were forgotten and the half that is lost where the only waiter is
-- cancelled; a step is any operation on a semaphore but those on owned permits, first polls that ask
-- for 2 ^ 31 permits or more, adding beyond max_permits in all, and forgetting more than that at once.
pub Reach-accounted : (s : State) → Reach s → accounted s ≡ s.total
Reach-accounted s r = (Reach-Conserved s r).balance

-- Adding permits does not panic where the semaphore then has no more than it may.
add_permits-runs :
    (n : ℕ) (line : Line)
    → n + available_permits line ≤ max_permits
    → All HasWaker (waiters line)
    → (r : Woken) × (add_permits n line ≡ some r)
unfolding add_permits check_add_permits store_state available_permits
add_permits-runs n (idle state) le have =
    (record { line = idle (state + n * 2); woken = [] }, ground arith)
add_permits-runs n (waiting w ws) le have = elim (Bool-cases (n == 0)) [
  | inl z ↦ (record { line = waiting w ws; woken = [] }, ground arith)
  | inr nz ↦
      let (r, runs, _, _) = add_permits-Released n w ws (ground arith) (omega arith) have in
      (r, runs)
]

-- In every state that steps lead to, dropping a permit that a task has does not panic; a step is any
-- operation on a semaphore but those on owned permits, first polls that ask for 2 ^ 31 permits or
-- more, adding beyond max_permits in all, and forgetting more than that at once.
pub drop_permit-runs :
    (s : State) (p : SemaphorePermit) (ps qs : List SemaphorePermit)
    → Reach s
    → s.permits ≡ ps ++ p ∷ qs
    → (r : Woken) × (drop_permit p s.line ≡ some r)
unfolding drop_permit
drop_permit-runs s p ps qs reach at =
    let c = Reach-Conserved s reach in
    add_permits-runs p.permits s.line
      (omega (arith, c.balance, c.bounded, ap held at, held-remove ps qs p))
      (Lined-HasWaker s.asked (waiters s.line) c.lined)

-- In every state that steps lead to in which no task has a permit or an acquisition that left the
-- queue, the first one that waits, if it asked for any permits, asked for more than there are in all,
-- those left out that were lost where the only waiter was cancelled; a step is any operation on a
-- semaphore but those on owned permits, first polls that ask for 2 ^ 31 permits or more, adding beyond
-- max_permits in all, and forgetting more than that at once.
pub waiting-exceeds :
    (s : State) (a : ℕ) (ns : List ℕ) (w : Waiter) (ws : List Waiter)
    → Reach s
    → s.permits ≡ []
    → s.left_queue ≡ []
    → s.asked ≡ a ∷ ns
    → 0 < a
    → s.line ≡ waiting w ws
    → s.total < a
unfolding available_permits
waiting-exceeds s a ns w ws reach none_held none_left asks pos at =
    let c = Reach-Conserved s reach in
    let lined : Lined (a ∷ ns) (w ∷ ws) =
      subst (λ l. Lined l (w ∷ ws)) asks
        (subst (λ line. Lined s.asked (waiters line)) at c.lined) in
    let wants : 0 < w.permits_remaining = ground arith in
    omega (
      arith,
      c.balance,
      ap held none_held,
      ap given none_left,
      ap available_permits at,
      ap (λ line. given_waiting s.asked (waiters line)) at,
      ap (λ l. given_waiting l (w ∷ ws)) asks,
      Behind-given ns ws lined.1,
      lined.0.1,
    )
