-- ===== src/Semaphore/Leaving.antt =====
-- Taking a waiter out of a line: what the others were given stays, and cancelling is adding what the
-- waiter was given.
use aiq.Prelude.{
  ℕ, ◌+◌, ◌-◌, ◌≤◌, ◌<◌, ◌≡◌, refl, sym, subst, inl, inr, ◌⊎◌, some, List, [], ◌∷◌, ◌++◌, arith,
  length, All, false,
}
use mathlib.Core.List.{append-nil}
use aiq.Semaphore.{
  Waiter, Line, idle, waiting, Woken, add_permits, available_permits, is_closed, store_state,
  SemaphorePermit,
}
use aiq.Semaphore.Cancel.{cancel_queued, cancel_dequeued, give_back}
use aiq.Semaphore.Futures.{
  line_of, queued, dequeued, drop_acquire, drop_acquire_node, cancel_acquire,
}
use aiq.Semaphore.System.{waiters, given, held, given_waiting, Behind, Lined, Acquisition}
use aiq.Semaphore.Conserve.{Behind-Lined}

pub held-remove :
    (ps qs : List SemaphorePermit) (p : SemaphorePermit)
    → held (ps ++ p ∷ qs) ≡ p.permits + held (ps ++ qs)
held-remove [] qs p = refl
held-remove (q ∷ ps) qs p = omega (arith, held-remove ps qs p)

pub given-remove :
    (ds es : List Acquisition) (d : Acquisition)
    → given (ds ++ d ∷ es) ≡ d.0 - d.1.permits_remaining + given (ds ++ es)
given-remove [] es d = refl
given-remove (c ∷ ds) es d = omega (arith, given-remove ds es d)

pub All-remove {ℓ κ} :
    {A : Type ℓ} (P : A → Type κ) (xs ys : List A) (x : A)
    → All P (xs ++ x ∷ ys)
    → P x × All P (xs ++ ys)
All-remove P [] ys x p = p
All-remove P (z ∷ xs) ys x p = let (px, rest) = All-remove P xs ys x p.1 in (px, (p.0, rest))

Behind-remove :
    (ns ms : List ℕ) (a : ℕ) (before behind : List Waiter) (w : Waiter)
    → length ns ≡ length before
    → Behind (ns ++ a ∷ ms) (before ++ w ∷ behind)
    → (w.permits_remaining ≡ a) × Behind (ns ++ ms) (before ++ behind)
Behind-remove [] ms a [] behind w same b = (b.1, b.2)
Behind-remove [] ms a (v ∷ before) behind w same b = absurd (omega arith)
Behind-remove (n ∷ ns) ms a [] behind w same b = absurd (omega arith)
Behind-remove (n ∷ ns) ms a (v ∷ before) behind w same b =
    let (whole, rest) = Behind-remove ns ms a before behind w (omega arith) b.2 in
    (whole, (b.0, b.1, rest))

-- A waiter's line once it has left it.
pub record Without (ns ms : List ℕ) (a : ℕ) (before behind : List Waiter) (w : Waiter)
    : Type 0 where
  pub lined : Lined (ns ++ ms) (before ++ behind)
  pub fits : w.permits_remaining ≤ a
  pub sum :
      given_waiting (ns ++ a ∷ ms) (before ++ w ∷ behind)
      ≡ a - w.permits_remaining + given_waiting (ns ++ ms) (before ++ behind)
  pub only_first : (before ≡ []) ⊎ (w.permits_remaining ≡ a)

given_waiting-remove :
    (ns ms : List ℕ) (a : ℕ) (before behind : List Waiter) (w : Waiter)
    → length ns ≡ length before
    → given_waiting (ns ++ a ∷ ms) (before ++ w ∷ behind)
      ≡ a - w.permits_remaining + given_waiting (ns ++ ms) (before ++ behind)
given_waiting-remove [] ms a [] behind w same = refl
given_waiting-remove [] ms a (v ∷ before) behind w same = absurd (omega arith)
given_waiting-remove (n ∷ ns) ms a [] behind w same = absurd (omega arith)
given_waiting-remove (n ∷ ns) ms a (v ∷ before) behind w same =
    omega (arith, given_waiting-remove ns ms a before behind w (omega arith))

pub Lined-remove :
    (ns ms : List ℕ) (a : ℕ) (before behind : List Waiter) (w : Waiter)
    → length ns ≡ length before
    → Lined (ns ++ a ∷ ms) (before ++ w ∷ behind)
    → Without ns ms a before behind w
Lined-remove [] ms a [] behind w same l = record {
  lined = Behind-Lined ms behind l.1;
  fits = l.0.1;
  sum = refl;
  only_first = inl refl;
}
Lined-remove [] ms a (v ∷ before) behind w same l = absurd (omega arith)
Lined-remove (n ∷ ns) ms a [] behind w same l = absurd (omega arith)
Lined-remove (n ∷ ns) ms a (v ∷ before) behind w same l =
    let (whole, rest) = Behind-remove ns ms a before behind w (omega arith) l.1 in
    record {
      lined = (l.0, rest);
      fits = omega arith;
      sum = given_waiting-remove (n ∷ ns) ms a (v ∷ before) behind w same;
      only_first = inr whole;
    }

-- Where there are waiters the semaphore is open and has no permits.
pub open_with_waiters :
    (line : Line) (before behind : List Waiter) (w : Waiter)
    → waiters line ≡ before ++ w ∷ behind
    → (is_closed line ≡ false) × (available_permits line ≡ 0)
unfolding is_closed available_permits
open_with_waiters (idle state) [] behind w e = cc
open_with_waiters (idle state) (v ∷ before) behind w e = cc
open_with_waiters (waiting u us) before behind w e = (refl, refl)

pub waiters-line_of : (ws : List Waiter) → waiters (line_of ws) ≡ ws
waiters-line_of [] = refl
waiters-line_of (w ∷ ws) = refl

pub available-line_of : (ws : List Waiter) → available_permits (line_of ws) ≡ 0
unfolding available_permits
available-line_of [] = refl
available-line_of (w ∷ ws) = refl

-- Dropping an acquisition that waits is adding the permits that it was given, at the queue without it.
pub drop_acquire-add :
    (n : ℕ) (before behind : List Waiter) (w : Waiter) (line : Line) (r : Woken)
    → w.permits_remaining ≤ n
    → (before ≡ []) ⊎ (w.permits_remaining ≡ n)
    → (n ≡ w.permits_remaining) ⊎ (0 < length (before ++ behind))
    → drop_acquire n (queued before w behind) line ≡ some r
    → add_permits (n - w.permits_remaining) (line_of (before ++ behind)) ≡ some r
unfolding drop_acquire drop_acquire_node cancel_acquire cancel_queued give_back add_permits
    store_state
drop_acquire-add n [] [] w line r le first others e = elim others [
  | inl same ↦ ground arith
  | inr lt ↦ absurd (omega arith)
]
drop_acquire-add n [] (v ∷ rest) w line r le first others e = ground arith
drop_acquire-add n (u ∷ us) [] w line r le first others e = elim first [
  | inl none_before ↦ cc
  | inr whole ↦
      subst (λ l. add_permits (n - w.permits_remaining) (waiting u l) ≡ some r)
        (sym (append-nil us)) (ground (arith, append-nil us))
]
drop_acquire-add n (u ∷ us) (v ∷ rest) w line r le first others e = elim first [
  | inl none_before ↦ cc
  | inr whole ↦ ground arith
]

-- Dropping one whose node has left the queue is adding the permits that it was given.
pub drop_left-add :
    (n : ℕ) (w : Waiter) (line : Line) (r : Woken)
    → drop_acquire n (dequeued w) line ≡ some r
    → add_permits (n - w.permits_remaining) line ≡ some r
unfolding drop_acquire drop_acquire_node cancel_acquire cancel_dequeued add_permits
drop_left-add n w (idle state) r e = ground arith
drop_left-add n w (waiting v vs) r e = ground arith
