-- ===== src/Semaphore/Halving.antt =====
-- Cancelling the only waiter stores half of what it was given, and the accounts hold for the rest.
use aiq.Prelude.{ℕ, ◌-◌, ◌≤◌, ◌≡◌, sym, ap, subst, inl, inr, some, [], ◌∷◌, arith}
use aiq.Semaphore.{Waiter, Line, idle, waiting, Woken, store_state, available_permits, is_closed}
use aiq.Semaphore.Cancel.{cancel_queued}
use aiq.Semaphore.Futures.{queued, drop_acquire, drop_acquire_node, cancel_acquire}
use aiq.Semaphore.System.{waiters, State, given_waiting, Lined, Conserved, lost_by_half}

-- The line after the only waiter was dropped: what it was given is taken for a state.
cancel_only-line :
    (n : ℕ) (w : Waiter) (line : Line) (r : Woken)
    → w.permits_remaining ≤ n
    → drop_acquire n (queued [] w []) line ≡ some r
    → r.line ≡ idle (n - w.permits_remaining)
unfolding drop_acquire drop_acquire_node cancel_acquire cancel_queued store_state
cancel_only-line n w line r le e = ground arith

-- The only waiter is cancelled: half of what it was given is lost.
pub cancel_only-Conserved :
    (s : State) (n : ℕ) (w : Waiter) (r : Woken)
    → Conserved s
    → s.line ≡ waiting w []
    → s.asked ≡ n ∷ []
    → drop_acquire n (queued [] w []) s.line ≡ some r
    → Conserved (record s {
      line = r.line;
      asked = [];
      total = s.total - lost_by_half (n - w.permits_remaining);
    })
unfolding available_permits is_closed
cancel_only-Conserved s n w r c at asks e =
    let lined : Lined (n ∷ []) (w ∷ []) =
      subst (λ l. Lined l (w ∷ [])) asks
        (subst (λ line. Lined s.asked (waiters line)) at c.lined) in
    let le : w.permits_remaining ≤ n = lined.0.1 in
    let left = cancel_only-line n w s.line r le e in
    record {
      lined = subst (λ line. Lined [] (waiters line)) (sym left) tt;
      balance = omega (
        arith,
        c.balance,
        ap available_permits left,
        ap available_permits at,
        ap (λ line. given_waiting s.asked (waiters line)) at,
        ap (λ l. given_waiting l (w ∷ [])) asks,
      );
      bounded = omega (arith, c.bounded);
      settled = elim c.settled [ inl full ↦ inl full | inr closed ↦ cc (ap is_closed at, closed) ];
    }
