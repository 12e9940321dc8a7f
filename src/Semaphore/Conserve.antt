-- ===== src/Semaphore/Conserve.antt =====
-- Adding permits keeps the accounts of a semaphore in use.
use aiq.Prelude.{
  ℕ, zero, suc, ◌+◌, ◌-◌, ◌*◌, ◌≤◌, ◌≡◌, refl, sym, subst, inl, inr, Bool-cases, some, List, [],
  ◌∷◌, ◌++◌, arith, length, All, ◌==◌, true,
}
use aiq.Semaphore.{
  Waiter, Line, idle, waiting, Woken, max_permits, check_add_permits, store_state, add_permits,
  available_permits, is_closed,
}
use aiq.Semaphore.Release.{
  HasWaker, Served, exhausted, next_waits, surplus, served, add_permits-Released,
}
use aiq.Semaphore.System.{
  waiters, drop, served_in_full, given, given_waiting, Behind, First, Lined, Acquisition, IsFull,
}

pub Behind-given : (ns : List ℕ) (ws : List Waiter) → Behind ns ws → given_waiting ns ws ≡ 0
Behind-given [] [] b = refl
Behind-given [] (w ∷ ws) b = absurd b
Behind-given (a ∷ ns) [] b = absurd b
Behind-given (a ∷ ns) (w ∷ ws) (have, same, b) = omega (arith, Behind-given ns ws b)

pub Behind-Lined : (ns : List ℕ) (ws : List Waiter) → Behind ns ws → Lined ns ws
Behind-Lined [] [] b = tt
Behind-Lined [] (w ∷ ws) b = absurd b
Behind-Lined (a ∷ ns) [] b = absurd b
Behind-Lined (a ∷ ns) (w ∷ ws) (have, same, b) = ((have, omega arith, ground arith), b)

Behind-HasWaker : (ns : List ℕ) (ws : List Waiter) → Behind ns ws → All HasWaker ws
Behind-HasWaker [] [] b = tt
Behind-HasWaker [] (w ∷ ws) b = absurd b
Behind-HasWaker (a ∷ ns) [] b = absurd b
Behind-HasWaker (a ∷ ns) (w ∷ ws) (have, same, b) = (have, Behind-HasWaker ns ws b)

pub given-append : (ds es : List Acquisition) → given (ds ++ es) ≡ given ds + given es
given-append [] es = omega arith
given-append (d ∷ ds) es = omega (arith, given-append ds es)

-- What adding `n` permits makes of the acquisitions that wait.
pub record Added (n : ℕ) (line : Line) (asked : List ℕ) (r : Woken) : Type 0 where
  pub lined : Lined (drop (length r.woken) asked) (waiters r.line)
  pub sum :
      available_permits r.line
        + given (served_in_full (length r.woken) asked)
        + given_waiting (drop (length r.woken) asked) (waiters r.line)
      ≡ n + available_permits line + given_waiting asked (waiters line)
  pub same_closed : is_closed r.line ≡ is_closed line

Served-Added :
    (a : ℕ) (ns : List ℕ) (n : ℕ) (w : Waiter) (ws : List Waiter) (ks : List ℕ) (line : Line)
    → First a w
    → Behind ns ws
    → Served (w ∷ ws) n ks line
    → Added n (waiting w ws) (a ∷ ns) (record { line = line; woken = ks })
unfolding available_permits is_closed
Served-Added a ns n w ws ks line (have, le, wants) b (exhausted lt) = record {
  lined = ((have, omega arith, ground arith), b);
  sum = omega arith;
  same_closed = refl;
}
Served-Added a (c ∷ ns) n w (v ∷ ws) ks line (have, le, wants) b (next_waits e same) = record {
  lined = Behind-Lined (c ∷ ns) (v ∷ ws) b;
  sum = omega (arith, Behind-given (c ∷ ns) (v ∷ ws) b);
  same_closed = refl;
}
Served-Added a [] n w (v ∷ ws) ks line f b (next_waits e same) = absurd b
Served-Added a [] n w [] ks line (have, le, wants) b (surplus e le') = record {
  lined = tt;
  sum = omega arith;
  same_closed = ground arith;
}
Served-Added a (c ∷ ns) n w [] ks line f b (surplus e le') = absurd b
Served-Added a [] n w (v ∷ ws) ks line f b (served e lt rest) = absurd b
Served-Added a (c ∷ ns) n w (v ∷ ws) ks line (have, le, wants) b (served e lt rest) =
    let more =
      Served-Added c ns (n - w.permits_remaining) v ws _ line (Behind-Lined (c ∷ ns) (v ∷ ws) b).0
        b.2 rest in
    record {
      lined = more.lined;
      sum = omega (arith, more.sum, Behind-given (c ∷ ns) (v ∷ ws) b);
      same_closed = more.same_closed;
    }

add_idle :
    (n state : ℕ) (r : Woken)
    → add_permits n (idle state) ≡ some r
    → r ≡ record { line = idle (state + n * 2); woken = [] }
unfolding add_permits check_add_permits store_state
add_idle n state r e = ground arith

add_none :
    (n : ℕ) (w : Waiter) (ws : List Waiter) (r : Woken)
    → (n == 0) ≡ true
    → add_permits n (waiting w ws) ≡ some r
    → r ≡ record { line = waiting w ws; woken = [] }
unfolding add_permits
add_none n w ws r z e = ground arith

pub Lined-HasWaker : (asked : List ℕ) (ws : List Waiter) → Lined asked ws → All HasWaker ws
Lined-HasWaker asked [] l = tt
Lined-HasWaker [] (w ∷ ws) l = absurd l
Lined-HasWaker (a ∷ ns) (w ∷ ws) ((have, _, _), b) = (have, Behind-HasWaker ns ws b)

waiting-Added :
    (n : ℕ) (w : Waiter) (ws : List Waiter) (asked : List ℕ) (r : Woken)
    → n ≤ max_permits
    → Lined asked (w ∷ ws)
    → add_permits n (waiting w ws) ≡ some r
    → Added n (waiting w ws) asked r
unfolding available_permits
waiting-Added n w ws [] r le l e = absurd l
waiting-Added n w ws (a ∷ ns) r le l e = elim (Bool-cases (n == 0)) [
  | inl z ↦
      subst (Added n (waiting w ws) (a ∷ ns)) (sym (add_none n w ws r z e))
        (record { lined = l; sum = ground arith; same_closed = refl })
  | inr nz ↦
      let (r', runs, fair, _) =
        add_permits-Released n w ws (ground arith) le (Lined-HasWaker (a ∷ ns) (w ∷ ws) l) in
      let same : r ≡ r' = cc in
      subst (Added n (waiting w ws) (a ∷ ns)) (sym same)
        (Served-Added a ns n w ws r'.woken r'.line l.0 l.1 fair)
]

pub add_permits-Added :
    (n : ℕ) (line : Line) (asked : List ℕ) (r : Woken)
    → n ≤ max_permits
    → Lined asked (waiters line)
    → add_permits n line ≡ some r
    → Added n line asked r
unfolding available_permits is_closed
add_permits-Added n (idle state) [] r le l e =
    subst (Added n (idle state) []) (sym (add_idle n state r e))
      (record { lined = tt; sum = omega arith; same_closed = ground arith })
add_permits-Added n (idle state) (a ∷ ns) r le l e = absurd l
add_permits-Added n (waiting w ws) asked r le l e = waiting-Added n w ws asked r le l e

pub served_in_full-IsFull : (k : ℕ) (ns : List ℕ) → All IsFull (served_in_full k ns)
served_in_full-IsFull zero ns = tt
served_in_full-IsFull (suc k) [] = tt
served_in_full-IsFull (suc k) (a ∷ ns) = (refl, served_in_full-IsFull k ns)
