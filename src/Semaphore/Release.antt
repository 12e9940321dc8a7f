-- ===== src/Semaphore/Release.antt =====
-- Releasing permits: waiters are served in their order, and no permit is lost or made.
use aiq.Prelude.{
  ℕ, ◌+◌, ◌-◌, ◌*◌, ◌≤◌, ◌<◌, ◌≡◌, refl, ◌∙◌, sym, ap, subst, false, some, Option, Bool-cases, inl,
  inr, List, [], ◌∷◌, ◌++◌, arith, ltb, All, ◌==◌,
}
use mathlib.Core.List.{append-nil, append_assoc}
use aiq.Semaphore.{
  Waiter, Line, idle, waiting, Woken, max_permits, store_state, shifted, release, kept, called,
  is_full, add_permits, available_permits,
}

-- The permits that the waiters still want.
abbrev pub wanted : Waiter → List Waiter → ℕ
wanted w [] = w.permits_remaining
wanted w (v ∷ vs) = w.permits_remaining + wanted v vs

abbrev pub wanted_in : Line → ℕ
wanted_in (idle state) = 0
wanted_in (waiting w ws) = wanted w ws

-- Each waiter in the queue has a waker.
abbrev pub HasWaker : Waiter → Type 0
HasWaker w = (k : ℕ) × (w.waker ≡ some k)

-- Emptying the list of wakers does not change which ones have been called in the end.
kept-called : (woken wakers : List ℕ) → called woken wakers ++ kept wakers ≡ woken ++ wakers
unfolding called kept
kept-called woken wakers = elim (Bool-cases (is_full wakers)) [
  | inl h ↦ rw h (append-nil (woken ++ wakers))
  | inr h ↦ rw h refl
]

-- The waiters that a release takes out of the queue: each gets all it wants before the next gets any.
pub data Served : List Waiter → ℕ → List ℕ → Line → Type 0 where
  exhausted :
      {w : Waiter} {ws : List Waiter} {permits : ℕ}
      → permits < w.permits_remaining
      → Served
          (w ∷ ws)
          permits
          []
          (waiting (record w { permits_remaining = w.permits_remaining - permits }) ws)
  next_waits :
      {w v : Waiter} {ws : List Waiter} {permits k : ℕ}
      → w.waker ≡ some k
      → permits ≡ w.permits_remaining
      → Served (w ∷ v ∷ ws) permits (k ∷ []) (waiting v ws)
  surplus :
      {w : Waiter} {permits k : ℕ}
      → w.waker ≡ some k
      → w.permits_remaining ≤ permits
      → Served (w ∷ []) permits (k ∷ []) (idle ((permits - w.permits_remaining) * 2))
  served :
      {w v : Waiter} {ws : List Waiter} {permits k : ℕ} {ks : List ℕ} {line : Line}
      → w.waker ≡ some k
      → w.permits_remaining < permits
      → Served (v ∷ ws) (permits - w.permits_remaining) ks line
      → Served (w ∷ v ∷ ws) permits (k ∷ ks) line

-- A run that does not panic, with the wakers that it calls after those called before.
pub record Released (ws : List Waiter) (permits : ℕ) (before : List ℕ) (r : Option Woken)
    : Type 0 where
  pub result : Woken
  pub runs : r ≡ some result
  pub wakers : List ℕ
  pub called_after : result.woken ≡ before ++ wakers
  pub fair : Served ws permits wakers result.line

-- What is left of permits within the maximum is a state without loss.
shifted-fits : (left : ℕ) → left ≤ max_permits → store_state (shifted left) ≡ some (idle (left * 2))
unfolding shifted store_state
shifted-fits left le = ground arith

release-Released :
    (permits : ℕ) (wakers woken : List ℕ) (w : Waiter) (ws : List Waiter)
    → permits ≤ max_permits
    → All HasWaker (w ∷ ws)
    → Released (w ∷ ws) permits (woken ++ wakers) (release permits wakers woken w ws)
unfolding release
release-Released permits wakers woken w [] le ((k, e), _) =
    elim (Bool-cases (ltb permits w.permits_remaining)) [
      | inl h ↦ rw h (record {
        result = record { line = _; woken = woken ++ wakers };
        runs = refl;
        wakers = [];
        called_after = sym (append-nil (woken ++ wakers));
        fair = exhausted (ground arith);
      })
      | inr h ↦
          let fits : store_state (shifted (permits - w.permits_remaining))
              ≡ some (idle ((permits - w.permits_remaining) * 2)) =
            shifted-fits (permits - w.permits_remaining) (omega arith) in
          record {
            result = record {
              line = idle ((permits - w.permits_remaining) * 2);
              woken = woken ++ (wakers ++ k ∷ []);
            };
            runs = rw (h, e, fits) refl;
            wakers = k ∷ [];
            called_after = sym (append_assoc woken wakers (k ∷ []));
            fair = surplus e (ground arith);
          }
    ]
release-Released permits wakers woken w (v ∷ rest) le ((k, e), have) =
    elim (Bool-cases (ltb permits w.permits_remaining)) [
      | inl h ↦ rw h (record {
        result = record { line = _; woken = woken ++ wakers };
        runs = refl;
        wakers = [];
        called_after = sym (append-nil (woken ++ wakers));
        fair = exhausted (ground arith);
      })
      | inr h ↦
          let fits : store_state (shifted (permits - w.permits_remaining))
              ≡ some (idle ((permits - w.permits_remaining) * 2)) =
            shifted-fits (permits - w.permits_remaining) (omega arith) in
          elim (Bool-cases (permits - w.permits_remaining == 0)) [
            | inl z ↦ record {
              result = record { line = waiting v rest; woken = woken ++ (wakers ++ k ∷ []) };
              runs = rw (h, e, fits, z) refl;
              wakers = k ∷ [];
              called_after = sym (append_assoc woken wakers (k ∷ []));
              fair = next_waits e (ground arith);
            }
            | inr z ↦
                let pushed = wakers ++ k ∷ [] in
                let rest_of =
                  release-Released (permits - w.permits_remaining) (kept pushed)
                    (called woken pushed) v rest (omega arith) have in
                record {
                  result = rest_of.result;
                  runs = rw (h, e, fits, z) rest_of.runs;
                  wakers = k ∷ rest_of.wakers;
                  called_after =
                      rest_of.called_after
                      ∙ ap (λ l. l ++ rest_of.wakers)
                          (kept-called woken pushed ∙ sym (append_assoc woken wakers (k ∷ [])))
                      ∙ append_assoc (woken ++ wakers) (k ∷ []) rest_of.wakers;
                  fair = served e (ground arith) rest_of.fair;
                }
          ]
    ]

-- A release that serves fairly neither loses nor makes permits.
Served-conserves :
    (w : Waiter) (ws : List Waiter) (permits : ℕ) (ks : List ℕ) (line : Line)
    → Served (w ∷ ws) permits ks line
    → available_permits line + wanted w ws ≡ permits + wanted_in line
unfolding available_permits
Served-conserves w [] permits ks line (exhausted lt) = ground arith
Served-conserves w (v ∷ vs) permits ks line (exhausted lt) = ground arith
Served-conserves w ws permits ks line (next_waits e same) = ground arith
Served-conserves w ws permits ks line (surplus e le) = ground arith
Served-conserves w (v ∷ vs) permits ks line (served e lt rest) =
    omega (arith, Served-conserves v vs (permits - w.permits_remaining) _ line rest)

-- Adding permits, some and no more than `max_permits`, to a semaphore whose waiters have a waker each
-- does not panic. They are served in their order, each in full before the next, the wakers of those
-- served are called in that order, and what is available or still wanted afterwards accounts for every
-- permit.
pub add_permits-Released :
    (permits : ℕ) (w : Waiter) (ws : List Waiter)
    → 0 < permits
    → permits ≤ max_permits
    → All HasWaker (w ∷ ws)
    → (r : Woken) × (add_permits permits (waiting w ws) ≡ some r)
      × Served (w ∷ ws) permits r.woken r.line
      × (available_permits r.line + wanted w ws ≡ permits + wanted_in r.line)
unfolding add_permits
add_permits-Released permits w ws pos le have =
    let run = release-Released permits [] [] w ws le have in
    let some_permits : (permits == 0) ≡ false = ground arith in
    let fair =
      subst (λ ks. Served (w ∷ ws) permits ks run.result.line) (sym run.called_after) run.fair in
    (
      run.result,
      rw some_permits run.runs,
      fair,
      Served-conserves w ws permits run.result.woken run.result.line fair,
    )
