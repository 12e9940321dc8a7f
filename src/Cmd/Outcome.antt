-- ===== src/Cmd/Outcome.antt =====
-- What a run comes to: it returns with a postcondition, or it waits for another thread that has
-- begun an enqueue and not completed it. It never runs out of fuel and never panics.
use aiq.Prelude.{
  ℕ, ◌≡◌, refl, ◌⊎◌, inl, inr, ◌<◌, ◌≤◌, Bool, false, List, length, some, [], ◌∷◌, arith,
}
use aiq.Cmd.{next_fails, later_fails, World, Run, ok, blocked, out_of_fuel, panic, Cmd, and_then}

pub data Outcome {A : Type 0} (Q : A → World → Type 0) : Run A → Type 0 where
  returns : {a : A} {w : World} → Q a w → Outcome Q (ok a w)
  waits :
      {w : World} (y p : ℕ) → w.store.pending y ≡ some p → w.schedule ≡ [] → Outcome Q (blocked w)

module _ {A : Type 0} {Q : A → World → Type 0} where
  pub bind :
      {B : Type 0} {R : B → World → Type 0} {r : Run A} {k : A → Cmd B}
      → Outcome Q r
      → ((a : A) (w : World) → Q a w → Outcome R (k a w))
      → Outcome R (and_then r k)
  bind (returns h) next = next _ _ h
  bind (waits y p e done) next = waits y p e done

  pub mono :
      {R : A → World → Type 0} {r : Run A}
      → Outcome Q r
      → ((a : A) (w : World) → Q a w → R a w)
      → Outcome R r
  mono (returns h) weaken = returns (weaken _ _ h)
  mono (waits y p e done) weaken = waits y p e done

  -- The postcondition may use what the run comes to.
  pub mono_at :
      {R : A → World → Type 0} {r : Run A}
      → Outcome Q r
      → ((a : A) (w : World) → r ≡ ok a w → Q a w → R a w)
      → Outcome R r
  mono_at (returns h) weaken = returns (weaken _ _ refl h)
  mono_at (waits y p e done) weaken = waits y p e done

pub and_then_assoc :
    {A B C : Type 0} (r : Run A) (k : A → Cmd B) (l : B → Cmd C)
    → and_then (and_then r k) l ≡ and_then r (λ a w. and_then (k a w) l)
and_then_assoc (ok a w) k l = refl
and_then_assoc (blocked w) k l = refl
and_then_assoc out_of_fuel k l = refl
and_then_assoc panic k l = refl

-- A run that returns: it does not wait for anybody.
pub data Returns {A : Type 0} (Q : A → World → Type 0) : Run A → Type 0 where
  gives : {a : A} {w : World} → Q a w → Returns Q (ok a w)

pub follow :
    {A B : Type 0} {Q : A → World → Type 0} {R : B → World → Type 0} {r : Run A} {k : A → Cmd B}
    → Returns Q r
    → ((a : A) (w : World) → Q a w → Returns R (k a w))
    → Returns R (and_then r k)
follow (gives h) next = next _ _ h

pub mono_Returns :
    {A : Type 0} {Q R : A → World → Type 0} {r : Run A}
    → Returns Q r
    → ((a : A) (w : World) → Q a w → R a w)
    → Returns R r
mono_Returns (gives h) weaken = gives (weaken _ _ h)

pub next-later : (l : List Bool) → (next_fails l ≡ false) ⊎ (length (later_fails l) < length l)
unfolding next_fails later_fails
next-later [] = inl refl
next-later (fails ∷ rest) = inr (omega arith)

pub later_le : (l : List Bool) → length (later_fails l) ≤ length l
unfolding later_fails
later_le [] = omega arith
later_le (fails ∷ rest) = omega arith
