-- ===== src/Queue/Locking.antt =====
-- The operations that are given what to do with the locked queue do what those that return it lock for.
use aiq.Prelude.{◌≡◌, refl, sym, ◌∙◌, Bool, true, false, not, some, if◌then◌else◌}
use aiq.QueueState.{QueueState}
use aiq.Cmd.Outcome.{and_then_assoc}
use aiq.Cmd.{World, Run, ok, blocked, out_of_fuel, panic, Cmd, pure, and_then, ◌>>=◌, ◌>>◌}
use aiq.Queue.States.{
  Updated, updated, refused, is_refused, is_empty, fetch_update_state, is_empty_or_lock,
  fetch_update_state_or_lock, is_empty_locked, is_empty_or_locked, fetch_update_state_locked,
  fetch_update_state_or_locked,
}

module _ {A B : Type 0} where
  and_then_same :
      (r : Run A) (k l : A → Cmd B)
      → ((a : A) (w : World) → k a w ≡ l a w)
      → and_then r k ≡ and_then r l
  and_then_same (ok a w) k l same = same a w
  and_then_same (blocked w) k l same = refl
  and_then_same out_of_fuel k l same = refl
  and_then_same panic k l same = refl

module _ {S : Type 0} (q : QueueState S) (lock fallback : Cmd (Unit {0})) where
  -- What is done where the queue was returned locked.
  abbrev where_locked : Bool → Cmd (Unit {0})
  where_locked locked = if locked then fallback else pure tt

  -- `is_empty_or_locked` is `is_empty_or_lock` and then what is to be done.
  pub is_empty_or_locked-is_empty_or_lock :
      (w : World)
      → is_empty_or_locked q lock fallback w
        ≡ (do locked ← is_empty_or_lock q lock; where_locked locked) w
  unfolding is_empty_or_locked is_empty_locked is_empty_or_lock
  is_empty_or_locked-is_empty_or_lock w =
      and_then_same (is_empty q w) _ _ looked ∙ sym (and_then_assoc (is_empty q w) _ _)
    where
      again :
          (still : Bool) (w : World)
          → (if still then pure tt else fallback) w ≡ and_then (pure (not still) w) where_locked
      again true w = refl
      again false w = refl

      looked :
          (empty : Bool) (w : World)
          → (if empty then pure tt else is_empty_locked q lock fallback) w
            ≡ and_then
                ((if empty then pure false else (do lock; still ← is_empty q; pure (not still))) w)
                where_locked
      looked true w = refl
      looked false w =
          and_then_same (lock w) _ _ (λ _ v.
            and_then_same (is_empty q v) _ _ again ∙ sym (and_then_assoc (is_empty q v) _ _))
          ∙ sym (and_then_assoc (lock w) _ _)

  -- So are `fetch_update_state_or_locked` and `fetch_update_state_or_lock`.
  pub fetch_update_state_or_locked-fetch_update_state_or_lock :
      (f : S → S) (w : World)
      → fetch_update_state_or_locked q lock f fallback w
        ≡ (do locked ← fetch_update_state_or_lock q lock f; where_locked locked) w
  unfolding fetch_update_state_or_locked fetch_update_state_locked fetch_update_state_or_lock
  fetch_update_state_or_locked-fetch_update_state_or_lock f w =
      and_then_same (update w) _ _ looked ∙ sym (and_then_assoc (update w) _ _)
    where
      update : Cmd (Updated S)
      update = fetch_update_state q (λ s. some (f s))

      again :
          (r : Updated S) (w : World)
          → (if is_refused r then fallback else pure tt) w
            ≡ and_then (pure (is_refused r) w) where_locked
      again (updated s) w = refl
      again (refused s) w = refl

      looked :
          (r : Updated S) (w : World)
          → (if is_refused r then fetch_update_state_locked q lock f fallback else pure tt) w
            ≡ and_then
                ((if is_refused r then (do lock; r ← update; pure (is_refused r)) else pure false)
                  w)
                where_locked
      looked (updated s) w = refl
      looked (refused s) w =
          and_then_same (lock w) _ _
            (λ _ v. and_then_same (update v) _ _ again ∙ sym (and_then_assoc (update v) _ _))
          ∙ sym (and_then_assoc (lock w) _ _)
