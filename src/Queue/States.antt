-- ===== src/Queue/States.antt =====
-- src/queue.rs: the operations on the state of a queue, which do not need the lock, and those that take
-- it where the queue is not empty. `lock` stands for what the holders of the lock do before.
use aiq.Prelude.{ℕ, zero, suc, Bool, true, false, not, Option, none, some, if◌then◌else◌}
use aiq.QueueState.{QueueState, state, ptr, to_state}
use aiq.Store.{Store, null}
use aiq.Cmd.{
  panic, out_of_fuel, Cmd, pure, ◌>>=◌, ◌>>◌, won, lost, load_tail, cas_tail, cas_tail_weak, rounds,
}

-- `new_impl`
unfoldable pub new_impl : ℕ → Store
new_impl tail = record {
  tail = tail;
  head = null;
  prev = λ _. null;
  next = λ _. null;
  pending = λ _. none;
}

-- `Ok` with the state before, or `Err` with the state where there is one.
pub data Updated (S : Type 0) : Type 0 where
  updated : S → Updated S
  refused : Option S → Updated S

abbrev pub is_refused : {S : Type 0} → Updated S → Bool
is_refused (updated s) = false
is_refused (refused r) = true

module _ {S : Type 0} (q : QueueState S) where
  -- `Queue::new` and `Queue::with_state`
  unfoldable pub new : Store
  new = new_impl null

  unfoldable pub with_state : S → Option Store
  with_state st = elim (q.state_to_tail st) [ none ↦ none | some tail ↦ some (new_impl tail) ]

  -- `Queue::state`
  unfoldable pub load_queue_state : Cmd (Option S)
  load_queue_state = do tail ← load_tail q; pure (to_state (q.tail_to_enum tail))

  unfoldable pub is_empty : Cmd Bool
  is_empty = do st ← load_queue_state; pure (elim st [ none ↦ false | some _ ↦ true ])

  unfoldable pub compare_exchange_state : (current new : S) → Cmd (Updated S)
  compare_exchange_state current new = elim (q.state_to_tail current) [
    | none ↦ λ _. panic
    | some cur ↦ elim (q.state_to_tail new) [
      | none ↦ λ _. panic
      | some new_tail ↦ (do
        r ← cas_tail q cur new_tail
        elim r [
          | won ↦ pure (updated current)
          | lost found ↦ pure (refused (to_state (q.tail_to_enum found)))
        ])
    ]
  ]

  unfoldable pub fetch_update_loop : (S → Option S) → (fuel tail : ℕ) → Cmd (Updated S)
  fetch_update_loop f zero tail = λ _. out_of_fuel
  fetch_update_loop f (suc fuel) tail =
      let retry = fetch_update_loop f fuel in
      elim (q.tail_to_enum tail) [
        | ptr _ ↦ pure (refused none)
        | state st ↦ elim (f st) [
          | none ↦ pure (refused (some st))
          | some new_state ↦ elim (q.state_to_tail new_state) [
            | none ↦ λ _. panic
            | some new_tail ↦ (do
              r ← cas_tail_weak q tail (λ s. record s { tail = new_tail })
              elim r [ won ↦ pure (updated st) | lost found ↦ retry found ])
          ]
        ]
      ]

  unfoldable pub fetch_update_state : (S → Option S) → Cmd (Updated S)
  fetch_update_state f w = (do tail ← load_tail q; fetch_update_loop f (rounds w) tail) w

  module _ (lock : Cmd (Unit {0})) where
    -- The result is true where the queue is returned locked.
    unfoldable pub is_empty_or_lock : Cmd Bool
    is_empty_or_lock = do
      empty ← is_empty
      if empty then pure false else (do lock; still ← is_empty; pure (not still))

    unfoldable pub fetch_update_state_or_lock : (S → S) → Cmd Bool
    fetch_update_state_or_lock f =
        let again = (do lock; r ← fetch_update_state (λ s. some (f s)); pure (is_refused r)) in
        do r ← fetch_update_state (λ s. some (f s)); if is_refused r then again else pure false

    -- The same with an argument for what is to be done where the queue is locked.
    unfoldable pub is_empty_locked : Cmd (Unit {0}) → Cmd (Unit {0})
    is_empty_locked fallback = do lock; empty ← is_empty; if empty then pure tt else fallback

    unfoldable pub is_empty_or_locked : Cmd (Unit {0}) → Cmd (Unit {0})
    is_empty_or_locked fallback = do
      empty ← is_empty
      if empty then pure tt else is_empty_locked fallback

    unfoldable pub fetch_update_state_locked : (S → S) → Cmd (Unit {0}) → Cmd (Unit {0})
    fetch_update_state_locked f fallback = do
      lock
      r ← fetch_update_state (λ s. some (f s))
      if is_refused r then fallback else pure tt

    unfoldable pub fetch_update_state_or_locked : (S → S) → Cmd (Unit {0}) → Cmd (Unit {0})
    fetch_update_state_or_locked f fallback = do
      r ← fetch_update_state (λ s. some (f s))
      if is_refused r then fetch_update_state_locked f fallback else pure tt
