-- ===== src/Drain/Unlocked.antt =====
-- src/queue/drain.rs: `Drain::execute_unlocked` and `Drain::for_each`. While the drain is locked, its
-- record has the fields of the sentinel; while it is not, they are in the shared memory, at the address
-- `sentinel_node`.
use aiq.Prelude.{ℕ, zero, suc, Bool, none, some, List, [], ◌∷◌, ◌==◌, if◌then◌else◌}
use aiq.QueueState.{QueueState}
use aiq.Store.{null, update}
use aiq.Cmd.{
  out_of_fuel, debug_assert, Cmd, pure, ◌>>=◌, ◌>>◌, atomic, load_slot, load_prev, store_slot,
  store_prev,
}
use aiq.Drain.{Drain, is_empty, next_node, drop_drained, drop_drain}

module _ {S : Type 0} (q : QueueState S) (sentinel_node : ℕ) where
  -- The first and the last node are linked to the sentinel.
  unfoldable pub close_ring : Drain → Cmd (Unit {0})
  close_ring d =
      if is_empty d
      then pure tt
      else (do store_prev q d.head sentinel_node; store_slot q d.tail sentinel_node)

  -- No access of the code: from here on the fields of the sentinel are those that others see.
  unfoldable pub share : Drain → Cmd (Unit {0})
  share d = atomic q λ s. (
    tt,
    record s {
      next = update s.next sentinel_node d.head;
      prev = update s.prev sentinel_node d.tail;
    },
  )

  -- The sentinel once the lock is taken again; it is alone if it leads to itself.
  unfoldable pub reopen : Drain → Cmd Drain
  reopen d =
      if d.head == sentinel_node
      then (do debug_assert (d.head == d.tail); pure (record d { head = null }))
      else pure d

  unfoldable pub read_sentinel : Cmd Drain
  read_sentinel = do
    head ← load_slot q sentinel_node
    tail ← load_prev q sentinel_node
    reopen (record { head = head; tail = tail })

  -- `unlocked` is what `f` does, and all that other holders of the lock do until it is taken again.
  unfoldable pub execute_unlocked : {R : Type 0} → (unlocked : Cmd R) → Drain → Cmd (R × Drain)
  execute_unlocked unlocked d = do
    close_ring d
    share d
    res ← unlocked
    d' ← read_sentinel
    pure (res, d')

  module _ {H : Type 0} (on_next : H → ℕ → Bool × H) (on_unlock : H → Cmd H) where
    -- The nodes that `on_next` was called on, in order, with the helper and the drain.
    abbrev pub Visit : Type 0
    Visit = List ℕ × H × Drain

    -- A round of `for_each` once its node is dropped, and the rounds after it.
    unfoldable pub after_node :
        (rest : H → Drain → Cmd Visit) → (unlock : Bool) → H → Drain → Cmd Visit
    after_node rest unlock h d =
        if unlock
        then (if is_empty d
            then pure ([], h, d)
            else (do u ← execute_unlocked (on_unlock h) d; rest u.0 u.1))
        else rest h d

    unfoldable pub for_each_loop : (fuel : ℕ) → H → Drain → Cmd Visit
    for_each_loop zero h d = λ _. out_of_fuel
    for_each_loop (suc fuel) h d =
        let rest = for_each_loop fuel in
        elim (next_node d) [
          | none ↦ pure ([], h, d)
          | some node ↦ (do
            d' ← drop_drained q d node
            r ← after_node rest (on_next h node).0 (on_next h node).1 d'
            pure (node ∷ r.0, r.1, r.2))
        ]

    -- `for_each` until the drain is dropped.
    unfoldable pub for_each_locked : (fuel : ℕ) → H → Drain → Cmd Visit
    for_each_locked fuel h d = do r ← for_each_loop fuel h d; drop_drain q fuel r.2; pure r

    unfoldable pub for_each : (fuel : ℕ) → H → Drain → Cmd (List ℕ × H)
    for_each fuel h d = do r ← for_each_locked fuel h d; h' ← on_unlock r.1; pure (r.0, h')
