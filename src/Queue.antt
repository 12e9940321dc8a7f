-- ===== src/Queue.antt =====
-- src/queue.rs: removal by the thread that holds the lock, for a parker that never blocks, so that
-- waiting for `next` is a loop of loads (src/sync/spin.rs). A place is the node whose `next` it is,
-- or `HEAD_MARKER` for `head`, so the `prev` of a node is also the place that leads to it.
pub mod Contract
pub mod Ends
pub mod Announce
pub mod Enqueue
pub mod Locking
pub mod Moments
pub mod Remove
pub mod Removing
pub mod States
pub mod Update
pub mod Waiting
use aiq.Prelude.{
  ℕ, zero, suc, not, Bool, true, false, Option, none, some, List, [], ◌∷◌, ◌==◌, if◌then◌else◌,
}
use aiq.QueueState.{StateOrPtr, state, ptr, QueueState, to_tail}
use aiq.Store.{
  update, tail_slot, do_link, Store, Move, null, head_marker, into_ptr, dequeued, slot, interfere,
}
use aiq.Cmd.{
  World, Run, ok, blocked, panic, debug_assert, Cmd, pure, ◌>>=◌, ◌>>◌, Exchange, won, lost,
  load_tail, load_prev, load_slot, store_slot, store_prev, cas_tail, cas_tail_weak, atomic, rounds,
  out_of_fuel,
}

module _ {S : Type 0} (q : QueueState S) where
  -- `wait_for_next`: load the place again and again. When the schedule has ended, the place will not
  -- change any more.
  unfoldable pub wait_loop : ℕ → World → (schedule : List (List Move)) → Store → Run ℕ
  wait_loop p w [] s =
      let w' = record w { store = s; schedule = [] } in
      if slot s p == null then blocked w' else ok (slot s p) w'
  wait_loop p w (ms ∷ rest) s =
      let t = interfere q ms s in
      let again = wait_loop p w rest t in
      if slot t p == null then again else ok (slot t p) (record w { store = t; schedule = rest })

  unfoldable pub wait_for_next : ℕ → Cmd ℕ
  wait_for_next p w = wait_loop p w w.schedule w.store

  unfoldable pub get_next : ℕ → Cmd ℕ
  get_next p = do next ← load_slot q p; if next == null then wait_for_next p else pure next

  -- The last part of `remove_with_prev`: `next` is bypassed if there is one, and the node marked.
  unfoldable pub unlink : (prev next : ℕ) → Cmd (Unit {0})
  unlink prev next = do store_prev q next prev; store_slot q prev next

  unfoldable pub finish : (node : ℕ) → Cmd (Unit {0})
  finish node = store_prev q node (into_ptr dequeued)

  -- The branch of a node that has no `next`: take it from the tail, or wait for its successor.
  unfoldable pub detach : (node new_tail prev : ℕ) → Cmd (Option ℕ)
  detach node new_tail prev = do
    store_slot q prev null
    let new = if prev == head_marker then new_tail else q.ptr_to_tail prev
    r ← cas_tail q (q.ptr_to_tail node) new
    elim r [ won ↦ pure none | lost _ ↦ (do next ← get_next node; pure (some next)) ]

  -- The result tells that the exchange of the tail succeeded.
  unfoldable pub remove_with_prev : (node new_tail : ℕ) (wait_enqueued : Bool) (prev : ℕ) → Cmd Bool
  remove_with_prev node new_tail wait_enqueued prev = do
    if wait_enqueued then (do found ← get_next prev; debug_assert (found == node)) else pure tt
    next ← load_slot q node
    r ← if next == null then detach node new_tail prev else pure (some next)
    elim r [ none ↦ pure tt | some next ↦ unlink prev next ]
    finish node
    pure (elim r [ none ↦ true | some _ ↦ false ])

  unfoldable pub remove : (node new_tail : ℕ) (wait_enqueued : Bool) → Cmd Bool
  remove node new_tail wait_enqueued = do
    prev ← load_prev q node
    remove_with_prev node new_tail wait_enqueued prev

  unfoldable pub take_head : Option ℕ → Cmd (Option ℕ)
  take_head none = pure none
  take_head (some _) = do node ← get_next head_marker; pure (some node)

  -- `dequeue` returns the node that the `Dequeue` holds, `pop` that of the `Pop`.
  unfoldable pub dequeue : Cmd (Option ℕ)
  dequeue = do tail ← load_tail q; take_head (to_tail (q.tail_to_enum tail))

  unfoldable pub pop : Cmd (Option ℕ)
  pop = do tail ← load_tail q; pure (to_tail (q.tail_to_enum tail))

  -- `Dequeue::drop` and `Pop::drop`
  unfoldable pub drop_dequeue : ℕ → Cmd (Unit {0})
  drop_dequeue node = do remove_with_prev node null false head_marker; pure tt

  unfoldable pub drop_pop : ℕ → Cmd (Unit {0})
  drop_pop node = do remove node null true; pure tt

  -- `try_set_queue_state` of `Dequeue` and of `Pop`
  unfoldable pub try_set_dequeue : ℕ → S → Cmd Bool
  try_set_dequeue node st = elim (q.state_to_tail st) [
    | none ↦ λ _. panic
    | some new_tail ↦ remove_with_prev node new_tail false head_marker
  ]

  unfoldable pub try_set_pop : ℕ → S → Cmd Bool
  try_set_pop node st = elim (q.state_to_tail st) [
    | none ↦ λ _. panic
    | some new_tail ↦ remove node new_tail true
  ]

  -- The exchange of the tail in `enqueue`, after which the thread has its `prev_next` to write.
  unfoldable pub announce : (node place : ℕ) → Store → Store
  announce node place s = record s {
    tail = q.ptr_to_tail node;
    pending = update s.pending node (some place);
  }

  -- The loop of `enqueue`: `none` if `check_tail` refuses, else the place of `prev_next`.
  unfoldable pub enqueue_loop : (ℕ → Bool) → (node fuel tail : ℕ) → Cmd (Option ℕ)
  enqueue_loop check_tail node zero tail = λ _. out_of_fuel
  enqueue_loop check_tail node (suc fuel) tail =
      let retry = enqueue_loop check_tail node fuel in
      if not (check_tail tail) then (do store_prev q node null; pure none) else (do
        store_prev q node (tail_slot q tail)
        r ← cas_tail_weak q tail (announce node (tail_slot q tail))
        elim r [ won ↦ pure (some (tail_slot q tail)) | lost found ↦ retry found ])

  -- The second phase: the write of `prev_next`.
  unfoldable pub link_node : (node : ℕ) → Option ℕ → Cmd Bool
  link_node node none = pure false
  link_node node (some place) = do atomic q (λ s. (tt, do_link node place s)); pure true

  unfoldable pub enqueue : ℕ → (ℕ → Bool) → Cmd Bool
  enqueue node check_tail w =
      (do
        tail ← load_tail q
        place ← enqueue_loop check_tail node (rounds w) tail
        link_node node place)
        w
