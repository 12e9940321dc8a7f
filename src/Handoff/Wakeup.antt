-- ===== src/Handoff/Wakeup.antt =====
-- No wake-up is lost: once the place has been written, the waiter gets its node.
use aiq.Prelude.{ℕ, ◌≤◌, ◌≡◌, ◌≢◌, refl, ap, ◌∙◌, inl, inr, arith, ◌==◌, Bool-cases, ==→eq}
use aiq.Parker.{
  notified, parked, outside, leaving, resting, Machine, Park, park_notified, park_empty, Unpark,
  swap_other, swap_parked, unlock,
}
use aiq.Parker
use aiq.Parker.Liveness.{notified-Returns}
use aiq.Handoff.{
  WaiterPc, spinning, marking, parking, in_park, loading, returned, LinkerPc, before, unparking,
  finished, Handoff, Move, load_link, mark_late, park, come_back, load_next, unpark, go_on, Reach,
  Moves, done, then,
}
use aiq.Handoff.Keeps.{Token, Unpark-notified}
use aiq.Handoff.Invariant.{IsHandoff, Waits-at, Move-IsHandoff, Reach-IsHandoff}

module _ (node : ℕ) (is_node : 4 ≤ node) where
  abbrev pub Gets : Handoff → Type 0
  Gets h = (u : Handoff) × Moves h u × (u.waiter ≡ returned node)

  from_move : {h u : Handoff} → Move h u → Gets u → Gets h
  from_move mv (v, mvs, at) = (v, then mv mvs, at)

  -- The moves of the parker alone.
  from_Moves :
      {m u : Machine} (h : Handoff)
      → Parker.Moves m u
      → Gets (record h { machine = u })
      → Gets (record h { machine = m })
  from_Moves h Parker.done g = g
  from_Moves h (Parker.then mv mvs) g = from_move (go_on mv) (from_Moves h mvs g)

  from_loading : (h : Handoff) → h.next ≡ node → h.waiter ≡ loading → Gets h
  from_loading h is at =
      from_move (load_next at (λ e. absurd (omega (arith, is, e)))) (_, done, ap returned is)

  from_outside :
      (h : Handoff) → h.next ≡ node → h.waiter ≡ in_park → h.machine.park_pc ≡ outside → Gets h
  from_outside h is at out = from_move (come_back at out) (from_loading _ is refl)

  -- In `park` with a notification given or consumed.
  from_Token :
      (h : Handoff)
      → Parker.Reach h.machine
      → h.next ≡ node
      → h.waiter ≡ in_park
      → Token h.machine
      → Gets h
  from_Token h r is at (inl st) =
      let (u, mvs, out) = notified-Returns h.machine r st in
      from_Moves h mvs (from_outside (record h { machine = u }) is at out)
  from_Token h r is at (inr (inl out)) = from_outside h is at out
  from_Token h r is at (inr (inr last)) =
      from_move (go_on (unlock last)) (from_outside _ is at refl)

  from_unparking :
      (h : Handoff) {m : Machine}
      → IsHandoff node h
      → h.linker ≡ unparking
      → h.waiter ≡ in_park
      → Unpark h.machine m
      → Gets h
  from_unparking h {m} ok e at p = from_move (unpark e p) (
      from_Token (record h { machine = m; linker = finished })
        (Parker.later ok.machine (Parker.unpark p)) (ok.next_after (λ e'. cc)) at
        (inl (Unpark-notified p).0))

  from_in_park : (h : Handoff) → IsHandoff node h → h.linker ≢ before → h.waiter ≡ in_park → Gets h
  from_in_park h ok past at = by_linker h.linker refl
    where
      by_linker : (l : LinkerPc) → h.linker ≡ l → Gets h
      by_linker before e = absurd (past e)
      by_linker unparking e =
          let rest = ok.rests (λ e'. cc) in
          elim (Bool-cases (h.machine.state == parked)) [
            | inl st ↦
                from_unparking h ok e at (swap_parked 0 rest (==→eq h.machine.state parked st))
            | inr st ↦ from_unparking h ok e at (swap_other 0 rest (λ e'. absurd (ground arith)))
          ]
      by_linker finished e =
          from_Token h ok.machine (ok.next_after past) at ((Waits-at node is_node h ok at).1 e)

  from_parking : (h : Handoff) → IsHandoff node h → h.linker ≢ before → h.waiter ≡ parking → Gets h
  from_parking h ok past at =
      let out = (Waits-at node is_node h ok at).0 in
      elim (Bool-cases (h.machine.state == notified)) [
        | inl st ↦ enter (park_notified out (==→eq h.machine.state notified st))
        | inr st ↦ enter (park_empty out (λ e. absurd (ground arith)))
      ]
    where
      enter : {m : Machine} → Park h.machine m → Gets h
      enter {m} p = from_move (park at p) (
          from_in_park (record h { machine = m; waiter = in_park })
            (Move-IsHandoff node is_node h ok (park at p)) past refl)

  -- From every reachable state in which the place has been written, the waiter comes back with the node
  -- by moves of calls that have begun, also if it was asleep; no `unpark` of another thread is needed.
  pub Reach-Gets : (h : Handoff) → Reach node h → h.linker ≢ before → Gets h
  Reach-Gets h r past = by_waiter h.waiter refl
    where
      ok : IsHandoff node h
      ok = Reach-IsHandoff node is_node r

      is : h.next ≡ node
      is = ok.next_after past

      by_waiter : (w : WaiterPc) → h.waiter ≡ w → Gets h
      by_waiter (spinning n) at =
          from_move (load_link n at (λ e. absurd (omega (arith, is, e)))) (_, done, ap returned is)
      by_waiter marking at =
          from_move (mark_late at (λ e. absurd (omega (arith, is, e)))) (_, done, ap returned is)
      by_waiter parking at = from_parking h ok past at
      by_waiter in_park at = from_in_park h ok past at
      by_waiter loading at = from_loading h is at
      by_waiter (returned p) at = (h, done, at ∙ ap returned (Waits-at node is_node h ok at))
