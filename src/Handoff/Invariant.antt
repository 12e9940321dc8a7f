-- ===== src/Handoff/Invariant.antt =====
-- What holds while the waiter and the thread that enqueues pass a node on.
use aiq.Prelude.{ℕ, ◌≤◌, ◌≡◌, ◌≢◌, refl, sym, ap, subst, ◌∙◌, ◌⊎◌, inl, inr, arith}
use aiq.Store.{null}
use aiq.Parker.{
  notified, wake_up, outside, leaving, resting, woken, sleeping, Machine, Park, park_notified,
  park_empty, Unpark, swap_other, swap_parked, lock, exchange_won, exchange_lost, wait, unlock,
  lock_unparker, unlock_unparker, notify_one,
}
use aiq.Parker
use aiq.Handoff.{
  parked_mark, WaiterPc, spinning, marking, parking, in_park, loading, returned, LinkerPc, before,
  unparking, finished, Handoff, after_swap, Move, load_link, spin, give_up, mark, mark_late, park,
  come_back, load_mark, load_next, unpark, go_on, Step, move, link, stray, spurious, Reach, start,
  later,
}
use aiq.Handoff.Keeps.{
  Token, Keeps, Move-Keeps, Move-rests, Unpark-notified, Unpark-Keeps, Park-Token, Park-rests,
}

-- What is known while the waiter stands somewhere.
abbrev pub Waits : ℕ → WaiterPc → LinkerPc → ℕ → Machine → Type 0
Waits node (spinning n) l next m = (m.park_pc ≡ outside) × (next ≢ parked_mark) × (l ≢ unparking)
Waits node marking l next m = (m.park_pc ≡ outside) × (next ≢ parked_mark) × (l ≢ unparking)
Waits node parking l next m =
    (m.park_pc ≡ outside) × (next ≢ null) × (l ≡ finished → m.state ≡ notified)
Waits node in_park l next m = (next ≢ null) × (l ≡ finished → Token m)
Waits node loading l next m = (m.park_pc ≡ outside) × (next ≢ null)
Waits node (returned p) l next m = p ≡ node

pub record IsHandoff (node : ℕ) (h : Handoff) : Type 0 where
  pub machine : Parker.Reach h.machine
  pub next_before : h.linker ≡ before → (h.next ≡ null) ⊎ (h.next ≡ parked_mark)
  pub next_after : h.linker ≢ before → h.next ≡ node
  pub rests : h.linker ≢ finished → h.machine.unpark_pc 0 ≡ resting
  pub waits : Waits node h.waiter h.linker h.next h.machine

Waits-machine :
    (node : ℕ) (w : WaiterPc) (l : LinkerPc) (next : ℕ) (m u : Machine)
    → Keeps m u
    → Waits node w l next m
    → Waits node w l next u
Waits-machine node (spinning n) l next m u (out, tok, st) (a, b, c) = (out a, b, c)
Waits-machine node marking l next m u (out, tok, st) (a, b, c) = (out a, b, c)
Waits-machine node parking l next m u (out, tok, st) (a, b, c) = (out a, b, λ e. st a (c e))
Waits-machine node in_park l next m u (out, tok, st) (b, c) = (b, λ e. tok (c e))
Waits-machine node loading l next m u (out, tok, st) (a, b) = (out a, b)
Waits-machine node (returned p) l next m u k a = a

module _ (node : ℕ) (is_node : 4 ≤ node) (h : Handoff) (ok : IsHandoff node h) where
  -- What is known of the waiter where it stands.
  pub Waits-at : {w : WaiterPc} → h.waiter ≡ w → Waits node w h.linker h.next h.machine
  Waits-at e = subst (λ w. Waits node w h.linker h.next h.machine) e ok.waits

  -- A node that is read is the one that was linked.
  next_is : h.next ≢ null → h.next ≢ parked_mark → h.next ≡ node
  next_is a b = by_linker h.linker refl
    where
      by_linker : (l : LinkerPc) → h.linker ≡ l → h.next ≡ node
      by_linker before e = elim (ok.next_before e) [ inl z ↦ absurd (a z) | inr z ↦ absurd (b z) ]
      by_linker unparking e = ok.next_after (λ e'. cc)
      by_linker finished e = ok.next_after (λ e'. cc)

  -- The thread that enqueues has not written yet.
  unlinked : (h.next ≡ null) ⊎ (h.next ≡ parked_mark) → h.linker ≡ before
  unlinked z = by_linker h.linker refl
    where
      by_linker : (l : LinkerPc) → h.linker ≡ l → h.linker ≡ before
      by_linker before e = e
      by_linker unparking e = absurd (ground (arith, ok.next_after (λ e'. cc)))
      by_linker finished e = absurd (ground (arith, ok.next_after (λ e'. cc)))

  -- A step of the waiter alone.
  waiter-IsHandoff :
      (w : WaiterPc)
      → Waits node w h.linker h.next h.machine
      → IsHandoff node (record h { waiter = w })
  waiter-IsHandoff w waits = record {
    machine = ok.machine;
    next_before = ok.next_before;
    next_after = ok.next_after;
    rests = ok.rests;
    waits = waits;
  }

  -- A step of the parker alone.
  machine-IsHandoff :
      (m : Machine)
      → Parker.Step h.machine m
      → Keeps h.machine m
      → (h.machine.unpark_pc 0 ≡ resting → m.unpark_pc 0 ≡ resting)
      → IsHandoff node (record h { machine = m })
  machine-IsHandoff m s keeps rests = record {
    machine = Parker.later ok.machine s;
    next_before = ok.next_before;
    next_after = ok.next_after;
    rests = λ e. rests (ok.rests e);
    waits = Waits-machine node h.waiter h.linker h.next h.machine m keeps ok.waits;
  }

  pub Move-IsHandoff : {u : Handoff} → Move h u → IsHandoff node u
  Move-IsHandoff (load_link n at some) =
      waiter-IsHandoff (returned h.next) (next_is some (Waits-at at).1)
  Move-IsHandoff (spin n at none_yet) = waiter-IsHandoff (spinning n) (Waits-at at)
  Move-IsHandoff (give_up at none_yet) = waiter-IsHandoff marking (Waits-at at)
  Move-IsHandoff (mark at none_yet) =
      let not_yet = unlinked (inl none_yet) in
      record {
        machine = ok.machine;
        next_before = λ e. inr refl;
        next_after = λ ne. absurd (ne not_yet);
        rests = ok.rests;
        waits = ((Waits-at at).0, λ e. absurd (omega (arith, e)), λ e. cc);
      }
  Move-IsHandoff (mark_late at some) =
      waiter-IsHandoff (returned h.next) (next_is some (Waits-at at).1)
  Move-IsHandoff (park {m} at p) =
      let (out, some, st) = Waits-at at in
      record {
        machine = Parker.later ok.machine (Parker.park p);
        next_before = ok.next_before;
        next_after = ok.next_after;
        rests = λ e. Park-rests p ∙ ok.rests e;
        waits = (some, λ e. Park-Token p (st e));
      }
  Move-IsHandoff (come_back at out) = waiter-IsHandoff loading (out, (Waits-at at).0)
  Move-IsHandoff (load_mark at marked) =
      let not_yet = unlinked (inr marked) in
      waiter-IsHandoff parking ((Waits-at at).0, (Waits-at at).1, λ e. cc)
  Move-IsHandoff (load_next at ne) = waiter-IsHandoff (returned h.next) (next_is (Waits-at at).1 ne)
  Move-IsHandoff (unpark {m} at p) = record {
    machine = Parker.later ok.machine (Parker.unpark p);
    next_before = λ e. cc;
    next_after = λ e. ok.next_after (λ e'. cc);
    rests = λ e. absurd (e refl);
    waits = by_waiter h.waiter ok.waits;
  }
    where
      by_waiter :
          (w : WaiterPc) → Waits node w h.linker h.next h.machine → Waits node w finished h.next m
      by_waiter (spinning n) (a, b, c) = absurd (c at)
      by_waiter marking (a, b, c) = absurd (c at)
      by_waiter parking (a, b, c) = ((Unpark-Keeps p).0 a, b, λ e. (Unpark-notified p).0)
      by_waiter in_park (b, c) = (b, λ e. inl (Unpark-notified p).0)
      by_waiter loading (a, b) = ((Unpark-Keeps p).0 a, b)
      by_waiter (returned r) a = a
  Move-IsHandoff (go_on {m} mv) =
      machine-IsHandoff m (Parker.go_on mv) (Move-Keeps mv) (Move-rests mv)

  -- The swap finds nothing, or the mark of a waiter, which is then to be unparked.
  link_null :
      h.linker ≡ before
      → h.next ≡ null
      → IsHandoff node (record h { next = node; linker = finished })
  link_null at none_yet = record {
    machine = ok.machine;
    next_before = λ e. cc;
    next_after = λ e. refl;
    rests = λ e. absurd (e refl);
    waits = by_waiter h.waiter ok.waits;
  }
    where
      by_waiter :
          (w : WaiterPc)
          → Waits node w h.linker h.next h.machine
          → Waits node w finished node h.machine
      by_waiter (spinning n) (a, b, c) = (a, λ e. absurd (omega (arith, e)), λ e. cc)
      by_waiter marking (a, b, c) = (a, λ e. absurd (omega (arith, e)), λ e. cc)
      by_waiter parking (a, b, c) = absurd (b none_yet)
      by_waiter in_park (b, c) = absurd (b none_yet)
      by_waiter loading (a, b) = absurd (b none_yet)
      by_waiter (returned r) a = a

  link_marked :
      h.linker ≡ before
      → h.next ≡ parked_mark
      → IsHandoff node (record h { next = node; linker = unparking })
  link_marked at marked = record {
    machine = ok.machine;
    next_before = λ e. cc;
    next_after = λ e. refl;
    rests = λ e. ok.rests (λ e'. cc);
    waits = by_waiter h.waiter ok.waits;
  }
    where
      by_waiter :
          (w : WaiterPc)
          → Waits node w h.linker h.next h.machine
          → Waits node w unparking node h.machine
      by_waiter (spinning n) (a, b, c) = absurd (b marked)
      by_waiter marking (a, b, c) = absurd (b marked)
      by_waiter parking (a, b, c) = (a, λ e. absurd (omega (arith, e)), λ e. cc)
      by_waiter in_park (b, c) = (λ e. absurd (omega (arith, e)), λ e. cc)
      by_waiter loading (a, b) = (a, λ e. absurd (omega (arith, e)))
      by_waiter (returned r) a = a

  Step-IsHandoff : {u : Handoff} → Step node h u → IsHandoff node u
  Step-IsHandoff (move mv) = Move-IsHandoff mv
  Step-IsHandoff (link at) = elim (ok.next_before at) [
    | inl z ↦
        subst (λ l. IsHandoff node (record h { next = node; linker = l })) (sym (ap after_swap z))
          (link_null at z)
    | inr z ↦
        subst (λ l. IsHandoff node (record h { next = node; linker = l })) (sym (ap after_swap z))
          (link_marked at z)
  ]
  Step-IsHandoff (stray {m} p same) =
      machine-IsHandoff m (Parker.unpark p) (Unpark-Keeps p) (λ r. same ∙ r)
  Step-IsHandoff (spurious at) =
      machine-IsHandoff (record h.machine { park_pc = woken }) (Parker.spurious at)
        (λ o. cc, λ t. ground arith, λ o e. e) (λ r. r)

pub Reach-IsHandoff : (node : ℕ) → 4 ≤ node → {h : Handoff} → Reach node h → IsHandoff node h
Reach-IsHandoff node is_node (start rounds m r out rest) = record {
  machine = r;
  next_before = λ e. inl refl;
  next_after = λ ne. absurd (ne refl);
  rests = λ e. rest;
  waits = (out, λ e. absurd (omega (arith, e)), λ e. cc);
}
Reach-IsHandoff node is_node (later {h} r s) =
    Step-IsHandoff node is_node h (Reach-IsHandoff node is_node r) s
