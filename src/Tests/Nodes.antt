-- ===== src/Tests/Nodes.antt =====
-- Nodes that are enqueued, dropped, taken out with a state and reset, beside a queue that holds 8
-- and 12 while another thread enqueues 16.
use aiq.Prelude.{
  none, some, Option, inl, ◌&&◌, ◌-◌, ◌≤◌, if◌then◌else◌, ℕ, ◌≡◌, refl, true, false, [], ◌∷◌, arith,
  ltb,
}
use aiq.QueueState.{usize_state, usize_tail_to_enum, max_state, state}
use aiq.Queue.States.{fetch_update_state}
use aiq.Queue.Update.{Settles, fetch_update_state-Settles}
use aiq.QueueState.Bijective.{usize-IsBijective}
use aiq.Store.{null, update, publish, link, slot}
use aiq.Store.Shape.{IsShape}
use aiq.Cmd.{World, pure}
use aiq.Cmd.Outcome.{Outcome, Returns, returns}
use aiq.Queue.{enqueue}
use aiq.Queue.Contract.{TakenOut}
use aiq.Queue.Enqueue.{Enqueued, enqueue-Enqueued}
use aiq.Node.{drop_node, dequeue_try_set_queue_state}
use aiq.Node.Drop.{inside, Gone, drop_node-Gone}
use aiq.Node.Cycle.{dequeue_try_set_queue_state-TakenOut}
use aiq.Tests.Removals.{two_nodes, busy, two_nodes-IsShape}

-- One exchange of the tail fails without a cause, another because of the other thread.
abbrev retrying : World
retrying = record {
  store = two_nodes;
  schedule = [] ∷ [] ∷ (publish 16 ∷ []) ∷ [] ∷ (link 16 ∷ []) ∷ [];
  spurious = false ∷ true ∷ [];
}

enqueue-Enqueued_example :
    Returns
      (Enqueued usize-IsBijective 20 (λ tail. ltb 0 tail) (8 ∷ 12 ∷ []))
      (enqueue usize_state 20 (λ tail. ltb 0 tail) retrying)
enqueue-Enqueued_example =
    enqueue-Enqueued usize-IsBijective 20 (λ tail. ltb 0 tail) retrying (8 ∷ 12 ∷ [])
      (
        tt,
        (
          tt,
          (
            ((λ e. absurd (omega (arith, e))), tt),
            (tt, (((λ e. absurd (omega (arith, e))), tt), tt)),
          ),
        ),
      )
      two_nodes-IsShape
      (record { is_node = omega arith; out = refl; next_null = refl; idle = refl })

drop_node-Gone_example :
    Outcome (λ _. Gone usize_state 12) (drop_node usize_state (pure tt) 12 busy)
drop_node-Gone_example =
    drop_node-Gone usize-IsBijective 12 (pure tt) (λ w s. returns s) busy
      (inside (8 ∷ 12 ∷ []) two_nodes-IsShape refl refl)

-- 20 has been taken out of the queue before.
abbrev one_out : World
one_out = record busy { store = record two_nodes { prev = update two_nodes.prev 20 1 } }

one_out-IsShape : IsShape usize_state one_out.store null (8 ∷ 12 ∷ [])
unfolding slot
one_out-IsShape = record {
  seg = (refl, refl, (refl, refl, tt));
  end = refl;
  links = two_nodes-IsShape.links;
  distinct = two_nodes-IsShape.distinct;
  last = two_nodes-IsShape.last;
  real_tail = two_nodes-IsShape.real_tail;
  hole_within = two_nodes-IsShape.hole_within;
  hole_written = refl;
  owned = λ y out. refl;
}

-- 8 is the only node.
abbrev alone : World
alone = record {
  store = record {
    tail = 9;
    head = 8;
    prev = update (λ _. 0) 8 2;
    next = λ _. 0;
    pending = λ _. none;
  };
  schedule = [];
  spurious = [];
}

alone-IsShape : IsShape usize_state alone.store null (8 ∷ [])
unfolding slot usize_tail_to_enum
alone-IsShape = record {
  seg = (refl, refl, tt);
  end = refl;
  links = (omega arith, tt);
  distinct = (refl, tt);
  last = refl;
  real_tail = λ p e. ground arith;
  hole_within = inl refl;
  hole_written = refl;
  owned = λ y out. refl;
}

dequeue_try_set_queue_state-TakenOut_example :
    Outcome
      (λ last w'.
        TakenOut usize_state [] 8 [] alone.store last w'
        × ((last ≡ true) × (usize_tail_to_enum w'.store.tail ≡ state 5)))
      (dequeue_try_set_queue_state usize_state 8 5 alone)
dequeue_try_set_queue_state-TakenOut_example =
    dequeue_try_set_queue_state-TakenOut usize-IsBijective 8 5 [] [] alone (omega arith)
      alone-IsShape refl

-- An empty queue with the state 5, while another thread enqueues 16 after two rounds.
abbrev five : World
five = record {
  store = record { tail = 10; head = 0; prev = λ _. 0; next = λ _. 0; pending = λ _. none };
  schedule = [] ∷ [] ∷ (publish 16 ∷ []) ∷ [];
  spurious = true ∷ [];
}

five-IsShape : IsShape usize_state five.store null []
unfolding slot usize_tail_to_enum
five-IsShape = record {
  seg = tt;
  end = refl;
  links = tt;
  distinct = tt;
  last = refl;
  real_tail = λ p e. ground arith;
  hole_within = inl refl;
  hole_written = refl;
  owned = λ y out. refl;
}

abbrev one_less : ℕ → Option ℕ
one_less s = if ltb 0 s && ltb s 100 then some (s - 1) else none

one_less-small : (st new : ℕ) → one_less st ≡ some new → new ≤ max_state
one_less-small st new e = ground arith

fetch_update_state-Settles_example :
    Returns
      (Settles usize-IsBijective one_less one_less-small [])
      (fetch_update_state usize_state one_less five)
fetch_update_state-Settles_example =
    fetch_update_state-Settles usize-IsBijective one_less one_less-small five [] five-IsShape
