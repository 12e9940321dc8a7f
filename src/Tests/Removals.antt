-- ===== src/Tests/Removals.antt =====
-- Removals from a queue that holds 8 and 12, while another thread enqueues 16.
use aiq.Prelude.{ℕ, ◌≡◌, refl, inl, true, false, none, some, List, [], ◌∷◌, ◌++◌, arith}
use aiq.QueueState.{usize_state, usize_tail_to_enum}
use aiq.QueueState.Bijective.{usize-IsBijective}
use aiq.Store.{Store, publish, link, null, update, slot}
use aiq.Store.Shape.{IsShape}
use aiq.Cmd.{World, pure, ◌>>=◌, ◌>>◌}
use aiq.Cmd.Outcome.{Outcome}
use aiq.Queue.{remove, dequeue, drop_dequeue}
use aiq.Queue.Contract.{TakenOut}
use aiq.Queue.Remove.{remove-TakenOut, remove-wait_TakenOut}
use aiq.Queue.Ends.{dequeue-first}

abbrev pub two_nodes : Store
two_nodes = record {
  tail = 13;
  head = 8;
  prev = update (update (λ _. 0) 8 2) 12 8;
  next = update (λ _. 0) 8 12;
  pending = λ _. none;
}

-- Another thread exchanges the tail before the first access and links its node at the fourth.
abbrev pub busy : World
busy = record {
  store = two_nodes;
  schedule = (publish 16 ∷ []) ∷ [] ∷ [] ∷ (link 16 ∷ []) ∷ [];
  spurious = [];
}

pub two_nodes-IsShape : IsShape usize_state two_nodes null (8 ∷ 12 ∷ [])
unfolding slot usize_tail_to_enum
two_nodes-IsShape = record {
  seg = (refl, refl, (refl, refl, tt));
  end = refl;
  links = (omega arith, (omega arith, tt));
  distinct = (refl, (refl, tt));
  last = refl;
  real_tail = λ p e. ground arith;
  hole_within = inl refl;
  hole_written = refl;
  owned = λ y out. refl;
}

dequeue-first_example :
    Outcome
      (λ r w'.
        (r ≡ some 8) × ((added : List ℕ) × IsShape usize_state w'.store null ((12 ∷ []) ++ added)))
      ((do
        r ← dequeue usize_state
        elim r [ none ↦ pure tt | some n ↦ drop_dequeue usize_state n ]
        pure r)
        busy)
dequeue-first_example = dequeue-first usize-IsBijective 8 (12 ∷ []) busy two_nodes-IsShape

remove-TakenOut_example :
    Outcome (TakenOut usize_state (8 ∷ []) 12 [] two_nodes) (remove usize_state 12 null false busy)
remove-TakenOut_example =
    remove-TakenOut usize-IsBijective (8 ∷ []) 12 [] null busy usize-IsBijective.decode_null
      two_nodes-IsShape refl

remove-wait_TakenOut_example :
    Outcome (TakenOut usize_state [] 8 (12 ∷ []) two_nodes) (remove usize_state 8 null true busy)
remove-wait_TakenOut_example =
    remove-wait_TakenOut usize-IsBijective [] 8 (12 ∷ []) null busy usize-IsBijective.decode_null
      two_nodes-IsShape
