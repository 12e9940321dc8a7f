-- ===== src/Tests/Visiting.antt =====
-- A drain that has taken 8 and 12 visits them while another thread enqueues 16; its sentinel is at 20,
-- and it releases the lock after each node.
use aiq.Prelude.{
  ◌≡◌, false, some, ℕ, suc, refl, Bool, true, none, inl, List, [], ◌∷◌, arith, Sublist-refl,
}
use aiq.QueueState.{usize_state, usize_tail_to_enum}
use aiq.QueueState.Bijective.{usize-IsBijective}
use aiq.Store.{Store, null, update, slot, publish, link}
use aiq.Cmd.{World, Cmd, pure}
use aiq.Cmd.Outcome.{Outcome, returns}
use aiq.Drain.Draining.{IsDraining}
use aiq.Drain.Unlocked.{execute_unlocked, for_each_locked}
use aiq.Drain.Visiting.{Fewer, KeepsRing, KeepsRingWith, Reopened, execute_unlocked-Reopened}
use aiq.Drain.Releasing.{hold_sentinel, IsRing}
use aiq.Drain.Bypassing.{Bypassed}
use aiq.Drain.Removal.{remove-Bypassed}
use aiq.Queue.{remove}
use aiq.Drain.Visits.{Noted, Visited, for_each_locked-Visited}

abbrev taken_nodes : Store
taken_nodes = record {
  tail = null;
  head = null;
  prev = update (update (update (λ _. 0) 8 2) 12 8) 20 12;
  next = update (λ _. 0) 8 12;
  pending = λ _. none;
}

abbrev visiting : World
visiting = record {
  store = taken_nodes;
  schedule = [] ∷ (publish 16 ∷ []) ∷ [] ∷ (link 16 ∷ []) ∷ [];
  spurious = [];
}

taken_nodes-IsDraining : IsDraining usize_state [] [] (8 ∷ 12 ∷ []) [] taken_nodes
unfolding slot usize_tail_to_enum
taken_nodes-IsDraining = record {
  queue = record {
    seg = tt;
    end = refl;
    links = tt;
    distinct = tt;
    last = refl;
    real_tail = λ p e. cc;
    hole_within = inl refl;
    hole_written = refl;
    owned = λ y out. ground arith;
  };
  chain = (refl, (refl, refl, tt));
  links = (omega arith, (omega arith, tt));
  distinct = (refl, (refl, tt));
  apart = λ z m. refl;
  in_use = λ z m. ground arith;
  marked = λ z m. cc;
  unmarked = λ z m. cc;
}

abbrev count : ℕ → ℕ → Bool × ℕ
count visited node = (true, suc visited)

abbrev unlocked : ℕ → Cmd ℕ
unlocked = pure

gone-Fewer : (gone ds : List ℕ) → Fewer gone ds gone ds
gone-Fewer gone ds = record {
  left = Sublist-refl ds;
  still_gone = λ z m. m;
  gone_or_left = λ z m. ground arith;
}

unlocked-KeepsRing : (visited : ℕ) → KeepsRing usize_state 20 (unlocked visited)
unlocked-KeepsRing visited gone ds xs w ring = returns (record {
  gone_now = gone;
  ring = ds;
  queued_now = xs;
  fewer = gone-Fewer gone ds;
  is_ring = ring;
})

-- Nobody removes anything while the lock is released.
abbrev none_removed : ℕ → List ℕ
none_removed visited = []

unlocked-Noted :
    (visited : ℕ) → KeepsRingWith usize_state 20 (Noted none_removed visited) (unlocked visited)
unlocked-Noted visited gone ds xs w ring = returns (
  record {
    gone_now = gone;
    ring = ds;
    queued_now = xs;
    fewer = gone-Fewer gone ds;
    is_ring = ring;
  },
  record { kept = λ z m. m; noted = λ z m. ground arith },
)

for_each_locked-Visited_example :
    Outcome
      (λ r w'.
        Visited usize-IsBijective 20
          (omega arith)
          count
          unlocked
          none_removed
          (λ h x. refl)
          unlocked-Noted
          (8 ∷ 12 ∷ [])
          r.0
          r.1
          w')
      (for_each_locked usize_state 20 count unlocked 3 0 (record { head = 8; tail = 12 }) visiting)
for_each_locked-Visited_example =
    for_each_locked-Visited usize-IsBijective 20 (omega arith) count unlocked none_removed
      (λ h x. refl) unlocked-Noted (8 ∷ 12 ∷ []) [] 3 12 0 visiting (omega arith) refl
      taken_nodes-IsDraining (λ e. absurd (omega (arith, e))) refl

execute_unlocked-Reopened_example :
    Outcome
      (λ r w'. Reopened usize-IsBijective 20 (omega arith) [] (8 ∷ 12 ∷ []) r.1 w')
      (execute_unlocked usize_state 20 (unlocked 0) (record { head = 8; tail = 12 }) visiting)
execute_unlocked-Reopened_example =
    execute_unlocked-Reopened usize-IsBijective 20 (omega arith) (unlocked 0) [] 8 (12 ∷ []) []
      visiting (unlocked-KeepsRing 0)
      (hold_sentinel 20 (8 ∷ 12 ∷ []) [] taken_nodes taken_nodes-IsDraining
        (λ e. absurd (omega (arith, e))) refl)

-- The ring of the sentinel with 8 and 12, whose thread has not linked it yet.
abbrev half_linked : Store
half_linked = record {
  tail = null;
  head = null;
  prev = update (update (update (λ _. 0) 8 20) 12 8) 20 12;
  next = update (update (λ _. 0) 20 8) 12 20;
  pending = update (λ _. none) 12 (some 8);
}

half_linked-IsRing : IsRing usize_state 20 [] (8 ∷ 12 ∷ []) [] half_linked
unfolding slot usize_tail_to_enum
half_linked-IsRing = record {
  draining = record {
    queue = record {
      seg = tt;
      end = refl;
      links = tt;
      distinct = tt;
      last = refl;
      real_tail = λ p e. cc;
      hole_within = inl refl;
      hole_written = refl;
      owned = λ y out. ground arith;
    };
    chain = (refl, (refl, refl, (refl, (refl, refl), tt)));
    links = (omega arith, (omega arith, (omega arith, tt)));
    distinct = (refl, (refl, (refl, tt)));
    apart = λ z m. refl;
    in_use = λ z m. ground arith;
    marked = λ z m. cc;
    unmarked = λ z m. cc;
  };
  ends = refl;
  closes = refl;
  linked = refl;
}

abbrev removing : World
removing = record visiting {
  store = half_linked;
  schedule = [] ∷ (publish 16 ∷ []) ∷ [] ∷ (link 16 ∷ []) ∷ [] ∷ [] ∷ (link 12 ∷ []) ∷ [];
}

remove-Bypassed_example :
    Outcome
      (λ b w'. (b ≡ false) × Bypassed usize-IsBijective 20 (omega arith) [] [] 8 (12 ∷ []) w')
      (remove usize_state 8 null false removing)
remove-Bypassed_example =
    remove-Bypassed usize-IsBijective 20 (omega arith) [] [] 8 (12 ∷ []) null removing []
      half_linked-IsRing refl
