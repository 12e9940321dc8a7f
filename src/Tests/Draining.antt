-- ===== src/Tests/Draining.antt =====
-- A queue that holds 8 and 12 is drained while another thread enqueues 16.
use aiq.Prelude.{ℕ, ◌<◌, [], ◌∷◌}
use aiq.QueueState.{usize_state}
use aiq.QueueState.Bijective.{usize-IsBijective}
use aiq.Store.{null}
use aiq.Cmd.{◌>>=◌}
use aiq.Cmd.Outcome.{Outcome}
use aiq.Drain.{new, drop_drain}
use aiq.Drain.Drained.{Drained, drain-Drained}
use aiq.Tests.Removals.{busy, two_nodes-IsShape}

drain-Drained_example :
    (bound : ℕ) × ((fuel : ℕ)
      → bound < fuel
      → Outcome
          (Drained usize-IsBijective (8 ∷ 12 ∷ []))
          ((do d ← new usize_state null; drop_drain usize_state fuel d) busy))
drain-Drained_example =
    drain-Drained usize-IsBijective null busy (8 ∷ 12 ∷ []) usize-IsBijective.decode_null
      two_nodes-IsShape
