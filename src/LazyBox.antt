-- ===== src/LazyBox.antt =====
-- src/sync/pthread.rs: `LazyBox`, which any number of threads ask for its box at once; each step is an
-- atomic access, or the allocation of a box. 0 is the null pointer.
pub mod Boxes
pub mod Invariant
use aiq.Prelude.{ℕ, ◌≡◌, ◌≢◌, List, [], ◌∷◌, true, false, has, if◌then◌else◌, ◌==◌}
use aiq.Store.{update, null}

-- Where a thread stands: not in `get_or_init`; before its load; in `init`, before it has its own box;
-- before the exchange, with its own box; back from the call, with the box that it was given.
pub data Caller : Type 0 where
  absent loading allocating : Caller
  exchanging : ℕ → Caller
  given : ℕ → Caller

-- `allocated` and `freed` list the boxes that were made and dropped.
pub record LazyBox : Type 0 where
  pub box : ℕ
  pub caller : ℕ → Caller
  pub allocated : List ℕ
  pub freed : List ℕ

unfoldable pub new : LazyBox
new = record { box = null; caller = λ _. absent; allocated = []; freed = [] }

abbrev pub goes : ℕ → Caller → LazyBox → LazyBox
goes i c m = record m { caller = update m.caller i c }

-- `get_or_init` and `init`
pub data Step (m : LazyBox) : LazyBox → Type 0 where
  call : (i : ℕ) → m.caller i ≡ absent → Step m (goes i loading m)
  load_box : (i : ℕ) → m.caller i ≡ loading → m.box ≢ null → Step m (goes i (given m.box) m)
  load_null : (i : ℕ) → m.caller i ≡ loading → m.box ≡ null → Step m (goes i allocating m)
  allocate :
      (i p : ℕ)
      → m.caller i ≡ allocating
      → p ≢ null
      → has p m.allocated ≡ false
      → Step m (record m { caller = update m.caller i (exchanging p); allocated = p ∷ m.allocated })
  exchange_won :
      (i p : ℕ)
      → m.caller i ≡ exchanging p
      → m.box ≡ null
      → Step m (record m { box = p; caller = update m.caller i (given p) })
  exchange_lost :
      (i p : ℕ)
      → m.caller i ≡ exchanging p
      → m.box ≢ null
      → Step m (record m { caller = update m.caller i (given m.box); freed = p ∷ m.freed })

pub data Reach : LazyBox → Type 0 where
  start : Reach new
  later : {m u : LazyBox} → Reach m → Step m u → Reach u

-- `drop`
unfoldable pub drop : LazyBox → LazyBox
drop m = if m.box == null then m else record m { freed = m.box ∷ m.freed }
