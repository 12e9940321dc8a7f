-- ===== src/Semaphore/System.antt =====
-- A semaphore in use: the permits that were given out, the acquisitions that wait in its queue, and those
-- whose node has left the queue and that were not polled since.
use aiq.Prelude.{
  ℕ, zero, suc, ◌+◌, ◌-◌, ◌/◌, ◌≤◌, ◌<◌, ◌≡◌, true, ◌||◌, ◌⊎◌, none, some, List, [], ◌∷◌, ◌++◌,
  length, ltb, ◌==◌, All, ◌^◌,
}
use aiq.Semaphore.{
  Waiter, Line, idle, waiting, Woken, max_permits, add_permits, available_permits, is_closed,
  try_acquire_many, acquired, ready, pending, close, SemaphorePermit, split, merge, drop_permit,
  forget_permits,
}
use aiq.Semaphore.Futures.{unqueued, queued, dequeued, poll_acquire, drop_acquire}
use aiq.Semaphore.Release.{HasWaker}

-- An acquisition: the permits it asked for, and its waiter.
abbrev pub Acquisition : Type 0
Acquisition = ℕ × Waiter

abbrev pub waiters : Line → List Waiter
waiters (idle state) = []
waiters (waiting w ws) = w ∷ ws

-- `asked` has the permits that the waiters in the queue asked for, in their order; `total` the permits
-- that the semaphore was given, less those that were forgotten or lost.
pub record State : Type 0 where
  pub line : Line
  pub asked : List ℕ
  pub left_queue : List Acquisition
  pub permits : List SemaphorePermit
  pub total : ℕ

abbrev pub drop : ℕ → List ℕ → List ℕ
drop zero l = l
drop (suc n) [] = []
drop (suc n) (a ∷ ns) = drop n ns

-- The first acquisitions, served in full.
abbrev pub served_in_full : ℕ → List ℕ → List Acquisition
served_in_full zero l = []
served_in_full (suc n) [] = []
served_in_full (suc n) (a ∷ ns) =
    (a, record { waker = none; permits_remaining = 0 }) ∷ served_in_full n ns

-- The acquisitions of waiters that are taken from the queue as they are.
abbrev pub taken_out : List ℕ → List Waiter → List Acquisition
taken_out [] ws = []
taken_out (a ∷ ns) [] = []
taken_out (a ∷ ns) (w ∷ ws) = (a, record w { waker = none }) ∷ taken_out ns ws

-- The state after an operation that served the waiters whose wakers it called.
abbrev pub after : State → Woken → State
after s r = record s {
  line = r.line;
  asked = drop (length r.woken) s.asked;
  left_queue = served_in_full (length r.woken) s.asked ++ s.left_queue;
}

-- What is lost where so many permits are taken for a state.
abbrev pub lost_by_half : ℕ → ℕ
lost_by_half permits = permits - permits / 2

-- One operation, or `reorder`, since the permits of the tasks have no order. In `cancel_only` the code stores
-- half of the permits that the only waiter was given: the other half leaves the total. What a first
-- poll asks for is below 2 ^ 31: from there on the code waits for too few. Owned permits are left out:
-- the code makes permits where it acquires them without waiting. No more permits are added than
-- `max_permits` in all, and no more are forgotten at once.
pub data Step : State → State → Type 0 where
  add :
      {s : State} (n : ℕ) (r : Woken)
      → n + s.total ≤ max_permits
      → add_permits n s.line ≡ some r
      → Step s (record (after s r) { total = n + s.total })
  drop_one :
      {s : State} (p : SemaphorePermit) (ps qs : List SemaphorePermit) (r : Woken)
      → s.permits ≡ ps ++ p ∷ qs
      → drop_permit p s.line ≡ some r
      → Step s (after (record s { permits = ps ++ qs }) r)
  try_acquire_step :
      {s : State} (sem n : ℕ) (line : Line)
      → try_acquire_many n s.line ≡ acquired n line
      → Step s (record s { line = line; permits = record { sem = sem; permits = n } ∷ s.permits })
  poll_ready :
      {s : State} (sem n cx_waker : ℕ) (line : Line)
      → n < 2 ^ 31
      → poll_acquire n cx_waker unqueued s.line ≡ ready line
      → Step s (record s { line = line; permits = record { sem = sem; permits = n } ∷ s.permits })
  poll_waits :
      {s : State} (n cx_waker : ℕ) (line : Line)
      → n < 2 ^ 31
      → poll_acquire n cx_waker unqueued s.line ≡ pending line
      → Step s (record s { line = line; asked = s.asked ++ n ∷ [] })
  poll_again :
      {s : State} (n cx_waker : ℕ) (before behind : List Waiter) (w : Waiter) (line : Line)
      → waiters s.line ≡ before ++ w ∷ behind
      → poll_acquire n cx_waker (queued before w behind) s.line ≡ pending line
      → Step s (record s { line = line })
  poll_served :
      {s : State} (sem n cx_waker : ℕ) (w : Waiter) (ds es : List Acquisition) (line : Line)
      → s.left_queue ≡ ds ++ (n, w) ∷ es
      → poll_acquire n cx_waker (dequeued w) s.line ≡ ready line
      → Step s (record s {
        line = line;
        left_queue = ds ++ es;
        permits = record { sem = sem; permits = n } ∷ s.permits;
      })
  cancel_waiting :
      {s : State} (n : ℕ) (ns ms : List ℕ) (before behind : List Waiter) (w : Waiter) (r : Woken)
      → waiters s.line ≡ before ++ w ∷ behind
      → s.asked ≡ ns ++ n ∷ ms
      → length ns ≡ length before
      → (n ≡ w.permits_remaining) ⊎ (0 < length (before ++ behind))
      → drop_acquire n (queued before w behind) s.line ≡ some r
      → Step s (after (record s { asked = ns ++ ms }) r)
  cancel_only :
      {s : State} (n : ℕ) (w : Waiter) (r : Woken)
      → s.line ≡ waiting w []
      → s.asked ≡ n ∷ []
      → drop_acquire n (queued [] w []) s.line ≡ some r
      → Step s (record s {
        line = r.line;
        asked = [];
        total = s.total - lost_by_half (n - w.permits_remaining);
      })
  cancel_left :
      {s : State} (n : ℕ) (w : Waiter) (ds es : List Acquisition) (r : Woken)
      → s.left_queue ≡ ds ++ (n, w) ∷ es
      → drop_acquire n (dequeued w) s.line ≡ some r
      → Step s (after (record s { left_queue = ds ++ es }) r)
  forget_one :
      {s : State} (p : SemaphorePermit) (ps qs : List SemaphorePermit)
      → s.permits ≡ ps ++ p ∷ qs
      → Step s (record s { permits = ps ++ qs; total = s.total - p.permits })
  forget_some :
      {s : State} (n k : ℕ) (line : Line)
      → n ≤ max_permits
      → forget_permits n s.line ≡ some (k, line)
      → Step s (record s { line = line; total = s.total - k })
  split_one :
      {s : State} (p rest part : SemaphorePermit) (ps qs : List SemaphorePermit) (n : ℕ)
      → s.permits ≡ ps ++ p ∷ qs
      → split p n ≡ (rest, some part)
      → Step s (record s { permits = rest ∷ part ∷ ps ++ qs })
  reorder :
      {s : State} (p : SemaphorePermit) (ps qs : List SemaphorePermit)
      → s.permits ≡ ps ++ p ∷ qs
      → Step s (record s { permits = p ∷ ps ++ qs })
  merge_two :
      {s : State} (p other all none_left : SemaphorePermit) (rest : List SemaphorePermit)
      → s.permits ≡ p ∷ other ∷ rest
      → merge p other ≡ some (all, none_left)
      → Step s (record s { permits = all ∷ none_left ∷ rest })
  close_step :
      {s : State} (r : Woken)
      → close s.line ≡ some r
      → Step s (record s {
        line = r.line;
        asked = [];
        left_queue = taken_out s.asked (waiters s.line) ++ s.left_queue;
      })

-- The permits that are held, those given to acquisitions that left the queue, and to those that wait.
abbrev pub held : List SemaphorePermit → ℕ
held [] = 0
held (p ∷ ps) = p.permits + held ps

abbrev pub given : List Acquisition → ℕ
given [] = 0
given (d ∷ ds) = d.0 - d.1.permits_remaining + given ds

abbrev pub given_waiting : List ℕ → List Waiter → ℕ
given_waiting [] ws = 0
given_waiting (a ∷ ns) [] = 0
given_waiting (a ∷ ns) (w ∷ ws) = a - w.permits_remaining + given_waiting ns ws

abbrev pub accounted : State → ℕ
accounted s =
    available_permits s.line
    + held s.permits
    + given s.left_queue
    + given_waiting s.asked (waiters s.line)

-- The waiters behind the first were given nothing.
abbrev pub Behind : List ℕ → List Waiter → Type 0
Behind [] [] = Unit
Behind [] (w ∷ ws) = ⊥
Behind (a ∷ ns) [] = ⊥
Behind (a ∷ ns) (w ∷ ws) = HasWaker w × (w.permits_remaining ≡ a) × Behind ns ws

-- The first waiter wants at most what it asked for, and something if it asked for something.
abbrev pub First : ℕ → Waiter → Type 0
First a w = HasWaker w × (w.permits_remaining ≤ a) × ((a == 0 || ltb 0 w.permits_remaining) ≡ true)

abbrev pub Lined : List ℕ → List Waiter → Type 0
Lined [] [] = Unit
Lined [] (w ∷ ws) = ⊥
Lined (a ∷ ns) [] = ⊥
Lined (a ∷ ns) (w ∷ ws) = First a w × Behind ns ws

abbrev pub IsFull : Acquisition → Type 0
IsFull d = (d.1.permits_remaining ≡ 0)

-- Every permit is accounted for.
pub record Conserved (s : State) : Type 0 where
  pub lined : Lined s.asked (waiters s.line)
  pub balance : accounted s ≡ s.total
  pub bounded : s.total ≤ max_permits
  pub settled : All IsFull s.left_queue ⊎ (is_closed s.line ≡ true)
