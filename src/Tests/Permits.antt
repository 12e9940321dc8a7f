-- ===== src/Tests/Permits.antt =====
-- A semaphore with five permits, and one with two waiters for 2 and 3 permits.
use aiq.Prelude.{
  ◌/◌, ◌%◌, not, ◌==◌, ◌+◌, ◌-◌, ◌≡◌, refl, some, none, [], ◌∷◌, arith, leb, if◌then◌else◌,
}
use aiq.Semaphore.Cancel.{cancel_queued, cancel_queued-halves}
use aiq.Semaphore.Owned.{acquire_many_owned, drop_owned, drop_owned-acquire_many_owned}
use aiq.Semaphore.{
  Line, is_closed, Waiter, idle, waiting, Woken, new, add_permits, forget_permits,
  available_permits, SemaphorePermit,
}
use aiq.Semaphore.Permits.{open_state, new-available, forget_permits-exact}
use aiq.Semaphore.Release.{Served, wanted, wanted_in, add_permits-Released}

new-available_example : new 5 ≡ some (idle (open_state 5))
new-available_example = new-available 5 (omega arith)

abbrev five_permits : SemaphorePermit
five_permits = record { sem = 1; permits = 5 }

abbrev for_two : Waiter
for_two = record { waker = some 7; permits_remaining = 2 }

abbrev for_three : Waiter
for_three = record { waker = some 9; permits_remaining = 3 }

add_permits-Released_example :
    (r : Woken) × (add_permits 4 (waiting for_two (for_three ∷ [])) ≡ some r)
    × Served (for_two ∷ for_three ∷ []) 4 r.woken r.line
    × (available_permits r.line + wanted for_two (for_three ∷ []) ≡ 4 + wanted_in r.line)
add_permits-Released_example =
    add_permits-Released 4 for_two (for_three ∷ []) (omega arith) (omega arith)
      ((7, refl), ((9, refl), tt))

forget_permits-exact_example :
    forget_permits 7 (idle (open_state 5))
    ≡ (if leb 7 5 then some (7, idle (open_state (5 - 7))) else none)
forget_permits-exact_example = forget_permits-exact 5 7 (omega arith) (omega arith)

cancel_queued-halves_example :
    (line : Line) × (cancel_queued 5 [] for_two [] ≡ some (record { line = line; woken = [] }))
    × (available_permits line ≡ (5 - 2) / 2)
    × (is_closed line ≡ not ((5 - 2) % 2 == 0))
cancel_queued-halves_example = cancel_queued-halves 5 for_two (omega arith) (omega arith)

drop_owned-acquire_many_owned_example :
    (left : Line) × (acquire_many_owned 1 4 (idle (open_state 5))
      ≡ some (record { sem = 1; permits = 4 }, left))
    × (drop_owned (record { sem = 1; permits = 4 }) left
        ≡ some (record { line = idle (open_state (5 + (4 - 1))); woken = [] }))
drop_owned-acquire_many_owned_example =
    drop_owned-acquire_many_owned 1 4 5 (omega arith) (omega arith) (omega arith)
