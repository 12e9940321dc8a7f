-- ===== src/Handoff.antt =====
-- src/queue.rs on x86_64, for a parker that blocks: the holder of the lock waits in `wait_for_next` at
-- one place, and the thread that enqueues there writes the place and unparks it. The parker is that of
-- Parker.antt; other threads may still unpark it for places where the holder no longer waits.
pub mod Invariant
pub mod Keeps
pub mod Wakeup
use aiq.Prelude.{ℕ, zero, suc, ◌≡◌, ◌≢◌}
use aiq.Store.{null}
use aiq.Parker.{Machine, Park, Unpark, outside, resting, sleeping, woken}
use aiq.Parker

-- `PARKED`
abbrev pub parked_mark : ℕ
parked_mark = 1

-- Where the waiter stands: before a load, with so many rounds of spinning left; before the exchange that
-- marks the place; before `park`, in it, and before the load that comes after it; back.
pub data WaiterPc : Type 0 where
  spinning : ℕ → WaiterPc
  marking parking in_park loading : WaiterPc
  returned : ℕ → WaiterPc

-- Where the thread that enqueues stands: before its swap of the place, before `unpark`, past it.
pub data LinkerPc : Type 0 where
  before unparking finished : LinkerPc

pub record Handoff : Type 0 where
  pub next : ℕ
  pub machine : Machine
  pub waiter : WaiterPc
  pub linker : LinkerPc

-- Whether the thread that enqueues has to unpark, for what its swap has found.
abbrev pub after_swap : ℕ → LinkerPc
after_swap zero = finished
after_swap (suc _) = unparking

-- The next access of `wait_for_next`, or of a call of the parker that has begun; and the call of `unpark`
-- that follows the swap.
pub data Move (h : Handoff) : Handoff → Type 0 where
  load_link :
      (n : ℕ)
      → h.waiter ≡ spinning n
      → h.next ≢ null
      → Move h (record h { waiter = returned h.next })
  spin :
      (n : ℕ)
      → h.waiter ≡ spinning (suc n)
      → h.next ≡ null
      → Move h (record h { waiter = spinning n })
  give_up : h.waiter ≡ spinning 0 → h.next ≡ null → Move h (record h { waiter = marking })
  mark :
      h.waiter ≡ marking
      → h.next ≡ null
      → Move h (record h { next = parked_mark; waiter = parking })
  mark_late : h.waiter ≡ marking → h.next ≢ null → Move h (record h { waiter = returned h.next })
  park :
      {m : Machine}
      → h.waiter ≡ parking
      → Park h.machine m
      → Move h (record h { machine = m; waiter = in_park })
  come_back :
      h.waiter ≡ in_park → h.machine.park_pc ≡ outside → Move h (record h { waiter = loading })
  load_mark : h.waiter ≡ loading → h.next ≡ parked_mark → Move h (record h { waiter = parking })
  load_next :
      h.waiter ≡ loading → h.next ≢ parked_mark → Move h (record h { waiter = returned h.next })
  unpark :
      {m : Machine}
      → h.linker ≡ unparking
      → Unpark h.machine m
      → Move h (record h { machine = m; linker = finished })
  go_on : {m : Machine} → Parker.Move h.machine m → Move h (record h { machine = m })

-- Any step: also the swap of the place by the thread that enqueues `node`, an `unpark` by another thread,
-- and a wake-up without a cause.
pub data Step (node : ℕ) (h : Handoff) : Handoff → Type 0 where
  move : {u : Handoff} → Move h u → Step node h u
  link : h.linker ≡ before → Step node h (record h { next = node; linker = after_swap h.next })
  stray :
      {m : Machine}
      → Unpark h.machine m
      → m.unpark_pc 0 ≡ h.machine.unpark_pc 0
      → Step node h (record h { machine = m })
  spurious :
      h.machine.park_pc ≡ sleeping
      → Step node h (record h { machine = record h.machine { park_pc = woken } })

-- Thread 0 is the one that enqueues at the place; it is at rest at the start.
pub data Reach (node : ℕ) : Handoff → Type 0 where
  start :
      (rounds : ℕ) (m : Machine)
      → Parker.Reach m
      → m.park_pc ≡ outside
      → m.unpark_pc 0 ≡ resting
      → Reach node (record { next = null; machine = m; waiter = spinning rounds; linker = before })
  later : {h u : Handoff} → Reach node h → Step node h u → Reach node u

pub data Moves : Handoff → Handoff → Type 0 where
  done : {h : Handoff} → Moves h h
  then : {h u v : Handoff} → Move h u → Moves u v → Moves h v
