-- ===== src/QueueState.antt =====
-- src/queue/state.rs: the word kept in `Queue::tail`, which is either a state or a pointer to the
-- last node, and the three implementations of `QueueStatePrivate`. An address is a number, and
-- `usize` has 64 bits. The bit operations on the flag are written as arithmetic: `w & 1` is `w % 2`,
-- `w & !1` is `w - w % 2`, `w | 1` is `w + 1 - w % 2`, and shifts by one are `* 2` and `/ 2`.
pub mod Bijective
use aiq.Prelude.{
  ℕ, ◌+◌, ◌-◌, ◌*◌, ◌/◌, ◌%◌, ◌^◌, ◌≤◌, ◌<◌, ◌≡◌, Bool, not, Option, none, some, ltb, ◌==◌,
  if◌then◌else◌,
}

pub data StateOrPtr (S : Type 0) : Type 0 where
  state : S → StateOrPtr S
  ptr : ℕ → StateOrPtr S

module _ {S : Type 0} where
  -- `StateOrPtr::state`
  unfoldable pub to_state : StateOrPtr S → Option S
  to_state (state s) = some s
  to_state (ptr p) = none

  -- `StateOrPtr::tail`
  unfoldable pub to_tail : StateOrPtr S → Option ℕ
  to_tail (state s) = none
  to_tail (ptr p) = some p

-- The trait `QueueStatePrivate`, with the two arms of `enum_to_tail` apart, since only that of a
-- state can panic (`none`).
pub record QueueState (S : Type 0) : Type 0 where
  pub tail_to_enum : ℕ → StateOrPtr S
  pub state_to_tail : S → Option ℕ
  pub ptr_to_tail : ℕ → ℕ

abbrev pub enum_to_tail : {S : Type 0} → QueueState S → StateOrPtr S → Option ℕ
enum_to_tail q (state s) = q.state_to_tail s
enum_to_tail q (ptr p) = some (q.ptr_to_tail p)

abbrev pub usize_bound : ℕ
usize_bound = 2 ^ 64

-- The address of a `NodeLink`, whose alignment is 4.
pub record IsLink (p : ℕ) : Type 0 where
  pub not_low : 4 ≤ p
  pub aligned : p % 4 ≡ 0
  pub in_memory : p < usize_bound

-- `()`
unfoldable pub unit_tail_to_enum : ℕ → StateOrPtr (Unit {0})
unit_tail_to_enum w = if w == 0 then state tt else ptr w

abbrev pub unit_state : QueueState (Unit {0})
unit_state = record {
  tail_to_enum = unit_tail_to_enum;
  state_to_tail = λ _. some 0;
  ptr_to_tail = λ p. p;
}

-- `usize`
abbrev pub max_state : ℕ
max_state = (usize_bound - 1) / 2

unfoldable pub state_to_ptr : ℕ → Option ℕ
state_to_ptr s = if ltb max_state s then none else some (s * 2 % usize_bound)

unfoldable pub usize_tail_to_enum : ℕ → StateOrPtr ℕ
usize_tail_to_enum w = if not (w % 2 == 0) then ptr (w - w % 2) else state (w / 2)

unfoldable pub flagged : ℕ → ℕ
flagged p = p + 1 - p % 2

abbrev pub usize_state : QueueState ℕ
usize_state = record {
  tail_to_enum = usize_tail_to_enum;
  state_to_tail = state_to_ptr;
  ptr_to_tail = flagged;
}

-- `*mut T`
unfoldable pub check_alignment : ℕ → ℕ
check_alignment p = p - p % 2

unfoldable pub pointer_tail_to_enum : ℕ → StateOrPtr ℕ
pointer_tail_to_enum w = if not (w % 2 == 0) then ptr (w - w % 2) else state w

abbrev pub pointer_state : QueueState ℕ
pointer_state = record {
  tail_to_enum = pointer_tail_to_enum;
  state_to_tail = λ p. some (check_alignment p);
  ptr_to_tail = flagged;
}
