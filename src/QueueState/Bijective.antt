-- ===== src/QueueState/Bijective.antt =====
-- The contract of `QueueStatePrivate` ("implementation must be bijective") as a record of laws, and
-- its proof for the three implementations.
use aiq.Prelude.{ℕ, ◌*◌, ◌%◌, ◌≤◌, ◌<◌, ◌≡◌, refl, some, arith}
use aiq.QueueState.{
  state, ptr, QueueState, usize_bound, IsLink, unit_state, unit_tail_to_enum, usize_state,
  usize_tail_to_enum, max_state, state_to_ptr, flagged, pointer_state, pointer_tail_to_enum,
  check_alignment,
}

-- `IsState` says which states the type can hold.
pub record IsBijective {S : Type 0} (q : QueueState S) (IsState : S → Type 0) : Type 0 where
  pub decode_state :
      (s : S) → IsState s → (w : ℕ) × (q.state_to_tail s ≡ some w) × (q.tail_to_enum w ≡ state s)
  pub encode_state :
      (w : ℕ) (s : S) → w < usize_bound → q.tail_to_enum w ≡ state s → q.state_to_tail s ≡ some w
  pub decode_ptr : (p : ℕ) → IsLink p → q.tail_to_enum (q.ptr_to_tail p) ≡ ptr p
  pub encode_ptr : (w p : ℕ) → q.tail_to_enum w ≡ ptr p → q.ptr_to_tail p ≡ w
  pub decode_null : (s : S) × (q.tail_to_enum 0 ≡ state s)

-- The words for `()` and for links are coded and decoded without loss, and null is a state.
pub unit-IsBijective : IsBijective unit_state (λ _. Unit)
unfolding unit_tail_to_enum
unit-IsBijective = record {
  decode_state = λ s _. (0, refl, refl);
  encode_state = λ w s lt e. ground arith;
  decode_ptr = λ p k. ground arith;
  encode_ptr = λ w p e. ground arith;
  decode_null = (tt, refl);
}

-- The words for the states up to the maximum and for links are coded and decoded without loss, and
-- null is a state.
pub usize-IsBijective : IsBijective usize_state (λ s. s ≤ max_state)
unfolding usize_tail_to_enum state_to_ptr flagged
usize-IsBijective = record {
  decode_state = λ s le. (s * 2, ground arith, ground arith);
  encode_state = λ w s lt e. ground arith;
  decode_ptr = λ p k. ground arith;
  encode_ptr = λ w p e. ground arith;
  decode_null = (0, refl);
}

-- The words for even pointers and for links are coded and decoded without loss, and null is a state.
pub pointer-IsBijective : IsBijective pointer_state (λ s. s % 2 ≡ 0)
unfolding pointer_tail_to_enum check_alignment flagged
pointer-IsBijective = record {
  decode_state = λ s even. (s, ground arith, ground arith);
  encode_state = λ w s lt e. ground arith;
  decode_ptr = λ p k. ground arith;
  encode_ptr = λ w p e. ground arith;
  decode_null = (0, refl);
}
