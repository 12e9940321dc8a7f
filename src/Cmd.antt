-- ===== src/Cmd.antt =====
-- The code of one thread as commands over the shared store. Before each access of the thread come
-- the moves that the others make since the last one: the schedule holds a batch of them for each
-- access, and where it has ended the others rest. `compare_exchange_weak` takes from `spurious`
-- whether it fails without a cause. Both are arbitrary, so a theorem about a command holds for every
-- interleaving.
pub mod Outcome
use aiq.Prelude.{
  suc, ◌+◌, length, ℕ, Bool, true, false, not, ◌||◌, none, List, [], ◌∷◌, ◌==◌, if◌then◌else◌,
}
use aiq.QueueState.{QueueState}
use aiq.Store.{Store, Move, null, slot, set_slot, set_prev, interfere}

pub record World : Type 0 where
  pub store : Store
  pub schedule : List (List Move)
  pub spurious : List Bool

-- `blocked` waits for an enqueue that no move of the schedule completes.
pub data Run (A : Type 0) : Type 0 where
  ok : A → World → Run A
  blocked : World → Run A
  out_of_fuel : Run A
  panic : Run A

abbrev pub Cmd : Type 0 → Type 0
Cmd A = World → Run A

abbrev pub pure : {A : Type 0} → A → Cmd A
pure = ok

module _ {A B : Type 0} where
  abbrev pub and_then : Run A → (A → Cmd B) → Run B
  and_then (ok a w) k = k a w
  and_then (blocked w) k = blocked w
  and_then out_of_fuel k = out_of_fuel
  and_then panic k = panic

  infixl 5 ◌>>=◌ ◌>>◌
  abbrev pub ◌>>=◌ : Cmd A → (A → Cmd B) → Cmd B
  m >>= k = λ w. and_then (m w) k

  abbrev pub ◌>>◌ : Cmd A → Cmd B → Cmd B
  m >> n = m >>= λ _. n

-- `debug_assert_eq!`
abbrev pub debug_assert : Bool → Cmd (Unit {0})
debug_assert holds = if holds then pure tt else λ _. panic

-- What `compare_exchange` returns: an `Ok`, or an `Err` with the value that was found.
pub data Exchange : Type 0 where
  won : Exchange
  lost : ℕ → Exchange

-- Whether the next weak exchange fails without a cause, and what comes after it.
unfoldable pub next_fails : List Bool → Bool
next_fails [] = false
next_fails (fails ∷ rest) = fails

unfoldable pub later_fails : List Bool → List Bool
later_fails [] = []
later_fails (fails ∷ rest) = rest

module _ {S : Type 0} (q : QueueState S) where
  -- The world once the others have made their next batch of moves.
  unfoldable pub turn : World → World
  turn w = elim w.schedule [
    | [] ↦ w
    | ms ∷ rest ↦ record w { store = interfere q ms w.store; schedule = rest }
  ]

  -- One atomic access.
  abbrev pub atomic : {A : Type 0} → (Store → A × Store) → Cmd A
  atomic f w = let w' = turn w in let (a, s) = f w'.store in ok a (record w' { store = s })

  unfoldable pub load_tail : Cmd ℕ
  load_tail = atomic λ s. (s.tail, s)

  unfoldable pub load_prev : ℕ → Cmd ℕ
  load_prev n = atomic λ s. (s.prev n, s)

  -- the load of a `next`, or of the head
  unfoldable pub load_slot : ℕ → Cmd ℕ
  load_slot p = atomic λ s. (slot s p, s)

  unfoldable pub store_slot : ℕ → ℕ → Cmd (Unit {0})
  store_slot p v = atomic λ s. (tt, set_slot p v s)

  unfoldable pub store_prev : ℕ → ℕ → Cmd (Unit {0})
  store_prev n v = atomic λ s. (tt, set_prev n v s)

  -- `compare_exchange` on the tail
  unfoldable pub cas_tail : ℕ → ℕ → Cmd Exchange
  cas_tail old new =
      atomic λ s. if s.tail == old then (won, record s { tail = new }) else (lost s.tail, s)

  -- `compare_exchange_weak` on the tail, with the write that it makes: it may fail without a cause.
  unfoldable pub cas_tail_weak : ℕ → (Store → Store) → Cmd Exchange
  cas_tail_weak old write w =
      let w' = turn w in
      let v = record w' { spurious = later_fails w'.spurious } in
      if next_fails w'.spurious || not (v.store.tail == old)
      then ok (lost v.store.tail) v
      else ok won (record v { store = write v.store })

-- More rounds than a loop of `compare_exchange_weak` can need.
unfoldable pub rounds : World → ℕ
rounds w = suc (length w.schedule + length w.spurious)
