-- ===== src/Store/Shape.antt =====
-- What a store must look like to hold the nodes `xs` in this order, also while other threads are
-- between the two phases of an enqueue, and how segments of it are split, joined and framed.
use aiq.Prelude.{
  ℕ, ◌<◌, ◌≡◌, refl, ◌≢◌, ◌⊎◌, true, false, none, some, List, [], ◌∷◌, ◌++◌, arith, ◌==◌,
  if◌then◌else◌, All, has, Distinct, last_or, firsts,
}
use aiq.QueueState.{state, ptr, QueueState, IsLink}
use aiq.Store.{Store, null, head_marker, slot, tail_slot}

-- The place `p` leads to `x`: it has been written, unless the thread that enqueues `x` has yet to
-- write it, or a removal that is under way has cleared it (`x` is then the `hole`).
abbrev pub Leads : Store → ℕ → ℕ → ℕ → Type 0
Leads s hole p x = elim (s.pending x) [
  | none ↦ slot s p ≡ (if x == hole then null else x)
  | some r ↦ (r ≡ p) × (slot s p ≡ null)
]

-- The nodes `xs` follow one another from the place `p`.
abbrev pub Seg : Store → ℕ → ℕ → List ℕ → Type 0
Seg s hole p [] = Unit
Seg s hole p (x ∷ xs) = (s.prev x ≡ p) × Leads s hole p x × Seg s hole x xs

-- A pointer in the tail is not the mark of the head.
abbrev pub IsRealTail : {S : Type 0} → QueueState S → ℕ → Type 0
IsRealTail q w = (p : ℕ) → q.tail_to_enum w ≡ ptr p → p ≢ head_marker

-- The word is a state.
abbrev pub HoldsState : {S : Type 0} → QueueState S → ℕ → Type 0
HoldsState {S} q w = (st : S) × (q.tail_to_enum w ≡ state st)

-- `hole` is null, or the node of a removal that is under way.
pub record IsShape {S : Type 0} (q : QueueState S) (s : Store) (hole : ℕ) (xs : List ℕ)
    : Type 0 where
  pub seg : Seg s hole head_marker xs
  pub end : slot s (last_or head_marker xs) ≡ null
  pub links : All IsLink xs
  pub distinct : Distinct xs
  pub last : tail_slot q s.tail ≡ last_or head_marker xs
  pub real_tail : IsRealTail q s.tail
  pub hole_within : (hole ≡ null) ⊎ (has hole xs ≡ true)
  pub hole_written : s.pending hole ≡ none
  pub owned : (y : ℕ) → has y xs ≡ false → s.pending y ≡ none

module _ (s : Store) (hole : ℕ) where
  pub Seg-append :
      (p : ℕ) (ps bs : List ℕ)
      → Seg s hole p ps
      → Seg s hole (last_or p ps) bs
      → Seg s hole p (ps ++ bs)
  Seg-append p [] bs a b = b
  Seg-append p (x ∷ ps) bs a b = (a.0, a.1, Seg-append x ps bs a.2 b)

  pub append-Seg :
      (p : ℕ) (ps bs : List ℕ)
      → Seg s hole p (ps ++ bs)
      → Seg s hole p ps × Seg s hole (last_or p ps) bs
  append-Seg p [] bs a = (tt, a)
  append-Seg p (x ∷ ps) bs a = let (l, r) = append-Seg x ps bs a.2 in ((a.0, a.1, l), r)

  -- A segment is read at the `prev` and the pending write of its nodes, and at its places.
  pub frame :
      (t : Store) (p : ℕ) (xs : List ℕ)
      → ((z : ℕ) → has z xs ≡ true → (t.prev z ≡ s.prev z) × (t.pending z ≡ s.pending z))
      → ((z : ℕ) → has z (firsts p xs) ≡ true → slot t z ≡ slot s z)
      → Seg s hole p xs
      → Seg t hole p xs
  frame t p [] node place a = tt
  frame t p (x ∷ xs) node place a = (
    ground (arith, node x),
    ground (arith, node x, place p),
    frame t x xs (λ z m. node z (ground arith)) (λ z m. place z (ground arith)) a.2,
  )

  -- A node of a segment is not unqueued.
  pub prev-ne-zero :
      (p y : ℕ) (xs : List ℕ)
      → p ≢ 0
      → All IsLink xs
      → Seg s hole p xs
      → has y xs ≡ true
      → s.prev y ≢ 0
  prev-ne-zero p y [] ne k a m = cc
  prev-ne-zero p y (x ∷ xs) ne k a m =
      ground (arith, prev-ne-zero x y xs (λ e. absurd (omega arith)) k.1 a.2)

-- The marks are no addresses of nodes.
pub not-has_of_low : (z : ℕ) (xs : List ℕ) → z < 4 → All IsLink xs → has z xs ≡ false
not-has_of_low z [] lt k = refl
not-has_of_low z (x ∷ xs) lt k = ground (arith, not-has_of_low z xs lt k.1)

-- The hole counts only where it is one of the nodes.
pub move_hole :
    (s : Store) (hole hole' p : ℕ) (xs : List ℕ)
    → ((z : ℕ) → has z xs ≡ true → (z == hole') ≡ (z == hole))
    → Seg s hole p xs
    → Seg s hole' p xs
move_hole s hole hole' p [] same a = tt
move_hole s hole hole' p (x ∷ xs) same a =
    (a.0, ground (arith, same x), move_hole s hole hole' x xs (λ z m. same z (ground arith)) a.2)
