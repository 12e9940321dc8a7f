-- ===== src/Drain/Dropping.antt =====
-- The drop of a drained node: its successor is awaited, and the node is marked.
use aiq.Prelude.{
  ℕ, ◌≡◌, refl, subst, ◌∙◌, ◌≢◌, ◌⊎◌, inl, inr, true, false, none, some, List, [], ◌∷◌, arith,
  Bool-cases, Option-cases, ◌==◌, has, last_or, has-last_or, has-firsts,
}
use aiq.QueueState.{QueueState}
use aiq.QueueState.Bijective.{IsBijective}
use aiq.Store.{Store, update, Move, null, slot, set_prev, head_marker, interfere}
use aiq.Store.Shape.{IsShape, frame}
use aiq.Store.Removal.{mark-IsShape}
use aiq.Cmd.{World, turn, load_slot}
use aiq.Cmd.Outcome.{Outcome, returns, waits}
use aiq.Queue.{wait_loop, wait_for_next, get_next}
use aiq.Drain.Chain.{mask, agree, Chain}
use aiq.Drain.Draining.{IsDraining, interfere-IsDraining}

-- The shape is read at its nodes and at the head.
pub reframe-IsShape :
    {S : Type 0} {q : QueueState S} (s : Store) (x v : ℕ) (xs : List ℕ)
    → has x xs ≡ false
    → x ≢ head_marker
    → IsShape q s null xs
    → IsShape q (record s { next = update s.next x v }) null xs
unfolding slot
reframe-IsShape s x v xs out off shape =
    let t = record s { next = update s.next x v } in
    let at : (z : ℕ) → has z (head_marker ∷ xs) ≡ true → slot t z ≡ slot s z =
      λ z m. ground arith in
    record {
      seg =
          frame s null t head_marker xs (λ z m. (refl, refl))
            (λ z m. at z (has-firsts z head_marker xs m)) shape.seg;
      end = at (last_or head_marker xs) (has-last_or head_marker xs) ∙ shape.end;
      links = shape.links;
      distinct = shape.distinct;
      last = shape.last;
      real_tail = shape.real_tail;
      hole_within = shape.hole_within;
      hole_written = shape.hole_written;
      owned = shape.owned;
    }

module _ {S : Type 0} {q : QueueState S} (s : Store) (gone held : List ℕ) (x : ℕ)
    (rest xs : List ℕ) where
  unmask :
      IsDraining q gone held (x ∷ rest) xs s
      → record (mask (x ∷ rest) s) { next = update (mask (x ∷ rest) s).next x (s.next x) }
        ≡ mask rest s
  unmask d =
      let out = d.distinct.0 in
      let linked = d.chain.0 in agree s _ _ _ _ (λ z. ground arith) (λ z. ground arith)

  -- The first node of the chain is held, once the second one is linked.
  pub hold-IsDraining :
      IsDraining q gone held (x ∷ rest) xs s → Chain s rest → IsDraining q gone (x ∷ held) rest xs s
  hold-IsDraining d next = record {
    queue =
        subst (λ t. IsShape q t null xs) (unmask d)
          (reframe-IsShape (mask (x ∷ rest) s) x (s.next x) xs (d.apart x (ground arith))
            (λ e. absurd (omega (arith, e, d.links.0.not_low))) d.queue);
    chain = next;
    links = d.links.1;
    distinct = d.distinct.1;
    apart = λ z m. d.apart z (ground arith);
    in_use = λ z m. d.in_use z (ground arith);
    marked = λ z m. let (at, out, off) = d.marked z m in (at, ground arith, off);
    unmarked = λ z m. elim (Bool-cases (z == x)) [
      | inl h ↦ (
        d.in_use z (ground arith),
        ground (arith, d.distinct.0),
        d.apart z (ground arith),
        elim (Bool-cases (has z gone)) [
          | inl g ↦ absurd (ground (arith, (d.marked z g).1))
          | inr o ↦ o
        ],
      )
      | inr h ↦
          let (live, out, off, still) = d.unmarked z (ground arith) in
          (live, ground arith, off, still)
    ];
  }

  -- The node that is held is marked.
  pub mark-IsDraining :
      has x held ≡ false
      → IsDraining q gone (x ∷ held) rest xs s
      → IsDraining q (x ∷ gone) held rest xs (set_prev x 1 s)
  unfolding set_prev slot
  mark-IsDraining new d =
      let (live, out, off, still) = d.unmarked x (ground arith) in
      record {
        queue = mark-IsShape (mask rest s) x 1 xs off d.queue;
        chain = by_list rest d.chain out;
        links = d.links;
        distinct = d.distinct;
        apart = d.apart;
        in_use = λ z m. ground (arith, d.in_use z);
        marked = λ z m. elim (Bool-cases (z == x)) [
          | inl h ↦ (rw h refl, ground arith, ground arith)
          | inr h ↦ let (at, out', off') = d.marked z (ground arith) in (rw h at, out', off')
        ];
        unmarked = λ z m.
            let (live', out', off', still') = d.unmarked z (ground arith) in
            (ground arith, out', off', ground arith);
      }
    where
      by_list : (l : List ℕ) → Chain s l → has x l ≡ false → Chain (set_prev x 1 s) l
      by_list [] c o = tt
      by_list (y ∷ l) c o =
          (c.0, frame s null (set_prev x 1 s) y l (λ z m. (ground arith, refl)) (λ z m. refl) c.1)

module _ {S : Type 0} {q : QueueState S} {P : S → Type 0} (laws : IsBijective q P)
    (gone held : List ℕ) (x y : ℕ) (rest : List ℕ) where
  -- The place after the first node leads to the second, or that is still to be linked.
  next_at :
      (s : Store) (xs : List ℕ)
      → IsDraining q gone held (x ∷ y ∷ rest) xs s
      → ((slot s x ≡ y) × (s.pending y ≡ none) × ((slot s x == null) ≡ false))
        ⊎ ((slot s x ≡ null) × (s.pending y ≡ some x))
  next_at s xs d =
      let leads = d.chain.1.1 in
      let off : y ≢ 0 = λ e. absurd (omega (arith, e, d.links.1.0.not_low)) in
      elim (Option-cases (s.pending y)) [
        | inl e ↦ inl (ground arith)
        | inr (r, e) ↦ inr (ground arith)
      ]

  abbrev pub Next : ℕ → World → Type 0
  Next n w =
      (n ≡ y)
      × (w.store.pending y ≡ none)
      × ((ys : List ℕ) × IsDraining q gone held (x ∷ y ∷ rest) ys w.store)

  wait_loop-Next :
      (w : World) (schedule : List (List Move)) (s : Store) (xs : List ℕ)
      → IsDraining q gone held (x ∷ y ∷ rest) xs s
      → Outcome Next (wait_loop q x w schedule s)
  unfolding wait_loop
  wait_loop-Next w [] s xs d = elim (next_at s xs d) [
    | inl (e, done, ne) ↦ rw ne (returns (e, done, (xs, d)))
    | inr (e, half) ↦ rw e (waits y x half refl)
  ]
  wait_loop-Next w (ms ∷ later) s xs d =
      let (ys, d') = interfere-IsDraining laws gone held (x ∷ y ∷ rest) xs ms s d in
      let t = interfere q ms s in
      let rec = wait_loop-Next w later t ys d' in
      elim (next_at t ys d') [
        | inl (e, done, ne) ↦ rw ne (returns (e, done, (ys, d')))
        | inr (e, half) ↦ rw e rec
      ]

pub turn-IsDraining :
    {S : Type 0} {q : QueueState S} {P : S → Type 0} (laws : IsBijective q P)
    (gone held ds xs : List ℕ) (w : World)
    → IsDraining q gone held ds xs w.store
    → (ys : List ℕ) × IsDraining q gone held ds ys (turn q w).store
unfolding turn
turn-IsDraining {q = q} laws gone held ds xs w d = by_schedule w.schedule
  where
    by_schedule :
        (l : List (List Move))
        → (ys : List ℕ) × IsDraining q gone held ds ys (turn q (record w { schedule = l })).store
    by_schedule [] = (xs, d)
    by_schedule (ms ∷ rest) = interfere-IsDraining laws gone held ds xs ms w.store d

pub get_next-Next :
    {S : Type 0} {q : QueueState S} {P : S → Type 0} (laws : IsBijective q P) (gone held : List ℕ)
    (x y : ℕ) (rest xs : List ℕ) (w : World)
    → IsDraining q gone held (x ∷ y ∷ rest) xs w.store
    → Outcome (Next {q = q} laws gone held x y rest) (get_next q x w)
unfolding get_next load_slot wait_for_next
get_next-Next {q = q} laws gone held x y rest xs w d =
    let (ys, d') = turn-IsDraining laws gone held (x ∷ y ∷ rest) xs w d in
    let t = turn q w in
    elim (next_at laws gone held x y rest t.store ys d') [
      | inl (e, done, ne) ↦ rw ne (returns (e, done, (ys, d')))
      | inr (e, half) ↦ rw e (wait_loop-Next laws gone held x y rest t t.schedule t.store ys d')
    ]
