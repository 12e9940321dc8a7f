-- ===== src/Drain/Releasing.antt =====
-- A drain that releases the lock closes the ring, and finds it again when it takes the lock.
use aiq.Prelude.{
  ℕ, ◌≡◌, refl, sym, ap, subst, ◌∙◌, ◌≢◌, inl, inr, true, false, none, List, [], ◌∷◌, ◌++◌,
  has-append, arith, Bool-cases, ◌==◌, has, last_or, has-last_or, has-firsts, has-firsts_last,
}
use aiq.QueueState.{QueueState, IsLink}
use aiq.Store.{Store, null, slot, set_slot, set_prev, update, head_marker}
use aiq.Store.Shape.{IsShape, frame, not-has_of_low}
use aiq.Store.Removal.{mark-IsShape}
use aiq.Drain.Chain.{mask, agree}
use aiq.Drain.Draining.{IsDraining}
use aiq.Drain.Dropping.{reframe-IsShape}

-- The first node is linked.
abbrev pub Linked : Store → List ℕ → Type 0
Linked s [] = Unit
Linked s (x ∷ rest) = s.pending x ≡ none

-- The nodes `ds` are in a ring with the sentinel.
pub record IsRing {S : Type 0} (q : QueueState S) (sentinel_node : ℕ) (gone ds xs : List ℕ)
    (s : Store) : Type 0 where
  pub draining : IsDraining q gone [] (sentinel_node ∷ ds) xs s
  pub ends : s.prev sentinel_node ≡ last_or sentinel_node ds
  pub closes : slot s (last_or sentinel_node ds) ≡ sentinel_node
  pub linked : Linked s ds

module _ {S : Type 0} {q : QueueState S} (gone held : List ℕ) (x : ℕ) (rest xs : List ℕ)
    (s : Store) where
  pub write_prev-IsDraining :
      (v : ℕ)
      → v ≢ 0
      → IsDraining q gone held (x ∷ rest) xs s
      → has x held ≡ false
      → IsDraining q gone held (x ∷ rest) xs (set_prev x v s)
  unfolding set_prev slot
  write_prev-IsDraining v ne d new = record {
    queue = mark-IsShape (mask (x ∷ rest) s) x v xs (d.apart x (ground arith)) d.queue;
    chain = (
      d.chain.0,
      frame s null (set_prev x v s) x rest (λ z m. (ground (arith, d.distinct.0), refl))
          (λ z m. refl) d.chain.1,
    );
    links = d.links;
    distinct = d.distinct;
    apart = d.apart;
    in_use = λ z m. ground (arith, d.in_use z);
    marked = λ z m. let (at, out, off) = d.marked z m in (ground arith, out, off);
    unmarked =
        λ z m. let (live, out, off, still) = d.unmarked z m in (ground arith, out, off, still);
  }

  pub write_end-IsDraining :
      (v : ℕ)
      → IsDraining q gone held (x ∷ rest) xs s
      → IsDraining q gone held (x ∷ rest) xs (set_slot (last_or x rest) v s)
  unfolding set_slot slot
  write_end-IsDraining v d =
      let low : (last_or x rest == head_marker) ≡ false =
        ground (
          arith,
          has-last_or x rest,
          not-has_of_low head_marker (x ∷ rest) (omega arith) d.links,
        ) in
      let same : mask (x ∷ rest) (set_slot (last_or x rest) v s) ≡ mask (x ∷ rest) s =
        rw low (agree s _ _ _ _ (λ z. ground (arith, has-last_or x rest)) (λ z. refl)) in
      record {
        queue = subst (λ t. IsShape q t null xs) (sym same) d.queue;
        chain = rw low (
          d.chain.0,
          frame s null (record s { next = update s.next (last_or x rest) v }) x rest
              (λ z m. (refl, refl)) (λ z m. ground (arith, has-firsts_last x rest d.distinct))
              d.chain.1,
        );
        links = d.links;
        distinct = d.distinct;
        apart = d.apart;
        in_use = λ z m. rw low (d.in_use z m);
        marked = λ z m. rw low (d.marked z m);
        unmarked = λ z m. rw low (d.unmarked z m);
      }

-- The address of the sentinel is no node that is left or queued.
pub hold_sentinel :
    {S : Type 0} {q : QueueState S} (sentinel_node : ℕ) (ds xs : List ℕ) (s : Store)
    → IsDraining q [] [] ds xs s
    → s.prev sentinel_node ≢ 0
    → has sentinel_node (ds ++ xs) ≡ false
    → IsDraining q [] (sentinel_node ∷ []) ds xs s
hold_sentinel sentinel_node ds xs s d live out = record {
  queue = d.queue;
  chain = d.chain;
  links = d.links;
  distinct = d.distinct;
  apart = d.apart;
  in_use = d.in_use;
  marked = d.marked;
  unmarked = λ z m.
      let same : z ≡ sentinel_node = ground arith in
      (
        λ e. live (ap s.prev (sym same) ∙ e),
        ground (arith, has-append z ds xs),
        ground (arith, has-append z ds xs),
        refl,
      );
}

-- The store with the sentinel of a drain of `x ∷ rest`.
abbrev shared : ℕ → ℕ → List ℕ → Store → Store
shared sentinel_node x rest s = record s {
  next = update s.next sentinel_node x;
  prev = update s.prev sentinel_node (last_or x rest);
}

module _ {S : Type 0} {q : QueueState S} (sentinel_node : ℕ) (is_node : IsLink sentinel_node)
    (gone : List ℕ) (x : ℕ) (rest xs : List ℕ) (s : Store) where
  -- The sentinel as it is shared closes the ring.
  pub share-IsRing :
      IsDraining q gone (sentinel_node ∷ []) (x ∷ rest) xs s
      → s.prev x ≡ sentinel_node
      → slot s (last_or x rest) ≡ sentinel_node
      → IsRing q sentinel_node gone (x ∷ rest) xs (shared sentinel_node x rest s)
  unfolding slot set_prev
  share-IsRing d first closes =
      let (live, out, off, still) = d.unmarked sentinel_node (ground arith) in
      let idle : s.pending sentinel_node ≡ none = ground (arith, d.queue.owned sentinel_node off) in
      let base = mask (x ∷ rest) s in
      let end_node : has (last_or x rest) (x ∷ rest) ≡ true = has-last_or x rest in
      let end_low : (last_or x rest == head_marker) ≡ false =
        ground (arith, not-has_of_low head_marker (x ∷ rest) (omega arith) d.links) in
      let own_low : (sentinel_node == head_marker) ≡ false = ground (arith, is_node.not_low) in
      record {
        draining = record {
          queue =
              subst (λ t. IsShape q t null xs)
                (agree (record s { prev = update s.prev sentinel_node (last_or x rest) }) _ _ _ _
                  (λ z. ground arith) (λ z. ground arith))
                (reframe-IsShape (set_prev sentinel_node (last_or x rest) base) sentinel_node null
                  xs off (λ e. absurd (omega (arith, is_node.not_low)))
                  (mark-IsShape base sentinel_node (last_or x rest) xs off d.queue));
          chain = (
            idle,
            (
              ground arith,
              ground (arith, d.chain.0, d.links.0.not_low),
              frame s null (shared sentinel_node x rest s) x rest (λ z m. (ground arith, refl))
                  (λ z m. ground (arith, has-firsts z x rest)) d.chain.1,
            ),
          );
          links = (is_node, d.links);
          distinct = (out, d.distinct);
          apart = λ z m. ground (arith, d.apart z);
          in_use = λ z m. elim (Bool-cases (z == sentinel_node)) [
            | inl h ↦
                rw h
                  (λ e. absurd (ground (arith, not-has_of_low 0 (x ∷ rest) (omega arith) d.links)))
            | inr h ↦ rw h (d.in_use z (ground arith))
          ];
          marked = λ z m. let (at, out', off') = d.marked z m in (ground arith, ground arith, off');
          unmarked = λ z m. cc;
        };
        ends = ground arith;
        closes = ground arith;
        linked = d.chain.0;
      }
