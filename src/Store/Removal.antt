-- ===== src/Store/Removal.antt =====
-- What each write of a removal does to the shape: the place of the node is cleared, the tail moves
-- back or the successor takes the place, and the node is marked.
use aiq.Prelude.{
  ℕ, ◌≡◌, refl, ◌⊎◌, inl, inr, false, none, List, [], ◌∷◌, ◌++◌, arith, has, last_or, has-append,
  last_or-append, has-firsts, has-last_or, All-append, append-All, Distinct-append, append-Distinct,
}
use aiq.QueueState.{QueueState, IsLink}
use aiq.Store.{Store, slot, set_slot, set_prev, head_marker, null, tail_slot}
use aiq.Store.Shape.{IsRealTail, IsShape, Seg-append, frame, move_hole, not-has_of_low}
use aiq.Store.View.{view}

abbrev pub place : List ℕ → ℕ
place ps = last_or head_marker ps

module _ {S : Type 0} {q : QueueState S} (s : Store) (ps : List ℕ) (x : ℕ) where
  pub clear-IsShape :
      (bs : List ℕ)
      → IsShape q s null (ps ++ x ∷ bs)
      → s.pending x ≡ none
      → IsShape q (set_slot (place ps) null s) x (ps ++ x ∷ bs)
  unfolding set_slot slot
  clear-IsShape bs shape written =
      let t = set_slot (place ps) null s in
      record {
        seg =
            Seg-append t x head_marker ps (x ∷ bs)
              (move_hole t null x head_marker ps (λ z m. ground (arith, apart z, not_null z))
                (frame s null t head_marker ps (λ z m. ground arith)
                  (λ z m. ground (arith, front_free)) front))
              (
                ground (arith, prev_place),
                ground (arith, leads),
                move_hole t null x x bs (λ z m. ground (arith, apart z, not_null z))
                    (frame s null t x bs (λ z m. ground arith)
                      (λ z m. ground (arith, back_free z, has-firsts z x bs)) back),
              );
        end = ground (
          arith,
          last_or-append head_marker ps (x ∷ bs),
          back_free (last_or x bs),
          has-last_or x bs,
        );
        links = shape.links;
        distinct = shape.distinct;
        last = ground arith;
        real_tail = λ p e. shape.real_tail p (ground arith);
        hole_within = inr (ground (arith, has-append x ps (x ∷ bs)));
        hole_written = ground arith;
        owned = ground arith;
      }
    where
      open (view s null ps x bs shape) use {
        is_node, prev_place, leads, front, back, front_free, back_free, apart, not_null,
        place_not_null,
      }

  -- The tail moves back past the last node, whose place has been cleared.
  pub take_last-IsShape :
      (w : ℕ)
      → IsShape q s x (ps ++ x ∷ [])
      → tail_slot q w ≡ place ps
      → IsRealTail q w
      → IsShape q (record s { tail = w }) null ps
  unfolding slot
  take_last-IsShape w shape e real =
      let t = record s { tail = w } in
      record {
        seg =
            move_hole t x null head_marker ps (λ z m. ground (arith, apart z, not_null z))
              (frame s x t head_marker ps (λ z m. (refl, refl)) (λ z m. refl) front);
        end = ground (arith, leads, shape.hole_written);
        links = (append-All IsLink ps (x ∷ []) shape.links).0;
        distinct = (Distinct-append ps (x ∷ []) shape.distinct).0;
        last = e;
        real_tail = real;
        hole_within = inl refl;
        hole_written = shape.owned null (not-has_of_low null _ (omega arith) shape.links);
        owned =
            λ z out. ground (arith, shape.owned z, shape.hole_written, has-append z ps (x ∷ []));
      }
    where
      open (view s x ps x [] shape) use {is_node, leads, front, apart, not_null}

  -- The successor takes the place of the node.
  pub bypass-IsShape :
      (hole n : ℕ) (cs : List ℕ)
      → (hole ≡ null) ⊎ (hole ≡ x)
      → IsShape q s hole (ps ++ x ∷ n ∷ cs)
      → s.pending x ≡ none
      → s.pending n ≡ none
      → IsShape q (set_slot (place ps) n (set_prev n (place ps) s)) null (ps ++ n ∷ cs)
  unfolding slot set_slot set_prev
  bypass-IsShape hole n cs h shape wx wn =
      let t = set_slot (place ps) n (set_prev n (place ps) s) in
      let parts = Distinct-append ps (x ∷ n ∷ cs) shape.distinct in
      let nodes = append-All IsLink ps (x ∷ n ∷ cs) shape.links in
      record {
        seg =
            Seg-append t null head_marker ps (n ∷ cs)
              (move_hole t hole null head_marker ps (λ z m. ground (arith, apart z, not_null z))
                (frame s hole t head_marker ps (λ z m. ground (arith, disjoint z))
                  (λ z m. ground (arith, front_free)) front))
              (
                ground arith,
                ground (arith, not_null n),
                move_hole t hole null n cs (λ z m. ground (arith, apart z, not_null z))
                    (frame s hole t n cs (λ z m. ground (arith, parts.1.1.0))
                      (λ z m. ground (arith, back_free z, has-firsts z n cs)) back.2),
              );
        end = ground (
          arith,
          last_or-append head_marker ps (x ∷ n ∷ cs),
          last_or-append head_marker ps (n ∷ cs),
          back_free (last_or n cs),
          has-last_or n cs,
        );
        links = All-append IsLink ps (n ∷ cs) nodes.0 nodes.1.1;
        distinct = append-Distinct ps (n ∷ cs) parts.0 parts.1.1 disjoint;
        last = ground (
          arith,
          last_or-append head_marker ps (x ∷ n ∷ cs),
          last_or-append head_marker ps (n ∷ cs),
        );
        real_tail = λ p e. shape.real_tail p (ground arith);
        hole_within = inl refl;
        hole_written =
            ground (arith, shape.owned null (not-has_of_low null _ (omega arith) shape.links));
        owned = λ z out.
            ground (arith, shape.owned z, has-append z ps (n ∷ cs), has-append z ps (x ∷ n ∷ cs));
      }
    where
      open (view s hole ps x (n ∷ cs) shape) use {
        is_node, leads, front, back, front_free, back_free, apart, disjoint, not_null,
      }

-- A node outside of the list may be marked.
pub mark-IsShape :
    {S : Type 0} {q : QueueState S} (s : Store) (x v : ℕ) (xs : List ℕ)
    → has x xs ≡ false
    → IsShape q s null xs
    → IsShape q (set_prev x v s) null xs
unfolding set_prev slot
mark-IsShape s x v xs out shape = record {
  seg = frame s null (set_prev x v s) head_marker xs (λ z m. ground arith) (λ z m. refl) shape.seg;
  end = shape.end;
  links = shape.links;
  distinct = shape.distinct;
  last = shape.last;
  real_tail = shape.real_tail;
  hole_within = shape.hole_within;
  hole_written = shape.hole_written;
  owned = shape.owned;
}
