-- ===== src/Drain/Relinking.antt =====
-- What the writes of a removal make of the ring of a drain.
use aiq.Prelude.{
  first_or, ℕ, ◌≡◌, refl, sym, subst, ◌∙◌, ◌≢◌, inl, inr, true, false, none, List, [], ◌∷◌, ◌++◌,
  arith, Bool-cases, ◌==◌, has, last_or, has-last_or, has-firsts, has-firsts_last, has-append,
  last_or-append, Distinct, Distinct-append, append-Distinct, All, All-append, append-All, ◌||◌,
}
use aiq.QueueState.{QueueState, IsLink}
use aiq.Store.{Store, null, slot, set_slot, set_prev, update, head_marker}
use aiq.Store.Shape.{IsShape, Seg, Seg-append, append-Seg, frame, not-has_of_low}
use aiq.Store.Removal.{mark-IsShape}
use aiq.Drain.Chain.{mask, agree}
use aiq.Drain.Dropping.{reframe-IsShape}
use aiq.Drain.Releasing.{IsRing, Linked}

-- The ring, seen from one of its nodes.
pub record RingView (sentinel_node : ℕ) (ps : List ℕ) (x : ℕ) (bs : List ℕ) (s : Store)
    : Type 0 where
  pub prev_place : s.prev x ≡ last_or sentinel_node ps
  pub front : Seg s null sentinel_node ps
  pub back : Seg s null x bs
  pub distinct_front : Distinct (sentinel_node ∷ ps)
  pub distinct_back : Distinct bs
  pub own_out : has sentinel_node ps || has sentinel_node (x ∷ bs) ≡ false
  pub apart : (z : ℕ) → has z ps ≡ true → has z (x ∷ bs) ≡ false
  pub x_out : has x bs ≡ false
  pub place_out : has (last_or sentinel_node ps) (x ∷ bs) ≡ false
  pub place_high : (last_or sentinel_node ps == head_marker) ≡ false
  pub place_link : last_or sentinel_node ps ≢ 0

pub has-first_or : (d : ℕ) (xs : List ℕ) → has (first_or d xs) (d ∷ xs) ≡ true
has-first_or d [] = ground arith
has-first_or d (x ∷ xs) = ground arith

-- The store with the node `x` bypassed and marked.
abbrev bypassing : (place following x : ℕ) → Store → Store
bypassing place following x s = record s {
  prev = update (update s.prev following place) x 1;
  next = update s.next place following;
}

module _ (sentinel_node : ℕ) (ps : List ℕ) (x : ℕ) (s : Store) where
  abbrev place : ℕ
  place = last_or sentinel_node ps

  abbrev after : List ℕ → Store
  after bs = bypassing place (first_or sentinel_node bs) x s

  front-Seg :
      (bs : List ℕ) → RingView sentinel_node ps x bs s → Seg (after bs) null sentinel_node ps
  unfolding slot
  front-Seg bs v =
      frame s null (after bs) sentinel_node ps
        (λ z m. (ground (arith, v.apart z, v.own_out, has-first_or sentinel_node bs), refl))
        (λ z m. ground (arith, has-firsts_last sentinel_node ps v.distinct_front)) v.front

  back-Seg :
      (bs : List ℕ)
      → RingView sentinel_node ps x bs s
      → Linked s bs
      → All IsLink bs
      → Seg (after bs) null place bs
  unfolding slot
  back-Seg [] v linked k = tt
  back-Seg (y ∷ l) v linked k = (
    ground (arith, v.x_out),
    ground (arith, linked, k.0.not_low, v.place_high),
    frame s null (after (y ∷ l)) y l (λ z m. (ground (arith, v.x_out, v.distinct_back.0), refl))
        (λ z m. ground (arith, v.place_out, has-firsts z y l)) v.back.2,
  )

  after-ends :
      (bs : List ℕ)
      → RingView sentinel_node ps x bs s
      → s.prev sentinel_node ≡ last_or sentinel_node (ps ++ x ∷ bs)
      → (after bs).prev sentinel_node ≡ last_or sentinel_node (ps ++ bs)
  after-ends [] v e = ground (arith, v.own_out, last_or-append sentinel_node ps [])
  after-ends (y ∷ l) v e = ground (
    arith,
    v.own_out,
    e,
    last_or-append sentinel_node ps (x ∷ y ∷ l),
    last_or-append sentinel_node ps (y ∷ l),
  )

  after-closes :
      (bs : List ℕ)
      → RingView sentinel_node ps x bs s
      → slot s (last_or sentinel_node (ps ++ x ∷ bs)) ≡ sentinel_node
      → slot (after bs) (last_or sentinel_node (ps ++ bs)) ≡ sentinel_node
  unfolding slot
  after-closes [] v e = ground (arith, v.place_high, last_or-append sentinel_node ps [])
  after-closes (y ∷ l) v e = ground (
    arith,
    v.place_out,
    has-last_or y l,
    e,
    last_or-append sentinel_node ps (x ∷ y ∷ l),
    last_or-append sentinel_node ps (y ∷ l),
  )

module _ {S : Type 0} {q : QueueState S} (sentinel_node : ℕ) (gone ps : List ℕ) (x : ℕ)
    (bs xs : List ℕ) (s : Store) (r : IsRing q sentinel_node gone (ps ++ x ∷ bs) xs s) where
  pub ring_view : RingView sentinel_node ps x bs s
  ring_view =
      let cut = append-Seg s null sentinel_node ps (x ∷ bs) r.draining.chain.1 in
      let (df, db, apart) = Distinct-append ps (x ∷ bs) r.draining.distinct.1 in
      let own = r.draining.distinct.0 in
      let (lf, lb) = append-All IsLink ps (x ∷ bs) r.draining.links.1 in
      let own_out : has sentinel_node ps || has sentinel_node (x ∷ bs) ≡ false =
        sym (has-append sentinel_node ps (x ∷ bs)) ∙ own in
      let low =
        not-has_of_low head_marker (sentinel_node ∷ ps) (omega arith) (r.draining.links.0, lf) in
      let zero = not-has_of_low 0 (sentinel_node ∷ ps) (omega arith) (r.draining.links.0, lf) in
      record {
        prev_place = cut.1.0;
        front = cut.0;
        back = cut.1.2;
        distinct_front = (ground arith, df);
        distinct_back = db.1;
        own_out = own_out;
        apart = apart;
        x_out = db.0;
        place_out = ground (arith, has-last_or sentinel_node ps, apart (last_or sentinel_node ps));
        place_high = ground (arith, has-last_or sentinel_node ps);
        place_link = λ e. absurd (ground (arith, has-last_or sentinel_node ps));
      }

  abbrev following : ℕ
  following = first_or sentinel_node bs

  -- The neighbours of `x` are linked to each other, and it is marked.
  abbrev pub bypassed : Store
  bypassed = set_prev x 1 (
      set_slot (last_or sentinel_node ps) following
        (set_prev following (last_or sentinel_node ps) s))

  abbrev written : Store
  written = bypassing (last_or sentinel_node ps) following x s

  bypassed-written : bypassed ≡ written
  unfolding set_prev set_slot
  bypassed-written = rw ring_view.place_high refl

  written-IsShape : s.pending x ≡ none → IsShape q (mask (sentinel_node ∷ ps ++ bs) written) null xs
  unfolding set_prev
  written-IsShape idle =
      let v = ring_view in
      let base = mask (sentinel_node ∷ ps ++ x ∷ bs) s in
      let out = r.draining.apart in
      let x_in : has x (sentinel_node ∷ ps ++ x ∷ bs) ≡ true =
        ground (arith, has-append x ps (x ∷ bs)) in
      let next_in : has following (sentinel_node ∷ ps ++ x ∷ bs) ≡ true =
        ground (arith, has-append following ps (x ∷ bs), has-first_or sentinel_node bs) in
      let x_link = (append-All IsLink ps (x ∷ bs) r.draining.links.1).1.0 in
      subst (λ t. IsShape q t null xs)
        (agree (record s { prev = written.prev }) _ _ _ _
          (λ z. ground (
            arith,
            has-append z ps (x ∷ bs),
            has-append z ps bs,
            has-last_or sentinel_node ps,
            v.own_out,
            v.apart x,
            v.x_out,
            has-append (last_or sentinel_node ps) ps bs,
          ))
          (λ z. ground (arith, has-append z ps (x ∷ bs), has-append z ps bs, idle)))
        (reframe-IsShape (set_prev x 1 (set_prev following (last_or sentinel_node ps) base)) x
          (written.next x) xs (out x x_in) (λ e. absurd (omega (arith, e, x_link.not_low)))
          (mark-IsShape (set_prev following (last_or sentinel_node ps) base) x 1 xs (out x x_in) (
            mark-IsShape base following (last_or sentinel_node ps) xs (out following next_in)
              r.draining.queue)))

  after-Linked : Linked s bs → Linked s (ps ++ bs)
  after-Linked next = by_list ps r.linked
    where
      by_list : (l : List ℕ) → Linked s (l ++ x ∷ bs) → Linked s (l ++ bs)
      by_list [] first = next
      by_list (y ∷ l) first = first

  same-Linked : (l : List ℕ) → Linked s l → Linked written l
  same-Linked [] k = tt
  same-Linked (y ∷ l) k = k

  written-IsRing :
      s.pending x ≡ none → Linked s bs → IsRing q sentinel_node (x ∷ gone) (ps ++ bs) xs written
  written-IsRing idle next =
      let v = ring_view in
      let (lf, lb) = append-All IsLink ps (x ∷ bs) r.draining.links.1 in
      let d = r.draining in
      let front = front-Seg sentinel_node ps x s bs v in
      let back = back-Seg sentinel_node ps x s bs v next lb.1 in
      record {
        draining = record {
          queue = written-IsShape idle;
          chain = (d.chain.0, Seg-append written null sentinel_node ps bs front back);
          links = (d.links.0, All-append IsLink ps bs lf lb.1);
          distinct = (
            ground (arith, v.own_out, has-append sentinel_node ps bs),
            append-Distinct ps bs v.distinct_front.1 v.distinct_back
                (λ z m. ground (arith, v.apart z)),
          );
          apart = λ z m. d.apart z (ground (arith, has-append z ps (x ∷ bs), has-append z ps bs));
          in_use = λ z m.
              ground
                (arith, v.place_link, d.in_use z, has-append z ps (x ∷ bs), has-append z ps bs);
          marked = λ z m. elim (Bool-cases (z == x)) [
            | inl h ↦ (
              ground arith,
              ground (arith, v.apart z, v.x_out, v.own_out, has-append z ps bs),
              d.apart z (ground (arith, has-append z ps (x ∷ bs))),
            )
            | inr h ↦
                let (at, out, off) = d.marked z (ground arith) in
                (
                  ground (arith, at, out, has-append z ps (x ∷ bs), has-first_or sentinel_node bs),
                  ground (arith, out, has-append z ps (x ∷ bs), has-append z ps bs),
                  off,
                )
          ];
          unmarked = λ z m. cc;
        };
        ends = after-ends sentinel_node ps x s bs v r.ends;
        closes = after-closes sentinel_node ps x s bs v r.closes;
        linked = same-Linked (ps ++ bs) (after-Linked next);
      }

  -- With `x` bypassed and marked, the ring is one of the other nodes.
  pub bypassed-IsRing :
      s.pending x ≡ none → Linked s bs → IsRing q sentinel_node (x ∷ gone) (ps ++ bs) xs bypassed
  bypassed-IsRing idle next =
      subst (IsRing q sentinel_node (x ∷ gone) (ps ++ bs) xs) (sym bypassed-written)
        (written-IsRing idle next)
