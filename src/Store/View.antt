-- ===== src/Store/View.antt =====
-- A shape seen from one of its nodes: the segments before and behind it, and what keeps their places
-- apart.
use aiq.Prelude.{
  ℕ, ◌≡◌, ◌≢◌, true, false, List, ◌∷◌, ◌++◌, arith, ◌==◌, ◌||◌, has, last_or, firsts, has-last_or,
  has-firsts_last, Distinct-append, append-All,
}
use aiq.QueueState.{QueueState, IsLink}
use aiq.Store.{Store, head_marker}
use aiq.Store.Shape.{IsShape, Leads, Seg, append-Seg, not-has_of_low}

pub record View (s : Store) (hole : ℕ) (ps : List ℕ) (x : ℕ) (bs : List ℕ) : Type 0 where
  pub is_node : IsLink x
  pub prev_place : s.prev x ≡ last_or head_marker ps
  pub leads : Leads s hole (last_or head_marker ps) x
  pub front : Seg s hole head_marker ps
  pub back : Seg s hole x bs
  pub front_free : has (last_or head_marker ps) (firsts head_marker ps) ≡ false
  pub back_free : (z : ℕ) → has z (x ∷ bs) ≡ true → (z == last_or head_marker ps) ≡ false
  pub apart : (z : ℕ) → has z ps || has z bs ≡ true → (z == x) ≡ false
  pub disjoint : (z : ℕ) → has z ps ≡ true → has z bs ≡ false
  pub not_null : (z : ℕ) → has z ps || has z bs ≡ true → z ≢ 0
  pub place_not_null : last_or head_marker ps ≢ 0

pub view :
    {S : Type 0} {q : QueueState S} (s : Store) (hole : ℕ) (ps : List ℕ) (x : ℕ) (bs : List ℕ)
    → IsShape q s hole (ps ++ x ∷ bs)
    → View s hole ps x bs
view s hole ps x bs shape =
    let cut = append-Seg s hole head_marker ps (x ∷ bs) shape.seg in
    let (da, db, apart) = Distinct-append ps (x ∷ bs) shape.distinct in
    let (la, lb) = append-All IsLink ps (x ∷ bs) shape.links in
    let low = not-has_of_low 2 ps (omega arith) la in
    record {
      is_node = lb.0;
      prev_place = cut.1.0;
      leads = cut.1.1;
      front = cut.0;
      back = cut.1.2;
      front_free = has-firsts_last head_marker ps (low, da);
      back_free = λ z m. ground (
        arith,
        apart (last_or head_marker ps),
        has-last_or head_marker ps,
        not-has_of_low 2 (x ∷ bs) (omega arith) lb,
      );
      apart = λ z m. ground (arith, apart z);
      disjoint = λ z m. ground (arith, apart z);
      not_null = λ z m e.
          ground (
            arith,
            not-has_of_low 0 ps (omega arith) la,
            not-has_of_low 0 (x ∷ bs) (omega arith) lb,
          );
      place_not_null =
          λ e. ground (arith, has-last_or head_marker ps, not-has_of_low 0 ps (omega arith) la);
    }
