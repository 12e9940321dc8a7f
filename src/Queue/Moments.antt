-- ===== src/Queue/Moments.antt =====
-- The moments of a removal, between whose writes other threads enqueue: `x` still in the list, its
-- successor known, `x` out of it; and the writes that lead from one to the next.
use mathlib.Core.List.{append_assoc}
use aiq.Prelude.{
  ℕ, ◌≡◌, refl, sym, ap, subst, ◌∙◌, ◌≢◌, ◌⊎◌, Bool, false, true, Option, none, some, List, [], ◌∷◌,
  ◌++◌, arith, ◌==◌, has, has-append, last_or, last_or-append, Distinct-append, ◌↔◌, ==→eq,
  has-last_or,
}
use aiq.QueueState.{QueueState}
use aiq.QueueState.Bijective.{IsBijective}
use aiq.Store.{Store, Move, null, set_slot, set_prev, tail_slot, head_marker}
use aiq.Store.Shape.{IsShape}
use aiq.Store.View.{view}
use aiq.Store.Removal.{place, clear-IsShape, bypass-IsShape, mark-IsShape}
use aiq.Store.Interference.{Evolved}
use aiq.Store.Commute.{interfere-set_prev}
use aiq.Cmd.{World, turn, store_slot, store_prev}
use aiq.Cmd.Outcome.{Outcome, returns}
use aiq.Queue.{unlink, finish}
use aiq.Queue.Waiting.{turn-Evolved}

-- A write to the `prev` of a node that is in use may be made after the turn of the others.
turn-set_prev :
    {S : Type 0} (q : QueueState S) (w : World) (n v : ℕ)
    → v ≢ 0
    → w.store.prev n ≢ 0
    → turn q (record w { store = set_prev n v w.store })
      ≡ record (turn q w) { store = set_prev n v (turn q w).store }
unfolding turn
turn-set_prev q w n v not_null h = by_schedule w.schedule
  where
    by_schedule :
        (l : List (List Move))
        → turn q (record w { store = set_prev n v w.store; schedule = l })
          ≡ record (turn q (record w { schedule = l })) {
            store = set_prev n v (turn q (record w { schedule = l })).store;
          }
    by_schedule [] = refl
    by_schedule (ms ∷ rest) =
        ap (λ s. record w { store = s; schedule = rest })
          (interfere-set_prev q n v not_null ms w.store h).0

pub nil_of_append : (l l' : List ℕ) → l ++ l' ≡ [] → l ≡ []
nil_of_append [] l' e = refl
nil_of_append (y ∷ l) l' e = cc

module _ {S : Type 0} {q : QueueState S} {P : S → Type 0} (laws : IsBijective q P) (ps : List ℕ)
    (x : ℕ) (start : Store) (bs : List ℕ) where
  -- A moment of the removal at which `x` is still between `ps` and what follows.
  pub record At (hole : ℕ) (t : Store) : Type 0 where
    pub added : List ℕ
    pub shape : IsShape q t hole (ps ++ x ∷ (bs ++ added))
    pub written : t.pending x ≡ none
    pub settled :
        (z : ℕ) → has z (ps ++ x ∷ bs) ≡ true → start.pending z ≡ none → t.pending z ≡ none

  pub still_has :
      (z : ℕ) (l : List ℕ) → has z (ps ++ x ∷ bs) ≡ true → has z (ps ++ x ∷ (bs ++ l)) ≡ true
  still_has z l m =
      ground (arith, has-append z ps (x ∷ bs), has-append z ps (x ∷ (bs ++ l)), has-append z bs l)

  pub has_node : (l : List ℕ) → has x (ps ++ x ∷ (bs ++ l)) ≡ true
  has_node l = ground (arith, has-append x ps (x ∷ (bs ++ l)))

  pub regroup : (l l' : List ℕ) → (ps ++ x ∷ (bs ++ l)) ++ l' ≡ ps ++ x ∷ (bs ++ (l ++ l'))
  regroup l l' = append_assoc ps (x ∷ (bs ++ l)) l' ∙ ap (λ t. ps ++ x ∷ t) (append_assoc bs l l')

  unfoldable pub At-evolve :
      (s : Store) (hole : ℕ) (a : At hole s) (t : Store)
      → Evolved q s hole (ps ++ x ∷ (bs ++ a.added)) t
      → At hole t
  At-evolve s hole a t e = record {
    added = a.added ++ e.added;
    shape = subst (IsShape q t hole) (regroup a.added e.added) e.shape;
    written = e.settled x (has_node a.added) a.written;
    settled = λ z m k. e.settled z (still_has z a.added m) (a.settled z m k);
  }

  pub At-turn : (w : World) (hole : ℕ) → At hole w.store → At hole (turn q w).store
  unfolding At-evolve
  At-turn w hole a = At-evolve w.store hole a _ (turn-Evolved laws w hole _ a.shape)

  pub At-clear : (t : Store) → At null t → At x (set_slot (place ps) null t)
  unfolding set_slot
  At-clear t a = record {
    added = a.added;
    shape = clear-IsShape t ps x (bs ++ a.added) a.shape a.written;
    written = ground arith;
    settled = λ z m k. ground (arith, a.settled z m k);
  }

  -- The successor of `x` is known and linked.
  pub record Next (hole n : ℕ) (w : World) : Type 0 where
    pub at : At hole w.store
    pub others : List ℕ
    pub follows : bs ++ at.added ≡ n ∷ others
    pub linked : w.store.pending n ≡ none

  -- Whether nothing stood behind `x` when it was taken out.
  abbrev pub Ends : Bool → List ℕ → Type 0
  Ends true l = bs ≡ []
  Ends false l = bs ++ l ≢ []

  Ends-append : (last : Bool) (l l' : List ℕ) → Ends last l → Ends last (l ++ l')
  Ends-append true l l' h = h
  Ends-append false l l' h = λ e. h (nil_of_append (bs ++ l) l' (append_assoc bs l l' ∙ e))

  -- `x` is out of the list.
  pub record Unlinked (last : Bool) (w : World) : Type 0 where
    pub added : List ℕ
    pub ends : Ends last added
    pub shape : IsShape q w.store null (ps ++ (bs ++ added))
    pub out : has x (ps ++ (bs ++ added)) ≡ false
    pub in_use : w.store.prev x ≢ 0
    pub settled :
        (z : ℕ) → has z (ps ++ bs) ≡ true → start.pending z ≡ none → w.store.pending z ≡ none

  -- What the exchange of the tail decides.
  abbrev pub Detached : Option ℕ → World → Type 0
  Detached none w = Unlinked true w
  Detached (some n) w = (hole : ℕ) × ((hole ≡ null) ⊎ (hole ≡ x)) × Next hole n w

  pub out_of_rest :
      (hole : ℕ) (t : Store) (l : List ℕ)
      → IsShape q t hole (ps ++ x ∷ l)
      → (has x (ps ++ l) ≡ false) × (t.prev x ≢ 0) × ((x == null) ≡ false)
  out_of_rest hole t l shape =
      let seen = view t hole ps x l shape in
      let parts = Distinct-append ps (x ∷ l) shape.distinct in
      (
        ground (arith, has-append x ps l, seen.apart x),
        λ e. seen.place_not_null (sym seen.prev_place ∙ e),
        ground (arith, seen.is_node.not_low),
      )

  regroup_out : (l l' : List ℕ) → (ps ++ (bs ++ l)) ++ l' ≡ ps ++ (bs ++ (l ++ l'))
  regroup_out l l' = append_assoc ps (bs ++ l) l' ∙ ap (λ t. ps ++ t) (append_assoc bs l l')

  still_has_out : (z : ℕ) (l : List ℕ) → has z (ps ++ bs) ≡ true → has z (ps ++ (bs ++ l)) ≡ true
  still_has_out z l m =
      ground (arith, has-append z ps bs, has-append z ps (bs ++ l), has-append z bs l)

  pub finish-Unlinked :
      (last : Bool) (w : World)
      → Unlinked last w
      → Outcome (λ _ w'. Unlinked last w' × (w'.store.prev x ≡ 1)) (finish q x w)
  unfolding finish store_prev set_prev
  finish-Unlinked last w u =
      let e = turn-Evolved laws w null _ u.shape in
      let (away, live) = e.outside x u.out u.in_use in
      let out : has x (ps ++ (bs ++ (u.added ++ e.added))) ≡ false =
        subst (λ l. has x l ≡ false) (regroup_out u.added e.added) away in
      returns (
        record {
          added = u.added ++ e.added;
          ends = Ends-append last u.added e.added u.ends;
          shape =
              mark-IsShape _ x 1 _ out
                (subst (IsShape q _ null) (regroup_out u.added e.added) e.shape);
          out = out;
          in_use = ground arith;
          settled = λ z m k. e.settled z (still_has_out z u.added m) (u.settled z m k);
        },
        ground arith,
      )

  pub Next-IsShape :
      (hole n : ℕ) (w : World) (next : Next hole n w)
      → IsShape q w.store hole (ps ++ x ∷ n ∷ next.others)
  Next-IsShape hole n w next =
      subst (λ l. IsShape q w.store hole (ps ++ x ∷ l)) next.follows next.at.shape

  pub Next-turn : (hole n : ℕ) (w : World) → Next hole n w → Next hole n (turn q w)
  unfolding At-turn
  Next-turn hole n w next =
      let e = turn-Evolved laws w hole _ next.at.shape in
      record {
        at = At-turn w hole next.at;
        others = next.others ++ e.added;
        follows = sym (append_assoc bs next.at.added e.added) ∙ ap (λ l. l ++ e.added) next.follows;
        linked =
            e.settled n
              (ground (arith, has-append n ps (x ∷ (bs ++ next.at.added)), ap (has n) next.follows))
              next.linked;
      }

  Next-in_use : (hole n : ℕ) (w : World) → Next hole n w → w.store.prev n ≢ 0
  Next-in_use hole n w next e =
      let seen = view w.store hole ps x (n ∷ next.others) (Next-IsShape hole n w next) in
      ground (arith, seen.back.0, seen.is_node.not_low)

  pub has_both : (z : ℕ) → has z (ps ++ bs) ≡ true → has z (ps ++ x ∷ bs) ≡ true
  has_both z m = ground (arith, has-append z ps bs, has-append z ps (x ∷ bs))

  pub unlink-Unlinked :
      (hole n : ℕ) (w : World)
      → (hole ≡ null) ⊎ (hole ≡ x)
      → Next hole n w
      → Outcome (λ _. Unlinked false) (unlink q (place ps) n w)
  unfolding unlink store_prev store_slot set_slot set_prev
  unlink-Unlinked hole n w h next =
      let w1 = turn q w in
      let w2 = turn q w1 in
      let next1 = Next-turn hole n w next in
      let next2 = Next-turn hole n w1 next1 in
      let seen = view w2.store hole ps x _ next2.at.shape in
      let at_end =
        bypass-IsShape w2.store ps x hole n next2.others h (Next-IsShape hole n w2 next2)
          next2.at.written next2.linked in
      let u = set_slot (place ps) n (set_prev n (place ps) w2.store) in
      let (out, live, _) = out_of_rest hole w2.store _ next2.at.shape in
      let not_null = seen.place_not_null in
      let ins = Next-in_use hole n w1 next1 in
      rw (turn-set_prev q w1 n (place ps) seen.place_not_null ins) (
        returns (record {
          added = next2.at.added;
          ends = λ none_left. ground (arith, next2.follows);
          shape = subst (λ l. IsShape q u null (ps ++ l)) (sym next2.follows) at_end;
          out = out;
          in_use = ground arith;
          settled = λ z m k. ground (arith, next2.at.settled z (has_both z m) k);
        }))

  -- The exchange of the tail succeeds exactly if `x` is still the last node.
  pub last-tail :
      (hole : ℕ) (t : Store) (l : List ℕ)
      → IsShape q t hole (ps ++ x ∷ l)
      → ((t.tail == q.ptr_to_tail x) ≡ true) ↔ (l ≡ [])
  last-tail hole t l shape =
      (only_last l shape, λ e. is_last (subst (λ k. IsShape q t hole (ps ++ x ∷ k)) e shape))
    where
      only_last :
          (k : List ℕ)
          → IsShape q t hole (ps ++ x ∷ k)
          → (t.tail == q.ptr_to_tail x) ≡ true
          → k ≡ []
      only_last [] shape e = refl
      only_last (y ∷ cs) shape e =
          let seen = view t hole ps x (y ∷ cs) shape in
          let tail_is : t.tail ≡ q.ptr_to_tail x = ==→eq _ _ e in
          let found : tail_slot q t.tail ≡ x = ground (arith, laws.decode_ptr x seen.is_node) in
          let ends : last_or y cs ≡ x =
            sym (last_or-append head_marker ps (x ∷ y ∷ cs)) ∙ sym shape.last ∙ found in
          absurd (ground (arith, seen.apart (last_or y cs), has-last_or y cs))

      is_last : IsShape q t hole (ps ++ x ∷ []) → (t.tail == q.ptr_to_tail x) ≡ true
      is_last shape =
          let seen = view t hole ps x [] shape in
          let ends : tail_slot q t.tail ≡ x = shape.last ∙ last_or-append head_marker ps (x ∷ []) in
          ground (arith, seen.is_node.not_low, laws.encode_ptr t.tail x)
