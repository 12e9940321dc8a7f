-- ===== src/Queue/Removing.antt =====
-- `remove_with_prev` as a whole.
use mathlib.Core.List.{append_assoc, append-nil}
use aiq.Prelude.{
  ℕ, ◌≡◌, refl, sym, ap, subst, ◌∙◌, ◌≢◌, ◌⊎◌, inl, inr, false, true, Option, none, some, List, [],
  ◌∷◌, ◌++◌, arith, ◌==◌, has, last_or, last_or-append, Bool-cases, All, append-All, if◌then◌else◌,
}
use aiq.QueueState.{QueueState, IsLink}
use aiq.QueueState.Bijective.{IsBijective}
use aiq.Store.{Store, null, slot, set_slot, tail_slot, head_marker}
use aiq.Store.Shape.{IsRealTail, HoldsState, IsShape}
use aiq.Store.View.{view}
use aiq.Store.Removal.{place, take_last-IsShape}
use aiq.Store.Interference.{Evolved}
use aiq.Cmd.{pure, ◌>>=◌, ◌>>◌, World, turn, load_slot, store_slot, cas_tail}
use aiq.Cmd.Outcome.{Outcome, returns, mono, bind}
use aiq.Queue.{get_next, unlink, finish, detach, remove_with_prev}
use aiq.Queue.Waiting.{get_next-Found}
use aiq.Queue.Moments.{
  At, At-turn, At-clear, Next, Unlinked, Detached, out_of_rest, finish-Unlinked, unlink-Unlinked,
  last-tail, has_both, nil_of_append, At-evolve,
}

place-IsLink : (ps : List ℕ) → All IsLink ps → (place ps ≡ head_marker) ⊎ IsLink (place ps)
place-IsLink [] k = inl refl
place-IsLink (y ∷ ps) k = inr (last-IsLink y ps k.0 k.1)
  where
    last-IsLink : (y : ℕ) (l : List ℕ) → IsLink y → All IsLink l → IsLink (last_or y l)
    last-IsLink y [] h k = h
    last-IsLink y (z ∷ l) h k = last-IsLink z l k.0 k.1

module _ {S : Type 0} {q : QueueState S} {P : S → Type 0} (laws : IsBijective q P) (ps : List ℕ)
    (x : ℕ) (start : Store) (bs : List ℕ) where
  -- the tail that `detach` puts in place of `x`
  new-tail_slot :
      (new_tail : ℕ)
      → HoldsState q new_tail
      → All IsLink ps
      → let new = if place ps == head_marker then new_tail else q.ptr_to_tail (place ps) in
        (tail_slot q new ≡ place ps) × IsRealTail q new
  new-tail_slot new_tail (st, e) k = elim (place-IsLink ps k) [
    | inl h ↦ (ground arith, λ p f. ground arith)
    | inr h ↦
        let decoded = laws.decode_ptr (place ps) h in
        let low = h.not_low in (ground arith, λ p f. ground arith)
  ]

  -- The tail was `x`, so nothing follows.
  won-Detached :
      (new : ℕ) (w : World) (a : At laws ps x start bs x w.store)
      → bs ++ a.added ≡ []
      → (tail_slot q new ≡ place ps) × IsRealTail q new
      → Detached laws ps x start bs none (record w { store = record w.store { tail = new } })
  won-Detached new w a e new_slot =
      let nothing = nil_of_append bs a.added e in
      let rest : ps ≡ ps ++ (bs ++ []) = rw (nothing, append-nil) in
      let (out, live, _) = out_of_rest laws ps x start bs x w.store (bs ++ a.added) a.shape in
      let done =
        take_last-IsShape w.store ps x new
          (subst (λ l. IsShape q w.store x (ps ++ x ∷ l)) e a.shape) new_slot.0 new_slot.1 in
      record {
        added = [];
        ends = nothing;
        shape = subst (IsShape q (record w.store { tail = new }) null) rest done;
        out = subst (λ l. has x l ≡ false) (ap (λ l. ps ++ l) e ∙ append-nil ps ∙ rest) out;
        in_use = live;
        settled = λ z m k. a.settled z (has_both laws ps x start bs z m) k;
      }

  -- Another node was appended, and `get_next` waits for it.
  lost-Next :
      (w : World) (a : At laws ps x start bs x w.store) (y : ℕ) (cs : List ℕ)
      → bs ++ a.added ≡ y ∷ cs
      → Outcome (λ n w'. Next laws ps x start bs x n w') (get_next q x w)
  unfolding At-evolve
  lost-Next w a y cs e =
      let here : place (ps ++ x ∷ []) ≡ x = last_or-append head_marker ps (x ∷ []) in
      let seen = view w.store x ps x (bs ++ a.added) a.shape in
      let off : (y == x) ≡ false = ground (arith, seen.apart y, ap (has y) e) in
      let list : ps ++ x ∷ (bs ++ a.added) ≡ (ps ++ x ∷ []) ++ y ∷ cs =
        ap (λ l. ps ++ x ∷ l) e ∙ sym (append_assoc ps (x ∷ []) (y ∷ cs)) in
      let found =
        get_next-Found laws x (ps ++ x ∷ []) y off w cs
          (subst (IsShape q w.store x) list a.shape) in
      mono
        (subst
          (λ p.
            Outcome
              (λ n w'.
                (n ≡ y)
                × (w'.store.pending y ≡ none)
                × Evolved q w.store x ((ps ++ x ∷ []) ++ y ∷ cs) w'.store)
              (get_next q p w))
          here found)
        λ n w' (same, linked, ev).
          let ev' = subst (λ l. Evolved q w.store x l w'.store) (sym list) ev in
          record {
            at = At-evolve laws ps x start bs w.store x a w'.store ev';
            others = cs ++ ev'.added;
            follows =
                sym (append_assoc bs a.added ev'.added)
                ∙ ap (λ l. l ++ ev'.added) e
                ∙ ap (λ m. m ∷ (cs ++ ev'.added)) (sym same);
            linked = rw same linked;
          }

  detach-Detached :
      (new_tail : ℕ) (w : World)
      → HoldsState q new_tail
      → At laws ps x start bs null w.store
      → Outcome (Detached laws ps x start bs) (detach q x new_tail (place ps) w)
  unfolding detach store_slot cas_tail
  detach-Detached new_tail w empty a =
      let w1 = turn q w in
      let a1 = At-clear laws ps x start bs w1.store (At-turn laws ps x start bs w null a) in
      let v = record w1 { store = set_slot (place ps) null w1.store } in
      let a2 = At-turn laws ps x start bs v x a1 in
      let decides = last-tail laws ps x start bs x (turn q v).store _ a2.shape in
      let nodes = (append-All IsLink ps _ a.shape.links).0 in
      elim (Bool-cases ((turn q v).store.tail == q.ptr_to_tail x)) [
        | inl e ↦ rw e (
            returns
              (won-Detached _ (turn q v) a2 (decides.0 e) (new-tail_slot new_tail empty nodes)))
        | inr e ↦ rw e (lost_case (turn q v) a2 _ refl (λ none_left. cc (decides.1 none_left, e)))
      ]
    where
      lost_case :
          (w : World) (a : At laws ps x start bs x w.store) (l : List ℕ)
          → bs ++ a.added ≡ l
          → l ≢ []
          → Outcome
              (Detached laws ps x start bs)
              (◌>>=◌ (get_next q x) (λ next. pure (some next)) w)
      lost_case w a [] e ne = absurd (ne refl)
      lost_case w a (y ∷ cs) e ne =
          bind (lost-Next w a y cs e) λ n w' next. returns (x, inr refl, next)

  -- A successor that was read is linked.
  read-Next :
      (w : World) (a : At laws ps x start bs null w.store)
      → (slot w.store x == null) ≡ false
      → Next laws ps x start bs null (slot w.store x) w
  read-Next w a present = behind _ refl
    where
      behind : (l : List ℕ) → bs ++ a.added ≡ l → Next laws ps x start bs null (slot w.store x) w
      behind [] e =
          let ends : slot w.store x ≡ null =
            subst (λ k. slot w.store k ≡ null)
              (ap (λ l. last_or head_marker (ps ++ x ∷ l)) e
                ∙ last_or-append head_marker ps (x ∷ []))
              a.shape.end in
          cc (sym (ap (λ n. n == null) ends) ∙ present)
      behind (y ∷ cs) e =
          let seen =
            view w.store null ps x (y ∷ cs)
              (subst (λ l. IsShape q w.store null (ps ++ x ∷ l)) e a.shape) in
          let leads = seen.back.1 in
          let ne = seen.not_null y in
          let same : slot w.store x ≡ y = ground arith in
          record {
            at = a;
            others = cs;
            follows = e ∙ ap (λ m. m ∷ cs) (sym same);
            linked = ground arith;
          }

  finishing :
      (r : Option ℕ) (w : World)
      → Detached laws ps x start bs r w
      → Outcome
          (λ last w'. Unlinked laws ps x start bs last w' × (w'.store.prev x ≡ 1))
          ((do
            elim r [ none ↦ pure tt | some next ↦ unlink q (place ps) next ]
            finish q x
            pure (elim r [ none ↦ true | some _ ↦ false ]))
            w)
  finishing none w u = bind (finish-Unlinked laws ps x start bs true w u) λ _ w' p. returns p
  finishing (some n) w (hole, h, next) =
      bind (unlink-Unlinked laws ps x start bs hole n w h next)
        λ _ w1 u. bind (finish-Unlinked laws ps x start bs false w1 u) λ _ w2 p. returns p

  -- From a moment at which `x` is enqueued, the rest of `remove_with_prev` takes it out and marks it.
  pub take_out :
      (new_tail : ℕ) (w : World)
      → HoldsState q new_tail
      → At laws ps x start bs null w.store
      → Outcome
          (λ last w'. Unlinked laws ps x start bs last w' × (w'.store.prev x ≡ 1))
          (remove_with_prev q x new_tail false (place ps) w)
  unfolding remove_with_prev load_slot
  take_out new_tail w empty a =
      let v = turn q w in
      let a1 = At-turn laws ps x start bs w null a in
      elim (Bool-cases (slot v.store x == null)) [
        | inl e ↦ rw e (bind (detach-Detached new_tail v empty a1) finishing)
        | inr e ↦ rw e (finishing (some (slot v.store x)) v (null, inl refl, read-Next v a1 e))
      ]
