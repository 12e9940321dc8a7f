-- ===== src/Drain/Ring.antt =====
-- The ring of a drain that released the lock: the sentinel, at the address `σ`, and the nodes that are left,
-- each linked to the next one and the last one to the sentinel.
use aiq.Prelude.{
  ℕ, ◌≡◌, refl, sym, subst, ◌∙◌, inl, inr, true, false, none, some, List, [], ◌∷◌, arith,
  Bool-cases, Option-cases, ◌==◌, has, last_or, firsts, has-last_or, has-firsts_last, ◌&&◌,
}
use aiq.QueueState.{QueueState}
use aiq.QueueState.Bijective.{IsBijective}
use aiq.Store.{
  Store, Move, publish, link, swap_state, slot, set_slot, is_fresh, do_publish, do_link, do_move,
  interfere, holds_state, head_marker,
}
use aiq.Store.Shape.{not-has_of_low}
use aiq.Cmd.{World, turn}
use aiq.Drain.Chain.{Seg-place}
use aiq.Drain.Draining.{IsDraining, do_move-IsDraining, queue_place, fresh_out}

-- What the moves of others leave of the nodes `x ∷ rest` of a drain: their `prev`, the links that were
-- made, and the `next` of the last one.
pub record Kept (x : ℕ) (rest : List ℕ) (s t : Store) : Type 0 where
  pub same_prev : (z : ℕ) → has z (x ∷ rest) ≡ true → t.prev z ≡ s.prev z
  pub linked : (z : ℕ) → has z (x ∷ rest) ≡ true → s.pending z ≡ none → t.pending z ≡ none
  pub same_end : slot t (last_or x rest) ≡ slot s (last_or x rest)

Kept-refl : (x : ℕ) (rest : List ℕ) (s : Store) → Kept x rest s s
Kept-refl x rest s = record { same_prev = λ z m. refl; linked = λ z m e. e; same_end = refl }

Kept-trans :
    (x : ℕ) (rest : List ℕ) (s t u : Store) → Kept x rest s t → Kept x rest t u → Kept x rest s u
Kept-trans x rest s t u k k' = record {
  same_prev = λ z m. k'.same_prev z m ∙ k.same_prev z m;
  linked = λ z m e. k'.linked z m (k.linked z m e);
  same_end = k'.same_end ∙ k.same_end;
}

module _ {S : Type 0} {q : QueueState S} {P : S → Type 0} (laws : IsBijective q P)
    (gone held : List ℕ) (x : ℕ) (rest xs : List ℕ) (s : Store)
    (d : IsDraining q gone held (x ∷ rest) xs s) where
  -- A write that is still to be made is not at the last node.
  not_end : (y p : ℕ) → s.pending y ≡ some p → (last_or x rest == p) ≡ false
  not_end y p e = elim (Bool-cases (has y (x ∷ rest))) [
    | inl m ↦
        let at : has p (firsts x rest) ≡ true =
          Seg-place s x p y rest d.chain.1 (ground (arith, d.chain.0)) e in
        ground (arith, has-firsts_last x rest d.distinct)
    | inr out ↦
        let off = queue_place laws gone held (x ∷ rest) xs s d y p out e in
        ground (arith, has-last_or x rest)
  ]

  do_link-Kept : (y p : ℕ) → s.pending y ≡ some p → Kept x rest s (do_link y p s)
  unfolding do_link set_slot slot
  do_link-Kept y p e =
      let off = not_end y p e in
      let low : (last_or x rest == head_marker) ≡ false =
        ground (
          arith,
          has-last_or x rest,
          not-has_of_low head_marker (x ∷ rest) (omega arith) d.links,
        ) in
      record {
        same_prev = λ z m. ground arith;
        linked = λ z m e'. ground arith;
        same_end = ground arith;
      }

  do_publish-Kept : (y : ℕ) → has y (x ∷ rest) ≡ false → Kept x rest s (do_publish q y s)
  unfolding do_publish slot
  do_publish-Kept y out = record {
    same_prev = λ z m. ground arith;
    linked = λ z m e. ground arith;
    same_end = refl;
  }

  do_move-Kept : (m : Move) → Kept x rest s (do_move q m s)
  unfolding do_move
  do_move-Kept (publish y) = elim (Bool-cases (is_fresh s y)) [
    | inl e ↦ rw e (do_publish-Kept y (fresh_out laws gone held (x ∷ rest) xs s d y e))
    | inr e ↦ rw e (Kept-refl x rest s)
  ]
  do_move-Kept (link y) = elim (Option-cases (s.pending y)) [
    | inl e ↦
        subst (λ o. Kept x rest s (elim o [ none ↦ s | some p ↦ do_link y p s ])) (sym e)
          (Kept-refl x rest s)
    | inr (p, e) ↦
        subst (λ o. Kept x rest s (elim o [ none ↦ s | some p ↦ do_link y p s ])) (sym e)
          (do_link-Kept y p e)
  ]
  do_move-Kept (swap_state w) = elim (Bool-cases (holds_state q s.tail && holds_state q w)) [
    | inl e ↦
        rw e
          (record { same_prev = λ z m. refl; linked = λ z m e. e; same_end = unfold slot in refl })
    | inr e ↦ rw e (Kept-refl x rest s)
  ]

-- A queue that is being drained after moves of others.
pub record Later {S : Type 0} (q : QueueState S) (gone held : List ℕ) (x : ℕ) (rest : List ℕ)
    (s t : Store) : Type 0 where
  pub queued_now : List ℕ
  pub draining : IsDraining q gone held (x ∷ rest) queued_now t
  pub kept : Kept x rest s t

module _ {S : Type 0} {q : QueueState S} {P : S → Type 0} (laws : IsBijective q P)
    (gone held : List ℕ) (x : ℕ) (rest : List ℕ) where
  pub interfere-Later :
      (ms : List Move) (xs : List ℕ) (s : Store)
      → IsDraining q gone held (x ∷ rest) xs s
      → Later q gone held x rest s (interfere q ms s)
  unfolding interfere
  interfere-Later [] xs s d = record { queued_now = xs; draining = d; kept = Kept-refl x rest s }
  interfere-Later (m ∷ ms) xs s d =
      let (ys, d') = do_move-IsDraining laws gone held (x ∷ rest) xs s d m in
      let more = interfere-Later ms ys (do_move q m s) d' in
      record {
        queued_now = more.queued_now;
        draining = more.draining;
        kept =
            Kept-trans x rest s (do_move q m s) _ (do_move-Kept laws gone held x rest xs s d m)
              more.kept;
      }

  pub turn-Later :
      (xs : List ℕ) (w : World)
      → IsDraining q gone held (x ∷ rest) xs w.store
      → Later q gone held x rest w.store (turn q w).store
  unfolding turn
  turn-Later xs w d = by_schedule w.schedule
    where
      by_schedule :
          (l : List (List Move))
          → Later q gone held x rest w.store (turn q (record w { schedule = l })).store
      by_schedule [] = record { queued_now = xs; draining = d; kept = Kept-refl x rest w.store }
      by_schedule (ms ∷ later) = interfere-Later ms xs w.store d
