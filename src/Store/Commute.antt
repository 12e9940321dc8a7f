-- ===== src/Store/Commute.antt =====
-- The moves of others do not read or write the `prev` of a node that is not theirs, so they commute
-- with a write to it.
use aiq.Prelude.{
  ℕ, ◌≡◌, refl, ap, fun_ext, ◌∙◌, ◌≢◌, inl, inr, true, false, none, some, Option, List, [], ◌∷◌,
  arith, Bool-cases, ◌&&◌, ◌==◌,
}
use aiq.QueueState.{QueueState}
use aiq.Store.{
  Store, Move, publish, link, swap_state, set_prev, set_slot, update, is_fresh, do_publish, do_link,
  do_move, interfere, holds_state, tail_slot,
}

module _ {S : Type 0} (q : QueueState S) (n v : ℕ) (not_null : v ≢ 0) where
  is_fresh-set_prev :
      (s : Store) (y : ℕ) → s.prev n ≢ 0 → is_fresh (set_prev n v s) y ≡ is_fresh s y
  unfolding is_fresh set_prev
  is_fresh-set_prev s y h = ground arith

  update-update :
      (f : ℕ → ℕ) (y a : ℕ)
      → (n == y) ≡ false
      → update (update f n v) y a ≡ update (update f y a) n v
  update-update f y a ne = fun_ext λ z. ground arith

  do_publish-set_prev :
      (s : Store) (y : ℕ)
      → (n == y) ≡ false
      → do_publish q y (set_prev n v s) ≡ set_prev n v (do_publish q y s)
  unfolding do_publish set_prev
  do_publish-set_prev s y ne =
      ap (λ f. record (do_publish q y s) { prev = f })
        (update-update s.prev y (tail_slot q s.tail) ne)

  do_link-set_prev :
      (s : Store) (y p : ℕ) → do_link y p (set_prev n v s) ≡ set_prev n v (do_link y p s)
  unfolding do_link set_prev set_slot
  do_link-set_prev s y p = ground arith

  fresh-ne : (s : Store) (y : ℕ) → s.prev n ≢ 0 → is_fresh s y ≡ true → (n == y) ≡ false
  unfolding is_fresh
  fresh-ne s y h e = ground arith

  prev-do_publish : (s : Store) (y : ℕ) → (n == y) ≡ false → (do_publish q y s).prev n ≡ s.prev n
  unfolding do_publish
  prev-do_publish s y ne = ground arith

  prev-do_link : (s : Store) (y p : ℕ) → (do_link y p s).prev n ≡ s.prev n
  unfolding do_link set_slot
  prev-do_link s y p = ground arith

  do_move-set_prev :
      (m : Move) (s : Store)
      → s.prev n ≢ 0
      → (do_move q m (set_prev n v s) ≡ set_prev n v (do_move q m s)) × ((do_move q m s).prev n ≢ 0)
  unfolding do_move
  do_move-set_prev (publish y) s h = elim (Bool-cases (is_fresh s y)) [
    | inl e ↦
        let ne = fresh-ne s y h e in
        rw (is_fresh-set_prev s y h, e) (do_publish-set_prev s y ne, rw (prev-do_publish s y ne) h)
    | inr e ↦ rw (is_fresh-set_prev s y h, e) (refl, h)
  ]
  do_move-set_prev (link y) s h = link_case (s.pending y) refl
    where
      link_case :
          (o : Option ℕ)
          → s.pending y ≡ o
          → (do_move q (link y) (set_prev n v s) ≡ set_prev n v (do_move q (link y) s))
            × ((do_move q (link y) s).prev n ≢ 0)
      link_case none e = unfold set_prev in rw (e, do_move) (refl, h)
      link_case (some p) e =
          unfold set_prev in rw (e, do_move) (do_link-set_prev s y p, rw (prev-do_link s y p) h)
  do_move-set_prev (swap_state w) s h =
      elim (Bool-cases (holds_state q s.tail && holds_state q w)) [
        | inl e ↦ unfold set_prev in rw e (refl, h)
        | inr e ↦ unfold set_prev in rw e (refl, h)
      ]

  pub interfere-set_prev :
      (ms : List Move) (s : Store)
      → s.prev n ≢ 0
      → (interfere q ms (set_prev n v s) ≡ set_prev n v (interfere q ms s))
        × ((interfere q ms s).prev n ≢ 0)
  unfolding interfere
  interfere-set_prev [] s h = (refl, h)
  interfere-set_prev (m ∷ ms) s h =
      let (e, k) = do_move-set_prev m s h in
      let (e', k') = interfere-set_prev ms (do_move q m s) k in (ap (interfere q ms) e ∙ e', k')
