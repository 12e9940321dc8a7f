-- ===== src/Drain/Draining.antt =====
-- A queue that is being drained, and that the moves of other threads keep it so.
use aiq.Prelude.{
  ℕ, ◌≡◌, refl, sym, ap, subst, fun_ext, ◌∙◌, ◌≢◌, inl, inr, true, false, none, some, Option, List,
  [], ◌∷◌, ◌++◌, arith, Bool-cases, ◌&&◌, ◌==◌, has, Distinct, All, has-last_or, has-append,
  has-firsts,
}
use aiq.QueueState.{QueueState, IsLink}
use aiq.QueueState.Bijective.{IsBijective}
use aiq.Store.{
  Store, Move, publish, link, swap_state, null, slot, set_slot, is_fresh, do_publish, do_link,
  do_move, interfere, holds_state, head_marker,
}
use aiq.Store.Shape.{IsShape, frame, not-has_of_low}
use aiq.Store.Moves.{half_done}
use aiq.Store.Interference.{do_move-Evolved}
use aiq.Drain.Chain.{mask, agree, Chain, Seg-place, link-Seg}

-- The nodes `gone` have been dropped, `held` are being dropped, `ds` are left to the drain, and `xs` are
-- in the queue.
pub record IsDraining {S : Type 0} (q : QueueState S) (gone held ds xs : List ℕ) (s : Store)
    : Type 0 where
  pub queue : IsShape q (mask ds s) null xs
  pub chain : Chain s ds
  pub links : All IsLink ds
  pub distinct : Distinct ds
  pub apart : (z : ℕ) → has z ds ≡ true → has z xs ≡ false
  pub in_use : (z : ℕ) → has z ds ≡ true → s.prev z ≢ 0
  pub marked :
      (z : ℕ) → has z gone ≡ true → (s.prev z ≡ 1) × (has z ds ≡ false) × (has z xs ≡ false)
  pub unmarked :
      (z : ℕ)
      → has z held ≡ true
      → (s.prev z ≢ 0) × (has z ds ≡ false) × (has z xs ≡ false) × (has z gone ≡ false)

module _ {S : Type 0} {q : QueueState S} {P : S → Type 0} (laws : IsBijective q P)
    (gone held ds xs : List ℕ) (s : Store) (d : IsDraining q gone held ds xs s) where
  open d use {queue, chain, links, distinct, apart, in_use, marked, unmarked}

  is_fresh-mask : (y : ℕ) → is_fresh (mask ds s) y ≡ is_fresh s y
  unfolding is_fresh
  is_fresh-mask y = ground (arith, in_use y)

  pub fresh_out : (y : ℕ) → is_fresh s y ≡ true → has y ds ≡ false
  unfolding is_fresh
  fresh_out y e = ground (arith, in_use y)

  do_publish-mask :
      (y : ℕ) → has y ds ≡ false → mask ds (do_publish q y s) ≡ do_publish q y (mask ds s)
  unfolding do_publish
  do_publish-mask y out =
      ap (λ f. record (do_publish q y (mask ds s)) { pending = f }) (fun_ext λ z. ground arith)

  -- A node of the chain waits for a write at a place of the chain, one of the queue at a place of the
  -- queue.
  pub Chain-place : (y p : ℕ) → has y ds ≡ true → s.pending y ≡ some p → has p ds ≡ true
  Chain-place y p m e = by_list ds refl
    where
      by_list : (l : List ℕ) → ds ≡ l → has p ds ≡ true
      by_list [] same = cc
      by_list (x ∷ rest) same =
          let c : Chain s (x ∷ rest) = subst (Chain s) same chain in
          let m' : has y (x ∷ rest) ≡ true = subst (λ l. has y l ≡ true) same m in
          let at = Seg-place s x p y rest c.1 (ground arith) e in
          subst (λ l. has p l ≡ true) (sym same) (has-firsts p x rest at)

  pub queue_place : (y p : ℕ) → has y ds ≡ false → s.pending y ≡ some p → has p ds ≡ false
  queue_place y p out e =
      let h = half_done laws (mask ds s) null xs queue y p (ground arith) in
      elim (Bool-cases (has p ds)) [
        | inl m ↦ absurd (
            ground (
              arith,
              h.place,
              ap (has p) h.around,
              has-append p h.before (y ∷ h.after),
              has-last_or head_marker h.before,
              apart p,
              not-has_of_low head_marker ds (omega arith) links,
            ))
        | inr off ↦ off
      ]

  do_link-mask :
      (y p : ℕ)
      → has y ds ≡ false
      → s.pending y ≡ some p
      → mask ds (do_link y p s) ≡ do_link y p (mask ds s)
  unfolding do_link set_slot
  do_link-mask y p out e =
      let off = queue_place y p out e in
      elim (Bool-cases (p == head_marker)) [
        | inl h ↦ rw h (agree (record s { head = y }) _ _ _ _ (λ z. refl) (λ z. ground arith))
        | inr h ↦ rw h (agree s _ _ _ _ (λ z. ground arith) (λ z. ground arith))
      ]

  do_link-mask_chain :
      (y p : ℕ) → has y ds ≡ true → s.pending y ≡ some p → mask ds (do_link y p s) ≡ mask ds s
  unfolding do_link set_slot
  do_link-mask_chain y p m e =
      let at = Chain-place y p m e in
      let low : (p == head_marker) ≡ false =
        ground (arith, not-has_of_low head_marker ds (omega arith) links) in
      rw low (agree s _ _ _ _ (λ z. ground arith) (λ z. ground arith))

  abbrev link_move : ℕ → Option ℕ → Store → Store
  link_move y o t = elim o [ none ↦ t | some p ↦ do_link y p t ]

  do_move-mask : (m : Move) → mask ds (do_move q m s) ≡ do_move q m (mask ds s)
  unfolding do_move
  do_move-mask (publish y) = elim (Bool-cases (is_fresh s y)) [
    | inl e ↦ rw (is_fresh-mask y, e) (do_publish-mask y (fresh_out y e))
    | inr e ↦ rw (is_fresh-mask y, e) refl
  ]
  do_move-mask (link y) = by_pending (s.pending y) refl
    where
      by_pending :
          (o : Option ℕ)
          → s.pending y ≡ o
          → mask ds (do_move q (link y) s) ≡ do_move q (link y) (mask ds s)
      by_pending none e =
          let e' : (mask ds s).pending y ≡ none = ground arith in
          ap (λ o. mask ds (link_move y o s)) e ∙ sym (ap (λ o. link_move y o (mask ds s)) e')
      by_pending (some p) e = elim (Bool-cases (has y ds)) [
        | inl m ↦
            let e' : (mask ds s).pending y ≡ none = ground arith in
            ap (λ o. mask ds (link_move y o s)) e
            ∙ do_link-mask_chain y p m e
            ∙ sym (ap (λ o. link_move y o (mask ds s)) e')
        | inr out ↦
            let e' : (mask ds s).pending y ≡ some p = ground arith in
            ap (λ o. mask ds (link_move y o s)) e
            ∙ do_link-mask y p out e
            ∙ sym (ap (λ o. link_move y o (mask ds s)) e')
      ]
  do_move-mask (swap_state w) = elim (Bool-cases (holds_state q s.tail && holds_state q w)) [
    | inl e ↦ rw e refl
    | inr e ↦ rw e refl
  ]

  -- The chain is read at its nodes only.
  keep-Chain :
      (t : Store)
      → ((z : ℕ) → has z ds ≡ true → (t.prev z ≡ s.prev z) × (t.pending z ≡ s.pending z))
      → ((z : ℕ) → has z ds ≡ true → t.next z ≡ s.next z)
      → Chain t ds
  unfolding slot
  keep-Chain t node next = by_list ds chain links node next
    where
      by_list :
          (l : List ℕ)
          → Chain s l
          → All IsLink l
          → ((z : ℕ) → has z l ≡ true → (t.prev z ≡ s.prev z) × (t.pending z ≡ s.pending z))
          → ((z : ℕ) → has z l ≡ true → t.next z ≡ s.next z)
          → Chain t l
      by_list [] c k node next = tt
      by_list (x ∷ rest) c k node next = (
        (node x (ground arith)).1 ∙ c.0,
        frame s null t x rest (λ z m. node z (ground arith))
            (λ z m. ground (
              arith,
              next z (has-firsts z x rest m),
              has-firsts z x rest m,
              not-has_of_low head_marker (x ∷ rest) (omega arith) k,
            ))
            c.1,
      )

  link-Chain : (y p : ℕ) → has y ds ≡ true → s.pending y ≡ some p → Chain (do_link y p s) ds
  unfolding do_link set_slot
  link-Chain y p m e = by_list ds chain links distinct m
    where
      by_list :
          (l : List ℕ)
          → Chain s l
          → All IsLink l
          → Distinct l
          → has y l ≡ true
          → Chain (do_link y p s) l
      by_list [] c k d m = cc
      by_list (x ∷ rest) c k d m =
          (ground (arith, c.0), link-Seg s x p y rest d k c.1 (ground (arith, c.0)) e)

  publish-Chain : (y : ℕ) → has y ds ≡ false → Chain (do_publish q y s) ds
  unfolding do_publish
  publish-Chain y out =
      keep-Chain (do_publish q y s) (λ z m. (ground arith, ground arith)) (λ z m. refl)

  apart-Chain : (y p : ℕ) → has y ds ≡ false → s.pending y ≡ some p → Chain (do_link y p s) ds
  unfolding do_link set_slot
  apart-Chain y p out e =
      let off = queue_place y p out e in
      keep-Chain (do_link y p s) (λ z m. (ground arith, ground arith)) (λ z m. ground arith)

  -- What a move leaves of the chain.
  Chain-do_move : (m : Move) → Chain (do_move q m s) ds
  unfolding do_move
  Chain-do_move (publish y) = elim (Bool-cases (is_fresh s y)) [
    | inl e ↦ rw e (publish-Chain y (fresh_out y e))
    | inr e ↦ rw e chain
  ]
  Chain-do_move (link y) = by_pending (s.pending y) refl
    where
      by_pending : (o : Option ℕ) → s.pending y ≡ o → Chain (do_move q (link y) s) ds
      by_pending none e = subst (λ o. Chain (link_move y o s) ds) (sym e) chain
      by_pending (some p) e =
          subst (λ o. Chain (link_move y o s) ds) (sym e)
            (elim (Bool-cases (has y ds)) [
              | inl m ↦ link-Chain y p m e
              | inr out ↦ apart-Chain y p out e
            ])
  Chain-do_move (swap_state w) = elim (Bool-cases (holds_state q s.tail && holds_state q w)) [
    | inl e ↦ rw e (keep-Chain (record s { tail = w }) (λ z m. (refl, refl)) (λ z m. refl))
    | inr e ↦ rw e chain
  ]

  pub do_move-IsDraining : (m : Move) → (ys : List ℕ) × IsDraining q gone held ds ys (do_move q m s)
  do_move-IsDraining m =
      let e = do_move-Evolved laws m (mask ds s) null xs queue in
      let same = do_move-mask m in
      (
        xs ++ e.added,
        record {
          queue = subst (λ t. IsShape q t null (xs ++ e.added)) (sym same) e.shape;
          chain = Chain-do_move m;
          links = links;
          distinct = distinct;
          apart = λ z i. (e.outside z (apart z i) (in_use z i)).0;
          in_use = λ z i h.
              in_use z i
                (sym (e.outside z (apart z i) (in_use z i)).1 ∙ sym (ap (λ t. t.prev z) same) ∙ h);
          marked = λ z i.
              let (at, out, off) = marked z i in
              let (off', kept) = e.outside z off (λ h. absurd (omega (arith, at, h))) in
              (ap (λ t. t.prev z) same ∙ kept ∙ at, out, off');
          unmarked = λ z i.
              let (live, out, off, still) = unmarked z i in
              let (off', kept) = e.outside z off live in
              (λ h. live (sym kept ∙ sym (ap (λ t. t.prev z) same) ∙ h), out, off', still);
        },
      )

pub interfere-IsDraining :
    {S : Type 0} {q : QueueState S} {P : S → Type 0} (laws : IsBijective q P)
    (gone held ds xs : List ℕ) (ms : List Move) (s : Store)
    → IsDraining q gone held ds xs s
    → (ys : List ℕ) × IsDraining q gone held ds ys (interfere q ms s)
unfolding interfere
interfere-IsDraining laws gone held ds xs [] s d = (xs, d)
interfere-IsDraining {q = q} laws gone held ds xs (m ∷ ms) s d =
    let (ys, d') = do_move-IsDraining laws gone held ds xs s d m in
    interfere-IsDraining laws gone held ds ys ms (do_move q m s) d'
