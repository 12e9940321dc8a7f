-- ===== src/Store/Moves.antt =====
-- What one move of another thread does to the shape.
use aiq.Prelude.{
  ℕ, ◌≡◌, refl, sym, ap, subst, ◌∙◌, inl, inr, true, false, none, some, List, [], ◌∷◌, ◌++◌, arith,
  has, last_or, Bool-cases, has-append, has-split, has-last_or, has-firsts, append-Distinct,
  All-append, last_or-append,
}
use aiq.QueueState.{QueueState, IsLink}
use aiq.QueueState.Bijective.{IsBijective}
use aiq.Store.{
  null, Store, slot, set_slot, is_link, is_fresh, do_publish, do_link, head_marker, tail_slot,
}
use aiq.Store.View.{View, view}
use aiq.Store.Shape.{IsRealTail, IsShape, Seg, Seg-append, frame, prev-ne-zero}

-- A node that a thread may publish: no other thread has its address.
pub record Own (s : Store) (x : ℕ) (xs : List ℕ) : Type 0 where
  pub is_node : IsLink x
  pub out : has x xs ≡ false
  pub next_null : s.next x ≡ null
  pub idle : s.pending x ≡ none

pub record Fresh (s : Store) (y : ℕ) : Type 0 where
  pub is_node : IsLink y
  pub prev : s.prev y ≡ 0
  pub next : s.next y ≡ 0
  pub idle : s.pending y ≡ none

pub is_fresh-Fresh : (s : Store) (y : ℕ) → is_fresh s y ≡ true → Fresh s y
unfolding is_fresh is_link
is_fresh-Fresh s y h = ground arith

module _ {S : Type 0} {q : QueueState S} {P : S → Type 0} (laws : IsBijective q P) (s : Store)
    (hole : ℕ) (xs : List ℕ) (shape : IsShape q s hole xs) where
  open shape use {seg, end, links, distinct, last, owned, hole_within, hole_written}

  pub Fresh-Own : (y : ℕ) → Fresh s y → Own s y xs
  Fresh-Own y f = record {
    is_node = f.is_node;
    out = elim (Bool-cases (has y xs)) [
      | inl m ↦ absurd (prev-ne-zero s hole head_marker y xs (omega arith) links seg m f.prev)
      | inr away ↦ away
    ];
    next_null = f.next;
    idle = f.idle;
  }

  pub publish-IsShape : (y : ℕ) → Own s y xs → IsShape q (do_publish q y s) hole (xs ++ y ∷ [])
  unfolding do_publish slot
  publish-IsShape y f =
      let out = f.out in
      record {
        seg =
            Seg-append (do_publish q y s) hole head_marker xs (y ∷ [])
              (frame s hole (do_publish q y s) head_marker xs (λ z m. ground arith) (λ z m. refl)
                seg)
              (ground arith, ground arith, tt);
        end = ground (arith, last_or-append head_marker xs (y ∷ []));
        links = All-append IsLink xs (y ∷ []) links (f.is_node, tt);
        distinct = append-Distinct xs (y ∷ []) distinct (refl, tt) (λ z m. ground arith);
        last = ground (arith, last_or-append head_marker xs (y ∷ []), laws.decode_ptr y f.is_node);
        hole_written = ground (arith, hole_within);
        real_tail = λ p e. ground (arith, laws.decode_ptr y f.is_node, f.is_node.not_low);
        hole_within = ground (arith, has-append hole xs (y ∷ []));
        owned = λ z away. ground (arith, owned z, has-append z xs (y ∷ []));
      }

  -- The list around a node whose enqueue is half done, and the place that is still to be written.
  pub record HalfDone (y p : ℕ) : Type 0 where
    pub before : List ℕ
    pub after : List ℕ
    pub around : xs ≡ before ++ y ∷ after
    pub place : p ≡ last_or head_marker before
    pub seen : View s hole before y after

  pub half_done : (y p : ℕ) → s.pending y ≡ some p → HalfDone y p
  half_done y p e =
      let (before, after, around) =
        has-split y xs (elim (Bool-cases (has y xs)) [ inl m ↦ m | inr out ↦ cc (owned y out) ]) in
      let seen = view s hole before y after (subst (IsShape q s hole) around shape) in
      record {
        before = before;
        after = after;
        around = around;
        place = ground (arith, seen.leads);
        seen = seen;
      }

  pub link-IsShape : (y p : ℕ) → s.pending y ≡ some p → IsShape q (do_link y p s) hole xs
  unfolding do_link slot set_slot
  link-IsShape y p e =
      let t = do_link y p s in
      record {
        seg = subst (Seg t hole head_marker) (sym around) (
            Seg-append t hole head_marker before (y ∷ after)
              (frame s hole t head_marker before (λ z m. ground (arith, apart z))
                (λ z m. ground arith) front)
              (
                ground arith,
                ground arith,
                frame s hole t y after (λ z m. ground (arith, apart z))
                    (λ z m. ground (arith, back_free z, has-firsts z y after)) back,
              ));
        end = ground (
          arith,
          ap (last_or head_marker) around,
          last_or-append head_marker before (y ∷ after),
          back_free (last_or y after),
          has-last_or y after,
        );
        links = links;
        distinct = distinct;
        last = ground arith;
        real_tail = λ p e. shape.real_tail p (ground arith);
        hole_within = hole_within;
        hole_written = ground arith;
        owned = λ z away. ground (arith, owned z);
      }
    where
      open (half_done y p e) use {
        before,
        after,
        around,
        place,
        seen.{prev_place, front, back, front_free, back_free, apart},
      }

  pub swap_state-IsShape :
      (w : ℕ)
      → tail_slot q w ≡ tail_slot q s.tail
      → IsRealTail q w
      → IsShape q (record s { tail = w }) hole xs
  unfolding slot
  swap_state-IsShape w e real = record {
    seg =
        frame s hole (record s { tail = w }) head_marker xs (λ z m. (refl, refl)) (λ z m. refl) seg;
    end = end;
    links = links;
    distinct = distinct;
    last = e ∙ last;
    real_tail = real;
    hole_within = hole_within;
    hole_written = hole_written;
    owned = owned;
  }
