-- ===== src/LazyBox/Invariant.antt =====
-- What holds of a `LazyBox` in every reachable state.
use aiq.Prelude.{
  ℕ, ◌≡◌, ◌≢◌, ◌⊎◌, refl, sym, ap, ◌∙◌, inl, inr, true, false, ◌∷◌, arith, has, Distinct, ◌==◌,
  ==→eq, Bool-cases,
}
use aiq.Store.{update, null}
use aiq.LazyBox.{
  Caller, loading, allocating, exchanging, given, LazyBox, goes, new, Step, call, load_box,
  load_null, allocate, exchange_won, exchange_lost, Reach, start, later,
}

pub record IsLazyBox (m : LazyBox) : Type 0 where
  pub same : (i p : ℕ) → m.caller i ≡ given p → (p ≡ m.box) × (m.box ≢ null)
  pub kept : m.box ≢ null → (has m.box m.allocated ≡ true) × (has m.box m.freed ≡ false)
  pub own :
      (i p : ℕ)
      → m.caller i ≡ exchanging p
      → (has p m.allocated ≡ true) × (has p m.freed ≡ false) × (p ≢ m.box) × (p ≢ null)
  pub apart : (i j p : ℕ) → m.caller i ≡ exchanging p → m.caller j ≡ exchanging p → i ≡ j
  pub once : Distinct m.freed
  pub made : (p : ℕ) → has p m.freed ≡ true → has p m.allocated ≡ true
  pub held :
      (p : ℕ)
      → has p m.allocated ≡ true
      → (has p m.freed ≡ true)
        ⊎ (((p ≡ m.box) × (m.box ≢ null)) ⊎ ((i : ℕ) × (m.caller i ≡ exchanging p)))

new-IsLazyBox : IsLazyBox new
unfolding new
new-IsLazyBox = record {
  same = λ i p e. cc;
  kept = λ ne. absurd (ne refl);
  own = λ i p e. cc;
  apart = λ i j p e e'. cc;
  once = tt;
  made = λ p e. cc;
  held = λ p e. cc;
}

module _ (m : LazyBox) (i : ℕ) (ok : IsLazyBox m) where
  -- Where a thread stands after a step of `i`.
  stands :
      (c : Caller) (j : ℕ) (d : Caller)
      → update m.caller i c j ≡ d
      → ((j ≡ i) × (c ≡ d)) ⊎ (((j == i) ≡ false) × (m.caller j ≡ d))
  stands c j d e = elim (Bool-cases (j == i)) [
    | inl h ↦ inl (==→eq j i h, sym (rw h refl) ∙ e)
    | inr h ↦ inr (h, sym (rw h refl) ∙ e)
  ]

  stays :
      (c : Caller) (j : ℕ) (d : Caller)
      → m.caller j ≡ d
      → m.caller i ≢ d
      → update m.caller i c j ≡ d
  stays c j d h before = elim (Bool-cases (j == i)) [
    | inl e ↦ absurd (before (ap m.caller (sym (==→eq j i e)) ∙ h))
    | inr e ↦ rw e h
  ]

  -- A step of `i` that holds no box of its own before or after.
  goes-IsLazyBox :
      (c : Caller)
      → ((p : ℕ) → m.caller i ≢ exchanging p)
      → ((p : ℕ) → c ≢ exchanging p)
      → ((p : ℕ) → c ≡ given p → (p ≡ m.box) × (m.box ≢ null))
      → IsLazyBox (goes i c m)
  goes-IsLazyBox c before after gives = record {
    same = λ j p e. elim (stands c j (given p) e) [
      | inl (_, h) ↦ gives p h
      | inr (_, h) ↦ ok.same j p h
    ];
    kept = ok.kept;
    own = λ j p e. ok.own j p (was j p e);
    apart = λ j k p e e'. ok.apart j k p (was j p e) (was k p e');
    once = ok.once;
    made = ok.made;
    held = λ p e. elim (ok.held p e) [
      | inl f ↦ inl f
      | inr (inl b) ↦ inr (inl b)
      | inr (inr (j, h)) ↦ inr (inr (j, stays c j (exchanging p) h (before p)))
    ];
  }
    where
      was : (j p : ℕ) → update m.caller i c j ≡ exchanging p → m.caller j ≡ exchanging p
      was j p e = elim (stands c j (exchanging p) e) [
        | inl (_, h) ↦ absurd (after p h)
        | inr (_, h) ↦ h
      ]

  allocate-IsLazyBox :
      (p : ℕ)
      → m.caller i ≡ allocating
      → p ≢ null
      → has p m.allocated ≡ false
      → IsLazyBox
          (record m { caller = update m.caller i (exchanging p); allocated = p ∷ m.allocated })
  allocate-IsLazyBox p at ne fresh = record {
    same = λ j r e. elim (stands (exchanging p) j (given r) e) [
      | inl (_, h) ↦ cc
      | inr (_, h) ↦ ok.same j r h
    ];
    kept = λ some. let (al, ke) = ok.kept some in (ground arith, ke);
    own = λ j r e. elim (stands (exchanging p) j (exchanging r) e) [
      | inl (_, h) ↦
          let eq : p ≡ r = cc in
          (
            ground arith,
            ground (arith, ok.made r),
            λ b. elim (Bool-cases (m.box == null)) [
              | inl z ↦ ne (eq ∙ b ∙ ==→eq m.box null z)
              | inr some ↦ absurd (ground (arith, ok.kept))
            ],
            λ z. ne (eq ∙ z),
          )
      | inr (_, h) ↦ let (al, fr, nb, nn) = ok.own j r h in (ground arith, fr, nb, nn)
    ];
    apart = λ j k r e e'. elim (stands (exchanging p) j (exchanging r) e) [
      | inl (at_i, h) ↦ elim (stands (exchanging p) k (exchanging r) e') [
        | inl (at_i', h') ↦ at_i ∙ sym at_i'
        | inr (_, h') ↦ absurd (unmade r (ok.own k r h').0 h)
      ]
      | inr (_, h) ↦ elim (stands (exchanging p) k (exchanging r) e') [
        | inl (_, h') ↦ absurd (unmade r (ok.own j r h).0 h')
        | inr (_, h') ↦ ok.apart j k r h h'
      ]
    ];
    once = ok.once;
    made = λ r e. ground (arith, ok.made r);
    held = λ r e. elim (Bool-cases (r == p)) [
      | inl h ↦ inr (inr (i, ground (arith, ==→eq r p h)))
      | inr h ↦ elim (ok.held r (ground arith)) [
        | inl f ↦ inl f
        | inr (inl b) ↦ inr (inl b)
        | inr (inr (j, h')) ↦ inr (inr (j, stays (exchanging p) j (exchanging r) h' (λ e. cc)))
      ]
    ];
  }
    where
      unmade : (r : ℕ) → has r m.allocated ≡ true → exchanging p ≢ exchanging r
      unmade r al h = let eq : p ≡ r = cc in ground arith

  -- Another thread that is at the exchange has another box.
  other_box :
      (p j r : ℕ) → m.caller i ≡ exchanging p → (j == i) ≡ false → m.caller j ≡ exchanging r → r ≢ p
  other_box p j r at off h eq = ground (arith, ok.apart j i r h (at ∙ ap exchanging (sym eq)))

  won-IsLazyBox :
      (p : ℕ)
      → m.caller i ≡ exchanging p
      → m.box ≡ null
      → IsLazyBox (record m { box = p; caller = update m.caller i (given p) })
  won-IsLazyBox p at none_yet =
      let (al, fr, nb, nn) = ok.own i p at in
      record {
        same = λ j r e. elim (stands (given p) j (given r) e) [
          | inl (_, h) ↦ (cc, nn)
          | inr (_, h) ↦ absurd ((ok.same j r h).1 none_yet)
        ];
        kept = λ some. (al, fr);
        own = λ j r e. elim (stands (given p) j (exchanging r) e) [
          | inl (_, h) ↦ cc
          | inr (off, h) ↦
              let (al', fr', nb', nn') = ok.own j r h in (al', fr', other_box p j r at off h, nn')
        ];
        apart = λ j k r e e'. elim (stands (given p) j (exchanging r) e) [
          | inl (_, h) ↦ cc
          | inr (_, h) ↦ elim (stands (given p) k (exchanging r) e') [
            | inl (_, h') ↦ cc
            | inr (_, h') ↦ ok.apart j k r h h'
          ]
        ];
        once = ok.once;
        made = ok.made;
        held = λ r e. elim (ok.held r e) [
          | inl f ↦ inl f
          | inr (inl (_, some)) ↦ absurd (some none_yet)
          | inr (inr (j, h)) ↦ elim (Bool-cases (r == p)) [
            | inl eq ↦ inr (inl (==→eq r p eq, nn))
            | inr ne ↦ inr (
                inr (
                  j,
                  stays (given p) j (exchanging r) h (λ e. let eq : r ≡ p = cc in ground arith),
                ))
          ]
        ];
      }

  lost-IsLazyBox :
      (p : ℕ)
      → m.caller i ≡ exchanging p
      → m.box ≢ null
      → IsLazyBox (record m { caller = update m.caller i (given m.box); freed = p ∷ m.freed })
  lost-IsLazyBox p at some =
      let (al, fr, nb, nn) = ok.own i p at in
      record {
        same = λ j r e. elim (stands (given m.box) j (given r) e) [
          | inl (_, h) ↦ (cc, some)
          | inr (_, h) ↦ ok.same j r h
        ];
        kept = λ _. let (al', ke) = ok.kept some in (al', ground arith);
        own = λ j r e. elim (stands (given m.box) j (exchanging r) e) [
          | inl (_, h) ↦ cc
          | inr (off, h) ↦
              let (al', fr', nb', nn') = ok.own j r h in
              (al', ground (arith, other_box p j r at off h), nb', nn')
        ];
        apart = λ j k r e e'. elim (stands (given m.box) j (exchanging r) e) [
          | inl (_, h) ↦ cc
          | inr (_, h) ↦ elim (stands (given m.box) k (exchanging r) e') [
            | inl (_, h') ↦ cc
            | inr (_, h') ↦ ok.apart j k r h h'
          ]
        ];
        once = (fr, ok.once);
        made = λ r e. ground (arith, ok.made r);
        held = λ r e. elim (ok.held r e) [
          | inl f ↦ inl (ground arith)
          | inr (inl b) ↦ inr (inl b)
          | inr (inr (j, h)) ↦ elim (Bool-cases (r == p)) [
            | inl eq ↦ inl (ground arith)
            | inr ne ↦ inr (
                inr (
                  j,
                  stays (given m.box) j (exchanging r) h (λ e. let eq : r ≡ p = cc in ground arith),
                ))
          ]
        ];
      }

Step-IsLazyBox : {m u : LazyBox} → Step m u → IsLazyBox m → IsLazyBox u
Step-IsLazyBox {m} (call i at) ok =
    goes-IsLazyBox m i ok loading (λ p e. cc) (λ p e. cc) (λ p e. cc)
Step-IsLazyBox {m} (load_box i at some) ok =
    goes-IsLazyBox m i ok (given m.box) (λ p e. cc) (λ p e. cc) (λ p e. (cc, some))
Step-IsLazyBox {m} (load_null i at none_yet) ok =
    goes-IsLazyBox m i ok allocating (λ p e. cc) (λ p e. cc) (λ p e. cc)
Step-IsLazyBox {m} (allocate i p at ne fresh) ok = allocate-IsLazyBox m i ok p at ne fresh
Step-IsLazyBox {m} (exchange_won i p at none_yet) ok = won-IsLazyBox m i ok p at none_yet
Step-IsLazyBox {m} (exchange_lost i p at some) ok = lost-IsLazyBox m i ok p at some

pub Reach-IsLazyBox : {m : LazyBox} → Reach m → IsLazyBox m
Reach-IsLazyBox start = new-IsLazyBox
Reach-IsLazyBox (later r s) = Step-IsLazyBox s (Reach-IsLazyBox r)
