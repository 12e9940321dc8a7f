-- ===== src/LazyBox/Boxes.antt =====
-- All callers get the same box, and no box leaks or is dropped twice.
use aiq.Prelude.{
  ℕ, ◌≡◌, ◌≢◌, sym, ◌∙◌, inl, inr, true, false, arith, has, Distinct, ◌==◌, ==→eq, Bool-cases,
}
use aiq.Store.{null}
use aiq.LazyBox.{exchanging, given, LazyBox, Reach, drop}
use aiq.LazyBox.Invariant.{IsLazyBox, Reach-IsLazyBox}

-- All threads that come back from `get_or_init` have the same box, which is not null and not freed.
pub Reach-one_box :
    (m : LazyBox) (i j p r : ℕ)
    → Reach m
    → m.caller i ≡ given p
    → m.caller j ≡ given r
    → (p ≡ r) × (p ≢ null) × (has p m.allocated ≡ true) × (has p m.freed ≡ false)
Reach-one_box m i j p r reach e e' =
    let ok = Reach-IsLazyBox reach in
    let (at, some) = ok.same i p e in
    let (at', _) = ok.same j r e' in
    let (made, kept) = ok.kept some in
    (at ∙ sym at', λ z. some (sym at ∙ z), ground arith, ground arith)

-- Where no call is at its exchange, dropping a `LazyBox` leaves all boxes that were made freed, each
-- once.
pub Reach-drop :
    (m : LazyBox)
    → Reach m
    → ((i p : ℕ) → m.caller i ≢ exchanging p)
    → Distinct (drop m).freed × ((p : ℕ) → has p (drop m).freed ≡ has p m.allocated)
unfolding drop
Reach-drop m reach idle = elim (Bool-cases (m.box == null)) [
  | inl h ↦ rw h (
    ok.once,
    λ p. elim (Bool-cases (has p m.allocated)) [
      | inl al ↦ elim (ok.held p al) [
        | inl f ↦ f ∙ sym al
        | inr (inl (_, some)) ↦ absurd (some (==→eq m.box null h))
        | inr (inr (i, e)) ↦ absurd (idle i p e)
      ]
      | inr out ↦ ground (arith, ok.made p)
    ],
  )
  | inr h ↦
      let (made, kept) = ok.kept (λ z. absurd (ground arith)) in
      rw h (
        (kept, ok.once),
        λ p. elim (Bool-cases (has p m.allocated)) [
          | inl al ↦ elim (ok.held p al) [
            | inl f ↦ ground arith
            | inr (inl (eq, _)) ↦ ground arith
            | inr (inr (i, e)) ↦ absurd (idle i p e)
          ]
          | inr out ↦ ground (arith, ok.made p)
        ],
      )
]
  where
    ok : IsLazyBox m
    ok = Reach-IsLazyBox reach
