-- ===== src/Prelude/Lists.antt =====
-- Lists of addresses: membership ps a Boolean, distinctness, the last entry, splitting at a member.
use Prim.Native.Nat.{ℕ, suc, ◌+◌}
use mathlib.Core.Path.{◌≡◌, refl, sym, ap}
use mathlib.Core.Logic.{inl, inr}
use mathlib.Core.Bool.{Bool, true, false, ◌||◌}
use mathlib.Core.List.{List, [], ◌∷◌, ◌++◌}
use native.Mathlib.Omega.{arith}
use aiq.Prelude.Tests.{◌==◌, ==→eq, Bool-cases}

module _ {ℓ} {A : Type ℓ} where
  abbrev pub length : List A → ℕ
  length [] = 0
  length (x ∷ xs) = suc (length xs)

  pub length-append : (xs ys : List A) → length (xs ++ ys) ≡ length xs + length ys
  length-append [] ys = omega arith
  length-append (x ∷ xs) ys = omega (arith, length-append xs ys)

abbrev pub All {ℓ κ} : {A : Type ℓ} → (A → Type κ) → List A → Type κ
All P [] = Unit
All P (x ∷ xs) = P x × All P xs

-- `z` occurs in `xs`.
abbrev pub has : ℕ → List ℕ → Bool
has z [] = false
has z (x ∷ xs) = (z == x) || has z xs

abbrev pub Distinct : List ℕ → Type 0
Distinct [] = Unit
Distinct (x ∷ xs) = (has x xs ≡ false) × Distinct xs

-- The first entry of `xs`, or `d`.
abbrev pub first_or : ℕ → List ℕ → ℕ
first_or d [] = d
first_or d (x ∷ xs) = x

-- The last entry of `d ∷ xs`.
abbrev pub last_or : ℕ → List ℕ → ℕ
last_or d [] = d
last_or d (x ∷ xs) = last_or x xs

-- All but the last entry of `d ∷ xs`.
abbrev pub firsts : ℕ → List ℕ → List ℕ
firsts d [] = []
firsts d (x ∷ xs) = d ∷ firsts x xs

pub has-append : (z : ℕ) (xs ys : List ℕ) → has z (xs ++ ys) ≡ (has z xs || has z ys)
has-append z [] ys = refl
has-append z (x ∷ xs) ys = ground (arith, has-append z xs ys)

pub has-append_left : (z : ℕ) (xs ys : List ℕ) → has z xs ≡ true → has z (xs ++ ys) ≡ true
has-append_left z xs ys h = ground (arith, has-append z xs ys)

pub last_or-append : (d : ℕ) (xs ys : List ℕ) → last_or d (xs ++ ys) ≡ last_or (last_or d xs) ys
last_or-append d [] ys = refl
last_or-append d (x ∷ xs) ys = last_or-append x xs ys

pub has-last_or : (d : ℕ) (xs : List ℕ) → has (last_or d xs) (d ∷ xs) ≡ true
has-last_or d [] = ground arith
has-last_or d (x ∷ xs) = ground (arith, has-last_or x xs)

pub has-firsts : (z d : ℕ) (xs : List ℕ) → has z (firsts d xs) ≡ true → has z (d ∷ xs) ≡ true
has-firsts z d [] h = ground arith
has-firsts z d (x ∷ xs) h = ground (arith, has-firsts z x xs)

-- In a list of distinct entries the last one is not among the others.
pub has-firsts_last :
    (d : ℕ) (xs : List ℕ) → Distinct (d ∷ xs) → has (last_or d xs) (firsts d xs) ≡ false
has-firsts_last d [] h = refl
has-firsts_last d (x ∷ xs) h = ground (arith, has-firsts_last x xs h.1, has-last_or x xs)

pub Distinct-append :
    (xs ys : List ℕ)
    → Distinct (xs ++ ys)
    → Distinct xs × Distinct ys × ((z : ℕ) → has z xs ≡ true → has z ys ≡ false)
Distinct-append [] ys h = (tt, h, λ z e. cc)
Distinct-append (x ∷ xs) ys h =
    let (dx, dy, apart) = Distinct-append xs ys h.1 in
    (
      (ground (arith, has-append x xs ys), dx),
      dy,
      λ z e. ground (arith, apart z, has-append x xs ys),
    )

pub append-Distinct :
    (xs ys : List ℕ)
    → Distinct xs
    → Distinct ys
    → ((z : ℕ) → has z xs ≡ true → has z ys ≡ false)
    → Distinct (xs ++ ys)
append-Distinct [] ys dx dy apart = dy
append-Distinct (x ∷ xs) ys dx dy apart = (
  ground (arith, apart x, has-append x xs ys),
  append-Distinct xs ys dx.1 dy (λ z e. apart z (ground arith)),
)

pub split_last : (y : ℕ) (ys : List ℕ) → (front : List ℕ) × (y ∷ ys ≡ front ++ last_or y ys ∷ [])
split_last y [] = ([], refl)
split_last y (z ∷ zs) = let (front, e) = split_last z zs in (y ∷ front, ap (λ l. y ∷ l) e)

pub has-split :
    (z : ℕ) (xs : List ℕ) → has z xs ≡ true → (ps : List ℕ) × (bs : List ℕ) × (xs ≡ ps ++ z ∷ bs)
has-split z [] h = cc
has-split z (x ∷ xs) h = elim (Bool-cases (z == x)) [
  | inl e ↦ ([], xs, ap (λ t. t ∷ xs) (sym (==→eq z x e)))
  | inr ne ↦ let (ps, bs, e) = has-split z xs (ground arith) in (x ∷ ps, bs, ap (λ l. x ∷ l) e)
]

pub All-append {ℓ κ} :
    {A : Type ℓ} (P : A → Type κ) (xs ys : List A) → All P xs → All P ys → All P (xs ++ ys)
All-append P [] ys px py = py
All-append P (x ∷ xs) ys px py = (px.0, All-append P xs ys px.1 py)

pub append-All {ℓ κ} :
    {A : Type ℓ} (P : A → Type κ) (xs ys : List A) → All P (xs ++ ys) → All P xs × All P ys
append-All P [] ys p = (tt, p)
append-All P (x ∷ xs) ys p = let (px, py) = append-All P xs ys p.1 in ((p.0, px), py)
