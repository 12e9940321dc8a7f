-- ===== src/Prelude/Sublists.antt =====
-- Lists of addresses that leave out some of the entries of another.
use Prim.Native.Nat.{ℕ, ◌≤◌}
use mathlib.Core.Path.{◌≡◌, refl}
use mathlib.Core.Logic.{inl, inr}
use mathlib.Core.Bool.{true, false, ◌||◌}
use aiq.Prelude.Tests.{◌==◌, if◌then◌else◌, Bool-cases}
use mathlib.Core.List.{List, [], ◌∷◌}
use native.Mathlib.Omega.{arith}
use aiq.Prelude.Lists.{length, has, Distinct, last_or, firsts}

-- The entries of the first list are in the second, in the same order.
pub data Sublist : List ℕ → List ℕ → Type 0 where
  none_left : Sublist [] []
  keep : {x : ℕ} {xs ys : List ℕ} → Sublist xs ys → Sublist (x ∷ xs) (x ∷ ys)
  skip : {x : ℕ} {xs ys : List ℕ} → Sublist xs ys → Sublist xs (x ∷ ys)

pub length-Sublist : {xs ys : List ℕ} → Sublist xs ys → length xs ≤ length ys
length-Sublist none_left = omega arith
length-Sublist (keep s) = omega (arith, length-Sublist s)
length-Sublist (skip s) = omega (arith, length-Sublist s)

pub Sublist-refl : (xs : List ℕ) → Sublist xs xs
Sublist-refl [] = none_left
Sublist-refl (x ∷ xs) = keep (Sublist-refl xs)

pub Sublist-trans : {xs ys zs : List ℕ} → Sublist xs ys → Sublist ys zs → Sublist xs zs
Sublist-trans a none_left = a
Sublist-trans a (skip b) = skip (Sublist-trans a b)
Sublist-trans (keep a) (keep b) = keep (Sublist-trans a b)
Sublist-trans (skip a) (keep b) = skip (Sublist-trans a b)

-- `xs` without the first `x`.
abbrev pub without : ℕ → List ℕ → List ℕ
without x [] = []
without x (y ∷ ys) = if y == x then ys else y ∷ without x ys

-- What is left of `xs` without `y`, which is one of them.
abbrev pub LeftOut : ℕ → List ℕ → List ℕ → Type 0
LeftOut y xs rest =
    Distinct rest × (has y rest ≡ false) × ((z : ℕ) → has z xs ≡ (z == y) || has z rest)

pub last_or-LeftOut :
    (x : ℕ) (xs : List ℕ) → Distinct (x ∷ xs) → LeftOut (last_or x xs) (x ∷ xs) (firsts x xs)
last_or-LeftOut x [] d = (tt, refl, λ z. refl)
last_or-LeftOut x (y ∷ ys) d =
    let (dis, out, same) = last_or-LeftOut y ys d.1 in
    ((ground (arith, same x, d.0), dis), ground (arith, same x, d.0), λ z. ground (arith, same z))

pub without-LeftOut :
    (x : ℕ) (xs : List ℕ) → Distinct xs → has x xs ≡ true → LeftOut x xs (without x xs)
without-LeftOut x [] d h = cc
without-LeftOut x (y ∷ ys) d h = elim (Bool-cases (y == x)) [
  | inl e ↦ rw e (d.1, ground (arith, d.0), λ z. ground arith)
  | inr ne ↦
      let (dis, out, same) = without-LeftOut x ys d.1 (ground arith) in
      rw ne ((ground (arith, same y, d.0), dis), ground arith, λ z. ground (arith, same z))
]
