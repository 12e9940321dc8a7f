-- ===== src/WaitQueue/Wakers.antt =====
-- `WakerList` of src/wait_queue.rs: an array of 32 wakers with a length, and the list that it stands for. `none`
-- is an index out of range, or the read of a place that was not written.
use aiq.Prelude.{
  ℕ, zero, suc, ◌+◌, ◌<◌, ◌≤◌, ◌∙◌, ◌≡◌, refl, ap, subst, sym, Bool, true, Option, some, none, List,
  [], ◌∷◌, ◌++◌, length, leb, ltb, ◌==◌, if◌then◌else◌, arith, length-append, Bool-cases, inl, inr,
}
use aiq.Store.{update}
use aiq.WaitQueue.{wakers_capacity, is_full, drained}

pub record WakerList : Type 0 where
  pub wakers : ℕ → Option ℕ
  pub len : ℕ

unfoldable pub new_list : WakerList
new_list = record { wakers = λ _. none; len = 0 }

unfoldable pub push : (waker : ℕ) → WakerList → Option WakerList
push waker a =
    if ltb a.len wakers_capacity
    then some (record { wakers = update a.wakers a.len (some waker); len = suc a.len })
    else none

unfoldable pub is_full_list : WakerList → Bool
is_full_list a = a.len == wakers_capacity

-- The wakers at `count` places from `start` on
unfoldable pub read_from : (wakers : ℕ → Option ℕ) (start count : ℕ) → Option (List ℕ)
read_from wakers start zero = some []
read_from wakers start (suc count) =
    let rest = read_from wakers (suc start) count in
    elim (wakers start) [
      | none ↦ none
      | some k ↦ elim rest [ none ↦ none | some ks ↦ some (k ∷ ks) ]
    ]

unfoldable pub drain_list : WakerList → Option (List ℕ × WakerList)
drain_list a =
    if leb a.len wakers_capacity
    then (elim (read_from a.wakers 0 a.len) [
      | none ↦ none
      | some ks ↦ some (ks, record a { len = 0 })
    ])
    else none

-- The array holds these wakers, in their order.
abbrev pub Written : (ℕ → Option ℕ) → ℕ → List ℕ → Type 0
Written wakers start [] = Unit
Written wakers start (k ∷ ks) = (wakers start ≡ some k) × Written wakers (suc start) ks

pub record Holds (a : WakerList) (ks : List ℕ) : Type 0 where
  pub len : a.len ≡ length ks
  pub written : Written a.wakers 0 ks

Written-push :
    (wakers : ℕ → Option ℕ) (start k : ℕ) (ks : List ℕ)
    → Written wakers start ks
    → Written (update wakers (start + length ks) (some k)) start (ks ++ k ∷ [])
Written-push wakers start k [] w = (ground arith, tt)
Written-push wakers start k (j ∷ ks) w = (
  ground (arith, w.0),
  subst (λ n. Written (update wakers n (some k)) (suc start) (ks ++ k ∷ [])) (omega arith)
      (Written-push wakers (suc start) k ks w.1),
)

read_from-Written :
    (wakers : ℕ → Option ℕ) (start : ℕ) (ks : List ℕ)
    → Written wakers start ks
    → read_from wakers start (length ks) ≡ some ks
unfolding read_from
read_from-Written wakers start [] w = refl
read_from-Written wakers start (k ∷ ks) w =
    rw (w.0, read_from-Written wakers (suc start) ks w.1) refl

drain_list-Holds :
    (a : WakerList) (ks : List ℕ)
    → Holds a ks
    → length ks ≤ wakers_capacity
    → drain_list a ≡ some (ks, record a { len = 0 })
unfolding drain_list
drain_list-Holds a ks h le =
    let within : leb a.len wakers_capacity ≡ true = ground (arith, h.len) in
    let read : read_from a.wakers 0 a.len ≡ some ks =
      ap (read_from a.wakers 0) h.len ∙ read_from-Written a.wakers 0 ks h.written in
    rw (within, read) refl

-- At a list of fewer than 32 wakers that is drained whenever it is full, a push is never out of range; what
-- is drained are all the wakers that were pushed, in their order; and there is room for the next one.
pub push-Holds :
    (k : ℕ) (a : WakerList) (ks : List ℕ)
    → Holds a ks
    → length ks < wakers_capacity
    → (a' : WakerList) × (push k a ≡ some a')
      × Holds a' (ks ++ k ∷ [])
      × (is_full_list a' ≡ is_full (ks ++ k ∷ []))
      × (drain_list a' ≡ some (ks ++ k ∷ [], record a' { len = 0 }))
      × (length (drained (ks ++ k ∷ [])) < wakers_capacity)
unfolding push is_full_list is_full drained
push-Holds k a ks h lt =
    let a' : WakerList = record { wakers = update a.wakers a.len (some k); len = suc a.len } in
    let longer : length (ks ++ k ∷ []) ≡ suc (length ks) =
      omega (arith, length-append ks (k ∷ [])) in
    let at : a.len ≡ 0 + length ks = omega (arith, h.len) in
    let holds : Holds a' (ks ++ k ∷ []) = record {
      len = omega (arith, h.len, longer);
      written =
          subst (λ n. Written (update a.wakers n (some k)) 0 (ks ++ k ∷ [])) (sym at)
            (Written-push a.wakers 0 k ks h.written);
    } in
    (
      a',
      ground (arith, h.len),
      holds,
      ap (λ n. n == wakers_capacity) holds.len,
      drain_list-Holds a' (ks ++ k ∷ []) holds (omega (arith, longer)),
      elim (Bool-cases (length (ks ++ k ∷ []) == wakers_capacity)) [
        | inl full ↦ rw full (omega arith)
        | inr room ↦ rw room (ground (arith, longer))
      ],
    )
