-- ===== src/Tests/Boxing.antt =====
-- Threads 0 and 1 ask for the box at once: both make one, and the one of thread 1 is the one to stay.
use aiq.Prelude.{ℕ, ◌≡◌, ◌≢◌, refl, [], ◌∷◌, true, false, has, Distinct, arith}
use aiq.Store.{update}
use aiq.LazyBox.{
  absent, loading, allocating, exchanging, given, Caller, LazyBox, new, call, load_null, allocate,
  exchange_won, exchange_lost, Reach, start, later, drop,
}
use aiq.LazyBox.Boxes.{Reach-one_box, Reach-drop}

abbrev both_asked : ℕ → Caller
both_asked =
    update (update (update (update (λ _. absent) 0 loading) 1 loading) 0 allocating) 1 allocating

abbrev both_given : LazyBox
both_given = record {
  box = 12;
  caller =
      update (update (update (update both_asked 0 (exchanging 8)) 1 (exchanging 12)) 1 (given 12)) 0
        (given 12);
  allocated = 12 ∷ 8 ∷ [];
  freed = 8 ∷ [];
}

both_given-Reach : Reach both_given
unfolding new
both_given-Reach =
    later
      (later
        (later
          (later
            (later (later (later (later start (call 0 refl)) (call 1 refl)) (load_null 0 refl refl))
              (load_null 1 refl refl))
            (allocate 0 8 refl (omega arith) refl))
          (allocate 1 12 refl (omega arith) refl))
        (exchange_won 1 12 refl refl))
      (exchange_lost 0 8 refl (omega arith))

Reach-one_box_example :
    (◌≡◌ {A = ℕ} 12 12)
    × (◌≢◌ {A = ℕ} 12 0)
    × (has 12 (12 ∷ 8 ∷ []) ≡ true)
    × (has 12 (8 ∷ []) ≡ false)
Reach-one_box_example = Reach-one_box both_given 0 1 12 12 both_given-Reach refl refl

Reach-drop_example : Distinct (12 ∷ 8 ∷ []) × ((p : ℕ) → has p (12 ∷ 8 ∷ []) ≡ has p (12 ∷ 8 ∷ []))
unfolding drop
Reach-drop_example = Reach-drop both_given both_given-Reach (λ i p e. ground arith)
