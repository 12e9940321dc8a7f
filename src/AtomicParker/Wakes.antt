-- ===== src/AtomicParker/Wakes.antt =====
-- No notification is lost, and the word is always one of the three.
use aiq.Prelude.{
  ℕ, Bool, true, false, ◌≡◌, ◌≢◌, refl, sym, ap, subst, ◌∙◌, ◌⊎◌, inl, inr, arith, Bool-cases,
}
use aiq.AtomicParker.{
  empty_word, notified_word, parked_word, word_before, Sleeper, elsewhere, before_wait, asleep,
  before_exchange, Futex, before_wake, AtomicParker, init, wake_one, Move, sleep, stay_awake,
  exchange_won, exchange_lost, wake, Step, go_on, park_notified, park, unpark_parked, unpark_other,
  spurious, Reach, start, later, Moves, done, then,
}

-- What the word can be while the thread that parks stands somewhere.
abbrev pub Expects : Sleeper → ℕ → Type 0
Expects elsewhere word = (word ≡ empty_word) ⊎ (word ≡ notified_word)
Expects place word = (word ≡ parked_word) ⊎ (word ≡ notified_word)

pub record IsAtomicParker (m : AtomicParker) : Type 0 where
  pub expects : Expects m.sleeper m.word
  pub woken : m.sleeper ≡ asleep → m.word ≡ notified_word → (i : ℕ) × (m.waker i ≡ before_wake)

Expects-at :
    {m : AtomicParker} → IsAtomicParker m → {p : Sleeper} → m.sleeper ≡ p → Expects p m.word
Expects-at {m} ok e = subst (λ p. Expects p m.word) e ok.expects

Expects-notified : (p : Sleeper) → Expects p notified_word
Expects-notified elsewhere = inr refl
Expects-notified before_wait = inr refl
Expects-notified asleep = inr refl
Expects-notified before_exchange = inr refl

Expects-wake_one :
    (sleeps_on : Bool) (p : Sleeper) (word : ℕ)
    → Expects p word
    → Expects (wake_one sleeps_on p) word
unfolding wake_one
Expects-wake_one sleeps_on elsewhere word e = e
Expects-wake_one sleeps_on before_wait word e = e
Expects-wake_one true asleep word e = e
Expects-wake_one false asleep word e = e
Expects-wake_one sleeps_on before_exchange word e = e

wake_one-asleep : (p : Sleeper) → wake_one false p ≢ asleep
unfolding wake_one
wake_one-asleep elsewhere e = cc
wake_one-asleep before_wait e = cc
wake_one-asleep asleep e = cc
wake_one-asleep before_exchange e = cc

module _ (futex : Futex) where
  Move-IsAtomicParker : {m u : AtomicParker} → Move futex m u → IsAtomicParker m → IsAtomicParker u
  Move-IsAtomicParker (sleep at e) ok =
      let same = futex.sleeps_same _ _ e in
      record { expects = inl same; woken = λ _ e'. absurd (omega (arith, same, e')) }
  Move-IsAtomicParker (stay_awake at ne) ok = record { expects = Expects-at ok at; woken = λ e. cc }
  Move-IsAtomicParker (exchange_won at e) ok = record { expects = inl refl; woken = λ e'. cc }
  Move-IsAtomicParker (exchange_lost at ne) ok = record {
    expects = Expects-at ok at;
    woken = λ e. cc;
  }
  Move-IsAtomicParker {m} (wake i at) ok = record {
    expects = Expects-wake_one futex.sleeps_on m.sleeper m.word ok.expects;
    woken = λ e.
        absurd (wake_one-asleep m.sleeper (sym (ap (λ b. wake_one b m.sleeper) futex.wakes) ∙ e));
  }

  Step-IsAtomicParker : {m u : AtomicParker} → Step futex m u → IsAtomicParker m → IsAtomicParker u
  unfolding word_before
  Step-IsAtomicParker (go_on mv) ok = Move-IsAtomicParker mv ok
  Step-IsAtomicParker {m} (park_notified at e) ok = record {
    expects = subst (λ p. Expects p (word_before m.word)) (sym at) (inl (ground arith));
    woken = λ e'. cc;
  }
  Step-IsAtomicParker (park at ne) ok = record {
    expects = inl (ground (arith, Expects-at ok at));
    woken = λ e. cc;
  }
  Step-IsAtomicParker {m} (unpark_parked i at e) ok = record {
    expects = Expects-notified m.sleeper;
    woken = λ _ _. (i, ground arith);
  }
  Step-IsAtomicParker {m} (unpark_other i at ne) ok = record {
    expects = Expects-notified m.sleeper;
    woken = λ s _. ok.woken s (ground (arith, Expects-at ok s));
  }
  Step-IsAtomicParker (spurious at) ok = record { expects = Expects-at ok at; woken = λ e. cc }

  pub Reach-IsAtomicParker : {m : AtomicParker} → Reach futex m → IsAtomicParker m
  unfolding init
  Reach-IsAtomicParker start = record { expects = inl refl; woken = λ e. cc }
  Reach-IsAtomicParker (later r s) = Step-IsAtomicParker s (Reach-IsAtomicParker r)

  abbrev pub Wakes : AtomicParker → Type 0
  Wakes m = (u : AtomicParker) × Moves futex m u × (u.sleeper ≡ elsewhere)

  from_move : {m u : AtomicParker} → Move futex m u → Wakes u → Wakes m
  from_move mv (v, mvs, at) = (v, then mv mvs, at)

  from_exchange :
      (m : AtomicParker) → m.word ≡ notified_word → m.sleeper ≡ before_exchange → Wakes m
  from_exchange m e at = from_move (exchange_won at e) (_, done, refl)

  -- From every reachable state with a notification, the thread in `park` can return by steps of calls
  -- that have begun; asleep it is woken by a thread that is about to call `wake_one`.
  pub Reach-Wakes : (m : AtomicParker) → Reach futex m → m.word ≡ notified_word → Wakes m
  unfolding wake_one
  Reach-Wakes m r e = by_place m.sleeper refl
    where
      by_place : (p : Sleeper) → m.sleeper ≡ p → Wakes m
      by_place elsewhere at = (m, done, at)
      by_place before_wait at = elim (Bool-cases (futex.sleeps m.word parked_word)) [
        | inl on ↦
            absurd (let same = futex.sleeps_same m.word parked_word on in omega (arith, e, same))
        | inr off ↦ from_move (stay_awake at off) (from_exchange _ e refl)
      ]
      by_place asleep at =
          let (i, up) = (Reach-IsAtomicParker r).woken at e in
          from_move (wake i up) (
            from_exchange _ e
              (ap (wake_one futex.sleeps_on) at ∙ ap (λ b. wake_one b asleep) futex.wakes))
      by_place before_exchange at = from_exchange m e at
