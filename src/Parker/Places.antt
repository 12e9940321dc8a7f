-- ===== src/Parker/Places.antt =====
-- What is expected at each place of the thread that parks, and how the steps of others change it.
use aiq.Prelude.{ℕ, ◌≡◌, refl, ◌≢◌, ◌⊎◌, inl, inr, ◌==◌, arith, Bool-cases}
use aiq.Store.{update}
use aiq.Parker.{
  empty, notified, parked, ParkPc, outside, locking, checking, failing, sleeping, woken, leaving,
  UnparkPc, resting, waking, locked, signalling, Holder, nobody, parker, wake_up,
}

-- The states that the thread can find while it is at a place: `EMPTY` or `NOTIFIED` outside and once it
-- has consumed the notification, `PARKED` or `NOTIFIED` between.
abbrev pub Expects : ParkPc → ℕ → Type 0
Expects outside state = (state ≡ empty) ⊎ (state ≡ notified)
Expects leaving state = (state ≡ empty) ⊎ (state ≡ notified)
Expects pc state = (state ≡ parked) ⊎ (state ≡ notified)

-- Whether the thread that parks holds the mutex.
abbrev pub Holds : ParkPc → Holder → Type 0
Holds checking h = h ≡ parker
Holds failing h = h ≡ parker
Holds leaving h = h ≡ parker
Holds pc h = h ≢ parker

-- Who will wake the thread: while it holds the mutex, a thread that has yet to lock it.
abbrev pub Waker : (ℕ → UnparkPc) → ParkPc → Type 0
Waker pcs failing = (i : ℕ) × (pcs i ≡ waking)
Waker pcs sleeping = (i : ℕ) × ((pcs i ≡ waking) ⊎ ((pcs i ≡ locked) ⊎ (pcs i ≡ signalling)))
Waker pcs pc = Unit

-- A notification is expected everywhere.
pub Expects-notified : (pc : ParkPc) → Expects pc notified
Expects-notified outside = inr refl
Expects-notified locking = inr refl
Expects-notified checking = inr refl
Expects-notified failing = inr refl
Expects-notified sleeping = inr refl
Expects-notified woken = inr refl
Expects-notified leaving = inr refl

-- Where the state is not `PARKED`, the thread that parks needs nobody new to wake it.
pub Waker-other :
    (pcs : ℕ → UnparkPc) (pc : ParkPc) (state : ℕ)
    → state ≢ parked
    → Expects pc state
    → (state ≡ notified → Waker pcs pc)
    → Waker pcs pc
Waker-other pcs outside state ne e w = tt
Waker-other pcs locking state ne e w = tt
Waker-other pcs checking state ne e w = tt
Waker-other pcs failing state ne e w = w (ground arith)
Waker-other pcs sleeping state ne e w = w (ground arith)
Waker-other pcs woken state ne e w = tt
Waker-other pcs leaving state ne e w = tt

-- Somebody who is about to lock the mutex wakes it in any case.
pub Waker-waking : (pcs : ℕ → UnparkPc) (pc : ParkPc) (i : ℕ) → pcs i ≡ waking → Waker pcs pc
Waker-waking pcs outside i e = tt
Waker-waking pcs locking i e = tt
Waker-waking pcs checking i e = tt
Waker-waking pcs failing i e = (i, e)
Waker-waking pcs sleeping i e = (i, inl e)
Waker-waking pcs woken i e = tt
Waker-waking pcs leaving i e = tt

-- The mutex passes between others.
pub Holds-other :
    (pc : ParkPc) (h h' : Holder) → h ≢ parker → h' ≢ parker → Holds pc h → Holds pc h'
Holds-other outside h h' ne ne' e = ne'
Holds-other locking h h' ne ne' e = ne'
Holds-other checking h h' ne ne' e = absurd (ne e)
Holds-other failing h h' ne ne' e = absurd (ne e)
Holds-other sleeping h h' ne ne' e = ne'
Holds-other woken h h' ne ne' e = ne'
Holds-other leaving h h' ne ne' e = absurd (ne e)

pub wake_up-Expects : (pc : ParkPc) (state : ℕ) → Expects pc state → Expects (wake_up pc) state
unfolding wake_up
wake_up-Expects outside state e = e
wake_up-Expects locking state e = e
wake_up-Expects checking state e = e
wake_up-Expects failing state e = e
wake_up-Expects sleeping state e = e
wake_up-Expects woken state e = e
wake_up-Expects leaving state e = e

pub wake_up-Holds : (pc : ParkPc) (h : Holder) → Holds pc h → Holds (wake_up pc) h
unfolding wake_up
wake_up-Holds outside h e = e
wake_up-Holds locking h e = e
wake_up-Holds checking h e = e
wake_up-Holds failing h e = e
wake_up-Holds sleeping h e = e
wake_up-Holds woken h e = e
wake_up-Holds leaving h e = e

-- A waker that locks the mutex still wakes it: the thread that parks does not hold it then.
pub Waker-locked :
    (pcs : ℕ → UnparkPc) (pc : ParkPc) (i : ℕ)
    → Holds pc nobody
    → Waker pcs pc
    → Waker (update pcs i locked) pc
Waker-locked pcs outside i h w = tt
Waker-locked pcs locking i h w = tt
Waker-locked pcs checking i h w = tt
Waker-locked pcs failing i h w = cc
Waker-locked pcs sleeping i h (j, c) = elim (Bool-cases (j == i)) [
  | inl e ↦ (j, inr (inl (rw e)))
  | inr e ↦ (j, rw e c)
]
Waker-locked pcs woken i h w = tt
Waker-locked pcs leaving i h w = tt

pub Waker-signalling :
    (pcs : ℕ → UnparkPc) (pc : ParkPc) (i : ℕ)
    → pcs i ≡ locked
    → Waker pcs pc
    → Waker (update pcs i signalling) pc
Waker-signalling pcs outside i e w = tt
Waker-signalling pcs locking i e w = tt
Waker-signalling pcs checking i e w = tt
Waker-signalling pcs failing i e (j, c) = (j, ground arith)
Waker-signalling pcs sleeping i e (j, c) = elim (Bool-cases (j == i)) [
  | inl e' ↦ (j, inr (inr (rw e')))
  | inr e' ↦ (j, rw e' c)
]
Waker-signalling pcs woken i e w = tt
Waker-signalling pcs leaving i e w = tt

pub Waker-resting :
    (pcs : ℕ → UnparkPc) (pc : ParkPc) (i : ℕ)
    → pcs i ≡ signalling
    → Waker pcs pc
    → Waker (update pcs i resting) (wake_up pc)
unfolding wake_up
Waker-resting pcs outside i e w = tt
Waker-resting pcs locking i e w = tt
Waker-resting pcs checking i e w = tt
Waker-resting pcs failing i e (j, c) = (j, ground arith)
Waker-resting pcs sleeping i e w = tt
Waker-resting pcs woken i e w = tt
Waker-resting pcs leaving i e w = tt
