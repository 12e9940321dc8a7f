-- ===== src/Handoff/Keeps.antt =====
-- What the steps of the parker keep of a notification, and of the places of its threads.
use aiq.Prelude.{◌≡◌, refl, ap, ◌∙◌, ◌⊎◌, inl, inr, arith}
use aiq.Parker.{
  notified, wake_up, outside, leaving, resting, woken, sleeping, Machine, Park, park_notified,
  park_empty, Unpark, swap_other, swap_parked, lock, exchange_won, exchange_lost, wait, unlock,
  lock_unparker, unlock_unparker, notify_one,
}
use aiq.Parker

-- There is a notification, or the thread that parks has consumed it.
abbrev pub Token : Machine → Type 0
Token m = (m.state ≡ notified) ⊎ ((m.park_pc ≡ outside) ⊎ (m.park_pc ≡ leaving))

-- What a change of the parker must keep.
abbrev pub Keeps : Machine → Machine → Type 0
Keeps m u =
    (m.park_pc ≡ outside → u.park_pc ≡ outside)
    × (Token m → Token u)
    × (m.park_pc ≡ outside → m.state ≡ notified → u.state ≡ notified)

pub Move-Keeps : {m u : Machine} → Parker.Move m u → Keeps m u
unfolding wake_up
Move-Keeps (lock (inl at) free) = (λ o. cc, λ t. ground arith, λ o e. e)
Move-Keeps (lock (inr at) free) = (λ o. cc, λ t. ground arith, λ o e. e)
Move-Keeps (exchange_won at e) = (λ o. cc, λ t. inr (inr refl), λ o e'. cc)
Move-Keeps (exchange_lost at ne) = (λ o. cc, λ t. ground arith, λ o e. e)
Move-Keeps (wait at) = (λ o. cc, λ t. ground arith, λ o e. e)
Move-Keeps (unlock at) = (λ o. refl, λ t. inr (inl refl), λ o e. e)
Move-Keeps (lock_unparker i at free) = (λ o. o, λ t. t, λ o e. e)
Move-Keeps (unlock_unparker i at) = (λ o. o, λ t. t, λ o e. e)
Move-Keeps (notify_one i at) = (
  λ o. ap wake_up o,
  λ t. elim t [
    | inl e ↦ inl e
    | inr (inl o) ↦ inr (inl (ap wake_up o))
    | inr (inr o) ↦ inr (inr (ap wake_up o))
  ],
  λ o e. e,
)

pub Move-rests :
    {m u : Machine} → Parker.Move m u → m.unpark_pc 0 ≡ resting → u.unpark_pc 0 ≡ resting
Move-rests (lock at free) r = r
Move-rests (exchange_won at e) r = r
Move-rests (exchange_lost at ne) r = r
Move-rests (wait at) r = r
Move-rests (unlock at) r = r
Move-rests (lock_unparker i at free) r = ground arith
Move-rests (unlock_unparker i at) r = ground arith
Move-rests (notify_one i at) r = ground arith

pub Unpark-notified : {m u : Machine} → Unpark m u → (u.state ≡ notified) × (u.park_pc ≡ m.park_pc)
Unpark-notified (swap_other i at ne) = (refl, refl)
Unpark-notified (swap_parked i at e) = (refl, refl)

pub Unpark-Keeps : {m u : Machine} → Unpark m u → Keeps m u
Unpark-Keeps p = let (st, same) = Unpark-notified p in (λ o. same ∙ o, λ t. inl st, λ o e. st)

pub Park-Token : {m u : Machine} → Park m u → m.state ≡ notified → Token u
Park-Token (park_notified at e) n = inr (inl at)
Park-Token (park_empty at ne) n = absurd (ne n)

pub Park-rests : {m u : Machine} → Park m u → u.unpark_pc 0 ≡ m.unpark_pc 0
Park-rests (park_notified at e) = refl
Park-rests (park_empty at ne) = refl
