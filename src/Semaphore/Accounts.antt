-- ===== src/Semaphore/Accounts.antt =====
-- A semaphore in use neither loses nor makes permits, serves those that wait, and gives back what it can.
use aiq.Prelude.{
  ℕ, ◌+◌, ◌-◌, ◌≤◌, ◌<◌, ◌≡◌, ◌∙◌, sym, ap, subst, inl, inr, ◌⊎◌, some, List, [], ◌∷◌, ◌++◌, arith,
  length, All, All-append, true, false,
}
use aiq.Semaphore.{
  Waiter, Line, Woken, max_permits, add_permits, is_closed, SemaphorePermit, drop_permit,
}
use aiq.Semaphore.Futures.{queued, dequeued, drop_acquire, line_of}
use aiq.Semaphore.System.{
  Acquisition, waiters, State, served_in_full, after, held, given, given_waiting, accounted, Lined,
  IsFull, Conserved,
}
use aiq.Semaphore.Conserve.{add_permits-Added, served_in_full-IsFull, given-append}
use aiq.Semaphore.Taking.{Taken, Joined, Rewoken}
use aiq.Semaphore.Leaving.{
  held-remove, given-remove, All-remove, Lined-remove, open_with_waiters, waiters-line_of,
  available-line_of, drop_acquire-add, drop_left-add,
}

abbrev Settled : State → Type 0
Settled s = All IsFull s.left_queue ⊎ (is_closed s.line ≡ true)

-- Permits that are in nobody's hands are added.
pub add-Conserved :
    (s : State) (n : ℕ) (r : Woken)
    → Lined s.asked (waiters s.line)
    → n + accounted s ≡ s.total
    → s.total ≤ max_permits
    → Settled s
    → add_permits n s.line ≡ some r
    → Conserved (after s r)
add-Conserved s n r lined balance bounded settled e =
    let added = add_permits-Added n s.line s.asked r (omega arith) lined e in
    record {
      lined = added.lined;
      balance =
          omega
            (arith, added.sum, given-append (served_in_full (length r.woken) s.asked) s.left_queue);
      bounded = bounded;
      settled = elim settled [
        | inl full ↦ inl (
            All-append IsFull (served_in_full (length r.woken) s.asked) s.left_queue
              (served_in_full-IsFull (length r.woken) s.asked) full)
        | inr shut ↦ inr (added.same_closed ∙ shut)
      ];
    }

pub drop_permit-Conserved :
    (s : State) (p : SemaphorePermit) (ps qs : List SemaphorePermit) (r : Woken)
    → Conserved s
    → s.permits ≡ ps ++ p ∷ qs
    → drop_permit p s.line ≡ some r
    → Conserved (after (record s { permits = ps ++ qs }) r)
unfolding drop_permit
drop_permit-Conserved s p ps qs r c e runs =
    add-Conserved (record s { permits = ps ++ qs }) p.permits r c.lined
      (omega (arith, c.balance, ap held e, held-remove ps qs p)) c.bounded c.settled runs

pub cancel_left-Conserved :
    (s : State) (n : ℕ) (w : Waiter) (ds es : List Acquisition) (r : Woken)
    → Conserved s
    → s.left_queue ≡ ds ++ (n, w) ∷ es
    → drop_acquire n (dequeued w) s.line ≡ some r
    → Conserved (after (record s { left_queue = ds ++ es }) r)
cancel_left-Conserved s n w ds es r c e runs =
    let left = All-remove IsFull ds es (n, w) in
    add-Conserved (record s { left_queue = ds ++ es }) (n - w.permits_remaining) r c.lined
      (omega (arith, c.balance, ap given e, given-remove ds es (n, w))) c.bounded
      (elim c.settled [ inl full ↦ inl (left (subst (All IsFull) e full)).1 | inr shut ↦ inr shut ])
      (drop_left-add n w s.line r runs)

pub cancel_waiting-Conserved :
    (s : State) (n : ℕ) (ns ms : List ℕ) (before behind : List Waiter) (w : Waiter) (r : Woken)
    → Conserved s
    → waiters s.line ≡ before ++ w ∷ behind
    → s.asked ≡ ns ++ n ∷ ms
    → length ns ≡ length before
    → (n ≡ w.permits_remaining) ⊎ (0 < length (before ++ behind))
    → drop_acquire n (queued before w behind) s.line ≡ some r
    → Conserved (after (record s { asked = ns ++ ms }) r)
cancel_waiting-Conserved s n ns ms before behind w r c at asks same others runs =
    let lined : Lined (ns ++ n ∷ ms) (before ++ w ∷ behind) =
      subst (λ l. Lined l (before ++ w ∷ behind)) asks (subst (Lined s.asked) at c.lined) in
    let without = Lined-remove ns ms n before behind w same lined in
    let (is_open, empty) = open_with_waiters s.line before behind w at in
    add-Conserved (record s { line = line_of (before ++ behind); asked = ns ++ ms })
      (n - w.permits_remaining) r
      (subst (Lined (ns ++ ms)) (sym (waiters-line_of (before ++ behind))) without.lined)
      (omega (
        arith,
        c.balance,
        without.sum,
        empty,
        available-line_of (before ++ behind),
        ap (given_waiting (ns ++ ms)) (waiters-line_of (before ++ behind)),
        ap (λ l. given_waiting l (waiters s.line)) asks,
        ap (given_waiting (ns ++ n ∷ ms)) at,
      ))
      c.bounded (elim c.settled [ inl full ↦ inl full | inr shut ↦ cc ])
      (drop_acquire-add n before behind w s.line r without.fits without.only_first others runs)

pub Taken-Conserved :
    (s : State) (line : Line) (p : SemaphorePermit)
    → Conserved s
    → Taken p.permits s.line line
    → Conserved (record s { line = line; permits = p ∷ s.permits })
Taken-Conserved s line p c t = record {
  lined = subst (Lined s.asked) (sym t.same_waiters) c.lined;
  balance = omega (arith, c.balance, t.sum, ap (given_waiting s.asked) t.same_waiters);
  bounded = c.bounded;
  settled = elim c.settled [ inl full ↦ inl full | inr shut ↦ inr (t.same_closed ∙ shut) ];
}

pub forgotten-Conserved :
    (s : State) (line : Line) (k : ℕ)
    → Conserved s
    → Taken k s.line line
    → Conserved (record s { line = line; total = s.total - k })
forgotten-Conserved s line k c t = record {
  lined = subst (Lined s.asked) (sym t.same_waiters) c.lined;
  balance = omega (arith, c.balance, t.sum, ap (given_waiting s.asked) t.same_waiters);
  bounded = omega (arith, c.bounded);
  settled = elim c.settled [ inl full ↦ inl full | inr shut ↦ inr (t.same_closed ∙ shut) ];
}

-- The permits in the tasks' hands change, and the total with them.
pub held-Conserved :
    (s : State) (ps : List SemaphorePermit) (total : ℕ)
    → Conserved s
    → total ≤ s.total
    → held ps + s.total ≡ held s.permits + total
    → Conserved (record s { permits = ps; total = total })
held-Conserved s ps total c le e = record {
  lined = c.lined;
  balance = omega (arith, c.balance);
  bounded = omega (arith, c.bounded);
  settled = c.settled;
}

pub Joined-Conserved :
    (s : State) (line : Line) (n : ℕ)
    → Conserved s
    → Joined n s.asked s.line line
    → Conserved (record s { line = line; asked = s.asked ++ n ∷ [] })
Joined-Conserved s line n c j = record {
  lined = j.lined;
  balance = omega (arith, c.balance, j.sum);
  bounded = c.bounded;
  settled = elim c.settled [ inl full ↦ inl full | inr shut ↦ cc ];
}

pub Rewoken-Conserved :
    (s : State) (line : Line) (before behind : List Waiter) (w : Waiter)
    → Conserved s
    → waiters s.line ≡ before ++ w ∷ behind
    → Rewoken s.asked s.line line
    → Conserved (record s { line = line })
Rewoken-Conserved s line before behind w c at v =
    let (is_open, empty) = open_with_waiters s.line before behind w at in
    record {
      lined = v.lined;
      balance = omega (arith, c.balance, v.sum, v.no_permits);
      bounded = c.bounded;
      settled = elim c.settled [ inl full ↦ inl full | inr shut ↦ cc ];
    }

-- An acquisition that was served in full becomes a permit.
pub served-Conserved :
    (s : State) (n sem : ℕ) (w : Waiter) (ds es : List Acquisition)
    → Conserved s
    → s.left_queue ≡ ds ++ (n, w) ∷ es
    → is_closed s.line ≡ false
    → Conserved (record s {
      left_queue = ds ++ es;
      permits = record { sem = sem; permits = n } ∷ s.permits;
    })
served-Conserved s n sem w ds es c e is_open = elim c.settled [
  | inl full ↦
      let (whole, rest) = All-remove IsFull ds es (n, w) (subst (All IsFull) e full) in
      record {
        lined = c.lined;
        balance = omega (arith, c.balance, ap given e, given-remove ds es (n, w), whole);
        bounded = c.bounded;
        settled = inl rest;
      }
  | inr shut ↦ cc
]
