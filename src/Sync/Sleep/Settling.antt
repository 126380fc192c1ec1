-- ===== src/Sync/Sleep/Settling.antt =====
-- The threads of a donation after `donation_wrapped`, and after the release of its lock.
use tacos.Prelude.{
  ℕ, ◌≤◌, ◌≡◌, ◌≢◌, refl, ap, ◌∙◌, Bool, true, false, some, All, ◌==◌, arith, List, ◌∷◌, [],
}
use tacos.Prelude.Deque.{push_back}
use tacos.Thread.State.{DonationData, Thread, Kernel, priorities, current_thread}
use tacos.Sync.Sleep.{
  amend, with_donations, retain, find_donation, other_lock, other_donner, other_acceptor,
  stored_after, with_setted, settle, settle_if, restore, highest_donation, delete_donation, give,
}
use tacos.Sync.Sleep.Donation.{gift}

abbrev pub Passes : (DonationData → Bool) → List DonationData → Type 0
Passes test q = All (λ d. test d ≡ true) q

pub retain-all :
    (test : DonationData → Bool) (q : List DonationData) → Passes test q → retain test q ≡ q
unfolding retain
retain-all test [] h = refl
retain-all test (x ∷ xs) h = rw (h.0, retain-all test xs h.1) refl

pub retain-push_back :
    (test : DonationData → Bool) (q : List DonationData) (d : DonationData)
    → Passes test q
    → test d ≡ false
    → retain test (push_back q d) ≡ q
unfolding retain
retain-push_back test [] d h gone = rw gone refl
retain-push_back test (x ∷ xs) d h gone = rw (h.0, retain-push_back test xs d h.1 gone) refl

pub find_donation-push_back :
    (lockid : ℕ) (q : List DonationData) (d : DonationData)
    → Passes (other_lock lockid) q
    → (d.lockid == lockid) ≡ true
    → find_donation lockid (push_back q d) ≡ some d
unfolding find_donation
find_donation-push_back lockid [] d h e = rw e refl
find_donation-push_back lockid (x ∷ xs) d h e =
    let other : (x.lockid == lockid) ≡ false = ground (arith, h.0) in
    rw (other, find_donation-push_back lockid xs d h.1 e) refl

-- No donation exceeds this priority.
abbrev pub Below : ℕ → List DonationData → Type 0
Below p q = All (λ d. d.donner_priority ≤ p) q

pub highest_donation-Below : (p : ℕ) (q : List DonationData) → Below p q → highest_donation p q ≡ p
unfolding highest_donation
highest_donation-Below p [] h = refl
highest_donation-Below p (x ∷ xs) h =
    ap (λ n. highest_donation n xs) (omega (arith, h.0)) ∙ highest_donation-Below p xs h.1

-- The holder after `settle`.
abbrev pub settled : ℕ → DonationData → Kernel → Thread
settled lockid ret k =
    let t = current_thread k in
    let stored = stored_after lockid ret.prev_priority t.stored_prev in
    let rest = retain (other_donner ret.donner) t.donationq in
    record t { donationq = rest; stored_prev = stored; priority = highest_donation stored.1 rest }

module _ (lockid : ℕ) (ret : DonationData) (k : Kernel) (apart : ret.donner ≢ k.current) where
  pub settle-holder : (settle lockid ret k).threads k.current ≡ settled lockid ret k
  unfolding settle
  settle-holder = ground arith

  pub settle-donner :
      (settle lockid ret k).threads ret.donner
      ≡ with_donations
          (λ q. retain (other_acceptor k.current) (retain (other_lock lockid) q))
          (k.threads ret.donner)
  unfolding settle
  settle-donner = ground arith

  pub settle-others :
      (t : ℕ) → t ≢ k.current → t ≢ ret.donner → (settle lockid ret k).threads t ≡ k.threads t
  unfolding settle
  settle-others t h h' = ground arith

module _ (donner lockid : ℕ) (k : Kernel) (apart : donner ≢ k.current) where
  abbrev pub given : Kernel
  given = give donner k.current lockid k

  pub give-holder : given.threads k.current ≡ record (current_thread k) {
    priority = priorities k donner;
    donationq = push_back (current_thread k).donationq (gift false donner k.current lockid k);
  }
  unfolding give
  give-holder = ground arith

  pub give-donner : given.threads donner ≡ record (k.threads donner) {
    donationq = push_back (k.threads donner).donationq (gift true donner k.current lockid k);
  }
  unfolding give
  give-donner = ground arith

  pub give-others : (t : ℕ) → t ≢ k.current → t ≢ donner → given.threads t ≡ k.threads t
  unfolding give
  give-others t h h' = ground arith

  give-current : given.current ≡ k.current
  unfolding give
  give-current = refl

-- `release` where the current thread has a donation on the lock.
pub restore-found :
    (lockid : ℕ) (k : Kernel) (d : DonationData)
    → find_donation lockid (current_thread k).donationq ≡ some d
    → restore lockid k ≡ (
        let k2 = settle lockid d (delete_donation k.current lockid k).1 in
        amend k2.current with_setted k2)
unfolding restore
restore-found lockid k d e =
    ap
      (λ o.
        let k2 = settle_if lockid o (delete_donation k.current lockid k).1 in
        amend k2.current with_setted k2)
      e
