-- ===== src/Sync/Sleep/Undo.antt =====
-- `release` undoes the donation that `donation_wrapped` has made on the lock.
use tacos.Prelude.{
  ℕ, ◌<◌, ◌≡◌, ◌≢◌, refl, sym, ap, ◌∙◌, subst, Bool, true, false, not, Option, some, none, inl, inr,
  Bool-cases, ltb, ◌==◌, if◌then◌else◌, arith, List,
}
use tacos.Thread.State.{DonationData, Thread, Kernel, priorities, current_thread}
use tacos.Sync.Sleep.{
  with_donations, retain, find_donation, other_lock, other_donner, other_acceptor, stored_after,
  with_setted, set_or, settle, restore, highest_donation, delete_donation, give,
}
use tacos.Sync.Sleep.Donation.{gift}
use tacos.Sync.Sleep.Settling.{
  Passes, retain-all, retain-push_back, find_donation-push_back, Below, highest_donation-Below,
  settled, settle-holder, settle-donner, settle-others, given, give-holder, give-donner,
  give-others, restore-found,
}

-- The current thread, which holds the lock, has no donation on it yet, nor any from the donner; its
-- priority is no lower than the donations that it has, and was not set by `set_priority`; and what is
-- stored of its priority comes from no lock that is as old.
pub record CanUndo (donner lockid : ℕ) (k : Kernel) : Type 0 where
  pub apart : donner ≢ k.current
  pub unset : (current_thread k).priority_setted ≡ none
  pub newer : lockid < (current_thread k).stored_prev.0
  pub free : Passes (other_lock lockid) (current_thread k).donationq
  pub donner_free : Passes (other_lock lockid) (k.threads donner).donationq
  pub no_donner : Passes (other_donner donner) (current_thread k).donationq
  pub no_acceptor : Passes (other_acceptor k.current) (k.threads donner).donationq
  pub below : Below (priorities k k.current) (current_thread k).donationq

-- The holder once its priority is restored.
abbrev pub back : ℕ → Kernel → Thread
back lockid k = record (current_thread k) { stored_prev = (lockid, priorities k k.current) }

module _ (donner lockid : ℕ) (k : Kernel) (c : CanUndo donner lockid k) where
  abbrev after_gift : Kernel
  after_gift = given donner lockid k c.apart

  abbrev the_gift : DonationData
  the_gift = gift false donner k.current lockid k

  abbrev cleared : Kernel
  cleared = (delete_donation k.current lockid after_gift).1

  abbrev mine : List DonationData
  mine = (current_thread k).donationq

  lock_itself : (lockid == lockid) ≡ true
  lock_itself = ground arith

  other_self : other_lock lockid the_gift ≡ false
  other_self = ap not lock_itself

  cleared-holder :
      cleared.threads k.current ≡ record (current_thread k) { priority = priorities k donner }
  cleared-holder =
      let self : (k.current == k.current) ≡ true = ground arith in
      rw (self, give-holder donner lockid k c.apart)
        (ap {A = List DonationData} {B = Thread}
          (λ q. record (current_thread k) { priority = priorities k donner; donationq = q })
          (retain-push_back (other_lock lockid) mine the_gift c.free other_self))

  cleared-others : (t : ℕ) → t ≢ k.current → cleared.threads t ≡ after_gift.threads t
  cleared-others t h = ground arith

  abbrev undone : Kernel
  undone = settle lockid the_gift cleared

  settled-back : settled lockid the_gift cleared ≡ (back lockid k)
  unfolding give
  settled-back =
      let raised : Thread = record (current_thread k) { priority = priorities k donner } in
      let p : ℕ = priorities k k.current in
      let now : cleared.threads k.current ≡ raised = cleared-holder in
      let newest : ltb lockid (current_thread k).stored_prev.0 ≡ true = ground (arith, c.newer) in
      ap {A = Thread} {B = Thread}
        (λ t. record t {
          donationq = retain (other_donner donner) t.donationq;
          stored_prev = stored_after lockid p t.stored_prev;
          priority =
              highest_donation (stored_after lockid p t.stored_prev).1
                (retain (other_donner donner) t.donationq);
        })
        now
      ∙ ap {A = Bool} {B = Thread}
          (λ b. record (current_thread k) {
            donationq = retain (other_donner donner) mine;
            stored_prev = if b then (lockid, p) else (current_thread k).stored_prev;
            priority =
                highest_donation (if b then (lockid, p) else (current_thread k).stored_prev).1
                  (retain (other_donner donner) mine);
          })
          newest
      ∙ ap {A = List DonationData} {B = Thread}
          (λ q. record (back lockid k) { donationq = q; priority = highest_donation p q })
          (retain-all (other_donner donner) mine c.no_donner)
      ∙ ap {A = ℕ} {B = Thread} (λ n. record (back lockid k) { priority = n })
          (highest_donation-Below p mine c.below)

  undone-holder : undone.threads k.current ≡ (back lockid k)
  unfolding give
  undone-holder = settle-holder lockid the_gift cleared c.apart ∙ settled-back

  undone-donner : undone.threads donner ≡ k.threads donner
  unfolding give
  undone-donner =
      let q = (k.threads donner).donationq in
      let mark : DonationData = gift true donner k.current lockid k in
      settle-donner lockid the_gift cleared c.apart
      ∙ ap {A = Thread} {B = Thread}
          (with_donations (λ q. retain (other_acceptor k.current) (retain (other_lock lockid) q)))
          (cleared-others donner c.apart ∙ give-donner donner lockid k c.apart)
      ∙ ap {A = List DonationData} {B = Thread}
          (λ l. record (k.threads donner) { donationq = retain (other_acceptor k.current) l })
          (retain-push_back (other_lock lockid) q mark c.donner_free (ap not lock_itself))
      ∙ ap {A = List DonationData} {B = Thread} (λ l. record (k.threads donner) { donationq = l })
          (retain-all (other_acceptor k.current) q c.no_acceptor)

  undone-others : (t : ℕ) → t ≢ k.current → t ≢ donner → undone.threads t ≡ k.threads t
  unfolding give
  undone-others t h h' =
      settle-others lockid the_gift cleared c.apart t h h'
      ∙ cleared-others t h
      ∙ give-others donner lockid k c.apart t h h'

  undone-current : undone.current ≡ k.current
  unfolding give settle
  undone-current = refl

  found : find_donation lockid (current_thread after_gift).donationq ≡ some the_gift
  unfolding give
  found =
      ap {A = Thread} {B = Option DonationData} (λ t. find_donation lockid t.donationq)
        (give-holder donner lockid k c.apart)
      ∙ find_donation-push_back lockid mine the_gift c.free lock_itself

  -- A donation on a lock that the current thread holds, and the release of that lock, leave every
  -- priority and every donation of the kernel as they were, and what is stored of the holder's priority
  -- is that priority: the donner is another thread; the holder's priority was not set by
  -- `set_priority` and is no lower than the donations that it has; it has none on this lock or from
  -- this donner, and the donner none on this lock or for the holder; and the holder has released
  -- no lock of this number or a lower one with a donation before.
  pub restore-give :
      (t : ℕ)
      → (restore lockid (give donner k.current lockid k)).threads t
        ≡ (if k.current == t then (back lockid k) else k.threads t)
  unfolding give settle
  restore-give t =
      let steps = ap (λ k. k.threads t) (restore-found lockid after_gift the_gift found) in
      let self : (k.current == k.current) ≡ true = ground arith in
      elim (Bool-cases (k.current == t)) [
        | inl this ↦
            steps
            ∙ ap {A = Bool} {B = Thread}
                (λ b. if b then with_setted (undone.threads k.current) else undone.threads t) this
            ∙ ap {A = Thread} {B = Thread} with_setted undone-holder
            ∙ ap {A = Option ℕ} {B = Thread}
                (λ o. record (back lockid k) { priority = set_or (back lockid k).priority o })
                c.unset
            ∙ ap {A = Bool} {B = Thread} (λ b. if b then (back lockid k) else k.threads t)
                (sym this)
        | inr other ↦
            let kept : undone.threads t ≡ k.threads t = elim (Bool-cases (t == donner)) [
              | inl is_donner ↦
                  let same : t ≡ donner = ground arith in
                  subst (λ u. undone.threads u ≡ k.threads u) (sym same) undone-donner
              | inr not_donner ↦ undone-others t (ground arith) (ground arith)
            ] in
            steps
            ∙ ap {A = Bool} {B = Thread}
                (λ b. if b then with_setted (undone.threads k.current) else undone.threads t) other
            ∙ kept
            ∙ ap {A = Bool} {B = Thread} (λ b. if b then (back lockid k) else k.threads t)
                (sym other)
      ]
