-- ===== src/Sync/Sleep/Lenders.antt =====
-- `release` keeps every priority in the range of the queues.
use tacos.Prelude.{
  ℕ, ◌<◌, ◌≡◌, subst, Bool, some, max, inl, inr, Bool-cases, Option-cases, All, ltb, ◌==◌, arith,
  List, ◌∷◌, [],
}
use tacos.Thread.Scheduler.{queue_count}
use tacos.Thread.State.{DonationData, Thread, Kernel, set_priority_of, current_thread}
use tacos.Sync.Sleep.{
  amend, with_donations, retain, find_donation, other_lock, other_donner, other_acceptor,
  with_stored, with_setted, settle, settle_if, restore, highest_donation, delete_donation,
}

abbrev pub IsGift : DonationData → Type 0
IsGift d = (d.donner_priority < queue_count) × (d.prev_priority < queue_count)

-- Every priority that a thread can come back to has a queue.
pub record IsLender (t : Thread) : Type 0 where
  pub in_range : t.priority < queue_count
  pub donations : All IsGift t.donationq
  pub stored : t.stored_prev.1 < queue_count
  pub setted : (p : ℕ) → t.priority_setted ≡ some p → p < queue_count

abbrev pub AllLenders : Kernel → Type 0
AllLenders k = (t : ℕ) → IsLender (k.threads t)

retain-All :
    (test : DonationData → Bool) (q : List DonationData) → All IsGift q → All IsGift (retain test q)
unfolding retain
retain-All test [] h = h
retain-All test (x ∷ xs) h = elim (Bool-cases (test x)) [
  | inl keep ↦ rw keep (h.0, retain-All test xs h.1)
  | inr gone ↦ rw gone (retain-All test xs h.1)
]

find_donation-All :
    (lockid : ℕ) (q : List DonationData) {d : DonationData}
    → All IsGift q
    → find_donation lockid q ≡ some d
    → IsGift d
unfolding find_donation
find_donation-All lockid [] h e = cc
find_donation-All lockid (x ∷ xs) {d = d} h e = elim (Bool-cases (x.lockid == lockid)) [
  | inl this ↦ let same : x ≡ d = grind (arith, this, e) in subst IsGift same h.0
  | inr other ↦ find_donation-All lockid xs {d = d} h.1 (grind (arith, other, e))
]

highest_donation_lt :
    (final : ℕ) (q : List DonationData)
    → final < queue_count
    → All IsGift q
    → highest_donation final q < queue_count
unfolding highest_donation
highest_donation_lt final [] h all = h
highest_donation_lt final (x ∷ xs) h all =
    highest_donation_lt (max final x.donner_priority) xs (omega (arith, all.0.0)) all.1

amend-AllLenders :
    (t : ℕ) (f : Thread → Thread) (k : Kernel)
    → IsLender (f (k.threads t))
    → AllLenders k
    → AllLenders (amend t f k)
amend-AllLenders t f k here all u = elim (Bool-cases (t == u)) [
  | inl this ↦ rw this here
  | inr other ↦ rw other (all u)
]

retain-IsLender :
    (test : DonationData → Bool) (t : Thread)
    → IsLender t
    → IsLender (with_donations (retain test) t)
retain-IsLender test t l = record {
  in_range = l.in_range;
  donations = retain-All test t.donationq l.donations;
  stored = l.stored;
  setted = l.setted;
}

with_stored-IsLender :
    (lockid prev : ℕ) (t : Thread)
    → prev < queue_count
    → IsLender t
    → IsLender (with_stored lockid prev t)
with_stored-IsLender lockid prev t h l = record {
  in_range = l.in_range;
  donations = l.donations;
  stored = elim (Bool-cases (ltb lockid t.stored_prev.0)) [
    | inl less ↦ rw less h
    | inr more ↦ rw more l.stored
  ];
  setted = l.setted;
}

with_setted-IsLender : (t : Thread) → IsLender t → IsLender (with_setted t)
with_setted-IsLender t l = record {
  in_range = elim (Option-cases t.priority_setted) [
    | inl unset ↦ rw unset l.in_range
    | inr (p, is_set) ↦ rw is_set (l.setted p is_set)
  ];
  donations = l.donations;
  stored = l.stored;
  setted = l.setted;
}

retain-AllLenders :
    (test : DonationData → Bool) (t : ℕ) (k : Kernel)
    → AllLenders k
    → AllLenders (amend t (with_donations (retain test)) k)
retain-AllLenders test t k all =
    amend-AllLenders t (with_donations (retain test)) k (retain-IsLender test (k.threads t) (all t))
      all

set_priority_of-AllLenders :
    (t p : ℕ) (k : Kernel) → p < queue_count → AllLenders k → AllLenders (set_priority_of t p k)
set_priority_of-AllLenders t p k h all =
    amend-AllLenders t (λ u. record u { priority = p }) k
      (record {
        in_range = h;
        donations = (all t).donations;
        stored = (all t).stored;
        setted = (all t).setted;
      })
      all

settle-AllLenders :
    (lockid : ℕ) (ret : DonationData) (k : Kernel)
    → IsGift ret
    → AllLenders k
    → AllLenders (settle lockid ret k)
unfolding settle
settle-AllLenders lockid ret k gift all =
    let k1 = (delete_donation ret.donner lockid k).1 in
    let a1 : AllLenders k1 = retain-AllLenders (other_lock lockid) ret.donner k all in
    let k2 = amend k1.current (with_donations (retain (other_donner ret.donner))) k1 in
    let a2 : AllLenders k2 = retain-AllLenders (other_donner ret.donner) k1.current k1 a1 in
    let k3 = amend ret.donner (with_donations (retain (other_acceptor k.current))) k2 in
    let a3 : AllLenders k3 = retain-AllLenders (other_acceptor k.current) ret.donner k2 a2 in
    let k4 = amend k3.current (with_stored lockid ret.prev_priority) k3 in
    let a4 : AllLenders k4 =
      amend-AllLenders k3.current (with_stored lockid ret.prev_priority) k3
        (with_stored-IsLender lockid ret.prev_priority (current_thread k3) gift.1 (a3 k3.current))
        a3 in
    let me : IsLender (current_thread k4) = a4 k4.current in
    set_priority_of-AllLenders k4.current
      (highest_donation (current_thread k4).stored_prev.1 (current_thread k4).donationq) k4
      (highest_donation_lt (current_thread k4).stored_prev.1 (current_thread k4).donationq me.stored
        me.donations)
      a4

pub restore-AllLenders : (lockid : ℕ) (k : Kernel) → AllLenders k → AllLenders (restore lockid k)
unfolding restore
restore-AllLenders lockid k all =
    let k1 = (delete_donation k.current lockid k).1 in
    let a1 : AllLenders k1 = retain-AllLenders (other_lock lockid) k.current k all in
    let found = find_donation lockid (current_thread k).donationq in
    let k2 = settle_if lockid found k1 in
    let a2 : AllLenders k2 = elim (Option-cases found) [
      | inl none_found ↦ rw none_found a1
      | inr (d, is_found) ↦ rw is_found (
          settle-AllLenders lockid d k1
            (find_donation-All lockid (current_thread k).donationq {d = d} (all k.current).donations
              is_found)
            a1)
    ] in
    amend-AllLenders k2.current with_setted k2
      (with_setted-IsLender (current_thread k2) (a2 k2.current)) a2
