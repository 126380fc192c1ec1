-- ===== src/Thread/SleepQueue.antt =====
-- src/sleepq.rs: the binary heap of sleeping threads, by the wake times that its `Ord` compares. The
-- heap is a list here, and `pop` takes an entry of the least wake time, which is the greatest entry
-- of the reversed order; which of two equal ones comes first is not used in any proof.
use tacos.Prelude.{
  ◌≤◌, ℕ, ◌+◌, ◌<◌, ◌≡◌, refl, List, [], ◌∷◌, leb, ◌==◌, if◌then◌else◌, arith, length, Bool-cases,
  inl, inr,
}
use tacos.Thread.State.{SleepData, Kernel, is_blocked}

-- The least entry of a non-empty heap, and the others.
unfoldable pub extract_min : SleepData → List SleepData → SleepData × List SleepData
extract_min d [] = (d, [])
extract_min d (e ∷ es) =
    let first = leb d.ticks e.ticks in
    let (low, rest) = extract_min (if first then d else e) es in
    (low, (if first then e else d) ∷ rest)

-- The entries of a thread, and those of them that are due.
abbrev pub one_for : ℕ → SleepData → ℕ
one_for t d = if d.thread == t then 1 else 0

abbrev pub entries : ℕ → List SleepData → ℕ
entries t [] = 0
entries t (d ∷ ds) = one_for t d + entries t ds

abbrev pub due_for : ℕ → ℕ → SleepData → ℕ
due_for now t d = if leb d.ticks now then one_for t d else 0

abbrev pub due : ℕ → ℕ → List SleepData → ℕ
due now t [] = 0
due now t (d ∷ ds) = due_for now t d + due now t ds

-- No entry is due.
abbrev pub AllLater : ℕ → List SleepData → Type 0
AllLater now [] = Unit
AllLater now (d ∷ ds) = (now < d.ticks) × AllLater now ds

pub extract_min-entries :
    (t : ℕ) (d : SleepData) (ds : List SleepData)
    → let (low, rest) = extract_min d ds in
      one_for t low + entries t rest ≡ one_for t d + entries t ds
unfolding extract_min
extract_min-entries t d [] = refl
extract_min-entries t d (e ∷ es) = elim (Bool-cases (leb d.ticks e.ticks)) [
  | inl a ↦ rw a (omega (arith, extract_min-entries t d es))
  | inr a ↦ rw a (omega (arith, extract_min-entries t e es))
]

pub extract_min-due :
    (now t : ℕ) (d : SleepData) (ds : List SleepData)
    → let (low, rest) = extract_min d ds in
      due_for now t low + due now t rest ≡ due_for now t d + due now t ds
unfolding extract_min
extract_min-due now t d [] = refl
extract_min-due now t d (e ∷ es) = elim (Bool-cases (leb d.ticks e.ticks)) [
  | inl a ↦ rw a (omega (arith, extract_min-due now t d es))
  | inr a ↦ rw a (omega (arith, extract_min-due now t e es))
]

pub length-extract_min :
    (d : SleepData) (ds : List SleepData) → length (extract_min d ds).1 ≡ length ds
unfolding extract_min
length-extract_min d [] = refl
length-extract_min d (e ∷ es) = elim (Bool-cases (leb d.ticks e.ticks)) [
  | inl a ↦ rw a (omega (arith, length-extract_min d es))
  | inr a ↦ rw a (omega (arith, length-extract_min e es))
]

-- If the least entry is not due, none is.
pub extract_min-AllLater :
    (now : ℕ) (d : SleepData) (ds : List SleepData)
    → now < (extract_min d ds).0.ticks
    → (now < d.ticks) × AllLater now ds
unfolding extract_min
extract_min-AllLater now d [] h = (h, tt)
extract_min-AllLater now d (e ∷ es) h = elim (Bool-cases (leb d.ticks e.ticks)) [
  | inl a ↦ let ih = extract_min-AllLater now d es (rw a at h) in (ih.0, (ground arith, ih.1))
  | inr a ↦ let ih = extract_min-AllLater now e es (rw a at h) in (ground arith, (ih.0, ih.1))
]

pub AllLater-due : (now t : ℕ) (ds : List SleepData) → AllLater now ds → due now t ds ≡ 0
AllLater-due now t [] h = refl
AllLater-due now t (d ∷ ds) h = ground (arith, AllLater-due now t ds h.1)

-- Every sleeper is blocked, and has one entry.
abbrev pub Sleeping : Kernel → Type 0
Sleeping k = (t : ℕ) → entries t k.sleep_queue ≤ (if is_blocked (k.threads t).status then 1 else 0)
