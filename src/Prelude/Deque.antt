-- ===== src/Prelude/Deque.antt =====
-- `VecDeque` as the list of its items, front first, and how often an item occurs.
use Prim.Native.Nat.{ℕ, zero, suc, ◌+◌, ◌<◌}
use mathlib.Core.Path.{◌≡◌, refl, ap, subst}
use mathlib.Core.Logic.{◌⊎◌, inl, inr}
use mathlib.Core.Bool.{Bool, true, false}
use mathlib.Core.Option.{Option, none, some}
use mathlib.Core.List.{List, [], ◌∷◌, ◌++◌}
use native.Mathlib.Decide.{ℕ_discrete}
use native.Mathlib.Omega.{arith}
use tacos.Prelude.Tests.{◌==◌, if◌then◌else◌}
use tacos.Prelude.Lists.{All, set, get_or}

module _ {ℓ} {A : Type ℓ} where
  abbrev pub push_front : List A → A → List A
  push_front q x = x ∷ q

  abbrev pub push_back : List A → A → List A
  push_back q x = q ++ x ∷ []

  abbrev pub pop_back : List A → Option (A × List A)
  pop_back [] = none
  pop_back (x ∷ xs) = elim (pop_back xs) [
    | none ↦ some (x, [])
    | some (y, rest) ↦ some (y, x ∷ rest)
  ]

  abbrev pub is_empty : List A → Bool
  is_empty [] = true
  is_empty (_ ∷ _) = false

  pub pop_back_cases :
      (q : List A)
      → ((pop_back q ≡ none) × (q ≡ []))
        ⊎ ((x : A) × (rest : List A) × (pop_back q ≡ some (x, rest)) × (q ≡ push_back rest x))
  pop_back_cases [] = inl (refl, refl)
  pop_back_cases (x ∷ xs) = elim (pop_back_cases xs) [
    | inl (e, p) ↦ inr (x, [], ground (arith, e), ap (λ l. x ∷ l) p)
    | inr (y, rest, e, p) ↦ inr (y, x ∷ rest, ground (arith, e), ap (λ l. x ∷ l) p)
  ]

  pub All-append {κ} : (P : A → Type κ) (xs ys : List A) → All P xs → All P ys → All P (xs ++ ys)
  All-append P [] ys hx hy = hy
  All-append P (x ∷ xs) ys hx hy = (hx.0, All-append P xs ys hx.1 hy)

  pub All-append_left {κ} : (P : A → Type κ) (xs ys : List A) → All P (xs ++ ys) → All P xs
  All-append_left P [] ys h = tt
  All-append_left P (x ∷ xs) ys h = (h.0, All-append_left P xs ys h.1)

  pub All-append_right {κ} : (P : A → Type κ) (xs ys : List A) → All P (xs ++ ys) → All P ys
  All-append_right P [] ys h = h
  All-append_right P (x ∷ xs) ys h = All-append_right P xs ys h.1

  pub set-get_or : (xs : List A) (i : ℕ) (d : A) → set xs i (get_or xs i d) ≡ xs
  set-get_or [] i d = refl
  set-get_or (x ∷ xs) zero d = refl
  set-get_or (x ∷ xs) (suc i) d = ap (λ l. x ∷ l) (set-get_or xs i d)

  pub set-set : (xs : List A) (i : ℕ) (v w : A) → set (set xs i v) i w ≡ set xs i w
  set-set [] i v w = refl
  set-set (x ∷ xs) zero v w = refl
  set-set (x ∷ xs) (suc i) v w = ap (λ l. x ∷ l) (set-set xs i v w)

abbrev pub count : ℕ → List ℕ → ℕ
count a [] = 0
count a (x ∷ xs) = (if x == a then 1 else 0) + count a xs

pub count-append : (a : ℕ) (xs ys : List ℕ) → count a (xs ++ ys) ≡ count a xs + count a ys
count-append a [] ys = omega arith
count-append a (x ∷ xs) ys = ground (arith, count-append a xs ys)

-- What holds of every item holds of one that occurs.
pub All-at : (P : ℕ → Type 0) (a : ℕ) (xs : List ℕ) → All P xs → 0 < count a xs → P a
All-at P a [] h c = absurd (omega arith)
All-at P a (x ∷ xs) h c = elim (ℕ_discrete x a) [
  | yes e ↦ subst P e h.0
  | no n ↦ All-at P a xs h.1 (ground arith)
]
