-- ===== src/Disk/Inode/Slices.antt =====
-- Bytes by position: a slice of a function on positions, and a list as such a slice.
use tacos.Prelude.{
  ℕ, zero, suc, ◌+◌, ◌-◌, ◌≤◌, ◌<◌, ◌≡◌, refl, sym, ap, ◌∙◌, List, [], ◌∷◌, ◌++◌, length, take,
  drop, get_or, arith, if◌then◌else◌, ltb, leb, ◌&&◌, max, length-take,
}

unfoldable pub slice : (ℕ → ℕ) → ℕ → ℕ → List ℕ
slice f i zero = []
slice f i (suc n) = f i ∷ slice f (i + 1) n

pub length-slice : (f : ℕ → ℕ) (i n : ℕ) → length (slice f i n) ≡ n
unfolding slice
length-slice f i zero = refl
length-slice f i (suc n) = ap suc (length-slice f (i + 1) n)

pub slice-same :
    (f g : ℕ → ℕ) (i j n : ℕ)
    → ((k : ℕ) → k < n → f (i + k) ≡ g (j + k))
    → slice f i n ≡ slice g j n
unfolding slice
slice-same f g i j zero h = refl
slice-same f g i j (suc n) h =
    let first : f i ≡ g j = ground (arith, h 0 (omega arith)) in
    let rest : slice f (i + 1) n ≡ slice g (j + 1) n =
      slice-same f g (i + 1) (j + 1) n (λ k lt. let e = h (k + 1) (omega arith) in ground arith) in
    rw (first, rest) refl

pub slice-append : (f : ℕ → ℕ) (i a b : ℕ) → slice f i a ++ slice f (i + a) b ≡ slice f i (a + b)
unfolding slice
slice-append f i zero b =
    let e : i + 0 ≡ i = omega arith in let z : 0 + b ≡ b = omega arith in rw (e, z) refl
slice-append f i (suc a) b =
    let e : i + suc a ≡ i + 1 + a = omega arith in
    let s : suc a + b ≡ suc (a + b) = omega arith in rw (e, s, slice-append f (i + 1) a b) refl

pub take-slice : (f : ℕ → ℕ) (i n m : ℕ) → n ≤ m → take n (slice f i m) ≡ slice f i n
unfolding slice
take-slice f i zero m h = refl
take-slice f i (suc n) zero h = absurd (omega arith)
take-slice f i (suc n) (suc m) h = ap (λ l. f i ∷ l) (take-slice f (i + 1) n m (omega arith))

pub drop-slice : (f : ℕ → ℕ) (i n m : ℕ) → drop n (slice f i m) ≡ slice f (i + n) (m - n)
unfolding slice
drop-slice f i zero m =
    let e : i + 0 ≡ i = omega arith in let z : m - 0 ≡ m = omega arith in rw (e, z) refl
drop-slice f i (suc n) zero = let z : 0 - suc n ≡ 0 = omega arith in rw z refl
drop-slice f i (suc n) (suc m) =
    let e : i + suc n ≡ i + 1 + n = omega arith in
    let s : suc m - suc n ≡ m - n = omega arith in rw (e, s) (drop-slice f (i + 1) n m)

at_suc : (x : ℕ) (xs : List ℕ) (k : ℕ) → get_or xs (0 + k) 0 ≡ get_or (x ∷ xs) (1 + k) 0
at_suc x xs k =
    let z : 0 + k ≡ k = omega arith in let e : 1 + k ≡ suc k = omega arith in rw (z, e) refl

-- A list is the slice of its own positions.
pub list-slice : (xs : List ℕ) → xs ≡ slice (λ i. get_or xs i 0) 0 (length xs)
unfolding slice
list-slice [] = refl
list-slice (x ∷ xs) =
    ap (λ l. x ∷ l)
      (list-slice xs
        ∙ slice-same (λ i. get_or xs i 0) (λ i. get_or (x ∷ xs) i 0) 0 1 (length xs)
            (λ k lt. at_suc x xs k))

-- A part of a list is the slice of the positions that it has in it.
pub part-slice :
    (xs : List ℕ) (i n : ℕ)
    → i + n ≤ length xs
    → take n (drop i xs) ≡ slice (λ i. get_or xs i 0) i n
part-slice xs i n h =
    let z : 0 + i ≡ i = omega arith in
    ap (λ l. take n (drop i l)) (list-slice xs)
    ∙ ap (take n) (drop-slice (λ i. get_or xs i 0) 0 i (length xs))
    ∙ take-slice (λ i. get_or xs i 0) (0 + i) n (length xs - i) (omega arith)
    ∙ ap (λ j. slice (λ i. get_or xs i 0) j n) z

pub get_or-append :
    (xs ys : List ℕ) (i : ℕ)
    → get_or (xs ++ ys) i 0
      ≡ (if ltb i (length xs) then get_or xs i 0 else get_or ys (i - length xs) 0)
get_or-append [] ys i = let z : i - 0 ≡ i = omega arith in ground (arith, ap (λ j. get_or ys j 0) z)
get_or-append (x ∷ xs) ys zero = ground arith
get_or-append (x ∷ xs) ys (suc i) =
    let same : suc i - suc (length xs) ≡ i - length xs = omega arith in
    ground (arith, get_or-append xs ys i, ap (λ j. get_or ys j 0) same)

pub get_or-take : (n : ℕ) (xs : List ℕ) (i : ℕ) → i < n → get_or (take n xs) i 0 ≡ get_or xs i 0
get_or-take zero xs i h = absurd (omega arith)
get_or-take (suc n) [] i h = refl
get_or-take (suc n) (x ∷ xs) zero h = refl
get_or-take (suc n) (x ∷ xs) (suc i) h = get_or-take n xs i (omega arith)

pub get_or-drop : (n : ℕ) (xs : List ℕ) (i : ℕ) → get_or (drop n xs) i 0 ≡ get_or xs (n + i) 0
get_or-drop zero xs i = let z : 0 + i ≡ i = omega arith in rw z refl
get_or-drop (suc n) [] i = refl
get_or-drop (suc n) (x ∷ xs) i =
    let e : suc n + i ≡ suc (n + i) = omega arith in rw e (get_or-drop n xs i)

-- The bytes `new` written over a part of a list, by position.
pub get_or-patch :
    (xs new : List ℕ) (off n i : ℕ)
    → off + n ≤ length xs
    → n ≤ length new
    → get_or (take off xs ++ (take n new ++ drop (off + n) xs)) i 0
      ≡ (if leb off i && ltb i (off + n) then get_or new (i - off) 0 else get_or xs i 0)
get_or-patch xs new off n i h le =
    let back : off + n + (i - off - n) ≡ max i (off + n) = omega arith in
    ground (
      arith,
      get_or-append (take off xs) (take n new ++ drop (off + n) xs) i,
      get_or-append (take n new) (drop (off + n) xs) (i - length (take off xs)),
      length-take off xs,
      length-take n new,
      get_or-take off xs i,
      get_or-take n new (i - off),
      get_or-drop (off + n) xs (i - off - n),
    )

-- Two slices of one length that differ in a part that is `new` in the second.
pub slice-patch :
    (f g : ℕ → ℕ) (new : List ℕ) (off m : ℕ)
    → off + length new ≤ m
    → ((i : ℕ)
        → g i ≡ (if leb off i && ltb i (off + length new) then get_or new (i - off) 0 else f i))
    → slice g 0 m ≡ take off (slice f 0 m) ++ (new ++ drop (off + length new) (slice f 0 m))
slice-patch f g new off m h e =
    let n = length new in
    let before : slice g 0 off ≡ take off (slice f 0 m) =
      slice-same g f 0 0 off (λ k lt. ground (arith, e (0 + k)))
      ∙ sym (take-slice f 0 off m (omega arith)) in
    let middle : slice g off n ≡ new =
      slice-same g (λ i. get_or new i 0) off 0 n
        (λ k lt.
          let shift : off + k - off ≡ 0 + k = omega arith in
          ground (arith, e (off + k), ap (λ j. get_or new j 0) shift))
      ∙ sym (list-slice new) in
    let behind : slice g (off + n) (m - (off + n)) ≡ drop (off + n) (slice f 0 m) =
      slice-same g f (off + n) (0 + (off + n)) (m - (off + n)) (λ k lt.
        let shift : 0 + (off + n) + k ≡ off + n + k = omega arith in
        ground (arith, e (off + n + k), ap f shift))
      ∙ sym (drop-slice f 0 (off + n) m) in
    let sum : n + (m - (off + n)) ≡ m - off = omega arith in
    let all : off + (m - off) ≡ m = omega arith in
    let z : 0 + off ≡ off = omega arith in
    sym (ap (slice g 0) all)
    ∙ sym (slice-append g 0 off (m - off))
    ∙ ap (λ i. slice g 0 off ++ slice g i (m - off)) z
    ∙ ap (λ k. slice g 0 off ++ slice g off k) (sym sum)
    ∙ ap (λ l. slice g 0 off ++ l) (sym (slice-append g off n (m - (off + n))))
    ∙ ap (λ l. l ++ (slice g off n ++ slice g (off + n) (m - (off + n)))) before
    ∙ ap (λ l. take off (slice f 0 m) ++ (l ++ slice g (off + n) (m - (off + n)))) middle
    ∙ ap (λ l. take off (slice f 0 m) ++ (new ++ l)) behind
