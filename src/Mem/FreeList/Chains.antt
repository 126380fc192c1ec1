-- ===== src/Mem/FreeList/Chains.antt =====
-- The list in memory implements a list of addresses: each operation of list.rs keeps the chain of
-- links, and does to its items what the name says.
use tacos.Prelude.{
  ℕ, zero, suc, ◌<◌, ◌≡◌, ◌≢◌, refl, sym, ap, ◌∙◌, Bool, true, false, Option, none, some, List, [],
  ◌∷◌, length, ◌==◌, arith, inl, inr, Bool-cases, subst,
}
use tacos.Mem.FreeList.{Memory, write_word, push, pop, Node, iter_mut, pop_node, find_node}

-- Address `a` is none of the items.
abbrev pub Apart : ℕ → List ℕ → Type 0
Apart a [] = Unit
Apart a (x ∷ xs) = (a ≢ x) × Apart a xs

-- The word at `p` and the links behind it hold the items, which are no null pointers, different from
-- each other and from `p`.
abbrev pub Chain : Memory → ℕ → List ℕ → Type 0
Chain m p [] = m p ≡ 0
Chain m p (x ∷ xs) = (m p ≡ x) × (x ≢ 0) × Apart p (x ∷ xs) × Chain m x xs

-- The items without the first `b`.
unfoldable pub delete : ℕ → List ℕ → List ℕ
delete b [] = []
delete b (x ∷ xs) = elim (x == b) [ true ↦ xs | false ↦ x ∷ delete b xs ]

unfoldable pub elem : ℕ → List ℕ → Bool
elem b [] = false
elem b (x ∷ xs) = elim (x == b) [ true ↦ true | false ↦ elem b xs ]

-- A write elsewhere leaves a chain as it is.
pub write_word-Chain :
    (m : Memory) (p a v : ℕ) (xs : List ℕ)
    → a ≢ p
    → Apart a xs
    → Chain m p xs
    → Chain (write_word a v m) p xs
write_word-Chain m p a v [] h apart c = ground (arith, c)
write_word-Chain m p a v (x ∷ xs) h apart c =
    (ground (arith, c.0), c.1, c.2, write_word-Chain m x a v xs apart.0 apart.1 c.3)

-- Items of a chain go from the list after one word to the list after another, where the words hold the
-- same address and the other word is none of the items.
relink :
    (m : Memory) (p x : ℕ) (xs : List ℕ)
    → p ≢ x
    → Apart p xs
    → Chain m x xs
    → Chain (write_word p (m x) m) p xs
relink m p x [] h apart c = ground (arith, c)
relink m p x (y ∷ ys) h apart c =
    (ground (arith, c.0), c.1, apart, write_word-Chain m y p (m x) ys apart.0 apart.1 c.3)

Apart-delete : (a b : ℕ) (xs : List ℕ) → Apart a xs → Apart a (delete b xs)
unfolding delete
Apart-delete a b [] h = tt
Apart-delete a b (x ∷ xs) h =
    elim (x == b) as (λ r. Apart a (elim r [ true ↦ xs | false ↦ x ∷ delete b xs ])) [
      | true ↦ h.1
      | false ↦ (h.0, Apart-delete a b xs h.1)
    ]

-- Outside the list's words, the second memory is the first.
abbrev pub Frame : ℕ → List ℕ → Memory → Memory → Type 0
Frame p xs m after = (q : ℕ) → q ≢ p → Apart q xs → after q ≡ m q

-- `push` puts an address that is neither null nor part of the list in front of its items, and
-- writes only to the list and the item.
pub push-Chain :
    (list item : ℕ) (m : Memory) (xs : List ℕ)
    → Chain m list xs
    → item ≢ 0
    → list ≢ item
    → Apart item xs
    → Apart list xs
    → Chain (push list item m) list (item ∷ xs) × Frame list (item ∷ xs) m (push list item m)
unfolding push
push-Chain list item m xs c nonnull h apart outside = (
  (
    ground arith,
    nonnull,
    (h, outside),
    write_word-Chain (write_word item (m list) m) item list item xs h outside
        (relink m item list xs (λ e. h (sym e)) apart c),
  ),
  λ q a b. ground (arith, b.0),
)

Chain-Apart : (m : Memory) (p : ℕ) (xs : List ℕ) → Chain m p xs → Apart p xs
Chain-Apart m p [] c = tt
Chain-Apart m p (x ∷ xs) c = c.2

-- `pop` answers the first item and takes it off the list, and writes only to the list.
pub pop-Chain :
    (list item : ℕ) (m : Memory) (xs : List ℕ)
    → Chain m list (item ∷ xs)
    → (after : Memory) × (pop list m ≡ (some item, after))
      × Chain after list xs
      × ((q : ℕ) → q ≢ list → after q ≡ m q)
unfolding pop
pop-Chain list item m xs c =
    let full : (m list == 0) ≡ false = ground (arith, c.0, c.1) in
    let after : Memory = write_word list (m item) m in
    (
      after,
      rw (full, pop) (ap (λ y. (some y, write_word list (m y) m)) c.0),
      relink m list item xs c.2.0 c.2.1 c.3,
      λ q h. ground arith,
    )

pub delete-here : (b x : ℕ) (xs : List ℕ) → (x == b) ≡ true → delete b (x ∷ xs) ≡ xs
unfolding delete
delete-here b x xs e = ap (λ r. elim r [ true ↦ xs | false ↦ x ∷ delete b xs ]) e

pub delete-there : (b x : ℕ) (xs : List ℕ) → (x == b) ≡ false → delete b (x ∷ xs) ≡ x ∷ delete b xs
unfolding delete
delete-there b x xs e = ap (λ r. elim r [ true ↦ xs | false ↦ x ∷ delete b xs ]) e

pub elem-here : (b x : ℕ) (xs : List ℕ) → (x == b) ≡ true → elem b (x ∷ xs) ≡ true
unfolding elem
elem-here b x xs e = ap (λ r. elim r [ true ↦ true | false ↦ elem b xs ]) e

pub elem-there : (b x : ℕ) (xs : List ℕ) → (x == b) ≡ false → elem b (x ∷ xs) ≡ elem b xs
unfolding elem
elem-there b x xs e = ap (λ r. elim r [ true ↦ true | false ↦ elem b xs ]) e

pub elem-nil : (b : ℕ) → elem b [] ≡ false
unfolding elem
elem-nil b = refl

find_node-step :
    (fuel b : ℕ) (at : Node) (m : Memory)
    → at.curr ≢ 0
    → (at.curr == b) ≡ false
    → find_node (suc fuel) b at m ≡ find_node fuel b (record { prev = at.curr; curr = m at.curr }) m
unfolding find_node
find_node-step fuel b at m h other =
    let full : (at.curr == 0) ≡ false = ground arith in
    let behind : Node = record { prev = at.curr; curr = m at.curr } in
    ap
      (λ (r : Option Node × Node). elim r.0 [
        | none ↦ none
        | some node ↦ elim (node.curr == b) [ true ↦ some node | false ↦ find_node fuel b r.1 m ]
      ])
      (ap (λ r. elim r [ true ↦ (none, at) | false ↦ (some at, behind) ]) full)
    ∙ ap (λ r. elim r [ true ↦ some at | false ↦ find_node fuel b behind m ]) other

find_node-hit :
    (fuel b : ℕ) (at : Node) (m : Memory)
    → at.curr ≢ 0
    → (at.curr == b) ≡ true
    → find_node (suc fuel) b at m ≡ some at
unfolding find_node
find_node-hit fuel b at m h same =
    let full : (at.curr == 0) ≡ false = ground arith in rw (full, find_node, same) refl

-- If an address is on the list, `find` finds its first node, and `ListNode::pop` takes just that item
-- off the list, wherever it stands, and writes only to the list and its items.
pub find_node-Chain :
    (fuel p b : ℕ) (m : Memory) (xs : List ℕ)
    → Chain m p xs
    → length xs < fuel
    → elem b xs ≡ true
    → (node : Node) × (find_node fuel b (iter_mut p m) m ≡ some node)
      × (node.curr ≡ b)
      × Chain (pop_node node m) p (delete b xs)
      × Frame p xs m (pop_node node m)
unfolding pop_node elem
find_node-Chain zero p b m xs c le h = absurd (omega arith)
find_node-Chain (suc fuel) p b m [] c le h = absurd (ground arith)
find_node-Chain (suc fuel) p b m (x ∷ xs) c le h = elim (Bool-cases (x == b)) [
  | inl here ↦ (
    iter_mut p m,
    find_node-hit fuel b (iter_mut p m) m (ground (arith, c.0, c.1)) (ground (arith, c.0)),
    ground (arith, c.0),
    subst (λ l. Chain (write_word p (m (m p)) m) p l) (sym (delete-here b x xs here))
        (subst (λ y. Chain (write_word p (m y) m) p xs) (sym c.0)
          (relink m p x xs c.2.0 c.2.1 c.3)),
    λ q a o. ground arith,
  )
  | inr other ↦
      let below : elem b xs ≡ true = ground arith in
      let (node, finds, is_b, chain, frame) =
        find_node-Chain fuel x b m xs c.3 (omega arith) below in
      let step =
        find_node-step fuel b (iter_mut p m) m (ground (arith, c.0, c.1)) (ground (arith, c.0)) in
      (
        node,
        step ∙ ap (λ y. find_node fuel b (record { prev = y; curr = m y }) m) c.0 ∙ finds,
        is_b,
        subst (λ l. Chain (pop_node node m) p l) (sym (delete-there b x xs other))
            (frame p c.2.0 c.2.1 ∙ c.0, c.1, (c.2.0, Apart-delete p b xs c.2.1), chain),
        λ q a o. frame q o.0 o.1,
      )
]

-- If it is not, `find` finds nothing.
pub find_node-none :
    (fuel p b : ℕ) (m : Memory) (xs : List ℕ)
    → Chain m p xs
    → length xs < fuel
    → elem b xs ≡ false
    → find_node fuel b (iter_mut p m) m ≡ none
unfolding elem find_node
find_node-none zero p b m xs c le h = absurd (omega arith)
find_node-none (suc fuel) p b m [] c le h =
    let empty : (m p == 0) ≡ true = ground (arith, c) in rw (empty, find_node) refl
find_node-none (suc fuel) p b m (x ∷ xs) c le h =
    let other : (x == b) ≡ false = ground arith in
    let below : elem b xs ≡ false = ground arith in
    find_node-step fuel b (iter_mut p m) m (ground (arith, c.0, c.1)) (ground (arith, c.0))
    ∙ ap (λ y. find_node fuel b (record { prev = y; curr = m y }) m) c.0
    ∙ find_node-none fuel x b m xs c.3 (omega arith) below
