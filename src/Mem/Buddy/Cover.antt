-- ===== src/Mem/Buddy/Cover.antt =====
-- How often an address lies in the free chunks of the allocator, and what a push and a pop do to that.
use tacos.Prelude.{
  subst, ℕ, zero, suc, ◌+◌, ◌<◌, ◌≡◌, refl, ap, ◌∙◌, true, some, List, [], ◌∷◌, length, get_or, set,
  leb, ltb, ◌&&◌, if◌then◌else◌, arith, length-set, get_or-set_self, get_or-set_ne,
}
use tacos.Prelude.Outcome.{ok}
use tacos.Mem.Buddy.{Buddy, chunk, push_block, pop_block}

-- Whether `a` is one of the `s` addresses from `x` on.
abbrev pub inside : ℕ → ℕ → ℕ → ℕ
inside s x a = if leb x a && ltb a (x + s) then 1 else 0

abbrev pub cover_list : ℕ → List ℕ → ℕ → ℕ
cover_list s [] a = 0
cover_list s (x ∷ xs) a = inside s x a + cover_list s xs a

abbrev pub cover_from : ℕ → List (List ℕ) → ℕ → ℕ
cover_from k [] a = 0
cover_from k (l ∷ ls) a = cover_list (chunk k) l a + cover_from (suc k) ls a

-- In how many free chunks an address lies.
unfoldable pub cover : Buddy → ℕ → ℕ
cover b a = cover_from 0 b.free_lists a

cover_from-set :
    (k : ℕ) (ls : List (List ℕ)) (i : ℕ) (v : List ℕ) (a : ℕ)
    → i < length ls
    → cover_from k (set ls i v) a + cover_list (chunk (k + i)) (get_or ls i []) a
      ≡ cover_from k ls a + cover_list (chunk (k + i)) v a
cover_from-set k [] i v a h = absurd (omega arith)
cover_from-set k (l ∷ ls) zero v a h = let z : k + 0 ≡ k = omega arith in rw z (omega arith)
cover_from-set k (l ∷ ls) (suc i) v a h =
    let e : k + suc i ≡ suc k + i = omega arith in
    rw e (omega (arith, cover_from-set (suc k) ls i v a (omega arith)))

-- The other lists, and what is counted, stay as they are.
pub record Sized (b after : Buddy) : Type 0 where
  pub size : length after.free_lists ≡ length b.free_lists
  pub total : after.total ≡ b.total
  pub allocated : after.allocated ≡ b.allocated

unfoldable pub with_list : ℕ → List ℕ → Buddy → Buddy
with_list i v b = record b { free_lists = set b.free_lists i v }

unfoldable pub list_at : Buddy → ℕ → List ℕ
list_at b i = get_or b.free_lists i []

pub cover-with_list :
    (i : ℕ) (v : List ℕ) (b : Buddy) (a : ℕ)
    → i < length b.free_lists
    → cover (with_list i v b) a + cover_list (chunk i) (list_at b i) a
      ≡ cover b a + cover_list (chunk i) v a
unfolding cover with_list list_at
cover-with_list i v b a h =
    let z : 0 + i ≡ i = omega arith in
    subst
      (λ j.
        cover_from 0 (set b.free_lists i v) a + cover_list (chunk j) (get_or b.free_lists i []) a
        ≡ cover_from 0 b.free_lists a + cover_list (chunk j) v a)
      z (cover_from-set 0 b.free_lists i v a h)

-- A list is replaced by what a function makes of it.
pub with_list-list_at :
    (i : ℕ) (b : Buddy) (f : List ℕ → List ℕ)
    → with_list i (f (list_at b i)) b
      ≡ record b { free_lists = set b.free_lists i (f (get_or b.free_lists i [])) }
unfolding with_list list_at
with_list-list_at i b f = refl

pub with_list-Sized : (i : ℕ) (v : List ℕ) (b : Buddy) → Sized b (with_list i v b)
unfolding with_list
with_list-Sized i v b = record {
  size = length-set b.free_lists i v;
  total = refl;
  allocated = refl;
}

pub list_at-with_list :
    (i : ℕ) (v : List ℕ) (b : Buddy) → i < length b.free_lists → list_at (with_list i v b) i ≡ v
unfolding list_at with_list
list_at-with_list i v b h = get_or-set_self b.free_lists i v [] h

pub list_at-with_list_other :
    (i j : ℕ) (v : List ℕ) (b : Buddy) → (i ≡ j → ⊥) → list_at (with_list i v b) j ≡ list_at b j
unfolding list_at with_list
list_at-with_list_other i j v b h = get_or-set_ne b.free_lists i j v [] h

pub push_block-with_list :
    (i block : ℕ) (b : Buddy)
    → i < length b.free_lists
    → push_block i block b ≡ (ok tt, with_list i (block ∷ list_at b i) b)
unfolding push_block with_list list_at
push_block-with_list i block b h =
    let fits : ltb i (length b.free_lists) ≡ true = ground arith in rw fits refl

pub pop_block-with_list :
    (i block : ℕ) (rest : List ℕ) (b : Buddy)
    → i < length b.free_lists
    → list_at b i ≡ block ∷ rest
    → pop_block i b ≡ (ok (some block), with_list i rest b)
unfolding pop_block with_list list_at
pop_block-with_list i block rest b h e =
    let fits : ltb i (length b.free_lists) ≡ true = ground arith in rw (fits, e) refl

pub Sized-trans : {a b c : Buddy} → Sized a b → Sized b c → Sized a c
Sized-trans x y = record {
  size = y.size ∙ x.size;
  total = y.total ∙ x.total;
  allocated = y.allocated ∙ x.allocated;
}

pub cover-push :
    (i block : ℕ) (b : Buddy) (a : ℕ)
    → i < length b.free_lists
    → cover (with_list i (block ∷ list_at b i) b) a ≡ cover b a + inside (chunk i) block a
cover-push i block b a h = omega (arith, cover-with_list i (block ∷ list_at b i) b a h)

pub cover-pop :
    (i block : ℕ) (rest : List ℕ) (b : Buddy) (a : ℕ)
    → i < length b.free_lists
    → list_at b i ≡ block ∷ rest
    → cover (with_list i rest b) a + inside (chunk i) block a ≡ cover b a
cover-pop i block rest b a h e =
    omega (arith, cover-with_list i rest b a h, ap (λ l. cover_list (chunk i) l a) e)

-- A chunk is its two halves.
pub inside-halves :
    (j block a : ℕ)
    → inside (chunk (suc j)) block a
      ≡ inside (chunk j) block a + inside (chunk j) (block + chunk j) a
unfolding chunk
inside-halves j block a = ground arith
