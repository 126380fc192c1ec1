-- ===== src/Mem/FreeList.antt =====
-- src/mem/utils/list.rs: a list whose links stand in the free memory that it lists. Memory maps the
-- address of a word to the word; a list is the address of its head word, and 0 is the null pointer.
pub mod Chains
mod Tests
use tacos.Prelude.{ℕ, zero, suc, Bool, true, false, Option, none, some, ◌==◌}
use tacos.Prelude.Outcome.{ok, Exec}

abbrev pub Memory : Type 0
Memory = ℕ → ℕ

abbrev pub write_word : ℕ → ℕ → Memory → Memory
write_word a v m b = elim (a == b) [ true ↦ v | false ↦ m b ]

unfoldable pub is_empty : ℕ → Memory → Bool
is_empty list m = m list == 0

unfoldable pub push : ℕ → ℕ → Memory → Memory
push list item m = let linked : Memory = write_word item (m list) m in write_word list item linked

unfoldable pub pop : ℕ → Memory → Option ℕ × Memory
pop list m = elim (m list == 0) [
  | true ↦ (none, m)
  | false ↦ (some (m list), write_word list (m (m list)) m)
]

-- `ListNode`, and `IterMut` where it stands.
pub record Node : Type 0 where
  pub prev : ℕ
  pub curr : ℕ

abbrev pub iter_mut : ℕ → Memory → Node
iter_mut list m = record { prev = list; curr = m list }

-- The node that `next` answers, and the iterator behind it.
abbrev pub next : Node → Memory → Option Node × Node
next at m = elim (at.curr == 0) [
  | true ↦ (none, at)
  | false ↦ (some at, record { prev = at.curr; curr = m at.curr })
]

-- `ListNode::pop`
unfoldable pub pop_node : Node → Memory → Memory
pop_node at m = write_word at.prev (m at.curr) m

-- `iter_mut().find(|blk| blk.value() == item)`, with the length of the list as fuel.
unfoldable pub find_node : ℕ → ℕ → Node → Memory → Option Node
find_node zero item at m = none
find_node (suc fuel) item at m =
    let (found, behind) = next at m in
    elim found [
      | none ↦ none
      | some node ↦ elim (node.curr == item) [
        | true ↦ some node
        | false ↦ find_node fuel item behind m
      ]
    ]
