-- ===== src/Mem/FreeList/Tests.antt =====
-- A list of three items in memory, the second of which is looked for.
use tacos.Prelude.{ℕ, ◌≡◌, refl, some, [], ◌∷◌, arith, true, ◌==◌, if◌then◌else◌}
use tacos.Mem.FreeList.{Node, find_node, iter_mut, pop_node}
use tacos.Mem.FreeList.Chains.{Chain, Frame, delete, elem, find_node-Chain}

-- The list is at address 8.
abbrev three : ℕ → ℕ
three a = if a == 8 then 300 else (if a == 300 then 200 else (if a == 200 then 100 else 0))

three-Chain : Chain three 8 (300 ∷ 200 ∷ 100 ∷ [])
three-Chain = (
  refl,
  ground arith,
  (ground arith, (ground arith, (ground arith, tt))),
  (
    refl,
    ground arith,
    (ground arith, (ground arith, tt)),
    (refl, ground arith, (ground arith, tt), refl),
  ),
)

second_there : elem 200 (300 ∷ 200 ∷ 100 ∷ []) ≡ true
unfolding elem
second_there = refl

find_node-Chain_example :
    (node : Node) × (find_node 4 200 (iter_mut 8 three) three ≡ some node)
    × (node.curr ≡ 200)
    × Chain (pop_node node three) 8 (delete 200 (300 ∷ 200 ∷ 100 ∷ []))
    × Frame 8 (300 ∷ 200 ∷ 100 ∷ []) three (pop_node node three)
find_node-Chain_example =
    find_node-Chain 4 8 200 three (300 ∷ 200 ∷ 100 ∷ []) three-Chain (omega arith) second_there
