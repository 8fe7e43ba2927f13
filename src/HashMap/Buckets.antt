-- ===== src/HashMap/Buckets.antt =====
-- The bucket array, and the loop that moves every node to a new one.
pub mod Laws
pub mod Nodes
pub mod Write
use loeux_riscv.Base.{ℕ, ◌%◌, List, [], ◌∷◌, get_or, set}
use loeux_riscv.HashMap.Chain.{Node}

-- `node->next = new_buckets[new_index]; new_buckets[new_index] = node;`
unfoldable pub place : ℕ → Node → List (List Node) → List (List Node)
place n x bs = let i = x.hash % n in set bs i (x ∷ get_or bs i [])

unfoldable pub move_chain : ℕ → List Node → List (List Node) → List (List Node)
move_chain n [] bs = bs
move_chain n (x ∷ c) bs = move_chain n c (place n x bs)

unfoldable pub move_all : ℕ → List (List Node) → List (List Node) → List (List Node)
unfolding move_chain
move_all n [] bs = bs
move_all n (c ∷ cs) bs = move_all n cs (move_chain n c bs)
