-- ===== src/Nodes/Tests.antt =====
-- Runs of the code of list.h, and the properties at concrete inputs.
use qfenix.Common.{ℕ, ◌≡◌, ◌↔◌, refl, arith, true, none, some, List, [], ◌∷◌}
use qfenix.Nodes.{Heap, list_init, list_empty, list_add, list_walk, list_del, assign}
use qfenix.Nodes.Chains.{
  Represents, list_init-Represents, list_add-Represents, list_walk-Represents, list_add_again,
}

-- Nodes that were never used.
abbrev raw : Heap
raw = record { next = λ x. 0; prev = λ x. 0 }

abbrev fresh_list : Heap
fresh_list = list_init 9 raw

abbrev one_node : Heap
one_node = list_add 9 4 fresh_list

abbrev two_nodes : Heap
two_nodes = list_add 9 7 one_node

one_node-Represents : Represents one_node 9 (4 ∷ [])
one_node-Represents =
    list_add-Represents fresh_list 9 4 [] (list_init-Represents 9 raw) (omega arith) tt

two_nodes-Represents : Represents two_nodes 9 (4 ∷ 7 ∷ [])
two_nodes-Represents =
    list_add-Represents one_node 9 7 (4 ∷ []) one_node-Represents (omega arith) (omega arith)

list_add-Represents_example : Represents (list_add 9 7 one_node) 9 (4 ∷ 7 ∷ [])
list_add-Represents_example =
    list_add-Represents one_node 9 7 (4 ∷ []) one_node-Represents (omega arith) (omega arith)

list_walk-Represents_example :
    (list_walk 3 two_nodes 9 9 ≡ some (4 ∷ 7 ∷ []))
    × (list_empty 9 two_nodes ≡ true ↔ ◌≡◌ {A = List ℕ} (4 ∷ 7 ∷ []) [])
list_walk-Represents_example =
    list_walk-Represents two_nodes 9 3 (4 ∷ 7 ∷ []) two_nodes-Represents (omega arith)

list_add_again_example : list_walk 50 (list_add 9 7 two_nodes) 9 9 ≡ none
list_add_again_example = list_add_again two_nodes 9 7 50 (4 ∷ []) two_nodes-Represents

-- A node that is taken out is skipped.
list_del_test : list_walk 3 (list_del 4 two_nodes) 9 9 ≡ some (7 ∷ [])
unfolding list_walk list_del list_add list_init assign
list_del_test = refl

-- A node that is added behind the one that was added twice ends the walk again.
mended_test : list_walk 5 (list_add 9 3 (list_add 9 7 two_nodes)) 9 9 ≡ some (4 ∷ 7 ∷ 3 ∷ [])
unfolding list_walk list_add list_init
mended_test = refl
