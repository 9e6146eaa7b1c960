-- ===== src/Nodes.antt =====
-- list.h: the doubly linked lists that the other parts keep, as pointers in a store.
pub mod Chains
mod Tests
use qfenix.Common.{
  ℕ, zero, suc, Bool, true, false, Option, none, some, List, [], ◌∷◌, ◌==◌, if◌then◌else◌,
}

-- The fields `next` and `prev` of the nodes, by their addresses; the head of a list is a node.
pub record Heap : Type 0 where
  pub next : ℕ → ℕ
  pub prev : ℕ → ℕ

-- An assignment to a field of the node at `a`.
unfoldable pub assign : (ℕ → ℕ) → ℕ → ℕ → ℕ → ℕ
assign field a value x = if x == a then value else field x

unfoldable pub list_init : ℕ → Heap → Heap
unfolding assign
list_init list h = record { next = assign h.next list list; prev = assign h.prev list list }

unfoldable pub list_empty : ℕ → Heap → Bool
list_empty list h = h.next list == list

unfoldable pub list_add : ℕ → ℕ → Heap → Heap
unfolding assign
list_add list item h =
    let prev = h.prev list in
    record {
      next = assign (assign h.next item list) prev item;
      prev = assign (assign h.prev item prev) list item;
    }

unfoldable pub list_del : ℕ → Heap → Heap
unfolding assign
list_del item h =
    let next = assign h.next (h.prev item) (h.next item) in
    record { next = next; prev = assign h.prev (next item) (h.prev item) }

-- `list_for_each` from behind a node: the nodes it visits, `none` while fuel does not get it back
-- to the head.
unfoldable pub list_walk : ℕ → Heap → ℕ → ℕ → Option (List ℕ)
list_walk zero h list p = none
list_walk (suc fuel) h list p = elim (h.next p == list) [
  | true ↦ some []
  | false ↦ elim (list_walk fuel h list (h.next p)) [
    | none ↦ none
    | some visited ↦ some (h.next p ∷ visited)
  ]
]
