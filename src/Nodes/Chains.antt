-- ===== src/Nodes/Chains.antt =====
-- list.h: the pointers represent a list of nodes, and the operations are those of lists.
use qfenix.Common.{
  ℕ, zero, suc, ◌<◌, ◌≡◌, ◌≢◌, ◌↔◌, refl, sym, ◌∙◌, arith, true, none, some, List, [], ◌∷◌, ◌++◌,
  length, All,
}
use qfenix.Nodes.{Heap, assign, list_init, list_empty, list_add, list_walk}

-- The pointers lead from `p` through the nodes and back to the head, in both directions.
abbrev pub IsChain : Heap → ℕ → ℕ → List ℕ → Type 0
IsChain h list p [] = (h.next p ≡ list) × (h.prev list ≡ p)
IsChain h list p (x ∷ xs) = (h.next p ≡ x) × (h.prev x ≡ p) × IsChain h list x xs

abbrev pub IsNotIn : ℕ → List ℕ → Type 0
IsNotIn x = All (λ y. y ≢ x)

abbrev pub IsDistinct : List ℕ → Type 0
IsDistinct [] = Unit {0}
IsDistinct (x ∷ xs) = IsNotIn x xs × IsDistinct xs

-- The list with that head has these nodes in this order, none of them twice and none the head.
abbrev pub Represents : Heap → ℕ → List ℕ → Type 0
Represents h list xs = IsChain h list list xs × IsNotIn list xs × IsDistinct xs

-- The last node is one of the chain.
last_in :
    (h : Heap) (list p z : ℕ) (xs : List ℕ)
    → IsChain h list p xs
    → p ≢ z
    → IsNotIn z xs
    → h.prev list ≢ z
last_in h list p z [] (a, b) np nx = λ e. np (sym b ∙ e)
last_in h list p z (x ∷ xs) (a, b, c) np (nx, rest) = last_in h list x z xs c nx rest

add-IsChain :
    (h : Heap) (list item p : ℕ) (xs : List ℕ)
    → IsChain h list p xs
    → item ≢ list
    → p ≢ item
    → IsNotIn item xs
    → IsNotIn list xs
    → IsNotIn p xs
    → IsDistinct xs
    → IsChain (list_add list item h) list p (xs ++ item ∷ [])
unfolding list_add assign
add-IsChain h list item p [] (a, b) nl np _ _ _ _ = (
  ground (arith, a, b, nl, np),
  ground (arith, a, b, nl, np),
  (ground (arith, a, b, nl, np), ground (arith, a, b, nl, np)),
)
add-IsChain h list item p (x ∷ xs) (a, b, c) nl np (nx, fresh) (hx, heads) (px, ps) (dx, ds) = (
  ground (arith, a, np, last_in h list x p xs c px ps),
  ground (arith, b, nx, hx),
  add-IsChain h list item x xs c nl nx fresh heads dx ds,
)

IsNotIn-append : (x y : ℕ) (xs : List ℕ) → IsNotIn x xs → y ≢ x → IsNotIn x (xs ++ y ∷ [])
IsNotIn-append x y [] h n = (n, tt)
IsNotIn-append x y (z ∷ xs) h n = (h.0, IsNotIn-append x y xs h.1 n)

IsDistinct-append :
    (item : ℕ) (xs : List ℕ) → IsDistinct xs → IsNotIn item xs → IsDistinct (xs ++ item ∷ [])
IsDistinct-append item [] d f = (tt, tt)
IsDistinct-append item (x ∷ xs) (dx, ds) (nx, f) =
    (IsNotIn-append x item xs dx (λ e. nx (sym e)), IsDistinct-append item xs ds f)

-- A node that is new is put behind the last one: the list it represents grows at its end, whatever
-- the addresses are.
pub list_add-Represents :
    (h : Heap) (list item : ℕ) (xs : List ℕ)
    → Represents h list xs
    → item ≢ list
    → IsNotIn item xs
    → Represents (list_add list item h) list (xs ++ item ∷ [])
list_add-Represents h list item xs (chain, heads, distinct) nl fresh = (
  add-IsChain h list item list xs chain nl (λ e. nl (sym e)) fresh heads heads distinct,
  IsNotIn-append list item xs heads nl,
  IsDistinct-append item xs distinct fresh,
)

pub list_init-Represents : (list : ℕ) (h : Heap) → Represents (list_init list h) list []
unfolding list_init assign
list_init-Represents list h = ((ground arith, ground arith), tt, tt)

walk_chain :
    (h : Heap) (list p fuel : ℕ) (xs : List ℕ)
    → IsChain h list p xs
    → IsNotIn list xs
    → length xs < fuel
    → list_walk fuel h list p ≡ some xs
unfolding list_walk
walk_chain h list p zero xs c n f = absurd (omega (arith, f))
walk_chain h list p (suc fuel) [] (a, b) n f = ground (arith, a)
walk_chain h list p (suc fuel) (x ∷ xs) (a, b, c) (nx, n) f =
    ground (arith, a, nx, walk_chain h list x fuel xs c n (omega (arith, f)))

-- A walk ends and visits the nodes that the list has, in their order, and the list is empty just
-- when it has none.
pub list_walk-Represents :
    (h : Heap) (list fuel : ℕ) (xs : List ℕ)
    → Represents h list xs
    → length xs < fuel
    → (list_walk fuel h list list ≡ some xs) × (list_empty list h ≡ true ↔ xs ≡ [])
unfolding list_empty
list_walk-Represents h list fuel [] (chain, heads, distinct) f =
    (walk_chain h list list fuel [] chain heads f, (λ e. refl, λ e. ground (arith, chain.0)))
list_walk-Represents h list fuel (x ∷ xs) (chain, heads, distinct) f = (
  walk_chain h list list fuel (x ∷ xs) chain heads f,
  (λ e. absurd (ground (arith, e, chain.0, heads.0)), λ e. absurd (ground (arith, e))),
)

-- The last node is its own successor.
stuck_walk : (h : Heap) (list p fuel : ℕ) → h.next p ≡ p → p ≢ list → list_walk fuel h list p ≡ none
unfolding list_walk
stuck_walk h list p zero e n = refl
stuck_walk h list p (suc fuel) e n = ground (arith, e, n, stuck_walk h list p fuel e n)

self_next :
    (h : Heap) (list item : ℕ) → h.prev list ≡ item → (list_add list item h).next item ≡ item
unfolding list_add assign
self_next h list item e = ground (arith, e)

last_prev :
    (h : Heap) (list item p : ℕ) (xs : List ℕ)
    → IsChain h list p (xs ++ item ∷ [])
    → h.prev list ≡ item
last_prev h list item p [] (a, b, c) = c.1
last_prev h list item p (x ∷ xs) (a, b, c) = last_prev h list item x xs c

again_chain :
    (h : Heap) (list item p fuel : ℕ) (xs : List ℕ)
    → IsChain h list p (xs ++ item ∷ [])
    → h.prev list ≡ item
    → IsNotIn list (xs ++ item ∷ [])
    → IsNotIn item xs
    → p ≢ item
    → list_walk fuel (list_add list item h) list p ≡ none
unfolding list_walk list_add assign
again_chain h list item p zero xs c e n f np = refl
again_chain h list item p (suc fuel) [] (a, b, c) e (n, _) f np =
    let rest = stuck_walk (list_add list item h) list item fuel (self_next h list item e) n in
    ground (arith, a, e, n, np, rest)
again_chain h list item p (suc fuel) (x ∷ xs) (a, b, c) e (n, ns) (f, fs) np =
    let rest = again_chain h list item x fuel xs c e ns fs f in ground (arith, a, e, n, np, rest)

again_walk :
    (h : Heap) (list item fuel : ℕ) (xs : List ℕ)
    → Represents h list (xs ++ item ∷ [])
    → IsNotIn item xs
    → item ≢ list
    → list_walk fuel (list_add list item h) list list ≡ none
again_walk h list item fuel xs (chain, heads, distinct) f n =
    again_chain h list item list fuel xs chain (last_prev h list item list xs chain) heads f
      λ e. n (sym e)

end_of : (x item : ℕ) (xs : List ℕ) → IsNotIn x (xs ++ item ∷ []) → item ≢ x
end_of x item [] h = h.0
end_of x item (y ∷ xs) h = end_of x item xs h.1

fresh_of : (item : ℕ) (xs : List ℕ) → IsDistinct (xs ++ item ∷ []) → IsNotIn item xs
fresh_of item [] d = tt
fresh_of item (x ∷ xs) (dx, ds) = (λ e. end_of x item xs dx (sym e), fresh_of item xs ds)

-- When the last node is added a second time, no walk over the list ends.
pub list_add_again :
    (h : Heap) (list item fuel : ℕ) (xs : List ℕ)
    → Represents h list (xs ++ item ∷ [])
    → list_walk fuel (list_add list item h) list list ≡ none
list_add_again h list item fuel xs (chain, heads, distinct) =
    again_walk h list item fuel xs (chain, heads, distinct) (fresh_of item xs distinct)
      (end_of list item xs heads)
