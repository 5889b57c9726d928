-- ===== src/Json/Locate.antt =====
-- jsonnode.c: a pointer to a node of a tree, as the list of the places of children that lead to it, and
-- the search by path for such a pointer.
use vfdd.Prelude.{
  ℕ, zero, suc, ◌+◌, ◌-◌, Bool, false, not, ◌&&◌, ◌||◌, Option, none, some, List, [], ◌∷◌,
  if◌then◌else◌, Outcome, ◌>>=◌, done, fault,
}
use vfdd.Json.Tree.{Node, Nodes, count_nodes, node, nil, cons}
use vfdd.Json.Path.{JsonPath, next_tok, jsonpath_construct, is_hit, at_end}

-- A change of the node at an address.
unfoldable mutual
  pub change_at : {D : Type 0} → List ℕ → (Node D → Outcome (Node D)) → Node D → Outcome (Node D)
  change_at [] f x = f x
  change_at (i ∷ is) f (node type key u child) = do
    cs ← change_nth i is f child
    done (node type key u cs)

  pub change_nth :
      {D : Type 0} → ℕ → List ℕ → (Node D → Outcome (Node D)) → Nodes D → Outcome (Nodes D)
  change_nth i is f nil = fault
  change_nth zero is f (cons x xs) = do y ← change_at is f x; done (cons y xs)
  change_nth (suc i) is f (cons x xs) = do ys ← change_nth i is f xs; done (cons x ys)

-- The children of the node at an address are so many.
unfoldable mutual
  pub width_at : {D : Type 0} → List ℕ → Node D → ℕ
  width_at [] (node type key u child) = count_nodes child
  width_at (i ∷ is) (node type key u child) = width_nth i is child

  pub width_nth : {D : Type 0} → ℕ → List ℕ → Nodes D → ℕ
  width_nth i is nil = 0
  width_nth zero is (cons x xs) = width_at is x
  width_nth (suc i) is (cons x xs) = width_nth i is xs

abbrev pub below : ℕ → Option (List ℕ) → Option (List ℕ)
below i none = none
below i (some is) = some (i ∷ is)

-- The round of `json_node_find` for child `i`, with the pointer that is found.
unfoldable pub locate_round :
    {D : Type 0}
    → Node D
    → (JsonPath → Option (List ℕ) × JsonPath)
    → (Bool → JsonPath → Option (List ℕ) × JsonPath)
    → ℕ
    → Bool
    → JsonPath
    → Option (List ℕ) × JsonPath
locate_round x deeper rest i descend jp =
    let jp₁ = if is_hit jp x then next_tok jp else jp in
    let descend₁ = descend || is_hit jp x in
    let found = deeper (record jp₁ { level = jp₁.level + 1 }) in
    let jp₂ = record found.1 { level = found.1.level - 1 } in
    if is_hit jp x && at_end jp₁
    then (some (i ∷ []), jp₁)
    else if jp₁.recur || descend₁
    then (if at_end jp₂ || not jp₂.recur then (below i found.0, jp₂) else rest descend₁ jp₂)
    else rest descend₁ jp₁

unfoldable mutual
  -- `json_node_find`
  pub locate : {D : Type 0} → Node D → JsonPath → Option (List ℕ) × JsonPath
  locate (node type key u child) jp = locate_loop child 0 false jp

  pub locate_loop : {D : Type 0} → Nodes D → ℕ → Bool → JsonPath → Option (List ℕ) × JsonPath
  locate_loop nil i descend jp = (none, jp)
  locate_loop (cons x xs) i descend jp =
      locate_round x (locate x) (locate_loop xs (i + 1)) i descend jp

-- `json_node_find_node`
unfoldable pub locate_node : {D : Type 0} → Node D → Option (List ℕ) → Option (List ℕ)
locate_node object none = none
locate_node object (some path) = (locate object (jsonpath_construct path)).0
