-- ===== src/Json/Access.antt =====
-- jsonroot.c: items by path, and the path of the parser. `to_int` is the conversion of a double to `int`.
use vfdd.Prelude.{
  ℕ, zero, suc, Bool, not, ◌||◌, Option, none, some, List, [], ◌∷◌, ◌++◌, ◌==◌, if◌then◌else◌,
  Outcome, ◌>>=◌, done, fault,
}
use vfdd.Json.Tree.{Node, Nodes, count_nodes, json_false, json_true, nil, cons}
use vfdd.Json.Items.{set_type, is_false, is_true, get_val_double, get_val_string}
use vfdd.Json.Added.{children}
use vfdd.Json.Path.{path_sep, find_node}

-- `json_root_get_item_string`: the result, NULL if there is no such node.
unfoldable pub get_item_string : {D : Type 0} → Node D → List ℕ → Outcome (Option (List ℕ))
get_item_string object path = elim (find_node object path) [
  | none ↦ done none
  | some x ↦ get_val_string x
]

-- `json_root_get_item_double`
unfoldable pub get_item_double : {D : Type 0} → D → Node D → List ℕ → Outcome D
get_item_double nought object path = elim (find_node object path) [
  | none ↦ done nought
  | some x ↦ get_val_double nought x
]

-- `json_node_get_val_int`
unfoldable pub get_val_int : {D : Type 0} → (D → ℕ) → D → Node D → Outcome ℕ
get_val_int to_int nought x = do d ← get_val_double nought x; done (to_int d)

-- `json_root_get_item_int`
unfoldable pub get_item_int : {D : Type 0} → (D → ℕ) → D → Node D → List ℕ → Outcome ℕ
get_item_int to_int nought object path = elim (find_node object path) [
  | none ↦ done 0
  | some x ↦ get_val_int to_int nought x
]

-- `json_root_get_item_bool`
unfoldable pub get_item_bool : {D : Type 0} → (D → ℕ) → D → Node D → List ℕ → Outcome ℕ
get_item_bool to_int nought object path = elim (find_node object path) [
  | none ↦ done 0
  | some x ↦ if is_false x || is_true x then get_val_int to_int nought x else done 0
]

-- `json_root_set_item_bool` of a node that is there: the test for a type that is not FALSE or not TRUE
-- holds of each.
unfoldable pub set_bool : {D : Type 0} → D → Bool → Node D → Node D
set_bool one on x =
    if not (is_false x) || not (is_true x)
    then x
    else set_type one (if on then json_true else json_false) x

-- `json_root_get_item_nelem`
unfoldable pub get_item_nelem : {D : Type 0} → Node D → List ℕ → ℕ
get_item_nelem object path = elim (find_node object path) [
  | none ↦ 0
  | some x ↦ count_nodes (children x)
]

-- `json_node_get_nth_child`
unfoldable pub nth_child : {D : Type 0} → Nodes D → ℕ → Option (Node D)
nth_child nil n = none
nth_child (cons x xs) zero = some x
nth_child (cons x xs) (suc n) = nth_child xs n

-- `strrchr` and the 0 that is put there: the text in front of the last separator, if there is one.
unfoldable pub cut_last : List ℕ → Option (List ℕ)
cut_last [] = none
cut_last (c ∷ cs) = elim (cut_last cs) [
  | none ↦ if c == path_sep then some [] else none
  | some t ↦ some (c ∷ t)
]

-- `json_root_update_path`: the new `root->path`; `none` is NULL.
unfoldable pub update_path : Option (List ℕ) → Option (List ℕ) → Outcome (Option (List ℕ))
update_path none none = fault
update_path none (some key) = done (some (path_sep ∷ key))
update_path (some p) (some key) = done (some (p ++ path_sep ∷ key))
update_path (some p) none = done (some (elim (cut_last p) [ none ↦ p | some t ↦ t ]))
