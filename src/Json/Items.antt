-- ===== src/Json/Items.antt =====
-- jsonnode.c and jsonroot.c: the types and values of nodes, and adding items to an object by key.
use vfdd.Prelude.{
  ℕ, Bool, true, false, ◌&&◌, Option, none, some, List, [], ◌∷◌, ◌==◌, if◌then◌else◌, Outcome,
  ◌>>=◌, done, fault,
}
use vfdd.Json.Tree.{
  JsonType, Value, Node, Nodes, json_undef, json_false, json_true, json_null, json_number,
  json_string, zeroed, value, ptr, node, nil, cons,
}

-- `app_strcmp( s1, s2 ) == 0`
unfoldable pub same_text : List ℕ → List ℕ → Bool
same_text [] [] = true
same_text [] (y ∷ ys) = false
same_text (x ∷ xs) [] = false
same_text (x ∷ xs) (y ∷ ys) = x == y && same_text xs ys

-- `json_node_keyname_cmp( node, name ) == 0`; a key that is NULL is not equal.
unfoldable pub has_key : {D : Type 0} → List ℕ → Node D → Bool
has_key name (node type key u child) = elim key [ none ↦ false | some k ↦ same_text k name ]

-- `json_node_new`: all of the node is zero but its key and its type.
unfoldable pub node_new : {D : Type 0} → Option (List ℕ) → JsonType → Node D
node_new key type = node type key zeroed nil

-- `json_node_set_type`, where `one` is 1.0
unfoldable pub set_type : {D : Type 0} → D → JsonType → Node D → Node D
set_type one json_true (node t key u child) = node json_true key (value one) child
set_type one type (node t key u child) = node type key zeroed child

-- `json_node_get_type`, and the tests of it
unfoldable pub get_type : {D : Type 0} → Node D → JsonType
get_type (node type key u child) = type

unfoldable pub is_null : {D : Type 0} → Node D → Bool
is_null (node json_null key u child) = true
is_null (node type key u child) = false

unfoldable pub is_false : {D : Type 0} → Node D → Bool
is_false (node json_false key u child) = true
is_false (node type key u child) = false

unfoldable pub is_true : {D : Type 0} → Node D → Bool
is_true (node json_true key u child) = true
is_true (node type key u child) = false

-- `json_node_get_val_double`: an error message changes nothing of the result.
unfoldable pub get_val_double : {D : Type 0} → D → Node D → Outcome D
get_val_double nought (node type key zeroed child) = done nought
get_val_double nought (node type key (value d) child) = done d
get_val_double nought (node type key (ptr s) child) = fault

-- `json_node_get_val_string`: the same.
unfoldable pub get_val_string : {D : Type 0} → Node D → Outcome (Option (List ℕ))
get_val_string (node type key zeroed child) = done none
get_val_string (node type key (value d) child) = fault
get_val_string (node type key (ptr s) child) = done s

-- `json_node_set_val_number`
unfoldable pub set_val_number : {D : Type 0} → D → Node D → Node D
set_val_number d (node json_undef key u child) = node json_number key (value d) child
set_val_number d (node json_number key u child) = node json_number key (value d) child
set_val_number d (node type key u child) = node type key u child

-- `json_node_dup_val_string`: what the pointer was is freed, which a double is not for.
unfoldable pub put_string :
    {D : Type 0} → Option (List ℕ) → Option (List ℕ) → Value D → Nodes D → Outcome (Node D)
put_string string key zeroed child = done (node json_string key (ptr string) child)
put_string string key (value d) child = fault
put_string string key (ptr s) child = done (node json_string key (ptr string) child)

unfoldable pub dup_val_string : {D : Type 0} → Option (List ℕ) → Node D → Outcome (Node D)
dup_val_string string (node json_undef key u child) = put_string string key u child
dup_val_string string (node json_string key u child) = put_string string key u child
dup_val_string string (node type key u child) = done (node type key u child)

-- `dlist_lookup` of a key among children
unfoldable pub lookup_key : {D : Type 0} → List ℕ → Nodes D → Option (Node D)
lookup_key name nil = none
lookup_key name (cons x xs) =
    let rest = lookup_key name xs in if has_key name x then some x else rest

-- The item with the key is changed; if there is none, a new one goes to the tail.
unfoldable pub put_key :
    {D : Type 0}
    → List ℕ
    → (Node D → Outcome (Node D))
    → Outcome (Node D)
    → Nodes D
    → Outcome (Nodes D)
put_key name change fresh nil = do x ← fresh; done (cons x nil)
put_key name change fresh (cons x xs) =
    let rest = put_key name change fresh xs in
    if has_key name x then (do y ← change x; done (cons y xs)) else (do ys ← rest; done (cons x ys))

unfoldable pub put_child :
    {D : Type 0}
    → List ℕ
    → (Node D → Outcome (Node D))
    → Outcome (Node D)
    → Node D
    → Outcome (Node D)
put_child name change fresh (node type key u child) = do
  cs ← put_key name change fresh child
  done (node type key u cs)

-- `json_root_add_item_2object`
unfoldable pub add_last : {D : Type 0} → Nodes D → Node D → Nodes D
add_last nil item = cons item nil
add_last (cons x xs) item = cons x (add_last xs item)

unfoldable pub add_item_2object : {D : Type 0} → Node D → Node D → Node D
add_item_2object (node type key u child) item = node type key u (add_last child item)

-- `json_root_add_false_2object`, `json_root_add_true_2object` and `json_root_add_null_2object`
unfoldable pub add_type_2object : {D : Type 0} → D → JsonType → Node D → List ℕ → Outcome (Node D)
add_type_2object one type object key =
    put_child key (λ x. done (set_type one type x)) (done (node_new (some key) type)) object

-- `json_root_add_bool_2object`
unfoldable pub add_bool_2object : {D : Type 0} → D → Node D → List ℕ → Bool → Outcome (Node D)
add_bool_2object one object key val =
    if val
    then add_type_2object one json_true object key
    else add_type_2object one json_false object key

-- `json_root_add_number_2object`
unfoldable pub add_number_2object : {D : Type 0} → Node D → List ℕ → D → Outcome (Node D)
add_number_2object object key d =
    put_child key (λ x. done (set_val_number d x))
      (done (set_val_number d (node_new (some key) json_number))) object

-- `json_root_add_string_2object`
unfoldable pub add_string_2object :
    {D : Type 0} → Node D → List ℕ → Option (List ℕ) → Outcome (Node D)
add_string_2object object key string =
    put_child key (dup_val_string string) (dup_val_string string (node_new (some key) json_string))
      object
