-- ===== src/Json/Path.antt =====
-- jsonpath.c and jsonnode.c: finding a node by a path. A list of names stands for the table of pointers.
use vfdd.Prelude.{
  ℕ, ◌+◌, ◌-◌, Bool, true, false, not, ◌&&◌, ◌||◌, Option, none, some, List, [], ◌∷◌, ◌++◌, ◌==◌,
  if◌then◌else◌, get_or, drop,
}
use vfdd.Json.Tree.{Node, Nodes, node, nil, cons}
use vfdd.Json.Items.{has_key}

-- `struct _JsonPath`: `toks` is the table from index `i` on, without its NULL; `none` is a NULL `tok`.
pub record JsonPath : Type 0 where
  pub toks : List (List ℕ)
  pub tok : Option (List ℕ)
  pub recur : Bool
  pub level : ℕ

-- `jsonpath_next_tok`: the rest of the table, with its next pointer.
unfoldable pub next_of : JsonPath → List (List ℕ) → JsonPath
next_of jp [] = record jp { tok = none }
next_of jp (t ∷ ts) = record jp { toks = ts; tok = some t }

unfoldable pub next_tok : JsonPath → JsonPath
next_tok jp = next_of jp jp.toks

-- The signs that may stand for the separator in front of a path, and `PATH_SEP`
abbrev pub separators : List ℕ
separators = b'.' ∷ b'/' ∷ b'!' ∷ b'#' ∷ b'$' ∷ b'%' ∷ b',' ∷ b':' ∷ b';' ∷ b'=' ∷ []

abbrev pub path_sep : ℕ
path_sep = b'.'

unfoldable pub is_separator : List ℕ → ℕ → Bool
is_separator [] c = false
is_separator (s ∷ ss) c = s == c || is_separator ss c

-- The loops that cut the copy at its separators; `cur` is the name so far.
unfoldable pub split_loop : ℕ → List ℕ → List ℕ → List (List ℕ)
split_loop sep [] cur = cur ∷ []
split_loop sep (c ∷ cs) cur =
    if c == sep then cur ∷ split_loop sep cs [] else split_loop sep cs (cur ++ c ∷ [])

-- What follows the choice of the separator: `*` and the separator ask for a search at every level.
unfoldable pub path_from : ℕ → List ℕ → JsonPath
path_from sep p =
    let deep = get_or p 0 0 == b'*' && get_or p 1 0 == sep in
    let names = if deep then drop 2 p else if get_or p 0 0 == sep then drop 1 p else p in
    next_tok (record { toks = split_loop sep names []; tok = none; recur = deep; level = 0 })

-- `jsonpath_construct`
unfoldable pub jsonpath_construct : List ℕ → JsonPath
jsonpath_construct [] = path_from path_sep []
jsonpath_construct (c ∷ cs) =
    if is_separator separators c then path_from c cs else path_from path_sep (c ∷ cs)

-- `node->keyname && app_strcmp( node->keyname, jp->tok ) == 0`
unfoldable pub is_hit : {D : Type 0} → JsonPath → Node D → Bool
is_hit jp x = elim jp.tok [ none ↦ false | some t ↦ has_key t x ]

unfoldable pub at_end : JsonPath → Bool
at_end jp = elim jp.tok [ none ↦ true | some _ ↦ false ]

-- The round for one child: `deeper` is the call on it, `rest` the rounds for the others.
unfoldable pub find_round :
    {D : Type 0}
    → Node D
    → (JsonPath → Option (Node D) × JsonPath)
    → (Bool → JsonPath → Option (Node D) × JsonPath)
    → Bool
    → JsonPath
    → Option (Node D) × JsonPath
find_round x deeper rest descend jp =
    let jp₁ = if is_hit jp x then next_tok jp else jp in
    let descend₁ = descend || is_hit jp x in
    let found = deeper (record jp₁ { level = jp₁.level + 1 }) in
    let jp₂ = record found.1 { level = found.1.level - 1 } in
    if is_hit jp x && at_end jp₁
    then (some x, jp₁)
    else if jp₁.recur || descend₁
    then (if at_end jp₂ || not jp₂.recur then (found.0, jp₂) else rest descend₁ jp₂)
    else rest descend₁ jp₁

unfoldable mutual
  -- `json_node_find`, and its loop over the children
  pub find : {D : Type 0} → Node D → JsonPath → Option (Node D) × JsonPath
  find (node type key u child) jp = find_loop child false jp

  pub find_loop : {D : Type 0} → Nodes D → Bool → JsonPath → Option (Node D) × JsonPath
  find_loop nil descend jp = (none, jp)
  find_loop (cons x xs) descend jp = find_round x (find x) (find_loop xs) descend jp

-- `json_node_find_node` of a node and a path that are there
unfoldable pub find_node : {D : Type 0} → Node D → List ℕ → Option (Node D)
find_node object path = (find object (jsonpath_construct path)).0
