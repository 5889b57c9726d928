-- ===== src/Json/Parse.antt =====
-- jsonroot.c: reading a value into a tree. An item is the tree's node at an address. The conversions of
-- libc are parameters: `isspace`, `strtod` and the text of an `int`.
use vfdd.Prelude.{
  ℕ, zero, suc, ◌+◌, ◌-◌, Bool, true, false, ◌&&◌, ◌||◌, Option, none, some, List, [], ◌∷◌, ◌++◌,
  leb, ◌==◌, if◌then◌else◌, Outcome, ◌>>=◌, ◌>>?◌, ◌>>!◌, done, fault,
}
use vfdd.Prelude.Memory.{load}
use vfdd.Dbuf.Read.{Fill, unget_char}
use vfdd.Json.{Root}
use vfdd.Json.Strings.{parse_string}
use vfdd.Json.Number.{skip_ws, ungot, parse_number, number, at_text_end, refused}
use vfdd.Json.Tree.{
  JsonType, Value, Node, Nodes, key_of, null_text, false_text, true_text, json_undef, json_false,
  json_true, json_null, json_string, json_array, json_object, zeroed, value, ptr, node,
}
use vfdd.Json.Items.{node_new, set_type, set_val_number, dup_val_string, add_item_2object}
use vfdd.Json.Access.{update_path}
use vfdd.Json.Locate.{change_at, width_at, locate_node}

-- `root`, with the tree whose top it is.
pub record Parser (D : Type 0) : Type 0 where
  pub root : Root
  pub tree : Node D

-- A pointer, or NULL.
abbrev pub Parsed : Type 0 → Type 0
Parsed D = Option (Outcome (Option ℕ × Parser D))

-- `! app_strncmp( p, word, strlen( word ))`: it stops at the first byte that differs.
unfoldable pub is_word : List ℕ → List ℕ → ℕ → Outcome Bool
is_word [] mem i = done true
is_word (c ∷ cs) mem i = load mem i >>= λ b. if b == c then is_word cs mem (i + 1) else done false

-- `json_node_set_keyname_from_value`, where a type that is no string's changes nothing.
unfoldable pub take_key :
    {D : Type 0} → List ℕ → Option (List ℕ) → Value D → Nodes D → Outcome (Node D)
take_key text key (value d) child = fault
take_key text key zeroed child = done (node json_undef (some text) zeroed child)
take_key text key (ptr none) child = done (node json_undef (some text) zeroed child)
take_key text key (ptr (some s)) child = done (node json_undef (some s) zeroed child)

unfoldable pub set_keyname_from_value : {D : Type 0} → List ℕ → Node D → Outcome (Node D)
set_keyname_from_value text (node json_undef key u child) = take_key text key u child
set_keyname_from_value text (node json_string key u child) = take_key text key u child
set_keyname_from_value text (node type key u child) = done (node type key u child)

-- What `json_root_parse_array` and `json_root_parse_object` do with a new child: the node that the path
-- leads to, or the child behind the others.
unfoldable pub place_child : {D : Type 0} → List ℕ → Node D → Parser D → Outcome (List ℕ × Parser D)
place_child at child s = elim (locate_node s.tree s.root.path) [
  | some found ↦ done (found, s)
  | none ↦ do
    tree ← change_at at (λ x. done (add_item_2object x child)) s.tree
    done (at ++ width_at at s.tree ∷ [], record s { tree = tree })
]

-- `json_root_update_path`
unfoldable pub move_path : {D : Type 0} → Option (List ℕ) → Parser D → Outcome (Parser D)
move_path key s = do
  path ← update_path s.root.path key
  done (record s { root = record s.root { path = path } })

abbrev pub with_root : {D : Type 0} → Root → Parser D → Parser D
with_root r s = record s { root = r }

abbrev pub with_count : {D : Type 0} → ℕ → Parser D → Parser D
with_count n s = record s { root = record s.root { count = n } }

-- The label `ret_error`, where `c` was expected and `i` was found.
abbrev pub ret_error : {D : Type 0} → ℕ → ℕ → Parser D → Parsed D
ret_error c i s = some (done (none, with_root (record s.root { expected = c; errptr = some i }) s))

-- A word that stands for a value: its type, and `dbuf_set_pos` behind its `n` bytes.
unfoldable pub read_word : {D : Type 0} → D → JsonType → ℕ → ℕ → List ℕ → Parser D → Parsed D
read_word one type n i at s = change_at at (λ x. done (set_type one type x)) s.tree >>? λ tree.
    let src = s.root.src in
    some (
      done (
        some (i + n),
        record {
          root = record s.root { src = record src { pos = src.pos + (n - 1) } };
          tree = tree;
        },
      ))

unfoldable pub skip :
    {D : Type 0} → (ℕ → Bool) → Fill → ℕ → Parser D → Option (Outcome (Option (ℕ × ℕ) × Parser D))
skip isspace fill f s = skip_ws isspace fill f s.root >>! λ (p, r). some (done (p, with_root r s))

module _ {D : Type 0} (one : D) (strtod : List ℕ → D × Bool) (decimal : ℕ → List ℕ)
    (isspace : ℕ → Bool) (fill : Fill) where
  -- `json_root_parse_string` and `json_root_parse_number` of an item in the tree
  unfoldable pub read_string : ℕ → List ℕ → Parser D → Parsed D
  read_string f at s = parse_string fill f s.root >>! λ (found, r). elim found [
    | none ↦ some (done (none, with_root r s))
    | some (text, i) ↦ change_at at (dup_val_string (some text)) s.tree >>? λ tree.
        some (done (some i, record { root = r; tree = tree }))
  ]

  unfoldable pub read_number : ℕ → List ℕ → Parser D → Parsed D
  read_number f at s = parse_number strtod fill f s.root >>! λ (found, r). elim found [
    | at_text_end ↦ some (done (none, with_root r s))
    | refused ↦ some (done (none, with_root r s))
    | number d i ↦ change_at at (λ x. done (set_val_number d x)) s.tree >>? λ tree.
        some (done (some i, record { root = r; tree = tree }))
  ]

  -- The key of an object's item: a new node that takes the string as its key.
  unfoldable pub read_key : ℕ → Parser D → Option (Outcome (Option (Node D) × Parser D))
  read_key f s = parse_string fill f s.root >>! λ (found, r). elim found [
    | none ↦ some (done (none, with_root r s))
    | some (text, i) ↦ dup_val_string (some text) (node_new none json_undef) >>? λ x.
        set_keyname_from_value (decimal r.count) x >>? λ child.
        some (done (some child, with_root r s))
  ]

  -- What `json_root_parse_value` does at the byte `c` at `i`; `array` and `object` read those.
  unfoldable pub read_kind :
      ℕ → ℕ → ℕ → List ℕ → Parser D → (Parser D → Parsed D) → (Parser D → Parsed D) → Parsed D
  read_kind f i c at s array object = is_word null_text s.root.src.s i >>? λ null_here.
      is_word false_text s.root.src.s i >>? λ false_here.
      is_word true_text s.root.src.s i >>? λ true_here.
      if null_here
      then read_word one json_null 4 i at s
      else if false_here
      then read_word one json_false 5 i at s
      else if true_here
      then read_word one json_true 4 i at s
      else if c == b'"'
      then read_string f at s
      else if c == b'-' || (leb b'0' c && leb c b'9')
      then read_number f at s
      else elim (c == b'[') [
        | true ↦ array s
        | false ↦ elim (c == b'{') [
          | true ↦ object s
          | false ↦ some (done (none, with_root (record s.root { errptr = some i }) s))
        ]
      ]

  unfoldable mutual
    -- `json_root_parse_value`, with fuel
    pub parse_value : ℕ → List ℕ → Parser D → Parsed D
    parse_value zero at s = none
    parse_value (suc f) at s = skip isspace fill f s >>! λ (p, s₁). elim p [
      | none ↦ some (done (none, s₁))
      | some (i, c) ↦ read_kind f i c at s₁ (parse_array f at) (parse_object f at)
    ]

    -- `json_root_parse_array` behind its `[`
    pub parse_array : ℕ → List ℕ → Parser D → Parsed D
    parse_array zero at s = none
    parse_array (suc f) at s =
        change_at at (λ x. done (set_type one json_array x)) s.tree >>? λ tree.
        skip isspace fill f (record s { tree = tree }) >>! λ (p, s₁). elim p [
          | none ↦ some (done (none, s₁))
          | some (i, c) ↦ elim (c == b']') [
            | true ↦ some (done (some (i + 1), s₁))
            | false ↦ unget_char s₁.root.src >>? λ u.
                array_loop f at
                  (with_root (record s₁.root { src = ungot u s₁.root.src; count = 0 }) s₁)
          ]
        ]

    -- Its loop
    pub array_loop : ℕ → List ℕ → Parser D → Parsed D
    array_loop zero at s = none
    array_loop (suc f) at s =
        set_keyname_from_value (decimal s.root.count) (node_new none json_undef) >>? λ child.
        move_path (key_of child) s >>? λ s₁. place_child at child s₁ >>? λ (place, s₂).
        parse_value f place s₂ >>! λ (p, s₃). move_path none (with_count s₂.root.count s₃) >>? λ s₄.
        elim p [
          | none ↦ some (done (none, s₄))
          | some _ ↦ skip isspace fill f (with_count (s₄.root.count + 1) s₄) >>! λ (q, s₅). elim q [
            | none ↦ some (done (none, s₅))
            | some (i, c) ↦ elim (c == b',') [
              | true ↦ array_loop f at s₅
              | false ↦ if c == b']' then some (done (some (i + 1), s₅)) else ret_error b']' i s₅
            ]
          ]
        ]

    -- `json_root_parse_object` behind its `{`
    pub parse_object : ℕ → List ℕ → Parser D → Parsed D
    parse_object zero at s = none
    parse_object (suc f) at s =
        change_at at (λ x. done (set_type one json_object x)) s.tree >>? λ tree.
        skip isspace fill f (record s { tree = tree }) >>! λ (p, s₁). elim p [
          | none ↦ some (done (none, s₁))
          | some (i, c) ↦ elim (c == b'}') [
            | true ↦ some (done (some (i + 1), s₁))
            | false ↦ object_loop f at c (with_count 0 s₁)
          ]
        ]

    -- Its loop, at the byte `c`
    pub object_loop : ℕ → List ℕ → ℕ → Parser D → Parsed D
    object_loop zero at c s = none
    object_loop (suc f) at c s = elim (c == b',') [
      | true ↦ skip isspace fill f s >>! λ (p, s₁). elim p [
        | none ↦ some (done (none, s₁))
        | some _ ↦ object_item f at s₁
      ]
      | false ↦ object_item f at s
    ]

    pub object_item : ℕ → List ℕ → Parser D → Parsed D
    object_item zero at s = none
    object_item (suc f) at s = read_key f s >>! λ (key, s₁). elim key [
      | none ↦ some (done (none, s₁))
      | some child ↦ move_path (key_of child) s₁ >>? λ s₂.
          place_child at child s₂ >>? λ (place, s₃). skip isspace fill f s₃ >>! λ (p, s₄). elim p [
            | none ↦ some (done (none, s₄))
            | some (i, c) ↦ elim (c == b':') [
              | false ↦ ret_error b':' i s₄
              | true ↦ parse_value f place s₄ >>! λ (q, s₅).
                  move_path none (with_count s₄.root.count s₅) >>? λ s₆. elim q [
                    | none ↦ some (done (none, s₆))
                    | some _ ↦
                        skip isspace fill f (with_count (s₆.root.count + 1) s₆) >>! λ (t, s₇).
                        elim t [
                          | none ↦ some (done (none, s₇))
                          | some (j, e) ↦ elim (e == b',') [
                            | true ↦ object_loop f at e s₇
                            | false ↦
                                if e == b'}'
                                then some (done (some (j + 1), s₇))
                                else ret_error b'}' j s₇
                          ]
                        ]
                  ]
            ]
          ]
    ]

  -- `json_root_parse`: at the end of the text `p` is NULL, and `*p` is read.
  unfoldable pub parse : ℕ → Bool → Parser D → Parsed D
  parse f check_end s =
      let fresh = λ (t : Parser D). with_root (record t.root { path = none }) t in
      parse_value f [] (fresh s) >>! λ (p, s₁). elim p [
        | none ↦ some (done (none, fresh s₁))
        | some i ↦ elim check_end [
          | false ↦ some (done (some i, fresh s₁))
          | true ↦ skip isspace fill f (fresh s₁) >>! λ (q, s₂). elim q [
            | none ↦ some fault
            | some (j, c) ↦
                some (done (none, with_root (record s₂.root { errptr = some s₂.root.curptr }) s₂))
          ]
        ]
      ]
