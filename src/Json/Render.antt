-- ===== src/Json/Render.antt =====
-- jsonroot.c: the text of a tree, by its nodes.
use vfdd.Prelude.{ℕ, ◌+◌, Bool, Option, List, [], ◌∷◌, ◌++◌}
use vfdd.Json.Tree.{
  JsonType, Value, Node, Nodes, count_nodes, key_of, null_text, false_text, true_text, json_undef,
  json_false, json_true, json_null, json_number, json_string, json_array, json_object, zeroed,
  value, ptr, node, nil, cons,
}
use vfdd.Json.Writes.{optional, str_text, indentation, comma}

-- A field with its key, the text of its value and `k` fields behind it.
unfoldable pub field_text : Bool → ℕ → Option (List ℕ) → List ℕ → ℕ → List ℕ
field_text b depth key text k =
    optional b (indentation depth)
    ++ (str_text key
        ++ ((b':' ∷ [])
            ++ (optional b (b'\t' ∷ []) ++ (text ++ (comma b k ++ optional b (b'\n' ∷ []))))))

unfoldable pub array_text : List ℕ → List ℕ
array_text elems = (b'[' ∷ []) ++ (elems ++ b']' ∷ [])

unfoldable pub object_text : Bool → ℕ → List ℕ → List ℕ
object_text b depth fields =
    (b'{' ∷ [])
    ++ (optional b (b'\n' ∷ []) ++ (fields ++ (optional b (indentation depth) ++ b'}' ∷ [])))

unfoldable pub kind_text :
    {D : Type 0} → D → (D → List ℕ) → Bool → ℕ → JsonType → Value D → List ℕ → List ℕ → List ℕ
kind_text nought number_text b depth json_undef u elems fields = []
kind_text nought number_text b depth json_false u elems fields = false_text
kind_text nought number_text b depth json_true u elems fields = true_text
kind_text nought number_text b depth json_null u elems fields = null_text
kind_text nought number_text b depth json_number (value d) elems fields = number_text d
kind_text nought number_text b depth json_number zeroed elems fields = number_text nought
kind_text nought number_text b depth json_number (ptr s) elems fields = []
kind_text nought number_text b depth json_string (value d) elems fields = []
kind_text nought number_text b depth json_string zeroed elems fields = []
kind_text nought number_text b depth json_string (ptr s) elems fields = str_text s
kind_text nought number_text b depth json_array u elems fields = array_text elems
kind_text nought number_text b depth json_object u elems fields = object_text b depth fields

-- No number holds a pointer, and no string a double.
unfoldable pub HasMember : {D : Type 0} → JsonType → Value D → Type 0
HasMember json_number (value d) = Unit {0}
HasMember json_number zeroed = Unit {0}
HasMember json_string zeroed = Unit {0}
HasMember json_number (ptr s) = ⊥
HasMember json_string (value d) = ⊥
HasMember json_string (ptr s) = Unit {0}
HasMember json_undef u = Unit {0}
HasMember json_false u = Unit {0}
HasMember json_true u = Unit {0}
HasMember json_null u = Unit {0}
HasMember json_array u = Unit {0}
HasMember json_object u = Unit {0}

unfoldable mutual
  pub IsTyped : {D : Type 0} → Node D → Type 0
  IsTyped (node type key u child) = HasMember type u × AllTyped child

  pub AllTyped : {D : Type 0} → Nodes D → Type 0
  AllTyped nil = Unit {0}
  AllTyped (cons x xs) = IsTyped x × AllTyped xs

module _ {D : Type 0} (nought : D) (number_text : D → List ℕ) (b : Bool) where
  -- The text of a tree at a depth: a comma between two children, and with `b` a line for each field.
  unfoldable mutual
    pub value_text : ℕ → Node D → List ℕ
    value_text depth (node type key u child) =
        kind_text nought number_text b depth type u (elems_text (depth + 1) child)
          (fields_text (depth + 1) child)

    pub elems_text : ℕ → Nodes D → List ℕ
    elems_text depth nil = []
    elems_text depth (cons x xs) =
        value_text depth x ++ comma b (count_nodes xs) ++ elems_text depth xs

    pub fields_text : ℕ → Nodes D → List ℕ
    fields_text depth nil = []
    fields_text depth (cons x xs) =
        field_text b depth (key_of x) (value_text depth x) (count_nodes xs) ++ fields_text depth xs
