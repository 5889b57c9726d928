-- ===== src/Json/Docs.antt =====
-- jsonroot.c: the trees that the parser builds from the texts that the printer writes of them.
use vfdd.Prelude.{
  ℕ, ◌+◌, ◌≤◌, ◌≡◌, Bool, true, false, ◌&&◌, ◌||◌, Option, none, some, List, [], ◌∷◌, leb, ◌==◌,
  length,
}
use vfdd.Dbuf.Bounds.{max_len}
use vfdd.Json.Tree.{
  JsonType, Value, Node, Nodes, count_nodes, key_of, json_undef, json_false, json_true, json_null,
  json_number, json_string, json_array, json_object, zeroed, value, ptr, node, nil, cons,
}
use vfdd.Json.Items.{lookup_key, add_last}
use vfdd.Json.Number.{is_number, AllNumber}
use vfdd.Json.RoundTrips.{IsText}
use vfdd.Json.Absent.{IsKey}

-- A double whose text is a number of JSON and reads back.
pub record Numeral {D : Type 0} (strtod : List ℕ → D × Bool) (number_text : D → List ℕ) (d : D)
    : Type 0 where
  pub first : ℕ
  pub others : List ℕ
  pub text : number_text d ≡ first ∷ others
  pub starts : (first == b'-' || (leb b'0' first && leb first b'9')) ≡ true
  pub digits : AllNumber others
  pub fits : length others + 1 ≤ max_len
  pub back : strtod (first ∷ others) ≡ (d, false)

module _ {D : Type 0} (one : D) (strtod : List ℕ → D × Bool) (number_text : D → List ℕ)
    (decimal : ℕ → List ℕ) where
  -- The union of a value is what the parser leaves in it. The children of an array have their numbers as
  -- keys, those of an object keys that a path can hold, and no key comes twice; `left` are the children in
  -- front. No string has a byte that is 0.
  unfoldable mutual
    pub IsDoc : Node D → Type 0
    IsDoc (node json_undef key u child) = ⊥
    IsDoc (node json_null key u child) = (u ≡ zeroed) × (child ≡ nil)
    IsDoc (node json_false key u child) = (u ≡ zeroed) × (child ≡ nil)
    IsDoc (node json_true key u child) = (u ≡ value one) × (child ≡ nil)
    IsDoc (node json_number key u child) =
        (d : D) × (u ≡ value d) × (child ≡ nil) × Numeral strtod number_text d
    IsDoc (node json_string key u child) =
        (cs : List ℕ) × (u ≡ ptr (some cs)) × (child ≡ nil) × IsText cs × (length cs ≤ max_len)
    IsDoc (node json_array key u child) = (u ≡ zeroed) × AllElems nil child
    IsDoc (node json_object key u child) = (u ≡ zeroed) × AllFields nil child

    pub AllElems : Nodes D → Nodes D → Type 0
    AllElems left nil = Unit {0}
    AllElems left (cons x xs) =
        (key_of x ≡ some (decimal (count_nodes left)))
        × IsKey (decimal (count_nodes left))
        × (lookup_key (decimal (count_nodes left)) left ≡ none)
        × IsDoc x
        × AllElems (add_last left x) xs

    pub AllFields : Nodes D → Nodes D → Type 0
    AllFields left nil = Unit {0}
    AllFields left (cons x xs) =
        ((k : List ℕ) × (key_of x ≡ some k)
          × IsKey k
          × IsText k
          × (length k ≤ max_len)
          × (lookup_key k left ≡ none))
        × IsDoc x
        × AllFields (add_last left x) xs

  abbrev pub key_cost : Option (List ℕ) → ℕ
  key_cost none = 0
  key_cost (some k) = length k

  abbrev pub value_cost : Value D → ℕ
  value_cost zeroed = 0
  value_cost (value d) = length (number_text d)
  value_cost (ptr none) = 0
  value_cost (ptr (some cs)) = length cs

  -- Fuel that is enough to read a tree.
  unfoldable mutual
    pub cost : Node D → ℕ
    cost (node type key u child) = 4 + (value_cost u + costs child)

    pub costs : Nodes D → ℕ
    costs nil = 0
    costs (cons x xs) = 4 + (key_cost (key_of x) + (cost x + costs xs))

-- What may follow a value: a number ends at the byte behind it.
abbrev pub IsDelimited : JsonType → List ℕ → Type 0
IsDelimited json_number [] = ⊥
IsDelimited json_number (e ∷ es) = is_number e ≡ false
IsDelimited type rest = Unit {0}
