-- ===== src/Json/Reads.antt =====
-- jsonroot.c: `json_root_parse_value` reads what the printer writes of a tree.
use vfdd.Prelude.{
  ℕ, ◌+◌, ◌<◌, ◌≡◌, refl, sym, ap, subst, ◌∙◌, ◌≢◌, Bool, false, List, [], ◌∷◌, ◌++◌, arith,
}
use vfdd.Dbuf.Reads.{left}
use vfdd.Json.Escapes.{escaped}
use vfdd.Json.Reading.{next_byte-left}
use vfdd.Json.Tree.{
  JsonType, Value, Node, Nodes, key_of, json_undef, json_false, json_true, json_null, json_number,
  json_string, json_array, json_object, node, nil, cons,
}
use vfdd.Json.Render.{array_text, object_text, kind_text, value_text, elems_text, fields_text}
use vfdd.Json.Items.{add_last}
use vfdd.Json.Place.{Frame, plug, Placed}
use vfdd.Json.Docs.{IsDoc, IsDelimited}
use vfdd.Json.Parse.{Parser, with_count}
use vfdd.Json.Steps.{behind, KnowsSigns, IsReady}
use vfdd.Json.Numerals.{starts-number, starts-other}

-- Children behind others
abbrev pub all_nodes : {D : Type 0} → Nodes D → Nodes D → Nodes D
all_nodes left nil = left
all_nodes left (cons x xs) = all_nodes (add_last left x) xs

-- A parser for another text that is the same.
pub IsReady-text :
    {D : Type 0} (fs : List (Frame D)) (names : List (List ℕ)) (x : Node D) (t u : List ℕ)
    (s : Parser D)
    → IsReady fs names x t s
    → t ≡ u
    → IsReady fs names x u s
IsReady-text fs names x t u s r e = record {
  at = (r.at.0, r.at.1 ∙ e);
  buffer = r.buffer;
  tree = r.tree;
  placed = r.placed;
  keys = r.keys;
  path = r.path;
}

-- Where a number ends, anything does.
pub IsDelimited-any :
    (type : JsonType) (rest : List ℕ) → IsDelimited json_number rest → IsDelimited type rest
IsDelimited-any json_number rest h = h
IsDelimited-any json_undef rest h = tt
IsDelimited-any json_null rest h = tt
IsDelimited-any json_false rest h = tt
IsDelimited-any json_true rest h = tt
IsDelimited-any json_string rest h = tt
IsDelimited-any json_array rest h = tt
IsDelimited-any json_object rest h = tt

-- The parser with another count.
pub IsReady-count :
    {D : Type 0} (fs : List (Frame D)) (names : List (List ℕ)) (x : Node D) (text : List ℕ) (m : ℕ)
    (s : Parser D)
    → IsReady fs names x text s
    → IsReady fs names x text (with_count m s)
IsReady-count fs names x text m s r = record {
  at = r.at;
  buffer = r.buffer;
  tree = r.tree;
  placed = r.placed;
  keys = r.keys;
  path = r.path;
}

-- The parser behind a sign.
pub IsReady-behind :
    {D : Type 0} (fs : List (Frame D)) (names : List (List ℕ)) (x : Node D) (c : ℕ) (cs : List ℕ)
    (s : Parser D)
    → IsReady fs names x (c ∷ cs) s
    → IsReady fs names x cs (behind s)
IsReady-behind fs names x c cs s r = record {
  at = (next_byte-left s.root.src c cs r.at).1;
  buffer = r.buffer;
  tree = r.tree;
  placed = r.placed;
  keys = r.keys;
  path = r.path;
}

-- The parser with another type for the node at its place.
pub IsReady-typed :
    {D : Type 0} (fs : List (Frame D)) (names : List (List ℕ)) (x y : Node D) (text : List ℕ)
    (s : Parser D)
    → IsReady fs names x text s
    → key_of y ≡ key_of x
    → IsReady fs names y text (record s { tree = plug fs y })
IsReady-typed fs names x y text s r same = record {
  at = r.at;
  buffer = r.buffer;
  tree = refl;
  placed = subst (Placed fs names) (sym same) r.placed;
  keys = r.keys;
  path = r.path;
}

module _ {D : Type 0} (one nought : D) (strtod : List ℕ → D × Bool) (number_text : D → List ℕ)
    (decimal : ℕ → List ℕ) (isspace : ℕ → Bool) (knows : KnowsSigns isspace) where
  -- The first byte of a value is a sign, and neither the end of an array nor that of an object.
  pub first_byte :
      (depth : ℕ) (x : Node D)
      → IsDoc one strtod number_text decimal x
      → (c : ℕ) × (cs : List ℕ) × (value_text nought number_text false depth x ≡ c ∷ cs)
        × (32 < c)
        × (c < 127)
        × (c ≢ b']')
  unfolding value_text kind_text array_text object_text IsDoc
  first_byte depth (node json_undef key u child) h = absurd h
  first_byte depth (node json_null key u child) h =
      (b'n', _, refl, omega arith, omega arith, omega arith)
  first_byte depth (node json_false key u child) h =
      (b'f', _, refl, omega arith, omega arith, omega arith)
  first_byte depth (node json_true key u child) h =
      (b't', _, refl, omega arith, omega arith, omega arith)
  first_byte depth (node json_number key u child) (d, e, rest, n) =
      let (c, low, high, not_n, not_f, not_t, not_q) = starts-number n.first n.starts in
      (
        n.first,
        n.others,
        ap
              (λ (v : Value D).
                kind_text nought number_text false depth json_number v
                  (elems_text nought number_text false (depth + 1) child)
                  (fields_text nought number_text false (depth + 1) child))
              e
            ∙ n.text,
        low,
        high,
        starts-other n.first n.starts,
      )
  first_byte depth (node json_string key u child) (cs, e, empty, text, long) = (
    b'"',
    escaped cs ++ b'"' ∷ [],
    ap
        (λ (v : Value D).
          kind_text nought number_text false depth json_string v
            (elems_text nought number_text false (depth + 1) child)
            (fields_text nought number_text false (depth + 1) child))
        e,
    omega arith,
    omega arith,
    omega arith,
  )
  first_byte depth (node json_array key u child) h =
      (b'[', _, refl, omega arith, omega arith, omega arith)
  first_byte depth (node json_object key u child) h =
      (b'{', _, refl, omega arith, omega arith, omega arith)
