-- ===== src/Json/Tree.antt =====
-- jsonnode.h and jsonroot.c: a tree of nodes, and printing it. A list of children that is NULL and one
-- that is empty print alike and are both `nil`.
use vfdd.Prelude.{
  ℕ, zero, suc, ◌+◌, ◌-◌, Bool, Option, none, List, [], ◌∷◌, ◌++◌, ◌==◌, if◌then◌else◌, length,
  Outcome, ◌>>=◌, done, fault,
}
use vfdd.Dbuf.{DBuf, strncat, put_char}
use vfdd.Json.Print.{print_str}

-- `enum _JsonTypeInfo`
pub data JsonType : Type 0 where
  json_undef json_false json_true json_null json_number json_string json_array json_object :
      JsonType

-- The union `u` of a node, over the doubles. `zeroed` is all bits 0: the double 0.0, and NULL.
pub data Value (D : Type 0) : Type 0 where
  zeroed : Value D
  value : D → Value D
  ptr : Option (List ℕ) → Value D

mutual
  -- `struct _JsonNode`: its type, its key, its value and its children.
  pub data Node (D : Type 0) : Type 0 where
    node : JsonType → Option (List ℕ) → Value D → Nodes D → Node D

  pub data Nodes (D : Type 0) : Type 0 where
    nil : Nodes D
    cons : Node D → Nodes D → Nodes D

-- What `struct _JsonRootNode` keeps for printing.
pub record Printer : Type 0 where
  pub dest : DBuf
  pub count : ℕ
  pub depth : ℕ
  pub format : Bool

-- `dbuf_put_char` and `dbuf_strcat` of a text, on `root->dest`
unfoldable pub put : ℕ → Printer → Outcome Printer
put c p = do d ← put_char p.dest c; done (record p { dest = d })

unfoldable pub put_text : List ℕ → Printer → Outcome Printer
put_text s p = do d ← strncat p.dest (s ++ 0 ∷ []) (length s); done (record p { dest = d })

unfoldable pub put_str : Option (List ℕ) → Printer → Outcome Printer
put_str str p = do d ← print_str p.dest str; done (record p { dest = d })

-- `if ( root->format ) dbuf_put_char( root->dest, c )`
unfoldable pub put_if_format : ℕ → Printer → Outcome Printer
put_if_format c p = if p.format then put c p else done p

abbrev pub indent : List ℕ
indent = b' ' ∷ b' ' ∷ b' ' ∷ b' ' ∷ []

-- The loop that indents, `n` times.
unfoldable pub indent_loop : ℕ → Printer → Outcome Printer
indent_loop zero p = done p
indent_loop (suc n) p = do q ← put_text indent p; indent_loop n q

unfoldable pub put_indent : Printer → Outcome Printer
put_indent p = if p.format then indent_loop p.depth p else done p

-- The end of an iteration: the comma between two items.
unfoldable pub next_item : Printer → Outcome Printer
next_item p =
    let q = record p { count = p.count - 1 } in
    if q.count == 0 then done q else (do r ← put b',' q; put_if_format b' ' r)

-- `json_root_iter_array` and `json_root_iter_object`, with `json_root_print_value` of the node
unfoldable pub iter_array : (Printer → Outcome Printer) → Printer → Outcome Printer
iter_array print p = do q ← print p; next_item (record q { count = p.count })

unfoldable pub iter_object :
    Option (List ℕ) → (Printer → Outcome Printer) → Printer → Outcome Printer
iter_object key print p = do
  p₁ ← put_indent p
  p₂ ← put_str key p₁
  p₃ ← put b':' p₂
  p₄ ← put_if_format b'\t' p₃
  p₅ ← print p₄
  p₆ ← next_item (record p₅ { count = p₄.count })
  put_if_format b'\n' p₆

-- `json_root_print_array`, with the iteration over `n` children
unfoldable pub print_array : ℕ → (Printer → Outcome Printer) → Printer → Outcome Printer
print_array n items p = do
  p₁ ← put b'[' p
  p₂ ← items (record p₁ { count = n; depth = p₁.depth + 1 })
  put b']' (record p₂ { depth = p₂.depth - 1 })

unfoldable pub print_object : ℕ → (Printer → Outcome Printer) → Printer → Outcome Printer
print_object n items p = do
  p₁ ← put b'{' p
  p₂ ← put_if_format b'\n' p₁
  p₃ ← items (record p₂ { count = n; depth = p₂.depth + 1 })
  p₄ ← put_indent (record p₃ { depth = p₃.depth - 1 })
  put b'}' p₄

-- `dlist_get_nelem` of the children
unfoldable pub count_nodes : {D : Type 0} → Nodes D → ℕ
count_nodes nil = 0
count_nodes (cons x xs) = suc (count_nodes xs)

-- `node->keyname`
unfoldable pub key_of : {D : Type 0} → Node D → Option (List ℕ)
key_of (node type key u child) = key

abbrev pub null_text : List ℕ
null_text = b'n' ∷ b'u' ∷ b'l' ∷ b'l' ∷ []

abbrev pub false_text : List ℕ
false_text = b'f' ∷ b'a' ∷ b'l' ∷ b's' ∷ b'e' ∷ []

abbrev pub true_text : List ℕ
true_text = b't' ∷ b'r' ∷ b'u' ∷ b'e' ∷ []

-- The `switch` of `json_root_print_value`, with what prints the children. `number_text` is what
-- `json_root_print_number` formats, and `nought` is 0.0; a union that holds the other member is not for reading.
unfoldable pub print_kind :
    {D : Type 0}
    → D
    → (D → List ℕ)
    → JsonType
    → Value D
    → ℕ
    → (Printer → Outcome Printer)
    → (Printer → Outcome Printer)
    → Printer
    → Outcome Printer
print_kind nought number_text json_undef u n elems fields p = done p
print_kind nought number_text json_false u n elems fields p = put_text false_text p
print_kind nought number_text json_true u n elems fields p = put_text true_text p
print_kind nought number_text json_null u n elems fields p = put_text null_text p
print_kind nought number_text json_number (value d) n elems fields p = put_text (number_text d) p
print_kind nought number_text json_number zeroed n elems fields p = put_text (number_text nought) p
print_kind nought number_text json_number (ptr s) n elems fields p = fault
print_kind nought number_text json_string (value d) n elems fields p = fault
print_kind nought number_text json_string zeroed n elems fields p = put_str none p
print_kind nought number_text json_string (ptr s) n elems fields p = put_str s p
print_kind nought number_text json_array u n elems fields p = print_array n elems p
print_kind nought number_text json_object u n elems fields p = print_object n fields p

module _ {D : Type 0} (nought : D) (number_text : D → List ℕ) where
  unfoldable mutual
    -- `json_root_print_value` of an item that is there
    pub print_value : Node D → Printer → Outcome Printer
    print_value (node type key u child) p =
        print_kind nought number_text type u (count_nodes child) (print_elems child)
          (print_fields child) p

    -- `dlist_iterator` with `json_root_iter_array`, and with `json_root_iter_object`
    pub print_elems : Nodes D → Printer → Outcome Printer
    print_elems nil p = done p
    print_elems (cons x xs) p = do q ← iter_array (print_value x) p; print_elems xs q

    pub print_fields : Nodes D → Printer → Outcome Printer
    print_fields nil p = done p
    print_fields (cons x xs) p = do q ← iter_object (key_of x) (print_value x) p; print_fields xs q

  -- `json_root_dbuf_print`
  unfoldable pub dbuf_print : Node D → DBuf → Bool → ℕ → Outcome Printer
  dbuf_print item dest format count = do
    p ← print_value item (record { dest = dest; count = count; depth = 0; format = format })
    put_if_format b'\n' p
