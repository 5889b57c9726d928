-- ===== src/Json/Tests.antt =====
-- Runs of the string routines of the JSON reader and printer.
use vfdd.Prelude.Memory.{load}
use vfdd.Prelude.{
  ℕ, ◌+◌, ◌≡◌, refl, sym, ap, true, false, none, some, List, [], ◌∷◌, ◌++◌, arith, replicate, done,
  fault,
}
use vfdd.Dbuf.{DBuf}
use vfdd.Dbuf.Bounds.{IsValid}
use vfdd.Json.{Root}
use vfdd.Json.Strings.{parse_string}
use vfdd.Json.Print.{hex_digit, hex4, letter_of, is_plain}
use vfdd.Json.Escapes.{escape_of, escaped}
use vfdd.Json.Number.{is_number, parse_number, parse_number-at_text_end, at_text_end}
use vfdd.Json.Reading.{IsAt}
use vfdd.Json.Tree.{
  Node, json_true, json_number, json_array, json_object, zeroed, value, node, nil, cons,
}
use vfdd.Json.Items.{same_text, has_key, is_false, is_true, lookup_key, add_bool_2object}
use vfdd.Json.Added.{children}
use vfdd.Json.Path.{
  next_of, next_tok, is_separator, split_loop, path_from, jsonpath_construct, is_hit, at_end,
  find_round, find, find_node,
}
use vfdd.Json.Found.{by_names, join, find_node-by_names}
use vfdd.Json.Access.{get_item_bool, set_bool}
use vfdd.Json.Accessed.{get_item_bool-add_bool_2object}
use vfdd.Json.RoundTrips.{IsText, parse_string-escaped, parse_string-unterminated}

-- `a`, a quote and a control byte
abbrev sample : List ℕ
sample = b'a' ∷ b'"' ∷ 0x1f ∷ []

abbrev written : List ℕ
written = b'a' ∷ b'\\' ∷ b'"' ∷ b'\\' ∷ b'u' ∷ b'0' ∷ b'0' ∷ b'1' ∷ b'f' ∷ []

sample-IsText : IsText sample
sample-IsText = (omega arith, (omega arith, (omega arith, tt)))

abbrev buffer : ℕ → ℕ → List ℕ → DBuf
buffer pos len s = record {
  s = s;
  ext_buf = false;
  pos = pos;
  len = len;
  size = 16;
  renew_count = 1;
  flags = 0;
  lineno = 0;
  junk = 7;
}

abbrev empty : DBuf
empty = buffer 0 0 (replicate 16 0)

abbrev printed : DBuf
printed = buffer 0 11 (b'"' ∷ written ++ b'"' ∷ 0 ∷ 0 ∷ 0 ∷ 0 ∷ 0 ∷ [])

abbrev torn : DBuf
torn = buffer 1 10 (b'"' ∷ written ++ 0 ∷ 0 ∷ 0 ∷ 0 ∷ 0 ∷ 0 ∷ [])

empty-IsValid : IsValid empty
empty-IsValid = record { owned = refl; block = refl; room = omega arith; unread = omega arith }

torn-IsValid : IsValid torn
torn-IsValid = record { owned = refl; block = refl; room = omega arith; unread = omega arith }

abbrev behind_quote : DBuf
behind_quote = record printed { pos = 1 }

behind_quote-IsValid : IsValid behind_quote
behind_quote-IsValid = record {
  owned = refl;
  block = refl;
  room = omega arith;
  unread = omega arith;
}

abbrev root_of : DBuf → Root
root_of src = record {
  src = src;
  dbuf = empty;
  curptr = 0;
  errptr = none;
  path = none;
  count = 0;
  depth = 0;
  format = 0;
  expected = 0;
}

escaped-sample : escaped sample ≡ written
unfolding escaped escape_of is_plain letter_of hex4 hex_digit
escaped-sample = refl

parse_string-escaped_example :
    (src : DBuf) × (dbuf : DBuf) × (parse_string none 4 (root_of behind_quote)
      ≡ some
          (done (some (sample, src.pos), record (root_of behind_quote) { src = src; dbuf = dbuf })))
    × IsAt src []
unfolding load
parse_string-escaped_example =
    parse_string-escaped (root_of behind_quote) sample [] 4 sample-IsText refl
      (behind_quote-IsValid, ap (λ t. t ++ b'"' ∷ []) (sym escaped-sample)) empty-IsValid
      (omega arith) (omega arith)

parse_string-unterminated_example : parse_string none 4 (root_of torn) ≡ some fault
unfolding load
parse_string-unterminated_example =
    parse_string-unterminated (root_of torn) sample 4 sample-IsText refl
      (torn-IsValid, sym escaped-sample) empty-IsValid (omega arith) (omega arith)

-- {"a":[1,true]}, with numbers for doubles
abbrev tree : Node ℕ
tree = node json_object none zeroed (
    cons
      (node json_array (some (b'a' ∷ [])) zeroed
        (cons (node json_number none (value 1) nil) (cons (node json_true none zeroed nil) nil)))
      nil)

abbrev digit : ℕ → List ℕ
digit n = (b'0' + n) ∷ []

abbrev tree_text : List ℕ
tree_text =
    b'{' ∷ b'"' ∷ b'a' ∷ b'"' ∷ b':' ∷ b'[' ∷ b'1' ∷ b',' ∷ b't' ∷ b'r' ∷ b'u' ∷ b'e' ∷ b']' ∷ b'}'
    ∷ []

get_item_bool-add_bool_2object_example :
    (w : Node ℕ) × (x : Node ℕ) × (add_bool_2object 1 tree (b'b' ∷ []) true ≡ done w)
    × (lookup_key (b'b' ∷ []) (children w) ≡ some x)
    × (is_true x ≡ true)
    × (get_item_bool (λ d. d) 0 w (b'.' ∷ b'b' ∷ []) ≡ done 0)
unfolding same_text lookup_key has_key
get_item_bool-add_bool_2object_example =
    get_item_bool-add_bool_2object (λ d. d) 0 1 tree b'b' [] (omega arith) (omega arith, tt) refl

-- A node that is true keeps its type when it is set to false.
set_bool_keeps :
    set_bool {D = ℕ} 1 false (node json_true none (value 1) nil) ≡ node json_true none (value 1) nil
unfolding set_bool is_false is_true
set_bool_keeps = refl

find_node-by_names_example : find_node tree (b'.' ∷ b'a' ∷ b'.' ∷ b'x' ∷ []) ≡ none
unfolding join by_names lookup_key has_key same_text
find_node-by_names_example =
    find_node-by_names tree b'a' [] ((b'x' ∷ []) ∷ []) (omega arith) (omega arith, tt)
      ((omega arith, tt), tt)

-- A `*` searches every level.
find_node_deep : find_node tree (b'.' ∷ b'*' ∷ b'.' ∷ b'x' ∷ []) ≡ none
unfolding find_node jsonpath_construct path_from split_loop is_separator next_tok next_of find
    find_round is_hit at_end has_key same_text
find_node_deep = refl

-- "12", with the cursor behind the first digit
abbrev twelve : DBuf
twelve = buffer 1 2 (b'1' ∷ b'2' ∷ replicate 14 0)

twelve-IsValid : IsValid twelve
twelve-IsValid = record { owned = refl; block = refl; room = omega arith; unread = omega arith }

parse_number-at_text_end_example :
    (w : Root) × (parse_number {D = ℕ} (λ _. (12, false)) none 2 (root_of twelve)
      ≡ some (done (at_text_end, w)))
unfolding load is_number
parse_number-at_text_end_example =
    parse_number-at_text_end (λ _. (12, false)) (root_of twelve) b'1' (b'2' ∷ []) 2 refl refl
      (refl, tt) (twelve-IsValid, refl) empty-IsValid (omega arith) (omega arith)
