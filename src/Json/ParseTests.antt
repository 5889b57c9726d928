-- ===== src/Json/ParseTests.antt =====
-- Runs of the JSON parser, and the theorems on it at concrete texts.
use vfdd.Json.Tree.{
  Node, Printer, count_nodes, key_of, dbuf_print, json_undef, json_true, json_number, json_string,
  json_array, json_object, zeroed, value, ptr, node, nil, cons,
}
use vfdd.Dbuf.Bounds.{IsValid}
use vfdd.Dbuf.Reads.{left}
use vfdd.Json.Writes.{comma}
use vfdd.Json.Render.{
  field_text, array_text, object_text, kind_text, value_text, elems_text, fields_text,
}
use vfdd.Json.Items.{same_text, has_key, get_type, lookup_key, add_last}
use vfdd.Json.Print.{letter_of, is_plain}
use vfdd.Json.Escapes.{escape_of, escaped}
use vfdd.Json.Reading.{IsAt}
use vfdd.Json.Docs.{Numeral, IsDoc, AllElems, AllFields, cost, costs}
use vfdd.Json.Steps.{KnowsSigns}
use vfdd.Json.ReadBack.{parse-IsRead, parse-at_check_end, parse-dbuf_print}
use vfdd.Prelude.{
  ℕ, ◌+◌, ◌-◌, ◌≡◌, refl, sym, ap, Bool, true, false, Option, none, some, List, [], ◌∷◌, ◌++◌,
  arith, ◌==◌, ==_ne, length, get_or, length-append, done, fatal, fault,
}
use vfdd.Dbuf.{DBuf}
use vfdd.Json.Parse.{Parser, Parsed, with_root, parse}

abbrev text_buffer : List ℕ → DBuf
text_buffer cs = record {
  s = cs ++ 0 ∷ [];
  ext_buf = false;
  pos = 0;
  len = length cs;
  size = length cs + 1;
  renew_count = 1;
  flags = 0;
  lineno = 0;
  junk = 0;
}

abbrev fresh_parser : List ℕ → Parser ℕ
fresh_parser cs = record {
  root = record {
    src = text_buffer cs;
    dbuf = record {
      s = 0 ∷ [];
      ext_buf = false;
      pos = 0;
      len = 0;
      size = 1;
      renew_count = 1;
      flags = 0;
      lineno = 0;
      junk = 0;
    };
    curptr = 0;
    errptr = none;
    path = none;
    count = 0;
    depth = 0;
    format = 0;
    expected = 0;
  };
  tree = node json_undef none zeroed nil;
}

abbrev digit_number : List ℕ → ℕ × Bool
digit_number s = (get_or s 0 48 - 48, false)

abbrev one_digit : ℕ → List ℕ
one_digit n = (48 + n) ∷ []

abbrev is_blank_byte : ℕ → Bool
is_blank_byte c = c == 32

-- {"a":[7,"x"], "b":true}
abbrev sample_text : List ℕ
sample_text =
    b'{' ∷ b'"' ∷ b'a' ∷ b'"' ∷ b':' ∷ b'[' ∷ b'7' ∷ b',' ∷ b'"' ∷ b'x' ∷ b'"' ∷ b']' ∷ b',' ∷ 32
    ∷ b'"' ∷ b'b' ∷ b'"' ∷ b':' ∷ b't' ∷ b'r' ∷ b'u' ∷ b'e' ∷ b'}' ∷ []

abbrev tree_of : Parsed ℕ → Option (Option ℕ × Node ℕ)
tree_of none = none
tree_of (some fatal) = none
tree_of (some fault) = none
tree_of (some (done (p, s))) = some (p, s.tree)

abbrev run_of : List ℕ → Option (Option ℕ × Node ℕ)
run_of cs = tree_of (parse 1 digit_number one_digit is_blank_byte none 30 false (fresh_parser cs))

abbrev sample_run : Option (Option ℕ × Node ℕ)
sample_run = run_of sample_text

abbrev sample : Node ℕ
sample = node json_object none zeroed (
    cons
      (node json_array (some (b'a' ∷ [])) zeroed (
        cons (node json_number (some (b'0' ∷ [])) (value 7) nil)
          (cons (node json_string (some (b'1' ∷ [])) (ptr (some (b'x' ∷ []))) nil) nil)))
      (cons (node json_true (some (b'b' ∷ [])) (value 1) nil) nil))

is_blank_byte-KnowsSigns : KnowsSigns is_blank_byte
is_blank_byte-KnowsSigns c low high = ==_ne c 32 (omega arith)

seven : Numeral digit_number one_digit 7
seven = record {
  first = b'7';
  others = [];
  text = refl;
  starts = refl;
  digits = tt;
  fits = omega arith;
  back = refl;
}

sample-IsDoc : IsDoc 1 digit_number one_digit one_digit sample
unfolding IsDoc AllElems AllFields key_of lookup_key has_key same_text count_nodes add_last
sample-IsDoc = (
  refl,
  (
    (b'a' ∷ [], refl, (omega arith, (omega arith, tt)), (omega arith, tt), omega arith, refl),
    (
      refl,
      (
        refl,
        (omega arith, (omega arith, tt)),
        refl,
        (7, refl, refl, seven),
        (
          refl,
          (omega arith, (omega arith, tt)),
          refl,
          (b'x' ∷ [], refl, refl, (omega arith, tt), omega arith),
          tt,
        ),
      ),
    ),
    (
      (b'b' ∷ [], refl, (omega arith, (omega arith, tt)), (omega arith, tt), omega arith, refl),
      (refl, refl),
      tt,
    ),
  ),
)

abbrev printed_text : List ℕ
printed_text =
    b'{' ∷ b'"' ∷ b'a' ∷ b'"' ∷ b':' ∷ b'[' ∷ b'7' ∷ b',' ∷ b'"' ∷ b'x' ∷ b'"' ∷ b']' ∷ b',' ∷ b'"'
    ∷ b'b' ∷ b'"' ∷ b':' ∷ b't' ∷ b'r' ∷ b'u' ∷ b'e' ∷ b'}' ∷ []

sample-text : value_text 0 one_digit false 0 sample ≡ printed_text
unfolding value_text elems_text fields_text kind_text array_text object_text field_text comma
    escaped escape_of is_plain letter_of count_nodes key_of
sample-text = refl

text_buffer-IsValid : (cs : List ℕ) → IsValid (text_buffer cs)
text_buffer-IsValid cs = record {
  owned = refl;
  block = length-append cs (0 ∷ []);
  room = omega arith;
  unread = omega arith;
}

abbrev parsed_sample : ℕ → Parser ℕ → Parsed ℕ
parsed_sample f s = parse 1 digit_number one_digit is_blank_byte none f false s

parse-IsRead_example :
    (i : ℕ) × (t : Parser ℕ) × (parsed_sample 60 (fresh_parser (printed_text ++ b'\n' ∷ []))
      ≡ some (done (some i, t)))
    × (t.tree ≡ sample)
    × IsAt t.root.src (b'\n' ∷ [])
    × (t.root.path ≡ none)
unfolding key_of cost costs get_type
parse-IsRead_example =
    parse-IsRead 1 0 digit_number one_digit one_digit is_blank_byte is_blank_byte-KnowsSigns sample
      0 60 (b'\n' ∷ []) (fresh_parser (printed_text ++ b'\n' ∷ [])) sample-IsDoc refl
      (
        text_buffer-IsValid (printed_text ++ b'\n' ∷ []),
        ap (λ t. t ++ b'\n' ∷ []) (sym sample-text),
      )
      (record { owned = refl; block = refl; room = omega arith; unread = omega arith }) tt
      (omega arith)

parse-dbuf_print_example :
    (p : Printer) × (i : ℕ) × (t : Parser ℕ) × (dbuf_print 0 one_digit sample
        (text_buffer [])
        false
        0
      ≡ done p)
    × (parsed_sample 60
          (with_root (record (fresh_parser []).root { src = p.dest }) (fresh_parser []))
        ≡ some (done (some i, t)))
    × (t.tree ≡ sample)
    × (left t.root.src ≡ [])
unfolding key_of cost costs get_type
parse-dbuf_print_example =
    parse-dbuf_print 1 0 digit_number one_digit one_digit is_blank_byte is_blank_byte-KnowsSigns
      sample (text_buffer []) 0 60 (fresh_parser []) sample-IsDoc (λ h. cc)
      (text_buffer-IsValid [], refl) refl (omega (arith, ap length sample-text)) refl
      (record { owned = refl; block = refl; room = omega arith; unread = omega arith })
      (omega arith)

parse-at_check_end_example :
    parse 1 digit_number one_digit is_blank_byte none 60 true (fresh_parser printed_text)
    ≡ some fault
unfolding key_of cost costs get_type
parse-at_check_end_example =
    parse-at_check_end 1 0 digit_number one_digit one_digit is_blank_byte is_blank_byte-KnowsSigns
      sample 0 60 (fresh_parser printed_text) sample-IsDoc (λ h. cc) refl
      (text_buffer-IsValid printed_text, sym sample-text)
      (record { owned = refl; block = refl; room = omega arith; unread = omega arith })
      (omega arith)
