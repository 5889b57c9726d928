-- ===== src/Json/ReadBack.antt =====
-- jsonroot.c: `json_root_parse` of a text that `json_root_dbuf_print` has written.
use vfdd.Dbuf.Contents.{contents, length-contents}
use vfdd.Prelude.{
  ℕ, zero, suc, ◌+◌, ◌≤◌, ◌<◌, ◌≡◌, refl, sym, ap₂, subst, ◌∙◌, ◌≢◌, Bool, true, false, none, some,
  List, [], ◌∷◌, ◌++◌, append-nil, arith, length, drop, length-append, drop-length_le,
  drop-append_le, done, fault,
}
use vfdd.Dbuf.{DBuf}
use vfdd.Dbuf.Bounds.{IsValid, max_len}
use vfdd.Dbuf.Reads.{left}
use vfdd.Json.Reading.{IsAt, next_byte-end}
use vfdd.Json.Tree.{
  JsonType, Node, Nodes, Printer, key_of, dbuf_print, json_undef, json_false, json_true, json_null,
  json_number, json_string, json_array, json_object, zeroed, node, nil, cons,
}
use vfdd.Json.Writes.{IsEnded, optional}
use vfdd.Json.Render.{HasMember, IsTyped, AllTyped, value_text}
use vfdd.Json.Items.{get_type, add_last}
use vfdd.Json.Printing.{dbuf_print-IsPrinted}
use vfdd.Json.Docs.{IsDoc, AllElems, AllFields, cost, IsDelimited}
use vfdd.Json.Number.{skip_ws}
use vfdd.Json.Parse.{Parser, with_root, skip, parse}
use vfdd.Json.Place.{plug, address}
use vfdd.Json.Steps.{KnowsSigns}
use vfdd.Json.Trees.{value-IsRead}

module _ {D : Type 0} (one nought : D) (strtod : List ℕ → D × Bool) (number_text : D → List ℕ)
    (decimal : ℕ → List ℕ) where
  -- A tree that reads back is one that can be printed.
  mutual
    unfolding IsDoc AllElems AllFields IsTyped HasMember

    IsDoc-IsTyped : (x : Node D) → IsDoc one strtod number_text decimal x → IsTyped x
    IsDoc-IsTyped (node json_undef key u child) h = absurd h
    IsDoc-IsTyped (node json_null key u child) (e, e') = (tt, subst AllTyped (sym e') tt)
    IsDoc-IsTyped (node json_false key u child) (e, e') = (tt, subst AllTyped (sym e') tt)
    IsDoc-IsTyped (node json_true key u child) (e, e') = (tt, subst AllTyped (sym e') tt)
    IsDoc-IsTyped (node json_number key u child) (d, e, e', n) =
        (subst (HasMember json_number) (sym e) tt, subst AllTyped (sym e') tt)
    IsDoc-IsTyped (node json_string key u child) (cs, e, e', clean, long) =
        (subst (HasMember json_string) (sym e) tt, subst AllTyped (sym e') tt)
    IsDoc-IsTyped (node json_array key u child) (e, h) = (tt, AllElems-AllTyped nil child h)
    IsDoc-IsTyped (node json_object key u child) (e, h) = (tt, AllFields-AllTyped nil child h)

    AllElems-AllTyped :
        (before xs : Nodes D) → AllElems one strtod number_text decimal before xs → AllTyped xs
    AllElems-AllTyped before nil h = tt
    AllElems-AllTyped before (cons x xs) (_, _, _, h, more) =
        (IsDoc-IsTyped x h, AllElems-AllTyped (add_last before x) xs more)

    AllFields-AllTyped :
        (before xs : Nodes D) → AllFields one strtod number_text decimal before xs → AllTyped xs
    AllFields-AllTyped before nil h = tt
    AllFields-AllTyped before (cons x xs) (_, h, more) =
        (IsDoc-IsTyped x h, AllFields-AllTyped (add_last before x) xs more)

  -- Nothing need follow a value that is no number.
  no_number : (type : JsonType) → type ≢ json_number → IsDelimited type []
  no_number json_number h = h refl
  no_number json_undef h = tt
  no_number json_null h = tt
  no_number json_false h = tt
  no_number json_true h = tt
  no_number json_string h = tt
  no_number json_array h = tt
  no_number json_object h = tt

  cost-least : (x : Node D) → 0 < cost one strtod number_text decimal x
  unfolding cost
  cost-least (node type key u child) = omega arith

  module _ (isspace : ℕ → Bool) (knows : KnowsSigns isspace) where
    -- `json_root_parse`, where nothing need be at the end, of the text of a tree returns a pointer and leaves
    -- that tree, with `rest` still to be read and no path. The root that it is given is a new node, with the
    -- key of the tree, no value and no child, and its buffer is valid; the tree's unions are what the parser leaves in
    -- them, the children of an array have their numbers as keys, those of an object keys that are not empty,
    -- have no '.' and do not start with '*', no two children have the same key, no byte of a string is 0, no string is longer than a
    -- buffer holds, each number's text is one of JSON that `strtod` reads back, `isspace` is false for the
    -- signs of ASCII, and a number is followed by a byte that ends it.
    pub parse-IsRead :
        (x : Node D) (depth f : ℕ) (rest : List ℕ) (s : Parser D)
        → IsDoc one strtod number_text decimal x
        → s.tree ≡ node json_undef (key_of x) zeroed nil
        → IsAt s.root.src (value_text nought number_text false depth x ++ rest)
        → IsValid s.root.dbuf
        → IsDelimited (get_type x) rest
        → cost one strtod number_text decimal x ≤ f
        → (i : ℕ) × (t : Parser D) × (parse one strtod decimal isspace none f false s
            ≡ some (done (some i, t)))
          × (t.tree ≡ x)
          × IsAt t.root.src rest
          × (t.root.path ≡ none)
    unfolding parse address plug
    parse-IsRead x depth f rest s h bare at v stop enough =
        let t = with_root (record s.root { path = none }) s in
        let r =
          value-IsRead one nought strtod number_text decimal isspace knows x [] [] depth f rest t h
            (record { at = at; buffer = v; tree = bare; placed = tt; keys = tt; path = refl }) stop
            enough in
        (
          r.pointer,
          with_root (record r.parser.root { path = none }) r.parser,
          simp (parse, r.returns) refl,
          r.ready.tree,
          r.ready.at,
          refl,
        )

    -- `json_root_parse`, where the end is to be checked, of the text of a tree that nothing follows reads the
    -- byte at NULL: the tree and the root are as in `parse-IsRead`, and the tree is not a number.
    pub parse-at_check_end :
        (x : Node D) (depth f : ℕ) (s : Parser D)
        → IsDoc one strtod number_text decimal x
        → get_type x ≢ json_number
        → s.tree ≡ node json_undef (key_of x) zeroed nil
        → IsAt s.root.src (value_text nought number_text false depth x)
        → IsValid s.root.dbuf
        → cost one strtod number_text decimal x ≤ f
        → parse one strtod decimal isspace none f true s ≡ some fault
    unfolding parse address plug skip skip_ws
    parse-at_check_end x depth zero s h other bare at v enough =
        absurd (omega (arith, cost-least x))
    parse-at_check_end x depth (suc f) s h other bare at v enough =
        let t = with_root (record s.root { path = none }) s in
        let r =
          value-IsRead one nought strtod number_text decimal isspace knows x [] [] depth (suc f) []
            t h
            (record {
              at = (at.0, at.1 ∙ sym (append-nil (value_text nought number_text false depth x)));
              buffer = v;
              tree = bare;
              placed = tt;
              keys = tt;
              path = refl;
            })
            (no_number (get_type x) other) enough in
        simp (parse, r.returns, next_byte-end r.parser.root.src r.ready.at) refl

    -- What `json_root_dbuf_print` appends to a buffer that is read to its end, unformatted, `json_root_parse`
    -- reads back from it as the same tree and to the end of the buffer. The root of the parser is a new node,
    -- with the key of the tree, no value and no child; the tree is as in `parse-IsRead`, not a number at the
    -- top, and its text together with what the buffer holds is not longer than a buffer can hold.
    pub parse-dbuf_print :
        (x : Node D) (dest : DBuf) (count f : ℕ) (s : Parser D)
        → IsDoc one strtod number_text decimal x
        → get_type x ≢ json_number
        → IsEnded dest
        → dest.pos ≡ dest.len
        → dest.len + length (value_text nought number_text false 0 x) ≤ max_len
        → s.tree ≡ node json_undef (key_of x) zeroed nil
        → IsValid s.root.dbuf
        → cost one strtod number_text decimal x ≤ f
        → (p : Printer) × (i : ℕ) × (t : Parser D) × (dbuf_print nought number_text x dest false
              count
            ≡ done p)
          × (parse one strtod decimal isspace none f false
                (with_root (record s.root { src = p.dest }) s)
              ≡ some (done (some i, t)))
          × (t.tree ≡ x)
          × (left t.root.src ≡ [])
    parse-dbuf_print x dest count f s h bare v read fits empty w enough =
        let text = value_text nought number_text false 0 x in
        let (e, n, printed, held) =
          dbuf_print-IsPrinted nought number_text x dest false count (IsDoc-IsTyped x h) v
            (omega (arith, length-append text (optional false (b'\n' ∷ [])), fits)) in
        let here =
          ap₂ drop (held.cursor ∙ read) held.text_is
          ∙ (drop-append_le dest.len (contents dest) (text ++ [])
                (omega (arith, length-contents dest v.0))
              ∙ ap₂ (λ a b. a ++ b)
                  (drop-length_le dest.len (contents dest)
                    (omega (arith, length-contents dest v.0)))
                  refl) in
        let (i, t, parsed, same, at, path) =
          parse-IsRead x 0 f [] (with_root (record s.root { src = e }) s) h empty (held.valid, here)
            w (no_number (get_type x) bare) enough in
        (_, i, t, printed, parsed, same, at.1)
