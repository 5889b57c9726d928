-- ===== src/Json/Wholes.antt =====
-- jsonroot.c: `json_root_parse_value` at the text of an array, an object or a number.
use vfdd.Json.Reads.{IsReady-text, first_byte}
use vfdd.Json.Elems.{elems_rest, elems_text-first}
use vfdd.Prelude.{
  ℕ, suc, ◌<◌, ◌≡◌, refl, sym, ap, ◌∙◌, Bool, false, Option, none, List, [], ◌∷◌, ◌++◌,
  append_assoc, arith, length,
}
use vfdd.Json.Escapes.{escaped}
use vfdd.Json.Tree.{
  Node, Nodes, count_nodes, json_undef, json_number, json_array, json_object, zeroed, value, node,
  nil, cons,
}
use vfdd.Json.Render.{value_text, elems_text, fields_text}
use vfdd.Json.Place.{Frame, address}
use vfdd.Json.Docs.{Numeral, IsDoc, AllFields, IsDelimited}
use vfdd.Json.Parse.{Parser, parse_value, parse_array, array_loop, parse_object}
use vfdd.Json.Steps.{behind, KnowsSigns, IsReady}
use vfdd.Json.Values.{IsRead}
use vfdd.Json.Numerals.{number-IsRead}
use vfdd.Json.Fields.{fields_rest, field_tail, fields_text-first}
use vfdd.Json.Brackets.{array-open, object-open, full-array}

module _ {D : Type 0} (one nought : D) (strtod : List ℕ → D × Bool) (number_text : D → List ℕ)
    (decimal : ℕ → List ℕ) (isspace : ℕ → Bool) (knows : KnowsSigns isspace) where
  abbrev ReadsTo : List (Frame D) → List (List ℕ) → Node D → List ℕ → ℕ → Parser D → Type 0
  ReadsTo fs names x rest f s =
      IsRead fs names x rest (parse_value one strtod decimal isspace none f (address fs) s)

  abbrev text_at : ℕ → Node D → List ℕ
  text_at depth x = value_text nought number_text false depth x

  abbrev elems_at : ℕ → Nodes D → List ℕ
  elems_at depth xs = elems_text nought number_text false depth xs

  abbrev fields_at : ℕ → Nodes D → List ℕ
  fields_at depth xs = fields_text nought number_text false depth xs

  abbrev IsGood : Node D → Type 0
  IsGood x = IsDoc one strtod number_text decimal x

  pub array-value :
      (fs : List (Frame D)) (names : List (List ℕ)) (key : Option (List ℕ)) (child : Nodes D)
      (text rest : List ℕ) (f : ℕ) (s : Parser D)
      → IsReady fs names (node json_undef key zeroed nil) (b'[' ∷ text) s
      → (IsReady fs names (node json_undef key zeroed nil) text (behind s)
          → IsRead fs names
              (node json_array key zeroed child)
              rest
              (parse_array one strtod decimal isspace none (suc f) (address fs) (behind s)))
      → ReadsTo fs names (node json_array key zeroed child) rest (suc (suc f)) s
  unfolding parse_value
  array-value fs names key child text rest f s r inside =
      let (out, kind, next) =
        array-open one nought strtod number_text decimal isspace knows fs names key text f s
          (parse_array one strtod decimal isspace none (suc f) (address fs))
          (parse_object one strtod decimal isspace none (suc f) (address fs)) r in
      simp (parse_value, out, kind) (inside next)

  pub object-value :
      (fs : List (Frame D)) (names : List (List ℕ)) (key : Option (List ℕ)) (child : Nodes D)
      (text rest : List ℕ) (f : ℕ) (s : Parser D)
      → IsReady fs names (node json_undef key zeroed nil) (b'{' ∷ text) s
      → (IsReady fs names (node json_undef key zeroed nil) text (behind s)
          → IsRead fs names
              (node json_object key zeroed child)
              rest
              (parse_object one strtod decimal isspace none (suc f) (address fs) (behind s)))
      → ReadsTo fs names (node json_object key zeroed child) rest (suc (suc f)) s
  unfolding parse_value
  object-value fs names key child text rest f s r inside =
      let (out, kind, next) =
        object-open one nought strtod number_text decimal isspace knows fs names key text f s
          (parse_array one strtod decimal isspace none (suc f) (address fs))
          (parse_object one strtod decimal isspace none (suc f) (address fs)) r in
      simp (parse_value, out, kind) (inside next)

  -- A number, at the byte behind it.
  pub Numeral-value :
      (fs : List (Frame D)) (names : List (List ℕ)) (key : Option (List ℕ)) (d : D)
      (n : Numeral strtod number_text d) (rest : List ℕ) (f : ℕ) (s : Parser D)
      → IsReady fs names (node json_undef key zeroed nil) (number_text d ++ rest) s
      → IsDelimited json_number rest
      → length (number_text d) < f
      → ReadsTo fs names (node json_number key (value d) nil) rest (suc f) s
  Numeral-value fs names key d n [] f s r stop enough = absurd stop
  Numeral-value fs names key d n (e ∷ more) f s r stop enough =
      number-IsRead one strtod number_text decimal isspace knows fs names key d n e more s f r stop
        (omega (arith, ap length n.text, enough))

  -- The first field of an object.
  pub field-first :
      (depth : ℕ) (seen xs : Nodes D) (rest : List ℕ)
      → AllFields one strtod number_text decimal seen xs
      → 0 < count_nodes xs
      → (tail : List ℕ) × (fields_at depth xs ++ b'}' ∷ rest ≡ b'"' ∷ tail)
  unfolding AllFields count_nodes
  field-first depth seen nil rest h some_front = absurd (omega arith)
  field-first depth seen (cons x xs) rest ((k, e, _, _, _, _), doc, others) some_front =
      (_, fields_text-first one nought strtod number_text decimal isspace knows depth k x xs rest e)

  pub field_tail-parts :
      (depth : ℕ) (n : List ℕ) (x : Node D) (xs : Nodes D) (rest : List ℕ)
      → field_tail one nought strtod number_text decimal isspace knows depth n x xs rest
        ≡ escaped n
          ++ b'"'
            ∷ b':'
            ∷ (text_at depth x
                ++ fields_rest one nought strtod number_text decimal isspace knows depth xs rest)
  unfolding field_tail
  field_tail-parts depth n x xs rest = simp append_assoc refl

  -- An array with children: its loop is at the first.
  pub array-filled :
      (fs : List (Frame D)) (names : List (List ℕ)) (key : Option (List ℕ)) (x : Node D)
      (xs : Nodes D) (depth f : ℕ) (rest : List ℕ) (s : Parser D)
      → IsGood x
      → IsReady fs names
          (node json_undef key zeroed nil)
          (elems_at depth (cons x xs) ++ b']' ∷ rest)
          s
      → ((t : Parser D)
          → IsReady fs names
              (node json_array key zeroed nil)
              (elems_at depth (cons x xs) ++ b']' ∷ rest)
              t
          → t.root.count ≡ 0
          → IsRead fs names
              (node json_array key zeroed (cons x xs))
              rest
              (array_loop one strtod decimal isspace none (suc f) (address fs) t))
      → IsRead fs names
          (node json_array key zeroed (cons x xs))
          rest
          (parse_array one strtod decimal isspace none (suc (suc f)) (address fs) s)
  array-filled fs names key x xs depth f rest s h r loop =
      let (c, cs, e, low, high, other) =
        first_byte one nought strtod number_text decimal isspace knows depth x h in
      let start =
        elems_text-first one nought strtod number_text decimal isspace knows depth x xs rest
        ∙ ap
            (λ t. t ++ elems_rest one nought strtod number_text decimal isspace knows depth xs rest)
            e in
      full-array one nought strtod number_text decimal isspace knows fs names key (cons x xs) c f
        (cs ++ elems_rest one nought strtod number_text decimal isspace knows depth xs rest) rest s
        (IsReady-text fs names _ _ _ s r start) low high other
        (λ t ready n. loop t (IsReady-text fs names _ _ _ t ready (sym start)) n)
