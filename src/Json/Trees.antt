-- ===== src/Json/Trees.antt =====
-- jsonroot.c: `json_root_parse_value` of the text that the printer writes of a tree.
use vfdd.Json.Reads.{all_nodes, IsReady-text, IsDelimited-any}
use vfdd.Json.Items.{get_type, add_last}
use vfdd.Json.Elems.{elems_rest, elems_text-first, elems_rest-IsDelimited, elem_round}
use vfdd.Prelude.Memory.{load}
use vfdd.Prelude.{
  ℕ, zero, suc, ◌+◌, ◌≤◌, ◌<◌, ◌≡◌, sym, ap, subst, ◌∙◌, Bool, false, Option, none, List, [], ◌∷◌,
  ◌++◌, append_assoc, arith, drop, done,
}
use vfdd.Json.Tree.{
  Value, Node, Nodes, count_nodes, key_of, json_undef, json_false, json_true, json_null,
  json_number, json_string, json_array, json_object, zeroed, node, nil, cons,
}
use vfdd.Json.Render.{array_text, object_text, kind_text, value_text, elems_text, fields_text}
use vfdd.Json.Place.{Frame, address}
use vfdd.Json.Docs.{IsDoc, AllElems, AllFields, key_cost, value_cost, cost, costs, IsDelimited}
use vfdd.Json.Parse.{Parser, parse_value, array_loop, object_item}
use vfdd.Json.Steps.{behind, KnowsSigns, IsReady}
use vfdd.Json.Values.{IsRead, null-IsRead, false-IsRead, true-IsRead, string-IsRead}
use vfdd.Json.Fields.{fields_rest, fields_text-first, fields_rest-IsDelimited, field_round}
use vfdd.Json.Brackets.{empty-array, empty-object, full-object}
use vfdd.Json.Wholes.{
  array-value, object-value, Numeral-value, field-first, field_tail-parts, array-filled,
}
use vfdd.Json.Joined.{count_nodes-last, all_nodes-nil}

behind_first : (c : ℕ) (xs ys : List ℕ) → c ∷ xs ≡ c ∷ ys → xs ≡ ys
behind_first c xs ys e = ap (drop 1) e

module _ {D : Type 0} (one nought : D) (strtod : List ℕ → D × Bool) (number_text : D → List ℕ)
    (decimal : ℕ → List ℕ) (isspace : ℕ → Bool) (knows : KnowsSigns isspace) where
  abbrev ReadsTo : List (Frame D) → List (List ℕ) → Node D → List ℕ → ℕ → Parser D → Type 0
  ReadsTo fs names x rest f s =
      IsRead fs names x rest (parse_value one strtod decimal isspace none f (address fs) s)

  abbrev text_at : ℕ → Node D → List ℕ
  text_at depth x = value_text nought number_text false depth x

  abbrev elems_at : ℕ → Nodes D → List ℕ
  elems_at depth xs = elems_text nought number_text false depth xs

  abbrev fields_at : ℕ → Nodes D → List ℕ
  fields_at depth xs = fields_text nought number_text false depth xs

  abbrev IsGood : Node D → Type 0
  IsGood x = IsDoc one strtod number_text decimal x

  abbrev fuel_of : Node D → ℕ
  fuel_of x = cost one strtod number_text decimal x

  abbrev fuel_of_all : Nodes D → ℕ
  fuel_of_all xs = costs one strtod number_text decimal xs

  mutual
    unfolding value_text kind_text array_text object_text IsDoc AllElems AllFields cost costs key_of
        get_type count_nodes

    pub value-IsRead :
        (x : Node D) (fs : List (Frame D)) (names : List (List ℕ)) (depth f : ℕ) (rest : List ℕ)
        (s : Parser D)
        → IsGood x
        → IsReady fs names (node json_undef (key_of x) zeroed nil) (text_at depth x ++ rest) s
        → IsDelimited (get_type x) rest
        → fuel_of x ≤ f
        → ReadsTo fs names x rest f s
    value-IsRead (node type key u child) fs names depth zero rest s h r stop enough =
        absurd (omega arith)
    value-IsRead (node type key u child) fs names depth (suc zero) rest s h r stop enough =
        absurd (omega arith)
    value-IsRead (node type key u child) fs names depth (suc (suc zero)) rest s h r stop enough =
        absurd (omega arith)
    value-IsRead (node json_undef key u child) fs names depth (suc (suc (suc f))) rest s h r stop
          enough =
        absurd h
    value-IsRead (node json_null key u child) fs names depth (suc (suc (suc f))) rest s (e, e') r
          stop enough =
        rw (e, e')
          (null-IsRead one strtod number_text decimal isspace knows fs names key rest s
            (suc (suc f)) r (omega arith))
    value-IsRead (node json_false key u child) fs names depth (suc (suc (suc f))) rest s (e, e') r
          stop enough =
        rw (e, e')
          (false-IsRead one strtod number_text decimal isspace knows fs names key rest s
            (suc (suc f)) r (omega arith))
    value-IsRead (node json_true key u child) fs names depth (suc (suc (suc f))) rest s (e, e') r
          stop enough =
        rw (e, e')
          (true-IsRead one strtod number_text decimal isspace knows fs names key rest s
            (suc (suc f)) r (omega arith))
    value-IsRead (node json_number key u child) fs names depth (suc (suc (suc f))) rest s
          (d, e, e', n) r stop enough =
        rw (e, e')
          (Numeral-value one nought strtod number_text decimal isspace knows fs names key d n rest
            (suc (suc f)) s
            (IsReady-text fs names _ _ _ s r (
              ap
                (λ (v : Value D).
                  kind_text nought number_text false depth json_number v
                    (elems_at (depth + 1) child) (fields_at (depth + 1) child)
                  ++ rest)
                e))
            stop (omega (arith, ap (value_cost one strtod number_text decimal) e, enough)))
    value-IsRead (node json_string key u child) fs names depth (suc (suc (suc f))) rest s
          (cs, e, e', text, long) r stop enough =
        rw (e, e')
          (string-IsRead one strtod number_text decimal isspace knows fs names key cs rest s
            (suc (suc f))
            (IsReady-text fs names _ _ _ s r (
              ap
                (λ (v : Value D).
                  kind_text nought number_text false depth json_string v
                    (elems_at (depth + 1) child) (fields_at (depth + 1) child)
                  ++ rest)
                e))
            text long (omega (arith, ap (value_cost one strtod number_text decimal) e, enough)))
    value-IsRead (node json_array key u nil) fs names depth (suc (suc (suc f))) rest s (e, h) r stop
          enough =
        rw e (
          array-value one nought strtod number_text decimal isspace knows fs names key nil
            (b']' ∷ rest) rest (suc f) s r
            (λ r'.
              empty-array one nought strtod number_text decimal isspace knows fs names key f rest
                (behind s) r'))
    value-IsRead (node json_array key u (cons x xs)) fs names depth (suc (suc (suc f))) rest s
          (e, h) r stop enough =
        rw e (
          array-value one nought strtod number_text decimal isspace knows fs names key (cons x xs)
            (elems_at (depth + 1) (cons x xs) ++ b']' ∷ rest) rest (suc f) s
            (IsReady-text fs names _ _ _ s r (
              ap (λ t. b'[' ∷ t)
                (append_assoc (elems_at (depth + 1) (cons x xs)) (b']' ∷ []) rest)))
            (λ r'.
              array-filled one nought strtod number_text decimal isspace knows fs names key x xs
                (depth + 1) f rest (behind s) h.3 r'
                (λ t ready n.
                  subst
                    (λ ys.
                      IsRead fs names (node json_array key zeroed ys) rest
                        (array_loop one strtod decimal isspace none (suc f) (address fs) t))
                    (all_nodes-nil (cons x xs))
                    (elems-IsRead (cons x xs) fs names key nil (depth + 1) (suc f) rest t h ready n
                      (omega arith) (omega arith)))))
    value-IsRead (node json_object key u nil) fs names depth (suc (suc (suc f))) rest s (e, h) r
          stop enough =
        rw e (
          object-value one nought strtod number_text decimal isspace knows fs names key nil
            (b'}' ∷ rest) rest (suc f) s r
            (λ r'.
              empty-object one nought strtod number_text decimal isspace knows fs names key f rest
                (behind s) r'))
    value-IsRead (node json_object key u (cons x xs)) fs names depth (suc (suc (suc f))) rest s
          (e, h) r stop enough =
        let text = fields_at (depth + 1) (cons x xs) ++ b'}' ∷ rest in
        let (tail, start) =
          field-first one nought strtod number_text decimal isspace knows (depth + 1) nil
            (cons x xs) rest h (omega arith) in
        rw e (
          object-value one nought strtod number_text decimal isspace knows fs names key (cons x xs)
            text rest (suc f) s
            (IsReady-text fs names _ _ _ s r (
              ap (λ t. b'{' ∷ t)
                (append_assoc (fields_at (depth + 1) (cons x xs)) (b'}' ∷ []) rest)))
            (λ r'.
              full-object one nought strtod number_text decimal isspace knows fs names key
                (cons x xs) f tail rest (behind s) (IsReady-text fs names _ _ _ (behind s) r' start)
                (λ t ready quote.
                  subst
                    (λ ys.
                      IsRead fs names (node json_object key zeroed ys) rest
                        (object_item one strtod decimal isspace none f (address fs) t))
                    (all_nodes-nil (cons x xs))
                    (fields-IsRead (cons x xs) fs names key nil (depth + 1) f tail rest t h start
                      ready quote (omega arith) (omega arith)))))

    elems-IsRead :
        (ys : Nodes D) (fs : List (Frame D)) (names : List (List ℕ)) (key : Option (List ℕ))
        (seen : Nodes D) (depth f : ℕ) (rest : List ℕ) (s : Parser D)
        → AllElems one strtod number_text decimal seen ys
        → IsReady fs names (node json_array key zeroed seen) (elems_at depth ys ++ b']' ∷ rest) s
        → s.root.count ≡ count_nodes seen
        → 0 < count_nodes ys
        → fuel_of_all ys ≤ f
        → IsRead fs names
            (node json_array key zeroed (all_nodes seen ys))
            rest
            (array_loop one strtod decimal isspace none f (address fs) s)
    elems-IsRead nil fs names key seen depth f rest s h r counted some_left enough =
        absurd (omega arith)
    elems-IsRead (cons x xs) fs names key seen depth zero rest s h r counted some_left enough =
        absurd (omega arith)
    elems-IsRead (cons x xs) fs names key seen depth (suc f) rest s (same, k, absent, doc, more) r
          counted some_left enough =
        elem_round one nought strtod number_text decimal isspace knows fs names key seen xs x depth
          f
          (text_at depth x
            ++ elems_rest one nought strtod number_text decimal isspace knows depth xs rest)
          rest s
          (IsReady-text fs names _ _ _ s r
            (elems_text-first one nought strtod number_text decimal isspace knows depth x xs rest))
          counted same k absent (count_nodes-last seen x) (omega arith)
          (λ hs ns t ready.
            value-IsRead x hs ns depth f _ t doc ready
              (IsDelimited-any (get_type x) _ (
                elems_rest-IsDelimited one nought strtod number_text decimal isspace knows depth xs
                  rest))
              (omega arith))
          (λ t ready n left_over.
            elems-IsRead xs fs names key (add_last seen x) depth f rest t more ready n left_over
              (omega arith))

    fields-IsRead :
        (ys : Nodes D) (fs : List (Frame D)) (names : List (List ℕ)) (key : Option (List ℕ))
        (seen : Nodes D) (depth f : ℕ) (tail rest : List ℕ) (s : Parser D)
        → AllFields one strtod number_text decimal seen ys
        → fields_at depth ys ++ b'}' ∷ rest ≡ b'"' ∷ tail
        → IsReady fs names (node json_object key zeroed seen) tail s
        → load s.root.src.s s.root.curptr ≡ done b'"'
        → 0 < count_nodes ys
        → fuel_of_all ys ≤ f
        → IsRead fs names
            (node json_object key zeroed (all_nodes seen ys))
            rest
            (object_item one strtod decimal isspace none f (address fs) s)
    fields-IsRead nil fs names key seen depth f tail rest s h start r quote some_left enough =
        absurd (omega arith)
    fields-IsRead (cons x xs) fs names key seen depth zero tail rest s h start r quote some_left
          enough =
        absurd (omega arith)
    fields-IsRead (cons x xs) fs names key seen depth (suc zero) tail rest s h start r quote
          some_left enough =
        absurd (omega arith)
    fields-IsRead (cons x xs) fs names key seen depth (suc (suc f)) tail rest s
          ((n, same, k, clean, long, absent), doc, more) start r quote some_left enough =
        field_round one nought strtod number_text decimal isspace knows fs names key seen xs x n
          (text_at depth x
            ++ fields_rest one nought strtod number_text decimal isspace knows depth xs rest)
          depth f rest s
          (IsReady-text fs names _ _ _ s r (
            behind_first b'"' _ _ (
              sym start
              ∙ fields_text-first one nought strtod number_text decimal isspace knows depth n x xs
                  rest same)
            ∙ field_tail-parts one nought strtod number_text decimal isspace knows depth n x xs
                rest))
          quote same k clean long absent
          (omega (arith, ap (key_cost one strtod number_text decimal) same, enough)) (omega arith)
          (λ hs ns t ready.
            value-IsRead x hs ns depth (suc f) _ t doc ready
              (IsDelimited-any (get_type x) _ (
                fields_rest-IsDelimited one nought strtod number_text decimal isspace knows depth xs
                  rest))
              (omega arith))
          (λ left_over.
            field-first one nought strtod number_text decimal isspace knows depth (add_last seen x)
              xs rest more left_over)
          (λ t tail' start' ready quote' left_over.
            fields-IsRead xs fs names key (add_last seen x) depth f tail' rest t more start' ready
              quote' left_over (omega arith))
