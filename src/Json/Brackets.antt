-- ===== src/Json/Brackets.antt =====
-- jsonroot.c: the brackets around the children of an array or object.
use vfdd.Json.Number.{ungot}
use vfdd.Dbuf.Read.{Undo, unget_char}
use vfdd.Json.Reading.{load-left}
use vfdd.Json.Locate.{change_at}
use vfdd.Prelude.Memory.{load}
use vfdd.Prelude.{
  ℕ, suc, ◌+◌, ◌<◌, ◌≡◌, refl, sym, ap, subst, ◌≢◌, Bool, true, false, Option, none, some, List, [],
  ◌∷◌, arith, ==_ne, ◌>>?◌, done,
}
use vfdd.Json.Tree.{JsonType, Nodes, key_of, json_undef, json_array, json_object, zeroed, node, nil}
use vfdd.Json.Items.{set_type}
use vfdd.Json.Place.{Frame, plug, address}
use vfdd.Json.Parse.{
  Parser, Parsed, with_root, with_count, skip, read_kind, parse_array, array_loop, parse_object,
  object_loop, object_item,
}
use vfdd.Json.Steps.{behind, KnowsSigns, skip-sign, is_word-other, unget-stepped, IsReady}
use vfdd.Json.Values.{IsRead, changed}
use vfdd.Json.Reads.{IsReady-count, IsReady-behind, IsReady-typed}

module _ {D : Type 0} (one nought : D) (strtod : List ℕ → D × Bool) (number_text : D → List ℕ)
    (decimal : ℕ → List ℕ) (isspace : ℕ → Bool) (knows : KnowsSigns isspace) where
  -- At a bracket `json_root_parse_value` goes on behind it.
  pub array-open :
      (fs : List (Frame D)) (names : List (List ℕ)) (key : Option (List ℕ)) (text : List ℕ) (f : ℕ)
      (s : Parser D) (array object : Parser D → Parsed D)
      → IsReady fs names (node json_undef key zeroed nil) (b'[' ∷ text) s
      → (skip isspace none (suc f) s ≡ some (done (some (s.root.src.pos, b'['), behind s)))
        × (read_kind one strtod decimal isspace none
              (suc f)
              s.root.src.pos
              b'['
              (address fs)
              (behind s)
              array
              object
            ≡ array (behind s))
        × IsReady fs names (node json_undef key zeroed nil) text (behind s)
  unfolding read_kind
  array-open fs names key text f s array object r =
      let (out, next) =
        skip-sign isspace s b'[' text (suc f) knows (omega arith) (omega arith) (omega arith)
          r.at in
      (
        out,
        simp
            (
              is_word-other b'[' b'n' (b'u' ∷ b'l' ∷ b'l' ∷ []) text s.root.src r.at (omega arith),
              is_word-other b'[' b'f' (b'a' ∷ b'l' ∷ b's' ∷ b'e' ∷ []) text s.root.src r.at
                  (omega arith),
              is_word-other b'[' b't' (b'r' ∷ b'u' ∷ b'e' ∷ []) text s.root.src r.at (omega arith),
            )
            refl,
        IsReady-behind fs names _ b'[' text s r,
      )

  -- At a bracket `json_root_parse_value` goes on behind it.
  pub object-open :
      (fs : List (Frame D)) (names : List (List ℕ)) (key : Option (List ℕ)) (text : List ℕ) (f : ℕ)
      (s : Parser D) (array object : Parser D → Parsed D)
      → IsReady fs names (node json_undef key zeroed nil) (b'{' ∷ text) s
      → (skip isspace none (suc f) s ≡ some (done (some (s.root.src.pos, b'{'), behind s)))
        × (read_kind one strtod decimal isspace none
              (suc f)
              s.root.src.pos
              b'{'
              (address fs)
              (behind s)
              array
              object
            ≡ object (behind s))
        × IsReady fs names (node json_undef key zeroed nil) text (behind s)
  unfolding read_kind
  object-open fs names key text f s array object r =
      let (out, next) =
        skip-sign isspace s b'{' text (suc f) knows (omega arith) (omega arith) (omega arith)
          r.at in
      (
        out,
        simp
            (
              is_word-other b'{' b'n' (b'u' ∷ b'l' ∷ b'l' ∷ []) text s.root.src r.at (omega arith),
              is_word-other b'{' b'f' (b'a' ∷ b'l' ∷ b's' ∷ b'e' ∷ []) text s.root.src r.at
                  (omega arith),
              is_word-other b'{' b't' (b'r' ∷ b'u' ∷ b'e' ∷ []) text s.root.src r.at (omega arith),
            )
            refl,
        IsReady-behind fs names _ b'{' text s r,
      )

  -- The node gets its type.
  typed_as :
      (fs : List (Frame D)) (names : List (List ℕ)) (key : Option (List ℕ)) (type : JsonType)
      (text : List ℕ) (s : Parser D)
      → IsReady fs names (node json_undef key zeroed nil) text s
      → set_type one type (node json_undef key zeroed nil) ≡ node type key zeroed nil
      → (change_at (address fs) (λ x. done (set_type one type x)) s.tree
          ≡ done (plug fs (node type key zeroed nil)))
        × IsReady fs names
            (node type key zeroed nil)
            text
            (record s { tree = plug fs (node type key zeroed nil) })
  typed_as fs names key type text s r e = (
    changed one strtod number_text decimal isspace knows fs names key text s
        (λ x. done (set_type one type x)) (node type key zeroed nil) r (ap done e),
    IsReady-typed fs names (node json_undef key zeroed nil) (node type key zeroed nil) text s r
        (unfold key_of in refl),
  )

  pub empty-array :
      (fs : List (Frame D)) (names : List (List ℕ)) (key : Option (List ℕ)) (f : ℕ) (rest : List ℕ)
      (s : Parser D)
      → IsReady fs names (node json_undef key zeroed nil) (b']' ∷ rest) s
      → IsRead fs names
          (node json_array key zeroed nil)
          rest
          (parse_array one strtod decimal isspace none (suc (suc f)) (address fs) s)
  unfolding parse_array
  empty-array fs names key f rest s r =
      let (type, r') =
        typed_as fs names key json_array (b']' ∷ rest) s r (unfold set_type in refl) in
      let t = record s { tree = plug fs (node json_array key zeroed nil) } in
      let (out, next) =
        skip-sign isspace t b']' rest (suc f) knows (omega arith) (omega arith) (omega arith)
          r'.at in
      simp (parse_array, type, out)
        (record {
          pointer = t.root.src.pos + 1;
          parser = behind t;
          returns = refl;
          ready = IsReady-behind fs names _ b']' rest t r';
        })

  pub full-array :
      (fs : List (Frame D)) (names : List (List ℕ)) (key : Option (List ℕ)) (child : Nodes D)
      (c f : ℕ) (tail rest : List ℕ) (s : Parser D)
      → IsReady fs names (node json_undef key zeroed nil) (c ∷ tail) s
      → 32 < c
      → c < 127
      → c ≢ b']'
      → ((t : Parser D)
          → IsReady fs names (node json_array key zeroed nil) (c ∷ tail) t
          → t.root.count ≡ 0
          → IsRead fs names
              (node json_array key zeroed child)
              rest
              (array_loop one strtod decimal isspace none (suc f) (address fs) t))
      → IsRead fs names
          (node json_array key zeroed child)
          rest
          (parse_array one strtod decimal isspace none (suc (suc f)) (address fs) s)
  unfolding parse_array
  full-array fs names key child c f tail rest s r low high other loop =
      let (type, r') = typed_as fs names key json_array (c ∷ tail) s r (unfold set_type in refl) in
      let t = record s { tree = plug fs (node json_array key zeroed nil) } in
      let (out, next) = skip-sign isspace t c tail (suc f) knows low high (omega arith) r'.at in
      let (src, back, at) = unget-stepped t.root.src c tail r'.at in
      let open_loop : Undo → Parsed D = λ u.
        array_loop one strtod decimal isspace none (suc f) (address fs) (
          with_root (record (behind t).root { src = ungot u (behind t).root.src; count = 0 })
            (behind t)) in
      simp (parse_array, type, out)
        (subst
          (λ b. IsRead fs names (node json_array key zeroed child) rest (elim b as (λ _. Parsed D) [
            | true ↦ some (done (some (t.root.src.pos + 1), behind t))
            | false ↦ unget_char (behind t).root.src >>? open_loop
          ]))
          (sym (==_ne c b']' other))
          (subst (λ o. IsRead fs names (node json_array key zeroed child) rest (o >>? open_loop))
            (sym back)
            (loop (with_root (record (behind t).root { src = src; count = 0 }) (behind t))
              (record {
                at = at;
                buffer = r'.buffer;
                tree = r'.tree;
                placed = r'.placed;
                keys = r'.keys;
                path = r'.path;
              })
              refl)))

  pub empty-object :
      (fs : List (Frame D)) (names : List (List ℕ)) (key : Option (List ℕ)) (f : ℕ) (rest : List ℕ)
      (s : Parser D)
      → IsReady fs names (node json_undef key zeroed nil) (b'}' ∷ rest) s
      → IsRead fs names
          (node json_object key zeroed nil)
          rest
          (parse_object one strtod decimal isspace none (suc (suc f)) (address fs) s)
  unfolding parse_object
  empty-object fs names key f rest s r =
      let (type, r') =
        typed_as fs names key json_object (b'}' ∷ rest) s r (unfold set_type in refl) in
      let t = record s { tree = plug fs (node json_object key zeroed nil) } in
      let (out, next) =
        skip-sign isspace t b'}' rest (suc f) knows (omega arith) (omega arith) (omega arith)
          r'.at in
      simp (parse_object, type, out)
        (record {
          pointer = t.root.src.pos + 1;
          parser = behind t;
          returns = refl;
          ready = IsReady-behind fs names _ b'}' rest t r';
        })

  pub full-object :
      (fs : List (Frame D)) (names : List (List ℕ)) (key : Option (List ℕ)) (child : Nodes D)
      (f : ℕ) (tail rest : List ℕ) (s : Parser D)
      → IsReady fs names (node json_undef key zeroed nil) (b'"' ∷ tail) s
      → ((t : Parser D)
          → IsReady fs names (node json_object key zeroed nil) tail t
          → load t.root.src.s t.root.curptr ≡ done b'"'
          → IsRead fs names
              (node json_object key zeroed child)
              rest
              (object_item one strtod decimal isspace none f (address fs) t))
      → IsRead fs names
          (node json_object key zeroed child)
          rest
          (parse_object one strtod decimal isspace none (suc (suc f)) (address fs) s)
  unfolding parse_object object_loop
  full-object fs names key child f tail rest s r loop =
      let (type, r') =
        typed_as fs names key json_object (b'"' ∷ tail) s r (unfold set_type in refl) in
      let t = record s { tree = plug fs (node json_object key zeroed nil) } in
      let (out, next) =
        skip-sign isspace t b'"' tail (suc f) knows (omega arith) (omega arith) (omega arith)
          r'.at in
      simp (parse_object, type, out, object_loop)
        (loop (with_count 0 (behind t))
          (IsReady-count fs names _ tail 0 (behind t) (IsReady-behind fs names _ b'"' tail t r'))
          (load-left t.root.src b'"' tail r'.at))
