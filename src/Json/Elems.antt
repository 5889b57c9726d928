-- ===== src/Json/Elems.antt =====
-- jsonroot.c: a round of the loop of `json_root_parse_array`.
use vfdd.Prelude.{
  ℕ, suc, ◌+◌, ◌<◌, ◌≡◌, refl, sym, ap, subst, Bool, true, false, Option, none, some, List, [], ◌∷◌,
  ◌++◌, append_assoc, arith, ◌==◌, if◌then◌else◌, front, ◌>>!◌, done,
}
use vfdd.Dbuf.Reads.{left}
use vfdd.Json.Number.{is_number}
use vfdd.Json.Tree.{
  JsonType, Node, Nodes, count_nodes, key_of, json_undef, json_number, json_array, zeroed, node,
  nil, cons,
}
use vfdd.Json.Writes.{comma}
use vfdd.Json.Render.{value_text, elems_text}
use vfdd.Json.Items.{node_new, lookup_key, add_last}
use vfdd.Json.Place.{Frame, address}
use vfdd.Json.Absent.{IsKey, IsKey-IsName}
use vfdd.Json.Docs.{IsDelimited}
use vfdd.Json.Parse.{
  Parser, take_key, set_keyname_from_value, with_count, ret_error, skip, parse_value, array_loop,
}
use vfdd.Json.Steps.{behind, KnowsSigns, skip-sign, IsReady, enter, leave}
use vfdd.Json.Values.{IsRead}
use vfdd.Json.Reads.{all_nodes, IsReady-count, IsReady-behind}

module _ {D : Type 0} (one nought : D) (strtod : List ℕ → D × Bool) (number_text : D → List ℕ)
    (decimal : ℕ → List ℕ) (isspace : ℕ → Bool) (knows : KnowsSigns isspace) where
  abbrev pub elems : ℕ → Nodes D → List ℕ
  elems depth xs = elems_text nought number_text false depth xs

  -- What the rest of the children of an array leaves of the text.
  unfoldable pub elems_rest : ℕ → Nodes D → List ℕ → List ℕ
  elems_rest depth xs rest = comma false (count_nodes xs) ++ (elems depth xs ++ b']' ∷ rest)

  pub elems_text-first :
      (depth : ℕ) (x : Node D) (xs : Nodes D) (rest : List ℕ)
      → elems depth (cons x xs) ++ b']' ∷ rest
        ≡ value_text nought number_text false depth x ++ elems_rest depth xs rest
  unfolding elems_text elems_rest
  elems_text-first depth x xs rest = simp append_assoc refl

  -- A comma or the bracket: a number ends there.
  pub elems_rest-IsDelimited :
      (depth : ℕ) (xs : Nodes D) (rest : List ℕ)
      → IsDelimited json_number (elems_rest depth xs rest)
  unfolding elems_rest comma count_nodes is_number elems_text
  elems_rest-IsDelimited depth nil rest = refl
  elems_rest-IsDelimited depth (cons x xs) rest = refl

  abbrev around : JsonType → Option (List ℕ) → Nodes D → Frame D
  around type key left = record { type = type; key = key; val = zeroed; before = left }

  fresh_node : ℕ → Node D
  fresh_node n = node json_undef (some (decimal n)) zeroed nil

  fresh_item :
      (n : ℕ) → set_keyname_from_value (decimal n) (node_new none json_undef) ≡ done (fresh_node n)
  unfolding set_keyname_from_value take_key node_new fresh_node
  fresh_item n = refl

  -- What follows a value in an array: the end, or the next round.
  elem_next :
      (fs : List (Frame D)) (names : List (List ℕ)) (key : Option (List ℕ)) (front xs : Nodes D)
      (depth f : ℕ) (rest : List ℕ) (s : Parser D)
      → IsReady fs names (node json_array key zeroed front) (elems_rest depth xs rest) s
      → s.root.count ≡ count_nodes front
      → 0 < f
      → ((t : Parser D)
          → IsReady fs names (node json_array key zeroed front) (elems depth xs ++ b']' ∷ rest) t
          → t.root.count ≡ count_nodes front
          → 0 < count_nodes xs
          → IsRead fs names
              (node json_array key zeroed (all_nodes front xs))
              rest
              (array_loop one strtod decimal isspace none f (address fs) t))
      → IsRead fs names (node json_array key zeroed (all_nodes front xs)) rest (
          skip isspace none f s >>! λ (q, s₅). elim q [
            | none ↦ some (done (none, s₅))
            | some (i, c) ↦ elim (c == b',') [
              | true ↦ array_loop one strtod decimal isspace none f (address fs) s₅
              | false ↦ if c == b']' then some (done (some (i + 1), s₅)) else ret_error b']' i s₅
            ]
          ])
  unfolding elems_rest comma count_nodes elems_text
  elem_next fs names key front nil depth f rest s r counted enough more =
      let (out, next) =
        skip-sign isspace s b']' rest f knows (omega arith) (omega arith) enough r.at in
      simp out (record {
        pointer = s.root.src.pos + 1;
        parser = behind s;
        returns = refl;
        ready = IsReady-behind fs names _ b']' rest s r;
      })
  elem_next fs names key front (cons x xs) depth f rest s r counted enough more =
      let (out, next) =
        skip-sign isspace s b',' (elems depth (cons x xs) ++ b']' ∷ rest) f knows (omega arith)
          (omega arith) enough r.at in
      simp out (more (behind s) (IsReady-behind fs names _ b',' _ s r) counted (omega arith))

  -- One round of the loop over an array, around the value that is read in it.
  pub elem_round :
      (fs : List (Frame D)) (names : List (List ℕ)) (key : Option (List ℕ)) (front xs : Nodes D)
      (x : Node D) (depth f : ℕ) (text rest : List ℕ) (s : Parser D)
      → IsReady fs names (node json_array key zeroed front) text s
      → s.root.count ≡ count_nodes front
      → key_of x ≡ some (decimal (count_nodes front))
      → IsKey (decimal (count_nodes front))
      → lookup_key (decimal (count_nodes front)) front ≡ none
      → count_nodes (add_last front x) ≡ count_nodes front + 1
      → 0 < f
      → ((hs : List (Frame D)) (ns : List (List ℕ)) (t : Parser D)
          → IsReady hs ns (node json_undef (key_of x) zeroed nil) text t
          → IsRead hs ns x
              (elems_rest depth xs rest)
              (parse_value one strtod decimal isspace none f (address hs) t))
      → ((t : Parser D)
          → IsReady fs names
              (node json_array key zeroed (add_last front x))
              (elems depth xs ++ b']' ∷ rest)
              t
          → t.root.count ≡ count_nodes (add_last front x)
          → 0 < count_nodes xs
          → IsRead fs names
              (node json_array key zeroed (all_nodes (add_last front x) xs))
              rest
              (array_loop one strtod decimal isspace none f (address fs) t))
      → IsRead fs names
          (node json_array key zeroed (all_nodes (add_last front x) xs))
          rest
          (array_loop one strtod decimal isspace none (suc f) (address fs) s)
  unfolding array_loop key_of fresh_node
  elem_round fs names key front xs x depth f text rest s r count same k absent longer enough read
        more =
      let n = decimal (count_nodes front) in
      let g = around json_array key front in
      let (s₁, s₂, moved, placed, ready, kept) = enter fs names g n text s r k absent in
      let v = read (fs ++ g ∷ []) (names ++ n ∷ []) s₂ (
        subst (λ o. IsReady (fs ++ g ∷ []) (names ++ n ∷ []) (node json_undef o zeroed nil) text s₂)
          (sym same) ready) in
      let (s₄, left_it, ready', counted) =
        leave fs names g n (elems_rest depth xs rest) x s₂.root.count v.parser v.ready
          (IsKey-IsName n k) r.keys r.placed in
      simp
        (
          array_loop,
          ap decimal count,
          fresh_item (count_nodes front),
          moved,
          placed,
          v.returns,
          left_it,
        )
        (elem_next fs names key (add_last front x) xs depth f rest
          (with_count (s₄.root.count + 1) s₄)
          (IsReady-count fs names _ _ (s₄.root.count + 1) s₄ ready')
          (omega (arith, counted, kept, count, longer)) enough more)
