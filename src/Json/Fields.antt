-- ===== src/Json/Fields.antt =====
-- jsonroot.c: a round of the loop of `json_root_parse_object`.
use vfdd.Json.Absent.{IsKey, IsKey-IsName}
use vfdd.Prelude.{
  ℕ, suc, ◌+◌, ◌≤◌, ◌<◌, ◌≡◌, refl, sym, subst, Bool, true, false, Option, none, some, List, [],
  ◌∷◌, ◌++◌, append-nil, append_assoc, arith, ◌==◌, if◌then◌else◌, length, front, ◌>>!◌, done,
}
use vfdd.Prelude.Memory.{load}
use vfdd.Dbuf.{DBuf}
use vfdd.Dbuf.Bounds.{IsValid, max_len}
use vfdd.Json.Escapes.{escaped}
use vfdd.Json.Reading.{IsAt, load-left}
use vfdd.Json.RoundTrips.{IsText, parse_string-read}
use vfdd.Json.Number.{is_number}
use vfdd.Json.Tree.{
  JsonType, Node, Nodes, count_nodes, key_of, json_undef, json_number, json_object, zeroed, node,
  nil, cons,
}
use vfdd.Json.Writes.{comma}
use vfdd.Json.Render.{field_text, value_text, fields_text}
use vfdd.Json.Items.{node_new, put_string, dup_val_string, lookup_key, add_last}
use vfdd.Json.Place.{Frame, address}
use vfdd.Json.Docs.{IsDelimited}
use vfdd.Json.Parse.{
  Parser, take_key, set_keyname_from_value, with_root, with_count, ret_error, skip, read_key,
  parse_value, object_loop, object_item,
}
use vfdd.Json.Steps.{behind, KnowsSigns, skip-sign, IsReady, enter, leave}
use vfdd.Json.Values.{IsRead}
use vfdd.Json.Reads.{all_nodes, IsReady-text, IsReady-count, IsReady-behind}

module _ {D : Type 0} (one nought : D) (strtod : List ℕ → D × Bool) (number_text : D → List ℕ)
    (decimal : ℕ → List ℕ) (isspace : ℕ → Bool) (knows : KnowsSigns isspace) where
  abbrev pub fields : ℕ → Nodes D → List ℕ
  fields depth xs = fields_text nought number_text false depth xs

  -- What the rest of the children of an object leaves of the text.
  unfoldable pub fields_rest : ℕ → Nodes D → List ℕ → List ℕ
  fields_rest depth xs rest = comma false (count_nodes xs) ++ (fields depth xs ++ b'}' ∷ rest)

  -- The text of a field behind its first quote
  unfoldable pub field_tail : ℕ → List ℕ → Node D → Nodes D → List ℕ → List ℕ
  field_tail depth n x xs rest =
      escaped n
      ++ b'"' ∷ b':' ∷ value_text nought number_text false depth x
      ++ fields_rest depth xs rest

  pub fields_text-first :
      (depth : ℕ) (n : List ℕ) (x : Node D) (xs : Nodes D) (rest : List ℕ)
      → key_of x ≡ some n
      → fields depth (cons x xs) ++ b'}' ∷ rest ≡ b'"' ∷ field_tail depth n x xs rest
  unfolding fields_text field_text fields_rest field_tail
  fields_text-first depth n x xs rest e = rw (fields_text, e) (simp (append_assoc, append-nil) refl)

  -- A comma or the bracket: a number ends there.
  pub fields_rest-IsDelimited :
      (depth : ℕ) (xs : Nodes D) (rest : List ℕ)
      → IsDelimited json_number (fields_rest depth xs rest)
  unfolding fields_rest comma count_nodes is_number fields_text
  fields_rest-IsDelimited depth nil rest = refl
  fields_rest-IsDelimited depth (cons x xs) rest = refl

  abbrev within : JsonType → Option (List ℕ) → Nodes D → Frame D
  within type key front = record { type = type; key = key; val = zeroed; before = front }

  keyed_node : List ℕ → Node D
  keyed_node n = node json_undef (some n) zeroed nil

  -- The key of a field.
  read_key-read :
      (s : Parser D) (n more : List ℕ) (f : ℕ)
      → IsText n
      → load s.root.src.s s.root.curptr ≡ done b'"'
      → IsAt s.root.src (escaped n ++ b'"' ∷ more)
      → IsValid s.root.dbuf
      → length n ≤ max_len
      → length n < f
      → (src : DBuf) × (dbuf : DBuf) × (read_key one strtod decimal isspace none f s
          ≡ some
              (done (some (keyed_node n), with_root (record s.root { src = src; dbuf = dbuf }) s)))
        × IsAt src more
        × IsValid dbuf
  unfolding read_key dup_val_string put_string set_keyname_from_value take_key node_new keyed_node
  read_key-read s n more f t quote at v long enough =
      let (src, dbuf, found, last, valid) =
        parse_string-read s.root n more f t quote at v long enough in
      (src, dbuf, simp found refl, last, valid)

  -- What follows a field: the end, or the next round.
  field_next :
      (fs : List (Frame D)) (names : List (List ℕ)) (key : Option (List ℕ)) (front xs : Nodes D)
      (depth f : ℕ) (rest : List ℕ) (s : Parser D)
      → IsReady fs names (node json_object key zeroed front) (fields_rest depth xs rest) s
      → 0 < f
      → (0 < count_nodes xs → (tail : List ℕ) × (fields depth xs ++ b'}' ∷ rest ≡ b'"' ∷ tail))
      → ((t : Parser D) (tail : List ℕ)
          → fields depth xs ++ b'}' ∷ rest ≡ b'"' ∷ tail
          → IsReady fs names (node json_object key zeroed front) tail t
          → load t.root.src.s t.root.curptr ≡ done b'"'
          → 0 < count_nodes xs
          → IsRead fs names
              (node json_object key zeroed (all_nodes front xs))
              rest
              (object_item one strtod decimal isspace none f (address fs) t))
      → IsRead fs names (node json_object key zeroed (all_nodes front xs)) rest (
          skip isspace none (suc f) s >>! λ (t, s₇). elim t [
            | none ↦ some (done (none, s₇))
            | some (j, e) ↦ elim (e == b',') [
              | true ↦ object_loop one strtod decimal isspace none (suc f) (address fs) e s₇
              | false ↦ if e == b'}' then some (done (some (j + 1), s₇)) else ret_error b'}' j s₇
            ]
          ])
  unfolding fields_rest comma count_nodes fields_text object_loop
  field_next fs names key front nil depth f rest s r enough first more =
      let (out, next) =
        skip-sign isspace s b'}' rest (suc f) knows (omega arith) (omega arith) (omega arith)
          r.at in
      simp out (record {
        pointer = s.root.src.pos + 1;
        parser = behind s;
        returns = refl;
        ready = IsReady-behind fs names _ b'}' rest s r;
      })
  field_next fs names key front (cons x xs) depth f rest s r enough first more =
      let text = fields depth (cons x xs) ++ b'}' ∷ rest in
      let (out, next) =
        skip-sign isspace s b',' text (suc f) knows (omega arith) (omega arith) (omega arith)
          r.at in
      let (tail, e) = first (omega arith) in
      let r' =
        IsReady-text fs names _ text (b'"' ∷ tail) (behind s)
          (IsReady-behind fs names _ b',' text s r) e in
      let (out', next') =
        skip-sign isspace (behind s) b'"' tail f knows (omega arith) (omega arith) enough r'.at in
      simp (out, object_loop, out')
        (more (behind (behind s)) tail e (IsReady-behind fs names _ b'"' tail (behind s) r')
          (load-left (behind s).root.src b'"' tail r'.at) (omega arith))

  -- One round of the loop over an object, around the value that is read in it.
  pub field_round :
      (fs : List (Frame D)) (names : List (List ℕ)) (key : Option (List ℕ)) (front xs : Nodes D)
      (x : Node D) (n text : List ℕ) (depth f : ℕ) (rest : List ℕ) (s : Parser D)
      → IsReady fs names (node json_object key zeroed front) (escaped n ++ b'"' ∷ b':' ∷ text) s
      → load s.root.src.s s.root.curptr ≡ done b'"'
      → key_of x ≡ some n
      → IsKey n
      → IsText n
      → length n ≤ max_len
      → lookup_key n front ≡ none
      → length n < suc f
      → 0 < f
      → ((hs : List (Frame D)) (ns : List (List ℕ)) (t : Parser D)
          → IsReady hs ns (node json_undef (key_of x) zeroed nil) text t
          → IsRead hs ns x
              (fields_rest depth xs rest)
              (parse_value one strtod decimal isspace none (suc f) (address hs) t))
      → (0 < count_nodes xs → (tail : List ℕ) × (fields depth xs ++ b'}' ∷ rest ≡ b'"' ∷ tail))
      → ((t : Parser D) (tail : List ℕ)
          → fields depth xs ++ b'}' ∷ rest ≡ b'"' ∷ tail
          → IsReady fs names (node json_object key zeroed (add_last front x)) tail t
          → load t.root.src.s t.root.curptr ≡ done b'"'
          → 0 < count_nodes xs
          → IsRead fs names
              (node json_object key zeroed (all_nodes (add_last front x) xs))
              rest
              (object_item one strtod decimal isspace none f (address fs) t))
      → IsRead fs names
          (node json_object key zeroed (all_nodes (add_last front x) xs))
          rest
          (object_item one strtod decimal isspace none (suc (suc f)) (address fs) s)
  unfolding object_item key_of keyed_node
  field_round fs names key front xs x n text depth f rest s r quote same k t long absent fuel enough
        read first more =
      let (src, dbuf, found, at, valid) =
        read_key-read s n (b':' ∷ text) (suc f) t quote r.at r.buffer long fuel in
      let s₁ = with_root (record s.root { src = src; dbuf = dbuf }) s in
      let item = node json_object key zeroed front in
      let r₁ : IsReady fs names item (b':' ∷ text) s₁ = record {
        at = at;
        buffer = valid;
        tree = r.tree;
        placed = r.placed;
        keys = r.keys;
        path = r.path;
      } in
      let g = within json_object key front in
      let hs = fs ++ g ∷ [] in
      let ns = names ++ n ∷ [] in
      let (s₂, s₃, moved, placed, ready, kept) = enter fs names g n (b':' ∷ text) s₁ r₁ k absent in
      let (out, next) =
        skip-sign isspace s₃ b':' text (suc f) knows (omega arith) (omega arith) (omega arith)
          ready.at in
      let v = read hs ns (behind s₃) (
        subst (λ o. IsReady hs ns (node json_undef o zeroed nil) text (behind s₃)) (sym same)
          (IsReady-behind hs ns _ b':' text s₃ ready)) in
      let (s₆, left_it, ready', counted) =
        leave fs names g n (fields_rest depth xs rest) x s₃.root.count v.parser v.ready
          (IsKey-IsName n k) r.keys r.placed in
      simp (object_item, found, moved, placed, out, v.returns, left_it)
        (field_next fs names key (add_last front x) xs depth f rest
          (with_count (s₆.root.count + 1) s₆)
          (IsReady-count fs names _ _ (s₆.root.count + 1) s₆ ready') enough first more)
