-- ===== src/Json/Values.antt =====
-- jsonroot.c: `json_root_parse_value` of words, strings and numbers.
use vfdd.Prelude.{
  ℕ, suc, ◌+◌, ◌-◌, ◌≤◌, ◌<◌, ◌≡◌, refl, sym, ap, subst, ◌∙◌, Bool, Option, none, some, List, [],
  ◌∷◌, ◌++◌, append_assoc, arith, length, Outcome, done,
}
use vfdd.Dbuf.Bounds.{IsValid, max_len}
use vfdd.Dbuf.Reads.{stepped}
use vfdd.Json.{Root}
use vfdd.Json.Escapes.{escaped, quoted}
use vfdd.Json.Reading.{IsAt, load-left}
use vfdd.Json.RoundTrips.{IsText, parse_string-read}
use vfdd.Json.Tree.{
  JsonType, Value, Node, key_of, null_text, false_text, true_text, json_undef, json_false,
  json_true, json_null, json_string, zeroed, value, ptr, node, nil,
}
use vfdd.Json.Items.{set_type, put_string, dup_val_string}
use vfdd.Json.Locate.{change_at}
use vfdd.Json.Place.{Frame, plug, address, Placed, change_at-plug}
use vfdd.Json.Parse.{Parser, Parsed, read_word, read_string, read_kind, parse_value}
use vfdd.Json.Steps.{
  behind, KnowsSigns, skip-sign, is_word-there, is_word-other, IsAt-behind, path_text, IsReady,
}

-- How a value is read: the parser returns, the value is at its place, and `rest` is left.
pub record IsRead {D : Type 0} (fs : List (Frame D)) (names : List (List ℕ)) (x : Node D)
    (rest : List ℕ) (out : Parsed D) : Type 0 where
  pub pointer : ℕ
  pub parser : Parser D
  pub returns : out ≡ some (done (some pointer, parser))
  pub ready : IsReady fs names x rest parser

-- A new node takes a value: the parser's root is then `root`.
pub IsReady-valued :
    {D : Type 0} (fs : List (Frame D)) (names : List (List ℕ)) (key : Option (List ℕ))
    (text rest : List ℕ) (x : Node D) (s : Parser D) (root : Root)
    → IsReady fs names (node json_undef key zeroed nil) text s
    → key_of x ≡ key
    → IsAt root.src rest
    → IsValid root.dbuf
    → root.path ≡ s.root.path
    → IsReady fs names x rest (record { root = root; tree = plug fs x })
unfolding key_of
IsReady-valued fs names key text rest x s root r same at buffer path = record {
  at = at;
  buffer = buffer;
  tree = refl;
  placed = subst (Placed fs names) (sym same) r.placed;
  keys = r.keys;
  path = ap path_text path ∙ r.path;
}

module _ {D : Type 0} (one : D) (strtod : List ℕ → D × Bool) (number_text : D → List ℕ)
    (decimal : ℕ → List ℕ) (isspace : ℕ → Bool) (knows : KnowsSigns isspace) where
  -- A change of the new node.
  pub changed :
      (fs : List (Frame D)) (names : List (List ℕ)) (key : Option (List ℕ)) (text : List ℕ)
      (s : Parser D) (change : Node D → Outcome (Node D)) (y : Node D)
      → IsReady fs names (node json_undef key zeroed nil) text s
      → change (node json_undef key zeroed nil) ≡ done y
      → change_at (address fs) change s.tree ≡ done (plug fs y)
  changed fs names key text s change y r e =
      ap (λ t. change_at (address fs) change t) r.tree
      ∙ change_at-plug fs change (node json_undef key zeroed nil) y e

  -- One of the three words, `w` behind its first byte.
  word-IsRead :
      (fs : List (Frame D)) (names : List (List ℕ)) (key : Option (List ℕ)) (type : JsonType)
      (u : Value D) (c : ℕ) (w rest : List ℕ) (s : Parser D)
      → IsReady fs names (node json_undef key zeroed nil) ((c ∷ w) ++ rest) s
      → IsAt (behind s).root.src (w ++ rest)
      → set_type one type (node json_undef key zeroed nil) ≡ node type key u nil
      → IsRead fs names
          (node type key u nil)
          rest
          (read_word one type (suc (length w)) s.root.src.pos (address fs) (behind s))
  unfolding read_word
  word-IsRead fs names key type u c w rest s r next e =
      let y = node type key u nil in
      let src = stepped s.root.src in
      let b = (behind s).root in
      let width : suc (length w) - 1 ≡ length w = omega arith in
      record {
        pointer = s.root.src.pos + suc (length w);
        parser = record {
          root = record b { src = record src { pos = src.pos + (suc (length w) - 1) } };
          tree = plug fs y;
        };
        returns =
            rw
              (
                read_word,
                changed fs names key ((c ∷ w) ++ rest) s (λ x. done (set_type one type x)) y r
                    (ap done e),
              )
              refl;
        ready =
            IsReady-valued fs names key ((c ∷ w) ++ rest) rest y s
              (record b { src = record src { pos = src.pos + (suc (length w) - 1) } }) r
              (unfold key_of in refl) (IsAt-behind w rest src (suc (length w) - 1) next width)
              r.buffer refl;
      }

  abbrev pub parsed_value : ℕ → List ℕ → Parser D → Parsed D
  parsed_value f at s = parse_value one strtod decimal isspace none f at s

  pub null-IsRead :
      (fs : List (Frame D)) (names : List (List ℕ)) (key : Option (List ℕ)) (rest : List ℕ)
      (s : Parser D) (f : ℕ)
      → IsReady fs names (node json_undef key zeroed nil) (null_text ++ rest) s
      → 0 < f
      → IsRead fs names (node json_null key zeroed nil) rest (parsed_value (suc f) (address fs) s)
  unfolding parse_value read_kind
  null-IsRead fs names key rest s f r enough =
      let (out, next) =
        skip-sign isspace s b'n' _ f knows (omega arith) (omega arith) enough r.at in
      simp
        (
          out,
          is_word-there null_text rest s.root.src r.at,
          is_word-other b'n' b'f' (b'a' ∷ b'l' ∷ b's' ∷ b'e' ∷ []) _ s.root.src r.at (omega arith),
          is_word-other b'n' b't' (b'r' ∷ b'u' ∷ b'e' ∷ []) _ s.root.src r.at (omega arith),
        )
        (word-IsRead fs names key json_null zeroed b'n' (b'u' ∷ b'l' ∷ b'l' ∷ []) rest s r next
          (unfold set_type in refl))

  pub false-IsRead :
      (fs : List (Frame D)) (names : List (List ℕ)) (key : Option (List ℕ)) (rest : List ℕ)
      (s : Parser D) (f : ℕ)
      → IsReady fs names (node json_undef key zeroed nil) (false_text ++ rest) s
      → 0 < f
      → IsRead fs names (node json_false key zeroed nil) rest (parsed_value (suc f) (address fs) s)
  unfolding parse_value read_kind
  false-IsRead fs names key rest s f r enough =
      let (out, next) =
        skip-sign isspace s b'f' _ f knows (omega arith) (omega arith) enough r.at in
      simp
        (
          out,
          is_word-other b'f' b'n' (b'u' ∷ b'l' ∷ b'l' ∷ []) _ s.root.src r.at (omega arith),
          is_word-there false_text rest s.root.src r.at,
          is_word-other b'f' b't' (b'r' ∷ b'u' ∷ b'e' ∷ []) _ s.root.src r.at (omega arith),
        )
        (word-IsRead fs names key json_false zeroed b'f' (b'a' ∷ b'l' ∷ b's' ∷ b'e' ∷ []) rest s r
          next (unfold set_type in refl))

  pub true-IsRead :
      (fs : List (Frame D)) (names : List (List ℕ)) (key : Option (List ℕ)) (rest : List ℕ)
      (s : Parser D) (f : ℕ)
      → IsReady fs names (node json_undef key zeroed nil) (true_text ++ rest) s
      → 0 < f
      → IsRead fs names
          (node json_true key (value one) nil)
          rest
          (parsed_value (suc f) (address fs) s)
  unfolding parse_value read_kind
  true-IsRead fs names key rest s f r enough =
      let (out, next) =
        skip-sign isspace s b't' _ f knows (omega arith) (omega arith) enough r.at in
      simp
        (
          out,
          is_word-other b't' b'n' (b'u' ∷ b'l' ∷ b'l' ∷ []) _ s.root.src r.at (omega arith),
          is_word-other b't' b'f' (b'a' ∷ b'l' ∷ b's' ∷ b'e' ∷ []) _ s.root.src r.at (omega arith),
          is_word-there true_text rest s.root.src r.at,
        )
        (word-IsRead fs names key json_true (value one) b't' (b'r' ∷ b'u' ∷ b'e' ∷ []) rest s r next
          (unfold set_type in refl))

  pub string-IsRead :
      (fs : List (Frame D)) (names : List (List ℕ)) (key : Option (List ℕ)) (cs rest : List ℕ)
      (s : Parser D) (f : ℕ)
      → IsReady fs names (node json_undef key zeroed nil) (quoted cs ++ rest) s
      → IsText cs
      → length cs ≤ max_len
      → length cs < f
      → IsRead fs names
          (node json_string key (ptr (some cs)) nil)
          rest
          (parsed_value (suc f) (address fs) s)
  unfolding parse_value read_kind read_string
  string-IsRead fs names key cs rest s f r t long enough =
      let (out, next) =
        skip-sign isspace s b'"' _ f knows (omega arith) (omega arith) (omega arith) r.at in
      let b = (behind s).root in
      let (src, dbuf, found, last, valid) =
        parse_string-read b cs rest f t (load-left s.root.src b'"' _ r.at)
          (next.0, next.1 ∙ append_assoc (escaped cs) (b'"' ∷ []) rest) r.buffer long enough in
      let y : Node D = node json_string key (ptr (some cs)) nil in
      simp
        (
          out,
          is_word-other b'"' b'n' (b'u' ∷ b'l' ∷ b'l' ∷ []) _ s.root.src r.at (omega arith),
          is_word-other b'"' b'f' (b'a' ∷ b'l' ∷ b's' ∷ b'e' ∷ []) _ s.root.src r.at (omega arith),
          is_word-other b'"' b't' (b'r' ∷ b'u' ∷ b'e' ∷ []) _ s.root.src r.at (omega arith),
          found,
          changed fs names key _ s (dup_val_string (some cs)) y r
              (unfold dup_val_string put_string in refl),
        )
        (record {
          pointer = src.pos;
          parser = record { root = record b { src = src; dbuf = dbuf }; tree = plug fs y };
          returns = refl;
          ready =
              IsReady-valued fs names key _ rest y s (record b { src = src; dbuf = dbuf }) r
                (unfold key_of in refl) last valid refl;
        })
