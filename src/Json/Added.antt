-- ===== src/Json/Added.antt =====
-- jsonroot.c: what a look-up finds after an item has been added to an object.
use mathlib.Core.Bool.{false≢true}
use vfdd.Prelude.{
  ℕ, ◌≡◌, refl, sym, ap, ap₂, ◌∙◌, inl, inr, Bool, true, false, ◌&&◌, Option, none, some, List, [],
  ◌∷◌, ◌==◌, if◌then◌else◌, ==_iff, Bool-cases, done,
}
use vfdd.Json.Tree.{
  JsonType, Node, Nodes, json_undef, json_false, json_true, json_null, json_number, json_string,
  json_array, json_object, zeroed, node, nil, cons,
}
use vfdd.Json.Items.{
  same_text, has_key, node_new, set_type, is_true, get_val_double, lookup_key, put_key, put_child,
  add_type_2object, add_bool_2object,
}

pub same_text_refl : (xs : List ℕ) → same_text xs xs ≡ true
unfolding same_text
same_text_refl [] = refl
same_text_refl (x ∷ xs) = rw ((==_iff x x).1 refl) (same_text_refl xs)

same_text-eq : (xs ys : List ℕ) → same_text xs ys ≡ true → xs ≡ ys
unfolding same_text
same_text-eq [] [] e = refl
same_text-eq [] (y ∷ ys) e = absurd (false≢true e)
same_text-eq (x ∷ xs) [] e = absurd (false≢true e)
same_text-eq (x ∷ xs) (y ∷ ys) e =
    ap₂ ◌∷◌ (both (x == y) e refl).0 (same_text-eq xs ys (both (x == y) e refl).1)
  where
    both :
        (b : Bool)
        → (b && same_text xs ys) ≡ true
        → (x == y) ≡ b
        → (x ≡ y) × (same_text xs ys ≡ true)
    both true e h = ((==_iff x y).0 h, e)
    both false e h = absurd (false≢true e)

-- The children of a node
abbrev pub children : {D : Type 0} → Node D → Nodes D
children (node type key u child) = child

has_key-set_type :
    {D : Type 0} (one : D) (name : List ℕ) (type : JsonType) (x : Node D)
    → has_key name (set_type one type x) ≡ has_key name x
unfolding has_key set_type
has_key-set_type one name json_undef (node t k u c) = refl
has_key-set_type one name json_false (node t k u c) = refl
has_key-set_type one name json_true (node t k u c) = refl
has_key-set_type one name json_null (node t k u c) = refl
has_key-set_type one name json_number (node t k u c) = refl
has_key-set_type one name json_string (node t k u c) = refl
has_key-set_type one name json_array (node t k u c) = refl
has_key-set_type one name json_object (node t k u c) = refl

-- A node with the one key has the other just if the keys are the same.
has_key-same_text :
    {D : Type 0} (key name : List ℕ) (x : Node D)
    → has_key key x ≡ true
    → has_key name x ≡ same_text key name
unfolding has_key
has_key-same_text key name (node t none u c) e = absurd (false≢true e)
has_key-same_text key name (node t (some k) u c) e =
    ap (λ s. same_text s name) (same_text-eq k key e)

has_key-other :
    {D : Type 0} (key name : List ℕ) (x : Node D)
    → has_key key x ≡ false
    → has_key name x ≡ true
    → same_text key name ≡ false
has_key-other key name x e h = elim (Bool-cases (same_text key name)) [
  | inl s ↦ absurd (false≢true (sym e ∙ (ap (λ k. has_key k x) (same_text-eq key name s) ∙ h)))
  | inr s ↦ s
]

-- The item that an object has at the key afterwards.
abbrev pub typed : {D : Type 0} → D → JsonType → List ℕ → Option (Node D) → Node D
typed one type key found = elim found [
  | none ↦ node_new (some key) type
  | some x ↦ set_type one type x
]

if_twice :
    {A : Type 0} (b : Bool) (p q r : A)
    → (if b then p else q) ≡ (if b then p else (if b then r else q))
if_twice true p q r = refl
if_twice false p q r = refl

put_key-lookup_key :
    {D : Type 0} (one : D) (type : JsonType) (key name : List ℕ) (xs : Nodes D)
    → (ys : Nodes D) × (put_key key
          (λ x. done (set_type one type x))
          (done (node_new (some key) type))
          xs
        ≡ done ys)
      × (lookup_key name ys ≡ (
          if same_text key name
          then some (typed one type key (lookup_key key xs))
          else lookup_key name xs))
unfolding put_key lookup_key node_new has_key
put_key-lookup_key one type key name nil = (cons (node_new (some key) type) nil, refl, refl)
put_key-lookup_key one type key name (cons x xs) = elim (Bool-cases (has_key key x)) [
  | inl e ↦ (
    cons (set_type one type x) xs,
    rw e refl,
    rw (has_key-set_type one name type x, has_key-same_text key name x e, e)
        (if_twice (same_text key name) _ _ _),
  )
  | inr e ↦
      let (ys, out, found) = put_key-lookup_key one type key name xs in
      (
        cons x ys,
        rw (e, out) refl,
        rw (e, found)
            (elim (Bool-cases (has_key name x)) [
              | inl h ↦ rw (h, has_key-other key name x e h) refl
              | inr h ↦ rw h refl
            ]),
      )
]

-- `json_root_add_false_2object`, `json_root_add_true_2object` and `json_root_add_null_2object` change the
-- type of the first item that has the key, or put a new item there is none: a look-up of the key finds
-- that item, and a look-up of any other key finds what it found before.
pub add_type_2object-lookup_key :
    {D : Type 0} (one : D) (type : JsonType) (object : Node D) (key name : List ℕ)
    → (w : Node D) × (add_type_2object one type object key ≡ done w)
      × (lookup_key name (children w) ≡ (
          if same_text key name
          then some (typed one type key (lookup_key key (children object)))
          else lookup_key name (children object)))
unfolding add_type_2object put_child
add_type_2object-lookup_key one type (node t k u c) key name =
    let (ys, out, found) = put_key-lookup_key one type key name c in
    (node t k u ys, rw out refl, found)

-- A key that `json_root_add_bool_2object` adds to an object with true: the item has the type of true, and
-- its value as a number is 0.0, which `json_root_get_item_bool` gives. The object has no such key before.
pub add_bool_2object-nought :
    {D : Type 0} (nought one : D) (object : Node D) (key : List ℕ)
    → lookup_key key (children object) ≡ none
    → (w : Node D) × (x : Node D) × (add_bool_2object one object key true ≡ done w)
      × (lookup_key key (children w) ≡ some x)
      × (is_true x ≡ true)
      × (get_val_double nought x ≡ done nought)
unfolding add_bool_2object node_new is_true get_val_double
add_bool_2object-nought nought one object key absent =
    let (w, out, found) = add_type_2object-lookup_key one json_true object key key in
    (
      w,
      node json_true (some key) zeroed nil,
      out,
      found ∙ rw (same_text_refl key, absent) refl,
      refl,
      refl,
    )
