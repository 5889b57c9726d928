-- ===== src/Json/Accessed.antt =====
-- jsonroot.c: what access by path gives, and the path of the parser.
use vfdd.Prelude.{
  ℕ, ◌≡◌, refl, ap, ◌∙◌, ◌≢◌, Bool, true, false, ◌||◌, none, some, List, [], ◌∷◌, ◌++◌,
  if◌then◌else◌, ==_ne, Outcome, ◌>>=◌, done,
}
use vfdd.Json.Tree.{Node}
use vfdd.Json.Items.{is_false, is_true, lookup_key, add_bool_2object}
use vfdd.Json.Added.{children, add_bool_2object-nought}
use vfdd.Json.Path.{path_sep}
use vfdd.Json.Found.{by_names, IsName, join, find_node-by_names}
use vfdd.Json.Access.{get_val_int, get_item_bool, cut_last, update_path}

cut_last-name : (xs : List ℕ) → IsName xs → cut_last xs ≡ none
unfolding cut_last
cut_last-name [] n = refl
cut_last-name (x ∷ xs) n = rw (cut_last-name xs n.1, ==_ne x path_sep n.0) refl

cut_last-append : (p key : List ℕ) → IsName key → cut_last (p ++ path_sep ∷ key) ≡ some p
unfolding cut_last
cut_last-append [] key n = rw (cut_last-name key n) refl
cut_last-append (x ∷ xs) key n = rw (cut_last-append xs key n) refl

-- `json_root_update_path` with a key and then with NULL gives the path back, if the key has no separator
-- in it.
pub update_path-update_path :
    (p key : List ℕ)
    → IsName key
    → (update_path (some p) (some key) >>= λ q. update_path q none) ≡ done (some p)
unfolding update_path
update_path-update_path p key n = rw (cut_last-append p key n) refl

or_true : (b : Bool) → (b || true) ≡ true
or_true true = refl
or_true false = refl

-- `json_root_add_bool_2object` of a new key with true, and `json_root_get_item_bool` of it: the item has
-- the type of true, but the result is the `int` of 0.0. The key has no separator, is not empty and does
-- not begin with `*`.
pub get_item_bool-add_bool_2object :
    {D : Type 0} (to_int : D → ℕ) (nought one : D) (object : Node D) (c : ℕ) (cs : List ℕ)
    → c ≢ b'*'
    → IsName (c ∷ cs)
    → lookup_key (c ∷ cs) (children object) ≡ none
    → (w : Node D) × (x : Node D) × (add_bool_2object one object (c ∷ cs) true ≡ done w)
      × (lookup_key (c ∷ cs) (children w) ≡ some x)
      × (is_true x ≡ true)
      × (get_item_bool to_int nought w (path_sep ∷ c ∷ cs) ≡ done (to_int nought))
unfolding get_item_bool get_val_int by_names join
get_item_bool-add_bool_2object to_int nought one object c cs star n absent =
    let (w, x, out, found, type, val) = add_bool_2object-nought nought one object (c ∷ cs) absent in
    (
      w,
      x,
      out,
      found,
      type,
      ap
            (λ o. elim o as (λ _. Outcome ℕ) [
              | none ↦ done 0
              | some y ↦ if is_false y || is_true y then get_val_int to_int nought y else done 0
            ])
            (find_node-by_names w c cs [] star n tt ∙ found)
          ∙ simp (type, or_true (is_false x), val) refl,
    )
