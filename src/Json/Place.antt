-- ===== src/Json/Place.antt =====
-- jsonnode.c: the place of a node that is the last child of a last child and so on from the top of a tree:
-- its address, the names that lead to it, and what a change there does to the tree.
use vfdd.Prelude.{
  ℕ, ◌≡◌, refl, ap, ◌∙◌, Option, none, some, List, [], ◌∷◌, ◌++◌, Outcome, ◌>>=◌, done, fatal,
  fault,
}
use vfdd.Json.Tree.{JsonType, Value, Node, Nodes, count_nodes, node, nil, cons}
use vfdd.Json.Items.{lookup_key, add_last}
use vfdd.Json.Locate.{change_at, change_nth, width_at, width_nth}

-- A node around a place: what it is, and the children in front of the place.
pub record Frame (D : Type 0) : Type 0 where
  pub type : JsonType
  pub key : Option (List ℕ)
  pub val : Value D
  pub before : Nodes D

-- The tree with a node at the place; the outermost frame is first.
unfoldable pub plug : {D : Type 0} → List (Frame D) → Node D → Node D
plug [] x = x
plug (f ∷ fs) x = node f.type f.key f.val (add_last f.before (plug fs x))

unfoldable pub address : {D : Type 0} → List (Frame D) → List ℕ
address [] = []
address (f ∷ fs) = count_nodes f.before ∷ address fs

-- The key of the node behind some frames, where the node at the place has the key `key`.
abbrev pub key_at : {D : Type 0} → List (Frame D) → Option (List ℕ) → Option (List ℕ)
key_at [] key = key
key_at (f ∷ fs) key = f.key

-- The names lead to the place: each is the key of a node, and of none in front of it.
abbrev pub Placed : {D : Type 0} → List (Frame D) → List (List ℕ) → Option (List ℕ) → Type 0
Placed [] [] key = Unit {0}
Placed [] (n ∷ ns) key = ⊥
Placed (f ∷ fs) [] key = ⊥
Placed (f ∷ fs) (n ∷ ns) key =
    (key_at fs key ≡ some n) × (lookup_key n f.before ≡ none) × Placed fs ns key

bind_assoc :
    {A B C : Type 0} (o : Outcome A) (f : A → Outcome B) (g : B → Outcome C)
    → (o >>= f >>= g) ≡ (o >>= λ a. f a >>= g)
bind_assoc (done a) f g = refl
bind_assoc fatal f g = refl
bind_assoc fault f g = refl

change_nth-last :
    {D : Type 0} (xs : Nodes D) (is : List ℕ) (f : Node D → Outcome (Node D)) (x : Node D)
    → change_nth (count_nodes xs) is f (add_last xs x)
      ≡ (change_at is f x >>= λ y. done (add_last xs y))
unfolding change_nth count_nodes add_last
change_nth-last nil is f x = refl
change_nth-last (cons z xs) is f x =
    ap (λ o. o >>= λ ys. done (cons z ys)) (change_nth-last xs is f x)
    ∙ bind_assoc (change_at is f x) (λ y. done (add_last xs y)) (λ ys. done (cons z ys))

-- A change at the place.
pub change_at-plug :
    {D : Type 0} (fs : List (Frame D)) (f : Node D → Outcome (Node D)) (x y : Node D)
    → f x ≡ done y
    → change_at (address fs) f (plug fs x) ≡ done (plug fs y)
unfolding change_at address plug
change_at-plug [] f x y e = e
change_at-plug (g ∷ fs) f x y e =
    ap (λ o. o >>= λ cs. done (node g.type g.key g.val cs))
      (change_nth-last g.before (address fs) f (plug fs x)
        ∙ ap (λ o. o >>= λ z. done (add_last g.before z)) (change_at-plug fs f x y e))

width_nth-last :
    {D : Type 0} (xs : Nodes D) (is : List ℕ) (x : Node D)
    → width_nth (count_nodes xs) is (add_last xs x) ≡ width_at is x
unfolding width_nth count_nodes add_last
width_nth-last nil is x = refl
width_nth-last (cons z xs) is x = width_nth-last xs is x

pub width_at-plug :
    {D : Type 0} (fs : List (Frame D)) (type : JsonType) (key : Option (List ℕ)) (u : Value D)
    (child : Nodes D)
    → width_at (address fs) (plug fs (node type key u child)) ≡ count_nodes child
unfolding width_at address plug
width_at-plug [] type key u child = refl
width_at-plug (g ∷ fs) type key u child =
    width_nth-last g.before (address fs) (plug fs (node type key u child))
    ∙ width_at-plug fs type key u child

-- A new last child is at a place of its own.
pub plug-inner :
    {D : Type 0} (fs : List (Frame D)) (g : Frame D) (x : Node D)
    → plug (fs ++ g ∷ []) x ≡ plug fs (node g.type g.key g.val (add_last g.before x))
unfolding plug
plug-inner [] g x = refl
plug-inner (f ∷ fs) g x =
    ap (λ y. node f.type f.key f.val (add_last f.before y)) (plug-inner fs g x)

pub address-inner :
    {D : Type 0} (fs : List (Frame D)) (g : Frame D)
    → address (fs ++ g ∷ []) ≡ address fs ++ count_nodes g.before ∷ []
unfolding address
address-inner [] g = refl
address-inner (f ∷ fs) g = ap (λ t. count_nodes f.before ∷ t) (address-inner fs g)

pub Placed-inner :
    {D : Type 0} (fs : List (Frame D)) (ns : List (List ℕ)) (g : Frame D) (n : List ℕ)
    → Placed fs ns g.key
    → lookup_key n g.before ≡ none
    → Placed (fs ++ g ∷ []) (ns ++ n ∷ []) (some n)
Placed-inner [] [] g n p e = (refl, e, tt)
Placed-inner [] (m ∷ ns) g n p e = absurd p
Placed-inner (f ∷ fs) [] g n p e = absurd p
Placed-inner {D} (f ∷ fs) (m ∷ ns) g n (k, a, p) e =
    (key_inner fs ∙ k, a, Placed-inner fs ns g n p e)
  where
    key_inner : (hs : List (Frame D)) → key_at (hs ++ g ∷ []) (some n) ≡ key_at hs g.key
    key_inner [] = refl
    key_inner (h ∷ hs) = refl
