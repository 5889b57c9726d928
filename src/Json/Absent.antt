-- ===== src/Json/Absent.antt =====
-- jsonnode.c: where a path leads to no node, the search for a pointer gives NULL; and the path of a new
-- child of a place.
use mathlib.Core.Option.{none-ne-some}
use vfdd.Prelude.{
  ℕ, ◌+◌, ◌-◌, ◌≡◌, refl, sym, ap, subst, ◌∙◌, ◌≢◌, Bool, true, false, not, ◌&&◌, ◌||◌, Option,
  none, some, List, [], ◌∷◌, ◌++◌, append-nil, append_assoc, if◌then◌else◌,
}
use vfdd.Json.Tree.{Node, Nodes, key_of, node, nil, cons}
use vfdd.Json.Items.{has_key, lookup_key, add_last}
use vfdd.Json.Added.{same_text_refl, children}
use vfdd.Json.Path.{
  JsonPath, next_tok, path_sep, jsonpath_construct, is_hit, at_end, find_round, find, find_loop,
  find_node,
}
use vfdd.Json.Found.{by_names, IsName, AllNames, join, find_node-by_names}
use vfdd.Json.Locate.{below, locate_round, locate, locate_loop, locate_node}
use vfdd.Json.Place.{Frame, plug, key_at, Placed}

-- The search for a pointer goes the way of the search for a node.
abbrev Agree : {D : Type 0} → Option (List ℕ) × JsonPath → Option (Node D) × JsonPath → Type 0
Agree a b = (a.1 ≡ b.1) × (b.0 ≡ none → a.0 ≡ none)

locate_round-Agree :
    {D : Type 0} (x : Node D) (deep : JsonPath → Option (List ℕ) × JsonPath)
    (deep' : JsonPath → Option (Node D) × JsonPath)
    (rest : Bool → JsonPath → Option (List ℕ) × JsonPath)
    (rest' : Bool → JsonPath → Option (Node D) × JsonPath) (i : ℕ) (descend : Bool) (jp : JsonPath)
    → ((j : JsonPath) → Agree (deep j) (deep' j))
    → ((b : Bool) (j : JsonPath) → Agree (rest b j) (rest' b j))
    → Agree (locate_round x deep rest i descend jp) (find_round x deep' rest' descend jp)
unfolding locate_round find_round
locate_round-Agree {D} x deep deep' rest rest' i descend jp down next =
    go (is_hit jp x && at_end jp₁) (jp₁.recur || (descend || is_hit jp x))
      (deep (record jp₁ { level = jp₁.level + 1 })) (deep' (record jp₁ { level = jp₁.level + 1 }))
      (down (record jp₁ { level = jp₁.level + 1 }))
  where
    jp₁ : JsonPath
    jp₁ = if is_hit jp x then next_tok jp else jp

    lower : JsonPath → JsonPath
    lower j = record j { level = j.level - 1 }

    under : (o : Option (List ℕ)) → o ≡ none → below i o ≡ none
    under none e = refl
    under (some is) e = absurd (none-ne-some _ (sym e))

    inner :
        (c : Bool) (a : Option (List ℕ) × JsonPath) (a' : Option (Node D) × JsonPath)
        → Agree a a'
        → Agree
            (if c then (below i a.0, lower a.1) else rest (descend || is_hit jp x) (lower a.1))
            (if c then (a'.0, lower a'.1) else rest' (descend || is_hit jp x) (lower a'.1))
    inner true a a' g = (ap lower g.0, λ e. under a.0 (g.1 e))
    inner false a a' g =
        subst
          (λ j.
            Agree (rest (descend || is_hit jp x) (lower a.1))
              (rest' (descend || is_hit jp x) (lower j)))
          g.0 (next (descend || is_hit jp x) (lower a.1))

    go :
        (p q : Bool) (a : Option (List ℕ) × JsonPath) (a' : Option (Node D) × JsonPath)
        → Agree a a'
        → Agree
            (if p
              then (some (i ∷ []), jp₁)
              else if q
              then (if at_end (lower a.1) || not (lower a.1).recur
                  then (below i a.0, lower a.1)
                  else rest (descend || is_hit jp x) (lower a.1))
              else rest (descend || is_hit jp x) jp₁)
            (if p
              then (some x, jp₁)
              else if q
              then (if at_end (lower a'.1) || not (lower a'.1).recur
                  then (a'.0, lower a'.1)
                  else rest' (descend || is_hit jp x) (lower a'.1))
              else rest' (descend || is_hit jp x) jp₁)
    go true q a a' g = (refl, λ e. absurd (none-ne-some _ (sym e)))
    go false true a a' g =
        subst
          (λ j.
            Agree
              (if at_end (lower a.1) || not (lower a.1).recur
                then (below i a.0, lower a.1)
                else rest (descend || is_hit jp x) (lower a.1))
              (if at_end (lower j) || not (lower j).recur
                then (a'.0, lower a'.1)
                else rest' (descend || is_hit jp x) (lower a'.1)))
          g.0 (inner (at_end (lower a.1) || not (lower a.1).recur) a a' g)
    go false false a a' g = next (descend || is_hit jp x) jp₁

mutual
  unfolding locate find

  locate-Agree : {D : Type 0} (x : Node D) (jp : JsonPath) → Agree (locate x jp) (find x jp)
  locate-Agree (node type key u child) jp = locate_loop-Agree child 0 false jp

  locate_loop-Agree :
      {D : Type 0} (xs : Nodes D) (i : ℕ) (descend : Bool) (jp : JsonPath)
      → Agree (locate_loop xs i descend jp) (find_loop xs descend jp)
  locate_loop-Agree nil i descend jp = (refl, λ e. refl)
  locate_loop-Agree (cons x xs) i descend jp =
      locate_round-Agree x (locate x) (find x) (locate_loop xs (i + 1)) (find_loop xs) i descend jp
        (locate-Agree x) (locate_loop-Agree xs (i + 1))

-- A name that the path of the parser can hold: it is not empty, does not begin with `*` and has no
-- separator.
abbrev pub IsKey : List ℕ → Type 0
IsKey [] = ⊥
IsKey (c ∷ cs) = (c ≢ b'*') × IsName (c ∷ cs)

abbrev pub AllKeys : List (List ℕ) → Type 0
AllKeys [] = Unit {0}
AllKeys (n ∷ ns) = IsKey n × AllKeys ns

-- The path with a separator in front of each name
abbrev pub dotted : List (List ℕ) → List ℕ
dotted [] = []
dotted (n ∷ ns) = path_sep ∷ n ++ dotted ns

pub IsKey-IsName : (n : List ℕ) → IsKey n → IsName n
IsKey-IsName [] k = absurd k
IsKey-IsName (c ∷ cs) k = k.1

AllKeys-AllNames : (ns : List (List ℕ)) → AllKeys ns → AllNames ns
AllKeys-AllNames [] k = tt
AllKeys-AllNames (n ∷ ns) k = (IsKey-IsName n k.0, AllKeys-AllNames ns k.1)

dotted-join : (n : List ℕ) (ns : List (List ℕ)) → dotted (n ∷ ns) ≡ path_sep ∷ join n ns
unfolding join
dotted-join n [] = ap (λ t. path_sep ∷ t) (append-nil n)
dotted-join n (m ∷ ns) = ap (λ t. path_sep ∷ n ++ t) (dotted-join m ns)

pub dotted-inner :
    (ns : List (List ℕ)) (n : List ℕ) → dotted (ns ++ n ∷ []) ≡ dotted ns ++ path_sep ∷ n
dotted-inner [] n = ap (λ t. path_sep ∷ t) (append-nil n)
dotted-inner (m ∷ ns) n =
    ap (λ t. path_sep ∷ m ++ t) (dotted-inner ns n)
    ∙ ap (λ t. path_sep ∷ t) (sym (append_assoc m (dotted ns) (path_sep ∷ n)))

pub AllKeys-inner :
    (ns : List (List ℕ)) (n : List ℕ) → AllKeys ns → IsKey n → AllKeys (ns ++ n ∷ [])
AllKeys-inner [] n k h = (h, tt)
AllKeys-inner (m ∷ ns) n k h = (k.0, AllKeys-inner ns n k.1 h)

lookup_key-last :
    {D : Type 0} (xs : Nodes D) (n : List ℕ) (x : Node D)
    → lookup_key n xs ≡ none
    → has_key n x ≡ true
    → lookup_key n (add_last xs x) ≡ some x
unfolding lookup_key add_last
lookup_key-last nil n x e h = rw h refl
lookup_key-last {D} (cons z xs) n x e h =
    pick (has_key n z) e (λ none_there. lookup_key-last xs n x none_there h)
  where
    pick :
        (b : Bool)
        → (if b then some z else lookup_key n xs) ≡ none
        → (lookup_key n xs ≡ none → lookup_key n (add_last xs x) ≡ some x)
        → (if b then some z else lookup_key n (add_last xs x)) ≡ some x
    pick true e' ih = absurd (none-ne-some z (sym e'))
    pick false e' ih = ih e'

has_key-plug :
    {D : Type 0} (fs : List (Frame D)) (n : List ℕ) (x : Node D)
    → key_at fs (key_of x) ≡ some n
    → has_key n (plug fs x) ≡ true
unfolding has_key plug key_of
has_key-plug [] n (node type key u child) e = rw e (same_text_refl n)
has_key-plug (f ∷ fs) n x e = rw e (same_text_refl n)

-- From the top along the names and one more.
abbrev by_path : {D : Type 0} → List (List ℕ) → Node D → Option (Node D)
by_path [] x = none
by_path (n ∷ ns) x = by_names n ns x

by_path-plug :
    {D : Type 0} (fs : List (Frame D)) (ns : List (List ℕ)) (n : List ℕ) (x : Node D)
    → Placed fs ns (key_of x)
    → by_path (ns ++ n ∷ []) (plug fs x) ≡ lookup_key n (children x)
unfolding by_names plug
by_path-plug [] [] n x p = refl
by_path-plug [] (m ∷ ns) n x p = absurd p
by_path-plug (f ∷ fs) [] n x p = absurd p
by_path-plug {D} (f ∷ fs) (m ∷ ns) n x (k, a, p) =
    go ns (by_path-plug fs ns n x p)
      (lookup_key-last f.before m (plug fs x) a (has_key-plug fs m x k))
  where
    go :
        (ms : List (List ℕ))
        → by_path (ms ++ n ∷ []) (plug fs x) ≡ lookup_key n (children x)
        → lookup_key m (add_last f.before (plug fs x)) ≡ some (plug fs x)
        → by_names m (ms ++ n ∷ []) (plug (f ∷ fs) x) ≡ lookup_key n (children x)
    go [] h e = rw (by_names, e) h
    go (l ∷ ls) h e = rw (by_names, e) h

-- The path of a new child of a place leads to nothing.
pub locate_node-none :
    {D : Type 0} (fs : List (Frame D)) (ns : List (List ℕ)) (n : List ℕ) (x : Node D)
    → Placed fs ns (key_of x)
    → AllKeys ns
    → IsKey n
    → lookup_key n (children x) ≡ none
    → locate_node (plug fs x) (some (dotted (ns ++ n ∷ []))) ≡ none
unfolding locate_node
locate_node-none {D} fs ns n x p ks k absent =
    split ns (AllKeys-inner ns n ks k) (by_path-plug fs ns n x p ∙ absent)
  where
    first :
        (m : List ℕ) (ms : List (List ℕ))
        → IsKey m
        → AllKeys ms
        → find_node (plug fs x) (path_sep ∷ join m ms) ≡ by_names m ms (plug fs x)
    first [] ms h hs = absurd h
    first (c ∷ cs) ms h hs = find_node-by_names (plug fs x) c cs ms h.0 h.1 (AllKeys-AllNames ms hs)

    all :
        (m : List ℕ) (ms : List (List ℕ))
        → AllKeys (m ∷ ms)
        → by_names m ms (plug fs x) ≡ none
        → (locate (plug fs x) (jsonpath_construct (dotted (m ∷ ms)))).0 ≡ none
    all m ms h e =
        unfold find_node in
        (locate-Agree (plug fs x) (jsonpath_construct (dotted (m ∷ ms)))).1 (
          ap (λ t. (find (plug fs x) (jsonpath_construct t)).0) (dotted-join m ms)
          ∙ (first m ms h.0 h.1 ∙ e))

    split :
        (ms : List (List ℕ))
        → AllKeys (ms ++ n ∷ [])
        → by_path (ms ++ n ∷ []) (plug fs x) ≡ none
        → (locate (plug fs x) (jsonpath_construct (dotted (ms ++ n ∷ [])))).0 ≡ none
    split [] h e = all n [] h e
    split (m ∷ ms) h e = all m (ms ++ n ∷ []) h e
