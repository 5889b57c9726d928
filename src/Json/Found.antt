-- ===== src/Json/Found.antt =====
-- jsonnode.c: what a path without `*` leads to.
use vfdd.Prelude.{
  ℕ, ◌+◌, ◌-◌, ◌≡◌, refl, sym, ap, ◌∙◌, ◌≢◌, inl, inr, Bool, true, false, not, ◌&&◌, ◌||◌, Option,
  none, some, List, [], ◌∷◌, ◌++◌, append-nil, append_assoc, if◌then◌else◌, ==_ne, Bool-cases,
  get_or,
}
use vfdd.Json.Tree.{Node, Nodes, node, nil, cons}
use vfdd.Json.Items.{has_key, lookup_key}
use vfdd.Json.Added.{children}
use vfdd.Json.Path.{
  JsonPath, next_of, next_tok, path_sep, is_separator, split_loop, path_from, jsonpath_construct,
  is_hit, at_end, find_round, find, find_loop, find_node,
}

-- From a node along names: the first child of each name.
unfoldable pub by_names : {D : Type 0} → List ℕ → List (List ℕ) → Node D → Option (Node D)
by_names t [] x = lookup_key t (children x)
by_names t (u ∷ us) x = elim (lookup_key t (children x)) [ none ↦ none | some y ↦ by_names u us y ]

next_tok-recur : (j : JsonPath) → (next_tok j).recur ≡ j.recur
unfolding next_tok next_of
next_tok-recur j = pick j.toks
  where
    pick : (ts : List (List ℕ)) → (next_of j ts).recur ≡ j.recur
    pick [] = refl
    pick (t ∷ ts) = refl

-- A round leaves it to the path whether every level is searched.
find_round-recur :
    {D : Type 0} (x : Node D) (deeper : JsonPath → Option (Node D) × JsonPath)
    (rest : Bool → JsonPath → Option (Node D) × JsonPath) (descend : Bool) (jp : JsonPath)
    → ((j : JsonPath) → (deeper j).1.recur ≡ j.recur)
    → ((b : Bool) (j : JsonPath) → (rest b j).1.recur ≡ j.recur)
    → (find_round x deeper rest descend jp).1.recur ≡ jp.recur
unfolding find_round
find_round-recur {D} x deeper rest descend jp down next =
    pick (is_hit jp x && at_end jp₁) (jp₁.recur || (descend || is_hit jp x))
      (at_end jp₂ || not jp₂.recur)
  where
    jp₁ : JsonPath
    jp₁ = if is_hit jp x then next_tok jp else jp

    kept : jp₁.recur ≡ jp.recur
    kept = hit (is_hit jp x)
      where
        hit : (b : Bool) → (if b then next_tok jp else jp).recur ≡ jp.recur
        hit true = next_tok-recur jp
        hit false = refl

    found : Option (Node D) × JsonPath
    found = deeper (record jp₁ { level = jp₁.level + 1 })

    jp₂ : JsonPath
    jp₂ = record found.1 { level = found.1.level - 1 }

    below : jp₂.recur ≡ jp.recur
    below = down (record jp₁ { level = jp₁.level + 1 }) ∙ kept

    pick :
        (a b c : Bool)
        → (if a
            then (some x, jp₁)
            else if b
            then (if c then (found.0, jp₂) else rest (descend || is_hit jp x) jp₂)
            else rest (descend || is_hit jp x) jp₁).1.recur
          ≡ jp.recur
    pick true b c = kept
    pick false true true = below
    pick false true false = next (descend || is_hit jp x) jp₂ ∙ below
    pick false false c = next (descend || is_hit jp x) jp₁ ∙ kept

mutual
  unfolding find

  find-recur : {D : Type 0} (x : Node D) (jp : JsonPath) → (find x jp).1.recur ≡ jp.recur
  find-recur (node type key u child) jp = find_loop-recur child false jp

  find_loop-recur :
      {D : Type 0} (xs : Nodes D) (descend : Bool) (jp : JsonPath)
      → (find_loop xs descend jp).1.recur ≡ jp.recur
  find_loop-recur nil descend jp = refl
  find_loop-recur (cons x xs) descend jp =
      find_round-recur x (find x) (find_loop xs) descend jp (find-recur x) (find_loop-recur xs)

stops : (b r : Bool) → r ≡ false → (b || not r) ≡ true
stops true r e = refl
stops false r e = rw e refl

-- A path that is at the name `t`, with `ts` to come.
abbrev pub at_name : List ℕ → List (List ℕ) → ℕ → JsonPath
at_name t ts level = record { toks = ts; tok = some t; recur = false; level = level }

mutual
  unfolding find find_round next_tok next_of is_hit at_end lookup_key by_names

  find-by_names :
      {D : Type 0} (x : Node D) (t : List ℕ) (ts : List (List ℕ)) (level : ℕ)
      → (find x (at_name t ts level)).0 ≡ by_names t ts x
  find-by_names (node type key u child) t [] level = find_loop-last child t level
  find-by_names (node type key u child) t (v ∷ vs) level = find_loop-more child t v vs level

  find_loop-last :
      {D : Type 0} (xs : Nodes D) (t : List ℕ) (level : ℕ)
      → (find_loop xs false (at_name t [] level)).0 ≡ lookup_key t xs
  find_loop-last nil t level = refl
  find_loop-last (cons x xs) t level = elim (Bool-cases (has_key t x)) [
    | inl e ↦ rw e refl
    | inr e ↦ rw e (find_loop-last xs t level)
  ]

  find_loop-more :
      {D : Type 0} (xs : Nodes D) (t v : List ℕ) (vs : List (List ℕ)) (level : ℕ)
      → (find_loop xs false (at_name t (v ∷ vs) level)).0
        ≡ (elim (lookup_key t xs) [ none ↦ none | some y ↦ by_names v vs y ])
  find_loop-more nil t v vs level = refl
  find_loop-more (cons x xs) t v vs level = elim (Bool-cases (has_key t x)) [
    | inl e ↦
        let jp = at_name v vs (level + 1) in
        rw (e, stops (at_end (find x jp).1) (find x jp).1.recur (find-recur x jp))
          (find-by_names x v vs (level + 1))
    | inr e ↦ rw e (find_loop-more xs t v vs level)
  ]

-- No byte of a name is the separator.
abbrev pub IsName : List ℕ → Type 0
IsName [] = Unit {0}
IsName (x ∷ xs) = (x ≢ path_sep) × IsName xs

abbrev pub AllNames : List (List ℕ) → Type 0
AllNames [] = Unit {0}
AllNames (x ∷ xs) = IsName x × AllNames xs

-- Names with the separator between them
unfoldable pub join : List ℕ → List (List ℕ) → List ℕ
join t [] = t
join t (u ∷ us) = t ++ path_sep ∷ join u us

split_name : (xs cur : List ℕ) → IsName xs → split_loop path_sep xs cur ≡ (cur ++ xs) ∷ []
unfolding split_loop
split_name [] cur n = ap (λ t. t ∷ []) (sym (append-nil cur))
split_name (x ∷ xs) cur n =
    rw (==_ne x path_sep n.0)
      (split_name xs (cur ++ x ∷ []) n.1 ∙ ap (λ t. t ∷ []) (append_assoc cur (x ∷ []) xs))

split_first :
    (xs cur more : List ℕ)
    → IsName xs
    → split_loop path_sep (xs ++ path_sep ∷ more) cur ≡ (cur ++ xs) ∷ split_loop path_sep more []
unfolding split_loop
split_first [] cur more n = ap (λ t. t ∷ split_loop path_sep more []) (sym (append-nil cur))
split_first (x ∷ xs) cur more n = rw (==_ne x path_sep n.0) (
    split_first xs (cur ++ x ∷ []) more n.1
    ∙ ap (λ t. t ∷ split_loop path_sep more []) (append_assoc cur (x ∷ []) xs))

split_loop-join :
    (t : List ℕ) (ts : List (List ℕ))
    → IsName t
    → AllNames ts
    → split_loop path_sep (join t ts) [] ≡ t ∷ ts
unfolding join
split_loop-join t [] n ns = split_name t [] n
split_loop-join t (u ∷ us) n ns =
    split_first t [] (join u us) n ∙ ap (λ l. t ∷ l) (split_loop-join u us ns.0 ns.1)

first-join : (c : ℕ) (cs : List ℕ) (ts : List (List ℕ)) → get_or (join (c ∷ cs) ts) 0 0 ≡ c
unfolding join
first-join c cs [] = refl
first-join c cs (u ∷ us) = refl

path_from-join :
    (c : ℕ) (cs : List ℕ) (ts : List (List ℕ))
    → c ≢ b'*'
    → IsName (c ∷ cs)
    → AllNames ts
    → path_from path_sep (join (c ∷ cs) ts) ≡ at_name (c ∷ cs) ts 0
unfolding path_from next_tok next_of
path_from-join c cs ts star n ns =
    simp
      (
        first-join c cs ts,
        ==_ne c b'*' star,
        ==_ne c path_sep n.0,
        split_loop-join (c ∷ cs) ts n ns,
      )
      refl

-- `json_node_find_node` of a path that begins with the separator, as the parser builds them, goes from
-- the node along the names: to the first child with the first name, then to the first child of that one
-- with the next name, and so on. No name has a separator in it, and the first name is not empty and does
-- not begin with `*`.
pub find_node-by_names :
    {D : Type 0} (object : Node D) (c : ℕ) (cs : List ℕ) (ts : List (List ℕ))
    → c ≢ b'*'
    → IsName (c ∷ cs)
    → AllNames ts
    → find_node object (path_sep ∷ join (c ∷ cs) ts) ≡ by_names (c ∷ cs) ts object
unfolding find_node jsonpath_construct is_separator
find_node-by_names object c cs ts star n ns =
    ap (λ jp. (find object jp).0) (path_from-join c cs ts star n ns)
    ∙ find-by_names object (c ∷ cs) ts 0
