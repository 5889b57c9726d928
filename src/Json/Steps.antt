-- ===== src/Json/Steps.antt =====
-- jsonroot.c: what the parts of `json_root_parse_value` do on a text.
use vfdd.Prelude.{
  ℕ, zero, suc, ◌+◌, ◌-◌, ◌<◌, ◌≡◌, refl, sym, ap, subst, ◌∙◌, ◌≢◌, Bool, true, false, Option, none,
  some, List, [], ◌∷◌, ◌++◌, arith, ==_iff, ==_ne, length, length-append, ◌>>=◌, done,
}
use vfdd.Dbuf.{DBuf}
use vfdd.Dbuf.Bounds.{IsValid}
use vfdd.Dbuf.Read.{unget_char, undone}
use vfdd.Dbuf.Reads.{stepped}
use vfdd.Json.Reading.{IsAt, next_byte-left, load-left}
use vfdd.Json.Number.{skip_ws}
use vfdd.Json.Tree.{Node, count_nodes, key_of, json_undef, zeroed, node, nil}
use vfdd.Json.Items.{lookup_key, add_last, add_item_2object}
use vfdd.Json.Path.{path_sep}
use vfdd.Json.Found.{IsName}
use vfdd.Json.Access.{update_path}
use vfdd.Json.Accessed.{update_path-update_path}
use vfdd.Json.Locate.{change_at, width_at, locate_node}
use vfdd.Json.Place.{
  Frame, plug, address, Placed, change_at-plug, width_at-plug, plug-inner, address-inner,
  Placed-inner,
}
use vfdd.Json.Absent.{IsKey, AllKeys, dotted, dotted-inner, AllKeys-inner, locate_node-none}
use vfdd.Json.Parse.{Parser, is_word, place_child, move_path, with_root, with_count, skip}

-- The parser behind a byte that `json_root_skip_ws` stops at.
abbrev pub behind : {D : Type 0} → Parser D → Parser D
behind s = with_root (record s.root { src = stepped s.root.src; curptr = s.root.src.pos }) s

-- What libc says of `isspace`.
abbrev pub KnowsSigns : (ℕ → Bool) → Type 0
KnowsSigns isspace = (c : ℕ) → 32 < c → c < 127 → isspace c ≡ false

pub skip-sign :
    {D : Type 0} (isspace : ℕ → Bool) (s : Parser D) (c : ℕ) (cs : List ℕ) (f : ℕ)
    → KnowsSigns isspace
    → 32 < c
    → c < 127
    → 0 < f
    → IsAt s.root.src (c ∷ cs)
    → (skip isspace none f s ≡ some (done (some (s.root.src.pos, c), behind s)))
      × IsAt (behind s).root.src cs
unfolding skip skip_ws
skip-sign isspace s c cs zero knows h g enough at = absurd (omega arith)
skip-sign isspace s c cs (suc f) knows h g enough at =
    let (out, next) = next_byte-left s.root.src c cs at in
    (simp (out, ==_ne c 0 (omega arith), knows c h g) refl, next)

pub is_word-there :
    (w more : List ℕ) (d : DBuf) → IsAt d (w ++ more) → is_word w d.s d.pos ≡ done true
unfolding is_word
is_word-there [] more d at = refl
is_word-there (c ∷ cs) more d at =
    let (out, next) = next_byte-left d c (cs ++ more) at in
    simp (load-left d c (cs ++ more) at, (==_iff c c).1 refl)
      (is_word-there cs more (stepped d) next)

pub is_word-other :
    (c b : ℕ) (w cs : List ℕ) (d : DBuf)
    → IsAt d (c ∷ cs)
    → c ≢ b
    → is_word (b ∷ w) d.s d.pos ≡ done false
unfolding is_word
is_word-other c b w cs d at h = simp (load-left d c cs at, ==_ne c b h) refl

-- `dbuf_set_pos` behind a text.
pub IsAt-behind :
    (xs more : List ℕ) (d : DBuf) (n : ℕ)
    → IsAt d (xs ++ more)
    → n ≡ length xs
    → IsAt (record d { pos = d.pos + n }) more
IsAt-behind [] more d zero (v, e) same =
    let here : d.pos + 0 ≡ d.pos = omega arith in
    subst (λ p. IsAt (record d { pos = p }) more) (sym here)
      (record { owned = v.owned; block = v.block; room = v.room; unread = v.unread }, e)
IsAt-behind (x ∷ xs) more d (suc n) at same =
    let (out, next) = next_byte-left d x (xs ++ more) at in
    let (v, e) = IsAt-behind xs more (stepped d) n next (omega arith) in
    let there : d.pos + 1 + n ≡ d.pos + suc n = omega arith in
    subst (λ p. IsAt (record d { pos = p }) more) there
      (record { owned = v.owned; block = v.block; room = v.room; unread = v.unread }, e)
IsAt-behind [] more d (suc n) at same = absurd (omega arith)
IsAt-behind (x ∷ xs) more d zero at same = absurd (omega arith)

-- A byte that is taken back.
pub unget-stepped :
    (d : DBuf) (c : ℕ) (cs : List ℕ)
    → IsAt d (c ∷ cs)
    → (e : DBuf) × (unget_char (stepped d) ≡ done (undone c e)) × IsAt e (c ∷ cs)
unfolding unget_char
unget-stepped d c cs (v, e) =
    let back : d.pos + 1 - 1 ≡ d.pos = omega arith in
    (
      record (stepped d) { pos = d.pos },
      rw (==_ne (d.pos + 1) 0 (omega arith), back, load-left d c cs (v, e)) refl,
      (record { owned = v.owned; block = v.block; room = v.room; unread = v.unread }, e),
    )

-- The text of a path, where NULL is none.
abbrev pub path_text : Option (List ℕ) → List ℕ
path_text none = []
path_text (some t) = t

-- The parser at a place of its tree, with a text to read.
pub record IsReady {D : Type 0} (fs : List (Frame D)) (names : List (List ℕ)) (x : Node D)
    (text : List ℕ) (s : Parser D) : Type 0 where
  pub at : IsAt s.root.src text
  pub buffer : IsValid s.root.dbuf
  pub tree : s.tree ≡ plug fs x
  pub placed : Placed fs names (key_of x)
  pub keys : AllKeys names
  pub path : path_text s.root.path ≡ dotted names

-- Into a new last child with the key `n`.
pub enter :
    {D : Type 0} (fs : List (Frame D)) (names : List (List ℕ)) (g : Frame D) (n text : List ℕ)
    (s : Parser D)
    → IsReady fs names (node g.type g.key g.val g.before) text s
    → IsKey n
    → lookup_key n g.before ≡ none
    → let child = node json_undef (some n) zeroed nil in
      (s₁ s₂ : Parser D) × (move_path (some n) s ≡ done s₁)
      × (place_child (address fs) child s₁ ≡ done (address (fs ++ g ∷ []), s₂))
      × IsReady (fs ++ g ∷ []) (names ++ n ∷ []) child text s₂
      × (s₂.root.count ≡ s.root.count)
unfolding move_path place_child key_of
enter {D} fs names g n text s r k absent =
    let key = names ++ n ∷ [] in
    let item = node g.type g.key g.val g.before in
    let child : Node D = node json_undef (some n) zeroed nil in
    let s₁ = with_root (record s.root { path = some (dotted key) }) s in
    let s₂ = record s₁ { tree = plug (fs ++ g ∷ []) child } in
    let nothing =
      ap (λ t. locate_node t (some (dotted key))) r.tree
      ∙ locate_node-none fs names n item r.placed r.keys k absent in
    (
      s₁,
      s₂,
      ap (λ o. o >>= λ path. done (with_root (record s.root { path = path }) s))
          (updated s.root.path (r.path)),
      found nothing
          (ap (λ t. change_at (address fs) (λ x. done (add_item_2object x child)) t) r.tree
            ∙ (change_at-plug fs (λ x. done (add_item_2object x child)) item
                  (node g.type g.key g.val (add_last g.before child))
                  (unfold add_item_2object in refl)
                ∙ ap done (sym (plug-inner fs g child))))
          (ap (λ t. width_at (address fs) t) r.tree ∙ width_at-plug fs g.type g.key g.val g.before),
      record {
        at = r.at;
        buffer = r.buffer;
        tree = refl;
        placed = Placed-inner fs names g n r.placed absent;
        keys = AllKeys-inner names n r.keys k;
        path = refl;
      },
      refl,
    )
  where
    updated :
        (p : Option (List ℕ))
        → path_text p ≡ dotted names
        → update_path p (some n) ≡ done (some (dotted (names ++ n ∷ [])))
    updated none e =
        unfold update_path in
        ap (λ t. done (some (t ++ path_sep ∷ n))) e
        ∙ ap (λ t. done (some t)) (sym (dotted-inner names n))
    updated (some t) e =
        unfold update_path in
        ap (λ t. done (some (t ++ path_sep ∷ n))) e
        ∙ ap (λ t. done (some t)) (sym (dotted-inner names n))

    found :
        {t : Node D}
        → locate_node s.tree (some (dotted (names ++ n ∷ []))) ≡ none
        → change_at
            (address fs)
            (λ x. done (add_item_2object x (node json_undef (some n) zeroed nil)))
            s.tree
          ≡ done t
        → width_at (address fs) s.tree ≡ count_nodes g.before
        → place_child
            (address fs)
            (node json_undef (some n) zeroed nil)
            (with_root (record s.root { path = some (dotted (names ++ n ∷ [])) }) s)
          ≡ done (
            address (fs ++ g ∷ []),
            record (with_root (record s.root { path = some (dotted (names ++ n ∷ [])) }) s) {
              tree = t;
            },
          )
    found e h w = rw (place_child, e, h, w, address-inner fs g) refl

-- Out of the child: its value is there.
pub leave :
    {D : Type 0} (fs : List (Frame D)) (names : List (List ℕ)) (g : Frame D) (n text : List ℕ)
    (x : Node D) (m : ℕ) (s : Parser D)
    → IsReady (fs ++ g ∷ []) (names ++ n ∷ []) x text s
    → IsName n
    → AllKeys names
    → Placed fs names g.key
    → (s₁ : Parser D) × (move_path none (with_count m s) ≡ done s₁)
      × IsReady fs names (node g.type g.key g.val (add_last g.before x)) text s₁
      × (s₁.root.count ≡ m)
unfolding move_path key_of
leave {D} fs names g n text x m s r k ks p =
    let s₁ = with_root (record s.root { count = m; path = some (dotted names) }) s in
    (
      s₁,
      ap (λ o. o >>= λ path. done (with_root (record s.root { count = m; path = path }) s))
          (cut s.root.path (r.path ∙ dotted-inner names n)),
      record {
        at = r.at;
        buffer = r.buffer;
        tree = r.tree ∙ plug-inner fs g x;
        placed = p;
        keys = ks;
        path = refl;
      },
      refl,
    )
  where
    cut :
        (q : Option (List ℕ))
        → path_text q ≡ dotted names ++ path_sep ∷ n
        → update_path q none ≡ done (some (dotted names))
    cut none e = absurd (omega (arith, ap length e, length-append (dotted names) (path_sep ∷ n)))
    cut (some t) e =
        ap (λ u. update_path (some u) none) e
        ∙ unfold update_path in (update_path-update_path (dotted names) n k)
