-- ===== src/Dlist/Adds.antt =====
-- dlist.c: adding to a ring.
use vfdd.Prelude.{
  ℕ, ◌≡◌, refl, sym, ap, ap₂, ◌∙◌, ◌≢◌, List, [], ◌∷◌, ◌++◌, map, arith, ==_iff, ==_ne, done,
}
use vfdd.Dlist.{Mem, put, read, new_node, add_behind, add_at, add_head, add_tail}
use vfdd.Dlist.Ring.{
  IsOutside, AllDistinct, IsLinked, AllNodes, IsRing, last, prev-last, next-last, IsSpliced,
  spliced-IsLinked, first, next-first, prev-first,
}

-- An address of an object.
abbrev pub IsLive : Mem → ℕ → Type 0
IsLive m p = (p ≢ 0) × (m.count p ≡ 1)

pub read-live : (m : Mem) (field : ℕ → ℕ) (p : ℕ) → IsLive m p → read m field p ≡ done (field p)
read-live m field p h = rw (==_ne p 0 h.0, ==_ne (m.count p) 0 (omega (arith, h.1))) refl

-- The memory behind `add_behind`.
abbrev spliced : Mem → ℕ → ℕ → ℕ → ℕ → Mem
spliced m n l z d = record {
  count = put m.count n 1;
  next = put (put (put m.next n n) n z) l n;
  prev = put (put (put m.prev n n) n l) z n;
  item = put m.item n d;
  destroyed = m.destroyed;
}

pub add_behind-spliced :
    (m : Mem) (n l z d : ℕ)
    → IsLive m l
    → IsLive m z
    → n ≢ 0
    → m.count n ≡ 0
    → m.next l ≡ z
    → m.prev z ≡ l
    → (add_behind m n l d ≡ done (spliced m n l z d)) × IsSpliced m (spliced m n l z d) l n z
unfolding add_behind new_node
add_behind-spliced m n l z d hl hz hn fresh nx pv = (
  simp
      (
        ==_ne l 0 hl.0,
        ==_ne l n ln,
        ==_ne (m.count l) 0 (omega (arith, hl.1)),
        nx,
        ==_ne z 0 hz.0,
        ==_ne z n zn,
        ==_ne (m.count z) 0 (omega (arith, hz.1)),
        pv,
        ==_ne n 0 hn,
        (==_iff n n).1 refl,
      )
      refl,
  record {
    next_l = ground arith;
    prev_n = ground (arith, zn);
    next_n = ground (arith, ln);
    prev_z = ground arith;
    other_next = λ q a b. ground arith;
    other_prev = λ q a b. ground arith;
  },
)
  where
    ln : l ≢ n
    ln e = absurd (omega (arith, ap m.count e, hl.1))

    zn : z ≢ n
    zn e = absurd (omega (arith, ap m.count e, hz.1))

pub IsLive-last : (m : Mem) (a : ℕ) (ids : List ℕ) → AllNodes m (a ∷ ids) → IsLive m (last a ids)
IsLive-last m a [] h = (h.0, h.1)
IsLive-last m a (x ∷ xs) h = IsLive-last m x xs h.2

pub IsLive-first :
    (m : Mem) (ids : List ℕ) (z : ℕ) → AllNodes m ids → IsLive m z → IsLive m (first ids z)
IsLive-first m [] z h l = l
IsLive-first m (x ∷ xs) z h l = (h.0, h.1)

-- An address without an object is none of the nodes'.
pub fresh-IsOutside :
    (m : Mem) (n : ℕ) (ids : List ℕ) → AllNodes m ids → m.count n ≡ 0 → IsOutside n ids
fresh-IsOutside m n [] h e = tt
fresh-IsOutside m n (x ∷ xs) h e =
    (λ s. absurd (omega (arith, ap m.count s, h.1)), fresh-IsOutside m n xs h.2 e)

IsOutside-snoc : (a : ℕ) (xs : List ℕ) (n : ℕ) → IsOutside a xs → a ≢ n → IsOutside a (xs ++ n ∷ [])
IsOutside-snoc a [] n o e = (e, tt)
IsOutside-snoc a (x ∷ xs) n o e = (o.0, IsOutside-snoc a xs n o.1 e)

distinct-snoc : (xs : List ℕ) (n : ℕ) → AllDistinct xs → IsOutside n xs → AllDistinct (xs ++ n ∷ [])
distinct-snoc [] n d o = (tt, tt)
distinct-snoc (x ∷ xs) n d o =
    (IsOutside-snoc x xs n d.0 (λ e. o.0 (sym e)), distinct-snoc xs n d.1 o.1)

-- What a new node leaves of the others.
pub nodes-put :
    (m : Mem) (n l z d : ℕ) (ids : List ℕ)
    → AllNodes m ids
    → IsOutside n ids
    → AllNodes (spliced m n l z d) ids
nodes-put m n l z d [] h o = tt
nodes-put m n l z d (x ∷ xs) h o = (h.0, ground (arith, h.1, o.0), nodes-put m n l z d xs h.2 o.1)

nodes-snoc :
    (m : Mem) (xs : List ℕ) (n : ℕ) → AllNodes m xs → IsLive m n → AllNodes m (xs ++ n ∷ [])
nodes-snoc m [] n h l = (l.0, l.1, tt)
nodes-snoc m (x ∷ xs) n h l = (h.0, h.1, nodes-snoc m xs n h.2 l)

pub items-put :
    (f : ℕ → ℕ) (n d : ℕ) (ids : List ℕ) → IsOutside n ids → map (put f n d) ids ≡ map f ids
items-put f n d [] o = refl
items-put f n d (x ∷ xs) o =
    ap₂ ◌∷◌ (let e : put f n d x ≡ f x = ground (arith, o.0) in e) (items-put f n d xs o.1)

items-snoc : (f : ℕ → ℕ) (xs : List ℕ) (n : ℕ) → map f (xs ++ n ∷ []) ≡ map f xs ++ f n ∷ []
items-snoc f [] n = refl
items-snoc f (x ∷ xs) n = ap (λ t. f x ∷ t) (items-snoc f xs n)

spliced-IsLive : (m : Mem) (n l z d : ℕ) → n ≢ 0 → IsLive (spliced m n l z d) n
spliced-IsLive m n l z d h = (h, ground arith)

-- `dlist_add_tail` on a ring puts a node with the item behind the others, and returns the same head.
pub add_tail-IsRing :
    (m : Mem) (head spare fresh d : ℕ) (ids items : List ℕ)
    → IsRing m head ids items
    → fresh ≢ 0
    → m.count fresh ≡ 0
    → (w : Mem) × (add_tail m spare fresh head d ≡ done (w, head))
      × IsRing w head (ids ++ fresh ∷ []) (items ++ d ∷ [])
unfolding add_tail add_at
add_tail-IsRing m head spare fresh d ids items r hn free =
    let l = last head ids in
    let w = spliced m fresh l head d in
    let live = IsLive-last m head ids r.nodes in
    let live_head : IsLive m head = (r.nodes.0, r.nodes.1) in
    let prev = prev-last m head ids head r.links in
    let apart = fresh-IsOutside m fresh (head ∷ ids) r.nodes free in
    let (out, s) =
      add_behind-spliced m fresh l head d live live_head hn free (next-last m head ids head r.links)
        prev in
    (
      w,
      simp
          (
            ==_ne head 0 r.nodes.0,
            ==_ne (m.count head) 0 (omega (arith, r.nodes.1)),
            prev,
            ==_ne l 0 live.0,
            out,
          )
          refl,
      record {
        links = spliced-IsLinked m w head ids head fresh r.links r.apart apart r.apart.0 s;
        apart = distinct-snoc (head ∷ ids) fresh r.apart apart;
        nodes =
            nodes-snoc w (head ∷ ids) fresh (nodes-put m fresh l head d (head ∷ ids) r.nodes apart)
              (spliced-IsLive m fresh l head d hn);
        holds =
            items-snoc w.item ids fresh
            ∙ ap₂ (λ xs x. xs ++ x ∷ []) (items-put m.item fresh d ids apart.1 ∙ r.holds)
                (ground arith);
      },
    )

-- The links behind a node that is put right behind `a`.
behind-IsLinked :
    (m w : Mem) (a n : ℕ) (ids : List ℕ) (z : ℕ)
    → IsLinked m a ids z
    → AllDistinct (a ∷ ids)
    → IsOutside n (a ∷ ids)
    → IsOutside z ids
    → n ≢ z
    → IsSpliced m w a n (first ids z)
    → IsLinked w a (n ∷ ids) z
behind-IsLinked m w a n [] z l d o f nz s = (s.next_l, s.prev_n, (s.next_n, s.prev_z))
behind-IsLinked m w a n (x ∷ xs) z l d o f nz s =
    (s.next_l, s.prev_n, (s.next_n, s.prev_z, rest x xs l.2 d.0 o.1 d.1 f.1))
  where
    rest :
        (y : ℕ) (ys : List ℕ)
        → IsLinked m y ys z
        → IsOutside a (y ∷ ys)
        → IsOutside n (y ∷ ys)
        → IsOutside x ys × AllDistinct ys
        → IsOutside z ys
        → IsLinked w y ys z
    rest y [] k g h e t = (
      s.other_next y (λ q. g.0 (sym q)) (λ q. h.0 (sym q)) ∙ k.0,
      s.other_prev z f.0 (λ q. nz (sym q)) ∙ k.1,
    )
    rest y (u ∷ us) k g h e t = (
      s.other_next y (λ q. g.0 (sym q)) (λ q. h.0 (sym q)) ∙ k.0,
      s.other_prev u (λ q. e.0.0 (sym q)) (λ q. h.1.0 (sym q)) ∙ k.1,
      rest u us k.2 g.1 h.1 (e.0.1, e.1.1) t.1,
    )

-- `dlist_add_head` on a ring puts a node with the item in front of the others.
pub add_head-IsRing :
    (m : Mem) (head spare fresh d : ℕ) (ids items : List ℕ)
    → IsRing m head ids items
    → fresh ≢ 0
    → m.count fresh ≡ 0
    → (w : Mem) × (add_head m spare fresh head d ≡ done (w, head))
      × IsRing w head (fresh ∷ ids) (d ∷ items)
unfolding add_head add_at
add_head-IsRing m head spare fresh d ids items r hn free =
    let z = first ids head in
    let w = spliced m fresh head z d in
    let live_head : IsLive m head = (r.nodes.0, r.nodes.1) in
    let live = IsLive-first m ids head r.nodes.2 live_head in
    let apart = fresh-IsOutside m fresh (head ∷ ids) r.nodes free in
    let (out, s) =
      add_behind-spliced m fresh head z d live_head live hn free
        (next-first m head ids head r.links) (prev-first m head ids head r.links) in
    let kept = nodes-put m fresh head z d (head ∷ ids) r.nodes apart in
    let live_new = spliced-IsLive m fresh head z d hn in
    (
      w,
      simp (==_ne head 0 r.nodes.0, out) refl,
      record {
        links = behind-IsLinked m w head fresh ids head r.links r.apart apart r.apart.0 apart.0 s;
        apart = ((λ e. apart.0 (sym e), r.apart.0), (apart.1, r.apart.1));
        nodes = (kept.0, kept.1, (live_new.0, live_new.1, kept.2));
        holds = ap₂ ◌∷◌ (ground arith) (items-put m.item fresh d ids apart.1 ∙ r.holds);
      },
    )
