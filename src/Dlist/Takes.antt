-- ===== src/Dlist/Takes.antt =====
-- dlist.c: taking nodes out of a ring.
use vfdd.Dlist.Ring.{
  IsOutside, AllDistinct, IsLinked, AllNodes, IsRing, last, prev-last, outside-last, first,
  next-first, IsOutside-left, IsOutside-right, bypassed-IsLinked,
}
use vfdd.Prelude.{
  ℕ, ◌-◌, ◌≡◌, refl, sym, ◌≢◌, ◌⊎◌, inl, inr, true, false, List, [], ◌∷◌, ◌++◌, map, arith, ◌==◌,
  if◌then◌else◌, ==_iff, ==_ne, Bool-cases, ◌>>=◌, done,
}
use vfdd.Dlist.{Mem, put, unref_data, destroy_node, unref_node, remove}
use vfdd.Dlist.Adds.{IsLive, IsLive-last, IsLive-first}

-- The memory behind the two writes of `dlist_remove`.
abbrev bypassed : Mem → ℕ → ℕ → Mem
bypassed m a b = record m { next = put m.next a b; prev = put m.prev b a }

-- What is left when the node `n` and one reference to its item `d` go.
abbrev dropped : Mem → ℕ → ℕ → Mem
dropped m n d =
    let c = if d == 0 then m.count else put m.count d (m.count d - 1) in
    record m {
      count = put c n 0;
      destroyed =
          if d == 0
          then m.destroyed
          else if m.count d == 1
          then m.destroyed ++ d ∷ []
          else m.destroyed;
    }

-- What `dlist_destroy_node` does behind its test.
item_dropped :
    (m : Mem) (n d : ℕ)
    → (d ≡ 0) ⊎ (m.count d ≢ 0)
    → (if d == 0 then done m else unref_data m d)
        >>= (λ w. done (record w { count = put w.count n 0 }))
      ≡ done (dropped m n d)
unfolding unref_data
item_dropped m n d (inl e) = rw ((==_iff d 0).1 e) refl
item_dropped m n d (inr e) = elim (Bool-cases (d == 0)) [
  | inl z ↦ rw z refl
  | inr z ↦ simp (z, ==_ne (m.count d) 0 e) refl
]

-- `dlist_remove` of a node between `a` and `b`, whose item has a reference or is NULL.
pub remove-bypassed :
    (m : Mem) (a n b : ℕ)
    → IsLive m a
    → IsLive m n
    → IsLive m b
    → a ≢ n
    → b ≢ n
    → m.prev n ≡ a
    → m.next n ≡ b
    → (m.item n ≡ 0) ⊎ (m.count (m.item n) ≢ 0)
    → remove m n ≡ done (dropped (bypassed m a b) n (m.item n))
unfolding remove unref_node destroy_node unref_data
remove-bypassed m a n b ha hn hb an bn pv nx item =
    simp
      (
        ==_ne n 0 hn.0,
        ==_ne (m.count n) 0 (omega (arith, hn.1)),
        (==_iff (m.count n) 1).1 hn.1,
        pv,
        nx,
        ==_ne a 0 ha.0,
        ==_ne (m.count a) 0 (omega (arith, ha.1)),
        ==_ne b 0 hb.0,
        ==_ne (m.count b) 0 (omega (arith, hb.1)),
        ==_ne n a (λ e. an (sym e)),
      )
      (item_dropped (bypassed m a b) n (m.item n) item)

pub IsLinked-split :
    (m : Mem) (a : ℕ) (xs : List ℕ) (n : ℕ) (ys : List ℕ) (z : ℕ)
    → IsLinked m a (xs ++ n ∷ ys) z
    → IsLinked m a xs n × IsLinked m n ys z
IsLinked-split m a [] n ys z l = ((l.0, l.1), l.2)
IsLinked-split m a (x ∷ xs) n ys z l =
    let (p, q) = IsLinked-split m x xs n ys z l.2 in ((l.0, l.1, p), q)

pub nodes-split : (m : Mem) (xs ys : List ℕ) → AllNodes m (xs ++ ys) → AllNodes m xs × AllNodes m ys
nodes-split m [] ys h = (tt, h)
nodes-split m (x ∷ xs) ys h = let (p, q) = nodes-split m xs ys h.2 in ((h.0, h.1, p), q)

nodes-join : (m : Mem) (xs ys : List ℕ) → AllNodes m xs → AllNodes m ys → AllNodes m (xs ++ ys)
nodes-join m [] ys h g = g
nodes-join m (x ∷ xs) ys h g = (h.0, h.1, nodes-join m xs ys h.2 g)

IsOutside-join : (a : ℕ) (xs ys : List ℕ) → IsOutside a xs → IsOutside a ys → IsOutside a (xs ++ ys)
IsOutside-join a [] ys o p = p
IsOutside-join a (x ∷ xs) ys o p = (o.0, IsOutside-join a xs ys o.1 p)

-- A list of distinct addresses without one of them.
distinct-without :
    (xs : List ℕ) (n : ℕ) (ys : List ℕ)
    → AllDistinct (xs ++ n ∷ ys)
    → AllDistinct (xs ++ ys) × IsOutside n (xs ++ ys)
distinct-without [] n ys d = (d.1, d.0)
distinct-without (x ∷ xs) n ys d =
    let (e, o) = distinct-without xs n ys d.1 in
    let left = IsOutside-left x xs (n ∷ ys) d.0 in
    let right = IsOutside-right x xs (n ∷ ys) d.0 in
    ((IsOutside-join x xs ys left right.1, e), (λ s. right.0 (sym s), o))

outside-ends :
    (n h : ℕ) (xs ys : List ℕ) → IsOutside n (h ∷ xs ++ ys) → (last h xs ≢ n) × (first ys h ≢ n)
outside-ends n h xs ys o = (
  λ e. outside-last n h xs (o.0, IsOutside-left n xs ys o.1) (sym e),
  front ys (IsOutside-right n xs ys o.1),
)
  where
    front : (us : List ℕ) → IsOutside n us → first us h ≢ n
    front [] p = λ e. o.0 (sym e)
    front (u ∷ us) p = λ e. p.0 (sym e)

-- Neither the node that goes nor its item is among the nodes that stay.
nodes-dropped :
    (m : Mem) (a b n d : ℕ) (ids : List ℕ)
    → AllNodes m ids
    → IsOutside n ids
    → IsOutside d ids
    → AllNodes (dropped (bypassed m a b) n d) ids
nodes-dropped m a b n d [] h o p = tt
nodes-dropped m a b n d (x ∷ xs) h o p =
    (h.0, ground (arith, h.1, o.0, p.0), nodes-dropped m a b n d xs h.2 o.1 p.1)

-- `dlist_remove` of a node of a ring takes it out, and its item with it, if that has a reference and
-- is no node itself; the other nodes stay in their order. The item loses that one reference. If it was the
-- last, the item's `destroy` is called, once, and otherwise none is. But for what that call does, no other
-- count changes.
pub remove-IsRing :
    (m : Mem) (head : ℕ) (xs : List ℕ) (n : ℕ) (ys items : List ℕ)
    → IsRing m head (xs ++ n ∷ ys) items
    → (m.item n ≡ 0) ⊎ (m.count (m.item n) ≢ 0)
    → IsOutside (m.item n) (head ∷ xs ++ ys)
    → (w : Mem) × (remove m n ≡ done w)
      × IsRing w head (xs ++ ys) (map m.item (xs ++ ys))
      × (w.count n ≡ 0)
      × (m.item n ≢ 0 → m.item n ≢ n → w.count (m.item n) ≡ m.count (m.item n) - 1)
      × ((q : ℕ) → q ≢ n → q ≢ m.item n → w.count q ≡ m.count q)
      × (m.item n ≢ 0 → m.count (m.item n) ≡ 1 → w.destroyed ≡ m.destroyed ++ m.item n ∷ [])
      × ((m.item n ≡ 0) ⊎ (m.count (m.item n) ≢ 1) → w.destroyed ≡ m.destroyed)
remove-IsRing m head xs n ys items r item far =
    let a = last head xs in
    let b = first ys head in
    let (before, after) = IsLinked-split m head xs n ys head r.links in
    let (e, o) = distinct-without (head ∷ xs) n ys r.apart in
    let (an, bn) = outside-ends n head xs ys o in
    let (front, back) = nodes-split m (head ∷ xs) (n ∷ ys) r.nodes in
    let w = dropped (bypassed m a b) n (m.item n) in
    (
      w,
      remove-bypassed m a n b (IsLive-last m head xs front) (back.0, back.1)
          (IsLive-first m ys head back.2 (front.0, front.1)) an bn (prev-last m head xs n before)
          (next-first m n ys head after) item,
      record {
        links = bypassed-IsLinked m w head xs n ys head r.links r.apart r.apart.0 (record {
          next_a = ground arith;
          prev_b = ground arith;
          other_next = λ q f. ground arith;
          other_prev = λ q f. ground arith;
        });
        apart = e;
        nodes =
            nodes-dropped m a b n (m.item n) (head ∷ xs ++ ys)
              (nodes-join m (head ∷ xs) ys front back.2) o far;
        holds = refl;
      },
      ground arith,
      λ f g. ground arith,
      λ q f g. others q f g (Bool-cases (m.item n == 0)),
      λ f g. rw (==_ne (m.item n) 0 f, (==_iff (m.count (m.item n)) 1).1 g) refl,
      quiet,
    )
  where
    quiet :
        (m.item n ≡ 0) ⊎ (m.count (m.item n) ≢ 1)
        → (dropped (bypassed m (last head xs) (first ys head)) n (m.item n)).destroyed ≡ m.destroyed
    quiet (inl e) = rw ((==_iff (m.item n) 0).1 e) refl
    quiet (inr e) = elim (Bool-cases (m.item n == 0)) [
      | inl z ↦ rw z refl
      | inr z ↦ rw (z, ==_ne (m.count (m.item n)) 1 e) refl
    ]

    others :
        (q : ℕ)
        → q ≢ n
        → q ≢ m.item n
        → ((m.item n == 0) ≡ true) ⊎ ((m.item n == 0) ≡ false)
        → (dropped (bypassed m (last head xs) (first ys head)) n (m.item n)).count q ≡ m.count q
    others q f g (inl z) = simp (z, ==_ne q n f) refl
    others q f g (inr z) = simp (z, ==_ne q n f, ==_ne q (m.item n) g) refl

pub IsOutside-without :
    (d : ℕ) (xs : List ℕ) (n : ℕ) (ys : List ℕ)
    → IsOutside d (xs ++ n ∷ ys)
    → IsOutside d (xs ++ ys)
IsOutside-without d xs n ys o =
    IsOutside-join d xs ys (IsOutside-left d xs (n ∷ ys) o) (IsOutside-right d xs (n ∷ ys) o).1
