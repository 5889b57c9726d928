-- ===== src/Dlist/Queue.antt =====
-- dlist.c: the ring as a queue. An item that is taken out keeps its references: the list's becomes the
-- caller's.
use vfdd.Prelude.{
  ℕ, ◌+◌, ◌-◌, ◌≡◌, refl, sym, ◌∙◌, ◌≢◌, inr, List, [], ◌∷◌, ◌++◌, map, arith, ==_iff, ==_ne, done,
}
use vfdd.Dlist.{Mem, put, app_class_ref, get_data, get_data_rm_node}
use vfdd.Dlist.Ring.{IsOutside, IsLinked, AllNodes, IsRing, IsOutside-right}
use vfdd.Dlist.Takes.{nodes-split, remove-IsRing, IsOutside-without}

abbrev referenced : Mem → ℕ → Mem
referenced m d = record m { count = put m.count d (m.count d + 1) }

nodes-referenced :
    (m : Mem) (d : ℕ) (ids : List ℕ)
    → AllNodes m ids
    → IsOutside d ids
    → AllNodes (referenced m d) ids
nodes-referenced m d [] h o = tt
nodes-referenced m d (x ∷ xs) h o = (h.0, ground (arith, h.1, o.0), nodes-referenced m d xs h.2 o.1)

-- A further reference to an item that is no node leaves the ring.
referenced-IsRing :
    (m : Mem) (head d : ℕ) (ids items : List ℕ)
    → IsRing m head ids items
    → IsOutside d (head ∷ ids)
    → IsRing (referenced m d) head ids items
referenced-IsRing m head d ids items r o = record {
  links = same-IsLinked head ids r.links;
  apart = r.apart;
  nodes = nodes-referenced m d (head ∷ ids) r.nodes o;
  holds = r.holds;
}
  where
    same-IsLinked :
        (a : ℕ) (xs : List ℕ) → IsLinked m a xs head → IsLinked (referenced m d) a xs head
    same-IsLinked a [] l = l
    same-IsLinked a (x ∷ xs) l = (l.0, l.1, same-IsLinked x xs l.2)

-- `dlist_get_data_rm_node` of a node with an item: the item is returned, with as many references as
-- before, and the ring has the other nodes.
pub get_data_rm_node-IsRing :
    (m : Mem) (head : ℕ) (xs : List ℕ) (n : ℕ) (ys items : List ℕ)
    → IsRing m head (xs ++ n ∷ ys) items
    → m.item n ≢ 0
    → m.count (m.item n) ≢ 0
    → IsOutside (m.item n) (head ∷ xs ++ n ∷ ys)
    → (w : Mem) × (get_data_rm_node m head n ≡ done (w, m.item n))
      × IsRing w head (xs ++ ys) (map m.item (xs ++ ys))
      × (w.count (m.item n) ≡ m.count (m.item n))
unfolding get_data_rm_node get_data app_class_ref
get_data_rm_node-IsRing m head xs n ys items r some_item held far =
    let d = m.item n in
    let m₁ = referenced m d in
    let more : m₁.count d ≡ m.count d + 1 = rw ((==_iff d d).1 refl) refl in
    let back : m₁.count d - 1 ≡ m.count d = omega (arith, more) in
    let r₁ = referenced-IsRing m head d (xs ++ n ∷ ys) items r far in
    let (p, q) = nodes-split m (head ∷ xs) (n ∷ ys) r.nodes in
    let q_apart = (IsOutside-right d (head ∷ xs) (n ∷ ys) far).0 in
    let nh : n ≢ head = λ e. (IsOutside-right head xs (n ∷ ys) r.apart.0).0 (sym e) in
    let (w, out, ring, gone, less, others, logged, quiet) =
      remove-IsRing m₁ head xs n ys items r₁ (inr (λ e. absurd (omega (arith, e, more))))
        (IsOutside-without d (head ∷ xs) n ys far) in
    (
      w,
      simp
          (
            ==_ne head 0 p.0,
            ==_ne n head nh,
            ==_ne n 0 q.0,
            ==_ne (m.count n) 0 (omega (arith, q.1)),
            ==_ne d 0 some_item,
            ==_ne (m.count d) 0 held,
            out,
          )
          refl,
      ring,
      less some_item (λ e. q_apart e) ∙ back,
    )
