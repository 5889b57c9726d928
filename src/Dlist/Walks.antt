-- ===== src/Dlist/Walks.antt =====
-- dlist.c: what the walks find in a ring.
use vfdd.Prelude.{
  ℕ, zero, suc, ◌<◌, ◌≡◌, refl, sym, ap, ◌≢◌, Bool, true, false, not, ◌&&◌, Option, some, List, [],
  ◌∷◌, map, arith, ◌==◌, if◌then◌else◌, ==_iff, ==_ne, length, Outcome, done,
}
use vfdd.Dlist.{Mem}
use vfdd.Dlist.Ring.{IsOutside, IsLinked, AllNodes, IsRing, first, next-first}
use vfdd.Dlist.Walk.{lookup_loop, lookup, rm_node, rm_node_cont, iterator_loop, iterator}

-- The first item that is equal to `d`, or 0.
unfoldable pub find : (ℕ → ℕ → Bool) → List ℕ → ℕ → ℕ
find same [] d = 0
find same (x ∷ xs) d = if same x d then x else find same xs d

if_done :
    (b : Bool) (x y : ℕ)
    → (if b then some (done x) else some (done y)) ≡ some (done (if b then x else y))
if_done true x y = refl
if_done false x y = refl

lookup_loop-find :
    (same : ℕ → ℕ → Bool) (f : ℕ) (m : Mem) (head d a : ℕ) (ids : List ℕ)
    → length ids < f
    → IsLinked m a ids head
    → AllNodes m ids
    → IsOutside head ids
    → lookup_loop same f m head d (first ids head) ≡ some (done (find same (map m.item ids) d))
unfolding lookup_loop find
lookup_loop-find same zero m head d a ids enough l h o = absurd (omega arith)
lookup_loop-find same (suc f) m head d a [] enough l h o = rw ((==_iff head head).1 refl) refl
lookup_loop-find same (suc f) m head d a (x ∷ xs) enough l h o =
    simp
      (
        ==_ne x head (λ e. o.0 (sym e)),
        ==_ne x 0 h.0,
        ==_ne (m.count x) 0 (omega (arith, h.1)),
        next-first m x xs head l.2,
        lookup_loop-find same f m head d x xs (omega arith) l.2 h.2 o.1,
      )
      (if_done (same (m.item x) d) (m.item x) (find same (map m.item xs) d))

-- `dlist_lookup` on a ring, given more fuel than there are nodes, returns the first item that is equal,
-- or NULL.
pub lookup-find :
    (same : ℕ → ℕ → Bool) (f : ℕ) (m : Mem) (head d : ℕ) (ids items : List ℕ)
    → IsRing m head ids items
    → length ids < f
    → lookup same f m head d ≡ some (done (find same items d))
unfolding lookup
lookup-find same f m head d ids items r enough =
    simp
      (
        ==_ne head 0 r.nodes.0,
        ==_ne (m.count head) 0 (omega (arith, r.nodes.1)),
        next-first m head ids head r.links,
        lookup_loop-find same f m head d head ids enough r.links r.nodes.2 r.apart.0,
      )
      (ap (λ t. some (done (find same t d))) r.holds)

-- A walk over items with a function of a state: it ends at the first result that is not 0.
unfoldable pub visit : {S : Type 0} → (S → ℕ → S × ℕ) → S → List ℕ → S × ℕ
visit step s [] = (s, 0)
visit step s (x ∷ xs) =
    let rest = visit step (step s x).0 xs in if (step s x).1 == 0 then rest else step s x

-- A callback that changes its own state only.
abbrev pub callback : {S : Type 0} → (S → ℕ → S × ℕ) → S → Mem → ℕ → Outcome (S × Mem × ℕ)
callback step s m x = done ((step s x).0, m, (step s x).1)

abbrev visited : {S : Type 0} → Mem → S × ℕ → Option (Outcome (S × Mem × ℕ))
visited m r = some (done (r.0, m, r.1))

visit_end :
    {S : Type 0} (b : Bool) (m : Mem) (r t : S × ℕ)
    → (if not b && true then visited m r else visited m t) ≡ visited m (if b then t else r)
visit_end true m r t = refl
visit_end false m r t = refl

module _ {S : Type 0} (step : S → ℕ → S × ℕ)
    (keeps : (s : S) (x : ℕ) → ((step s x).1 ≢ rm_node) × ((step s x).1 ≢ rm_node_cont)) where
  iterator_loop-visit :
      (f : ℕ) (s : S) (m : Mem) (head a : ℕ) (ids : List ℕ)
      → length ids < f
      → IsLinked m a ids head
      → AllNodes m ids
      → IsOutside head ids
      → let r = visit step s (map m.item ids) in
        iterator_loop (callback step) f s m head (first ids head) ≡ some (done (r.0, m, r.1))
  unfolding iterator_loop visit
  iterator_loop-visit zero s m head a ids enough l h o = absurd (omega arith)
  iterator_loop-visit (suc f) s m head a [] enough l h o = rw ((==_iff head head).1 refl) refl
  iterator_loop-visit (suc f) s m head a (x ∷ xs) enough l h o =
      simp
        (
          ==_ne x head (λ e. o.0 (sym e)),
          ==_ne x 0 h.0,
          ==_ne (m.count x) 0 (omega (arith, h.1)),
          next-first m x xs head l.2,
          ==_ne (step s (m.item x)).1 rm_node (keeps s (m.item x)).0,
          ==_ne (step s (m.item x)).1 rm_node_cont (keeps s (m.item x)).1,
          iterator_loop-visit f (step s (m.item x)).0 m head x xs (omega arith) l.2 h.2 o.1,
        )
        (visit_end ((step s (m.item x)).1 == 0) m (step s (m.item x))
          (visit step (step s (m.item x)).0 (map m.item xs)))

  -- `dlist_iterator` on a ring, with a function that changes its own state only and removes no node,
  -- visits the items in order until a result is not 0; given more fuel than there are nodes, it returns.
  pub iterator-visit :
      (f : ℕ) (s : S) (m : Mem) (head : ℕ) (ids items : List ℕ)
      → IsRing m head ids items
      → length ids < f
      → let r = visit step s items in
        iterator (callback step) f s m head ≡ some (done (r.0, m, r.1))
  unfolding iterator
  iterator-visit f s m head ids items r enough =
      simp
        (
          ==_ne head 0 r.nodes.0,
          ==_ne (m.count head) 0 (omega (arith, r.nodes.1)),
          next-first m head ids head r.links,
          iterator_loop-visit f s m head head ids enough r.links r.nodes.2 r.apart.0,
        )
        (ap (λ t. some (done ((visit step s t).0, m, (visit step s t).1))) r.holds)
