-- ===== src/Dlist/Deletes.antt =====
-- dlist.c: `dlist_delete` takes the first equal item out of a ring.
use vfdd.Prelude.{
  ℕ, zero, suc, ◌<◌, ◌≡◌, refl, sym, ap, subst, ◌∙◌, ◌≢◌, ◌⊎◌, inl, inr, Bool, true, false, Option,
  some, List, [], ◌∷◌, ◌++◌, map, append_assoc, arith, ◌==◌, if◌then◌else◌, ==_iff, ==_ne,
  Bool-cases, length, Outcome, done,
}
use vfdd.Dlist.{Mem}
use vfdd.Dlist.Ring.{IsOutside, AllNodes, IsRing, first, next-first, IsOutside-right}
use vfdd.Dlist.Takes.{IsLinked-split, nodes-split, remove-IsRing, IsOutside-without}
use vfdd.Dlist.Walk.{delete_loop, delete}

-- The items without the first that is equal to `d`.
unfoldable pub erase : (ℕ → ℕ → Bool) → List ℕ → ℕ → List ℕ
erase same [] d = []
erase same (x ∷ xs) d = if same x d then xs else x ∷ erase same xs d

-- Each node's item is NULL or has a reference, and is no address of `all`.
abbrev pub AllHeld : Mem → List ℕ → List ℕ → Type 0
AllHeld m all [] = Unit {0}
AllHeld m all (x ∷ xs) =
    ((m.item x ≡ 0) ⊎ (m.count (m.item x) ≢ 0)) × IsOutside (m.item x) all × AllHeld m all xs

map-append : (f : ℕ → ℕ) (xs ys : List ℕ) → map f (xs ++ ys) ≡ map f xs ++ map f ys
map-append f [] ys = refl
map-append f (x ∷ xs) ys = ap (λ t. f x ∷ t) (map-append f xs ys)

-- What `dlist_delete` leaves: a ring of these items.
pub record IsDeleted (head : ℕ) (items : List ℕ) (out : Option (Outcome Mem)) : Type 0 where
  pub mem : Mem
  pub ids : List ℕ
  pub returns : out ≡ some (done mem)
  pub ring : IsRing mem head ids items

delete_loop-IsDeleted :
    (same : ℕ → ℕ → Bool) (f : ℕ) (m : Mem) (head d : ℕ) (pre xs : List ℕ)
    → length xs < f
    → IsRing m head (pre ++ xs) (map m.item (pre ++ xs))
    → AllHeld m (head ∷ pre ++ xs) xs
    → IsDeleted head
        (map m.item pre ++ erase same (map m.item xs) d)
        (delete_loop same f m head d (first xs head))
unfolding delete_loop erase
delete_loop-IsDeleted same zero m head d pre xs enough r held = absurd (omega arith)
delete_loop-IsDeleted same (suc f) m head d pre [] enough r held = record {
  mem = m;
  ids = pre ++ [];
  returns = rw ((==_iff head head).1 refl) refl;
  ring = subst (IsRing m head (pre ++ [])) (map-append m.item pre []) r;
}
delete_loop-IsDeleted same (suc f) m head d pre (x ∷ xs) enough r held =
    elim (Bool-cases (same (m.item x) d)) [
      | inl e ↦
          let (w, out, ring, gone, less, others, logged, quiet) =
            remove-IsRing m head pre x xs _ r held.0
              (IsOutside-without (m.item x) (head ∷ pre) x xs held.1) in
          record {
            mem = w;
            ids = pre ++ xs;
            returns = simp (here.0, here.1, here.2, e, out) refl;
            ring =
                subst (IsRing w head (pre ++ xs))
                  (map-append m.item pre xs ∙ ap (λ t. map m.item pre ++ t) (erased e)) ring;
          }
      | inr e ↦
          let back = append_assoc pre (x ∷ []) xs in
          let rest =
            delete_loop-IsDeleted same f m head d (pre ++ x ∷ []) xs (omega arith)
              (subst (λ t. IsRing m head t (map m.item t)) (sym back) r)
              (subst (λ t. AllHeld m (head ∷ t) xs) (sym back) held.2) in
          record {
            mem = rest.mem;
            ids = rest.ids;
            returns = simp (here.0, here.1, here.2, e, next) rest.returns;
            ring = subst (IsRing rest.mem head rest.ids) (kept e) rest.ring;
          }
    ]
  where
    parts : AllNodes m (head ∷ pre) × AllNodes m (x ∷ xs)
    parts = nodes-split m (head ∷ pre) (x ∷ xs) r.nodes

    here : ((x == head) ≡ false) × ((x == 0) ≡ false) × ((m.count x == 0) ≡ false)
    here = (
      ==_ne x head (λ e. (IsOutside-right head pre (x ∷ xs) r.apart.0).0 (sym e)),
      ==_ne x 0 parts.1.0,
      ==_ne (m.count x) 0 (omega (arith, parts.1.1)),
    )

    next : m.next x ≡ first xs head
    next = next-first m x xs head (IsLinked-split m head pre x xs head r.links).1

    erased :
        same (m.item x) d ≡ true
        → map m.item xs
          ≡ (if same (m.item x) d then map m.item xs else m.item x ∷ erase same (map m.item xs) d)
    erased e = rw e refl

    kept :
        same (m.item x) d ≡ false
        → map m.item (pre ++ x ∷ []) ++ erase same (map m.item xs) d
          ≡ map m.item pre
            ++ (if same (m.item x) d
                then map m.item xs
                else m.item x ∷ erase same (map m.item xs) d)
    kept e = rw e (
        ap (λ t. t ++ erase same (map m.item xs) d) (map-append m.item pre (x ∷ []))
        ∙ append_assoc (map m.item pre) (m.item x ∷ []) (erase same (map m.item xs) d))

-- `dlist_delete` on a ring, given more fuel than there are nodes, leaves a ring of the items without the
-- first that is equal, if the items are no nodes of the ring and have references.
pub delete-erase :
    (same : ℕ → ℕ → Bool) (f : ℕ) (m : Mem) (head d : ℕ) (ids items : List ℕ)
    → IsRing m head ids items
    → length ids < f
    → AllHeld m (head ∷ ids) ids
    → IsDeleted head (erase same items d) (delete same f m head d)
unfolding delete
delete-erase same f m head d ids items r enough held =
    let own : IsRing m head ids (map m.item ids) = subst (IsRing m head ids) (sym r.holds) r in
    let out = delete_loop-IsDeleted same f m head d [] ids enough own held in
    record {
      mem = out.mem;
      ids = out.ids;
      returns =
          simp
            (
              ==_ne head 0 r.nodes.0,
              ==_ne (m.count head) 0 (omega (arith, r.nodes.1)),
              next-first m head ids head r.links,
            )
            out.returns;
      ring = subst (λ t. IsRing out.mem head out.ids (erase same t d)) r.holds out.ring;
    }
