-- ===== src/Dlist/Tests.antt =====
-- Runs of the list operations on a ring of two nodes.
use vfdd.Prelude.{ℕ, ◌+◌, ◌≡◌, refl, ◌≢◌, ◌⊎◌, inr, List, [], ◌∷◌, ◌++◌, arith, ◌==◌, get_or, done}
use vfdd.Dlist.{Mem, add_tail, remove}
use vfdd.Dlist.Ring.{IsRing}
use vfdd.Dlist.Adds.{add_tail-IsRing}
use vfdd.Dlist.Takes.{remove-IsRing}
use vfdd.Dlist.Walk.{delete, rm_node, rm_node_cont}
use vfdd.Dlist.Deletes.{erase, IsDeleted, delete-erase}

-- The head is at 1, the nodes at 2 and 3 hold the items at 10 and 11; nothing is at 4.
abbrev table : List ℕ → ℕ → ℕ
table xs p = get_or xs p 0

abbrev two : Mem
two = record {
  count = table (0 ∷ 1 ∷ 1 ∷ 1 ∷ 0 ∷ 0 ∷ 0 ∷ 0 ∷ 0 ∷ 0 ∷ 1 ∷ 2 ∷ []);
  next = table (0 ∷ 2 ∷ 3 ∷ 1 ∷ []);
  prev = table (0 ∷ 3 ∷ 1 ∷ 2 ∷ []);
  item = table (0 ∷ 0 ∷ 10 ∷ 11 ∷ []);
  destroyed = [];
}

two-IsRing : IsRing two 1 (2 ∷ 3 ∷ []) (10 ∷ 11 ∷ [])
two-IsRing = record {
  links = (refl, refl, (refl, refl, (refl, refl)));
  apart = ((omega arith, (omega arith, tt)), ((omega arith, tt), (tt, tt)));
  nodes = (omega arith, refl, (omega arith, refl, (omega arith, refl, tt)));
  holds = refl;
}

add_tail-IsRing_example :
    (w : Mem) × (add_tail two 5 4 1 11 ≡ done (w, 1))
    × IsRing w 1 (2 ∷ 3 ∷ 4 ∷ []) (10 ∷ 11 ∷ 11 ∷ [])
add_tail-IsRing_example =
    add_tail-IsRing two 1 5 4 11 (2 ∷ 3 ∷ []) (10 ∷ 11 ∷ []) two-IsRing (omega arith) refl

remove-IsRing_example :
    (w : Mem) × (remove two 2 ≡ done w)
    × IsRing w 1 (3 ∷ []) (11 ∷ [])
    × (w.count 2 ≡ 0)
    × (two.item 2 ≢ 0 → two.item 2 ≢ 2 → w.count 10 ≡ 0)
    × ((q : ℕ) → q ≢ 2 → q ≢ 10 → w.count q ≡ two.count q)
    × (two.item 2 ≢ 0 → two.count 10 ≡ 1 → w.destroyed ≡ two.destroyed ++ 10 ∷ [])
    × ((two.item 2 ≡ 0) ⊎ (two.count 10 ≢ 1) → w.destroyed ≡ two.destroyed)
remove-IsRing_example =
    remove-IsRing two 1 [] 2 (3 ∷ []) (10 ∷ 11 ∷ []) two-IsRing (inr (omega arith))
      (omega arith, (omega arith, tt))

delete-erase_example : IsDeleted 1 (10 ∷ []) (delete ◌==◌ 3 two 1 11)
unfolding erase
delete-erase_example =
    delete-erase ◌==◌ 3 two 1 11 (2 ∷ 3 ∷ []) (10 ∷ 11 ∷ []) two-IsRing (omega arith) (
      inr (omega arith),
      (omega arith, (omega arith, (omega arith, tt))),
      (inr (omega arith), (omega arith, (omega arith, (omega arith, tt))), tt),
    )

-- Sums the items.
abbrev sum : ℕ → ℕ → ℕ × ℕ
sum s x = (s + x, 0)

sum_keeps : (s : ℕ) (x : ℕ) → ((sum s x).1 ≢ rm_node) × ((sum s x).1 ≢ rm_node_cont)
sum_keeps s x = (omega arith, omega arith)
