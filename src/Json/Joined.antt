-- ===== src/Json/Joined.antt =====
-- jsonnode.c: children behind children, and their count.
use vfdd.Prelude.{◌+◌, ◌≡◌, refl, sym, ap, ◌∙◌, arith}
use vfdd.Json.Tree.{Node, Nodes, count_nodes, nil, cons}
use vfdd.Json.Items.{add_last}
use vfdd.Json.Reads.{all_nodes}

pub count_nodes-last :
    {D : Type 0} (xs : Nodes D) (x : Node D) → count_nodes (add_last xs x) ≡ count_nodes xs + 1
unfolding count_nodes add_last
count_nodes-last nil x = refl
count_nodes-last (cons y ys) x = omega (arith, count_nodes-last ys x)

-- Children behind none
before_all : {D : Type 0} → Nodes D → Nodes D → Nodes D
before_all nil ys = ys
before_all (cons x xs) ys = cons x (before_all xs ys)

before_all-last :
    {D : Type 0} (xs ys : Nodes D) (y : Node D)
    → before_all (add_last xs y) ys ≡ before_all xs (cons y ys)
unfolding before_all add_last
before_all-last nil ys y = refl
before_all-last (cons x xs) ys y = ap (λ t. cons x t) (before_all-last xs ys y)

before_all-nil : {D : Type 0} (xs : Nodes D) → before_all xs nil ≡ xs
unfolding before_all
before_all-nil nil = refl
before_all-nil (cons x xs) = ap (λ t. cons x t) (before_all-nil xs)

all_nodes-before : {D : Type 0} (xs ys : Nodes D) → all_nodes xs ys ≡ before_all xs ys
all_nodes-before xs nil = sym (before_all-nil xs)
all_nodes-before xs (cons y ys) = all_nodes-before (add_last xs y) ys ∙ before_all-last xs ys y

pub all_nodes-nil : {D : Type 0} (xs : Nodes D) → all_nodes nil xs ≡ xs
unfolding before_all
all_nodes-nil xs = all_nodes-before nil xs
