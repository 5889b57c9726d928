-- ===== src/Dlist/Ring.antt =====
-- dlist.c: what a ring of nodes is, and what a write elsewhere leaves of it.
use vfdd.Prelude.{ℕ, ◌≡◌, sym, ◌∙◌, ◌≢◌, List, [], ◌∷◌, ◌++◌, map}
use vfdd.Dlist.{Mem}

-- `a` is none of the addresses.
abbrev pub IsOutside : ℕ → List ℕ → Type 0
IsOutside a [] = Unit {0}
IsOutside a (x ∷ xs) = (a ≢ x) × IsOutside a xs

abbrev pub AllDistinct : List ℕ → Type 0
AllDistinct [] = Unit {0}
AllDistinct (x ∷ xs) = IsOutside x xs × AllDistinct xs

-- From `a` the links lead through `ids` to `z`, and back.
abbrev pub IsLinked : Mem → ℕ → List ℕ → ℕ → Type 0
IsLinked m a [] z = (m.next a ≡ z) × (m.prev z ≡ a)
IsLinked m a (x ∷ xs) z = (m.next a ≡ x) × (m.prev x ≡ a) × IsLinked m x xs z

-- Each address is that of a node with one reference.
abbrev pub AllNodes : Mem → List ℕ → Type 0
AllNodes m [] = Unit {0}
AllNodes m (x ∷ xs) = (x ≢ 0) × (m.count x ≡ 1) × AllNodes m xs

-- The ring of `head` has the nodes `ids`, which hold `items`.
pub record IsRing (m : Mem) (head : ℕ) (ids items : List ℕ) : Type 0 where
  pub links : IsLinked m head ids head
  pub apart : AllDistinct (head ∷ ids)
  pub nodes : AllNodes m (head ∷ ids)
  pub holds : map m.item ids ≡ items

-- The last of `ids`, or `a` if there is none.
abbrev pub last : ℕ → List ℕ → ℕ
last a [] = a
last a (x ∷ xs) = last x xs

pub prev-last :
    (m : Mem) (a : ℕ) (ids : List ℕ) (z : ℕ) → IsLinked m a ids z → m.prev z ≡ last a ids
prev-last m a [] z l = l.1
prev-last m a (x ∷ xs) z l = prev-last m x xs z l.2

pub next-last :
    (m : Mem) (a : ℕ) (ids : List ℕ) (z : ℕ) → IsLinked m a ids z → m.next (last a ids) ≡ z
next-last m a [] z l = l.0
next-last m a (x ∷ xs) z l = next-last m x xs z l.2

pub outside-last : (a x : ℕ) (xs : List ℕ) → IsOutside a (x ∷ xs) → a ≢ last x xs
outside-last a x [] o = o.0
outside-last a x (y ∷ ys) o = outside-last a y ys o.1

-- The four links that put `n` between the last node and `z`.
pub record IsSpliced (m w : Mem) (l n z : ℕ) : Type 0 where
  pub next_l : w.next l ≡ n
  pub prev_n : w.prev n ≡ l
  pub next_n : w.next n ≡ z
  pub prev_z : w.prev z ≡ n
  pub other_next : (q : ℕ) → q ≢ l → q ≢ n → w.next q ≡ m.next q
  pub other_prev : (q : ℕ) → q ≢ z → q ≢ n → w.prev q ≡ m.prev q

pub spliced-IsLinked :
    (m w : Mem) (a : ℕ) (ids : List ℕ) (z n : ℕ)
    → IsLinked m a ids z
    → AllDistinct (a ∷ ids)
    → IsOutside n (a ∷ ids)
    → IsOutside z ids
    → IsSpliced m w (last a ids) n z
    → IsLinked w a (ids ++ n ∷ []) z
spliced-IsLinked m w a [] z n l d o f s = (s.next_l, s.prev_n, (s.next_n, s.prev_z))
spliced-IsLinked m w a (x ∷ xs) z n l d o f s = (
  s.other_next a (outside-last a x xs d.0) (λ e. o.0 (sym e)) ∙ l.0,
  s.other_prev x (λ e. f.0 (sym e)) (λ e. o.1.0 (sym e)) ∙ l.1,
  spliced-IsLinked m w x xs z n l.2 d.1 o.1 f.1 s,
)

-- The two links that leave `n` out, between `a` and `b`.
pub record IsBypassed (m w : Mem) (a n b : ℕ) : Type 0 where
  pub next_a : w.next a ≡ b
  pub prev_b : w.prev b ≡ a
  pub other_next : (q : ℕ) → q ≢ a → w.next q ≡ m.next q
  pub other_prev : (q : ℕ) → q ≢ b → w.prev q ≡ m.prev q

-- The first of `ids`, or `z` if there is none.
abbrev pub first : List ℕ → ℕ → ℕ
first [] z = z
first (x ∷ xs) z = x

pub next-first :
    (m : Mem) (a : ℕ) (ids : List ℕ) (z : ℕ) → IsLinked m a ids z → m.next a ≡ first ids z
next-first m a [] z l = l.0
next-first m a (x ∷ xs) z l = l.0

pub prev-first :
    (m : Mem) (a : ℕ) (ids : List ℕ) (z : ℕ) → IsLinked m a ids z → m.prev (first ids z) ≡ a
prev-first m a [] z l = l.1
prev-first m a (x ∷ xs) z l = l.1

-- A part that the two writes do not touch.
untouched-IsLinked :
    (m w : Mem) (a n b : ℕ) (c : ℕ) (ids : List ℕ) (z : ℕ)
    → IsLinked m c ids z
    → IsBypassed m w a n b
    → IsOutside a (c ∷ ids)
    → IsOutside b ids
    → b ≢ z
    → IsLinked w c ids z
untouched-IsLinked m w a n b c [] z l s o f g =
    (s.other_next c (λ e. o.0 (sym e)) ∙ l.0, s.other_prev z (λ e. g (sym e)) ∙ l.1)
untouched-IsLinked m w a n b c (x ∷ xs) z l s o f g = (
  s.other_next c (λ e. o.0 (sym e)) ∙ l.0,
  s.other_prev x (λ e. f.0 (sym e)) ∙ l.1,
  untouched-IsLinked m w a n b x xs z l.2 s o.1 f.1 g,
)

pub IsOutside-left : (a : ℕ) (xs ys : List ℕ) → IsOutside a (xs ++ ys) → IsOutside a xs
IsOutside-left a [] ys o = tt
IsOutside-left a (x ∷ xs) ys o = (o.0, IsOutside-left a xs ys o.1)

pub IsOutside-right : (a : ℕ) (xs ys : List ℕ) → IsOutside a (xs ++ ys) → IsOutside a ys
IsOutside-right a [] ys o = o
IsOutside-right a (x ∷ xs) ys o = IsOutside-right a xs ys o.1

-- Behind the writes `n` is out of the chain.
pub bypassed-IsLinked :
    (m w : Mem) (a : ℕ) (xs : List ℕ) (n : ℕ) (ys : List ℕ) (z : ℕ)
    → IsLinked m a (xs ++ n ∷ ys) z
    → AllDistinct (a ∷ xs ++ n ∷ ys)
    → IsOutside z (xs ++ n ∷ ys)
    → IsBypassed m w (last a xs) n (first ys z)
    → IsLinked w a (xs ++ ys) z
bypassed-IsLinked m w a [] n [] z l d f s = (s.next_a, s.prev_b)
bypassed-IsLinked m w a [] n (y ∷ ys) z l d f s = (
  s.next_a,
  s.prev_b,
  untouched-IsLinked m w a n y y ys z l.2.2 s d.0.1 d.1.1.0 (λ e. f.1.0 (sym e)),
)
bypassed-IsLinked m w a (x ∷ xs) n ys z l d f s = (
  s.other_next a (outside-last a x xs (IsOutside-left a (x ∷ xs) (n ∷ ys) d.0)) ∙ l.0,
  s.other_prev x (apart ys (IsOutside-right x xs (n ∷ ys) d.1.0)) ∙ l.1,
  bypassed-IsLinked m w x xs n ys z l.2 d.1 f.1 s,
)
  where
    apart : (us : List ℕ) → IsOutside x (n ∷ us) → x ≢ first us z
    apart [] o = λ e. f.0 (sym e)
    apart (u ∷ us) o = o.1.0
