-- ===== src/Json/Writes.antt =====
-- jsonroot.c: what a step of the printer appends, and steps one behind another.
use vfdd.Json.Printed.{print_str-IsGrown}
use vfdd.Json.Print.{print_str}
use vfdd.Prelude.{
  ℕ, zero, suc, ◌+◌, ◌-◌, ◌≤◌, ◌≡◌, refl, sym, subst, ◌∙◌, Bool, true, false, Option, none, some,
  List, [], ◌∷◌, ◌++◌, append-nil, arith, ◌==◌, if◌then◌else◌, ==_iff, ==_ne, length, get_or,
  length-append, Outcome, ◌>>=◌, done,
}
use vfdd.Dbuf.{DBuf}
use vfdd.Dbuf.Bounds.{IsValid, max_len}
use vfdd.Dbuf.Contents.{contents, Holds, put_char-Holds}
use vfdd.Json.Escapes.{quoted, grown_len, Holds-trans, strncat_whole}
use vfdd.Json.Tree.{
  Printer, put, put_text, put_str, put_if_format, indent, indent_loop, put_indent, next_item,
}

-- The outcome is `p` with `text` behind what its buffer had, and with a count that `K` holds of.
abbrev pub IsPrinted : Printer → List ℕ → (ℕ → Type 0) → Outcome Printer → Type 0
IsPrinted p text K out =
    (e : DBuf) × (n : ℕ) × (out ≡ done (record p { dest = e; count = n }))
    × Holds (contents p.dest ++ text) p.dest.pos p.dest.lineno p.dest.flags e
    × K n

-- A valid buffer with a 0 behind its text.
abbrev pub IsEnded : DBuf → Type 0
IsEnded d = IsValid d × (get_or d.s d.len 1 ≡ 0)

-- The same, if the buffer is such and has room.
abbrev pub Writes : Printer → List ℕ → (ℕ → Type 0) → Outcome Printer → Type 0
Writes p text K out = IsEnded p.dest → p.dest.len + length text ≤ max_len → IsPrinted p text K out

-- Any count
abbrev pub Any : ℕ → Type 0
Any n = Unit {0}

-- The count `k`
abbrev pub Count : ℕ → ℕ → Type 0
Count k n = n ≡ k

pub Writes-then :
    (p : Printer) (xs ys : List ℕ) (K L : ℕ → Type 0) (out : Outcome Printer)
    (go : Printer → Outcome Printer)
    → Writes p xs K out
    → ((e : DBuf) (n : ℕ)
        → K n
        → Writes (record p { dest = e; count = n }) ys L (go (record p { dest = e; count = n })))
    → Writes p (xs ++ ys) L (out >>= go)
Writes-then p xs ys K L out go first next v h =
    let (e, n, same, held, k) = first v (omega (arith, length-append xs ys)) in
    let more = grown_len p.dest e xs v.0 held in
    let (e', m, same', held', l) =
      next e n k (held.valid, held.ended) (omega (arith, length-append xs ys)) in
    (e', m, rw same same', Holds-trans p.dest e e' xs ys held held', l)

pub Writes-Count :
    (p : Printer) (text : List ℕ) (i j : ℕ) (out : Outcome Printer)
    → i ≡ j
    → Writes p text (Count i) out
    → Writes p text (Count j) out
Writes-Count p text i j out e w = subst (λ k. Writes p text (Count k) out) e w

-- Nothing is written.
pub done-Writes : (p : Printer) (K : ℕ → Type 0) → K p.count → Writes p [] K (done p)
done-Writes p K k v h = (
  p.dest,
  p.count,
  refl,
  record {
    valid = v.0;
    text_is = sym (append-nil (contents p.dest));
    ended = v.1;
    cursor = refl;
    line = refl;
    same_flags = refl;
  },
  k,
)

pub put-Writes : (c : ℕ) (p : Printer) → Writes p (c ∷ []) (Count p.count) (put c p)
unfolding put
put-Writes c p v h =
    let (e, same, held) = put_char-Holds p.dest c v.0 (omega arith) in
    (e, p.count, rw same refl, held, refl)

pub put_text-Writes : (s : List ℕ) (p : Printer) → Writes p s (Count p.count) (put_text s p)
unfolding put_text
put_text-Writes s p v h =
    let (e, same, held) = strncat_whole p.dest s (0 ∷ []) v.0 h in
    (e, p.count, rw same refl, held, refl)

-- What `root->format` adds.
abbrev pub optional : Bool → List ℕ → List ℕ
optional b text = if b then text else []

pub put_if_format-Writes :
    (c : ℕ) (p : Printer)
    → Writes p (optional p.format (c ∷ [])) (Count p.count) (put_if_format c p)
unfolding put_if_format
put_if_format-Writes c p = pick p.format
  where
    pick :
        (b : Bool) → Writes p (optional b (c ∷ [])) (Count p.count) (if b then put c p else done p)
    pick true = put-Writes c p
    pick false = done-Writes p (Count p.count) refl

-- A string, or nothing for NULL.
abbrev pub str_text : Option (List ℕ) → List ℕ
str_text str = elim str as (λ _. List ℕ) [ none ↦ [] | some s ↦ quoted s ]

pub put_str-Writes :
    (str : Option (List ℕ)) (p : Printer) → Writes p (str_text str) (Count p.count) (put_str str p)
unfolding put_str print_str
put_str-Writes none p v h = done-Writes p (Count p.count) refl v h
put_str-Writes (some s) p v h =
    let (e, same, held) = print_str-IsGrown p.dest s v.0 h in (e, p.count, rw same refl, held, refl)

-- The indentation of a depth
unfoldable pub indentation : ℕ → List ℕ
indentation zero = []
indentation (suc n) = indent ++ indentation n

indent_loop-Writes :
    (n k : ℕ) (p : Printer) → p.count ≡ k → Writes p (indentation n) (Count k) (indent_loop n p)
unfolding indent_loop indentation
indent_loop-Writes zero k p same = done-Writes p (Count k) same
indent_loop-Writes (suc n) k p same =
    Writes-then p indent (indentation n) (Count p.count) (Count k) (put_text indent p)
      (indent_loop n) (put_text-Writes indent p) (λ e m c. indent_loop-Writes n k _ (c ∙ same))

pub put_indent-Writes :
    (p : Printer)
    → Writes p (optional p.format (indentation p.depth)) (Count p.count) (put_indent p)
unfolding put_indent
put_indent-Writes p = pick p.format
  where
    pick :
        (b : Bool)
        → Writes p
            (optional b (indentation p.depth))
            (Count p.count)
            (if b then indent_loop p.depth p else done p)
    pick true = indent_loop-Writes p.depth p.count p refl
    pick false = done-Writes p (Count p.count) refl

-- The comma in front of `n` more items
unfoldable pub comma : Bool → ℕ → List ℕ
comma b zero = []
comma b (suc n) = b',' ∷ optional b (b' ' ∷ [])

pub next_item-Writes :
    (p : Printer) (k : ℕ) → p.count ≡ suc k → Writes p (comma p.format k) (Count k) (next_item p)
unfolding next_item comma
next_item-Writes p k same = pick (p.count - 1) k (omega arith)
  where
    after : Printer → Outcome Printer
    after q = if q.count == 0 then done q else (do r ← put b',' q; put_if_format b' ' r)

    pick :
        (m n : ℕ) → m ≡ n → Writes p (comma p.format n) (Count n) (after (record p { count = m }))
    pick m zero e = rw (after, (==_iff m 0).1 e) (done-Writes (record p { count = m }) (Count 0) e)
    pick m (suc n) e =
        rw (after, ==_ne m 0 (omega arith))
          (Writes-then (record p { count = m }) (b',' ∷ []) (optional p.format (b' ' ∷ []))
            (Count m) (Count (suc n)) (put b',' (record p { count = m })) (put_if_format b' ')
            (put-Writes b',' (record p { count = m }))
            (λ d i c.
              Writes-Count (record p { dest = d; count = i }) (optional p.format (b' ' ∷ [])) i
                (suc n) (put_if_format b' ' (record p { dest = d; count = i })) (c ∙ e)
                (put_if_format-Writes b' ' (record p { dest = d; count = i }))))
