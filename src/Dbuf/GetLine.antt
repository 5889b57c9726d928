-- ===== src/Dbuf/GetLine.antt =====
-- dbuf.c: what `dbuf_get_line` returns, and which bytes a line has.
use vfdd.Prelude.{
  ℕ, ◌<◌, ◌≡◌, refl, sym, ap, ap₂, subst, ◌∙◌, ◌≢◌, ◌⊎◌, Bool, true, false, not, ◌&&◌, Option, none,
  some, List, [], ◌∷◌, ◌++◌, append-nil, append_assoc, arith, ◌==◌, if◌then◌else◌, ==_ne, length,
  Outcome, done,
}
use vfdd.Dbuf.{DBuf, db_strip_cr, db_join_lines, db_keep_lf, has_flag}
use vfdd.Dbuf.Bounds.{IsValid, max_len}
use vfdd.Dbuf.Contents.{contents, Holds, clear-Holds}
use vfdd.Dbuf.Reads.{left}
use vfdd.Dbuf.Line.{end_line, line_end, get_line, ends, stays}
use vfdd.Dbuf.Lines.{
  Line, text_act, line_kind, scan, Shows, at_line, flag-bit, length-Holds, put-Holds, scan-go,
  scan-stop, line_loop-Ended,
}

abbrev pub no_line : Line
no_line = record { text = []; c = 0; lastc = 0 }

-- The bytes of the destination: with DB_KEEP_LF the last byte read follows the line.
unfoldable pub kept_text : Bool → Bool → Line → List ℕ
kept_text false true l = l.text ++ l.c ∷ []
kept_text _ _ l = l.text

-- `p == NULL && dest->len == 0`
abbrev pub nothing_read : Bool × Line × List ℕ → Bool
nothing_read (over, l, rest) = over && length l.text == 0

unfoldable pub line_text : ℕ → Bool × Line × List ℕ → List ℕ
line_text flags r = kept_text (nothing_read r) (has_flag flags db_keep_lf) r.1

-- `out` is the answer for what `scan` finds, `r`: NULL or a line, and the two buffers.
pub record Returned (flags : ℕ) (r : Bool × Line × List ℕ)
    (out : Option (Outcome (Bool × DBuf × DBuf))) : Type 0 where
  pub dest : DBuf
  pub src : DBuf
  pub returns : out ≡ some (done (not (nothing_read r), dest, src))
  pub holds : Holds (line_text flags r) 0 0 flags dest
  pub valid : IsValid src
  pub rest : left src ≡ r.2

end_line-Holds :
    (flags : ℕ) (none_read keep : Bool) (l : Line) (dest src : DBuf)
    → Shows flags l dest
    → length l.text < max_len
    → (d : DBuf) × (end_line none_read keep (at_line l dest src) ≡ done (not none_read, d, src))
      × Holds (kept_text none_read keep l) 0 0 flags d
unfolding end_line kept_text
end_line-Holds flags false true l dest src v h =
    let (e, out, g) = put-Holds l.text flags dest l.c v.holds h in (e, rw out, g)
end_line-Holds flags true keep l dest src v h = (dest, refl, v.holds)
end_line-Holds flags false false l dest src v h = (dest, refl, v.holds)

line_end-Holds :
    (flags : ℕ) (r : Bool × Line × List ℕ) (dest src : DBuf)
    → Shows flags r.1 dest
    → length r.1.text < max_len
    → (d : DBuf) × (line_end (r.0, at_line r.1 dest src) ≡ done (not (nothing_read r), d, src))
      × Holds (line_text flags r) 0 0 flags d
unfolding line_end line_text
line_end-Holds flags (over, l, rest) dest src v h =
    let (d, out, g) =
      end_line-Holds flags (over && length l.text == 0) (has_flag flags db_keep_lf) l dest src v
        h in
    (
      d,
      ap₂ (λ n k. end_line (over && n == 0) (has_flag k db_keep_lf) (at_line l dest src))
            (length-Holds v.holds) v.holds.same_flags
          ∙ out,
      g,
    )

pub get_line-Returned :
    (fuel : ℕ) (dest src : DBuf)
    → IsValid dest
    → IsValid src
    → length (left src) < fuel
    → length (left src) < max_len
    → Returned dest.flags (scan dest.flags no_line (left src)) (get_line none fuel dest src)
unfolding get_line
get_line-Returned fuel dest src v w h k =
    let (d, out, g) = clear-Holds dest v in
    let ended =
      line_loop-Ended fuel dest.flags no_line d src
        (record { holds = g; put = λ p. absurd (omega arith) }) w h (omega arith) in
    let (e, out', g') =
      line_end-Holds dest.flags (scan dest.flags no_line (left src)) ended.dest ended.src
        ended.shows ended.fits in
    record {
      dest = e;
      src = ended.src;
      returns = rw (out, ended.returns, out', get_line);
      holds = g';
      valid = ended.valid;
      rest = ended.rest;
    }

-- No byte of the text ends a line.
abbrev pub IsPlain : List ℕ → Type 0
IsPlain [] = Unit {0}
IsPlain (x ∷ xs) = (x ≢ b'\n') × (x ≢ 0) × IsPlain xs

-- The last byte of a text, or `c` before it.
abbrev pub last_or : ℕ → List ℕ → ℕ
last_or c [] = c
last_or c (x ∷ xs) = last_or x xs

-- Neither DB_JOIN_LINES nor DB_STRIP_CR is set.
abbrev pub IsRaw : ℕ → Type 0
IsRaw flags = (has_flag flags db_join_lines ≡ false) × (has_flag flags db_strip_cr ≡ false)

line_kind-stays :
    (flags c lastc : ℕ) → IsRaw flags → c ≢ b'\n' → c ≢ 0 → line_kind flags c lastc ≡ stays
unfolding line_kind
line_kind-stays flags c lastc raw h k =
    let (strips, joined) = flag-bit flags in ground (arith, strips, joined)

line_kind-ends :
    (flags c lastc : ℕ) → IsRaw flags → (c ≡ b'\n') ⊎ (c ≡ 0) → line_kind flags c lastc ≡ ends
unfolding line_kind
line_kind-ends flags c lastc raw h =
    let (strips, joined) = flag-bit flags in ground (arith, strips, joined)

scan-plain :
    (flags : ℕ) (l : Line) (xs ys : List ℕ)
    → IsRaw flags
    → IsPlain xs
    → scan flags l (xs ++ ys)
      ≡ scan flags
          (record { text = l.text ++ xs; c = last_or l.c xs; lastc = last_or l.lastc xs })
          ys
scan-plain flags l [] ys raw p =
    ap (λ t. scan flags (record l { text = t }) ys) (sym (append-nil l.text))
scan-plain flags l (x ∷ xs) ys raw (nl, nul, p) =
    scan-go flags l (record { text = l.text ++ x ∷ []; c = x; lastc = x }) x (xs ++ ys) act
    ∙ (scan-plain flags (record { text = l.text ++ x ∷ []; c = x; lastc = x }) xs ys raw p
        ∙ ap (λ t. scan flags (record { text = t; c = last_or x xs; lastc = last_or x xs }) ys)
            (append_assoc l.text (x ∷ []) xs))
  where
    act :
        text_act (line_kind flags x l.lastc) (record l { c = x })
        ≡ (true, record { text = l.text ++ x ∷ []; c = x; lastc = x })
    act = rw (line_kind-stays flags x l.lastc raw nl nul) (unfold text_act in refl)

scan-line :
    (flags : ℕ) (xs rest : List ℕ) (x : ℕ)
    → IsRaw flags
    → IsPlain xs
    → (x ≡ b'\n') ⊎ (x ≡ 0)
    → scan flags no_line (xs ++ x ∷ rest)
      ≡ (false, record { text = xs; c = x; lastc = last_or 0 xs }, rest)
scan-line flags xs rest x raw p e =
    scan-plain flags no_line xs (x ∷ rest) raw p
    ∙ scan-stop flags _ (record { text = xs; c = x; lastc = last_or 0 xs }) x rest
        (rw (line_kind-ends flags x (last_or 0 xs) raw e) (unfold text_act in refl))

scan-end :
    (flags : ℕ) (xs : List ℕ)
    → IsRaw flags
    → IsPlain xs
    → scan flags no_line xs
      ≡ (true, record { text = xs; c = last_or 0 xs; lastc = last_or 0 xs }, [])
unfolding scan
scan-end flags xs raw p =
    ap (scan flags no_line) (sym (append-nil xs)) ∙ scan-plain flags no_line xs [] raw p

kept_text-if :
    (keep : Bool) (l : Line)
    → kept_text false keep l ≡ (if keep then l.text ++ l.c ∷ [] else l.text)
unfolding kept_text
kept_text-if true l = refl
kept_text-if false l = refl

line_text-keeps :
    (flags : ℕ) (l : Line)
    → flags ≡ db_keep_lf
    → 0 < length l.text
    → line_text flags (true, l, []) ≡ l.text ++ l.c ∷ []
unfolding line_text has_flag kept_text
line_text-keeps flags l e n = rw (e, ==_ne (length l.text) 0 (omega arith))

-- Without DB_JOIN_LINES and DB_STRIP_CR, where the text left is a piece with no '\n' and no 0, then
-- one of these, then a rest: the line is that piece (with DB_KEEP_LF, the byte that ended it too), and
-- the rest is left in the source.
pub get_line_whole :
    (fuel : ℕ) (dest src : DBuf) (xs rest : List ℕ) (x : ℕ)
    → IsValid dest
    → IsValid src
    → left src ≡ xs ++ x ∷ rest
    → IsPlain xs
    → (x ≡ b'\n') ⊎ (x ≡ 0)
    → IsRaw dest.flags
    → length (left src) < fuel
    → length (left src) < max_len
    → (d s : DBuf) × (get_line none fuel dest src ≡ some (done (true, d, s)))
      × (contents d ≡ (if has_flag dest.flags db_keep_lf then xs ++ x ∷ [] else xs))
      × (left s ≡ rest)
unfolding line_text kept_text
get_line_whole fuel dest src xs rest x v w e p t raw h k =
    let found = ap (scan dest.flags no_line) e ∙ scan-line dest.flags xs rest x raw p t in
    let r =
      subst (λ r. Returned dest.flags r (get_line none fuel dest src)) found
        (get_line-Returned fuel dest src v w h k) in
    (
      r.dest,
      r.src,
      r.returns,
      r.holds.text_is ∙ kept_text-if (has_flag dest.flags db_keep_lf) _,
      r.rest,
    )

-- Where the text left has no '\n' and no 0, and the flag DB_KEEP_LF alone is set, the line is all of
-- that text and its last byte once more: there is no '\n' to keep.
pub get_line_repeats :
    (fuel : ℕ) (dest src : DBuf) (xs : List ℕ)
    → IsValid dest
    → IsValid src
    → left src ≡ xs
    → 0 < length xs
    → IsPlain xs
    → dest.flags ≡ db_keep_lf
    → length xs < fuel
    → length xs < max_len
    → (d s : DBuf) × (get_line none fuel dest src ≡ some (done (true, d, s)))
      × (contents d ≡ xs ++ last_or 0 xs ∷ [])
      × (left s ≡ [])
get_line_repeats fuel dest src xs v w e n p fl h k =
    let raw : IsRaw dest.flags = subst IsRaw (sym fl) (unfold has_flag in (refl, refl)) in
    let found = ap (scan dest.flags no_line) e ∙ scan-end dest.flags xs raw p in
    let r =
      subst (λ r. Returned dest.flags r (get_line none fuel dest src)) found
        (get_line-Returned fuel dest src v w (rw e h) (rw e k)) in
    (
      r.dest,
      r.src,
      r.returns ∙ ap (λ b. some (done (not b, r.dest, r.src))) (==_ne (length xs) 0 (omega arith)),
      r.holds.text_is ∙ line_text-keeps dest.flags _ fl n,
      r.rest,
    )
