-- ===== src/Dbuf/Lines.antt =====
-- dbuf.c: `dbuf_get_line` finds the lines of the text that is left.
use vfdd.Prelude.Bits.{bit, and_digits, and-one}
use vfdd.Prelude.Memory.{load-lt}
use vfdd.Prelude.{
  ℕ, zero, suc, ◌+◌, ◌/◌, ◌≤◌, ◌<◌, ◌≡◌, refl, sym, ap, subst, ◌∙◌, inl, inr, Bool, true, false,
  ◌&&◌, Option, none, some, List, [], ◌∷◌, ◌++◌, arith, ltb, ◌==◌, if◌then◌else◌, ltb→lt, ltb→le,
  Bool-cases, length, get_or, length-append, drop-length_le, front, front-snoc, length-front,
  Outcome, done,
}
use vfdd.Dbuf.{DBuf, has_flag, put_char}
use vfdd.Dbuf.Bounds.{IsValid, max_len}
use vfdd.Dbuf.Contents.{contents, Holds, length-contents, put_char-Holds}
use vfdd.Dbuf.Read.{refill}
use vfdd.Dbuf.Reads.{
  left, stepped, next_char-end, next_char-lt, stepped-IsValid, left-lt, unput_char-Holds,
}
use vfdd.Dbuf.Line.{
  LineState, drop_last, ByteKind, byte_kind, line_act, line_round, line_loop, joins, ends, skips,
  stays,
}

-- A line being read: its text, the last byte read and the last byte put.
pub record Line : Type 0 where
  pub text : List ℕ
  pub c : ℕ
  pub lastc : ℕ

-- Whether the line goes on behind the byte `l.c`, and the line with that byte.
unfoldable pub text_act : ByteKind → Line → Bool × Line
text_act joins l = (true, record { text = front l.text ++ b' ' ∷ []; c = b' '; lastc = b' ' })
text_act ends l = (false, l)
text_act skips l = (true, l)
text_act stays l = (true, record l { text = l.text ++ l.c ∷ []; lastc = l.c })

-- What a byte is to a line, by dbuf.h: '\n' and 0 end it, but with DB_JOIN_LINES a '\n' behind a '\\'
-- joins the next line to it; with DB_STRIP_CR a '\r' is skipped.
unfoldable pub line_kind : ℕ → ℕ → ℕ → ByteKind
line_kind flags c lastc =
    if c == 10
    then (if bit flags 1 && lastc == 92 then joins else ends)
    else if c == 0
    then ends
    else if c == 13
    then (if bit flags 0 then skips else stays)
    else stays

-- Whether the input ended before the line did, the line, and the input behind it.
unfoldable pub scan : ℕ → Line → List ℕ → Bool × Line × List ℕ
scan flags l [] = (true, l, [])
scan flags l (x ∷ xs) =
    let (more, l') = text_act (line_kind flags x l.lastc) (record l { c = x }) in
    elim more [ true ↦ scan flags l' xs | false ↦ (false, l', xs) ]

-- The destination holds the line; a backslash that was put last is still there.
pub record Shows (flags : ℕ) (l : Line) (d : DBuf) : Type 0 where
  pub holds : Holds l.text 0 0 flags d
  pub put : l.lastc ≡ b'\\' → 0 < length l.text

-- The state of the loop at a line.
abbrev pub at_line : Line → DBuf → DBuf → LineState
at_line l dest src = record { dest = dest; src = src; c = l.c; lastc = l.lastc }

pub flag-bit : (flags : ℕ) → (has_flag flags 1 ≡ bit flags 0) × (has_flag flags 2 ≡ bit flags 1)
unfolding has_flag bit
flag-bit flags =
    (ground (arith, and-one flags), ground (arith, and_digits flags 2, and-one (flags / 2)))

-- The tests of the loop are those of dbuf.h.
pub byte_kind-line_kind : (flags c lastc : ℕ) → byte_kind flags c lastc ≡ line_kind flags c lastc
unfolding byte_kind line_kind
byte_kind-line_kind flags c lastc =
    let (strips, joined) = flag-bit flags in ground (arith, strips, joined)

line_kind-joins : (flags c lastc : ℕ) → line_kind flags c lastc ≡ joins → lastc ≡ b'\\'
unfolding line_kind
line_kind-joins flags c lastc e = ground arith

-- Writing over a text of the destination keeps cursor, line and flags.
retext :
    {text t : List ℕ} {flags : ℕ} {d e : DBuf}
    → Holds text 0 0 flags d
    → Holds t d.pos d.lineno d.flags e
    → Holds t 0 0 flags e
retext h g = record {
  valid = g.valid;
  text_is = g.text_is;
  ended = g.ended;
  cursor = g.cursor ∙ h.cursor;
  line = g.line ∙ h.line;
  same_flags = g.same_flags ∙ h.same_flags;
}

pub length-Holds :
    {text : List ℕ} {p n flags : ℕ} {d : DBuf} → Holds text p n flags d → d.len ≡ length text
length-Holds {d} h = omega (arith, ap length h.text_is, length-contents d h.valid)

-- Appending one byte to what a buffer holds.
pub put-Holds :
    (text : List ℕ) (flags : ℕ) (d : DBuf) (c : ℕ)
    → Holds text 0 0 flags d
    → length text < max_len
    → (e : DBuf) × (put_char d c ≡ done e) × Holds (text ++ c ∷ []) 0 0 flags e
put-Holds text flags d c h k =
    let (e, out, g) = put_char-Holds d c h.valid (omega (arith, length-Holds h)) in
    (e, out, retext h (subst (λ t. Holds (t ++ c ∷ []) d.pos d.lineno d.flags e) h.text_is g))

drop_last-Holds :
    (text : List ℕ) (flags : ℕ) (d : DBuf)
    → Holds text 0 0 flags d
    → 0 < length text
    → (e : DBuf) × (drop_last d ≡ done e) × Holds (front text) 0 0 flags e
unfolding drop_last
drop_last-Holds text flags d h k =
    let (x, split) = front-snoc text k in
    let (e, out, g) =
      unput_char-Holds d (front text) x h.valid (h.text_is ∙ split) (omega (arith, h.cursor)) in
    (e, rw out, retext h g)

-- A round on the buffers is a round on the text.
pub act-Shows :
    (k : ByteKind) (flags : ℕ) (l : Line) (dest src : DBuf)
    → Shows flags l dest
    → (k ≡ joins → l.lastc ≡ b'\\')
    → length l.text < max_len
    → (d : DBuf) × (line_act k (at_line l dest src)
        ≡ done ((text_act k l).0, at_line (text_act k l).1 d src))
      × Shows flags (text_act k l).1 d
unfolding line_act text_act
act-Shows joins flags l dest src v j h =
    let some_text = v.put (j refl) in
    let (d, out, g) = drop_last-Holds l.text flags dest v.holds some_text in
    let (e, out', g') =
      put-Holds (front l.text) flags d b' ' g (omega (arith, length-front l.text some_text)) in
    (e, rw (out, out'), record { holds = g'; put = λ p. absurd (omega arith) })
act-Shows ends flags l dest src v j h = (dest, refl, v)
act-Shows skips flags l dest src v j h = (dest, refl, v)
act-Shows stays flags l dest src v j h =
    let (e, out, g) = put-Holds l.text flags dest l.c v.holds h in
    (e, rw out, record { holds = g; put = λ p. omega (arith, length-append l.text (l.c ∷ [])) })

pub round-Shows :
    (flags : ℕ) (l : Line) (dest src : DBuf)
    → Shows flags l dest
    → length l.text < max_len
    → (d : DBuf) × (line_round (at_line l dest src)
        ≡ done (
          (text_act (line_kind flags l.c l.lastc) l).0,
          at_line (text_act (line_kind flags l.c l.lastc) l).1 d src,
        ))
      × Shows flags (text_act (line_kind flags l.c l.lastc) l).1 d
unfolding line_round
round-Shows flags l dest src v h =
    let (d, out, g) =
      act-Shows (line_kind flags l.c l.lastc) flags l dest src v (line_kind-joins flags l.c l.lastc)
        h in
    (
      d,
      ap (λ n. line_act (byte_kind n l.c l.lastc) (at_line l dest src)) v.holds.same_flags
          ∙ (ap (λ k. line_act k (at_line l dest src)) (byte_kind-line_kind flags l.c l.lastc)
              ∙ out),
      g,
    )

-- The line grows by at most a byte in a round.
length-text_act :
    (k : ByteKind) (l : Line)
    → (k ≡ joins → 0 < length l.text)
    → length (text_act k l).1.text ≤ length l.text + 1
unfolding text_act
length-text_act joins l p =
    omega (arith, length-front l.text (p refl), length-append (front l.text) (b' ' ∷ []))
length-text_act ends l p = omega arith
length-text_act skips l p = omega arith
length-text_act stays l p = omega (arith, length-append l.text (l.c ∷ []))

-- The loop has ended with what `scan` gives: `r`.
pub record Ended (flags : ℕ) (r : Bool × Line × List ℕ) (out : Option (Outcome (Bool × LineState)))
    : Type 0 where
  pub dest : DBuf
  pub src : DBuf
  pub returns : out ≡ some (done (r.0, at_line r.1 dest src))
  pub shows : Shows flags r.1 dest
  pub fits : length r.1.text < max_len
  pub valid : IsValid src
  pub rest : left src ≡ r.2

Ended-nil :
    (flags f : ℕ) (l : Line) (dest src : DBuf)
    → Shows flags l dest
    → IsValid src
    → src.len ≤ src.pos
    → length l.text < max_len
    → Ended flags (scan flags l []) (line_loop none (suc f) (at_line l dest src))
unfolding line_loop scan refill
Ended-nil flags f l dest src v w h k = record {
  dest = dest;
  src = src;
  returns = rw (next_char-end none src h, line_loop);
  shows = v;
  fits = k;
  valid = w;
  rest = drop-length_le src.pos (contents src) (omega (arith, length-contents src w));
}

-- The first round of the loop where there is a byte.
module _ (f : ℕ) (l : Line) (dest src : DBuf) (w : IsValid src) (h : src.pos < src.len)
    (st : LineState) where
  abbrev first : LineState
  first = at_line (record l { c = get_or src.s src.pos 0 }) dest (stepped src)

  line_loop-go :
      line_round first ≡ done (true, st)
      → line_loop none (suc f) (at_line l dest src) ≡ line_loop none f st
  unfolding line_loop
  line_loop-go out = rw (
    next_char-lt none src h (omega (arith, w.block, w.room)),
    load-lt src.s src.pos (omega (arith, w.block, w.room)),
    out,
    line_loop,
  )

  line_loop-stop :
      line_round first ≡ done (false, st)
      → line_loop none (suc f) (at_line l dest src) ≡ some (done (false, st))
  unfolding line_loop
  line_loop-stop out = rw (
    next_char-lt none src h (omega (arith, w.block, w.room)),
    load-lt src.s src.pos (omega (arith, w.block, w.room)),
    out,
    line_loop,
  )

pub scan-go :
    (flags : ℕ) (l l' : Line) (x : ℕ) (xs : List ℕ)
    → text_act (line_kind flags x l.lastc) (record l { c = x }) ≡ (true, l')
    → scan flags l (x ∷ xs) ≡ scan flags l' xs
unfolding scan
scan-go flags l l' x xs e = rw (e, scan) (ap (λ r. scan flags r.1 xs) e)

pub scan-stop :
    (flags : ℕ) (l l' : Line) (x : ℕ) (xs : List ℕ)
    → text_act (line_kind flags x l.lastc) (record l { c = x }) ≡ (false, l')
    → scan flags l (x ∷ xs) ≡ (false, l', xs)
unfolding scan
scan-stop flags l l' x xs e = rw (e, scan) (ap {B = Bool × Line × List ℕ} (λ r. (false, r.1, xs)) e)

-- A round, and the loop behind it.
Ended-cons :
    (f flags : ℕ) (l : Line) (dest src d : DBuf) (w : IsValid src) (h : src.pos < src.len)
    (r : Bool × Line)
    → text_act
        (line_kind flags (get_or src.s src.pos 0) l.lastc)
        (record l { c = get_or src.s src.pos 0 })
      ≡ r
    → line_round (first f l dest src w h (at_line l d src))
      ≡ done (r.0, at_line r.1 d (stepped src))
    → Shows flags r.1 d
    → length r.1.text < max_len
    → Ended flags
        (scan flags r.1 (left (stepped src)))
        (line_loop none f (at_line r.1 d (stepped src)))
    → Ended flags
        (scan flags l (get_or src.s src.pos 0 ∷ left (stepped src)))
        (line_loop none (suc f) (at_line l dest src))
Ended-cons f flags l dest src d w h (true, l') e out v k ih =
    rw
      (
        scan-go flags l l' (get_or src.s src.pos 0) (left (stepped src)) e,
        line_loop-go f l dest src w h (at_line l' d (stepped src)) out,
      )
      ih
Ended-cons f flags l dest src d w h (false, l') e out v k ih =
    rw
      (
        scan-stop flags l l' (get_or src.s src.pos 0) (left (stepped src)) e,
        line_loop-stop f l dest src w h (at_line l' d (stepped src)) out,
      )
      (record {
        dest = d;
        src = stepped src;
        returns = refl;
        shows = v;
        fits = k;
        valid = stepped-IsValid src w h;
        rest = refl;
      })

-- With no `fill_func` and more fuel than bytes, the loop reads the line that `scan` finds.
pub line_loop-Ended :
    (f flags : ℕ) (l : Line) (dest src : DBuf)
    → Shows flags l dest
    → IsValid src
    → length (left src) < f
    → length l.text + length (left src) < max_len
    → Ended flags (scan flags l (left src)) (line_loop none f (at_line l dest src))
line_loop-Ended zero flags l dest src v w h k = absurd (omega arith)
line_loop-Ended (suc f) flags l dest src v w h k = elim (Bool-cases (ltb src.pos src.len)) [
  | inr over ↦
      let at_end = ltb→le _ _ over in
      subst
        (λ input. Ended flags (scan flags l input) (line_loop none (suc f) (at_line l dest src)))
        (sym (drop-length_le src.pos (contents src) (omega (arith, length-contents src w))))
        (Ended-nil flags f l dest src v w at_end (omega arith))
  | inl more ↦
      let inside = ltb→lt _ _ more in
      let l1 : Line = record l { c = get_or src.s src.pos 0 } in
      let split = left-lt src w inside in
      let count : length (left src) ≡ suc (length (left (stepped src))) = ap length split in
      let (d, out, v') =
        round-Shows flags l1 dest (stepped src) (record { holds = v.holds; put = v.put })
          (omega arith) in
      let grows =
        length-text_act (line_kind flags l1.c l.lastc) l1
          (λ j. v.put (line_kind-joins flags l1.c l.lastc j)) in
      let r = text_act (line_kind flags l1.c l.lastc) l1 in
      subst
        (λ input. Ended flags (scan flags l input) (line_loop none (suc f) (at_line l dest src)))
        (sym split)
        (Ended-cons f flags l dest src d w inside r refl out v' (omega arith) (
          line_loop-Ended f flags r.1 d (stepped src) v' (stepped-IsValid src w inside)
            (omega arith) (omega arith)))
]
