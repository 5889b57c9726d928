-- ===== src/Json/RoundTrips.antt =====
-- jsonroot.c: all of `json_root_parse_string`, on what is printed and on a text that ends early.
use vfdd.Dbuf.Reads.{stepped}
use vfdd.Prelude.Memory.{load}
use vfdd.Prelude.{
  ℕ, zero, suc, ◌+◌, ◌≤◌, ◌<◌, ◌≡◌, refl, sym, ap, subst, ◌∙◌, ◌≢◌, Option, none, some, List, [],
  ◌∷◌, ◌++◌, append-nil, append_assoc, arith, ==_ne, length, get_or, take, Outcome, ◌>>=◌, done,
  fault,
}
use vfdd.Strmem.{app_strlen}
use vfdd.Dbuf.{DBuf}
use vfdd.Dbuf.Bounds.{IsValid, max_len}
use vfdd.Dbuf.Contents.{contents, Holds, length-contents, clear-Holds}
use vfdd.Json.{Root}
use vfdd.Json.Strings.{Ending, string_loop, string_end, parse_string}
use vfdd.Json.Escapes.{escape_of, escaped, grown_len}
use vfdd.Json.Reading.{IsAt, next_byte-left, next_byte-end}
use vfdd.Json.RoundTrip.{IsStep, string_loop-round}

-- No byte is 0.
abbrev pub IsText : List ℕ → Type 0
IsText [] = Unit {0}
IsText (c ∷ cs) = (c ≢ 0) × IsText cs

pub held-then :
    (e f : DBuf) (base cs : List ℕ) (pos lineno flags : ℕ)
    → Holds base pos lineno flags e
    → Holds (contents e ++ cs) e.pos e.lineno e.flags f
    → Holds (base ++ cs) pos lineno flags f
held-then e f base cs pos lineno flags a b = record {
  valid = b.valid;
  text_is = b.text_is ∙ ap (λ t. t ++ cs) a.text_is;
  ended = b.ended;
  cursor = b.cursor ∙ a.cursor;
  line = b.line ∙ a.line;
  same_flags = b.same_flags ∙ a.same_flags;
}

-- The rounds that read `cs`.
string_loop-escaped :
    (r : Root) (cs more : List ℕ) (f : ℕ)
    → IsText cs
    → IsAt r.src (escaped cs ++ more)
    → IsValid r.dbuf
    → get_or r.dbuf.s r.dbuf.len 1 ≡ 0
    → r.dbuf.len + length cs ≤ max_len
    → length cs < f
    → (src : DBuf) × (dbuf : DBuf) × (g : ℕ) × (string_loop none f r
        ≡ string_loop none (suc g) (record r { src = src; dbuf = dbuf }))
      × IsStep r cs more src dbuf
unfolding escaped
string_loop-escaped r cs more zero t at v z room enough = absurd (omega arith)
string_loop-escaped r [] more (suc f) t at v z room enough = (
  r.src,
  r.dbuf,
  f,
  refl,
  record {
    at = at;
    held = record {
      valid = v;
      text_is = sym (append-nil (contents r.dbuf));
      ended = z;
      cursor = refl;
      line = refl;
      same_flags = refl;
    };
  },
)
string_loop-escaped r (c ∷ cs) more (suc f) t at v z room enough =
    let (s₁, d₁, first_round, step) =
      string_loop-round r c f (escaped cs ++ more) t.0
        (at.0, at.1 ∙ append_assoc (escape_of c) (escaped cs) more) v (omega arith) in
    let l = grown_len r.dbuf d₁ (c ∷ []) v step.held in
    let (s₂, d₂, g, rounds, rest) =
      string_loop-escaped (record r { src = s₁; dbuf = d₁ }) cs more f t.1 step.at step.held.valid
        step.held.ended (omega arith) (omega arith) in
    (
      s₂,
      d₂,
      g,
      first_round ∙ rounds,
      record {
        at = rest.at;
        held =
            subst (λ t. Holds t r.dbuf.pos r.dbuf.lineno r.dbuf.flags d₂)
              (append_assoc (contents r.dbuf) (c ∷ []) cs)
              (held-then d₁ d₂ _ cs _ _ _ step.held rest.held);
      },
    )

app_strlen-held : (n : ℕ) (s : List ℕ) → IsText (take n s) → get_or s n 1 ≡ 0 → app_strlen s ≡ n
unfolding app_strlen
app_strlen-held zero [] t e = refl
app_strlen-held zero (x ∷ xs) t e = rw e refl
app_strlen-held (suc n) [] t e = absurd (omega arith)
app_strlen-held (suc n) (x ∷ xs) t e = rw (==_ne x 0 t.0) (ap suc (app_strlen-held n xs t.1 e))

abbrev ended : Option (Outcome (Ending × Root)) → Option (Outcome (Option (List ℕ × ℕ) × Root))
ended o = elim o as (λ _. Option (Outcome (Option (List ℕ × ℕ) × Root))) [
  | none ↦ none
  | some out ↦ some (out >>= string_end)
]

-- What `json_root_parse_string` of a text does: it clears its buffer, and reads the bytes.
module _ (r : Root) (cs more : List ℕ) (f : ℕ) (t : IsText cs)
    (quote : load r.src.s r.curptr ≡ done b'"') (at : IsAt r.src (escaped cs ++ more))
    (v : IsValid r.dbuf) (room : length cs ≤ max_len) (enough : length cs < f) where
  after_rounds :
      (src : DBuf) × (dbuf : DBuf) × (g : ℕ) × (parse_string none f r
        ≡ ended (string_loop none (suc g) (record r { src = src; dbuf = dbuf })))
      × IsAt src more
      × Holds cs 0 0 r.dbuf.flags dbuf
  unfolding parse_string
  after_rounds =
      let (d, out, held) = clear-Holds r.dbuf v in
      let (src, dbuf, g, rounds, step) =
        string_loop-escaped (record r { dbuf = d }) cs more f t at held.valid held.ended
          (omega (arith, length-contents d held.valid, ap length held.text_is)) enough in
      (
        src,
        dbuf,
        g,
        simp (quote, out) (ap ended rounds),
        step.at,
        held-then d dbuf [] cs _ _ _ held step.held,
      )

pub held-app_strlen :
    (d : DBuf) (cs : List ℕ) (pos lineno flags : ℕ)
    → IsText cs
    → Holds cs pos lineno flags d
    → take (app_strlen d.s) d.s ≡ cs
held-app_strlen d cs pos lineno flags t h =
    ap (λ n. take n d.s) (app_strlen-held d.len d.s (subst IsText (sym h.text_is) t) h.ended)
    ∙ h.text_is

-- What follows a quote, up to the next one that no backslash stands before.
pub parse_string-read :
    (r : Root) (cs more : List ℕ) (f : ℕ)
    → IsText cs
    → load r.src.s r.curptr ≡ done b'"'
    → IsAt r.src (escaped cs ++ b'"' ∷ more)
    → IsValid r.dbuf
    → length cs ≤ max_len
    → length cs < f
    → (src : DBuf) × (dbuf : DBuf) × (parse_string none f r
        ≡ some (done (some (cs, src.pos), record r { src = src; dbuf = dbuf })))
      × IsAt src more
      × IsValid dbuf
unfolding string_loop string_end
parse_string-read r cs more f t quote at v room enough =
    let (src, dbuf, g, rounds, next, held) =
      after_rounds r cs (b'"' ∷ more) f t quote at v room enough in
    let (out, last) = next_byte-left src b'"' more next in
    (
      stepped src,
      dbuf,
      rounds ∙ simp (out, held-app_strlen dbuf cs _ _ _ t held) refl,
      last,
      held.valid,
    )

-- `json_root_parse_string` at a quote, with the text of `cs` as JSON writes it and a quote before the
-- cursor's end, gives `cs` to the item and returns the pointer behind the second quote, where the cursor
-- is then; nothing of the root changes but its two buffers. No byte of `cs` is 0.
pub parse_string-escaped :
    (r : Root) (cs more : List ℕ) (f : ℕ)
    → IsText cs
    → load r.src.s r.curptr ≡ done b'"'
    → IsAt r.src (escaped cs ++ b'"' ∷ more)
    → IsValid r.dbuf
    → length cs ≤ max_len
    → length cs < f
    → (src : DBuf) × (dbuf : DBuf) × (parse_string none f r
        ≡ some (done (some (cs, src.pos), record r { src = src; dbuf = dbuf })))
      × IsAt src more
parse_string-escaped r cs more f t quote at v room enough =
    let (src, dbuf, out, next, valid) = parse_string-read r cs more f t quote at v room enough in
    (src, dbuf, out, next)

-- A string whose second quote is missing, at the end of a source that is not filled again:
-- `json_root_parse_string` reads through the NULL that `dbuf_next_char` returned.
pub parse_string-unterminated :
    (r : Root) (cs : List ℕ) (f : ℕ)
    → IsText cs
    → load r.src.s r.curptr ≡ done b'"'
    → IsAt r.src (escaped cs)
    → IsValid r.dbuf
    → length cs ≤ max_len
    → length cs < f
    → parse_string none f r ≡ some fault
unfolding string_loop string_end
parse_string-unterminated r cs f t quote at v room enough =
    let (src, dbuf, g, rounds, next, held) =
      after_rounds r cs [] f t quote (at.0, at.1 ∙ sym (append-nil (escaped cs))) v room enough in
    rounds ∙ simp (next_byte-end src next) refl
