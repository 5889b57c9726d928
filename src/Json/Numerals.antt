-- ===== src/Json/Numerals.antt =====
-- jsonroot.c: `json_root_parse_value` of a number that a byte of another kind follows.
use vfdd.Json.Values.{IsRead, IsReady-valued, changed}
use vfdd.Json.Place.{Frame, plug, address}
use vfdd.Json.Parse.{Parser, read_number, read_kind, parse_value}
use vfdd.Json.Items.{set_val_number}
use vfdd.Prelude.{
  ℕ, zero, suc, ◌+◌, ◌≤◌, ◌<◌, ◌≡◌, refl, sym, ap, subst, ◌∙◌, ◌≢◌, Bool, true, false, ◌&&◌, ◌||◌,
  Option, none, some, List, [], ◌∷◌, ◌++◌, append_assoc, arith, leb, ◌==◌, if◌then◌else◌, ==_ne,
  length, take, length-append, Outcome, ◌>>=◌, done,
}
use vfdd.Prelude.Memory.{load}
use mathlib.Core.Bool.{false≢true}
use vfdd.Dbuf.{DBuf}
use vfdd.Dbuf.Bounds.{IsValid, max_len}
use vfdd.Dbuf.Contents.{contents, Holds, length-contents, put_char-Holds, clear-Holds}
use vfdd.Dbuf.Reads.{stepped}
use vfdd.Strmem.{app_strlen}
use vfdd.Json.{Root}
use vfdd.Json.Reading.{IsAt, next_byte-left, load-left}
use vfdd.Json.RoundTrips.{IsText, held-then, held-app_strlen}
use vfdd.Json.Number.{
  is_number, number_loop, Number, number_end, parse_number, AllNumber, number, refused,
}
use vfdd.Json.Tree.{Node, put, key_of, json_undef, json_number, zeroed, value, node, nil}
use vfdd.Json.Docs.{Numeral}
use vfdd.Json.Steps.{behind, KnowsSigns, skip-sign, is_word-other, unget-stepped, IsReady}

-- The loop takes the digits, and gives back the byte behind them.
number_loop-read :
    (r : Root) (i c e : ℕ) (cs more : List ℕ) (f : ℕ)
    → is_number c ≡ true
    → AllNumber cs
    → is_number e ≡ false
    → IsAt r.src (cs ++ e ∷ more)
    → IsValid r.dbuf
    → r.dbuf.len + (length cs + 1) ≤ max_len
    → length cs + 1 < f
    → (j : ℕ) × (src : DBuf) × (dbuf : DBuf) × (number_loop none f r i c
        ≡ some (done (some j, record r { src = src; dbuf = dbuf })))
      × IsAt src (e ∷ more)
      × Holds (contents r.dbuf ++ c ∷ cs) r.dbuf.pos r.dbuf.lineno r.dbuf.flags dbuf
unfolding number_loop
number_loop-read r i c e cs more zero d ds n at v room enough = absurd (omega arith)
number_loop-read r i c e cs more (suc zero) d ds n at v room enough = absurd (omega arith)
number_loop-read r i c e [] more (suc (suc f)) d ds n at v room enough =
    let (dbuf, put, held) = put_char-Holds r.dbuf c v (omega arith) in
    let (out, next) = next_byte-left r.src e more at in
    let (u, back, there) = unget-stepped r.src e more at in
    (r.src.pos, u, dbuf, simp (d, put, out, n, back) refl, there, held)
number_loop-read r i c e (x ∷ xs) more (suc (suc f)) d ds n at v room enough =
    let (dbuf, put, held) = put_char-Holds r.dbuf c v (omega arith) in
    let (out, next) = next_byte-left r.src x (xs ++ e ∷ more) at in
    let l = length-contents dbuf held.valid in
    let (j, src, dbuf', rest, last, held') =
      number_loop-read (record r { src = stepped r.src; dbuf = dbuf }) r.src.pos x e xs more (suc f)
        ds.0 ds.1 n next held.valid
        (omega (
          arith,
          l,
          ap length held.text_is,
          length-append (contents r.dbuf) (c ∷ []),
          length-contents r.dbuf v,
        ))
        (omega arith) in
    (
      j,
      src,
      dbuf',
      simp (d, put, out) rest,
      last,
      subst (λ t. Holds t r.dbuf.pos r.dbuf.lineno r.dbuf.flags dbuf')
          (append_assoc (contents r.dbuf) (c ∷ []) (x ∷ xs))
          (held-then dbuf dbuf' (contents r.dbuf ++ c ∷ []) (x ∷ xs) _ _ _ held held'),
    )

AllNumber-IsText : (cs : List ℕ) → AllNumber cs → IsText cs
unfolding is_number
AllNumber-IsText [] h = tt
AllNumber-IsText (c ∷ cs) (p, h) =
    (λ e. false≢true (sym (ap is_number e) ∙ p), AllNumber-IsText cs h)

-- What starts a number is in it.
pub starts-number :
    (c : ℕ)
    → (c == b'-' || (leb b'0' c && leb c b'9')) ≡ true
    → (is_number c ≡ true)
      × (32 < c)
      × (c < 127)
      × (c ≢ b'n')
      × (c ≢ b'f')
      × (c ≢ b't')
      × (c ≢ b'"')
unfolding is_number
starts-number c h = ground arith

pub starts-other : (c : ℕ) → (c == b'-' || (leb b'0' c && leb c b'9')) ≡ true → c ≢ b']'
starts-other c h = ground arith

module _ {D : Type 0} (one : D) (strtod : List ℕ → D × Bool) (number_text : D → List ℕ)
    (decimal : ℕ → List ℕ) (isspace : ℕ → Bool) (knows : KnowsSigns isspace) where
  parse_number-read :
      (r : Root) (d : D) (n : Numeral strtod number_text d) (e : ℕ) (more : List ℕ) (f : ℕ)
      → load r.src.s r.curptr ≡ done n.first
      → IsAt r.src (n.others ++ e ∷ more)
      → is_number e ≡ false
      → IsValid r.dbuf
      → length n.others + 1 < f
      → (j : ℕ) × (src : DBuf) × (dbuf : DBuf) × (parse_number strtod none f r
          ≡ some (done (number d j, record r { src = src; dbuf = dbuf })))
        × IsAt src (e ∷ more)
        × IsValid dbuf
  unfolding parse_number number_end
  parse_number-read r d n e more f here at stop v enough =
      let first = (starts-number n.first n.starts).0 in
      let (fresh, cleared, held) = clear-Holds r.dbuf v in
      let (j, src, dbuf, loop, last, full) =
        number_loop-read (record r { dbuf = fresh }) r.curptr n.first e n.others more f first
          n.digits stop at held.valid
          (omega (arith, length-contents fresh held.valid, ap length held.text_is, n.fits))
          enough in
      let digits = AllNumber-IsText (n.first ∷ n.others) (first, n.digits) in
      let text = held-app_strlen dbuf (n.first ∷ n.others) _ _ _ digits (
        subst (λ t. Holds (t ++ n.first ∷ n.others) fresh.pos fresh.lineno fresh.flags dbuf)
          held.text_is full) in
      (
        j,
        src,
        dbuf,
        simp (here, cleared)
            (ap
                (λ o. elim o as (λ _. Option (Outcome (Number D × Root))) [
                  | none ↦ none
                  | some t ↦ some (t >>= number_end strtod)
                ])
                loop
              ∙ ap some (ended (record r { src = src; dbuf = dbuf }) j text)),
        last,
        full.valid,
      )
    where
      ended :
          (w : Root) (j : ℕ)
          → take (app_strlen w.dbuf.s) w.dbuf.s ≡ n.first ∷ n.others
          → number_end strtod (some j, w) ≡ done (number d j, w)
      ended w j t =
          ap (λ u. if (strtod u).1 then done (refused, w) else done (number (strtod u).0 j, w)) t
          ∙ ap (λ (p : D × Bool). if p.1 then done (refused, w) else done (number p.0 j, w)) n.back

  pub number-IsRead :
      (fs : List (Frame D)) (names : List (List ℕ)) (key : Option (List ℕ)) (d : D)
      (n : Numeral strtod number_text d) (e : ℕ) (more : List ℕ) (s : Parser D) (f : ℕ)
      → IsReady fs names (node json_undef key zeroed nil) (number_text d ++ e ∷ more) s
      → is_number e ≡ false
      → length n.others + 1 < f
      → IsRead fs names
          (node json_number key (value d) nil)
          (e ∷ more)
          (parse_value one strtod decimal isspace none (suc f) (address fs) s)
  unfolding parse_value read_kind read_number
  number-IsRead fs names key d n e more s f r stop enough =
      let (c, low, high, not_n, not_f, not_t, not_q) = (starts-number n.first n.starts) in
      let at : IsAt s.root.src (n.first ∷ n.others ++ e ∷ more) =
        (r.at.0, r.at.1 ∙ ap (λ t. t ++ e ∷ more) n.text) in
      let (out, next) = skip-sign isspace s n.first _ f knows low high (omega arith) at in
      let b = (behind s).root in
      let (j, src, dbuf, found, last, valid) =
        parse_number-read b d n e more f (load-left s.root.src n.first _ at) next stop r.buffer
          enough in
      let y : Node D = node json_number key (value d) nil in
      simp
        (
          out,
          is_word-other n.first b'n' (b'u' ∷ b'l' ∷ b'l' ∷ []) _ s.root.src at not_n,
          is_word-other n.first b'f' (b'a' ∷ b'l' ∷ b's' ∷ b'e' ∷ []) _ s.root.src at not_f,
          is_word-other n.first b't' (b'r' ∷ b'u' ∷ b'e' ∷ []) _ s.root.src at not_t,
          ==_ne n.first b'"' not_q,
          n.starts,
          found,
          changed one strtod number_text decimal isspace knows fs names key _ s
              (λ x. done (set_val_number d x)) y r (unfold set_val_number in refl),
        )
        (record {
          pointer = j;
          parser = record { root = record b { src = src; dbuf = dbuf }; tree = plug fs y };
          returns = refl;
          ready =
              IsReady-valued fs names key _ (e ∷ more) y s (record b { src = src; dbuf = dbuf }) r
                (unfold key_of in refl) last valid refl;
        })
