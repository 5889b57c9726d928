-- ===== src/Json/Number.antt =====
-- jsonroot.c: white space, and reading a number. `isspace` and `strtod` are libc's: `strtod` gives a
-- double, and whether `errno` is set.
use vfdd.Prelude.Memory.{load}
use vfdd.Prelude.{
  ℕ, zero, suc, ◌+◌, ◌≤◌, ◌<◌, ◌≡◌, refl, ap, Bool, true, ◌&&◌, ◌||◌, Option, none, some, List, [],
  ◌∷◌, arith, leb, ◌==◌, if◌then◌else◌, length, take, length-append, Outcome, ◌>>=◌, ◌>>?◌, done,
}
use vfdd.Strmem.{app_strlen}
use vfdd.Dbuf.{DBuf, clear, put_char}
use vfdd.Dbuf.Bounds.{IsValid, max_len}
use vfdd.Dbuf.Contents.{contents, length-contents, put_char-Holds, clear-Holds}
use vfdd.Dbuf.Read.{Fill, Undo, unget_char, undone, below_start}
use vfdd.Dbuf.Reads.{stepped}
use vfdd.Json.{Root, next_byte}
use vfdd.Json.Reading.{IsAt, next_byte-left, next_byte-end}

-- `json_root_skip_ws`, with fuel: the pointer to the first byte that is no space, or NULL.
unfoldable pub skip_ws : (ℕ → Bool) → Fill → ℕ → Root → Option (Outcome (Option (ℕ × ℕ) × Root))
skip_ws isspace fill zero r = none
skip_ws isspace fill (suc f) r = next_byte fill r.src >>? λ (p, src).
    let r' = record r { src = src } in
    elim p [
      | none ↦ some (done (none, r'))
      | some (i, c) ↦
          if c == 0
          then some (done (none, r'))
          else if isspace c
          then skip_ws isspace fill f r'
          else some (done (some (i, c), record r' { curptr = i }))
    ]

-- The bytes of a number
unfoldable pub is_number : ℕ → Bool
is_number c =
    c == b'-'
    || ((leb b'0' c && leb c b'9') || (c == b'.' || (c == b'+' || (c == b'e' || c == b'E'))))

abbrev pub ungot : Undo → DBuf → DBuf
ungot (undone c e) d = e
ungot below_start d = d

-- The loop of `json_root_parse_number` at `p`, with fuel: the pointer to the byte behind the number,
-- which is taken back, or NULL.
unfoldable pub number_loop : Fill → ℕ → Root → ℕ → ℕ → Option (Outcome (Option ℕ × Root))
number_loop fill zero r i c = none
number_loop fill (suc f) r i c =
    if is_number c
    then (put_char r.dbuf c >>? λ d. next_byte fill r.src >>? λ (p, src).
        let r' = record r { src = src; dbuf = d } in
        elim p [ none ↦ some (done (none, r')) | some (j, e) ↦ number_loop fill f r' j e ])
    else (unget_char r.src >>? λ u. some (done (some i, record r { src = ungot u r.src })))

-- What `json_root_parse_number` comes to: a number and the pointer behind it, NULL at the end of the
-- text, or NULL because of `errno`; `errptr` then points into the buffer, which is not kept here. The
-- other test compares a pointer into the source with one into the buffer, and never holds.
pub data Number (D : Type 0) : Type 0 where
  number : D → ℕ → Number D
  at_text_end : Number D
  refused : Number D

module _ {D : Type 0} (strtod : List ℕ → D × Bool) where
  unfoldable pub number_end : Option ℕ × Root → Outcome (Number D × Root)
  number_end (none, r) = done (at_text_end, r)
  number_end (some i, r) =
      let n = strtod (take (app_strlen r.dbuf.s) r.dbuf.s) in
      if n.1 then done (refused, r) else done (number n.0 i, r)

  -- `json_root_parse_number`, without the item
  unfoldable pub parse_number : Fill → ℕ → Root → Option (Outcome (Number D × Root))
  parse_number fill f r = load r.src.s r.curptr >>? λ c. clear r.dbuf >>? λ d.
      elim (number_loop fill f (record r { dbuf = d }) r.curptr c) [
        | none ↦ none
        | some out ↦ some (out >>= number_end)
      ]

abbrev pub AllNumber : List ℕ → Type 0
AllNumber [] = Unit {0}
AllNumber (c ∷ cs) = (is_number c ≡ true) × AllNumber cs

number_loop-end :
    (r : Root) (i c : ℕ) (cs : List ℕ) (f : ℕ)
    → is_number c ≡ true
    → AllNumber cs
    → IsAt r.src cs
    → IsValid r.dbuf
    → r.dbuf.len + (length cs + 1) ≤ max_len
    → length cs < f
    → (w : Root) × (number_loop none f r i c ≡ some (done (none, w)))
unfolding number_loop
number_loop-end r i c cs zero d ds at v room enough = absurd (omega arith)
number_loop-end r i c [] (suc f) d ds at v room enough =
    let (e, put, held) = put_char-Holds r.dbuf c v (omega arith) in
    (record r { dbuf = e }, simp (d, put, next_byte-end r.src at) refl)
number_loop-end r i c (x ∷ xs) (suc f) d ds at v room enough =
    let (e, put, held) = put_char-Holds r.dbuf c v (omega arith) in
    let l = length-contents e held.valid in
    let (out, next) = next_byte-left r.src x xs at in
    let (w, rest) =
      number_loop-end (record r { src = stepped r.src; dbuf = e }) r.src.pos x xs f ds.0 ds.1 next
        held.valid
        (omega (
          arith,
          l,
          ap length held.text_is,
          length-append (contents r.dbuf) (c ∷ []),
          length-contents r.dbuf v,
        ))
        (omega arith) in
    (w, simp (d, put, out) rest)

-- `json_root_parse_number` of a number that nothing follows, at the end of a source that is not filled
-- again: it returns, but gives NULL and no number.
pub parse_number-at_text_end :
    {D : Type 0} (strtod : List ℕ → D × Bool) (r : Root) (c : ℕ) (cs : List ℕ) (f : ℕ)
    → load r.src.s r.curptr ≡ done c
    → is_number c ≡ true
    → AllNumber cs
    → IsAt r.src cs
    → IsValid r.dbuf
    → length cs + 1 ≤ max_len
    → length cs < f
    → (w : Root) × (parse_number strtod none f r ≡ some (done (at_text_end, w)))
unfolding parse_number number_end
parse_number-at_text_end strtod r c cs f here d ds at v room enough =
    let (e, cleared, held) = clear-Holds r.dbuf v in
    let (w, out) =
      number_loop-end (record r { dbuf = e }) r.curptr c cs f d ds at held.valid
        (omega (arith, length-contents e held.valid, ap length held.text_is)) enough in
    (
      w,
      simp (here, cleared)
          (ap
            (λ o. elim o as (λ _. Option (Outcome (Number _ × Root))) [
              | none ↦ none
              | some t ↦ some (t >>= number_end strtod)
            ])
            out),
    )
