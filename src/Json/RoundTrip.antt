-- ===== src/Json/RoundTrip.antt =====
-- jsonroot.c: `json_root_parse_string` reads what `json_root_print_str` writes.
use vfdd.Prelude.{
  ℕ, suc, ◌+◌, ◌≤◌, ◌<◌, ◌≡◌, refl, ◌≢◌, Bool, true, false, Option, none, some, List, [], ◌∷◌, ◌++◌,
  arith, if◌then◌else◌, lt→leb, ==_ne, done,
}
use vfdd.Strmem.{app_strlen}
use vfdd.Dbuf.{DBuf, strcat}
use vfdd.Dbuf.Bounds.{IsValid, max_len}
use vfdd.Dbuf.Contents.{contents, Holds, put_char-Holds}
use vfdd.Dbuf.Reads.{stepped}
use vfdd.Json.{Root, next_byte}
use vfdd.Json.Strings.{get_hex, check_utf, escape_round, string_loop}
use vfdd.Json.Print.{hex4, letter_of, is_plain}
use vfdd.Json.Escapes.{letters, escape_of, IsGrown, strncat_whole}
use vfdd.Json.Reading.{
  IsAt, next_byte-left, hex_loop-value, letter_of-unescaped, plain-other, letter_of-none, hex4-back,
}

check_utf-hex :
    (c : ℕ) (src : DBuf) (rest : List ℕ)
    → c < 32
    → c ≢ 0
    → IsAt src (hex4 c ++ rest)
    → (e : DBuf) × (check_utf none src ≡ done (some c, e)) × IsAt e rest
unfolding check_utf get_hex hex4
check_utf-hex c src rest h nz at =
    let (e, out, next) = hex_loop-value (hex4 c) 0 c src rest at (hex4-back c h).0 in
    (
      e,
      simp (out, lt→leb 0xdc00 c (omega arith), lt→leb 0xd800 c (omega arith), ==_ne c 0 nz) refl,
      next,
    )

-- What a step of the reader leaves: `more` is left to read, and `dbuf` has `cs` behind its text.
pub record IsStep (r : Root) (cs more : List ℕ) (src dbuf : DBuf) : Type 0 where
  pub at : IsAt src more
  pub held : Holds (contents r.dbuf ++ cs) r.dbuf.pos r.dbuf.lineno r.dbuf.flags dbuf

strcat_byte :
    (d : DBuf) (c : ℕ)
    → c ≢ 0
    → IsValid d
    → d.len + 1 ≤ max_len
    → IsGrown d (c ∷ []) (strcat d (c ∷ 0 ∷ []))
unfolding strcat app_strlen
strcat_byte d c nz v h = rw (==_ne c 0 nz) (strncat_whole d (c ∷ []) (0 ∷ []) v h)

-- What stands behind a backslash gives the byte back.
letters-round :
    (r : Root) (c : ℕ) (more : List ℕ)
    → is_plain c ≡ false
    → c ≢ 0
    → IsAt r.src (letters c ++ more)
    → IsValid r.dbuf
    → r.dbuf.len < max_len
    → (i : ℕ) × (e : ℕ) × (mid : DBuf) × (src : DBuf) × (dbuf : DBuf) × (next_byte none r.src
        ≡ done (some (i, e), mid))
      × (escape_round none e (record r { src = mid })
          ≡ done (true, record r { src = src; dbuf = dbuf }))
      × IsStep r (c ∷ []) more src dbuf
unfolding escape_round
letters-round r c more p nz at v room = pick (letter_of c) refl at
  where
    pick :
        (o : Option ℕ)
        → letter_of c ≡ o
        → IsAt r.src ((elim o as (λ _. List ℕ) [ some e ↦ e ∷ [] | none ↦ b'u' ∷ hex4 c ]) ++ more)
        → (i : ℕ) × (e : ℕ) × (mid : DBuf) × (src : DBuf) × (dbuf : DBuf) × (next_byte none r.src
            ≡ done (some (i, e), mid))
          × (escape_round none e (record r { src = mid })
              ≡ done (true, record r { src = src; dbuf = dbuf }))
          × IsStep r (c ∷ []) more src dbuf
    pick (some e) q here =
        let (out, next) = next_byte-left r.src e more here in
        let (other, back) = letter_of-unescaped c e q in
        let (d, put, held) = put_char-Holds r.dbuf c v room in
        (
          r.src.pos,
          e,
          stepped r.src,
          stepped r.src,
          d,
          out,
          simp (other, back, put) refl,
          record { at = next; held = held },
        )
    pick none q here =
        let (out, next) = next_byte-left r.src b'u' (hex4 c ++ more) here in
        let small = letter_of-none c p q in
        let (src, read, after) = check_utf-hex c (stepped r.src) more small nz next in
        let (d, put, held) = strcat_byte r.dbuf c nz v (omega (arith, room)) in
        (
          r.src.pos,
          b'u',
          stepped r.src,
          src,
          d,
          out,
          simp (read, (hex4-back c small).1, put) refl,
          record { at = after; held = held },
        )

-- One round of the reader takes one byte of the string, however it is written.
pub string_loop-round :
    (r : Root) (c f : ℕ) (more : List ℕ)
    → c ≢ 0
    → IsAt r.src (escape_of c ++ more)
    → IsValid r.dbuf
    → r.dbuf.len < max_len
    → (src : DBuf) × (dbuf : DBuf) × (string_loop none (suc f) r
        ≡ string_loop none f (record r { src = src; dbuf = dbuf }))
      × IsStep r (c ∷ []) more src dbuf
unfolding string_loop escape_of
string_loop-round r c f more nz at v room = pick (is_plain c) refl at
  where
    pick :
        (b : Bool)
        → is_plain c ≡ b
        → IsAt r.src ((if b then c ∷ [] else b'\\' ∷ letters c) ++ more)
        → (src : DBuf) × (dbuf : DBuf) × (string_loop none (suc f) r
            ≡ string_loop none f (record r { src = src; dbuf = dbuf }))
          × IsStep r (c ∷ []) more src dbuf
    pick true p here =
        let (out, next) = next_byte-left r.src c more here in
        let (d, put, held) = put_char-Holds r.dbuf c v room in
        let (quote, slash) = plain-other c p in
        (
          stepped r.src,
          d,
          simp (out, ==_ne c 0 nz, quote, slash, put) refl,
          record { at = next; held = held },
        )
    pick false p here =
        let (out, next) = next_byte-left r.src b'\\' (letters c ++ more) here in
        let (i, e, mid, src, d, second, round, step) =
          letters-round (record r { src = stepped r.src }) c more p nz next v room in
        (src, d, simp (out, second, round) refl, record { at = step.at; held = step.held })
