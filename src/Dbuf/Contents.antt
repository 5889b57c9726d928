-- ===== src/Dbuf/Contents.antt =====
-- dbuf.c: a buffer as the text that it holds. Writes append to the text or replace it.
use vfdd.Prelude.Memory.{
  splice, store-lt, load_bytes-le, store_bytes-le, length-splice, take-splice,
}
use vfdd.Prelude.{
  ℕ, ◌+◌, ◌^◌, ◌≤◌, ◌<◌, ◌≡◌, refl, ap, ap₂, ◌∙◌, false, none, List, [], ◌∷◌, ◌++◌, arith, leb,
  leb→lt, length, get_or, set, take, drop, replicate, length-set, length-take, length-drop,
  length-replicate, get_or-set_self, take-add_one, take-set_le, done,
}
use vfdd.Dbuf.{DBuf, asked_size, construct, clear, move_in, ncat, strncpy, strncat, put_char}
use vfdd.Dbuf.Bounds.{IsValid, max_len, int_power-done, Grown, renew_if-Grown}

abbrev pub contents : DBuf → List ℕ
contents d = take d.len d.s

-- `e` holds `text`, with a 0 behind it, and its cursor is `pos`.
pub record Holds (text : List ℕ) (pos lineno flags : ℕ) (e : DBuf) : Type 0 where
  pub valid : IsValid e
  pub text_is : contents e ≡ text
  pub ended : get_or e.s e.len 1 ≡ 0
  pub cursor : e.pos ≡ pos
  pub line : e.lineno ≡ lineno
  pub same_flags : e.flags ≡ flags

pub length-contents : (d : DBuf) → IsValid d → length (contents d) ≡ d.len
length-contents d v = omega (arith, length-take d.len d.s)

-- The two writes of `dbuf_put_char` in a block with room for both.
put_in-Holds :
    (d e : DBuf) (c : ℕ)
    → IsValid d
    → Grown d (d.len + 2) e
    → Holds
        (contents d ++ c ∷ [])
        d.pos
        d.lineno
        d.flags
        (record e { s = set (set e.s e.len c) (e.len + 1) 0; len = e.len + 1 })
put_in-Holds d e c v g = record {
  valid = record {
    owned = g.owned;
    block = length-set _ (e.len + 1) 0 ∙ (length-set e.s e.len c ∙ g.block);
    room = omega (arith, g.room, g.same_len);
    unread = omega (arith, g.same_len, g.same_pos, v.unread);
  };
  text_is =
      take-set_le (e.len + 1) (set e.s e.len c) (e.len + 1) 0 (omega arith)
      ∙ (take-add_one e.len (set e.s e.len c) 0 (omega (arith, inside, length-set e.s e.len c))
          ∙ ap₂ (λ t x. t ++ x ∷ []) (take-set_le e.len e.s e.len c (omega arith) ∙ kept)
              (get_or-set_self e.s e.len c 0 inside));
  ended =
      get_or-set_self (set e.s e.len c) (e.len + 1) 0 1
        (omega (arith, length-set e.s e.len c, g.block, g.room, g.same_len));
  cursor = g.same_pos;
  line = g.same_lineno;
  same_flags = g.same_flags;
}
  where
    inside : e.len < length e.s
    inside = omega (arith, g.block, g.room, g.same_len)

    kept : take e.len e.s ≡ contents d
    kept =
        ap (λ n. take n e.s) g.same_len
        ∙ g.kept d.len (omega (arith, v.block, v.room)) (omega arith)

-- `dbuf_put_char` on a valid buffer appends its byte and a 0: the block grows when it is full, no
-- write falls outside it, and the cursor stays.
pub put_char-Holds :
    (d : DBuf) (c : ℕ)
    → IsValid d
    → d.len < max_len
    → (e : DBuf) × (put_char d c ≡ done e) × Holds (contents d ++ c ∷ []) d.pos d.lineno d.flags e
unfolding put_char
put_char-Holds d c v h =
    let (e, out, g) =
      renew_if-Grown (leb d.size (d.len + 2)) d (d.len + 1) (d.len + 2) v.owned v.block
        (omega arith) (omega arith) (λ t. omega (arith, leb→lt _ _ t)) in
    (
      record e { s = set (set e.s e.len c) (e.len + 1) 0; len = e.len + 1 },
      rw (
        out,
        store-lt e.s e.len c (omega (arith, g.block, g.room, g.same_len)),
        store-lt (set e.s e.len c) (e.len + 1) 0
            (omega (arith, length-set e.s e.len c, g.block, g.room, g.same_len)),
      ),
      put_in-Holds d e c v g,
    )

-- The moves of `move_in` in a block with room.
move_to-Holds :
    (d e : DBuf) (at : ℕ) (bs : List ℕ)
    → length d.s ≡ d.size
    → at ≤ length d.s
    → d.len ≡ at + length bs
    → d.pos ≤ d.len
    → Grown d (d.len + 1) e
    → Holds
        (take at d.s ++ bs)
        d.pos
        d.lineno
        d.flags
        (record e { s = set (splice e.s at bs) e.len 0 })
move_to-Holds d e at bs block inside sum unread g = record {
  valid = record {
    owned = g.owned;
    block = length-set _ e.len 0 ∙ (length-splice e.s at bs fits ∙ g.block);
    room = omega (arith, g.room, g.same_len);
    unread = omega (arith, g.same_len, g.same_pos);
  };
  text_is =
      take-set_le e.len (splice e.s at bs) e.len 0 (omega arith)
      ∙ (ap (λ n. take n (splice e.s at bs)) (g.same_len ∙ sum)
          ∙ (take-splice e.s at bs (omega (arith, g.block, g.room))
              ∙ ap (λ t. t ++ bs) (g.kept at inside (omega arith))));
  ended =
      get_or-set_self (splice e.s at bs) e.len 0 1
        (omega (arith, length-splice e.s at bs fits, g.block, g.room, g.same_len));
  cursor = g.same_pos;
  line = g.same_lineno;
  same_flags = g.same_flags;
}
  where
    fits : at + length bs ≤ length e.s
    fits = omega (arith, g.block, g.room)

pub move_in-Holds :
    (d : DBuf) (at : ℕ) (src : List ℕ) (from slen : ℕ)
    → d.ext_buf ≡ false
    → length d.s ≡ d.size
    → at ≤ length d.s
    → d.len ≡ at + slen
    → d.pos ≤ d.len
    → d.len ≤ max_len
    → from + slen ≤ length src
    → (e : DBuf) × (move_in d at src from slen ≡ done e)
      × Holds (take at d.s ++ take slen (drop from src)) d.pos d.lineno d.flags e
unfolding move_in
move_in-Holds d at src from slen own block inside sum unread h k =
    let bs = take slen (drop from src) in
    let count : length bs ≡ slen =
      omega (arith, length-take slen (drop from src), length-drop from src) in
    let (e, out, g) =
      renew_if-Grown (leb d.size (d.len + 1)) d d.len (d.len + 1) own block (omega arith)
        (omega arith) (λ t. omega (arith, leb→lt _ _ t)) in
    let fits : at + length bs ≤ length e.s = omega (arith, g.block, g.room) in
    (
      record e { s = set (splice e.s at bs) e.len 0 },
      rw (
        out,
        load_bytes-le src from slen k,
        store_bytes-le e.s at bs fits,
        store-lt (splice e.s at bs) e.len 0
            (omega (arith, length-splice e.s at bs fits, g.block, g.room, g.same_len)),
      ),
      move_to-Holds d e at bs block inside (omega arith) unread g,
    )

-- `dbuf_strncat` on a valid buffer appends the first `slen` bytes of its argument, which has that
-- many.
pub strncat-Holds :
    (d : DBuf) (src : List ℕ) (slen : ℕ)
    → IsValid d
    → slen ≤ length src
    → d.len + slen ≤ max_len
    → (e : DBuf) × (strncat d src slen ≡ done e)
      × Holds (contents d ++ take slen src) d.pos d.lineno d.flags e
unfolding strncat
strncat-Holds d src slen v k h =
    move_in-Holds (record d { len = d.len + slen }) d.len src 0 slen v.owned v.block
      (omega (arith, v.block, v.room)) refl (omega (arith, v.unread)) h (omega arith)

-- `dbuf_strncpy` replaces the text by the first `slen` bytes of its argument, and goes back to the
-- start.
pub strncpy-Holds :
    (d : DBuf) (src : List ℕ) (slen : ℕ)
    → IsValid d
    → slen ≤ length src
    → slen ≤ max_len
    → (e : DBuf) × (strncpy d src slen ≡ done e) × Holds (take slen src) 0 d.lineno d.flags e
unfolding strncpy
strncpy-Holds d src slen v k h =
    move_in-Holds (record d { pos = 0; len = slen }) 0 src 0 slen v.owned v.block (omega arith)
      (omega arith) (omega arith) h (omega arith)

-- `dbuf_ncat` appends the next `slen` bytes behind the cursor of the source, and moves that cursor
-- over them.
pub ncat-Holds :
    (dest src : DBuf) (slen : ℕ)
    → IsValid dest
    → src.pos + slen ≤ length src.s
    → dest.len + slen ≤ max_len
    → (e : DBuf) × (ncat dest src slen ≡ done (e, record src { pos = src.pos + slen }))
      × Holds (contents dest ++ take slen (drop src.pos src.s)) dest.pos dest.lineno dest.flags e
unfolding ncat
ncat-Holds dest src slen v k h =
    let (e, out, holds) =
      move_in-Holds (record dest { len = dest.len + slen }) dest.len src.s src.pos slen v.owned
        v.block (omega (arith, v.block, v.room)) refl (omega (arith, v.unread)) h k in
    (e, rw out, holds)

-- `dbuf_clear` leaves the empty text at line 0, in the same block.
pub clear-Holds : (d : DBuf) → IsValid d → (e : DBuf) × (clear d ≡ done e) × Holds [] 0 0 d.flags e
unfolding clear
clear-Holds d v =
    let inside : 0 < length d.s = omega (arith, v.block, v.room) in
    (
      record d { pos = 0; len = 0; lineno = 0; s = set d.s 0 0 },
      rw (store-lt d.s 0 0 inside),
      record {
        valid = record {
          owned = v.owned;
          block = length-set d.s 0 0 ∙ v.block;
          room = omega (arith, v.room);
          unread = omega arith;
        };
        text_is = refl;
        ended = get_or-set_self d.s 0 0 1 inside;
        cursor = refl;
        line = refl;
        same_flags = refl;
      },
    )

-- `dbuf_new( size, NULL )` gives an empty buffer that owns a block, whatever fresh memory holds; a
-- size of 0 stands for BUFSIZ.
pub construct-Holds :
    (junk size : ℕ)
    → size ≤ 2 ^ 30
    → (e : DBuf) × (construct junk size none ≡ done e) × Holds [] 0 0 0 e × (size ≤ e.size)
unfolding construct
construct-Holds junk size h =
    let fits : asked_size size ≤ 2 ^ 30 = ground arith in
    let (m, out, cover) = int_power-done (asked_size size) fits in
    let large : (0 < m) × (size ≤ m) = ground arith in
    let mem = replicate m junk in
    let inside : 0 < length mem = omega (arith, length-replicate m junk, large.0) in
    (
      record {
        s = set mem 0 0;
        ext_buf = false;
        pos = 0;
        len = 0;
        size = m;
        renew_count = 0;
        flags = 0;
        lineno = 0;
        junk = junk;
      },
      rw (out, store-lt mem 0 0 inside),
      record {
        valid = record {
          owned = refl;
          block = length-set mem 0 0 ∙ length-replicate m junk;
          room = large.0;
          unread = omega arith;
        };
        text_is = refl;
        ended = get_or-set_self mem 0 0 1 inside;
        cursor = refl;
        line = refl;
        same_flags = refl;
      },
      large.1,
    )
