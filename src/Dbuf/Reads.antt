-- ===== src/Dbuf/Reads.antt =====
-- dbuf.c: what a read gives of the text that is left, and what undoes a step.
use vfdd.Prelude.Memory.{load-lt, store-lt}
use vfdd.Prelude.{
  ℕ, ◌+◌, ◌-◌, ◌≤◌, ◌<◌, ◌≡◌, refl, sym, ap, ap₂, ◌∙◌, ◌⊎◌, inl, inr, none, some, List, [], ◌∷◌,
  ◌++◌, arith, ltb, ◌==◌, if◌then◌else◌, ltb→lt, ltb→le, le→leb, lt→leb, ==_ne, Bool-cases, length,
  get_or, set, take, drop, length-append, length-set, length-drop, drop-length_le, take-take_le,
  get_or-set_self, get_or-take, drop-get_or, take-set_le, get_or-snoc, take-snoc, done,
}
use native.Mathlib.Numerals.{add-one}
use vfdd.Dbuf.{DBuf, put_char}
use vfdd.Dbuf.Bounds.{IsValid, max_len}
use vfdd.Dbuf.Contents.{contents, Holds, length-contents, put_char-Holds}
use vfdd.Dbuf.Read.{Fill, step_char, refill, next_char, get_char, unget_char, unput_char, undone}

-- The text from the cursor on.
abbrev pub left : DBuf → List ℕ
left d = drop d.pos (contents d)

-- The buffer behind one more byte.
abbrev pub stepped : DBuf → DBuf
stepped d = record d {
  pos = d.pos + 1;
  lineno = if get_or d.s d.pos 0 == b'\n' then d.lineno + 1 else d.lineno;
}

pub next_char-end : (fill : Fill) (d : DBuf) → d.len ≤ d.pos → next_char fill d ≡ refill fill d
unfolding next_char
next_char-end fill d h = rw (le→leb _ _ h)

pub next_char-lt :
    (fill : Fill) (d : DBuf)
    → d.pos < d.len
    → d.len ≤ length d.s
    → next_char fill d ≡ done (some d.pos, stepped d)
unfolding next_char step_char
next_char-lt fill d h k = rw (lt→leb _ _ h, load-lt d.s d.pos (omega arith))

pub stepped-IsValid : (d : DBuf) → IsValid d → d.pos < d.len → IsValid (stepped d)
stepped-IsValid d v h = record {
  owned = v.owned;
  block = v.block;
  room = v.room;
  unread = omega arith;
}

pub left-lt :
    (d : DBuf) → IsValid d → d.pos < d.len → left d ≡ get_or d.s d.pos 0 ∷ left (stepped d)
left-lt d v h =
    drop-get_or d.pos (contents d) 0 (omega (arith, length-contents d v))
    ∙ ap₂ ◌∷◌ (get_or-take d.len d.s d.pos 0 h) (rw add-one)

pub left-nil : (d : DBuf) → IsValid d → left d ≡ [] → d.len ≤ d.pos
left-nil d v e =
    let n = ap length e in omega (arith, length-drop d.pos (contents d), length-contents d v)

pub left-cons : (d : DBuf) {c : ℕ} {r : List ℕ} → IsValid d → left d ≡ c ∷ r → d.pos < d.len
left-cons d v e =
    let n = ap length e in omega (arith, length-drop d.pos (contents d), length-contents d v)

-- With no `fill_func`, `dbuf_get_char` gives the text that is left byte by byte, then -1: each byte
-- moves the cursor by one, counts a line at '\n' and leaves the text alone.
pub get_char-left :
    (d : DBuf)
    → IsValid d
    → ((left d ≡ []) × (get_char none d ≡ done (none, d)))
      ⊎ ((c : ℕ) × (left d ≡ c ∷ left (stepped d))
          × (get_char none d ≡ done (some c, stepped d))
          × IsValid (stepped d))
unfolding get_char refill
get_char-left d v = elim (Bool-cases (ltb d.pos d.len)) [
  | inl more ↦
      let h : d.pos < d.len = ltb→lt _ _ more in
      inr (
        get_or d.s d.pos 0,
        left-lt d v h,
        rw (next_char-lt none d h (omega (arith, v.block, v.room)))
            (rw (load-lt d.s d.pos (omega (arith, v.block, v.room)))),
        stepped-IsValid d v h,
      )
  | inr over ↦
      let h : d.len ≤ d.pos = ltb→le _ _ over in
      inl (
        drop-length_le d.pos (contents d) (omega (arith, length-contents d v)),
        rw (next_char-end none d h),
      )
]

-- `dbuf_unget_char` after `dbuf_next_char` gives back the byte and the cursor, but not the line: a
-- '\n' that is taken back has been counted.
pub unget-next :
    (d : DBuf)
    → IsValid d
    → d.pos < d.len
    → (next_char none d ≡ done (some d.pos, stepped d))
      × (unget_char (stepped d)
          ≡ done (undone (get_or d.s d.pos 0) (record d { lineno = (stepped d).lineno })))
unfolding unget_char
unget-next d v h = (
  next_char-lt none d h (omega (arith, v.block, v.room)),
  rw (==_ne (d.pos + 1) 0 (omega arith))
      (rw (back, load-lt d.s d.pos (omega (arith, v.block, v.room)))),
)
  where
    back : d.pos + 1 - 1 ≡ d.pos
    back = omega arith

-- Reading a '\n', taking it back and reading it again counts two lines.
pub newline_counted_twice :
    (d : DBuf)
    → IsValid d
    → d.pos < d.len
    → get_or d.s d.pos 0 ≡ b'\n'
    → (e : DBuf) × (unget_char (stepped d) ≡ done (undone b'\n' e))
      × (next_char none e ≡ done (some d.pos, record d { pos = d.pos + 1; lineno = d.lineno + 2 }))
newline_counted_twice d v h nl =
    let e = record d { lineno = (stepped d).lineno } in
    (
      e,
      (unget-next d v h).1 ∙ ap (λ c. done (undone c e)) nl,
      next_char-lt none e h (omega (arith, v.block, v.room))
          ∙ rw nl
              (ap (λ n. done (some d.pos, record d { pos = d.pos + 1; lineno = n })) (omega arith)),
    )

-- `dbuf_unput_char` takes the last byte off the text.
pub unput_char-Holds :
    (d : DBuf) (text : List ℕ) (c : ℕ)
    → IsValid d
    → contents d ≡ text ++ c ∷ []
    → d.pos ≤ length text
    → (e : DBuf) × (unput_char d ≡ done (undone c e)) × Holds text d.pos d.lineno d.flags e
unfolding unput_char
unput_char-Holds d text c v t h = (
  record d { len = d.len - 1; s = set d.s (d.len - 1) 0 },
  rw (==_ne d.len 0 (omega (arith, count, inside))) (
      rw
        (
          load-lt d.s (d.len - 1) (omega (arith, count, inside)),
          store-lt d.s (d.len - 1) 0 (omega (arith, count, inside)),
        )
        (ap (λ x. done (undone x (record d { len = d.len - 1; s = set d.s (d.len - 1) 0 }))) last)),
  record {
    valid = record {
      owned = v.owned;
      block = length-set d.s (d.len - 1) 0 ∙ v.block;
      room = omega (arith, count, inside, v.room);
      unread = omega (arith, count);
    };
    text_is = take-set_le (d.len - 1) d.s (d.len - 1) 0 (omega (arith, count, inside)) ∙ front;
    ended = get_or-set_self d.s (d.len - 1) 0 1 (omega (arith, count, inside));
    cursor = refl;
    line = refl;
    same_flags = refl;
  },
)
  where
    count : d.len ≡ length text + 1
    count = omega (arith, ap length t, length-append text (c ∷ []), length-contents d v)

    inside : d.len < length d.s
    inside = omega (arith, v.block, v.room)

    last : get_or d.s (d.len - 1) 0 ≡ c
    last =
        sym (get_or-take d.len d.s (d.len - 1) 0 (omega (arith, count)))
        ∙ (ap₂ (λ xs i. get_or xs i 0) t (omega (arith, count)) ∙ get_or-snoc text c 0)

    front : take (d.len - 1) d.s ≡ text
    front =
        sym (take-take_le (d.len - 1) d.len d.s (omega (arith, count)))
        ∙ (ap₂ take (omega (arith, count)) t ∙ take-snoc text c)

-- On a valid buffer whose length is below `max_len` (the most that a block grows to),
-- `dbuf_unput_char` after `dbuf_put_char` gives back the byte and the buffer's text, cursor, line and
-- flags.
pub unput-put :
    (d : DBuf) (c : ℕ)
    → IsValid d
    → d.len < max_len
    → (e f : DBuf) × (put_char d c ≡ done e)
      × (unput_char e ≡ done (undone c f))
      × Holds (contents d) d.pos d.lineno d.flags f
unput-put d c v h =
    let (e, out, holds) = put_char-Holds d c v h in
    let (f, back, rest) =
      unput_char-Holds e (contents d) c holds.valid holds.text_is
        (omega (arith, holds.cursor, length-contents d v, v.unread)) in
    (
      e,
      f,
      out,
      back,
      record {
        valid = rest.valid;
        text_is = rest.text_is;
        ended = rest.ended;
        cursor = rest.cursor ∙ holds.cursor;
        line = rest.line ∙ holds.line;
        same_flags = rest.same_flags ∙ holds.same_flags;
      },
    )
