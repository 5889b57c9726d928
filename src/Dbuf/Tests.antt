-- ===== src/Dbuf/Tests.antt =====
-- Runs of the buffer's operations, and the theorems on them at concrete buffers.
use vfdd.Prelude.{ℕ, ◌≡◌, refl, ◌⊎◌, true, false, none, some, [], ◌∷◌, arith, done}
use vfdd.Dbuf.{DBuf, db_keep_lf, strncat, put_char}
use vfdd.Dbuf.Bounds.{IsValid}
use vfdd.Dbuf.Contents.{contents, Holds, put_char-Holds, strncat-Holds}
use vfdd.Dbuf.Read.{next_char, get_char, unget_char, unput_char, undone}
use vfdd.Dbuf.Reads.{left, stepped, get_char-left, newline_counted_twice, unput-put}
use vfdd.Dbuf.Line.{get_line}
use vfdd.Dbuf.GetLine.{get_line_repeats}

-- "ab\ncd" in a block of 8 bytes.
abbrev two_lines : DBuf
two_lines = record {
  s = b'a' ∷ b'b' ∷ b'\n' ∷ b'c' ∷ b'd' ∷ 0 ∷ 9 ∷ 9 ∷ [];
  ext_buf = false;
  pos = 0;
  len = 5;
  size = 8;
  renew_count = 1;
  flags = 0;
  lineno = 0;
  junk = 9;
}

-- The same at the end of its first line.
abbrev at_newline : DBuf
at_newline = record two_lines { pos = 2 }

-- A block that is full.
abbrev full : DBuf
full = record {
  s = b'x' ∷ 0 ∷ [];
  ext_buf = false;
  pos = 0;
  len = 1;
  size = 2;
  renew_count = 1;
  flags = 0;
  lineno = 3;
  junk = 9;
}

-- A line that keeps its end.
abbrev keeping : DBuf
keeping = record full { flags = db_keep_lf }

at_newline-IsValid : IsValid at_newline
at_newline-IsValid = record { owned = refl; block = refl; room = omega arith; unread = omega arith }

full-IsValid : IsValid full
full-IsValid = record { owned = refl; block = refl; room = omega arith; unread = omega arith }

keeping-IsValid : IsValid keeping
keeping-IsValid = record { owned = refl; block = refl; room = omega arith; unread = omega arith }

put_char-Holds_example :
    (e : DBuf) × (put_char full b'y' ≡ done e) × Holds (b'x' ∷ b'y' ∷ []) 0 3 0 e
put_char-Holds_example = put_char-Holds full b'y' full-IsValid (omega arith)

strncat-Holds_example :
    (e : DBuf) × (strncat full (7 ∷ 8 ∷ 9 ∷ []) 2 ≡ done e) × Holds (b'x' ∷ 7 ∷ 8 ∷ []) 0 3 0 e
strncat-Holds_example =
    strncat-Holds full (7 ∷ 8 ∷ 9 ∷ []) 2 full-IsValid (omega arith) (omega arith)

get_char-left_example :
    ((left at_newline ≡ []) × (get_char none at_newline ≡ done (none, at_newline)))
    ⊎ ((c : ℕ) × (left at_newline ≡ c ∷ left (stepped at_newline))
        × (get_char none at_newline ≡ done (some c, stepped at_newline))
        × IsValid (stepped at_newline))
get_char-left_example = get_char-left at_newline at_newline-IsValid

newline_counted_twice_example :
    (e : DBuf) × (unget_char (stepped at_newline) ≡ done (undone b'\n' e))
    × (next_char none e ≡ done (some 2, record at_newline { pos = 3; lineno = 2 }))
newline_counted_twice_example =
    newline_counted_twice at_newline at_newline-IsValid (omega arith) refl

unput-put_example :
    (e f : DBuf) × (put_char full 5 ≡ done e)
    × (unput_char e ≡ done (undone 5 f))
    × Holds (b'x' ∷ []) 0 3 0 f
unput-put_example = unput-put full 5 full-IsValid (omega arith)

get_line_repeats_example :
    (d s : DBuf) × (get_line none 3 keeping (record two_lines { pos = 3 })
      ≡ some (done (true, d, s)))
    × (contents d ≡ b'c' ∷ b'd' ∷ b'd' ∷ [])
    × (left s ≡ [])
get_line_repeats_example =
    get_line_repeats 3 keeping (record two_lines { pos = 3 }) (b'c' ∷ b'd' ∷ []) keeping-IsValid
      (record { owned = refl; block = refl; room = omega arith; unread = omega arith }) refl
      (omega arith) (omega arith, omega arith, (omega arith, omega arith, tt)) refl (omega arith)
      (omega arith)
