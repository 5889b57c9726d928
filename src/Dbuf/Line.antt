-- ===== src/Dbuf/Line.antt =====
-- dbuf.c: `dbuf_get_line` and the lines that it finds.
use vfdd.Prelude.Memory.{load}
use vfdd.Prelude.{
  ℕ, zero, suc, Bool, true, false, ◌&&◌, ◌||◌, Option, none, some, ◌==◌, if◌then◌else◌, Outcome,
  ◌>>=◌, done, fatal, fault,
}
use vfdd.Dbuf.{DBuf, db_strip_cr, db_join_lines, db_keep_lf, has_flag, clear, put_char}
use vfdd.Dbuf.Read.{Fill, next_char, unput_char, undone, below_start}

-- The variables of the loop: `c` and `lastc` are the last byte read and the last byte put.
pub record LineState : Type 0 where
  pub dest : DBuf
  pub src : DBuf
  pub c : ℕ
  pub lastc : ℕ

-- `dbuf_unput_char( dest )` in front of a put: from an empty `dest` that put would be at -1.
unfoldable pub drop_last : DBuf → Outcome DBuf
drop_last d = unput_char d >>= λ u. elim u [ undone c e ↦ done e | below_start ↦ fault ]

-- What the tests of the loop say of a byte: a newline that joins two lines, the end of the line, a
-- '\r' to skip, or a byte of the line.
pub data ByteKind : Type 0 where
  joins ends skips stays : ByteKind

unfoldable pub byte_kind : ℕ → ℕ → ℕ → ByteKind
byte_kind flags c lastc =
    if c == b'\n' && (lastc == b'\\' && has_flag flags db_join_lines)
    then joins
    else if c == b'\n' || c == 0
    then ends
    else if c == b'\r' && has_flag flags db_strip_cr
    then skips
    else stays

-- One round behind `dbuf_next_char`: whether the loop goes on, and the new state.
unfoldable pub line_act : ByteKind → LineState → Outcome (Bool × LineState)
line_act joins st = do
  d ← drop_last st.dest
  d' ← put_char d b' '
  done (true, record st { dest = d'; c = b' '; lastc = b' ' })
line_act ends st = done (false, st)
line_act skips st = done (true, st)
line_act stays st = do d ← put_char st.dest st.c; done (true, record st { dest = d; lastc = st.c })

unfoldable pub line_round : LineState → Outcome (Bool × LineState)
line_round st = line_act (byte_kind st.dest.flags st.c st.lastc) st

-- The loop, with fuel: `none` means that the fuel ran out. The Boolean is `p == NULL` behind it.
unfoldable pub line_loop : Fill → ℕ → LineState → Option (Outcome (Bool × LineState))
line_loop fill zero st = none
line_loop fill (suc f) st = elim (next_char fill st.src) [
  | fatal ↦ some fatal
  | fault ↦ some fault
  | done (none, src) ↦ some (done (true, record st { src = src }))
  | done (some i, src) ↦ elim (load src.s i) [
    | fatal ↦ some fatal
    | fault ↦ some fault
    | done c ↦ elim (line_round (record st { src = src; c = c })) [
      | fatal ↦ some fatal
      | fault ↦ some fault
      | done (true, st') ↦ line_loop fill f st'
      | done (false, st') ↦ some (done (false, st'))
    ]
  ]
]

-- The returns behind the loop, by `p == NULL && dest->len == 0` and DB_KEEP_LF: whether a line is
-- returned, and the two buffers.
unfoldable pub end_line : Bool → Bool → LineState → Outcome (Bool × DBuf × DBuf)
end_line true keep st = done (false, st.dest, st.src)
end_line false true st = do d ← put_char st.dest st.c; done (true, d, st.src)
end_line false false st = done (true, st.dest, st.src)

unfoldable pub line_end : Bool × LineState → Outcome (Bool × DBuf × DBuf)
line_end (over, st) = end_line (over && st.dest.len == 0) (has_flag st.dest.flags db_keep_lf) st

-- `dbuf_get_line`
unfoldable pub get_line : Fill → ℕ → DBuf → DBuf → Option (Outcome (Bool × DBuf × DBuf))
get_line fill fuel dest src = elim (clear dest) [
  | fatal ↦ some fatal
  | fault ↦ some fault
  | done d ↦ elim (line_loop fill fuel (record { dest = d; src = src; c = 0; lastc = 0 })) [
    | none ↦ none
    | some out ↦ some (out >>= line_end)
  ]
]
