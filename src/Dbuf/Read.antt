-- ===== src/Dbuf/Read.antt =====
-- dbuf.c: what reads a buffer, and what undoes a read or a write.
use vfdd.Prelude.{
  ℕ, ◌+◌, ◌-◌, Option, none, some, List, [], ◌∷◌, ◌++◌, ltb, leb, ◌==◌, if◌then◌else◌, Outcome,
  ◌>>=◌, done, fault,
}
use vfdd.Prelude.Memory.{load, store, load_bytes, store_bytes}
use vfdd.Dbuf.{DBuf, clear}

-- `fill_func`, called with its `caller`: it refills the buffer, or returns NULL.
abbrev pub Fill : Type 0
Fill = Option (DBuf → Outcome (Option DBuf))

-- `dbuf_next_char` once there is a byte: the index of that byte, and the buffer behind it.
unfoldable pub step_char : DBuf → Outcome (Option ℕ × DBuf)
step_char d = do
  c ← load d.s d.pos
  done (
    some d.pos,
    record d { pos = d.pos + 1; lineno = if c == b'\n' then d.lineno + 1 else d.lineno },
  )

-- The branch of `dbuf_next_char` that asks for more.
unfoldable pub refill : Fill → DBuf → Outcome (Option ℕ × DBuf)
refill none d = done (none, d)
refill (some fill) d = do
  e ← clear d
  r ← fill e
  elim r [ none ↦ done (none, e) | some f ↦ step_char (record f { lineno = d.lineno }) ]

-- `dbuf_next_char`: `none` is NULL, `some i` points at `s[i]`.
unfoldable pub next_char : Fill → DBuf → Outcome (Option ℕ × DBuf)
next_char fill d = if leb d.len d.pos then refill fill d else step_char d

-- `dbuf_get_char`, where `none` is -1
unfoldable pub get_char : Fill → DBuf → Outcome (Option ℕ × DBuf)
get_char fill d = do
  (p, e) ← next_char fill d
  elim p [ none ↦ done (none, e) | some i ↦ load e.s i >>= λ c. done (some c, e) ]

-- `dbuf_get_dupchars`: the copy is `len` bytes and a 0.
unfoldable pub get_dupchars : DBuf → ℕ → Outcome (Option (List ℕ) × DBuf)
get_dupchars d n =
    if leb d.len (d.pos + n)
    then done (none, d)
    else do bs ← load_bytes d.s d.pos n; done (some (bs ++ 0 ∷ []), record d { pos = d.pos + n })

-- What undoes a step by one: at 0 the C code returns -1 and leaves -1 in `pos` or `len`.
pub data Undo : Type 0 where
  undone : ℕ → DBuf → Undo
  below_start : Undo

-- `dbuf_unget_char`
unfoldable pub unget_char : DBuf → Outcome Undo
unget_char d =
    if d.pos == 0
    then done below_start
    else do c ← load d.s (d.pos - 1); done (undone c (record d { pos = d.pos - 1 }))

-- `dbuf_unput_char`
unfoldable pub unput_char : DBuf → Outcome Undo
unput_char d = if d.len == 0 then done below_start else do
  c ← load d.s (d.len - 1)
  s ← store d.s (d.len - 1) 0
  done (undone c (record d { len = d.len - 1; s = s }))

-- `dbuf_move_beg`; with `pos` past `len` it moves a negative number of bytes.
unfoldable pub move_beg : DBuf → Outcome DBuf
move_beg d =
    if d.pos == 0
    then done d
    else if d.pos == d.len
    then done d
    else if ltb d.len d.pos
    then fault
    else do
      bs ← load_bytes d.s d.pos (d.len - d.pos)
      s ← store_bytes d.s 0 bs
      done (record d { len = d.len - d.pos; pos = 0; s = s })
