-- ===== src/Dbuf.antt =====
-- dbuf.c and dbuf.h: the dynamic buffer. `s` is the allocated block; an `int` is a number, and what
-- would take one below 0 or above 2 ^ 31 - 1 is told apart where it happens. Two buffers of one
-- call are different objects.
use vfdd.Prelude.{
  ℕ, ◌+◌, ◌-◌, ◌^◌, bit_and, Bool, true, false, not, Option, none, some, List, [], ◌∷◌, ltb, leb,
  ◌==◌, if◌then◌else◌, replicate, Outcome, ◌>>=◌, done, fatal, fault,
}
use vfdd.Prelude.Memory.{store, load_bytes, store_bytes, renew}
use vfdd.Strmem.{app_power_of_2, app_strlen}
pub mod Read
pub mod Bounds
pub mod Contents
pub mod Reads
pub mod Line
pub mod Lines
pub mod GetLine
pub mod Tests

-- `junk` is what a byte of fresh memory holds: no code reads it before it writes there.
pub record DBuf : Type 0 where
  pub s : List ℕ
  pub ext_buf : Bool
  pub pos : ℕ
  pub len : ℕ
  pub size : ℕ
  pub renew_count : ℕ
  pub flags : ℕ
  pub lineno : ℕ
  pub junk : ℕ

-- `stdio.h` of the GNU C library
abbrev pub bufsiz : ℕ
bufsiz = 8192

-- `enum _DbufFlagsInfo`
abbrev pub db_strip_cr : ℕ
db_strip_cr = 1

abbrev pub db_join_lines : ℕ
db_join_lines = 2

abbrev pub db_keep_lf : ℕ
db_keep_lf = 4

abbrev pub int_max : ℕ
int_max = 2 ^ 31 - 1

-- The `size` that `dbuf_construct` works with.
abbrev pub asked_size : ℕ → ℕ
asked_size size = if size == 0 then bufsiz else size

-- What `app_power_of_2` gives, as an `int`.
unfoldable pub int_power : ℕ → Outcome ℕ
int_power n = elim (app_power_of_2 n) [
  | none ↦ fault
  | some m ↦ if leb m int_max then done m else fault
]

-- `dbuf_construct` on zeroed memory, as `dbuf_new` and `mdbuf_construct` call it.
unfoldable pub construct : ℕ → ℕ → Option (List ℕ) → Outcome DBuf
construct junk size (some ext) = done (record {
  s = ext;
  ext_buf = true;
  pos = 0;
  len = asked_size size;
  size = asked_size size;
  renew_count = 0;
  flags = 0;
  lineno = 0;
  junk = junk;
})
construct junk size none = do
  n ← int_power (asked_size size)
  s ← store (replicate n junk) 0 0
  done (record {
    s = s;
    ext_buf = false;
    pos = 0;
    len = 0;
    size = n;
    renew_count = 0;
    flags = 0;
    lineno = 0;
    junk = junk;
  })

-- `dbuf_renew`
unfoldable pub dbuf_renew : DBuf → ℕ → Outcome DBuf
dbuf_renew d newsize = if d.ext_buf then fatal else do
  n ← int_power (newsize + 1)
  done (record d { s = renew d.junk d.s n; size = n; renew_count = d.renew_count + 1 })

-- `if ( cond ) dbuf_renew( d, newsize )`
abbrev pub renew_if : Bool → DBuf → ℕ → Outcome DBuf
renew_if test d newsize = if test then dbuf_renew d newsize else done d

unfoldable pub set_flags : DBuf → ℕ → DBuf
set_flags d flags = record d { flags = flags }

-- `flags & flag`
unfoldable pub has_flag : ℕ → ℕ → Bool
has_flag flags flag = not (bit_and flags flag == 0)

unfoldable pub is_empty : DBuf → Bool
is_empty d = if ltb d.pos d.len then false else true

-- `dbuf_get_available` where it is not negative
unfoldable pub get_available : DBuf → ℕ
get_available d = d.len - d.pos

unfoldable pub set_pos : DBuf → ℕ → DBuf
set_pos d pos = record d { pos = pos }

-- `dest->len > dest->size - 1` on `int`
unfoldable pub set_len : DBuf → ℕ → Outcome DBuf
set_len d n = do
  e ← renew_if (ltb d.size (n + 1)) (record d { len = n }) n
  s ← store e.s e.len 0
  done (record e { s = s })

unfoldable pub inc_len : DBuf → Outcome DBuf
inc_len d = set_len d (d.len + 1)

unfoldable pub clear : DBuf → Outcome DBuf
clear d = do s ← store d.s 0 0; done (record d { pos = 0; len = 0; lineno = 0; s = s })

-- The common part of `dbuf_ncat`, `dbuf_strncat` and `dbuf_strncpy`, which have set the new `len`:
-- the block grows at `len >= size - 1`, `slen` bytes move in at `at`, and a 0 ends them.
unfoldable pub move_in : DBuf → ℕ → List ℕ → ℕ → ℕ → Outcome DBuf
move_in d at src from slen = do
  e ← renew_if (leb d.size (d.len + 1)) d d.len
  bs ← load_bytes src from slen
  s ← store_bytes e.s at bs
  s' ← store s e.len 0
  done (record e { s = s' })

-- `dbuf_ncat`: the new destination and the new source.
unfoldable pub ncat : DBuf → DBuf → ℕ → Outcome (DBuf × DBuf)
ncat dest src slen = do
  d ← move_in (record dest { len = dest.len + slen }) dest.len src.s src.pos slen
  done (d, record src { pos = src.pos + slen })

-- `dbuf_cat`; with `pos` past `len` it moves a negative number of bytes.
unfoldable pub cat : DBuf → DBuf → Outcome (DBuf × DBuf)
cat dest src = if leb src.pos src.len then ncat dest src (src.len - src.pos) else fault

unfoldable pub ncopy : DBuf → DBuf → ℕ → Outcome (DBuf × DBuf)
ncopy dest src slen = ncat (record dest { pos = 0; len = 0 }) src slen

unfoldable pub copy : DBuf → DBuf → Outcome (DBuf × DBuf)
copy dest src = ncopy dest src src.len

-- `src` is the block that the argument points into.
unfoldable pub strncpy : DBuf → List ℕ → ℕ → Outcome DBuf
strncpy dest src slen = move_in (record dest { pos = 0; len = slen }) 0 src 0 slen

unfoldable pub strcpy : DBuf → List ℕ → Outcome DBuf
strcpy dest src = strncpy dest src (app_strlen src)

unfoldable pub strncat : DBuf → List ℕ → ℕ → Outcome DBuf
strncat dest src slen = move_in (record dest { len = dest.len + slen }) dest.len src 0 slen

unfoldable pub strcat : DBuf → List ℕ → Outcome DBuf
strcat dest src = strncat dest src (app_strlen src)

-- `dbuf_concat` over its arguments before the NULL
unfoldable pub concat : DBuf → List (List ℕ) → Outcome DBuf
concat d [] = done d
concat d (p ∷ ps) = do d' ← strcat d p; concat d' ps

unfoldable pub put_char : DBuf → ℕ → Outcome DBuf
put_char d c = do
  e ← renew_if (leb d.size (d.len + 2)) d (d.len + 1)
  s ← store e.s e.len c
  s' ← store s (e.len + 1) 0
  done (record e { s = s'; len = e.len + 1 })
