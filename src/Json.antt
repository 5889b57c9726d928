-- ===== src/Json.antt =====
-- jsonroot.c and jsonnode.c: the JSON reader and printer. A pointer into the source is an index into the
-- block of its buffer.
pub mod Strings
pub mod Print
pub mod Escapes
pub mod Printed
pub mod Reading
pub mod Number
pub mod RoundTrip
pub mod RoundTrips
pub mod Tree
pub mod Writes
pub mod Render
pub mod Rendered
pub mod Printing
pub mod Items
pub mod Added
pub mod Path
pub mod Found
pub mod Access
pub mod Accessed
pub mod Locate
pub mod Parse
pub mod ParseTests
pub mod Place
pub mod Absent
pub mod Docs
pub mod Steps
pub mod Values
pub mod Numerals
pub mod Reads
pub mod Elems
pub mod Fields
pub mod Joined
pub mod Brackets
pub mod Wholes
pub mod Trees
pub mod ReadBack
pub mod Tests
use vfdd.Prelude.{ℕ, Option, none, some, List, Outcome, ◌>>=◌, done}
use vfdd.Prelude.Memory.{load}
use vfdd.Dbuf.{DBuf}
use vfdd.Dbuf.Read.{Fill, next_char}

-- `struct _JsonRootNode`, without the node that it is itself: `none` is NULL.
pub record Root : Type 0 where
  pub src : DBuf
  pub dbuf : DBuf
  pub curptr : ℕ
  pub errptr : Option ℕ
  pub path : Option (List ℕ)
  pub count : ℕ
  pub depth : ℕ
  pub format : ℕ
  pub expected : ℕ

-- `p = dbuf_next_char( src )` and the byte `*p`
unfoldable pub next_byte : Fill → DBuf → Outcome (Option (ℕ × ℕ) × DBuf)
next_byte fill d = do
  (p, e) ← next_char fill d
  elim p [ none ↦ done (none, e) | some i ↦ load e.s i >>= λ c. done (some (i, c), e) ]
