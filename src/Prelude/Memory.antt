-- ===== src/Prelude/Memory.antt =====
-- Blocks of C memory as lists of bytes: single accesses, `memmove`, and what `realloc` returns.
-- An access out of bounds is a fault.
use Prim.Native.Nat.{ℕ, ◌+◌, ◌-◌, ◌≤◌, ◌<◌}
use mathlib.Core.Path.{◌≡◌, ap, ◌∙◌}
use mathlib.Core.List.{List, ◌++◌, append-nil}
use native.Mathlib.Omega.{arith}
use vfdd.Prelude.Tests.{ltb, leb, if◌then◌else◌, lt→ltb, le→leb}
use vfdd.Prelude.Effects.{Outcome, or_fault, done, fault}
use vfdd.Prelude.Lists.{
  length, get_elem?, get_or, set, take, drop, replicate, length-append, length-take, length-drop,
  length-replicate, take-append_le, take-append_add, take-take_le, get_elem?-eq-get_or,
}

-- `*(mem + i)`
unfoldable pub load : List ℕ → ℕ → Outcome ℕ
load mem i = or_fault (get_elem? mem i)

-- `*(mem + i) = v`
unfoldable pub store : List ℕ → ℕ → ℕ → Outcome (List ℕ)
store mem i v = if ltb i (length mem) then done (set mem i v) else fault

-- The `n` bytes from `mem + i` on.
unfoldable pub load_bytes : List ℕ → ℕ → ℕ → Outcome (List ℕ)
load_bytes mem i n = if leb (i + n) (length mem) then done (take n (drop i mem)) else fault

-- The block with `bs` at `i`.
unfoldable pub splice : List ℕ → ℕ → List ℕ → List ℕ
splice mem i bs = take i mem ++ (bs ++ drop (i + length bs) mem)

-- `memmove(mem + i, bs, length bs)`
unfoldable pub store_bytes : List ℕ → ℕ → List ℕ → Outcome (List ℕ)
store_bytes mem i bs = if leb (i + length bs) (length mem) then done (splice mem i bs) else fault

-- `realloc`: the old bytes as far as they fit, and `junk` in what is new.
unfoldable pub renew : ℕ → List ℕ → ℕ → List ℕ
renew junk mem n = take n mem ++ replicate (n - length mem) junk

pub load-lt : (mem : List ℕ) (i : ℕ) → i < length mem → load mem i ≡ done (get_or mem i 0)
unfolding load
load-lt mem i h = ap or_fault (get_elem?-eq-get_or mem i 0 h)

pub store-lt : (mem : List ℕ) (i v : ℕ) → i < length mem → store mem i v ≡ done (set mem i v)
unfolding store
store-lt mem i v h = rw (lt→ltb _ _ h)

pub load_bytes-le :
    (mem : List ℕ) (i n : ℕ) → i + n ≤ length mem → load_bytes mem i n ≡ done (take n (drop i mem))
unfolding load_bytes
load_bytes-le mem i n h = rw (le→leb _ _ h)

pub store_bytes-le :
    (mem : List ℕ) (i : ℕ) (bs : List ℕ)
    → i + length bs ≤ length mem
    → store_bytes mem i bs ≡ done (splice mem i bs)
unfolding store_bytes
store_bytes-le mem i bs h = rw (le→leb _ _ h)

pub length-splice :
    (mem : List ℕ) (i : ℕ) (bs : List ℕ)
    → i + length bs ≤ length mem
    → length (splice mem i bs) ≡ length mem
unfolding splice
length-splice mem i bs h = omega (
  arith,
  length-append (take i mem) (bs ++ drop (i + length bs) mem),
  length-append bs (drop (i + length bs) mem),
  length-take i mem,
  length-drop (i + length bs) mem,
)

-- What stands before the end of the moved bytes.
pub take-splice :
    (mem : List ℕ) (i : ℕ) (bs : List ℕ)
    → i ≤ length mem
    → take (i + length bs) (splice mem i bs) ≡ take i mem ++ bs
unfolding splice
take-splice mem i bs h =
    take-append_add _ (length bs) (take i mem) _ (omega (arith, length-take i mem))
    ∙ ap (λ t. take i mem ++ t) (take-append_add _ 0 bs _ (omega arith) ∙ append-nil bs)

pub length-renew : (junk : ℕ) (mem : List ℕ) (n : ℕ) → length (renew junk mem n) ≡ n
unfolding renew
length-renew junk mem n = omega (
  arith,
  length-append (take n mem) (replicate (n - length mem) junk),
  length-take n mem,
  length-replicate (n - length mem) junk,
)

-- `realloc` keeps a prefix that fits both blocks.
pub take-renew :
    (junk : ℕ) (mem : List ℕ) (n k : ℕ)
    → k ≤ n
    → k ≤ length mem
    → take k (renew junk mem n) ≡ take k mem
unfolding renew
take-renew junk mem n k h g =
    take-append_le k (take n mem) _ (omega (arith, length-take n mem)) ∙ take-take_le k n mem h
