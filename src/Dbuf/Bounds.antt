-- ===== src/Dbuf/Bounds.antt =====
-- dbuf.c: the block of a buffer holds its bytes and the 0 behind them, and growing keeps them.
use vfdd.Prelude.{
  ℕ, ◌+◌, ◌-◌, ◌^◌, ◌≤◌, ◌<◌, ◌≡◌, refl, Bool, true, false, arith, le→leb, length, take, done,
}
use vfdd.Prelude.Memory.{renew, length-renew, take-renew}
use vfdd.Strmem.{app_power_of_2-IsCover}
use vfdd.Dbuf.{DBuf, int_max, int_power, dbuf_renew, renew_if}

-- A buffer that owns its block.
pub record IsValid (d : DBuf) : Type 0 where
  pub owned : d.ext_buf ≡ false
  pub block : length d.s ≡ d.size
  pub room : d.len < d.size
  pub unread : d.pos ≤ d.len

-- The longest text whose block still has an `int` for its size.
abbrev pub max_len : ℕ
max_len = 2 ^ 30 - 2

pub int_power-done : (n : ℕ) → n ≤ 2 ^ 30 → (m : ℕ) × (int_power n ≡ done m) × (n ≤ m)
unfolding int_power
int_power-done n h =
    let (m, out, cover) = app_power_of_2-IsCover n (omega arith) in
    (m, rw (out, int_power) (rw (le→leb m int_max (omega (arith, cover.least)))), cover.covers)

-- `e` is `d`, perhaps in a larger block: there is room for `need` bytes, and the old bytes are kept.
pub record Grown (d : DBuf) (need : ℕ) (e : DBuf) : Type 0 where
  pub owned : e.ext_buf ≡ false
  pub block : length e.s ≡ e.size
  pub room : need ≤ e.size
  pub kept : (k : ℕ) → k ≤ length d.s → k ≤ need → take k e.s ≡ take k d.s
  pub same_len : e.len ≡ d.len
  pub same_pos : e.pos ≡ d.pos
  pub same_lineno : e.lineno ≡ d.lineno
  pub same_flags : e.flags ≡ d.flags

-- `dbuf_renew` of a buffer that owns its block ends normally while the size is an `int`.
pub dbuf_renew-Grown :
    (d : DBuf) (n : ℕ)
    → d.ext_buf ≡ false
    → n + 1 ≤ 2 ^ 30
    → (e : DBuf) × (dbuf_renew d n ≡ done e) × Grown d (n + 1) e
unfolding dbuf_renew
dbuf_renew-Grown d n own h =
    let (m, out, fits) = int_power-done (n + 1) h in
    (
      record d { s = renew d.junk d.s m; size = m; renew_count = d.renew_count + 1 },
      rw (own, out),
      record {
        owned = own;
        block = length-renew d.junk d.s m;
        room = fits;
        kept = λ k p q. take-renew d.junk d.s m k (omega arith) p;
        same_len = refl;
        same_pos = refl;
        same_lineno = refl;
        same_flags = refl;
      },
    )

-- A block that is grown on demand has the room that is needed.
pub renew_if-Grown :
    (test : Bool) (d : DBuf) (n need : ℕ)
    → d.ext_buf ≡ false
    → length d.s ≡ d.size
    → n + 1 ≤ 2 ^ 30
    → need ≤ n + 1
    → (test ≡ false → need ≤ d.size)
    → (e : DBuf) × (renew_if test d n ≡ done e) × Grown d need e
renew_if-Grown true d n need own block h le fits =
    let (e, out, g) = dbuf_renew-Grown d n own h in
    (
      e,
      out,
      record {
        owned = g.owned;
        block = g.block;
        room = omega (arith, g.room);
        kept = λ k p q. g.kept k p (omega arith);
        same_len = g.same_len;
        same_pos = g.same_pos;
        same_lineno = g.same_lineno;
        same_flags = g.same_flags;
      },
    )
renew_if-Grown false d n need own block h le fits = (
  d,
  refl,
  record {
    owned = own;
    block = block;
    room = fits refl;
    kept = λ k p q. refl;
    same_len = refl;
    same_pos = refl;
    same_lineno = refl;
    same_flags = refl;
  },
)
