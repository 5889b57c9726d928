-- ===== src/Driver/Glyphs.antt =====
-- vfdmod/linux_vfd/vfd-glyphs.c and vfd-glyphs.c.h: the glyph images. The two tables have the same
-- entries over two assignments of the segments to bits.
use vfdd.Prelude.{ℕ, bit_or, List, [], ◌∷◌}

-- The bits of the segments a to g.
pub record Segments : Type 0 where
  pub a : ℕ
  pub b : ℕ
  pub c : ℕ
  pub d : ℕ
  pub e : ℕ
  pub f : ℕ
  pub g : ℕ

-- The `#define`s of vfdmod/linux_vfd/vfd-glyphs.c
abbrev pub driver_segments : Segments
driver_segments = record { a = 0x08; b = 0x02; c = 0x04; d = 0x01; e = 0x10; f = 0x20; g = 0x40 }

-- The `#define`s of vfd-glyphs.c.h
abbrev pub daemon_segments : Segments
daemon_segments = record { a = 0x08; b = 0x10; c = 0x20; d = 0x01; e = 0x02; f = 0x04; g = 0x40 }

infixl 20 ◌∣◌
abbrev ◌∣◌ : ℕ → ℕ → ℕ
x ∣ y = bit_or x y

-- `struct vfd_glyph_t`: a code and an image. The entry of code 0 ends the table.
abbrev pub Glyph : Type 0
Glyph = ℕ × ℕ

-- The table `vfd_glyphs`, over the bits of the segments.
unfoldable pub vfd_glyphs : Segments → List Glyph
vfd_glyphs s =
    (b'0', a ∣ b ∣ c ∣ d ∣ e ∣ f)
    ∷ (b'1', b ∣ c)
    ∷ (b'2', a ∣ b ∣ g ∣ e ∣ d)
    ∷ (b'3', a ∣ b ∣ g ∣ c ∣ d)
    ∷ (b'4', f ∣ g ∣ b ∣ c)
    ∷ (b'5', a ∣ f ∣ g ∣ c ∣ d)
    ∷ (b'6', a ∣ f ∣ e ∣ d ∣ c ∣ g)
    ∷ (b'7', a ∣ b ∣ c)
    ∷ (b'8', a ∣ b ∣ c ∣ d ∣ e ∣ f ∣ g)
    ∷ (b'9', g ∣ f ∣ a ∣ b ∣ c ∣ d)
    ∷ (b' ', 0)
    ∷ (b'~', a)
    ∷ (b'-', g)
    ∷ (b'_', d)
    ∷ (b'`', f)
    ∷ (39, b)
    ∷ (34, b ∣ f)
    ∷ (b'/', e ∣ g ∣ b)
    ∷ (92, f ∣ g ∣ c)
    ∷ (b'*', a ∣ b ∣ f ∣ g)
    ∷ (b'A', e ∣ f ∣ a ∣ b ∣ c ∣ g)
    ∷ (b'B', a ∣ b ∣ c ∣ d ∣ e ∣ f ∣ g)
    ∷ (b'C', a ∣ f ∣ e ∣ d)
    ∷ (b'D', a ∣ b ∣ c ∣ d ∣ e ∣ f)
    ∷ (b'E', a ∣ f ∣ g ∣ e ∣ d)
    ∷ (b'F', e ∣ f ∣ g ∣ f ∣ a)
    ∷ (b'G', a ∣ f ∣ e ∣ d ∣ c ∣ g)
    ∷ (b'H', f ∣ b ∣ e ∣ c ∣ g)
    ∷ (b'I', b ∣ c)
    ∷ (b'J', b ∣ c ∣ d)
    ∷ (b'K', f ∣ e ∣ g ∣ b ∣ c)
    ∷ (b'L', f ∣ e ∣ d)
    ∷ (b'M', f ∣ e ∣ a ∣ b ∣ c)
    ∷ (b'N', f ∣ e ∣ a ∣ b ∣ c)
    ∷ (b'O', a ∣ b ∣ c ∣ d ∣ e ∣ f)
    ∷ (b'P', e ∣ f ∣ a ∣ b ∣ g)
    ∷ (b'Q', e ∣ f ∣ a ∣ b ∣ c ∣ d)
    ∷ (b'R', e ∣ f ∣ a ∣ b ∣ g ∣ c)
    ∷ (b'S', a ∣ f ∣ g ∣ c ∣ d)
    ∷ (b'T', f ∣ e ∣ a)
    ∷ (b'U', f ∣ e ∣ d ∣ c ∣ b)
    ∷ (b'V', f ∣ e ∣ d ∣ c ∣ b)
    ∷ (b'W', f ∣ e ∣ d ∣ c ∣ b)
    ∷ (b'X', f ∣ g ∣ c ∣ b ∣ e)
    ∷ (b'Y', f ∣ g ∣ b ∣ c ∣ d)
    ∷ (b'Z', a ∣ b ∣ g ∣ e ∣ d)
    ∷ (b'a', a ∣ b ∣ c ∣ d ∣ e ∣ g)
    ∷ (b'b', f ∣ g ∣ c ∣ d ∣ e)
    ∷ (b'c', g ∣ e ∣ d)
    ∷ (b'd', g ∣ e ∣ d ∣ c ∣ b)
    ∷ (b'e', d ∣ e ∣ f ∣ a ∣ b ∣ g)
    ∷ (b'f', e ∣ f ∣ a ∣ g)
    ∷ (b'g', f ∣ a ∣ b ∣ g ∣ c ∣ d)
    ∷ (b'h', f ∣ g ∣ c ∣ e)
    ∷ (b'i', c)
    ∷ (b'j', c ∣ d)
    ∷ (b'k', f ∣ g ∣ c ∣ e ∣ b)
    ∷ (b'l', f ∣ e)
    ∷ (b'm', e ∣ g ∣ c)
    ∷ (b'n', e ∣ g ∣ c)
    ∷ (b'o', e ∣ g ∣ c ∣ d)
    ∷ (b'p', e ∣ f ∣ a ∣ b ∣ g)
    ∷ (b'q', g ∣ f ∣ a ∣ b ∣ c)
    ∷ (b'r', e ∣ g)
    ∷ (b's', a ∣ f ∣ g ∣ c ∣ d)
    ∷ (b't', f ∣ g ∣ e ∣ d)
    ∷ (b'u', e ∣ d ∣ c)
    ∷ (b'v', e ∣ d ∣ c)
    ∷ (b'w', e ∣ d ∣ c)
    ∷ (b'x', f ∣ g ∣ c ∣ b ∣ e)
    ∷ (b'y', f ∣ g ∣ b ∣ c ∣ d)
    ∷ (b'z', a ∣ b ∣ g ∣ e ∣ d)
    ∷ (0, 0)
    ∷ []
  where
    open s use {a, b, c, d, e, f, g}

-- The table of vfd-glyphs.c.h
abbrev pub daemon_glyphs : List Glyph
daemon_glyphs = vfd_glyphs daemon_segments
