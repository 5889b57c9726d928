-- ===== src/Daemon/Tests.antt =====
-- Runs of the daemon's timer callback.
use vfdd.Prelude.Memory.{load, store}
use vfdd.Prelude.{◌≡◌, refl, true, false, none, some, [], ◌∷◌, done, fault}
use vfdd.Driver.Glyphs.{vfd_glyphs}
use vfdd.Daemon.{
  DotLed, VfddDisplay, Vfdd, System, each, run_test, set_led, dotled_update, get_my_glyph,
  dotled_test_net, dotled_test_colon,
}
use vfdd.Daemon.Letters.{image_of, get_my_glyph-known}

-- A time_shown, a dot LED that is always lit and one for the colon.
abbrev time_shown : VfddDisplay
time_shown = record { name = []; sysfile = none; format = some (b'%' ∷ b'R' ∷ []); order = 0 }

abbrev net : DotLed
net = record {
  name = [];
  sysfile = some [];
  test_func = some dotled_test_net;
  cb = false;
  target = 0;
  bit = 6;
}

abbrev colon : DotLed
colon = record {
  name = [];
  sysfile = none;
  test_func = some dotled_test_colon;
  cb = true;
  target = 0;
  bit = 2;
}

abbrev noon : System
noon = record {
  tm_sec = 7;
  strftime = λ _. b'1' ∷ b'2' ∷ b'0' ∷ b'0' ∷ [];
  snprintf = λ _ _. [];
  strtoul = λ _. 0;
  read_file = λ _. some (b'1' ∷ []);
  opens = true;
  prog_debug = false;
}

abbrev started : Vfdd
started = record {
  display_raw = 9 ∷ 9 ∷ 9 ∷ 9 ∷ [];
  dots = net ∷ colon ∷ [];
  list_cbs = time_shown ∷ [];
  digit_map = 1 ∷ 2 ∷ 3 ∷ 4 ∷ [];
  display_str = none;
  timer_count = 0;
  dotled_map = 0;
  digit_num = 4;
  grid_num = 4;
  nocolon = 1;
  word = b't' ∷ b'u' ∷ b't' ∷ b'u' ∷ 0 ∷ [];
}

-- The colon is lit in the words before the letters are put there.
dots_run :
    each (dotled_update noon 1) (net ∷ colon ∷ []) (0 ∷ 0 ∷ 0 ∷ 0 ∷ [])
    ≡ done (0x44 ∷ 0 ∷ 0 ∷ 0 ∷ [])
unfolding each dotled_update set_led run_test load store
dots_run = refl

get_my_glyph-known_example : get_my_glyph b'!' ≡ fault
unfolding image_of vfd_glyphs
get_my_glyph-known_example = get_my_glyph-known b'!'
