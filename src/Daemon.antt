-- ===== src/Daemon.antt =====
-- vfdd.c, dotled.c and display.c: the timer callback of the daemon, which writes the display and exits.
-- A `dlist_iterator` whose callback returns 0 goes over the items in order; a list of objects is the list
-- of the objects themselves.
pub mod Letters
pub mod Written
pub mod Exit
pub mod Tests
use vfdd.Prelude.Memory.{load, store}
use vfdd.Prelude.{
  ℕ, zero, suc, ◌+◌, ◌-◌, ◌*◌, ◌/◌, ◌%◌, ◌^◌, bit_or, Bool, ◌||◌, Option, none, some, List, [], ◌∷◌,
  ◌++◌, map, ltb, leb, ◌==◌, if◌then◌else◌, length, get_elem?, drop, replicate, Outcome, ◌>>=◌,
  done, fault,
}
use vfdd.Driver.Glyphs.{Glyph, daemon_glyphs}

-- The functions of `test_fun_tbl` that are not 0.
pub data LedTest : Type 0 where
  dotled_test_net dotled_test_colon : LedTest

-- `struct _DotLed`. `target` is an index into `display_raw`; `cb` tells whether `cb_func` is
-- `vfdd_get_colon`. `tmpbuf` is read in the call that sets it only, and is no field here.
pub record DotLed : Type 0 where
  pub name : List ℕ
  pub sysfile : Option (List ℕ)
  pub test_func : Option LedTest
  pub cb : Bool
  pub target : ℕ
  pub bit : ℕ

-- `struct _VfddDisplay`
pub record VfddDisplay : Type 0 where
  pub name : List ℕ
  pub sysfile : Option (List ℕ)
  pub format : Option (List ℕ)
  pub order : ℕ

-- The fields of `struct _Vfdd` that the callback uses. A block is the list of its elements, and `word` is
-- the memory from `argv[1]` on.
pub record Vfdd : Type 0 where
  pub display_raw : List ℕ
  pub dots : List DotLed
  pub list_cbs : List VfddDisplay
  pub digit_map : List ℕ
  pub dotled_map : ℕ
  pub display_str : Option (List ℕ)
  pub timer_count : ℕ
  pub digit_num : ℕ
  pub grid_num : ℕ
  pub nocolon : ℕ
  pub word : List ℕ

-- What the callback asks of the system and of libc: the second of the local time, `strftime` at that
-- time, `snprintf` with one number, `strtoul` to base 10 of a value that an `int` can hold, the bytes of
-- a file that there is and that opens, and whether the overlay file opens; and the flag of the options -d
-- and -dm.
pub record System : Type 0 where
  pub tm_sec : ℕ
  pub strftime : List ℕ → List ℕ
  pub snprintf : List ℕ → ℕ → List ℕ
  pub strtoul : List ℕ → ℕ
  pub read_file : List ℕ → Option (List ℕ)
  pub opens : Bool
  pub prog_debug : Bool

-- A callback that returns 0, on each item.
unfoldable pub each : {A S : Type 0} → (A → S → Outcome S) → List A → S → Outcome S
each func [] s = done s
each func (x ∷ xs) s = do s' ← func x s; each func xs s'

-- `display_get_temp`
unfoldable pub display_get_temp : System → VfddDisplay → ℕ
display_get_temp sys dis = elim dis.sysfile [
  | none ↦ 0
  | some name ↦ elim (sys.read_file name) [ none ↦ 0 | some buf ↦ sys.strtoul buf ]
]

-- A format that is NULL is not for printing.
unfoldable pub formatted : (List ℕ → List ℕ) → VfddDisplay → Outcome (Option (List ℕ))
formatted print dis = elim dis.format [ none ↦ fault | some format ↦ done (some (print format)) ]

-- `display_iter_update_cb`: the new `display_str`. An `order` that the `switch` does not have leaves
-- `buff` as it is on the stack.
unfoldable pub display_update : System → VfddDisplay → Option (List ℕ) → Outcome (Option (List ℕ))
display_update sys dis str =
    if dis.order == 1
    then (if ltb sys.tm_sec 5 || leb 10 sys.tm_sec then done str else formatted sys.strftime dis)
    else if dis.order == 0
    then formatted sys.strftime dis
    else if dis.order == 2
    then (if ltb sys.tm_sec 15 || leb 20 sys.tm_sec
        then done str
        else formatted (λ format. sys.snprintf format (display_get_temp sys dis / 1000)) dis)
    else fault

-- `dotled_test_net`, which returns 1, and `dotled_test_colon`: `strtoul` reads `tmpbuf`, which is NULL
-- if there is no file.
unfoldable pub run_test : ℕ → DotLed → Option (List ℕ) → LedTest → Outcome ℕ
run_test nocolon led tmpbuf dotled_test_net = elim tmpbuf [ none ↦ fault | some _ ↦ done 1 ]
run_test nocolon led tmpbuf dotled_test_colon = done (if led.cb then nocolon else 0)

-- The test and the bit of `dotled_iter_update`
unfoldable pub set_led : ℕ → DotLed → Option (List ℕ) → List ℕ → Outcome (List ℕ)
set_led nocolon led tmpbuf raw = elim led.test_func [
  | none ↦ done raw
  | some test ↦ run_test nocolon led tmpbuf test >>= λ val. if val == 0 then done raw else (do
    bits ← load raw led.target
    store raw led.target (bit_or bits (2 ^ led.bit % 2 ^ 16)))
]

-- `dotled_iter_update`
unfoldable pub dotled_update : System → ℕ → DotLed → List ℕ → Outcome (List ℕ)
dotled_update sys nocolon led raw = elim led.sysfile [
  | none ↦ set_led nocolon led none raw
  | some name ↦ elim (sys.read_file name) [
    | none ↦ done raw
    | some buf ↦ set_led nocolon led (some buf) raw
  ]
]

-- The loop of `getMyGlyph` at `i`, with `n` rounds to go; the bound counts bytes, two for an entry.
unfoldable pub glyph_loop : List Glyph → ℕ → ℕ → ℕ → Outcome ℕ
glyph_loop table letter zero i = elim (get_elem? table 0) [ none ↦ fault | some g ↦ done g.1 ]
glyph_loop table letter (suc n) i =
    let rest = glyph_loop table letter n (i + 1) in
    elim (get_elem? table i) [ none ↦ fault | some g ↦ if letter == g.0 then done g.1 else rest ]

unfoldable pub get_my_glyph : ℕ → Outcome ℕ
get_my_glyph letter = glyph_loop daemon_glyphs letter (2 * length daemon_glyphs) 0

-- The loop of `vfdd_update_display` at `i`, `n` digits to go: it reads the string and the map, and
-- stores nothing. A debug message has `render_tbl[ch]` in it, and `render_tbl` is NULL: nothing sets it.
unfoldable pub dstr_loop : Bool → List ℕ → List ℕ → ℕ → ℕ → Outcome (Unit {0})
dstr_loop debug dstr map zero i = done tt
dstr_loop debug dstr map (suc n) i = do
  _ ← load dstr i
  _ ← load map i
  if debug then fault else dstr_loop debug dstr map n (i + 1)

-- `vf->display_raw[k] = getMyGlyph( vf->word[j] )`
unfoldable pub put_glyph : List ℕ → ℕ → ℕ → List ℕ → Outcome (List ℕ)
put_glyph word j k raw = do letter ← load word j; image ← get_my_glyph letter; store raw k image

-- `vfdd_update_display`; the first debug message reads the word of the dot LEDs.
unfoldable pub update_display : Bool → Vfdd → Outcome (List ℕ)
update_display debug vf = do
  _ ← if debug then load vf.display_raw vf.dotled_map else done 0
  _ ←
      dstr_loop debug
        (elim vf.display_str as (λ _. List ℕ) [ none ↦ [] | some str ↦ str ++ 0 ∷ [] ]) vf.digit_map
        vf.digit_num 0
  r₁ ← put_glyph vf.word 0 3 vf.display_raw
  r₂ ← put_glyph vf.word 1 2 r₁
  r₃ ← put_glyph vf.word 2 1 r₂
  put_glyph vf.word 3 0 r₃

-- A digit of `%X`, and `%04X ` of a number below 2 ^ 16
unfoldable pub upper_digit : ℕ → ℕ
upper_digit n = if ltb n 10 then b'0' + n else b'A' + (n - 10)

unfoldable pub word_text : ℕ → List ℕ
word_text n =
    upper_digit (n / 4096 % 16)
    ∷ upper_digit (n / 256 % 16)
    ∷ upper_digit (n / 16 % 16)
    ∷ upper_digit (n % 16)
    ∷ b' '
    ∷ []

-- The loop of `vfdd_overlay_store` at `i`, `n` words to go.
unfoldable pub text_loop : List ℕ → ℕ → ℕ → Outcome (List ℕ)
text_loop raw zero i = done []
text_loop raw (suc n) i = do
  word ← load raw i
  text ← text_loop raw n (i + 1)
  done (word_text word ++ text)

-- `vfdd_overlay_store`: what the file then has, or `none` if it does not open.
unfoldable pub store_overlay : System → Vfdd → Outcome (Option (List ℕ))
store_overlay sys vf =
    if sys.opens
    then (do text ← text_loop vf.display_raw vf.grid_num 0; done (some text))
    else done none

-- `memset( vf->display_raw, 0, vf->grid_num * 2 )`
unfoldable pub clear_raw : Vfdd → Outcome (List ℕ)
clear_raw vf =
    if leb vf.grid_num (length vf.display_raw)
    then done (replicate vf.grid_num 0 ++ drop vf.grid_num vf.display_raw)
    else fault

-- `vfdd_timer_cb`: the status that the program exits with, the state then, and the overlay file.
unfoldable pub timer_cb : System → Vfdd → Outcome (ℕ × Vfdd × Option (List ℕ))
timer_cb sys vf = do
  r₁ ← clear_raw vf
  str ← each (display_update sys) vf.list_cbs vf.display_str
  r₂ ← each (dotled_update sys vf.nocolon) vf.dots r₁
  let vf₁ = record vf {
    timer_count = (vf.timer_count + 1) % 2 ^ 64;
    display_raw = r₂;
    display_str = str;
  }
  r₃ ← update_display sys.prog_debug vf₁
  let vf₂ = record vf₁ { display_raw = r₃ }
  text ← store_overlay sys vf₂
  done (1, vf₂, text)
