-- ===== src/Daemon/Written.antt =====
-- vfdd.c: what the timer callback writes to the overlay file.
use vfdd.Prelude.Memory.{load, store, load-lt, store-lt}
use vfdd.Prelude.{
  ℕ, zero, suc, ◌+◌, ◌%◌, ◌^◌, ◌≤◌, ◌<◌, bit_or, ◌≡◌, refl, sym, subst, ◌∙◌, inl, inr, false,
  Option, none, some, List, [], ◌∷◌, map, arith, ◌==◌, if◌then◌else◌, Bool-cases, length, get_or,
  set, length-set, Outcome, ◌>>=◌, done,
}
use vfdd.Daemon.{
  LedTest, DotLed, System, each, run_test, set_led, dotled_update, dstr_loop, dotled_test_net,
  dotled_test_colon,
}

-- A test that reads its file has one.
abbrev pub HasFile : Option LedTest → Option (List ℕ) → Type 0
HasFile (some dotled_test_net) none = ⊥
HasFile (some dotled_test_net) (some _) = Unit {0}
HasFile (some dotled_test_colon) _ = Unit {0}
HasFile none _ = Unit {0}

-- Each dot LED is in the words of the display and has the file that its test reads.
abbrev pub AllReady : ℕ → List DotLed → Type 0
AllReady size [] = Unit {0}
AllReady size (x ∷ xs) = (x.target < size) × HasFile x.test_func x.sysfile × AllReady size xs

-- A run that gives as many words.
abbrev pub IsSame : List ℕ → Outcome (List ℕ) → Type 0
IsSame raw out = (r : List ℕ) × (out ≡ done r) × (length r ≡ length raw)

set_led-IsSame :
    (nocolon : ℕ) (led : DotLed) (tmpbuf : Option (List ℕ)) (raw : List ℕ)
    → led.target < length raw
    → HasFile led.test_func tmpbuf
    → IsSame raw (set_led nocolon led tmpbuf raw)
unfolding set_led run_test
set_led-IsSame nocolon led tmpbuf raw h f = pick led.test_func tmpbuf f
  where
    lit : ℕ → Outcome (List ℕ)
    lit val = if val == 0 then done raw else (do
      bits ← load raw led.target
      store raw led.target (bit_or bits (2 ^ led.bit % 2 ^ 16)))

    lit-IsSame : (val : ℕ) → IsSame raw (lit val)
    lit-IsSame val = elim (Bool-cases (val == 0)) [
      | inl e ↦ rw (lit, e) (raw, refl, refl)
      | inr e ↦
          rw (lit, e)
            (
              set raw led.target (bit_or (get_or raw led.target 0) (2 ^ led.bit % 2 ^ 16)),
              rw (load-lt raw led.target h) (store-lt raw led.target _ h),
              length-set raw led.target _,
            )
    ]

    pick :
        (t : Option LedTest) (b : Option (List ℕ))
        → HasFile t b
        → IsSame raw (elim t [ none ↦ done raw | some test ↦ run_test nocolon led b test >>= lit ])
    pick none b f = (raw, refl, refl)
    pick (some dotled_test_net) (some x) f = lit-IsSame 1
    pick (some dotled_test_net) none f = absurd f
    pick (some dotled_test_colon) b f = lit-IsSame (if led.cb then nocolon else 0)

dotled_update-IsSame :
    (sys : System) (nocolon : ℕ) (led : DotLed) (raw : List ℕ)
    → led.target < length raw
    → HasFile led.test_func led.sysfile
    → IsSame raw (dotled_update sys nocolon led raw)
unfolding dotled_update
dotled_update-IsSame sys nocolon led raw h f = pick led.sysfile f
  where
    has_more : (t : Option LedTest) (a b : List ℕ) → HasFile t (some a) → HasFile t (some b)
    has_more none a b f = tt
    has_more (some dotled_test_net) a b f = tt
    has_more (some dotled_test_colon) a b f = tt

    read :
        (name : List ℕ) (o : Option (List ℕ))
        → HasFile led.test_func (some name)
        → IsSame raw (elim o [ none ↦ done raw | some buf ↦ set_led nocolon led (some buf) raw ])
    read name none f = (raw, refl, refl)
    read name (some buf) f =
        set_led-IsSame nocolon led (some buf) raw h (has_more led.test_func name buf f)

    pick :
        (o : Option (List ℕ))
        → HasFile led.test_func o
        → IsSame raw (elim o [
          | none ↦ set_led nocolon led none raw
          | some name ↦ elim (sys.read_file name) [
            | none ↦ done raw
            | some buf ↦ set_led nocolon led (some buf) raw
          ]
        ])
    pick none f = set_led-IsSame nocolon led none raw h f
    pick (some name) f = read name (sys.read_file name) f

pub dots-IsSame :
    (sys : System) (nocolon : ℕ) (dots : List DotLed) (raw : List ℕ)
    → AllReady (length raw) dots
    → IsSame raw (each (dotled_update sys nocolon) dots raw)
unfolding each
dots-IsSame sys nocolon [] raw f = (raw, refl, refl)
dots-IsSame sys nocolon (x ∷ xs) raw f =
    let (r, out, same) = dotled_update-IsSame sys nocolon x raw f.0 f.1 in
    let (r', out', same') =
      dots-IsSame sys nocolon xs r (subst (λ n. AllReady n xs) (sym same) f.2) in
    (r', rw out out', same' ∙ same)

pub dstr_loop-done :
    (dstr map : List ℕ) (n i : ℕ)
    → n + i ≤ length dstr
    → n + i ≤ length map
    → dstr_loop false dstr map n i ≡ done tt
unfolding dstr_loop
dstr_loop-done dstr map zero i h k = refl
dstr_loop-done dstr map (suc n) i h k =
    simp
      (
        load-lt dstr i (omega arith),
        load-lt map i (omega arith),
        dstr_loop-done dstr map n (i + 1) (omega arith) (omega arith),
      )
      refl
