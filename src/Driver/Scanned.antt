-- ===== src/Driver/Scanned.antt =====
-- vfdmod/linux_vfd/vfd.c: which keys a scan reports.
use vfdd.Prelude.Bits.{and_digits, and-one}
use vfdd.Prelude.Lowest.{and-negation, xor-lowest, xor-lt, xor-half, xor-same, xor-other}
use vfdd.Prelude.{
  ℕ, zero, suc, ◌+◌, ◌-◌, ◌*◌, ◌/◌, ◌%◌, ◌^◌, ◌≤◌, ◌<◌, bit_and, bit_xor, ◌≡◌, refl, sym, ap, ap₂,
  subst, ◌∙◌, inl, inr, Bool, true, false, ◌&&◌, Option, none, some, List, [], ◌∷◌, ◌++◌, arith,
  ltb, ◌==◌, if◌then◌else◌, ltb→lt, ltb→le, ==_iff, ==_ne, Bool-cases, get_or,
}
use native.Mathlib.Nat.{pow-suc, one-le-pow, pow-le-pow_right}
use vfdd.Driver.{Key, Vfd}
use vfdd.Driver.Scan.{
  bit_positions, lowest, scancode_of, Report, report_loop, report_key, scan_loop, vfd_scan_keys,
}

-- A test that holds below a bound.
abbrev holds_below : (ℕ → Bool) → ℕ → Bool
holds_below test zero = true
holds_below test (suc n) = test n && holds_below test n

and_true : (a b : Bool) → (a && b) ≡ true → (a ≡ true) × (b ≡ true)
and_true true b h = (refl, h)
and_true false b h = cc

holds_below_lem : (test : ℕ → Bool) (n k : ℕ) → holds_below test n ≡ true → k < n → test k ≡ true
holds_below_lem test zero k h lt = absurd (omega arith)
holds_below_lem test (suc n) k h lt = elim (Bool-cases (ltb k n)) [
  | inl a ↦ holds_below_lem test n k (and_true (test n) (holds_below test n) h).1 (ltb→lt k n a)
  | inr a ↦
      let last : n ≡ k = omega (arith, ltb→le k n a) in
      subst (λ i. test i ≡ true) last (and_true (test n) (holds_below test n) h).0
]

-- The table gives the position of the bit.
table-position :
    (k : ℕ) → k < 32 → get_or bit_positions (2 ^ k * 0x077CB531 % 2 ^ 32 / 2 ^ 27) 0 ≡ k
table-position k h = (==_iff (get_or bit_positions (2 ^ k * 0x077CB531 % 2 ^ 32 / 2 ^ 27) 0) k).0 (
    holds_below_lem (λ i. get_or bit_positions (2 ^ i * 0x077CB531 % 2 ^ 32 / 2 ^ 27) 0 == i) 32 k
      refl h)

odd_positive : (s d : ℕ) → d % 2 ≡ 1 → 1 ≤ d * 2 ^ s
odd_positive s zero odd = absurd (omega arith)
odd_positive s (suc d) odd =
    let least : 1 ≤ 2 ^ s = one-le-pow s 2 (omega arith) in
    let more : suc d * 2 ^ s ≡ d * 2 ^ s + 2 ^ s = omega arith in omega arith

-- `x & -x` is the lowest bit of a 32-bit number.
pub lowest_lem : (s d : ℕ) → d % 2 ≡ 1 → d * 2 ^ s < 2 ^ 32 → lowest (d * 2 ^ s) ≡ 2 ^ s
unfolding lowest
lowest_lem s d odd h =
    let some_bit = odd_positive s d odd in
    let plain : (2 ^ 32 - d * 2 ^ s) % 2 ^ 32 ≡ 2 ^ 32 - d * 2 ^ s = omega arith in
    ap (bit_and (d * 2 ^ s)) plain ∙ and-negation 32 s d odd h

pub scancode_of-pow : (k : ℕ) → k < 32 → scancode_of (2 ^ k) ≡ k
unfolding scancode_of
scancode_of-pow k h =
    let alone : 1 * 2 ^ k ≡ 2 ^ k = omega arith in
    let low : lowest (2 ^ k) ≡ 2 ^ k =
      subst (λ x. lowest x ≡ 2 ^ k) alone (lowest_lem k 1 refl (omega (arith, below k h))) in
    ap (λ b. get_or bit_positions (b * 0x077CB531 % 2 ^ 32 / 2 ^ 27) 0) low ∙ table-position k h
  where
    below : (i : ℕ) → i < 32 → 2 ^ i < 2 ^ 32
    below i lt =
        let most : 2 ^ i ≤ 2 ^ 31 = pow-le-pow_right (omega arith) {j = 31} (omega arith) in
        omega arith

-- What a scan reports, key by key: for each bit from `s` on that `d` has set, in ascending order, the
-- keys of the device tree with that scancode, with their new state.
unfoldable pub reports_of : List Key → ℕ → ℕ → ℕ → ℕ → List Report
reports_of ks keys zero s d = []
reports_of ks keys (suc n) s d =
    let more = reports_of ks keys n (s + 1) (d / 2) in
    if d % 2 == 1 then (report_loop ks s (bit_and keys (2 ^ s)) 0).0 ++ more else more

-- A scan that found some driver's state and these reports, with the keys of the device tree unchanged.
pub record Scanned (v : Vfd) (keys : ℕ) (reports : List Report) (out : Option (Vfd × List Report))
    : Type 0 where
  pub vfd : Vfd
  pub returns : out ≡ some (vfd, reports)
  pub same : vfd ≡ record v { last_scancode = vfd.last_scancode; last_keycode = vfd.last_keycode }

shift-lt : (n s d : ℕ) → d < 2 ^ n → d * 2 ^ s < 2 ^ (n + s)
shift-lt n zero d h =
    subst (λ i. d * 1 < 2 ^ i) (let e : n ≡ n + 0 = omega arith in e) (omega arith)
shift-lt n (suc s) d h =
    let later : n + suc s ≡ suc (n + s) = omega arith in
    let power : 2 ^ (n + suc s) ≡ 2 ^ (n + s) * 2 = ap (λ i. 2 ^ i) later ∙ pow-suc 2 (n + s) in
    let twice : d * 2 ^ suc s ≡ d * 2 ^ s * 2 =
      omega (arith, ap (λ (t : ℕ). d * t) (pow-suc 2 s)) in
    let ih = shift-lt n s d h in omega arith

scan_loop-zero : (f : ℕ) (v : Vfd) (keys : ℕ) → scan_loop f v keys 0 ≡ some (v, [])
unfolding scan_loop
scan_loop-zero zero v keys = refl
scan_loop-zero (suc f) v keys = refl

-- The driver behind the report of scancode `s`.
abbrev told : Vfd → ℕ → ℕ → Vfd
told v keys s = record v {
  last_scancode = s;
  last_keycode = (report_loop v.keys s (bit_and keys (2 ^ s)) 0).1;
}

-- One round, at the lowest bit of an odd number times 2 ^ s.
scan_round :
    (f s d : ℕ) (v : Vfd) (keys : ℕ)
    → s < 32
    → d % 2 ≡ 1
    → d * 2 ^ s < 2 ^ 32
    → scan_loop (suc f) v keys (d * 2 ^ s)
      ≡ elim (scan_loop f (told v keys s) keys (d / 2 * 2 ^ suc s)) [
        | none ↦ none
        | some (w, more) ↦ some (w, (report_loop v.keys s (bit_and keys (2 ^ s)) 0).0 ++ more)
      ]
unfolding scan_loop report_key
scan_round f s d v keys h odd small =
    let x = d * 2 ^ s in
    let some_bit = odd_positive s d odd in
    let low = lowest_lem s d odd small in
    let one : report_key v keys (lowest x)
        ≡ (told v keys s, (report_loop v.keys s (bit_and keys (2 ^ s)) 0).0) =
      ap (report_key v keys) low ∙ told_there in
    let left = ap (bit_xor x) low ∙ xor-lowest s d odd in
    rw (==_ne x 0 (omega arith)) (
      ap₂
        (λ (r : Vfd × List Report) (y : ℕ).
          elim (scan_loop f r.0 keys y) as (λ _. Option (Vfd × List Report)) [
            | none ↦ none
            | some (w, more) ↦ some (w, r.1 ++ more)
          ])
        one left)
  where
    told_there :
        report_key v keys (2 ^ s)
        ≡ (told v keys s, (report_loop v.keys s (bit_and keys (2 ^ s)) 0).0)
    told_there = rw (scancode_of-pow s h) refl

scan_loop-Scanned :
    (n f s d : ℕ) (v : Vfd) (keys : ℕ)
    → n + s ≡ 32
    → n ≤ f
    → d < 2 ^ n
    → Scanned v keys (reports_of v.keys keys n s d) (scan_loop f v keys (d * 2 ^ s))
unfolding reports_of
scan_loop-Scanned zero f s d v keys e enough small =
    let gone : d * 2 ^ s ≡ 0 =
      ap (λ n. n * 2 ^ s) (let z : d ≡ 0 = omega arith in z) ∙ omega arith in
    record {
      vfd = v;
      returns = ap (scan_loop f v keys) gone ∙ scan_loop-zero f v keys;
      same = refl;
    }
scan_loop-Scanned (suc n) zero s d v keys e enough small = absurd (omega arith)
scan_loop-Scanned (suc n) (suc f) s d v keys e enough small = elim (Bool-cases (d % 2 == 1)) [
  | inl a ↦
      let one : d % 2 ≡ 1 = (==_iff (d % 2) 1).0 a in
      let fits : d * 2 ^ s < 2 ^ 32 =
        subst (λ i. d * 2 ^ s < 2 ^ i) e (shift-lt (suc n) s d small) in
      let ih =
        scan_loop-Scanned n f (s + 1) (d / 2) (told v keys s) keys (omega arith) (omega arith)
          (omega (arith, pow-suc 2 n)) in
      rw a (record {
        vfd = ih.vfd;
        returns =
            scan_round f s d v keys (omega arith) one fits
            ∙ ap
                (λ out. elim out as (λ _. Option (Vfd × List Report)) [
                  | none ↦ none
                  | some (w, more) ↦
                      some (w, (report_loop v.keys s (bit_and keys (2 ^ s)) 0).0 ++ more)
                ])
                (ap (λ i. scan_loop f (told v keys s) keys (d / 2 * 2 ^ i)) next ∙ ih.returns);
        same = ih.same;
      })
  | inr a ↦ rw a (
      subst
        (λ x.
          Scanned v keys (reports_of v.keys keys n (s + 1) (d / 2)) (scan_loop (suc f) v keys x))
        (halved a)
        (scan_loop-Scanned n (suc f) (s + 1) (d / 2) v keys (omega arith) (omega arith)
          (omega (arith, pow-suc 2 n))))
]
  where
    next : suc s ≡ s + 1
    next = omega arith

    halved : (d % 2 == 1) ≡ false → d / 2 * 2 ^ (s + 1) ≡ d * 2 ^ s
    halved a =
        let even : d ≡ d / 2 * 2 = ground arith in
        let there : d * 2 ^ s ≡ d / 2 * 2 * 2 ^ s = ap (λ t. t * 2 ^ s) even in
        let double : d / 2 * 2 ^ (s + 1) ≡ d / 2 * (2 ^ s * 2) =
          ap (λ (t : ℕ). d / 2 * t) (ap (λ i. 2 ^ i) (sym next) ∙ pow-suc 2 s) in
        omega arith

-- The reports of the keys of the device tree with scancode `s`, in the order of the tree.
unfoldable pub keys_at : List Key → ℕ → ℕ → List Report
keys_at [] s state = []
keys_at (k ∷ ks) s state =
    let more = keys_at ks s state in
    if k.scancode == s then record { keycode = k.keycode; value = state } ∷ more else more

-- The reports for the bits from `s` on in which the two states of the keys differ: `new` and `old` from
-- there. A key that is down has a value that is not 0, and one that is up has 0.
unfoldable pub changes : List Key → ℕ → ℕ → ℕ → ℕ → List Report
changes ks zero s new old = []
changes ks (suc n) s new old =
    let more = changes ks n (s + 1) (new / 2) (old / 2) in
    if new % 2 == old % 2 then more else keys_at ks s (new % 2 * 2 ^ s) ++ more

report_loop-keys_at :
    (ks : List Key) (s state last : ℕ) → (report_loop ks s state last).0 ≡ keys_at ks s state
unfolding report_loop keys_at
report_loop-keys_at [] s state last = refl
report_loop-keys_at (k ∷ ks) s state last = elim (Bool-cases (s == k.scancode)) [
  | inl a ↦
      rw (a, (==_iff k.scancode s).1 (sym ((==_iff s k.scancode).0 a)))
        (ap (λ t. record { keycode = k.keycode; value = state } ∷ t)
          (report_loop-keys_at ks s state k.keycode))
  | inr a ↦ rw (a, ==_ne k.scancode s (ground arith)) (report_loop-keys_at ks s state last)
]

-- `a` without its lowest `s` bits
abbrev higher : ℕ → ℕ → ℕ
higher zero a = a
higher (suc s) a = higher s (a / 2)

higher-next : (s a : ℕ) → higher (suc s) a ≡ higher s a / 2
higher-next zero a = refl
higher-next (suc s) a = higher-next s (a / 2)

and-pow : (s a : ℕ) → bit_and a (2 ^ s) ≡ higher s a % 2 * 2 ^ s
and-pow zero a = omega (arith, and-one a)
and-pow (suc s) a =
    let double : 2 ^ suc s ≡ 2 ^ s * 2 = pow-suc 2 s in
    let half : 2 ^ suc s / 2 ≡ 2 ^ s = omega arith in
    omega (
      arith,
      and_digits a (2 ^ suc s),
      ap (bit_and (a / 2)) half,
      and-pow s (a / 2),
      ap (λ (t : ℕ). higher s (a / 2) % 2 * t) double,
    )

reports_of-changes :
    (n s new old : ℕ) (ks : List Key) (keys : ℕ)
    → new ≡ higher s keys
    → reports_of ks keys n s (bit_xor new old) ≡ changes ks n s new old
unfolding reports_of changes
reports_of-changes zero s new old ks keys e = refl
reports_of-changes (suc n) s new old ks keys e =
    let next : s + 1 ≡ suc s = omega arith in
    let there : new / 2 ≡ higher (s + 1) keys =
      ap (λ t. t / 2) e ∙ sym (ap (λ i. higher i keys) next ∙ higher-next s keys) in
    let ih = reports_of-changes n (s + 1) (new / 2) (old / 2) ks keys there in
    elim (Bool-cases (new % 2 == old % 2)) [
      | inl a ↦
          let none_there = xor-same new old ((==_iff (new % 2) (old % 2)).0 a) in
          rw (a, ==_ne (bit_xor new old % 2) 1 (omega arith), xor-half new old) ih
      | inr a ↦
          let differ_there = xor-other new old (ground arith) in
          let state : bit_and keys (2 ^ s) ≡ new % 2 * 2 ^ s =
            and-pow s keys ∙ ap (λ t. t % 2 * 2 ^ s) (sym e) in
          rw (a, (==_iff (bit_xor new old % 2) 1).1 differ_there, xor-half new old)
            (ap₂ (λ u t. u ++ t)
              (report_loop-keys_at ks s (bit_and keys (2 ^ s)) 0 ∙ ap (keys_at ks s) state) ih)
    ]

-- For a bitmap of at most 32 keys `vfd_scan_keys` returns: it reports the keys whose bit changed, in
-- ascending order of the scancode and then in that of the device tree, each with its new state, notes the new bitmap, and changes nothing
-- else but the last scancode and keycode.
pub vfd_scan_keys-changes :
    (v : Vfd) (keys : ℕ)
    → keys < 2 ^ 32
    → v.keystate < 2 ^ 32
    → (sc code : ℕ) × (vfd_scan_keys v keys
        ≡ some (
          record v { last_scancode = sc; last_keycode = code; keystate = keys },
          changes v.keys 32 0 keys v.keystate,
        ))
unfolding vfd_scan_keys
vfd_scan_keys-changes v keys h g =
    let diff = bit_xor keys v.keystate in
    let found =
      scan_loop-Scanned 32 32 0 diff v keys refl (omega arith) (xor-lt 32 keys v.keystate h g) in
    let pack : Vfd → List Report → Option (Vfd × List Report) =
      λ w rs. some (record w { keystate = keys }, rs) in
    let plain : diff * 2 ^ 0 ≡ diff = omega arith in
    let out = ap (scan_loop 32 v keys) (sym plain) ∙ found.returns in
    (
      found.vfd.last_scancode,
      found.vfd.last_keycode,
      ap
            (λ o. elim o as (λ _. Option (Vfd × List Report)) [
              | none ↦ none
              | some (w, rs) ↦ some (record w { keystate = keys }, rs)
            ])
            out
          ∙ (ap₂ pack found.same (reports_of-changes 32 0 keys v.keystate v.keys keys refl)),
    )
