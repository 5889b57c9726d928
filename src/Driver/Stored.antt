-- ===== src/Driver/Stored.antt =====
-- vfdmod/linux_vfd/vfd.c: what the sysfs writes leave, and what the timer then sends to the chip.
use vfdd.Prelude.Lowest.{bit-complement}
use native.Mathlib.Nat.{pow-le-pow_right}
use vfdd.Driver.Update.{words_bytes}
use vfdd.Driver.Timer.{animate, update_if, tick}
use vfdd.Driver.Refresh.{IsSetUp, IsRefreshed, hardware_update_display-IsRefreshed}
use vfdd.Driver.DotLeds.{switch}
use vfdd.Driver.Chip.{Chip}
use vfdd.Prelude.Bits.{bit, bit-or, bit-and, bit-pow, bit-lt, or-lt}
use vfdd.Prelude.{
  ℕ, zero, suc, ◌+◌, ◌-◌, ◌%◌, ◌^◌, ◌≤◌, ◌<◌, min, bit_or, ◌≡◌, refl, ap, ◌∙◌, inl, inr, Bool, true,
  false, not, ◌&&◌, ◌||◌, List, ◌++◌, arith, ltb, ◌==◌, if◌then◌else◌, ltb→lt, ltb→le, ==_iff,
  ==_ne, Bool-cases, length, get_or, take, drop, replicate, length-append, length-take, length-drop,
  length-replicate, drop-length_le, drop-append_le, ◌>>=◌, done,
}
use vfdd.Prelude.Memory.{splice, load_bytes-le, store_bytes-le, length-splice}
use vfdd.Driver.{Vfd}
use vfdd.Driver.Store.{put_display, display_store}

-- Bytes written in front of bytes that are already there.
splice-splice :
    (mem zs bs : List ℕ) (n : ℕ)
    → n ≤ length mem
    → length bs ≡ n
    → splice (splice mem n zs) 0 bs ≡ bs ++ (zs ++ drop (n + length zs) mem)
unfolding splice
splice-splice mem zs bs n h e =
    ap (λ t. bs ++ t)
      (ap (λ i. drop i (take n mem ++ (zs ++ drop (n + length zs) mem)))
          (let z : 0 + length bs ≡ n = omega arith in z)
        ∙ (drop-append_le n (take n mem) (zs ++ drop (n + length zs) mem)
              (omega (arith, length-take n mem))
            ∙ ap (λ t. t ++ (zs ++ drop (n + length zs) mem))
                (drop-length_le n (take n mem) (omega (arith, length-take n mem)))))

-- `display` behind a write of `count` bytes.
abbrev pub written : Vfd → List ℕ → ℕ → List ℕ
written v buf count =
    let n = min count v.display_len in
    take n buf ++ (replicate (v.display_len - n) 0 ++ drop v.display_len v.display)

-- `_display_store` of a buffer that has its `count` bytes: the display shows them, as far as they fit
-- its length, then zeros up to that length, and an update is asked for. Nothing is accessed out of
-- bounds, and the bytes behind the display's length stay.
pub put_display-written :
    (v : Vfd) (buf : List ℕ) (count : ℕ)
    → v.display_len ≤ length v.display
    → count ≤ length buf
    → put_display v buf count ≡ done (record v { display = written v buf count; need_update = 1 })
unfolding put_display
put_display-written v buf count fits has =
    rw
      (
        store_bytes-le v.display n zeros (omega (arith, zeros_long)),
        load_bytes-le buf 0 n (omega arith),
        store_bytes-le padded 0 (take n buf) (omega (arith, length-take n buf, same, zeros_long)),
      )
      (ap (λ d. done (record v { display = d; need_update = 1 })) text)
  where
    n : ℕ
    n = min count v.display_len

    zeros : List ℕ
    zeros = replicate (v.display_len - n) 0

    zeros_long : length zeros ≡ v.display_len - n
    zeros_long = length-replicate (v.display_len - n) 0

    padded : List ℕ
    padded = splice v.display n zeros

    same : length padded ≡ length v.display
    same = length-splice v.display n zeros (omega (arith, zeros_long))

    text : splice padded 0 (take n buf) ≡ written v buf count
    text =
        splice-splice v.display zeros (take n buf) n (omega arith)
          (omega (arith, length-take n buf))
        ∙ ap (λ i. take n buf ++ (zeros ++ drop i v.display))
            (let e : n + length zeros ≡ v.display_len = omega (arith, zeros_long) in e)

small_pow : (i : ℕ) → i < 16 → 2 ^ i < 65536
small_pow i h =
    let most : 2 ^ i ≤ 2 ^ 15 = pow-le-pow_right (omega arith) {j = 15} (omega arith) in omega arith

taken_out : (b : Bool) (i j : ℕ) → (b && not (i == j)) ≡ (if j == i then false else b)
taken_out false i j = ground arith
taken_out true i j = ground arith

put_in : (b : Bool) (i j : ℕ) → (b || i == j) ≡ (if j == i then true else b)
put_in false i j = ground arith
put_in true i j = ground arith

-- The bits of `raw_overlay` behind `switch`: the one that is named, and no other.
pub switch-bit :
    (ena bit_no w k : ℕ)
    → bit_no < 16
    → w < 65536
    → bit (switch ena bit_no w) k ≡ (if k == bit_no then not (ena == 0) else bit w k)
unfolding switch
switch-bit zero bit_no w k h g =
    bit-and w (2 ^ 32 - 1 - 2 ^ bit_no) k ∙ elim (Bool-cases (ltb k 32)) [
      | inl a ↦
          ap (λ b. bit w k && b)
            (bit-complement 32 (2 ^ bit_no) k (omega (arith, small_pow bit_no h)) (ltb→lt k 32 a)
              ∙ ap not (bit-pow bit_no k))
          ∙ taken_out (bit w k) bit_no k
      | inr a ↦
          let out = bit-lt 16 w k g (omega (arith, ltb→le k 32 a)) in
          rw (out, ==_ne k bit_no (omega (arith, ltb→le k 32 a))) refl
    ]
switch-bit (suc ena) bit_no w k h g =
    let plain : bit_or w (2 ^ bit_no) % 65536 ≡ bit_or w (2 ^ bit_no) =
      omega (arith, or-lt 16 w (2 ^ bit_no) g (small_pow bit_no h)) in
    rw (==_ne (suc ena) 0 (omega arith), plain, bit-or, bit-pow) (put_in (bit w k) bit_no k)

-- A write to `display` and the next run of the timer, with no key input and no boot animation left: if
-- the chip's RAM held what the driver notes, then afterwards it shows the new text, with the overlay.
pub display_store-IsRefreshed :
    (v : Vfd) (segno buf junk : List ℕ) (count : ℕ) (c : Chip)
    → IsSetUp v segno
    → v.display_len ≤ length v.display
    → count ≤ length buf
    → ((i : ℕ) → get_or (written v buf count) i 0 < 256)
    → v.boot_anim ≡ 0
    → length junk ≡ v.words
    → c.core.ram ≡ words_bytes v.raw_display
    → let w = record v { display = written v buf count; need_update = 0 } in
      IsRefreshed w segno c (display_store v buf count >>= λ p. tick p.0 junk)
unfolding display_store tick animate update_if
display_store-IsRefreshed v segno buf junk count c s fits has bytes idle len ram =
    rw (put_display-written v buf count fits has, (==_iff v.boot_anim 0).1 idle)
      (hardware_update_display-IsRefreshed
        (record v { display = written v buf count; need_update = 0 }) segno junk c
        (record {
          renders = s.renders;
          few = s.few;
          short = s.short;
          overlay = s.overlay;
          overlay_words = s.overlay_words;
          ram = s.ram;
          in_display = λ i h.
              let d = s.in_display i h in
              record {
                plain = λ e. omega (arith, d.plain e, long);
                mapped = d.mapped;
                inside = λ e. omega (arith, d.inside e, long);
              };
          bytes = bytes;
        })
        len ram)
  where
    n : ℕ
    n = min count v.display_len

    long : length (written v buf count) ≡ length v.display
    long = omega (
      arith,
      length-append (take n buf) (replicate (v.display_len - n) 0 ++ drop v.display_len v.display),
      length-append (replicate (v.display_len - n) 0) (drop v.display_len v.display),
      length-take n buf,
      length-replicate {A = ℕ} (v.display_len - n) 0,
      length-drop v.display_len v.display,
    )
