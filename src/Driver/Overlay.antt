-- ===== src/Driver/Overlay.antt =====
-- vfdmod/linux_vfd/vfd.c: what `overlay_store` and `dotled_store` leave in `raw_overlay`.
use vfdd.Prelude.{
  ℕ, zero, suc, ◌+◌, ◌-◌, ◌%◌, ◌≤◌, ◌<◌, ◌≡◌, refl, ◌∙◌, ◌⊎◌, inl, Bool, true, false, List, [], ◌∷◌,
  ◌++◌, arith, ◌==◌, if◌then◌else◌, length, get_or, set, drop, Outcome, done,
}
use vfdd.Prelude.Memory.{splice, store_bytes-le, length-splice}
use vfdd.Driver.{Vfd}
use vfdd.Driver.Update.{All16}
use vfdd.Driver.Store.{Strtoul, skip_nspaces, overlay_loop, overlay_store}

All16-append : (xs ys : List ℕ) → All16 xs → All16 ys → All16 (xs ++ ys)
All16-append [] ys h g = g
All16-append (x ∷ xs) ys (p, h) g = (p, All16-append xs ys h g)

All16-drop : (n : ℕ) (xs : List ℕ) → All16 xs → All16 (drop n xs)
All16-drop zero xs h = h
All16-drop (suc n) [] h = h
All16-drop (suc n) (x ∷ xs) (p, h) = All16-drop n xs h

pub All16-set : (xs : List ℕ) (i w : ℕ) → All16 xs → w < 65536 → All16 (set xs i w)
All16-set [] i w h g = h
All16-set (x ∷ xs) zero w (p, h) g = (g, h)
All16-set (x ∷ xs) (suc i) w (p, h) g = (p, All16-set xs i w h g)

pub All16-get_or : (xs : List ℕ) (i : ℕ) → All16 xs → get_or xs i 0 < 65536
All16-get_or [] i h = omega arith
All16-get_or (x ∷ xs) zero (p, h) = p
All16-get_or (x ∷ xs) (suc i) (p, h) = All16-get_or xs i h

-- The loop of `overlay_store` reads as many words as there are, at most, and each is a `u16`.
overlay_loop-All16 :
    (isspace : ℕ → Bool) (strtoul : Strtoul) (n : ℕ) (cur : List ℕ) (left : ℕ)
    → All16 (overlay_loop isspace strtoul n cur left)
      × (length (overlay_loop isspace strtoul n cur left) ≤ n)
unfolding overlay_loop
overlay_loop-All16 isspace strtoul zero cur left = (tt, omega arith)
overlay_loop-All16 isspace strtoul (suc n) cur left =
    let next = skip_nspaces isspace (drop (strtoul cur).1 cur) (left - (strtoul cur).1) in
    let (all, few) = overlay_loop-All16 isspace strtoul n next.0 next.1 in
    pick (left == 0) ((strtoul cur).1 == 0) (overlay_loop isspace strtoul n next.0 next.1) all few
  where
    pick :
        (a b : Bool) (rest : List ℕ)
        → All16 rest
        → length rest ≤ n
        → let out : List ℕ = if a then [] else if b then [] else (strtoul cur).0 % 65536 ∷ rest in
          All16 out × (length out ≤ suc n)
    pick true b rest all few = (tt, omega arith)
    pick false true rest all few = (tt, omega arith)
    pick false false rest all few = ((omega arith, all), omega arith)

-- What a write to the overlay leaves, where it returns `value`.
pub record Overlaid {A : Type 0} (v : Vfd) (value : A) (out : Outcome (Vfd × A)) : Type 0 where
  pub overlay : List ℕ
  pub update : ℕ
  pub returns : out ≡ done (record v { raw_overlay = overlay; need_update = update }, value)
  pub same_length : length overlay ≡ v.words
  pub words : All16 overlay
  pub noted : (update ≡ 1) ⊎ ((overlay ≡ v.raw_overlay) × (update ≡ v.need_update))

-- `overlay_store` returns, whatever is written: the overlay keeps its length and has words of 16 bits,
-- and an update is asked for.
pub overlay_store-Overlaid :
    (isspace : ℕ → Bool) (strtoul : Strtoul) (v : Vfd) (buf : List ℕ) (count : ℕ)
    → length v.raw_overlay ≡ v.words
    → All16 v.raw_overlay
    → Overlaid v count (overlay_store isspace strtoul v buf count)
unfolding overlay_store
overlay_store-Overlaid isspace strtoul v buf count len all =
    let cur = skip_nspaces isspace buf count in
    let new = overlay_loop isspace strtoul v.words cur.0 cur.1 in
    let (words, few) = overlay_loop-All16 isspace strtoul v.words cur.0 cur.1 in
    record {
      overlay = splice v.raw_overlay 0 new;
      update = 1;
      returns = rw (store_bytes-le v.raw_overlay 0 new (omega arith)) refl;
      same_length = length-splice v.raw_overlay 0 new (omega arith) ∙ len;
      words =
          unfold splice in
          All16-append new (drop (0 + length new) v.raw_overlay) words
            (All16-drop (0 + length new) v.raw_overlay all);
      noted = inl refl;
    }
