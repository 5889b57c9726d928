-- ===== src/Driver/Acts.antt =====
-- vfdmod/linux_vfd/vfd.c: what `vfd_probe` takes and gives back, counted.
use vfdd.Prelude.{
  ℕ, zero, suc, ◌+◌, ◌≤◌, ◌≡◌, refl, Bool, true, false, ◌&&◌, Option, none, some, List, [], ◌∷◌,
  ◌++◌, arith, ltb, leb, ◌==◌, if◌then◌else◌,
}
use vfdd.Driver.{Vfd}
use vfdd.Driver.Probe.{
  Act, create_files, remove_files, give_back, create_file, remove_file, allocate_input,
  register_input, unregister_input, free_input, free_driver,
}

-- How often an act of a kind is done.
abbrev pub count_if : (Act → Bool) → List Act → ℕ
count_if p [] = 0
count_if p (a ∷ more) = (if p a then 1 else 0) + count_if p more

abbrev pub allocates : Act → Bool
allocates allocate_input = true
allocates _ = false

abbrev pub frees_input : Act → Bool
frees_input free_input = true
frees_input _ = false

abbrev pub registers : Act → Bool
registers register_input = true
registers _ = false

abbrev pub unregisters : Act → Bool
unregisters unregister_input = true
unregisters _ = false

abbrev pub frees_driver : Act → Bool
frees_driver free_driver = true
frees_driver _ = false

abbrev pub creates : ℕ → Act → Bool
creates i (create_file j) = j == i
creates i _ = false

abbrev pub removes : ℕ → Act → Bool
removes i (remove_file j) = j == i
removes i _ = false

pub count_if-append :
    (p : Act → Bool) (xs ys : List Act) → count_if p (xs ++ ys) ≡ count_if p xs + count_if p ys
count_if-append p [] ys = omega arith
count_if-append p (a ∷ xs) ys = omega (arith, count_if-append p xs ys)

-- What `create_files` does: files from `i` on are created, each once at most, and nothing else is done.
pub record Created (i n : ℕ) (acts : List Act) : Type 0 where
  pub few : (j : ℕ) → count_if (creates j) acts ≤ (if leb i j && ltb j (i + n) then 1 else 0)
  pub no_driver : count_if frees_driver acts ≡ 0
  pub no_input : count_if frees_input acts ≡ 0
  pub no_allocation : count_if allocates acts ≡ 0
  pub no_registration : count_if registers acts ≡ 0
  pub no_unregistration : count_if unregisters acts ≡ 0

pub create_files-Created :
    (create : ℕ → Option ℕ) (i n : ℕ) → Created i n (create_files create i n).0
unfolding create_files
create_files-Created create i zero = record {
  few = λ j. omega arith;
  no_driver = refl;
  no_input = refl;
  no_allocation = refl;
  no_registration = refl;
  no_unregistration = refl;
}
create_files-Created create i (suc n) =
    pick (create i) (create_files create (i + 1) n) (create_files-Created create (i + 1) n)
  where
    pick :
        (r : Option ℕ) (rest : List Act × Option ℕ)
        → Created (i + 1) n rest.0
        → Created i
            (suc n)
            (elim r as (λ _. List Act × Option ℕ) [
              | some e ↦ (create_file i ∷ [], some e)
              | none ↦ (create_file i ∷ rest.0, rest.1)
            ]).0
    pick (some e) rest h = record {
      few = λ j. ground arith;
      no_driver = refl;
      no_input = refl;
      no_allocation = refl;
      no_registration = refl;
      no_unregistration = refl;
    }
    pick none rest h = record {
      few = λ j. ground (arith, h.few j);
      no_driver = omega (arith, h.no_driver);
      no_input = omega (arith, h.no_input);
      no_allocation = omega (arith, h.no_allocation);
      no_registration = omega (arith, h.no_registration);
      no_unregistration = omega (arith, h.no_unregistration);
    }

pub remove_files-count :
    (n i : ℕ) → count_if (removes i) (remove_files n) ≡ (if ltb i n then 1 else 0)
unfolding remove_files
remove_files-count zero i = ground arith
remove_files-count (suc n) i = ground (arith, remove_files-count n i)

pub remove_files-only :
    (n : ℕ)
    → (count_if frees_driver (remove_files n) ≡ 0)
      × (count_if frees_input (remove_files n) ≡ 0)
      × (count_if allocates (remove_files n) ≡ 0)
      × ((i : ℕ) → count_if (creates i) (remove_files n) ≡ 0)
      × (count_if registers (remove_files n) ≡ 0)
      × (count_if unregisters (remove_files n) ≡ 0)
unfolding remove_files
remove_files-only zero = (refl, refl, refl, λ i. refl, refl, refl)
remove_files-only (suc n) =
    let (a, b, c, d, e, f) = remove_files-only n in
    (
      omega (arith, a),
      omega (arith, b),
      omega (arith, c),
      λ i. omega (arith, d i),
      omega (arith, e),
      omega (arith, f),
    )

-- What `setup_input` does: an input device is taken, if `has`, and registered `regs` times, and nothing
-- else.
pub record TakesInput (has : Bool) (regs : ℕ) (acts : List Act) : Type 0 where
  pub no_driver : count_if frees_driver acts ≡ 0
  pub no_input : count_if frees_input acts ≡ 0
  pub allocation : count_if allocates acts ≡ (if has then 1 else 0)
  pub registration : count_if registers acts ≡ regs
  pub no_unregistration : count_if unregisters acts ≡ 0
  pub no_files : (i : ℕ) → count_if (creates i) acts ≡ 0

pub give_back-counts :
    (v : Vfd)
    → (count_if frees_driver (give_back v) ≡ 1)
      × (count_if frees_input (give_back v) ≡ (if v.has_input then 1 else 0))
      × (count_if allocates (give_back v) ≡ 0)
      × ((i : ℕ) → count_if (creates i) (give_back v) ≡ 0)
      × (count_if registers (give_back v) ≡ 0)
      × (count_if unregisters (give_back v) ≡ 0)
unfolding give_back
give_back-counts v = split v.has_input
  where
    split :
        (b : Bool)
        → let acts : List Act = (if b then free_input ∷ [] else []) ++ free_driver ∷ [] in
          (count_if frees_driver acts ≡ 1)
          × (count_if frees_input acts ≡ (if b then 1 else 0))
          × (count_if allocates acts ≡ 0)
          × ((i : ℕ) → count_if (creates i) acts ≡ 0)
          × (count_if registers acts ≡ 0)
          × (count_if unregisters acts ≡ 0)
    split true = (omega arith, omega arith, omega arith, λ i. omega arith, omega arith, omega arith)
    split false =
        (omega arith, omega arith, omega arith, λ i. omega arith, omega arith, omega arith)
