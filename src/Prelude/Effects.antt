-- ===== src/Prelude/Effects.antt =====
-- What a C function that may stop does: it returns, it ends the program through `msg_fatal`, or it
-- does what C leaves undefined (an access out of bounds, a signed overflow).
use mathlib.Core.Option.{Option, none, some}

pub data Outcome {ℓ} (A : Type ℓ) : Type ℓ where
  done : A → Outcome A
  fatal fault : Outcome A

infixl 5 ◌>>=◌
abbrev pub ◌>>=◌ {ℓ κ} : {A : Type ℓ} {B : Type κ} → Outcome A → (A → Outcome B) → Outcome B
done a >>= f = f a
fatal >>= f = fatal
fault >>= f = fault

-- The value of an option, where `none` is an access out of bounds.
abbrev pub or_fault {ℓ} : {A : Type ℓ} → Option A → Outcome A
or_fault none = fault
or_fault (some a) = done a

-- Goes on behind a step of a loop on fuel, where `none` means that the fuel ran out.
infixl 5 ◌>>?◌
abbrev pub ◌>>?◌ {ℓ κ} :
    {A : Type ℓ} {B : Type κ} → Outcome A → (A → Option (Outcome B)) → Option (Outcome B)
done a >>? f = f a
fatal >>? f = some fatal
fault >>? f = some fault

-- Goes on behind a call that may run out of fuel.
infixl 5 ◌>>!◌
abbrev pub ◌>>!◌ {ℓ κ} :
    {A : Type ℓ} {B : Type κ} → Option (Outcome A) → (A → Option (Outcome B)) → Option (Outcome B)
none >>! f = none
some fatal >>! f = some fatal
some fault >>! f = some fault
some (done a) >>! f = f a
