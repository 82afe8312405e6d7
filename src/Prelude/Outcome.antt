-- ===== src/Prelude/Outcome.antt =====
-- What a run of C code comes to: a result, an `abort()`, behaviour that C leaves undefined (an
-- access outside its array), or loops that the given fuel does not cover.
use mathlib.Core.Bool.{Bool, true, false}
use mathlib.Core.Path.{◌≡◌, refl}
use spike_virtio_devices.Prelude.Tests.{if◌then◌else◌}

pub data Outcome {ℓ} (A : Type ℓ) : Type ℓ where
  done : A → Outcome A
  aborted : Outcome A
  fault : Outcome A
  out_of_fuel : Outcome A

infixl 5 ◌>>=◌
abbrev pub ◌>>=◌ {ℓ κ} : {A : Type ℓ} {B : Type κ} → Outcome A → (A → Outcome B) → Outcome B
done a >>= f = f a
aborted >>= f = aborted
fault >>= f = fault
out_of_fuel >>= f = out_of_fuel

-- A result guarded by a bounds check that the code does not make.
abbrev pub within {ℓ} : {A : Type ℓ} → Bool → A → Outcome A
within ok a = if ok then done a else fault

-- The run ends with a result that satisfies `P`.
abbrev pub Returns {ℓ} : {A : Type ℓ} → (A → Type 0) → Outcome A → Type 0
Returns P (done a) = P a
Returns P aborted = ⊥
Returns P fault = ⊥
Returns P out_of_fuel = ⊥

-- The run ends with a result that satisfies `P`, or with none.
abbrev pub Ensures {ℓ} : {A : Type ℓ} → (A → Type 0) → Outcome A → Type 0
Ensures P (done a) = P a
Ensures P aborted = Unit
Ensures P fault = Unit
Ensures P out_of_fuel = Unit

pub Ensures->>= {ℓ κ} :
    {A : Type ℓ} {B : Type κ} (P : A → Type 0) (Q : B → Type 0) (r : Outcome A) (f : A → Outcome B)
    → Ensures P r
    → ((a : A) → P a → Ensures Q (f a))
    → Ensures Q (r >>= f)
Ensures->>= P Q (done a) f h next = next a h
Ensures->>= P Q aborted f h next = tt
Ensures->>= P Q fault f h next = tt
Ensures->>= P Q out_of_fuel f h next = tt

pub Ensures-trivial {ℓ} : {A : Type ℓ} (r : Outcome A) → Ensures (λ _. Unit) r
Ensures-trivial (done a) = tt
Ensures-trivial aborted = tt
Ensures-trivial fault = tt
Ensures-trivial out_of_fuel = tt

pub Ensures-if {ℓ} :
    {A : Type ℓ} (P : A → Type 0) (b : Bool) (x y : Outcome A)
    → Ensures P x
    → Ensures P y
    → Ensures P (if b then x else y)
Ensures-if P true x y hx hy = hx
Ensures-if P false x y hx hy = hy

pub Ensures-Returns {ℓ} : {A : Type ℓ} (P : A → Type 0) (r : Outcome A) → Returns P r → Ensures P r
Ensures-Returns P (done a) h = h
Ensures-Returns P aborted h = tt
Ensures-Returns P fault h = tt
Ensures-Returns P out_of_fuel h = tt

pub Ensures-weaken {ℓ} :
    {A : Type ℓ} (P Q : A → Type 0) (r : Outcome A)
    → ((a : A) → P a → Q a)
    → Ensures P r
    → Ensures Q r
Ensures-weaken P Q (done a) f h = f a h
Ensures-weaken P Q aborted f h = tt
Ensures-weaken P Q fault f h = tt
Ensures-weaken P Q out_of_fuel f h = tt

-- A test, with what its branches know of it.
pub Ensures-test {ℓ} :
    {A : Type ℓ} (P : A → Type 0) (b : Bool) (x y : Outcome A)
    → (b ≡ true → Ensures P x)
    → (b ≡ false → Ensures P y)
    → Ensures P (if b then x else y)
Ensures-test P true x y hx hy = hx refl
Ensures-test P false x y hx hy = hy refl

pub Returns-if {ℓ} :
    {A : Type ℓ} (P : A → Type 0) (b : Bool) (x y : Outcome A)
    → Returns P x
    → Returns P y
    → Returns P (if b then x else y)
Returns-if P true x y hx hy = hx
Returns-if P false x y hx hy = hy

pub Returns-weaken {ℓ} :
    {A : Type ℓ} (P Q : A → Type 0) (r : Outcome A)
    → ((a : A) → P a → Q a)
    → Returns P r
    → Returns Q r
Returns-weaken P Q (done a) f h = f a h
Returns-weaken P Q aborted f h = h
Returns-weaken P Q fault f h = h
Returns-weaken P Q out_of_fuel f h = h

pub Returns->>= {ℓ κ} :
    {A : Type ℓ} {B : Type κ} (P : A → Type 0) (Q : B → Type 0) (r : Outcome A) (f : A → Outcome B)
    → Returns P r
    → ((a : A) → P a → Returns Q (f a))
    → Returns Q (r >>= f)
Returns->>= P Q (done a) f h next = next a h
Returns->>= P Q aborted f h next = absurd h
Returns->>= P Q fault f h next = absurd h
Returns->>= P Q out_of_fuel f h next = absurd h

pub Returns-test {ℓ} :
    {A : Type ℓ} (P : A → Type 0) (b : Bool) (x y : Outcome A)
    → (b ≡ true → Returns P x)
    → (b ≡ false → Returns P y)
    → Returns P (if b then x else y)
Returns-test P true x y hx hy = hx refl
Returns-test P false x y hx hy = hy refl
