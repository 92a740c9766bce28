-- ===== src/Prelude/Options.antt =====
-- Chains of optional results: `none` is an early return with an error.
use mathlib.Core.Path.{◌≡◌, refl}
use mathlib.Core.Bool.{Bool, true, false}
use mathlib.Core.Option.{Option, none, some}
use native.Mathlib.Omega.{arith}

infixl 5 ◌>>=◌ ◌>>◌
abbrev pub ◌>>=◌ {ℓ κ} : {A : Type ℓ} {B : Type κ} → Option A → (A → Option B) → Option B
none >>= f = none
some a >>= f = f a

abbrev pub ◌>>◌ {ℓ} : {B : Type ℓ} → Option (Unit {0}) → Option B → Option B
m >> k = m >>= λ _. k

-- `if (!b) return ESP_FAIL;`.
abbrev pub require : Bool → Option (Unit {0})
require true = some tt
require false = none

-- A chain that gave a result had one at its first link.
pub >>=-eq_some {ℓ κ} :
    {A : Type ℓ} {B : Type κ} (m : Option A) (f : A → Option B) {b : B}
    → (m >>= f) ≡ some b
    → (a : A) × (m ≡ some a) × (f a ≡ some b)
>>=-eq_some none f h = absurd (ground arith)
>>=-eq_some (some a) f h = (a, refl, h)

-- A guard that let the chain go on held.
pub >>-eq_some {ℓ} :
    {B : Type ℓ} (c : Bool) (m : Option B) {b : B}
    → (require c >> m) ≡ some b
    → (c ≡ true) × (m ≡ some b)
>>-eq_some true m h = (refl, h)
>>-eq_some false m h = absurd (ground arith)

-- What holds of a match on an optional value, and of a chain, in every case.
pub option-cases {ℓ κ υ} :
    {A : Type ℓ} {B : Type κ} (P : B → Type υ) (o : Option A) (x : B) (f : A → B)
    → P x
    → ((a : A) → P (f a))
    → P (elim o [ none ↦ x | some a ↦ f a ])
option-cases P none x f px pf = px
option-cases P (some a) x f px pf = pf a

pub >>=-cases {ℓ κ υ} :
    {A : Type ℓ} {B : Type κ} (P : Option B → Type υ) (o : Option A) (f : A → Option B)
    → P none
    → ((a : A) → P (f a))
    → P (o >>= f)
>>=-cases P none f px pf = px
>>=-cases P (some a) f px pf = pf a

-- The same, where each case knows which one it is.
pub option-split {ℓ κ υ} :
    {A : Type ℓ} {B : Type κ} (P : B → Type υ) (o : Option A) (x : B) (f : A → B)
    → (o ≡ none → P x)
    → ((a : A) → o ≡ some a → P (f a))
    → P (elim o [ none ↦ x | some a ↦ f a ])
option-split P none x f px pf = px refl
option-split P (some a) x f px pf = pf a refl

pub >>=-split {ℓ κ υ} :
    {A : Type ℓ} {B : Type κ} (P : Option B → Type υ) (o : Option A) (f : A → Option B)
    → (o ≡ none → P none)
    → ((a : A) → o ≡ some a → P (f a))
    → P (o >>= f)
>>=-split P none f px pf = px refl
>>=-split P (some a) f px pf = pf a refl

-- The same at a known value.
pub option_some {ℓ κ} :
    {A : Type ℓ} {B : Type κ} (o : Option A) (x : B) (f : A → B) (a : A)
    → o ≡ some a
    → (elim o [ none ↦ x | some b ↦ f b ]) ≡ f a
option_some none x f a h = absurd (ground arith)
option_some (some b) x f a h = ground arith
