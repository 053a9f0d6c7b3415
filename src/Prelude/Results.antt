-- ===== src/Prelude/Results.antt =====
-- What a fallible call returns: a value, or the text of its error.
use Prim.Native.String.{String}
use mathlib.Core.Path.{◌≡◌, refl}
use mathlib.Core.Bool.{Bool, true, false}
use native.Mathlib.Omega.{arith}
use mathlib.Core.Logic.{◌⊎◌, inl, inr}

pub data Result {ℓ} (A : Type ℓ) : Type ℓ where
  ok : A → Result A
  err : String → Result A

infixl 5 ◌>>=◌ ◌>>◌
abbrev pub ◌>>=◌ {ℓ κ} : {A : Type ℓ} {B : Type κ} → Result A → (A → Result B) → Result B
r >>= next = elim r [ err e ↦ err e | ok a ↦ next a ]

abbrev pub ◌>>◌ {ℓ} : {B : Type ℓ} → Result (Unit {0}) → Result B → Result B
r >> next = elim r [ err e ↦ err e | ok _ ↦ next ]

-- `if bad { return errors.New(message) }`
abbrev pub refuse : Bool → String → Result (Unit {0})
refuse true e = err e
refuse false e = ok tt

-- To split on a computed result and keep the equation.
pub Result-cases {ℓ} :
    {A : Type ℓ} (r : Result A) → ((a : A) × (r ≡ ok a)) ⊎ ((e : String) × (r ≡ err e))
Result-cases (ok a) = inl (a, refl)
Result-cases (err e) = inr (e, refl)

-- Behind a guard that let the call through.
pub passed {ℓ} :
    {B : Type ℓ} (b : Bool) (e : String) (r : Result B) (x : B)
    → (refuse b e >> r) ≡ ok x
    → (b ≡ false) × (r ≡ ok x)
passed true e r x h = ground arith
passed false e r x h = (refl, h)

-- Behind a call that gave a value.
pub bound {ℓ κ} :
    {A : Type ℓ} {B : Type κ} (r : Result A) (next : A → Result B) (x : B)
    → (r >>= next) ≡ ok x
    → (a : A) × (r ≡ ok a) × (next a ≡ ok x)
bound (ok a) next x h = (a, refl, h)
bound (err e) next x h = ground arith
