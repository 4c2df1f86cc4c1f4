-- ===== src/Base/Outcome.antt =====
-- How a C++ call ends.
use mathlib.Core.Path.{◌≡◌, refl}

-- `runtime_error`: the call throws. `failure`: it returns an error code other than 0.
-- `undefined`: it reads through a null or dangling pointer, or a variable that a short `fread` has
-- left without a value. `stuck` is no end of the source: a loop of the model is out of fuel.
pub data Outcome {ℓ} (A : Type ℓ) : Type ℓ where
  ok : A → Outcome A
  runtime_error : Outcome A
  failure : Outcome A
  undefined : Outcome A
  stuck : Outcome A

infixl 5 ◌>>=◌
abbrev pub ◌>>=◌ {ℓ κ} : {A : Type ℓ} {B : Type κ} → Outcome A → (A → Outcome B) → Outcome B
ok a >>= f = f a
runtime_error >>= f = runtime_error
failure >>= f = failure
undefined >>= f = undefined
stuck >>= f = stuck

-- What a chain returns comes from a first call that returns.
module _ {ℓ κ} {A : Type ℓ} {B : Type κ} (next : A → Outcome B) {end : B} where
  pub >>=-returns :
      (call : Outcome A) → (call >>= next) ≡ ok end → (a : A) × (call ≡ ok a) × (next a ≡ ok end)
  >>=-returns (ok a) returned = (a, refl, returned)
  >>=-returns runtime_error returned = cc
  >>=-returns failure returned = cc
  >>=-returns undefined returned = cc
  >>=-returns stuck returned = cc

-- A call that returns hands its result on.
pub >>=-eq_of_ok {ℓ κ} :
    {A : Type ℓ} {B : Type κ} (m : Outcome A) (f : A → Outcome B) {a : A}
    → m ≡ ok a
    → (m >>= f) ≡ f a
>>=-eq_of_ok m f h = rw (h, ◌>>=◌)
