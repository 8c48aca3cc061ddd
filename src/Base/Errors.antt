-- ===== src/Base/Errors.antt =====
-- What a call of the program ends in: a value, or one of the exceptions that the code raises.
use mathlib.Core.Path.{◌≡◌, refl}
use mathlib.Core.Bool.{Bool, true, false}

-- `integrity_error` and `database_error`: IntegrityError and OperationalError of sqlite3; then the
-- program's own CatalogError, FrameError and ServiceBusyError. Messages are left out.
pub data Error : Type 0 where
  key_error value_error type_error runtime_error integrity_error : Error
  catalog_error database_error frame_error busy_error : Error

pub data Outcome {ℓ} (A : Type ℓ) : Type ℓ where
  ok : A → Outcome A
  err : Error → Outcome A

-- `if b: raise e`
abbrev pub raise_if : Bool → Error → Outcome (Unit {0})
raise_if true e = err e
raise_if false e = ok tt

-- One statement after another: an exception skips the rest.
infixl 5 ◌>>=◌ ◌>>◌
abbrev pub ◌>>=◌ {ℓ κ} : {A : Type ℓ} {B : Type κ} → Outcome A → (A → Outcome B) → Outcome B
err raised >>= rest = err raised
ok value >>= rest = rest value

-- A bind that returned had a first statement that returned.
pub >>=-eq-ok {ℓ κ} :
    {A : Type ℓ} {B : Type κ} (first : Outcome A) (rest : A → Outcome B) {b : B}
    → first >>= rest ≡ ok b
    → (value : A) × (first ≡ ok value) × (rest value ≡ ok b)
>>=-eq-ok (err raised) rest returned = cc
>>=-eq-ok (ok value) rest returned = (value, refl, returned)

abbrev pub ◌>>◌ {ℓ} : {B : Type ℓ} → Outcome (Unit {0}) → Outcome B → Outcome B
first >> rest = first >>= λ done. rest
