-- ===== src/Base/Errors.antt =====
-- Python exceptions as values.
use mathlib.Core.Path.{◌≡◌, refl}
use mathlib.Core.Bool.{Bool, true, false}
use mathlib.Core.Logic.{◌⊎◌, inl, inr}

-- The classes of the exceptions that the modelled code raises or catches.
pub data Error : Type 0 where
  value_error index_error struct_error unicode_error key_error name_error : Error
  attribute_error type_error noise_error invalid_tag connection_error os_error : Error
  incomplete_read overflow_error : Error

-- What a call returns, or the exception that it raises.
pub data Result {ℓ} (X : Type ℓ) : Type ℓ where
  err : Error → Result X
  ok : X → Result X

-- `if not holds: raise raised`
abbrev pub guard : Bool → Error → Result (Unit {0})
guard false raised = err raised
guard true raised = ok tt

-- The statements after a call run where the call returns.
infixl 5 ◌>>=◌
abbrev pub ◌>>=◌ {ℓ κ} : {X : Type ℓ} {Y : Type κ} → Result X → (X → Result Y) → Result Y
err raised >>= rest = err raised
ok x >>= rest = rest x

infixl 5 ◌>>◌
abbrev pub ◌>>◌ {κ} : {Y : Type κ} → Result (Unit {0}) → Result Y → Result Y
call >> rest = call >>= λ done. rest

module _ {ℓ} {X : Type ℓ} where
  pub Result-cases : (r : Result X) → ((x : X) × (r ≡ ok x)) ⊎ ((raised : Error) × (r ≡ err raised))
  Result-cases (err raised) = inr (raised, refl)
  Result-cases (ok x) = inl (x, refl)

  -- Where a call and what follows it return, the call returned a value, and the rest returned for it.
  pub >>=-eq-ok {κ} :
      {Y : Type κ} (call : Result X) (rest : X → Result Y) {y : Y}
      → (call >>= rest) ≡ ok y
      → (x : X) × (call ≡ ok x) × (rest x ≡ ok y)
  >>=-eq-ok (err raised) rest returned = cc
  >>=-eq-ok (ok x) rest returned = (x, refl, returned)

  pub ok-injective : {x y : X} → ok x ≡ ok y → x ≡ y
  ok-injective e = cc
