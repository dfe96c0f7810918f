-- ===== src/Errors.antt =====
-- plugins/module_utils/errors.py: the exceptions of the collection as values, with their stable
-- machine-readable classes. Messages, which are redacted text, are left out. The constructors
-- below `identity_mismatch` are the exceptions of Python's library that the modelled code raises.
use ansible_collection_intel.Prelude.{◌≡◌, Bool, true, false, String, ℤ, Option, none, some}

pub data Error : Type 0 where
  connection tls_validation authentication : Error
  unsupported_capability invalid_state : Error
  -- `indeterminate`: the request may have taken effect
  timeout : Bool → Error
  protocol : Error
  -- the non-zero ReturnValue
  remote_operation : ℤ → Error
  identity_mismatch : Error
  value_error struct_error index_error key_error os_error : Error

-- `error_class`, of an AmtError
unfoldable pub error_class : Error → Option String
error_class connection = some "connection"
error_class tls_validation = some "tls_validation"
error_class authentication = some "authentication"
error_class unsupported_capability = some "unsupported_capability"
error_class invalid_state = some "invalid_state"
error_class (timeout _) = some "timeout"
error_class protocol = some "protocol"
error_class (remote_operation _) = some "remote_operation"
error_class identity_mismatch = some "identity_mismatch"
error_class _ = none

-- What a function of the source comes to: it raises, or it returns.
pub data Result {ℓ} (Value : Type ℓ) : Type ℓ where
  err : Error → Result Value
  ok : Value → Result Value

-- `if b: raise e`
abbrev pub refuse : Bool → Error → Result (Unit {0})
refuse true e = err e
refuse false e = ok tt

infixl 5 ◌>>=◌ ◌>>◌
abbrev pub ◌>>=◌ {κ μ} : {X : Type κ} {Y : Type μ} → Result X → (X → Result Y) → Result Y
err raised >>= after = err raised
ok value >>= after = after value

-- A check, and the code behind it.
abbrev pub ◌>>◌ {μ} : {Y : Type μ} → Result (Unit {0}) → Result Y → Result Y
check >> rest = check >>= λ passed. rest

-- `except` of some errors, with what is returned then.
abbrev pub handled {μ} : {X : Type μ} → (Error → Option X) → Result X → Result X
handled handler (ok value) = ok value
handled handler (err raised) = elim (handler raised) [ none ↦ err raised | some value ↦ ok value ]

pub ok_injective {μ} : {X : Type μ} {a b : X} → ok a ≡ ok b → a ≡ b
ok_injective e = cc

pub raised_not_ok {μ} : {X : Type μ} {raised : Error} {a : X} → err raised ≡ ok a → ⊥
raised_not_ok e = cc

pub err_injective {μ} :
    {X : Type μ} {first second : Error} → Path (Result X) (err first) (err second) → first ≡ second
err_injective e = cc

pub ok_not_raised {μ} :
    {X : Type μ} {a : X} {raised : Error} → Path (Result X) (ok a) (err raised) → ⊥
ok_not_raised e = cc
