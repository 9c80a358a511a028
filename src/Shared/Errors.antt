-- ===== src/Shared/Errors.antt =====
-- The sentinel errors of the packages, and a (value, error) result as one data type.
use Prim.Native.Nat.{ℕ}
use open_artifact.Shared.Strings.{Bytes}
use mathlib.Core.Path.{◌≡◌, refl}

-- The gcerrors codes that the code tells apart.
pub data Code : Type 0 where
  missing precondition unimplemented unknown : Code

-- A wrapped error is the sentinel that errors.Is finds in it; `backend` is a driver's own error.
pub data Error : Type 0 where
  invalid_name not_found already_exists digest_mismatch unsupported : Error
  namespace_invalid_name unsupported_schema_version invalid_proxy invalid_policy : Error
  namespace_not_found not_empty : Error
  no_credential invalid_token unauthorized unknown_op : Error
  invalid_filter nil_argument unsupported_format malformed stream_broken : Error
  -- http.MaxBytesError
  too_large : Error
  -- httpclient.ErrOversized, and its other errors
  oversized fetch_failed : Error
  -- the errors of package oidc that have no sentinel
  discovery_failed response_too_long : Error
  backend : Code → Error
  -- the status and the message of a response that a surface wrote itself
  rejected : ℕ → Bytes → Error

pub data Result {ℓ} (A : Type ℓ) : Type ℓ where
  ok : A → Result A
  err : Error → Result A

infixl 5 ◌>>=◌ ◌>>◌
-- An error ends the chain.
unfoldable pub ◌>>=◌ {ℓ κ} : {A : Type ℓ} {B : Type κ} → Result A → (A → Result B) → Result B
r >>= next = elim r [ err e ↦ err e | ok value ↦ next value ]

abbrev pub ◌>>◌ {κ} : {B : Type κ} → Result (Unit {0}) → Result B → Result B
check >> rest = check >>= λ passed. rest

pub Result-cases {ℓ} :
    {A : Type ℓ} (r : Result A)
    → mathlib.Core.Logic.◌⊎◌ ((a : A) × (r ≡ ok a)) ((e : Error) × (r ≡ err e))
Result-cases (ok a) = mathlib.Core.Logic.inl (a, refl)
Result-cases (err e) = mathlib.Core.Logic.inr (e, refl)

pub ok_injective {ℓ} : {A : Type ℓ} {a b : A} → ok a ≡ ok b → a ≡ b
ok_injective h = cc

-- A chain that returned: its first step returned, and so did the rest.
pub >>=-eq-ok {ℓ κ} :
    {A : Type ℓ} {B : Type κ} (first : Result A) (next : A → Result B) {out : B}
    → (first >>= next) ≡ ok out
    → (value : A) × (first ≡ ok value) × (next value ≡ ok out)
unfolding ◌>>=◌
>>=-eq-ok (err e) next returned = absurd (cc)
>>=-eq-ok (ok value) next returned = (value, refl, returned)
