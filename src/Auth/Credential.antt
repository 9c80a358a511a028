-- ===== src/Auth/Credential.antt =====
-- pkg/auth/credential.go: the bearer token of an Authorization header.
pub mod Tokens
use open_artifact.Shared.{
  ℕ, Bool, true, false, not, ◌||◌, Option, none, some, [], ◌∷◌, Bytes, codes, bytes_eq, equal_fold,
  trim_space, cut, is_empty, if◌then◌else◌, Error, no_credential, Result, ok, err,
}

unfoldable pub is_sentinel_user : Bytes → Bool
unfolding bytes_eq
is_sentinel_user u =
    bytes_eq u (codes "_oidc")
    || bytes_eq u (codes "oauth2accesstoken")
    || bytes_eq u (codes "_token")

-- base64.StdEncoding.DecodeString is an argument.
module _ (decode_base64 : Bytes → Option Bytes) where
  -- the password of a divided user:password
  unfoldable pub password_of : Option (Bytes × Bytes) → Result Bytes
  unfolding is_sentinel_user
  password_of none = err no_credential
  password_of (some (user, pass)) =
      if not (is_sentinel_user user) || is_empty pass then err no_credential else ok pass

  unfoldable pub token_from_basic : Bytes → Result Bytes
  unfolding password_of
  token_from_basic encoded = elim (decode_base64 encoded) [
    | none ↦ err no_credential
    | some raw ↦ password_of (cut b':' raw)
  ]

  unfoldable pub token_of_scheme : Bytes → Bytes → Result Bytes
  unfolding token_from_basic equal_fold
  token_of_scheme scheme rest =
      if equal_fold scheme (codes "bearer")
      then (if is_empty rest then err no_credential else ok rest)
      else if equal_fold scheme (codes "basic")
      then token_from_basic rest
      else err no_credential

  -- ExtractToken, of the value of the Authorization header; an absent header is the empty text
  unfoldable pub extract_token : Bytes → Result Bytes
  unfolding token_of_scheme cut
  extract_token header = if is_empty header then err no_credential else elim (cut b' ' header) [
    | none ↦ err no_credential
    | some (scheme, rest) ↦ token_of_scheme scheme (trim_space rest)
  ]
