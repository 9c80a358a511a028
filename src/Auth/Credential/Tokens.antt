-- ===== src/Auth/Credential/Tokens.antt =====
-- pkg/auth/credential.go: the lemmas on the tokens of ExtractToken.
use open_artifact.Shared.{
  ◌≡◌, ◌≢◌, refl, ◌⊎◌, inl, inr, arith, true, Option, none, some, [], ◌∷◌, ◌++◌, Bytes, codes,
  Lacks, is_empty, equal_fold, trim_space, cut, if◌then◌else◌, Bool-cases, Option-cases,
  no_credential, Result, ok, err,
}
use open_artifact.Shared.Strings.Laws.{cut-append}
use open_artifact.Auth.Credential.{
  is_sentinel_user, password_of, token_from_basic, token_of_scheme, extract_token,
}

-- A credential: a token that is not empty, or the error that makes the chain go on.
abbrev pub IsCredential : Result Bytes → Type 0
IsCredential r = ((t : Bytes) × (r ≡ ok t) × (t ≢ [])) ⊎ (r ≡ err no_credential)

module _ (decode_base64 : Bytes → Option Bytes) where
  bare-IsCredential : (t : Bytes) → IsCredential (if is_empty t then err no_credential else ok t)
  bare-IsCredential [] = inr refl
  bare-IsCredential (c ∷ t) = inl (c ∷ t, refl, λ e. ground arith)

  password_of-IsCredential :
      (o : Option (Bytes × Bytes)) → IsCredential (password_of decode_base64 o)
  unfolding password_of
  password_of-IsCredential none = inr refl
  password_of-IsCredential (some (user, pass)) = elim (Bool-cases (is_sentinel_user user)) [
    | inl sentinel ↦ rw (sentinel) (bare-IsCredential pass)
    | inr other ↦ rw (other) (inr refl)
  ]

  token_from_basic-IsCredential : (t : Bytes) → IsCredential (token_from_basic decode_base64 t)
  unfolding token_from_basic
  token_from_basic-IsCredential t = elim (Option-cases (decode_base64 t)) [
    | inl absent ↦ rw (token_from_basic, absent) (inr refl)
    | inr (raw, found) ↦ rw (token_from_basic, found) (password_of-IsCredential (cut b':' raw))
  ]

  token_of_scheme-IsCredential :
      (scheme t : Bytes) → IsCredential (token_of_scheme decode_base64 scheme t)
  unfolding token_of_scheme
  token_of_scheme-IsCredential scheme t = elim (Bool-cases (equal_fold scheme (codes "bearer"))) [
    | inl bearer ↦ rw (bearer) (bare-IsCredential t)
    | inr other ↦ elim (Bool-cases (equal_fold scheme (codes "basic"))) [
      | inl basic ↦ rw (other, basic) (token_from_basic-IsCredential t)
      | inr neither ↦ rw (other, neither) (inr refl)
    ]
  ]

  -- Whatever the header says, the result is a token that is not empty or ErrNoCredential; an empty
  -- token is never a success, and no other error arises.
  pub extract_token-IsCredential :
      (header : Bytes) → IsCredential (extract_token decode_base64 header)
  unfolding extract_token
  extract_token-IsCredential [] = inr refl
  extract_token-IsCredential (c ∷ header) = elim (Option-cases (cut b' ' (c ∷ header))) [
    | inl absent ↦ rw (absent) (inr refl)
    | inr ((scheme, rest), found) ↦
        rw (found) (token_of_scheme-IsCredential scheme (trim_space rest))
  ]

  basic-Lacks : Lacks b' ' (codes "Basic")
  basic-Lacks = (ground arith, (ground arith, (ground arith, (ground arith, (ground arith, tt)))))

  extract_token-eq_scheme :
      (scheme rest : Bytes)
      → scheme ≢ []
      → Lacks b' ' scheme
      → extract_token decode_base64 (scheme ++ b' ' ∷ rest)
        ≡ token_of_scheme decode_base64 scheme (trim_space rest)
  unfolding extract_token
  extract_token-eq_scheme [] rest ne h = absurd (ne refl)
  extract_token-eq_scheme (c ∷ scheme) rest ne h = rw (cut-append b' ' (c ∷ scheme) rest h) refl

  token_from_basic-sentinel :
      (encoded user pass : Bytes)
      → decode_base64 encoded ≡ some (user ++ b':' ∷ pass)
      → Lacks b':' user
      → is_sentinel_user user ≡ true
      → pass ≢ []
      → token_from_basic decode_base64 encoded ≡ ok pass
  unfolding token_from_basic password_of
  token_from_basic-sentinel encoded user [] d l s ne = absurd (ne refl)
  token_from_basic-sentinel encoded user (c ∷ pass) d l s ne =
      rw (token_from_basic, d, cut-append b':' user (c ∷ pass) l, s) refl
