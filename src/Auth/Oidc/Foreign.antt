-- ===== src/Auth/Oidc/Foreign.antt =====
-- Authenticate of pkg/auth/oidc/oidc.go: the requests that it leaves to the rest of a chain.
use open_artifact.Shared.{
  ◌≤◌, ◌≡◌, ◌≢◌, refl, ◌⊎◌, ◌↔◌, inl, inr, arith, Option, none, some, Bytes, bytes_eq, length, ltb,
  ap, ◌∙◌, Bool-cases, Error, no_credential, Result, ok, err,
}
use open_artifact.Shared.Strings.Laws.{eq_of_bytes_eq, bytes_eq_refl}
use open_artifact.Store.Io
use open_artifact.Store.Io.{Io, pure, lift, unless, continue, ◌>>=◌, ◌>>◌}
use open_artifact.Auth.{AuthContext}
use open_artifact.Auth.Credential.{extract_token}
use open_artifact.Auth.Oidc.Vouched.{size_bound}
use open_artifact.Auth.Oidc.{
  Library, State, Authenticator, max_token_size, peek_issuer, issuer_error, size_error, verifier_of,
  get_verifier, found, verified, or_invalid, context_of, authenticate,
}

-- A call that never fails with `e`.
abbrev IsNever : {W A : Type 0} → Error → Io W A → Type 0
IsNever {W} e m = (w : W) → (m w).0 ≢ err e

module _ {W A B : Type 0} {e : Error} where
  continue-IsNever :
      (r : Result A) (f : A → Io W B)
      → r ≢ err e
      → ((x : A) → IsNever e (f x))
      → IsNever e (continue r f)
  continue-IsNever (ok x) f hr hf w = hf x w
  continue-IsNever (err d) f hr hf w = λ h. hr (cc)

  bind-IsNever :
      (m : Io W A) (f : A → Io W B)
      → IsNever e m
      → ((x : A) → IsNever e (f x))
      → IsNever e (m >>= f)
  unfolding Io.◌>>=◌
  bind-IsNever m f hm hf w = continue-IsNever (m w).0 f (hm w) hf (m w).1

module _ (lib : Library) (a : Authenticator) where
  -- the requests that are not for this issuer
  abbrev pub IsForeign : Bytes → Type 0
  IsForeign header =
      (extract_token lib.decode_base64 header ≡ err no_credential)
      ⊎ ((token : Bytes) × (extract_token lib.decode_base64 header ≡ ok token)
          × (length token ≤ max_token_size)
          × (peek_issuer lib token ≢ some a.issuer))

  found-IsNever :
      (answer : Option lib.Verifier × lib.Net) → IsNever no_credential (found lib answer)
  unfolding found
  found-IsNever (none, net) w h = absurd (cc)
  found-IsNever (some v, net) w h = absurd (cc)

  verifier_of-IsNever :
      (held : Option lib.Verifier) → IsNever no_credential (verifier_of lib a held)
  unfolding verifier_of
  verifier_of-IsNever none w h = found-IsNever (lib.discover a.issuer a.audience w.net) w h
  verifier_of-IsNever (some v) w h = absurd (cc)

  get_verifier-IsNever : IsNever no_credential (get_verifier lib a)
  unfolding get_verifier
  get_verifier-IsNever w = verifier_of-IsNever w.verifier w

  or_invalid-IsNever : {A : Type 0} (o : Option A) → IsNever no_credential (or_invalid lib o)
  unfolding or_invalid
  or_invalid-IsNever none w h = absurd (cc)
  or_invalid-IsNever (some x) w h = absurd (cc)

  verified-IsNever :
      (v : lib.Verifier) (token : Bytes) → IsNever no_credential (verified lib v token)
  unfolding verified
  verified-IsNever v token w = or_invalid-IsNever _ _

  -- Authenticate of a token within the size that names the issuer
  checked : Bytes → Io (State lib) AuthContext
  checked token = do
    v ← get_verifier lib a
    id ← verified lib v token
    claims ← or_invalid lib id.claims
    pure (context_of id claims)

  checked-IsNever : (token : Bytes) → IsNever no_credential (checked token)
  unfolding checked
  checked-IsNever token = bind-IsNever (get_verifier lib a) _ get_verifier-IsNever (λ v.
      bind-IsNever (verified lib v token) _ (verified-IsNever v token) (λ id.
        bind-IsNever (or_invalid lib id.claims) _ (or_invalid-IsNever id.claims)
          (λ claims w h. absurd (cc))))

  -- Authenticate of a token, by its size and by the issuer that it names
  judged : Option Error → Option Error → Bytes → Io (State lib) AuthContext
  judged size issuer token = unless size >> (unless issuer >> checked token)

  judged_refused :
      (size issuer : Option Error) (token : Bytes) (w : State lib)
      → (judged size issuer token w).0 ≡ err no_credential
      → ((size ≡ none) × (issuer ≢ none)) ⊎ (size ≡ some no_credential)
  unfolding judged Io.◌>>=◌
  judged_refused none none token w h = absurd (checked-IsNever token w h)
  judged_refused none (some e) token w h = inl (refl, λ k. absurd (cc))
  judged_refused (some e) issuer token w h = inr (cc)

  size_refused : (token : Bytes) → size_error lib a token ≢ some no_credential
  unfolding size_error
  size_refused token h = elim (Bool-cases (ltb max_token_size (length token))) [
    | inl long ↦ absurd (ground (arith, long, h))
    | inr fits ↦ absurd (ground (arith, fits, h))
  ]

  size_none : (token : Bytes) → length token ≤ max_token_size → size_error lib a token ≡ none
  unfolding size_error
  size_none token h = ground arith

  issuer_named : issuer_error lib a (some a.issuer) ≡ none
  unfolding issuer_error
  issuer_named = rw (bytes_eq_refl) refl

  issuer_refused :
      (o : Option Bytes) → o ≢ some a.issuer → issuer_error lib a o ≡ some no_credential
  unfolding issuer_error
  issuer_refused none h = refl
  issuer_refused (some iss) h = elim (Bool-cases (bytes_eq iss a.issuer)) [
    | inl same ↦ absurd (h (ap some (eq_of_bytes_eq iss a.issuer same)))
    | inr other ↦ rw (other) refl
  ]

  token_refused :
      (token : Bytes) (w : State lib)
      → (judged (size_error lib a token) (issuer_error lib a (peek_issuer lib token)) token w).0
        ≡ err no_credential
      → (length token ≤ max_token_size) × (peek_issuer lib token ≢ some a.issuer)
  token_refused token w h = elim (judged_refused _ _ token w h) [
    | inl (fits, refused) ↦ (
      size_bound lib a token fits,
      λ named. refused (ap (issuer_error lib a) named ∙ issuer_named),
    )
    | inr long ↦ absurd (size_refused token long)
  ]

  -- the requests whose extraction gave `r`
  extracted_refused :
      (r : Result Bytes) (w : State lib)
      → ((lift r >>= λ token.
            judged (size_error lib a token) (issuer_error lib a (peek_issuer lib token)) token)
          w).0
        ≡ err no_credential
      → (r ≡ err no_credential)
        ⊎ ((token : Bytes) × (r ≡ ok token)
            × (length token ≤ max_token_size)
            × (peek_issuer lib token ≢ some a.issuer))
  unfolding Io.◌>>=◌
  extracted_refused (err e) w h = inl (cc)
  extracted_refused (ok token) w h =
      let (fits, other) = token_refused token w h in inr (token, refl, fits, other)

  foreign_refused :
      (header : Bytes) (w : State lib)
      → IsForeign header
      → authenticate lib a header w ≡ (err no_credential, w)
  unfolding authenticate Io.◌>>=◌
  foreign_refused header w (inl bare) = rw (bare) refl
  foreign_refused header w (inr (token, extracted, fits, other)) =
      rw (extracted, size_none token fits, issuer_refused _ other) refl

  -- Authenticate fails with ErrNoCredential, so that a chain goes on, exactly for the requests without a
  -- token and those whose token is within the size limit and does not name the issuer. Neither the
  -- held verifier nor the network is then touched.
  pub authenticate-IsForeign :
      (header : Bytes) (w : State lib)
      → (((authenticate lib a header w).0 ≡ err no_credential) ↔ IsForeign header)
        × (((authenticate lib a header w).0 ≡ err no_credential)
            ↔ (authenticate lib a header w ≡ (err no_credential, w)))
  unfolding authenticate judged checked
  authenticate-IsForeign header w =
      let to : (authenticate lib a header w).0 ≡ err no_credential → IsForeign header =
        extracted_refused (extract_token lib.decode_base64 header) w in
      let from = foreign_refused header w in
      ((to, λ h. ap (λ out. out.0) (from h)), (λ h. from (to h), λ h. ap (λ out. out.0) h))
