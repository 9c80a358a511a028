-- ===== src/Auth/Oidc/Vouched.antt =====
-- Authenticate of pkg/auth/oidc/oidc.go: what stands behind a context.
use open_artifact.Shared.{
  sym, List, ◌∷◌, Result, ◌≤◌, ◌≡◌, refl, ◌⊎◌, inl, inr, arith, true, Option, none, some, [], Bytes,
  codes, bytes_eq, length, ltb, ap, subst, ◌∙◌, Bool-cases, Error, ok, ok_injective,
}
use mathlib.Core.Option.{some-injective}
use open_artifact.Shared.Maps
use open_artifact.Shared.Maps.{Dict}
use open_artifact.Shared.Strings.Laws.{eq_of_bytes_eq}
use open_artifact.Core.{Json, text, value}
use open_artifact.Store.Io.{lift, unless}
use open_artifact.Store.Io.Keeps.{Keeps, Keeps-bind, Keeps-pure, Keeps-unless}
use open_artifact.Store.Io.Inversion.{bind_ok}
use open_artifact.Auth.{AuthContext}
use open_artifact.Auth.Credential.{extract_token}
use open_artifact.Auth.Oidc.{
  Library, State, Authenticator, IdToken, max_token_size, peek_issuer, issuer_error, size_error,
  verifier_of, get_verifier, found, verified, or_invalid, context_of, email_of, is_true, string_of,
  authenticate,
}

-- An address that is empty, or that the claims give and declare verified.
abbrev pub IsEmail : Dict Json → Bytes → Type 0
IsEmail claims email =
    (email ≡ [])
    ⊎ ((Maps.get claims (codes "email_verified") ≡ some (value (some (codes "true"))))
        × (Maps.get claims (codes "email") ≡ some (text email)))

-- A context with the issuer and the subject of an ID token, and its claims.
abbrev pub IsContext : IdToken → Dict Json → AuthContext → Type 0
IsContext id claims ac =
    (ac.issuer ≡ id.issuer)
    × (ac.id ≡ id.subject)
    × (ac.claims ≡ claims)
    × (ac.kind ≡ codes "oidc")
    × IsEmail claims ac.email

is_true_lem : (o : Option Json) → is_true o ≡ true → o ≡ some (value (some (codes "true")))
unfolding is_true
is_true_lem (some (value (some raw))) h =
    ap (λ t. some (value (some t))) (eq_of_bytes_eq raw (codes "true") h)
is_true_lem (some (value none)) h = absurd (cc)
is_true_lem (some (text t)) h = absurd (cc)
is_true_lem none h = absurd (cc)

string_of_cases : (o : Option Json) → (string_of o ≡ []) ⊎ (o ≡ some (text (string_of o)))
unfolding string_of
string_of_cases (some (text t)) = inr refl
string_of_cases (some (value v)) = inl refl
string_of_cases none = inl refl

email_of-IsEmail : (claims : Dict Json) → IsEmail claims (email_of claims)
unfolding email_of
email_of-IsEmail claims = elim (Bool-cases (is_true (Maps.get claims (codes "email_verified")))) [
  | inl verified_email ↦
      rw (verified_email) (elim (string_of_cases (Maps.get claims (codes "email"))) [
        | inl absent ↦ inl absent
        | inr given ↦
            inr (is_true_lem (Maps.get claims (codes "email_verified")) verified_email, given)
      ])
  | inr unverified ↦ rw (unverified) (inl refl)
]

module _ (lib : Library) (a : Authenticator) where
  -- A verifier that discovery for the issuer and the audience gave, at some state of the network.
  abbrev pub IsDiscovered : lib.Verifier → Type 0
  IsDiscovered v = (net : lib.Net) × ((lib.discover a.issuer a.audience net).0 ≡ some v)

  -- A state that holds no verifier but a discovered one.
  abbrev IsSound : State lib → Type 0
  IsSound w = (w.verifier ≡ none) ⊎ ((v : lib.Verifier) × (w.verifier ≡ some v) × IsDiscovered v)

  -- The state of a new Authenticator after requests, each with its header and with the state in which it
  -- finds the network.
  unfoldable pub after : List (Bytes × lib.Net) → lib.Net → State lib
  after [] net = record { verifier = none; net = net }
  after ((header, seen) ∷ requests) net =
      record (authenticate lib a header (after requests seen)).1 { net = net }

  -- What stands behind a context: a token of the header, within the size, that names the issuer, and
  -- that a verifier of the issuer and the audience accepted as the one the context is made from.
  abbrev pub IsVouched : Bytes → AuthContext → Type 0
  IsVouched header ac =
      (token : Bytes) × (extract_token lib.decode_base64 header ≡ ok token)
      × (length token ≤ max_token_size)
      × (peek_issuer lib token ≡ some a.issuer)
      × ((v : lib.Verifier) × IsDiscovered v
          × ((net : lib.Net) × (id : IdToken) × ((lib.verify v token net).0 ≡ some id)
              × ((claims : Dict Json) × (id.claims ≡ some claims) × IsContext id claims ac)))

  context_of-IsContext :
      (id : IdToken) (claims : Dict Json) {ac : AuthContext}
      → context_of id claims ≡ ac
      → IsContext id claims ac
  unfolding context_of
  context_of-IsContext id claims h =
      subst (IsContext id claims) h (refl, refl, refl, refl, email_of-IsEmail claims)

  unless_ok :
      (o : Option Error) (w : State lib) {u : Unit {0}}
      → (unless o w).0 ≡ ok u
      → (o ≡ none) × ((unless o w).1 ≡ w)
  unless_ok none w h = (refl, refl)
  unless_ok (some e) w h = absurd (cc)

  pub size_bound : (token : Bytes) → size_error lib a token ≡ none → length token ≤ max_token_size
  unfolding size_error
  size_bound token h = elim (Bool-cases (ltb max_token_size (length token))) [
    | inl long ↦ absurd (ground (arith, long, h))
    | inr fits ↦ ground arith
  ]

  issuer_known : (o : Option Bytes) → issuer_error lib a o ≡ none → o ≡ some a.issuer
  unfolding issuer_error
  issuer_known none h = absurd (cc)
  issuer_known (some iss) h = elim (Bool-cases (bytes_eq iss a.issuer)) [
    | inl same ↦ ap some (eq_of_bytes_eq iss a.issuer same)
    | inr other ↦ absurd (ground (arith, other, h))
  ]

  found_ok :
      (answer : Option lib.Verifier × lib.Net) (w : State lib) {v : lib.Verifier}
      → (found lib answer w).0 ≡ ok v
      → answer.0 ≡ some v
  unfolding found
  found_ok (none, net) w h = absurd (cc)
  found_ok (some v, net) w h = ap some (ok_injective h)

  verifier_ok :
      (held : Option lib.Verifier) (w : State lib) {v : lib.Verifier}
      → w.verifier ≡ held
      → IsSound w
      → (verifier_of lib a held w).0 ≡ ok v
      → IsDiscovered v
  unfolding verifier_of
  verifier_ok none w e sound h = (w.net, found_ok (lib.discover a.issuer a.audience w.net) w h)
  verifier_ok (some v) w e (inl bare) h = absurd (cc)
  verifier_ok (some v) w e (inr (u, held, found_at)) h =
      subst IsDiscovered (some-injective _ _ (sym held ∙ e) ∙ ok_injective h) found_at

  found-IsSound :
      (answer : Option lib.Verifier × lib.Net) (w : State lib) {net : lib.Net}
      → (lib.discover a.issuer a.audience net).0 ≡ answer.0
      → IsSound (found lib answer w).1
  unfolding found
  found-IsSound (none, after_net) w h = inl refl
  found-IsSound (some v, after_net) w {net} h = inr (v, refl, (net, h))

  verifier_of-IsSound : (held : Option lib.Verifier) → Keeps IsSound (verifier_of lib a held)
  unfolding verifier_of
  verifier_of-IsSound none = record { at = λ w h. found-IsSound _ w refl }
  verifier_of-IsSound (some v) = record { at = λ w h. h }

  get_verifier-Keeps : Keeps IsSound (get_verifier lib a)
  unfolding get_verifier
  get_verifier-Keeps = record { at = λ w h. (verifier_of-IsSound w.verifier).at w h }

  or_invalid-Keeps :
      {A : Type 0} {P : State lib → Type 0} (o : Option A) → Keeps P (or_invalid lib o)
  unfolding or_invalid
  or_invalid-Keeps none = record { at = λ w h. h }
  or_invalid-Keeps (some x) = record { at = λ w h. h }

  verified-Keeps : (v : lib.Verifier) (token : Bytes) → Keeps IsSound (verified lib v token)
  unfolding verified
  verified-Keeps v token = record {
    at = λ w h. (or_invalid-Keeps {P = IsSound} (lib.verify v token w.net).0).at _ h;
  }

  lift-Keeps :
      {A : Type 0} {P : State lib → Type 0} (r : Result A) → Keeps P (lift {W = State lib} r)
  lift-Keeps r = record { at = λ w h. h }

  authenticate-Keeps : (header : Bytes) → Keeps IsSound (authenticate lib a header)
  unfolding authenticate
  authenticate-Keeps header = Keeps-bind _ _ (lift-Keeps _) (λ token.
      Keeps-bind _ _ (Keeps-unless _) (λ sized. Keeps-bind _ _ (Keeps-unless _) (λ named.
        Keeps-bind _ _ get_verifier-Keeps (λ v.
          Keeps-bind _ _ (verified-Keeps v token)
            (λ id. Keeps-bind _ _ (or_invalid-Keeps id.claims) (λ claims. Keeps-pure _))))))

  after-IsSound : (requests : List (Bytes × lib.Net)) (net : lib.Net) → IsSound (after requests net)
  unfolding after
  after-IsSound [] net = inl refl
  after-IsSound ((header, seen) ∷ requests) net =
      (authenticate-Keeps header).at (after requests seen) (after-IsSound requests seen)

  or_invalid_ok :
      {A : Type 0} (o : Option A) (w : State lib) {x : A}
      → (or_invalid lib o w).0 ≡ ok x
      → o ≡ some x
  unfolding or_invalid
  or_invalid_ok none w h = absurd (cc)
  or_invalid_ok (some y) w h = ap some (ok_injective h)

  verified_ok :
      (v : lib.Verifier) (token : Bytes) (w : State lib) {id : IdToken}
      → (verified lib v token w).0 ≡ ok id
      → (lib.verify v token w.net).0 ≡ some id
  unfolding verified
  verified_ok v token w h = or_invalid_ok _ _ h

  returned-IsVouched :
      (header : Bytes) (w : State lib) {ac : AuthContext}
      → IsSound w
      → (authenticate lib a header w).0 ≡ ok ac
      → IsVouched header ac
  unfolding authenticate get_verifier
  returned-IsVouched header w sound h =
      let (token, extracted, h₁, s₁) =
        bind_ok (lift (extract_token lib.decode_base64 header)) _ w h in
      let (u₁, sized, h₂, s₂) = bind_ok (unless (size_error lib a token)) _ w h₁ in
      let w₁ = (unless (size_error lib a token) w).1 in
      let (u₂, named, h₃, s₃) =
        bind_ok (unless (issuer_error lib a (peek_issuer lib token))) _ w₁ h₂ in
      let w₂ = (unless (issuer_error lib a (peek_issuer lib token)) w₁).1 in
      let (v, got, h₄, s₄) = bind_ok (get_verifier lib a) _ w₂ h₃ in
      let w₃ = (get_verifier lib a w₂).1 in
      let (id, accepted, h₅, s₅) = bind_ok (verified lib v token) _ w₃ h₄ in
      let (claims, decoded, h₆, s₆) = bind_ok (or_invalid lib id.claims) _ _ h₅ in
      let (size, same₁) = unless_ok _ w sized in
      let (issuer, same₂) = unless_ok _ w₁ named in
      (
        token,
        extracted,
        size_bound token size,
        issuer_known _ issuer,
        (
          v,
          verifier_ok w₂.verifier w₂ refl (subst IsSound (sym (same₂ ∙ same₁)) sound) got,
          (
            w₃.net,
            id,
            verified_ok v token w₃ accepted,
            (claims, or_invalid_ok _ _ decoded, context_of-IsContext id claims (ok_injective h₆)),
          ),
        ),
      )

  -- A context that Authenticate returned after any requests to a new Authenticator is that of an ID token
  -- which a verifier accepted that discovery for the configured issuer and audience gave, for this
  -- request or an earlier one. The token stands in the header, is within the size limit, and names the
  -- issuer.
  pub authenticate-IsVouched :
      (requests : List (Bytes × lib.Net)) (net : lib.Net) (header : Bytes) {ac : AuthContext}
      → (authenticate lib a header (after requests net)).0 ≡ ok ac
      → IsVouched header ac
  authenticate-IsVouched requests net header h =
      returned-IsVouched header (after requests net) (after-IsSound requests net) h
