-- ===== src/Auth/Oidc.antt =====
-- pkg/auth/oidc/oidc.go: the verification of tokens of one issuer, for one audience.
pub mod Capped
pub mod Vouched
pub mod Foreign
use open_artifact.Shared.{
  ℕ, Bool, true, false, not, ◌||◌, Option, none, some, List, [], ◌∷◌, Bytes, codes, bytes_eq,
  is_empty, length, ltb, if◌then◌else◌, Error, invalid_token, no_credential, discovery_failed, ok,
  err,
}
use open_artifact.Shared.Segments.{split}
use open_artifact.Shared.Maps
use open_artifact.Shared.Maps.{Dict}
use open_artifact.Core.{Json, text, value}
use open_artifact.Store.Io.{Io, pure, lift, raise, unless, ◌>>=◌, ◌>>◌}
use open_artifact.Auth.{AuthContext}
use open_artifact.Auth.Credential.{extract_token}

-- 64 KiB
abbrev pub max_token_size : ℕ
max_token_size = 65536

-- coreoidc.IDToken, with what Claims decodes
pub record IdToken : Type 0 where
  pub issuer : Bytes
  pub subject : Bytes
  pub claims : Option (Dict Json)

-- What is taken from outside: NewProvider with the Verifier of an audience, and Verify, of package
-- coreoidc, over the state of the network, and the decoders of a token's payload: RawURLEncoding, and
-- the "iss" of an object, which is empty where that is absent.
pub record Library : Type 1 where
  pub Net : Type 0
  pub Verifier : Type 0
  pub discover : Bytes → Bytes → Net → Option Verifier × Net
  pub verify : Verifier → Bytes → Net → Option IdToken × Net
  pub decode_base64 : Bytes → Option Bytes
  pub decode_raw_url : Bytes → Option Bytes
  pub issuer_claim : Bytes → Option Bytes

-- The verifier that an Authenticator holds, and the network.
pub record State (lib : Library) : Type 0 where
  pub verifier : Option lib.Verifier
  pub net : lib.Net

-- Authenticator
pub record Authenticator : Type 0 where
  pub issuer : Bytes
  pub audience : Bytes

unfoldable pub known_issuer : Option Bytes → Option Bytes
known_issuer none = none
known_issuer (some iss) = if is_empty iss then none else some iss

module _ (lib : Library) where
  unfoldable pub payload_issuer : Option Bytes → Option Bytes
  unfolding known_issuer
  payload_issuer none = none
  payload_issuer (some payload) = known_issuer (lib.issuer_claim payload)

  unfoldable pub parts_issuer : List Bytes → Option Bytes
  unfolding payload_issuer
  parts_issuer (header ∷ payload ∷ signature ∷ []) = payload_issuer (lib.decode_raw_url payload)
  parts_issuer parts = none

  -- peekIssuer; none is its false
  unfoldable pub peek_issuer : Bytes → Option Bytes
  unfolding parts_issuer split
  peek_issuer token = parts_issuer (split b'.' token)

  unfoldable pub found : Option lib.Verifier × lib.Net → Io (State lib) lib.Verifier
  found (none, net) w = (err discovery_failed, record { verifier = none; net = net })
  found (some v, net) w = (ok v, record { verifier = some v; net = net })

  or_invalid : {A : Type 0} → Option A → Io (State lib) A
  or_invalid none = raise invalid_token
  or_invalid (some a) = pure a

  -- verifier.Verify
  unfoldable pub verified : lib.Verifier → Bytes → Io (State lib) IdToken
  unfolding or_invalid
  verified v token w =
      let (r, net) = lib.verify v token w.net in or_invalid r (record w { net = net })

-- A JSON true is marshalled as it is written, and no other claim is marshalled so.
unfoldable pub is_true : Option Json → Bool
is_true (some (value (some raw))) = bytes_eq raw (codes "true")
is_true claim = false

unfoldable pub string_of : Option Json → Bytes
string_of (some (text s)) = s
string_of claim = []

-- the Email of a context that is made from these claims
unfoldable pub email_of : Dict Json → Bytes
unfolding is_true string_of
email_of claims =
    if is_true (Maps.get claims (codes "email_verified"))
    then string_of (Maps.get claims (codes "email"))
    else []

unfoldable pub context_of : IdToken → Dict Json → AuthContext
context_of id claims = record {
  issuer = id.issuer;
  id = id.subject;
  email = email_of claims;
  claims = claims;
  kind = codes "oidc";
}

module _ (lib : Library) (a : Authenticator) where
  unfoldable pub verifier_of : Option lib.Verifier → Io (State lib) lib.Verifier
  unfolding found
  verifier_of (some v) w = (ok v, w)
  verifier_of none w = found lib (lib.discover a.issuer a.audience w.net) w

  -- getVerifier, as under its mutex
  unfoldable pub get_verifier : Io (State lib) lib.Verifier
  get_verifier w = verifier_of w.verifier w

  unfoldable pub issuer_error : Option Bytes → Option Error
  issuer_error none = some no_credential
  issuer_error (some iss) = if bytes_eq iss a.issuer then none else some no_credential

  unfoldable pub size_error : Bytes → Option Error
  size_error token = if ltb max_token_size (length token) then some invalid_token else none

  -- Authenticate, of the value of the Authorization header
  unfoldable pub authenticate : Bytes → Io (State lib) AuthContext
  unfolding size_error issuer_error peek_issuer or_invalid get_verifier verified
  authenticate header = do
    token ← lift (extract_token lib.decode_base64 header)
    unless (size_error token)
    unless (issuer_error (peek_issuer lib token))
    v ← get_verifier
    id ← verified lib v token
    claims ← or_invalid lib id.claims
    pure (context_of id claims)
