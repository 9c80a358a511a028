-- ===== src/Auth/Chain.antt =====
-- pkg/auth/chain and pkg/auth/middleware.go: authenticators tried in order, before the handler.
pub mod Order
use open_artifact.Shared.{
  ◌≡◌, refl, Bool, true, false, List, [], ◌∷◌, Bytes, codes, Error, no_credential, invalid_token,
  Result, ok, err,
}
use open_artifact.Auth.{AuthContext}

-- Authenticator over a request type `R`
abbrev pub Authenticator : Type 0 → Type 0
Authenticator R = R → Result AuthContext

-- one child's answer, before what the rest of the chain answers
unfoldable pub or_next : Result AuthContext → Result AuthContext → Result AuthContext
or_next (ok ac) rest = ok ac
or_next (err no_credential) rest = rest
or_next (err e) rest = err e

module _ {R : Type 0} where
  -- chain.Authenticate
  unfoldable pub authenticate : List (Authenticator R) → Authenticator R
  unfolding or_next
  authenticate [] r = err no_credential
  authenticate (child ∷ children) r = or_next (child r) (authenticate children r)

-- AlwaysAnonymous
abbrev pub always_anonymous : {R : Type 0} → Authenticator R
always_anonymous r = ok (record {
  issuer = codes "anonymous";
  id = codes "anonymous";
  email = [];
  claims = [];
  kind = codes "anonymous";
})

-- What the middleware does with a request: a 401 with its message, or the handler with the subject.
pub data Served (A : Type 0) : Type 0 where
  challenge : Bytes → Served A
  handled : A → Served A

unfoldable pub challenge_message : Error → Bytes
challenge_message invalid_token = codes "invalid token"
challenge_message e = codes "missing credential"

unfoldable pub serve : {A : Type 0} → (AuthContext → A) → Result AuthContext → Served A
unfolding challenge_message
serve next (ok ac) = handled (next ac)
serve next (err e) = challenge (challenge_message e)

module _ {R A : Type 0} where
  -- Middleware
  unfoldable pub middleware : Authenticator R → (AuthContext → R → A) → R → Served A
  unfolding serve
  middleware authn next r = serve (λ ac. next ac r) (authn r)
