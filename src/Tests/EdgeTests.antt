-- ===== src/Tests/EdgeTests.antt =====
-- Runs of the edges: credentials, authenticators and download filters.
use open_artifact.Shared.{
  ℕ, ◌+◌, ◌≡◌, ◌≢◌, refl, ◌↔◌, ◌≤◌, ◌⊎◌, inl, inr, Bool, true, false, Option, none, some, List, [],
  ◌∷◌, ◌++◌, Bytes, codes, arith, All, Any, Lacks, Error, no_credential, invalid_token, Result, ok,
  err, bytes_eq, ltb, trim_space, trim,
}
use open_artifact.Auth.{AuthContext}
use open_artifact.Auth.Credential.{extract_token, is_sentinel_user}
use open_artifact.Auth.Credential.Tokens.{IsCredential, extract_token-IsCredential}
use open_artifact.Auth.Chain.{Authenticator, authenticate, always_anonymous, middleware, handled}
use open_artifact.Auth.Chain.Order.{authenticate_first, middleware_authenticated}
use open_artifact.Proxy.Filter.{
  Spec, Ref, CompiledFilter, allow, compile, decide_at, kind_deny, kind_delay,
}
use open_artifact.Proxy.Filter.Decisions.{decide_at_monotone}
use open_artifact.Proxy.Filter.Compiled.{IsEffective, compile-IsEffective}

abbrev decode : Bytes → Option Bytes
decode encoded = some (codes "_token" ++ b':' ∷ encoded)

extract_token-IsCredential_example : IsCredential (extract_token decode (codes "Bearer abc"))
extract_token-IsCredential_example = extract_token-IsCredential decode (codes "Bearer abc")

token_IsSentinel : is_sentinel_user (codes "_token") ≡ true
unfolding is_sentinel_user
token_IsSentinel = refl

abbrev silent : Authenticator Bytes
silent r = err no_credential

abbrev rejecting : Authenticator Bytes
rejecting r = err invalid_token

authenticate_first_example :
    authenticate ((silent ∷ []) ++ rejecting ∷ always_anonymous ∷ []) (codes "GET")
    ≡ rejecting (codes "GET")
authenticate_first_example =
    authenticate_first (silent ∷ []) rejecting (always_anonymous ∷ []) (codes "GET") (refl, tt)
      (λ e. absurd (cc))

abbrev echo : AuthContext → Bytes → Bytes
echo ac r = ac.id

anonymous_handled :
    middleware (authenticate (silent ∷ always_anonymous ∷ [])) echo (codes "GET")
    ≡ handled (codes "anonymous")
unfolding middleware authenticate
anonymous_handled = refl

middleware_authenticated_example :
    (ac : AuthContext) × Any
      (λ (a : Authenticator Bytes). a (codes "GET") ≡ ok ac)
      (silent ∷ always_anonymous ∷ [])
    × (codes "anonymous" ≡ echo ac (codes "GET"))
middleware_authenticated_example =
    middleware_authenticated (silent ∷ always_anonymous ∷ []) echo (codes "GET") anonymous_handled

abbrev path_match : Bytes → Bytes → Option Bool
path_match pattern name = some (bytes_eq pattern name)

abbrev parse_duration : Bytes → Option ℕ
parse_duration s = some 3

abbrev denying : Spec
denying = record { kind = kind_deny; patterns = codes "evil" ∷ []; rules = []; min_age = [] }

abbrev delaying : Spec
delaying = record { kind = kind_delay; patterns = []; rules = []; min_age = codes "3ns" }

abbrev denies : CompiledFilter
denies = record { kind = kind_deny; patterns = codes "evil" ∷ []; rules = []; min_age = 0 }

abbrev delays : CompiledFilter
delays = record { kind = kind_delay; patterns = []; rules = []; min_age = 3 }

chain_compiles :
    compile path_match parse_duration (denying ∷ delaying ∷ []) ≡ ok (denies ∷ delays ∷ [])
unfolding compile open_artifact.Shared.◌>>=◌
chain_compiles = refl

compile-IsEffective_example : All IsEffective (denies ∷ delays ∷ [])
compile-IsEffective_example =
    compile-IsEffective path_match parse_duration (denying ∷ delaying ∷ []) chain_compiles

abbrev good : Ref
good = record { pkg = codes "good"; version = codes "1"; published_at = some 10 }

good_allowed : decide_at path_match parse_duration (denies ∷ delays ∷ []) good 13 ≡ allow
unfolding decide_at
good_allowed = refl

decide_at_monotone_example :
    decide_at path_match parse_duration (denies ∷ delays ∷ []) good 20 ≡ allow
decide_at_monotone_example =
    decide_at_monotone path_match parse_duration (denies ∷ delays ∷ []) good 13 20 (omega arith)
      good_allowed
