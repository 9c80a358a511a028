-- ===== src/Tests/OidcTests.antt =====
-- Runs of the OIDC authenticator with an issuer that accepts every token of its own.
use open_artifact.Shared.{
  ℕ, zero, suc, ◌+◌, ◌≤◌, ◌≡◌, ◌≢◌, ◌⊎◌, ◌↔◌, refl, inl, inr, arith, ap, Option, none, some, List,
  [], ◌∷◌, Bytes, codes, no_credential, Error, Result, ok, err, ltb, length, take, if◌then◌else◌,
}
use open_artifact.Core.{text, value}
use open_artifact.Auth.{AuthContext}
use open_artifact.Auth.Oidc.{Library, State, Authenticator, IdToken, context_of, authenticate}
use open_artifact.Auth.Oidc.Capped.{Reading, reads, reads_capped}
use open_artifact.Auth.Oidc.Vouched.{after, IsVouched, authenticate-IsVouched}
use open_artifact.Auth.Oidc.Foreign.{IsForeign, authenticate-IsForeign}

abbrev id_token : IdToken
id_token = record {
  issuer = codes "idp";
  subject = codes "ann";
  claims = some (
      (codes "email", text (codes "a@b"))
      ∷ (codes "email_verified", value (some (codes "true")))
      ∷ []);
}

-- The network counts the discoveries, and a payload is the issuer that it names.
abbrev lib : Library
lib = record {
  Net = ℕ;
  Verifier = Bytes;
  discover = λ issuer audience n. (some audience, n + 1);
  verify = λ v token n. (some id_token, n);
  decode_base64 = λ s. none;
  decode_raw_url = λ s. some s;
  issuer_claim = λ s. some s;
}

abbrev idp : Authenticator
idp = record { issuer = codes "idp"; audience = codes "registry" }

abbrev fresh : State lib
fresh = record { verifier = none; net = 0 }

abbrev ann : AuthContext
ann = record {
  issuer = codes "idp";
  id = codes "ann";
  email = codes "a@b";
  claims =
      (codes "email", text (codes "a@b"))
      ∷ (codes "email_verified", value (some (codes "true")))
      ∷ [];
  kind = codes "oidc";
}

ann_in :
    authenticate lib idp (codes "Bearer h.idp.s") fresh
    ≡ (ok ann, record { verifier = some (codes "registry"); net = 1 })
unfolding authenticate open_artifact.Store.Io.◌>>=◌ open_artifact.Auth.Credential.extract_token
    open_artifact.Shared.trim_space open_artifact.Auth.Oidc.verifier_of context_of
    open_artifact.Auth.Oidc.email_of open_artifact.Shared.Maps.get
ann_in = refl

abbrev warm : List (Bytes × ℕ)
warm = (codes "Bearer h.idp.s", 0) ∷ []

ann_again :
    authenticate lib idp (codes "Bearer h.idp.s") (after lib idp warm 4)
    ≡ (ok ann, record { verifier = some (codes "registry"); net = 4 })
unfolding after authenticate open_artifact.Store.Io.◌>>=◌
    open_artifact.Auth.Credential.extract_token open_artifact.Shared.trim_space
    open_artifact.Auth.Oidc.verifier_of context_of open_artifact.Auth.Oidc.email_of
    open_artifact.Shared.Maps.get
ann_again = refl

authenticate-IsVouched_example : IsVouched lib idp (codes "Bearer h.idp.s") ann
authenticate-IsVouched_example =
    authenticate-IsVouched lib idp warm 4 (codes "Bearer h.idp.s") (ap (λ out. out.0) ann_again)

authenticate-IsForeign_example :
    (((authenticate lib idp (codes "Bearer h.other.s") fresh).0 ≡ err no_credential)
      ↔ IsForeign lib idp (codes "Bearer h.other.s"))
    × (((authenticate lib idp (codes "Bearer h.other.s") fresh).0 ≡ err no_credential)
        ↔ (authenticate lib idp (codes "Bearer h.other.s") fresh ≡ (err no_credential, fresh)))
authenticate-IsForeign_example = authenticate-IsForeign lib idp (codes "Bearer h.other.s") fresh

abbrev read_text : ℕ → Bytes → Reading Bytes
read_text n s = ((take n s, none), [])

take_Fits : (n : ℕ) (s : Bytes) → length (take n s) ≤ n
take_Fits zero s = ground arith
take_Fits (suc n) [] = ground arith
take_Fits (suc n) (c ∷ s) = let rest = take_Fits n s in ground arith

reads_capped_example :
    reads read_text (2 ∷ 5 ∷ []) (record { rc = codes "abcdef"; remaining = 3 }) ≤ 3
reads_capped_example =
    reads_capped read_text take_Fits (2 ∷ 5 ∷ []) (record { rc = codes "abcdef"; remaining = 3 })
