-- ===== src/Namespace/Policies.antt =====
-- pkg/namespace/policy.go: compiled policies and their decision.
pub mod Decision
use open_artifact.Shared.{
  ◌≡◌, Bool, true, false, not, ◌&&◌, ◌||◌, Option, none, some, List, [], ◌∷◌, ◌++◌, Bytes, codes,
  bytes_eq, is_empty, has_prefix, has_suffix, if◌then◌else◌, Error, invalid_policy, unauthorized,
  unknown_op, Result, ok, err, ◌>>=◌, ◌>>◌,
}
use open_artifact.Shared.Maps.{Dict, get}
use open_artifact.Core.{Json, text, value}
use open_artifact.Auth.{AuthContext, op_read, op_write}
use open_artifact.Namespace.{SubjectMatcher, Policy, kind_oidc, kind_anonymous, kind_basic_token}

-- if the test holds { return ErrInvalidPolicy }
abbrev pub refuse_if : Bool → Result (Unit {0})
refuse_if true = err invalid_policy
refuse_if false = ok tt

-- The engine of package regexp: compiled expressions, and whether one matches a text.
pub record Engine : Type 1 where
  pub Regex : Type 0
  pub compile : Bytes → Option Regex
  pub match_string : Regex → Bytes → Bool

module _ (engine : Engine) where
  -- compiledClaim
  pub record CompiledClaim : Type 0 where
    pub key : Bytes
    pub re : engine.Regex

  -- compiledMatcher
  pub record CompiledMatcher : Type 0 where
    pub issuer : Bytes
    pub sub : Option engine.Regex
    pub email : Bytes
    pub claims : List CompiledClaim
    pub kind : Bytes

  -- compiledPolicy
  pub record CompiledPolicy : Type 0 where
    pub readers : List CompiledMatcher
    pub writers : List CompiledMatcher

  -- an end that carries its anchor is left as it is
  unfoldable pub anchored : Bytes → Bytes
  anchored pat =
      let from_start = if has_prefix (codes "^") pat then pat else codes "^" ++ pat in
      if has_suffix (codes "$") from_start then from_start else from_start ++ codes "$"

  or_invalid : Option engine.Regex → Result engine.Regex
  or_invalid none = err invalid_policy
  or_invalid (some re) = ok re

  -- compileAnchored
  unfoldable pub compile_anchored : Bytes → Result engine.Regex
  unfolding or_invalid anchored
  compile_anchored pat = or_invalid (engine.compile (anchored pat))

  -- the kind of a matcher: oidc by default, and a reserved or unknown one is refused
  unfoldable pub matcher_kind : Bytes → Result Bytes
  unfolding bytes_eq
  matcher_kind kind =
      if is_empty kind || bytes_eq kind kind_oidc
      then ok kind_oidc
      else if bytes_eq kind kind_anonymous
      then ok kind_anonymous
      else err invalid_policy

  unfoldable pub compile_claims : Dict Bytes → Result (List CompiledClaim)
  unfolding compile_anchored
  compile_claims [] = ok []
  compile_claims ((key, pat) ∷ claims) =
      let rest = compile_claims claims in
      do
        refuse_if (is_empty key)
        re ← compile_anchored pat
        cs ← rest
        ok (record { key = key; re = re } ∷ cs)

  unfoldable pub compile_sub : Bytes → Result (Option engine.Regex)
  unfolding compile_anchored
  compile_sub [] = ok none
  compile_sub (c ∷ pat) = do re ← compile_anchored (c ∷ pat); ok (some re)

  unfoldable pub is_blank : SubjectMatcher → Bool
  is_blank m =
      is_empty m.issuer
      && is_empty m.sub_match
      && is_empty m.email
      && is_empty m.claims_match
      && is_empty m.kind

  -- compileMatcher
  unfoldable pub compile_matcher : SubjectMatcher → Result CompiledMatcher
  unfolding is_blank matcher_kind compile_sub compile_claims
  compile_matcher m = do
    refuse_if (is_blank m)
    kind ← matcher_kind m.kind
    sub ← compile_sub m.sub_match
    claims ← compile_claims m.claims_match
    ok (record { issuer = m.issuer; sub = sub; email = m.email; claims = claims; kind = kind })

  -- compileMatchers
  unfoldable pub compile_matchers : List SubjectMatcher → Result (List CompiledMatcher)
  unfolding compile_matcher
  compile_matchers [] = ok []
  compile_matchers (m ∷ ms) =
      let rest = compile_matchers ms in do cm ← compile_matcher m; cms ← rest; ok (cm ∷ cms)

  -- compilePolicy
  unfoldable pub compile_policy : Policy → Result CompiledPolicy
  unfolding compile_matchers
  compile_policy p = do
    readers ← compile_matchers p.readers
    writers ← compile_matchers p.writers
    ok (record { readers = readers; writers = writers })

  -- claimString
  unfoldable pub claim_string : Json → Option Bytes
  claim_string (text s) = some s
  claim_string (value encoded) = encoded

  text_matches : engine.Regex → Option Bytes → Bool
  text_matches re none = false
  text_matches re (some s) = engine.match_string re s

  unfoldable pub claim_matches : CompiledClaim → Option Json → Bool
  unfolding claim_string text_matches
  claim_matches c none = false
  claim_matches c (some v) = text_matches c.re (claim_string v)

  unfoldable pub claims_match : List CompiledClaim → Dict Json → Bool
  unfolding claim_matches
  claims_match [] claims = true
  claims_match (c ∷ cs) claims = claim_matches c (get claims c.key) && claims_match cs claims

  unfoldable pub sub_matches : Option engine.Regex → Bytes → Bool
  sub_matches none id = true
  sub_matches (some re) id = engine.match_string re id

  -- matches
  unfoldable pub matches : CompiledMatcher → AuthContext → Bool
  unfolding sub_matches claims_match bytes_eq
  matches m ac =
      bytes_eq ac.kind m.kind
      && (is_empty m.issuer || bytes_eq ac.issuer m.issuer)
      && sub_matches m.sub ac.id
      && (is_empty m.email || bytes_eq ac.email m.email)
      && claims_match m.claims ac.claims

  unfoldable pub any_match : List CompiledMatcher → AuthContext → Option Error
  unfolding matches
  any_match [] ac = some unauthorized
  any_match (m ∷ ms) ac = if matches m ac then none else any_match ms ac

  -- Authorize; none is a nil error, and a nil context is none
  unfoldable pub authorize : CompiledPolicy → Option AuthContext → Bytes → Option Error
  unfolding any_match bytes_eq
  authorize p none op = some unauthorized
  authorize p (some ac) op =
      if bytes_eq op op_read
      then any_match p.readers ac
      else if bytes_eq op op_write
      then any_match p.writers ac
      else some unknown_op
