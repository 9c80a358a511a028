-- ===== src/Namespace/Validate.antt =====
-- pkg/namespace/validate.go: names and specs.
pub mod Names
use open_artifact.Shared.{
  ℕ, Bool, true, false, not, ◌&&◌, ◌||◌, Option, none, some, List, [], ◌∷◌, Bytes, codes, bytes_eq,
  is_empty, length, ltb, leb, ◌==◌, if◌then◌else◌, Error, namespace_invalid_name,
  unsupported_schema_version, invalid_proxy, Result, ok, err, ◌>>=◌, ◌>>◌,
}
use open_artifact.Proxy.Filter
use open_artifact.Namespace.{ProxyBlock, Spec, current_schema_version, mode_hosted, mode_proxy}
use open_artifact.Namespace.Policies.{Engine, compile_policy}

abbrev pub reserved_names : List Bytes
reserved_names =
    codes "admin"
    ∷ codes "healthz"
    ∷ codes "readyz"
    ∷ codes "metrics"
    ∷ codes "simple"
    ∷ codes "maven2"
    ∷ codes "v2"
    ∷ codes "npm"
    ∷ codes "pypi"
    ∷ codes "debian"
    ∷ codes "generic"
    ∷ codes "_control"
    ∷ codes "_proxy-cache"
    ∷ codes "open-artifact"
    ∷ []

unfoldable pub is_one_of : Bytes → List Bytes → Bool
unfolding bytes_eq
is_one_of n [] = false
is_one_of n (r ∷ rs) = bytes_eq n r || is_one_of n rs

-- a lowercase ASCII letter, a digit, or '-'
unfoldable pub is_name_byte : ℕ → Bool
is_name_byte c = leb 97 c && leb c 122 || (leb 48 c && leb c 57) || c == b'-'

unfoldable pub are_name_bytes : Bytes → Bool
unfolding is_name_byte
are_name_bytes [] = true
are_name_bytes (c ∷ s) = is_name_byte c && are_name_bytes s

unfoldable pub last_byte : ℕ → Bytes → ℕ
last_byte c [] = c
last_byte c (d ∷ s) = last_byte d s

-- name[0] == '-' || name[len(name)-1] == '-'
unfoldable pub has_outer_dash : Bytes → Bool
unfolding last_byte
has_outer_dash [] = false
has_outer_dash (c ∷ s) = c == b'-' || last_byte c s == b'-'

-- ValidateName; none is a nil error
unfoldable pub validate_name : Bytes → Option Error
validate_name name =
    if ltb (length name) 1 || ltb 64 (length name)
    then some namespace_invalid_name
    else if not (are_name_bytes name)
    then some namespace_invalid_name
    else if has_outer_dash name
    then some namespace_invalid_name
    else if is_one_of name reserved_names
    then some namespace_invalid_name
    else none

unfoldable pub proxy_empty : ProxyBlock → Bool
proxy_empty p = is_empty p.upstream && is_empty p.filters

-- What specs are validated with: regexp, url.Parse as the scheme and the host of a URL, and the
-- two functions that the filters take.
pub record Checks : Type 1 where
  pub engine : Engine
  pub parse_url : Bytes → Option (Bytes × Bytes)
  pub path_match : Bytes → Bytes → Option Bool
  pub parse_duration : Bytes → Option ℕ

abbrev pub refuse_if : Bool → Error → Result (Unit {0})
refuse_if true e = err e
refuse_if false e = ok tt

abbrev pub pass : Option Error → Result (Unit {0})
pass none = ok tt
pass (some e) = err e

module _ (checks : Checks) where
  check_url : Option (Bytes × Bytes) → Option Error
  unfolding bytes_eq
  check_url none = some invalid_proxy
  check_url (some (scheme, host)) =
      if not (bytes_eq scheme (codes "http")) && not (bytes_eq scheme (codes "https"))
      then some invalid_proxy
      else if is_empty host
      then some invalid_proxy
      else none

  -- validateUpstream
  unfoldable pub validate_upstream : Bytes → Option Error
  unfolding check_url
  validate_upstream raw =
      if is_empty raw then some invalid_proxy else check_url (checks.parse_url raw)

  -- the mode's own checks, and the mode as it is stored
  unfoldable pub normalize_mode : Bytes → ProxyBlock → Result Bytes
  unfolding bytes_eq proxy_empty validate_upstream
  normalize_mode mode proxy =
      if is_empty mode || bytes_eq mode mode_hosted
      then (do refuse_if (not (proxy_empty proxy)) invalid_proxy; ok [])
      else if bytes_eq mode mode_proxy
      then (do
        pass (validate_upstream proxy.upstream)
        pass (elim (Filter.validate checks.path_match checks.parse_duration proxy.filters) [
          | none ↦ none
          | some e ↦ some invalid_proxy
        ])
        ok mode_proxy)
      else err invalid_proxy

  -- normalizeForWrite
  unfoldable pub normalize_for_write : Spec → Result Spec
  unfolding normalize_mode
  normalize_for_write spec = do
    refuse_if (ltb current_schema_version spec.schema_version) unsupported_schema_version
    mode ← normalize_mode spec.mode spec.proxy
    compiled ← compile_policy checks.engine spec.policy
    ok (record spec { schema_version = current_schema_version; mode = mode })

-- normalizeForRead
unfoldable pub normalize_for_read : Spec → Result Spec
normalize_for_read spec =
    let version =
      if spec.schema_version == 0 then current_schema_version else spec.schema_version in
    if ltb current_schema_version version
    then err unsupported_schema_version
    else ok (record spec { schema_version = version })
