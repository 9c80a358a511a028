-- ===== src/Namespace.antt =====
-- pkg/namespace: the control plane's objects, their validation, policies and catalog.
pub mod Policies
pub mod Validate
pub mod Catalog
pub mod Registry
use open_artifact.Shared.{ℕ, Bool, ◌||◌, List, [], ◌∷◌, Bytes, codes, bytes_eq, is_empty}
use open_artifact.Shared.Maps.{Dict}
use open_artifact.Core.{Json}
use open_artifact.Proxy.Filter

abbrev pub current_schema_version : ℕ
current_schema_version = 1

abbrev pub mode_hosted : Bytes
mode_hosted = codes "hosted"

abbrev pub mode_proxy : Bytes
mode_proxy = codes "proxy"

abbrev pub kind_oidc : Bytes
kind_oidc = codes "oidc"

abbrev pub kind_anonymous : Bytes
kind_anonymous = codes "anonymous"

abbrev pub kind_basic_token : Bytes
kind_basic_token = codes "basictoken"

-- SubjectMatcher
pub record SubjectMatcher : Type 0 where
  pub issuer : Bytes
  pub sub_match : Bytes
  pub email : Bytes
  pub claims_match : Dict Bytes
  pub kind : Bytes

pub record Policy : Type 0 where
  pub readers : List SubjectMatcher
  pub writers : List SubjectMatcher

-- The proxy block of a namespace
pub record ProxyBlock : Type 0 where
  pub upstream : Bytes
  pub filters : List Filter.Spec

pub record Spec : Type 0 where
  pub schema_version : ℕ
  pub mode : Bytes
  pub policy : Policy
  pub proxy : ProxyBlock
  pub format : Dict Json

unfoldable pub is_proxy : Spec → Bool
unfolding bytes_eq
is_proxy s = bytes_eq s.mode mode_proxy

unfoldable pub is_hosted : Spec → Bool
unfolding bytes_eq
is_hosted s = is_empty s.mode || bytes_eq s.mode mode_hosted
