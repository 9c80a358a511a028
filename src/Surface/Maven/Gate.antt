-- ===== src/Surface/Maven/Gate.antt =====
-- allow of pkg/surface/maven/proxy.go: the decision of the namespace's filters on an artifact.
pub mod Denials
use open_artifact.Shared.{
  ℕ, Bool, true, false, Option, none, some, List, ◌++◌, Bytes, codes, is_empty, trim_space,
  if◌then◌else◌, Result, ok, err,
}
use open_artifact.Store.Io.{Io, pure, ◌>>=◌}
use open_artifact.Proxy.Filter.{
  Outcome, needs_metadata, allow as allowed, deny, Ref, CompiledFilter,
}
use open_artifact.Proxy.Upstream
use open_artifact.Proxy.Upstream.{Client, is_ok}
use open_artifact.Namespace.{Spec}
use open_artifact.Surface.Site.{Deployment, Site}
use open_artifact.Surface.PullThrough.{
  attempted, is_allowed, at_net, now_of, compiled_filters, decided,
}
use open_artifact.Surface.Maven.Codec.{RequestPath}
use open_artifact.Surface.Maven.Upstream.{Formats, upstream_metadata_url}

module _ (d : Deployment) (client : Client) (formats : Formats) where
  -- lastUpdated
  update_time : Result Upstream.Response → Option ℕ
  update_time (err e) = none
  update_time (ok resp) =
      if is_ok resp.status
      then (elim (formats.last_updated_text resp.body) [
        | none ↦ none
        | some s ↦ if is_empty (trim_space s) then none else formats.parse_time (trim_space s)
      ])
      else none

  unfoldable pub last_updated : Spec → RequestPath → Io (Site d) (Option ℕ)
  unfolding update_time
  last_updated spec p = do
    resp ← attempted (at_net d (Upstream.get d.transport client (upstream_metadata_url spec p)))
    pure (update_time resp)

  abbrev pub ref_of : RequestPath → Option ℕ → Ref
  ref_of p published = record {
    pkg = p.group_id ++ codes ":" ++ p.artifact_id;
    version = p.version;
    published_at = published;
  }

  -- the decision at a publish time, which is denied where that is not known
  dated : RequestPath → List CompiledFilter → Option ℕ → Io (Site d) Bool
  dated p chain none = pure false
  dated p chain (some t) = do
    now ← now_of d
    pure (is_allowed (decided d chain (ref_of p (some t)) now))

  filtered : Spec → RequestPath → List CompiledFilter → Outcome → Io (Site d) Bool
  unfolding dated
  filtered spec p chain needs_metadata = do t ← last_updated spec p; dated p chain t
  filtered spec p chain allowed = pure true
  filtered spec p chain deny = pure false

  by_filters : Spec → RequestPath → Result (List CompiledFilter) → Io (Site d) Bool
  unfolding filtered
  by_filters spec p (err e) = pure false
  by_filters spec p (ok chain) = do
    now ← now_of d
    filtered spec p chain (decided d chain (ref_of p none) now)

  -- allow
  unfoldable pub allow : Spec → RequestPath → Io (Site d) Bool
  unfolding by_filters
  allow spec p =
      if is_empty spec.proxy.filters then pure true else by_filters spec p (compiled_filters d spec)
