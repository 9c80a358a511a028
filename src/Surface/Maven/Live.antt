-- ===== src/Surface/Maven/Live.antt =====
-- serveMetadata of pkg/surface/maven/proxy.go: the metadata that is passed through from upstream.
pub mod Passthrough
pub mod Shadowed
use open_artifact.Shared.{
  ℕ, Bool, true, false, Bytes, codes, if◌then◌else◌, oversized, Result, ok, err,
}
use open_artifact.Core.{format_maven}
use open_artifact.Store.Io.{Io, pure, ◌>>=◌}
use open_artifact.Proxy.Upstream
use open_artifact.Proxy.Upstream.{Client, is_ok, is_not_found, is_server_error}
use open_artifact.Namespace.{Spec}
use open_artifact.Surface.Site.{Deployment, Site}
use open_artifact.Surface.Http.{Request, Response, is_head}
use open_artifact.Surface.PullThrough.{
  attempted, headers_only, write_bytes, at_net, is_marked, missing, mark_missing, refused_with,
  unavailable,
}
use open_artifact.Surface.Maven.Codec.{RequestPath}
use open_artifact.Surface.Maven.Upstream.{proxy_content_type, upstream_url, metadata_neg_key}

module _ (d : Deployment) (client : Client) where
  module _ {D : Type 0} (r : Request) (ns : Bytes) (spec : Spec) (p : RequestPath) where
    missing_metadata : Io (Site d) (Response D)
    missing_metadata = mark_missing d ns format_maven (metadata_neg_key p)

    -- the switch over the status of upstream metadata, with the reply to a 2xx
    metadata_reply : ℕ → Response D → Io (Site d) (Response D)
    unfolding missing_metadata
    metadata_reply status found =
        if is_not_found status
        then missing_metadata
        else if is_ok status
        then pure found
        else if is_server_error status
        then unavailable d
        else refused_with d 502 (codes "upstream metadata error")

    metadata_headers : Result Upstream.Response → Io (Site d) (Response D)
    unfolding metadata_reply
    metadata_headers (err e) = unavailable d
    metadata_headers (ok resp) = metadata_reply resp.status (headers_only (proxy_content_type p))

    metadata_body : Result Upstream.Response → Io (Site d) (Response D)
    unfolding metadata_reply
    metadata_body (err oversized) = refused_with d 502 (codes "upstream metadata too large")
    metadata_body (err e) = unavailable d
    metadata_body (ok resp) =
        metadata_reply resp.status (write_bytes (proxy_content_type p) resp.body)

    live_metadata : Io (Site d) (Response D)
    unfolding metadata_headers metadata_body
    live_metadata =
        if is_head r.method
        then (do
          resp ← attempted (at_net d (Upstream.head d.transport (upstream_url spec p)))
          metadata_headers resp)
        else (do
          resp ← attempted (at_net d (Upstream.get d.transport client (upstream_url spec p)))
          metadata_body resp)

    -- serveMetadata
    unfoldable pub serve_metadata : Io (Site d) (Response D)
    unfolding live_metadata
    serve_metadata = do
      known ← is_marked d ns format_maven (metadata_neg_key p)
      if known then missing d else live_metadata
