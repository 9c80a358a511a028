-- ===== src/Surface/Debian/Pool.antt =====
-- serveArtifact of pkg/surface/debian/proxy.go, and the dispatch of the proxy.
use open_artifact.Shared.{ℕ, none, some, Bytes, codes, if◌then◌else◌, Result, ok, err}
use open_artifact.Core.{format_debian}
use open_artifact.Store.Io.{Io, pure, ◌>>=◌, ◌>>◌}
use open_artifact.Store.Calls.{Store}
use open_artifact.Store.Files.{file_exists}
use open_artifact.Proxy.Upstream
use open_artifact.Proxy.Upstream.{StreamResponse, is_ok, is_not_found}
use open_artifact.Namespace.{Spec}
use open_artifact.Surface.Site.{Deployment, Site, at_store}
use open_artifact.Surface.Http.{
  Request, Response, store_status, or_write, is_head, redirect_or_stream,
}
use open_artifact.Surface.Http.Relay.{Teed, tee_stream_to_store}
use open_artifact.Surface.PullThrough.{
  attempted, headers_only, at_net, is_marked, missing, mark_missing, refused_with,
}
use open_artifact.Surface.Debian.{
  PathKind, index, pool, RequestPath, pool_content_type, pool_neg_key,
}
use open_artifact.Surface.Debian.Proxy.{
  upstream_url, pool_file, record_parents, fill, allow, serve_index,
}

module _ (d : Deployment) (stamp decimal : ℕ → Bytes) {D : Type 0} (r : Request) (s : Store)
    (p : RequestPath) where
  module _ (ns : Bytes) (spec : Spec) where
    missing_artifact : Io (Site d) (Response D)
    missing_artifact = mark_missing d ns format_debian (pool_neg_key p)

    artifact_headers : Result Upstream.Response → Io (Site d) (Response D)
    unfolding missing_artifact
    artifact_headers (err e) = refused_with d 502 (codes "upstream fetch failed")
    artifact_headers (ok resp) =
        if is_not_found resp.status
        then missing_artifact
        else if is_ok resp.status
        then pure (headers_only (pool_content_type p.file))
        else refused_with d 502 (codes "upstream unavailable")

    -- headArtifact
    unfoldable pub head_artifact : Io (Site d) (Response D)
    unfolding artifact_headers
    head_artifact = do
      resp ← attempted (at_net d (Upstream.head d.transport (upstream_url spec p)))
      artifact_headers resp

    -- what follows a tee: the parents are recorded after a clean fill
    concluded : Teed D → Io (Site d) (Response D)
    concluded t = elim t.copy_err [
      | some e ↦ pure t.response
      | none ↦ elim t.fill_err [
        | some e ↦ pure t.response
        | none ↦ do at_store d (record_parents d stamp decimal s p); pure t.response
      ]
    ]

    -- streamAndCache
    unfoldable pub stream_and_cache : Bytes → StreamResponse → Io (Site d) (Response D)
    unfolding concluded
    stream_and_cache upstream sr = do
      teed ←
          tee_stream_to_store decimal r.hangs_up sr.body (pool_content_type p.file)
            sr.content_length (λ body. at_store d (fill d stamp decimal s p upstream body))
      concluded teed

    streamed : Result StreamResponse → Io (Site d) (Response D)
    unfolding missing_artifact
    streamed (err e) = refused_with d 502 (codes "upstream fetch failed")
    streamed (ok sr) =
        if is_not_found sr.status
        then missing_artifact
        else if is_ok sr.status
        then stream_and_cache (upstream_url spec p) sr
        else refused_with d 502 (codes "upstream unavailable")

    fetch_artifact : Io (Site d) (Response D)
    unfolding streamed
    fetch_artifact = do
      pass ← allow d stamp decimal spec p
      if pass
          then (do
            sr ← attempted (at_net d (Upstream.stream d.transport (upstream_url spec p)))
            streamed sr)
          else missing d

    -- serveArtifact
    unfoldable pub serve_artifact : Io (Site d) (Response D)
    unfolding fetch_artifact
    serve_artifact = do
      exists ← or_write store_status (at_store d (file_exists d.platform s (pool_file s p)))
      if exists
          then redirect_or_stream d decimal r.method s (pool_file s p) (pool_content_type p.file)
          else (do
            known ← is_marked d ns format_debian (pool_neg_key p)
            if known then missing d else if is_head r.method then head_artifact else fetch_artifact)

    by_kind : PathKind → Io (Site d) (Response D)
    by_kind pool = serve_artifact
    by_kind index = serve_index d stamp decimal r s p ns spec

    -- serve
    unfoldable pub serve : Io (Site d) (Response D)
    unfolding by_kind
    serve = by_kind p.kind
