-- ===== src/Surface/Debian/Handler.antt =====
-- pkg/surface/debian/handler.go: the Debian surface over the registry, its stores and its proxy.
use open_artifact.Shared.{ℕ, false, Bytes, codes, if◌then◌else◌, rejected}
use open_artifact.Core.{format_debian}
use open_artifact.Store.Io.{Io, raise, lift, ◌>>=◌}
use open_artifact.Store.Calls.{Store}
use open_artifact.Store.Files.{file_exists}
use open_artifact.Namespace.{Spec, is_proxy}
use open_artifact.Surface.Site.{Deployment, Site, at_store, open_store, open_proxy_store}
use open_artifact.Surface.Http.{
  Method, get, head, Request, Response, store_status, namespace_status, or_write,
  redirect_or_stream,
}
use open_artifact.Surface.PullThrough.{missing}
use open_artifact.Surface.Debian.{PathKind, index, pool, RequestPath, parse_path, pool_content_type}
use open_artifact.Surface.Debian.Proxy.{pool_file, or_stale}
use open_artifact.Surface.Debian.Pool.{serve}

module _ (d : Deployment) (stamp decimal : ℕ → Bytes) where
  -- authorizedStore
  unfoldable pub authorized_store : Request → Bytes → Io (Site d) (Store × Spec)
  authorized_store r ns =
      or_write (namespace_status false) (open_store d ns format_debian r.subject)

  -- authorizedProxyStore
  unfoldable pub authorized_proxy_store : Request → Bytes → Io (Site d) (Store × Spec)
  authorized_proxy_store r ns =
      or_write (namespace_status false) (open_proxy_store d ns format_debian r.subject)

  module _ {D : Type 0} where
    local_artifact : Request → Store → RequestPath → Io (Site d) (Response D)
    local_artifact r s p = do
      exists ← or_write store_status (at_store d (file_exists d.platform s (pool_file s p)))
      if exists
          then redirect_or_stream d decimal r.method s (pool_file s p) (pool_content_type p.file)
          else missing d

    local_kind : PathKind → Request → Store → RequestPath → Io (Site d) (Response D)
    unfolding local_artifact
    local_kind pool r s p = local_artifact r s p
    local_kind index r s p = or_stale d stamp decimal r s p (missing d)

    -- serveLocal
    unfoldable pub serve_local : Request → Store → RequestPath → Io (Site d) (Response D)
    unfolding local_kind
    serve_local r s p = local_kind p.kind r s p

    -- download
    unfoldable pub download : Bytes → Request → Io (Site d) (Response D)
    download escaped r = do
      p ← or_write store_status (lift (parse_path escaped))
      opened ← authorized_store r p.namespace
      if is_proxy opened.1
          then (do
            filled ← authorized_proxy_store r p.namespace
            serve d stamp decimal r filled.0 p p.namespace opened.1)
          else serve_local r opened.0 p

    by_method : Method → Bytes → Request → Io (Site d) (Response D)
    by_method get = download
    by_method head = download
    by_method m = λ escaped r. raise (rejected 405 (codes "method not allowed"))

    -- serveHTTP
    unfoldable pub serve_http : Bytes → Request → Io (Site d) (Response D)
    unfolding by_method
    serve_http escaped r = by_method r.method escaped r
