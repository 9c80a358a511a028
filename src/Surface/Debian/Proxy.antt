-- ===== src/Surface/Debian/Proxy.antt =====
-- pkg/surface/debian/proxy.go: the pull-through of a Debian repository, with the stale fallback.
pub mod Stale
pub mod Indexes
use open_artifact.Shared.{
  ℕ, Bool, true, false, Option, none, some, List, [], ◌∷◌, ◌++◌, Bytes, codes, is_empty, ◌==◌,
  if◌then◌else◌, Error, Result, ok, err,
}
use open_artifact.Shared.Maps
use open_artifact.Shared.Maps.{Dict}
use open_artifact.Core.{Json, text, Meta, with_annotations, format_debian}
use open_artifact.Store.Paths.{scope_prefix}
use open_artifact.Store.Io.{Io, pure, ◌>>=◌, ◌>>◌}
use open_artifact.Store.Calls.{World, Store, Body}
use open_artifact.Store.Files.{
  File, new_file, new_cache_file, add_file, add_cache, file_exists, file_read, file_meta_of,
}
use open_artifact.Store.Packages.{package_of, version_of, add_package, add_version}
use open_artifact.Proxy.Filter.{Ref, CompiledFilter}
use open_artifact.Proxy.Upstream
use open_artifact.Proxy.Upstream.{StreamResponse, is_ok, is_not_found, is_server_error}
use open_artifact.Namespace.{Spec}
use open_artifact.Surface.Site.{Deployment, Site, at_store}
use open_artifact.Surface.Http.{
  Request, Response, content, nothing, store_status, or_write, is_head, redirect_or_stream,
}
use open_artifact.Surface.Http.Relay.{Teed, tee_stream_to_store}
use open_artifact.Surface.PullThrough.{
  attempted, logged, headers_only, upstream_base, is_allowed, at_net, is_marked, now_of,
  compiled_filters, decided, missing, mark_missing, refused_with, unavailable,
}
use open_artifact.Surface.Generic.{tolerating}
use open_artifact.Surface.Debian.{
  PathKind, index, pool, RequestPath, index_content_type, pool_content_type, index_key,
  pool_neg_key,
}

upstream_annotation : Bytes → Dict Json
upstream_annotation [] = []
upstream_annotation (c ∷ url) = (codes "debian:upstream_url", text (c ∷ url)) ∷ []

-- artifactAnnotations; `fetched` is the time in RFC 3339
unfoldable pub artifact_annotations : RequestPath → Bytes → Bytes → Dict Json
unfolding upstream_annotation
artifact_annotations p fetched upstream =
    (codes "debian:file", text p.file)
    ∷ (codes "debian:package", text p.pkg_name)
    ∷ (codes "debian:version", text p.version)
    ∷ (codes "debian:pool_path", text p.rest_raw)
    ∷ (codes "debian:uploaded_at", text fetched)
    ∷ upstream_annotation upstream

-- upstreamURL
unfoldable pub upstream_url : Spec → RequestPath → Bytes
upstream_url spec p = upstream_base spec ++ codes "/" ++ p.rest_raw

-- the file of a pool artifact
unfoldable pub pool_file : Store → RequestPath → File
pool_file s p = new_file s (version_of (package_of p.pkg_name) p.version) p.file

-- `stamp` is the text of a time in RFC 3339, and `decimal` FormatInt.
module _ (d : Deployment) (stamp decimal : ℕ → Bytes) where
  stored : {A : Type 0} → Io (World d.platform) A → Io (Site d) A
  stored m = or_write store_status (at_store d m)

  -- recordParents
  unfoldable pub record_parents : Store → RequestPath → Io (World d.platform) (Unit {0})
  record_parents s p = logged (
      tolerating (
        add_package d.platform s p.pkg_name
          (with_annotations ((codes "debian:package", text p.pkg_name) ∷ []) ∷ []))
      >> tolerating (
          add_version d.platform s (package_of p.pkg_name) p.version
            (with_annotations ((codes "debian:version", text p.version) ∷ []) ∷ [])))

  -- the AddFile of streamAndCache
  unfoldable pub fill : Store → RequestPath → Bytes → Body → Io (World d.platform) File
  fill s p upstream body w =
      add_file d.platform s (pool_file s p) body
        (with_annotations (artifact_annotations p (stamp w.now) upstream) ∷ []) w

  by_filters : RequestPath → Result (List CompiledFilter) → ℕ → Bool
  by_filters p (err e) now = false
  by_filters p (ok chain) now =
      is_allowed (
        decided d chain (record { pkg = p.pkg_name; version = p.version; published_at = none }) now)

  -- allow: a decision that needs a publish time is no Allowed, and is denied
  unfoldable pub allow : Spec → RequestPath → Io (Site d) Bool
  unfolding by_filters
  allow spec p =
      if is_empty spec.proxy.filters
      then pure true
      else (do now ← now_of d; pure (by_filters p (compiled_filters d spec) now))

  -- the handle of Cache, with the index under its key
  unfoldable pub cached_index : Store → RequestPath → File
  cached_index s p = new_cache_file (scope_prefix s.scope) (index_key p) none

  cached_length : Result Meta → Dict Bytes → Dict Bytes
  cached_length (err e) headers = headers
  cached_length (ok m) headers =
      if m.size == 0 then headers else Maps.put headers (codes "Content-Length") (decimal m.size)

  cached_headers : RequestPath → Result Meta → Dict Bytes
  unfolding cached_length
  cached_headers p m = cached_length m ((codes "Content-Type", index_content_type p.rest_raw) ∷ [])

  module _ {D : Type 0} (r : Request) (s : Store) (p : RequestPath) where
    -- the copy to the client, which a stream that breaks off cuts short
    cached_body : Dict Bytes → Result Body → Option (Response D)
    cached_body headers (err e) = none
    cached_body headers (ok body) =
        some (record { status = 200; headers = headers; payload = content body.content })

    -- the copy that was found, after its headers
    cached_copy : Dict Bytes → Io (Site d) (Option (Response D))
    unfolding cached_body
    cached_copy headers =
        if is_head r.method
        then pure (some (record { status = 200; headers = headers; payload = nothing }))
        else (do
          body ← attempted (at_store d (file_read d.platform s (cached_index s p)))
          pure (cached_body headers body))

    if_cached : Result Bool → Io (Site d) (Option (Response D))
    unfolding cached_copy cached_headers
    if_cached (ok true) = do
      m ← attempted (at_store d (file_meta_of d.platform s (cached_index s p)))
      cached_copy (cached_headers p m)
    if_cached (ok false) = pure none
    if_cached (err e) = pure none

    -- serveCachedIndex; none is its false, after which the caller replies. A read that fails leaves
    -- the headers that were set, which the caller's reply overwrites or adds to.
    unfoldable pub serve_cached_index : Io (Site d) (Option (Response D))
    unfolding if_cached
    serve_cached_index = do
      exists ← attempted (at_store d (file_exists d.platform s (cached_index s p)))
      if_cached exists

    answered : Io (Site d) (Response D) → Option (Response D) → Io (Site d) (Response D)
    answered fallback none = fallback
    answered fallback (some resp) = pure resp

    -- if serveCachedIndex(…) { return }, and what follows it
    unfoldable pub or_stale : Io (Site d) (Response D) → Io (Site d) (Response D)
    unfolding answered
    or_stale fallback = do found ← serve_cached_index; answered fallback found

    module _ (ns : Bytes) (spec : Spec) where
      missing_index : Io (Site d) (Response D)
      missing_index = mark_missing d ns format_debian (index_key p)

      index_headers : Result Upstream.Response → Io (Site d) (Response D)
      unfolding missing_index
      index_headers (err e) = or_stale (unavailable d)
      index_headers (ok resp) =
          if is_not_found resp.status
          then missing_index
          else if is_ok resp.status
          then pure (headers_only (index_content_type p.rest_raw))
          else or_stale (unavailable d)

      -- headIndex
      unfoldable pub head_index : Io (Site d) (Response D)
      unfolding index_headers
      head_index = do
        resp ← attempted (at_net d (Upstream.head d.transport (upstream_url spec p)))
        index_headers resp

      -- the copy to the client and to the cache; its errors are logged
      teed_index : StreamResponse → Io (Site d) (Response D)
      teed_index sr = do
        teed ←
            tee_stream_to_store decimal r.hangs_up sr.body (index_content_type p.rest_raw)
              sr.content_length
              (λ body.
                at_store d (add_cache d.platform s (scope_prefix s.scope) (index_key p) none body))
        pure teed.response

      streamed_index : Result StreamResponse → Io (Site d) (Response D)
      unfolding missing_index teed_index
      streamed_index (err e) = or_stale (unavailable d)
      streamed_index (ok sr) =
          if is_not_found sr.status
          then missing_index
          else if is_ok sr.status
          then teed_index sr
          else or_stale (
              if is_server_error sr.status
              then unavailable d
              else refused_with d 502 (codes "upstream index error"))

      live_index : Io (Site d) (Response D)
      unfolding streamed_index
      live_index = if is_head r.method then head_index else (do
        sr ← attempted (at_net d (Upstream.stream d.transport (upstream_url spec p)))
        streamed_index sr)

      -- serveIndex
      unfoldable pub serve_index : Io (Site d) (Response D)
      unfolding live_index
      serve_index = do
        known ← is_marked d ns format_debian (index_key p)
        if known then missing d else live_index
