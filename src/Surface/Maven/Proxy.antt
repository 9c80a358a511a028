-- ===== src/Surface/Maven/Proxy.antt =====
-- proxyEngine of pkg/surface/maven/proxy.go: the pull-through of a namespace that is a proxy.
pub mod Fills
pub mod Denied
use open_artifact.Shared.{
  ℕ, Bool, true, false, Option, none, some, List, [], ◌∷◌, ◌++◌, Bytes, codes, is_empty, hex_encode,
  trim_space, if◌then◌else◌, Error, oversized, Result, ok, err,
}
use open_artifact.Shared.Maps.{Dict}
use open_artifact.Core.{Json, text, Hash, CreateOption, with_annotations, format_maven}
use open_artifact.Store.Io.{Io, pure, ◌>>=◌, ◌>>◌}
use open_artifact.Store.Calls.{World, Store, Body}
use open_artifact.Store.Files.{File, new_store_file, new_file, add_file, file_exists, file_content}
use open_artifact.Store.Packages.{package_of, version_of, add_package, add_version}
use open_artifact.Proxy.Filter.{
  Outcome, needs_metadata, allow as allowed, deny, Ref, CompiledFilter,
}
use open_artifact.Proxy.Upstream
use open_artifact.Proxy.Upstream.{Client, StreamResponse, is_ok, is_not_found, is_server_error}
use open_artifact.Namespace.{Spec}
use open_artifact.Surface.Site.{Deployment, Site, at_store}
use open_artifact.Surface.Http.{
  Method, Request, Response, store_status, or_write, is_head, redirect_or_stream,
}
use open_artifact.Surface.Http.Relay.{Teed, tee_stream_to_store}
use open_artifact.Surface.PullThrough.{
  attempted, logged, headers_only, write_bytes, is_allowed, at_net, is_marked, now_of,
  compiled_filters, decided, missing, mark_missing, refused_with, unavailable,
}
use open_artifact.Surface.Generic.{tolerating}
use open_artifact.Surface.Maven.Codec.{
  PathKind, artifact, artifact_metadata, version_metadata, archetype_catalog, RequestPath,
}
use open_artifact.Surface.Maven.Live.{serve_metadata}
use open_artifact.Surface.Maven.Gate.{allow}
use open_artifact.Surface.Maven.Upstream.{
  Formats, proxy_content_type, artifact_annotations, checksum_annotations, upstream_url,
  upstream_metadata_url, file_neg_key, metadata_neg_key,
}

-- the file of a name at the coordinate's version
unfoldable pub local : Store → RequestPath → Bytes → File
local s p name = new_file s (version_of (package_of p.pkg) p.version) name

module _ (d : Deployment) (client : Client) (formats : Formats) where
  stored : {A : Type 0} → Io (World d.platform) A → Io (Site d) A
  stored m = or_write store_status (at_store d m)

  module _ {D : Type 0} (r : Request) (s : Store) (p : RequestPath) where
    -- serveArchetypeCatalog
    unfoldable pub serve_archetype_catalog : Io (Site d) (Response D)
    unfolding stored
    serve_archetype_catalog = do
      exists ← stored (file_exists d.platform s (new_store_file s p.file))
      if exists
          then redirect_or_stream d formats.decimal r.method s (new_store_file s p.file)
              (codes "application/xml")
          else missing d

  -- computeChecksum
  unfoldable pub compute_checksum : Hash → Store → File → Io (World d.platform) Bytes
  compute_checksum alg s f = do
    bytes ← file_content d.platform s f
    pure (hex_encode (formats.digest alg bytes))

  group_annotations : RequestPath → List CreateOption
  group_annotations p =
      with_annotations (
        (codes "maven:group_id", text p.group_id)
        ∷ (codes "maven:artifact_id", text p.artifact_id)
        ∷ [])
      ∷ []

  -- recordParents
  unfoldable pub record_parents : Store → RequestPath → Io (World d.platform) (Unit {0})
  unfolding group_annotations
  record_parents s p = logged (
      tolerating (add_package d.platform s p.pkg (group_annotations p))
      >> tolerating (
          add_version d.platform s (package_of p.pkg) p.version
            (with_annotations ((codes "maven:version", text p.version) ∷ []) ∷ [])))

  -- the AddFile of a body with its annotations, which depend on the time
  unfoldable pub fill :
      Store → RequestPath → (Bytes → Dict Json) → Body → Io (World d.platform) File
  fill s p annotations body w =
      add_file d.platform s (local s p p.file) body
        (with_annotations (annotations (formats.stamp w.now)) ∷ []) w

  -- a checksum that the engine made or fetched is cached as a file
  kept_checksum : Store → RequestPath → Bytes → Io (Site d) (Unit {0})
  kept_checksum s p sum =
      logged
        (at_store d (fill s p (checksum_annotations p) (record { content = sum; broken = none })))

  module _ {D : Type 0} (r : Request) (ns : Bytes) (spec : Spec) (s : Store) (p : RequestPath) where
    missing_file : Io (Site d) (Response D)
    missing_file = mark_missing d ns format_maven (file_neg_key p)

    artifact_headers : Result Upstream.Response → Io (Site d) (Response D)
    unfolding missing_file
    artifact_headers (err e) = refused_with d 502 (codes "upstream fetch failed")
    artifact_headers (ok resp) =
        if is_not_found resp.status
        then missing_file
        else if is_ok resp.status
        then pure (headers_only (proxy_content_type p))
        else refused_with d 502 (codes "upstream unavailable")

    -- headArtifact
    unfoldable pub head_artifact : Io (Site d) (Response D)
    unfolding artifact_headers
    head_artifact = do
      resp ← attempted (at_net d (Upstream.head d.transport (upstream_url spec p)))
      artifact_headers resp

    synthesized : Hash → Io (Site d) (Response D)
    unfolding stored kept_checksum
    synthesized alg = do
      sum ← stored (compute_checksum alg s (local s p p.target_file))
      kept_checksum s p sum
      if is_head r.method
          then pure (headers_only (proxy_content_type p))
          else pure (write_bytes (proxy_content_type p) sum)

    fetched_checksum : Result Upstream.Response → Io (Site d) (Response D)
    unfolding missing_file kept_checksum
    fetched_checksum (err e) = refused_with d 502 (codes "upstream fetch failed")
    fetched_checksum (ok resp) =
        if is_not_found resp.status
        then missing_file
        else if is_ok resp.status
        then (do
          at_store d (record_parents s p)
          kept_checksum s p resp.body
          pure (write_bytes (proxy_content_type p) resp.body))
        else refused_with d 502 (codes "upstream unavailable")

    -- serveChecksum
    unfoldable pub serve_checksum : Hash → Io (Site d) (Response D)
    unfolding stored synthesized fetched_checksum
    serve_checksum alg = do
      cached ← stored (file_exists d.platform s (local s p p.target_file))
      if cached
          then synthesized alg
          else (if is_head r.method then head_artifact else (do
            resp ← attempted (at_net d (Upstream.get d.transport client (upstream_url spec p)))
            fetched_checksum resp))

    -- what follows a tee: the parents are recorded after a clean fill
    concluded : Teed D → Io (Site d) (Response D)
    concluded t = elim t.copy_err [
      | some e ↦ pure t.response
      | none ↦ elim t.fill_err [
        | some e ↦ pure t.response
        | none ↦ do at_store d (record_parents s p); pure t.response
      ]
    ]

    -- streamAndCache
    unfoldable pub stream_and_cache : Bytes → StreamResponse → Io (Site d) (Response D)
    unfolding concluded
    stream_and_cache upstream sr = do
      teed ←
          tee_stream_to_store formats.decimal r.hangs_up sr.body (proxy_content_type p)
            sr.content_length
            (λ body.
              at_store d (fill s p (λ fetched. artifact_annotations p fetched upstream) body))
      concluded teed

    streamed : Result StreamResponse → Io (Site d) (Response D)
    unfolding missing_file
    streamed (err e) = refused_with d 502 (codes "upstream fetch failed")
    streamed (ok sr) =
        if is_not_found sr.status
        then missing_file
        else if is_ok sr.status
        then stream_and_cache (upstream_url spec p) sr
        else refused_with d 502 (codes "upstream unavailable")

    -- a cold artifact that the filters let through is streamed
    fetch_artifact : Io (Site d) (Response D)
    unfolding streamed
    fetch_artifact = do
      pass ← allow d client formats spec p
      if pass
          then (do
            sr ← attempted (at_net d (Upstream.stream d.transport (upstream_url spec p)))
            streamed sr)
          else missing d

    cold : Option Hash → Io (Site d) (Response D)
    unfolding fetch_artifact
    cold (some alg) = serve_checksum alg
    cold none = if is_head r.method then head_artifact else fetch_artifact

    -- serveArtifact
    unfoldable pub serve_artifact : Io (Site d) (Response D)
    unfolding stored cold
    serve_artifact = do
      exists ← stored (file_exists d.platform s (local s p p.file))
      if exists
          then redirect_or_stream d formats.decimal r.method s (local s p p.file)
              (proxy_content_type p)
          else (do
            known ← is_marked d ns format_maven (file_neg_key p)
            if known then missing d else cold p.checksum)

    unfoldable pub by_kind : PathKind → Io (Site d) (Response D)
    by_kind artifact_metadata = serve_metadata d client r ns spec p
    by_kind version_metadata = serve_metadata d client r ns spec p
    by_kind archetype_catalog = serve_archetype_catalog r s p
    by_kind artifact = serve_artifact

    -- serve
    unfoldable pub serve : Io (Site d) (Response D)
    unfolding by_kind
    serve = by_kind p.kind
