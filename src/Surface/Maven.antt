-- ===== src/Surface/Maven.antt =====
-- pkg/surface/maven/handler.go: the Maven surface over the store and the registry.
pub mod Codec
pub mod Upstream
pub mod Live
pub mod Gate
pub mod Proxy
pub mod Uploads
pub mod Downloads
use open_artifact.Shared.{
  ℕ, ◌==◌, ◌*◌, Bool, true, false, ◌||◌, Option, none, some, List, [], ◌∷◌, ◌++◌, Bytes, codes,
  is_empty, bytes_eq, if◌then◌else◌, Error, not_found, too_large, rejected, Result, ok, err,
}
use open_artifact.Shared.Maps.{Dict}
use open_artifact.Core.{
  Json, text, Hash, md5, sha1, sha256, sha512, CreateOption, with_annotations, with_allow_overwrite,
  format_maven,
}
use open_artifact.Store.Io.{Io, pure, raise, lift, unless, ◌>>=◌, ◌>>◌}
use open_artifact.Store.Calls.{World, Store, Body}
use open_artifact.Store.Files
use open_artifact.Store.Files.{File, new_store_file, new_package_file, new_file, file_content}
use open_artifact.Store.Packages.{package_of, version_of, add_package, add_version}
use open_artifact.Namespace.{Spec, is_proxy}
use open_artifact.Surface.Site.{Deployment, Site, at_store, open_store, open_proxy_store}
use open_artifact.Surface.Http.{
  Method, get, head, put, post, other, Request, Response, content, store_status, namespace_status,
  or_write, with_max_body, redirect_or_stream,
}
use open_artifact.Surface.Generic.{tolerating}
use open_artifact.Proxy.Upstream.{new_client}
use open_artifact.Surface.Maven.Upstream.{Formats}
use open_artifact.Surface.Maven.Proxy
use open_artifact.Surface.Maven.Codec.{
  algorithm_name, PathKind, artifact, artifact_metadata, version_metadata, archetype_catalog,
  RequestPath, metadata_file, archetype_file, parse_path, is_snapshot_version, verify_checksum,
}

-- Config; zero for a limit that is not positive. The negative cache that newProxyEngine makes of the
-- TTL is part of the site.
pub record Config : Type 0 where
  pub max_upload_bytes : ℕ
  pub allow_overwrite : Bool
  pub proxy_metadata_max_bytes : ℕ
  pub proxy_negative_cache_ttl : ℕ

abbrev pub default_proxy_metadata_max_bytes : ℕ
default_proxy_metadata_max_bytes = 33554432

-- proxyMetadataMaxBytes
unfoldable pub proxy_metadata_max_bytes : Config → ℕ
proxy_metadata_max_bytes c =
    if c.proxy_metadata_max_bytes == 0
    then default_proxy_metadata_max_bytes
    else c.proxy_metadata_max_bytes

abbrev pub default_max_upload_bytes : ℕ
default_max_upload_bytes = 104857600

-- uploadLimit
unfoldable pub upload_limit : Config → ℕ
upload_limit c = if c.max_upload_bytes == 0 then default_max_upload_bytes else c.max_upload_bytes

annotation_unless_empty : Bytes → Bytes → Dict Json
annotation_unless_empty key [] = []
annotation_unless_empty key (c ∷ s) = (key, text (c ∷ s)) ∷ []

checksum_annotations : Option Hash → Bytes → Dict Json
checksum_annotations none target = []
checksum_annotations (some alg) target =
    (codes "maven:checksum", text (algorithm_name alg))
    ∷ (codes "maven:checksum_target", text target)
    ∷ []

-- uploadAnnotations; `stamp` is the time in RFC 3339
unfoldable pub upload_annotations : RequestPath → Bytes → Dict Json
unfolding annotation_unless_empty checksum_annotations
upload_annotations p stamp =
    (codes "maven:file", text p.file)
      ∷ (codes "maven:uploaded_at", text stamp)
      ∷ annotation_unless_empty (codes "maven:group_id") p.group_id
    ++ annotation_unless_empty (codes "maven:artifact_id") p.artifact_id
    ++ checksum_annotations p.checksum p.target_file

-- contentType
unfoldable pub content_type : RequestPath → Bytes
content_type p =
    if bytes_eq p.file metadata_file || bytes_eq p.file archetype_file
    then codes "application/xml"
    else codes "application/octet-stream"

-- file: the level of the store at which the coordinate has its files
file_at : PathKind → Store → RequestPath → Bytes → File
file_at archetype_catalog s p name = new_store_file s name
file_at artifact_metadata s p name = new_package_file s (package_of p.pkg) name
file_at artifact s p name = new_file s (version_of (package_of p.pkg) p.version) name
file_at version_metadata s p name = new_file s (version_of (package_of p.pkg) p.version) name

unfoldable pub file : Store → RequestPath → Bytes → File
unfolding file_at
file s p name = file_at p.kind s p name

-- what an error of the checksum check is written as
unfoldable pub checksum_status : Error → ℕ × Bytes
unfolding store_status
checksum_status not_found = (409, codes "checksum target not found")
checksum_status e = store_status e

-- the status of a body that was not read in full
abbrev pub body_refusal : Error → Error
body_refusal too_large = rejected 413 (codes "upload too large")
body_refusal e = rejected 400 (codes "invalid upload body")

-- `digest` is the table of the hash functions, `stamp` the text of a time, and `decimal` FormatInt.
module _ (d : Deployment) (cfg : Config) (digest : Hash → Bytes → Bytes) (stamp : ℕ → Bytes)
    (decimal : ℕ → Bytes) where
  stored : {A : Type 0} → Io (World d.platform) A → Io (Site d) A
  stored m = or_write store_status (at_store d m)

  -- authorizedStore
  unfoldable pub authorized_store : Request → Bytes → Bool → Io (Site d) (Store × Spec)
  authorized_store r ns write =
      or_write (namespace_status write) (open_store d ns format_maven r.subject)

  -- authorizedProxyStore
  unfoldable pub authorized_proxy_store : Request → Bytes → Io (Site d) (Store × Spec)
  authorized_proxy_store r ns =
      or_write (namespace_status false) (open_proxy_store d ns format_maven r.subject)

  body_of : Body → Result Bytes
  body_of body = elim body.broken [ none ↦ ok body.content | some e ↦ err (body_refusal e) ]

  -- readUploadBody
  unfoldable pub read_upload_body : Request → Io (Site d) Bytes
  unfolding body_of with_max_body
  read_upload_body r = lift (body_of (with_max_body (upload_limit cfg) r.body))

  -- verifyChecksumUpload
  unfoldable pub verify_checksum_upload :
      Store → RequestPath → Hash → Bytes → Io (World d.platform) (Unit {0})
  unfolding verify_checksum
  verify_checksum_upload s p alg declared = do
    target ← file_content d.platform s (file s p p.target_file)
    unless (verify_checksum digest alg target declared)

  -- the check of an upload that is a checksum file
  checked : Store → RequestPath → Option Hash → Bytes → Io (Site d) (Unit {0})
  unfolding verify_checksum_upload checksum_status
  checked s p none body = pure tt
  checked s p (some alg) body =
      or_write checksum_status (at_store d (verify_checksum_upload s p alg body))

  package_annotations : RequestPath → List CreateOption
  package_annotations p =
      with_annotations (
        (codes "maven:group_id", text p.group_id)
        ∷ (codes "maven:artifact_id", text p.artifact_id)
        ∷ [])
      ∷ []

  ensure_package : Store → RequestPath → Io (World d.platform) (Unit {0})
  unfolding package_annotations
  ensure_package s p = tolerating (add_package d.platform s p.pkg (package_annotations p))

  ensure_version : Store → RequestPath → Io (World d.platform) (Unit {0})
  ensure_version s p = tolerating (
      add_version d.platform s (package_of p.pkg) p.version
        (with_annotations ((codes "maven:version", text p.version) ∷ []) ∷ []))

  parents : PathKind → Store → RequestPath → Io (World d.platform) (Unit {0})
  unfolding ensure_package ensure_version
  parents archetype_catalog s p = pure tt
  parents artifact_metadata s p = ensure_package s p
  parents artifact s p = ensure_package s p >> ensure_version s p
  parents version_metadata s p = ensure_package s p >> ensure_version s p

  -- ensureParents
  unfoldable pub ensure_parents : Store → RequestPath → Io (World d.platform) (Unit {0})
  unfolding parents
  ensure_parents s p = parents p.kind s p

  -- allowOverwrite
  unfoldable pub allow_overwrite : RequestPath → Bool
  allow_overwrite p = cfg.allow_overwrite || is_snapshot_version p.version

  upload_options : RequestPath → ℕ → List CreateOption
  unfolding allow_overwrite
  upload_options p now =
      with_annotations (upload_annotations p (stamp now))
      ∷ (if allow_overwrite p then with_allow_overwrite true ∷ [] else [])

  -- addFile
  unfoldable pub add_file : Store → RequestPath → Bytes → Io (World d.platform) File
  unfolding upload_options file
  add_file s p body w =
      Files.add_file d.platform s (file s p p.file) (record { content = body; broken = none })
        (upload_options p w.now) w

  refuse_proxy : Bool → Io (Site d) (Unit {0})
  refuse_proxy true = raise (rejected 405 (codes "method not allowed"))
  refuse_proxy false = pure tt

  module _ {D : Type 0} where
    uploaded : Response D
    uploaded = record {
      status = 201;
      headers = (codes "Content-Type", codes "text/plain; charset=utf-8") ∷ [];
      payload = content (codes "uploaded" ++ 10 ∷ []);
    }

    -- upload
    unfoldable pub upload : Bytes → Request → Io (Site d) (Response D)
    unfolding stored checked uploaded refuse_proxy
    upload escaped r = do
      p ← or_write store_status (lift (parse_path escaped))
      opened ← authorized_store r p.namespace true
      refuse_proxy (is_proxy opened.1)
      body ← read_upload_body r
      checked opened.0 p p.checksum body
      stored (ensure_parents opened.0 p)
      f ← stored (add_file opened.0 p body)
      pure uploaded

  -- The XML and the times of upstream metadata, as in the proxy.
  abbrev formats : (Bytes → Option Bytes) → (Bytes → Option ℕ) → Formats
  formats last_updated_text parse_time = record {
    digest = digest;
    stamp = stamp;
    decimal = decimal;
    last_updated_text = last_updated_text;
    parse_time = parse_time;
  }

  module _ {D : Type 0} (last_updated_text : Bytes → Option Bytes)
      (parse_time : Bytes → Option ℕ) where
    -- newProxyEngine, and its serve
    pull_through : Request → RequestPath → Spec → Store → Io (Site d) (Response D)
    pull_through r p spec s =
        Proxy.serve d (new_client (proxy_metadata_max_bytes cfg))
          (formats last_updated_text parse_time) r p.namespace spec s p

    -- download
    unfoldable pub download : Bytes → Request → Io (Site d) (Response D)
    unfolding pull_through
    download escaped r = do
      p ← or_write store_status (lift (parse_path escaped))
      opened ← authorized_store r p.namespace false
      if is_proxy opened.1
          then (do
            filled ← authorized_proxy_store r p.namespace
            pull_through r p opened.1 filled.0)
          else redirect_or_stream d decimal r.method opened.0 (file opened.0 p p.file)
              (content_type p)

    by_method : Method → Bytes → Request → Io (Site d) (Response D)
    by_method get = download
    by_method head = download
    by_method put = upload
    by_method post = upload
    by_method other = λ escaped r. raise (rejected 405 (codes "method not allowed"))

    -- serveHTTP
    unfoldable pub serve_http : Bytes → Request → Io (Site d) (Response D)
    unfolding by_method
    serve_http escaped r = by_method r.method escaped r
