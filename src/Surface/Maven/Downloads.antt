-- ===== src/Surface/Maven/Downloads.antt =====
-- download of pkg/surface/maven/handler.go, for metadata.
use open_artifact.Shared.{◌≡◌, refl, ◌⊎◌, inl, inr, ℕ, false, if◌then◌else◌, Option, Bytes, ok}
use open_artifact.Core.{Hash}
use open_artifact.Store.Io.{Io, ◌>>=◌}
use open_artifact.Store.Io.Keeps.{Keeps, Keeps-bind, Keeps-if}
use open_artifact.Store.Bucket.{IsLawful}
use open_artifact.Store.Calls.{Store}
use open_artifact.Proxy.Upstream.{Client}
use open_artifact.Namespace.{Spec, is_proxy}
use open_artifact.Surface.Site.{Deployment, Site}
use open_artifact.Surface.Site.Frame.{SiteHolds, open_store-Keeps, open_proxy_store-Keeps}
use open_artifact.Surface.Http.{Request, Response, or_write, redirect_or_stream}
use open_artifact.Surface.Http.Frame.{or_write-Keeps, redirect_or_stream-Keeps}
use open_artifact.Surface.Maven.{
  Config, authorized_store, authorized_proxy_store, pull_through, download, file, content_type,
}
use open_artifact.Surface.Maven.Codec.{
  PathKind, artifact_metadata, version_metadata, RequestPath, parse_path,
}
use open_artifact.Surface.Maven.Upstream.{Formats}
use open_artifact.Surface.Maven.Live.Passthrough.{serve_metadata-Keeps}
use open_artifact.Surface.Maven.Proxy

abbrev pub IsMetadata : PathKind → Type 0
IsMetadata kind = (kind ≡ artifact_metadata) ⊎ (kind ≡ version_metadata)

module _ (d : Deployment) (lawful : IsLawful d.platform.bucket) (k : Bytes) (x : Option Bytes) where
  by_kind-Keeps :
      (client : Client) (formats : Formats) {D : Type 0} (r : Request) (ns : Bytes) (spec : Spec)
      (s : Store) (p : RequestPath) (kind : PathKind)
      → IsMetadata kind
      → Keeps (SiteHolds d k x) (Proxy.by_kind d client formats {D = D} r ns spec s p kind)
  unfolding Proxy.by_kind
  by_kind-Keeps client formats r ns spec s p kind (inl e) =
      rw (e) (serve_metadata-Keeps d client (λ w n c h. h) r ns spec p)
  by_kind-Keeps client formats r ns spec s p kind (inr e) =
      rw (e) (serve_metadata-Keeps d client (λ w n c h. h) r ns spec p)

  module _ (cfg : Config) (digest : Hash → Bytes → Bytes) (stamp decimal : ℕ → Bytes) where
    authorized_store-Keeps :
        (r : Request) (ns : Bytes)
        → Keeps (SiteHolds d k x) (authorized_store d cfg digest stamp decimal r ns false)
    unfolding authorized_store
    authorized_store-Keeps r ns = or_write-Keeps _ _ (open_store-Keeps d lawful k x ns _ r.subject)

    authorized_proxy_store-Keeps :
        (r : Request) (ns : Bytes)
        → Keeps (SiteHolds d k x) (authorized_proxy_store d cfg digest stamp decimal r ns)
    unfolding authorized_proxy_store
    authorized_proxy_store-Keeps r ns =
        or_write-Keeps _ _ (open_proxy_store-Keeps d lawful k x ns _ r.subject)

    module _ {D : Type 0} (last_updated_text : Bytes → Option Bytes)
        (parse_time : Bytes → Option ℕ) where
      pull_through-Keeps :
          (r : Request) (p : RequestPath) (spec : Spec) (s : Store)
          → IsMetadata p.kind
          → Keeps (SiteHolds d k x) (
              pull_through d cfg digest stamp decimal {D = D} last_updated_text parse_time r p spec
                s)
      unfolding pull_through Proxy.serve
      pull_through-Keeps r p spec s is_metadata =
          by_kind-Keeps _ _ r p.namespace spec s p p.kind is_metadata

      -- download, behind parsePath
      parsed_download : RequestPath → Request → Io (Site d) (Response D)
      parsed_download p r = do
        opened ← authorized_store d cfg digest stamp decimal r p.namespace false
        if is_proxy opened.1
            then (do
              filled ← authorized_proxy_store d cfg digest stamp decimal r p.namespace
              pull_through d cfg digest stamp decimal last_updated_text parse_time r p opened.1
                  filled.0)
            else redirect_or_stream d decimal r.method opened.0 (file opened.0 p p.file)
                (content_type p)

      parsed_download-Keeps :
          (p : RequestPath) (r : Request)
          → IsMetadata p.kind
          → Keeps (SiteHolds d k x) (parsed_download p r)
      unfolding parsed_download
      parsed_download-Keeps p r is_metadata =
          Keeps-bind _ _ (authorized_store-Keeps r p.namespace) (λ opened.
            Keeps-if (is_proxy opened.1) _ _
              (Keeps-bind _ _ (authorized_proxy_store-Keeps r p.namespace)
                (λ filled. pull_through-Keeps r p opened.1 filled.0 is_metadata))
              (redirect_or_stream-Keeps d lawful k x decimal r.method opened.0 _ _))

module _ (d : Deployment) (lawful : IsLawful d.platform.bucket) (cfg : Config)
    (digest : Hash → Bytes → Bytes) (stamp decimal : ℕ → Bytes) (D : Type 0)
    (last_updated_text : Bytes → Option Bytes) (parse_time : Bytes → Option ℕ) where
  -- A download of the metadata of an artifact or of a version, or of a checksum of it, changes no object
  -- of the bucket, whether the namespace is hosted or a proxy, and whatever the policy, the negative
  -- cache, the upstream and the bucket answer.
  pub download_passthrough :
      (escaped : Bytes) (r : Request) (w : Site d) {p : RequestPath}
      → parse_path escaped ≡ ok p
      → IsMetadata p.kind
      → (k : Bytes)
      → d.platform.bucket.content
          (download d cfg digest stamp decimal {D = D} last_updated_text parse_time escaped r
            w).1.world.disk
          k
        ≡ d.platform.bucket.content w.world.disk k
  unfolding download parsed_download or_write ◌>>=◌
  download_passthrough escaped r w {p} parsed is_metadata k = rw (parsed) (
      (parsed_download-Keeps d lawful k (d.platform.bucket.content w.world.disk k) cfg digest stamp
          decimal last_updated_text parse_time p r is_metadata).at
        w refl)
