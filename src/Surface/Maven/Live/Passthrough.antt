-- ===== src/Surface/Maven/Live/Passthrough.antt =====
-- serveMetadata of pkg/surface/maven/proxy.go: what its calls leave alone.
use open_artifact.Shared.{arith, ℕ, Bytes, Error, Result, ok, err}
use open_artifact.Store.Io.Keeps.{Keeps, keeps_rules}
use open_artifact.Proxy.Upstream
use open_artifact.Proxy.Upstream.{Client, is_ok, is_not_found, is_server_error}
use open_artifact.Namespace.{Spec}
use open_artifact.Surface.Site.{Deployment, Site}
use open_artifact.Surface.Http.{Request, Response}
use open_artifact.Surface.PullThrough.{unavailable}
use open_artifact.Surface.PullThrough.Frame.{
  IsOfStore, attempted-Keeps, at_net-Keeps, is_marked-Keeps, missing-Keeps, mark_missing-Keeps,
  unavailable-Keeps,
}
use open_artifact.Surface.Maven.Codec.{RequestPath}
use open_artifact.Surface.Maven.Live.{
  missing_metadata, metadata_reply, metadata_headers, metadata_body, live_metadata, serve_metadata,
}

module _ (d : Deployment) (client : Client) {P : Site d → Type 0} (stable : IsOfStore d P)
    {D : Type 0} (r : Request) (ns : Bytes) (spec : Spec) (p : RequestPath) where
  missing_metadata-Keeps : Keeps P (missing_metadata d client {D = D} r ns spec p)
  unfolding missing_metadata
  missing_metadata-Keeps = mark_missing-Keeps d stable ns _ _

  metadata_reply-Keeps :
      (status : ℕ) (found : Response D) → Keeps P (metadata_reply d client r ns spec p status found)
  unfolding metadata_reply
  metadata_reply-Keeps status found =
      search (keeps_rules, missing_metadata-Keeps, unavailable-Keeps d stable)

  metadata_headers-Keeps :
      (resp : Result Upstream.Response)
      → Keeps P (metadata_headers d client {D = D} r ns spec p resp)
  unfolding metadata_headers
  metadata_headers-Keeps (err e) = unavailable-Keeps d stable
  metadata_headers-Keeps (ok resp) = metadata_reply-Keeps resp.status _

  refused_body-Keeps : (e : Error) → Keeps P (metadata_body d client {D = D} r ns spec p (err e))
  unfolding metadata_body unavailable
  refused_body-Keeps e = record { at = λ w h. ground arith }

  metadata_body-Keeps :
      (resp : Result Upstream.Response) → Keeps P (metadata_body d client {D = D} r ns spec p resp)
  metadata_body-Keeps (err e) = refused_body-Keeps e
  metadata_body-Keeps (ok resp) = unfold metadata_body in metadata_reply-Keeps resp.status _

  live_metadata-Keeps : Keeps P (live_metadata d client {D = D} r ns spec p)
  unfolding live_metadata
  live_metadata-Keeps = search (
    keeps_rules,
    attempted-Keeps,
    at_net-Keeps d stable,
    metadata_headers-Keeps,
    metadata_body-Keeps,
  )

  pub serve_metadata-Keeps : Keeps P (serve_metadata d client {D = D} r ns spec p)
  unfolding serve_metadata
  serve_metadata-Keeps =
      search (keeps_rules, is_marked-Keeps d stable, missing-Keeps d stable, live_metadata-Keeps)
