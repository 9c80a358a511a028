-- ===== src/Surface/Maven/Proxy/Fills.antt =====
-- streamAndCache of pkg/surface/maven/proxy.go: what the client is sent, and what is cached.
use open_artifact.Shared.{
  ◌≡◌, ◌≢◌, refl, ap, ◌∙◌, inl, inr, Option, some, Bytes, Error, Result, ok, err, Option-cases,
}
use open_artifact.Shared.Maps.{Dict}
use open_artifact.Core.{Json}
use open_artifact.Store.Io.{◌>>=◌}
use open_artifact.Store.Io.Keeps.{Keeps, Keeps-bind, Keeps-pure}
use open_artifact.Store.Bucket.{IsLawful}
use open_artifact.Store.Paths.{file_path, file_meta_path}
use open_artifact.Store.Paths.Parents.{
  package_meta_path-ne-file_path, version_meta_path-ne-file_path,
}
use open_artifact.Store.Calls.{World, Store, Body}
use open_artifact.Store.Calls.Frame.{Holds}
use open_artifact.Store.Files.{new_file}
use open_artifact.Store.Files.Stored.{meta_path_ne_path, add_file-IsAborted}
use open_artifact.Store.Files.Atomic.{IsIntact}
use open_artifact.Store.Files.Whole.{IsWhole, held-IsWhole, add_file-IsWhole}
use open_artifact.Store.Packages.{package_of, version_of}
use open_artifact.Store.Packages.Handles.{add_package-Keeps, add_version-Keeps}
use open_artifact.Proxy.Upstream.{Client, StreamResponse}
use open_artifact.Namespace.{Spec}
use open_artifact.Surface.Site.{Deployment, Site, at_store}
use open_artifact.Surface.Http.{Request, Response}
use open_artifact.Surface.Http.Relay.{Teed, relayed, tee_stream_to_store}
use open_artifact.Surface.PullThrough.Frame.{logged-Keeps, tolerating-Keeps}
use open_artifact.Surface.PullThrough.Teeing.{SiteIsWhole, Sends, tee-Keeps}
use open_artifact.Surface.Maven.Codec.{RequestPath}
use open_artifact.Surface.Maven.Upstream.{Formats, artifact_annotations, proxy_content_type}
use open_artifact.Surface.Maven.Proxy.{local, record_parents, fill, concluded, stream_and_cache}

-- The two keys of the file differ.
local-apart :
    (s : Store) (p : RequestPath) (name : Bytes)
    → (local s p name).meta_key ≢ (local s p name).blob_key
unfolding local new_file file_path file_meta_path
local-apart s p name = meta_path_ne_path _ name

module _ (d : Deployment) (client : Client) (formats : Formats) (s : Store) (p : RequestPath)
    (lawful : IsLawful d.platform.bucket) where
  record_parents-Keeps :
      (name : Bytes) (x : Option Bytes)
      → Keeps (Holds d.platform (local s p name).blob_key x) (record_parents d client formats s p)
  unfolding record_parents local new_file package_of version_of
  record_parents-Keeps name x = logged-Keeps _ (
      Keeps-bind _ _
        (tolerating-Keeps _ (
          add_package-Keeps d.platform s lawful _ x p.pkg _
            (package_meta_path-ne-file_path s.scope p.pkg p.version name)))
        (λ u. tolerating-Keeps _ (
          add_version-Keeps d.platform s lawful _ x (package_of p.pkg) p.version _
            (version_meta_path-ne-file_path s.scope p.pkg p.version name))))

  -- the predicate of the tee, for every call that leaves the file alone
  recorded-IsWhole :
      (name : Bytes) (old : Option Bytes) (new : Bytes)
      → Keeps
          (SiteIsWhole d (local s p name).blob_key old new)
          (at_store d (record_parents d client formats s p))
  unfolding at_store
  recorded-IsWhole name old new = record {
    at = λ w h.
        (held-IsWhole d.platform lawful _ old new _ (record_parents-Keeps name)).at w.world h;
  }

  fill-IsWhole :
      (annotations : Bytes → Dict Json) (body : Body) (old : Option Bytes)
      → Keeps
          (IsWhole d.platform (local s p p.file).blob_key old body.content)
          (fill d client formats s p annotations body)
  unfolding fill
  fill-IsWhole annotations body old = record {
    at = λ w h.
        (add_file-IsWhole d.platform lawful s (local s p p.file) (local-apart s p p.file) old body
            _).at
          w h;
  }

  -- a body that breaks off is not cached
  fill-broken :
      (annotations : Bytes → Dict Json) (body : Body) (w : World d.platform) {e : Error}
      → body.broken ≡ some e
      → ((e : Error) × ((fill d client formats s p annotations body w).0 ≡ err e))
        × ((k : Bytes)
            → d.platform.bucket.content (fill d client formats s p annotations body w).1.disk k
              ≡ d.platform.bucket.content w.disk k)
  unfolding fill local IsIntact
  fill-broken annotations body w broken =
      add_file-IsAborted d.platform s (version_of (package_of p.pkg) p.version) p.file lawful body _
        w (λ intact. absurd (cc (intact.0, broken)))

  module _ (D : Type 0) (r : Request) (ns : Bytes) (spec : Spec) where
    -- the response does not depend on what is recorded after the fill
    concluded_sent :
        (t : Teed D) (w : Site d) → (concluded d client formats r ns spec s p t w).0 ≡ ok t.response
    unfolding concluded ◌>>=◌ record_parents at_store
    concluded_sent t w = elim (Option-cases t.copy_err) [
      | inr (e, broken) ↦ rw broken refl
      | inl whole ↦ elim (Option-cases t.fill_err) [
        | inr (e, failed) ↦ rw (whole, failed) refl
        | inl stored ↦ rw (whole, stored) refl
      ]
    ]

    concluded-broken :
        (t : Teed D) (w : Site d) {e : Error}
        → t.copy_err ≡ some e
        → concluded d client formats r ns spec s p t w ≡ (ok t.response, w)
    unfolding concluded
    concluded-broken t w broken = rw broken refl

    concluded-IsWhole :
        (t : Teed D) (old : Option Bytes) (new : Bytes)
        → Keeps
            (SiteIsWhole d (local s p p.file).blob_key old new)
            (concluded d client formats r ns spec s p t)
    unfolding concluded
    concluded-IsWhole t old new = elim (Option-cases t.copy_err) [
      | inr (e, broken) ↦ rw broken (Keeps-pure _)
      | inl whole ↦ elim (Option-cases t.fill_err) [
        | inr (e, failed) ↦ rw (whole, failed) (Keeps-pure _)
        | inl stored ↦
            rw (whole, stored)
              (Keeps-bind _ _ (recorded-IsWhole p.file old new) (λ u. Keeps-pure _))
      ]
    ]

    -- However the upstream, the client and the bucket behave, a tee of an artifact answers 200 with
    -- what the client takes of the body. It leaves the old file or the whole body under the path of the
    -- file; a body that breaks off, or that the client does not take to its end, changes no object.
    pub stream_and_cache_atomic :
        (url : Bytes) (sr : StreamResponse) (w : Site d)
        → let sent = relayed r.hangs_up sr.body in
          let (result, w') = stream_and_cache d client formats {D = D} r ns spec s p url sr w in
          let k = (local s p p.file).blob_key in
          ((resp : Response D) × (result ≡ ok resp) × Sends sent.content resp)
          × IsWhole d.platform k (d.platform.bucket.content w.world.disk k) sent.content w'.world
          × ((e : Error)
              → sent.broken ≡ some e
              → (j : Bytes)
              → d.platform.bucket.content w'.world.disk j
                ≡ d.platform.bucket.content w.world.disk j)
    unfolding stream_and_cache ◌>>=◌ tee_stream_to_store at_store
    stream_and_cache_atomic url sr w =
        let sent = relayed r.hangs_up sr.body in
        let annotations = λ (fetched : Bytes). artifact_annotations p fetched url in
        let old = d.platform.bucket.content w.world.disk (local s p p.file).blob_key in
        (
          (_, concluded_sent _ _, (refl, refl)),
          (concluded-IsWhole _ old sent.content).at _ (
              (tee-Keeps d {D = D} formats.decimal r.hangs_up sr.body (proxy_content_type p)
                  sr.content_length (fill d client formats s p annotations)
                  (fill-IsWhole annotations sent old)).at
                w (inl refl)),
          λ e broken j.
              ap (λ (o : Result (Response D) × Site d). d.platform.bucket.content o.1.world.disk j)
                (concluded-broken _ _ broken)
              ∙ (fill-broken annotations sent w.world broken).1 j,
        )
