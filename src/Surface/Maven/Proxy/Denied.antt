-- ===== src/Surface/Maven/Proxy/Denied.antt =====
-- serveArtifact of pkg/surface/maven/proxy.go: an artifact that the filters deny.
use open_artifact.Shared.{
  ◌≡◌, ◌≢◌, refl, sym, subst, arith, Bool, true, false, Option, none, Bytes, inl, inr, Error,
  Result, ok, err, if◌then◌else◌,
}
use open_artifact.Core.{Hash, format_maven}
use open_artifact.Store.Io.{Io, ◌>>=◌}
use open_artifact.Store.Io.Inversion.{bind_cases}
use open_artifact.Store.Bucket.{IsLawful}
use open_artifact.Store.Calls.{Store}
use open_artifact.Proxy.Upstream.{Client}
use open_artifact.Namespace.{Spec}
use open_artifact.Surface.Site.{Deployment, Site}
use open_artifact.Surface.Http.{
  Request, Response, is_head, or_write, store_status, redirect_or_stream,
}
use open_artifact.Surface.Http.Frame.{redirect_or_stream-Keeps}
use open_artifact.Surface.PullThrough.{is_marked, missing}
use open_artifact.Surface.PullThrough.Presence.{
  present, present-NetIs, present-now, present-Keeps, present_ok, redirect_or_stream-NetIs,
}
use open_artifact.Surface.PullThrough.Frame.{not_found_reply}
use open_artifact.Surface.Maven.Codec.{RequestPath}
use open_artifact.Surface.Maven.Upstream.{Formats, proxy_content_type, file_neg_key}
use open_artifact.Surface.Maven.Gate.Denials.{IsDenied, allow-denied}
use open_artifact.Surface.Maven.Proxy.{local, stored, fetch_artifact, cold, serve_artifact}

module _ (d : Deployment) (client : Client) (formats : Formats) (D : Type 0) (r : Request)
    (ns : Bytes) (spec : Spec) (s : Store) (p : RequestPath) where
  fetch_artifact-denied :
      (w : Site d)
      → IsDenied d client formats spec p w.world.now
      → fetch_artifact d client formats {D = D} r ns spec s p w ≡ missing d w
  unfolding fetch_artifact ◌>>=◌
  fetch_artifact-denied w denied = rw (allow-denied d client formats spec p w denied) refl

  cold-denied :
      (o : Option Hash) (w : Site d)
      → o ≡ none
      → is_head r.method ≡ false
      → IsDenied d client formats spec p w.world.now
      → cold d client formats {D = D} r ns spec s p o w ≡ missing d w
  unfolding cold
  cold-denied o w plain gets denied = rw (plain, gets) (fetch_artifact-denied w denied)

  -- What a request for an artifact that is denied leaves: no request to the upstream, no change of
  -- an object, and a response only if the file was there.
  HasLeft : Site d → Result (Response D) × Site d → Type 0
  HasLeft w (result, w') =
      (w'.net ≡ w.net)
      × ((k : Bytes)
          → d.platform.bucket.content w'.world.disk k ≡ d.platform.bucket.content w.world.disk k)
      × ((resp : Response D)
          → result ≡ ok resp
          → d.platform.bucket.content w.world.disk (local s p p.file).blob_key ≢ none)

  module _ (lawful : IsLawful d.platform.bucket) where
    -- the file was there
    found-HasLeft :
        (w : Site d)
        → (present d s (local s p p.file) w).0 ≡ ok true
        → HasLeft w (
            redirect_or_stream d formats.decimal r.method s
              (local s p p.file)
              (proxy_content_type p)
              (present d s (local s p p.file) w).1)
    unfolding HasLeft
    found-HasLeft w there =
        let f = local s p p.file in
        (
          (redirect_or_stream-NetIs d s f w.net formats.decimal r.method (proxy_content_type p)).at
              _ ((present-NetIs d s f w.net).at w refl),
          λ k.
              let x = d.platform.bucket.content w.world.disk k in
              (redirect_or_stream-Keeps d lawful k x formats.decimal r.method s f
                  (proxy_content_type p)).at
                _ ((present-Keeps d s f lawful k x).at w refl),
          λ resp served gone. absurd (ground (arith, present_ok d s f lawful w there, gone)),
        )

    module _ (gets : is_head r.method ≡ false) (plain : p.checksum ≡ none) where
      unfound : Io (Site d) (Response D)
      unfound = do
        known ← is_marked d ns format_maven (file_neg_key p)
        if known then missing d else cold d client formats r ns spec s p p.checksum

      refused :
          (e : Error) (w v : Site d)
          → v.net ≡ w.net
          → ((k : Bytes)
              → d.platform.bucket.content v.world.disk k ≡ d.platform.bucket.content w.world.disk k)
          → HasLeft w (err e, v)
      unfolding HasLeft
      refused e w v quiet kept = (quiet, kept, λ resp served. absurd (cc))

      -- what follows the look at the negative cache
      undecided :
          (w v : Site d) (known : Bool)
          → IsDenied d client formats spec p v.world.now
          → v.net ≡ w.net
          → ((k : Bytes)
              → d.platform.bucket.content v.world.disk k ≡ d.platform.bucket.content w.world.disk k)
          → HasLeft w
              ((if known then missing d else cold d client formats r ns spec s p p.checksum) v)
      unfolding missing or_write store_status
      undecided w v true denied quiet kept = refused not_found_reply w v quiet kept
      undecided w v false denied quiet kept =
          subst (HasLeft w) (sym (cold-denied p.checksum v plain gets denied))
            (refused not_found_reply w v quiet kept)

      unfound-HasLeft :
          (w v : Site d)
          → IsDenied d client formats spec p v.world.now
          → v.net ≡ w.net
          → ((k : Bytes)
              → d.platform.bucket.content v.world.disk k ≡ d.platform.bucket.content w.world.disk k)
          → HasLeft w (unfound v)
      unfolding unfound is_marked ◌>>=◌
      unfound-HasLeft w v denied quiet kept = undecided w _ _ denied quiet kept

      after_present : Bool → Io (Site d) (Response D)
      after_present exists =
          if exists
          then redirect_or_stream d formats.decimal r.method s (local s p p.file)
              (proxy_content_type p)
          else unfound

      after_present-HasLeft :
          (w : Site d) (exists : Bool)
          → IsDenied d client formats spec p w.world.now
          → (present d s (local s p p.file) w).0 ≡ ok exists
          → HasLeft w (after_present exists (present d s (local s p p.file) w).1)
      unfolding after_present
      after_present-HasLeft w true denied there = found-HasLeft w there
      after_present-HasLeft w false denied there =
          let f = local s p p.file in
          unfound-HasLeft w _
            (subst (IsDenied d client formats spec p) (sym (present-now d s f w)) denied)
            ((present-NetIs d s f w.net).at w refl)
            (λ k.
              (present-Keeps d s f lawful k (d.platform.bucket.content w.world.disk k)).at w refl)

      serve_artifact-HasLeft :
          (w : Site d)
          → IsDenied d client formats spec p w.world.now
          → HasLeft w (serve_artifact d client formats {D = D} r ns spec s p w)
      unfolding serve_artifact stored after_present unfound
      serve_artifact-HasLeft w denied =
          let f = local s p p.file in
          elim (bind_cases (present d s f) after_present w) [
            | inl (exists, there, same) ↦
                subst (HasLeft w) (sym same) (after_present-HasLeft w exists denied there)
            | inr (e, failed, same) ↦ subst (HasLeft w) (sym same) (
                refused e w _ ((present-NetIs d s f w.net).at w refl) (λ k.
                  (present-Keeps d s f lawful k (d.platform.bucket.content w.world.disk k)).at w
                    refl))
          ]

      pub serve_artifact_denied :
          (w : Site d)
          → IsDenied d client formats spec p w.world.now
          → let (result, w') = serve_artifact d client formats {D = D} r ns spec s p w in
            (w'.net ≡ w.net)
            × ((k : Bytes)
                → d.platform.bucket.content w'.world.disk k
                  ≡ d.platform.bucket.content w.world.disk k)
            × ((resp : Response D)
                → result ≡ ok resp
                → d.platform.bucket.content w.world.disk (local s p p.file).blob_key ≢ none)
      unfolding HasLeft
      serve_artifact_denied w denied = serve_artifact-HasLeft w denied
