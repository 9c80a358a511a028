-- ===== src/Surface/Debian/Proxy/Indexes.antt =====
-- serveIndex of pkg/surface/debian/proxy.go: the fresh index, and the stale one.
use open_artifact.Shared.{
  ◌≡◌, refl, arith, ℕ, Bool, true, false, none, some, Bytes, codes, Error, Result, ok, err, inl,
  if◌then◌else◌,
}
use open_artifact.Core.{format_debian}
use open_artifact.Store.Io.{◌>>=◌}
use open_artifact.Store.Io.Keeps.{Keeps-raise}
use open_artifact.Store.Bucket.{IsLawful}
use open_artifact.Store.Paths.{scope_prefix}
use open_artifact.Store.Paths.Parents.{cache_meta_path-ne-cache_file_path}
use open_artifact.Store.Calls.{Store, Body}
use open_artifact.Store.Files.{new_cache_file}
use open_artifact.Store.Files.Whole.{IsWhole, add_cache-IsWhole, add_cache-IsAborted}
use open_artifact.Proxy.Negative
use open_artifact.Proxy.Upstream
use open_artifact.Proxy.Upstream.{StreamResponse, is_ok, is_not_found, is_server_error}
use open_artifact.Namespace.{Spec}
use open_artifact.Surface.Site.{Deployment, Site, at_store}
use open_artifact.Surface.Http.{Request, Response, is_head}
use open_artifact.Surface.Http.Relay.{relayed, tee_stream_to_store}
use open_artifact.Surface.PullThrough.{at_net, is_marked, unavailable, refused_with}
use open_artifact.Surface.PullThrough.Teeing.{Sends}
use open_artifact.Surface.Debian.{RequestPath, index_key}
use open_artifact.Surface.Debian.Proxy.{
  upstream_url, cached_index, or_stale, teed_index, streamed_index, live_index, serve_index,
}
use open_artifact.Surface.Debian.Proxy.Stale.{copy_of, IsServed, or_stale-Keeps, or_stale_lem}

-- The upstream has no usable answer: none at all, or a status that is neither 2xx nor 404.
abbrev pub IsUnavailable : Result StreamResponse → Type 0
IsUnavailable answer =
    (sr : StreamResponse)
    → answer ≡ ok sr
    → (is_not_found sr.status ≡ false) × (is_ok sr.status ≡ false)

ok-is_found : (status : ℕ) → is_ok status ≡ true → is_not_found status ≡ false
unfolding is_ok is_not_found
ok-is_found status h = ground arith

module _ (d : Deployment) (stamp decimal : ℕ → Bytes) (lawful : IsLawful d.platform.bucket)
    (D : Type 0) (r : Request) (s : Store) (p : RequestPath) where
  -- What is left of a request that only the cached copy can answer.
  IsStale : Site d → Result (Response D) × Site d → Type 0
  IsStale w (result, w') =
      ((k : Bytes)
        → d.platform.bucket.content w'.world.disk k ≡ d.platform.bucket.content w.world.disk k)
      × ((resp : Response D) → result ≡ ok resp → IsServed d stamp decimal lawful D r s p w resp)
      × (copy_of d stamp decimal lawful D r s p w ≡ none → (e : Error) × (result ≡ err e))

  module _ (gets : is_head r.method ≡ false) where
    or_stale-IsStale :
        (e : Error) (w : Site d)
        → IsStale w (or_stale d stamp decimal {D = D} r s p (λ v. (err e, v)) w)
    unfolding IsStale
    or_stale-IsStale e w =
        let (copied, refused) = or_stale_lem d stamp decimal lawful D r s p gets e w in
        (
          λ k.
              (or_stale-Keeps d stamp decimal lawful D r s p k
                  (d.platform.bucket.content w.world.disk k) _ (Keeps-raise e)).at
                w refl,
          copied,
          λ gone. (e, refused gone),
        )

    module _ (ns : Bytes) (spec : Spec) where
      fallback-IsStale :
          (is_error : Bool) (w : Site d)
          → IsStale w (
              or_stale d stamp decimal {D = D} r s p
                (if is_error
                  then unavailable d
                  else refused_with d 502 (codes "upstream index error"))
                w)
      unfolding unavailable
      fallback-IsStale true w = or_stale-IsStale _ w
      fallback-IsStale false w = or_stale-IsStale _ w

      streamed_index-IsStale :
          (answer : Result StreamResponse) (w : Site d)
          → IsUnavailable answer
          → IsStale w (streamed_index d stamp decimal {D = D} r s p ns spec answer w)
      unfolding streamed_index
      streamed_index-IsStale (err e) w gone = fallback-IsStale true w
      streamed_index-IsStale (ok sr) w gone =
          let (found, bad) = gone sr refl in
          rw (found, bad) (fallback-IsStale (is_server_error sr.status) w)

      -- A GET of an index that is not remembered as missing, for which the upstream has no usable
      -- answer, changes no object. A response is a 200 with the copy that the bucket holds, or with a
      -- beginning of it if a Read of the copy broke off there; without a copy an error is written.
      pub serve_index_stale :
          (w : Site d)
          → (Negative.has w.world.now ns format_debian (index_key p) w.negative).0 ≡ false
          → IsUnavailable (Upstream.stream d.transport (upstream_url spec p) w.net).0
          → let (result, w') = serve_index d stamp decimal {D = D} r s p ns spec w in
            ((k : Bytes)
              → d.platform.bucket.content w'.world.disk k
                ≡ d.platform.bucket.content w.world.disk k)
            × ((resp : Response D)
                → result ≡ ok resp
                → IsServed d stamp decimal lawful D r s p w resp)
            × (copy_of d stamp decimal lawful D r s p w ≡ none → (e : Error) × (result ≡ err e))
      unfolding serve_index live_index is_marked at_net ◌>>=◌ IsStale
      serve_index_stale w fresh gone = rw (fresh, gets) (streamed_index-IsStale _ _ gone)

      -- what has been sent and cached of an index that the upstream has
      IsFilled : Body → Site d → Result (Response D) × Site d → Type 0
      IsFilled sent w (result, w') =
          ((resp : Response D) × (result ≡ ok resp) × Sends sent.content resp)
          × IsWhole d.platform (cached_index d stamp decimal s p).blob_key
              (copy_of d stamp decimal lawful D r s p w) sent.content w'.world
          × ((e : Error)
              → sent.broken ≡ some e
              → (k : Bytes)
              → d.platform.bucket.content w'.world.disk k
                ≡ d.platform.bucket.content w.world.disk k)

      teed_index-IsFilled :
          (sr : StreamResponse) (w : Site d)
          → IsFilled
              (relayed r.hangs_up sr.body)
              w
              (teed_index d stamp decimal {D = D} r s p ns spec sr w)
      unfolding teed_index IsFilled ◌>>=◌ tee_stream_to_store at_store cached_index new_cache_file
      teed_index-IsFilled sr w =
          let sent = relayed r.hangs_up sr.body in
          let dir = scope_prefix s.scope in
          let apart = cache_meta_path-ne-cache_file_path dir (index_key p) in
          (
            (_, refl, (refl, refl)),
            (add_cache-IsWhole d.platform lawful s dir (index_key p) _ sent apart).at w.world
                (inl refl),
            λ e broken k.
                (add_cache-IsAborted d.platform lawful s dir (index_key p) none sent w.world
                    broken).1
                  k,
          )

      -- A GET of an index that is not remembered as missing and that the upstream has is answered 200
      -- with what the client takes of it, whatever the store does. It leaves the old copy or the whole
      -- index in the cache; an index that breaks off, or that the client does not take to its end,
      -- changes no object.
      pub serve_index_filled :
          (w : Site d) {sr : StreamResponse}
          → (Negative.has w.world.now ns format_debian (index_key p) w.negative).0 ≡ false
          → (Upstream.stream d.transport (upstream_url spec p) w.net).0 ≡ ok sr
          → is_ok sr.status ≡ true
          → let sent = relayed r.hangs_up sr.body in
            let (result, w') = serve_index d stamp decimal {D = D} r s p ns spec w in
            ((resp : Response D) × (result ≡ ok resp) × Sends sent.content resp)
            × IsWhole d.platform
                (cached_index d stamp decimal s p).blob_key
                (copy_of d stamp decimal lawful D r s p w)
                sent.content
                w'.world
            × ((e : Error)
                → sent.broken ≡ some e
                → (k : Bytes)
                → d.platform.bucket.content w'.world.disk k
                  ≡ d.platform.bucket.content w.world.disk k)
      unfolding serve_index live_index is_marked at_net ◌>>=◌ IsFilled streamed_index
      serve_index_filled w {sr} fresh answered good =
          rw (fresh, gets, answered, ok-is_found sr.status good, good) (teed_index-IsFilled sr _)
