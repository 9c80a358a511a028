-- ===== src/Surface/Debian/Proxy/Stale.antt =====
-- serveCachedIndex of pkg/surface/debian/proxy.go: the stale copy of an index.
use open_artifact.Shared.{
  ◌≡◌, refl, sym, ap, subst, ◌∙◌, ◌⊎◌, inl, inr, [], ◌++◌, ℕ, Bool, true, false, Option, none, some,
  Bytes, Error, Result, ok, err, ok_injective,
}
use mathlib.Core.Option.{some-injective}
use open_artifact.Shared.Maps.{Dict}
use open_artifact.Store.Io.{Io, ◌>>=◌}
use open_artifact.Store.Io.Keeps.{Keeps, Keeps-bind, keeps_rules}
use open_artifact.Store.Bucket.{IsLawful, is_some}
use open_artifact.Store.Calls.{World, Store, Body}
use open_artifact.Store.Files.{file_exists, file_read, file_meta_of}
use open_artifact.Store.Files.Frame.{file_exists-Keeps, file_read-Keeps, file_meta_of-Keeps}
use open_artifact.Store.Files.Existence.{file_exists_ok, file_read_ok}
use open_artifact.Surface.Site.{Deployment, Site, at_store}
use open_artifact.Surface.Site.Frame.{SiteHolds, at_store-Keeps}
use open_artifact.Surface.Http.{Request, Response, is_head}
use open_artifact.Surface.PullThrough.{attempted}
use open_artifact.Surface.PullThrough.Frame.{attempted-Keeps}
use open_artifact.Surface.PullThrough.Teeing.{Sends}
use open_artifact.Surface.Debian.{RequestPath}
use open_artifact.Surface.Debian.Proxy.{
  cached_index, cached_body, cached_copy, if_cached, serve_cached_index, answered, or_stale,
}

body_of_parts :
    (body : Body) {e : Error}
    → body.broken ≡ some e
    → body ≡ record { content = body.content; broken = some e }
body_of_parts body h = ap (λ o. record { content = body.content; broken = o }) h

module _ (d : Deployment) (stamp decimal : ℕ → Bytes) (lawful : IsLawful d.platform.bucket)
    (D : Type 0) (r : Request) (s : Store) (p : RequestPath) where
  -- What the bucket holds as the copy of the index.
  abbrev pub copy_of : Site d → Option Bytes
  copy_of w = d.platform.bucket.content w.world.disk (cached_index d stamp decimal s p).blob_key

  -- A Read of the copy streamed these bytes and then broke off.
  abbrev pub IsCut : Bytes → Type 0
  IsCut bytes =
      (v : World d.platform) × (e : Error) × ((file_read d.platform s
          (cached_index d stamp decimal s p) v).0
        ≡ ok (record { content = bytes; broken = some e }))

  -- A response of 200 with the copy, or with the beginning of it that a Read streamed before it broke
  -- off.
  abbrev pub IsServed : Site d → Response D → Type 0
  IsServed w resp =
      (bytes : Bytes) × (rest : Bytes) × (copy_of w ≡ some (bytes ++ rest))
      × ((rest ≡ []) ⊎ IsCut bytes)
      × Sends bytes resp

  module _ (k : Bytes) (x : Option Bytes) where
    exists-Keeps :
        Keeps
          (SiteHolds d k x)
          (attempted (at_store d (file_exists d.platform s (cached_index d stamp decimal s p))))
    exists-Keeps =
        attempted-Keeps _
          (at_store-Keeps d lawful k x _ (file_exists-Keeps d.platform lawful k x s _))

    meta-Keeps :
        Keeps
          (SiteHolds d k x)
          (attempted (at_store d (file_meta_of d.platform s (cached_index d stamp decimal s p))))
    meta-Keeps =
        attempted-Keeps _
          (at_store-Keeps d lawful k x _ (file_meta_of-Keeps d.platform lawful k x s _))

    read-Keeps :
        Keeps
          (SiteHolds d k x)
          (attempted (at_store d (file_read d.platform s (cached_index d stamp decimal s p))))
    read-Keeps =
        attempted-Keeps _
          (at_store-Keeps d lawful k x _ (file_read-Keeps d.platform lawful k x s _))

    cached_copy-Keeps :
        (headers : Dict Bytes)
        → Keeps (SiteHolds d k x) (cached_copy d stamp decimal {D = D} r s p headers)
    unfolding cached_copy
    cached_copy-Keeps headers = search (keeps_rules, read-Keeps)

    if_cached-Keeps :
        (b : Result Bool) → Keeps (SiteHolds d k x) (if_cached d stamp decimal {D = D} r s p b)
    unfolding if_cached
    if_cached-Keeps (ok true) = search (keeps_rules, meta-Keeps, cached_copy-Keeps)
    if_cached-Keeps (ok false) = search keeps_rules
    if_cached-Keeps (err e) = search keeps_rules

    serve_cached_index-Keeps :
        Keeps (SiteHolds d k x) (serve_cached_index d stamp decimal {D = D} r s p)
    unfolding serve_cached_index
    serve_cached_index-Keeps = search (keeps_rules, exists-Keeps, if_cached-Keeps)

    answered-Keeps :
        (fallback : Io (Site d) (Response D)) (o : Option (Response D))
        → Keeps (SiteHolds d k x) fallback
        → Keeps (SiteHolds d k x) (answered d stamp decimal r s p fallback o)
    unfolding answered
    answered-Keeps fallback none keeps = keeps
    answered-Keeps fallback (some resp) keeps = search keeps_rules

    pub or_stale-Keeps :
        (fallback : Io (Site d) (Response D))
        → Keeps (SiteHolds d k x) fallback
        → Keeps (SiteHolds d k x) (or_stale d stamp decimal r s p fallback)
    unfolding or_stale
    or_stale-Keeps fallback keeps =
        Keeps-bind _ _ serve_cached_index-Keeps (λ o. answered-Keeps fallback o keeps)

  cached_body-some :
      (headers : Dict Bytes) (read : Result Body) {resp : Response D}
      → cached_body d stamp decimal r s p headers read ≡ some resp
      → (body : Body) × (read ≡ ok body) × Sends body.content resp
  unfolding cached_body
  cached_body-some headers (err e) h = absurd (cc)
  cached_body-some headers (ok body) h =
      (body, refl, subst (Sends body.content) (some-injective _ _ h) (refl, refl))

  module _ (gets : is_head r.method ≡ false) where
    cached_copy-some :
        (headers : Dict Bytes) (w : Site d) {resp : Response D}
        → (cached_copy d stamp decimal r s p headers w).0 ≡ ok (some resp)
        → IsServed w resp
    unfolding cached_copy ◌>>=◌ at_store
    cached_copy-some headers w h =
        let (body, read, sends) = cached_body-some headers _ (ok_injective (rw gets at h)) in
        let (rest, held, end) =
          file_read_ok d.platform s (cached_index d stamp decimal s p) lawful w.world read in
        (
          body.content,
          rest,
          held,
          elim end [
            | inl all ↦ inl all
            | inr (e, cut) ↦ inr (w.world, e, read ∙ ap ok (body_of_parts body cut))
          ],
          sends,
        )

    if_cached-some :
        (b : Result Bool) (w : Site d) {resp : Response D}
        → (if_cached d stamp decimal r s p b w).0 ≡ ok (some resp)
        → IsServed w resp
    unfolding if_cached ◌>>=◌
    if_cached-some (err e) w h = absurd (cc (ok_injective h))
    if_cached-some (ok false) w h = absurd (cc (ok_injective h))
    if_cached-some (ok true) w h =
        let (bytes, rest, there, end, sends) = cached_copy-some _ _ h in
        (bytes, rest, sym ((meta-Keeps _ (copy_of w)).at w refl) ∙ there, end, sends)

    cached_copy_total :
        (headers : Dict Bytes) (w : Site d)
        → (o : Option (Response D)) × ((cached_copy d stamp decimal r s p headers w).0 ≡ ok o)
    unfolding cached_copy ◌>>=◌ at_store
    cached_copy_total headers w = (
      cached_body d stamp decimal r s p headers
          (file_read d.platform s (cached_index d stamp decimal s p) w.world).0,
      rw gets refl,
    )

    -- it reports whether it replied, and no error
    if_cached_total :
        (b : Result Bool) (w : Site d)
        → (o : Option (Response D)) × ((if_cached d stamp decimal r s p b w).0 ≡ ok o)
    unfolding if_cached ◌>>=◌
    if_cached_total (err e) w = (none, refl)
    if_cached_total (ok false) w = (none, refl)
    if_cached_total (ok true) w = cached_copy_total _ _

    if_cached-none :
        (b : Result Bool) (w : Site d)
        → ((c : Bool) → b ≡ ok c → c ≡ false)
        → (if_cached d stamp decimal {D = D} r s p b w).0 ≡ ok none
    unfolding if_cached
    if_cached-none (err e) w h = refl
    if_cached-none (ok false) w h = refl
    if_cached-none (ok true) w h = absurd (cc (h true refl))

    answered_raised :
        (e : Error) (o : Option (Response D)) (w : Site d) {resp : Response D}
        → (answered d stamp decimal r s p (λ v. (err e, v)) o w).0 ≡ ok resp
        → o ≡ some resp
    unfolding answered
    answered_raised e none w h = absurd (cc)
    answered_raised e (some resp) w h = ap some (ok_injective h)

    -- A fallback behind the cached copy: a response that is sent is the copy that the bucket holds, and
    -- without a copy the error is written.
    pub or_stale_lem :
        (e : Error) (w : Site d)
        → let result = (or_stale d stamp decimal {D = D} r s p (λ v. (err e, v)) w).0 in
          ((resp : Response D) → result ≡ ok resp → IsServed w resp)
          × (copy_of w ≡ none → result ≡ err e)
    unfolding or_stale serve_cached_index ◌>>=◌ at_store
    or_stale_lem e w =
        let f = cached_index d stamp decimal s p in
        let b = (file_exists d.platform s f w.world).0 in
        let w' = (attempted (at_store d (file_exists d.platform s f)) w).1 in
        let kept : copy_of w' ≡ copy_of w = (exists-Keeps _ (copy_of w)).at w refl in
        let (o, total) = if_cached_total b w' in
        (
          λ resp sent.
              let replied = answered_raised e o _ (rw total at sent) in
              let (bytes, rest, there, end, sends) = if_cached-some b w' (total ∙ ap ok replied) in
              (bytes, rest, sym kept ∙ there, end, sends),
          λ gone.
              rw
                (if_cached-none b w'
                  (λ c shown. file_exists_ok d.platform s f lawful w.world shown ∙ ap is_some gone))
                refl,
        )
