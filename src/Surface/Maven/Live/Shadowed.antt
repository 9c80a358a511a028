-- ===== src/Surface/Maven/Live/Shadowed.antt =====
-- serveMetadata of pkg/surface/maven/proxy.go over the negative cache: how long a missing document is
-- remembered, and for which requests.
use open_artifact.Shared.{
  ◌≡◌, refl, ap, ◌∙◌, arith, ℕ, ◌+◌, ◌<◌, true, false, Option, none, some, Bytes, ltb,
  if◌then◌else◌, Bool-cases, inl, inr, Result, ok, err,
}
use open_artifact.Core.{format_maven}
use open_artifact.Shared.Maps.{get}
use open_artifact.Store.Io.{◌>>=◌}
use open_artifact.Proxy.Negative
use open_artifact.Proxy.Negative.Expiry.{has-mark}
use open_artifact.Proxy.Upstream
use open_artifact.Proxy.Upstream.{Client, is_ok, is_not_found, is_server_error}
use open_artifact.Namespace.{Spec}
use open_artifact.Surface.Site.{Deployment, Site}
use open_artifact.Surface.Http.{Request, Response, is_head, or_write, store_status}
use open_artifact.Surface.PullThrough.{at_net, is_marked, mark, missing, mark_missing}
use open_artifact.Surface.PullThrough.Frame.{not_found_reply}
use open_artifact.Surface.Maven.Codec.{RequestPath}
use open_artifact.Surface.Maven.Upstream.{upstream_url, metadata_neg_key}
use open_artifact.Surface.Maven.Live.{
  missing_metadata, metadata_reply, metadata_headers, metadata_body, live_metadata, serve_metadata,
}

has-ttl :
    (now : ℕ) (ns f k : Bytes) (c : Negative.Cache) → (Negative.has now ns f k c).1.ttl ≡ c.ttl
unfolding Negative.has
has-ttl now ns f k c = answer-ttl (get c.entries (Negative.cache_key ns f k))
  where
    answer-ttl :
        (o : Option ℕ) → (Negative.answer now (Negative.cache_key ns f k) o c).1.ttl ≡ c.ttl
    answer-ttl none = refl
    answer-ttl (some expiry) = ground arith

same_key :
    (p q : RequestPath)
    → q.group_id ≡ p.group_id
    → q.artifact_id ≡ p.artifact_id
    → metadata_neg_key q ≡ metadata_neg_key p
unfolding metadata_neg_key
same_key p q group artifact = rw (group, artifact) refl

-- what the client is asked for
abbrev pub asked :
    (d : Deployment)
    → Client
    → Request
    → Spec
    → RequestPath
    → d.transport.Net
    → Result Upstream.Response × d.transport.Net
asked d client r spec p =
    if is_head r.method
    then Upstream.head d.transport (upstream_url spec p)
    else Upstream.get d.transport client (upstream_url spec p)

module _ (d : Deployment) (client : Client) {D : Type 0} (r : Request) (ns : Bytes) (spec : Spec)
    (p : RequestPath) where
  -- a document that is remembered as missing is not asked for
  remembered :
      (w : Site d)
      → (Negative.has w.world.now ns format_maven (metadata_neg_key p) w.negative).0 ≡ true
      → ((serve_metadata d client {D = D} r ns spec p w).0 ≡ err not_found_reply)
        × ((serve_metadata d client {D = D} r ns spec p w).1.net ≡ w.net)
  unfolding serve_metadata is_marked ◌>>=◌ missing or_write store_status
  remembered w known = (rw known refl, rw known refl)

  gone_reply :
      (status : ℕ) (found : Response D) (v : Site d)
      → status ≡ 404
      → metadata_reply d client r ns spec p status found v ≡ (
        err not_found_reply,
        record v {
          negative = Negative.mark v.world.now ns format_maven (metadata_neg_key p) v.negative;
        },
      )
  unfolding metadata_reply missing_metadata mark_missing missing mark or_write store_status
      is_not_found ◌>>=◌
  gone_reply status found v gone = rw gone refl

  headed :
      (answer : Result Upstream.Response) (v : Site d) {resp : Upstream.Response}
      → answer ≡ ok resp
      → resp.status ≡ 404
      → metadata_headers d client {D = D} r ns spec p answer v ≡ (
        err not_found_reply,
        record v {
          negative = Negative.mark v.world.now ns format_maven (metadata_neg_key p) v.negative;
        },
      )
  unfolding metadata_headers
  headed answer v {resp} answered gone = rw answered (gone_reply resp.status _ v gone)

  got :
      (answer : Result Upstream.Response) (v : Site d) {resp : Upstream.Response}
      → answer ≡ ok resp
      → resp.status ≡ 404
      → metadata_body d client {D = D} r ns spec p answer v ≡ (
        err not_found_reply,
        record v {
          negative = Negative.mark v.world.now ns format_maven (metadata_neg_key p) v.negative;
        },
      )
  unfolding metadata_body
  got answer v {resp} answered gone = rw answered (gone_reply resp.status _ v gone)

  -- a reply of 404 is remembered
  forgotten :
      (w : Site d) {resp : Upstream.Response}
      → (asked d client r spec p w.net).0 ≡ ok resp
      → resp.status ≡ 404
      → ((live_metadata d client {D = D} r ns spec p w).0 ≡ err not_found_reply)
        × ((live_metadata d client {D = D} r ns spec p w).1.negative
            ≡ Negative.mark w.world.now ns format_maven (metadata_neg_key p) w.negative)
  unfolding live_metadata at_net ◌>>=◌
  forgotten w {resp} answered gone = elim (Bool-cases (is_head r.method)) [
    | inl heads ↦ rw heads (
      ap (λ o. o.0) (headed _ _ (rw heads at answered) gone),
      ap (λ o. o.1.negative) (headed _ _ (rw heads at answered) gone),
    )
    | inr gets ↦ rw gets (
      ap (λ o. o.0) (got _ _ (rw gets at answered) gone),
      ap (λ o. o.1.negative) (got _ _ (rw gets at answered) gone),
    )
  ]

  -- the reply to a request whose document is not remembered, and what is remembered after it
  marked :
      (w : Site d) {resp : Upstream.Response}
      → (Negative.has w.world.now ns format_maven (metadata_neg_key p) w.negative).0 ≡ false
      → (asked d client r spec p w.net).0 ≡ ok resp
      → resp.status ≡ 404
      → ((serve_metadata d client {D = D} r ns spec p w).0 ≡ err not_found_reply)
        × ((serve_metadata d client {D = D} r ns spec p w).1.negative
            ≡ Negative.mark w.world.now ns format_maven
                (metadata_neg_key p)
                (Negative.has w.world.now ns format_maven (metadata_neg_key p) w.negative).1)
  unfolding serve_metadata is_marked ◌>>=◌
  marked w fresh answered gone = rw fresh (forgotten _ answered gone)

ltb_of_lt : (a b : ℕ) → a < b → ltb a b ≡ true
ltb_of_lt a b h = ground arith

module _ (d : Deployment) (client : Client) (D : Type 0) (ns : Bytes) where
  -- A metadata document for which the upstream answered 404 is answered 404, and until the TTL has
  -- passed so is every metadata request for the same group and artifact, whatever its file, version,
  -- checksum or method, without a request to the upstream.
  pub serve_metadata_shadows :
      (r r' : Request) (spec spec' : Spec) (p q : RequestPath) (w v : Site d)
      {resp : Upstream.Response}
      → q.group_id ≡ p.group_id
      → q.artifact_id ≡ p.artifact_id
      → (Negative.has w.world.now ns format_maven (metadata_neg_key p) w.negative).0 ≡ false
      → (asked d client r spec p w.net).0 ≡ ok resp
      → resp.status ≡ 404
      → v.negative ≡ (serve_metadata d client {D = D} r ns spec p w).1.negative
      → v.world.now < w.world.now + w.negative.ttl
      → ((serve_metadata d client {D = D} r ns spec p w).0 ≡ err not_found_reply)
        × ((serve_metadata d client {D = D} r' ns spec' q v).0 ≡ err not_found_reply)
        × ((serve_metadata d client {D = D} r' ns spec' q v).1.net ≡ v.net)
  serve_metadata_shadows r r' spec spec' p q w v group artifact fresh answered gone same soon =
      let key = metadata_neg_key p in
      let (refused, kept) = marked d client {D = D} r ns spec p w fresh answered gone in
      let cache = (Negative.has w.world.now ns format_maven key w.negative).1 in
      let known : (Negative.has v.world.now ns format_maven (metadata_neg_key q) v.negative).0
          ≡ true =
        rw (same_key p q group artifact, same, kept)
          (has-mark w.world.now v.world.now ns format_maven key cache
            ∙ ap (λ t. ltb v.world.now (w.world.now + t))
                (has-ttl w.world.now ns format_maven key w.negative)
            ∙ ltb_of_lt _ _ soon) in
      let (again, quiet) = remembered d client {D = D} r' ns spec' q v known in
      (refused, again, quiet)
