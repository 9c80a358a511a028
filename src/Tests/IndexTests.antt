-- ===== src/Tests/IndexTests.antt =====
-- Runs of the Debian proxy: an index that the upstream has, and a stale one.
use open_artifact.Shared.{
  ◌≡◌, refl, Bool, true, false, Option, none, some, [], ◌∷◌, Bytes, codes, Error, Result, ok, err,
  ◌⊎◌,
}
use open_artifact.Core.{format_debian}
use open_artifact.Store.Files.Whole.{IsWhole}
use open_artifact.Proxy.Negative
use open_artifact.Proxy.Upstream
use open_artifact.Proxy.Upstream.{StreamResponse}
use open_artifact.Surface.Site.{Site}
use open_artifact.Surface.Http.{Response}
use open_artifact.Surface.Http.Relay.{relayed}
use open_artifact.Surface.PullThrough.Teeing.{Sends}
use open_artifact.Surface.Debian.{RequestPath, index, index_key}
use open_artifact.Surface.Debian.Proxy.{upstream_url, cached_index, serve_index}
use open_artifact.Surface.Debian.Proxy.Stale.{IsServed}
use open_artifact.Surface.Debian.Proxy.Indexes.{
  IsUnavailable, serve_index_stale, serve_index_filled,
}
use open_artifact.Tests.Memory.{memory-IsLawful}
use open_artifact.Tests.Fixtures.{platform, empty_world}
use open_artifact.Tests.SurfaceTests.{deployment, digits}
use open_artifact.Tests.ProxyTests.{
  answering, proxied, site, download, mirror, proxy_store, get_is_no_head,
}

abbrev release : RequestPath
release = record {
  namespace = codes "acme";
  kind = index;
  rest_raw = codes "dists/s/Release";
  file = [];
  pkg_name = [];
  version = [];
}

-- A site whose bucket holds a copy of the index, and whose upstream does not answer.
abbrev alone : Site deployment
alone = record {
  world = record empty_world {
    disk = ((cached_index deployment digits digits proxy_store release).blob_key, codes "old") ∷ [];
  };
  policies = record { entries = []; ttl = 10 };
  negative = record { entries = []; ttl = 30 };
  net = [];
}

unmarked :
    (Negative.has 5
      (codes "acme")
      format_debian
      (index_key release)
      (record { entries = []; ttl = 30 })).0
    ≡ false
unfolding Negative.has Negative.cache_key index_key open_artifact.Shared.Maps.get
unmarked = refl

unreachable :
    IsUnavailable (Upstream.stream deployment.transport (upstream_url (mirror []) release) []).0
unfolding Upstream.stream Upstream.request open_artifact.Store.Io.◌>>=◌
unreachable sr h = absurd (cc)

serve_index_stale_example :
    let (result, w') =
      serve_index deployment digits digits {D = Unit {0}} download proxy_store release
        (codes "acme")
        (mirror [])
        alone in
    let copy =
      platform.bucket.content alone.world.disk
        (cached_index deployment digits digits proxy_store release).blob_key in
    ((k : Bytes)
      → platform.bucket.content w'.world.disk k ≡ platform.bucket.content alone.world.disk k)
    × ((resp : Response (Unit {0}))
        → result ≡ ok resp
        → IsServed deployment digits digits memory-IsLawful
            (Unit {0})
            download
            proxy_store
            release
            alone
            resp)
    × (copy ≡ none → (e : Error) × (result ≡ err e))
serve_index_stale_example =
    serve_index_stale deployment digits digits memory-IsLawful (Unit {0}) download proxy_store
      release get_is_no_head (codes "acme") (mirror []) alone unmarked unreachable

abbrev fresh_index : StreamResponse
fresh_index = record {
  status = 200;
  body = record { content = codes "new"; broken = none };
  content_type = [];
  content_length = none;
  field = λ h. [];
}

reached :
    (Upstream.stream (answering 200 (codes "new")) (upstream_url (mirror []) release) []).0
    ≡ ok fresh_index
unfolding Upstream.stream Upstream.request open_artifact.Store.Io.◌>>=◌
reached = refl

status_ok : Upstream.is_ok 200 ≡ true
unfolding Upstream.is_ok
status_ok = refl

serve_index_filled_example :
    let sent = relayed none fresh_index.body in
    let (result, w') =
      serve_index
        (proxied 200 (codes "new"))
        digits
        digits
        {D = Unit {0}}
        download
        proxy_store
        release
        (codes "acme")
        (mirror [])
        (site 200 (codes "new")) in
    let k = (cached_index (proxied 200 (codes "new")) digits digits proxy_store release).blob_key in
    ((resp : Response (Unit {0})) × (result ≡ ok resp) × Sends sent.content resp)
    × IsWhole platform k (platform.bucket.content empty_world.disk k) sent.content w'.world
    × ((e : Error)
        → sent.broken ≡ some e
        → (j : Bytes)
        → platform.bucket.content w'.world.disk j ≡ platform.bucket.content empty_world.disk j)
serve_index_filled_example =
    serve_index_filled (proxied 200 (codes "new")) digits digits memory-IsLawful (Unit {0}) download
      proxy_store release get_is_no_head (codes "acme") (mirror []) (site 200 (codes "new"))
      unmarked reached status_ok
