-- ===== src/Tests/ProxyTests.antt =====
-- Runs of the proxies: an upstream that gives one answer to every request, and filters by whole names.
use open_artifact.Shared.{
  ℕ, ◌+◌, ◌<◌, ◌≤◌, ◌≡◌, ◌≢◌, refl, sym, subst, ◌∙◌, ◌↔◌, ◌++◌, arith, Bool, true, false, Option,
  none, some, List, [], ◌∷◌, Bytes, codes, bytes_eq, length, join, All, oversized, Error, Result,
  ok, err, ok_injective, inl, inr, ◌⊎◌,
}
use open_artifact.Core.{format_maven, format_debian}
use open_artifact.Store.Calls.{Store}
use open_artifact.Store.Files.Whole.{IsWhole}
use open_artifact.Proxy.Filter
use open_artifact.Proxy.Filter.{CompiledFilter}
use open_artifact.Proxy.Negative
use open_artifact.Proxy.Upstream
use open_artifact.Proxy.Upstream.{Answer, Client, Transport, StreamResponse, get_verb}
use open_artifact.Proxy.Upstream.Bounds.{get_capped}
use open_artifact.Namespace.{Spec}
use open_artifact.Surface.Site.{Deployment, Site}
use open_artifact.Surface.Http.{Request, Response, Method, get}
use open_artifact.Surface.Http.Relay.{relayed}
use open_artifact.Surface.PullThrough.{upstream_base}
use open_artifact.Surface.PullThrough.Frame.{not_found_reply}
use open_artifact.Surface.PullThrough.Teeing.{Sends}
use open_artifact.Surface.Maven.Codec.{
  RequestPath, artifact, artifact_metadata, parse_path, unescape_segments,
}
use open_artifact.Surface.Maven.Codec.Segments.{IsSafe}
use open_artifact.Surface.Maven.Upstream.{Formats, metadata_neg_key, upstream_url}
use open_artifact.Escape.{unescape}
use open_artifact.Namespace.Validate.{validate_name}
use open_artifact.Surface.Maven.Upstream.Paths.{upstream_url-parse_path}
use open_artifact.Surface.Maven.Live.{serve_metadata}
use open_artifact.Surface.Maven.Live.Shadowed.{serve_metadata_shadows}
use open_artifact.Surface.Maven
use open_artifact.Surface.Maven.{Config}
use open_artifact.Surface.Maven.Downloads.{download_passthrough}
use open_artifact.Surface.Maven.Gate.Denials.{IsDenied}
use open_artifact.Surface.Maven.Proxy.{local, stream_and_cache, serve_artifact}
use open_artifact.Surface.Maven.Proxy.Denied.{serve_artifact_denied}
use open_artifact.Surface.Maven.Proxy.Fills.{stream_and_cache_atomic}
use open_artifact.Tests.Memory.{memory-IsLawful}
use open_artifact.Tests.Fixtures.{platform, empty_world}
use open_artifact.Tests.SurfaceTests.{deployment, digits, headers}

abbrev pub answer_of : ℕ → Bytes → Answer
answer_of status bytes = record {
  status = status;
  field = λ h. [];
  content_length = none;
  body = record { content = bytes; broken = none };
}

-- The upstream, which keeps the URLs that it was asked for.
abbrev pub answering : ℕ → Bytes → Transport
answering status bytes = record {
  Net = List Bytes;
  send = λ verb url sent. (some (answer_of status bytes), url ∷ sent);
}

abbrev pub proxied : ℕ → Bytes → Deployment
proxied status bytes = record deployment {
  transport = answering status bytes;
  checks = record deployment.checks { path_match = λ pat s. some (bytes_eq pat s) };
}

abbrev pub site : (status : ℕ) (bytes : Bytes) → Site (proxied status bytes)
site status bytes = record {
  world = empty_world;
  policies = record { entries = []; ttl = 10 };
  negative = record { entries = []; ttl = 30 };
  net = [];
}

abbrev small_client : Client
small_client = record { max_body_bytes = 4 }

get_capped_example :
    (((Upstream.get (answering 200 (codes "hello")) small_client (codes "u") []).0 ≡ err oversized)
      ↔ (4 < length (codes "hello")))
    × (((length (codes "hello") ≤ 4) × (◌≡◌ {A = Option Error} none none)) ↔ (
        (resp : Upstream.Response) × ((Upstream.get
            (answering 200 (codes "hello"))
            small_client
            (codes "u")
            []).0
          ≡ ok resp)))
    × ((resp : Upstream.Response)
        → (Upstream.get (answering 200 (codes "hello")) small_client (codes "u") []).0 ≡ ok resp
        → (resp.status ≡ 200) × (resp.body ≡ codes "hello") × (◌≡◌ {A = Option Error} none none))
get_capped_example = get_capped (answering 200 (codes "hello")) small_client (codes "u") [] refl

abbrev pub download : Request
download = record {
  method = get;
  subject = none;
  headers = headers;
  body = record { content = []; broken = none };
  hangs_up = none;
}

abbrev pub mirror : List Filter.Spec → Spec
mirror filters = record {
  schema_version = 1;
  mode = codes "proxy";
  policy = record { readers = []; writers = [] };
  proxy = record { upstream = codes "https://up/"; filters = filters };
  format = [];
}

-- The metadata of an artifact, and a checksum of it.
abbrev metadata : RequestPath
metadata = record {
  namespace = codes "acme";
  kind = artifact_metadata;
  group_path = codes "com" ∷ [];
  group_id = codes "com";
  artifact_id = codes "lib";
  pkg = codes "com/lib";
  version = [];
  file = codes "maven-metadata.xml";
  checksum = none;
  target_file = [];
}

abbrev metadata_checksum : RequestPath
metadata_checksum = record metadata {
  file = codes "maven-metadata.xml.sha512";
  checksum = some open_artifact.Core.sha512;
  target_file = codes "maven-metadata.xml";
}

abbrev client : Client
client = record { max_body_bytes = 100 }

abbrev without_checksum : Site (proxied 404 [])
without_checksum =
    (serve_metadata (proxied 404 []) client {D = Unit {0}} download (codes "acme") (mirror [])
      metadata_checksum (site 404 [])).1

abbrev soon : Site (proxied 404 [])
soon = record (site 404 []) { negative = without_checksum.negative }

unmarked :
    (Negative.has 5
      (codes "acme")
      format_maven
      (metadata_neg_key metadata_checksum)
      (site 404 []).negative).0
    ≡ false
unfolding Negative.has Negative.cache_key metadata_neg_key open_artifact.Shared.Maps.get
unmarked = refl

abbrev missing_document : Upstream.Response
missing_document = record {
  status = 404;
  body = [];
  content_type = [];
  etag = [];
  last_modified = [];
  cache_control = [];
  field = λ h. [];
}

answered :
    (Upstream.get (answering 404 []) client (upstream_url (mirror []) metadata_checksum) []).0
    ≡ ok missing_document
unfolding Upstream.get Upstream.request open_artifact.Store.Io.◌>>=◌ Upstream.read_capped
    Upstream.new_response
answered = refl

serve_metadata_shadows_example :
    ((serve_metadata
        (proxied 404 [])
        client
        {D = Unit {0}}
        download
        (codes "acme")
        (mirror [])
        metadata_checksum
        (site 404 [])).0
      ≡ err not_found_reply)
    × ((serve_metadata
          (proxied 404 [])
          client
          {D = Unit {0}}
          download
          (codes "acme")
          (mirror [])
          metadata
          soon).0
        ≡ err not_found_reply)
    × ((serve_metadata
          (proxied 404 [])
          client
          {D = Unit {0}}
          download
          (codes "acme")
          (mirror [])
          metadata
          soon).1.net
        ≡ [])
unfolding open_artifact.Surface.Http.is_head
serve_metadata_shadows_example =
    serve_metadata_shadows (proxied 404 []) client (Unit {0}) (codes "acme") download download
      (mirror []) (mirror []) metadata_checksum metadata (site 404 []) soon refl refl unmarked
      answered refl refl (omega arith)

abbrev jar_path : Bytes
jar_path = codes "/acme/maven2/com/lib/1.0/a.jar"

abbrev jar : RequestPath
jar = record {
  namespace = codes "acme";
  kind = artifact;
  group_path = codes "com" ∷ [];
  group_id = codes "com";
  artifact_id = codes "lib";
  pkg = codes "com/lib";
  version = codes "1.0";
  file = codes "a.jar";
  checksum = none;
  target_file = [];
}

jar_parsed : parse_path jar_path ≡ ok jar
unfolding parse_path open_artifact.Shared.has_prefix open_artifact.Surface.Maven.Codec.parse_parts
    open_artifact.Shared.split open_artifact.Shared.trim_prefix open_artifact.Shared.◌>>=◌
    open_artifact.Escape.unescape open_artifact.Escape.push
    open_artifact.Namespace.Validate.validate_name open_artifact.Namespace.Validate.are_name_bytes
    open_artifact.Namespace.Validate.has_outer_dash open_artifact.Namespace.Validate.is_one_of
    unescape_segments open_artifact.Surface.Maven.Codec.first_invalid
    open_artifact.Surface.Maven.Codec.coordinate open_artifact.Surface.Maven.Codec.checksum_target
    open_artifact.Surface.Maven.Codec.are_segment_bytes
    open_artifact.Surface.Maven.Codec.build_coordinate_path
    open_artifact.Surface.Maven.Codec.is_snapshot_version
    open_artifact.Surface.Maven.Codec.unescape_segment
    open_artifact.Surface.Maven.Codec.validate_segment open_artifact.Shared.unsnoc join
    open_artifact.Shared.bytes_eq open_artifact.Shared.has_suffix open_artifact.Shared.trim_suffix
jar_parsed = refl

abbrev metadata_path : Bytes
metadata_path = codes "/acme/maven2/com/lib/maven-metadata.xml"

metadata_parsed : parse_path metadata_path ≡ ok metadata
unfolding parse_path open_artifact.Shared.has_prefix open_artifact.Surface.Maven.Codec.parse_parts
    open_artifact.Shared.split open_artifact.Shared.trim_prefix open_artifact.Shared.◌>>=◌
    open_artifact.Escape.unescape open_artifact.Escape.push
    open_artifact.Namespace.Validate.validate_name open_artifact.Namespace.Validate.are_name_bytes
    open_artifact.Namespace.Validate.has_outer_dash open_artifact.Namespace.Validate.is_one_of
    unescape_segments open_artifact.Surface.Maven.Codec.first_invalid
    open_artifact.Surface.Maven.Codec.coordinate open_artifact.Surface.Maven.Codec.checksum_target
    open_artifact.Surface.Maven.Codec.are_segment_bytes
    open_artifact.Surface.Maven.Codec.build_coordinate_path
    open_artifact.Surface.Maven.Codec.is_snapshot_version
    open_artifact.Surface.Maven.Codec.unescape_segment
    open_artifact.Surface.Maven.Codec.validate_segment open_artifact.Shared.unsnoc join
    open_artifact.Shared.bytes_eq open_artifact.Shared.has_suffix open_artifact.Shared.trim_suffix
metadata_parsed = refl

abbrev maven_config : Config
maven_config = record {
  max_upload_bytes = 0;
  allow_overwrite = false;
  proxy_metadata_max_bytes = 0;
  proxy_negative_cache_ttl = 30;
}

download_passthrough_example :
    platform.bucket.content
      (Maven.download
        (proxied 200 (codes "<m/>"))
        maven_config
        (λ alg b. b)
        digits
        digits
        {D = Unit {0}}
        (λ b. none)
        (λ b. none)
        metadata_path
        download
        (site 200 (codes "<m/>"))).1.world.disk
      (codes "k")
    ≡ none
unfolding open_artifact.Shared.Maps.get
download_passthrough_example =
    download_passthrough (proxied 200 (codes "<m/>")) memory-IsLawful maven_config (λ alg b. b)
      digits digits (Unit {0}) (λ b. none) (λ b. none) metadata_path download
      (site 200 (codes "<m/>")) metadata_parsed (inl refl) (codes "k")

upstream_url-parse_path_example :
    (raw_ns : Bytes) × (raw_root : Bytes) × (raws : List Bytes) × (segments : List Bytes)
    × (jar_path ≡ b'/' ∷ join b'/' (raw_ns ∷ raw_root ∷ raws))
    × (unescape false raw_ns ≡ some (codes "acme"))
    × (validate_name (codes "acme") ≡ none)
    × (unescape false raw_root ≡ some (codes "maven2"))
    × (unescape_segments raws ≡ ok segments)
    × All IsSafe segments
    × (upstream_url (mirror []) jar ≡ upstream_base (mirror []) ++ codes "/" ++ join b'/' segments)
upstream_url-parse_path_example =
    upstream_url-parse_path jar_path (mirror []) jar_parsed (λ e. absurd (cc))

abbrev pub formats : Formats
formats = record {
  digest = λ alg b. b;
  stamp = digits;
  decimal = digits;
  last_updated_text = λ b. none;
  parse_time = λ b. none;
}

abbrev deny_library : Filter.Spec
deny_library = record {
  kind = codes "deny";
  patterns = codes "com:lib" ∷ [];
  rules = [];
  min_age = [];
}

abbrev denying : CompiledFilter
denying = record { kind = codes "deny"; patterns = codes "com:lib" ∷ []; rules = []; min_age = 0 }

abbrev pub proxy_store : Store
proxy_store = record { scope = codes "acme/maven"; guard = none }

compiled :
    open_artifact.Surface.PullThrough.compiled_filters (proxied 200 []) (mirror (deny_library ∷ []))
    ≡ ok (denying ∷ [])
unfolding open_artifact.Surface.PullThrough.compiled_filters Filter.compile
    open_artifact.Shared.◌>>=◌
compiled = refl

library-IsDenied : IsDenied (proxied 200 []) client formats (mirror (deny_library ∷ [])) jar 5
unfolding open_artifact.Surface.PullThrough.decided Filter.decide_at bytes_eq
library-IsDenied = (
  λ e. absurd (cc),
  λ chain h.
      subst
        (λ (chain : List CompiledFilter).
          open_artifact.Surface.PullThrough.decided (proxied 200 []) chain
            (open_artifact.Surface.Maven.Gate.ref_of (proxied 200 []) client formats jar none) 5
          ≡ Filter.deny)
        (ok_injective (sym compiled ∙ h)) refl,
)

pub get_is_no_head : open_artifact.Surface.Http.is_head get ≡ false
unfolding open_artifact.Surface.Http.is_head
get_is_no_head = refl

serve_artifact_denied_example :
    let (result, w') =
      serve_artifact
        (proxied 200 [])
        client
        formats
        {D = Unit {0}}
        download
        (codes "acme")
        (mirror (deny_library ∷ []))
        proxy_store
        jar
        (site 200 []) in
    (w'.net ≡ [])
    × ((k : Bytes)
        → platform.bucket.content w'.world.disk k ≡ platform.bucket.content empty_world.disk k)
    × ((resp : Response (Unit {0}))
        → result ≡ ok resp
        → platform.bucket.content empty_world.disk (local proxy_store jar (codes "a.jar")).blob_key
          ≢ none)
serve_artifact_denied_example =
    serve_artifact_denied (proxied 200 []) client formats (Unit {0}) download (codes "acme")
      (mirror (deny_library ∷ [])) proxy_store jar memory-IsLawful get_is_no_head refl (site 200 [])
      library-IsDenied

abbrev jar_stream : StreamResponse
jar_stream = record {
  status = 200;
  body = record { content = codes "jar"; broken = none };
  content_type = [];
  content_length = none;
  field = λ h. [];
}

stream_and_cache_atomic_example :
    let sent = relayed none jar_stream.body in
    let (result, w') =
      stream_and_cache
        (proxied 200 [])
        client
        formats
        {D = Unit {0}}
        download
        (codes "acme")
        (mirror [])
        proxy_store
        jar
        (codes "u")
        jar_stream
        (site 200 []) in
    let k = (local proxy_store jar (codes "a.jar")).blob_key in
    ((resp : Response (Unit {0})) × (result ≡ ok resp) × Sends sent.content resp)
    × IsWhole platform k (platform.bucket.content empty_world.disk k) sent.content w'.world
    × ((e : Error)
        → sent.broken ≡ some e
        → (j : Bytes)
        → platform.bucket.content w'.world.disk j ≡ platform.bucket.content empty_world.disk j)
stream_and_cache_atomic_example =
    stream_and_cache_atomic (proxied 200 []) client formats proxy_store jar memory-IsLawful
      (Unit {0}) download (codes "acme") (mirror []) (codes "u") jar_stream (site 200 [])
