-- ===== src/Tests/SurfaceTests.antt =====
-- Runs of the surfaces: a namespace that is put, then requests of the generic surface.
use open_artifact.Shared.{
  ℕ, ◌≡◌, ◌≢◌, refl, ap, sym, ◌∙◌, ◌≤◌, Bool, true, false, Option, none, some, List, [], ◌∷◌, Bytes,
  codes, arith, All, Error, Result, ok, err, bytes_eq, length,
}
use open_artifact.Shared.Maps.{Dict}
use open_artifact.Core.{Json, ExpectedDigest, format_generic}
use open_artifact.Auth.{AuthContext}
use open_artifact.Proxy.Negative.{new_cache}
use open_artifact.Store.Bucket.{done}
use open_artifact.Store.Calls.{Body}
use open_artifact.Store.Paths.{
  file_path, file_meta_path, package_meta_path, version_meta_path, level_file_path,
  level_file_meta_path, files_prefix, version_prefix, package_prefix, scope_prefix,
}
use open_artifact.Store.Files.Uploads.{IsDeclared}
use open_artifact.Namespace.{Spec, SubjectMatcher, Policy}
use open_artifact.Namespace.Policies.{Engine, CompiledPolicy, compile_policy}
use open_artifact.Namespace.Catalog.{Namespace, World, ns_meta_path, put, get}
use open_artifact.Admin
use open_artifact.Admin.{
  single, Reply, write_json, Decoded, refused, decoded, Call, get_call, put_call, handler,
}
use open_artifact.Admin.Updates.{IsStatus, put_request-get_request}
use open_artifact.Namespace.Registry.{
  Scoped, absent, present, for, guard_for, scoped_store, scope_of,
}
use open_artifact.Surface.Site.{Deployment, Site, engine, catalog, catalog_platform, open_store}
use open_artifact.Surface.Site.Revocation.{put_namespace, open_store-put}
use open_artifact.Surface.Http.{Request, Response, json, put as method_put}
use open_artifact.Surface.Generic.{Config, upload_file, upload_limit}
use open_artifact.Surface.Generic.Codec.{UploadResponse, checksum_headers, parse_checksums}
use open_artifact.Surface.Generic.Uploads.{upload_file_created}
use open_artifact.Surface.Generic.Routes
use open_artifact.Surface.Generic.Routes.{Route, respond, writes}
use open_artifact.Surface.Generic.Routes.Frame.{respond_frame}
use open_artifact.Tests.Memory.{memory-IsLawful}
use open_artifact.Tests.SpecText.{shared_spec, encode_spec, decode_spec, decodes}
use open_artifact.Tests.Fixtures.{platform, empty_world, greeting, file_name}

-- Expressions are compared as texts; a spec in use here has no URLs, globs or durations.
abbrev pub texts : Engine
texts = record { Regex = Bytes; compile = λ pat. some pat; match_string = λ re s. bytes_eq re s }

abbrev pub deployment : Deployment
deployment = record {
  platform = platform;
  encode_spec = encode_spec;
  decode_spec = decode_spec;
  checks = record {
    engine = texts;
    parse_url = λ s. none;
    path_match = λ pat s. none;
    parse_duration = λ s. none;
  };
  prefix = [];
  transport = record { Net = List Bytes; send = λ verb url sent. (none, url ∷ sent) };
}

abbrev pub alice : AuthContext
alice = record {
  issuer = codes "idp";
  id = codes "alice";
  email = codes "a";
  claims = [];
  kind = codes "oidc";
}

abbrev pub acme : Namespace
acme = record { name = codes "acme"; spec = shared_spec 1 (codes "a") (codes "a") }

-- A site whose policy cache holds an outdated answer: that there is no such namespace.
abbrev before_put : Site deployment
before_put = record {
  world = empty_world;
  policies = record {
    entries = (codes "acme", record { found = absent; expires = 100 }) ∷ [];
    ttl = 10;
  };
  negative = new_cache 0;
  net = [];
}

abbrev after_put : Site deployment
after_put = (put_namespace deployment memory-IsLawful acme before_put).1

acme_put : (put_namespace deployment memory-IsLawful acme before_put).0 ≡ ok acme
unfolding open_artifact.Surface.Site.at_catalog put open_artifact.Store.Io.◌>>=◌
    open_artifact.Namespace.Validate.validate_name open_artifact.Namespace.Validate.are_name_bytes
    open_artifact.Namespace.Validate.has_outer_dash open_artifact.Namespace.Validate.is_one_of
    open_artifact.Namespace.Validate.normalize_for_write open_artifact.Shared.◌>>=◌ compile_policy
acme_put = refl

abbrev acme_generic : Scoped
acme_generic = record { namespace = codes "acme"; format = format_generic }

acme_named : for (codes "acme") format_generic ≡ ok acme_generic
unfolding for open_artifact.Namespace.Validate.validate_name
    open_artifact.Namespace.Validate.are_name_bytes open_artifact.Namespace.Validate.has_outer_dash
acme_named = refl

acme_read :
    (platform.bucket.read_all
      (ns_meta_path (catalog_platform deployment) (catalog deployment) (codes "acme"))
      after_put.world.disk).0
    ≡ done (1 ∷ codes "aa")
unfolding open_artifact.Shared.Maps.get open_artifact.Surface.Site.at_catalog put
    open_artifact.Store.Io.◌>>=◌ open_artifact.Namespace.Validate.validate_name
    open_artifact.Namespace.Validate.are_name_bytes open_artifact.Namespace.Validate.has_outer_dash
    open_artifact.Namespace.Validate.is_one_of open_artifact.Namespace.Validate.normalize_for_write
    open_artifact.Shared.◌>>=◌ compile_policy open_artifact.Shared.Maps.put ns_meta_path catalog
    open_artifact.Shared.trim
acme_read = refl

open_store-put_example :
    (compiled : CompiledPolicy texts) × (compile_policy texts acme.spec.policy ≡ ok compiled)
    × ((open_store deployment (codes "acme") format_generic (some alice) after_put).0
        ≡ ok (
          scoped_store [] acme_generic (some (guard_for texts compiled (some alice))),
          acme.spec,
        ))
open_store-put_example =
    open_store-put deployment memory-IsLawful acme format_generic (some alice) before_put decodes
      acme_put acme_named acme_read

abbrev decoder : Body → Decoded
decoder b = elim (decode_spec b.content) [ none ↦ refused [] | some spec ↦ decoded spec ]

abbrev silent : Error → Bytes
silent e = []

abbrev untouched : World (catalog_platform deployment)
untouched = record { disk = []; client = before_put.policies }

abbrev acme_sent : Call
acme_sent = put_call (codes "acme") (record { content = 1 ∷ codes "aa"; broken = none })

abbrev acme_reply : Reply × World (catalog_platform deployment)
acme_reply =
    handler (catalog_platform deployment) (catalog deployment) silent decoder acme_sent untouched

acme_created : acme_reply.0 ≡ write_json 201 (single acme)
unfolding handler open_artifact.Namespace.Catalog.load Admin.put Admin.put_as Admin.put_probed
    Admin.put_decoded put get open_artifact.Shared.Maps.get open_artifact.Store.Io.◌>>=◌
    open_artifact.Namespace.Validate.validate_name open_artifact.Namespace.Validate.are_name_bytes
    open_artifact.Namespace.Validate.has_outer_dash open_artifact.Namespace.Validate.is_one_of
    open_artifact.Namespace.Validate.normalize_for_write open_artifact.Shared.◌>>=◌ compile_policy
    open_artifact.Shared.Maps.put ns_meta_path catalog open_artifact.Shared.trim
    open_artifact.Surface.Site.at_catalog
acme_created = refl

acme_shown :
    (platform.bucket.read_all
      (ns_meta_path (catalog_platform deployment) (catalog deployment) (codes "acme"))
      acme_reply.1.disk).0
    ≡ done (1 ∷ codes "aa")
unfolding handler open_artifact.Namespace.Catalog.load Admin.put Admin.put_as Admin.put_probed
    Admin.put_decoded put get open_artifact.Shared.Maps.get open_artifact.Store.Io.◌>>=◌
    open_artifact.Namespace.Validate.validate_name open_artifact.Namespace.Validate.are_name_bytes
    open_artifact.Namespace.Validate.has_outer_dash open_artifact.Namespace.Validate.is_one_of
    open_artifact.Namespace.Validate.normalize_for_write open_artifact.Shared.◌>>=◌ compile_policy
    open_artifact.Shared.Maps.put ns_meta_path catalog open_artifact.Shared.trim
    open_artifact.Surface.Site.at_catalog
acme_shown = refl

put_request-get_request_example :
    IsStatus
      (catalog_platform deployment)
      (catalog deployment)
      silent
      decoder
      (codes "acme")
      201
      untouched
    × ((handler
          (catalog_platform deployment)
          (catalog deployment)
          silent
          decoder
          (get_call (codes "acme"))
          (handler
            (catalog_platform deployment)
            (catalog deployment)
            silent
            decoder
            acme_sent
            untouched).1).0
        ≡ write_json 200 (single acme))
    × (acme.name ≡ codes "acme")
put_request-get_request_example =
    put_request-get_request (catalog_platform deployment) (catalog deployment) silent decoder
      memory-IsLawful (codes "acme") (record { content = 1 ∷ codes "aa"; broken = none }) untouched
      decodes acme_created acme_shown

abbrev config : Config
config = record { max_upload_bytes = 0; allow_overwrite = false }

abbrev no_type : Bytes → Bytes
no_type s = []

abbrev pub digits : ℕ → Bytes
digits n = n ∷ []

abbrev pub headers : Bytes → Bytes
headers h = []

abbrev upload : Request
upload = record {
  method = method_put;
  subject = some alice;
  headers = headers;
  body = greeting;
  hangs_up = none;
}

abbrev decode_create : Bytes → Option (Dict Json)
decode_create s = none

abbrev compiled_for_alice : CompiledPolicy texts
compiled_for_alice = record {
  readers =
      record { issuer = []; sub = none; email = codes "a"; claims = []; kind = codes "oidc" } ∷ [];
  writers =
      record { issuer = []; sub = none; email = codes "a"; claims = []; kind = codes "oidc" } ∷ [];
}

-- A site whose policy cache has the policy of the namespace.
abbrev pub warm : Site deployment
warm = record {
  world = empty_world;
  policies = record {
    entries =
        (codes "acme", record { found = present compiled_for_alice acme.spec; expires = 100 }) ∷ [];
    ttl = 10;
  };
  negative = new_cache 0;
  net = [];
}

abbrev reply_to_upload : Result (Response UploadResponse) × Site deployment
reply_to_upload =
    upload_file deployment config decode_create no_type digits upload (codes "acme") (codes "lib")
      (codes "1.0") file_name warm

abbrev created_response : Response UploadResponse
created_response = json 201 (record {
  pkg = codes "lib";
  version = codes "1.0";
  name = file_name;
  size = 2;
  digest = codes "sha256:6869";
})

upload_created : reply_to_upload.0 ≡ ok created_response
unfolding upload_file open_artifact.Store.Io.◌>>=◌ open_artifact.Surface.Generic.store_of
    open_artifact.Surface.Http.or_write open_store open_artifact.Namespace.Registry.authorized_store
    open_artifact.Namespace.Registry.get open_artifact.Namespace.Registry.fresh
    open_artifact.Namespace.Registry.guarded for scope_of scoped_store
    open_artifact.Namespace.Validate.validate_name open_artifact.Namespace.Validate.are_name_bytes
    open_artifact.Namespace.Validate.has_outer_dash open_artifact.Namespace.Validate.is_one_of
    open_artifact.Shared.◌>>=◌ open_artifact.Shared.Maps.get open_artifact.Shared.Maps.put
    open_artifact.Namespace.is_proxy parse_checksums upload_limit
    open_artifact.Surface.Http.with_max_body open_artifact.Surface.Site.at_store
    open_artifact.Namespace.Policies.authorize guard_for open_artifact.Store.Files.add_file
    open_artifact.Store.Files.admit open_artifact.Store.Files.write_file
    open_artifact.Store.Files.verifiers open_artifact.Store.Files.verify
    open_artifact.Store.Files.file_meta open_artifact.Store.Files.new_file
    open_artifact.Store.Files.file_meta_of open_artifact.Store.Paths.first_err
    open_artifact.Store.Paths.validate_name open_artifact.Store.Paths.encode_segment file_path
    file_meta_path package_meta_path version_meta_path level_file_path level_file_meta_path
    files_prefix version_prefix package_prefix scope_prefix open_artifact.Store.Calls.authorize
    open_artifact.Store.Calls.b_exists open_artifact.Store.Calls.on_disk
    open_artifact.Store.Calls.b_new_writer open_artifact.Store.Calls.stream_body
    open_artifact.Store.Calls.close_writer open_artifact.Store.Calls.abort_writer
    open_artifact.Store.Calls.digest_of open_artifact.Store.Calls.write_meta
    open_artifact.Store.Calls.encoded open_artifact.Store.Calls.b_write_all
    open_artifact.Store.Calls.read_meta open_artifact.Core.new_create_config
    open_artifact.Escape.query_escape open_artifact.Shared.trim open_artifact.Shared.bytes_eq
    open_artifact.Store.Packages.add_package open_artifact.Store.Packages.add_version
    open_artifact.Store.Packages.package_of open_artifact.Store.Packages.version_of
    open_artifact.Surface.Site.with_new_caches open_artifact.Shared.trim_space
    open_artifact.Escape.escape_byte open_artifact.Escape.is_unreserved
    open_artifact.Store.Calls.b_new_reader open_artifact.Store.Files.recompute_meta
    open_artifact.Store.Calls.attributes open_artifact.Store.Memo.get_or_compute
    open_artifact.Store.Calls.b_read_all open_artifact.Shared.hex_encode
upload_created = refl

upload_file_created_example :
    (created_response.status ≡ 201)
    × ((expected : List ExpectedDigest) × (parse_checksums checksum_headers headers ≡ ok expected)
        × All (IsDeclared platform greeting.content) expected)
    × (greeting.broken ≡ none)
    × (length greeting.content ≤ upload_limit config)
    × (platform.bucket.content reply_to_upload.1.world.disk (
          file_path
            (scope_of [] (codes "acme") format_generic)
            (codes "lib")
            (codes "1.0")
            file_name)
        ≡ some greeting.content)
upload_file_created_example =
    upload_file_created deployment config decode_create no_type digits memory-IsLawful upload
      (codes "acme") (codes "lib") (codes "1.0") file_name warm upload_created

elsewhere :
    All
      (λ target. target ≢ codes "note")
      (writes [] (Routes.upload_file (codes "acme") (codes "lib") (codes "1.0") file_name))
unfolding writes package_meta_path version_meta_path file_path file_meta_path level_file_path
    level_file_meta_path files_prefix version_prefix package_prefix scope_prefix
elsewhere = (
  (λ e. absurd (ground arith)),
  (
    (λ e. absurd (ground arith)),
    ((λ e. absurd (ground arith)), ((λ e. absurd (ground arith)), tt)),
  ),
)

respond_frame_example :
    platform.bucket.content
      (respond deployment config decode_create no_type digits
        (Routes.upload_file (codes "acme") (codes "lib") (codes "1.0") file_name)
        upload
        warm).1.world.disk
      (codes "note")
    ≡ platform.bucket.content warm.world.disk (codes "note")
respond_frame_example =
    respond_frame deployment memory-IsLawful config decode_create no_type digits
      (Routes.upload_file (codes "acme") (codes "lib") (codes "1.0") file_name) upload warm
      (codes "note") elsewhere
