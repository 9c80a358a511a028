-- ===== src/Tests/MavenTests.antt =====
-- Runs of the Maven surface.
use open_artifact.Shared.{
  ℕ, ◌≡◌, refl, true, false, Option, none, some, List, [], ◌∷◌, ◌++◌, Bytes, codes, Result, ok, err,
  join, equal_fold, hex_encode, first_field,
}
use open_artifact.Core.{Hash, md5, format_maven}
use open_artifact.Store.Paths.{file_path}
use open_artifact.Store.Calls.{Store}
use open_artifact.Namespace.Registry.{scope_of}
use open_artifact.Surface.Site.{Site}
use open_artifact.Surface.Http.{Request, Response, put, content}
use open_artifact.Surface.Maven.{Config, upload, file}
use open_artifact.Surface.Maven.Codec.{RequestPath, artifact, parse_path}
use open_artifact.Surface.Maven.Codec.Coordinates.{IsRead, parse_path_ok}
use open_artifact.Surface.Maven.Uploads.{upload_verified}
use open_artifact.Tests.Memory.{memory-IsLawful}
use open_artifact.Tests.Fixtures.{platform}
use open_artifact.Tests.SurfaceTests.{deployment, alice, warm, digits, headers}

abbrev checksum_path : Bytes
checksum_path = codes "/acme/maven2/com/lib/1.0/a.jar.md5"

abbrev checksum_of_jar : RequestPath
checksum_of_jar = record {
  namespace = codes "acme";
  kind = artifact;
  group_path = codes "com" ∷ [];
  group_id = codes "com";
  artifact_id = codes "lib";
  pkg = codes "com/lib";
  version = codes "1.0";
  file = codes "a.jar.md5";
  checksum = some md5;
  target_file = codes "a.jar";
}

checksum_parsed : parse_path checksum_path ≡ ok checksum_of_jar
unfolding parse_path open_artifact.Shared.has_prefix open_artifact.Surface.Maven.Codec.parse_parts
    open_artifact.Shared.split open_artifact.Shared.trim_prefix open_artifact.Shared.◌>>=◌
    open_artifact.Escape.unescape open_artifact.Escape.push
    open_artifact.Namespace.Validate.validate_name open_artifact.Namespace.Validate.are_name_bytes
    open_artifact.Namespace.Validate.has_outer_dash open_artifact.Namespace.Validate.is_one_of
    open_artifact.Surface.Maven.Codec.unescape_segments
    open_artifact.Surface.Maven.Codec.first_invalid open_artifact.Surface.Maven.Codec.coordinate
    open_artifact.Surface.Maven.Codec.checksum_target
    open_artifact.Surface.Maven.Codec.are_segment_bytes
    open_artifact.Surface.Maven.Codec.build_coordinate_path
    open_artifact.Surface.Maven.Codec.is_snapshot_version
    open_artifact.Surface.Maven.Codec.unescape_segment
    open_artifact.Surface.Maven.Codec.validate_segment open_artifact.Shared.unsnoc join
    open_artifact.Shared.bytes_eq open_artifact.Shared.has_suffix open_artifact.Shared.trim_suffix
checksum_parsed = refl

parse_path_ok_example :
    (parts : List Bytes) × (checksum_path ≡ b'/' ∷ join b'/' parts) × IsRead parts checksum_of_jar
parse_path_ok_example = parse_path_ok checksum_path checksum_parsed

abbrev config : Config
config = record {
  max_upload_bytes = 0;
  allow_overwrite = false;
  proxy_metadata_max_bytes = 0;
  proxy_negative_cache_ttl = 0;
}

-- Hashes are the bytes themselves.
abbrev same_bytes : Hash → Bytes → Bytes
same_bytes alg bytes = bytes

-- The warm site, with the jar in its bucket.
abbrev with_jar : Site deployment
with_jar = record warm {
  world = record warm.world {
    disk =
        (
          file_path (scope_of [] (codes "acme") format_maven) (codes "com/lib") (codes "1.0")
              (codes "a.jar"),
          codes "hi",
        )
        ∷ [];
  };
}

abbrev checksum_upload : Request
checksum_upload = record {
  method = put;
  subject = some alice;
  headers = headers;
  body = record { content = codes "6869"; broken = none };
  hangs_up = none;
}

abbrev reply_to_checksum : Result (Response (Unit {0})) × Site deployment
reply_to_checksum =
    upload deployment config same_bytes digits digits checksum_path checksum_upload with_jar

abbrev uploaded_response : Response (Unit {0})
uploaded_response = record {
  status = 201;
  headers = (codes "Content-Type", codes "text/plain; charset=utf-8") ∷ [];
  payload = content (codes "uploaded" ++ 10 ∷ []);
}

checksum_uploaded : reply_to_checksum.0 ≡ ok uploaded_response
unfolding upload open_artifact.Store.Io.◌>>=◌ open_artifact.Surface.Http.or_write
    open_artifact.Surface.Site.open_store open_artifact.Namespace.Registry.authorized_store
    open_artifact.Namespace.Registry.get open_artifact.Namespace.Registry.fresh
    open_artifact.Namespace.Registry.guarded open_artifact.Namespace.Registry.for scope_of
    open_artifact.Namespace.Registry.scoped_store open_artifact.Namespace.Validate.validate_name
    open_artifact.Namespace.Validate.are_name_bytes open_artifact.Namespace.Validate.has_outer_dash
    open_artifact.Namespace.Validate.is_one_of open_artifact.Shared.◌>>=◌
    open_artifact.Shared.Maps.get open_artifact.Shared.Maps.put open_artifact.Namespace.is_proxy
    open_artifact.Surface.Http.with_max_body open_artifact.Surface.Site.at_store
    open_artifact.Namespace.Policies.authorize open_artifact.Namespace.Registry.guard_for
    open_artifact.Store.Files.add_file open_artifact.Store.Files.admit
    open_artifact.Store.Files.write_file open_artifact.Store.Files.verifiers
    open_artifact.Store.Files.verify open_artifact.Store.Files.file_meta
    open_artifact.Store.Files.new_file open_artifact.Store.Files.file_meta_of
    open_artifact.Store.Paths.first_err open_artifact.Store.Paths.validate_name
    open_artifact.Store.Paths.encode_segment file_path open_artifact.Store.Paths.file_meta_path
    open_artifact.Store.Paths.package_meta_path open_artifact.Store.Paths.version_meta_path
    open_artifact.Store.Paths.level_file_path open_artifact.Store.Paths.level_file_meta_path
    open_artifact.Store.Paths.files_prefix open_artifact.Store.Paths.version_prefix
    open_artifact.Store.Paths.package_prefix open_artifact.Store.Paths.scope_prefix
    open_artifact.Store.Calls.authorize open_artifact.Store.Calls.b_exists
    open_artifact.Store.Calls.on_disk open_artifact.Store.Calls.b_new_writer
    open_artifact.Store.Calls.stream_body open_artifact.Store.Calls.close_writer
    open_artifact.Store.Calls.abort_writer open_artifact.Store.Calls.digest_of
    open_artifact.Store.Calls.write_meta open_artifact.Store.Calls.encoded
    open_artifact.Store.Calls.b_write_all open_artifact.Store.Calls.read_meta
    open_artifact.Core.new_create_config open_artifact.Escape.query_escape open_artifact.Shared.trim
    open_artifact.Shared.bytes_eq open_artifact.Store.Packages.add_package
    open_artifact.Store.Packages.add_version open_artifact.Store.Packages.package_of
    open_artifact.Store.Packages.version_of open_artifact.Shared.trim_space
    open_artifact.Escape.escape_byte open_artifact.Escape.is_unreserved
    open_artifact.Store.Files.recompute_meta open_artifact.Store.Calls.attributes
    open_artifact.Store.Memo.get_or_compute open_artifact.Store.Calls.b_read_all
    open_artifact.Shared.hex_encode file open_artifact.Surface.Maven.authorized_store
    open_artifact.Surface.Maven.read_upload_body open_artifact.Surface.Maven.upload_limit
    open_artifact.Surface.Maven.ensure_parents open_artifact.Surface.Maven.add_file
    open_artifact.Surface.Maven.verify_checksum_upload open_artifact.Surface.Maven.allow_overwrite
    parse_path open_artifact.Shared.has_prefix open_artifact.Surface.Maven.Codec.parse_parts
    open_artifact.Shared.split open_artifact.Shared.trim_prefix open_artifact.Escape.unescape
    open_artifact.Escape.push open_artifact.Surface.Maven.Codec.unescape_segments
    open_artifact.Surface.Maven.Codec.first_invalid open_artifact.Surface.Maven.Codec.coordinate
    open_artifact.Surface.Maven.Codec.checksum_target
    open_artifact.Surface.Maven.Codec.are_segment_bytes
    open_artifact.Surface.Maven.Codec.build_coordinate_path
    open_artifact.Surface.Maven.Codec.is_snapshot_version
    open_artifact.Surface.Maven.Codec.unescape_segment
    open_artifact.Surface.Maven.Codec.validate_segment open_artifact.Shared.unsnoc join
    open_artifact.Shared.has_suffix open_artifact.Shared.trim_suffix first_field equal_fold
    open_artifact.Surface.Maven.Codec.verify_checksum open_artifact.Store.Files.file_read
    open_artifact.Store.Files.file_content open_artifact.Store.Calls.b_new_reader
    open_artifact.Surface.Site.with_new_caches open_artifact.Escape.hex_digit
checksum_uploaded = refl

upload_verified_example :
    (s : Store) × (s.scope ≡ scope_of [] (codes "acme") format_maven)
    × ((target : Bytes) × (platform.bucket.content with_jar.world.disk
            (file s checksum_of_jar (codes "a.jar")).blob_key
          ≡ some target)
        × (equal_fold (hex_encode target) (first_field (codes "6869")) ≡ true))
    × (platform.bucket.content reply_to_checksum.1.world.disk
          (file s checksum_of_jar (codes "a.jar.md5")).blob_key
        ≡ some (codes "6869"))
upload_verified_example =
    upload_verified deployment config same_bytes digits digits memory-IsLawful checksum_path
      checksum_upload with_jar checksum_parsed refl checksum_uploaded
