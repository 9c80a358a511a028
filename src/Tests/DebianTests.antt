-- ===== src/Tests/DebianTests.antt =====
-- Runs of the Debian request paths.
use open_artifact.Shared.{◌≡◌, refl, [], ◌∷◌, Bytes, codes, Result, ok}
use open_artifact.Surface.Debian.{RequestPath, pool, parse_path}
use open_artifact.Surface.Debian.Locations.{pool_location}

-- Two files of one name, in two directories of the pool.
abbrev main_file : RequestPath
main_file = record {
  namespace = codes "a";
  kind = pool;
  rest_raw = codes "pool/m/h_1_x.deb";
  file = codes "h_1_x.deb";
  pkg_name = codes "h";
  version = codes "1";
}

abbrev free_file : RequestPath
free_file = record main_file { rest_raw = codes "pool/f/h_1_x.deb" }

main_parsed : parse_path (codes "/a/debian/pool/m/h_1_x.deb") ≡ ok main_file
unfolding parse_path open_artifact.Shared.has_prefix open_artifact.Shared.split
    open_artifact.Shared.trim_prefix open_artifact.Shared.◌>>=◌ open_artifact.Escape.unescape
    open_artifact.Escape.push open_artifact.Namespace.Validate.validate_name
    open_artifact.Namespace.Validate.are_name_bytes open_artifact.Namespace.Validate.has_outer_dash
    open_artifact.Namespace.Validate.is_one_of open_artifact.Surface.Debian.decode_segments
    open_artifact.Surface.Debian.unescape_segment open_artifact.Surface.Debian.validate_segment
    open_artifact.Surface.Debian.parse_pool_file open_artifact.Shared.unsnoc
    open_artifact.Shared.join open_artifact.Shared.bytes_eq open_artifact.Shared.has_suffix
    open_artifact.Shared.trim_suffix open_artifact.Shared.cut
main_parsed = refl

free_parsed : parse_path (codes "/a/debian/pool/f/h_1_x.deb") ≡ ok free_file
unfolding parse_path open_artifact.Shared.has_prefix open_artifact.Shared.split
    open_artifact.Shared.trim_prefix open_artifact.Shared.◌>>=◌ open_artifact.Escape.unescape
    open_artifact.Escape.push open_artifact.Namespace.Validate.validate_name
    open_artifact.Namespace.Validate.are_name_bytes open_artifact.Namespace.Validate.has_outer_dash
    open_artifact.Namespace.Validate.is_one_of open_artifact.Surface.Debian.decode_segments
    open_artifact.Surface.Debian.unescape_segment open_artifact.Surface.Debian.validate_segment
    open_artifact.Surface.Debian.parse_pool_file open_artifact.Shared.unsnoc
    open_artifact.Shared.join open_artifact.Shared.bytes_eq open_artifact.Shared.has_suffix
    open_artifact.Shared.trim_suffix open_artifact.Shared.cut
free_parsed = refl

pool_location_example :
    (main_file.pkg_name ≡ free_file.pkg_name) × (main_file.version ≡ free_file.version)
pool_location_example =
    pool_location (codes "/a/debian/pool/m/h_1_x.deb") (codes "/a/debian/pool/f/h_1_x.deb")
      main_parsed free_parsed refl refl refl
