-- ===== src/Surface/Debian.antt =====
-- pkg/surface/debian/codec.go: the request paths of the Debian surface.
pub mod Locations
pub mod Proxy
pub mod Pool
pub mod Handler
use open_artifact.Shared.{
  Bool, true, false, not, ◌||◌, Option, none, some, List, [], ◌∷◌, ◌++◌, Bytes, codes, is_empty,
  bytes_eq, has_prefix, has_suffix, trim_prefix, trim_suffix, cut, split, join, unsnoc,
  if◌then◌else◌, Error, invalid_name, not_found, Result, ok, err, ◌>>=◌, ◌>>◌,
}
use open_artifact.Namespace.Validate.{validate_name, refuse_if, pass}
use open_artifact.Escape.{unescape}

-- pathKind
pub data PathKind : Type 0 where
  index pool : PathKind

-- requestPath
pub record RequestPath : Type 0 where
  pub namespace : Bytes
  pub kind : PathKind
  pub rest_raw : Bytes
  pub file : Bytes
  pub pkg_name : Bytes
  pub version : Bytes

abbrev pub source_archive_suffixes : List Bytes
source_archive_suffixes =
    codes ".orig.tar.gz"
    ∷ codes ".orig.tar.xz"
    ∷ codes ".orig.tar.bz2"
    ∷ codes ".orig.tar.zst"
    ∷ codes ".debian.tar.gz"
    ∷ codes ".debian.tar.xz"
    ∷ codes ".debian.tar.bz2"
    ∷ codes ".debian.tar.zst"
    ∷ codes ".tar.gz"
    ∷ codes ".tar.xz"
    ∷ codes ".tar.bz2"
    ∷ codes ".tar.zst"
    ∷ codes ".diff.gz"
    ∷ codes ".dsc"
    ∷ codes ".changes"
    ∷ codes ".buildinfo"
    ∷ []

-- unescapeSegment: url.PathUnescape
unfoldable pub unescape_segment : Bytes → Result Bytes
unescape_segment seg = elim (unescape false seg) [ none ↦ err invalid_name | some s ↦ ok s ]

-- strings.Contains of a single byte
contains_slash : Bytes → Bool
contains_slash seg = elim (cut b'/' seg) [ none ↦ false | some parts ↦ true ]

-- validateSegment
unfoldable pub validate_segment : Bytes → Option Error
unfolding contains_slash
validate_segment seg =
    if is_empty seg
    then some invalid_name
    else if bytes_eq seg (codes ".") || bytes_eq seg (codes "..")
    then some invalid_name
    else if has_prefix (codes ".") seg
    then some invalid_name
    else if contains_slash seg
    then some invalid_name
    else none

-- the loop over the segments, each unescaped and then checked
unfoldable pub decode_segments : List Bytes → Result (List Bytes)
unfolding unescape_segment validate_segment
decode_segments [] = ok []
decode_segments (seg ∷ segs) =
    let rest = decode_segments segs in
    do
      decoded ← unescape_segment seg
      pass (validate_segment decoded)
      out ← rest
      ok (decoded ∷ out)

-- the version of a .deb or .udeb file, behind its package name
deb_version : Bytes → Option (Bytes × Bytes) → Bytes
deb_version rest (some (c ∷ version, arch)) = c ∷ version
deb_version rest (some ([], arch)) = trim_suffix (codes ".deb") (trim_suffix (codes ".udeb") rest)
deb_version rest none = trim_suffix (codes ".deb") (trim_suffix (codes ".udeb") rest)

strip_archive : List Bytes → Bytes → Bytes
strip_archive [] rest = rest
strip_archive (suffix ∷ suffixes) rest =
    let more = strip_archive suffixes rest in
    if has_suffix suffix rest then trim_suffix suffix rest else more

is_deb : Bytes → Bool
is_deb file = has_suffix (codes ".deb") file || has_suffix (codes ".udeb") file

pool_version : Bytes → Bytes → Bytes
unfolding deb_version strip_archive is_deb
pool_version file rest =
    if is_deb file
    then deb_version rest (cut b'_' rest)
    else strip_archive source_archive_suffixes rest

pool_parts : Bytes → Option (Bytes × Bytes) → Bytes × Bytes
unfolding pool_version
pool_parts file (some (c ∷ pkg, rest)) = (c ∷ pkg, pool_version file rest)
pool_parts file (some ([], rest)) = (file, [])
pool_parts file none = (file, [])

-- parsePoolFile
unfoldable pub parse_pool_file : Bytes → Bytes × Bytes
unfolding pool_parts
parse_pool_file file = pool_parts file (cut b'_' file)

-- a version, or the file name in place of an empty one
version_or_file : Bytes → Bytes → Bytes
version_or_file [] file = file
version_or_file (c ∷ version) file = c ∷ version

pool_path : Bytes → Bytes → Bytes → RequestPath
unfolding version_or_file
pool_path ns rest_raw file = record {
  namespace = ns;
  kind = pool;
  rest_raw = rest_raw;
  file = file;
  pkg_name = (parse_pool_file file).0;
  version = version_or_file (parse_pool_file file).1 file;
}

index_path : Bytes → Bytes → RequestPath
index_path ns rest_raw = record {
  namespace = ns;
  kind = index;
  rest_raw = rest_raw;
  file = [];
  pkg_name = [];
  version = [];
}

-- the switch over the first segment
classify : Bytes → Bytes → List Bytes → Result RequestPath
unfolding pool_path index_path
classify ns rest_raw [] = err not_found
classify ns rest_raw (first ∷ more) =
    if bytes_eq first (codes "pool")
    then (elim (unsnoc more) [
      | none ↦ err invalid_name
      | some (dirs, file) ↦ ok (pool_path ns rest_raw file)
    ])
    else if bytes_eq first (codes "dists")
    then ok (index_path ns rest_raw)
    else err not_found

-- the parts of the path behind its leading slash
parse_parts : List Bytes → Result RequestPath
unfolding classify
parse_parts (raw_ns ∷ raw_root ∷ raw ∷ raws) = do
  ns ← unescape_segment raw_ns
  pass (validate_name ns)
  root ← unescape_segment raw_root
  refuse_if (not (bytes_eq root (codes "debian"))) invalid_name
  decoded ← decode_segments (raw ∷ raws)
  classify ns (join b'/' (raw ∷ raws)) decoded
parse_parts raw = err invalid_name

-- parsePath
unfoldable pub parse_path : Bytes → Result RequestPath
unfolding parse_parts
parse_path escaped =
    if not (has_prefix (codes "/") escaped)
    then err invalid_name
    else parse_parts (split b'/' (trim_prefix (codes "/") escaped))

-- indexContentType
unfoldable pub index_content_type : Bytes → Bytes
index_content_type rest_path =
    if has_suffix (codes ".gz") rest_path
    then codes "application/gzip"
    else if has_suffix (codes ".xz") rest_path
    then codes "application/x-xz"
    else if has_suffix (codes ".bz2") rest_path
    then codes "application/x-bzip2"
    else if has_suffix (codes ".zst") rest_path
    then codes "application/zstd"
    else if has_suffix (codes ".gpg") rest_path
    then codes "application/pgp-signature"
    else codes "text/plain; charset=utf-8"

-- poolContentType
unfoldable pub pool_content_type : Bytes → Bytes
unfolding is_deb
pool_content_type file =
    if is_deb file
    then codes "application/vnd.debian.binary-package"
    else codes "application/octet-stream"

-- indexNegKey and indexCacheKey
unfoldable pub index_key : RequestPath → Bytes
index_key p = codes "debian:index:" ++ p.rest_raw

-- poolNegKey
unfoldable pub pool_neg_key : RequestPath → Bytes
pool_neg_key p = codes "debian:pool:" ++ p.pkg_name ++ codes ":" ++ p.version ++ codes ":" ++ p.file
