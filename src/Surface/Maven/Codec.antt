-- ===== src/Surface/Maven/Codec.antt =====
-- pkg/surface/maven/codec.go: the coordinate that a request path names, and checksum files.
pub mod Segments
pub mod Coordinates
use open_artifact.Shared.{
  ℕ, ◌-◌, Bool, true, false, not, ◌&&◌, ◌||◌, Option, none, some, List, [], ◌∷◌, ◌++◌, Bytes, codes,
  is_empty, ltb, leb, ◌==◌, bytes_eq, has_prefix, has_suffix, trim_prefix, trim_suffix, equal_fold,
  hex_encode, split, join, first_field, unsnoc, length, map, if◌then◌else◌, Error, invalid_name,
  digest_mismatch, Result, ok, err, ◌>>=◌, ◌>>◌,
}
use open_artifact.Core.{Hash, md5, sha1, sha256, sha512}
use open_artifact.Escape.{unescape}
use open_artifact.Namespace.Validate.{validate_name, refuse_if, pass}

abbrev pub metadata_file : Bytes
metadata_file = codes "maven-metadata.xml"

abbrev pub archetype_file : Bytes
archetype_file = codes "archetype-catalog.xml"

-- pathKind
pub data PathKind : Type 0 where
  artifact artifact_metadata version_metadata archetype_catalog : PathKind

-- checksumAlgorithm
abbrev pub algorithm_name : Hash → Bytes
algorithm_name md5 = codes "md5"
algorithm_name sha1 = codes "sha1"
algorithm_name sha256 = codes "sha256"
algorithm_name sha512 = codes "sha512"
algorithm_name h = []

-- requestPath; no checksum is none
pub record RequestPath : Type 0 where
  pub namespace : Bytes
  pub kind : PathKind
  pub group_path : List Bytes
  pub group_id : Bytes
  pub artifact_id : Bytes
  pub pkg : Bytes
  pub version : Bytes
  pub file : Bytes
  pub checksum : Option Hash
  pub target_file : Bytes

-- unescapeSegment: url.PathUnescape
unfoldable pub unescape_segment : Bytes → Result Bytes
unescape_segment seg = elim (unescape false seg) [ none ↦ err invalid_name | some s ↦ ok s ]

-- unescapeSegments
unfoldable pub unescape_segments : List Bytes → Result (List Bytes)
unfolding unescape_segment
unescape_segments [] = ok []
unescape_segments (seg ∷ raw) =
    let rest = unescape_segments raw in
    do decoded ← unescape_segment seg; out ← rest; ok (decoded ∷ out)

-- segmentPattern: ^[A-Za-z0-9._-]+$
abbrev pub is_segment_byte : ℕ → Bool
is_segment_byte c =
    leb b'A' c && leb c b'Z'
    || leb b'a' c && leb c b'z'
    || leb b'0' c && leb c b'9'
    || c == b'.'
    || c == b'_'
    || c == b'-'

unfoldable pub are_segment_bytes : Bytes → Bool
are_segment_bytes [] = true
are_segment_bytes (c ∷ s) = is_segment_byte c && are_segment_bytes s

-- validateMavenSegment
unfoldable pub validate_segment : Bytes → Option Error
unfolding are_segment_bytes
validate_segment seg =
    if is_empty seg
    then some invalid_name
    else if bytes_eq seg (codes ".") || bytes_eq seg (codes "..")
    then some invalid_name
    else if has_prefix (codes ".") seg
    then some invalid_name
    else if not (are_segment_bytes seg)
    then some invalid_name
    else none

-- the first error of the loop over the segments
unfoldable pub first_invalid : List Bytes → Option Error
unfolding validate_segment
first_invalid [] = none
first_invalid (seg ∷ segs) =
    let rest = first_invalid segs in elim (validate_segment seg) [ some e ↦ some e | none ↦ rest ]

abbrev pub checksum_suffixes : List (Bytes × Hash)
checksum_suffixes =
    (codes ".md5", md5)
    ∷ (codes ".sha1", sha1)
    ∷ (codes ".sha256", sha256)
    ∷ (codes ".sha512", sha512)
    ∷ []

suffixed : Bytes → List (Bytes × Hash) → Option Hash × Bytes
suffixed filename [] = (none, [])
suffixed filename ((suffix, alg) ∷ more) =
    let rest = suffixed filename more in
    if has_suffix suffix filename then (some alg, trim_suffix suffix filename) else rest

-- checksumTarget; no two of the suffixes fit one name, so their order does not matter
unfoldable pub checksum_target : Bytes → Option Hash × Bytes
unfolding suffixed
checksum_target filename = suffixed filename checksum_suffixes

-- strings.ToUpper on ASCII text
abbrev pub to_upper_byte : ℕ → ℕ
to_upper_byte c = if leb 97 c && leb c 122 then c - 32 else c

-- isSnapshotVersion
unfoldable pub is_snapshot_version : Bytes → Bool
is_snapshot_version version = has_suffix (codes "-SNAPSHOT") (map to_upper_byte version)

-- buildCoordinatePath
unfoldable pub build_coordinate_path :
    Bytes → PathKind → List Bytes → Bytes → Bytes → Bytes → Option Hash → Bytes → Result RequestPath
build_coordinate_path ns kind group artifact_id version file checksum target_file =
    if is_empty group
    then err invalid_name
    else ok (record {
      namespace = ns;
      kind = kind;
      group_path = group;
      group_id = join b'.' group;
      artifact_id = artifact_id;
      pkg = join b'/' (group ++ artifact_id ∷ []);
      version = version;
      file = file;
      checksum = checksum;
      target_file = target_file;
    })

-- The coordinate of `group ++ artifact ∷ version ∷ file ∷ []`, or of `group ++ artifact ∷ file ∷ []`
-- where the version is that of no snapshot and the file is metadata. `before` is all but the last
-- two segments.
with_version : Bytes → Bool → List Bytes → Bytes → Bytes → Option Hash → Bytes → Result RequestPath
unfolding is_snapshot_version
with_version ns metadata before second file checksum target = elim (unsnoc before) [
  | none ↦ err invalid_name
  | some (group, artifact_id) ↦
      if metadata && not (is_empty group) && is_snapshot_version second
      then build_coordinate_path ns version_metadata group artifact_id second file checksum target
      else if metadata
      then build_coordinate_path ns artifact_metadata before second [] file checksum target
      else if is_empty group
      then err invalid_name
      else build_coordinate_path ns artifact group artifact_id second file checksum target
]

-- the coordinate of three segments or more, which end in `second` and `file`
coordinate_path : Bytes → List Bytes → Bytes → Bytes → Result RequestPath
unfolding with_version
coordinate_path ns before second file =
    let (checksum, target) = checksum_target file in
    let metadata = bytes_eq target metadata_file || bytes_eq file metadata_file in
    with_version ns metadata before second file checksum target

abbrev pub archetype_path : Bytes → RequestPath
archetype_path ns = record {
  namespace = ns;
  kind = archetype_catalog;
  group_path = [];
  group_id = [];
  artifact_id = [];
  pkg = [];
  version = [];
  file = archetype_file;
  checksum = none;
  target_file = [];
}

is_archetype : List Bytes → Bool
is_archetype (s ∷ []) = bytes_eq s archetype_file
is_archetype segments = false

-- the coordinate of segments that are valid
unfoldable pub coordinate : Bytes → List Bytes → Result RequestPath
unfolding coordinate_path is_archetype
coordinate ns segments =
    if is_archetype segments then ok (archetype_path ns) else elim (unsnoc segments) [
      | none ↦ err invalid_name
      | some (init, file) ↦ elim (unsnoc init) [
        | none ↦ err invalid_name
        | some (before, second) ↦ coordinate_path ns before second file
      ]
    ]

-- the parts of the path behind its leading slash
unfoldable pub parse_parts : List Bytes → Result RequestPath
unfolding unescape_segment
parse_parts (raw_ns ∷ raw_root ∷ raw ∷ raws) = do
  ns ← unescape_segment raw_ns
  pass (validate_name ns)
  root ← unescape_segment raw_root
  refuse_if (not (bytes_eq root (codes "maven2"))) invalid_name
  segments ← unescape_segments (raw ∷ raws)
  pass (first_invalid segments)
  coordinate ns segments
parse_parts raw = err invalid_name

-- parsePath
unfoldable pub parse_path : Bytes → Result RequestPath
parse_path escaped =
    if not (has_prefix (codes "/") escaped)
    then err invalid_name
    else parse_parts (split b'/' (trim_prefix (codes "/") escaped))

-- verifyChecksum of bytes that were read in full; `hash_sum` is the table of the four algorithms
unfoldable pub verify_checksum : (Hash → Bytes → Bytes) → Hash → Bytes → Bytes → Option Error
verify_checksum hash_sum alg target declared =
    if is_empty (first_field declared)
    then some digest_mismatch
    else if equal_fold (hex_encode (hash_sum alg target)) (first_field declared)
    then none
    else some digest_mismatch
