-- ===== src/Surface/Maven/Upstream.antt =====
-- pkg/surface/maven/proxy.go: what a coordinate is called upstream, in the negative cache and in the
-- annotations of its file.
pub mod Paths
use open_artifact.Shared.{
  ℕ, Option, none, some, List, [], ◌∷◌, ◌++◌, Bytes, codes, is_empty, bytes_eq, join, if◌then◌else◌,
}
use open_artifact.Shared.Maps
use open_artifact.Shared.Maps.{Dict}
use open_artifact.Core.{Json, text, Hash}
use open_artifact.Namespace.{Spec}
use open_artifact.Surface.PullThrough.{upstream_base}
use open_artifact.Surface.Maven.Codec.{RequestPath, metadata_file, algorithm_name}

-- What the engine takes from outside: the hash functions, RFC 3339 and FormatInt; the <lastUpdated>
-- of a metadata document (none for XML that is malformed), and time.Parse of its layout.
pub record Formats : Type 0 where
  pub digest : Hash → Bytes → Bytes
  pub stamp : ℕ → Bytes
  pub decimal : ℕ → Bytes
  pub last_updated_text : Bytes → Option Bytes
  pub parse_time : Bytes → Option ℕ

-- proxyContentType
unfoldable pub proxy_content_type : RequestPath → Bytes
proxy_content_type p = elim p.checksum [
  | some alg ↦ codes "text/plain; charset=utf-8"
  | none ↦
      if bytes_eq p.file metadata_file
      then codes "application/xml"
      else codes "application/octet-stream"
]

upstream_annotation : Bytes → Dict Json
upstream_annotation [] = []
upstream_annotation (c ∷ url) = (codes "maven:upstream_url", text (c ∷ url)) ∷ []

-- artifactAnnotations; `fetched` is the time in RFC 3339
unfoldable pub artifact_annotations : RequestPath → Bytes → Bytes → Dict Json
unfolding upstream_annotation
artifact_annotations p fetched upstream =
    (codes "maven:file", text p.file)
    ∷ (codes "maven:group_id", text p.group_id)
    ∷ (codes "maven:artifact_id", text p.artifact_id)
    ∷ (codes "maven:version", text p.version)
    ∷ (codes "maven:uploaded_at", text fetched)
    ∷ upstream_annotation upstream

algorithm_text : Option Hash → Bytes
algorithm_text none = []
algorithm_text (some alg) = algorithm_name alg

-- checksumAnnotations
unfoldable pub checksum_annotations : RequestPath → Bytes → Dict Json
unfolding artifact_annotations algorithm_text
checksum_annotations p fetched =
    Maps.put
      (Maps.put (artifact_annotations p fetched []) (codes "maven:checksum")
        (text (algorithm_text p.checksum)))
      (codes "maven:checksum_target") (text p.target_file)

version_segments : Bytes → List Bytes
version_segments [] = []
version_segments (c ∷ version) = (c ∷ version) ∷ []

-- coordinatePath
unfoldable pub coordinate_path : RequestPath → Bytes
unfolding version_segments
coordinate_path p =
    join b'/' (p.group_path ++ p.artifact_id ∷ (version_segments p.version ++ p.file ∷ []))

-- upstreamURL
unfoldable pub upstream_url : Spec → RequestPath → Bytes
upstream_url spec p = upstream_base spec ++ codes "/" ++ coordinate_path p

-- upstreamMetadataURL
unfoldable pub upstream_metadata_url : Spec → RequestPath → Bytes
upstream_metadata_url spec p =
    upstream_base spec
    ++ codes "/"
    ++ join b'/' (p.group_path ++ p.artifact_id ∷ metadata_file ∷ [])

-- fileNegKey
unfoldable pub file_neg_key : RequestPath → Bytes
file_neg_key p =
    codes "maven:file:"
    ++ p.group_id
    ++ codes ":"
    ++ p.artifact_id
    ++ codes ":"
    ++ p.version
    ++ codes ":"
    ++ p.file

-- metadataNegKey
unfoldable pub metadata_neg_key : RequestPath → Bytes
metadata_neg_key p = codes "maven:metadata:" ++ p.group_id ++ codes ":" ++ p.artifact_id
