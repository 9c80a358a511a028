-- ===== src/Surface/Generic/Codec.antt =====
-- pkg/surface/generic/codec.go: the documents of the responses, content types, checksum headers.
use open_artifact.Shared.{
  ℕ, Option, none, some, List, [], ◌∷◌, ◌++◌, Bytes, codes, is_empty, trim_space, ◌==◌,
  if◌then◌else◌, rejected, Result, ok, err,
}
use open_artifact.Shared.Maps
use open_artifact.Shared.Maps.{Dict}
use open_artifact.Core.{Json, text, Meta, Hash, sha256, sha1, sha512, ExpectedDigest}
use open_artifact.Escape.{unhex, join_hex}

abbrev pub ann_content_type : Bytes
ann_content_type = codes "generic:content_type"

-- codec.go: the documents of the responses. An absent time is none.
pub record PackageList : Type 0 where
  pub namespace : Bytes
  pub packages : List Bytes

pub record PackageResponse : Type 0 where
  pub name : Bytes
  pub created_at : Option ℕ
  pub updated_at : Option ℕ
  pub annotations : Dict Json
  pub versions : List Bytes

pub record VersionList : Type 0 where
  pub namespace : Bytes
  pub pkg : Bytes
  pub versions : List Bytes

pub record VersionResponse : Type 0 where
  pub pkg : Bytes
  pub version : Bytes
  pub created_at : Option ℕ
  pub updated_at : Option ℕ
  pub annotations : Dict Json
  pub files : List Bytes

pub record FileResponse : Type 0 where
  pub name : Bytes
  pub size : ℕ
  pub digest : Bytes
  pub content_type : Bytes
  pub created_at : Option ℕ

pub record FileList : Type 0 where
  pub namespace : Bytes
  pub pkg : Bytes
  pub version : Bytes
  pub files : List FileResponse

pub record UploadResponse : Type 0 where
  pub pkg : Bytes
  pub version : Bytes
  pub name : Bytes
  pub size : ℕ
  pub digest : Bytes

-- timePtr
abbrev pub time_ptr : ℕ → Option ℕ
time_ptr t = if t == 0 then none else some t

unfoldable pub annotated_text : Option Json → Bytes
annotated_text (some (text t)) = t
annotated_text o = []

-- contentTypeFromMeta
unfoldable pub content_type_from_meta : Meta → Bytes
unfolding annotated_text
content_type_from_meta m = annotated_text (Maps.get m.annotations ann_content_type)

-- fileToResponse
unfoldable pub file_to_response : Bytes → Meta → FileResponse
unfolding content_type_from_meta
file_to_response name m = record {
  name = name;
  size = m.size;
  digest = m.digest;
  content_type = content_type_from_meta m;
  created_at = time_ptr m.created_at;
}

-- the first of two texts that is not empty
abbrev pub or_text : Bytes → Bytes → Bytes
or_text [] t = t
or_text (c ∷ s) t = c ∷ s

-- downloadContentType; the first argument is mime.TypeByExtension of path.Ext
unfoldable pub download_content_type : (Bytes → Bytes) → Bytes → Meta → Bytes
unfolding content_type_from_meta
download_content_type type_of name m =
    or_text (content_type_from_meta m) (or_text (type_of name) (codes "application/octet-stream"))

-- hex.DecodeString
unfoldable pub hex_decode : Bytes → Option Bytes
unfolding unhex join_hex
hex_decode [] = some []
hex_decode (h ∷ []) = none
hex_decode (h ∷ l ∷ s) = join_hex (unhex h) (unhex l) (hex_decode s)

abbrev pub checksum_headers : List (Bytes × Hash)
checksum_headers =
    (codes "X-Checksum-Sha256", sha256)
    ∷ (codes "X-Checksum-Sha1", sha1)
    ∷ (codes "X-Checksum-Sha512", sha512)
    ∷ []

push_digest :
    Bytes → Hash → Option Bytes → Result (List ExpectedDigest) → Result (List ExpectedDigest)
push_digest header hash none rest =
    err (rejected 400 (codes "invalid " ++ header ++ codes " header: want lowercase hex"))
push_digest header hash (some sum) (ok rest) = ok (record { hash = hash; sum = sum } ∷ rest)
push_digest header hash (some sum) (err e) = err e

-- parseChecksumHeaders, of the listed headers; the error is written as a 400 with its text
unfoldable pub parse_checksums :
    List (Bytes × Hash) → (Bytes → Bytes) → Result (List ExpectedDigest)
unfolding hex_decode push_digest
parse_checksums [] headers = ok []
parse_checksums ((header, hash) ∷ more) headers =
    let rest = parse_checksums more headers in
    let v = trim_space (headers header) in
    if is_empty v then rest else push_digest header hash (hex_decode v) rest
