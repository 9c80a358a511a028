-- ===== src/Surface/Generic.antt =====
-- pkg/surface/generic/handler.go: the REST surface of the generic format.
pub mod Codec
pub mod Opening
pub mod Routes
pub mod Uploads
use open_artifact.Shared.{
  ℕ, ◌*◌, ◌+◌, Bool, true, false, Option, none, some, List, [], ◌∷◌, ◌++◌, map, Bytes, codes,
  is_empty, trim_space, bytes_eq, ◌==◌, if◌then◌else◌, Error, not_found, already_exists, too_large,
  rejected, Result, ok, err,
}
use open_artifact.Shared.Maps
use open_artifact.Shared.Maps.{Dict}
use open_artifact.Core.{
  Json, text, value, Meta, zero_meta, Hash, sha256, sha1, sha512, ExpectedDigest, CreateOption,
  with_annotations, with_expected_digests, with_allow_overwrite, format_generic,
}
use open_artifact.Escape.{unhex, join_hex}
use open_artifact.Store.Io.{Io, pure, raise, lift, ◌>>=◌, ◌>>◌}
use open_artifact.Store.Calls.{World, Store, Body}
use open_artifact.Store.Files.{Package, Version, File, new_file, add_file, file_meta_of}
use open_artifact.Store.Packages.{
  package_of, version_of, packages, add_package, package_exists, package_meta, package_annotate,
  versions, add_version, version_exists, version_meta, version_annotate, version_files,
}
use open_artifact.Namespace.{is_proxy}
use open_artifact.Surface.Site.{Deployment, Site, at_store, open_store}
use open_artifact.Surface.Http.{
  Request, Response, json, store_status, namespace_status, or_write, with_max_body, read_capped,
  redirect_or_stream,
}
use open_artifact.Surface.Generic.Codec.{
  PackageList, PackageResponse, VersionList, VersionResponse, FileResponse, FileList,
  UploadResponse, time_ptr, ann_content_type, file_to_response, or_text, download_content_type,
  checksum_headers, parse_checksums,
}

-- handler.go: Config, with zero for a limit that is not positive
pub record Config : Type 0 where
  pub max_upload_bytes : ℕ
  pub allow_overwrite : Bool

abbrev pub default_max_upload_bytes : ℕ
default_max_upload_bytes = 104857600

abbrev pub create_body_limit : ℕ
create_body_limit = 1048576

-- uploadLimit
unfoldable pub upload_limit : Config → ℕ
upload_limit c = if c.max_upload_bytes == 0 then default_max_upload_bytes else c.max_upload_bytes

-- if err != nil && !errors.Is(err, core.ErrAlreadyExists)
abbrev pub unless_exists : {A : Type 0} → Result A → Result (Unit {0})
unless_exists (ok a) = ok tt
unless_exists (err already_exists) = ok tt
unless_exists (err e) = err e

abbrev pub tolerating : {W A : Type 0} → Io W A → Io W (Unit {0})
tolerating m w = (unless_exists (m w).0, (m w).1)

-- an envelope, or the zero one where there is none
abbrev pub or_zero_meta : Result Meta → Result Meta
or_zero_meta (err not_found) = ok zero_meta
or_zero_meta r = r

abbrev pub meta_or_zero : {W : Type 0} → Io W Meta → Io W Meta
meta_or_zero m w = (or_zero_meta (m w).0, (m w).1)

-- what AddFile's error is written as: 413 for an upload that MaxBytesReader cut off
unfoldable pub upload_status : Error → ℕ × Bytes
unfolding store_status
upload_status too_large = (413, codes "upload too large")
upload_status e = store_status e

-- The JSON of a create request is read by `decode_create`, which gives its annotations, and none for
-- text that does not decode; `type_of` is mime.TypeByExtension of path.Ext, `decimal` FormatInt.
module _ (d : Deployment) (cfg : Config) (decode_create : Bytes → Option (Dict Json))
    (type_of : Bytes → Bytes) (decimal : ℕ → Bytes) where
  -- handler.store
  unfoldable pub store_of : Request → Bytes → Bool → Io (Site d) Store
  unfolding namespace_status
  store_of r ns write = do
    opened ← or_write (namespace_status write) (open_store d ns format_generic r.subject)
    if is_proxy opened.1
        then raise (rejected 501 (codes "generic proxy mode is not supported"))
        else pure opened.0

  pub stored : {A : Type 0} → Io (World d.platform) A → Io (Site d) A
  stored m = or_write store_status (at_store d m)

  -- the annotations of a body that was read, or the refusal of the request
  created_annotations : Result Bytes → Result (Dict Json)
  created_annotations (err too_large) = err (rejected 413 (codes "request body too large"))
  created_annotations (err e) = err (rejected 400 (codes "invalid request body"))
  created_annotations (ok body) =
      if is_empty (trim_space body) then ok [] else elim (decode_create body) [
        | none ↦ err (rejected 400 (codes "invalid JSON body"))
        | some annotations ↦ ok annotations
      ]

  -- readCreate
  unfoldable pub read_create : Request → Io (Site d) (Dict Json)
  unfolding created_annotations
  read_create r w = (created_annotations (read_capped create_body_limit r.body), w)

  -- listPackages
  unfoldable pub list_packages : Request → Bytes → Io (Site d) (Response PackageList)
  unfolding stored
  list_packages r ns = do
    s ← store_of r ns false
    pkgs ← stored (packages d.platform s)
    pure (json 200 (record { namespace = ns; packages = map (λ (k : Package). k.name) pkgs }))

  or_missing : Bytes → Bool → Io (Site d) (Unit {0})
  or_missing message true = pure tt
  or_missing message false = raise (rejected 404 message)

  -- getPackage
  unfoldable pub get_package : Request → Bytes → Bytes → Io (Site d) (Response PackageResponse)
  unfolding stored or_missing
  get_package r ns name = do
    s ← store_of r ns false
    exists ← stored (package_exists d.platform s (package_of name))
    or_missing (codes "package not found") exists
    vs ← stored (versions d.platform s (package_of name))
    m ← stored (meta_or_zero (package_meta d.platform s (package_of name)))
    pure (
        json 200 (record {
          name = name;
          created_at = time_ptr m.created_at;
          updated_at = time_ptr m.updated_at;
          annotations = m.annotations;
          versions = map (λ (v : Version). v.name) vs;
        }))

  -- what upsertContainer makes of the result of the add: whether the record is new
  is_created : {A : Type 0} → Result A → Result Bool
  is_created (ok a) = ok true
  is_created (err already_exists) = ok false
  is_created (err e) = err e

  attempted : {A : Type 0} → Io (World d.platform) A → Io (World d.platform) Bool
  unfolding is_created
  attempted m w = (is_created (m w).0, (m w).1)

  -- the annotations that were supplied replace those of a record that is there
  annotate_existing :
      (Dict Json → Io (World d.platform) (Unit {0})) → Dict Json → Io (World d.platform) (Unit {0})
  annotate_existing annotate [] = pure tt
  annotate_existing annotate (a ∷ ann) = annotate (a ∷ ann)

  create_options : Dict Json → List CreateOption
  create_options [] = []
  create_options (a ∷ ann) = with_annotations (a ∷ ann) ∷ []

  -- upsertContainer: 201 for a new record, 200 for one that was there
  unfoldable pub upsert_container :
      {A : Type 0}
      → (Dict Json → Io (World d.platform) (Unit {0}))
      → (List CreateOption → Io (World d.platform) A)
      → Dict Json
      → Io (World d.platform) ℕ
  unfolding attempted annotate_existing create_options
  upsert_container annotate add ann = do
    created ← attempted (add (create_options ann))
    if created then pure 201 else (annotate_existing annotate ann >> pure 200)

  -- putPackage
  unfoldable pub put_package : Request → Bytes → Bytes → Io (Site d) (Response (Dict Bytes))
  unfolding stored
  put_package r ns name = do
    s ← store_of r ns true
    ann ← read_create r
    status ← stored (
        upsert_container (package_annotate d.platform s (package_of name))
          (add_package d.platform s name) ann)
    pure (json status ((codes "name", name) ∷ []))

  -- listVersions
  unfoldable pub list_versions : Request → Bytes → Bytes → Io (Site d) (Response VersionList)
  unfolding stored
  list_versions r ns name = do
    s ← store_of r ns false
    vs ← stored (versions d.platform s (package_of name))
    pure (
        json 200
          (record { namespace = ns; pkg = name; versions = map (λ (v : Version). v.name) vs }))

  -- getVersion
  unfoldable pub get_version :
      Request → Bytes → Bytes → Bytes → Io (Site d) (Response VersionResponse)
  unfolding stored or_missing
  get_version r ns pkg_name ver_name = do
    s ← store_of r ns false
    let v = version_of (package_of pkg_name) ver_name
    exists ← stored (version_exists d.platform s v)
    or_missing (codes "version not found") exists
    fs ← stored (version_files d.platform s v)
    m ← stored (meta_or_zero (version_meta d.platform s v))
    pure (
        json 200 (record {
          pkg = pkg_name;
          version = ver_name;
          created_at = time_ptr m.created_at;
          updated_at = time_ptr m.updated_at;
          annotations = m.annotations;
          files = map (λ (f : File). f.name) fs;
        }))

  -- AddPackage of a parent that may be there already
  ensure_package : Store → Bytes → Io (Site d) (Unit {0})
  unfolding stored
  ensure_package s pkg_name = stored (tolerating (add_package d.platform s pkg_name []))

  -- putVersion
  unfoldable pub put_version : Request → Bytes → Bytes → Bytes → Io (Site d) (Response (Dict Bytes))
  unfolding stored ensure_package
  put_version r ns pkg_name ver_name = do
    s ← store_of r ns true
    ann ← read_create r
    ensure_package s pkg_name
    status ← stored (
        upsert_container (version_annotate d.platform s (version_of (package_of pkg_name) ver_name))
          (add_version d.platform s (package_of pkg_name) ver_name) ann)
    pure (json status ((codes "package", pkg_name) ∷ (codes "version", ver_name) ∷ []))

  -- the documents of the listed files, each with its Meta
  describe_files : Store → List File → Io (Site d) (List FileResponse)
  unfolding stored
  describe_files s [] = pure []
  describe_files s (f ∷ fs) =
      let rest = describe_files s fs in
      do
        m ← stored (file_meta_of d.platform s f)
        out ← rest
        pure (file_to_response f.name m ∷ out)

  -- listFiles
  unfoldable pub list_files : Request → Bytes → Bytes → Bytes → Io (Site d) (Response FileList)
  unfolding stored describe_files
  list_files r ns pkg_name ver_name = do
    s ← store_of r ns false
    fs ← stored (version_files d.platform s (version_of (package_of pkg_name) ver_name))
    out ← describe_files s fs
    pure (json 200 (record { namespace = ns; pkg = pkg_name; version = ver_name; files = out }))

  -- downloadFile
  unfoldable pub download_file :
      {D : Type 0} → Request → Bytes → Bytes → Bytes → Bytes → Io (Site d) (Response D)
  unfolding stored
  download_file r ns pkg_name ver_name file_name = do
    s ← store_of r ns false
    let f = new_file s (version_of (package_of pkg_name) ver_name) file_name
    m ← stored (file_meta_of d.platform s f)
    redirect_or_stream d decimal r.method s f (download_content_type type_of f.name m)

  upload_options : Bytes → List ExpectedDigest → List CreateOption
  upload_options content_type expected =
      with_annotations
          ((ann_content_type, text (or_text content_type (codes "application/octet-stream"))) ∷ [])
        ∷ (if is_empty expected then [] else with_expected_digests expected ∷ [])
      ++ (if cfg.allow_overwrite then with_allow_overwrite true ∷ [] else [])

  -- the size and the digest of an upload, if its Meta can be read
  upload_response : Bytes → Bytes → Bytes → Result Meta → UploadResponse
  upload_response pkg_name ver_name name (ok m) = record {
    pkg = pkg_name;
    version = ver_name;
    name = name;
    size = m.size;
    digest = m.digest;
  }
  upload_response pkg_name ver_name name (err e) = record {
    pkg = pkg_name;
    version = ver_name;
    name = name;
    size = 0;
    digest = [];
  }

  described : Store → Bytes → Bytes → Bytes → File → Io (Site d) (Response UploadResponse)
  unfolding upload_response
  described s pkg_name ver_name name f w =
      let (m, w') = at_store d (file_meta_of d.platform s f) w in
      (ok (json 201 (upload_response pkg_name ver_name name m)), w')

  -- uploadFile
  unfoldable pub upload_file :
      Request → Bytes → Bytes → Bytes → Bytes → Io (Site d) (Response UploadResponse)
  unfolding stored ensure_package upload_options described
  upload_file r ns pkg_name ver_name file_name = do
    s ← store_of r ns true
    expected ← lift (parse_checksums checksum_headers r.headers)
    ensure_package s pkg_name
    stored (tolerating (add_version d.platform s (package_of pkg_name) ver_name []))
    f ← or_write upload_status (
        at_store d (
          add_file d.platform s (new_file s (version_of (package_of pkg_name) ver_name) file_name)
            (with_max_body (upload_limit cfg) r.body)
            (upload_options (r.headers (codes "Content-Type")) expected)))
    described s pkg_name ver_name file_name f
