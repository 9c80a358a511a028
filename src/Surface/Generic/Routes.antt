-- ===== src/Surface/Generic/Routes.antt =====
-- Handler of pkg/surface/generic/handler.go: the routes of the mux, behind the auth middleware.
pub mod Reads
pub mod Writes
pub mod Frame
use open_artifact.Shared.{
  ℕ, Bool, true, false, Option, none, some, List, [], ◌∷◌, Bytes, Result, ok, err,
}
use open_artifact.Shared.Maps.{Dict}
use open_artifact.Core.{Json, format_generic}
use open_artifact.Auth.{AuthContext}
use open_artifact.Auth.Chain.{Authenticator, Served, middleware}
use open_artifact.Store.Io.{Io, pure, ◌>>=◌}
use open_artifact.Store.Paths.{package_meta_path, version_meta_path, file_path, file_meta_path}
use open_artifact.Namespace.Registry.{scope_of}
use open_artifact.Surface.Site.{Deployment, Site}
use open_artifact.Surface.Http.{
  Request, Response, Reply, Payload, document, content, nothing, serve,
}
use open_artifact.Surface.Generic.Codec.{
  PackageList, PackageResponse, VersionList, VersionResponse, FileList, UploadResponse,
}
use open_artifact.Surface.Generic
use open_artifact.Surface.Generic.{Config}

-- A pattern of the mux with the path values that it matched, the namespace first.
pub data Route : Type 0 where
  list_packages : Bytes → Route
  get_package put_package list_versions : Bytes → Bytes → Route
  get_version put_version list_files : Bytes → Bytes → Bytes → Route
  download_file upload_file : Bytes → Bytes → Bytes → Bytes → Route

-- The JSON document of a response.
pub data Document : Type 0 where
  package_list : PackageList → Document
  package_record : PackageResponse → Document
  version_list : VersionList → Document
  version_record : VersionResponse → Document
  file_list : FileList → Document
  uploaded : UploadResponse → Document
  created : Dict Bytes → Document

-- The same response, whose document is one of the surface's.
abbrev pub map_payload : {D E : Type 0} → (D → E) → Payload D → Payload E
map_payload f (document doc) = document (f doc)
map_payload f (content bytes) = content bytes
map_payload f nothing = nothing

abbrev pub map_response : {D E : Type 0} → (D → E) → Response D → Response E
map_response f r = record {
  status = r.status;
  headers = r.headers;
  payload = map_payload f r.payload;
}

abbrev pub responding : {W D E : Type 0} → (D → E) → Io W (Response D) → Io W (Response E)
responding f m = m >>= λ r. pure (map_response f r)

module _ (d : Deployment) (cfg : Config) (decode_create : Bytes → Option (Dict Json))
    (type_of : Bytes → Bytes) (decimal : ℕ → Bytes) where
  -- the handler that is registered for a pattern
  unfoldable pub respond : Route → Request → Io (Site d) (Response Document)
  respond (list_packages ns) r =
      responding package_list (Generic.list_packages d cfg decode_create type_of decimal r ns)
  respond (get_package ns pkg) r =
      responding package_record (Generic.get_package d cfg decode_create type_of decimal r ns pkg)
  respond (put_package ns pkg) r =
      responding created (Generic.put_package d cfg decode_create type_of decimal r ns pkg)
  respond (list_versions ns pkg) r =
      responding version_list (Generic.list_versions d cfg decode_create type_of decimal r ns pkg)
  respond (get_version ns pkg ver) r =
      responding version_record
        (Generic.get_version d cfg decode_create type_of decimal r ns pkg ver)
  respond (put_version ns pkg ver) r =
      responding created (Generic.put_version d cfg decode_create type_of decimal r ns pkg ver)
  respond (list_files ns pkg ver) r =
      responding file_list (Generic.list_files d cfg decode_create type_of decimal r ns pkg ver)
  respond (download_file ns pkg ver file) r =
      Generic.download_file d cfg decode_create type_of decimal r ns pkg ver file
  respond (upload_file ns pkg ver file) r =
      responding uploaded
        (Generic.upload_file d cfg decode_create type_of decimal r ns pkg ver file)

  -- the request with the subject that the middleware puts into its context
  abbrev pub with_subject : AuthContext → Request → Request
  with_subject ac r = record r { subject = some ac }

  -- Handler, of a request that the mux routed
  unfoldable pub handler :
      Authenticator Request → Route → Request → Served (Site d → Reply Document × Site d)
  unfolding respond middleware
  handler authn route = middleware authn (λ ac r. serve (respond route (with_subject ac r)))

-- The keys whose objects a route may write, in the scope of its namespace.
unfoldable pub writes : Bytes → Route → List Bytes
writes prefix (put_package ns pkg) = package_meta_path (scope_of prefix ns format_generic) pkg ∷ []
writes prefix (put_version ns pkg ver) =
    package_meta_path (scope_of prefix ns format_generic) pkg
    ∷ version_meta_path (scope_of prefix ns format_generic) pkg ver
    ∷ []
writes prefix (upload_file ns pkg ver file) =
    package_meta_path (scope_of prefix ns format_generic) pkg
    ∷ version_meta_path (scope_of prefix ns format_generic) pkg ver
    ∷ file_path (scope_of prefix ns format_generic) pkg ver file
    ∷ file_meta_path (scope_of prefix ns format_generic) pkg ver file
    ∷ []
writes prefix route = []
