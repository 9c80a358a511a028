-- ===== src/Surface/Generic/Routes/Frame.antt =====
-- The routes of pkg/surface/generic/handler.go and the objects that they do not name.
use open_artifact.Shared.{◌≡◌, ◌≢◌, refl, Option, Bytes, All, ℕ}
use open_artifact.Shared.Maps.{Dict}
use open_artifact.Core.{Json}
use open_artifact.Store.Io.{Io}
use open_artifact.Store.Io.Keeps.{Keeps, Keeps-bind, Keeps-pure}
use open_artifact.Store.Bucket.{IsLawful}
use open_artifact.Surface.Site.{Deployment, Site}
use open_artifact.Surface.Site.Frame.{SiteHolds}
use open_artifact.Surface.Http.{Request, Response}
use open_artifact.Surface.Generic.{Config}
use open_artifact.Surface.Generic.Routes.{
  Route, Document, responding, respond, writes, list_packages, get_package, put_package,
  list_versions, get_version, put_version, list_files, download_file, upload_file,
}
use open_artifact.Surface.Generic.Routes.Reads.{
  Leaves, list_packages-Leaves, get_package-Leaves, list_versions-Leaves, get_version-Leaves,
  list_files-Leaves, download_file-Leaves,
}
use open_artifact.Surface.Generic.Routes.Writes.{
  put_package-Leaves, put_version-Leaves, upload_file-Leaves,
}

responding-Keeps :
    {W D E : Type 0} {P : W → Type 0} (f : D → E) (m : Io W (Response D))
    → Keeps P m
    → Keeps P (responding f m)
responding-Keeps f m keeps = Keeps-bind _ _ keeps (λ r. Keeps-pure _)

module _ (d : Deployment) (cfg : Config) (decode_create : Bytes → Option (Dict Json))
    (type_of : Bytes → Bytes) (decimal : ℕ → Bytes) (lawful : IsLawful d.platform.bucket)
    (k : Bytes) (x : Option Bytes) where
  respond-Keeps :
      (route : Route) (r : Request)
      → All (λ target. target ≢ k) (writes d.prefix route)
      → Keeps (SiteHolds d k x) (respond d cfg decode_create type_of decimal route r)
  unfolding respond writes Leaves
  respond-Keeps (list_packages ns) r others =
      responding-Keeps _ _
        (list_packages-Leaves d cfg decode_create type_of decimal lawful k x r ns)
  respond-Keeps (get_package ns pkg) r others =
      responding-Keeps _ _
        (get_package-Leaves d cfg decode_create type_of decimal lawful k x r ns pkg)
  respond-Keeps (put_package ns pkg) r (ne, others) =
      responding-Keeps _ _
        (put_package-Leaves d cfg decode_create type_of decimal lawful k x r ns pkg ne)
  respond-Keeps (list_versions ns pkg) r others =
      responding-Keeps _ _
        (list_versions-Leaves d cfg decode_create type_of decimal lawful k x r ns pkg)
  respond-Keeps (get_version ns pkg ver) r others =
      responding-Keeps _ _
        (get_version-Leaves d cfg decode_create type_of decimal lawful k x r ns pkg ver)
  respond-Keeps (put_version ns pkg ver) r (ne, (ne₁, others)) =
      responding-Keeps _ _
        (put_version-Leaves d cfg decode_create type_of decimal lawful k x r ns pkg ver ne ne₁)
  respond-Keeps (list_files ns pkg ver) r others =
      responding-Keeps _ _
        (list_files-Leaves d cfg decode_create type_of decimal lawful k x r ns pkg ver)
  respond-Keeps (download_file ns pkg ver file) r others =
      download_file-Leaves d cfg decode_create type_of decimal lawful k x r ns Document pkg ver file
  respond-Keeps (upload_file ns pkg ver file) r (ne, (ne₁, (ne₂, (ne₃, others)))) =
      responding-Keeps _ _ (
        upload_file-Leaves d cfg decode_create type_of decimal lawful k x r ns pkg ver file ne ne₁
          ne₂ ne₃)

module _ (d : Deployment) (lawful : IsLawful d.platform.bucket) where
  -- Whatever the outcome of a request, a route leaves every object alone but those it names: none for
  -- a listing or a download, the records of the package and of the version for a put, and of an
  -- upload these, the file and its sidecar, all in the scope of the route's namespace.
  pub respond_frame :
      (cfg : Config) (decode_create : Bytes → Option (Dict Json)) (type_of : Bytes → Bytes)
      (decimal : ℕ → Bytes) (route : Route) (r : Request) (w : Site d) (k : Bytes)
      → All (λ target. target ≢ k) (writes d.prefix route)
      → d.platform.bucket.content
          (respond d cfg decode_create type_of decimal route r w).1.world.disk
          k
        ≡ d.platform.bucket.content w.world.disk k
  respond_frame cfg decode_create type_of decimal route r w k others =
      (respond-Keeps d cfg decode_create type_of decimal lawful k _ route r others).at w refl
