-- ===== src/Surface/Generic/Routes/Reads.antt =====
-- pkg/surface/generic/handler.go: the calls of the handlers and the handlers that read, with what they
-- leave alone.
use open_artifact.Shared.{◌≡◌, Bool, true, false, Option, List, [], ◌∷◌, Bytes, Result, ℕ}
use open_artifact.Shared.Maps.{Dict}
use open_artifact.Core.{Json, format_generic, Meta}
use open_artifact.Store.Io.{Io, lift, ◌>>=◌}
use open_artifact.Store.Io.Keeps.{Keeps, Keeps-bind, Keeps-pure, Keeps-bind_known, keeps_rules}
use open_artifact.Store.Bucket.{IsLawful}
use open_artifact.Store.Calls.{World, Store}
use open_artifact.Store.Calls.Frame.{Holds}
use open_artifact.Store.Files.{Package, Version, File, file_meta_of}
use open_artifact.Store.Packages.{
  packages, package_exists, package_meta, versions, version_exists, version_meta, version_files,
}
use open_artifact.Store.Files.Frame.{file_meta_of-Keeps}
use open_artifact.Store.Packages.Handles.{
  packages-Keeps, versions-Keeps, package_exists-Keeps, package_meta-Keeps, version_exists-Keeps,
  version_meta-Keeps, version_files-Keeps,
}
use open_artifact.Namespace.Registry.{scope_of}
use open_artifact.Surface.Site.{Deployment, Site}
use open_artifact.Surface.Site.Frame.{SiteHolds, open_store-Keeps}
use open_artifact.Surface.Http.{Request, redirect_or_stream}
use open_artifact.Surface.Http.Frame.{or_write-Keeps, called-Keeps, redirect_or_stream-Keeps}
use open_artifact.Surface.Generic
use open_artifact.Surface.Generic.Opening.{store_of-scope}
use open_artifact.Surface.Generic.{
  Config, store_of, stored, read_create, describe_files, or_missing, upsert_container, tolerating,
  meta_or_zero,
}

module _ (d : Deployment) (cfg : Config) (decode_create : Bytes → Option (Dict Json))
    (type_of : Bytes → Bytes) (decimal : ℕ → Bytes) (lawful : IsLawful d.platform.bucket)
    (k : Bytes) (x : Option Bytes) where
  -- What keeps the object of the key, at the site.
  unfoldable pub Leaves : {A : Type 0} → Io (Site d) A → Type 0
  Leaves = Keeps (SiteHolds d k x)

  store_of-Leaves :
      (r : Request) (ns : Bytes) (write : Bool)
      → Leaves (store_of d cfg decode_create type_of decimal r ns write)
  unfolding Leaves store_of
  store_of-Leaves r ns write = search (keeps_rules, or_write-Keeps, open_store-Keeps d lawful k x)

  -- A handler that opens the store and goes on in the scope of the namespace.
  pub opened-Leaves :
      {A : Type 0} (r : Request) (ns : Bytes) (write : Bool) (f : Store → Io (Site d) A)
      → ((s : Store) → s.scope ≡ scope_of d.prefix ns format_generic → Leaves (f s))
      → Leaves (store_of d cfg decode_create type_of decimal r ns write >>= f)
  unfolding Leaves
  opened-Leaves r ns write f rest =
      Keeps-bind_known _ _ f (store_of-Leaves r ns write)
        (store_of-scope d cfg decode_create type_of decimal r ns write) rest

  pub called-Leaves :
      {A : Type 0} (m : Io (World d.platform) A)
      → Keeps (Holds d.platform k x) m
      → Leaves (stored d cfg decode_create type_of decimal m)
  unfolding Leaves stored
  called-Leaves m keeps = called-Keeps d lawful k x _ m keeps

  pub reading-Leaves : (r : Request) → Leaves (read_create d cfg decode_create type_of decimal r)
  unfolding Leaves read_create
  reading-Leaves r = record { at = λ w h. h }

  pub lifted-Leaves : {A : Type 0} (r : Result A) → Leaves (lift r)
  unfolding Leaves
  lifted-Leaves r = record { at = λ w h. h }

  meta_or_zero-Keeps :
      (m : Io (World d.platform) Meta)
      → Keeps (Holds d.platform k x) m
      → Keeps (Holds d.platform k x) (meta_or_zero m)
  meta_or_zero-Keeps m keeps = record { at = λ w h. keeps.at w h }

  module _ (s : Store) where
    packages-Leaves : Leaves (stored d cfg decode_create type_of decimal (packages d.platform s))
    packages-Leaves = called-Leaves _ (packages-Keeps d.platform s lawful k x)

    versions-Leaves :
        (g : Package)
        → Leaves (stored d cfg decode_create type_of decimal (versions d.platform s g))
    versions-Leaves g = called-Leaves _ (versions-Keeps d.platform s lawful k x g)

    package_exists-Leaves :
        (g : Package)
        → Leaves (stored d cfg decode_create type_of decimal (package_exists d.platform s g))
    package_exists-Leaves g = called-Leaves _ (package_exists-Keeps d.platform s lawful k x g)

    package_meta-Leaves :
        (g : Package)
        → Leaves (
            stored d cfg decode_create type_of decimal (meta_or_zero (package_meta d.platform s g)))
    package_meta-Leaves g =
        called-Leaves _ (meta_or_zero-Keeps _ (package_meta-Keeps d.platform s lawful k x g))

    version_exists-Leaves :
        (v : Version)
        → Leaves (stored d cfg decode_create type_of decimal (version_exists d.platform s v))
    version_exists-Leaves v = called-Leaves _ (version_exists-Keeps d.platform s lawful k x v)

    version_meta-Leaves :
        (v : Version)
        → Leaves (
            stored d cfg decode_create type_of decimal (meta_or_zero (version_meta d.platform s v)))
    version_meta-Leaves v =
        called-Leaves _ (meta_or_zero-Keeps _ (version_meta-Keeps d.platform s lawful k x v))

    version_files-Leaves :
        (v : Version)
        → Leaves (stored d cfg decode_create type_of decimal (version_files d.platform s v))
    version_files-Leaves v = called-Leaves _ (version_files-Keeps d.platform s lawful k x v)

    pub file_meta-Leaves :
        (f : File)
        → Leaves (stored d cfg decode_create type_of decimal (file_meta_of d.platform s f))
    file_meta-Leaves f = called-Leaves _ (file_meta_of-Keeps d.platform lawful k x s f)

    describe_files-Leaves :
        (fs : List File) → Leaves (describe_files d cfg decode_create type_of decimal s fs)
    unfolding describe_files Leaves
    describe_files-Leaves [] = search keeps_rules
    describe_files-Leaves (f ∷ fs) =
        Keeps-bind _ _ (file_meta-Leaves f)
          (λ m. Keeps-bind _ _ (describe_files-Leaves fs) (λ out. Keeps-pure _))

    served-Leaves :
        (D : Type 0) (r : Request) (f : File) (content_type : Bytes)
        → Leaves (redirect_or_stream d {D = D} decimal r.method s f content_type)
    unfolding Leaves
    served-Leaves D r f content_type =
        redirect_or_stream-Keeps d lawful k x decimal r.method s f content_type

  or_missing-Leaves :
      (message : Bytes) (there : Bool)
      → Leaves (or_missing d cfg decode_create type_of decimal message there)
  unfolding or_missing Leaves
  or_missing-Leaves message true = search keeps_rules
  or_missing-Leaves message false = search keeps_rules

  ruleset get_rules = (
    keeps_rules, packages-Leaves, versions-Leaves, package_exists-Leaves, package_meta-Leaves,
    version_exists-Leaves, version_meta-Leaves, version_files-Leaves, file_meta-Leaves,
    describe_files-Leaves, served-Leaves, or_missing-Leaves,
  )

  module _ (r : Request) (ns : Bytes) where
    pub list_packages-Leaves :
        Leaves (Generic.list_packages d cfg decode_create type_of decimal r ns)
    unfolding Generic.list_packages Leaves
    list_packages-Leaves = opened-Leaves r ns false _ (λ s e. search get_rules)

    pub get_package-Leaves :
        (pkg : Bytes) → Leaves (Generic.get_package d cfg decode_create type_of decimal r ns pkg)
    unfolding Generic.get_package Leaves
    get_package-Leaves pkg = opened-Leaves r ns false _ (λ s e. search get_rules depth 12)

    pub list_versions-Leaves :
        (pkg : Bytes) → Leaves (Generic.list_versions d cfg decode_create type_of decimal r ns pkg)
    unfolding Generic.list_versions Leaves
    list_versions-Leaves pkg = opened-Leaves r ns false _ (λ s e. search get_rules)

    pub get_version-Leaves :
        (pkg ver : Bytes)
        → Leaves (Generic.get_version d cfg decode_create type_of decimal r ns pkg ver)
    unfolding Generic.get_version Leaves
    get_version-Leaves pkg ver = opened-Leaves r ns false _ (λ s e. search get_rules depth 12)

    pub list_files-Leaves :
        (pkg ver : Bytes)
        → Leaves (Generic.list_files d cfg decode_create type_of decimal r ns pkg ver)
    unfolding Generic.list_files Leaves
    list_files-Leaves pkg ver = opened-Leaves r ns false _ (λ s e. search get_rules depth 12)

    pub download_file-Leaves :
        (D : Type 0) (pkg ver file : Bytes)
        → Leaves
            (Generic.download_file d cfg decode_create type_of decimal {D = D} r ns pkg ver file)
    unfolding Generic.download_file Leaves
    download_file-Leaves D pkg ver file =
        opened-Leaves r ns false _ (λ s e. search get_rules depth 12)
