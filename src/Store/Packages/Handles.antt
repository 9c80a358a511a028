-- ===== src/Store/Packages/Handles.antt =====
-- The methods of packages and versions in pkg/core/blobstore/store.go, each with what it leaves alone.
use open_artifact.Shared.{◌≢◌, Option, List, Bytes}
use open_artifact.Shared.Maps.{Dict}
use open_artifact.Core.{Json, CreateOption}
use open_artifact.Store.Io.Keeps.{Keeps, keeps_rules}
use open_artifact.Store.Bucket.{IsLawful}
use open_artifact.Store.Paths.{package_meta_path, version_meta_path}
use open_artifact.Store.Calls.{Platform, Store}
use open_artifact.Store.Calls.Frame.{
  Holds, list_child_names-Keeps, read_meta-Keeps, upsert_annotations-Keeps,
}
use open_artifact.Store.Files.{Package, Version}
use open_artifact.Store.Files.Frame.{admit-Keeps}
use open_artifact.Store.Packages.{
  packages, package_exists, package_meta, package_annotate, versions, add_package, add_version,
  version_exists, version_meta, version_annotate, version_files,
}
use open_artifact.Store.Packages.Frame.{create_record-Keeps, record_exists-Keeps}

module _ (p : Platform) (s : Store) (lawful : IsLawful p.bucket) (k : Bytes)
    (x : Option Bytes) where
  ruleset read_rules =
      (keeps_rules, admit-Keeps, list_child_names-Keeps, record_exists-Keeps, read_meta-Keeps)

  pub packages-Keeps : Keeps (Holds p k x) (packages p s)
  unfolding packages
  packages-Keeps = search read_rules

  pub versions-Keeps : (g : Package) → Keeps (Holds p k x) (versions p s g)
  unfolding versions
  versions-Keeps g = search read_rules

  pub package_exists-Keeps : (g : Package) → Keeps (Holds p k x) (package_exists p s g)
  unfolding package_exists
  package_exists-Keeps g = search read_rules

  pub package_meta-Keeps : (g : Package) → Keeps (Holds p k x) (package_meta p s g)
  unfolding package_meta
  package_meta-Keeps g = search read_rules

  pub version_exists-Keeps : (v : Version) → Keeps (Holds p k x) (version_exists p s v)
  unfolding version_exists
  version_exists-Keeps v = search read_rules

  pub version_meta-Keeps : (v : Version) → Keeps (Holds p k x) (version_meta p s v)
  unfolding version_meta
  version_meta-Keeps v = search read_rules

  pub version_files-Keeps : (v : Version) → Keeps (Holds p k x) (version_files p s v)
  unfolding version_files
  version_files-Keeps v = search read_rules

  pub add_package-Keeps :
      (name : Bytes) (opts : List CreateOption)
      → package_meta_path s.scope name ≢ k
      → Keeps (Holds p k x) (add_package p s name opts)
  unfolding add_package
  add_package-Keeps name opts ne = search (read_rules, create_record-Keeps)

  pub add_version-Keeps :
      (g : Package) (name : Bytes) (opts : List CreateOption)
      → version_meta_path s.scope g.name name ≢ k
      → Keeps (Holds p k x) (add_version p s g name opts)
  unfolding add_version
  add_version-Keeps g name opts ne = search (read_rules, create_record-Keeps)

  pub package_annotate-Keeps :
      (g : Package) (annotations : Dict Json)
      → package_meta_path s.scope g.name ≢ k
      → Keeps (Holds p k x) (package_annotate p s g annotations)
  unfolding package_annotate
  package_annotate-Keeps g annotations ne = search (read_rules, upsert_annotations-Keeps)

  pub version_annotate-Keeps :
      (v : Version) (annotations : Dict Json)
      → version_meta_path s.scope v.pkg.name v.name ≢ k
      → Keeps (Holds p k x) (version_annotate p s v annotations)
  unfolding version_annotate
  version_annotate-Keeps v annotations ne = search (read_rules, upsert_annotations-Keeps)
