-- ===== src/Store/Operations/Frame.antt =====
-- The operations of pkg/core/blobstore/store.go and the objects that are not their targets.
use open_artifact.Shared.{◌≡◌, ◌≢◌, refl, Option, Bytes, All}
use open_artifact.Store.Io.Keeps.{Keeps, keeps_rules}
use open_artifact.Store.Bucket.{IsLawful}
use open_artifact.Store.Calls.{Platform, World, Store}
use open_artifact.Store.Calls.Frame.{
  Holds, b_exists-Keeps, read_meta-Keeps, list_child_names-Keeps, upsert_annotations-Keeps,
  read_tag_target-Keeps, write_tag_target-Keeps,
}
use open_artifact.Store.Files.Frame.{
  admit-Keeps, add_file-Keeps, add_cache-Keeps, file_exists-Keeps, file_meta_of-Keeps,
  file_read-Keeps, download_url-Keeps, file_delete-Keeps,
}
use open_artifact.Store.Packages
use open_artifact.Store.Packages.Frame.{create_record-Keeps, record_exists-Keeps, tag_targets-Keeps}
use open_artifact.Store.Operations.{Operation, perform, targets, packages, drop_value}

module _ (p : Platform) (s : Store) (lawful : IsLawful p.bucket) (k : Bytes)
    (x : Option Bytes) where
  ruleset call_rules = (
    keeps_rules, admit-Keeps, list_child_names-Keeps, create_record-Keeps, record_exists-Keeps,
    read_meta-Keeps, upsert_annotations-Keeps, read_tag_target-Keeps, write_tag_target-Keeps,
    b_exists-Keeps, add_file-Keeps, add_cache-Keeps, file_exists-Keeps, file_meta_of-Keeps,
    file_read-Keeps, download_url-Keeps, file_delete-Keeps, tag_targets-Keeps,
  )

  perform-Keeps :
      (o : Operation) → All (λ t. t ≢ k) (targets s o) → Keeps (Holds p k x) (perform p s o)
  unfolding perform targets drop_value Packages.packages Packages.store_files Packages.add_package
      Packages.package_meta Packages.package_exists Packages.versions Packages.package_files
      Packages.tags Packages.package_annotate Packages.add_version Packages.set_tag
      Packages.version_meta Packages.version_exists Packages.version_files Packages.version_annotate
      Packages.tag_ref Packages.tag_exists
  perform-Keeps packages h = search call_rules
  perform-Keeps _ h = search call_rules

-- Whatever an operation does and however it ends, the object under any key that is not among the
-- operation's targets is the one that was there.
pub perform_frame :
    (p : Platform) (s : Store) (o : Operation) (k : Bytes) (w : World p)
    → IsLawful p.bucket
    → All (λ t. t ≢ k) (targets s o)
    → p.bucket.content (perform p s o w).1.disk k ≡ p.bucket.content w.disk k
perform_frame p s o k w lawful h =
    (perform-Keeps p s lawful k (p.bucket.content w.disk k) o h).at w refl
