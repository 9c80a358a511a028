-- ===== src/Store/Operations.antt =====
-- Every operation that core.Store and its handles offer, as one data type: who calls the store can
-- do these things to the bucket, and nothing else.
pub mod Refused
pub mod Frame
pub mod Tags
use open_artifact.Shared.{
  Bool, true, false, Option, none, some, List, [], ◌∷◌, Bytes, Error, Result, ok, err,
}
use open_artifact.Shared.Maps.{Dict}
use open_artifact.Core.{Json, CreateOption}
use open_artifact.Store.Paths.{
  validate_name, first_err, package_meta_path, version_meta_path, tag_path,
}
use open_artifact.Store.Io.{Io, pure, ◌>>=◌}
use open_artifact.Store.Calls.{Platform, World, Store, Body}
use open_artifact.Store.Files
use open_artifact.Store.Files.{Package, Version, File, new_cache_file}
use open_artifact.Store.Packages
use open_artifact.Store.Packages.{Tag}

pub data Operation : Type 0 where
  packages store_files : Operation
  add_package : Bytes → List CreateOption → Operation
  package_meta package_exists versions package_files tags tag_targets : Package → Operation
  package_annotate : Package → Dict Json → Operation
  add_version : Package → Bytes → List CreateOption → Operation
  set_tag : Package → Bytes → Bytes → Operation
  version_meta version_exists version_files : Version → Operation
  version_annotate : Version → Dict Json → Operation
  tag_ref tag_exists : Tag → Operation
  add_file : File → Body → List CreateOption → Operation
  add_cache : Bytes → Bytes → Option Error → Body → Operation
  file_exists file_meta file_read download_url file_delete : File → Operation

module _ (p : Platform) (s : Store) where
  drop_value : {A : Type 0} → Io (World p) A → Io (World p) (Unit {0})
  drop_value m = m >>= λ _. pure tt

  -- The operation, with its error and its effect and without its value.
  unfoldable pub perform : Operation → Io (World p) (Unit {0})
  unfolding drop_value
  perform packages = drop_value (Packages.packages p s)
  perform store_files = drop_value (Packages.store_files p s)
  perform (add_package n opts) = drop_value (Packages.add_package p s n opts)
  perform (package_meta k) = drop_value (Packages.package_meta p s k)
  perform (package_exists k) = drop_value (Packages.package_exists p s k)
  perform (versions k) = drop_value (Packages.versions p s k)
  perform (package_files k) = drop_value (Packages.package_files p s k)
  perform (tags k) = drop_value (Packages.tags p s k)
  perform (tag_targets k) = drop_value (Packages.tag_targets p s k)
  perform (package_annotate k a) = drop_value (Packages.package_annotate p s k a)
  perform (add_version k n opts) = drop_value (Packages.add_version p s k n opts)
  perform (set_tag k n t) = drop_value (Packages.set_tag p s k n t)
  perform (version_meta v) = drop_value (Packages.version_meta p s v)
  perform (version_exists v) = drop_value (Packages.version_exists p s v)
  perform (version_files v) = drop_value (Packages.version_files p s v)
  perform (version_annotate v a) = drop_value (Packages.version_annotate p s v a)
  perform (tag_ref t) = drop_value (Packages.tag_ref p s t)
  perform (tag_exists t) = drop_value (Packages.tag_exists p s t)
  perform (add_file f b opts) = drop_value (Files.add_file p s f b opts)
  perform (add_cache d k e b) = drop_value (Files.add_cache p s d k e b)
  perform (file_exists f) = drop_value (Files.file_exists p s f)
  perform (file_meta f) = drop_value (Files.file_meta_of p s f)
  perform (file_read f) = drop_value (Files.file_read p s f)
  perform (download_url f) = drop_value (Files.download_url p s f)
  perform (file_delete f) = drop_value (Files.file_delete p s f)

-- The error of the names that the operation is given.
unfoldable pub name_error : Operation → Option Error
name_error packages = none
name_error store_files = none
name_error (add_package n opts) = validate_name n
name_error (package_meta k) = k.name_err
name_error (package_exists k) = k.name_err
name_error (versions k) = k.name_err
name_error (package_files k) = k.name_err
name_error (tags k) = k.name_err
name_error (tag_targets k) = k.name_err
name_error (package_annotate k a) = k.name_err
name_error (add_version k n opts) = first_err (k.name_err ∷ validate_name n ∷ [])
name_error (set_tag k n t) = first_err (k.name_err ∷ validate_name n ∷ validate_name t ∷ [])
name_error (version_meta v) = v.name_err
name_error (version_exists v) = v.name_err
name_error (version_files v) = v.name_err
name_error (version_annotate v a) = v.name_err
name_error (tag_ref t) = t.name_err
name_error (tag_exists t) = t.name_err
name_error (add_file f b opts) = f.name_err
name_error (add_cache d k e b) = first_err (e ∷ validate_name k ∷ [])
name_error (file_exists f) = f.name_err
name_error (file_meta f) = f.name_err
name_error (file_read f) = f.name_err
name_error (download_url f) = f.name_err
name_error (file_delete f) = f.name_err

-- What the guard is asked for: the cache is filled and evicted under a read.
unfoldable pub needs_write : Operation → Bool
needs_write (add_package n opts) = true
needs_write (package_annotate k a) = true
needs_write (add_version k n opts) = true
needs_write (set_tag k n t) = true
needs_write (version_annotate v a) = true
needs_write (add_file f b opts) = true
needs_write _ = false

-- The keys whose objects the operation may change.
unfoldable pub targets : Store → Operation → List Bytes
targets s (add_package n opts) = package_meta_path s.scope n ∷ []
targets s (package_annotate k a) = package_meta_path s.scope k.name ∷ []
targets s (add_version k n opts) = version_meta_path s.scope k.name n ∷ []
targets s (set_tag k n t) = tag_path s.scope k.name n ∷ []
targets s (version_annotate v a) = version_meta_path s.scope v.pkg.name v.name ∷ []
targets s (add_file f b opts) = f.blob_key ∷ f.meta_key ∷ []
targets s (add_cache d k e b) =
    (new_cache_file d k e).blob_key ∷ (new_cache_file d k e).meta_key ∷ []
targets s (file_delete f) = f.blob_key ∷ f.meta_key ∷ []
targets s _ = []
