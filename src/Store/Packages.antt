-- ===== src/Store/Packages.antt =====
-- The store's packages, versions and tags: the handles of pkg/core/blobstore/store.go.
pub mod Frame
pub mod Handles
pub mod Aliases
use open_artifact.Shared.{
  ℕ, Bool, true, false, not, Option, none, some, List, [], ◌∷◌, ◌++◌, map, Bytes, if◌then◌else◌,
  Error, Result, ok, err,
}
use open_artifact.Shared.Maps.{Dict, put}
use open_artifact.Core.{Json, Meta, CreateOption, new_create_config, zero_meta}
use open_artifact.Store.Paths.{
  scope_prefix, validate_name, first_err, package_prefix, package_meta_path, package_tags_prefix,
  version_prefix, version_meta_path, files_prefix, tag_path, decode_segment,
}
use open_artifact.Store.Io.{Io, pure, raise, unless, ◌>>=◌, ◌>>◌}
use open_artifact.Store.Calls.{
  Platform, World, Store, Body, clock, b_exists, list_child_names, has_descendant, read_meta,
  write_meta, upsert_annotations, read_tag_target, write_tag_target,
}
use open_artifact.Store.Files.{
  Package, Version, File, new_store_file, new_package_file, new_file, new_cache_file, admit,
  add_file, add_cache,
}

pub record Tag : Type 0 where
  pub pkg : Package
  pub name : Bytes
  pub name_err : Option Error

-- Store.Package, without any call of the bucket
unfoldable pub package_of : Bytes → Package
package_of name = record { name = name; name_err = validate_name name }

-- A package that a listing returned
unfoldable pub listed_package : Bytes → Package
listed_package n = record { name = decode_segment n; name_err = none }

-- pkg.Version
unfoldable pub version_of : Package → Bytes → Version
version_of p name = record {
  pkg = p;
  name = name;
  name_err = first_err (p.name_err ∷ validate_name name ∷ []);
}

unfoldable pub listed_version : Package → Bytes → Version
listed_version p n = record { pkg = p; name = decode_segment n; name_err = none }

-- pkg.Tag
unfoldable pub tag_of : Package → Bytes → Tag
tag_of p name = record {
  pkg = p;
  name = name;
  name_err = first_err (p.name_err ∷ validate_name name ∷ []);
}

unfoldable pub listed_tag : Package → Bytes → Tag
listed_tag p n = record { pkg = p; name = decode_segment n; name_err = none }

-- A fresh envelope
unfoldable pub fresh_meta : ℕ → Dict Json → Meta
fresh_meta now annotations = record zero_meta {
  created_at = now;
  updated_at = now;
  annotations = annotations;
}

module _ (p : Platform) (s : Store) where
  -- Store.Packages
  unfoldable pub packages : Io (World p) (List Package)
  packages = do
    admit p s none false
    names ← list_child_names p (scope_prefix s.scope)
    pure (map listed_package names)

  -- the envelope of a record, created under AllowOverwrite or IfNotExist
  unfoldable pub create_record : Bytes → List CreateOption → Io (World p) (Unit {0})
  create_record path opts = do
    now ← clock p
    write_meta p path (fresh_meta now (new_create_config opts).annotations)
        (new_create_config opts).allow_overwrite

  -- AddPackage
  unfoldable pub add_package : Bytes → List CreateOption → Io (World p) Package
  unfolding create_record
  add_package name opts = do
    admit p s (validate_name name) true
    create_record (package_meta_path s.scope name) opts
    pure (record { name = name; name_err = none })

  -- Store.Files
  unfoldable pub store_files : Io (World p) (List File)
  store_files = do
    admit p s none false
    names ← list_child_names p (files_prefix (scope_prefix s.scope))
    pure (map (λ n. new_store_file s (decode_segment n)) names)

  -- pkg.Meta
  unfoldable pub package_meta : Package → Io (World p) Meta
  package_meta k = do admit p s k.name_err false; read_meta p (package_meta_path s.scope k.name)

  -- a record exists by its envelope, or by anything below it
  unfoldable pub record_exists : Bytes → Bytes → Io (World p) Bool
  record_exists path prefix = do
    there ← b_exists p path
    if there then pure true else has_descendant p prefix

  -- pkg.Exists
  unfoldable pub package_exists : Package → Io (World p) Bool
  unfolding record_exists
  package_exists k = do
    admit p s k.name_err false
    record_exists (package_meta_path s.scope k.name) (package_prefix s.scope k.name)

  -- pkg.Annotate
  unfoldable pub package_annotate : Package → Dict Json → Io (World p) (Unit {0})
  package_annotate k annotations = do
    admit p s k.name_err true
    upsert_annotations p (package_meta_path s.scope k.name) annotations

  -- pkg.Versions
  unfoldable pub versions : Package → Io (World p) (List Version)
  versions k = do
    admit p s k.name_err false
    names ← list_child_names p (package_prefix s.scope k.name)
    pure (map (listed_version k) names)

  -- pkg.AddVersion
  unfoldable pub add_version : Package → Bytes → List CreateOption → Io (World p) Version
  unfolding create_record
  add_version k name opts = do
    admit p s (first_err (k.name_err ∷ validate_name name ∷ [])) true
    create_record (version_meta_path s.scope k.name name) opts
    pure (record { pkg = k; name = name; name_err = none })

  -- pkg.Files
  unfoldable pub package_files : Package → Io (World p) (List File)
  package_files k = do
    admit p s k.name_err false
    names ← list_child_names p (files_prefix (package_prefix s.scope k.name))
    pure (map (λ n. new_package_file s k (decode_segment n)) names)

  -- pkg.Tags
  unfoldable pub tags : Package → Io (World p) (List Tag)
  tags k = do
    admit p s k.name_err false
    names ← list_child_names p (package_tags_prefix s.scope k.name)
    pure (map (listed_tag k) names)

  -- the targets that were read, or the first error
  gather : Bytes → Result Bytes → Result (Dict Bytes) → Result (Dict Bytes)
  gather tag (ok target) (ok out) = ok (put out tag target)
  gather tag (err e) (ok out) = err e
  gather tag r (err e) = err e

  -- the reads of all the tags, none of which another's failure stops
  read_targets : Package → List Bytes → Result (Dict Bytes) → Io (World p) (Dict Bytes)
  unfolding gather
  read_targets k [] out w = (out, w)
  read_targets k (n ∷ names) out w =
      let (r, w') = read_tag_target p s.scope k.name (decode_segment n) w in
      read_targets k names (gather (decode_segment n) r out) w'

  -- pkg.TagTargets
  unfoldable pub tag_targets : Package → Io (World p) (Dict Bytes)
  unfolding read_targets
  tag_targets k = do
    admit p s k.name_err false
    names ← list_child_names p (package_tags_prefix s.scope k.name)
    read_targets k names (ok [])

  -- pkg.SetTag
  unfoldable pub set_tag : Package → Bytes → Bytes → Io (World p) (Unit {0})
  set_tag k name target = do
    admit p s (first_err (k.name_err ∷ validate_name name ∷ validate_name target ∷ [])) true
    write_tag_target p s.scope k.name name target

  -- version.Meta
  unfoldable pub version_meta : Version → Io (World p) Meta
  version_meta v = do
    admit p s v.name_err false
    read_meta p (version_meta_path s.scope v.pkg.name v.name)

  -- version.Exists
  unfoldable pub version_exists : Version → Io (World p) Bool
  unfolding record_exists
  version_exists v = do
    admit p s v.name_err false
    record_exists (version_meta_path s.scope v.pkg.name v.name)
        (version_prefix s.scope v.pkg.name v.name)

  -- version.Annotate
  unfoldable pub version_annotate : Version → Dict Json → Io (World p) (Unit {0})
  version_annotate v annotations = do
    admit p s v.name_err true
    upsert_annotations p (version_meta_path s.scope v.pkg.name v.name) annotations

  -- version.Files
  unfoldable pub version_files : Version → Io (World p) (List File)
  version_files v = do
    admit p s v.name_err false
    names ← list_child_names p (files_prefix (version_prefix s.scope v.pkg.name v.name))
    pure (map (λ n. new_file s v (decode_segment n)) names)

  -- tag.Ref: the version handle of the target, which is not validated again
  unfoldable pub tag_ref : Tag → Io (World p) Version
  tag_ref t = do
    admit p s t.name_err false
    target ← read_tag_target p s.scope t.pkg.name t.name
    pure (record { pkg = t.pkg; name = target; name_err = none })

  -- tag.Exists
  unfoldable pub tag_exists : Tag → Io (World p) Bool
  tag_exists t = do admit p s t.name_err false; b_exists p (tag_path s.scope t.pkg.name t.name)
