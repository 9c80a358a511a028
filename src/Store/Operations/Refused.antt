-- ===== src/Store/Operations/Refused.antt =====
-- The checks that open the operations of pkg/core/blobstore/store.go.
use open_artifact.Shared.{arith, ◌≡◌, Bool, Option, none, some, [], ◌∷◌, Error, err}
use open_artifact.Store.Paths.{first_err}
use open_artifact.Store.Io.{Io, ◌>>=◌}
use open_artifact.Store.Calls.{Platform, World, Store, authorize}
use open_artifact.Store.Files
use open_artifact.Store.Files.{admit}
use open_artifact.Store.Packages
use open_artifact.Store.Operations.{Operation, perform, name_error, needs_write, packages}

module _ {W A B : Type 0} where
  pub bind_refused :
      (m : Io W A) (f : A → Io W B) (w w' : W) (e : Error)
      → m w ≡ (err e, w')
      → (m >>= f) w ≡ (err e, w')
  unfolding ◌>>=◌
  bind_refused m f w w' e h = rw h

-- The error of the checks that open an operation: that of its names, else that of the guard.
abbrev pub admission : Store → Operation → Option Error
admission s o = first_err (name_error o ∷ authorize s (needs_write o) ∷ [])

module _ (p : Platform) (s : Store) where
  pub admit_refused :
      (n : Option Error) (write : Bool) (w : World p) (e : Error)
      → first_err (n ∷ authorize s write ∷ []) ≡ some e
      → admit p s n write w ≡ (err e, w)
  unfolding admit first_err ◌>>=◌
  admit_refused none write w e h = ground arith
  admit_refused (some e') write w e h = ground arith

  -- An operation whose names are invalid or whose guard denies it fails with that very error and
  -- leaves the whole world, bucket and caches, as it was.
  pub perform_refused :
      (o : Operation) (w : World p) (e : Error)
      → admission s o ≡ some e
      → perform p s o w ≡ (err e, w)
  unfolding perform name_error needs_write Packages.packages Packages.store_files
      Packages.add_package Packages.package_meta Packages.package_exists Packages.versions
      Packages.package_files Packages.tags Packages.tag_targets Packages.package_annotate
      Packages.add_version Packages.set_tag Packages.version_meta Packages.version_exists
      Packages.version_files Packages.version_annotate Packages.tag_ref Packages.tag_exists
      Files.add_file Files.add_cache Files.file_exists Files.file_meta_of Files.file_read
      Files.download_url Files.file_delete
  perform_refused packages w e h =
      bind_refused _ _ w w e (bind_refused _ _ w w e (admit_refused _ _ w e h))
  perform_refused _ w e h =
      bind_refused _ _ w w e (bind_refused _ _ w w e (admit_refused _ _ w e h))
