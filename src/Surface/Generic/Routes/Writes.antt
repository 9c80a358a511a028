-- ===== src/Surface/Generic/Routes/Writes.antt =====
-- pkg/surface/generic/handler.go: the handlers that write, with what they leave alone.
use open_artifact.Shared.{◌≢◌, sym, subst, true, Option, List, [], ◌∷◌, Bytes, ℕ, codes}
use open_artifact.Shared.Maps.{Dict}
use open_artifact.Core.{Json, CreateOption, ExpectedDigest, format_generic}
use open_artifact.Store.Io.{Io}
use open_artifact.Store.Io.Keeps.{Keeps, Keeps-bind, Keeps-pure, Keeps-if}
use open_artifact.Store.Bucket.{IsLawful}
use open_artifact.Store.Paths.{package_meta_path, version_meta_path, file_path, file_meta_path}
use open_artifact.Store.Calls.{World, Store}
use open_artifact.Store.Calls.Frame.{Holds}
use open_artifact.Store.Files.{File, add_file, new_file}
use open_artifact.Store.Packages.{package_of, version_of}
use open_artifact.Store.Files.Frame.{add_file-Keeps, file_meta_of-Keeps}
use open_artifact.Store.Packages.Handles.{
  add_package-Keeps, add_version-Keeps, package_annotate-Keeps, version_annotate-Keeps,
}
use open_artifact.Namespace.Registry.{scope_of}
use open_artifact.Surface.Site.{Deployment, at_store}
use open_artifact.Surface.Site.Frame.{at_store-Keeps}
use open_artifact.Surface.Http.{Request, or_write, with_max_body}
use open_artifact.Surface.Http.Frame.{called-Keeps}
use open_artifact.Surface.Generic
use open_artifact.Surface.Generic.{
  Config, store_of, stored, read_create, upsert_container, attempted, annotate_existing, tolerating,
  meta_or_zero, upload_options, upload_limit, upload_status,
}
use open_artifact.Surface.Generic.Routes.Reads.{
  Leaves, opened-Leaves, called-Leaves, reading-Leaves, lifted-Leaves,
}

module _ (d : Deployment) (cfg : Config) (decode_create : Bytes → Option (Dict Json))
    (type_of : Bytes → Bytes) (decimal : ℕ → Bytes) (lawful : IsLawful d.platform.bucket)
    (k : Bytes) (x : Option Bytes) where
  tolerating-Keeps :
      {A : Type 0} (m : Io (World d.platform) A)
      → Keeps (Holds d.platform k x) m
      → Keeps (Holds d.platform k x) (tolerating m)
  tolerating-Keeps m keeps = record { at = λ w h. keeps.at w h }

  attempted-Keeps :
      {A : Type 0} (m : Io (World d.platform) A)
      → Keeps (Holds d.platform k x) m
      → Keeps (Holds d.platform k x) (attempted d cfg decode_create type_of decimal m)
  unfolding attempted
  attempted-Keeps m keeps = record { at = λ w h. keeps.at w h }

  annotate_existing-Keeps :
      (annotate : Dict Json → Io (World d.platform) (Unit {0})) (ann : Dict Json)
      → ((a : Dict Json) → Keeps (Holds d.platform k x) (annotate a))
      → Keeps
          (Holds d.platform k x)
          (annotate_existing d cfg decode_create type_of decimal annotate ann)
  unfolding annotate_existing
  annotate_existing-Keeps annotate [] ka = Keeps-pure _
  annotate_existing-Keeps annotate (a ∷ ann) ka = ka (a ∷ ann)

  upsert_container-Keeps :
      {A : Type 0} (annotate : Dict Json → Io (World d.platform) (Unit {0}))
      (add : List CreateOption → Io (World d.platform) A) (ann : Dict Json)
      → ((a : Dict Json) → Keeps (Holds d.platform k x) (annotate a))
      → ((o : List CreateOption) → Keeps (Holds d.platform k x) (add o))
      → Keeps
          (Holds d.platform k x)
          (upsert_container d cfg decode_create type_of decimal annotate add ann)
  unfolding upsert_container
  upsert_container-Keeps annotate add ann ka kadd =
      Keeps-bind _ _ (attempted-Keeps _ (kadd _)) (λ created.
        Keeps-if created _ _ (Keeps-pure _)
          (Keeps-bind _ _ (annotate_existing-Keeps annotate ann ka) (λ u. Keeps-pure _)))

  module _ (r : Request) (ns : Bytes) where
    module _ (pkg : Bytes) where
      pub put_package-Leaves :
          package_meta_path (scope_of d.prefix ns format_generic) pkg ≢ k
          → Leaves d cfg decode_create type_of decimal lawful k x
              (Generic.put_package d cfg decode_create type_of decimal r ns pkg)
      unfolding Generic.put_package Leaves package_of
      put_package-Leaves ne =
          opened-Leaves d cfg decode_create type_of decimal lawful k x r ns true _ (λ s e.
            let at_scope = subst (λ scope. package_meta_path scope pkg ≢ k) (sym e) ne in
            Keeps-bind _ _ (reading-Leaves d cfg decode_create type_of decimal lawful k x r) (λ ann.
              Keeps-bind _ _
                (called-Leaves d cfg decode_create type_of decimal lawful k x _ (
                  upsert_container-Keeps _ _ ann
                    (λ a.
                      package_annotate-Keeps d.platform s lawful k x (package_of pkg) a at_scope)
                    (λ o. add_package-Keeps d.platform s lawful k x pkg o at_scope)))
                (λ status. Keeps-pure _)))

      ensure_package-Leaves :
          (s : Store)
          → package_meta_path s.scope pkg ≢ k
          → Leaves d cfg decode_create type_of decimal lawful k x
              (Generic.ensure_package d cfg decode_create type_of decimal s pkg)
      unfolding Generic.ensure_package Leaves
      ensure_package-Leaves s ne =
          called-Leaves d cfg decode_create type_of decimal lawful k x _
            (tolerating-Keeps _ (add_package-Keeps d.platform s lawful k x pkg [] ne))

      pub put_version-Leaves :
          (ver : Bytes)
          → package_meta_path (scope_of d.prefix ns format_generic) pkg ≢ k
          → version_meta_path (scope_of d.prefix ns format_generic) pkg ver ≢ k
          → Leaves d cfg decode_create type_of decimal lawful k x
              (Generic.put_version d cfg decode_create type_of decimal r ns pkg ver)
      unfolding Generic.put_version Leaves version_of package_of
      put_version-Leaves ver ne ne' =
          opened-Leaves d cfg decode_create type_of decimal lawful k x r ns true _ (λ s e.
            let at_package = subst (λ scope. package_meta_path scope pkg ≢ k) (sym e) ne in
            let at_version = subst (λ scope. version_meta_path scope pkg ver ≢ k) (sym e) ne' in
            Keeps-bind _ _ (reading-Leaves d cfg decode_create type_of decimal lawful k x r) (λ ann.
              Keeps-bind _ _ (ensure_package-Leaves s at_package) (λ u.
                Keeps-bind _ _
                  (called-Leaves d cfg decode_create type_of decimal lawful k x _ (
                    upsert_container-Keeps _ _ ann
                      (λ a.
                        version_annotate-Keeps d.platform s lawful k x
                          (version_of (package_of pkg) ver) a at_version)
                      (λ o.
                        add_version-Keeps d.platform s lawful k x (package_of pkg) ver o
                          at_version)))
                  (λ status. Keeps-pure _))))

      module _ (ver file : Bytes) where
        uploading-Leaves :
            (s : Store) (expected : List ExpectedDigest)
            → file_path s.scope pkg ver file ≢ k
            → file_meta_path s.scope pkg ver file ≢ k
            → Leaves d cfg decode_create type_of decimal lawful k x (
                or_write upload_status (
                  at_store d (
                    add_file d.platform s
                      (new_file s (version_of (package_of pkg) ver) file)
                      (with_max_body (upload_limit cfg) r.body)
                      (upload_options d cfg decode_create type_of decimal
                        (r.headers (codes "Content-Type"))
                        expected))))
        unfolding Leaves new_file version_of with_max_body upload_options package_of
        uploading-Leaves s expected ne ne' =
            called-Keeps d lawful k x _ _ (add_file-Keeps d.platform lawful k x s _ _ _ ne ne')

        described-Leaves :
            (s : Store) (f : File)
            → Leaves d cfg decode_create type_of decimal lawful k x
                (Generic.described d cfg decode_create type_of decimal s pkg ver file f)
        unfolding Generic.described Leaves
        described-Leaves s f = record {
          at = λ w h.
              (at_store-Keeps d lawful k x _ (file_meta_of-Keeps d.platform lawful k x s f)).at w h;
        }

        pub upload_file-Leaves :
            package_meta_path (scope_of d.prefix ns format_generic) pkg ≢ k
            → version_meta_path (scope_of d.prefix ns format_generic) pkg ver ≢ k
            → file_path (scope_of d.prefix ns format_generic) pkg ver file ≢ k
            → file_meta_path (scope_of d.prefix ns format_generic) pkg ver file ≢ k
            → Leaves d cfg decode_create type_of decimal lawful k x
                (Generic.upload_file d cfg decode_create type_of decimal r ns pkg ver file)
        unfolding Generic.upload_file Leaves package_of
        upload_file-Leaves ne ne₁ ne₂ ne₃ =
            opened-Leaves d cfg decode_create type_of decimal lawful k x r ns true _ (λ s e.
              let at =
                λ (path : Bytes → Bytes) (ne : path (scope_of d.prefix ns format_generic) ≢ k).
                  subst (λ scope. path scope ≢ k) (sym e) ne in
              Keeps-bind _ _ (lifted-Leaves d cfg decode_create type_of decimal lawful k x _)
                (λ expected.
                  Keeps-bind _ _ (ensure_package-Leaves s (at (λ c. package_meta_path c pkg) ne))
                    (λ u.
                      Keeps-bind _ _
                        (called-Leaves d cfg decode_create type_of decimal lawful k x _ (
                          tolerating-Keeps _ (
                            add_version-Keeps d.platform s lawful k x (package_of pkg) ver []
                              (at (λ c. version_meta_path c pkg ver) ne₁))))
                        (λ u.
                          Keeps-bind _ _
                            (uploading-Leaves s expected (at (λ c. file_path c pkg ver file) ne₂)
                              (at (λ c. file_meta_path c pkg ver file) ne₃))
                            (described-Leaves s)))))
