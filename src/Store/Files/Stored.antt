-- ===== src/Store/Files/Stored.antt =====
-- AddFile of a version in pkg/core/blobstore/store.go: what is in the bucket afterwards.
use open_artifact.Shared.{
  ◌≡◌, ◌≢◌, ap, sym, subst, ◌∙◌, arith, true, false, some, List, ◌++◌, append_assoc, Bytes, length,
  ok, ok_injective,
}
use open_artifact.Shared.Strings.Laws.{append_cancel, length-append}
use open_artifact.Core.{Meta, CreateOption, new_create_config}
use open_artifact.Store.Paths.{
  meta_file_prefix, encode_segment, files_prefix, level_file_path, level_file_meta_path, file_path,
  file_meta_path, version_prefix,
}
use open_artifact.Store.Io.Inversion.{bind_ok}
use open_artifact.Store.Bucket.{IsLawful}
use open_artifact.Store.Calls.{Platform, World, Store, Body}
use open_artifact.Store.Files.{Version, File, new_file, admit, add_file}
use open_artifact.Store.Files.Frame.{admit-Keeps}
use open_artifact.Store.Files.Atomic.{
  IsIntact, IsStored, IsAborted, IsAborted-bind, IsAborted-then, write_file-IsStored,
  write_file-IsAborted, write_file_taken,
}

-- Of any name, valid or not, the blob and the sidecar have different keys.
pub meta_path_ne_path :
    (dir name : Bytes) → level_file_meta_path dir name ≢ level_file_path dir name
unfolding level_file_meta_path level_file_path
meta_path_ne_path dir name e =
    let whole : files_prefix dir ++ (meta_file_prefix ++ encode_segment name)
        ≡ files_prefix dir ++ encode_segment name =
      sym (append_assoc (files_prefix dir) meta_file_prefix (encode_segment name)) ∙ e in
    let tail =
      append_cancel (files_prefix dir) (meta_file_prefix ++ encode_segment name)
        (encode_segment name) whole in
    absurd (omega (arith, ap length tail, length-append meta_file_prefix (encode_segment name)))

module _ (p : Platform) (s : Store) (v : Version) (name : Bytes) (lawful : IsLawful p.bucket) where
  keys_differ : (new_file s v name).meta_key ≢ (new_file s v name).blob_key
  unfolding new_file file_path file_meta_path
  keys_differ = meta_path_ne_path (version_prefix s.scope v.pkg.name v.name) name

  -- An upload that returned took a body that was streamed to its end and has every declared digest;
  -- the bucket holds those bytes under the file's path, and under its sidecar an envelope with their
  -- number and their SHA-256 digest.
  pub add_file-IsStored :
      (body : Body) (opts : List CreateOption) (w : World p) {f : File}
      → (add_file p s (new_file s v name) body opts w).0 ≡ ok f
      → (f ≡ new_file s v name)
        × IsIntact p body (new_create_config opts)
        × ((m : Meta) × IsStored p
              (new_file s v name).blob_key
              (new_file s v name).meta_key
              body
              m
              (add_file p s (new_file s v name) body opts w).1)
  unfolding add_file
  add_file-IsStored body opts w h =
      let (u, r, h₁, e₁) = bind_ok _ _ w h in
      let (m, r₂, h₂, e₂) = bind_ok _ _ _ h₁ in
      let (intact, stored) = write_file-IsStored p lawful _ _ body _ _ keys_differ r₂ in
      (
        sym (ok_injective h₂),
        intact,
        (
          m,
          subst
              (λ r. IsStored p (new_file s v name).blob_key (new_file s v name).meta_key body m r.1)
              (sym (e₁ ∙ e₂)) stored,
        ),
      )

  -- An upload whose body ends early, or lacks a declared digest, fails and changes no object.
  pub add_file-IsAborted :
      (body : Body) (opts : List CreateOption) (w : World p)
      → ¬ IsIntact p body (new_create_config opts)
      → IsAborted p lawful (add_file p s (new_file s v name) body opts) w
  unfolding add_file
  add_file-IsAborted body opts w broken =
      IsAborted-bind p lawful (admit p s (new_file s v name).name_err true) _ w
        (λ k x. admit-Keeps p lawful k x s (new_file s v name).name_err true)
        (λ u r. IsAborted-then p lawful _ _ _ (write_file-IsAborted p lawful _ _ body _ _ broken))

  -- An upload over a file that is there, without the option to overwrite, fails and changes no object.
  pub add_file_taken :
      (body : Body) (opts : List CreateOption) (w : World p) {x : Bytes}
      → (new_create_config opts).allow_overwrite ≡ false
      → p.bucket.content w.disk (new_file s v name).blob_key ≡ some x
      → IsAborted p lawful (add_file p s (new_file s v name) body opts) w
  unfolding add_file
  add_file_taken body opts w {x} new there =
      let check = admit-Keeps p lawful (new_file s v name).blob_key (some x) s in
      IsAborted-bind p lawful (admit p s (new_file s v name).name_err true) _ w
        (λ k y. admit-Keeps p lawful k y s (new_file s v name).name_err true)
        (λ u r. IsAborted-then p lawful _ _ _ (
          write_file_taken p lawful _ _ body _ _ new
            ((check (new_file s v name).name_err true).at w there)))
