-- ===== src/Store/Packages/Aliases.antt =====
-- SetTag and Ref of pkg/core/blobstore/store.go, one after the other.
use open_artifact.Shared.{◌≡◌, ap, sym, ◌∙◌, false, none, some, Bytes, trim_space, ok, ok_injective}
use mathlib.Core.Option.{some-injective}
use open_artifact.Store.Io.Inversion.{bind_ok}
use open_artifact.Store.Bucket.{IsLawful}
use open_artifact.Store.Paths.{tag_path}
use open_artifact.Store.Calls.{
  Platform, World, Store, map_err, on_disk, b_read_all, b_write_all, read_tag_target,
  write_tag_target,
}
use open_artifact.Store.Files.{Package, Version}
use open_artifact.Store.Files.Frame.{admit-Keeps}
use open_artifact.Store.Files.Uploads.{answer_ok}
use open_artifact.Store.Packages.{tag_of, set_tag, tag_ref}

module _ (p : Platform) (s : Store) (lawful : IsLawful p.bucket) where
  write_tag_target_done :
      (pkg tag target : Bytes) (w : World p)
      → (write_tag_target p s.scope pkg tag target w).0 ≡ ok tt
      → p.bucket.content
          (write_tag_target p s.scope pkg tag target w).1.disk
          (tag_path s.scope pkg tag)
        ≡ some target
  unfolding write_tag_target b_write_all on_disk
  write_tag_target_done pkg tag target w h =
      lawful.write_done (tag_path s.scope pkg tag) target false w.disk (answer_ok p map_err _ h)

  read_tag_target_ok :
      (pkg tag target : Bytes) (w : World p) {name : Bytes}
      → p.bucket.content w.disk (tag_path s.scope pkg tag) ≡ some target
      → (read_tag_target p s.scope pkg tag w).0 ≡ ok name
      → name ≡ trim_space target
  unfolding read_tag_target
  read_tag_target_ok pkg tag target w there h =
      let (raw, r, h₁, e₁) = bind_ok _ _ w h in
      let read : p.bucket.content w.disk (tag_path s.scope pkg tag) ≡ some raw =
        lawful.read_answer (tag_path s.scope pkg tag) w.disk
          (unfold b_read_all on_disk in answer_ok p map_err _ r) in
      sym (ok_injective h₁) ∙ ap trim_space (some-injective _ _ (sym read ∙ there))

  -- A SetTag that returned stored its target.
  pub set_tag_done :
      (k : Package) (name target : Bytes) (w : World p)
      → (set_tag p s k name target w).0 ≡ ok tt
      → p.bucket.content (set_tag p s k name target w).1.disk (tag_path s.scope k.name name)
        ≡ some target
  unfolding set_tag
  set_tag_done k name target w done =
      let (u, r, h, e) = bind_ok _ _ w done in
      ap (λ r. p.bucket.content r.1.disk (tag_path s.scope k.name name)) e
      ∙ write_tag_target_done k.name name target _ h

  -- If a tag was set and its Ref then returned, the version is the package's, under the target that was
  -- set, without the white space around it.
  pub tag_ref-set_tag :
      (k : Package) (name target : Bytes) (w : World p) {v : Version}
      → (set_tag p s k name target w).0 ≡ ok tt
      → (tag_ref p s (tag_of k name) (set_tag p s k name target w).1).0 ≡ ok v
      → v ≡ record { pkg = k; name = trim_space target; name_err = none }
  unfolding set_tag tag_ref tag_of
  tag_ref-set_tag k name target w {v} done got =
      let (u, r, h, e) = bind_ok _ _ w done in
      let w₁ = (set_tag p s k name target w).1 in
      let there : p.bucket.content w₁.disk (tag_path s.scope k.name name) ≡ some target =
        ap (λ r. p.bucket.content r.1.disk (tag_path s.scope k.name name)) e
        ∙ write_tag_target_done k.name name target _ h in
      let (u', r', h', e') = bind_ok _ _ w₁ got in
      let (found, r'', h'', e'') = bind_ok _ _ _ h' in
      let kept =
        (admit-Keeps p lawful (tag_path s.scope k.name name) (some target) s
            (tag_of k name).name_err false).at
          w₁ there in
      sym (ok_injective h'')
      ∙ ap (λ n. record { pkg = k; name = n; name_err = none })
          (read_tag_target_ok k.name name target _ kept r'')
