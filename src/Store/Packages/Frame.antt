-- ===== src/Store/Packages/Frame.antt =====
-- The helpers of the package handles that read several objects, or create one.
use open_artifact.Shared.{◌≢◌, Option, List, [], ◌∷◌, Bytes, Result, ok, false}
use open_artifact.Shared.Maps.{Dict}
use open_artifact.Core.{CreateOption}
use open_artifact.Store.Io.Keeps.{Keeps, Keeps-bind, keeps_rules}
use open_artifact.Store.Bucket.{IsLawful}
use open_artifact.Store.Calls.{Platform, World, Store, read_tag_target}
use open_artifact.Store.Calls.Frame.{
  Holds, clock-Keeps, b_exists-Keeps, write_meta-Keeps, list_child_names-Keeps,
  has_descendant-Keeps, read_tag_target-Keeps,
}
use open_artifact.Store.Files.{Package}
use open_artifact.Store.Files.Frame.{admit-Keeps}
use open_artifact.Store.Packages.{record_exists, create_record, read_targets, gather, tag_targets}
use open_artifact.Store.Paths.{decode_segment}

module _ (p : Platform) (s : Store) (lawful : IsLawful p.bucket) (k : Bytes)
    (x : Option Bytes) where
  pub create_record-Keeps :
      (path : Bytes) (opts : List CreateOption)
      → path ≢ k
      → Keeps (Holds p k x) (create_record p s path opts)
  unfolding create_record
  create_record-Keeps path opts ne =
      Keeps-bind _ _ (clock-Keeps p lawful k x) (λ now. write_meta-Keeps p lawful k x path _ _ ne)

  pub record_exists-Keeps :
      (path prefix : Bytes) → Keeps (Holds p k x) (record_exists p s path prefix)
  unfolding record_exists
  record_exists-Keeps path prefix =
      search (keeps_rules, b_exists-Keeps p lawful k x, has_descendant-Keeps p lawful k x)

  read_targets-Keeps :
      (g : Package) (names : List Bytes) (out : Result (Dict Bytes)) (w : World p)
      → Holds p k x w
      → Holds p k x (read_targets p s g names out w).1
  unfolding read_targets
  read_targets-Keeps g [] out w h = h
  read_targets-Keeps g (n ∷ names) out w h =
      let (r, w') = read_tag_target p s.scope g.name (decode_segment n) w in
      read_targets-Keeps g names (gather p s (decode_segment n) r out) w'
        ((read_tag_target-Keeps p lawful k x s.scope g.name (decode_segment n)).at w h)

  pub tag_targets-Keeps : (g : Package) → Keeps (Holds p k x) (tag_targets p s g)
  unfolding tag_targets
  tag_targets-Keeps g = Keeps-bind _ _ (admit-Keeps p lawful k x s g.name_err false) (λ u.
      Keeps-bind _ _ (list_child_names-Keeps p lawful k x _)
        (λ names. record { at = λ w h. read_targets-Keeps g names (ok []) w h }))
