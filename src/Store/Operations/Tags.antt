-- ===== src/Store/Operations/Tags.antt =====
-- The tags of a scope as a map from a package and a tag to a version, over the writing operations of
-- pkg/core/blobstore/store.go.
use open_artifact.Shared.{
  ◌≡◌, ◌≢◌, refl, ap, ◌∙◌, subst, true, ◌&&◌, Bool-cases, and_eq_true, inl, inr, Option, some, List,
  [], ◌∷◌, Bytes, All, bytes_eq, if◌then◌else◌, ok,
}
use open_artifact.Shared.Strings.Laws.{eq_of_bytes_eq, bytes_eq_refl}
use open_artifact.Shared.Maps.{Dict}
use open_artifact.Core.{Json, CreateOption}
use open_artifact.Store.Io.{Io, pure, ◌>>◌}
use open_artifact.Store.Io.Inversion.{bind_ok}
use open_artifact.Store.Bucket.{IsLawful}
use open_artifact.Store.Paths.{tag_path}
use open_artifact.Store.Paths.Layout.{
  Object, object_path, IsProper, object_path-injective, package_meta, version_meta, version_file,
  version_file_meta, tag,
}
use open_artifact.Store.Calls.{Platform, World, Store, Body}
use open_artifact.Store.Files.{new_file}
use open_artifact.Store.Packages.{package_of, version_of}
use open_artifact.Store.Packages
use open_artifact.Store.Packages.Aliases.{set_tag_done}
use open_artifact.Store.Operations
use open_artifact.Store.Operations.{Operation, perform, drop_value, targets}
use open_artifact.Store.Operations.Frame.{perform_frame}

-- The writing operations on packages, versions, tags and the files of versions, by names.
pub data Command : Type 0 where
  set_tag : Bytes → Bytes → Bytes → Command
  add_package : Bytes → List CreateOption → Command
  annotate_package : Bytes → Dict Json → Command
  add_version : Bytes → Bytes → List CreateOption → Command
  annotate_version : Bytes → Bytes → Dict Json → Command
  add_file : Bytes → Bytes → Bytes → Body → List CreateOption → Command
  delete_file : Bytes → Bytes → Bytes → Command

-- The operation of the store that a command stands for.
unfoldable pub operation : Store → Command → Operation
operation s (set_tag k n t) = Operations.set_tag (package_of k) n t
operation s (add_package k opts) = Operations.add_package k opts
operation s (annotate_package k a) = Operations.package_annotate (package_of k) a
operation s (add_version k v opts) = Operations.add_version (package_of k) v opts
operation s (annotate_version k v a) = Operations.version_annotate (version_of (package_of k) v) a
operation s (add_file k v f body opts) =
    Operations.add_file (new_file s (version_of (package_of k) v) f) body opts
operation s (delete_file k v f) =
    Operations.file_delete (new_file s (version_of (package_of k) v) f)

-- The objects that a command writes.
unfoldable pub touched : Command → List Object
touched (set_tag k n t) = tag k n ∷ []
touched (add_package k opts) = package_meta k ∷ []
touched (annotate_package k a) = package_meta k ∷ []
touched (add_version k v opts) = version_meta k v ∷ []
touched (annotate_version k v a) = version_meta k v ∷ []
touched (add_file k v f body opts) = version_file k v f ∷ version_file_meta k v f ∷ []
touched (delete_file k v f) = version_file k v f ∷ version_file_meta k v f ∷ []

-- The abstract store of tags, and what a command does to it.
abbrev pub TagMap : Type 0
TagMap = Bytes → Bytes → Option Bytes

unfoldable pub after_command : Command → TagMap → TagMap
after_command (set_tag k n t) tags k' n' =
    if bytes_eq k k' && bytes_eq n n' then some t else tags k' n'
after_command (add_package k opts) tags k' n' = tags k' n'
after_command (annotate_package k a) tags k' n' = tags k' n'
after_command (add_version k v opts) tags k' n' = tags k' n'
after_command (annotate_version k v a) tags k' n' = tags k' n'
after_command (add_file k v f body opts) tags k' n' = tags k' n'
after_command (delete_file k v f) tags k' n' = tags k' n'

-- Commands one after the other, each if those before it returned.
unfoldable pub after_commands : List Command → TagMap → TagMap
unfolding after_command
after_commands [] tags k n = tags k n
after_commands (c ∷ cs) tags k n = after_commands cs (after_command c tags) k n

-- The tags that the bucket holds.
unfoldable pub tags_of : (p : Platform) → Store → World p → TagMap
tags_of p s w k n = p.bucket.content w.disk (tag_path s.scope k n)

module _ (p : Platform) (s : Store) where
  -- The commands one after the other; the first that fails ends the sequence.
  unfoldable pub run : List Command → Io (World p) (Unit {0})
  run [] = pure tt
  run (c ∷ cs) = let rest = run cs in perform p s (operation s c) >> rest

module _ (p : Platform) (s : Store) (lawful : IsLawful p.bucket) where
  distinct :
      (a o : Object)
      → IsProper a
      → IsProper o
      → a ≢ o
      → object_path s.scope a ≢ object_path s.scope o
  distinct a o ha ho ne = λ e. ne (object_path-injective s.scope a o ha ho e)

  -- A command leaves every tag alone that it does not set.
  command_frame :
      (c : Command) (k n : Bytes) (w : World p)
      → All IsProper (touched c)
      → IsProper (tag k n)
      → All (λ o. o ≢ tag k n) (touched c)
      → tags_of p s (perform p s (operation s c) w).1 k n ≡ tags_of p s w k n
  unfolding tags_of operation touched targets object_path package_of version_of new_file
  command_frame (set_tag k' n' t) k n w (h, u) ho (ne, u') =
      perform_frame p s _ _ w lawful (distinct (tag k' n') (tag k n) h ho ne, tt)
  command_frame (add_package k' opts) k n w (h, u) ho (ne, u') =
      perform_frame p s _ _ w lawful (distinct (package_meta k') (tag k n) h ho ne, tt)
  command_frame (annotate_package k' a) k n w (h, u) ho (ne, u') =
      perform_frame p s _ _ w lawful (distinct (package_meta k') (tag k n) h ho ne, tt)
  command_frame (add_version k' v opts) k n w (h, u) ho (ne, u') =
      perform_frame p s _ _ w lawful (distinct (version_meta k' v) (tag k n) h ho ne, tt)
  command_frame (annotate_version k' v a) k n w (h, u) ho (ne, u') =
      perform_frame p s _ _ w lawful (distinct (version_meta k' v) (tag k n) h ho ne, tt)
  command_frame (add_file k' v f body opts) k n w (h, (h₁, u)) ho (ne, (ne₁, u')) =
      perform_frame p s _ _ w lawful (
        distinct (version_file k' v f) (tag k n) h ho ne,
        (distinct (version_file_meta k' v f) (tag k n) h₁ ho ne₁, tt),
      )
  command_frame (delete_file k' v f) k n w (h, (h₁, u)) ho (ne, (ne₁, u')) =
      perform_frame p s _ _ w lawful (
        distinct (version_file k' v f) (tag k n) h ho ne,
        (distinct (version_file_meta k' v f) (tag k n) h₁ ho ne₁, tt),
      )

  -- A SetTag that returned set its tag.
  tag_set :
      (k n target : Bytes) (w : World p)
      → (perform p s (operation s (set_tag k n target)) w).0 ≡ ok tt
      → tags_of p s (perform p s (operation s (set_tag k n target)) w).1 k n ≡ some target
  unfolding perform drop_value operation tags_of package_of
  tag_set k n target w returned =
      let (u, done, rest, e) =
        bind_ok (Packages.set_tag p s (package_of k) n target) _ w returned in
      ap (λ r. p.bucket.content r.1.disk (tag_path s.scope k n)) e
      ∙ set_tag_done p s lawful (package_of k) n target w done

  names_of : Object → Bytes × Bytes
  names_of (tag k n) = (k, n)
  names_of o = ([], [])

  same_names : {k' n' k n : Bytes} → tag k' n' ≡ tag k n → (bytes_eq k' k && bytes_eq n' n) ≡ true
  unfolding names_of
  same_names {k'} {n'} e =
      subst (λ q. (bytes_eq k' q.0 && bytes_eq n' q.1) ≡ true) (ap names_of e)
        (rw (bytes_eq_refl k', bytes_eq_refl n') refl)

  set_tag_refines :
      (k' n' target k n : Bytes) (w : World p)
      → All IsProper (touched (set_tag k' n' target))
      → IsProper (tag k n)
      → (perform p s (operation s (set_tag k' n' target)) w).0 ≡ ok tt
      → tags_of p s (perform p s (operation s (set_tag k' n' target)) w).1 k n
        ≡ after_command (set_tag k' n' target) (tags_of p s w) k n
  unfolding after_command touched
  set_tag_refines k' n' target k n w h ho returned =
      elim (Bool-cases (bytes_eq k' k && bytes_eq n' n)) [
        | inl same ↦
            let (same_k, same_n) = and_eq_true (bytes_eq k' k) (bytes_eq n' n) same in
            let here =
              subst
                (λ k.
                  tags_of p s (perform p s (operation s (set_tag k' n' target)) w).1 k n
                  ≡ some target)
                (eq_of_bytes_eq k' k same_k)
                (subst
                  (λ n.
                    tags_of p s (perform p s (operation s (set_tag k' n' target)) w).1 k' n
                    ≡ some target)
                  (eq_of_bytes_eq n' n same_n) (tag_set k' n' target w returned)) in
            rw (same) here
        | inr other ↦ rw (other) (
            command_frame (set_tag k' n' target) k n w h ho
              ((λ e. absurd (cc (other, same_names e))), tt))
      ]

  -- A command that returned does to the tags what it does to the abstract map.
  command_refines :
      (c : Command) (k n : Bytes) (w : World p)
      → All IsProper (touched c)
      → IsProper (tag k n)
      → (perform p s (operation s c) w).0 ≡ ok tt
      → tags_of p s (perform p s (operation s c) w).1 k n ≡ after_command c (tags_of p s w) k n
  unfolding after_command touched
  command_refines (set_tag k' n' t) k n w h ho returned =
      set_tag_refines k' n' t k n w h ho returned
  command_refines (add_package k' opts) k n w h ho returned =
      command_frame (add_package k' opts) k n w h ho ((λ e. absurd (cc)), tt)
  command_refines (annotate_package k' a) k n w h ho returned =
      command_frame (annotate_package k' a) k n w h ho ((λ e. absurd (cc)), tt)
  command_refines (add_version k' v opts) k n w h ho returned =
      command_frame (add_version k' v opts) k n w h ho ((λ e. absurd (cc)), tt)
  command_refines (annotate_version k' v a) k n w h ho returned =
      command_frame (annotate_version k' v a) k n w h ho ((λ e. absurd (cc)), tt)
  command_refines (add_file k' v f body opts) k n w h ho returned =
      command_frame (add_file k' v f body opts) k n w h ho
        ((λ e. absurd (cc)), ((λ e. absurd (cc)), tt))
  command_refines (delete_file k' v f) k n w h ho returned =
      command_frame (delete_file k' v f) k n w h ho ((λ e. absurd (cc)), ((λ e. absurd (cc)), tt))

  after_command-congruent :
      (c : Command) (k n : Bytes) (f g : TagMap)
      → f k n ≡ g k n
      → after_command c f k n ≡ after_command c g k n
  unfolding after_command
  after_command-congruent (set_tag k' n' t) k n f g e =
      ap (λ x. if bytes_eq k' k && bytes_eq n' n then some t else x) e
  after_command-congruent (add_package k' opts) k n f g e = e
  after_command-congruent (annotate_package k' a) k n f g e = e
  after_command-congruent (add_version k' v opts) k n f g e = e
  after_command-congruent (annotate_version k' v a) k n f g e = e
  after_command-congruent (add_file k' v x body opts) k n f g e = e
  after_command-congruent (delete_file k' v x) k n f g e = e

  after_commands-congruent :
      (cs : List Command) (k n : Bytes) (f g : TagMap)
      → f k n ≡ g k n
      → after_commands cs f k n ≡ after_commands cs g k n
  unfolding after_commands
  after_commands-congruent [] k n f g e = e
  after_commands-congruent (c ∷ cs) k n f g e =
      after_commands-congruent cs k n (after_command c f) (after_command c g)
        (after_command-congruent c k n f g e)

  -- A sequence of commands with accepted names that returned leaves, under every accepted tag of every
  -- accepted package, what the abstract map holds after the same commands.
  pub run_refines :
      (cs : List Command) (k n : Bytes) (w : World p)
      → All (λ c. All IsProper (touched c)) cs
      → IsProper (tag k n)
      → (run p s cs w).0 ≡ ok tt
      → tags_of p s (run p s cs w).1 k n ≡ after_commands cs (tags_of p s w) k n
  unfolding run after_commands
  run_refines [] k n w h ho returned = refl
  run_refines (c ∷ cs) k n w (h, hs) ho returned =
      let (u, done, rest, e) = bind_ok (perform p s (operation s c)) (λ _. run p s cs) w returned in
      let after = (perform p s (operation s c) w).1 in
      ap (λ r. tags_of p s r.1 k n) e
      ∙ run_refines cs k n after hs ho rest
      ∙ after_commands-congruent cs k n (tags_of p s after) (after_command c (tags_of p s w))
          (command_refines c k n w h ho done)
