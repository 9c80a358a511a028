-- ===== src/Tests/StoreTests.antt =====
-- Runs of the blob store on the bucket in memory.
use open_artifact.Shared.{
  ◌⊎◌, inr, true, none, trim_space, ◌≡◌, ◌≢◌, refl, ap, ◌∙◌, some, [], ◌∷◌, Bytes, codes, arith,
  All, Lacks, unauthorized, trim, bytes_eq, ok, err, ℕ,
}
use mathlib.Core.Option.{some-injective}
use open_artifact.Core.{Meta, new_create_config}
use open_artifact.Shared.Maps.{get, put}
use open_artifact.Store.Paths.{
  validate_name, first_err, encode_segment, decode_segment, file_path, file_meta_path,
  level_file_path, level_file_meta_path, version_prefix, files_prefix, package_prefix,
  package_tags_prefix, scope_prefix, tag_path,
}
use open_artifact.Escape.{query_escape}
use open_artifact.Shared.Strings.Laws.{bytes_eq_refl}
use open_artifact.Store.Io
use open_artifact.Store.Files.Uploads.{IsDeclared}
use open_artifact.Store.Paths.Layout.{tag, IsProper, object_path-injective}
use open_artifact.Store.Paths.Segments.{decode_segment-encode_segment}
use open_artifact.Store.Calls.{
  World, Store, authorize, b_exists, on_disk, b_new_writer, stream_body, close_writer, abort_writer,
  b_write_all, digest_of, write_meta, encoded,
}
use open_artifact.Store.Files.Deleted.{file_delete_absent}
use open_artifact.Store.Files.{
  file_delete, Version, File, new_file, add_file, admit, write_file, verifiers, verify, file_meta,
}
use open_artifact.Store.Files.Atomic.{IsIntact, IsStored, IsAborted}
use open_artifact.Store.Files.Stored.{add_file-IsStored, add_file-IsAborted, add_file_taken}
use open_artifact.Store.Packages.{set_tag, tag_ref, tag_of}
use open_artifact.Store.Packages.Aliases.{tag_ref-set_tag}
use open_artifact.Store.Operations
use open_artifact.Store.Operations.{Operation, perform, targets, name_error, needs_write}
use open_artifact.Store.Operations.Refused.{perform_refused}
use open_artifact.Store.Operations.Frame.{perform_frame}
use open_artifact.Shared.{List, take, if◌then◌else◌, ◌==◌}
use open_artifact.Store.Operations.Tags
use open_artifact.Store.Operations.Tags.{Command, run_refines}
use open_artifact.Store.Memo.{Entry, evict}
use open_artifact.Store.Memo.Eviction.{evict_ends}
use open_artifact.Store.Files.Complete.{add_file_returns}
use open_artifact.Tests.Memory.{memory-IsLawful, memory-IsReliable}
use open_artifact.Tests.Fixtures.{
  platform, empty_world, open_store, one_version, file_name, greeting, declared, misdeclared,
}

decode_segment-encode_segment_example :
    (decode_segment (encode_segment (codes "a/b")) ≡ codes "a/b")
    × Lacks b'/' (encode_segment (codes "a/b"))
decode_segment-encode_segment_example = decode_segment-encode_segment (codes "a/b") (omega arith)

latest_IsProper : IsProper (tag (codes "lib") (codes "latest"))
unfolding IsProper
latest_IsProper = omega arith

object_path-injective_example :
    tag (codes "lib") (codes "latest") ≡ tag (codes "lib") (codes "latest")
object_path-injective_example =
    object_path-injective (codes "acme/generic") (tag (codes "lib") (codes "latest"))
      (tag (codes "lib") (codes "latest")) latest_IsProper latest_IsProper refl

-- Two commands: a package record, then a tag of the package.
abbrev two_commands : List Command
two_commands =
    Tags.add_package (codes "lib") []
    ∷ Tags.set_tag (codes "lib") (codes "latest") (codes "1.0")
    ∷ []

commands_named : All (λ c. All IsProper (Tags.touched c)) two_commands
unfolding IsProper Tags.touched
commands_named = omega arith

commands_run : (Tags.run platform open_store two_commands empty_world).0 ≡ ok tt
unfolding Tags.run open_artifact.Store.Operations.perform open_artifact.Store.Packages.add_package
    set_tag admit Io.◌>>=◌ first_err validate_name authorize b_exists on_disk digest_of write_meta
    encoded new_create_config package_prefix scope_prefix encode_segment query_escape trim get put
    bytes_eq b_write_all Tags.operation open_artifact.Store.Packages.package_of
    open_artifact.Store.Calls.write_tag_target
commands_run = refl

run_refines_example :
    Tags.tags_of platform open_store
      (Tags.run platform open_store two_commands empty_world).1
      (codes "lib")
      (codes "latest")
    ≡ Tags.after_commands two_commands
        (Tags.tags_of platform open_store empty_world)
        (codes "lib")
        (codes "latest")
run_refines_example =
    run_refines platform open_store memory-IsLawful two_commands (codes "lib") (codes "latest")
      empty_world commands_named latest_IsProper commands_run

abbrev denied_store : Store
denied_store = record { scope = codes "acme/generic"; guard = some (λ write. some unauthorized) }

perform_refused_example :
    perform platform denied_store (Operations.add_package (codes "lib") []) empty_world
    ≡ (err unauthorized, empty_world)
unfolding first_err name_error needs_write authorize validate_name
perform_refused_example =
    perform_refused platform denied_store (Operations.add_package (codes "lib") []) empty_world
      unauthorized refl

abbrev tagging : Operation
tagging = Operations.set_tag one_version.pkg (codes "latest") (codes "1.0")

tagging_elsewhere : All (λ t. t ≢ codes "other") (targets open_store tagging)
unfolding targets tag_path package_tags_prefix package_prefix scope_prefix encode_segment
    query_escape trim
tagging_elsewhere = ((λ e. absurd (ground arith)), tt)

perform_frame_example :
    platform.bucket.content (perform platform open_store tagging empty_world).1.disk (codes "other")
    ≡ platform.bucket.content empty_world.disk (codes "other")
perform_frame_example =
    perform_frame platform open_store tagging (codes "other") empty_world memory-IsLawful
      tagging_elsewhere

abbrev stored_file : File
stored_file = new_file open_store one_version file_name

upload_returns :
    (add_file platform open_store stored_file greeting declared empty_world).0 ≡ ok stored_file
unfolding add_file admit write_file Io.◌>>=◌ first_err validate_name authorize b_exists on_disk
    b_new_writer stream_body close_writer abort_writer verifiers verify file_meta digest_of
    write_meta encoded new_create_config file_path file_meta_path level_file_path
    level_file_meta_path version_prefix files_prefix package_prefix scope_prefix encode_segment
    query_escape trim get put bytes_eq new_file b_write_all
upload_returns = refl

add_file-IsStored_example :
    (stored_file ≡ stored_file)
    × IsIntact platform greeting (new_create_config declared)
    × ((m : Meta) × IsStored platform stored_file.blob_key stored_file.meta_key greeting m
          (add_file platform open_store stored_file greeting declared empty_world).1)
add_file-IsStored_example =
    add_file-IsStored platform open_store one_version file_name memory-IsLawful greeting declared
      empty_world upload_returns

misdeclared_broken : ¬ IsIntact platform greeting (new_create_config misdeclared)
unfolding IsIntact IsDeclared new_create_config
misdeclared_broken (whole, ((h, same, sum), rest)) =
    absurd
      (ground (arith, ap (λ (f : Bytes → Bytes). f (codes "hi")) (some-injective _ _ same) ∙ sum))

add_file-IsAborted_example :
    IsAborted platform memory-IsLawful
      (add_file platform open_store stored_file greeting misdeclared)
      empty_world
add_file-IsAborted_example =
    add_file-IsAborted platform open_store one_version file_name memory-IsLawful greeting
      misdeclared empty_world misdeclared_broken

abbrev full_world : World platform
full_world = record empty_world { disk = (stored_file.blob_key, codes "old") ∷ [] }

already_there : platform.bucket.content full_world.disk stored_file.blob_key ≡ some (codes "old")
unfolding get
already_there = rw (bytes_eq_refl stored_file.blob_key) refl

add_file_taken_example :
    IsAborted platform memory-IsLawful
      (add_file platform open_store stored_file greeting declared)
      full_world
unfolding new_create_config
add_file_taken_example =
    add_file_taken platform open_store one_version file_name memory-IsLawful greeting declared
      full_world refl already_there

abbrev two_entries : List (Entry ℕ)
two_entries =
    record { key = codes "new"; val = 1; expiry = 9 }
    ∷ record { key = codes "old"; val = 2; expiry = 9 }
    ∷ []

evict_ends_example : evict 5 1 two_entries ≡ (if 1 == 0 then two_entries else take 1 two_entries)
evict_ends_example = evict_ends 5 1 two_entries (omega arith)

greeting_admitted :
    first_err
      ((new_file open_store one_version file_name).name_err ∷ authorize open_store true ∷ [])
    ≡ none
unfolding first_err new_file validate_name authorize
greeting_admitted = refl

greeting-IsIntact : IsIntact platform greeting (new_create_config declared)
unfolding IsIntact IsDeclared new_create_config
greeting-IsIntact = (refl, (((λ b. b), refl, refl), tt))

path_free :
    ((new_create_config declared).allow_overwrite ≡ true)
    ⊎ (platform.bucket.content empty_world.disk stored_file.blob_key ≡ none)
unfolding get
path_free = inr refl

add_file_returns_example :
    ((add_file platform open_store stored_file greeting declared empty_world).0 ≡ ok stored_file)
    × ((m : Meta) × IsStored platform stored_file.blob_key stored_file.meta_key greeting m
          (add_file platform open_store stored_file greeting declared empty_world).1)
add_file_returns_example =
    add_file_returns platform memory-IsReliable memory-IsLawful open_store one_version file_name
      greeting declared empty_world (λ m. (m.digest, refl)) greeting_admitted greeting-IsIntact
      path_free

-- The white space around a target is not part of the version that the tag refers to.
abbrev spaced : Bytes
spaced = codes " .meta"

spaced_set :
    (set_tag platform open_store one_version.pkg (codes "latest") spaced empty_world).0 ≡ ok tt
unfolding set_tag Io.◌>>=◌ admit first_err validate_name open_artifact.Store.Calls.write_tag_target
    b_write_all
spaced_set = refl

abbrev dotted_version : Version
dotted_version = record { pkg = one_version.pkg; name = codes ".meta"; name_err = none }

spaced_read :
    (tag_ref platform open_store
      (tag_of one_version.pkg (codes "latest"))
      (set_tag platform open_store one_version.pkg (codes "latest") spaced empty_world).1).0
    ≡ ok dotted_version
unfolding set_tag tag_ref Io.◌>>=◌ admit tag_of first_err validate_name
    open_artifact.Store.Calls.read_tag_target open_artifact.Store.Calls.b_read_all get
    open_artifact.Store.Calls.write_tag_target b_write_all put bytes_eq tag_path package_tags_prefix
    package_prefix scope_prefix trim query_escape trim_space authorize on_disk encode_segment
    open_artifact.Escape.escape_byte open_artifact.Escape.is_unreserved
spaced_read = refl

tag_ref-set_tag_example :
    dotted_version ≡ record { pkg = one_version.pkg; name = trim_space spaced; name_err = none }
tag_ref-set_tag_example =
    tag_ref-set_tag platform open_store memory-IsLawful one_version.pkg (codes "latest") spaced
      empty_world spaced_set spaced_read

abbrev cached_file : File
cached_file = record {
  name = codes "k";
  blob_key = codes ".cache/k";
  meta_key = codes ".cache/.meta.k";
  pkg = none;
  version = none;
  name_err = none;
}

cached_keys : cached_file.meta_key ≢ cached_file.blob_key
cached_keys = λ e. absurd (ground (arith, e))

delete_returns : (file_delete platform open_store cached_file full_world).0 ≡ ok tt
unfolding file_delete Io.◌>>=◌
delete_returns = refl

file_delete_absent_example :
    (platform.bucket.content
        (file_delete platform open_store cached_file full_world).1.disk
        cached_file.blob_key
      ≡ none)
    × (platform.bucket.content
          (file_delete platform open_store cached_file full_world).1.disk
          cached_file.meta_key
        ≡ none)
file_delete_absent_example =
    file_delete_absent platform open_store memory-IsLawful cached_file full_world cached_keys
      delete_returns
