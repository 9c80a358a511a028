-- ===== src/Store/Paths.antt =====
-- pkg/core/blobstore/paths.go: where each object of the store lives in the bucket.
pub mod Parents
pub mod Layout
pub mod Segments
use open_artifact.Shared.{
  ℕ, ◌≡◌, Bool, true, false, Option, none, some, List, [], ◌∷◌, ◌++◌, Bytes, codes, has_prefix,
  trim, is_empty, ◌==◌, if◌then◌else◌, Error, invalid_name,
}
use open_artifact.Escape.{query_escape, query_unescape}

abbrev pub root : Bytes
root = codes "open-artifact/v1/"

abbrev pub meta_name : Bytes
meta_name = codes ".meta"

abbrev pub meta_file_prefix : Bytes
meta_file_prefix = codes ".meta."

abbrev pub tags_name : Bytes
tags_name = codes ".tags"

abbrev pub cache_dir : Bytes
cache_dir = codes ".cache/"

abbrev pub files_dir : Bytes
files_dir = codes ".files/"

abbrev pub slash : Bytes
slash = b'/' ∷ []

unfoldable pub scope_prefix : Bytes → Bytes
scope_prefix scope =
    let trimmed = trim (λ c. c == b'/') scope in
    if is_empty trimmed then root else root ++ trimmed ++ slash

unfoldable pub encode_segment : Bytes → Bytes
encode_segment name = query_escape name

-- None is a nil error.
unfoldable pub validate_name : Bytes → Option Error
unfolding has_prefix
validate_name name =
    if is_empty name
    then some invalid_name
    else if has_prefix (codes ".") name
    then some invalid_name
    else none

unfoldable pub first_err : List (Option Error) → Option Error
first_err [] = none
first_err (none ∷ errs) = first_err errs
first_err (some e ∷ errs) = some e

unfoldable pub decode_segment : Bytes → Bytes
decode_segment seg = elim (query_unescape seg) [ none ↦ seg | some dec ↦ dec ]

unfoldable pub package_prefix : Bytes → Bytes → Bytes
package_prefix scope pkg = scope_prefix scope ++ encode_segment pkg ++ slash

unfoldable pub package_meta_path : Bytes → Bytes → Bytes
package_meta_path scope pkg = package_prefix scope pkg ++ meta_name

unfoldable pub package_tags_prefix : Bytes → Bytes → Bytes
package_tags_prefix scope pkg = package_prefix scope pkg ++ tags_name ++ slash

unfoldable pub tag_path : Bytes → Bytes → Bytes → Bytes
tag_path scope pkg tag = package_tags_prefix scope pkg ++ encode_segment tag

unfoldable pub files_prefix : Bytes → Bytes
files_prefix dir = dir ++ files_dir

unfoldable pub level_file_path : Bytes → Bytes → Bytes
level_file_path dir name = files_prefix dir ++ encode_segment name

unfoldable pub level_file_meta_path : Bytes → Bytes → Bytes
level_file_meta_path dir name = files_prefix dir ++ meta_file_prefix ++ encode_segment name

unfoldable pub store_file_path : Bytes → Bytes → Bytes
store_file_path scope file = level_file_path (scope_prefix scope) file

unfoldable pub store_file_meta_path : Bytes → Bytes → Bytes
store_file_meta_path scope file = level_file_meta_path (scope_prefix scope) file

unfoldable pub package_file_path : Bytes → Bytes → Bytes → Bytes
package_file_path scope pkg file = level_file_path (package_prefix scope pkg) file

unfoldable pub package_file_meta_path : Bytes → Bytes → Bytes → Bytes
package_file_meta_path scope pkg file = level_file_meta_path (package_prefix scope pkg) file

unfoldable pub version_prefix : Bytes → Bytes → Bytes → Bytes
version_prefix scope pkg version = package_prefix scope pkg ++ encode_segment version ++ slash

unfoldable pub version_meta_path : Bytes → Bytes → Bytes → Bytes
version_meta_path scope pkg version = version_prefix scope pkg version ++ meta_name

unfoldable pub file_path : Bytes → Bytes → Bytes → Bytes → Bytes
file_path scope pkg version file = level_file_path (version_prefix scope pkg version) file

unfoldable pub file_meta_path : Bytes → Bytes → Bytes → Bytes → Bytes
file_meta_path scope pkg version file = level_file_meta_path (version_prefix scope pkg version) file

unfoldable pub cache_file_path : Bytes → Bytes → Bytes
cache_file_path dir name = dir ++ cache_dir ++ encode_segment name

unfoldable pub cache_meta_path : Bytes → Bytes → Bytes
cache_meta_path dir name = dir ++ cache_dir ++ meta_file_prefix ++ encode_segment name

unfoldable pub is_dot_entry : Bytes → Bool
unfolding has_prefix
is_dot_entry name = has_prefix (codes ".") name
