-- ===== src/Store/Paths/Parents.antt =====
-- pkg/core/blobstore/paths.go: the records of a package and of its versions are not where files are.
use open_artifact.Shared.{◌≢◌, ap, arith, ◌+◌, ◌<◌, ◌++◌, Bytes, length}
use open_artifact.Shared.Strings.Laws.{length-append}
use open_artifact.Store.Paths.{
  slash, files_dir, meta_name, encode_segment, files_prefix, level_file_path, package_prefix,
  package_meta_path, version_prefix, version_meta_path, file_path, cache_dir, meta_file_prefix,
  cache_file_path, cache_meta_path,
}

-- A file lies more than the length of a record's name behind the prefix of its level.
level_file_path_longer :
    (dir name : Bytes) → length dir + length meta_name < length (level_file_path dir name)
unfolding level_file_path files_prefix
level_file_path_longer dir name =
    omega
      (arith, length-append (dir ++ files_dir) (encode_segment name), length-append dir files_dir)

pub version_meta_path-ne-file_path :
    (scope pkg version name : Bytes)
    → version_meta_path scope pkg version ≢ file_path scope pkg version name
unfolding version_meta_path file_path
version_meta_path-ne-file_path scope pkg version name e =
    let dir = version_prefix scope pkg version in
    absurd
      (omega (arith, ap length e, length-append dir meta_name, level_file_path_longer dir name))

pub package_meta_path-ne-file_path :
    (scope pkg version name : Bytes)
    → package_meta_path scope pkg ≢ file_path scope pkg version name
unfolding package_meta_path file_path version_prefix
package_meta_path-ne-file_path scope pkg version name e =
    let dir = package_prefix scope pkg in
    let segment = encode_segment version in
    absurd (
      omega (
        arith,
        ap length e,
        length-append dir meta_name,
        length-append (dir ++ segment) slash,
        length-append dir segment,
        level_file_path_longer (dir ++ segment ++ slash) name,
      ))

-- The two keys of a cache file differ.
pub cache_meta_path-ne-cache_file_path :
    (dir name : Bytes) → cache_meta_path dir name ≢ cache_file_path dir name
unfolding cache_meta_path cache_file_path
cache_meta_path-ne-cache_file_path dir name e = absurd (
    omega (
      arith,
      ap length e,
      length-append (dir ++ cache_dir ++ meta_file_prefix) (encode_segment name),
      length-append (dir ++ cache_dir) meta_file_prefix,
      length-append (dir ++ cache_dir) (encode_segment name),
    ))
