-- ===== src/Core.antt =====
-- pkg/core: the data that every store shares, formats and create options.
use open_artifact.Shared.{
  ℕ, Bool, false, ◌||◌, Option, List, [], ◌∷◌, ◌++◌, map, Bytes, codes, bytes_eq, to_lower_byte,
  ◌==◌, if◌then◌else◌,
}
use open_artifact.Shared.Maps.{Dict, put}

-- An annotation or claim value: a string, or any other value by what json.Marshal makes of it.
pub data Json : Type 0 where
  text : Bytes → Json
  value : Option Bytes → Json

-- core.Meta; a time is its distance from the zero time.
pub record Meta : Type 0 where
  pub digest : Bytes
  pub digests : Dict Bytes
  pub size : ℕ
  pub created_at : ℕ
  pub updated_at : ℕ
  pub annotations : Dict Json

abbrev pub zero_meta : Meta
zero_meta = record {
  digest = [];
  digests = [];
  size = 0;
  created_at = 0;
  updated_at = 0;
  annotations = [];
}

-- core.Format and its known values
abbrev pub format_pypi : Bytes
format_pypi = codes "pypi"

abbrev pub format_npm : Bytes
format_npm = codes "npm"

abbrev pub format_maven : Bytes
format_maven = codes "maven"

abbrev pub format_debian : Bytes
format_debian = codes "debian"

abbrev pub format_generic : Bytes
format_generic = codes "generic"

unfoldable pub is_known : Bytes → Bool
unfolding bytes_eq
is_known f =
    bytes_eq f format_pypi
    || bytes_eq f format_npm
    || bytes_eq f format_maven
    || bytes_eq f format_debian
    || bytes_eq f format_generic

-- crypto.Hash values and their String method
pub data Hash : Type 0 where
  md5 sha1 sha224 sha256 sha384 sha512 : Hash

abbrev pub hash_string : Hash → Bytes
hash_string md5 = codes "MD5"
hash_string sha1 = codes "SHA-1"
hash_string sha224 = codes "SHA-224"
hash_string sha256 = codes "SHA-256"
hash_string sha384 = codes "SHA-384"
hash_string sha512 = codes "SHA-512"

pub record ExpectedDigest : Type 0 where
  pub hash : Hash
  pub sum : Bytes

pub record CreateConfig : Type 0 where
  pub annotations : Dict Json
  pub allow_overwrite : Bool
  pub expected : List ExpectedDigest

-- CreateOption; a value of it is the call that made the option.
pub data CreateOption : Type 0 where
  with_annotations : Dict Json → CreateOption
  with_allow_overwrite : Bool → CreateOption
  with_expected_digests : List ExpectedDigest → CreateOption

unfoldable pub merge : Dict Json → Dict Json → Dict Json
unfolding put
merge [] into = into
merge ((k, v) ∷ d) into = merge d (put into k v)

unfoldable pub apply_option : CreateOption → CreateConfig → CreateConfig
unfolding merge
apply_option (with_annotations d) c = record c { annotations = merge d c.annotations }
apply_option (with_allow_overwrite b) c = record c { allow_overwrite = b }
apply_option (with_expected_digests l) c = record c { expected = c.expected ++ l }

unfoldable pub apply_options : List CreateOption → CreateConfig → CreateConfig
unfolding apply_option
apply_options [] c = c
apply_options (o ∷ opts) c = apply_options opts (apply_option o c)

unfoldable pub new_create_config : List CreateOption → CreateConfig
unfolding apply_options
new_create_config opts =
    apply_options opts (record { annotations = []; allow_overwrite = false; expected = [] })

unfoldable pub remove_dashes : Bytes → Bytes
remove_dashes [] = []
remove_dashes (c ∷ s) = let rest = remove_dashes s in if c == b'-' then rest else c ∷ rest

-- digestKey
unfoldable pub digest_key : Hash → Bytes
unfolding remove_dashes to_lower_byte
digest_key h = map to_lower_byte (remove_dashes (hash_string h))
