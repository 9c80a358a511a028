-- ===== src/Tests/Fixtures.antt =====
-- A concrete deployment: the bucket in memory, and hashes and an envelope form that compute.
use open_artifact.Shared.{Option, none, some, List, [], ◌∷◌, Bytes, codes}
use open_artifact.Core.{Hash, sha256, CreateOption, with_expected_digests}
use open_artifact.Store.Calls.{Platform, World, Store, Body}
use open_artifact.Store.Files.{Version}
use open_artifact.Tests.Memory.{memory}

abbrev sums : Hash → Option (Bytes → Bytes)
sums sha256 = some (λ b. b)
sums _ = none

abbrev pub platform : Platform
platform = record {
  bucket = memory;
  sha256_sum = λ b. b;
  hash_sum = sums;
  encode_meta = λ m. some m.digest;
  decode_meta = λ b. none;
}

abbrev pub empty_world : World platform
empty_world = record {
  disk = [];
  urls = record { entries = []; cap = 0; ttl = 0 };
  stats = record { entries = []; cap = 0; ttl = 0 };
  now = 5;
}

abbrev pub open_store : Store
open_store = record { scope = codes "acme/generic"; guard = none }

abbrev pub one_version : Version
one_version = record {
  pkg = record { name = codes "lib"; name_err = none };
  name = codes "1.0";
  name_err = none;
}

abbrev pub file_name : Bytes
file_name = codes "a.txt"

abbrev pub greeting : Body
greeting = record { content = codes "hi"; broken = none }

abbrev pub declared : List CreateOption
declared = with_expected_digests (record { hash = sha256; sum = codes "hi" } ∷ []) ∷ []

abbrev pub misdeclared : List CreateOption
misdeclared = with_expected_digests (record { hash = sha256; sum = codes "ho" } ∷ []) ∷ []
