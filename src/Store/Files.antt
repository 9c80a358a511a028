-- ===== src/Store/Files.antt =====
-- The write path and the file handles of pkg/core/blobstore/store.go.
pub mod Frame
pub mod Existence
pub mod Whole
pub mod Uploads
pub mod Atomic
pub mod Stored
pub mod Complete
pub mod Deleted
use open_artifact.Shared.{
  ℕ, Bool, true, false, not, Option, none, some, List, [], ◌∷◌, ◌++◌, map, Bytes, codes, length,
  bytes_eq, hex_encode, is_empty, if◌then◌else◌, Error, not_found, already_exists, digest_mismatch,
  unsupported, backend, Code, missing, unimplemented, Result, ok, err,
}
use open_artifact.Shared.Maps.{Dict, put}
use open_artifact.Core.{
  Json, Meta, zero_meta, CreateConfig, CreateOption, ExpectedDigest, Hash, digest_key,
  new_create_config,
}
use open_artifact.Store.Paths.{
  scope_prefix, validate_name, first_err, store_file_path, store_file_meta_path, package_file_path,
  package_file_meta_path, file_path, file_meta_path, cache_file_path, cache_meta_path, files_prefix,
  decode_segment,
}
use open_artifact.Store.Io.{Io, pure, lift, raise, unless, ◌>>=◌, ◌>>◌}
use open_artifact.Store.Bucket.{Reply, done, failed, Attributes}
use open_artifact.Store.Memo.{Memo, get_or_compute}
use open_artifact.Store.Calls.{
  Platform, World, Store, Body, authorize, map_err, digest_of, answer, on_disk, clock, b_exists,
  b_read_all, b_new_reader, b_new_writer, stream_body, close_writer, abort_writer, write_meta,
  list_child_names, attributes,
}

-- The handles. `name_err` is the error that every I/O method of the handle returns.
pub record Package : Type 0 where
  pub name : Bytes
  pub name_err : Option Error

pub record Version : Type 0 where
  pub pkg : Package
  pub name : Bytes
  pub name_err : Option Error

pub record File : Type 0 where
  pub name : Bytes
  pub blob_key : Bytes
  pub meta_key : Bytes
  pub pkg : Option Package
  pub version : Option Version
  pub name_err : Option Error

unfoldable pub new_store_file : Store → Bytes → File
new_store_file s name = record {
  name = name;
  blob_key = store_file_path s.scope name;
  meta_key = store_file_meta_path s.scope name;
  pkg = none;
  version = none;
  name_err = validate_name name;
}

unfoldable pub new_package_file : Store → Package → Bytes → File
new_package_file s p name = record {
  name = name;
  blob_key = package_file_path s.scope p.name name;
  meta_key = package_file_meta_path s.scope p.name name;
  pkg = some p;
  version = none;
  name_err = first_err (p.name_err ∷ validate_name name ∷ []);
}

unfoldable pub new_file : Store → Version → Bytes → File
new_file s v name = record {
  name = name;
  blob_key = file_path s.scope v.pkg.name v.name name;
  meta_key = file_meta_path s.scope v.pkg.name v.name name;
  pkg = some v.pkg;
  version = some v;
  name_err = first_err (v.name_err ∷ validate_name name ∷ []);
}

unfoldable pub new_cache_file : Bytes → Bytes → Option Error → File
new_cache_file dir key parent_err = record {
  name = key;
  blob_key = cache_file_path dir key;
  meta_key = cache_meta_path dir key;
  pkg = none;
  version = none;
  name_err = first_err (parent_err ∷ validate_name key ∷ []);
}

-- expectedVerifier, with the running hash as the function of the whole body
pub record Verifier : Type 0 where
  pub key : Bytes
  pub sum : Bytes → Bytes
  pub want : Bytes

module _ (p : Platform) where
  add_verifier :
      ExpectedDigest → Option (Bytes → Bytes) → Option (List Verifier) → Option (List Verifier)
  add_verifier e (some h) (some vs) =
      some (record { key = digest_key e.hash; sum = h; want = e.sum } ∷ vs)
  add_verifier e _ _ = none

  -- The verifiers of the declared digests; none where a hash is not available.
  unfoldable pub verifiers : List ExpectedDigest → Option (List Verifier)
  unfolding add_verifier
  verifiers [] = some []
  verifiers (e ∷ es) = add_verifier e (p.hash_sum e.hash) (verifiers es)

  -- The computed digests in hex, if each equals the one that was declared.
  unfoldable pub verify : Bytes → List Verifier → Dict Bytes → Option (Dict Bytes)
  verify content [] digests = some digests
  verify content (v ∷ vs) digests =
      let rest = verify content vs (put digests v.key (hex_encode (v.sum content))) in
      if bytes_eq (v.sum content) v.want then rest else none

  -- A step of an open writer whose failure aborts it.
  abort_on : {A : Type 0} → Bytes → Result A → Io (World p) A
  abort_on key (ok a) = pure a
  abort_on key (err e) = do abort_writer p key; raise e

  or_error : {A : Type 0} → Error → Option A → Result A
  or_error e none = err e
  or_error e (some a) = ok a

  attempt : {A : Type 0} → Io (World p) A → Io (World p) (Result A)
  attempt m w = let (r, w') = m w in (ok r, w')

  -- io.Copy into the writer and the hashes: it ends early if the body does.
  copied : Body → Result (Unit {0}) → Result (Unit {0})
  copied body (err e) = err e
  copied body (ok u) = elim body.broken [ none ↦ ok tt | some e ↦ err e ]

  -- The early reject of a file that must not be overwritten.
  pub probe : Bytes → Bool → Io (World p) (Unit {0})
  probe blob_key true = pure tt
  probe blob_key false = do
    exists ← b_exists p blob_key
    if exists then raise already_exists else pure tt

  unfoldable pub file_meta : ℕ → CreateConfig → Dict Bytes → Bytes → Meta
  file_meta now cfg digests content = record {
    digest = digest_of (p.sha256_sum content);
    digests = digests;
    size = length content;
    created_at = now;
    updated_at = now;
    annotations = cfg.annotations;
  }

  -- From the open writer up to the verified digests, which are what it returns.
  pub receive : Bytes → Body → CreateConfig → Io (World p) (Dict Bytes)
  unfolding verifiers verify abort_on or_error attempt copied
  receive blob_key body cfg = do
    vs ← abort_on blob_key (or_error unsupported (verifiers cfg.expected))
    sent ← attempt (stream_body p blob_key body.content)
    abort_on blob_key (copied body sent)
    abort_on blob_key (or_error digest_mismatch (verify body.content vs []))

  -- What is left once the bytes are committed.
  pub conclude : Bytes → Body → CreateConfig → Dict Bytes → Io (World p) Meta
  unfolding file_meta
  conclude meta_key body cfg digests = do
    now ← clock p
    write_meta p meta_key (file_meta now cfg digests body.content) true
    pure (file_meta now cfg digests body.content)

  -- writeFile
  unfoldable pub write_file : Bytes → Bytes → Body → CreateConfig → Io (World p) Meta
  unfolding receive conclude probe
  write_file blob_key meta_key body cfg = do
    probe blob_key cfg.allow_overwrite
    b_new_writer p blob_key
    digests ← receive blob_key body cfg
    close_writer p blob_key body.content (not cfg.allow_overwrite)
    conclude meta_key body cfg digests

  module _ (s : Store) where
    -- The checks that open every I/O method: the name of the handle, then the guard.
    unfoldable pub admit : Option Error → Bool → Io (World p) (Unit {0})
    unfolding authorize
    admit name_err write = do unless name_err; unless (authorize s write)

    -- AddFile of Store, Package and Version, on the handle of the level
    unfoldable pub add_file : File → Body → List CreateOption → Io (World p) File
    unfolding admit
    add_file f body opts = do
      admit f.name_err true
      written ← write_file f.blob_key f.meta_key body (new_create_config opts)
      pure f

    -- addCache: filling the cache is authorized as a read
    unfoldable pub add_cache : Bytes → Bytes → Option Error → Body → Io (World p) File
    unfolding admit new_cache_file
    add_cache dir key parent_err body = do
      admit (new_cache_file dir key parent_err).name_err false
      written ←
          write_file (new_cache_file dir key parent_err).blob_key
            (new_cache_file dir key parent_err).meta_key body
            (record { annotations = []; allow_overwrite = true; expected = [] })
      pure (new_cache_file dir key parent_err)

    -- Exists of a file
    unfoldable pub file_exists : File → Io (World p) Bool
    unfolding admit
    file_exists f = do admit f.name_err false; b_exists p f.blob_key

    -- the bytes of a copy that ran to its end
    whole : Body → Result Bytes
    whole body = elim body.broken [ none ↦ ok body.content | some e ↦ err e ]

    -- recomputeMeta: the digest from the bytes, the rest from the bucket's attributes
    unfoldable pub recompute_meta : File → Io (World p) Meta
    unfolding whole
    recompute_meta f = do
      attrs ← attributes p f.blob_key
      body ← b_new_reader p f.blob_key
      content ← lift (whole body)
      pure (record zero_meta {
        digest = digest_of (p.sha256_sum content);
        size = attrs.size;
        updated_at = attrs.mod_time;
      })

    -- A sidecar that is absent or does not decode is no answer; another failure is an error.
    sidecar : Reply Bytes → Result (Option Meta)
    sidecar (done raw) = ok (p.decode_meta raw)
    sidecar (failed missing) = ok none
    sidecar (failed c) = err (map_err c)

    read_sidecar : Bytes → Io (World p) (Option Meta)
    unfolding sidecar
    read_sidecar key w =
        let (r, d) = p.bucket.read_all key w.disk in (sidecar r, record w { disk = d })

    or_recompute : File → Option Meta → Io (World p) Meta
    or_recompute f (some m) = pure m
    or_recompute f none = recompute_meta f

    -- Meta of a file
    unfoldable pub file_meta_of : File → Io (World p) Meta
    unfolding admit read_sidecar or_recompute
    file_meta_of f = do
      admit f.name_err false
      found ← read_sidecar f.meta_key
      or_recompute f found

    -- Read, with the stream of the reader, which may break off
    unfoldable pub file_read : File → Io (World p) Body
    unfolding admit
    file_read f = do admit f.name_err false; b_new_reader p f.blob_key

    -- Read, and the io.Copy of its stream to a writer that does not fail
    unfoldable pub file_content : File → Io (World p) Bytes
    unfolding whole
    file_content f = do body ← file_read f; lift (whole body)

    -- A backend that cannot sign is recorded as the empty URL.
    signed : Reply Bytes → Result Bytes
    signed (done u) = ok u
    signed (failed unimplemented) = ok []
    signed (failed c) = err (map_err c)

    -- DownloadURL, through the URL cache
    unfoldable pub download_url : File → Io (World p) Bytes
    unfolding admit signed
    download_url f = do
      admit f.name_err false
      λ w.
          let (r, c, d) =
            get_or_compute w.now f.blob_key
              (λ (d : p.bucket.State).
                let (reply, d') = p.bucket.sign f.blob_key d in (signed reply, d'))
              w.urls w.disk in
          (r, record w { disk = d; urls = c })

    -- bDelete, for which a missing object is no error
    gone : Reply (Unit {0}) → Result (Unit {0})
    gone (done u) = ok tt
    gone (failed missing) = ok tt
    gone (failed c) = err (map_err c)

    pub delete_key : Bytes → Io (World p) (Unit {0})
    unfolding gone
    delete_key key w = let (r, d) = p.bucket.delete key w.disk in (gone r, record w { disk = d })

    -- Delete, of cache files: the blob, then its sidecar
    unfoldable pub file_delete : File → Io (World p) (Unit {0})
    unfolding admit delete_key
    file_delete f = do admit f.name_err false; delete_key f.blob_key; delete_key f.meta_key
