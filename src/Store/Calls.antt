-- ===== src/Store/Calls.antt =====
-- The store, its guard, the calls of the bucket with the mapping of their errors, and the helpers
-- of pkg/core/blobstore/store.go, metrics.go and tags.go that stand on those calls alone.
pub mod Frame
use open_artifact.Shared.{
  ℕ, Bool, true, false, not, ◌&&◌, ◌||◌, Option, none, some, List, [], ◌∷◌, ◌++◌, map, Bytes, codes,
  is_empty, trim_prefix, trim_suffix, trim_space, sort_strings, hex_encode, if◌then◌else◌, ◌==◌,
  Error, not_found, already_exists, malformed, backend, Code, missing, precondition, unimplemented,
  unknown, Result, ok, err,
}
use open_artifact.Shared.Maps.{Dict}
use open_artifact.Core.{Json, Meta, zero_meta, Hash, CreateConfig}
use open_artifact.Store.Paths.{slash, is_dot_entry, tag_path}
use open_artifact.Store.Io.{Io, pure, raise, ◌>>=◌, ◌>>◌}
use open_artifact.Store.Bucket.{Bucket, Reply, done, failed, Reading, Attributes, ListObject}
use open_artifact.Store.Memo.{Memo, get_or_compute}

-- What the store takes from outside: the bucket, the hash functions that are linked in (none is a
-- hash that is not available), SHA-256, and the JSON form of an envelope.
pub record Platform : Type 1 where
  pub bucket : Bucket
  pub sha256_sum : Bytes → Bytes
  pub hash_sum : Hash → Option (Bytes → Bytes)
  pub encode_meta : Meta → Option Bytes
  pub decode_meta : Bytes → Option Meta

-- What a call can change: the bucket and the two caches. `now` is the reading of the clock.
pub record World (p : Platform) : Type 0 where
  pub disk : p.bucket.State
  pub urls : Memo Bytes
  pub stats : Memo Attributes
  pub now : ℕ

-- Guard: the flag says that the operation is a write; none is a nil error.
abbrev pub Guard : Type 0
Guard = Bool → Option Error

pub record Store : Type 0 where
  pub scope : Bytes
  pub guard : Option Guard

-- authorize
unfoldable pub authorize : Store → Bool → Option Error
authorize s write = elim s.guard [ none ↦ none | some g ↦ g write ]

unfoldable pub map_err : Code → Error
map_err missing = not_found
map_err c = backend c

unfoldable pub map_create_err : Code → Error
unfolding map_err
map_create_err precondition = already_exists
map_create_err c = map_err c

-- digestOf
unfoldable pub digest_of : Bytes → Bytes
digest_of sum = codes "sha256:" ++ hex_encode sum

-- A body that is streamed in: its bytes, and the error with which it ends early.
pub record Body : Type 0 where
  pub content : Bytes
  pub broken : Option Error

module _ {A : Type 0} where
  abbrev pub answer : (Code → Error) → Reply A → Result A
  answer f (done a) = ok a
  answer f (failed c) = err (f c)

module _ (p : Platform) where
  -- A call of the bucket whose error is mapped to the store's.
  unfoldable pub on_disk :
      {A : Type 0} → (Code → Error) → (p.bucket.State → Reply A × p.bucket.State) → Io (World p) A
  on_disk f call w = let (r, d) = call w.disk in (answer f r, record w { disk = d })

  abbrev pub clock : Io (World p) ℕ
  clock w = (ok w.now, w)

  unfoldable pub b_exists : Bytes → Io (World p) Bool
  unfolding on_disk
  b_exists key = on_disk map_err (p.bucket.exists key)

  unfoldable pub b_read_all : Bytes → Io (World p) Bytes
  unfolding on_disk
  b_read_all key = on_disk map_err (p.bucket.read_all key)

  -- what a reader's stream is to those who copy from it
  abbrev pub read_body : Reading → Body
  read_body r = record {
    content = r.content;
    broken = elim r.broken [ none ↦ none | some c ↦ some (backend c) ];
  }

  unfoldable pub b_new_reader : Bytes → Io (World p) Body
  unfolding on_disk
  b_new_reader key = do r ← on_disk map_err (p.bucket.new_reader key); pure (read_body r)

  unfoldable pub b_write_all : Bytes → Bytes → Bool → Io (World p) (Unit {0})
  unfolding on_disk
  b_write_all key v once =
      on_disk (if once then map_create_err else map_err) (p.bucket.write key v once)

  unfoldable pub b_new_writer : Bytes → Io (World p) (Unit {0})
  unfolding on_disk
  b_new_writer key = on_disk map_err (p.bucket.open_writer key)

  unfoldable pub stream_body : Bytes → Bytes → Io (World p) (Unit {0})
  unfolding on_disk
  stream_body key v = on_disk map_err (p.bucket.stream key v)

  unfoldable pub close_writer : Bytes → Bytes → Bool → Io (World p) (Unit {0})
  unfolding on_disk
  close_writer key v once = on_disk map_create_err (p.bucket.write key v once)

  -- cancelWrite() and closeWriter: the bytes that were taken are dropped.
  unfoldable pub abort_writer : Bytes → Io (World p) (Unit {0})
  abort_writer key w = (ok tt, record w { disk = p.bucket.abort key w.disk })

  unfoldable pub encoded : Option Bytes → Io (World p) Bytes
  encoded none = raise malformed
  encoded (some b) = pure b

  unfoldable pub decoded : Option Meta → Io (World p) Meta
  decoded none = raise malformed
  decoded (some m) = pure m

  -- writeMeta
  unfoldable pub write_meta : Bytes → Meta → Bool → Io (World p) (Unit {0})
  unfolding encoded
  write_meta path m overwrite = do b ← encoded (p.encode_meta m); b_write_all path b (not overwrite)

  -- readMeta
  unfoldable pub read_meta : Bytes → Io (World p) Meta
  unfolding decoded
  read_meta path = do raw ← b_read_all path; decoded (p.decode_meta raw)

  -- The names of a listing that are real children.
  child_names : Bytes → List ListObject → List Bytes
  child_names prefix [] = []
  child_names prefix (obj ∷ objs) =
      let name = trim_suffix slash (trim_prefix prefix obj.key) in
      let rest = child_names prefix objs in
      if is_empty name || is_dot_entry name then rest else name ∷ rest

  -- listChildNames
  unfoldable pub list_child_names : Bytes → Io (World p) (List Bytes)
  unfolding child_names on_disk
  list_child_names prefix = do
    keys ← on_disk map_err (p.bucket.list_delimited prefix)
    pure (sort_strings (child_names prefix keys))

  -- hasDescendant
  unfoldable pub has_descendant : Bytes → Io (World p) Bool
  unfolding on_disk
  has_descendant prefix = do
    keys ← on_disk map_err (p.bucket.list prefix)
    pure (not (is_empty keys))

  -- the error that readMeta left, if it is no ErrNotFound
  or_zero : Result Meta → Result Meta
  or_zero (err not_found) = ok zero_meta
  or_zero r = r

  tolerate : Io (World p) Meta → Io (World p) Meta
  unfolding or_zero
  tolerate m w = let (r, w') = m w in (or_zero r, w')

  -- the envelope that upsertAnnotations writes
  unfoldable pub annotated : ℕ → Dict Json → Meta → Meta
  annotated now annotations m = record m {
    created_at = if m.created_at == 0 then now else m.created_at;
    updated_at = now;
    annotations = annotations;
  }

  -- upsertAnnotations
  unfoldable pub upsert_annotations : Bytes → Dict Json → Io (World p) (Unit {0})
  unfolding tolerate
  upsert_annotations path annotations = do
    m ← tolerate (read_meta path)
    now ← clock
    write_meta path (annotated now annotations m) true

  -- readTagTarget
  unfoldable pub read_tag_target : Bytes → Bytes → Bytes → Io (World p) Bytes
  read_tag_target scope pkg tag = do
    raw ← b_read_all (tag_path scope pkg tag)
    pure (trim_space raw)

  -- writeTagTarget
  unfoldable pub write_tag_target : Bytes → Bytes → Bytes → Bytes → Io (World p) (Unit {0})
  write_tag_target scope pkg tag target = b_write_all (tag_path scope pkg tag) target false

  -- attributes, through the stat cache
  unfoldable pub attributes : Bytes → Io (World p) Attributes
  attributes key w =
      let (r, c, d) =
        get_or_compute w.now key
          (λ (d : p.bucket.State).
            let (reply, d') = p.bucket.attributes key d in (answer map_err reply, d'))
          w.stats w.disk in
      (r, record w { disk = d; stats = c })
