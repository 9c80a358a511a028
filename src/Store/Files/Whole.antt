-- ===== src/Store/Files/Whole.antt =====
-- The write path of pkg/core/blobstore/store.go: a blob is replaced as a whole or not at all, also by
-- a write that fails.
use open_artifact.Shared.{
  ◌≡◌, ◌≢◌, ◌∙◌, ◌⊎◌, inl, inr, not, Bool, true, false, Option, none, some, List, Bytes, Error,
}
use open_artifact.Core.{CreateConfig, CreateOption, new_create_config}
use open_artifact.Store.Io.{Io}
use open_artifact.Store.Io.Keeps.{Keeps, Keeps-bind, Keeps-pure}
use open_artifact.Store.Bucket.{IsLawful}
use open_artifact.Store.Calls.{Platform, World, Store, Body, close_writer, on_disk}
use open_artifact.Store.Calls.Frame.{Holds, b_new_writer-Keeps}
use open_artifact.Store.Files.{File, new_cache_file, write_file, admit, add_file, add_cache}
use open_artifact.Store.Files.Atomic.{
  IsIntact, IsAborted, IsAborted-bind, IsAborted-then, write_file-IsAborted,
}
use open_artifact.Store.Files.Frame.{probe-Keeps, receive-Keeps, conclude-Keeps, admit-Keeps}

-- The object under `k` is the old one, or all of the new bytes.
abbrev pub IsWhole : (p : Platform) → Bytes → Option Bytes → Bytes → World p → Type 0
IsWhole p k old new w = (p.bucket.content w.disk k ≡ old) ⊎ (p.bucket.content w.disk k ≡ some new)

module _ (p : Platform) (lawful : IsLawful p.bucket) (k : Bytes) (old : Option Bytes)
    (new : Bytes) where
  -- a call that leaves the object alone
  pub held-IsWhole :
      {A : Type 0} (m : Io (World p) A)
      → ((x : Option Bytes) → Keeps (Holds p k x) m)
      → Keeps (IsWhole p k old new) m
  held-IsWhole m keeps = record {
    at = λ w h. elim h [
      | inl same ↦ inl ((keeps old).at w same)
      | inr whole ↦ inr ((keeps (some new)).at w whole)
    ];
  }

  close_writer-IsWhole : (once : Bool) → Keeps (IsWhole p k old new) (close_writer p k new once)
  unfolding close_writer on_disk
  close_writer-IsWhole once = record {
    at = λ w h. elim (lawful.write_whole k new once w.disk) [
      | inr whole ↦ inr whole
      | inl same ↦ elim h [ inl was ↦ inl (same ∙ was) | inr was ↦ inr (same ∙ was) ]
    ];
  }

module _ (p : Platform) (lawful : IsLawful p.bucket) (s : Store) (f : File)
    (apart : f.meta_key ≢ f.blob_key) (old : Option Bytes) (body : Body) where
  write_file-IsWhole :
      (cfg : CreateConfig)
      → Keeps (IsWhole p f.blob_key old body.content) (write_file p f.blob_key f.meta_key body cfg)
  unfolding write_file
  write_file-IsWhole cfg =
      let k = f.blob_key in
      Keeps-bind _ _
        (held-IsWhole p lawful k old _ _ (λ x. probe-Keeps p lawful k x k cfg.allow_overwrite))
        (λ u.
          Keeps-bind _ _ (held-IsWhole p lawful k old _ _ (λ x. b_new_writer-Keeps p lawful k x k))
            (λ u'.
              Keeps-bind _ _
                (held-IsWhole p lawful k old _ _ (λ x. receive-Keeps p lawful k x k body cfg))
                (λ digests.
                  Keeps-bind _ _
                    (close_writer-IsWhole p lawful k old body.content (not cfg.allow_overwrite))
                    (λ u''.
                      held-IsWhole p lawful k old _ _
                        (λ x. conclude-Keeps p lawful k x f.meta_key body cfg digests apart)))))

  -- An AddFile leaves the old blob or the whole body under the file's key, however it ends.
  pub add_file-IsWhole :
      (opts : List CreateOption)
      → Keeps (IsWhole p f.blob_key old body.content) (add_file p s f body opts)
  unfolding add_file
  add_file-IsWhole opts =
      Keeps-bind _ _
        (held-IsWhole p lawful f.blob_key old _ _
          (λ x. admit-Keeps p lawful f.blob_key x s f.name_err true))
        (λ u. Keeps-bind _ _ (write_file-IsWhole (new_create_config opts)) (λ m. Keeps-pure f))

module _ (p : Platform) (lawful : IsLawful p.bucket) (s : Store) (dir key : Bytes)
    (old : Option Bytes) (body : Body) where
  -- So does an AddCache, under the key of the cache file.
  pub add_cache-IsWhole :
      (new_cache_file dir key none).meta_key ≢ (new_cache_file dir key none).blob_key
      → Keeps
          (IsWhole p (new_cache_file dir key none).blob_key old body.content)
          (add_cache p s dir key none body)
  unfolding add_cache
  add_cache-IsWhole apart =
      let f = new_cache_file dir key none in
      Keeps-bind _ _
        (held-IsWhole p lawful f.blob_key old _ _
          (λ x. admit-Keeps p lawful f.blob_key x s f.name_err false))
        (λ u. Keeps-bind _ _ (write_file-IsWhole p lawful s f apart old body _) (λ m. Keeps-pure f))

  -- A body that breaks off is not cached, and no object is changed.
  pub add_cache-IsAborted :
      (w : World p) {e : Error}
      → body.broken ≡ some e
      → IsAborted p lawful (add_cache p s dir key none body) w
  unfolding add_cache IsIntact
  add_cache-IsAborted w broken =
      let f = new_cache_file dir key none in
      IsAborted-bind p lawful (admit p s f.name_err false) _ w
        (λ k x. admit-Keeps p lawful k x s f.name_err false)
        (λ u r.
          IsAborted-then p lawful _ _ _
            (write_file-IsAborted p lawful _ _ body _ _ (λ intact. absurd (cc (intact.0, broken)))))
