-- ===== src/Store/Files/Frame.antt =====
-- The write path and the file handles of pkg/core/blobstore/store.go: the objects that they leave alone.
use open_artifact.Shared.{
  ◌≢◌, ap, ◌∙◌, inl, inr, Bool, true, false, Option, none, some, List, Bytes, Error, Result, ok,
  err,
}
use open_artifact.Shared.Maps.{Dict}
use open_artifact.Core.{Meta, CreateConfig, CreateOption}
use open_artifact.Store.Io.{Io}
use open_artifact.Store.Io.Keeps.{Keeps, Keeps-bind, Keeps-pure, keeps_rules}
use open_artifact.Store.Bucket.{IsLawful}
use open_artifact.Store.Memo.Computed.{get_or_compute_cases}
use open_artifact.Store.Calls.{Platform, World, Store, Body}
use open_artifact.Store.Calls.Frame.{
  Holds, clock-Keeps, b_exists-Keeps, b_new_reader-Keeps, b_new_writer-Keeps, stream_body-Keeps,
  abort_writer-Keeps, close_writer-Keeps, write_meta-Keeps, attributes-Keeps,
}
use open_artifact.Store.Files.{
  File, new_cache_file, abort_on, attempt, probe, receive, conclude, write_file, admit, add_file,
  add_cache, file_exists, recompute_meta, read_sidecar, or_recompute, file_meta_of, file_read,
  file_content, signed, download_url, delete_key, file_delete,
}

module _ (p : Platform) (lawful : IsLawful p.bucket) (k : Bytes) (x : Option Bytes) where
  abort_on-Keeps :
      {A : Type 0} (key : Bytes) (r : Result A) → Keeps (Holds p k x) (abort_on p key r)
  unfolding abort_on
  abort_on-Keeps key (ok a) = search keeps_rules
  abort_on-Keeps key (err e) = search (keeps_rules, abort_writer-Keeps p lawful k x)

  attempt-Keeps :
      {A : Type 0} (m : Io (World p) A) → Keeps (Holds p k x) m → Keeps (Holds p k x) (attempt p m)
  unfolding attempt
  attempt-Keeps m km = record { at = λ w h. km.at w h }

  pub probe-Keeps : (key : Bytes) (overwrite : Bool) → Keeps (Holds p k x) (probe p key overwrite)
  unfolding probe
  probe-Keeps key true = search keeps_rules
  probe-Keeps key false = search (keeps_rules, b_exists-Keeps p lawful k x)

  pub receive-Keeps :
      (key : Bytes) (body : Body) (cfg : CreateConfig)
      → Keeps (Holds p k x) (receive p key body cfg)
  unfolding receive
  receive-Keeps key body cfg =
      search (keeps_rules, abort_on-Keeps, attempt-Keeps, stream_body-Keeps p lawful k x)

  pub conclude-Keeps :
      (key : Bytes) (body : Body) (cfg : CreateConfig) (digests : Dict Bytes)
      → key ≢ k
      → Keeps (Holds p k x) (conclude p key body cfg digests)
  unfolding conclude
  conclude-Keeps key body cfg digests ne =
      Keeps-bind _ _ (clock-Keeps p lawful k x)
        (λ now. Keeps-bind _ _ (write_meta-Keeps p lawful k x key _ true ne) (λ u. Keeps-pure _))

  pub write_file-Keeps :
      (blob_key meta_key : Bytes) (body : Body) (cfg : CreateConfig)
      → blob_key ≢ k
      → meta_key ≢ k
      → Keeps (Holds p k x) (write_file p blob_key meta_key body cfg)
  unfolding write_file
  write_file-Keeps blob_key meta_key body cfg ne ne' = search (
    keeps_rules,
    probe-Keeps,
    b_new_writer-Keeps p lawful k x,
    receive-Keeps,
    close_writer-Keeps p lawful k x,
    conclude-Keeps,
  )

  module _ (s : Store) where
    pub admit-Keeps : (e : Option Error) (write : Bool) → Keeps (Holds p k x) (admit p s e write)
    unfolding admit
    admit-Keeps e write = search keeps_rules

    pub add_file-Keeps :
        (f : File) (body : Body) (opts : List CreateOption)
        → f.blob_key ≢ k
        → f.meta_key ≢ k
        → Keeps (Holds p k x) (add_file p s f body opts)
    unfolding add_file
    add_file-Keeps f body opts ne ne' = search (keeps_rules, admit-Keeps, write_file-Keeps)

    pub add_cache-Keeps :
        (dir key : Bytes) (e : Option Error) (body : Body)
        → (new_cache_file dir key e).blob_key ≢ k
        → (new_cache_file dir key e).meta_key ≢ k
        → Keeps (Holds p k x) (add_cache p s dir key e body)
    unfolding add_cache
    add_cache-Keeps dir key e body ne ne' = search (keeps_rules, admit-Keeps, write_file-Keeps)

    pub file_exists-Keeps : (f : File) → Keeps (Holds p k x) (file_exists p s f)
    unfolding file_exists
    file_exists-Keeps f = search (keeps_rules, admit-Keeps, b_exists-Keeps p lawful k x)

    recompute_meta-Keeps : (f : File) → Keeps (Holds p k x) (recompute_meta p s f)
    unfolding recompute_meta
    recompute_meta-Keeps f = Keeps-bind _ _ (attributes-Keeps p lawful k x f.blob_key) (λ attrs.
        Keeps-bind _ _ (b_new_reader-Keeps p lawful k x f.blob_key)
          (λ body. Keeps-bind _ _ (record { at = λ w h. h }) (λ content. Keeps-pure _)))

    or_recompute-Keeps : (f : File) (o : Option Meta) → Keeps (Holds p k x) (or_recompute p s f o)
    unfolding or_recompute
    or_recompute-Keeps f none = recompute_meta-Keeps f
    or_recompute-Keeps f (some m) = search keeps_rules

    read_sidecar-Keeps : (key : Bytes) → Keeps (Holds p k x) (read_sidecar p s key)
    unfolding read_sidecar
    read_sidecar-Keeps key = record { at = λ w h. lawful.read_frame key k w.disk ∙ h }

    pub file_meta_of-Keeps : (f : File) → Keeps (Holds p k x) (file_meta_of p s f)
    unfolding file_meta_of
    file_meta_of-Keeps f = search (keeps_rules, admit-Keeps, read_sidecar-Keeps, or_recompute-Keeps)

    pub file_read-Keeps : (f : File) → Keeps (Holds p k x) (file_read p s f)
    unfolding file_read
    file_read-Keeps f = search (keeps_rules, admit-Keeps, b_new_reader-Keeps p lawful k x)

    pub file_content-Keeps : (f : File) → Keeps (Holds p k x) (file_content p s f)
    unfolding file_content
    file_content-Keeps f = Keeps-bind _ _ (file_read-Keeps f) (λ body. record { at = λ w h. h })

    pub download_url-Keeps : (f : File) → Keeps (Holds p k x) (download_url p s f)
    unfolding download_url
    download_url-Keeps f = Keeps-bind _ _ (admit-Keeps f.name_err false) (λ u. record {
      at = λ w h.
          let sign : p.bucket.State → Result Bytes × p.bucket.State =
            λ d. let (reply, d') = p.bucket.sign f.blob_key d in (signed p s reply, d') in
          elim (get_or_compute_cases w.now f.blob_key sign w.urls w.disk) [
            | inl e ↦ ap (λ d. p.bucket.content d k) e ∙ h
            | inr e ↦ ap (λ d. p.bucket.content d k) e ∙ lawful.sign_frame f.blob_key k w.disk ∙ h
          ];
    })

    pub delete_key-Keeps : (key : Bytes) → key ≢ k → Keeps (Holds p k x) (delete_key p s key)
    unfolding delete_key
    delete_key-Keeps key ne = record { at = λ w h. lawful.delete_frame key w.disk k ne ∙ h }

    pub file_delete-Keeps :
        (f : File) → f.blob_key ≢ k → f.meta_key ≢ k → Keeps (Holds p k x) (file_delete p s f)
    unfolding file_delete
    file_delete-Keeps f ne ne' = search (keeps_rules, admit-Keeps, delete_key-Keeps)
