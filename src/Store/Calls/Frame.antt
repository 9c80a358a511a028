-- ===== src/Store/Calls/Frame.antt =====
-- Which objects the bucket calls of the store leave alone.
use open_artifact.Shared.{
  ◌≡◌, ◌≢◌, ap, ◌∙◌, inl, inr, Bool, false, Option, none, some, Bytes, Result, not,
}
use open_artifact.Shared.Maps.{Dict}
use open_artifact.Core.{Json, Meta}
use open_artifact.Store.Paths.{tag_path}
use open_artifact.Store.Io.{Io}
use open_artifact.Store.Io.Keeps.{Keeps, Keeps-bind, Keeps-pure, keeps_rules}
use open_artifact.Store.Bucket.{IsLawful, Attributes}
use open_artifact.Store.Memo.Computed.{get_or_compute_cases}
use open_artifact.Store.Calls.{
  Platform, World, on_disk, clock, b_exists, b_read_all, b_new_reader, b_write_all, b_new_writer,
  stream_body, close_writer, abort_writer, encoded, decoded, write_meta, read_meta,
  list_child_names, has_descendant, tolerate, upsert_annotations, read_tag_target, write_tag_target,
  attributes, map_err, answer,
}

-- The object under the key `k` is `x`.
abbrev pub Holds : (p : Platform) → Bytes → Option Bytes → World p → Type 0
Holds p k x w = p.bucket.content w.disk k ≡ x

module _ (p : Platform) (lawful : IsLawful p.bucket) (k : Bytes) (x : Option Bytes) where
  pub clock-Keeps : Keeps (Holds p k x) (clock p)
  clock-Keeps = record { at = λ w h. h }

  pub b_exists-Keeps : (j : Bytes) → Keeps (Holds p k x) (b_exists p j)
  unfolding b_exists on_disk
  b_exists-Keeps j = record { at = λ w h. lawful.exists_frame j k w.disk ∙ h }

  on_reader-Keeps : (j : Bytes) → Keeps (Holds p k x) (on_disk p map_err (p.bucket.new_reader j))
  unfolding on_disk
  on_reader-Keeps j = record { at = λ w h. lawful.reader_frame j k w.disk ∙ h }

  pub b_new_reader-Keeps : (j : Bytes) → Keeps (Holds p k x) (b_new_reader p j)
  unfolding b_new_reader
  b_new_reader-Keeps j = search (keeps_rules, on_reader-Keeps)

  pub b_read_all-Keeps : (j : Bytes) → Keeps (Holds p k x) (b_read_all p j)
  unfolding b_read_all on_disk
  b_read_all-Keeps j = record { at = λ w h. lawful.read_frame j k w.disk ∙ h }

  pub b_new_writer-Keeps : (j : Bytes) → Keeps (Holds p k x) (b_new_writer p j)
  unfolding b_new_writer on_disk
  b_new_writer-Keeps j = record { at = λ w h. lawful.open_frame j k w.disk ∙ h }

  pub stream_body-Keeps : (j v : Bytes) → Keeps (Holds p k x) (stream_body p j v)
  unfolding stream_body on_disk
  stream_body-Keeps j v = record { at = λ w h. lawful.stream_frame j v k w.disk ∙ h }

  pub abort_writer-Keeps : (j : Bytes) → Keeps (Holds p k x) (abort_writer p j)
  unfolding abort_writer
  abort_writer-Keeps j = record { at = λ w h. lawful.abort_frame j k w.disk ∙ h }

  pub b_write_all-Keeps :
      (j v : Bytes) (once : Bool) → j ≢ k → Keeps (Holds p k x) (b_write_all p j v once)
  unfolding b_write_all on_disk
  b_write_all-Keeps j v once ne = record { at = λ w h. lawful.write_frame j v once w.disk k ne ∙ h }

  pub close_writer-Keeps :
      (j v : Bytes) (once : Bool) → j ≢ k → Keeps (Holds p k x) (close_writer p j v once)
  unfolding close_writer on_disk
  close_writer-Keeps j v once ne = record {
    at = λ w h. lawful.write_frame j v once w.disk k ne ∙ h;
  }

  encoded-Keeps : (o : Option Bytes) → Keeps (Holds p k x) (encoded p o)
  unfolding encoded
  encoded-Keeps none = search keeps_rules
  encoded-Keeps (some b) = search keeps_rules

  decoded-Keeps : (o : Option Meta) → Keeps (Holds p k x) (decoded p o)
  unfolding decoded
  decoded-Keeps none = search keeps_rules
  decoded-Keeps (some m) = search keeps_rules

  pub write_meta-Keeps :
      (j : Bytes) (m : Meta) (overwrite : Bool)
      → j ≢ k
      → Keeps (Holds p k x) (write_meta p j m overwrite)
  unfolding write_meta
  write_meta-Keeps j m overwrite ne =
      search (keeps_rules, encoded-Keeps, λ (b : Bytes). b_write_all-Keeps j b (not overwrite) ne)

  pub read_meta-Keeps : (j : Bytes) → Keeps (Holds p k x) (read_meta p j)
  unfolding read_meta
  read_meta-Keeps j = search (keeps_rules, b_read_all-Keeps, decoded-Keeps)

  list_delimited-Keeps :
      (prefix : Bytes) → Keeps (Holds p k x) (on_disk p map_err (p.bucket.list_delimited prefix))
  unfolding on_disk
  list_delimited-Keeps prefix = record {
    at = λ w h. lawful.list_delimited_frame prefix k w.disk ∙ h;
  }

  list-Keeps : (prefix : Bytes) → Keeps (Holds p k x) (on_disk p map_err (p.bucket.list prefix))
  unfolding on_disk
  list-Keeps prefix = record { at = λ w h. lawful.list_frame prefix k w.disk ∙ h }

  pub list_child_names-Keeps : (prefix : Bytes) → Keeps (Holds p k x) (list_child_names p prefix)
  unfolding list_child_names
  list_child_names-Keeps prefix = Keeps-bind _ _ (list_delimited-Keeps prefix) (λ ks. Keeps-pure _)

  pub has_descendant-Keeps : (prefix : Bytes) → Keeps (Holds p k x) (has_descendant p prefix)
  unfolding has_descendant
  has_descendant-Keeps prefix = Keeps-bind _ _ (list-Keeps prefix) (λ ks. Keeps-pure _)

  tolerate-Keeps :
      (m : Io (World p) Meta) → Keeps (Holds p k x) m → Keeps (Holds p k x) (tolerate p m)
  unfolding tolerate
  tolerate-Keeps m km = record { at = λ w h. km.at w h }

  pub upsert_annotations-Keeps :
      (j : Bytes) (a : Dict Json) → j ≢ k → Keeps (Holds p k x) (upsert_annotations p j a)
  unfolding upsert_annotations
  upsert_annotations-Keeps j a ne =
      search (keeps_rules, clock-Keeps, tolerate-Keeps, read_meta-Keeps, write_meta-Keeps)

  pub read_tag_target-Keeps :
      (scope pkg tag : Bytes) → Keeps (Holds p k x) (read_tag_target p scope pkg tag)
  unfolding read_tag_target
  read_tag_target-Keeps scope pkg tag = search (keeps_rules, b_read_all-Keeps)

  pub write_tag_target-Keeps :
      (scope pkg tag target : Bytes)
      → tag_path scope pkg tag ≢ k
      → Keeps (Holds p k x) (write_tag_target p scope pkg tag target)
  unfolding write_tag_target
  write_tag_target-Keeps scope pkg tag target ne = b_write_all-Keeps _ target false ne

  pub attributes-Keeps : (j : Bytes) → Keeps (Holds p k x) (attributes p j)
  unfolding attributes
  attributes-Keeps j = record {
    at = λ w h.
        let fetch : p.bucket.State → Result Attributes × p.bucket.State =
          λ d. let (reply, d') = p.bucket.attributes j d in (answer map_err reply, d') in
        elim (get_or_compute_cases w.now j fetch w.stats w.disk) [
          | inl e ↦ ap (λ d. p.bucket.content d k) e ∙ h
          | inr e ↦ ap (λ d. p.bucket.content d k) e ∙ lawful.attributes_frame j k w.disk ∙ h
        ];
  }
