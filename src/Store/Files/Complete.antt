-- ===== src/Store/Files/Complete.antt =====
-- AddFile of pkg/core/blobstore/store.go on a bucket whose calls do not fail.
use open_artifact.Shared.{
  ◌≡◌, refl, ap, ◌∙◌, ◌⊎◌, inl, inr, arith, Bool, true, false, not, Option, none, some, List, [],
  ◌∷◌, Bytes, Error, unsupported, Result, ok, err, All, bytes_eq, hex_encode,
}
use mathlib.Core.Option.{some-injective}
use open_artifact.Shared.Maps.{Dict, put}
use open_artifact.Shared.Strings.Laws.{bytes_eq_refl}
use open_artifact.Core.{
  Meta, CreateOption, CreateConfig, ExpectedDigest, digest_key, new_create_config,
}
use open_artifact.Store.Io.{Io, ◌>>=◌}
use open_artifact.Store.Paths.{first_err}
use open_artifact.Store.Bucket.{Bucket, IsLawful, Reply, done, is_some}
use open_artifact.Store.Calls.{
  Platform, World, Store, Body, authorize, b_exists, b_new_writer, stream_body, close_writer,
  write_meta, b_write_all, encoded, on_disk, map_err, map_create_err,
}
use open_artifact.Store.Calls.Frame.{b_new_writer-Keeps}
use open_artifact.Store.Files.{
  Version, File, Verifier, new_file, admit, probe, receive, conclude, write_file, add_file,
  add_verifier, verifiers, verify, abort_on, or_error, attempt, copied, file_meta,
}
use open_artifact.Store.Files.Frame.{admit-Keeps, probe-Keeps, receive-Keeps}
use open_artifact.Store.Files.Uploads.{IsDeclared}
use open_artifact.Store.Files.Atomic.{IsIntact, IsStored}
use open_artifact.Store.Files.Stored.{add_file-IsStored}

-- A bucket whose calls on the write path do not fail: it tells truly what is there, and a write is
-- refused only where its condition does not hold.
pub record IsReliable (b : Bucket) : Type 0 where
  pub exists_done : (k : Bytes) (s : b.State) → (b.exists k s).0 ≡ done (is_some (b.content s k))
  pub open_done : (k : Bytes) (s : b.State) → (b.open_writer k s).0 ≡ done tt
  pub stream_done : (k v : Bytes) (s : b.State) → (b.stream k v s).0 ≡ done tt
  pub replace_done : (k v : Bytes) (s : b.State) → (b.write k v false s).0 ≡ done tt
  pub create_done :
      (k v : Bytes) (s : b.State) → b.content s k ≡ none → (b.write k v true s).0 ≡ done tt

module _ {W A B : Type 0} where
  then_returns :
      (m : Io W A) (f : A → Io W B) (w : W) {a : A} {b : B}
      → (m w).0 ≡ ok a
      → (f a (m w).1).0 ≡ ok b
      → ((m >>= f) w).0 ≡ ok b
  unfolding ◌>>=◌
  then_returns m f w e h = rw (e) h

module _ (p : Platform) where
  verified :
      (content : Bytes) (es : List ExpectedDigest) (d : Dict Bytes)
      → All (IsDeclared p content) es
      → (vs : List Verifier) × (out : Dict Bytes) × (verifiers p es ≡ some vs)
        × (verify p content vs d ≡ some out)
  unfolding verifiers verify IsDeclared add_verifier
  verified content [] d h = ([], d, refl, refl)
  verified content (e ∷ es) d ((g, linked, same), rest) =
      let v : Verifier = record { key = digest_key e.hash; sum = g; want = e.sum } in
      let (vs, out, made, passed) =
        verified content es (put d v.key (hex_encode (g content))) rest in
      let agrees : bytes_eq (g content) e.sum ≡ true = rw (same) (bytes_eq_refl e.sum) in
      (v ∷ vs, out, rw (linked, made) refl, rw (agrees) passed)

  abort_on-ok :
      {A : Type 0} (key : Bytes) (r : Result A) (w : World p) {a : A}
      → r ≡ ok a
      → (abort_on p key r w).0 ≡ ok a
  unfolding abort_on
  abort_on-ok key (ok b) w h = h
  abort_on-ok key (err e) w h = absurd (cc)

  or_error-ok : {A : Type 0} (e : Error) (o : Option A) {a : A} → o ≡ some a → or_error p e o ≡ ok a
  unfolding or_error
  or_error-ok e none h = absurd (cc)
  or_error-ok e (some b) h = ap ok (some-injective _ _ h)

  attempt-ok : {A : Type 0} (m : Io (World p) A) (w : World p) → (attempt p m w).0 ≡ ok (m w).0
  unfolding attempt
  attempt-ok m w = refl

  answered :
      {A : Type 0} (f : _) (call : p.bucket.State → Reply A × p.bucket.State) (w : World p) {a : A}
      → (call w.disk).0 ≡ done a
      → (on_disk p f call w).0 ≡ ok a
  unfolding on_disk
  answered f call w h = rw (h) refl

  module _ (reliable : IsReliable p.bucket) where
    stream_returns : (key v : Bytes) (w : World p) → (stream_body p key v w).0 ≡ ok tt
    unfolding stream_body
    stream_returns key v w =
        answered map_err (p.bucket.stream key v) w (reliable.stream_done key v w.disk)

    copied-ok :
        (body : Body) (r : Result (Unit {0}))
        → r ≡ ok tt
        → body.broken ≡ none
        → copied p body r ≡ ok tt
    unfolding copied
    copied-ok body (ok u) h whole = rw (whole) refl
    copied-ok body (err e) h whole = absurd (cc)

    receive_returns :
        (key : Bytes) (body : Body) (cfg : CreateConfig) (w : World p)
        → IsIntact p body cfg
        → (digests : Dict Bytes) × ((receive p key body cfg w).0 ≡ ok digests)
    unfolding receive IsIntact
    receive_returns key body cfg w (whole, declared) =
        let (vs, digests, made, passed) = verified body.content cfg.expected [] declared in
        let w₁ = (abort_on p key (or_error p unsupported (verifiers p cfg.expected)) w).1 in
        (
          digests,
          then_returns _ _ w (abort_on-ok key _ w (or_error-ok _ _ made)) (
              then_returns _ _ _ (attempt-ok (stream_body p key body.content) w₁) (
                then_returns _ _ _
                  (abort_on-ok key _ _
                    (copied-ok body _ (stream_returns key body.content w₁) whole))
                  (abort_on-ok key _ _ (or_error-ok _ _ passed)))),
        )

    probe_returns :
        (key : Bytes) (overwrite : Bool) (w : World p)
        → (overwrite ≡ true) ⊎ (p.bucket.content w.disk key ≡ none)
        → (probe p key overwrite w).0 ≡ ok tt
    unfolding probe b_exists
    probe_returns key true w free = refl
    probe_returns key false w (inl wrong) = absurd (cc)
    probe_returns key false w (inr free) =
        then_returns _ _ w {a = false}
          (answered map_err (p.bucket.exists key) w
            (reliable.exists_done key w.disk ∙ ap (λ o. done (is_some o)) free))
          refl

    close_returns :
        (key v : Bytes) (overwrite : Bool) (w : World p)
        → (overwrite ≡ true) ⊎ (p.bucket.content w.disk key ≡ none)
        → (close_writer p key v (not overwrite) w).0 ≡ ok tt
    unfolding close_writer
    close_returns key v true w free =
        answered map_create_err (p.bucket.write key v false) w (reliable.replace_done key v w.disk)
    close_returns key v false w (inl wrong) = absurd (cc)
    close_returns key v false w (inr free) =
        answered map_create_err (p.bucket.write key v true) w
          (reliable.create_done key v w.disk free)

    write_meta_returns :
        (key : Bytes) (m : Meta) (w : World p) {raw : Bytes}
        → p.encode_meta m ≡ some raw
        → (write_meta p key m true w).0 ≡ ok tt
    unfolding write_meta b_write_all
    write_meta_returns key m w {raw} code =
        let w₁ = (encoded p (p.encode_meta m) w).1 in
        then_returns _ _ w {a = raw} (unfold encoded in rw (code) refl) (
          answered map_err (p.bucket.write key raw false) w₁
            (reliable.replace_done key raw w₁.disk))

    conclude_returns :
        (key : Bytes) (body : Body) (cfg : CreateConfig) (digests : Dict Bytes) (w : World p)
        {raw : Bytes}
        → p.encode_meta (file_meta p w.now cfg digests body.content) ≡ some raw
        → (conclude p key body cfg digests w).0 ≡ ok (file_meta p w.now cfg digests body.content)
    unfolding conclude
    conclude_returns key body cfg digests w code = then_returns _ _ w {a = w.now} refl (
        then_returns _ _ w
          (write_meta_returns key (file_meta p w.now cfg digests body.content) w code) refl)

    module _ (lawful : IsLawful p.bucket) (s : Store) where
      opened : (key : Bytes) (w : World p) → (b_new_writer p key w).0 ≡ ok tt
      unfolding b_new_writer
      opened key w = answered map_err (p.bucket.open_writer key) w (reliable.open_done key w.disk)

      still_free :
          (key : Bytes) (body : Body) (cfg : CreateConfig) (w : World p)
          → (cfg.allow_overwrite ≡ true) ⊎ (p.bucket.content w.disk key ≡ none)
          → (cfg.allow_overwrite ≡ true)
            ⊎ (p.bucket.content
                  (receive p key body cfg
                    (b_new_writer p key (probe p key cfg.allow_overwrite w).1).1).1.disk
                  key
                ≡ none)
      still_free key body cfg w (inl overwrite) = inl overwrite
      still_free key body cfg w (inr free) = inr (
          (receive-Keeps p lawful key none key body cfg).at _ (
            (b_new_writer-Keeps p lawful key none key).at _
              ((probe-Keeps p lawful key none key cfg.allow_overwrite).at w free)))

      admit_returns :
          (e : Option Error) (w : World p)
          → first_err (e ∷ authorize s true ∷ []) ≡ none
          → (admit p s e true w).0 ≡ ok tt
      unfolding admit first_err ◌>>=◌
      admit_returns none w h = ground arith
      admit_returns (some e) w h = absurd (cc)

      write_file_returns :
          (blob_key meta_key : Bytes) (body : Body) (cfg : CreateConfig) (w : World p)
          → ((m : Meta) → (raw : Bytes) × (p.encode_meta m ≡ some raw))
          → IsIntact p body cfg
          → (cfg.allow_overwrite ≡ true) ⊎ (p.bucket.content w.disk blob_key ≡ none)
          → (m : Meta) × ((write_file p blob_key meta_key body cfg w).0 ≡ ok m)
      unfolding write_file
      write_file_returns blob_key meta_key body cfg w encodes intact free =
          let w₁ = (probe p blob_key cfg.allow_overwrite w).1 in
          let w₂ = (b_new_writer p blob_key w₁).1 in
          let w₃ = (receive p blob_key body cfg w₂).1 in
          let w₄ = (close_writer p blob_key body.content (not cfg.allow_overwrite) w₃).1 in
          let (digests, received) = receive_returns blob_key body cfg w₂ intact in
          let (raw, code) = encodes (file_meta p w₄.now cfg digests body.content) in
          (
            file_meta p w₄.now cfg digests body.content,
            then_returns _ _ w (probe_returns blob_key cfg.allow_overwrite w free) (
                then_returns _ _ w₁ (opened blob_key w₁) (
                  then_returns _ _ w₂ received (
                    then_returns _ _ w₃
                      (close_returns blob_key body.content cfg.allow_overwrite w₃
                        (still_free blob_key body cfg w free))
                      (conclude_returns meta_key body cfg digests w₄ code)))),
          )

      still_there :
          {b : Bool} (f : File) (w : World p)
          → (b ≡ true) ⊎ (p.bucket.content w.disk f.blob_key ≡ none)
          → (b ≡ true) ⊎ (p.bucket.content (admit p s f.name_err true w).1.disk f.blob_key ≡ none)
      still_there f w (inl overwrite) = inl overwrite
      still_there f w (inr free) =
          inr ((admit-Keeps p lawful f.blob_key none s f.name_err true).at w free)

      pub add_file_returns :
          (v : Version) (name : Bytes) (body : Body) (opts : List CreateOption) (w : World p)
          → ((m : Meta) → (raw : Bytes) × (p.encode_meta m ≡ some raw))
          → first_err ((new_file s v name).name_err ∷ authorize s true ∷ []) ≡ none
          → IsIntact p body (new_create_config opts)
          → ((new_create_config opts).allow_overwrite ≡ true)
            ⊎ (p.bucket.content w.disk (new_file s v name).blob_key ≡ none)
          → ((add_file p s (new_file s v name) body opts w).0 ≡ ok (new_file s v name))
            × ((m : Meta) × IsStored p
                  (new_file s v name).blob_key
                  (new_file s v name).meta_key
                  body
                  m
                  (add_file p s (new_file s v name) body opts w).1)
      unfolding add_file
      add_file_returns v name body opts w encodes admitted intact free =
          let f = new_file s v name in
          let w₁ = (admit p s f.name_err true w).1 in
          let (m, written) =
            write_file_returns f.blob_key f.meta_key body (new_create_config opts) w₁ encodes intact
              (still_there f w free) in
          let returned : (add_file p s f body opts w).0 ≡ ok f =
            then_returns _ _ w (admit_returns f.name_err w admitted)
              (then_returns _ _ w₁ written refl) in
          (returned, (add_file-IsStored p s v name lawful body opts w returned).2)
