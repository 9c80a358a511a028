-- ===== src/Store/Files/Existence.antt =====
-- Exists and Read of a file, in pkg/core/blobstore/store.go: their answers, and the clock.
use open_artifact.Shared.{
  ◌≡◌, refl, sym, ap, subst, ◌∙◌, ◌⊎◌, inl, inr, arith, ℕ, Bool, false, Option, Option-cases, none,
  some, [], ◌++◌, append-nil, Bytes, Error, backend, Code, ok, ok_injective,
}
use open_artifact.Store.Io.Keeps.{Keeps, keeps_rules}
use open_artifact.Store.Io.Inversion.{bind_ok}
use open_artifact.Store.Bucket.{IsLawful, Reading, is_some, done}
use open_artifact.Store.Calls.{
  Platform, World, Store, Body, b_exists, b_new_reader, read_body, on_disk, map_err,
}
use open_artifact.Store.Files.{File, admit, file_exists, file_read, file_content, whole}
use open_artifact.Store.Files.Frame.{admit-Keeps}
use open_artifact.Store.Files.Uploads.{answer_ok}

module _ (p : Platform) (s : Store) (f : File) where
  -- What Exists answered is whether the bucket held the file.
  pub file_exists_ok :
      IsLawful p.bucket
      → (w : World p) {b : Bool} → (file_exists p s f w).0 ≡ ok b
      → b ≡ is_some (p.bucket.content w.disk f.blob_key)
  unfolding file_exists
  file_exists_ok lawful w {b} h =
      let (u, admitted, asked, e) = bind_ok _ _ w h in
      let after = (admit p s f.name_err false w).1 in
      let same : p.bucket.content after.disk f.blob_key ≡ p.bucket.content w.disk f.blob_key =
        (admit-Keeps p lawful f.blob_key (p.bucket.content w.disk f.blob_key) s f.name_err false).at
          w refl in
      let shown : (p.bucket.exists f.blob_key after.disk).0 ≡ done b =
        unfold b_exists on_disk in answer_ok p map_err _ asked in
      lawful.exists_answer f.blob_key after.disk shown ∙ ap is_some same

  -- A stream of bytes that begins what the bucket held, and ends with an error if it is not all.
  abbrev pub IsStream : World p → Body → Type 0
  IsStream w body =
      (rest : Bytes) × (p.bucket.content w.disk f.blob_key ≡ some (body.content ++ rest))
      × ((rest ≡ []) ⊎ ((e : Error) × (body.broken ≡ some e)))

  read_body-IsBroken :
      (r : Reading)
      → (c : Code) × (r.broken ≡ some c)
      → (e : Error) × ((read_body p r).broken ≡ some e)
  read_body-IsBroken r (c, cut) = (backend c, rw (cut) refl)

  -- What a Read that returned streams is what the bucket held, up to where it breaks off.
  pub file_read_ok :
      IsLawful p.bucket
      → (w : World p) {body : Body} → (file_read p s f w).0 ≡ ok body
      → IsStream w body
  unfolding file_read b_new_reader
  file_read_ok lawful w {body} h =
      let (u, admitted, h₁, e) = bind_ok _ _ w h in
      let after = (admit p s f.name_err false w).1 in
      let (r, read, h₂, e₂) =
        bind_ok (on_disk p map_err (p.bucket.new_reader f.blob_key)) _ after h₁ in
      let (rest, held, cut) =
        lawful.reader_answer f.blob_key after.disk {r = r}
          (unfold on_disk in answer_ok p map_err _ read) in
      let same : p.bucket.content after.disk f.blob_key ≡ p.bucket.content w.disk f.blob_key =
        (admit-Keeps p lawful f.blob_key (p.bucket.content w.disk f.blob_key) s f.name_err false).at
          w refl in
      subst (IsStream w) (ok_injective h₂) (
        rest,
        sym same ∙ held,
        elim cut [
          | inl done_reading ↦ inl done_reading
          | inr broken ↦ inr (read_body-IsBroken r broken)
        ],
      )

  whole_ok :
      (body : Body) {bytes : Bytes}
      → whole p s body ≡ ok bytes
      → (body.broken ≡ none) × (body.content ≡ bytes)
  unfolding whole
  whole_ok body h = elim (Option-cases body.broken) [
    | inl intact ↦ ground (arith, intact, h)
    | inr (e, broken) ↦ ground (arith, broken, h)
  ]

  -- What was copied to its end is what the bucket held.
  pub file_content_ok :
      IsLawful p.bucket
      → (w : World p) {bytes : Bytes} → (file_content p s f w).0 ≡ ok bytes
      → p.bucket.content w.disk f.blob_key ≡ some bytes
  unfolding file_content
  file_content_ok lawful w {bytes} h =
      let (body, read, copied, e) = bind_ok (file_read p s f) _ w h in
      let (intact, same) = whole_ok body copied in
      let (rest, held, cut) = file_read_ok lawful w read in
      elim cut [
        | inl end ↦
            held ∙ ap (λ r. some (body.content ++ r)) end ∙ ap some (append-nil body.content ∙ same)
        | inr (e', broken) ↦ absurd (cc)
      ]

  module _ (now : ℕ) where
    abbrev NowIs : World p → Type 0
    NowIs w = w.now ≡ now

    b_exists-NowIs : (key : Bytes) → Keeps NowIs (b_exists p key)
    unfolding b_exists on_disk
    b_exists-NowIs key = record { at = λ w h. h }

    admit-NowIs : (e : Option Error) (write : Bool) → Keeps NowIs (admit p s e write)
    unfolding admit
    admit-NowIs e write = search keeps_rules

    pub file_exists-NowIs : Keeps (λ (w : World p). w.now ≡ now) (file_exists p s f)
    unfolding file_exists
    file_exists-NowIs = search (keeps_rules, admit-NowIs, b_exists-NowIs)
