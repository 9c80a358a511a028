-- ===== src/Store/Files/Atomic.antt =====
-- The write path of the store, step by step: what it leaves when it returns, and when it fails.
use open_artifact.Shared.{
  ◌≡◌, ◌≢◌, refl, ap, sym, subst, ◌∙◌, inl, inr, arith, true, false, Option, none, some, Bytes,
  length, Error, ok, err, All,
}
use open_artifact.Core.{Meta, CreateConfig}
use open_artifact.Store.Io.{Io, ◌>>=◌}
use open_artifact.Store.Io.Keeps.{Keeps}
use open_artifact.Store.Io.Inversion.{bind_ok, bind_cases}
use open_artifact.Store.Bucket.{IsLawful, is_some}
use open_artifact.Store.Calls.{
  Platform, World, Body, map_err, on_disk, b_exists, b_new_writer, digest_of,
}
use open_artifact.Store.Calls.Frame.{Holds, b_new_writer-Keeps}
use open_artifact.Store.Files.{probe, receive, conclude, file_meta, write_file}
use open_artifact.Store.Files.Frame.{probe-Keeps, receive-Keeps, conclude-Keeps}
use open_artifact.Store.Files.Uploads.{
  IsDeclared, receive_ok, close_writer_done, conclude-concluded, concluded_ok, answer_ok,
}

-- A body that is streamed to its end and has every digest that was declared for it.
unfoldable pub IsIntact : (p : Platform) → Body → CreateConfig → Type 0
IsIntact p body cfg = (body.broken ≡ none) × All (IsDeclared p body.content) cfg.expected

-- The blob holds the body, and the sidecar the envelope `m` with the size and the digest of it.
unfoldable pub IsStored : (p : Platform) → Bytes → Bytes → Body → Meta → World p → Type 0
IsStored p blob_key meta_key body m w =
    (p.bucket.content w.disk blob_key ≡ some body.content)
    × ((raw : Bytes) × (p.encode_meta m ≡ some raw) × (p.bucket.content w.disk meta_key ≡ some raw))
    × (m.size ≡ length body.content)
    × (m.digest ≡ digest_of (p.sha256_sum body.content))

module _ (p : Platform) (lawful : IsLawful p.bucket) where
  conclude-IsStored :
      (blob_key meta_key : Bytes) (body : Body) (cfg : CreateConfig) (digests : _) (w : World p)
      {m : Meta}
      → meta_key ≢ blob_key
      → p.bucket.content w.disk blob_key ≡ some body.content
      → (conclude p meta_key body cfg digests w).0 ≡ ok m
      → IsStored p blob_key meta_key body m (conclude p meta_key body cfg digests w).1
  unfolding IsStored
  conclude-IsStored blob_key meta_key body cfg digests w ne there h =
      let new = file_meta p w.now cfg digests body.content in
      let e = conclude-concluded p meta_key body cfg digests w in
      let (same, raw, code, at_meta) =
        concluded_ok p lawful meta_key cfg new w (ap (λ r. r.0) (sym e) ∙ h) in
      let kept =
        (conclude-Keeps p lawful blob_key (some body.content) meta_key body cfg digests ne).at w
          there in
      (
        kept,
        (
          raw,
          ap p.encode_meta (sym same) ∙ code,
          ap (λ r. p.bucket.content r.1.disk meta_key) e ∙ at_meta,
        ),
        unfold file_meta in ap (λ (m : Meta). m.size) (sym same),
        unfold file_meta in ap (λ (m : Meta). m.digest) (sym same),
      )

  -- A write that returned took an intact body, and stored it.
  pub write_file-IsStored :
      (blob_key meta_key : Bytes) (body : Body) (cfg : CreateConfig) (w : World p) {m : Meta}
      → meta_key ≢ blob_key
      → (write_file p blob_key meta_key body cfg w).0 ≡ ok m
      → IsIntact p body cfg
        × IsStored p blob_key meta_key body m (write_file p blob_key meta_key body cfg w).1
  unfolding write_file IsIntact
  write_file-IsStored blob_key meta_key body cfg w {m} ne h =
      let (u₁, r₁, h₁, e₁) = bind_ok _ _ w h in
      let (u₂, r₂, h₂, e₂) = bind_ok _ _ _ h₁ in
      let (ds, r₃, h₃, e₃) = bind_ok _ _ _ h₂ in
      let (u₄, r₄, h₄, e₄) = bind_ok _ _ _ h₃ in
      (
        receive_ok p blob_key body cfg _ r₃,
        subst (λ r. IsStored p blob_key meta_key body m r.1) (sym (e₁ ∙ e₂ ∙ e₃ ∙ e₄))
            (conclude-IsStored blob_key meta_key body cfg ds _ ne
              (close_writer_done p lawful blob_key body.content _ _ r₄) h₄),
      )

  -- A call that fails and changes no object.
  abbrev pub IsAborted : {A : Type 0} → Io (World p) A → World p → Type 0
  IsAborted m w =
      ((e : Error) × ((m w).0 ≡ err e))
      × ((k : Bytes) → p.bucket.content (m w).1.disk k ≡ p.bucket.content w.disk k)

  pub IsAborted-bind :
      {A B : Type 0} (m : Io (World p) A) (f : A → Io (World p) B) (w : World p)
      → ((k : Bytes) (x : Option Bytes) → Keeps (Holds p k x) m)
      → ((a : A) → (m w).0 ≡ ok a → IsAborted (f a) (m w).1)
      → IsAborted (m >>= f) w
  IsAborted-bind m f w keeps rest = elim (bind_cases m f w) [
    | inl (a, r, same) ↦
        let ((e, failed), kept) = rest a r in
        (
          (e, ap (λ r. r.0) same ∙ failed),
          λ k.
              ap (λ r. p.bucket.content r.1.disk k) same
              ∙ kept k
              ∙ (keeps k (p.bucket.content w.disk k)).at w refl,
        )
    | inr (e, r, same) ↦ (
      (e, ap (λ r. r.0) same),
      λ k.
          ap (λ r. p.bucket.content r.1.disk k) same
          ∙ (keeps k (p.bucket.content w.disk k)).at w refl,
    )
  ]

  pub IsAborted-then :
      {A B : Type 0} (m : Io (World p) A) (f : A → Io (World p) B) (w : World p)
      → IsAborted m w
      → IsAborted (m >>= f) w
  IsAborted-then m f w ((e, failed), kept) = elim (bind_cases m f w) [
    | inl (a, r, same) ↦ absurd (cc (r, failed))
    | inr (e', r, same) ↦
        ((e', ap (λ r. r.0) same), λ k. ap (λ r. p.bucket.content r.1.disk k) same ∙ kept k)
  ]

  -- A body that is not intact is refused, and no object is changed.
  pub write_file-IsAborted :
      (blob_key meta_key : Bytes) (body : Body) (cfg : CreateConfig) (w : World p)
      → ¬ IsIntact p body cfg
      → IsAborted (write_file p blob_key meta_key body cfg) w
  unfolding write_file IsIntact
  write_file-IsAborted blob_key meta_key body cfg w broken =
      IsAborted-bind (probe p blob_key cfg.allow_overwrite) _ w
        (λ k x. probe-Keeps p lawful k x blob_key cfg.allow_overwrite)
        (λ u r.
          IsAborted-bind (b_new_writer p blob_key) _ _
            (λ k x. b_new_writer-Keeps p lawful k x blob_key)
            (λ u' r'.
              IsAborted-bind (receive p blob_key body cfg) _ _
                (λ k x. receive-Keeps p lawful k x blob_key body cfg)
                (λ ds r''. absurd (broken (receive_ok p blob_key body cfg _ r'')))))

  probe_taken :
      (blob_key : Bytes) (w : World p) {x : Bytes} {u : Unit {0}}
      → p.bucket.content w.disk blob_key ≡ some x
      → (probe p blob_key false w).0 ≡ ok u
      → ⊥
  unfolding probe
  probe_taken blob_key w there h =
      let (found, r, h', e) = bind_ok _ _ w h in
      let answer =
        lawful.exists_answer blob_key w.disk {v = found}
          (unfold b_exists on_disk in answer_ok p map_err _ r) in
      let yes_there : found ≡ true = answer ∙ ap is_some there in absurd (ground arith)

  -- Without the option to overwrite, a file that is there is never replaced: the write fails and
  -- no object is changed.
  pub write_file_taken :
      (blob_key meta_key : Bytes) (body : Body) (cfg : CreateConfig) (w : World p) {x : Bytes}
      → cfg.allow_overwrite ≡ false
      → p.bucket.content w.disk blob_key ≡ some x
      → IsAborted (write_file p blob_key meta_key body cfg) w
  unfolding write_file
  write_file_taken blob_key meta_key body cfg w new there =
      IsAborted-bind (probe p blob_key cfg.allow_overwrite) _ w
        (λ k x. probe-Keeps p lawful k x blob_key cfg.allow_overwrite)
        (λ u r.
          absurd
            (probe_taken blob_key w there (subst (λ b. (probe p blob_key b w).0 ≡ ok u) new r)))
