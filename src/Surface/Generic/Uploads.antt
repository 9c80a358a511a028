-- ===== src/Surface/Generic/Uploads.antt =====
-- uploadFile of pkg/surface/generic/handler.go: what a response to an upload stands for.
use open_artifact.Shared.{
  ℕ, ◌≤◌, ◌<◌, ◌≡◌, refl, ap, sym, subst, ◌∙◌, arith, true, Option, none, some, List, [], ◌∷◌,
  Bytes, All, length, ◌==◌, Bool-cases, inl, inr, codes, Result, ok, ok_injective,
}
use open_artifact.Shared.Maps.{Dict}
use open_artifact.Core.{Json, ExpectedDigest, format_generic, new_create_config}
use open_artifact.Store.Io.{Io}
use open_artifact.Store.Io.Inversion.{bind_then}
use open_artifact.Store.Bucket.{IsLawful}
use open_artifact.Store.Paths.{file_path}
use open_artifact.Store.Calls.{World, Store, Body}
use open_artifact.Store.Files.{new_file, file_meta_of, add_file, File}
use open_artifact.Store.Packages.{package_of, version_of}
use open_artifact.Store.Files.Frame.{file_meta_of-Keeps}
use open_artifact.Store.Files.Atomic.{IsIntact, IsStored}
use open_artifact.Store.Files.Stored.{add_file-IsStored}
use open_artifact.Store.Files.Uploads.{IsDeclared}
use open_artifact.Namespace.Registry.{scope_of}
use open_artifact.Surface.Site.{Deployment, Site, at_store}
use open_artifact.Surface.Http.{Request, Response, with_max_body, or_write}
use open_artifact.Surface.Http.Frame.{or_write_ok}
use open_artifact.Surface.Http.Bodies.{with_max_body_whole}
use open_artifact.Surface.Generic.Codec.{UploadResponse, checksum_headers, parse_checksums}
use open_artifact.Surface.Generic.Opening.{store_of-scope}
use open_artifact.Surface.Generic.{
  Config, upload_limit, upload_options, upload_status, upload_file, described, ensure_package,
  stored,
}

upload_limit_positive : (cfg : Config) → 0 < upload_limit cfg
unfolding upload_limit
upload_limit_positive cfg = elim (Bool-cases (cfg.max_upload_bytes == 0)) [
  | inl unset ↦ ground (arith, unset)
  | inr set ↦ ground (arith, set)
]

module _ (d : Deployment) (cfg : Config) (decode_create : Bytes → Option (Dict Json))
    (type_of : Bytes → Bytes) (decimal : ℕ → Bytes) where
  upload_options-expected :
      (content_type : Bytes) (expected : List ExpectedDigest)
      → (new_create_config
          (upload_options d cfg decode_create type_of decimal content_type expected)).expected
        ≡ expected
  unfolding upload_options new_create_config
  upload_options-expected content_type [] = elim (Bool-cases cfg.allow_overwrite) [
    | inl replace ↦ rw (replace) refl
    | inr keep ↦ rw (keep) refl
  ]
  upload_options-expected content_type (e ∷ expected) = elim (Bool-cases cfg.allow_overwrite) [
    | inl replace ↦ rw (replace) refl
    | inr keep ↦ rw (keep) refl
  ]

  module _ (lawful : IsLawful d.platform.bucket) (r : Request) (ns pkg ver file : Bytes) where
    IsUploaded : Response UploadResponse → Result (Response UploadResponse) × Site d → Type 0
    IsUploaded resp out =
        (resp.status ≡ 201)
        × ((expected : List ExpectedDigest) × (parse_checksums checksum_headers r.headers
              ≡ ok expected)
            × All (IsDeclared d.platform r.body.content) expected)
        × (r.body.broken ≡ none)
        × (length r.body.content ≤ upload_limit cfg)
        × (d.platform.bucket.content out.1.world.disk
              (file_path (scope_of d.prefix ns format_generic) pkg ver file)
            ≡ some r.body.content)

    abbrev adding : Store → List ExpectedDigest → Io (World d.platform) File
    adding s expected =
        add_file d.platform s (new_file s (version_of (package_of pkg) ver) file)
          (with_max_body (upload_limit cfg) r.body)
          (upload_options d cfg decode_create type_of decimal (r.headers (codes "Content-Type"))
            expected)

    -- what AddFile of the capped body stored
    added :
        (s : Store) (expected : List ExpectedDigest) (w : World d.platform) {f : File}
        → (adding s expected w).0 ≡ ok f
        → All (IsDeclared d.platform r.body.content) expected
          × (r.body.broken ≡ none)
          × (length r.body.content ≤ upload_limit cfg)
          × (d.platform.bucket.content (adding s expected w).1.disk (file_path s.scope pkg ver file)
              ≡ some r.body.content)
    unfolding IsIntact IsStored new_file version_of package_of
    added s expected w h =
        let (same, (whole, declared), (m, (here, sidecar, size, digest))) =
          add_file-IsStored d.platform s (version_of (package_of pkg) ver) file lawful _ _ w h in
        let (body, fits) =
          with_max_body_whole (upload_limit cfg) r.body (upload_limit_positive cfg) whole in
        let options = upload_options-expected (r.headers (codes "Content-Type")) expected in
        (
          subst (λ (b : Body). All (IsDeclared d.platform b.content) expected) body
              (subst (All (IsDeclared d.platform (with_max_body (upload_limit cfg) r.body).content))
                options declared),
          subst (λ (b : Body). b.broken ≡ none) body whole,
          fits,
          here ∙ ap (λ (b : Body). some b.content) body,
        )

    -- the last steps of an upload: the file, then the response
    finished :
        (s : Store) (expected : List ExpectedDigest) (w : Site d) {f : File}
        {resp : Response UploadResponse}
        → s.scope ≡ scope_of d.prefix ns format_generic
        → parse_checksums checksum_headers r.headers ≡ ok expected
        → (or_write upload_status (at_store d (adding s expected)) w).0 ≡ ok f
        → (described d cfg decode_create type_of decimal s pkg ver file f
            (or_write upload_status (at_store d (adding s expected)) w).1).0
          ≡ ok resp
        → IsUploaded resp (
            described d cfg decode_create type_of decimal s pkg ver file f
              (or_write upload_status (at_store d (adding s expected)) w).1)
    unfolding or_write at_store described IsUploaded
    finished s expected w {f} scope parsed kept answered =
        let after = (adding s expected w.world).1 in
        let (declared, whole, fits, there) =
          added s expected w.world
            (or_write_ok upload_status (at_store d (adding s expected)) w kept) in
        (
          ap (λ (r : Response UploadResponse). r.status) (sym (ok_injective answered)),
          (expected, parsed, declared),
          whole,
          fits,
          subst
              (λ c.
                d.platform.bucket.content (file_meta_of d.platform s f after).1.disk
                  (file_path c pkg ver file)
                ≡ some r.body.content)
              scope
              ((file_meta_of-Keeps d.platform lawful (file_path s.scope pkg ver file)
                  (some r.body.content) s f).at
                after there),
        )

    -- A response to an upload has the status 201: the checksum headers were read, and the body came to
    -- its end, is no longer than the limit, and has every checksum; the bucket now holds it under the
    -- path of the file, in the scope of the namespace.
    pub upload_file_created :
        (w : Site d) {resp : Response UploadResponse}
        → (upload_file d cfg decode_create type_of decimal r ns pkg ver file w).0 ≡ ok resp
        → (resp.status ≡ 201)
          × ((expected : List ExpectedDigest) × (parse_checksums checksum_headers r.headers
                ≡ ok expected)
              × All (IsDeclared d.platform r.body.content) expected)
          × (r.body.broken ≡ none)
          × (length r.body.content ≤ upload_limit cfg)
          × (d.platform.bucket.content
                (upload_file d cfg decode_create type_of decimal r ns pkg ver file w).1.world.disk
                (file_path (scope_of d.prefix ns format_generic) pkg ver file)
              ≡ some r.body.content)
    unfolding upload_file ensure_package stored IsUploaded
    upload_file_created w {resp} h = bind_then (IsUploaded resp) _ _ w h (λ s opened h₁.
        bind_then (IsUploaded resp) _ _ _ h₁ (λ expected parsed h₂.
          bind_then (IsUploaded resp) _ _ _ h₂ (λ u r₃ h₃.
            bind_then (IsUploaded resp) _ _ _ h₃ (λ u₁ r₄ h₄.
              bind_then (IsUploaded resp) _ _ _ h₄ (λ f kept answered.
                finished s expected _
                  (store_of-scope d cfg decode_create type_of decimal r ns true w s opened) parsed
                  kept answered)))))
