-- ===== src/Surface/Maven/Uploads.antt =====
-- upload of pkg/surface/maven/handler.go: what a response to an upload stands for.
use open_artifact.Shared.{
  ℕ, ◌≡◌, ◌≢◌, refl, ap, sym, subst, ◌∙◌, arith, Bool, true, false, Option, none, some, List, Bytes,
  is_empty, equal_fold, hex_encode, first_field, Error, Result, ok, ok_injective, Bool-cases,
  Option-cases, inl, inr, ◌<◌, ◌==◌,
}
use open_artifact.Core.{Hash, CreateOption, format_maven, Meta}
use open_artifact.Store.Io.{lift, unless}
use open_artifact.Store.Io.Inversion.{bind_ok, bind_then}
use open_artifact.Store.Io.Keeps.{Keeps}
use open_artifact.Store.Bucket.{IsLawful}
use open_artifact.Store.Paths.{
  store_file_path, store_file_meta_path, package_file_path, package_file_meta_path, file_path,
  file_meta_path,
}
use open_artifact.Store.Calls.{World, Store, Body, Platform}
use open_artifact.Store.Files
use open_artifact.Store.Files.{
  File, new_store_file, new_package_file, new_file, file_content, admit,
}
use open_artifact.Store.Files.Atomic.{IsStored, write_file-IsStored}
use open_artifact.Store.Files.Stored.{meta_path_ne_path}
use open_artifact.Store.Files.Existence.{file_content_ok}
use open_artifact.Namespace.{Spec, is_proxy}
use open_artifact.Namespace.Registry.{scope_of}
use open_artifact.Surface.Site.{Deployment, Site, at_store}
use open_artifact.Surface.Site.Frame.{SiteHolds, open_store-Keeps, open_store-scope}
use open_artifact.Surface.Http.{Request, Response, or_write, store_status, with_max_body}
use open_artifact.Surface.Http.Frame.{or_write_ok, or_write-Keeps}
use open_artifact.Surface.Http.Bodies.{with_max_body_whole}
use open_artifact.Surface.Maven
use open_artifact.Surface.Maven.Codec.{
  PathKind, artifact, artifact_metadata, version_metadata, archetype_catalog, RequestPath,
  parse_path, verify_checksum,
}
use open_artifact.Surface.Maven.{
  Config, file, file_at, checked, verify_checksum_upload, upload, authorized_store, refuse_proxy,
  stored, upload_limit, body_of, read_upload_body,
}

-- At each level of the store, a file and its sidecar have different keys.
keys_differ :
    (kind : PathKind) (s : Store) (p : RequestPath) (name : Bytes)
    → (file_at kind s p name).meta_key ≢ (file_at kind s p name).blob_key
unfolding file_at new_file new_package_file new_store_file store_file_path store_file_meta_path
    package_file_path package_file_meta_path file_path file_meta_path
keys_differ artifact s p name = meta_path_ne_path _ name
keys_differ version_metadata s p name = meta_path_ne_path _ name
keys_differ artifact_metadata s p name = meta_path_ne_path _ name
keys_differ archetype_catalog s p name = meta_path_ne_path _ name

verify_checksum-none :
    (digest : Hash → Bytes → Bytes) (alg : Hash) (target declared : Bytes)
    → verify_checksum digest alg target declared ≡ none
    → equal_fold (hex_encode (digest alg target)) (first_field declared) ≡ true
unfolding verify_checksum
verify_checksum-none digest alg target declared h =
    elim (Bool-cases (is_empty (first_field declared))) [
      | inl empty ↦ absurd (ground (arith, h, empty))
      | inr some_field ↦
          elim (Bool-cases (equal_fold (hex_encode (digest alg target)) (first_field declared))) [
            | inl same ↦ same
            | inr different ↦ absurd (ground (arith, h, some_field, different))
          ]
    ]

unless_ok :
    {W : Type 0} (o : Option Error) (w : W) {u : Unit {0}} → (unless o w).0 ≡ ok u → o ≡ none
unless_ok none w h = refl
unless_ok (some e) w h = absurd (cc)

module _ (p : Platform) (s : Store) (lawful : IsLawful p.bucket) where
  stored_content :
      (blob_key meta_key : Bytes) (body : Body) (m : Meta) (w : World p)
      → IsStored p blob_key meta_key body m w
      → p.bucket.content w.disk blob_key ≡ some body.content
  unfolding IsStored
  stored_content blob_key meta_key body m w (here, sidecar, size, digest) = here

  -- An AddFile that returned stored the body under the key of the file.
  add_file_ok :
      (f : File) (body : Body) (opts : List CreateOption) (w : World p) {g : File}
      → f.meta_key ≢ f.blob_key
      → (Files.add_file p s f body opts w).0 ≡ ok g
      → p.bucket.content (Files.add_file p s f body opts w).1.disk f.blob_key ≡ some body.content
  unfolding Files.add_file
  add_file_ok f body opts w ne h =
      let Q = λ (out : Result File × World p).
        p.bucket.content out.1.disk f.blob_key ≡ some body.content in
      bind_then Q _ _ w h (λ u admitted h₁. bind_then Q _ _ _ h₁ (λ m written h₂.
        (stored_content _ _ _ _ _
          (write_file-IsStored p lawful f.blob_key f.meta_key body _ _ ne written).1)))

upload_limit_positive : (cfg : Config) → 0 < upload_limit cfg
unfolding upload_limit
upload_limit_positive cfg = elim (Bool-cases (cfg.max_upload_bytes == 0)) [
  | inl unset ↦ ground (arith, unset)
  | inr set ↦ ground (arith, set)
]

module _ (d : Deployment) (cfg : Config) (digest : Hash → Bytes → Bytes) (stamp : ℕ → Bytes)
    (decimal : ℕ → Bytes) (lawful : IsLawful d.platform.bucket) where
  body_ok :
      (b : Body) {bytes : Bytes}
      → body_of d cfg digest stamp decimal b ≡ ok bytes
      → (b.broken ≡ none) × (b.content ≡ bytes)
  unfolding body_of
  body_ok b h = elim (Option-cases b.broken) [
    | inl whole ↦ (whole, ground (arith, h, whole))
    | inr (e, broken) ↦ absurd (ground (arith, h, broken))
  ]

  -- The body that an upload goes on with is the whole body of the request.
  read_ok :
      (r : Request) (w : Site d) {bytes : Bytes}
      → (read_upload_body d cfg digest stamp decimal r w).0 ≡ ok bytes
      → r.body.content ≡ bytes
  unfolding read_upload_body
  read_ok r w h =
      let (whole, same) = body_ok (with_max_body (upload_limit cfg) r.body) h in
      let (body, fits) =
        with_max_body_whole (upload_limit cfg) r.body (upload_limit_positive cfg) whole in
      ap (λ (b : Body). b.content) (sym body) ∙ same

  checked_ok :
      (s : Store) (p : RequestPath) (alg : Hash) (body : Bytes) (w : Site d) {u : Unit {0}}
      → (checked d cfg digest stamp decimal s p (some alg) body w).0 ≡ ok u
      → (target : Bytes) × (d.platform.bucket.content w.world.disk (file s p p.target_file).blob_key
          ≡ some target)
        × (equal_fold (hex_encode (digest alg target)) (first_field body) ≡ true)
  unfolding checked verify_checksum_upload at_store
  checked_ok s p alg body w h =
      let (target, read, verified, e) = bind_ok _ _ w.world (or_write_ok _ _ w h) in
      (
        target,
        file_content_ok d.platform s (file s p p.target_file) lawful w.world read,
        verify_checksum-none digest alg target body (unless_ok _ _ verified),
      )

  added_ok :
      (s : Store) (p : RequestPath) (body : Bytes) (w : Site d) {f : File}
      → (stored d cfg digest stamp decimal (Maven.add_file d cfg digest stamp decimal s p body) w).0
        ≡ ok f
      → d.platform.bucket.content
          (stored d cfg digest stamp decimal
            (Maven.add_file d cfg digest stamp decimal s p body)
            w).1.world.disk
          (file s p p.file).blob_key
        ≡ some body
  unfolding stored Maven.add_file at_store or_write file
  added_ok s p body w h =
      add_file_ok d.platform s lawful (file s p p.file) _ _ w.world (keys_differ p.kind s p p.file)
        (or_write_ok store_status (at_store d (Maven.add_file d cfg digest stamp decimal s p body))
          w h)

  opened_ok :
      (r : Request) (ns : Bytes) (w : Site d) {s : Store} {spec : Spec}
      → (authorized_store d cfg digest stamp decimal r ns true w).0 ≡ ok (s, spec)
      → s.scope ≡ scope_of d.prefix ns format_maven
  unfolding authorized_store
  opened_ok r ns w h = open_store-scope d ns format_maven r.subject w _ (or_write_ok _ _ w h)

  -- what the steps before the check of a checksum leave alone
  authorized_store-Keeps :
      (k : Bytes) (x : Option Bytes) (r : Request) (ns : Bytes)
      → Keeps (SiteHolds d k x) (authorized_store d cfg digest stamp decimal r ns true)
  unfolding authorized_store
  authorized_store-Keeps k x r ns =
      or_write-Keeps _ _ (open_store-Keeps d lawful k x ns format_maven r.subject)

  refuse_proxy-Keeps :
      (k : Bytes) (x : Option Bytes) (b : Bool)
      → Keeps (SiteHolds d k x) (refuse_proxy d cfg digest stamp decimal b)
  unfolding refuse_proxy
  refuse_proxy-Keeps k x true = record { at = λ w h. h }
  refuse_proxy-Keeps k x false = record { at = λ w h. h }

  -- What an upload of a checksum file left: the bucket held the target, whose digest is the first field
  -- of the body, and now holds the body under the path of the checksum file.
  IsVerified :
      {D : Type 0} → RequestPath → Hash → Request → Site d → Result (Response D) × Site d → Type 0
  IsVerified p alg r w out =
      (s : Store) × (s.scope ≡ scope_of d.prefix p.namespace format_maven)
      × ((target : Bytes) × (d.platform.bucket.content w.world.disk
              (file s p p.target_file).blob_key
            ≡ some target)
          × (equal_fold (hex_encode (digest alg target)) (first_field r.body.content) ≡ true))
      × (d.platform.bucket.content out.1.world.disk (file s p p.file).blob_key
          ≡ some r.body.content)

  parsed_ok :
      (escaped : Bytes) (w : Site d) {p q : RequestPath}
      → parse_path escaped ≡ ok p
      → (or_write store_status (lift (parse_path escaped)) w).0 ≡ ok q
      → q ≡ p
  parsed_ok escaped w h read =
      ok_injective (sym (or_write_ok store_status (lift (parse_path escaped)) w read) ∙ h)

  -- the facts that the steps of an upload leave, put together
  checksum_facts :
      {D : Type 0} (q p : RequestPath) (alg : Hash) (r : Request) (w v : Site d) (s : Store)
      (body : Bytes) (out : Result (Response D) × Site d) {u : Unit {0}}
      → q ≡ p
      → s.scope ≡ scope_of d.prefix q.namespace format_maven
      → ((k : Bytes)
          → d.platform.bucket.content v.world.disk k ≡ d.platform.bucket.content w.world.disk k)
      → r.body.content ≡ body
      → (checked d cfg digest stamp decimal s q (some alg) body v).0 ≡ ok u
      → d.platform.bucket.content out.1.world.disk (file s q q.file).blob_key ≡ some body
      → IsVerified {D = D} p alg r w out
  unfolding IsVerified
  checksum_facts {D} q p alg r w v s body out named scope kept whole verified there =
      let (target, held, same) = checked_ok s q alg body v verified in
      subst (λ p. IsVerified {D = D} p alg r w out) named
        (
          s,
          scope,
          (
            target,
            sym (kept (file s q q.target_file).blob_key) ∙ held,
            ap (λ b. equal_fold (hex_encode (digest alg target)) (first_field b)) whole ∙ same,
          ),
          there ∙ ap some (sym whole),
        )

  upload-IsVerified :
      {D : Type 0} (escaped : Bytes) (r : Request) (w : Site d) {p : RequestPath} {alg : Hash}
      {resp : Response D}
      → parse_path escaped ≡ ok p
      → p.checksum ≡ some alg
      → (upload d cfg digest stamp decimal escaped r w).0 ≡ ok resp
      → IsVerified p alg r w (upload d cfg digest stamp decimal {D = D} escaped r w)
  unfolding upload or_write read_upload_body
  upload-IsVerified {D} escaped r w {p} {alg} parsed is_checksum h =
      let Q = IsVerified {D = D} p alg r w in
      bind_then Q (or_write store_status (lift (parse_path escaped))) _ w h (λ q read h₁.
        let same = parsed_ok escaped w parsed read in
        bind_then Q (authorized_store d cfg digest stamp decimal r q.namespace true) _ w h₁
          (λ opened allowed h₂.
            bind_then Q (refuse_proxy d cfg digest stamp decimal (is_proxy opened.1)) _ _ h₂
              (λ u hosted h₃. bind_then Q _ _ _ h₃ (λ body whole h₄.
                bind_then Q _ _ _ h₄ (λ u₁ verified h₅. bind_then Q _ _ _ h₅ (λ u₂ made h₆.
                  bind_then Q _ _ _ h₆ (λ f added h₇.
                    (checksum_facts q p alg r w (hosted_site q opened) opened.0 body _ same
                      (opened_ok r q.namespace w allowed)
                      (λ k.
                        (refuse_proxy-Keeps k _ (is_proxy opened.1)).at _
                          ((authorized_store-Keeps k _ r q.namespace).at w refl))
                      (read_ok r (hosted_site q opened) whole)
                      (subst
                        (λ c.
                          (checked d cfg digest stamp decimal opened.0 q c body
                            (hosted_site q opened)).0
                          ≡ ok u₁)
                        (ap (λ (p : RequestPath). p.checksum) same ∙ is_checksum) verified)
                      (added_ok opened.0 q body _ added)))))))))
    where
      hosted_site : RequestPath → Store × Spec → Site d
      hosted_site q opened =
          (refuse_proxy d cfg digest stamp decimal (is_proxy opened.1)
            (authorized_store d cfg digest stamp decimal r q.namespace true w).1).1

  -- An upload of a checksum file that returned a response: the target was in the bucket, the first
  -- field of the body is the digest of the target in hexadecimal, whatever the case of its letters, and
  -- the bucket now holds the body under the path of the checksum file.
  pub upload_verified :
      {D : Type 0} (escaped : Bytes) (r : Request) (w : Site d) {p : RequestPath} {alg : Hash}
      {resp : Response D}
      → parse_path escaped ≡ ok p
      → p.checksum ≡ some alg
      → (upload d cfg digest stamp decimal escaped r w).0 ≡ ok resp
      → (s : Store) × (s.scope ≡ scope_of d.prefix p.namespace format_maven)
        × ((target : Bytes) × (d.platform.bucket.content w.world.disk
                (file s p p.target_file).blob_key
              ≡ some target)
            × (equal_fold (hex_encode (digest alg target)) (first_field r.body.content) ≡ true))
        × (d.platform.bucket.content
              (upload d cfg digest stamp decimal {D = D} escaped r w).1.world.disk
              (file s p p.file).blob_key
            ≡ some r.body.content)
  unfolding IsVerified
  upload_verified {D} escaped r w {p} {alg} parsed is_checksum h =
      upload-IsVerified {D = D} escaped r w {p = p} {alg = alg} parsed is_checksum h
