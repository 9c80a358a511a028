-- ===== src/Store/Files/Deleted.antt =====
-- Delete of a cache file in pkg/core/blobstore/store.go: what is in the bucket afterwards.
use open_artifact.Shared.{
  ◌≡◌, ◌≢◌, refl, ap, ◌∙◌, false, none, Bytes, ok, missing, unknown, precondition, unimplemented,
}
use open_artifact.Store.Io.Inversion.{bind_ok}
use open_artifact.Store.Bucket.{IsLawful, Reply, done, failed}
use open_artifact.Store.Calls.{Platform, World, Store}
use open_artifact.Store.Files.{File, admit, gone, delete_key, file_delete}
use open_artifact.Store.Files.Frame.{delete_key-Keeps}

module _ (p : Platform) (s : Store) (lawful : IsLawful p.bucket) where
  gone_absent :
      (key : Bytes) (d : p.bucket.State) (r : Reply (Unit {0})) {u : Unit {0}}
      → (p.bucket.delete key d).0 ≡ r
      → gone p s r ≡ ok u
      → p.bucket.content (p.bucket.delete key d).1 key ≡ none
  unfolding gone
  gone_absent key d (done u) e h = lawful.delete_done key d e
  gone_absent key d (failed missing) e h = lawful.delete_missing key d e
  gone_absent key d (failed precondition) e h = absurd (cc)
  gone_absent key d (failed unimplemented) e h = absurd (cc)
  gone_absent key d (failed unknown) e h = absurd (cc)

  delete_key_absent :
      (key : Bytes) (w : World p) {u : Unit {0}}
      → (delete_key p s key w).0 ≡ ok u
      → p.bucket.content (delete_key p s key w).1.disk key ≡ none
  unfolding delete_key
  delete_key_absent key w h = gone_absent key w.disk (p.bucket.delete key w.disk).0 refl h

  -- A Delete that returned leaves neither the file nor its sidecar, if their keys differ.
  pub file_delete_absent :
      (f : File) (w : World p)
      → f.meta_key ≢ f.blob_key
      → (file_delete p s f w).0 ≡ ok tt
      → (p.bucket.content (file_delete p s f w).1.disk f.blob_key ≡ none)
        × (p.bucket.content (file_delete p s f w).1.disk f.meta_key ≡ none)
  unfolding file_delete
  file_delete_absent f w ne h =
      let (u, r, h₁, e₁) = bind_ok _ _ w h in
      let w₁ = (admit p s f.name_err false w).1 in
      let (u₂, r₂, h₂, e₂) = bind_ok _ _ _ h₁ in
      let w₂ = (delete_key p s f.blob_key w₁).1 in
      (
        ap (λ r. p.bucket.content r.1.disk f.blob_key) (e₁ ∙ e₂)
            ∙ (delete_key-Keeps p lawful f.blob_key none s f.meta_key ne).at w₂
                (delete_key_absent f.blob_key w₁ r₂),
        ap (λ r. p.bucket.content r.1.disk f.meta_key) (e₁ ∙ e₂)
            ∙ delete_key_absent f.meta_key w₂ h₂,
      )
