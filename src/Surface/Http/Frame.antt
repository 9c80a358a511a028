-- ===== src/Surface/Http/Frame.antt =====
-- pkg/surface/http.go: what the serving of a file leaves alone.
use open_artifact.Shared.{◌≡◌, Option, Bytes, Error, Result, ok, err, ℕ}
use open_artifact.Store.Io.{Io}
use open_artifact.Store.Io.Keeps.{Keeps, keeps_rules}
use open_artifact.Store.Bucket.{IsLawful}
use open_artifact.Store.Calls.{World, Store}
use open_artifact.Store.Calls.Frame.{Holds}
use open_artifact.Store.Files.{File, file_meta_of, file_read, download_url}
use open_artifact.Store.Files.Frame.{file_meta_of-Keeps, file_read-Keeps, download_url-Keeps}
use open_artifact.Surface.Site.{Deployment, Site, at_store}
use open_artifact.Surface.Site.Frame.{SiteHolds, at_store-Keeps}
use open_artifact.Surface.Http.{
  Method, write_error, or_write, store_status, streamed, stream, redirect_or_stream,
}

pub or_write-Keeps :
    {W A : Type 0} {P : W → Type 0} (status : Error → ℕ × Bytes) (m : Io W A)
    → Keeps P m
    → Keeps P (or_write status m)
unfolding or_write
or_write-Keeps status m keeps = record { at = λ w h. keeps.at w h }

write_error_ok :
    {A : Type 0} (status : Error → ℕ × Bytes) (r : Result A) {a : A}
    → write_error status r ≡ ok a
    → r ≡ ok a
unfolding write_error
write_error_ok status (ok b) h = h
write_error_ok status (err e) h = absurd (cc)

-- A call whose error would have been written, and that went on: it returned.
pub or_write_ok :
    {W A : Type 0} (status : Error → ℕ × Bytes) (m : Io W A) (w : W) {a : A}
    → (or_write status m w).0 ≡ ok a
    → (m w).0 ≡ ok a
unfolding or_write
or_write_ok status m w h = write_error_ok status (m w).0 h

module _ (d : Deployment) (lawful : IsLawful d.platform.bucket) (k : Bytes) (x : Option Bytes) where
  -- a call of the store, with the writing of its error
  pub called-Keeps :
      {A : Type 0} (status : Error → ℕ × Bytes) (m : Io (World d.platform) A)
      → Keeps (Holds d.platform k x) m
      → Keeps (SiteHolds d k x) (or_write status (at_store d m))
  called-Keeps status m keeps = or_write-Keeps status _ (at_store-Keeps d lawful k x m keeps)

  described-Keeps :
      (status : Error → ℕ × Bytes) (s : Store) (f : File)
      → Keeps (SiteHolds d k x) (or_write status (at_store d (file_meta_of d.platform s f)))
  described-Keeps status s f = called-Keeps status _ (file_meta_of-Keeps d.platform lawful k x s f)

  read-Keeps :
      (status : Error → ℕ × Bytes) (s : Store) (f : File)
      → Keeps (SiteHolds d k x) (or_write status (at_store d (file_read d.platform s f)))
  read-Keeps status s f = called-Keeps status _ (file_read-Keeps d.platform lawful k x s f)

  linked-Keeps :
      (status : Error → ℕ × Bytes) (s : Store) (f : File)
      → Keeps (SiteHolds d k x) (or_write status (at_store d (download_url d.platform s f)))
  linked-Keeps status s f = called-Keeps status _ (download_url-Keeps d.platform lawful k x s f)

  module _ {D : Type 0} (decimal : ℕ → Bytes) (method : Method) (s : Store) (f : File) where
    stream-Keeps :
        (content_type : Bytes)
        → Keeps (SiteHolds d k x) (stream d {D = D} decimal method s f content_type)
    unfolding stream streamed
    stream-Keeps content_type = search (keeps_rules, described-Keeps, read-Keeps)

    pub redirect_or_stream-Keeps :
        (content_type : Bytes)
        → Keeps (SiteHolds d k x) (redirect_or_stream d {D = D} decimal method s f content_type)
    unfolding redirect_or_stream
    redirect_or_stream-Keeps content_type = search (keeps_rules, linked-Keeps, stream-Keeps)

-- What no call of the store changes is not changed by the serving of a file.
module _ (d : Deployment) {P : Site d → Type 0}
    (calls : (A : Type 0) (m : Io (World d.platform) A) → Keeps P (at_store d m)) where
  called-Stable :
      {A : Type 0} (m : Io (World d.platform) A) → Keeps P (or_write store_status (at_store d m))
  called-Stable {A} m = or_write-Keeps store_status _ (calls A m)

  module _ {D : Type 0} (decimal : ℕ → Bytes) (method : Method) (s : Store) (f : File) where
    stream-Stable :
        (content_type : Bytes) → Keeps P (stream d {D = D} decimal method s f content_type)
    unfolding stream streamed
    stream-Stable content_type = search (keeps_rules, called-Stable)

    pub redirect_or_stream-Stable :
        (content_type : Bytes)
        → Keeps P (redirect_or_stream d {D = D} decimal method s f content_type)
    unfolding redirect_or_stream
    redirect_or_stream-Stable content_type = search (keeps_rules, called-Stable, stream-Stable)
