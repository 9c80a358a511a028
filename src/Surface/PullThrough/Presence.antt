-- ===== src/Surface/PullThrough/Presence.antt =====
-- The look for a file in the store with which a proxy engine begins, and the serving of what is there.
use open_artifact.Shared.{◌≡◌, refl, ℕ, Bool, Option, Bytes, ok}
use open_artifact.Store.Io.{Io}
use open_artifact.Store.Io.Keeps.{Keeps}
use open_artifact.Store.Bucket.{IsLawful, is_some}
use open_artifact.Store.Calls.{Store}
use open_artifact.Store.Files.{File, file_exists}
use open_artifact.Store.Files.Frame.{file_exists-Keeps}
use open_artifact.Store.Files.Existence.{file_exists_ok, file_exists-NowIs}
use open_artifact.Surface.Site.{Deployment, Site, at_store}
use open_artifact.Surface.Site.Frame.{SiteHolds}
use open_artifact.Surface.Http.{Method, store_status, or_write, redirect_or_stream}
use open_artifact.Surface.Http.Frame.{
  called-Keeps, or_write-Keeps, or_write_ok, redirect_or_stream-Stable,
}
use open_artifact.Surface.PullThrough.Frame.{NetIs, at_store-NetIs}

module _ (d : Deployment) (s : Store) (f : File) where
  -- Exists, with the writing of its error
  abbrev pub present : Io (Site d) Bool
  present = or_write store_status (at_store d (file_exists d.platform s f))

  pub present-NetIs : (n : d.transport.Net) → Keeps (NetIs d n) present
  present-NetIs n = or_write-Keeps store_status _ (at_store-NetIs d n _)

  pub present-now : (w : Site d) → (present w).1.world.now ≡ w.world.now
  unfolding or_write at_store
  present-now w = (file_exists-NowIs d.platform s f w.world.now).at w.world refl

  pub redirect_or_stream-NetIs :
      {D : Type 0} (n : d.transport.Net) (decimal : ℕ → Bytes) (method : Method)
      (content_type : Bytes)
      → Keeps (NetIs d n) (redirect_or_stream d {D = D} decimal method s f content_type)
  redirect_or_stream-NetIs n decimal method content_type =
      redirect_or_stream-Stable d (λ A m. at_store-NetIs d n {A = A} m) decimal method s f
        content_type

  module _ (lawful : IsLawful d.platform.bucket) where
    pub present-Keeps : (k : Bytes) (x : Option Bytes) → Keeps (SiteHolds d k x) present
    present-Keeps k x =
        called-Keeps d lawful k x store_status _ (file_exists-Keeps d.platform lawful k x s f)

    -- A file that was found is an object of the bucket.
    pub present_ok :
        (w : Site d) {b : Bool}
        → (present w).0 ≡ ok b
        → b ≡ is_some (d.platform.bucket.content w.world.disk f.blob_key)
    unfolding at_store
    present_ok w h = file_exists_ok d.platform s f lawful w.world (or_write_ok store_status _ w h)
