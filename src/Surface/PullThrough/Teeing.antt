-- ===== src/Surface/PullThrough/Teeing.antt =====
-- TeeStreamToStore of pkg/surface/http.go over the store: what the client has and what the bucket has.
use open_artifact.Shared.{◌≡◌, ℕ, Option, Bytes}
use open_artifact.Store.Io.{Io}
use open_artifact.Store.Io.Keeps.{Keeps}
use open_artifact.Store.Calls.{World, Body}
use open_artifact.Store.Files.Whole.{IsWhole}
use open_artifact.Surface.Site.{Deployment, Site, at_store}
use open_artifact.Surface.Http.{Response, content}
use open_artifact.Surface.Http.Relay.{Teed, relayed, tee_stream_to_store}

-- The object under `k` is the old one, or all of the new bytes.
abbrev pub SiteIsWhole : (d : Deployment) → Bytes → Option Bytes → Bytes → Site d → Type 0
SiteIsWhole d k old new w = IsWhole d.platform k old new w.world

-- A response of 200 with those bytes.
abbrev pub Sends : {D : Type 0} → Bytes → Response D → Type 0
Sends bytes resp = (resp.status ≡ 200) × (resp.payload ≡ content bytes)

module _ (d : Deployment) {A D : Type 0} (decimal : ℕ → Bytes) (hangs_up : Option ℕ) (body : Body)
    (content_type : Bytes) (n : Option ℕ) (fill : Body → Io (World d.platform) A) where
  abbrev pub tee : Io (Site d) (Teed D)
  tee = tee_stream_to_store decimal hangs_up body content_type n (λ b. at_store d (fill b))

  pub tee-Keeps :
      {P : World d.platform → Type 0}
      → Keeps P (fill (relayed hangs_up body))
      → Keeps (λ (w : Site d). P w.world) tee
  unfolding tee_stream_to_store at_store
  tee-Keeps keeps = record { at = λ w h. keeps.at w.world h }
