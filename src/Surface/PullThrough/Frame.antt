-- ===== src/Surface/PullThrough/Frame.antt =====
-- What the calls of a proxy engine to the upstream and to the negative cache leave alone.
use open_artifact.Shared.{◌≡◌, Bytes, codes, Error, rejected}
use open_artifact.Store.Io.{Io}
use open_artifact.Store.Io.Keeps.{Keeps, Keeps-bind, keeps_rules}
use open_artifact.Store.Calls.{World}
use open_artifact.Proxy.Negative
use open_artifact.Surface.Site.{Deployment, Site, at_store}
use open_artifact.Surface.Http.{or_write}
use open_artifact.Surface.Generic.{tolerating}
use open_artifact.Surface.PullThrough.{
  attempted, logged, at_net, is_marked, mark, missing, mark_missing, unavailable,
}

-- the error of a missing file, as it is written
abbrev pub not_found_reply : Error
not_found_reply = rejected 404 (codes "not found")

module _ {W A : Type 0} {P : W → Type 0} where
  pub attempted-Keeps : (m : Io W A) → Keeps P m → Keeps P (attempted m)
  attempted-Keeps m keeps = record { at = λ w h. keeps.at w h }

  pub logged-Keeps : (m : Io W A) → Keeps P m → Keeps P (logged m)
  logged-Keeps m keeps = record { at = λ w h. keeps.at w h }

  pub tolerating-Keeps : (m : Io W A) → Keeps P m → Keeps P (tolerating m)
  tolerating-Keeps m keeps = record { at = λ w h. keeps.at w h }

-- A property of the store and the policies alone.
abbrev pub IsOfStore : (d : Deployment) → (Site d → Type 0) → Type 0
IsOfStore d P =
    (w : Site d) (n : d.transport.Net) (c : Negative.Cache)
    → P w
    → P (record w { net = n; negative = c })

module _ (d : Deployment) {P : Site d → Type 0} (stable : IsOfStore d P) where
  pub at_net-Keeps : {A : Type 0} (m : Io d.transport.Net A) → Keeps P (at_net d m)
  unfolding at_net
  at_net-Keeps m = record { at = λ w h. stable w (m w.net).1 w.negative h }

  pub is_marked-Keeps : (ns format key : Bytes) → Keeps P (is_marked d ns format key)
  unfolding is_marked
  is_marked-Keeps ns format key = record { at = λ w h. stable w w.net _ h }

  mark-Keeps : (ns format key : Bytes) → Keeps P (mark d ns format key)
  unfolding mark
  mark-Keeps ns format key = record { at = λ w h. stable w w.net _ h }

  pub missing-Keeps : {A : Type 0} → Keeps P (missing d {A = A})
  unfolding missing or_write
  missing-Keeps = record { at = λ w h. h }

  pub mark_missing-Keeps :
      {A : Type 0} (ns format key : Bytes) → Keeps P (mark_missing d {A = A} ns format key)
  unfolding mark_missing
  mark_missing-Keeps ns format key = Keeps-bind _ _ (mark-Keeps ns format key) (λ u. missing-Keeps)

  pub unavailable-Keeps : {A : Type 0} → Keeps P (unavailable d {A = A})
  unfolding unavailable
  unavailable-Keeps = search keeps_rules

-- Calls of the store leave the network alone.
module _ (d : Deployment) (n : d.transport.Net) where
  abbrev pub NetIs : Site d → Type 0
  NetIs w = w.net ≡ n

  pub at_store-NetIs : {A : Type 0} (m : Io (World d.platform) A) → Keeps NetIs (at_store d m)
  unfolding at_store
  at_store-NetIs m = record { at = λ w h. h }
