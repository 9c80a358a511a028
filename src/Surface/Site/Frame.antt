-- ===== src/Surface/Site/Frame.antt =====
-- The calls of a site (pkg/namespace/authz.go over pkg/core/blobstore), and what they leave alone.
use open_artifact.Shared.{◌≡◌, ap, ◌∙◌, Bool, true, false, Option, none, some, Bytes, Result, ok}
use open_artifact.Auth.{AuthContext}
use open_artifact.Store.Io.{Io}
use open_artifact.Store.Io.Keeps.{Keeps, keeps_rules}
use open_artifact.Store.Bucket.{IsLawful}
use open_artifact.Store.Calls
use open_artifact.Store.Calls.Frame.{Holds}
use open_artifact.Namespace.Catalog
use open_artifact.Store.Calls.{Store}
use open_artifact.Namespace.{Spec}
use open_artifact.Namespace.Registry.{for, scope_of}
use open_artifact.Namespace.Registry.Enforcement.{opened_store}
use open_artifact.Surface.Site.{
  Deployment, Site, engine, catalog_platform, catalog, at_store, at_catalog, is_consulted, consult,
  open_store, open_proxy_store, with_new_caches,
}

-- The site's bucket holds `x` under `k`.
abbrev pub SiteHolds : (d : Deployment) → Bytes → Option Bytes → Site d → Type 0
SiteHolds d k x w = d.platform.bucket.content w.world.disk k ≡ x

module _ (d : Deployment) (lawful : IsLawful d.platform.bucket) (k : Bytes) (x : Option Bytes) where
  CatalogHolds : Catalog.World (catalog_platform d) → Type 0
  CatalogHolds w = d.platform.bucket.content w.disk k ≡ x

  read_meta-Keeps :
      (key : Bytes)
      → Keeps CatalogHolds
          (Catalog.on_disk (catalog_platform d) Catalog.load_error (d.platform.bucket.read_all key))
  unfolding CatalogHolds Catalog.on_disk
  read_meta-Keeps key = record { at = λ w h. lawful.read_frame key k w.disk ∙ h }

  or_malformed-Keeps :
      {A : Type 0} (o : Option A) → Keeps CatalogHolds (Catalog.or_malformed (catalog_platform d) o)
  unfolding Catalog.or_malformed
  or_malformed-Keeps none = search keeps_rules
  or_malformed-Keeps (some a) = search keeps_rules

  lift-Keeps : {W A : Type 0} {P : W → Type 0} (r : Result A) → Keeps P (λ (w : W). (r, w))
  lift-Keeps r = record { at = λ w h. h }

  get-Keeps : (ns : Bytes) → Keeps CatalogHolds (Catalog.get (catalog_platform d) (catalog d) ns)
  unfolding Catalog.get Catalog.load
  get-Keeps ns = search (keeps_rules, read_meta-Keeps, or_malformed-Keeps, lift-Keeps)

  consult-Keeps : (ns : Bytes) (asked : Bool) → Keeps (SiteHolds d k x) (consult d ns asked)
  unfolding consult at_catalog CatalogHolds
  consult-Keeps ns true = record { at = λ w h. (get-Keeps ns).at _ h }
  consult-Keeps ns false = record { at = λ w h. h }

  pub open_store-Keeps :
      (ns format : Bytes) (ac : Option AuthContext)
      → Keeps (SiteHolds d k x) (open_store d ns format ac)
  unfolding open_store with_new_caches
  open_store-Keeps ns format ac = record {
    at = λ w h. (consult-Keeps ns (is_consulted d (for ns format) w)).at w h;
  }

  pub open_proxy_store-Keeps :
      (ns format : Bytes) (ac : Option AuthContext)
      → Keeps (SiteHolds d k x) (open_proxy_store d ns format ac)
  unfolding open_proxy_store with_new_caches
  open_proxy_store-Keeps ns format ac = record {
    at = λ w h. (consult-Keeps ns (is_consulted d (for ns format) w)).at w h;
  }

  pub at_store-Keeps :
      {A : Type 0} (m : Io (Calls.World d.platform) A)
      → Keeps (Holds d.platform k x) m
      → Keeps (SiteHolds d k x) (at_store d m)
  unfolding at_store
  at_store-Keeps m keeps = record { at = λ w h. keeps.at w.world h }

module _ (d : Deployment) where
  -- Whatever the catalog answered, the store that was opened has the scope of its namespace.
  pub open_store-scope :
      (ns format : Bytes) (ac : Option AuthContext) (w : Site d) (opened : Store × Spec)
      → (open_store d ns format ac w).0 ≡ ok opened
      → opened.0.scope ≡ scope_of d.prefix ns format
  unfolding open_store
  open_store-scope ns format ac w opened h =
      let (policy, found, made) =
        opened_store (engine d) d.prefix w.world.now ns format ac
          (consult d ns (is_consulted d (for ns format) w) w).0 w.policies h in
      ap (λ (s : Store). s.scope) made
