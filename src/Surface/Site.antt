-- ===== src/Surface/Site.antt =====
-- What a surface stands on: the store, the catalog and the registry over one bucket, put together as
-- NewStore of pkg/namespace/store.go and NewRegistry of registry.go do.
pub mod Frame
pub mod Revocation
use open_artifact.Shared.{
  Bool, true, false, ◌||◌, Option, none, some, List, [], ◌∷◌, Bytes, ◌==◌, if◌then◌else◌, Error,
  Result, ok, err,
}
use open_artifact.Auth.{AuthContext}
use open_artifact.Store.Io.{Io}
use open_artifact.Store.Calls
use open_artifact.Store.Calls.{Store}
use open_artifact.Store.Memo.{
  new_memo, clamp_cache_ttl, default_url_cache_cap, default_url_cache_ttl, default_stat_cache_cap,
  default_stat_cache_ttl,
}
use open_artifact.Store.Bucket.{is_some}
use open_artifact.Proxy.Negative
use open_artifact.Proxy.Upstream.{Transport}
use open_artifact.Namespace.{Spec}
use open_artifact.Namespace.Policies.{Engine}
use open_artifact.Namespace.Validate.{Checks}
use open_artifact.Namespace.Catalog
use open_artifact.Namespace.Catalog.{Namespace, Catalog, root_prefix}
use open_artifact.Namespace.Registry.{
  Scoped, PolicyCache, for, fresh, invalidate, authorized_store, authorized_proxy_store,
}

-- One process: its store's platform, the JSON form of a spec, the checks of a spec, the bucket prefix,
-- and the network.
pub record Deployment : Type 1 where
  pub platform : Calls.Platform
  pub encode_spec : Spec → Option Bytes
  pub decode_spec : Bytes → Option Spec
  pub checks : Checks
  pub prefix : Bytes
  pub transport : Transport

module _ (d : Deployment) where
  abbrev pub engine : Engine
  engine = d.checks.engine

  -- The catalog shares the store's bucket, and its hooks act on the registry's policy cache.
  abbrev pub catalog_platform : Catalog.Platform
  catalog_platform = record {
    bucket = d.platform.bucket;
    encode_spec = d.encode_spec;
    decode_spec = d.decode_spec;
    checks = d.checks;
    Client = PolicyCache engine;
  }

  -- NewStore, with the hook that NewRegistry registers
  unfoldable pub catalog : Catalog catalog_platform
  unfolding root_prefix
  catalog = record { root = root_prefix d.prefix; hooks = invalidate engine ∷ [] }

  -- What the requests to one surface share: the bucket and the clock, the policy cache, the negative cache of the
  -- surface's proxy, and the upstream registries. The caches are those of the last opened store.
  pub record Site : Type 0 where
    pub world : Calls.World d.platform
    pub policies : PolicyCache engine
    pub negative : Negative.Cache
    pub net : d.transport.Net

  -- A call of a store, at a site.
  unfoldable pub at_store : {A : Type 0} → Io (Calls.World d.platform) A → Io Site A
  at_store m w = let (r, world) = m w.world in (r, record w { world = world })

  -- A call of the catalog, at a site.
  unfoldable pub at_catalog : {A : Type 0} → Io (Catalog.World catalog_platform) A → Io Site A
  at_catalog m w =
      let (r, c) = m (record { disk = w.world.disk; client = w.policies }) in
      (r, record w { world = record w.world { disk = c.disk }; policies = c.client })

  -- The policy cache asks the catalog if it has no entry that is fresh.
  is_consulted : Result Scoped → Site → Bool
  is_consulted (err e) w = false
  is_consulted (ok scoped) w =
      if w.policies.ttl == 0
      then true
      else elim (fresh engine w.world.now scoped.namespace w.policies) [
        | none ↦ true
        | some found ↦ false
      ]

  -- The look-up of a namespace in the catalog, of which the site keeps what the bucket did.
  consult : Bytes → Bool → Io Site Namespace
  unfolding at_catalog
  consult ns true w = at_catalog (Catalog.get catalog_platform catalog ns) w
  consult ns false w = ((at_catalog (Catalog.get catalog_platform catalog ns) w).0, w)

  -- NewWithBucket: the store that is opened has caches of its own.
  unfoldable pub with_new_caches : Calls.World d.platform → Calls.World d.platform
  unfolding new_memo clamp_cache_ttl
  with_new_caches w = record w {
    urls = new_memo default_url_cache_cap (clamp_cache_ttl default_url_cache_ttl);
    stats = new_memo default_stat_cache_cap default_stat_cache_ttl;
  }

  -- AuthorizedStore, with the catalog's answer where the policy cache asks for it
  unfoldable pub open_store : Bytes → Bytes → Option AuthContext → Io Site (Store × Spec)
  unfolding is_consulted consult
  open_store ns format ac w =
      let (answer, asked) = consult ns (is_consulted (for ns format) w) w in
      let (r, policies) =
        authorized_store engine d.prefix w.world.now ns format ac answer w.policies in
      (r, record asked { world = with_new_caches asked.world; policies = policies })

  -- AuthorizedProxyStore
  unfoldable pub open_proxy_store : Bytes → Bytes → Option AuthContext → Io Site (Store × Spec)
  unfolding is_consulted consult
  open_proxy_store ns format ac w =
      let (answer, asked) = consult ns (is_consulted (for ns format) w) w in
      let (r, policies) =
        authorized_proxy_store engine d.prefix w.world.now ns format ac answer w.policies in
      (r, record asked { world = with_new_caches asked.world; policies = policies })
