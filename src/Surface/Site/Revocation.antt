-- ===== src/Surface/Site/Revocation.antt =====
-- From Put of pkg/namespace/store.go, over the change hook of registry.go, to AuthorizedStore of
-- authz.go: the policy of the stores that are opened after a Put.
use open_artifact.Shared.{
  ℕ, ◌≡◌, refl, ap, ◌∙◌, true, Option, none, some, Bytes, Result, ok, ◌==◌, Bool-cases, inl, inr,
}
use open_artifact.Shared.Strings.Laws.{bytes_eq_refl}
use open_artifact.Auth.{AuthContext}
use open_artifact.Store.Bucket.{IsLawful, done}
use open_artifact.Namespace.{Spec}
use open_artifact.Namespace.Policies.{CompiledPolicy, compile_policy}
use open_artifact.Namespace.Catalog
use open_artifact.Namespace.Catalog.{Namespace, run_hooks, ns_meta_path}
use open_artifact.Namespace.Catalog.Stored.{get-put, put-IsPut, normalize_for_write_ok}
use open_artifact.Namespace.Registry.{Scoped, PolicyCache, for, fresh, guard_for, scoped_store}
use open_artifact.Namespace.Registry.Asked.{authorized_store_asks}
use open_artifact.Namespace.Registry.Freshness.{fresh-invalidate}
use open_artifact.Namespace.Registry.Enforcement.{for_ok}
use open_artifact.Surface.Site.{
  Deployment, Site, engine, catalog_platform, catalog, at_catalog, is_consulted, open_store,
}

-- The cache asks the catalog for a name that has no fresh entry.
consulted :
    (d : Deployment) (name format : Bytes) (w : Site d) {scoped : Scoped}
    → for name format ≡ ok scoped
    → fresh (engine d) w.world.now name w.policies ≡ none
    → is_consulted d (for name format) w ≡ true
unfolding is_consulted
consulted d name format w {scoped} names miss =
    let (same, same_format) = for_ok name format names in
    let miss' = ap (λ n. fresh (engine d) w.world.now n w.policies) same ∙ miss in
    elim (Bool-cases (w.policies.ttl == 0)) [
      | inl off ↦ rw (names, off) refl
      | inr on ↦ rw (names, on, miss') refl
    ]

module _ (d : Deployment) (lawful : IsLawful d.platform.bucket) where
  -- the registry's hook drops the entry of the name
  missed :
      (name : Bytes) (now : ℕ) (c : PolicyCache (engine d))
      → fresh (engine d) now name (run_hooks (catalog_platform d) (catalog d).hooks name c) ≡ none
  unfolding run_hooks catalog
  missed name now c = fresh-invalidate (engine d) now name name c ∙ rw (bytes_eq_refl name) refl

  -- A Put of the catalog at a site.
  abbrev pub put_namespace : Namespace → Site d → Result Namespace × Site d
  put_namespace ns = at_catalog d (Catalog.put (catalog_platform d) (catalog d) (some ns))

  -- After a Put that returned, and whatever the policy cache held before, the next store that
  -- AuthorizedStore opens for the namespace has a guard that decides by the compiled policy that was
  -- put, provided that the metadata is read without an error and is decoded from its own encoding.
  pub open_store-put :
      (ns : Namespace) (format : Bytes) (ac : Option AuthContext) (w : Site d) {stored : Namespace}
      {scoped : Scoped} {raw : Bytes}
      → ((spec : Spec) (body : Bytes)
          → d.encode_spec spec ≡ some body
          → d.decode_spec body ≡ some spec)
      → (put_namespace ns w).0 ≡ ok stored
      → for ns.name format ≡ ok scoped
      → (d.platform.bucket.read_all
          (ns_meta_path (catalog_platform d) (catalog d) ns.name)
          (put_namespace ns w).1.world.disk).0
        ≡ done raw
      → (compiled : CompiledPolicy (engine d)) × (compile_policy (engine d) stored.spec.policy
          ≡ ok compiled)
        × ((open_store d ns.name format ac (put_namespace ns w).1).0
            ≡ ok (
              scoped_store d.prefix scoped (some (guard_for (engine d) compiled ac)),
              stored.spec,
            ))
  unfolding open_store at_catalog
  open_store-put ns format ac w {stored} decodes h names read =
      let after = (put_namespace ns w).1 in
      let (valid, normal, named, there, told) =
        put-IsPut (catalog_platform d) (catalog d) lawful ns _ h in
      let (current, (compiled, compiles)) = normalize_for_write_ok d.checks ns.spec normal in
      let miss =
        ap (fresh (engine d) after.world.now ns.name) told
        ∙ missed ns.name after.world.now w.policies in
      let asks = consulted d ns.name format after names miss in
      (
        compiled,
        compiles,
        rw (asks, get-put (catalog_platform d) (catalog d) lawful ns _ decodes h read)
            (authorized_store_asks (engine d) d.prefix after.world.now ns.name format ac stored
              after.policies names miss compiles),
      )
