-- ===== src/Namespace/Registry/Asked.antt =====
-- policyCache.get and AuthorizedStore of pkg/namespace/authz.go where the cache has no answer.
use open_artifact.Shared.{
  ℕ, ◌≡◌, refl, Option, none, some, Bytes, Result, ok, ◌==◌, ◌>>=◌, Bool-cases, inl, inr,
}
use open_artifact.Auth.{AuthContext}
use open_artifact.Namespace.Policies.{Engine, CompiledPolicy, compile_policy}
use open_artifact.Namespace.Catalog.{Namespace}
use open_artifact.Namespace.Registry.{
  Scoped, PolicyCache, Lookup, present, for, fresh, load, keep, served, get, guard_for, guarded,
  entered, scoped_store, authorized_store,
}

module _ (engine : Engine) where
  get_asks :
      (now : ℕ) (name : Bytes) (answer : Result Namespace) (c : PolicyCache engine)
      {found : Lookup engine}
      → fresh engine now name c ≡ none
      → load engine answer ≡ ok found
      → (get engine now name answer c).0 ≡ ok found
  unfolding get served keep
  get_asks now name answer c miss made = elim (Bool-cases (c.ttl == 0)) [
    | inl off ↦ rw (off) made
    | inr on ↦ rw (on, miss, made) refl
  ]

  load-present :
      (ns : Namespace) {compiled : CompiledPolicy engine}
      → compile_policy engine ns.spec.policy ≡ ok compiled
      → load engine (ok ns) ≡ ok (present compiled ns.spec)
  unfolding load ◌>>=◌
  load-present ns h = rw (h) refl

  -- AuthorizedStore where the cache has no fresh entry and the catalog answers.
  pub authorized_store_asks :
      (prefix : Bytes) (now : ℕ) (name format : Bytes) (ac : Option AuthContext) (ns : Namespace)
      (c : PolicyCache engine) {scoped : Scoped} {compiled : CompiledPolicy engine}
      → for name format ≡ ok scoped
      → fresh engine now name c ≡ none
      → compile_policy engine ns.spec.policy ≡ ok compiled
      → (authorized_store engine prefix now name format ac (ok ns) c).0
        ≡ ok (scoped_store prefix scoped (some (guard_for engine compiled ac)), ns.spec)
  unfolding authorized_store entered guarded ◌>>=◌
  authorized_store_asks prefix now name format ac ns c names miss compiled =
      rw (names, get_asks now name (ok ns) c miss (load-present ns compiled)) refl
