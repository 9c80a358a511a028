-- ===== src/Namespace/Registry/Freshness.antt =====
-- policyCache of pkg/namespace/authz.go: entries over time.
use open_artifact.Shared.{
  ℕ, ◌+◌, ◌≡◌, ◌≢◌, arith, false, none, some, Bytes, bytes_eq, ltb, if◌then◌else◌, ◌==◌, Result, ok,
}
use open_artifact.Shared.Maps
use open_artifact.Namespace.Policies.{Engine}
use open_artifact.Namespace.Catalog.{Namespace}
use open_artifact.Namespace.Registry.{
  Lookup, PolicyCache, fresh, invalidate, remember, load, keep, get,
}

module _ (engine : Engine) where
  -- A result that was kept at `then` is served until its TTL has passed, and not from then on; the
  -- entries of other names are served as before.
  pub fresh-remember :
      (then' now : ℕ) (name other : Bytes) (found : Lookup engine) (c : PolicyCache engine)
      → fresh engine now other (remember engine then' name found c) ≡ (
          if bytes_eq name other
          then (if ltb now (then' + c.ttl) then some found else none)
          else fresh engine now other c)
  unfolding fresh remember
  fresh-remember then' now name other found c = rw Maps.get-put (ground arith)

  -- After an invalidation the name has no fresh entry, and the other names keep theirs.
  pub fresh-invalidate :
      (now : ℕ) (name other : Bytes) (c : PolicyCache engine)
      → fresh engine now other (invalidate engine name c)
        ≡ (if bytes_eq name other then none else fresh engine now other c)
  unfolding fresh invalidate
  fresh-invalidate now name other c = rw Maps.get-remove (ground arith)

  ttl_test : (c : PolicyCache engine) → c.ttl ≢ 0 → (c.ttl == 0) ≡ false
  ttl_test c nz = ground arith

  get_miss :
      (now : ℕ) (name : Bytes) (answer : Result Namespace) (c : PolicyCache engine)
      {found : Lookup engine}
      → c.ttl ≢ 0
      → fresh engine now name c ≡ none
      → load engine answer ≡ ok found
      → (get engine now name answer c).1 ≡ remember engine now name found c
  unfolding get
  get_miss now name answer c nz miss made = rw (ttl_test c nz, miss, made)

  keep_answer :
      (now : ℕ) (name : Bytes) (r : Result (Lookup engine)) (c : PolicyCache engine)
      → (if c.ttl == 0
          then (r, invalidate engine name c)
          else keep engine now name r (invalidate engine name c)).0
        ≡ r
  unfolding keep
  keep_answer now name r c = ground arith
