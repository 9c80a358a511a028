-- ===== src/Namespace/Registry.antt =====
-- pkg/namespace/registry.go and authz.go: guarded stores of a namespace and a format, and the cache
-- of compiled policies.
pub mod Isolation
pub mod Freshness
pub mod Asked
pub mod Enforcement
use open_artifact.Shared.{
  ℕ, ◌+◌, Bool, true, false, not, Option, none, some, List, [], ◌∷◌, ◌++◌, Bytes, codes, is_empty,
  ltb, bytes_eq, if◌then◌else◌, ◌==◌, Error, namespace_not_found, unsupported_format, Result, ok,
  err, ◌>>=◌, ◌>>◌,
}
use open_artifact.Shared.Maps
use open_artifact.Shared.Maps.{Dict}
use open_artifact.Core.{format_pypi, format_npm, format_maven, format_debian, format_generic}
use open_artifact.Auth.{AuthContext, op_read, op_write}
use open_artifact.Store.Calls.{Store, Guard}
use open_artifact.Namespace.{Spec}
use open_artifact.Namespace.Policies.{Engine, CompiledPolicy, compile_policy, authorize}
use open_artifact.Namespace.Validate.{is_one_of, validate_name}
use open_artifact.Namespace.Catalog.{Namespace}

abbrev pub allowed_formats : List Bytes
allowed_formats = format_pypi ∷ format_npm ∷ format_maven ∷ format_debian ∷ format_generic ∷ []

-- scopeOf
unfoldable pub scope_of : Bytes → Bytes → Bytes → Bytes
scope_of prefix namespace format =
    let scope = namespace ++ codes "/" ++ format in
    if is_empty prefix then scope else prefix ++ codes "/" ++ scope

-- Scoped, before its guard
pub record Scoped : Type 0 where
  pub namespace : Bytes
  pub format : Bytes

-- For
unfoldable pub for : Bytes → Bytes → Result Scoped
unfolding is_one_of
for namespace format = elim (validate_name namespace) [
  | some e ↦ err e
  | none ↦
      if is_one_of format allowed_formats
      then ok (record { namespace = namespace; format = format })
      else err unsupported_format
]

-- Scoped.Store
unfoldable pub scoped_store : Bytes → Scoped → Option Guard → Store
scoped_store prefix s guard = record { scope = scope_of prefix s.namespace s.format; guard = guard }

-- What a look-up found: the namespace's compiled policy and spec, or that it is missing.
pub data Lookup (engine : Engine) : Type 0 where
  absent : Lookup engine
  present : CompiledPolicy engine → Spec → Lookup engine

-- policyEntry
pub record PolicyEntry (engine : Engine) : Type 0 where
  pub found : Lookup engine
  pub expires : ℕ

-- policyCache; a TTL of zero stands for every one that is not positive
pub record PolicyCache (engine : Engine) : Type 0 where
  pub entries : Dict (PolicyEntry engine)
  pub ttl : ℕ

module _ (engine : Engine) where
  live : ℕ → Option (PolicyEntry engine) → Option (Lookup engine)
  live now none = none
  live now (some e) = if ltb now e.expires then some e.found else none

  -- fresh
  unfoldable pub fresh : ℕ → Bytes → PolicyCache engine → Option (Lookup engine)
  unfolding live
  fresh now name c = live now (Maps.get c.entries name)

  -- invalidate
  unfoldable pub invalidate : Bytes → PolicyCache engine → PolicyCache engine
  invalidate name c = record c { entries = Maps.remove c.entries name }

  unfoldable pub remember : ℕ → Bytes → Lookup engine → PolicyCache engine → PolicyCache engine
  remember now name found c = record c {
    entries = Maps.put c.entries name (record { found = found; expires = now + c.ttl });
  }

  -- load, of what the catalog answered
  unfoldable pub load : Result Namespace → Result (Lookup engine)
  load (err namespace_not_found) = ok absent
  load (err e) = err e
  load (ok ns) = do compiled ← compile_policy engine ns.spec.policy; ok (present compiled ns.spec)

  keep :
      ℕ
      → Bytes
      → Result (Lookup engine)
      → PolicyCache engine
      → Result (Lookup engine) × PolicyCache engine
  unfolding remember
  keep now name (err e) c = (err e, c)
  keep now name (ok found) c = (ok found, remember now name found c)

  served :
      ℕ
      → Bytes
      → Result Namespace
      → PolicyCache engine
      → Option (Lookup engine)
      → Result (Lookup engine) × PolicyCache engine
  unfolding keep
  served now name answer c (some found) = (ok found, c)
  served now name answer c none = keep now name (load answer) c

  -- get, for a caller that shares its flight with no other; `answer` is what the catalog would say
  unfoldable pub get :
      ℕ
      → Bytes
      → Result Namespace
      → PolicyCache engine
      → Result (Lookup engine) × PolicyCache engine
  unfolding served
  get now name answer c =
      if c.ttl == 0 then (load answer, c) else served now name answer c (fresh now name c)

  -- guardFor
  unfoldable pub guard_for : CompiledPolicy engine → Option AuthContext → Guard
  guard_for authorizer ac write =
      authorize engine authorizer ac (if write then op_write else op_read)

  unfoldable pub guarded :
      Bytes → Scoped → Option AuthContext → Lookup engine → Result (Store × Spec)
  unfolding scoped_store guard_for
  guarded prefix s ac absent = err namespace_not_found
  guarded prefix s ac (present authorizer spec) =
      ok (scoped_store prefix s (some (guard_for authorizer ac)), spec)

  -- What both kinds of store do once the names are checked: the look-up, then its result.
  entered :
      (Scoped → Lookup engine → Result (Store × Spec))
      → ℕ
      → Bytes
      → Result Namespace
      → PolicyCache engine
      → Result Scoped
      → Result (Store × Spec) × PolicyCache engine
  entered finish now name answer c (err e) = (err e, c)
  entered finish now name answer c (ok scoped) =
      let (r, c') = get now name answer c in (r >>= finish scoped, c')

  -- AuthorizedStore
  unfoldable pub authorized_store :
      Bytes
      → ℕ
      → Bytes
      → Bytes
      → Option AuthContext
      → Result Namespace
      → PolicyCache engine
      → Result (Store × Spec) × PolicyCache engine
  unfolding entered
  authorized_store prefix now namespace format ac answer c =
      entered (λ scoped. guarded prefix scoped ac) now namespace answer c (for namespace format)

  unguarded_store : Bytes → Scoped → Spec → Option Error → Result (Store × Spec)
  unfolding scoped_store
  unguarded_store prefix s spec (some e) = err e
  unguarded_store prefix s spec none = ok (scoped_store prefix s none, spec)

  unfoldable pub readable :
      Bytes → Scoped → Option AuthContext → Lookup engine → Result (Store × Spec)
  unfolding unguarded_store
  readable prefix s ac absent = err namespace_not_found
  readable prefix s ac (present authorizer spec) =
      unguarded_store prefix s spec (authorize engine authorizer ac op_read)

  -- AuthorizedProxyStore: reader policy gates the whole pull-through, and the store has no guard
  unfoldable pub authorized_proxy_store :
      Bytes
      → ℕ
      → Bytes
      → Bytes
      → Option AuthContext
      → Result Namespace
      → PolicyCache engine
      → Result (Store × Spec) × PolicyCache engine
  unfolding entered
  authorized_proxy_store prefix now namespace format ac answer c =
      entered (λ scoped. readable prefix scoped ac) now namespace answer c (for namespace format)
