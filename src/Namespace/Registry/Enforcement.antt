-- ===== src/Namespace/Registry/Enforcement.antt =====
-- pkg/namespace/authz.go over pkg/core/blobstore: from the policy of a namespace to the bucket.
use open_artifact.Shared.{
  refl, ok_injective, ap, sym, ℕ, ◌≡◌, ◌∙◌, arith, Option, none, some, Bytes, Error, Result, ok,
  err, if◌then◌else◌, ◌>>=◌,
}
use open_artifact.Auth.{AuthContext, op_read, op_write}
use open_artifact.Store.Paths.{first_err}
use open_artifact.Store.Calls
use open_artifact.Store.Calls.{Platform, World, Store}
use open_artifact.Store.Operations.{Operation, perform, name_error, needs_write}
use open_artifact.Store.Operations.Refused.{admission, perform_refused}
use open_artifact.Namespace.{Spec}
use open_artifact.Namespace.Policies.{Engine, CompiledPolicy, authorize}
use open_artifact.Namespace.Catalog.{Namespace}
use open_artifact.Namespace.Registry.{
  Scoped, for, get, Lookup, absent, present, PolicyCache, scope_of, scoped_store, guard_for,
  guarded, entered, authorized_store,
}

pub for_ok :
    (ns format : Bytes) {s : Scoped}
    → for ns format ≡ ok s
    → (s.namespace ≡ ns) × (s.format ≡ format)
unfolding for
for_ok ns format h = ground arith

module _ (engine : Engine) where
  guarded_ok :
      (prefix : Bytes) (s : Scoped) (ac : Option AuthContext) (r : Result (Lookup engine))
      {g : Store} {spec : Spec}
      → (r >>= guarded engine prefix s ac) ≡ ok (g, spec)
      → (policy : CompiledPolicy engine) × (r ≡ ok (present policy spec))
        × (g ≡ scoped_store prefix s (some (guard_for engine policy ac)))
  unfolding guarded ◌>>=◌
  guarded_ok prefix s ac (err e) h = absurd (ground arith)
  guarded_ok prefix s ac (ok absent) h = absurd (ground arith)
  guarded_ok prefix s ac (ok (present policy spec)) h =
      let e = ok_injective h in (policy, ap (λ t. ok (present policy t.1)) e, ap (λ t. t.0) (sym e))

  opened_of :
      (prefix : Bytes) (now : ℕ) (ns format : Bytes) (ac : Option AuthContext)
      (answer : Result Namespace) (c : PolicyCache engine) (r : Result Scoped) {spec : Spec}
      {s : Store}
      → for ns format ≡ r
      → (entered engine (λ scoped. guarded engine prefix scoped ac) now ns answer c r).0
        ≡ ok (s, spec)
      → (policy : CompiledPolicy engine) × ((get engine now ns answer c).0
          ≡ ok (present policy spec))
        × (s ≡ record {
          scope = scope_of prefix ns format;
          guard = some (guard_for engine policy ac);
        })
  unfolding entered scoped_store
  opened_of prefix now ns format ac answer c (err e) h opened = absurd (ground arith)
  opened_of prefix now ns format ac answer c (ok scoped) h opened =
      let (policy, found, made) =
        guarded_ok prefix scoped ac (get engine now ns answer c).0 opened in
      let (same_ns, same_format) = for_ok ns format h in
      (
        policy,
        found,
        made
            ∙ ap
                (λ n. record {
                  scope = scope_of prefix n scoped.format;
                  guard = some (guard_for engine policy ac);
                })
                same_ns
            ∙ ap
                (λ f. record {
                  scope = scope_of prefix ns f;
                  guard = some (guard_for engine policy ac);
                })
                same_format,
      )

  -- The store that AuthorizedStore returns has the scope of its namespace and format, and the guard
  -- of the policy that the look-up found.
  pub opened_store :
      (prefix : Bytes) (now : ℕ) (ns format : Bytes) (ac : Option AuthContext)
      (answer : Result Namespace) (c : PolicyCache engine) {spec : Spec} {s : Store}
      → (authorized_store engine prefix now ns format ac answer c).0 ≡ ok (s, spec)
      → (policy : CompiledPolicy engine) × ((get engine now ns answer c).0
          ≡ ok (present policy spec))
        × (s ≡ record {
          scope = scope_of prefix ns format;
          guard = some (guard_for engine policy ac);
        })
  unfolding authorized_store
  opened_store prefix now ns format ac answer c h =
      opened_of prefix now ns format ac answer c (for ns format) refl h

  -- The guard of an authorized store decides by the policy that the look-up found.
  entered_guard :
      (prefix : Bytes) (now : ℕ) (ns : Bytes) (ac : Option AuthContext) (answer : Result Namespace)
      (c : PolicyCache engine) (r : Result Scoped) (policy : CompiledPolicy engine)
      {found spec : Spec} {s : Store}
      → (get engine now ns answer c).0 ≡ ok (present policy found)
      → (entered engine (λ scoped. guarded engine prefix scoped ac) now ns answer c r).0
        ≡ ok (s, spec)
      → s.guard ≡ some (guard_for engine policy ac)
  unfolding entered scoped_store
  entered_guard prefix now ns ac answer c (err e) policy known h = absurd (ground arith)
  entered_guard prefix now ns ac answer c (ok scoped) policy known h =
      let (policy', same, made) = guarded_ok prefix scoped ac (get engine now ns answer c).0 h in
      let one : policy' ≡ policy = cc (known, same) in
      ap (λ (s : Store). s.guard) made ∙ ap (λ q. some (guard_for engine q ac)) one

  admission_denied :
      (s : Store) (o : Operation) (policy : CompiledPolicy engine) (ac : Option AuthContext)
      {e : Error}
      → s.guard ≡ some (guard_for engine policy ac)
      → name_error o ≡ none
      → authorize engine policy ac (if needs_write o then op_write else op_read) ≡ some e
      → admission s o ≡ some e
  unfolding first_err Calls.authorize guard_for
  admission_denied s o policy ac guard named denied = rw (named, guard, denied)

  -- Whatever operation the caller tries through the store that AuthorizedStore returned: if the
  -- policy of the namespace does not allow the caller what the operation needs, it fails with the
  -- policy's error, and the bucket and the caches stay as they were.
  pub authorized_store_enforces :
      (p : Platform) (prefix : Bytes) (now : ℕ) (ns format : Bytes) (ac : Option AuthContext)
      (answer : Result Namespace) (c : PolicyCache engine) (policy : CompiledPolicy engine)
      (found spec : Spec) (s : Store) (o : Operation) (w : World p) (e : Error)
      → (get engine now ns answer c).0 ≡ ok (present policy found)
      → (authorized_store engine prefix now ns format ac answer c).0 ≡ ok (s, spec)
      → name_error o ≡ none
      → authorize engine policy ac (if needs_write o then op_write else op_read) ≡ some e
      → perform p s o w ≡ (err e, w)
  authorized_store_enforces p prefix now ns format ac answer c policy found spec s o w e known h
        named denied =
      let guard : s.guard ≡ some (guard_for engine policy ac) =
        unfold authorized_store in
        entered_guard prefix now ns ac answer c (for ns format) policy known h in
      perform_refused p s o w e (admission_denied s o policy ac guard named denied)
