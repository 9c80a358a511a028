-- ===== src/Tests/ControlTests.antt =====
-- Runs of the control plane: policies, scoped stores and the cache of compiled policies.
use open_artifact.Shared.{
  ℕ, ◌≡◌, refl, ap, sym, ◌∙◌, ◌++◌, ◌||◌, ◌==◌, if◌then◌else◌, ◌↔◌, ◌≤◌, Bool, true, false, Option,
  none, some, List, [], ◌∷◌, Bytes, codes, arith, All, Any, Error, unauthorized,
  namespace_not_found, Result, ok, err, bytes_eq, length,
}
use open_artifact.Auth.{AuthContext, op_read, op_write}
use open_artifact.Namespace.{Spec, SubjectMatcher, Policy}
use open_artifact.Namespace.Policies.{Engine, CompiledPolicy, compile_policy, authorize}
use open_artifact.Namespace.Policies.Decision.{IsGrouping, IsPlainMatcher, Permits, authorize_iff}
use open_artifact.Namespace.Validate.{validate_name}
use open_artifact.Namespace.Catalog.{Namespace}
use open_artifact.Namespace.Registry.{
  Lookup, absent, present, PolicyCache, fresh, get, invalidate, load, authorized_store, scope_of,
  scoped_store, for, guard_for,
}
use open_artifact.Namespace.Registry.Isolation.{IsFormat, scopes_disjoint}
use open_artifact.Namespace.Registry.Enforcement.{authorized_store_enforces}
use open_artifact.Namespace.Validate.Names.{IsNamespaceName, validate_name_iff}
use open_artifact.Store.Calls.{Store}
use open_artifact.Store.Paths.Layout.{store_file}
use open_artifact.Store.Operations
use open_artifact.Store.Operations.{perform, name_error, needs_write}
use open_artifact.Tests.Fixtures.{platform, empty_world}

-- Expressions that are compared as texts, without the anchors and the groups.
abbrev is_mark : ℕ → Bool
is_mark c = c == b'^' || c == b'$' || c == b'(' || c == b')' || c == b'?' || c == b':'

unfoldable stripped : Bytes → Bytes
stripped [] = []
stripped (c ∷ s) = let rest = stripped s in if is_mark c then rest else c ∷ rest

abbrev engine : Engine
engine = record {
  Regex = Bytes;
  compile = λ pat. some (stripped pat);
  match_string = λ re s. bytes_eq re s;
}

stripped-append : (s t : Bytes) → stripped t ≡ [] → stripped (s ++ t) ≡ stripped s
unfolding stripped
stripped-append [] t h = h
stripped-append (c ∷ s) t h = rw (stripped-append s t h) refl

engine-IsGrouping : IsGrouping engine
unfolding stripped
engine-IsGrouping pat s plain =
    let same : stripped (codes "^" ++ pat ++ codes "$")
        ≡ stripped (codes "^(?:" ++ pat ++ codes ")$") =
      stripped-append pat (codes "$") refl ∙ sym (stripped-append pat (codes ")$") refl) in
    (λ f. (f.0, ap some (sym same) ∙ f.1, f.2), λ f. (f.0, ap some same ∙ f.1, f.2))

abbrev reader : SubjectMatcher
reader = record {
  issuer = [];
  sub_match = codes "alice";
  email = codes "a@b";
  claims_match = [];
  kind = [];
}

reader-IsPlain : IsPlainMatcher engine reader
reader-IsPlain =
    ((ground arith, ground arith, ground arith, ground arith, ground arith, λ e. absurd (cc)), tt)

abbrev readers_only : Policy
readers_only = record { readers = reader ∷ []; writers = [] }

abbrev alice : AuthContext
alice = record {
  issuer = codes "idp";
  id = codes "alice";
  email = codes "a@b";
  claims = [];
  kind = codes "oidc";
}

abbrev spec : Spec
spec = record {
  schema_version = 1;
  mode = codes "hosted";
  policy = readers_only;
  proxy = record { upstream = []; filters = [] };
  format = [];
}

abbrev acme : Namespace
acme = record { name = codes "acme"; spec = spec }

abbrev compiled : CompiledPolicy engine
compiled = record {
  readers =
      record {
        issuer = [];
        sub = some (codes "alice");
        email = codes "a@b";
        claims = [];
        kind = codes "oidc";
      }
      ∷ [];
  writers = [];
}

abbrev no_entries : PolicyCache engine
no_entries = record { entries = []; ttl = 10 }

policy_compiles : compile_policy engine readers_only ≡ ok compiled
unfolding compile_policy open_artifact.Shared.◌>>=◌ stripped
    open_artifact.Namespace.Policies.anchored open_artifact.Shared.has_suffix
policy_compiles = refl

authorize_iff_example :
    ((authorize engine compiled (some alice) op_read ≡ none)
      ↔ Any (λ m. Permits engine m alice) (reader ∷ []))
    × ((authorize engine compiled (some alice) op_write ≡ none)
        ↔ Any (λ m. Permits engine m alice) [])
authorize_iff_example =
    authorize_iff engine engine-IsGrouping readers_only alice compiled (reader-IsPlain, tt) tt
      policy_compiles

acme_found : (get engine 5 (codes "acme") (ok acme) no_entries).0 ≡ ok (present compiled spec)
unfolding get load compile_policy fresh open_artifact.Shared.Maps.get open_artifact.Shared.◌>>=◌
    stripped open_artifact.Shared.has_suffix
acme_found = refl

abbrev acme_store : Store
acme_store =
    scoped_store [] (record { namespace = codes "acme"; format = codes "generic" })
      (some (guard_for engine compiled (some alice)))

acme_opens :
    (authorized_store engine [] 5
      (codes "acme")
      (codes "generic")
      (some alice)
      (ok acme)
      no_entries).0
    ≡ ok (acme_store, spec)
unfolding authorized_store for validate_name open_artifact.Namespace.Validate.are_name_bytes
    open_artifact.Namespace.Validate.has_outer_dash open_artifact.Shared.◌>>=◌ get fresh
    open_artifact.Shared.Maps.get load compile_policy open_artifact.Namespace.Registry.guarded
    stripped open_artifact.Shared.has_suffix
acme_opens = refl

alice_denied : authorize engine compiled (some alice) op_write ≡ some unauthorized
unfolding authorize
alice_denied = refl

lib_named : name_error (Operations.add_package (codes "lib") []) ≡ none
unfolding name_error open_artifact.Store.Paths.validate_name
lib_named = refl

authorized_store_enforces_example :
    perform platform acme_store (Operations.add_package (codes "lib") []) empty_world
    ≡ (err unauthorized, empty_world)
unfolding needs_write
authorized_store_enforces_example =
    authorized_store_enforces engine platform [] 5 (codes "acme") (codes "generic") (some alice)
      (ok acme) no_entries compiled spec spec acme_store (Operations.add_package (codes "lib") [])
      empty_world unauthorized acme_found acme_opens lib_named alice_denied

acme_valid : validate_name (codes "acme") ≡ none
unfolding validate_name open_artifact.Namespace.Validate.are_name_bytes
    open_artifact.Namespace.Validate.has_outer_dash open_artifact.Namespace.Validate.is_one_of
acme_valid = refl

generic_IsFormat : IsFormat (codes "generic")
unfolding IsFormat open_artifact.Namespace.Validate.is_one_of
generic_IsFormat = refl

scopes_disjoint_example : (codes "acme" ≡ codes "acme") × (codes "generic" ≡ codes "generic")
scopes_disjoint_example =
    scopes_disjoint [] (codes "acme") (codes "acme") (codes "generic") (codes "generic")
      (store_file (codes "a")) (store_file (codes "a")) tt acme_valid acme_valid generic_IsFormat
      generic_IsFormat refl

validate_name_iff_example : (validate_name (codes "acme") ≡ none) ↔ IsNamespaceName (codes "acme")
validate_name_iff_example = validate_name_iff (codes "acme")
