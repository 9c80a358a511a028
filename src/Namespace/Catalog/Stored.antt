-- ===== src/Namespace/Catalog/Stored.antt =====
-- Put and Get of pkg/namespace/store.go: what a namespace that was put is read back as.
use open_artifact.Shared.{
  ◌≡◌, refl, ap, sym, subst, ◌∙◌, arith, false, Option, none, some, Bytes, Error, Result, ok,
  ok_injective, backend, unsupported_schema_version, ltb,
}
use mathlib.Core.Option.{some-injective}
use open_artifact.Shared.Errors.{>>=-eq-ok}
use open_artifact.Store.Io
use open_artifact.Store.Io.{Io, pure, unless}
use open_artifact.Store.Io.Inversion.{bind_then}
use open_artifact.Store.Bucket.{IsLawful, Reply, done, failed}
use open_artifact.Namespace.{Spec, current_schema_version}
use open_artifact.Namespace.Policies.{CompiledPolicy, compile_policy}
use open_artifact.Namespace.Validate.{
  Checks, validate_name, normalize_for_write, normalize_for_read, refuse_if, normalize_mode,
}
use open_artifact.Namespace.Catalog.{
  lift, given, run_hooks, answer, Platform, World, Catalog, Namespace, on_disk, or_malformed,
  ns_meta_path, notify, put, load, get,
}

-- A spec that was accepted has the current schema version and a policy that compiles.
pub normalize_for_write_ok :
    (checks : Checks) (spec : Spec) {out : Spec}
    → normalize_for_write checks spec ≡ ok out
    → (out.schema_version ≡ current_schema_version)
      × ((compiled : CompiledPolicy checks.engine) × (compile_policy checks.engine out.policy
            ≡ ok compiled))
unfolding normalize_for_write
normalize_for_write_ok checks spec h =
    let (u, r₁, h₁) =
      >>=-eq-ok
        (refuse_if (ltb current_schema_version spec.schema_version) unsupported_schema_version) _
        h in
    let (mode, r₂, h₂) = >>=-eq-ok (normalize_mode checks spec.mode spec.proxy) _ h₁ in
    let (compiled, r₃, h₃) = >>=-eq-ok (compile_policy checks.engine spec.policy) _ h₂ in
    let same = ok_injective h₃ in
    (
      ap (λ (s : Spec). s.schema_version) (sym same),
      (compiled, ap (λ (s : Spec). compile_policy checks.engine s.policy) (sym same) ∙ r₃),
    )

normalize_for_read_current :
    (spec : Spec) → spec.schema_version ≡ current_schema_version → normalize_for_read spec ≡ ok spec
unfolding normalize_for_read
normalize_for_read_current spec h = rw (h) (ground (arith, h))

module _ (p : Platform) (s : Catalog p) (lawful : IsLawful p.bucket) where
  -- After a Put: the name was accepted, the spec is the normal form of the given one, its encoding is
  -- in the bucket, and the hooks have run.
  abbrev IsPut : Namespace → Namespace → World p → World p → Type 0
  IsPut ns stored before after =
      (validate_name ns.name ≡ none)
      × (normalize_for_write p.checks ns.spec ≡ ok stored.spec)
      × (stored.name ≡ ns.name)
      × ((body : Bytes) × (p.encode_spec stored.spec ≡ some body)
          × (p.bucket.content after.disk (ns_meta_path p s ns.name) ≡ some body))
      × (after.client ≡ run_hooks p s.hooks ns.name before.client)

  unless_ok : (o : Option Error) (w : World p) {u : Unit {0}} → (unless o w).0 ≡ ok u → o ≡ none
  unless_ok none w h = refl
  unless_ok (some e) w h = absurd (cc)

  or_malformed_ok :
      {A : Type 0} (o : Option A) (w : World p) {a : A} → (or_malformed p o w).0 ≡ ok a → o ≡ some a
  unfolding or_malformed
  or_malformed_ok none w h = absurd (cc)
  or_malformed_ok (some b) w h = ap some (ok_injective h)

  unless_world : (o : Option Error) (w : World p) → (unless o w).1 ≡ w
  unless_world none w = refl
  unless_world (some e) w = refl

  or_malformed_world : {A : Type 0} (o : Option A) (w : World p) → (or_malformed p o w).1 ≡ w
  unfolding or_malformed
  or_malformed_world none w = refl
  or_malformed_world (some a) w = refl

  -- the world in which Put writes
  admitted : Option Error → Option Bytes → World p → World p
  admitted name_error coded w = (or_malformed p coded (unless name_error w).1).1

  admitted_client :
      (name_error : Option Error) (coded : Option Bytes) (w : World p)
      → (admitted name_error coded w).client ≡ w.client
  unfolding admitted
  admitted_client name_error coded w =
      ap (λ (v : World p). v.client) (or_malformed_world coded _ ∙ unless_world name_error w)

  written_ok :
      (key body : Bytes) (w : World p) {u : Unit {0}}
      → (on_disk p backend (p.bucket.write key body false) w).0 ≡ ok u
      → p.bucket.content (on_disk p backend (p.bucket.write key body false) w).1.disk key
        ≡ some body
  unfolding on_disk
  written_ok key body w h = lawful.write_done key body false w.disk (answer_ok _ h)
    where
      answer_ok : (r : Reply (Unit {0})) {u : Unit {0}} → answer backend r ≡ ok u → r ≡ done tt
      answer_ok (done u) h = refl
      answer_ok (failed c) h = absurd (cc)

  -- the end of a Put, once its write was acknowledged
  notified :
      (ns : Namespace) (w v : World p) {spec : Spec} {body : Bytes} {stored : Namespace}
      → v.client ≡ w.client
      → validate_name ns.name ≡ none
      → normalize_for_write p.checks ns.spec ≡ ok spec
      → p.encode_spec spec ≡ some body
      → p.bucket.content v.disk (ns_meta_path p s ns.name) ≡ some body
      → record { name = ns.name; spec = spec } ≡ stored
      → IsPut ns stored w (record v { client = run_hooks p s.hooks ns.name v.client })
  notified ns w v {body = body} same valid normal coded there made =
      subst (λ n. IsPut ns n w (record v { client = run_hooks p s.hooks ns.name v.client })) made
        (valid, normal, refl, (body, coded, there), ap (run_hooks p s.hooks ns.name) same)

  pub put-IsPut :
      (ns : Namespace) (w : World p) {stored : Namespace}
      → (put p s (some ns) w).0 ≡ ok stored
      → IsPut ns stored w (put p s (some ns) w).1
  unfolding put given notify Io.◌>>=◌ on_disk admitted
  put-IsPut ns w {stored} h =
      let Q = λ (out : Result Namespace × World p). IsPut ns stored w out.1 in
      bind_then Q (unless (validate_name ns.name)) _ w h (λ u valid h₁.
        bind_then Q (lift p (normalize_for_write p.checks ns.spec)) _ _ h₁ (λ spec normal h₂.
          bind_then Q (or_malformed p (p.encode_spec spec)) _ _ h₂ (λ body coded h₃.
            let at_write = admitted (validate_name ns.name) (p.encode_spec spec) w in
            let write = on_disk p backend (p.bucket.write (ns_meta_path p s ns.name) body false) in
            bind_then Q write _ at_write h₃ (λ u₁ acknowledged h₄.
              notified ns w (write at_write).1
                (admitted_client (validate_name ns.name) (p.encode_spec spec) w)
                (unless_ok _ w valid) normal (or_malformed_ok _ _ coded)
                (written_ok (ns_meta_path p s ns.name) body at_write acknowledged)
                (ok_injective h₄)))))

  -- Get of a name whose object is read, decoded and of a known schema version.
  get_reads :
      (name : Bytes) (w : World p) {raw : Bytes} {spec out : Spec}
      → validate_name name ≡ none
      → (p.bucket.read_all (ns_meta_path p s name) w.disk).0 ≡ done raw
      → p.decode_spec raw ≡ some spec
      → normalize_for_read spec ≡ ok out
      → (get p s name w).0 ≡ ok (record { name = name; spec = out })
  unfolding get load on_disk or_malformed Io.◌>>=◌
  get_reads name w valid read decoded normal = rw (valid, read, decoded, normal) refl

  -- The namespace that a Put returned is what Get then returns, provided that the read does not fail
  -- and a spec is decoded from its own encoding.
  pub get-put :
      (ns : Namespace) (w : World p) {stored : Namespace} {raw : Bytes}
      → ((spec : Spec) (body : Bytes)
          → p.encode_spec spec ≡ some body
          → p.decode_spec body ≡ some spec)
      → (put p s (some ns) w).0 ≡ ok stored
      → (p.bucket.read_all (ns_meta_path p s ns.name) (put p s (some ns) w).1.disk).0 ≡ done raw
      → (get p s ns.name (put p s (some ns) w).1).0 ≡ ok stored
  get-put ns w {stored} decodes h read =
      let after = (put p s (some ns) w).1 in
      let (valid, normal, named, (body, coded, there), told) = put-IsPut ns w h in
      let (current, compiled) = normalize_for_write_ok p.checks ns.spec normal in
      let same = some-injective _ _ (sym (lawful.read_answer _ _ read) ∙ there) in
      get_reads ns.name after valid read (ap p.decode_spec same ∙ decodes stored.spec body coded)
        (normalize_for_read_current stored.spec current)
      ∙ ap (λ n. ok (record { name = n; spec = stored.spec })) (sym named)
