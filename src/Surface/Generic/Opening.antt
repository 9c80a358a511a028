-- ===== src/Surface/Generic/Opening.antt =====
-- handler.store of pkg/surface/generic/handler.go: the store that a handler goes on with.
use open_artifact.Shared.{
  ◌≡◌, ap, ◌∙◌, Bool, false, Option, Bytes, Bool-cases, inl, inr, ok, ℕ, if◌then◌else◌, rejected,
  codes, arith,
}
use open_artifact.Shared.Maps.{Dict}
use open_artifact.Core.{Json, format_generic}
use open_artifact.Store.Io.{pure, raise}
use open_artifact.Store.Io.Inversion.{bind_ok}
use open_artifact.Store.Calls.{Store}
use open_artifact.Namespace.{Spec, is_proxy}
use open_artifact.Namespace.Registry.{scope_of}
use open_artifact.Surface.Site.{Deployment, Site, open_store}
use open_artifact.Surface.Site.Frame.{open_store-scope}
use open_artifact.Surface.Http.{Request}
use open_artifact.Surface.Http.Frame.{or_write_ok}
use open_artifact.Surface.Generic.{Config, store_of}

module _ (d : Deployment) (cfg : Config) (decode_create : Bytes → Option (Dict Json))
    (type_of : Bytes → Bytes) (decimal : ℕ → Bytes) where
  -- A handler that has a store opened it, for a namespace that is no proxy.
  pub store_of_ok :
      (r : Request) (ns : Bytes) (write : Bool) (w : Site d) (s : Store)
      → (store_of d cfg decode_create type_of decimal r ns write w).0 ≡ ok s
      → (spec : Spec) × ((open_store d ns format_generic r.subject w).0 ≡ ok (s, spec))
        × (is_proxy spec ≡ false)
  unfolding store_of
  store_of_ok r ns write w s h =
      let (opened, r₁, h₁, e₁) = bind_ok _ _ w h in
      let (hosted, same) = hosted_ok opened _ h₁ in
      (opened.1, or_write_ok _ _ w r₁ ∙ ap (λ (t : Store). ok (t, opened.1)) same, hosted)
    where
      hosted_ok :
          (opened : Store × Spec) (w : Site d) {s : Store}
          → ((if is_proxy opened.1
                then raise (rejected 501 (codes "generic proxy mode is not supported"))
                else pure opened.0)
              w).0
            ≡ ok s
          → (is_proxy opened.1 ≡ false) × (opened.0 ≡ s)
      hosted_ok opened w h = elim (Bool-cases (is_proxy opened.1)) [
        | inl proxied ↦ absurd (ground (arith, proxied))
        | inr hosted ↦ (hosted, ground (arith, hosted))
      ]

  pub store_of-scope :
      (r : Request) (ns : Bytes) (write : Bool) (w : Site d) (s : Store)
      → (store_of d cfg decode_create type_of decimal r ns write w).0 ≡ ok s
      → s.scope ≡ scope_of d.prefix ns format_generic
  store_of-scope r ns write w s h =
      let (spec, opened, hosted) = store_of_ok r ns write w s h in
      open_store-scope d ns format_generic r.subject w (s, spec) opened
