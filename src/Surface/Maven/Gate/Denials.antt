-- ===== src/Surface/Maven/Gate/Denials.antt =====
-- allow of pkg/surface/maven/proxy.go: what the filters deny without a look at the upstream.
use open_artifact.Shared.{◌≡◌, ◌≢◌, refl, ℕ, false, none, List, [], ◌∷◌, is_empty, Result, ok, err}
use open_artifact.Store.Io.{◌>>=◌}
use open_artifact.Proxy.Filter.{deny, CompiledFilter}
use open_artifact.Proxy.Upstream.{Client}
use open_artifact.Namespace.{Spec}
use open_artifact.Surface.Site.{Deployment, Site}
use open_artifact.Surface.PullThrough.{compiled_filters, decided}
use open_artifact.Surface.Maven.Codec.{RequestPath}
use open_artifact.Surface.Maven.Upstream.{Formats}
use open_artifact.Surface.Maven.Gate.{ref_of, filtered, by_filters, allow}

-- The namespace has filters, and these do not compile or deny the coordinate at that time.
abbrev pub IsDenied : Deployment → Client → Formats → Spec → RequestPath → ℕ → Type 0
IsDenied d client formats spec p now =
    (spec.proxy.filters ≢ [])
    × ((chain : List CompiledFilter)
        → compiled_filters d spec ≡ ok chain
        → decided d chain (ref_of d client formats p none) now ≡ deny)

not_empty : {A : Type 0} (l : List A) → l ≢ [] → is_empty l ≡ false
not_empty [] h = absurd (h refl)
not_empty (x ∷ l) h = refl

module _ (d : Deployment) (client : Client) (formats : Formats) (spec : Spec)
    (p : RequestPath) where
  by_filters-denied :
      (r : Result (List CompiledFilter)) (w : Site d)
      → ((chain : List CompiledFilter)
          → r ≡ ok chain
          → decided d chain (ref_of d client formats p none) w.world.now ≡ deny)
      → by_filters d client formats spec p r w ≡ (ok false, w)
  unfolding by_filters ◌>>=◌ filtered
  by_filters-denied (err e) w h = refl
  by_filters-denied (ok chain) w h = rw (h chain refl) refl

  -- A denial takes no request to the upstream, and changes nothing.
  pub allow-denied :
      (w : Site d)
      → IsDenied d client formats spec p w.world.now
      → allow d client formats spec p w ≡ (ok false, w)
  unfolding allow
  allow-denied w (some_filter, denied) =
      rw (not_empty spec.proxy.filters some_filter)
        (by_filters-denied (compiled_filters d spec) w denied)
