-- ===== src/Surface/PullThrough.antt =====
-- What the proxy engines of the surfaces share (pkg/surface/maven/proxy.go and debian/proxy.go): the
-- negative cache, the upstream and the download filter at a site, and the replies.
pub mod Frame
pub mod Presence
pub mod Teeing
use open_artifact.Shared.{
  ℕ, Bool, true, false, Option, none, some, List, [], ◌∷◌, ◌++◌, Bytes, codes, is_empty, trim_right,
  if◌then◌else◌, Error, not_found, rejected, Result, ok, err,
}
use open_artifact.Store.Io.{Io, pure, raise, ◌>>=◌, ◌>>◌}
use open_artifact.Proxy.Filter
use open_artifact.Proxy.Filter.{Outcome, allow, deny, needs_metadata, Ref, CompiledFilter}
use open_artifact.Proxy.Negative
use open_artifact.Namespace.{Spec}
use open_artifact.Surface.Site.{Deployment, Site}
use open_artifact.Surface.Http.{Response, content, nothing, store_status, or_write}

module _ {W A : Type 0} where
  -- a call whose error the caller handles
  abbrev pub attempted : Io W A → Io W (Result A)
  attempted m w = (ok (m w).0, (m w).1)

  -- a call whose error is logged only
  abbrev pub logged : Io W A → Io W (Unit {0})
  logged m w = (ok tt, (m w).1)

module _ {D : Type 0} where
  -- w.Header().Set("Content-Type", …); w.WriteHeader(http.StatusOK)
  abbrev pub headers_only : Bytes → Response D
  headers_only content_type = record {
    status = 200;
    headers = (codes "Content-Type", content_type) ∷ [];
    payload = nothing;
  }

  -- writeBytes
  unfoldable pub write_bytes : Bytes → Bytes → Response D
  write_bytes content_type body = record {
    status = 200;
    headers = (codes "Content-Type", content_type) ∷ [];
    payload = content body;
  }

-- upstreamBase, and the base of the Debian upstreamURL
unfoldable pub upstream_base : Spec → Bytes
upstream_base spec = trim_right b'/' spec.proxy.upstream

-- Decision.Allowed
unfoldable pub is_allowed : Outcome → Bool
is_allowed allow = true
is_allowed deny = false
is_allowed needs_metadata = false

module _ (d : Deployment) where
  -- A call of the upstream client, at a site.
  unfoldable pub at_net : {A : Type 0} → Io d.transport.Net A → Io (Site d) A
  at_net m w = let (r, n) = m w.net in (r, record w { net = n })

  -- e.neg.Has
  unfoldable pub is_marked : Bytes → Bytes → Bytes → Io (Site d) Bool
  is_marked ns format key w =
      let (known, c) = Negative.has w.world.now ns format key w.negative in
      (ok known, record w { negative = c })

  -- e.neg.Mark
  unfoldable pub mark : Bytes → Bytes → Bytes → Io (Site d) (Unit {0})
  mark ns format key w =
      (ok tt, record w { negative = Negative.mark w.world.now ns format key w.negative })

  -- e.now()
  abbrev pub now_of : Io (Site d) ℕ
  now_of w = (ok w.world.now, w)

  -- filter.Compile of the namespace's filters
  unfoldable pub compiled_filters : Spec → Result (List CompiledFilter)
  compiled_filters spec =
      Filter.compile d.checks.path_match d.checks.parse_duration spec.proxy.filters

  -- chain.DecideAt
  unfoldable pub decided : List CompiledFilter → Ref → ℕ → Outcome
  decided chain ref now = Filter.decide_at d.checks.path_match d.checks.parse_duration chain ref now

  module _ {A : Type 0} where
    -- surface.WriteStoreError(w, r, core.ErrNotFound)
    unfoldable pub missing : Io (Site d) A
    missing = or_write store_status (raise not_found)

    -- the upstream does not have it: the answer is remembered
    unfoldable pub mark_missing : Bytes → Bytes → Bytes → Io (Site d) A
    unfolding missing mark
    mark_missing ns format key = do mark ns format key; missing

    -- surface.WriteError
    abbrev pub refused_with : ℕ → Bytes → Io (Site d) A
    refused_with status message = raise (rejected status message)

    -- the reply of writeUpstreamUnavailable
    unfoldable pub unavailable : Io (Site d) A
    unavailable = refused_with 503 (codes "upstream unavailable")
