-- ===== src/Lib.antt =====
-- open-artifact: a registry for packages of several formats over one object store.
--
-- The program keeps each package, version, file and tag as objects of a bucket (pkg/core/blobstore).
-- A store is scoped to a namespace and a format and asks a guard before each call. The control plane
-- (pkg/namespace) keeps the namespaces in the same bucket, compiles their policies, and hands out
-- stores whose guard is the policy of the namespace. The surfaces, which speak the protocols of the
-- package managers, authenticate a request (pkg/auth), open a store, and, for a proxied namespace,
-- decide by filters whether a download is allowed (pkg/proxy/filter), remembering upstream 404s
-- (pkg/proxy/negcache).
--
-- Files, by the code they model:
--   Shared             byte strings, maps, Boolean tests, the sentinel errors
--   Escape             QueryEscape, QueryUnescape and PathUnescape of net/url
--   Core               pkg/core: meta.go, options.go, format.go
--   Store/Paths        pkg/core/blobstore/paths.go: scopePrefix is scope_prefix, and so on
--   Store/Bucket       the bucket of gocloud.dev/blob, an interface with its documented behaviour
--   Store/Memo         pkg/core/blobstore/cache.go
--   Store/Calls        pkg/core/blobstore/metrics.go and tags.go, the helpers of store.go
--   Store/Files        writeFile, AddFile, AddCache and the methods of a file in store.go
--   Store/Packages     the methods of the store, packages, versions and tags in store.go
--   Store/Operations   all of these operations as one data type
--   Namespace          pkg/namespace/namespace.go; below it Policies for policy.go, Validate for
--                      validate.go, Catalog for store.go, Registry for registry.go and authz.go
--   Auth               pkg/auth/auth.go; Credential for credential.go, Chain for chain/chain.go and
--                      middleware.go, Oidc for oidc/oidc.go
--   Proxy              Filter for pkg/proxy/filter/filter.go, Negative for pkg/proxy/negcache,
--                      Upstream for pkg/proxy/httpclient/client.go
--   Surface/Site       NewStore and NewRegistry of pkg/namespace, put together over one bucket
--   Surface/Http       pkg/surface/http.go; Tee for TeeStreamToStore, a step relation, and Relay for
--                      what it comes to
--   Surface/PullThrough  what the proxies of the surfaces share
--   Surface/Generic    pkg/surface/generic/handler.go; Codec for codec.go, Routes for Handler
--   Surface/Maven      pkg/surface/maven/handler.go; Codec for codec.go, and for proxy.go Upstream (URLs
--                      and keys), Live (serveMetadata), Gate (allow) and Proxy (all else)
--   Surface/Debian     pkg/surface/debian/codec.go; Proxy for the indexes of proxy.go, Pool for its
--                      artifacts, Handler for handler.go
--   Admin              pkg/admin/admin.go, the HTTP interface of the control plane
--   Tests              a bucket in memory that has the documented behaviour, and concrete runs
--
-- Strings are lists of byte values, and times and sizes are natural numbers; a time is its distance
-- from the zero time, and a body is the list of its bytes with the error at which it broke off. A
-- method of the store is a function from the world (the bucket's state, the two caches and the clock)
-- to a result and the next world, so that what a failed call has changed stays visible. Any call of
-- the bucket may fail with any code, and a reader may break off before the end of its object. The eviction loop of the cache runs on fuel, the length of its
-- list, which is enough since each round drops one entry. All other loops are recursions on lists.
--
-- EqualFold is modelled on ASCII text. The hash functions, JSON, XML, base64, regular
-- expressions, path.Match, the parsing and the printing of times, time.ParseDuration and url.Parse are
-- arguments, and so is net/http, a function from the state of the network to an answer or a failure.
-- Each operation runs alone: callers that share a flight, and the parallel reads of TagTargets, are not
-- modelled. A request is its method, its subject, its headers, its body, and the number of bytes after
-- which the client goes away; a response that a handler writes before it returns is an error of the
-- model, `rejected`. A tee is the step relation of its two goroutines in Surface/Http/Tee; the proxies
-- use what it comes to, in which a body that breaks off for the client is handed to the store as one
-- that breaks off there. The mux, the decoding of JSON bodies and the MIME table are arguments of the
-- surfaces. The OIDC authenticator takes discovery and the verification of a token from its library, as
-- functions of the state of the network. Metrics, logs, the surfaces of npm and PyPI, and the wiring
-- of the processes are not modelled.
pub mod Shared
pub mod Escape
pub mod Core
pub mod Store
pub mod Auth
pub mod Proxy
pub mod Namespace
pub mod Surface
pub mod Admin
mod Tests
