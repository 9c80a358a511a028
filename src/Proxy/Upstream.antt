-- ===== src/Proxy/Upstream.antt =====
-- pkg/proxy/httpclient/client.go: the client of the upstream registries.
pub mod Bounds
use open_artifact.Shared.{
  ℕ, Bool, ◌&&◌, Option, none, some, [], Bytes, codes, length, ltb, leb, ◌==◌, if◌then◌else◌,
  oversized, fetch_failed, Result, ok, err,
}
use open_artifact.Store.Io.{Io, lift, ◌>>=◌}
use open_artifact.Store.Calls.{Body}

-- 64 MiB
abbrev pub default_max_body_bytes : ℕ
default_max_body_bytes = 67108864

pub data Verb : Type 0 where
  get_verb head_verb : Verb

-- http.Response: `field` is Header.Get, a Content-Length that is not known is none, and the body is
-- what arrives of it.
pub record Answer : Type 0 where
  pub status : ℕ
  pub field : Bytes → Bytes
  pub content_length : Option ℕ
  pub body : Body

-- What the client stands on: net/http, with none for a request that cannot be built or that fails.
pub record Transport : Type 1 where
  pub Net : Type 0
  pub send : Verb → Bytes → Net → Option Answer × Net

pub record Client : Type 0 where
  pub max_body_bytes : ℕ

-- New with WithMaxBodyBytes; a cap that is not positive is given as zero.
unfoldable pub new_client : ℕ → Client
new_client n = record { max_body_bytes = if n == 0 then default_max_body_bytes else n }

-- Response
pub record Response : Type 0 where
  pub status : ℕ
  pub body : Bytes
  pub content_type : Bytes
  pub etag : Bytes
  pub last_modified : Bytes
  pub cache_control : Bytes
  pub field : Bytes → Bytes

-- StreamResponse, with the body that is left open
pub record StreamResponse : Type 0 where
  pub status : ℕ
  pub body : Body
  pub content_type : Bytes
  pub content_length : Option ℕ
  pub field : Bytes → Bytes

-- IsOK, IsNotFound and IsServerError, of either kind of response
unfoldable pub is_ok : ℕ → Bool
is_ok status = leb 200 status && ltb status 300

unfoldable pub is_not_found : ℕ → Bool
is_not_found status = status == 404

unfoldable pub is_server_error : ℕ → Bool
is_server_error status = leb 500 status

-- newResponse
unfoldable pub new_response : Answer → Bytes → Response
new_response a body = record {
  status = a.status;
  body = body;
  content_type = a.field (codes "Content-Type");
  etag = a.field (codes "ETag");
  last_modified = a.field (codes "Last-Modified");
  cache_control = a.field (codes "Cache-Control");
  field = a.field;
}

-- readCapped: the limit leaves one byte more than the cap to be read, and hides the error of a body
-- that breaks off behind it.
unfoldable pub read_capped : ℕ → Body → Result Bytes
read_capped cap body =
    if ltb cap (length body.content)
    then err oversized
    else elim body.broken [ none ↦ ok body.content | some e ↦ err fetch_failed ]

module _ (t : Transport) where
  arrived : Option Answer → Result Answer
  arrived none = err fetch_failed
  arrived (some a) = ok a

  -- Client.do
  unfoldable pub request : Verb → Bytes → Io t.Net Answer
  unfolding arrived
  request verb url n = let (a, n') = t.send verb url n in (arrived a, n')

  -- Client.Get
  unfoldable pub get : Client → Bytes → Io t.Net Response
  unfolding request read_capped
  get c url = do
    a ← request get_verb url
    body ← lift (read_capped c.max_body_bytes a.body)
    λ n. (ok (new_response a body), n)

  -- Client.Stream
  unfoldable pub stream : Bytes → Io t.Net StreamResponse
  unfolding request
  stream url = do
    a ← request get_verb url
    λ n. (
      ok (record {
        status = a.status;
        body = a.body;
        content_type = a.field (codes "Content-Type");
        content_length = a.content_length;
        field = a.field;
      }),
      n,
    )

  -- Client.Head
  unfoldable pub head : Bytes → Io t.Net Response
  unfolding request
  head url = do a ← request head_verb url; λ n. (ok (new_response a []), n)
