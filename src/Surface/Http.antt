-- ===== src/Surface/Http.antt =====
-- pkg/surface/http.go: responses, the statuses of errors, capped bodies, and the serving of files.
pub mod Frame
pub mod Bodies
pub mod Tee
pub mod Relay
use open_artifact.Shared.{
  take, ℕ, zero, suc, ◌-◌, Bool, true, false, not, ◌&&◌, ◌||◌, Option, none, some, List, [], ◌∷◌,
  ◌++◌, Bytes, codes, length, is_empty, ltb, ◌==◌, if◌then◌else◌, Error, invalid_name, not_found,
  already_exists, digest_mismatch, unsupported, namespace_invalid_name, invalid_proxy,
  invalid_policy, unsupported_schema_version, namespace_not_found, not_empty, unauthorized,
  too_large, rejected, Result, ok, err,
}
use open_artifact.Shared.Maps
use open_artifact.Shared.Maps.{Dict}
use open_artifact.Auth.{AuthContext}
use open_artifact.Core.{Meta}
use open_artifact.Store.Io.{Io, pure, raise, ◌>>=◌, ◌>>◌}
use open_artifact.Store.Calls
use open_artifact.Store.Calls.{Body, Store}
use open_artifact.Store.Files.{File, file_read, file_meta_of, download_url}
use open_artifact.Surface.Site.{Deployment, Site, at_store}

pub data Method : Type 0 where
  get head put post other : Method

-- What a request carries: its subject, its headers by name, and its body. A client that goes away
-- does so after it has taken some bytes of the response.
pub record Request : Type 0 where
  pub method : Method
  pub subject : Option AuthContext
  pub headers : Bytes → Bytes
  pub body : Body
  pub hangs_up : Option ℕ

-- A response that is no error document: its status, the headers that are set, and what is sent.
pub data Payload (D : Type 0) : Type 0 where
  document : D → Payload D
  content : Bytes → Payload D
  nothing : Payload D

pub record Response (D : Type 0) : Type 0 where
  pub status : ℕ
  pub headers : Dict Bytes
  pub payload : Payload D

-- What a handler writes: an error document, or a response.
pub data Reply (D : Type 0) : Type 0 where
  refused : ℕ → Bytes → Reply D
  replied : Response D → Reply D

-- WriteJSON
abbrev pub json : {D : Type 0} → ℕ → D → Response D
json status doc = record {
  status = status;
  headers = (codes "Content-Type", codes "application/json") ∷ [];
  payload = document doc;
}

-- storeStatus, whose third result only says whether to log
unfoldable pub store_status : Error → ℕ × Bytes
store_status not_found = (404, codes "not found")
store_status already_exists = (409, codes "already exists")
store_status digest_mismatch = (422, codes "digest mismatch")
store_status unsupported = (501, codes "unsupported")
store_status invalid_name = (400, codes "invalid name")
store_status unauthorized = (403, codes "forbidden")
store_status e = (500, codes "internal server error")

-- namespaceStatus; the flag is NamespaceDataWrite
unfoldable pub namespace_status : Bool → Error → ℕ × Bytes
namespace_status write namespace_invalid_name = (400, codes "invalid namespace name")
namespace_status write invalid_proxy = (400, codes "invalid proxy namespace")
namespace_status write invalid_policy = (400, codes "invalid namespace policy")
namespace_status write unsupported_schema_version =
    if write
    then (400, codes "unsupported namespace schema version")
    else (500, codes "internal server error")
namespace_status write namespace_not_found = (404, codes "namespace not found")
namespace_status write not_empty = (409, codes "namespace not empty")
namespace_status write unauthorized = (403, codes "forbidden")
namespace_status write e = (500, codes "internal server error")

module _ {A : Type 0} where
  write_error : (Error → ℕ × Bytes) → Result A → Result A
  write_error status (ok a) = ok a
  write_error status (err e) = err (rejected (status e).0 (status e).1)

module _ {W A : Type 0} where
  -- if err != nil { write the status of the error; return }
  unfoldable pub or_write : (Error → ℕ × Bytes) → Io W A → Io W A
  unfolding write_error
  or_write status m w = (write_error status (m w).0, (m w).1)

module _ {D : Type 0} where
  -- the error document that a handler wrote before it returned, or its response
  unfoldable pub written : Result (Response D) → Reply D
  written (ok r) = replied r
  written (err (rejected status message)) = refused status message
  written (err e) = refused 500 (codes "internal server error")

module _ {W D : Type 0} where
  unfoldable pub serve : Io W (Response D) → W → Reply D × W
  unfolding written
  serve handler w = (written (handler w).0, (handler w).1)

-- WithMaxBody: MaxBytesReader gives the bytes up to the cap, then its error; zero is no cap.
unfoldable pub with_max_body : ℕ → Body → Body
with_max_body zero body = body
with_max_body (suc n) body =
    if ltb (suc n) (length body.content)
    then record { content = take (suc n) body.content; broken = some too_large }
    else body

-- what ReadCappedBody makes of the error with which a body ends
unfoldable pub read_capped : ℕ → Body → Result Bytes
unfolding with_max_body
read_capped cap body = elim (with_max_body cap body).broken [
  | none ↦ ok (with_max_body cap body).content
  | some e ↦ err e
]

unfoldable pub is_download : Method → Bool
is_download get = true
is_download head = true
is_download m = false

unfoldable pub is_head : Method → Bool
is_head head = true
is_head m = false

-- w.Header().Set for a value that is not empty
abbrev pub with_header : Bytes → Bytes → Dict Bytes → Dict Bytes
with_header name [] headers = headers
with_header name (c ∷ value) headers = Maps.put headers name (c ∷ value)

-- strconv.Quote of a digest, which holds letters, digits and a colon only
abbrev pub quote : Bytes → Bytes
quote s = b'"' ∷ s ++ b'"' ∷ []

-- Content-Length and ETag of the recorded size and digest; `decimal` is strconv.FormatInt.
unfoldable pub file_headers : (ℕ → Bytes) → Bytes → Meta → Dict Bytes
file_headers decimal content_type m =
    with_header (codes "ETag") (if is_empty m.digest then [] else quote m.digest) (
      with_header (codes "Content-Length") (if m.size == 0 then [] else decimal m.size)
        (with_header (codes "Content-Type") content_type []))

module _ (d : Deployment) {D : Type 0} (decimal : ℕ → Bytes) (method : Method) where
  -- A stream that breaks off after the 200 cuts the response short.
  streamed : Dict Bytes → Store → File → Io (Site d) (Response D)
  streamed headers s f = do
    body ← or_write store_status (at_store d (file_read d.platform s f))
    pure (record { status = 200; headers = headers; payload = content body.content })

  -- without a signed URL: the recorded headers, then the bytes
  stream : Store → File → Bytes → Io (Site d) (Response D)
  unfolding file_headers is_head streamed
  stream s f content_type = do
    m ← or_write store_status (at_store d (file_meta_of d.platform s f))
    let headers = file_headers decimal content_type m
    if is_head method
        then pure (record { status = 200; headers = headers; payload = nothing })
        else streamed headers s f

  redirected : Bytes → Bytes → Response D
  redirected content_type url = record {
    status = 307;
    headers =
        with_header (codes "Location") url (with_header (codes "Content-Type") content_type []);
    payload = nothing;
  }

  -- RedirectOrStreamFile
  unfoldable pub redirect_or_stream : Store → File → Bytes → Io (Site d) (Response D)
  unfolding stream redirected is_download
  redirect_or_stream s f content_type = do
    if is_download method then pure tt else raise (rejected 405 (codes "method not allowed"))
    url ← or_write store_status (at_store d (download_url d.platform s f))
    if is_empty url then stream s f content_type else pure (redirected content_type url)
