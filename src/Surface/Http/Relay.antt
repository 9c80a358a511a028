-- ===== src/Surface/Http/Relay.antt =====
-- TeeStreamToStore of pkg/surface/http.go: what has been sent and stored once both of its goroutines
-- have ended.
use open_artifact.Shared.{
  ℕ, Option, none, some, [], Bytes, codes, length, ltb, take, if◌then◌else◌, Error, stream_broken,
  Result, ok, err,
}
use open_artifact.Shared.Maps
use open_artifact.Shared.Maps.{Dict}
use open_artifact.Store.Io.{Io}
use open_artifact.Store.Calls.{Body}
use open_artifact.Surface.Http.{Response, content, with_header}

-- The part of a body that a client takes, with the error of the copy. Of a body that breaks off for
-- the client, the store is handed what it does not commit.
unfoldable pub relayed : Option ℕ → Body → Body
relayed none body = body
relayed (some n) body =
    if ltb n (length body.content)
    then record { content = take n body.content; broken = some stream_broken }
    else body

-- The response and the two errors.
pub record Teed (D : Type 0) : Type 0 where
  pub response : Response D
  pub copy_err : Option Error
  pub fill_err : Option Error

with_length : (ℕ → Bytes) → Option ℕ → Dict Bytes → Dict Bytes
with_length decimal none headers = headers
with_length decimal (some n) headers = Maps.put headers (codes "Content-Length") (decimal n)

unfoldable pub tee_headers : (ℕ → Bytes) → Bytes → Option ℕ → Dict Bytes
unfolding with_length
tee_headers decimal content_type n =
    with_length decimal n (with_header (codes "Content-Type") content_type [])

module _ {A : Type 0} where
  abbrev pub error_of : Result A → Option Error
  error_of (ok a) = none
  error_of (err e) = some e

module _ {W A D : Type 0} (decimal : ℕ → Bytes) where
  -- TeeStreamToStore: `fill` reads the pipe, and what becomes of it does not reach the client.
  unfoldable pub tee_stream_to_store :
      Option ℕ → Body → Bytes → Option ℕ → (Body → Io W A) → Io W (Teed D)
  unfolding tee_headers
  tee_stream_to_store hangs_up body content_type n fill w =
      let (filled, w') = fill (relayed hangs_up body) w in
      (
        ok (record {
          response = record {
            status = 200;
            headers = tee_headers decimal content_type n;
            payload = content (relayed hangs_up body).content;
          };
          copy_err = (relayed hangs_up body).broken;
          fill_err = error_of filled;
        }),
        w',
      )
