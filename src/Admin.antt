-- ===== src/Admin.antt =====
-- pkg/admin/admin.go: the HTTP interface of the control plane, over the catalog of namespaces.
pub mod Updates
use open_artifact.Shared.{
  ℕ, Option, none, some, List, [], ◌∷◌, Bytes, codes, Error, namespace_invalid_name, invalid_proxy,
  invalid_policy, unsupported_schema_version, namespace_not_found, not_empty, Result, ok, err,
}
use open_artifact.Shared.Maps.{Dict}
use open_artifact.Store.Calls.{Body}
use open_artifact.Namespace.{Spec}
use open_artifact.Namespace.Catalog
use open_artifact.Namespace.Catalog.{Platform, World, Catalog, Namespace}

-- What is encoded as the body of a response: listResponse, a namespace, errorResponse, or nothing.
pub data Payload : Type 0 where
  listing : List Namespace → Payload
  single : Namespace → Payload
  message : Bytes → Payload
  nothing : Payload

pub record Reply : Type 0 where
  pub status : ℕ
  pub headers : Dict Bytes
  pub payload : Payload

-- statusFor
unfoldable pub status_for : Error → ℕ
status_for namespace_invalid_name = 400
status_for invalid_proxy = 400
status_for invalid_policy = 400
status_for unsupported_schema_version = 400
status_for namespace_not_found = 404
status_for not_empty = 409
status_for e = 500

-- writeJSON
abbrev pub write_json : ℕ → Payload → Reply
write_json status body = record {
  status = status;
  headers = (codes "Content-Type", codes "application/json") ∷ [];
  payload = body;
}

-- writeStatus
abbrev pub write_status : ℕ → Bytes → Reply
write_status status msg = write_json status (message msg)

-- A body that is no spec, with the text of the decoder's error.
pub data Decoded : Type 0 where
  refused : Bytes → Decoded
  decoded : Spec → Decoded

-- The routes that Handler registers, with the name from the path.
pub data Call : Type 0 where
  list_call : Call
  get_call : Bytes → Call
  put_call : Bytes → Body → Call
  delete_call : Bytes → Call

-- `error_text` is Error of an error of the catalog, and `decode` the strict JSON decoder.
module _ (p : Platform) (s : Catalog p) (error_text : Error → Bytes) (decode : Body → Decoded) where
  -- writeError, without its log
  abbrev pub write_error : Error → Reply
  write_error e = write_status (status_for e) (error_text e)

  listed : Result (List Namespace) → Reply
  listed (err e) = write_error e
  listed (ok nss) = write_json 200 (listing nss)

  list : World p → Reply × World p
  unfolding listed
  list w = let (r, w') = Catalog.list p s w in (listed r, w')

  abbrev pub shown : ℕ → Result Namespace → Reply
  shown status (err e) = write_error e
  shown status (ok ns) = write_json status (single ns)

  unfoldable pub get : Bytes → World p → Reply × World p
  get name w = let (r, w') = Catalog.get p s name w in (shown 200 r, w')

  -- the Put, after which the status is `status`
  unfoldable pub put_as : ℕ → Bytes → Spec → World p → Reply × World p
  put_as status name spec w =
      let (r, w') = Catalog.put p s (some (record { name = name; spec = spec })) w in
      (shown status r, w')

  -- put, after the probe
  unfoldable pub put_probed : Bytes → Spec → Result Namespace → World p → Reply × World p
  put_probed name spec (ok ns) w = put_as 200 name spec w
  put_probed name spec (err namespace_not_found) w = put_as 201 name spec w
  put_probed name spec (err e) w = (write_error e, w)

  unfoldable pub put_decoded : Bytes → Decoded → World p → Reply × World p
  put_decoded name (refused text) w = (write_status 400 text, w)
  put_decoded name (decoded spec) w =
      let (r, w') = Catalog.get p s name w in put_probed name spec r w'

  unfoldable pub put : Bytes → Body → World p → Reply × World p
  put name body w = put_decoded name (decode body) w

  deleted : Result (Unit {0}) → Reply
  deleted (err e) = write_error e
  deleted (ok u) = record { status = 204; headers = []; payload = nothing }

  delete : Bytes → World p → Reply × World p
  unfolding deleted
  delete name w = let (r, w') = Catalog.delete p s name w in (deleted r, w')

  -- Handler: the handler of a request that the mux has matched
  unfoldable pub handler : Call → World p → Reply × World p
  unfolding list get put delete
  handler list_call w = list w
  handler (get_call name) w = get name w
  handler (put_call name body) w = put name body w
  handler (delete_call name) w = delete name w
