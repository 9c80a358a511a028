-- ===== src/Admin/Updates.antt =====
-- put and get of pkg/admin/admin.go, one after the other.
use open_artifact.Shared.{
  ℕ, ◌≡◌, refl, ◌⊎◌, inl, inr, sym, ap, ◌∙◌, some, Bytes, Error, namespace_not_found, Result, ok,
  err,
}
use open_artifact.Store.Bucket.{IsLawful, done}
use open_artifact.Store.Calls.{Body}
use open_artifact.Namespace.{Spec}
use open_artifact.Namespace.Catalog
use open_artifact.Namespace.Catalog.{Platform, World, Catalog, Namespace, ns_meta_path}
use open_artifact.Namespace.Catalog.Stored.{get-put, put-IsPut}
use open_artifact.Admin.{
  single, Reply, write_json, Decoded, refused, decoded, get_call, put_call, handler, get, put,
  put_as, put_probed, put_decoded, shown,
}

module _ (p : Platform) (s : Catalog p) (error_text : Error → Bytes) (decode : Body → Decoded) where
  -- the status of a PUT that stored: whether the namespace was there
  abbrev pub IsStatus : Bytes → ℕ → World p → Type 0
  IsStatus name status w =
      ((status ≡ 201) × ((Catalog.get p s name w).0 ≡ err namespace_not_found))
      ⊎ ((status ≡ 200) × ((old : Namespace) × ((Catalog.get p s name w).0 ≡ ok old)))

  -- how a PUT that is answered with a namespace ran
  IsRun : Bytes → ℕ → Namespace → Reply × World p → World p → Type 0
  IsRun name status ns out w =
      (spec : Spec) × ((v : World p) × ((Catalog.put p s
            (some (record { name = name; spec = spec })) v).0
          ≡ ok ns)
        × (out.1 ≡ (Catalog.put p s (some (record { name = name; spec = spec })) v).1)
        × IsStatus name status w)

  shown_single :
      (n status : ℕ) (r : Result Namespace) {ns : Namespace}
      → shown p s error_text decode n r ≡ write_json status (single ns)
      → (r ≡ ok ns) × (status ≡ n)
  shown_single n status (ok m) h = (cc, cc)
  shown_single n status (err e) h = absurd (cc)

  put_as-IsRun :
      (n status : ℕ) (name : Bytes) (spec : Spec) (w v : World p) {ns : Namespace}
      → (put_as p s error_text decode n name spec v).0 ≡ write_json status (single ns)
      → (status ≡ n → IsStatus name status w)
      → IsRun name status ns (put_as p s error_text decode n name spec v) w
  unfolding put_as IsRun
  put_as-IsRun n status name spec w v h at =
      let (stored, same) = shown_single n status _ h in (spec, (v, stored, refl, at same))

  put_probed-IsRun :
      (status : ℕ) (name : Bytes) (spec : Spec) (probed : Result Namespace) (w v : World p)
      {ns : Namespace}
      → (Catalog.get p s name w).0 ≡ probed
      → (put_probed p s error_text decode name spec probed v).0 ≡ write_json status (single ns)
      → IsRun name status ns (put_probed p s error_text decode name spec probed v) w
  unfolding put_probed
  put_probed-IsRun status name spec (ok old) w v was h =
      put_as-IsRun 200 status name spec w v h (λ same. inr (same, (old, was)))
  put_probed-IsRun status name spec (err namespace_not_found) w v was h =
      put_as-IsRun 201 status name spec w v h (λ same. inl (same, was))
  put_probed-IsRun status name spec (err e) w v was h = absurd (cc)

  put_decoded-IsRun :
      (status : ℕ) (name : Bytes) (d : Decoded) (w : World p) {ns : Namespace}
      → (put_decoded p s error_text decode name d w).0 ≡ write_json status (single ns)
      → IsRun name status ns (put_decoded p s error_text decode name d w) w
  unfolding put_decoded
  put_decoded-IsRun status name (refused text) w h = absurd (cc)
  put_decoded-IsRun status name (decoded spec) w h =
      put_probed-IsRun status name spec (Catalog.get p s name w).0 w (Catalog.get p s name w).1 refl
        h

  module _ (lawful : IsLawful p.bucket) where
    -- A PUT that is answered with a namespace has status 201 if the name had none before and 200 if it
    -- had one. If the read does not fail and a spec is decoded from its own encoding, a GET of the name
    -- is then answered 200 with the same namespace, which has that name.
    pub put_request-get_request :
        (name : Bytes) (body : Body) (w : World p) {status : ℕ} {ns : Namespace} {raw : Bytes}
        → ((spec : Spec) (encoded : Bytes)
            → p.encode_spec spec ≡ some encoded
            → p.decode_spec encoded ≡ some spec)
        → (handler p s error_text decode (put_call name body) w).0 ≡ write_json status (single ns)
        → (p.bucket.read_all
            (ns_meta_path p s name)
            (handler p s error_text decode (put_call name body) w).1.disk).0
          ≡ done raw
        → IsStatus name status w
          × ((handler p s error_text decode
                (get_call name)
                (handler p s error_text decode (put_call name body) w).1).0
              ≡ write_json 200 (single ns))
          × (ns.name ≡ name)
    unfolding handler put get IsRun
    put_request-get_request name body w {status} {ns} {raw} decodes h read =
        let (spec, (v, stored, there, at)) = put_decoded-IsRun status name (decode body) w h in
        let ns' : Namespace = record { name = name; spec = spec } in
        let got =
          get-put p s lawful ns' v decodes stored
            (ap (λ x. (p.bucket.read_all (ns_meta_path p s name) x.disk).0) (sym there) ∙ read) in
        let (valid, normal, named, coded, told) = put-IsPut p s lawful ns' v stored in
        (
          at,
          ap (λ x. shown p s error_text decode 200 (Catalog.get p s name x).0) there
              ∙ ap (shown p s error_text decode 200) got,
          named,
        )
