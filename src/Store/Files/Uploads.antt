-- ===== src/Store/Files/Uploads.antt =====
-- The steps of writeFile in pkg/core/blobstore/store.go: digests, the stream and the commit.
use open_artifact.Shared.{
  ◌≡◌, refl, ap, sym, subst, ◌∙◌, inl, inr, arith, Bool, true, not, Option, none, some, List, [],
  ◌∷◌, Bytes, Code, bytes_eq, Error, Result, ok, err, All, Bool-cases, hex_encode,
}
use mathlib.Core.Option.{some-injective}
use open_artifact.Shared.Maps.{Dict, put}
use open_artifact.Shared.Strings.Laws.{eq_of_bytes_eq}
use open_artifact.Core.{Meta, CreateConfig, ExpectedDigest, digest_key}
use open_artifact.Store.Io.{Io, pure, ◌>>=◌, ◌>>◌}
use open_artifact.Store.Io.Inversion.{bind_ok}
use open_artifact.Store.Bucket.{IsLawful, Reply, done, failed}
use open_artifact.Store.Calls.{
  Platform, World, Body, answer, map_create_err, on_disk, close_writer, encoded, b_write_all,
  write_meta,
}
use open_artifact.Store.Files.{
  Verifier, add_verifier, verifiers, verify, abort_on, copied, or_error, receive, conclude,
  file_meta,
}

-- Each declared digest is what its hash computes of the bytes.
unfoldable pub IsDeclared : (p : Platform) → Bytes → ExpectedDigest → Type 0
IsDeclared p content e = (h : Bytes → Bytes) × (p.hash_sum e.hash ≡ some h) × (h content ≡ e.sum)

module _ (p : Platform) where
  verify_cons :
      (content : Bytes) (v : Verifier) (vs : List Verifier) (d out : Dict Bytes)
      → verify p content (v ∷ vs) d ≡ some out
      → (v.sum content ≡ v.want)
        × (verify p content vs (put d v.key (hex_encode (v.sum content))) ≡ some out)
  unfolding verify
  verify_cons content v vs d out h = elim (Bool-cases (bytes_eq (v.sum content) v.want)) [
    | inl e ↦ (eq_of_bytes_eq _ _ e, rw e at h)
    | inr e ↦ absurd (cc (h, e))
  ]

  add_verifier_ok :
      (content : Bytes) (e : ExpectedDigest) (o : Option (Bytes → Bytes))
      (r : Option (List Verifier)) (vs : List Verifier) (d out : Dict Bytes)
      → p.hash_sum e.hash ≡ o
      → add_verifier p e o r ≡ some vs
      → verify p content vs d ≡ some out
      → IsDeclared p content e
        × (ws : List Verifier) × (d' : Dict Bytes) × (r ≡ some ws)
        × (verify p content ws d' ≡ some out)
  unfolding IsDeclared add_verifier
  add_verifier_ok content e none r vs d out o h hv = absurd (ground arith)
  add_verifier_ok content e (some g) none vs d out o h hv = absurd (ground arith)
  add_verifier_ok content e (some g) (some ws) vs d out o h hv =
      let v : Verifier = record { key = digest_key e.hash; sum = g; want = e.sum } in
      let (sum, rest) =
        verify_cons content v ws d out
          (subst (λ l. verify p content l d ≡ some out) (sym (some-injective _ _ h)) hv) in
      ((g, o, sum), ws, put d v.key (hex_encode (g content)), refl, rest)

  verify-IsDeclared :
      (content : Bytes) (es : List ExpectedDigest) (vs : List Verifier) (d out : Dict Bytes)
      → verifiers p es ≡ some vs
      → verify p content vs d ≡ some out
      → All (IsDeclared p content) es
  unfolding verifiers
  verify-IsDeclared content [] vs d out hv h = tt
  verify-IsDeclared content (e ∷ es) vs d out hv h =
      let (head, ws, d', rest, more) =
        add_verifier_ok content e (p.hash_sum e.hash) (verifiers p es) vs d out refl hv h in
      (head, verify-IsDeclared content es ws d' out rest more)

  abort_on_ok :
      {A : Type 0} (key : Bytes) (r : Result A) (w : World p) {a : A}
      → (abort_on p key r w).0 ≡ ok a
      → (r ≡ ok a) × (abort_on p key r w ≡ (ok a, w))
  unfolding abort_on ◌>>=◌
  abort_on_ok key (ok b) w h = (h, ap (λ r. (r, w)) h)
  abort_on_ok key (err e) w h = absurd (ground arith)

  or_error_ok : {A : Type 0} (e : Error) (o : Option A) {a : A} → or_error p e o ≡ ok a → o ≡ some a
  unfolding or_error
  or_error_ok e none h = absurd (ground arith)
  or_error_ok e (some b) h = ground arith

  copied_ok :
      (body : Body) (r : Result (Unit {0})) {u : Unit {0}}
      → copied p body r ≡ ok u
      → body.broken ≡ none
  unfolding copied
  copied_ok body r h = ground arith

  -- A received body did not end early, and has the digests that were declared.
  pub receive_ok :
      (key : Bytes) (body : Body) (cfg : CreateConfig) (w : World p) {digests : Dict Bytes}
      → (receive p key body cfg w).0 ≡ ok digests
      → (body.broken ≡ none) × All (IsDeclared p body.content) cfg.expected
  unfolding receive
  receive_ok key body cfg w {digests} h =
      let (vs, made, h₁, e₁) = bind_ok _ _ w h in
      let (sent, ran, h₂, e₂) = bind_ok _ _ _ h₁ in
      let (u, whole, h₃, e₃) = bind_ok _ _ _ h₂ in
      (
        copied_ok body sent (abort_on_ok key _ _ whole).0,
        verify-IsDeclared body.content cfg.expected vs [] digests
            (or_error_ok _ _ (abort_on_ok key _ _ made).0)
            (or_error_ok _ _ (abort_on_ok key _ _ h₃).0),
      )

  pub answer_ok :
      {A : Type 0} (f : Code → Error) (r : Reply A) {a : A} → answer f r ≡ ok a → r ≡ done a
  answer_ok f (done b) h = ground arith
  answer_ok f (failed c) h = absurd (ground arith)

  encoded_ok :
      (o : Option Bytes) (w : World p) {raw : Bytes}
      → (encoded p o w).0 ≡ ok raw
      → (o ≡ some raw) × (encoded p o w ≡ (ok raw, w))
  unfolding encoded
  encoded_ok none w h = absurd (ground arith)
  encoded_ok (some b) w h = (ground arith, ap (λ r. (r, w)) h)

  pub close_writer_done :
      (lawful : IsLawful p.bucket) (key v : Bytes) (once : Bool) (w : World p) {u : Unit {0}}
      → (close_writer p key v once w).0 ≡ ok u
      → p.bucket.content (close_writer p key v once w).1.disk key ≡ some v
  unfolding close_writer on_disk
  close_writer_done lawful key v once w h =
      lawful.write_done key v once w.disk (answer_ok map_create_err _ h)

  write_meta_done :
      (lawful : IsLawful p.bucket) (key : Bytes) (m : Meta) (overwrite : Bool) (w : World p)
      {u : Unit {0}}
      → (write_meta p key m overwrite w).0 ≡ ok u
      → (raw : Bytes) × (p.encode_meta m ≡ some raw)
        × (p.bucket.content (write_meta p key m overwrite w).1.disk key ≡ some raw)
  unfolding write_meta b_write_all on_disk
  write_meta_done lawful key m overwrite w h =
      let (raw, made, written, e) = bind_ok _ _ w h in
      let (code, same) = encoded_ok (p.encode_meta m) w made in
      let at_key = lawful.write_done key raw (not overwrite) _ (answer_ok _ _ written) in
      (raw, code, ap (λ r. p.bucket.content r.1.disk key) e ∙ at_key)

  pub concluded : Bytes → CreateConfig → Meta → Io (World p) Meta
  concluded key cfg m = do write_meta p key m true; pure m

  pub conclude-concluded :
      (key : Bytes) (body : Body) (cfg : CreateConfig) (digests : Dict Bytes) (w : World p)
      → conclude p key body cfg digests w
        ≡ concluded key cfg (file_meta p w.now cfg digests body.content) w
  unfolding conclude concluded ◌>>=◌
  conclude-concluded key body cfg digests w = refl

  -- What a conclusion that returned has left under the sidecar's key, and what it returned.
  pub concluded_ok :
      (lawful : IsLawful p.bucket) (key : Bytes) (cfg : CreateConfig) (new : Meta) (w : World p)
      {m : Meta}
      → (concluded key cfg new w).0 ≡ ok m
      → (new ≡ m)
        × (raw : Bytes) × (p.encode_meta new ≡ some raw)
        × (p.bucket.content (concluded key cfg new w).1.disk key ≡ some raw)
  unfolding concluded
  concluded_ok lawful key cfg new w h =
      let (u, written, same, e) = bind_ok _ _ w h in
      let (raw, code, there) = write_meta_done lawful key new true w written in
      (ground (arith, same), raw, code, ap (λ r. p.bucket.content r.1.disk key) e ∙ there)
