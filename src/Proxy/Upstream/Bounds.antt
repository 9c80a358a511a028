-- ===== src/Proxy/Upstream/Bounds.antt =====
-- Get of pkg/proxy/httpclient/client.go: the cap on the body.
use open_artifact.Shared.{
  ◌≡◌, refl, sym, ap, subst, ◌∙◌, arith, ℕ, ◌≤◌, ◌<◌, Option, none, some, Bytes, length, oversized,
  Result, ok, err, ok_injective, Option-cases, inl, inr, ◌↔◌,
}
use mathlib.Core.Option.{some-injective}
use open_artifact.Store.Io.{lift, ◌>>=◌}
use open_artifact.Store.Io.Inversion.{bind_ok}
use open_artifact.Store.Calls.{Body}
use open_artifact.Proxy.Upstream.{
  Transport, Answer, Client, Response, get_verb, read_capped, arrived, request, get, new_response,
}

-- A body that was read within a cap is the whole body.
read_capped_ok :
    (cap : ℕ) (body : Body) {bytes : Bytes}
    → read_capped cap body ≡ ok bytes
    → (length bytes ≤ cap) × (body.broken ≡ none) × (bytes ≡ body.content)
unfolding read_capped
read_capped_ok cap body h = elim (Option-cases body.broken) [
  | inl whole ↦ ground (arith, h, whole)
  | inr (e, broken) ↦ ground (arith, h, broken)
]

read_capped_fits :
    (cap : ℕ) (body : Body)
    → length body.content ≤ cap
    → body.broken ≡ none
    → read_capped cap body ≡ ok body.content
unfolding read_capped
read_capped_fits cap body fits intact = rw (intact) (ground (arith, fits))

read_capped_oversized :
    (cap : ℕ) (body : Body) → (read_capped cap body ≡ err oversized) ↔ (cap < length body.content)
unfolding read_capped
read_capped_oversized cap body = elim (Option-cases body.broken) [
  | inl whole ↦ ((λ h. ground (arith, h, whole)), λ h. ground (arith, h))
  | inr (e, broken) ↦ ((λ h. ground (arith, h, broken)), λ h. ground (arith, h))
]

module _ (t : Transport) (c : Client) (url : Bytes) where
  arrived_ok : (o : Option Answer) {a : Answer} → arrived t o ≡ ok a → o ≡ some a
  unfolding arrived
  arrived_ok none h = absurd (cc)
  arrived_ok (some b) h = ap some (ok_injective h)

  -- A GET that returned has the status and the whole body of one answer of the upstream, which the cap
  -- admits and which did not break off.
  pub get_whole :
      (n : t.Net) {resp : Response}
      → (get t c url n).0 ≡ ok resp
      → (a : Answer) × ((t.send get_verb url n).0 ≡ some a)
        × (resp.status ≡ a.status)
        × (resp.body ≡ a.body.content)
        × (a.body.broken ≡ none)
        × (length resp.body ≤ c.max_body_bytes)
  unfolding get request new_response
  get_whole n h =
      let (a, answered, h₁, e₁) = bind_ok (request t get_verb url) _ n h in
      let (body, read, h₂, e₂) = bind_ok _ _ _ h₁ in
      let (fits, whole, same) = read_capped_ok c.max_body_bytes a.body read in
      let made = ok_injective h₂ in
      (
        a,
        arrived_ok _ answered,
        ap (λ (r : Response). r.status) (sym made),
        ap (λ (r : Response). r.body) (sym made) ∙ same,
        whole,
        subst (λ b. length b ≤ c.max_body_bytes) (ap (λ (r : Response). r.body) made) fits,
      )

  finished :
      (a : Answer) (read : Result Bytes) (n : t.Net)
      → (((lift read >>= λ body. λ (m : t.Net). (ok (new_response a body), m)) n).0 ≡ err oversized)
        ↔ (read ≡ err oversized)
  unfolding ◌>>=◌
  finished a (ok body) n = ((λ h. absurd (cc)), λ h. absurd (cc))
  finished a (err e) n = ((λ h. cc), λ h. cc)

  get_oversized :
      (n : t.Net) {a : Answer}
      → (t.send get_verb url n).0 ≡ some a
      → ((get t c url n).0 ≡ err oversized) ↔ (read_capped c.max_body_bytes a.body ≡ err oversized)
  unfolding get request arrived ◌>>=◌
  get_oversized n {a} answered =
      rw answered (finished a (read_capped c.max_body_bytes a.body) (t.send get_verb url n).1)

  get_answers :
      (n : t.Net) {a : Answer}
      → (t.send get_verb url n).0 ≡ some a
      → (resp : Response) → (get t c url n).0 ≡ ok resp
      → (resp.status ≡ a.status) × (resp.body ≡ a.body.content) × (a.body.broken ≡ none)
  get_answers n {a} answered resp h =
      let (b, same, status, body, whole, fits) = get_whole n h in
      let e : b ≡ a = some-injective _ _ (sym same ∙ answered) in
      (
        status ∙ ap (λ (a : Answer). a.status) e,
        body ∙ ap (λ (a : Answer). a.body.content) e,
        ap (λ (a : Answer). a.body.broken) (sym e) ∙ whole,
      )

  get_complete :
      (n : t.Net) {a : Answer}
      → (t.send get_verb url n).0 ≡ some a
      → length a.body.content ≤ c.max_body_bytes
      → a.body.broken ≡ none
      → (get t c url n).0 ≡ ok (new_response a a.body.content)
  unfolding get request arrived ◌>>=◌
  get_complete n {a} answered fits intact =
      rw (answered, read_capped_fits c.max_body_bytes a.body fits intact) refl

  -- A GET that the upstream answered fails with ErrOversized exactly if the body is longer than the cap.
  -- It returns a response exactly if the body is within the cap and did not break off, and the response
  -- then has the status and the whole body of the answer.
  pub get_capped :
      (n : t.Net) {a : Answer}
      → (t.send get_verb url n).0 ≡ some a
      → (((get t c url n).0 ≡ err oversized) ↔ (c.max_body_bytes < length a.body.content))
        × (((length a.body.content ≤ c.max_body_bytes) × (a.body.broken ≡ none))
            ↔ ((resp : Response) × ((get t c url n).0 ≡ ok resp)))
        × ((resp : Response)
            → (get t c url n).0 ≡ ok resp
            → (resp.status ≡ a.status) × (resp.body ≡ a.body.content) × (a.body.broken ≡ none))
  get_capped n {a} answered =
      let (to_cap, of_cap) = read_capped_oversized c.max_body_bytes a.body in
      let (to_read, of_read) = get_oversized n answered in
      (
        ((λ h. to_cap (to_read h)), λ h. of_read (of_cap h)),
        (
          (λ h. (new_response a a.body.content, get_complete n answered h.0 h.1)),
          λ h.
              let (status, body, intact) = get_answers n answered h.0 h.1 in
              let (b, same, s, x, whole, fits) = get_whole n h.1 in
              (subst (λ l. length l ≤ c.max_body_bytes) body fits, intact),
        ),
        get_answers n answered,
      )
