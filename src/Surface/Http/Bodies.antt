-- ===== src/Surface/Http/Bodies.antt =====
-- WithMaxBody of pkg/surface/http.go.
use open_artifact.Shared.{
  ℕ, zero, suc, ◌≤◌, ◌<◌, ◌≡◌, arith, none, length, ltb, Bool-cases, inl, inr,
}
use open_artifact.Store.Calls.{Body}
use open_artifact.Surface.Http.{with_max_body}

-- A capped body that ends without an error is the body, and fits under the cap.
pub with_max_body_whole :
    (cap : ℕ) (body : Body)
    → 0 < cap
    → (with_max_body cap body).broken ≡ none
    → (with_max_body cap body ≡ body) × (length body.content ≤ cap)
unfolding with_max_body
with_max_body_whole zero body positive h = absurd (omega arith)
with_max_body_whole (suc n) body positive h =
    elim (Bool-cases (ltb (suc n) (length body.content))) [
      | inl over ↦ absurd (ground (arith, over))
      | inr fits ↦ (ground (arith, fits), ground (arith, fits))
    ]
