-- ===== src/Auth/Chain/Order.antt =====
-- pkg/auth/chain and pkg/auth/middleware.go: the lemmas on the order of the children and on the handler.
use open_artifact.Shared.{
  ◌≡◌, ◌≢◌, refl, ◌⊎◌, inl, inr, arith, List, [], ◌∷◌, ◌++◌, All, Any, no_credential, Result, ok,
  err, ◌∙◌,
}
use open_artifact.Auth.{AuthContext}
use open_artifact.Auth.Chain.{Authenticator, or_next, authenticate, handled, serve, middleware}

or_next_skipped : (a rest : Result AuthContext) → a ≡ err no_credential → or_next a rest ≡ rest
unfolding or_next
or_next_skipped (ok ac) rest h = absurd (cc)
or_next_skipped (err e) rest h = ground arith

or_next_decided : (a rest : Result AuthContext) → a ≢ err no_credential → or_next a rest ≡ a
unfolding or_next
or_next_decided (ok ac) rest h = refl
or_next_decided (err e) rest h = ground arith

or_next-eq-ok :
    (a rest : Result AuthContext) {ac : AuthContext}
    → or_next a rest ≡ ok ac
    → (a ≡ ok ac) ⊎ (rest ≡ ok ac)
unfolding or_next
or_next-eq-ok (ok a) rest h = inl h
or_next-eq-ok (err e) rest h = ground arith

served-eq-handled :
    {A : Type 0} (next : AuthContext → A) (res : Result AuthContext) {out : A}
    → serve next res ≡ handled out
    → (ac : AuthContext) × (res ≡ ok ac) × (out ≡ next ac)
unfolding serve
served-eq-handled next (ok ac) h = (ac, refl, cc)
served-eq-handled next (err e) h = absurd (cc)

module _ {R : Type 0} where
  -- The answer of a chain is that of its first child that has any but ErrNoCredential.
  pub authenticate_first :
      (skipped : List (Authenticator R)) (child : Authenticator R) (rest : List (Authenticator R))
      (r : R)
      → All (λ (a : Authenticator R). a r ≡ err no_credential) skipped
      → child r ≢ err no_credential
      → authenticate (skipped ++ child ∷ rest) r ≡ child r
  unfolding authenticate
  authenticate_first [] child rest r hs h = or_next_decided (child r) (authenticate rest r) h
  authenticate_first (a ∷ skipped) child rest r (ha, hs) h =
      or_next_skipped (a r) (authenticate (skipped ++ child ∷ rest) r) ha
      ∙ authenticate_first skipped child rest r hs h

  authenticate_ok :
      (children : List (Authenticator R)) (r : R) {ac : AuthContext}
      → authenticate children r ≡ ok ac
      → Any (λ (a : Authenticator R). a r ≡ ok ac) children
  unfolding authenticate
  authenticate_ok [] r h = absurd (cc)
  authenticate_ok (a ∷ children) r h = elim (or_next-eq-ok (a r) (authenticate children r) h) [
    | inl here ↦ inl here
    | inr there ↦ inr (authenticate_ok children r there)
  ]

  -- The handler behind the middleware runs only with a subject that a child of the chain vouched for.
  pub middleware_authenticated :
      {A : Type 0} (children : List (Authenticator R)) (next : AuthContext → R → A) (r : R)
      {out : A}
      → middleware (authenticate children) next r ≡ handled out
      → (ac : AuthContext) × Any (λ (a : Authenticator R). a r ≡ ok ac) children × (out ≡ next ac r)
  unfolding middleware
  middleware_authenticated children next r h =
      let (ac, e, o) = served-eq-handled (λ ac. next ac r) (authenticate children r) h in
      (ac, authenticate_ok children r e, o)
