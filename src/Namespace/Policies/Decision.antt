-- ===== src/Namespace/Policies/Decision.antt =====
-- pkg/namespace/policy.go: the decision of a compiled policy against the words of the policy.
use open_artifact.Shared.{
  ℕ, ◌≢◌, ◌++◌, codes, Lacks, has_prefix, has_suffix, ◌≡◌, refl, sym, ap, ◌∙◌, ◌↔◌, ◌⊎◌, inl, inr,
  arith, Bool, true, false, ◌&&◌, ◌||◌, Option, none, some, List, [], ◌∷◌, Bytes, bytes_eq,
  is_empty, All, Any, if◌then◌else◌, Error, ok, ok_injective, >>=-eq-ok, subst,
}
use open_artifact.Shared.Strings.Laws.{bytes_eq_iff, All-append}
use mathlib.Core.List.{reverse, reverse-cons}
use mathlib.Core.Option.{some-injective}
use open_artifact.Shared.Maps.{Dict, get}
use open_artifact.Core.{Json}
use open_artifact.Auth.{AuthContext, op_read, op_write}
use open_artifact.Namespace.{SubjectMatcher, Policy, kind_oidc, kind_anonymous}
use open_artifact.Namespace.Policies.{
  Engine, CompiledClaim, CompiledMatcher, CompiledPolicy, anchored, or_invalid, compile_anchored,
  matcher_kind, compile_claims, compile_sub, compile_matcher, compile_matchers, compile_policy,
  claim_string, text_matches, claim_matches, claims_match, sub_matches, matches, any_match,
  authorize,
}

has_prefix_bare : (b : ℕ) (s : Bytes) → Lacks b s → has_prefix (b ∷ []) s ≡ false
unfolding has_prefix
has_prefix_bare b [] bare = refl
has_prefix_bare b (c ∷ s) (other, bare) = ground (arith, other)

All-reverse : (P : ℕ → Type 0) (s : Bytes) → All P s → All P (reverse s)
All-reverse P [] h = tt
All-reverse P (c ∷ s) (h, hs) =
    subst (All P) (sym (reverse-cons c s))
      (All-append P (reverse s) (c ∷ []) (All-reverse P s hs) (h, tt))

has_suffix_bare : (b : ℕ) (s : Bytes) → Lacks b s → has_suffix (b ∷ []) s ≡ false
unfolding has_suffix
has_suffix_bare b s bare = has_prefix_bare b (reverse s) (All-reverse (λ c. c ≢ b) s bare)

and_iff :
    (a b : Bool) {P Q : Type 0} → (a ≡ true) ↔ P → (b ≡ true) ↔ Q → ((a && b) ≡ true) ↔ (P × Q)
and_iff true true p q = (λ h. (p.0 refl, q.0 refl), λ h. refl)
and_iff true false p q = (λ h. absurd (ground arith), λ h. q.1 h.1)
and_iff false b p q = (λ h. absurd (ground arith), λ h. p.1 h.0)

first_or_rest :
    (b : Bool) (o : Option Error) {P Q : Type 0}
    → (b ≡ true) ↔ P
    → (o ≡ none) ↔ Q
    → ((if b then none else o) ≡ none) ↔ (P ⊎ Q)
first_or_rest true o p q = (λ h. inl (p.0 refl), λ h. refl)
first_or_rest false o p q =
    (λ h. inr (q.0 h), λ h. elim h [ inl x ↦ absurd (ground (arith, p.1 x)) | inr y ↦ q.1 y ])

module _ (engine : Engine) where
  -- The engine finds the expression in the text, and compiles it.
  abbrev pub Finds : Bytes → Bytes → Type 0
  Finds expression s =
      (re : engine.Regex) × (engine.compile expression ≡ some re)
      × (engine.match_string re s ≡ true)

  -- The pattern matches the whole text: as a group between both anchors it is found there.
  abbrev pub FullyMatches : Bytes → Bytes → Type 0
  FullyMatches pat s = Finds (codes "^(?:" ++ pat ++ codes ")$") s

  -- A pattern that compiles by itself, without an anchor, an alternation, an escape or a group.
  abbrev pub IsPlain : Bytes → Type 0
  IsPlain pat =
      Lacks b'^' pat
      × Lacks b'$' pat
      × Lacks b'|' pat
      × Lacks b'\\' pat
      × Lacks b'(' pat
      × (engine.compile pat ≢ none)

  -- Package regexp: such a pattern means the same between anchors with and without the group.
  abbrev pub IsGrouping : Type 0
  IsGrouping =
      (pat s : Bytes) → IsPlain pat → Finds (codes "^" ++ pat ++ codes "$") s ↔ FullyMatches pat s

  abbrev pub PermitsSub : Bytes → Bytes → Type 0
  PermitsSub [] id = Unit
  PermitsSub (c ∷ pat) id = FullyMatches (c ∷ pat) id

  -- The subject has the claim, and its rendering matches.
  abbrev pub PermitsClaim : Dict Json → Bytes → Bytes → Type 0
  PermitsClaim claims key pat =
      (v : Json) × (s : Bytes) × (get claims key ≡ some v)
      × (claim_string engine v ≡ some s)
      × FullyMatches pat s

  abbrev pub IsPlainSub : Bytes → Type 0
  IsPlainSub [] = Unit
  IsPlainSub (c ∷ pat) = IsPlain (c ∷ pat)

  -- All patterns of a matcher are plain.
  abbrev pub IsPlainMatcher : SubjectMatcher → Type 0
  IsPlainMatcher m =
      IsPlainSub m.sub_match × All (λ (c : Bytes × Bytes). IsPlain c.1) m.claims_match

  -- Every populated field of the matcher holds for the subject; an empty kind means oidc.
  pub record Permits (m : SubjectMatcher) (ac : AuthContext) : Type 0 where
    pub kind : ac.kind ≡ (if is_empty m.kind then kind_oidc else m.kind)
    pub issuer : (m.issuer ≡ []) ⊎ (ac.issuer ≡ m.issuer)
    pub sub : PermitsSub m.sub_match ac.id
    pub email : (m.email ≡ []) ⊎ (ac.email ≡ m.email)
    pub claims : All (λ (c : Bytes × Bytes). PermitsClaim ac.claims c.0 c.1) m.claims_match

  compile_anchored_ok :
      (pat : Bytes) {re : engine.Regex}
      → compile_anchored engine pat ≡ ok re
      → engine.compile (anchored engine pat) ≡ some re
  unfolding compile_anchored
  compile_anchored_ok pat h = or_invalid_ok (engine.compile (anchored engine pat)) h
    where
      or_invalid_ok :
          (o : Option engine.Regex) {re : engine.Regex} → or_invalid engine o ≡ ok re → o ≡ some re
      or_invalid_ok none h = absurd (ground arith)
      or_invalid_ok (some re) h = ground arith

  anchored_iff :
      (pat s : Bytes) {re : engine.Regex}
      → compile_anchored engine pat ≡ ok re
      → (engine.match_string re s ≡ true) ↔ Finds (anchored engine pat) s
  anchored_iff pat s {re} h = (
    λ m. (re, compile_anchored_ok pat h, m),
    λ f.
        let (re', made, m) = f in
        subst (λ r. engine.match_string r s ≡ true)
          (ground (arith, made, compile_anchored_ok pat h)) m,
  )

  -- a plain pattern gets both anchors
  anchored_plain : (pat : Bytes) → IsPlain pat → anchored engine pat ≡ codes "^" ++ pat ++ codes "$"
  unfolding anchored
  anchored_plain pat plain =
      rw
        (
          has_prefix_bare b'^' pat plain.0,
          has_suffix_bare b'$' (b'^' ∷ pat) (λ e. absurd (ground (arith, e)), plain.1),
        )
        refl

  FullyMatches-iff :
      (pat s : Bytes) {re : engine.Regex}
      → IsGrouping
      → IsPlain pat
      → compile_anchored engine pat ≡ ok re
      → (engine.match_string re s ≡ true) ↔ FullyMatches pat s
  FullyMatches-iff pat s grouping plain h =
      let (to, from) = anchored_iff pat s h in
      let (grouped, ungrouped) = grouping pat s plain in
      let same = anchored_plain pat plain in
      (
        λ m. grouped (subst (λ e. Finds e s) same (to m)),
        λ f. from (subst (λ e. Finds e s) (sym same) (ungrouped f)),
      )

  module _ (grouping : IsGrouping) where
    compile_sub_iff :
        (pat id : Bytes) {r : Option engine.Regex}
        → IsPlainSub pat
        → compile_sub engine pat ≡ ok r
        → (sub_matches engine r id ≡ true) ↔ PermitsSub pat id
    unfolding compile_sub sub_matches
    compile_sub_iff [] id {r} plain h =
        subst (λ r. (sub_matches engine r id ≡ true) ↔ Unit {0}) (ok_injective h)
          (λ _. tt, λ _. refl)
    compile_sub_iff (c ∷ pat) id {r} plain h =
        let (re, made, same) = >>=-eq-ok _ _ h in
        subst (λ r. (sub_matches engine r id ≡ true) ↔ FullyMatches (c ∷ pat) id)
          (ok_injective same) (FullyMatches-iff (c ∷ pat) id grouping plain made)

    optional_iff :
        (want have : Bytes)
        → ((is_empty want || bytes_eq have want) ≡ true) ↔ ((want ≡ []) ⊎ (have ≡ want))
    optional_iff [] have = (λ h. inl refl, λ h. refl)
    optional_iff (c ∷ want) have = (
      λ h. ground (arith, bytes_eq_iff have (c ∷ want)),
      λ h. ground (arith, bytes_eq_iff have (c ∷ want)),
    )

    text_matches_iff :
        (pat : Bytes) (o : Option Bytes) {re : engine.Regex}
        → IsPlain pat
        → compile_anchored engine pat ≡ ok re
        → (text_matches engine re o ≡ true) ↔ ((s : Bytes) × (o ≡ some s) × FullyMatches pat s)
    unfolding text_matches
    text_matches_iff pat none plain h =
        (λ m. absurd (ground arith), λ f. absurd (ground (arith, f.1)))
    text_matches_iff pat (some s) {re} plain h = (
      λ m. (s, refl, (FullyMatches-iff pat s grouping plain h).0 m),
      λ f.
          (FullyMatches-iff pat s grouping plain h).1
            (subst (FullyMatches pat) (sym (some-injective _ _ f.1)) f.2),
    )

    claim_matches_iff :
        (c : CompiledClaim engine) (pat : Bytes) (o : Option Json)
        → IsPlain pat
        → compile_anchored engine pat ≡ ok c.re
        → (claim_matches engine c o ≡ true) ↔ (
            (v : Json) × (s : Bytes) × (o ≡ some v)
            × (claim_string engine v ≡ some s)
            × FullyMatches pat s)
    unfolding claim_matches
    claim_matches_iff c pat none plain h =
        (λ m. absurd (ground arith), λ f. absurd (ground (arith, f.2)))
    claim_matches_iff c pat (some v) plain h = (
      λ m.
          let (s, e, f) = (text_matches_iff pat (claim_string engine v) plain h).0 m in
          (v, s, refl, e, f),
      λ f.
          let (v', s, e, e', whole) = f in
          (text_matches_iff pat (claim_string engine v) plain h).1
            (s, ap (claim_string engine) (some-injective _ _ e) ∙ e', whole),
    )

    compile_claims_iff :
        (ps : Dict Bytes) (claims : Dict Json) {cs : List (CompiledClaim engine)}
        → All (λ (c : Bytes × Bytes). IsPlain c.1) ps
        → compile_claims engine ps ≡ ok cs
        → (claims_match engine cs claims ≡ true)
          ↔ All (λ (c : Bytes × Bytes). PermitsClaim claims c.0 c.1) ps
    unfolding compile_claims claims_match
    compile_claims_iff [] claims plain h =
        subst (λ cs. (claims_match engine cs claims ≡ true) ↔ Unit {0}) (ok_injective h)
          (λ _. tt, λ _. refl)
    compile_claims_iff ((key, pat) ∷ ps) claims (plain, plains) h =
        let (u, named, h₀) = >>=-eq-ok _ _ h in
        let (re, made, h₁) = >>=-eq-ok _ _ h₀ in
        let (cs, rest, same) = >>=-eq-ok _ _ h₁ in
        let c : CompiledClaim engine = record { key = key; re = re } in
        subst
          (λ cs.
            (claims_match engine cs claims ≡ true)
            ↔ All (λ (c : Bytes × Bytes). PermitsClaim claims c.0 c.1) ((key, pat) ∷ ps))
          (ok_injective same)
          (and_iff _ _ (claim_matches_iff c pat (get claims key) plain made)
            (compile_claims_iff ps claims plains rest))

    matcher_kind_ok :
        (k : Bytes) {kind : Bytes}
        → matcher_kind engine k ≡ ok kind
        → kind ≡ (if is_empty k then kind_oidc else k)
    unfolding matcher_kind
    matcher_kind_ok k h = ground (arith, bytes_eq_iff k kind_oidc, bytes_eq_iff k kind_anonymous)

    fields_iff :
        (m : SubjectMatcher) (ac : AuthContext) {b : Bool}
        → (b ≡ true) ↔ (
            ((((ac.kind ≡ (if is_empty m.kind then kind_oidc else m.kind))
                  × ((m.issuer ≡ []) ⊎ (ac.issuer ≡ m.issuer)))
                × PermitsSub m.sub_match ac.id)
              × ((m.email ≡ []) ⊎ (ac.email ≡ m.email)))
            × All (λ (c : Bytes × Bytes). PermitsClaim ac.claims c.0 c.1) m.claims_match)
        → (b ≡ true) ↔ Permits m ac
    fields_iff m ac e = (
      λ h.
          let f = e.0 h in
          record {
            kind = f.0.0.0.0;
            issuer = f.0.0.0.1;
            sub = f.0.0.1;
            email = f.0.1;
            claims = f.1;
          },
      λ q. e.1 ((((q.kind, q.issuer), q.sub), q.email), q.claims),
    )

    -- A compiled matcher matches exactly the subjects that its source permits.
    compile_matcher_iff :
        (m : SubjectMatcher) (ac : AuthContext) {cm : CompiledMatcher engine}
        → IsPlainMatcher m
        → compile_matcher engine m ≡ ok cm
        → (matches engine cm ac ≡ true) ↔ Permits m ac
    unfolding compile_matcher matches
    compile_matcher_iff m ac (plain, plains) h =
        let (u, filled, h₀) = >>=-eq-ok _ _ h in
        let (kind, kind_made, h₁) = >>=-eq-ok _ _ h₀ in
        let (sub, sub_made, h₂) = >>=-eq-ok _ _ h₁ in
        let (claims, claims_made, same) = >>=-eq-ok _ _ h₂ in
        subst (λ cm. (matches engine cm ac ≡ true) ↔ Permits m ac) (ok_injective same)
          (fields_iff m ac (
            and_iff _ _
              (and_iff _ _
                (and_iff _ _
                  (and_iff _ _
                    (subst (λ k. (bytes_eq ac.kind kind ≡ true) ↔ (ac.kind ≡ k))
                      (matcher_kind_ok m.kind kind_made) (bytes_eq_iff ac.kind kind))
                    (optional_iff m.issuer ac.issuer))
                  (compile_sub_iff m.sub_match ac.id plain sub_made))
                (optional_iff m.email ac.email))
              (compile_claims_iff m.claims_match ac.claims plains claims_made)))

    any_match_iff :
        (ms : List SubjectMatcher) (ac : AuthContext) {cms : List (CompiledMatcher engine)}
        → All IsPlainMatcher ms
        → compile_matchers engine ms ≡ ok cms
        → (any_match engine cms ac ≡ none) ↔ Any (λ m. Permits m ac) ms
    unfolding compile_matchers any_match
    any_match_iff [] ac plain h =
        subst (λ cms. (any_match engine cms ac ≡ none) ↔ ⊥) (ok_injective h)
          (λ e. absurd (ground arith), λ e. absurd e)
    any_match_iff (m ∷ ms) ac (plain, plains) h =
        let (cm, made, h₁) = >>=-eq-ok _ _ h in
        let (cms, rest, same) = >>=-eq-ok _ _ h₁ in
        subst (λ cms. (any_match engine cms ac ≡ none) ↔ Any (λ m. Permits m ac) (m ∷ ms))
          (ok_injective same)
          (first_or_rest (matches engine cm ac) (any_match engine cms ac)
            (compile_matcher_iff m ac plain made) (any_match_iff ms ac plains rest))

    -- A policy that compiles and whose patterns are plain allows a read to exactly the subjects that one of its readers permits,
    -- and a write to exactly those that one of its writers permits: neither implies the other, and an
    -- empty list allows nobody. A pattern permits the texts that it matches as a whole, if the engine
    -- gives a plain pattern between anchors that meaning.
    pub authorize_iff :
        (p : Policy) (ac : AuthContext) (c : CompiledPolicy engine)
        → All IsPlainMatcher p.readers
        → All IsPlainMatcher p.writers
        → compile_policy engine p ≡ ok c
        → ((authorize engine c (some ac) op_read ≡ none) ↔ Any (λ m. Permits m ac) p.readers)
          × ((authorize engine c (some ac) op_write ≡ none) ↔ Any (λ m. Permits m ac) p.writers)
    unfolding compile_policy authorize
    authorize_iff p ac c reading writing h =
        let (readers, made, h₁) = >>=-eq-ok _ _ h in
        let (writers, made', same) = >>=-eq-ok _ _ h₁ in
        subst
          (λ c.
            ((authorize engine c (some ac) op_read ≡ none) ↔ Any (λ m. Permits m ac) p.readers)
            × ((authorize engine c (some ac) op_write ≡ none) ↔ Any (λ m. Permits m ac) p.writers))
          (ok_injective same)
          (any_match_iff p.readers ac reading made, any_match_iff p.writers ac writing made')
