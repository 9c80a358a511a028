-- ===== src/Proxy/Filter/Decisions.antt =====
-- DecideAt of pkg/proxy/filter/filter.go: the decisions of a chain, and time.
use open_artifact.Shared.{
  ℕ, ◌+◌, ◌≤◌, ◌≡◌, ◌≢◌, refl, arith, Bool, Option, none, some, List, [], ◌∷◌, Bytes, leb,
  Bool-cases, inl, inr, ◌⊎◌,
}
use open_artifact.Proxy.Filter.{
  CompiledFilter, Ref, allow, deny, needs_metadata, delayed, decide_one, decide_at,
}

module _ (path_match : Bytes → Bytes → Option Bool) (parse_duration : Bytes → Option ℕ) where
  delayed_later :
      (min_age : ℕ) (published : Option ℕ) (now later : ℕ)
      → now ≤ later
      → (delayed path_match parse_duration min_age published later
          ≡ delayed path_match parse_duration min_age published now)
        ⊎ ((delayed path_match parse_duration min_age published now ≡ deny)
            × (delayed path_match parse_duration min_age published later ≡ allow))
  unfolding delayed
  delayed_later min_age none now later h = inl refl
  delayed_later min_age (some p) now later h = elim (Bool-cases (leb (p + min_age) now)) [
    | inl due ↦ ground arith
    | inr early ↦ ground arith
  ]

  -- What one filter says later: the same, or the allowance of a delay that has passed.
  later_one :
      (f : CompiledFilter) (ref : Ref) (now later : ℕ)
      → now ≤ later
      → (decide_one path_match parse_duration f ref later
          ≡ decide_one path_match parse_duration f ref now)
        ⊎ ((decide_one path_match parse_duration f ref now ≡ some deny)
            × (decide_one path_match parse_duration f ref later ≡ some allow))
  unfolding decide_one
  later_one f ref now later h = ground (arith, delayed_later f.min_age ref.published_at now later h)

  -- What a chain allows at one time, it allows at every later time.
  pub decide_at_monotone :
      (fs : List CompiledFilter) (ref : Ref) (now later : ℕ)
      → now ≤ later
      → decide_at path_match parse_duration fs ref now ≡ allow
      → decide_at path_match parse_duration fs ref later ≡ allow
  unfolding decide_at
  decide_at_monotone [] ref now later h e = refl
  decide_at_monotone (f ∷ fs) ref now later h e =
      ground (arith, later_one f ref now later h, decide_at_monotone fs ref now later h)

  delayed_known :
      (min_age published now : ℕ)
      → delayed path_match parse_duration min_age (some published) now ≢ needs_metadata
  unfolding delayed
  delayed_known min_age published now = ground arith
