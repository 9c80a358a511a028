-- ===== src/Proxy/Filter/Compiled.antt =====
-- Compile of pkg/proxy/filter/filter.go: the filters that it yields.
use open_artifact.Shared.{
  ℕ, zero, suc, ◌<◌, ◌≡◌, refl, subst, arith, ◌⊎◌, inl, inr, Bool, true, false, not, ◌&&◌, ◌||◌,
  Option, none, some, List, [], ◌∷◌, Bytes, All, bytes_eq, is_empty, if-eq-cases, ok, >>=-eq-ok,
  ok_injective,
}
use open_artifact.Shared.Strings.Laws.{bytes_eq_iff}
use open_artifact.Proxy.Filter.{
  Spec, CompiledFilter, kind_allow, kind_deny, kind_delay, require, are_globs, are_rules, delay_of,
  compile_match, compile_delay, compile_filter, compile,
}

-- A filter that can decide: it matches by a pattern or a rule, or it delays by an age that is not zero.
abbrev pub IsEffective : CompiledFilter → Type 0
IsEffective f =
    (((f.kind ≡ kind_allow) ⊎ (f.kind ≡ kind_deny))
      × ((is_empty f.patterns && is_empty f.rules) ≡ false))
    ⊎ ((f.kind ≡ kind_delay) × (0 < f.min_age))

require-true : (b : Bool) {u : Unit {0}} → require b ≡ ok u → b ≡ true
require-true true h = refl
require-true false h = absurd (cc)

matching_kind :
    (k : Bytes)
    → (bytes_eq k kind_allow || bytes_eq k kind_deny) ≡ true
    → (k ≡ kind_allow) ⊎ (k ≡ kind_deny)
matching_kind k h = ground (arith, bytes_eq_iff k kind_allow, bytes_eq_iff k kind_deny)

module _ (path_match : Bytes → Bytes → Option Bool) (parse_duration : Bytes → Option ℕ) where
  delay_of-IsEffective :
      (o : Option ℕ) {f : CompiledFilter}
      → delay_of path_match parse_duration o ≡ ok f
      → IsEffective f
  unfolding delay_of
  delay_of-IsEffective none h = absurd (cc)
  delay_of-IsEffective (some zero) h = absurd (cc)
  delay_of-IsEffective (some (suc d)) h =
      subst IsEffective (ok_injective h) (inr (refl, ground arith))

  compile_match-IsEffective :
      (s : Spec) {f : CompiledFilter}
      → (s.kind ≡ kind_allow) ⊎ (s.kind ≡ kind_deny)
      → compile_match path_match parse_duration s ≡ ok f
      → IsEffective f
  unfolding compile_match
  compile_match-IsEffective s k h =
      let (u, some_matcher, h₁) =
        >>=-eq-ok (require (not (is_empty s.patterns && is_empty s.rules))) _ h in
      let (u₂, no_age, h₂) = >>=-eq-ok (require (is_empty s.min_age)) _ h₁ in
      let (u₃, globs, h₃) =
        >>=-eq-ok (require (are_globs path_match parse_duration s.patterns)) _ h₂ in
      let (u₄, rules, h₄) =
        >>=-eq-ok (require (are_rules path_match parse_duration s.rules)) _ h₃ in
      subst IsEffective (ok_injective h₄) (inl (k, ground (arith, require-true _ some_matcher)))

  compile_delay-IsEffective :
      (s : Spec) {f : CompiledFilter}
      → compile_delay path_match parse_duration s ≡ ok f
      → IsEffective f
  unfolding compile_delay
  compile_delay-IsEffective s h =
      let (u, alone, h₁) = >>=-eq-ok (require (is_empty s.patterns && is_empty s.rules)) _ h in
      let (u₂, aged, h₂) = >>=-eq-ok (require (not (is_empty s.min_age))) _ h₁ in
      delay_of-IsEffective (parse_duration s.min_age) h₂

  compile_filter-IsEffective :
      (s : Spec) {f : CompiledFilter}
      → compile_filter path_match parse_duration s ≡ ok f
      → IsEffective f
  unfolding compile_filter
  compile_filter-IsEffective s h =
      elim (if-eq-cases (bytes_eq s.kind kind_allow || bytes_eq s.kind kind_deny)
        (compile_match path_match parse_duration s) _ h) [
          | inl (matching, compiled) ↦
              compile_match-IsEffective s (matching_kind s.kind matching) compiled
          | inr (other, rest) ↦
              elim (if-eq-cases (bytes_eq s.kind kind_delay)
                (compile_delay path_match parse_duration s) _ rest) [
                  | inl (delaying, compiled) ↦ compile_delay-IsEffective s compiled
                  | inr (neither, refused) ↦ absurd (cc)
                ]
        ]

  -- Each filter of a chain that compiled can decide.
  pub compile-IsEffective :
      (specs : List Spec) {chain : List CompiledFilter}
      → compile path_match parse_duration specs ≡ ok chain
      → All IsEffective chain
  unfolding compile
  compile-IsEffective [] h = subst (All IsEffective) (ok_injective h) tt
  compile-IsEffective (s ∷ ss) {chain} h =
      let (f, compiled, later) = >>=-eq-ok (compile_filter path_match parse_duration s) _ h in
      let (fs, others, all) = >>=-eq-ok (compile path_match parse_duration ss) _ later in
      subst (All IsEffective) (ok_injective all)
        (compile_filter-IsEffective s compiled, compile-IsEffective ss others)
