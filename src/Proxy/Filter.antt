-- ===== src/Proxy/Filter.antt =====
-- pkg/proxy/filter/filter.go: the allow, deny and delay chain over artifact downloads.
pub mod Decisions
pub mod Compiled
use open_artifact.Shared.{
  ℕ, zero, suc, ◌+◌, Bool, true, false, not, ◌&&◌, ◌||◌, Option, none, some, List, [], ◌∷◌, Bytes,
  codes, bytes_eq, is_empty, leb, if◌then◌else◌, ◌==◌, Error, invalid_filter, Result, ok, err,
  ◌>>=◌, ◌>>◌,
}

abbrev pub kind_allow : Bytes
kind_allow = codes "allow"

abbrev pub kind_deny : Bytes
kind_deny = codes "deny"

abbrev pub kind_delay : Bytes
kind_delay = codes "delay"

pub record Rule : Type 0 where
  pub pkg : Bytes
  pub version : Bytes

-- filter.Spec
pub record Spec : Type 0 where
  pub kind : Bytes
  pub patterns : List Bytes
  pub rules : List Rule
  pub min_age : Bytes

pub record Ref : Type 0 where
  pub pkg : Bytes
  pub version : Bytes
  pub published_at : Option ℕ

pub data Outcome : Type 0 where
  allow deny needs_metadata : Outcome

-- compiledFilter
pub record CompiledFilter : Type 0 where
  pub kind : Bytes
  pub patterns : List Bytes
  pub rules : List Rule
  pub min_age : ℕ

-- A check that the compiler makes of a spec.
abbrev pub require : Bool → Result (Unit {0})
require true = ok tt
require false = err invalid_filter

-- path.Match with none for ErrBadPattern, and time.ParseDuration with none for an error and zero
-- for a duration that is negative.
module _ (path_match : Bytes → Bytes → Option Bool) (parse_duration : Bytes → Option ℕ) where
  abbrev pub glob : Bytes → Bytes → Bool
  glob pattern name = elim (path_match pattern name) [ none ↦ false | some matched ↦ matched ]

  -- validateGlob
  unfoldable pub is_glob : Bytes → Bool
  is_glob [] = true
  is_glob (c ∷ pattern) = elim (path_match (c ∷ pattern) []) [ none ↦ false | some matched ↦ true ]

  unfoldable pub are_globs : List Bytes → Bool
  unfolding is_glob
  are_globs [] = true
  are_globs (g ∷ gs) = is_glob g && are_globs gs

  unfoldable pub are_rules : List Rule → Bool
  unfolding is_glob
  are_rules [] = true
  are_rules (r ∷ rs) =
      not (is_empty r.pkg && is_empty r.version)
      && is_glob r.pkg
      && is_glob r.version
      && are_rules rs

  unfoldable pub compile_match : Spec → Result CompiledFilter
  unfolding are_globs are_rules
  compile_match s = do
    require (not (is_empty s.patterns && is_empty s.rules))
    require (is_empty s.min_age)
    require (are_globs s.patterns)
    require (are_rules s.rules)
    ok (record { kind = s.kind; patterns = s.patterns; rules = s.rules; min_age = 0 })

  delay_of : Option ℕ → Result CompiledFilter
  delay_of none = err invalid_filter
  delay_of (some zero) = err invalid_filter
  delay_of (some (suc d)) =
      ok (record { kind = kind_delay; patterns = []; rules = []; min_age = suc d })

  unfoldable pub compile_delay : Spec → Result CompiledFilter
  unfolding delay_of
  compile_delay s = do
    require (is_empty s.patterns && is_empty s.rules)
    require (not (is_empty s.min_age))
    delay_of (parse_duration s.min_age)

  -- compileFilter
  unfoldable pub compile_filter : Spec → Result CompiledFilter
  unfolding compile_match compile_delay bytes_eq
  compile_filter s =
      if bytes_eq s.kind kind_allow || bytes_eq s.kind kind_deny
      then compile_match s
      else if bytes_eq s.kind kind_delay
      then compile_delay s
      else err invalid_filter

  -- Compile, and Validate with the chain dropped
  unfoldable pub compile : List Spec → Result (List CompiledFilter)
  unfolding compile_filter
  compile [] = ok []
  compile (s ∷ ss) = let rest = compile ss in do f ← compile_filter s; fs ← rest; ok (f ∷ fs)

  unfoldable pub validate : List Spec → Option Error
  unfolding compile
  validate specs = elim (compile specs) [ ok chain ↦ none | err e ↦ some e ]

  -- matchRule
  unfoldable pub match_rule : Rule → Ref → Bool
  match_rule r ref =
      (is_empty r.pkg || glob r.pkg ref.pkg) && (is_empty r.version || glob r.version ref.version)

  unfoldable pub any_pattern : List Bytes → Ref → Bool
  any_pattern [] ref = false
  any_pattern (g ∷ gs) ref = glob g ref.pkg || any_pattern gs ref

  unfoldable pub any_rule : List Rule → Ref → Bool
  unfolding match_rule
  any_rule [] ref = false
  any_rule (r ∷ rs) ref = match_rule r ref || any_rule rs ref

  -- matches
  unfoldable pub matches : CompiledFilter → Ref → Bool
  unfolding any_pattern any_rule
  matches f ref = any_pattern f.patterns ref || any_rule f.rules ref

  -- the delay at a time: an age is compared by the publish time and the minimum
  unfoldable pub delayed : ℕ → Option ℕ → ℕ → Outcome
  delayed min_age none now = needs_metadata
  delayed min_age (some published) now = if leb (published + min_age) now then allow else deny

  -- One filter's decision; none is an abstention.
  unfoldable pub decide_one : CompiledFilter → Ref → ℕ → Option Outcome
  unfolding matches delayed bytes_eq
  decide_one f ref now =
      if bytes_eq f.kind kind_allow
      then (if matches f ref then some allow else none)
      else if bytes_eq f.kind kind_deny
      then (if matches f ref then some deny else none)
      else if bytes_eq f.kind kind_delay
      then some (delayed f.min_age ref.published_at now)
      else none

  -- DecideAt, without the text of the reason
  unfoldable pub decide_at : List CompiledFilter → Ref → ℕ → Outcome
  unfolding decide_one
  decide_at [] ref now = allow
  decide_at (f ∷ fs) ref now =
      let rest = decide_at fs ref now in
      elim (decide_one f ref now) [ none ↦ rest | some outcome ↦ outcome ]
