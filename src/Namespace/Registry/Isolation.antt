-- ===== src/Namespace/Registry/Isolation.antt =====
-- scopeOf of pkg/namespace/registry.go over the paths of pkg/core/blobstore/paths.go.
use mathlib.Core.List.{reverse, reverse-append, reverse-reverse}
use open_artifact.Shared.{
  ◌≡◌, ◌≢◌, refl, sym, subst, ◌∙◌, inl, inr, arith, true, false, none, List, [], ◌∷◌, ◌++◌,
  append_assoc, Bytes, Lacks, All, trim, trim_left, is_empty, bytes_eq, ◌==◌, Bool-cases,
}
use open_artifact.Shared.Strings.Laws.{append_cancel, divide_unique, bytes_eq_iff}
use open_artifact.Store.Paths.{root, scope_prefix}
use open_artifact.Store.Paths.Layout.{Object, object_path, object_path-scope_prefix}
use open_artifact.Namespace.Validate.{validate_name, is_one_of}
use open_artifact.Namespace.Validate.Names.{validate_name_iff, validate_name-Lacks}
use open_artifact.Namespace.Registry.{scope_of, allowed_formats}

-- A text whose first byte is no slash.
abbrev pub StartsBare : Bytes → Type 0
StartsBare [] = ⊥
StartsBare (c ∷ s) = c ≢ b'/'

trim_left_bare : (s : Bytes) → StartsBare s → trim_left (λ c. c == b'/') s ≡ s
unfolding trim_left
trim_left_bare [] h = absurd h
trim_left_bare (c ∷ s) h = ground arith

trim_bare : (s : Bytes) → StartsBare s → StartsBare (reverse s) → trim (λ c. c == b'/') s ≡ s
unfolding trim
trim_bare s first last =
    rw (trim_left_bare s first, trim_left_bare (reverse s) last) (reverse-reverse s)

StartsBare-append : (s t : Bytes) → StartsBare s → StartsBare (s ++ t)
StartsBare-append [] t h = absurd h
StartsBare-append (c ∷ s) t h = h

-- A format that a namespace can be scoped to.
unfoldable pub IsFormat : Bytes → Type 0
IsFormat f = is_one_of f allowed_formats ≡ true

one_of_elim :
    (P : Bytes → Type 0) (f : Bytes) (rs : List Bytes) → is_one_of f rs ≡ true → All P rs → P f
unfolding is_one_of
one_of_elim P f [] h hs = absurd (ground arith)
one_of_elim P f (r ∷ rs) h hs = elim (Bool-cases (bytes_eq f r)) [
  | inl e ↦ subst P (sym ((bytes_eq_iff f r).0 e)) hs.0
  | inr e ↦ one_of_elim P f rs (rw e at h) hs.1
]

-- A format of the list ends in a letter, and holds no slash.
IsFormat-bare : (f : Bytes) → IsFormat f → StartsBare (reverse f) × Lacks b'/' f
unfolding IsFormat
IsFormat-bare f h =
    one_of_elim (λ g. StartsBare (reverse g) × Lacks b'/' g) f allowed_formats h (omega arith)

-- The deployment prefix: empty, or with no slash in front.
abbrev pub IsPlainPrefix : Bytes → Type 0
IsPlainPrefix [] = Unit
IsPlainPrefix (c ∷ s) = c ≢ b'/'

above : Bytes → Bytes
above [] = []
above (c ∷ s) = (c ∷ s) ++ b'/' ∷ []

scope_of-above :
    (prefix ns f : Bytes) → scope_of prefix ns f ≡ above prefix ++ (ns ++ b'/' ∷ []) ++ f
unfolding scope_of above
scope_of-above [] ns f = refl
scope_of-above (c ∷ s) ns f = simp append_assoc

name-StartsBare : (ns : Bytes) → validate_name ns ≡ none → StartsBare ns
name-StartsBare [] h = absurd (omega (arith, ((validate_name_iff []).0 h).not_empty))
name-StartsBare (c ∷ ns) h = (validate_name-Lacks (c ∷ ns) h).0

above-StartsBare :
    (prefix t : Bytes) → IsPlainPrefix prefix → StartsBare t → StartsBare (above prefix ++ t)
unfolding above
above-StartsBare [] t plain h = h
above-StartsBare (c ∷ s) t plain h = plain

StartsBare-is_empty : (s : Bytes) → StartsBare s → is_empty s ≡ false
StartsBare-is_empty [] h = absurd h
StartsBare-is_empty (c ∷ s) h = refl

module _ (prefix ns f : Bytes) (plain : IsPlainPrefix prefix) (valid : validate_name ns ≡ none)
    (known : IsFormat f) where
  scope-StartsBare : StartsBare (above prefix ++ (ns ++ b'/' ∷ []) ++ f)
  scope-StartsBare = StartsBare-append (above prefix ++ (ns ++ b'/' ∷ [])) f (
      above-StartsBare prefix (ns ++ b'/' ∷ []) plain
        (StartsBare-append ns (b'/' ∷ []) (name-StartsBare ns valid)))

  scope-EndsBare : StartsBare (reverse (above prefix ++ (ns ++ b'/' ∷ []) ++ f))
  scope-EndsBare = rw reverse-append (StartsBare-append (reverse f) _ (IsFormat-bare f known).0)

  -- The prefix of a scoped store, piece by piece.
  scope_prefix-scope_of :
      scope_prefix (scope_of prefix ns f) ≡ root ++ above prefix ++ (ns ++ b'/' ∷ (f ++ b'/' ∷ []))
  unfolding scope_prefix
  scope_prefix-scope_of =
      rw
        (
          scope_of-above prefix ns f,
          trim_bare _ scope-StartsBare scope-EndsBare,
          StartsBare-is_empty _ scope-StartsBare,
        )
        (simp append_assoc)

  scope_prefix-append :
      (x : Bytes)
      → scope_prefix (scope_of prefix ns f) ++ x
        ≡ root ++ above prefix ++ (ns ++ b'/' ∷ (f ++ b'/' ∷ x))
  scope_prefix-append x = rw scope_prefix-scope_of (simp append_assoc)

-- If two objects of scoped stores under one deployment prefix share a path, whatever the objects
-- are, the stores are those of the same namespace and the same format.
pub scopes_disjoint :
    (prefix ns ns' f f' : Bytes) (a b : Object)
    → IsPlainPrefix prefix
    → validate_name ns ≡ none
    → validate_name ns' ≡ none
    → IsFormat f
    → IsFormat f'
    → object_path (scope_of prefix ns f) a ≡ object_path (scope_of prefix ns' f') b
    → (ns ≡ ns') × (f ≡ f')
scopes_disjoint prefix ns ns' f f' a b plain v v' k k' e =
    let (x, ex) = object_path-scope_prefix (scope_of prefix ns f) a in
    let (y, ey) = object_path-scope_prefix (scope_of prefix ns' f') b in
    let whole : (root ++ above prefix) ++ (ns ++ b'/' ∷ (f ++ b'/' ∷ x))
        ≡ (root ++ above prefix) ++ (ns' ++ b'/' ∷ (f' ++ b'/' ∷ y)) =
      sym (scope_prefix-append prefix ns f plain v k x)
      ∙ sym ex
      ∙ e
      ∙ ey
      ∙ scope_prefix-append prefix ns' f' plain v' k' y in
    let (same, rest) =
      divide_unique b'/' ns ns' _ _ (validate_name-Lacks ns v) (validate_name-Lacks ns' v')
        (append_cancel (root ++ above prefix) _ _ whole) in
    (same, (divide_unique b'/' f f' x y (IsFormat-bare f k).1 (IsFormat-bare f' k').1 rest).0)
