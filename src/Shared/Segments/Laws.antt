-- ===== src/Shared/Segments/Laws.antt =====
-- Laws of split and join, and of the last element of a list.
use mathlib.Core.Path.{◌≡◌, refl, ap, sym, ◌∙◌}
use mathlib.Core.Logic.{inl, inr}
use mathlib.Core.Option.{Option, none, some, some-injective}
use mathlib.Core.List.{List, [], ◌∷◌, ◌++◌}
use Prim.Native.Nat.{ℕ}
use native.Mathlib.Omega.{arith}
use open_artifact.Shared.Tests.{◌==◌, Bool-cases}
use open_artifact.Shared.Strings.{Bytes}
use open_artifact.Shared.Segments.{split, join, push_front, unsnoc}

-- split never gives an empty list
split_cons : (sep : ℕ) (s : Bytes) → (p : Bytes) × (ps : List Bytes) × (split sep s ≡ p ∷ ps)
unfolding split
split_cons sep [] = ([], [], refl)
split_cons sep (c ∷ s) =
    let (p, ps, e) = split_cons sep s in
    elim (Bool-cases (c == sep)) [
      | inl at ↦ ([], split sep s, rw (at) refl)
      | inr off ↦ (c ∷ p, ps, rw (off, e) refl)
    ]

join-extend :
    (sep c : ℕ) (p : Bytes) (ps : List Bytes) → join sep ((c ∷ p) ∷ ps) ≡ c ∷ join sep (p ∷ ps)
unfolding join
join-extend sep c p [] = refl
join-extend sep c p (q ∷ ps) = refl

join-nil :
    (sep : ℕ) (l : List Bytes) {p : Bytes} {ps : List Bytes}
    → l ≡ p ∷ ps
    → join sep ([] ∷ l) ≡ sep ∷ join sep l
unfolding join
join-nil sep [] h = absurd (cc)
join-nil sep (q ∷ qs) h = refl

-- The parts of a text, joined, are the text.
pub join-split : (sep : ℕ) (s : Bytes) → join sep (split sep s) ≡ s
unfolding split join
join-split sep [] = refl
join-split sep (c ∷ s) =
    let (p, ps, e) = split_cons sep s in
    elim (Bool-cases (c == sep)) [
      | inl at ↦ rw (at) (join-nil sep (split sep s) e ∙ rw (join-split sep s) (ground (arith, at)))
      | inr off ↦
          rw (off, e)
            (join-extend sep c p ps ∙ ap (λ t. c ∷ t) (ap (join sep) (sym e) ∙ join-split sep s))
    ]

module _ {A : Type 0} where
  -- What unsnoc returns is the list.
  pub unsnoc_ok :
      (l : List A) {init : List A} {last : A} → unsnoc l ≡ some (init, last) → l ≡ init ++ last ∷ []
  unfolding unsnoc
  unsnoc_ok [] h = absurd (cc)
  unsnoc_ok (x ∷ []) h = ap (λ p. p.0 ++ p.1 ∷ []) (some-injective _ _ h)
  unsnoc_ok (x ∷ y ∷ l) h = pushed (unsnoc (y ∷ l)) (λ i e. unsnoc_ok (y ∷ l) e) h
    where
      pushed :
          (o : Option (List A × A)) {init : List A} {last : A}
          → ((i : List A) (e : o ≡ some (i, last)) → y ∷ l ≡ i ++ last ∷ [])
          → push_front x o ≡ some (init, last)
          → x ∷ y ∷ l ≡ init ++ last ∷ []
      pushed none back h = absurd (cc)
      pushed (some (i, l)) {last = last} back h =
          let e = some-injective _ _ h in
          ap (λ t. x ∷ t) (back i (ap (λ t. some (i, t.1)) e)) ∙ ap (λ p. p.0 ++ last ∷ []) e
