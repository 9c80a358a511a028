-- ===== src/Surface/Maven/Codec/Segments.antt =====
-- validateMavenSegment of pkg/surface/maven/codec.go.
use open_artifact.Shared.{
  ℕ, ◌≡◌, ◌≢◌, refl, arith, true, Bool-cases, Option-cases, inl, inr, none, List, [], ◌∷◌, Bytes,
  All, has_prefix,
}
use open_artifact.Surface.Maven.Codec.{
  is_segment_byte, are_segment_bytes, validate_segment, first_invalid,
}

-- A segment that cannot leave its directory: of letters, digits, dots, underscores and dashes, and
-- without a dot in front.
unfoldable pub IsSafe : Bytes → Type 0
IsSafe seg =
    ((c : ℕ) × (rest : Bytes) × (seg ≡ c ∷ rest) × (c ≢ b'.'))
    × All (λ c. is_segment_byte c ≡ true) seg

segment_bytes : (s : Bytes) → are_segment_bytes s ≡ true → All (λ c. is_segment_byte c ≡ true) s
unfolding are_segment_bytes
segment_bytes [] h = tt
segment_bytes (c ∷ s) h = elim (Bool-cases (is_segment_byte c)) [
  | inl good ↦ (good, segment_bytes s (ground (arith, h, good)))
  | inr bad ↦ absurd (ground (arith, h, bad))
]

validate_segment-IsSafe : (seg : Bytes) → validate_segment seg ≡ none → IsSafe seg
unfolding validate_segment IsSafe has_prefix
validate_segment-IsSafe [] h = absurd (ground (arith, h))
validate_segment-IsSafe (c ∷ rest) h = elim (Bool-cases (are_segment_bytes (c ∷ rest))) [
  | inr bad ↦ absurd (ground (arith, h, bad))
  | inl good ↦
      ((c, rest, refl, λ dot. absurd (ground (arith, h, good, dot))), segment_bytes (c ∷ rest) good)
]

pub first_invalid-IsSafe : (segs : List Bytes) → first_invalid segs ≡ none → All IsSafe segs
unfolding first_invalid
first_invalid-IsSafe [] h = tt
first_invalid-IsSafe (seg ∷ segs) h = elim (Option-cases (validate_segment seg)) [
  | inr (e, bad) ↦ absurd (ground (arith, h, bad))
  | inl good ↦
      (validate_segment-IsSafe seg good, first_invalid-IsSafe segs (ground (arith, h, good)))
]
