-- ===== src/Surface/Debian/Locations.antt =====
-- parsePath of pkg/surface/debian/codec.go: where the file of a pool path is kept.
use open_artifact.Shared.{
  ◌≡◌, refl, ap, sym, subst, ◌∙◌, arith, not, Bool-cases, Option-cases, inl, inr, List, [], ◌∷◌,
  Bytes, codes, bytes_eq, has_prefix, trim_prefix, split, join, unsnoc, invalid_name, ok,
  ok_injective,
}
use open_artifact.Shared.Errors.{>>=-eq-ok}
use open_artifact.Namespace.Validate.{validate_name, refuse_if, pass}
use open_artifact.Surface.Debian.{
  pool, RequestPath, unescape_segment, decode_segments, parse_pool_file, version_or_file, pool_path,
  index_path, classify, parse_parts, parse_path,
}

-- A pool path whose package and version are read from its file name.
IsNamedByFile : RequestPath → Type 0
IsNamedByFile p =
    (p.pkg_name ≡ (parse_pool_file p.file).0)
    × (p.version ≡ version_or_file (parse_pool_file p.file).1 p.file)

classify-named :
    (ns rest_raw : Bytes) (decoded : List Bytes) {p : RequestPath}
    → classify ns rest_raw decoded ≡ ok p
    → p.kind ≡ pool
    → IsNamedByFile p
unfolding classify pool_path index_path IsNamedByFile
classify-named ns raw [] h is_pool = absurd (cc)
classify-named ns raw (first ∷ more) {p} h is_pool =
    elim (Bool-cases (bytes_eq first (codes "pool"))) [
      | inl yes_pool ↦ elim (Option-cases (unsnoc more)) [
        | inl short ↦ absurd (ground (arith, h, yes_pool, short))
        | inr ((dirs, file), last) ↦
            let same : ok (pool_path ns raw file) ≡ ok p = ground (arith, h, yes_pool, last) in
            subst IsNamedByFile (ok_injective same) (refl, refl)
      ]
      | inr other ↦ elim (Bool-cases (bytes_eq first (codes "dists"))) [
        | inl dists ↦ absurd (ground (arith, h, other, dists, is_pool))
        | inr unknown ↦ absurd (ground (arith, h, other, unknown))
      ]
    ]

parse_parts-named :
    (parts : List Bytes) {p : RequestPath}
    → parse_parts parts ≡ ok p
    → p.kind ≡ pool
    → IsNamedByFile p
unfolding parse_parts
parse_parts-named [] h is_pool = absurd (cc)
parse_parts-named (a ∷ []) h is_pool = absurd (cc)
parse_parts-named (a ∷ b ∷ []) h is_pool = absurd (cc)
parse_parts-named (raw_ns ∷ raw_root ∷ raw ∷ raws) h is_pool =
    let (ns, unescaped, h₁) = >>=-eq-ok (unescape_segment raw_ns) _ h in
    let (u, valid, h₂) = >>=-eq-ok (pass (validate_name ns)) _ h₁ in
    let (root, rooted, h₃) = >>=-eq-ok (unescape_segment raw_root) _ h₂ in
    let (u₁, is_root, h₄) =
      >>=-eq-ok (refuse_if (not (bytes_eq root (codes "debian"))) invalid_name) _ h₃ in
    let (decoded, read, h₅) = >>=-eq-ok (decode_segments (raw ∷ raws)) _ h₄ in
    classify-named ns (join b'/' (raw ∷ raws)) decoded h₅ is_pool

parse_path-named :
    (escaped : Bytes) {p : RequestPath}
    → parse_path escaped ≡ ok p
    → p.kind ≡ pool
    → IsNamedByFile p
unfolding parse_path
parse_path-named escaped h is_pool = elim (Bool-cases (has_prefix (codes "/") escaped)) [
  | inr relative ↦ absurd (ground (arith, h, relative))
  | inl absolute ↦
      parse_parts-named (split b'/' (trim_prefix (codes "/") escaped)) (ground (arith, h, absolute))
        is_pool
]

-- Two pool paths with the same file name have the same package and version, whatever their
-- directories are: the place of a file in the store depends on its name alone.
pub pool_location :
    (one two : Bytes) {p q : RequestPath}
    → parse_path one ≡ ok p
    → parse_path two ≡ ok q
    → p.kind ≡ pool
    → q.kind ≡ pool
    → p.file ≡ q.file
    → (p.pkg_name ≡ q.pkg_name) × (p.version ≡ q.version)
unfolding IsNamedByFile
pool_location one two {p} {q} read_p read_q pool_p pool_q same =
    let (pkg_p, version_p) = parse_path-named one read_p pool_p in
    let (pkg_q, version_q) = parse_path-named two read_q pool_q in
    (
      pkg_p ∙ ap (λ f. (parse_pool_file f).0) same ∙ sym pkg_q,
      version_p ∙ ap (λ f. version_or_file (parse_pool_file f).1 f) same ∙ sym version_q,
    )
