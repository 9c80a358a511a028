-- ===== src/Surface/Maven/Upstream/Paths.antt =====
-- From parsePath of pkg/surface/maven/codec.go to upstreamURL of proxy.go: the document that the
-- upstream is asked for.
use open_artifact.Shared.{
  ◌≡◌, ◌≢◌, refl, sym, ap, subst, ◌∙◌, false, none, some, List, [], ◌∷◌, ◌++◌, Bytes, codes, join,
  All, ok,
}
use open_artifact.Escape.{unescape}
use open_artifact.Namespace.{Spec}
use open_artifact.Namespace.Validate.{validate_name}
use open_artifact.Surface.PullThrough.{upstream_base}
use open_artifact.Surface.Maven.Codec.{
  PathKind, artifact, artifact_metadata, version_metadata, archetype_catalog, RequestPath,
  unescape_segments, parse_path,
}
use open_artifact.Surface.Maven.Codec.Segments.{IsSafe}
use open_artifact.Surface.Maven.Codec.Coordinates.{IsCoordinate, IsRead, parse_path_ok}
use open_artifact.Surface.Maven.Upstream.{version_segments, coordinate_path, upstream_url}

nth-IsSafe : (group : List Bytes) (a v f : Bytes) → All IsSafe (group ++ a ∷ v ∷ f ∷ []) → IsSafe v
nth-IsSafe [] a v f (first, (second, rest)) = second
nth-IsSafe (g ∷ group) a v f (first, rest) = nth-IsSafe group a v f rest

safe_version : (v : Bytes) → IsSafe v → version_segments v ≡ v ∷ []
unfolding IsSafe version_segments
safe_version [] ((c, rest, same, dot), bytes) = absurd (cc)
safe_version (c ∷ v) safe = refl

versioned :
    (p : RequestPath) (segments : List Bytes)
    → segments ≡ p.group_path ++ p.artifact_id ∷ p.version ∷ p.file ∷ []
    → All IsSafe segments
    → coordinate_path p ≡ join b'/' segments
unfolding coordinate_path
versioned p segments shape safe =
    let v =
      nth-IsSafe p.group_path p.artifact_id p.version p.file (subst (All IsSafe) shape safe) in
    ap (λ l. join b'/' (p.group_path ++ p.artifact_id ∷ (l ++ p.file ∷ [])))
      (safe_version p.version v)
    ∙ ap (join b'/') (sym shape)

unversioned :
    (p : RequestPath) (segments : List Bytes)
    → segments ≡ p.group_path ++ p.artifact_id ∷ p.file ∷ []
    → p.version ≡ []
    → coordinate_path p ≡ join b'/' segments
unfolding coordinate_path version_segments
unversioned p segments shape bare =
    ap (λ v. join b'/' (p.group_path ++ p.artifact_id ∷ (version_segments v ++ p.file ∷ []))) bare
    ∙ ap (join b'/') (sym shape)

coordinate_path-join :
    (kind : PathKind) (p : RequestPath) (segments : List Bytes)
    → kind ≢ archetype_catalog
    → IsCoordinate kind p segments
    → All IsSafe segments
    → coordinate_path p ≡ join b'/' segments
unfolding IsCoordinate
coordinate_path-join artifact p segments other (shape, pkg) safe = versioned p segments shape safe
coordinate_path-join version_metadata p segments other (shape, pkg, snapshot) safe =
    versioned p segments shape safe
coordinate_path-join artifact_metadata p segments other (shape, pkg, bare) safe =
    unversioned p segments shape bare
coordinate_path-join archetype_catalog p segments other shape safe = absurd (other refl)

-- The upstream is asked for what the client asked for: below the base of the upstream, the segments
-- of the request path behind the first two, unescaped, all of them and in their order. The first two
-- are escaped forms of the namespace, which is a valid name, and of `maven2`. Each other segment is
-- safe, so that it stands for itself in a URL.
pub upstream_url-parse_path :
    (escaped : Bytes) (spec : Spec) {p : RequestPath}
    → parse_path escaped ≡ ok p
    → p.kind ≢ archetype_catalog
    → (raw_ns : Bytes) × (raw_root : Bytes) × (raws : List Bytes) × (segments : List Bytes)
      × (escaped ≡ b'/' ∷ join b'/' (raw_ns ∷ raw_root ∷ raws))
      × (unescape false raw_ns ≡ some p.namespace)
      × (validate_name p.namespace ≡ none)
      × (unescape false raw_root ≡ some (codes "maven2"))
      × (unescape_segments raws ≡ ok segments)
      × All IsSafe segments
      × (upstream_url spec p ≡ upstream_base spec ++ codes "/" ++ join b'/' segments)
unfolding upstream_url IsRead
upstream_url-parse_path escaped spec {p} parsed other =
    let (parts, path, is_read) = parse_path_ok escaped parsed in
    let (raw_ns, raw_root, raws, segments, split, ns, root, read, valid, safe, shape) = is_read in
    (
      raw_ns,
      raw_root,
      raws,
      segments,
      path ∙ ap (λ l. b'/' ∷ join b'/' l) split,
      ns,
      valid,
      root,
      read,
      safe,
      ap (λ s. upstream_base spec ++ codes "/" ++ s)
          (coordinate_path-join p.kind p segments other shape safe),
    )
