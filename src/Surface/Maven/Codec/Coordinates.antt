-- ===== src/Surface/Maven/Codec/Coordinates.antt =====
-- parsePath of pkg/surface/maven/codec.go: what a coordinate has to do with its path.
use open_artifact.Shared.{
  ◌≡◌, ◌≢◌, refl, ap, sym, subst, ◌∙◌, arith, Bool, true, false, not, ◌&&◌, ◌||◌, Bool-cases,
  Option-cases, inl, inr, Option, none, some, List, [], ◌∷◌, ◌++◌, append_assoc, Bytes, codes,
  is_empty, All, bytes_eq, has_prefix, trim_prefix, split, join, unsnoc, Error, invalid_name, ok,
  ok_injective,
}
use open_artifact.Shared.Errors.{>>=-eq-ok}
use open_artifact.Shared.Strings.Laws.{eq_of_bytes_eq}
use open_artifact.Shared.Segments.Laws.{join-split, unsnoc_ok}
use open_artifact.Core.{Hash}
use open_artifact.Escape.{unescape}
use open_artifact.Namespace.Validate.{validate_name, refuse_if, pass}
use open_artifact.Surface.Maven.Codec.{
  PathKind, artifact, artifact_metadata, version_metadata, archetype_catalog, RequestPath,
  archetype_file, metadata_file, unescape_segment, unescape_segments, first_invalid,
  checksum_target, is_snapshot_version, build_coordinate_path, with_version, coordinate_path,
  archetype_path, is_archetype, coordinate, parse_parts, parse_path,
}
use open_artifact.Surface.Maven.Codec.Segments.{IsSafe, first_invalid-IsSafe}

-- The segments that a coordinate stands for.
unfoldable pub IsCoordinate : PathKind → RequestPath → List Bytes → Type 0
IsCoordinate artifact p segments =
    (segments ≡ p.group_path ++ p.artifact_id ∷ p.version ∷ p.file ∷ [])
    × (p.pkg ≡ join b'/' (p.group_path ++ p.artifact_id ∷ []))
IsCoordinate version_metadata p segments =
    (segments ≡ p.group_path ++ p.artifact_id ∷ p.version ∷ p.file ∷ [])
    × (p.pkg ≡ join b'/' (p.group_path ++ p.artifact_id ∷ []))
    × (is_snapshot_version p.version ≡ true)
IsCoordinate artifact_metadata p segments =
    (segments ≡ p.group_path ++ p.artifact_id ∷ p.file ∷ [])
    × (p.pkg ≡ join b'/' (p.group_path ++ p.artifact_id ∷ []))
    × (p.version ≡ [])
IsCoordinate archetype_catalog p segments = segments ≡ p.file ∷ []

-- One coordinate that was built: its fields are the arguments.
build_ok :
    (ns : Bytes) (kind : PathKind) (group : List Bytes) (artifact_id version file : Bytes)
    (checksum : Option Hash) (target : Bytes) {p : RequestPath}
    → build_coordinate_path ns kind group artifact_id version file checksum target ≡ ok p
    → (group ≢ [])
      × (record {
        namespace = ns;
        kind = kind;
        group_path = group;
        group_id = join b'.' group;
        artifact_id = artifact_id;
        pkg = join b'/' (group ++ artifact_id ∷ []);
        version = version;
        file = file;
        checksum = checksum;
        target_file = target;
      }
          ≡ p)
unfolding build_coordinate_path
build_ok ns kind [] a v file c t h = absurd (cc)
build_ok ns kind (g ∷ gs) a v file c t h = ((λ e. absurd (cc)), ok_injective h)

-- What a coordinate says of the segments and of the namespace that it was read from.
Names : Bytes → List Bytes → RequestPath → Type 0
Names ns segments p = (p.namespace ≡ ns) × IsCoordinate p.kind p segments

built_named :
    (ns : Bytes) (segments : List Bytes) (kind : PathKind) (group : List Bytes)
    (artifact_id version file : Bytes) (c : Option Hash) (t : Bytes) {p : RequestPath}
    → build_coordinate_path ns kind group artifact_id version file c t ≡ ok p
    → IsCoordinate kind
        (record {
          namespace = ns;
          kind = kind;
          group_path = group;
          group_id = join b'.' group;
          artifact_id = artifact_id;
          pkg = join b'/' (group ++ artifact_id ∷ []);
          version = version;
          file = file;
          checksum = c;
          target_file = t;
        })
        segments
    → Names ns segments p
unfolding Names
built_named ns segments kind group a v file c t h shape =
    subst (λ p. (p.namespace ≡ ns) × IsCoordinate p.kind p segments)
      (build_ok ns kind group a v file c t h).1 (refl, shape)

-- with the group and the artifact taken off
with_group :
    (ns : Bytes) (metadata : Bool) (before group : List Bytes) (artifact_id second file : Bytes)
    (c : Option Hash) (t : Bytes) {p : RequestPath}
    → before ≡ group ++ artifact_id ∷ []
    → with_version ns metadata before second file c t ≡ ok p
    → unsnoc before ≡ some (group, artifact_id)
    → Names ns (before ++ second ∷ file ∷ []) p
unfolding with_version IsCoordinate
with_group ns metadata before group a second file c t {p} off h found =
    let whole : before ++ second ∷ file ∷ [] ≡ group ++ a ∷ second ∷ file ∷ [] =
      ap (λ l. l ++ second ∷ file ∷ []) off ∙ append_assoc group (a ∷ []) (second ∷ file ∷ []) in
    elim (Bool-cases metadata) [
      | inl meta ↦ elim (Bool-cases (not (is_empty group) && is_snapshot_version second)) [
        | inl snapshot ↦
            built_named ns _ version_metadata group a second file c t
              (ground (arith, h, found, meta, snapshot)) (whole, refl, ground (arith, snapshot))
        | inr plain ↦
            built_named ns _ artifact_metadata before second [] file c t
              (ground (arith, h, found, meta, plain)) (refl, refl, refl)
      ]
      | inr other ↦ elim (Bool-cases (is_empty group)) [
        | inl alone ↦ absurd (ground (arith, h, found, other, alone))
        | inr grouped ↦
            built_named ns _ artifact group a second file c t
              (ground (arith, h, found, other, grouped)) (whole, refl)
      ]
    ]

coordinate_path-Names :
    (ns : Bytes) (before : List Bytes) (second file : Bytes) {p : RequestPath}
    → coordinate_path ns before second file ≡ ok p
    → Names ns (before ++ second ∷ file ∷ []) p
unfolding coordinate_path with_version
coordinate_path-Names ns before second file h = elim (Option-cases (unsnoc before)) [
  | inl empty ↦ absurd (ground (arith, h, empty))
  | inr ((group, a), off) ↦
      with_group ns (bytes_eq (checksum_target file).1 metadata_file || bytes_eq file metadata_file)
        before group a second file (checksum_target file).0 (checksum_target file).1
        (unsnoc_ok before off) h off
]

archetype_named :
    (ns : Bytes) (segments : List Bytes) {p : RequestPath}
    → is_archetype segments ≡ true
    → ok (archetype_path ns) ≡ ok p
    → Names ns segments p
unfolding is_archetype Names IsCoordinate
archetype_named ns [] alone same = absurd (cc)
archetype_named ns (s ∷ []) alone same =
    subst (λ p. (p.namespace ≡ ns) × IsCoordinate p.kind p (s ∷ [])) (ok_injective same)
      (refl, ap (λ s. s ∷ []) (eq_of_bytes_eq s archetype_file alone))
archetype_named ns (s ∷ s' ∷ l) alone same = absurd (cc)

coordinate-Names :
    (ns : Bytes) (segments : List Bytes) {p : RequestPath}
    → coordinate ns segments ≡ ok p
    → Names ns segments p
unfolding coordinate
coordinate-Names ns segments {p} h = elim (Bool-cases (is_archetype segments)) [
  | inl alone ↦ archetype_named ns segments alone (ground (arith, h, alone))
  | inr longer ↦ elim (Option-cases (unsnoc segments)) [
    | inl empty ↦ absurd (ground (arith, h, longer, empty))
    | inr ((init, file), last) ↦ elim (Option-cases (unsnoc init)) [
      | inl empty ↦ absurd (ground (arith, h, longer, last, empty))
      | inr ((before, second), next) ↦
          subst (λ l. Names ns l p)
            (sym (
              unsnoc_ok segments last
              ∙ ap (λ l. l ++ file ∷ []) (unsnoc_ok init next)
              ∙ append_assoc before (second ∷ []) (file ∷ [])))
            (coordinate_path-Names ns before second file (ground (arith, h, longer, last, next)))
    ]
  ]
]

-- A segment as it stands in the path, and what it is read as.
abbrev IsEscaped : Bytes → Bytes → Type 0
IsEscaped raw seg = unescape false raw ≡ some seg

unescape_segment_ok :
    (raw : Bytes) {seg : Bytes} → unescape_segment raw ≡ ok seg → IsEscaped raw seg
unfolding unescape_segment
unescape_segment_ok raw h = elim (Option-cases (unescape false raw)) [
  | inl bad ↦ absurd (ground (arith, h, bad))
  | inr (s, good) ↦ ground (arith, h, good)
]

pass_ok : (o : Option Error) {u : Unit {0}} → pass o ≡ ok u → o ≡ none
pass_ok none h = refl
pass_ok (some e) h = absurd (cc)

refuse_if_ok : (b : Bool) (e : Error) {u : Unit {0}} → refuse_if b e ≡ ok u → b ≡ false
refuse_if_ok false e h = refl
refuse_if_ok true e h = absurd (cc)

-- The parts of a path that was read.
unfoldable pub IsRead : List Bytes → RequestPath → Type 0
IsRead parts p =
    (raw_ns : Bytes) × (raw_root : Bytes) × (raws : List Bytes) × (segments : List Bytes) × (parts
      ≡ raw_ns ∷ raw_root ∷ raws)
    × IsEscaped raw_ns p.namespace
    × IsEscaped raw_root (codes "maven2")
    × (unescape_segments raws ≡ ok segments)
    × (validate_name p.namespace ≡ none)
    × All IsSafe segments
    × IsCoordinate p.kind p segments

parse_parts_ok : (parts : List Bytes) {p : RequestPath} → parse_parts parts ≡ ok p → IsRead parts p
unfolding parse_parts IsRead Names
parse_parts_ok [] h = absurd (cc)
parse_parts_ok (a ∷ []) h = absurd (cc)
parse_parts_ok (a ∷ b ∷ []) h = absurd (cc)
parse_parts_ok (raw_ns ∷ raw_root ∷ raw ∷ raws) {p} h =
    let (ns, unescaped, h₁) = >>=-eq-ok (unescape_segment raw_ns) _ h in
    let (u, valid, h₂) = >>=-eq-ok (pass (validate_name ns)) _ h₁ in
    let (root, rooted, h₃) = >>=-eq-ok (unescape_segment raw_root) _ h₂ in
    let (u₁, is_root, h₄) =
      >>=-eq-ok (refuse_if (not (bytes_eq root (codes "maven2"))) invalid_name) _ h₃ in
    let (segments, read, h₅) = >>=-eq-ok (unescape_segments (raw ∷ raws)) _ h₄ in
    let (u₂, safe, h₆) = >>=-eq-ok (pass (first_invalid segments)) _ h₅ in
    let (named, shape) = coordinate-Names ns segments h₆ in
    (
      raw_ns,
      raw_root,
      raw ∷ raws,
      segments,
      refl,
      unescape_segment_ok raw_ns unescaped ∙ ap some (sym named),
      unescape_segment_ok raw_root rooted
          ∙ ap some
              (eq_of_bytes_eq root (codes "maven2") (ground (arith, refuse_if_ok _ _ is_root))),
      read,
      ap validate_name named ∙ pass_ok _ valid,
      first_invalid-IsSafe segments (pass_ok _ safe),
      shape,
    )

slash_first : (s : Bytes) → has_prefix (codes "/") s ≡ true → s ≡ b'/' ∷ trim_prefix (codes "/") s
unfolding has_prefix trim_prefix
slash_first [] h = absurd (cc)
slash_first (c ∷ s) h = ground (arith, h)

-- A path that was read is a slash and its parts: a segment for a valid namespace, one for `maven2`,
-- and those of the coordinate, in its order and with nothing left over. Each of these is safe.
pub parse_path_ok :
    (escaped : Bytes) {p : RequestPath}
    → parse_path escaped ≡ ok p
    → (parts : List Bytes) × (escaped ≡ b'/' ∷ join b'/' parts) × IsRead parts p
unfolding parse_path
parse_path_ok escaped h = elim (Bool-cases (has_prefix (codes "/") escaped)) [
  | inr relative ↦ absurd (ground (arith, h, relative))
  | inl absolute ↦
      let parts = split b'/' (trim_prefix (codes "/") escaped) in
      (
        parts,
        slash_first escaped absolute
            ∙ ap (λ s. b'/' ∷ s) (sym (join-split b'/' (trim_prefix (codes "/") escaped))),
        parse_parts_ok parts (ground (arith, h, absolute)),
      )
]
