-- ===== src/Store/Paths/Layout.antt =====
-- The objects that pkg/core/blobstore/paths.go gives a place to, and their paths.
use open_artifact.Shared.{
  ◌≡◌, ◌≢◌, refl, ap, ◌∙◌, sym, Option, none, some, [], ◌∷◌, ◌++◌, append_assoc, append-nil, Bytes,
  IsBytes, codes, arith,
}
use open_artifact.Shared.Strings.Laws.{divide_unique, append_cancel}
use open_artifact.Escape.{query_escape}
use open_artifact.Escape.Inverse.{
  IsSegment, query_escape-IsSegment, query_escape-Lacks, query_escape-injective,
}
use open_artifact.Store.Paths.{
  meta_name, meta_file_prefix, tags_name, cache_dir, files_dir, slash, scope_prefix, encode_segment,
  package_prefix, package_meta_path, package_tags_prefix, tag_path, files_prefix, level_file_path,
  level_file_meta_path, store_file_path, store_file_meta_path, package_file_path,
  package_file_meta_path, version_prefix, version_meta_path, file_path, file_meta_path,
  cache_file_path, cache_meta_path,
}

-- Every kind of object that a scope holds, with the names that place it.
pub data Object : Type 0 where
  store_file store_file_meta store_cache store_cache_meta package_meta : Bytes → Object
  package_file package_file_meta package_cache package_cache_meta tag : Bytes → Bytes → Object
  version_meta : Bytes → Bytes → Object
  version_file version_file_meta version_cache version_cache_meta : Bytes → Bytes → Bytes → Object

-- The path that the code gives the object.
unfoldable pub object_path : Bytes → Object → Bytes
unfolding scope_prefix encode_segment package_prefix package_meta_path package_tags_prefix tag_path
    files_prefix level_file_path level_file_meta_path store_file_path store_file_meta_path
    package_file_path package_file_meta_path version_prefix version_meta_path file_path
    file_meta_path cache_file_path cache_meta_path
object_path s (store_file f) = store_file_path s f
object_path s (store_file_meta f) = store_file_meta_path s f
object_path s (store_cache k) = cache_file_path (scope_prefix s) k
object_path s (store_cache_meta k) = cache_meta_path (scope_prefix s) k
object_path s (package_meta p) = package_meta_path s p
object_path s (package_file p f) = package_file_path s p f
object_path s (package_file_meta p f) = package_file_meta_path s p f
object_path s (package_cache p k) = cache_file_path (package_prefix s p) k
object_path s (package_cache_meta p k) = cache_meta_path (package_prefix s p) k
object_path s (tag p t) = tag_path s p t
object_path s (version_meta p v) = version_meta_path s p v
object_path s (version_file p v f) = file_path s p v f
object_path s (version_file_meta p v f) = file_meta_path s p v f
object_path s (version_cache p v k) = cache_file_path (version_prefix s p v) k
object_path s (version_cache_meta p v k) = cache_meta_path (version_prefix s p v) k

-- The two coordinates of an object: the directory of its level, and its place there.
pub data Level : Type 0 where
  at_scope : Level
  at_package : Bytes → Level
  at_version : Bytes → Bytes → Level

pub data Leaf : Type 0 where
  meta : Leaf
  blob blob_meta cached cached_meta alias : Bytes → Leaf

level : Object → Level
level (store_file f) = at_scope
level (store_file_meta f) = at_scope
level (store_cache k) = at_scope
level (store_cache_meta k) = at_scope
level (package_meta p) = at_package p
level (package_file p f) = at_package p
level (package_file_meta p f) = at_package p
level (package_cache p k) = at_package p
level (package_cache_meta p k) = at_package p
level (tag p t) = at_package p
level (version_meta p v) = at_version p v
level (version_file p v f) = at_version p v
level (version_file_meta p v f) = at_version p v
level (version_cache p v k) = at_version p v
level (version_cache_meta p v k) = at_version p v

leaf : Object → Leaf
leaf (store_file f) = blob f
leaf (store_file_meta f) = blob_meta f
leaf (store_cache k) = cached k
leaf (store_cache_meta k) = cached_meta k
leaf (package_meta p) = meta
leaf (package_file p f) = blob f
leaf (package_file_meta p f) = blob_meta f
leaf (package_cache p k) = cached k
leaf (package_cache_meta p k) = cached_meta k
leaf (tag p t) = alias t
leaf (version_meta p v) = meta
leaf (version_file p v f) = blob f
leaf (version_file_meta p v f) = blob_meta f
leaf (version_cache p v k) = cached k
leaf (version_cache_meta p v k) = cached_meta k

object : Level → Leaf → Option Object
object at_scope (blob f) = some (store_file f)
object at_scope (blob_meta f) = some (store_file_meta f)
object at_scope (cached k) = some (store_cache k)
object at_scope (cached_meta k) = some (store_cache_meta k)
object (at_package p) meta = some (package_meta p)
object (at_package p) (blob f) = some (package_file p f)
object (at_package p) (blob_meta f) = some (package_file_meta p f)
object (at_package p) (cached k) = some (package_cache p k)
object (at_package p) (cached_meta k) = some (package_cache_meta p k)
object (at_package p) (alias t) = some (tag p t)
object (at_version p v) meta = some (version_meta p v)
object (at_version p v) (blob f) = some (version_file p v f)
object (at_version p v) (blob_meta f) = some (version_file_meta p v f)
object (at_version p v) (cached k) = some (version_cache p v k)
object (at_version p v) (cached_meta k) = some (version_cache_meta p v k)
object _ _ = none

object-level-leaf : (o : Object) → object (level o) (leaf o) ≡ some o
unfolding object level leaf
object-level-leaf (store_file f) = refl
object-level-leaf _ = refl

abbrev leaf_path : Leaf → Bytes
leaf_path meta = meta_name
leaf_path (blob f) = files_dir ++ query_escape f
leaf_path (blob_meta f) = files_dir ++ meta_file_prefix ++ query_escape f
leaf_path (cached k) = cache_dir ++ query_escape k
leaf_path (cached_meta k) = cache_dir ++ meta_file_prefix ++ query_escape k
leaf_path (alias t) = tags_name ++ b'/' ∷ query_escape t

abbrev level_path : Level → Bytes → Bytes
level_path at_scope l = l
level_path (at_package p) l = query_escape p ++ b'/' ∷ l
level_path (at_version p v) l = query_escape p ++ b'/' ∷ (query_escape v ++ b'/' ∷ l)

object_path-coordinates :
    (s : Bytes) (o : Object)
    → object_path s o ≡ scope_prefix s ++ level_path (level o) (leaf_path (leaf o))
unfolding object_path level leaf
object_path-coordinates s (store_file f) = simp append_assoc
object_path-coordinates s _ = simp append_assoc

-- What the store accepts as a name: bytes, not empty, and not led by a dot.
abbrev pub IsName : Bytes → Type 0
IsName n = IsBytes n × IsSegment n

abbrev IsProperLevel : Level → Type 0
IsProperLevel at_scope = Unit
IsProperLevel (at_package p) = IsName p
IsProperLevel (at_version p v) = IsName p × IsName v

abbrev IsProperLeaf : Leaf → Type 0
IsProperLeaf meta = Unit
IsProperLeaf (blob n) = IsName n
IsProperLeaf (blob_meta n) = IsName n
IsProperLeaf (cached n) = IsName n
IsProperLeaf (cached_meta n) = IsName n
IsProperLeaf (alias n) = IsName n

-- All the names of an object are names that the store accepts.
unfoldable pub IsProper : Object → Type 0
unfolding level leaf
IsProper o = IsProperLevel (level o) × IsProperLeaf (leaf o)

-- A text led by a dot begins no escaped name.
dot_ne_segment : (a x r : Bytes) → IsSegment a → b'.' ∷ x ≢ a ++ r
dot_ne_segment [] x r h = absurd h
dot_ne_segment (c ∷ a) x r h = λ e. h (ground arith)

-- Two directories that meet below the same dot-led place are one.
divide_segments :
    (p q : Bytes) (r t : Bytes)
    → IsName p
    → IsName q
    → query_escape p ++ b'/' ∷ r ≡ query_escape q ++ b'/' ∷ t
    → (p ≡ q) × (r ≡ t)
divide_segments p q r t hp hq e =
    let (same, rest) =
      divide_unique b'/' (query_escape p) (query_escape q) r t (query_escape-Lacks p)
        (query_escape-Lacks q) e in
    (query_escape-injective p q hp.0 hq.0 same, rest)

level_path-injective :
    (a b : Level) (x y : Bytes)
    → IsProperLevel a
    → IsProperLevel b
    → level_path a (b'.' ∷ x) ≡ level_path b (b'.' ∷ y)
    → (a ≡ b) × (x ≡ y)
level_path-injective at_scope at_scope x y ha hb e = (refl, ground arith)
level_path-injective at_scope (at_package p) x y ha hb e =
    absurd (dot_ne_segment (query_escape p) x _ (query_escape-IsSegment p hb.1) e)
level_path-injective at_scope (at_version p v) x y ha hb e =
    absurd (dot_ne_segment (query_escape p) x _ (query_escape-IsSegment p hb.0.1) e)
level_path-injective (at_package p) at_scope x y ha hb e =
    absurd (dot_ne_segment (query_escape p) y _ (query_escape-IsSegment p ha.1) (sym e))
level_path-injective (at_version p v) at_scope x y ha hb e =
    absurd (dot_ne_segment (query_escape p) y _ (query_escape-IsSegment p ha.0.1) (sym e))
level_path-injective (at_package p) (at_package q) x y ha hb e =
    let (same, rest) = divide_segments p q _ _ ha hb e in (ap at_package same, ground arith)
level_path-injective (at_package p) (at_version q w) x y ha hb e =
    let (same, rest) = divide_segments p q _ _ ha hb.0 e in
    absurd (dot_ne_segment (query_escape w) x _ (query_escape-IsSegment w hb.1.1) rest)
level_path-injective (at_version p v) (at_package q) x y ha hb e =
    let (same, rest) = divide_segments p q _ _ ha.0 hb e in
    absurd (dot_ne_segment (query_escape v) y _ (query_escape-IsSegment v ha.1.1) (sym rest))
level_path-injective (at_version p v) (at_version q w) x y ha hb e =
    let (same, rest) = divide_segments p q _ _ ha.0 hb.0 e in
    let (same', rest') = divide_segments v w _ _ ha.1 hb.1 rest in (cc (same, same'), ground arith)

-- A file's own object is never the metadata object of another.
segment_ne_meta : (f g : Bytes) → IsName f → query_escape f ≢ meta_file_prefix ++ query_escape g
segment_ne_meta f g h e =
    dot_ne_segment (query_escape f) (codes "meta." ++ query_escape g) []
      (query_escape-IsSegment f h.1) (sym e ∙ sym (append-nil (query_escape f)))

leaf_path-injective :
    (a b : Leaf) → IsProperLeaf a → IsProperLeaf b → leaf_path a ≡ leaf_path b → a ≡ b
leaf_path-injective meta meta ha hb e = refl
leaf_path-injective (blob f) (blob g) ha hb e =
    ap blob (query_escape-injective f g ha.0 hb.0 (append_cancel files_dir _ _ e))
leaf_path-injective (blob f) (blob_meta g) ha hb e =
    absurd (segment_ne_meta f g ha (append_cancel files_dir _ _ e))
leaf_path-injective (blob_meta f) (blob g) ha hb e =
    absurd (segment_ne_meta g f hb (append_cancel files_dir _ _ (sym e)))
leaf_path-injective (blob_meta f) (blob_meta g) ha hb e =
    ap blob_meta
      (query_escape-injective f g ha.0 hb.0 (append_cancel (files_dir ++ meta_file_prefix) _ _ e))
leaf_path-injective (cached f) (cached g) ha hb e =
    ap cached (query_escape-injective f g ha.0 hb.0 (append_cancel cache_dir _ _ e))
leaf_path-injective (cached f) (cached_meta g) ha hb e =
    absurd (segment_ne_meta f g ha (append_cancel cache_dir _ _ e))
leaf_path-injective (cached_meta f) (cached g) ha hb e =
    absurd (segment_ne_meta g f hb (append_cancel cache_dir _ _ (sym e)))
leaf_path-injective (cached_meta f) (cached_meta g) ha hb e =
    ap cached_meta
      (query_escape-injective f g ha.0 hb.0 (append_cancel (cache_dir ++ meta_file_prefix) _ _ e))
leaf_path-injective (alias f) (alias g) ha hb e =
    ap alias (query_escape-injective f g ha.0 hb.0 (append_cancel (tags_name ++ slash) _ _ e))
leaf_path-injective _ _ ha hb e = absurd (ground arith)

tail_of : Leaf → Bytes
tail_of l = elim (leaf_path l) [ [] ↦ [] | c ∷ s ↦ s ]

leaf_path-tail : (l : Leaf) → leaf_path l ≡ b'.' ∷ tail_of l
unfolding tail_of
leaf_path-tail meta = refl
leaf_path-tail _ = refl

-- Within a scope, two objects whose names the store accepts never share a path: no file, metadata
-- envelope, tag or cache entry of any level can overwrite another.
pub object_path-injective :
    (s : Bytes) (a b : Object) → IsProper a → IsProper b → object_path s a ≡ object_path s b → a ≡ b
unfolding IsProper
object_path-injective s a b ha hb e =
    let below =
      append_cancel (scope_prefix s) (level_path (level a) (leaf_path (leaf a)))
        (level_path (level b) (leaf_path (leaf b)))
        (sym (object_path-coordinates s a) ∙ e ∙ object_path-coordinates s b) in
    let (same, rest) =
      level_path-injective (level a) (level b) (tail_of (leaf a)) (tail_of (leaf b)) ha.0 hb.0
        (cc (below, leaf_path-tail (leaf a), leaf_path-tail (leaf b))) in
    let leaves =
      leaf_path-injective (leaf a) (leaf b) ha.1 hb.1
        (cc (rest, leaf_path-tail (leaf a), leaf_path-tail (leaf b))) in
    cc (same, leaves, object-level-leaf a, object-level-leaf b)

-- Every object of a scope lies under the scope's prefix.
pub object_path-scope_prefix :
    (s : Bytes) (o : Object) → (rest : Bytes) × (object_path s o ≡ scope_prefix s ++ rest)
object_path-scope_prefix s o =
    (level_path (level o) (leaf_path (leaf o)), object_path-coordinates s o)
