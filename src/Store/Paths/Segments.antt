-- ===== src/Store/Paths/Segments.antt =====
-- encodeSegment and decodeSegment of pkg/core/blobstore/paths.go.
use open_artifact.Shared.{◌≡◌, refl, Bytes, IsBytes, Lacks}
use open_artifact.Escape.Inverse.{query_unescape-query_escape, query_escape-Lacks}
use open_artifact.Store.Paths.{encode_segment, decode_segment}

-- Each name is read back from its path segment, and that segment holds no slash.
pub decode_segment-encode_segment :
    (name : Bytes)
    → IsBytes name
    → (decode_segment (encode_segment name) ≡ name) × Lacks b'/' (encode_segment name)
unfolding decode_segment encode_segment
decode_segment-encode_segment name h =
    (rw (decode_segment, query_unescape-query_escape name h) refl, query_escape-Lacks name)
