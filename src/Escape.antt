-- ===== src/Escape.antt =====
-- url.QueryEscape and url.QueryUnescape, on which encodeSegment and decodeSegment of
-- pkg/core/blobstore/paths.go stand, and url.PathUnescape, which the Maven codec calls.
pub mod Inverse
use open_artifact.Shared.{
  ℕ, ◌+◌, ◌-◌, ◌*◌, ◌/◌, ◌%◌, Bool, true, false, ◌&&◌, ◌||◌, Option, none, some, [], ◌∷◌, ◌++◌,
  Bytes, ◌==◌, leb, ltb, if◌then◌else◌,
}

abbrev pub is_digit : ℕ → Bool
is_digit c = leb 48 c && leb c 57

abbrev pub is_upper : ℕ → Bool
is_upper c = leb 65 c && leb c 90

abbrev pub is_lower : ℕ → Bool
is_lower c = leb 97 c && leb c 122

-- A byte that QueryEscape writes as it is: a letter, a digit, or one of - _ . ~
unfoldable pub is_unreserved : ℕ → Bool
is_unreserved c =
    is_digit c || is_upper c || is_lower c || c == 45 || c == 95 || c == 46 || c == 126

-- An upper-case hexadecimal digit.
unfoldable pub hex_digit : ℕ → ℕ
hex_digit n = if ltb n 10 then 48 + n else 55 + n

unfoldable pub unhex : ℕ → Option ℕ
unhex c =
    if is_digit c
    then some (c - 48)
    else if leb 97 c && leb c 102
    then some (c - 87)
    else if leb 65 c && leb c 70
    then some (c - 55)
    else none

unfoldable pub escape_byte : ℕ → Bytes
escape_byte c =
    if c == 32
    then 43 ∷ []
    else if is_unreserved c
    then c ∷ []
    else 37 ∷ hex_digit (c / 16) ∷ hex_digit (c % 16) ∷ []

unfoldable pub query_escape : Bytes → Bytes
query_escape [] = []
query_escape (c ∷ s) = escape_byte c ++ query_escape s

-- The byte of two hexadecimal digits, before the rest that is decoded already.
unfoldable pub join_hex : Option ℕ → Option ℕ → Option Bytes → Option Bytes
join_hex (some a) (some b) (some rest) = some ((a * 16 + b) ∷ rest)
join_hex _ _ _ = none

unfoldable pub unhex_pair : ℕ → ℕ → Option Bytes → Option Bytes
unhex_pair h l rest = join_hex (unhex h) (unhex l) rest

unfoldable pub push : ℕ → Option Bytes → Option Bytes
push c none = none
push c (some rest) = some (c ∷ rest)

-- url.unescape; the flag says whether + stands for a space (the query mode). None is EscapeError.
unfoldable pub unescape : Bool → Bytes → Option Bytes
unescape plus [] = some []
unescape plus (c ∷ []) = if c == 37 then none else some ((if plus && c == 43 then 32 else c) ∷ [])
unescape plus (c ∷ h ∷ []) =
    let rest = unescape plus (h ∷ []) in
    if c == 37 then none else push (if plus && c == 43 then 32 else c) rest
unescape plus (c ∷ h ∷ l ∷ s) =
    let rest = unescape plus s in
    let next = unescape plus (h ∷ l ∷ s) in
    if c == 37 then unhex_pair h l rest else push (if plus && c == 43 then 32 else c) next

abbrev pub query_unescape : Bytes → Option Bytes
query_unescape = unescape true

abbrev pub path_unescape : Bytes → Option Bytes
path_unescape = unescape false
