-- ===== src/Escape/Inverse.antt =====
-- url.QueryEscape and url.QueryUnescape: the lemmas on escaped text.
use open_artifact.Shared.{
  ℕ, ◌/◌, ◌%◌, ◌<◌, ◌≡◌, ◌≢◌, refl, ap, inl, inr, true, false, Option, none, some, [], ◌∷◌, ◌++◌,
  Bytes, IsBytes, Lacks, Bool, Bool-cases, ◌&&◌, ◌∙◌, arith, ◌==◌, if◌then◌else◌,
}
use open_artifact.Shared.Strings.Laws.{All-append}
use open_artifact.Escape.{
  is_unreserved, hex_digit, unhex, escape_byte, query_escape, unhex_pair, join_hex, push, unescape,
  query_unescape,
}

unhex-hex_digit : (n : ℕ) → n < 16 → unhex (hex_digit n) ≡ some n
unfolding unhex hex_digit
unhex-hex_digit n h = ground arith

-- A byte that is no percent sign is passed on.
unescape_plain :
    (plus : Bool) (c : ℕ) (s : Bytes)
    → (c == 37) ≡ false
    → unescape plus (c ∷ s) ≡ push (if plus && c == 43 then 32 else c) (unescape plus s)
unfolding unescape push
unescape_plain plus c [] h = rw h
unescape_plain plus c (a ∷ []) h = rw h
unescape_plain plus c (a ∷ b ∷ s) h = rw h

unhex_pair-hex_digit :
    (n : ℕ) (o : Option Bytes)
    → n < 256
    → unhex_pair (hex_digit (n / 16)) (hex_digit (n % 16)) o ≡ push n o
unfolding unhex_pair join_hex push
unhex_pair-hex_digit n none h =
    rw (unhex-hex_digit (n / 16) (omega arith), unhex-hex_digit (n % 16) (omega arith))
unhex_pair-hex_digit n (some s) h =
    rw (unhex-hex_digit (n / 16) (omega arith), unhex-hex_digit (n % 16) (omega arith))
      (ap (λ k. some (k ∷ s)) (omega arith))

-- A byte, escaped, is read back before whatever follows it.
unescape-escape_byte :
    (c : ℕ) (s : Bytes) → c < 256 → query_unescape (escape_byte c ++ s) ≡ push c (query_unescape s)
unescape-escape_byte c s h = elim (Bool-cases (c == 32)) [
  | inl e ↦
      unfold escape_byte in
      rw e (unescape_plain true 43 s refl ∙ ap (λ k. push k (query_unescape s)) (ground arith))
  | inr e ↦ elim (Bool-cases (is_unreserved c)) [
    | inl u ↦
        unfold escape_byte in
        rw (e, u)
          (unescape_plain true c s (unfold is_unreserved in ground arith)
            ∙ ap (λ k. push k (query_unescape s)) (unfold is_unreserved in ground arith))
    | inr u ↦
        unfold escape_byte in
        rw (e, u) (unfold unescape in unhex_pair-hex_digit c (query_unescape s) h)
  ]
]

pub query_unescape-query_escape : (s : Bytes) → IsBytes s → query_unescape (query_escape s) ≡ some s
unfolding query_escape push
query_unescape-query_escape [] h = unfold unescape in refl
query_unescape-query_escape (c ∷ s) (hc, h) =
    rw (unescape-escape_byte c (query_escape s) hc, query_unescape-query_escape s h)

escape_byte-Lacks : (c : ℕ) → Lacks b'/' (escape_byte c)
unfolding escape_byte is_unreserved hex_digit
escape_byte-Lacks c = ground arith

pub query_escape-Lacks : (s : Bytes) → Lacks b'/' (query_escape s)
unfolding query_escape
query_escape-Lacks [] = tt
query_escape-Lacks (c ∷ s) =
    All-append _ (escape_byte c) (query_escape s) (escape_byte-Lacks c) (query_escape-Lacks s)

-- A text that is neither empty nor led by a dot.
abbrev pub IsSegment : Bytes → Type 0
IsSegment [] = ⊥
IsSegment (c ∷ s) = c ≢ b'.'

escape_byte-IsSegment : (c : ℕ) (s : Bytes) → c ≢ b'.' → IsSegment (escape_byte c ++ s)
unfolding escape_byte
escape_byte-IsSegment c s h = elim (Bool-cases (c == 32)) [
  | inl e ↦ rw e (omega arith)
  | inr e ↦ elim (Bool-cases (is_unreserved c)) [
    | inl u ↦ rw (e, u) h
    | inr u ↦ rw (e, u) (omega arith)
  ]
]

pub query_escape-IsSegment : (s : Bytes) → IsSegment s → IsSegment (query_escape s)
unfolding query_escape
query_escape-IsSegment [] h = h
query_escape-IsSegment (c ∷ s) h = escape_byte-IsSegment c (query_escape s) h

-- Escaping loses nothing.
pub query_escape-injective :
    (s t : Bytes) → IsBytes s → IsBytes t → query_escape s ≡ query_escape t → s ≡ t
query_escape-injective s t hs ht e =
    cc (query_unescape-query_escape s hs, query_unescape-query_escape t ht, ap query_unescape e)
