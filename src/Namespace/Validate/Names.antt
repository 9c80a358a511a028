-- ===== src/Namespace/Validate/Names.antt =====
-- ValidateName of pkg/namespace/validate.go against its rules.
use open_artifact.Shared.{
  ℕ, ◌≤◌, ◌≡◌, ◌≢◌, refl, ◌⊎◌, ◌↔◌, arith, Bool, true, false, not, ◌||◌, none, some, List, [], ◌∷◌,
  Bytes, length, All, Lacks, ltb, if◌then◌else◌, Error, namespace_invalid_name,
}
use open_artifact.Shared.Strings.Laws.{bytes_eq_iff}
use open_artifact.Namespace.Validate.{
  reserved_names, is_one_of, is_name_byte, are_name_bytes, last_byte, has_outer_dash, validate_name,
}

-- A lowercase letter, a digit or a dash.
abbrev pub IsNameByte : ℕ → Type 0
IsNameByte c = ((97 ≤ c) × (c ≤ 122)) ⊎ ((48 ≤ c) × (c ≤ 57)) ⊎ (c ≡ b'-')

abbrev pub HasPlainEnds : Bytes → Type 0
HasPlainEnds [] = Unit
HasPlainEnds (c ∷ s) = (c ≢ b'-') × (last_byte c s ≢ b'-')

-- The naming rules, as the comment of ValidateName states them.
pub record IsNamespaceName (n : Bytes) : Type 0 where
  pub not_empty : 1 ≤ length n
  pub fits : length n ≤ 64
  pub bytes : All IsNameByte n
  pub ends : HasPlainEnds n
  pub free : All (λ r. n ≢ r) reserved_names

is_name_byte_iff : (c : ℕ) → (is_name_byte c ≡ true) ↔ IsNameByte c
unfolding is_name_byte
is_name_byte_iff c = (λ h. ground arith, λ h. ground arith)

are_name_bytes_iff : (n : Bytes) → (are_name_bytes n ≡ true) ↔ All IsNameByte n
unfolding are_name_bytes
are_name_bytes_iff [] = (λ h. tt, λ h. refl)
are_name_bytes_iff (c ∷ n) = (
  λ h. ((is_name_byte_iff c).0 (ground arith), (are_name_bytes_iff n).0 (ground arith)),
  λ h. ground (arith, (is_name_byte_iff c).1 h.0, (are_name_bytes_iff n).1 h.1),
)

pub is_one_of_iff : (n : Bytes) (rs : List Bytes) → (is_one_of n rs ≡ false) ↔ All (λ r. n ≢ r) rs
unfolding is_one_of
is_one_of_iff n [] = (λ h. tt, λ h. refl)
is_one_of_iff n (r ∷ rs) = (
  λ h. (λ e. ground (arith, (bytes_eq_iff n r).1 e), (is_one_of_iff n rs).0 (ground arith)),
  λ h. ground (arith, (bytes_eq_iff n r).0, (is_one_of_iff n rs).1 h.1, h.0),
)

has_outer_dash_iff : (n : Bytes) → (has_outer_dash n ≡ false) ↔ HasPlainEnds n
unfolding has_outer_dash
has_outer_dash_iff [] = (λ h. tt, λ h. refl)
has_outer_dash_iff (c ∷ s) = (λ h. (ground arith, ground arith), λ h. ground arith)

-- the ladder of guards that a nil error has passed
four_tests :
    (a b c d : Bool) (e : Error)
    → ((if a
          then some e
          else if not b
          then some e
          else if c
          then some e
          else if d
          then some e
          else none)
        ≡ none)
      ↔ ((a ≡ false) × (b ≡ true) × (c ≡ false) × (d ≡ false))
four_tests a b c d e =
    (λ h. (ground arith, ground arith, ground arith, ground arith), λ h. ground arith)

length_test : (k : ℕ) → ((ltb k 1 || ltb 64 k) ≡ false) ↔ ((1 ≤ k) × (k ≤ 64))
length_test k = (λ h. (ground arith, ground arith), λ h. ground arith)

-- ValidateName accepts exactly the names that its rules describe.
pub validate_name_iff : (n : Bytes) → (validate_name n ≡ none) ↔ IsNamespaceName n
unfolding validate_name
validate_name_iff n = (
  λ h.
      let (size, bytes, ends, free) = (four_tests _ _ _ _ namespace_invalid_name).0 h in
      let (low, high) = (length_test (length n)).0 size in
      record {
        not_empty = low;
        fits = high;
        bytes = (are_name_bytes_iff n).0 bytes;
        ends = (has_outer_dash_iff n).0 ends;
        free = (is_one_of_iff n reserved_names).0 free;
      },
  λ h. (four_tests _ _ _ _ namespace_invalid_name).1 (
    (length_test (length n)).1 (h.not_empty, h.fits),
    (are_name_bytes_iff n).1 h.bytes,
    (has_outer_dash_iff n).1 h.ends,
    (is_one_of_iff n reserved_names).1 h.free,
  ),
)

IsNameByte-ne-slash : (c : ℕ) → IsNameByte c → c ≢ b'/'
IsNameByte-ne-slash c h = ground arith

names-Lacks : (n : Bytes) → All IsNameByte n → Lacks b'/' n
names-Lacks [] h = tt
names-Lacks (c ∷ n) h = (IsNameByte-ne-slash c h.0, names-Lacks n h.1)

-- An accepted name holds no slash, so it is one segment of a path.
pub validate_name-Lacks : (n : Bytes) → validate_name n ≡ none → Lacks b'/' n
validate_name-Lacks n h = names-Lacks n ((validate_name_iff n).0 h).bytes
