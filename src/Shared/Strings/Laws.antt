-- ===== src/Shared/Strings/Laws.antt =====
-- Lemmas on byte strings: equality tests, prefixes, and texts divided by a separator.
use Prim.Native.Nat.{ℕ, ◌+◌}
use mathlib.Core.Path.{◌≡◌, refl}
use mathlib.Core.Logic.{◌↔◌}
use mathlib.Core.Bool.{true}
use mathlib.Core.Option.{some}
use mathlib.Core.List.{List, [], ◌∷◌, ◌++◌}
use native.Mathlib.Omega.{arith}
use open_artifact.Shared.Strings.{Bytes, All, Lacks, length, bytes_eq, has_prefix, cut}

pub bytes_eq_refl : (s : Bytes) → bytes_eq s s ≡ true
unfolding bytes_eq
bytes_eq_refl [] = refl
bytes_eq_refl (a ∷ s) = ground (arith, bytes_eq_refl s)

pub eq_of_bytes_eq : (s t : Bytes) → bytes_eq s t ≡ true → s ≡ t
unfolding bytes_eq
eq_of_bytes_eq [] [] h = refl
eq_of_bytes_eq [] (b ∷ t) h = cc
eq_of_bytes_eq (a ∷ s) [] h = cc
eq_of_bytes_eq (a ∷ s) (b ∷ t) h = ground (arith, eq_of_bytes_eq s t)

pub bytes_eq_iff : (s t : Bytes) → (bytes_eq s t ≡ true) ↔ (s ≡ t)
bytes_eq_iff s t = (eq_of_bytes_eq s t, λ e. rw e (bytes_eq_refl t))

pub All-append {ℓ κ} :
    {A : Type ℓ} (P : A → Type κ) (xs ys : List A) → All P xs → All P ys → All P (xs ++ ys)
All-append P [] ys _ hy = hy
All-append P (x ∷ xs) ys (px, hx) hy = (px, All-append P xs ys hx hy)

-- Two texts that are divided at the same first separator agree on both sides of it.
pub divide_unique :
    (sep : ℕ) (a b : Bytes) (r t : Bytes)
    → Lacks sep a
    → Lacks sep b
    → a ++ sep ∷ r ≡ b ++ sep ∷ t
    → (a ≡ b) × (r ≡ t)
divide_unique sep [] [] r t ha hb e = (refl, ground arith)
divide_unique sep [] (c ∷ b) r t ha (hc, hb) e = absurd (ground arith)
divide_unique sep (c ∷ a) [] r t (hc, ha) hb e = absurd (ground arith)
divide_unique sep (c ∷ a) (d ∷ b) r t (hc, ha) (hd, hb) e =
    let (p, q) = divide_unique sep a b r t ha hb (ground arith) in (ground arith, q)

pub append_cancel {ℓ} : {A : Type ℓ} (p a b : List A) → p ++ a ≡ p ++ b → a ≡ b
append_cancel [] a b e = e
append_cancel (x ∷ p) a b e = append_cancel p a b (ground arith)

pub has_prefix-append : (p s : Bytes) → has_prefix p (p ++ s) ≡ true
unfolding has_prefix
has_prefix-append [] s = refl
has_prefix-append (a ∷ p) s = ground (arith, has_prefix-append p s)

-- Cutting at the first separator finds it.
pub cut-append : (sep : ℕ) (a r : Bytes) → Lacks sep a → cut sep (a ++ sep ∷ r) ≡ some (a, r)
unfolding cut
cut-append sep [] r h = ground arith
cut-append sep (c ∷ a) r (hc, h) = ground (arith, cut-append sep a r h)

pub length-append {ℓ} : {A : Type ℓ} (xs ys : List A) → length (xs ++ ys) ≡ length xs + length ys
length-append [] ys = omega arith
length-append (x ∷ xs) ys = omega (arith, length-append xs ys)
