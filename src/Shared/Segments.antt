-- ===== src/Shared/Segments.antt =====
-- Texts made of parts: strings.Split, Join and Fields, and the slices of a list from its end.
pub mod Laws
use mathlib.Core.Bool.{Bool, true, false}
use mathlib.Core.Option.{Option, none, some}
use mathlib.Core.List.{List, [], ◌∷◌, ◌++◌}
use Prim.Native.Nat.{ℕ, zero, suc}
use open_artifact.Shared.Tests.{◌==◌, if◌then◌else◌}
use open_artifact.Shared.Strings.{Bytes, skip_spaces, space_width, is_space}

-- a byte put before the first of some parts
abbrev pub extend : ℕ → List Bytes → List Bytes
extend c [] = (c ∷ []) ∷ []
extend c (p ∷ ps) = (c ∷ p) ∷ ps

-- strings.Split at a single byte
unfoldable pub split : ℕ → Bytes → List Bytes
split sep [] = [] ∷ []
split sep (c ∷ s) = let rest = split sep s in if c == sep then [] ∷ rest else extend c rest

-- strings.Join with a single byte
unfoldable pub join : ℕ → List Bytes → Bytes
join sep [] = []
join sep (p ∷ []) = p
join sep (p ∷ q ∷ ps) = p ++ sep ∷ join sep (q ∷ ps)

-- the bytes of a text up to its first white space
unfoldable pub until_space : Bytes → Bytes
unfolding space_width
until_space [] = []
until_space (c ∷ s) = let rest = until_space s in if space_width (c ∷ s) == 0 then c ∷ rest else []

-- the first of strings.Fields, empty if there is none
unfoldable pub first_field : Bytes → Bytes
unfolding skip_spaces space_width until_space
first_field s = until_space (skip_spaces space_width 0 s)

module _ {A : Type 0} where
  abbrev pub push_front : A → Option (List A × A) → Option (List A × A)
  push_front x none = none
  push_front x (some (init, last)) = some (x ∷ init, last)

  -- l[:len(l)-1] and l[len(l)-1], of a list that is not empty
  unfoldable pub unsnoc : List A → Option (List A × A)
  unsnoc [] = none
  unsnoc (x ∷ []) = some ([], x)
  unsnoc (x ∷ y ∷ l) = push_front x (unsnoc (y ∷ l))

  -- the first elements of a list, as many as are asked for and there
  abbrev pub take : ℕ → List A → List A
  take zero l = []
  take (suc n) [] = []
  take (suc n) (x ∷ l) = x ∷ take n l
