-- ===== src/Shared/Maps.antt =====
-- A Go map with string keys as an association list; an absent key reads as none.
use mathlib.Core.Path.{◌≡◌}
use mathlib.Core.Option.{Option, none, some}
use mathlib.Core.List.{List, [], ◌∷◌}
use native.Mathlib.Omega.{arith}
use open_artifact.Shared.Tests.{if◌then◌else◌}
use open_artifact.Shared.Strings.{Bytes, bytes_eq}
use open_artifact.Shared.Strings.Laws.{bytes_eq_iff}

abbrev pub Dict {ℓ} : Type ℓ → Type ℓ
Dict V = List (Bytes × V)

module _ {ℓ} {V : Type ℓ} where
  unfoldable pub get : Dict V → Bytes → Option V
  get [] k = none
  get ((j, v) ∷ d) k = if bytes_eq j k then some v else get d k

  -- delete(d, k)
  unfoldable pub remove : Dict V → Bytes → Dict V
  remove [] k = []
  remove ((j, v) ∷ d) k = let rest = remove d k in if bytes_eq j k then rest else (j, v) ∷ rest

  -- d[k] = v
  unfoldable pub put : Dict V → Bytes → V → Dict V
  unfolding remove
  put d k v = (k, v) ∷ remove d k

  pub get-remove :
      (d : Dict V) (k j : Bytes) → get (remove d k) j ≡ (if bytes_eq k j then none else get d j)
  unfolding get remove
  get-remove [] k j = ground arith
  get-remove ((i, v) ∷ d) k j =
      ground (arith, get-remove d k j, bytes_eq_iff i k, bytes_eq_iff i j, bytes_eq_iff k j)

  pub get-put :
      (d : Dict V) (k j : Bytes) (v : V)
      → get (put d k v) j ≡ (if bytes_eq k j then some v else get d j)
  unfolding put
  get-put d k j v = unfold get in ground (arith, get-remove d k j)
