-- ===== src/Store/Io.antt =====
-- Calls that change a world and may fail; what was changed before a failure stays changed.
pub mod Keeps
pub mod Inversion
use open_artifact.Shared.{◌≡◌, refl, Bool, true, false, Option, none, some, Error, Result, ok, err}

abbrev pub Io {ℓ κ} : Type ℓ → Type κ → Type (ℓ ⊔ κ)
Io W A = W → Result A × W

module _ {W A : Type 0} where
  abbrev pub pure : A → Io W A
  pure a w = (ok a, w)

  -- return r, err
  abbrev pub lift : Result A → Io W A
  lift r w = (r, w)

  abbrev pub raise : Error → Io W A
  raise e w = (err e, w)

module _ {W : Type 0} where
  -- if err != nil { return err }
  abbrev pub unless : Option Error → Io W (Unit {0})
  unless none w = (ok tt, w)
  unless (some e) w = (err e, w)

module _ {W A B : Type 0} where
  abbrev pub continue : Result A → (A → Io W B) → Io W B
  continue (ok a) f w = f a w
  continue (err e) f w = (err e, w)

  infixl 5 ◌>>=◌
  unfoldable pub ◌>>=◌ : Io W A → (A → Io W B) → Io W B
  ◌>>=◌ m f w = let (r, w') = m w in continue r f w'

module _ {W B : Type 0} where
  infixl 5 ◌>>◌
  abbrev pub ◌>>◌ : Io W (Unit {0}) → Io W B → Io W B
  m >> k = m >>= λ _. k
