-- ===== src/Store/Io/Inversion.antt =====
-- Taking a sequence of calls apart by how its first call ended.
use open_artifact.Shared.{◌≡◌, refl, sym, subst, ◌⊎◌, inl, inr, arith, Error, Result, ok, err}
use open_artifact.Store.Io.{Io, continue, ◌>>=◌}

module _ {W A B : Type 0} where
  continue_ok :
      (r : Result A) (f : A → Io W B) (w : W) {b : B}
      → (continue r f w).0 ≡ ok b
      → (a : A) × (r ≡ ok a) × ((f a w).0 ≡ ok b) × (continue r f w ≡ f a w)
  continue_ok (ok a) f w h = (a, refl, h, refl)
  continue_ok (err e) f w h = absurd (ground arith)

  -- A sequence that returned: its first call returned, and the rest goes on from there.
  pub bind_ok :
      (m : Io W A) (f : A → Io W B) (w : W) {b : B}
      → ((m >>= f) w).0 ≡ ok b
      → (a : A) × ((m w).0 ≡ ok a) × ((f a (m w).1).0 ≡ ok b) × ((m >>= f) w ≡ f a (m w).1)
  unfolding ◌>>=◌
  bind_ok m f w h = continue_ok (m w).0 f (m w).1 h

  -- What the rest of a sequence that returned makes true is true of the whole sequence.
  pub bind_then :
      (Q : Result B × W → Type 0) (m : Io W A) (f : A → Io W B) (w : W) {b : B}
      → ((m >>= f) w).0 ≡ ok b
      → ((a : A) → (m w).0 ≡ ok a → (f a (m w).1).0 ≡ ok b → Q (f a (m w).1))
      → Q ((m >>= f) w)
  bind_then Q m f w h rest = let (a, r, h', e) = bind_ok m f w h in subst Q (sym e) (rest a r h')

  continue_cases :
      (r : Result A) (f : A → Io W B) (w : W)
      → ((a : A) × (r ≡ ok a) × (continue r f w ≡ f a w))
        ⊎ ((e : Error) × (r ≡ err e) × (continue r f w ≡ (err e, w)))
  continue_cases (ok a) f w = inl (a, refl, refl)
  continue_cases (err e) f w = inr (e, refl, refl)

  pub bind_cases :
      (m : Io W A) (f : A → Io W B) (w : W)
      → ((a : A) × ((m w).0 ≡ ok a) × ((m >>= f) w ≡ f a (m w).1))
        ⊎ ((e : Error) × ((m w).0 ≡ err e) × ((m >>= f) w ≡ (err e, (m w).1)))
  unfolding ◌>>=◌
  bind_cases m f w = continue_cases (m w).0 f (m w).1
