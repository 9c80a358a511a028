-- ===== src/Store/Io/Keeps.antt =====
-- What a call leaves alone: one rule for each way to build a call.
use open_artifact.Shared.{
  ◌≡◌, refl, Bool, true, false, Option, none, some, Error, Result, ok, err, if◌then◌else◌,
}
use open_artifact.Store.Io.{Io, unless, continue, ◌>>=◌}

-- Whether it returns or fails, `m` keeps `P`.
pub record Keeps {ℓ} {W : Type 0} {A : Type 0} (P : W → Type ℓ) (m : Io W A) : Type ℓ where
  pub at : (w : W) → P w → P (m w).1

module _ {ℓ} {W A : Type 0} {P : W → Type ℓ} where
  pub Keeps-pure : (a : A) → Keeps P (λ w. (ok a, w))
  Keeps-pure a = record { at = λ w h. h }

  pub Keeps-raise : (e : Error) → Keeps {A = A} P (λ w. (err e, w))
  Keeps-raise e = record { at = λ w h. h }

  pub Keeps-if : (b : Bool) (m n : Io W A) → Keeps P m → Keeps P n → Keeps P (if b then m else n)
  Keeps-if true m n km kn = km
  Keeps-if false m n km kn = kn

module _ {ℓ} {W : Type 0} {P : W → Type ℓ} where
  pub Keeps-unless : (o : Option Error) → Keeps P (unless o)
  Keeps-unless none = record { at = λ w h. h }
  Keeps-unless (some e) = record { at = λ w h. h }

module _ {ℓ} {W A B : Type 0} {P : W → Type ℓ} where
  Keeps-continue :
      (r : Result A) (f : A → Io W B) (w : W)
      → ((a : A) → Keeps P (f a))
      → P w
      → P (continue r f w).1
  Keeps-continue (ok a) f w kf h = (kf a).at w h
  Keeps-continue (err e) f w kf h = h

  pub Keeps-bind :
      (m : Io W A) (f : A → Io W B) → Keeps P m → ((a : A) → Keeps P (f a)) → Keeps P (m >>= f)
  unfolding ◌>>=◌
  Keeps-bind m f km kf = record {
    at = λ w h. let (r, w') = m w in Keeps-continue r f w' kf (km.at w h);
  }

pub ruleset keeps_rules = (Keeps-pure, Keeps-raise, Keeps-if, Keeps-unless, Keeps-bind)

module _ {ℓ} {W A B : Type 0} {P : W → Type ℓ} where
  Keeps-continue_known :
      (r : Result A) (f : A → Io W B) (w : W)
      → ((a : A) → r ≡ ok a → Keeps P (f a))
      → P w
      → P (continue r f w).1
  Keeps-continue_known (ok a) f w kf h = (kf a refl).at w h
  Keeps-continue_known (err e) f w kf h = h

  -- A sequence whose rest may use a property of what its first call returns.
  pub Keeps-bind_known :
      (Q : A → Type 0) (m : Io W A) (f : A → Io W B)
      → Keeps P m
      → ((w : W) (a : A) → (m w).0 ≡ ok a → Q a)
      → ((a : A) → Q a → Keeps P (f a))
      → Keeps P (m >>= f)
  unfolding ◌>>=◌
  Keeps-bind_known Q m f km known kf = record {
    at = λ w h. Keeps-continue_known (m w).0 f (m w).1 (λ a e. kf a (known w a e)) (km.at w h);
  }
