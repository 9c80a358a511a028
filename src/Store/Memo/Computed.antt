-- ===== src/Store/Memo/Computed.antt =====
-- getOrCompute of pkg/core/blobstore/cache.go: the state that the computation reads.
use open_artifact.Shared.{ℕ, ◌≡◌, refl, ◌⊎◌, inl, inr, arith, Option, none, some, Bytes, Result}
use open_artifact.Store.Memo.{Memo, peek, get_or_compute, fly, compute}

module _ {V S : Type 0} (now : ℕ) (k : Bytes) (fn : S → Result V × S) where
  compute_cases :
      (o : Option V) (c : Memo V) (s : S)
      → ((compute now k fn o c s).2 ≡ s) ⊎ ((compute now k fn o c s).2 ≡ (fn s).1)
  unfolding compute
  compute_cases (some v) c s = inl refl
  compute_cases none c s = inr (ground arith)

  fly_cases :
      (o : Option V) (c : Memo V) (s : S)
      → ((fly now k fn o c s).2 ≡ s) ⊎ ((fly now k fn o c s).2 ≡ (fn s).1)
  unfolding fly
  fly_cases (some v) c s = inl refl
  fly_cases none c s = compute_cases (peek now k c).0 (peek now k c).1 s

  pub get_or_compute_cases :
      (c : Memo V) (s : S)
      → ((get_or_compute now k fn c s).2 ≡ s) ⊎ ((get_or_compute now k fn c s).2 ≡ (fn s).1)
  unfolding get_or_compute
  get_or_compute_cases c s = fly_cases (peek now k c).0 (peek now k c).1 s
