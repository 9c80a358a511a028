-- ===== src/Store/Memo/Eviction.antt =====
-- The loop of memoCache.store in pkg/core/blobstore/cache.go that evicts entries.
use open_artifact.Shared.{
  ℕ, zero, suc, ◌≤◌, ◌≡◌, refl, ap, sym, ◌∙◌, arith, true, false, ◌&&◌, List, [], ◌∷◌, length, ltb,
  ◌==◌, take, if◌then◌else◌, Bool-cases, inl, inr,
}
use open_artifact.Store.Memo.{Entry, drop_last, evict}

module _ {V : Type 0} where
  length-drop_last : (e : Entry V) (es : List (Entry V)) → length (drop_last (e ∷ es)) ≡ length es
  unfolding drop_last
  length-drop_last e [] = refl
  length-drop_last e (f ∷ es) = ground (arith, length-drop_last f es)

  take_all : (n : ℕ) (es : List (Entry V)) → length es ≤ n → take n es ≡ es
  take_all zero [] h = refl
  take_all zero (e ∷ es) h = absurd (omega arith)
  take_all (suc n) [] h = refl
  take_all (suc n) (e ∷ es) h = ap (λ l. e ∷ l) (take_all n es (omega (arith, h)))

  take-drop_last :
      (n : ℕ) (e : Entry V) (es : List (Entry V))
      → n ≤ length es
      → take n (drop_last (e ∷ es)) ≡ take n (e ∷ es)
  unfolding drop_last
  take-drop_last zero e es h = refl
  take-drop_last (suc n) e [] h = absurd (omega (arith, h))
  take-drop_last (suc n) e (f ∷ es) h = ap (λ l. e ∷ l) (take-drop_last n f es (omega (arith, h)))

  evict_step :
      (fuel n : ℕ) (e : Entry V) (es : List (Entry V))
      → ((ltb 0 (suc n) && ltb (suc n) (length (e ∷ es))) ≡ true)
      → evict fuel (suc n) (drop_last (e ∷ es)) ≡ take (suc n) (drop_last (e ∷ es))
      → evict (suc fuel) (suc n) (e ∷ es) ≡ take (suc n) (e ∷ es)
  unfolding evict
  evict_step fuel n e es over rest =
      rw (over) (rest ∙ take-drop_last (suc n) e es (ground (arith, over)))

  evict_takes :
      (fuel n : ℕ) (es : List (Entry V))
      → length es ≤ fuel
      → evict fuel (suc n) es ≡ take (suc n) es
  unfolding evict
  evict_takes zero n [] h = refl
  evict_takes zero n (e ∷ es) h = absurd (omega arith)
  evict_takes (suc fuel) n [] h = ground arith
  evict_takes (suc fuel) n (e ∷ es) h =
      elim (Bool-cases (ltb 0 (suc n) && ltb (suc n) (length (e ∷ es)))) [
        | inl over ↦
            evict_step fuel n e es over
              (evict_takes fuel n (drop_last (e ∷ es)) (omega (arith, length-drop_last e es, h)))
        | inr fits ↦ rw (fits) (sym (take_all (suc n) (e ∷ es) (ground (arith, fits))))
      ]

  evict_unbounded : (fuel : ℕ) (es : List (Entry V)) → evict fuel 0 es ≡ es
  unfolding evict
  evict_unbounded zero es = refl
  evict_unbounded (suc fuel) es = refl

  -- The loop ends: with any fuel that is at least the number of entries it has the same result, the
  -- newest entries, as many as the capacity allows, or all of them where the capacity is zero.
  pub evict_ends :
      (fuel cap : ℕ) (es : List (Entry V))
      → length es ≤ fuel
      → evict fuel cap es ≡ (if cap == 0 then es else take cap es)
  evict_ends fuel zero es h = evict_unbounded fuel es
  evict_ends fuel (suc n) es h =
      let bounded : (suc n == 0) ≡ false = ground arith in rw (bounded) (evict_takes fuel n es h)
