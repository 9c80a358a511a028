-- ===== src/Tests/TeeTests.antt =====
-- A run of the copy that fills the store.
use open_artifact.Shared.{ℕ, ◌≡◌, refl, [], ◌∷◌}
use open_artifact.Surface.Http.Tee.{
  Tee, started, ended, Steps, here, next, handed, closed, fill_complete,
}

-- One chunk that is handed to the store, then the end of the body.
abbrev after_chunk : Tee ℕ
after_chunk = record (started (7 ∷ [])) { rest = []; client = 7 ∷ []; filled = 7 ∷ [] }

abbrev after_end : Tee ℕ
after_end = record after_chunk { pipe = ended }

chunk_run : Steps (started (7 ∷ [])) after_end
chunk_run = next (next here (handed [] refl refl refl refl)) (closed refl refl)

fill_complete_example : (after_end.filled ≡ 7 ∷ []) × (after_end.client ≡ 7 ∷ [])
fill_complete_example = fill_complete (7 ∷ []) after_end chunk_run refl refl
