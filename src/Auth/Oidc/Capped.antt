-- ===== src/Auth/Oidc/Capped.antt =====
-- cappedBody of pkg/auth/oidc/oidc.go: reads of a body up to a limit.
use open_artifact.Shared.{
  ℕ, ◌+◌, ◌-◌, ◌≤◌, arith, Option, some, List, [], ◌∷◌, Bytes, length, ltb, if◌then◌else◌, ◌==◌,
  Error, response_too_long, inl, inr, Bool-cases,
}

-- What a Read returns, and the reader after it.
abbrev pub Reading : Type 0 → Type 0
Reading S = (Bytes × Option Error) × S

-- cappedBody
pub record CappedBody (S : Type 0) : Type 0 where
  pub rc : S
  pub remaining : ℕ

module _ {S : Type 0} (read_inner : ℕ → S → Reading S) where
  -- the Read of the inner body, into a buffer of length `n`
  unfoldable pub read_through : ℕ → CappedBody S → Reading (CappedBody S)
  read_through n c =
      let (out, rc) = read_inner n c.rc in
      (out, record { rc = rc; remaining = c.remaining - length out.0 })

  -- Read, into a buffer of length `n`
  unfoldable pub read : ℕ → CappedBody S → Reading (CappedBody S)
  unfolding read_through
  read n c =
      if c.remaining == 0
      then (([], some response_too_long), c)
      else read_through (if ltb c.remaining n then c.remaining else n) c

  -- the bytes of a sequence of reads, each with the length of its buffer
  unfoldable pub reads : List ℕ → CappedBody S → ℕ
  unfolding read
  reads [] c = 0
  reads (n ∷ ns) c = let (out, c') = read n c in length out.0 + reads ns c'

  read_through-Fits :
      ((n : ℕ) (s : S) → length (read_inner n s).0.0 ≤ n)
      → (n : ℕ) (c : CappedBody S) → n ≤ c.remaining
      → length (read_through n c).0.0 + (read_through n c).1.remaining ≤ c.remaining
  unfolding read_through
  read_through-Fits fits n c h = ground (arith, fits n c.rc)

  read-Fits :
      ((n : ℕ) (s : S) → length (read_inner n s).0.0 ≤ n)
      → (n : ℕ) (c : CappedBody S) → length (read n c).0.0 + (read n c).1.remaining ≤ c.remaining
  unfolding read
  read-Fits fits n c = elim (Bool-cases (c.remaining == 0)) [
    | inl spent ↦ rw (spent) (ground arith)
    | inr left ↦
        rw (left)
          (read_through-Fits fits (if ltb c.remaining n then c.remaining else n) c (ground arith))
  ]

  -- However a body is read, and whatever the inner reader returns within its buffers, no more bytes
  -- are returned than the limit that was left.
  pub reads_capped :
      ((n : ℕ) (s : S) → length (read_inner n s).0.0 ≤ n)
      → (ns : List ℕ) (c : CappedBody S) → reads ns c ≤ c.remaining
  unfolding reads
  reads_capped fits [] c = ground arith
  reads_capped fits (n ∷ ns) c =
      let here = read-Fits fits n c in let after = reads_capped fits ns (read n c).1 in ground arith
