-- ===== src/Surface/Http/Tee.antt =====
-- TeeStreamToStore of pkg/surface/http.go: the copy to the client and the fill of the store, as the
-- steps of two goroutines that a pipe joins.
use open_artifact.Shared.{
  ◌≡◌, ◌≢◌, refl, ap, sym, ◌∙◌, Bool, true, false, List, [], ◌∷◌, ◌++◌, append_assoc, append-nil,
  ◌⊎◌, inl, inr, Error,
}

-- What the pipe says to its reader: it is open, it ended, or it ended with an error.
pub data Pipe : Type 0 where
  opened ended : Pipe
  aborted : Error → Pipe

-- The chunks that were not sent to the client yet, those that the client and the store have received, the flag
-- of storeTee, the state of the pipe, the error of the copy, and whether the fill still reads.
pub record Tee (A : Type 0) : Type 0 where
  pub rest : List A
  pub client : List A
  pub filled : List A
  pub failed : Bool
  pub pipe : Pipe
  pub reading : Bool

abbrev pub started : {A : Type 0} → List A → Tee A
started body = record {
  rest = body;
  client = [];
  filled = [];
  failed = false;
  pipe = opened;
  reading = true;
}

-- One step of either goroutine. A chunk is written to the pipe before it is written to the client,
-- and is handed over if the fill still reads; a fill that has stopped makes the write fail, which
-- storeTee remembers and does not report. The copy ends with an error where the body breaks off, or
-- the client takes no more, perhaps after the chunk went to the store.
pub data Step {A : Type 0} : Tee A → Tee A → Type 0 where
  handed :
      {c : A} {t : Tee A} (cs : List A)
      → t.rest ≡ c ∷ cs
      → t.failed ≡ false
      → t.reading ≡ true
      → t.pipe ≡ opened
      → Step t (record t { rest = cs; client = t.client ++ c ∷ []; filled = t.filled ++ c ∷ [] })
  swallowed :
      {c : A} {t : Tee A} (cs : List A)
      → t.rest ≡ c ∷ cs
      → t.reading ≡ false
      → t.pipe ≡ opened
      → Step t (record t { rest = cs; client = t.client ++ c ∷ []; failed = true })
  skipped :
      {c : A} {t : Tee A} (cs : List A)
      → t.rest ≡ c ∷ cs
      → t.failed ≡ true
      → t.pipe ≡ opened
      → Step t (record t { rest = cs; client = t.client ++ c ∷ [] })
  stopped : {t : Tee A} → Step t (record t { reading = false })
  closed : {t : Tee A} → t.rest ≡ [] → t.pipe ≡ opened → Step t (record t { pipe = ended })
  unsent :
      {c : A} {t : Tee A} (cs : List A) (e : Error)
      → t.rest ≡ c ∷ cs
      → t.failed ≡ false
      → t.reading ≡ true
      → t.pipe ≡ opened
      → Step t (record t { filled = t.filled ++ c ∷ []; pipe = aborted e })
  broken : {t : Tee A} (e : Error) → t.pipe ≡ opened → Step t (record t { pipe = aborted e })

pub data Steps {A : Type 0} : Tee A → Tee A → Type 0 where
  here : {t : Tee A} → Steps t t
  next : {t u v : Tee A} → Steps t u → Step u v → Steps t v

module _ {A : Type 0} (body : List A) where
  record IsSound (t : Tee A) : Type 0 where
    -- the client has what was read, in order
    whole : t.client ++ t.rest ≡ body
    -- a fill that no failed write concerns has the same, unless the copy failed
    kept : t.failed ≡ false → (t.filled ≡ t.client) ⊎ ((e : Error) × (t.pipe ≡ aborted e))
    -- a write fails only once the fill has stopped
    late : t.failed ≡ true → t.reading ≡ false
    -- a clean end is the end of the body
    complete : t.pipe ≡ ended → t.rest ≡ []

  started-IsSound : IsSound (started body)
  started-IsSound = record {
    whole = refl;
    kept = λ e. inl refl;
    late = λ e. absurd (cc);
    complete = λ e. absurd (cc);
  }

  moved :
      (client rest cs : List A) (c : A)
      → client ++ rest ≡ body
      → rest ≡ c ∷ cs
      → (client ++ c ∷ []) ++ cs ≡ body
  moved client rest cs c whole e =
      append_assoc client (c ∷ []) cs ∙ ap (λ l. client ++ l) (sym e) ∙ whole

  settled :
      {filled client : List A} {pipe : Pipe}
      → (filled ≡ client) ⊎ ((e : Error) × (pipe ≡ aborted e))
      → pipe ≡ opened
      → filled ≡ client
  settled (inl same) is_open = same
  settled (inr (e, gone)) is_open = absurd (cc)

  Step-IsSound : {t u : Tee A} → Step t u → IsSound t → IsSound u
  Step-IsSound (handed {c = c} {t = t} cs e fine reads is_open) s = record {
    whole = moved t.client t.rest cs c s.whole e;
    kept = λ f. inl (ap (λ l. l ++ c ∷ []) (settled (s.kept f) is_open));
    late = s.late;
    complete = λ p. absurd (cc);
  }
  Step-IsSound (swallowed {c = c} {t = t} cs e idle is_open) s = record {
    whole = moved t.client t.rest cs c s.whole e;
    kept = λ f. absurd (cc);
    late = λ f. idle;
    complete = λ p. absurd (cc);
  }
  Step-IsSound (skipped {c = c} {t = t} cs e lost is_open) s = record {
    whole = moved t.client t.rest cs c s.whole e;
    kept = λ f. absurd (cc);
    late = s.late;
    complete = λ p. absurd (cc);
  }
  Step-IsSound stopped s = record {
    whole = s.whole;
    kept = s.kept;
    late = λ f. refl;
    complete = s.complete;
  }
  Step-IsSound (closed done is_open) s = record {
    whole = s.whole;
    kept = λ f. inl (settled (s.kept f) is_open);
    late = s.late;
    complete = λ p. done;
  }
  Step-IsSound (unsent cs e more fine reads is_open) s = record {
    whole = s.whole;
    kept = λ f. inr (e, refl);
    late = s.late;
    complete = λ p. absurd (cc);
  }
  Step-IsSound (broken e is_open) s = record {
    whole = s.whole;
    kept = λ f. inr (e, refl);
    late = s.late;
    complete = λ p. absurd (cc);
  }

  Steps-IsSound : {t u : Tee A} → Steps t u → IsSound t → IsSound u
  Steps-IsSound here s = s
  Steps-IsSound (next before step) s = Step-IsSound step (Steps-IsSound before s)

  over_filled :
      {filled client : List A} {pipe : Pipe}
      → (filled ≡ client) ⊎ ((e : Error) × (pipe ≡ aborted e))
      → pipe ≡ ended
      → filled ≡ client
  over_filled (inl same) over = same
  over_filled (inr (e, gone)) over = absurd (cc)

  true_ne_false : (b : Bool) → b ≢ true → b ≡ false
  true_ne_false true h = absurd (h refl)
  true_ne_false false h = refl

  -- In every interleaving, a fill that still reads when the pipe has ended without an error has
  -- received the whole body, and the client has received it too.
  pub fill_complete :
      (t : Tee A)
      → Steps (started body) t
      → t.reading ≡ true
      → t.pipe ≡ ended
      → (t.filled ≡ body) × (t.client ≡ body)
  fill_complete t steps reads over =
      let s = Steps-IsSound steps started-IsSound in
      let client : t.client ≡ body =
        sym (append-nil t.client) ∙ ap (λ l. t.client ++ l) (sym (s.complete over)) ∙ s.whole in
      let fine = true_ne_false t.failed (λ lost. absurd (cc (reads, s.late lost))) in
      (over_filled (s.kept fine) over ∙ client, client)
