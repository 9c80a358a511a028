-- ===== src/Tests/SpecText.antt =====
-- A text form of specs with one reader and one writer, which is read back from its encoding.
use open_artifact.Shared.{ℕ, ◌≡◌, refl, ap, sym, ◌∙◌, Option, none, some, List, [], ◌∷◌, Bytes}
use open_artifact.Shared.Maps.{Dict}
use mathlib.Core.Option.{some-injective}
use open_artifact.Core.{Json}
use open_artifact.Proxy.Filter
use open_artifact.Namespace.{Spec, SubjectMatcher, Policy}

-- A subject that is named by its email.
abbrev by_email : Bytes → SubjectMatcher
by_email email = record { issuer = []; sub_match = []; email = email; claims_match = []; kind = [] }

abbrev pub shared_spec : ℕ → Bytes → Bytes → Spec
shared_spec version reader writer = record {
  schema_version = version;
  mode = [];
  policy = record { readers = by_email reader ∷ []; writers = by_email writer ∷ [] };
  proxy = record { upstream = []; filters = [] };
  format = [];
}

abbrev email_of : Bytes → Bytes → Bytes → Dict Bytes → Bytes → Option Bytes
email_of [] [] email [] [] = some email
email_of _ _ _ _ _ = none

abbrev coded : ℕ → Option Bytes → Option Bytes → Option Bytes
coded version (some (c ∷ [])) (some writer) = some (version ∷ c ∷ writer)
coded version _ _ = none

abbrev matcher_email : SubjectMatcher → Option Bytes
matcher_email m = email_of m.issuer m.sub_match m.email m.claims_match m.kind

abbrev form :
    ℕ
    → Bytes
    → List SubjectMatcher
    → List SubjectMatcher
    → Bytes
    → List Filter.Spec
    → Dict Json
    → Option Bytes
form version [] (r ∷ []) (w ∷ []) [] [] [] = coded version (matcher_email r) (matcher_email w)
form _ _ _ _ _ _ _ = none

abbrev pub encode_spec : Spec → Option Bytes
encode_spec s =
    form s.schema_version s.mode s.policy.readers s.policy.writers s.proxy.upstream s.proxy.filters
      s.format

abbrev pub decode_spec : Bytes → Option Spec
decode_spec (version ∷ c ∷ writer) = some (shared_spec version (c ∷ []) writer)
decode_spec _ = none

matcher_of :
    (i s email : Bytes) (c : Dict Bytes) (k : Bytes) {e : Bytes}
    → email_of i s email c k ≡ some e
    → record { issuer = i; sub_match = s; email = email; claims_match = c; kind = k } ≡ by_email e
matcher_of [] [] email [] [] h = ap by_email (some-injective _ _ h)
matcher_of (x ∷ i) s email c k h = absurd (cc)
matcher_of [] (x ∷ s) email c k h = absurd (cc)
matcher_of [] [] email (x ∷ c) k h = absurd (cc)
matcher_of [] [] email [] (x ∷ k) h = absurd (cc)

coded_of :
    (version : ℕ) (r w : Option Bytes) {body : Bytes}
    → coded version r w ≡ some body
    → (c : ℕ) × (writer : Bytes) × (r ≡ some (c ∷ []))
      × (w ≡ some writer)
      × (version ∷ c ∷ writer ≡ body)
coded_of version (some (c ∷ [])) (some writer) h = (c, writer, refl, refl, some-injective _ _ h)
coded_of version none w h = absurd (cc)
coded_of version (some []) w h = absurd (cc)
coded_of version (some (c ∷ [])) none h = absurd (cc)
coded_of version (some (c ∷ d ∷ e)) w h = absurd (cc)

form_of :
    (version : ℕ) (mode : Bytes) (readers writers : List SubjectMatcher) (upstream : Bytes)
    (filters : List Filter.Spec) (format : Dict Json) {body : Bytes}
    → form version mode readers writers upstream filters format ≡ some body
    → decode_spec body
      ≡ some (record {
        schema_version = version;
        mode = mode;
        policy = record { readers = readers; writers = writers };
        proxy = record { upstream = upstream; filters = filters };
        format = format;
      })
form_of version [] (r ∷ []) (w ∷ []) [] [] [] h =
    let (c, writer, reads, writes, same) = coded_of version (matcher_email r) (matcher_email w) h in
    let reader = matcher_of r.issuer r.sub_match r.email r.claims_match r.kind reads in
    let other = matcher_of w.issuer w.sub_match w.email w.claims_match w.kind writes in
    ap decode_spec (sym same)
    ∙ ap
        (λ (p : Policy). some (record {
          schema_version = version;
          mode = [];
          policy = p;
          proxy = record { upstream = []; filters = [] };
          format = [];
        }))
        (cc)
form_of version (x ∷ m) r w u f j h = absurd (cc)
form_of version [] [] w u f j h = absurd (cc)
form_of version [] (r ∷ []) [] u f j h = absurd (cc)
form_of version [] (r ∷ []) (w ∷ []) (x ∷ u) f j h = absurd (cc)
form_of version [] (r ∷ []) (w ∷ []) [] (x ∷ f) j h = absurd (cc)
form_of version [] (r ∷ []) (w ∷ []) [] [] (x ∷ j) h = absurd (cc)
form_of version [] (r ∷ []) (w ∷ w' ∷ ws) u f j h = absurd (cc)
form_of version [] (r ∷ r' ∷ rs) w u f j h = absurd (cc)

pub decodes : (s : Spec) (body : Bytes) → encode_spec s ≡ some body → decode_spec body ≡ some s
decodes s body h =
    form_of s.schema_version s.mode s.policy.readers s.policy.writers s.proxy.upstream
      s.proxy.filters s.format h
