-- ===== src/Proxy/Negative/Expiry.antt =====
-- Mark and Has of pkg/proxy/negcache/negcache.go.
use open_artifact.Shared.{ℕ, ◌+◌, ◌≡◌, refl, arith, false, Option, none, some, Bytes, ltb}
use open_artifact.Shared.Strings.Laws.{bytes_eq_refl}
use open_artifact.Shared.Maps.{get-put}
use open_artifact.Proxy.Negative.{Cache, cache_key, mark, answer, has}

answer-eq_test :
    (now : ℕ) (key : Bytes) (o : Option ℕ) (c : Cache)
    → (answer now key o c).0 ≡ elim o [ none ↦ false | some expiry ↦ ltb now expiry ]
unfolding answer
answer-eq_test now key none c = refl
answer-eq_test now key (some expiry) c = ground arith

-- Has answers for a triple that was marked exactly until the TTL after the mark.
pub has-mark :
    (now later : ℕ) (ns f k : Bytes) (c : Cache)
    → (has later ns f k (mark now ns f k c)).0 ≡ ltb later (now + c.ttl)
unfolding has mark
has-mark now later ns f k c =
    rw
      (
        answer-eq_test later,
        get-put c.entries (cache_key ns f k) (cache_key ns f k) (now + c.ttl),
        bytes_eq_refl (cache_key ns f k),
      )
      refl
