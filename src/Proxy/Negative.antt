-- ===== src/Proxy/Negative.antt =====
-- pkg/proxy/negcache/negcache.go: recent upstream 404s, in memory and by time.
pub mod Expiry
use open_artifact.Shared.{
  ℕ, ◌+◌, Bool, true, false, Option, none, some, List, [], ◌∷◌, ◌++◌, Bytes, ltb, if◌then◌else◌,
  ◌==◌,
}
use open_artifact.Shared.Maps.{Dict, get, put, remove}

-- The entries map a key to its expiry.
pub record Cache : Type 0 where
  pub entries : Dict ℕ
  pub ttl : ℕ

-- 30 seconds, in nanoseconds
abbrev pub default_ttl : ℕ
default_ttl = 30000000000

-- New; a TTL that is not positive is given as zero.
unfoldable pub new_cache : ℕ → Cache
new_cache ttl = record { entries = []; ttl = if ttl == 0 then default_ttl else ttl }

-- The parts, joined by a zero byte.
unfoldable pub cache_key : Bytes → Bytes → Bytes → Bytes
cache_key ns format key = ns ++ (0 ∷ []) ++ format ++ (0 ∷ []) ++ key

unfoldable pub mark : ℕ → Bytes → Bytes → Bytes → Cache → Cache
mark now ns format key c = record c {
  entries = put c.entries (cache_key ns format key) (now + c.ttl);
}

-- what Has does with the entry that it found
unfoldable pub answer : ℕ → Bytes → Option ℕ → Cache → Bool × Cache
answer now key none c = (false, c)
answer now key (some expiry) c =
    if ltb now expiry then (true, c) else (false, record c { entries = remove c.entries key })

-- Has: an expired entry is dropped and reported as absent
unfoldable pub has : ℕ → Bytes → Bytes → Bytes → Cache → Bool × Cache
unfolding answer
has now ns format key c =
    answer now (cache_key ns format key) (get c.entries (cache_key ns format key)) c

-- Delete
unfoldable pub forget : Bytes → Bytes → Bytes → Cache → Cache
forget ns format key c = record c { entries = remove c.entries (cache_key ns format key) }
