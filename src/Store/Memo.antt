-- ===== src/Store/Memo.antt =====
-- pkg/core/blobstore/cache.go: the bounded LRU with expiry that fronts signing and attributes.
-- The entries stand in the order of the recency list, most recent first; the index `items` holds
-- the elements of that list, so a look-up by key finds the entry with the key.
pub mod Computed
pub mod Eviction
use open_artifact.Shared.{
  ℕ, zero, suc, ◌+◌, ◌-◌, ◌/◌, Bool, true, false, ◌&&◌, Option, none, some, List, [], ◌∷◌, ◌++◌,
  Bytes, length, Result, ok, err, bytes_eq, ltb, if◌then◌else◌, ◌==◌,
}

pub record Entry (V : Type 0) : Type 0 where
  pub key : Bytes
  pub val : V
  pub expiry : ℕ

pub record Memo (V : Type 0) : Type 0 where
  pub entries : List (Entry V)
  pub cap : ℕ
  pub ttl : ℕ

module _ {V : Type 0} where
  unfoldable pub new_memo : ℕ → ℕ → Memo V
  new_memo capacity ttl = record { entries = []; cap = capacity; ttl = ttl }

  unfoldable pub find : List (Entry V) → Bytes → Option (Entry V)
  find [] k = none
  find (e ∷ es) k = if bytes_eq e.key k then some e else find es k

  -- ll.Remove and delete(items, key)
  unfoldable pub drop : List (Entry V) → Bytes → List (Entry V)
  drop [] k = []
  drop (e ∷ es) k = let rest = drop es k in if bytes_eq e.key k then rest else e ∷ rest

  -- ll.Back
  unfoldable pub drop_last : List (Entry V) → List (Entry V)
  drop_last [] = []
  drop_last (e ∷ []) = []
  drop_last (e ∷ f ∷ es) = e ∷ drop_last (f ∷ es)

  -- what peek does with the entry that the index holds
  unfoldable pub peek_at : ℕ → Bytes → Option (Entry V) → Memo V → Option V × Memo V
  unfolding drop
  peek_at now k none c = (none, c)
  peek_at now k (some e) c =
      if ltb e.expiry now
      then (none, record c { entries = drop c.entries k })
      else (some e.val, record c { entries = e ∷ drop c.entries k })

  -- peek: an expired entry is evicted and missed, a live one moves to the front
  unfoldable pub peek : ℕ → Bytes → Memo V → Option V × Memo V
  unfolding find peek_at
  peek now k c = peek_at now k (find c.entries k) c

  -- The loop that evicts while the list is longer than the capacity, on fuel.
  unfoldable pub evict : ℕ → ℕ → List (Entry V) → List (Entry V)
  unfolding drop_last
  evict zero cap es = es
  evict (suc fuel) cap es =
      let rest = evict fuel cap (drop_last es) in
      if ltb 0 cap && ltb cap (length es) then rest else es

  -- what store does for a key that the index holds, and for a new one
  unfoldable pub store_at : Entry V → Option (Entry V) → Memo V → Memo V
  unfolding drop evict
  store_at entry (some e) c = record c { entries = entry ∷ drop c.entries entry.key }
  store_at entry none c = record c {
    entries = evict (length (entry ∷ c.entries)) c.cap (entry ∷ c.entries);
  }

  unfoldable pub store : ℕ → Bytes → V → Memo V → Memo V
  unfolding find store_at
  store now k v c =
      store_at (record { key = k; val = v; expiry = now + c.ttl }) (find c.entries k) c

abbrev pub minute : ℕ
minute = 60000000000

-- The defaults of a store: 19 minutes and one minute, and the bounds on the entries.
abbrev pub default_url_cache_ttl : ℕ
default_url_cache_ttl = 1140000000000

abbrev pub default_stat_cache_ttl : ℕ
default_stat_cache_ttl = 60000000000

abbrev pub default_url_cache_cap : ℕ
default_url_cache_cap = 4096

abbrev pub default_stat_cache_cap : ℕ
default_stat_cache_cap = 4096

-- clampCacheTTL, in nanoseconds
unfoldable pub clamp_cache_ttl : ℕ → ℕ
clamp_cache_ttl ttl =
    if ltb 0 ttl then ttl - (if ltb minute (ttl / 10) then minute else ttl / 10) else ttl

module _ {V S : Type 0} where
  compute : ℕ → Bytes → (S → Result V × S) → Option V → Memo V → S → Result V × Memo V × S
  unfolding store
  compute now k fn (some v) c s = (ok v, c, s)
  compute now k fn none c s =
      let (r, s') = fn s in elim r [ err e ↦ (err e, c, s') | ok v ↦ (ok v, store now k v c, s') ]

  -- What runs in the flight: a second look, then the computation, whose success alone is kept.
  fly : ℕ → Bytes → (S → Result V × S) → Option V → Memo V → S → Result V × Memo V × S
  unfolding peek compute
  fly now k fn (some v) c s = (ok v, c, s)
  fly now k fn none c s = let (hit, c') = peek now k c in compute now k fn hit c' s

  -- getOrCompute, for a caller that shares its flight with no other
  unfoldable pub get_or_compute :
      ℕ → Bytes → (S → Result V × S) → Memo V → S → Result V × Memo V × S
  unfolding fly
  get_or_compute now k fn c s = let (hit, c') = peek now k c in fly now k fn hit c' s
