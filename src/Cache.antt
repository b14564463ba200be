-- ===== src/Cache.antt =====
-- internal/netbirdutil/cache.go: a list fetched from the NetBird API, reused for a short time.
pub mod Laws
use netbird_operator.Prelude.{
  ℕ, ◌+◌, Bool, true, false, ◌&&◌, Option, none, some, List, [], ◌∷◌, ltb, if◌then◌else◌, find,
}
use netbird_operator.Runtime.{Error, Result, ok, err}

-- `listCacheTTL`, in nanoseconds
abbrev pub list_cache_ttl : ℕ
list_cache_ttl = 30000000000

-- `listCache`; the mutex makes its methods atomic.
pub record ListCache (A : Type 0) : Type 0 where
  pub items : List A
  pub ok : Bool
  pub expires : ℕ

-- A cache that was never filled.
abbrev pub empty : {A : Type 0} → ListCache A
empty = record { items = []; ok = false; expires = 0 }

-- A call to the API, on the state that the world around the cache is in.
abbrev pub Fetch : Type 0 → Type 0 → Type 0
Fetch A W = W → Result (List A) × W

-- What a fetch leaves in the cache: a failed one leaves it as it was.
abbrev store : {A : Type 0} → Result (List A) → ListCache A → ℕ → Result (List A) × ListCache A
store (Result.err e) c now = (Result.err e, c)
store (Result.ok items) c now =
    (Result.ok items, record { items = items; ok = true; expires = now + list_cache_ttl })

module _ {A W : Type 0} where
  -- `fetchLocked`
  unfoldable pub fetch_locked : ListCache A → ℕ → Fetch A W → W → Result (List A) × ListCache A × W
  fetch_locked c now fetch w = let (r, w') = fetch w in let (s, c') = store r c now in (s, c', w')

  -- `list`
  unfoldable pub list : ListCache A → ℕ → Fetch A W → W → Result (List A) × ListCache A × W
  list c now fetch w =
      if c.ok && ltb now c.expires then (Result.ok c.items, c, w) else fetch_locked c now fetch w

  -- `refresh`
  unfoldable pub refresh : ListCache A → ℕ → Fetch A W → W → Result (List A) × ListCache A × W
  refresh c now fetch w = fetch_locked c now fetch w

  abbrev pub after_refresh :
      (A → Bool) → Result (List A) × ListCache A × W → Result (Option A) × ListCache A × W
  after_refresh match (Result.err e, c, w) = (Result.err e, c, w)
  after_refresh match (Result.ok items, c, w) = (Result.ok (find match items), c, w)

  abbrev pub after_list :
      ℕ
      → Fetch A W
      → (A → Bool)
      → Result (List A) × ListCache A × W
      → Result (Option A) × ListCache A × W
  after_list now fetch match (Result.err e, c, w) = (Result.err e, c, w)
  after_list now fetch match (Result.ok items, c, w) = elim (find match items) [
    | some x ↦ (Result.ok (some x), c, w)
    | none ↦ after_refresh match (refresh c now fetch w)
  ]

  -- `lookup`; no item found and no error is `none`.
  unfoldable pub lookup :
      ListCache A → ℕ → Fetch A W → (A → Bool) → W → Result (Option A) × ListCache A × W
  lookup c now fetch match w = after_list now fetch match (list c now fetch w)
