-- ===== src/Cache/Laws.antt =====
-- The age of a cached list, and the hits and misses of a lookup (internal/netbirdutil/cache.go).
use netbird_operator.Prelude.{
  ℕ, ◌+◌, ◌≡◌, refl, Bool, true, false, none, some, List, [], ◌∷◌, ltb, if◌then◌else◌, find, any,
  arith, Option-cases, inl, inr, Bool-cases, ◌&&◌,
}
use netbird_operator.Runtime.{Result, Result-cases}
use netbird_operator.Cache.{
  ListCache, Fetch, list_cache_ttl, fetch_locked, list, refresh, lookup, after_list, after_refresh,
}

-- What `slices.IndexFunc` finds.
find-some : {A : Type 0} (p : A → Bool) (xs : List A) (x : A) → find p xs ≡ some x → p x ≡ true
find-some p [] x h = cc
find-some p (y ∷ ys) x h = ground (arith, find-some p ys x)

find-none : {A : Type 0} (p : A → Bool) (xs : List A) → find p xs ≡ none → any p xs ≡ false
find-none p [] h = refl
find-none p (y ∷ ys) h = ground (arith, find-none p ys)

module _ {A W : Type 0} (fetch : Fetch A W) where
  -- After a list is fetched at `now`, every list before `now` plus the time to live returns the
  -- same items without a call to the API, and a later one fetches again.
  list_reuses :
      (c : ListCache A) (now later : ℕ) (items : List A) (w w' v : W)
      → fetch w ≡ (Result.ok items, w')
      → let c' = (refresh c now fetch w).1 in
        list c' later fetch v ≡ (
          if ltb later (now + list_cache_ttl)
          then (Result.ok items, c', v)
          else refresh c' later fetch v)
  unfolding refresh list fetch_locked
  list_reuses c now later items w w' v h = rw h (ground arith)

  -- The list returned is the list that the cache then holds.
  list_holds :
      (c : ListCache A) (now : ℕ) (w : W) (items : List A)
      → (list c now fetch w).0 ≡ Result.ok items
      → (list c now fetch w).1.items ≡ items
  unfolding list fetch_locked
  list_holds c now w items h = ground arith

  refresh_holds :
      (c : ListCache A) (now : ℕ) (w : W) (items : List A)
      → (refresh c now fetch w).0 ≡ Result.ok items
      → (refresh c now fetch w).1.items ≡ items
  unfolding refresh fetch_locked
  refresh_holds c now w items h = ground arith

  after_refresh_found :
      (match : A → Bool) (t : Result (List A) × ListCache A × W) (x : A)
      → ((items : List A) → t.0 ≡ Result.ok items → t.1.items ≡ items)
      → (after_refresh match t).0 ≡ Result.ok (some x)
      → find match (after_refresh match t).1.items ≡ some x
  after_refresh_found match (Result.err e, c, w) x holds h = cc
  after_refresh_found match (Result.ok items, c, w) x holds h = ground (arith, holds items refl)

  after_list_found :
      (now : ℕ) (match : A → Bool) (t : Result (List A) × ListCache A × W) (x : A)
      → ((items : List A) → t.0 ≡ Result.ok items → t.1.items ≡ items)
      → (after_list now fetch match t).0 ≡ Result.ok (some x)
      → find match (after_list now fetch match t).1.items ≡ some x
  after_list_found now match (Result.err e, c, w) x holds h = cc
  after_list_found now match (Result.ok items, c, w) x holds h =
      elim (Option-cases (find match items)) [
        | inl e ↦
            rw (e, after_list)
              (after_refresh_found match (refresh c now fetch w) x (refresh_holds c now w)
                (rw (e, after_list) at h))
        | inr (y, e) ↦ ground (arith, holds items refl)
      ]

  -- A lookup returns the first match among the items that the cache then holds.
  lookup_found :
      (c : ListCache A) (now : ℕ) (match : A → Bool) (w : W) (x : A)
      → (lookup c now fetch match w).0 ≡ Result.ok (some x)
      → (match x ≡ true) × (find match (lookup c now fetch match w).1.items ≡ some x)
  unfolding lookup
  lookup_found c now match w x h =
      let found = after_list_found now match (list c now fetch w) x (list_holds c now w) h in
      (find-some match _ x found, found)

  -- A fetch, from some state, that returned a list without a match and ended in `end`.
  abbrev pub Missed : (A → Bool) → W → Type 0
  Missed match end =
      (v : W) × (items : List A) × (fetch v ≡ (Result.ok items, end)) × (any match items ≡ false)

  refresh-Missed :
      (c : ListCache A) (now : ℕ) (match : A → Bool) (w : W)
      → (after_refresh match (refresh c now fetch w)).0 ≡ Result.ok none
      → Missed match (after_refresh match (refresh c now fetch w)).2
  unfolding refresh fetch_locked
  refresh-Missed c now match w h = elim (Result-cases (fetch w).0) [
    | inl (items, e) ↦ (w, items, ground arith, find-none match items (ground arith))
    | inr (x, e) ↦ absurd (ground arith)
  ]

  after_list-Missed :
      (c : ListCache A) (now : ℕ) (match : A → Bool) (t : Result (List A) × ListCache A × W)
      → (after_list now fetch match t).0 ≡ Result.ok none
      → Missed match (after_list now fetch match t).2
  after_list-Missed c now match (Result.err e, d, w) h = cc
  after_list-Missed c now match (Result.ok items, d, w) h = elim (Option-cases (find match items)) [
    | inl e ↦ rw (e, after_list) (refresh-Missed d now match w (rw (e, after_list) at h))
    | inr (y, e) ↦ absurd (ground arith)
  ]

  -- A lookup reports a miss only right after a fetch that returned a list without a match.
  pub lookup-Missed :
      (c : ListCache A) (now : ℕ) (match : A → Bool) (w : W)
      → (lookup c now fetch match w).0 ≡ Result.ok none
      → Missed match (lookup c now fetch match w).2
  unfolding lookup
  lookup-Missed c now match w h = after_list-Missed c now match (list c now fetch w) h

  after_list_keeps :
      (P : W → Type 0)
      → ((v : W) → P v → P (fetch v).1)
      → (now : ℕ) (match : A → Bool) (t : Result (List A) × ListCache A × W) → P t.2
      → P (after_list now fetch match t).2
  unfolding refresh fetch_locked
  after_list_keeps P kept now match (Result.err e, d, w) p = p
  after_list_keeps P kept now match (Result.ok items, d, w) p =
      elim (Option-cases (find match items)) [
        | inl e ↦ elim (Result-cases (fetch w).0) [
          | inl (new, f) ↦ rw (e, after_list, f) (kept w p)
          | inr (x, f) ↦ rw (e, after_list, f) (kept w p)
        ]
        | inr (y, e) ↦ rw (e, after_list) p
      ]

  -- What a fetch keeps true of the world, a lookup keeps true.
  pub lookup_keeps :
      (P : W → Type 0)
      → ((v : W) → P v → P (fetch v).1)
      → (c : ListCache A) (now : ℕ) (match : A → Bool) (w : W) → P w
      → P (lookup c now fetch match w).2
  unfolding lookup list fetch_locked
  lookup_keeps P kept c now match w p = elim (Bool-cases (c.ok && ltb now c.expires)) [
    | inl hit ↦ rw hit (after_list_keeps P kept now match (Result.ok c.items, c, w) p)
    | inr old ↦ rw old (after_list_keeps P kept now match (fetch_locked c now fetch w) (kept w p))
  ]
