-- ===== src/Gateway/Hostname/Laws.antt =====
-- What the hostname tests decide, in terms of concatenation.
use netbird_operator.Prelude.{
  ◌+◌, ◌<◌, ◌≡◌, ◌↔◌, refl, ap, true, none, some, [], ◌∷◌, ◌++◌, arith, length, length-append, Str,
  bytes, str_eq, str_eq→eq, str_eq_refl, cut_prefix, has_suffix, has_suffix→append,
  append→has_suffix, cut_prefix-append, append→cut_prefix, Bool-cases, Option-cases, inl, inr, ◌⊎◌,
}
use netbird_operator.Gateway.Hostname.{hostname_under_domain, listener_hostname_matches}

-- `k` is the domain, or a name with the domain behind a dot.
abbrev pub IsUnder : Str → Str → Type 0
IsUnder k domain = (k ≡ domain) ⊎ ((r : Str) × (k ≡ r ++ b'.' ∷ domain))

-- `hostnameUnderDomain` decides that the hostname is the domain, or some text, a dot and the domain.
pub hostname_under_domain_iff :
    (k domain : Str) → (hostname_under_domain k domain ≡ true) ↔ IsUnder k domain
unfolding hostname_under_domain
hostname_under_domain_iff k domain = (forth, back)
  where
    forth : hostname_under_domain k domain ≡ true → IsUnder k domain
    forth h = elim (Bool-cases (str_eq k domain)) [
      | inl e ↦ inl (str_eq→eq k domain e)
      | inr e ↦ inr (has_suffix→append k (b'.' ∷ domain) (rw e at h))
    ]

    back : IsUnder k domain → hostname_under_domain k domain ≡ true
    back (inl e) = ground (arith, str_eq_refl domain)
    back (inr (r, e)) = ground (arith, append→has_suffix r (b'.' ∷ domain))

-- A wildcard listener takes one label or more before its suffix.
abbrev FitsWildcard : Str → Str → Type 0
FitsWildcard lh k =
    (suffix r : Str) × (lh ≡ bytes "*." ++ suffix) × (0 < length r) × (k ≡ r ++ b'.' ∷ suffix)

-- How a listener hostname matches a route hostname.
abbrev pub Fits : Str → Str → Type 0
Fits lh k = (lh ≡ []) ⊎ (FitsWildcard lh k ⊎ ((cut_prefix lh (bytes "*.") ≡ none) × (lh ≡ k)))

wildcard_forth :
    (lh suffix k : Str)
    → cut_prefix lh (bytes "*.") ≡ some suffix
    → has_suffix k (b'.' ∷ suffix) ≡ true
    → length suffix + 1 < length k
    → FitsWildcard lh k
wildcard_forth lh suffix k cut ends long =
    let (r, e) = has_suffix→append k (b'.' ∷ suffix) ends in
    (
      suffix,
      r,
      cut_prefix-append lh (bytes "*.") suffix cut,
      omega (arith, ap length e, length-append r (b'.' ∷ suffix)),
      e,
    )

pub listener_hostname_matches→Fits :
    (lh k : Str) → listener_hostname_matches (some lh) k ≡ true → Fits lh k
unfolding listener_hostname_matches
listener_hostname_matches→Fits [] k h = inl refl
listener_hostname_matches→Fits (a ∷ lh) k h =
    elim (Option-cases (cut_prefix (a ∷ lh) (bytes "*."))) [
      | inl e ↦ inr (inr (e, str_eq→eq (a ∷ lh) k (rw e at h)))
      | inr (suffix, e) ↦
          let both = rw e at h in
          inr (inl (wildcard_forth (a ∷ lh) suffix k e (ground arith) (ground arith)))
    ]

Fits→listener_hostname_matches :
    (lh k : Str) → Fits lh k → listener_hostname_matches (some lh) k ≡ true
unfolding listener_hostname_matches
Fits→listener_hostname_matches lh k (inl e) = rw e
Fits→listener_hostname_matches lh k (inr (inl (suffix, r, e, long, f))) =
    rw (e, f, append→cut_prefix (bytes "*.") suffix)
      (ground (arith, append→has_suffix r (b'.' ∷ suffix), length-append r (b'.' ∷ suffix)))
Fits→listener_hostname_matches lh k (inr (inr (e, f))) = rw e (ground (arith, str_eq_refl k))

-- `listenerHostnameMatches` on a hostname that is set: it is empty, or a wildcard whose suffix the
-- route hostname has behind a non-empty text and a dot, or no wildcard and equal to it.
listener_hostname_matches_iff :
    (lh k : Str) → (listener_hostname_matches (some lh) k ≡ true) ↔ Fits lh k
listener_hostname_matches_iff lh k =
    (listener_hostname_matches→Fits lh k, Fits→listener_hostname_matches lh k)
