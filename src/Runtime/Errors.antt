-- ===== src/Runtime/Errors.antt =====
-- Errors as the controllers tell them apart, and results.
use netbird_operator.Prelude.{ℕ, Bool, true, false, ◌||◌, ◌==◌, ◌≡◌, ◌⊎◌, inl, inr, refl, Str}

-- What a failed call returns, and the sentinel errors that the source wraps.
pub data Error : Type 0 where
  -- `netbird.APIError` with its `StatusCode`
  api : ℕ → Error
  -- an error of the Kubernetes API, by its status
  kube : ℕ → Error
  -- `errDependencyNotReady`, with the wrapping text
  dependency_not_ready : Str → Error
  -- `ErrZoneNotFound` and `ErrProxyClusterNotFound`
  zone_not_found : Str → Error
  cluster_not_found : Str → Error
  -- any other
  message : Str → Error

-- `errors.Is(err, errDependencyNotReady)`
abbrev pub is_dependency : Error → Bool
is_dependency (dependency_not_ready t) = true
is_dependency _ = false

abbrev pub is_zone_not_found : Error → Bool
is_zone_not_found (zone_not_found t) = true
is_zone_not_found _ = false

abbrev pub is_cluster_not_found : Error → Bool
is_cluster_not_found (cluster_not_found t) = true
is_cluster_not_found _ = false

-- `netbirdutil.IsConflict`: Bad Request, Conflict or Precondition Failed.
unfoldable pub is_conflict : Error → Bool
is_conflict (api status) = status == 400 || status == 409 || status == 412
is_conflict _ = false

pub data Result (A : Type 0) : Type 0 where
  ok : A → Result A
  err : Error → Result A

pub Result-cases :
    {A : Type 0} (r : Result A) → ((a : A) × (r ≡ ok a)) ⊎ ((e : Error) × (r ≡ err e))
Result-cases (ok a) = inl (a, refl)
Result-cases (err e) = inr (e, refl)

abbrev pub is_ok : {A : Type 0} → Result A → Bool
is_ok (ok _) = true
is_ok (err _) = false
