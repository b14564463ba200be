-- ===== src/Gateway/Backends/Refs.antt =====
-- One rule's backendRefs against a description without the loop.
use netbird_operator.Prelude.Int.{ℤ, pos, negsuc, int_eq, int_eq→eq, nonneg}
use netbird_operator.Prelude.{
  ℕ, ◌+◌, ◌≡◌, refl, Bool, true, false, not, ◌&&◌, List, [], ◌∷◌, ◌++◌, map, append_assoc,
  append-nil, ltb, arith, if◌then◌else◌, all, keep, length, Str,
}
use netbird_operator.Gateway.Types.{ProxyBackend, BackendRef}
use netbird_operator.Gateway.Backends.{Checked, ok, unsupported, weight_of, backend, refs_loop}

int_eq_refl : (a : ℤ) → int_eq a a ≡ true
unfolding int_eq
int_eq_refl (pos a) = ground arith
int_eq_refl (negsuc a) = ground arith

-- A backendRef of weight 0 takes no traffic.
abbrev is_active : BackendRef → Bool
is_active br = not (int_eq (weight_of br) (pos 0))

abbrev pub active : List BackendRef → List BackendRef
active brs = keep is_active brs

-- The backends of a rule: each active backendRef at each path, in order.
abbrev pub expected_refs : List BackendRef → List Str → List ProxyBackend
expected_refs [] paths = []
expected_refs (br ∷ brs) paths =
    if is_active br
    then map (backend br) paths ++ expected_refs brs paths
    else expected_refs brs paths

abbrev pub unfiltered : BackendRef → Bool
unfiltered br = not (ltb 0 br.filters)

abbrev has_weight : ℤ → BackendRef → Bool
has_weight w br = int_eq (weight_of br) w

-- All active backendRefs have one weight.
abbrev pub same_weight : List BackendRef → Bool
same_weight [] = true
same_weight (br ∷ brs) = all (has_weight (weight_of br)) brs

-- The active backendRefs agree with the loop's `weight`, if that is set.
abbrev agree : ℤ → List BackendRef → Bool
agree (pos w) brs = all (has_weight (pos w)) brs
agree (negsuc w) brs = same_weight brs

-- The Gateway API bounds a weight to 0 and above.
abbrev pub nonneg_weight : BackendRef → Bool
nonneg_weight br = nonneg (weight_of br)

abbrev pub is_ok : {A : Type 0} → Checked A → Bool
is_ok (ok a) = true
is_ok (unsupported reason) = false

-- What the loop yields if it yields anything.
pub refs_loop_value :
    (brs : List BackendRef) (paths : List Str) (w : ℤ) (out r : List ProxyBackend) (n m : ℕ)
    → refs_loop brs paths w out n ≡ ok (r, m)
    → (r ≡ out ++ expected_refs brs paths) × (m ≡ n + length (active brs))
unfolding refs_loop
refs_loop_value [] paths w out r n m h = ground (arith, append-nil out)
refs_loop_value (br ∷ brs) paths w out r n m h = ground (
  arith,
  refs_loop_value brs paths w out r n m,
  refs_loop_value brs paths (weight_of br) (out ++ map (backend br) paths) r (n + 1) m,
  append_assoc out (map (backend br) paths) (expected_refs brs paths),
)

agree_weight :
    (w : ℤ) (brs : List BackendRef) → nonneg w ≡ true → agree w brs ≡ all (has_weight w) brs
agree_weight (pos n) brs h = refl
agree_weight (negsuc n) brs h = cc

pub refs_loop_ok :
    (brs : List BackendRef) (paths : List Str) (w : ℤ) (out : List ProxyBackend) (n : ℕ)
    → all nonneg_weight brs ≡ true
    → is_ok (refs_loop brs paths w out n) ≡ (all unfiltered brs && agree w (active brs))
unfolding refs_loop
refs_loop_ok [] paths (pos w) out n h = refl
refs_loop_ok [] paths (negsuc w) out n h = refl
refs_loop_ok (br ∷ brs) paths w out n h = ground (
  arith,
  refs_loop_ok brs paths w out n,
  refs_loop_ok brs paths (weight_of br) (out ++ map (backend br) paths) (n + 1),
  agree_weight (weight_of br) (active brs),
  agree_weight w (active (br ∷ brs)),
  int_eq→eq (weight_of br) w,
)
