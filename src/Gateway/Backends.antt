-- ===== src/Gateway/Backends.antt =====
-- An HTTPRoute's rules mapped onto ReverseProxyService backends (gateway_controller.go).
pub mod Paths
pub mod Refs
pub mod Laws
use netbird_operator.Prelude.Int.{ℤ, pos, negsuc, int_eq, nonneg}
use netbird_operator.Prelude.{
  ℕ, zero, suc, ◌+◌, Bool, true, false, not, ◌&&◌, Option, none, some, List, [], ◌∷◌, ◌++◌, map,
  ltb, ◌==◌, if◌then◌else◌, length, Str, bytes, get_or, is_empty,
}
use netbird_operator.Gateway.Types.{
  ProxyBackend, PathType, PathMatch, RouteMatch, BackendRef, Rule, Route,
}
use netbird_operator.Gateway.Collect.{mem}

-- Why a route is rejected; each constructor stands for one message of the source.
pub data Unsupported : Type 0 where
  rule_filters path_type backend_filters weights no_traffic no_rules too_many : Unsupported

pub data Checked (A : Type 0) : Type 0 where
  ok : A → Checked A
  unsupported : Unsupported → Checked A

-- `maxProxyBackends`
abbrev pub max_proxy_backends : ℕ
max_proxy_backends = 64

abbrev type_unsupported : Option PathType → Bool
type_unsupported none = false
type_unsupported (some PathType.prefix) = false
type_unsupported (some _) = true

abbrev path_unsupported : Option PathMatch → Bool
path_unsupported none = false
path_unsupported (some p) = type_unsupported p.type

-- The match uses an Exact or RegularExpression path.
abbrev pub match_unsupported : RouteMatch → Bool
match_unsupported m = path_unsupported m.path

abbrev path_value : Option PathMatch → Str
path_value none = bytes "/"
path_value (some p) = get_or p.value (bytes "/")

-- The prefix that a match contributes.
abbrev pub match_path : RouteMatch → Str
match_path m = path_value m.path

-- The loop of `rulePaths`.
unfoldable pub paths_loop : List RouteMatch → List Str → List Str → Option (List Str)
paths_loop [] seen paths = some paths
paths_loop (m ∷ ms) seen paths =
    let p = match_path m in
    let new = not (mem p seen) in
    let rest =
      paths_loop ms (if new then p ∷ seen else seen) (if new then paths ++ p ∷ [] else paths) in
    if match_unsupported m then none else rest

abbrev or_root : Option (List Str) → Option (List Str)
or_root none = none
or_root (some []) = some (bytes "/" ∷ [])
or_root (some (p ∷ ps)) = some (p ∷ ps)

-- `rulePaths`
unfoldable pub rule_paths : Rule → Option (List Str)
unfolding paths_loop
rule_paths rule = or_root (paths_loop rule.matches [] [])

abbrev nat_of : ℤ → Option ℕ
nat_of (pos n) = some n
nat_of (negsuc n) = none

-- `w`: a missing weight is 1.
abbrev pub weight_of : BackendRef → ℤ
weight_of br = get_or br.weight (pos 1)

abbrev pub backend : BackendRef → Str → ProxyBackend
backend br path = record { service = br.name; path = path; port = br.port }

-- The loop over `rule.BackendRefs`, with its variables `weight`, `out` and `ruleBackends`.
unfoldable pub refs_loop :
    List BackendRef → List Str → ℤ → List ProxyBackend → ℕ → Checked (List ProxyBackend × ℕ)
unfolding int_eq
refs_loop [] paths weight out n = ok (out, n)
refs_loop (br ∷ brs) paths weight out n =
    let w = weight_of br in
    let skip = refs_loop brs paths weight out n in
    let take = refs_loop brs paths w (out ++ map (backend br) paths) (n + 1) in
    if ltb 0 br.filters
    then unsupported backend_filters
    else if int_eq w (pos 0)
    then skip
    else if nonneg weight && not (int_eq w weight)
    then unsupported weights
    else take

-- The loop over `route.Spec.Rules`.
unfoldable pub rules_loop : List Rule → List ProxyBackend → Checked (List ProxyBackend)
unfolding refs_loop rule_paths
rules_loop [] out = ok out
rules_loop (rule ∷ rules) out = elim (ltb 0 rule.filters) [
  | true ↦ unsupported rule_filters
  | false ↦ elim (rule_paths rule) [
    | none ↦ unsupported path_type
    | some paths ↦ elim (refs_loop rule.backend_refs paths (negsuc 0) out 0) [
      | unsupported reason ↦ unsupported reason
      | ok (out', n) ↦ elim (n == 0) [
        | true ↦ unsupported no_traffic
        | false ↦ rules_loop rules out'
      ]
    ]
  ]
]

abbrev check_count : Checked (List ProxyBackend) → Checked (List ProxyBackend)
check_count (unsupported reason) = unsupported reason
check_count (ok out) =
    if length out == 0
    then unsupported no_rules
    else if ltb max_proxy_backends (length out)
    then unsupported too_many
    else ok out

-- `routeBackends`
unfoldable pub route_backends : Route → Checked (List ProxyBackend)
unfolding rules_loop
route_backends route = check_count (rules_loop route.rules [])
