-- ===== src/Gateway/Backends/Laws.antt =====
-- `routeBackends` against a description without loops: when it accepts, and what it yields.
use netbird_operator.Prelude.Int.{negsuc}
use netbird_operator.Prelude.{
  ◌≡◌, refl, Bool, true, not, ◌&&◌, List, [], ◌∷◌, ◌++◌, append_assoc, append-nil, ltb, leb, ◌==◌,
  arith, any, all, length, Option-cases, inl, inr, ◌⊎◌, get_or,
}
use netbird_operator.Gateway.Types.{ProxyBackend, Rule, Route}
use netbird_operator.Gateway.Backends.{
  Checked, ok, Unsupported, unsupported, refs_loop, rules_loop, rule_paths, route_backends,
  max_proxy_backends, check_count, match_unsupported,
}
use netbird_operator.Gateway.Backends.Refs.{
  active, expected_refs, unfiltered, same_weight, nonneg_weight, is_ok, refs_loop_value,
  refs_loop_ok,
}
use netbird_operator.Gateway.Backends.Paths.{rule_paths_supported}

-- The backends of a rule, in the order of its backendRefs and, for each, of its paths.
abbrev expected_rule : Rule → List ProxyBackend
expected_rule rule = expected_refs rule.backend_refs (get_or (rule_paths rule) [])

abbrev pub expected_rules : List Rule → List ProxyBackend
expected_rules [] = []
expected_rules (rule ∷ rules) = expected_rule rule ++ expected_rules rules

-- No filters, only prefix paths, one weight, and some traffic.
abbrev pub rule_supported : Rule → Bool
rule_supported rule =
    not (ltb 0 rule.filters)
    && not (any match_unsupported rule.matches)
    && all unfiltered rule.backend_refs
    && same_weight (active rule.backend_refs)
    && not (length (active rule.backend_refs) == 0)

-- The weights that the Gateway API admits.
abbrev valid_weights : Rule → Bool
valid_weights rule = all nonneg_weight rule.backend_refs

Checked-cases :
    {A : Type 0} (c : Checked A)
    → ((u : Unsupported) × (c ≡ unsupported u)) ⊎ ((a : A) × (c ≡ ok a))
Checked-cases (ok a) = inr (a, refl)
Checked-cases (unsupported u) = inl (u, refl)

rules_loop_value :
    (rules : List Rule) (out r : List ProxyBackend)
    → rules_loop rules out ≡ ok r
    → r ≡ out ++ expected_rules rules
unfolding rules_loop
rules_loop_value [] out r h = ground (arith, append-nil out)
rules_loop_value (rule ∷ rules) out r h = elim (Option-cases (rule_paths rule)) [
  | inl e ↦ ground arith
  | inr (paths, e) ↦ elim (Checked-cases (refs_loop rule.backend_refs paths (negsuc 0) out 0)) [
    | inl (u, f) ↦ ground arith
    | inr ((o, m), f) ↦ ground (
      arith,
      refs_loop_value rule.backend_refs paths (negsuc 0) out o 0 m f,
      rules_loop_value rules o r,
      append_assoc out (expected_refs rule.backend_refs paths) (expected_rules rules),
    )
  ]
]

rules_loop_ok :
    (rules : List Rule) (out : List ProxyBackend)
    → all valid_weights rules ≡ true
    → is_ok (rules_loop rules out) ≡ all rule_supported rules
unfolding rules_loop
rules_loop_ok [] out h = refl
rules_loop_ok (rule ∷ rules) out h = elim (Option-cases (rule_paths rule)) [
  | inl e ↦ ground (arith, rule_paths_supported rule)
  | inr (paths, e) ↦ elim (Checked-cases (refs_loop rule.backend_refs paths (negsuc 0) out 0)) [
    | inl (u, f) ↦
        ground
          (arith, rule_paths_supported rule, refs_loop_ok rule.backend_refs paths (negsuc 0) out 0)
    | inr ((o, m), f) ↦ ground (
      arith,
      rule_paths_supported rule,
      refs_loop_ok rule.backend_refs paths (negsuc 0) out 0,
      refs_loop_value rule.backend_refs paths (negsuc 0) out o 0 m f,
      rules_loop_ok rules o,
    )
  ]
]

-- The count of backends is within the bound of the CRD.
abbrev pub count_supported : List ProxyBackend → Bool
count_supported out = not (length out == 0) && leb (length out) max_proxy_backends

check_count_value :
    (c : Checked (List ProxyBackend)) (bs : List ProxyBackend) → check_count c ≡ ok bs → c ≡ ok bs
check_count_value (ok out) bs h = ground arith
check_count_value (unsupported u) bs h = cc

-- The backends of an accepted route are each rule's active backendRefs at each of the rule's
-- paths, in order: nothing is dropped and nothing added.
pub route_backends_value :
    (route : Route) (bs : List ProxyBackend)
    → route_backends route ≡ ok bs
    → bs ≡ expected_rules route.rules
unfolding route_backends
route_backends_value route bs h =
    rules_loop_value route.rules [] bs (check_count_value (rules_loop route.rules []) bs h)

check_count_ok :
    (c : Checked (List ProxyBackend)) (rules : List Rule)
    → ((r : List ProxyBackend) → c ≡ ok r → r ≡ expected_rules rules)
    → is_ok (check_count c) ≡ (is_ok c && count_supported (expected_rules rules))
check_count_ok (ok out) rules h = rw (← h out refl) (ground arith)
check_count_ok (unsupported u) rules h = refl

-- A route whose weights are not negative is accepted exactly when each of its rules is supported
-- and the number of its backends is 1 to 64.
pub route_backends_ok :
    (route : Route)
    → all valid_weights route.rules ≡ true
    → is_ok (route_backends route)
      ≡ (all rule_supported route.rules && count_supported (expected_rules route.rules))
unfolding route_backends
route_backends_ok route valid = ground (
  arith,
  rules_loop_ok route.rules [] valid,
  check_count_ok (rules_loop route.rules []) route.rules (λ r. rules_loop_value route.rules [] r),
)
