-- ===== src/Gateway/Backends/Paths.antt =====
-- What `rulePaths` collects.
use netbird_operator.Prelude.{
  ◌≡◌, ◌≢◌, refl, Bool, true, false, not, none, some, List, [], ◌∷◌, ◌++◌, map, arith,
  if◌then◌else◌, any, Str, bytes, Bool-cases, inl, inr, is_some, ap, str_eq_refl,
}
use netbird_operator.Gateway.Types.{RouteMatch, Rule}
use netbird_operator.Gateway.Collect.{
  mem, Distinct, collect_new, mem-collect_new, collect_new-Distinct,
}
use netbird_operator.Gateway.Backends.{
  match_unsupported, match_path, paths_loop, or_root, rule_paths,
}

abbrev any_path : Str → Bool
any_path p = true

paths_loop-collect_new :
    (ms : List RouteMatch) (seen paths : List Str)
    → paths_loop ms seen paths ≡ (
        if any match_unsupported ms
        then none
        else some (collect_new any_path (map match_path ms) seen paths))
unfolding paths_loop collect_new
paths_loop-collect_new [] seen paths = refl
paths_loop-collect_new (m ∷ ms) seen paths = elim (Bool-cases (mem (match_path m) seen)) [
  | inl old ↦ rw old (ground (arith, paths_loop-collect_new ms seen paths))
  | inr new ↦
      rw new (
        ground
          (arith, paths_loop-collect_new ms (match_path m ∷ seen) (paths ++ match_path m ∷ [])))
]

-- The prefixes that the matches contribute: "/" if there is no match.
abbrev contributed : List RouteMatch → List Str
contributed [] = bytes "/" ∷ []
contributed (m ∷ ms) = map match_path (m ∷ ms)

abbrev collected : List RouteMatch → List Str
collected ms = collect_new any_path (map match_path ms) [] []

mem-collected : (ms : List RouteMatch) (p : Str) → mem p (collected ms) ≡ mem p (map match_path ms)
unfolding mem
mem-collected ms p =
    ground (arith, mem-collect_new any_path (map match_path ms) [] [] p (λ k. refl))

or_root_ne-nil : (o : List Str) → o ≢ [] → or_root (some o) ≡ some o
or_root_ne-nil [] h = absurd (h refl)
or_root_ne-nil (p ∷ ps) h = refl

collected-ne-nil : (m : RouteMatch) (ms : List RouteMatch) → collected (m ∷ ms) ≢ []
unfolding mem
collected-ne-nil m ms e = ground (
  arith,
  mem-collected (m ∷ ms) (match_path m),
  ap (mem (match_path m)) e,
  str_eq_refl (match_path m),
)

-- What holds of the paths of a supported rule.
pub record IsPaths (ms : List RouteMatch) (paths : List Str) : Type 0 where
  pub supported : any match_unsupported ms ≡ false
  pub distinct : Distinct paths
  pub contributes : (p : Str) → mem p paths ≡ mem p (contributed ms)
  pub nonempty : paths ≢ []

collected-IsPaths :
    (ms : List RouteMatch) (paths : List Str)
    → any match_unsupported ms ≡ false
    → or_root (some (collected ms)) ≡ some paths
    → IsPaths ms paths
unfolding collect_new mem
collected-IsPaths [] paths s h =
    let e : paths ≡ bytes "/" ∷ [] = cc in
    rw e
      (record { supported = s; distinct = (refl, tt); contributes = λ p. refl; nonempty = λ n. cc })
collected-IsPaths (m ∷ ms) paths s h =
    let whole = or_root_ne-nil (collected (m ∷ ms)) (collected-ne-nil m ms) in
    let e : paths ≡ collected (m ∷ ms) = cc in
    rw e (record {
      supported = s;
      distinct = collect_new-Distinct any_path (map match_path (m ∷ ms)) [] [] (λ k. refl) tt;
      contributes = mem-collected (m ∷ ms);
      nonempty = collected-ne-nil m ms;
    })

or_root-paths_loop :
    (ms : List RouteMatch)
    → or_root (paths_loop ms [] [])
      ≡ (if any match_unsupported ms then none else or_root (some (collected ms)))
or_root-paths_loop ms = rw (paths_loop-collect_new ms [] []) (ground arith)

-- The paths that `rulePaths` returns are distinct, not none, and those that the matches
-- contribute ("/" for a match without a path, and for a rule without matches); no match is of an
-- unsupported type.
rule_paths-IsPaths :
    (rule : Rule) (paths : List Str) → rule_paths rule ≡ some paths → IsPaths rule.matches paths
unfolding rule_paths
rule_paths-IsPaths rule paths h = elim (Bool-cases (any match_unsupported rule.matches)) [
  | inl bad ↦ ground (arith, or_root-paths_loop rule.matches)
  | inr good ↦
      collected-IsPaths rule.matches paths good (ground (arith, or_root-paths_loop rule.matches))
]

or_root-some : (o : List Str) → is_some (or_root (some o)) ≡ true
or_root-some [] = refl
or_root-some (p ∷ ps) = refl

-- `rulePaths` fails exactly when some match, in whatever position, is of an unsupported type.
pub rule_paths_supported :
    (rule : Rule) → is_some (rule_paths rule) ≡ not (any match_unsupported rule.matches)
unfolding rule_paths
rule_paths_supported rule =
    ground (arith, or_root-paths_loop rule.matches, or_root-some (collected rule.matches))
