-- ===== src/Gateway/Collect.antt =====
-- The loop with a `seen` map and an output slice that `admittedHostnames` and `rulePaths` share.
use netbird_operator.Prelude.{
  ◌≡◌, ap, Bool, true, false, not, ◌&&◌, ◌||◌, List, [], ◌∷◌, ◌++◌, arith, if◌then◌else◌, any,
  any-append, Str, str_eq, str_eq→eq, str_eq_comm, Bool-cases, inl, inr,
}

-- `seen[h]`, or membership in a list of texts.
unfoldable pub mem : Str → List Str → Bool
mem h xs = any (str_eq h) xs

-- No text occurs twice.
abbrev pub Distinct : List Str → Type 0
Distinct [] = Unit
Distinct (x ∷ xs) = (mem x xs ≡ false) × Distinct xs

-- `if !seen[h] && test(h) { seen[h] = true; out = append(out, h) }` for each `h`.
unfoldable pub collect_new : (Str → Bool) → List Str → List Str → List Str → List Str
collect_new test [] seen out = out
collect_new test (h ∷ hs) seen out =
    let new = not (mem h seen) && test h in
    collect_new test hs (if new then h ∷ seen else seen) (if new then out ++ h ∷ [] else out)

abbrev pub SameMembers : List Str → List Str → Type 0
SameMembers xs ys = (k : Str) → mem k xs ≡ mem k ys

pub mem-snoc : (k h : Str) (xs : List Str) → mem k (xs ++ h ∷ []) ≡ (mem k xs || str_eq k h)
unfolding mem
mem-snoc k h xs = ground (arith, any-append (str_eq k) xs (h ∷ []))

-- Equal texts give equal tests.
test_congr : (test : Str → Bool) (k h : Str) → str_eq k h ≡ true → test k ≡ test h
test_congr test k h e = ap test (str_eq→eq k h e)

pub SameMembers-add :
    (h : Str) (seen out : List Str) → SameMembers seen out → SameMembers (h ∷ seen) (out ++ h ∷ [])
unfolding mem
SameMembers-add h seen out same k = ground (arith, same k, mem-snoc k h out)

-- A text is collected exactly when it was there, or is offered and passes the test.
pub mem-collect_new :
    (test : Str → Bool) (hs seen out : List Str) (k : Str)
    → SameMembers seen out
    → mem k (collect_new test hs seen out) ≡ (mem k out || (mem k hs && test k))
unfolding collect_new mem
mem-collect_new test [] seen out k same = ground arith
mem-collect_new test (h ∷ hs) seen out k same = elim (Bool-cases (not (mem h seen) && test h)) [
  | inl new ↦ rw new (
      ground (
        arith,
        mem-collect_new test hs (h ∷ seen) (out ++ h ∷ []) k (SameMembers-add h seen out same),
        mem-snoc k h out,
        test_congr test k h,
      ))
  | inr old ↦ rw old (
      ground (
        arith,
        mem-collect_new test hs seen out k same,
        test_congr test k h,
        same h,
        same k,
        str_eq→eq k h,
      ))
]

pub snoc-Distinct :
    (h : Str) (xs : List Str) → mem h xs ≡ false → Distinct xs → Distinct (xs ++ h ∷ [])
unfolding mem
snoc-Distinct h [] new d = ground arith
snoc-Distinct h (x ∷ xs) new d =
    ground (arith, snoc-Distinct h xs, mem-snoc x h xs, str_eq_comm x h)

-- Nothing is collected twice.
pub collect_new-Distinct :
    (test : Str → Bool) (hs seen out : List Str)
    → SameMembers seen out
    → Distinct out
    → Distinct (collect_new test hs seen out)
unfolding collect_new
collect_new-Distinct test [] seen out same d = d
collect_new-Distinct test (h ∷ hs) seen out same d =
    elim (Bool-cases (not (mem h seen) && test h)) [
      | inl new ↦ rw new (
          collect_new-Distinct test hs (h ∷ seen) (out ++ h ∷ []) (SameMembers-add h seen out same)
            (snoc-Distinct h out (ground (arith, same h)) d))
      | inr old ↦ rw old (collect_new-Distinct test hs seen out same d)
    ]
